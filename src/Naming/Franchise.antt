-- ===== src/Naming/Franchise.antt =====
-- internal/naming/franchise.go: the ordered series of titles, the entry that is offered next, the
-- guard against a title that takes another entry, and the evidence that an entry was used. The folding
-- of strings.EqualFold and the tables of package unicode are parameters.
pub mod Rotation
pub mod Evidence
use titelheld.Prelude.{
  ℕ, suc, ◌+◌, Bool, true, false, not, ◌&&◌, ◌||◌, Option, none, some, List, [], ◌∷◌, ◌++◌,
  if◌then◌else◌, leb, drop, length, contains_func, select, map,
}
use titelheld.Prelude.Int.{ℤ, pos, negsuc}
use titelheld.Prelude.Text.{
  Text, Unicode, codes, text_eq, trim_space, fields, join, cut_prefix, contains,
}
use titelheld.Store.{Franchise}

-- a character of a title that counts, in lower case; another is a blank
unfoldable pub fold_char : Unicode → ℕ → ℕ
fold_char u c = if u.is_letter c || u.is_digit c then u.to_lower c else 32

-- normalizeForMatch
unfoldable pub normalize_for_match : Unicode → Text → Text
unfolding fold_char
normalize_for_match u text = join (fields (map (fold_char u) text)) (codes " ")

abbrev pub articles : List Text
articles = codes "the " ∷ codes "a " ∷ codes "an " ∷ []

-- what follows the first article that a text starts with, or the text
abbrev pub or_self : Option Text → Text → Text
or_self none rest = rest
or_self (some t) rest = t

unfoldable pub without_article : List Text → Text → Text
without_article [] text = text
without_article (article ∷ rest_articles) text =
    let rest = without_article rest_articles text in or_self (cut_prefix text article) rest

unfoldable pub entry_core : Unicode → Text → Text
unfolding without_article
entry_core u entry = without_article articles (normalize_for_match u entry)

abbrev pub is_blank : Text → Bool
is_blank [] = true
is_blank (c ∷ cs) = false

abbrev pub padded : Text → Text
padded t = codes " " ++ t ++ codes " "

unfoldable pub uses_entry : Unicode → Text → Text → Bool
uses_entry u title entry =
    not (is_blank (entry_core u entry))
    && (not (is_blank (normalize_for_match u title))
        && contains (padded (normalize_for_match u title)) (padded (entry_core u entry)))

abbrev pub max_title_runes : ℕ
max_title_runes = 60

unfoldable pub offerable : Unicode → Text → Bool
offerable u entry =
    not (is_blank (entry_core u entry)) && leb (length (trim_space entry)) max_title_runes

-- Guarded
pub record Guarded : Type 0 where
  pub entries : List Text
  pub gear_name : Text

module _ (u : Unicode) where
  unfoldable pub is_motif : Text → Text → Bool
  is_motif gear_name entry =
      not (is_blank (entry_core u gear_name))
      && text_eq (entry_core u entry) (entry_core u gear_name)

  unfoldable pub claims : Text → Text → Text → Bool
  unfolding is_motif
  claims gear_name title entry =
      if not (is_motif gear_name entry)
      then uses_entry u title entry
      else not (is_blank (normalize_for_match u title))
        && (text_eq (normalize_for_match u title) (normalize_for_match u entry)
            || text_eq (normalize_for_match u title) (entry_core u entry))

  unfoldable pub guard : Franchise → Text → Guarded
  guard f offered = record {
    entries =
        select (λ title. not (not (is_blank offered) && claims f.gear_name offered title)) f.titles;
    gear_name = f.gear_name;
  }

  first_claim : Text → Text → List Text → Option Text
  first_claim gear_name title [] = none
  first_claim gear_name title (entry ∷ entries) =
      let rest = first_claim gear_name title entries in
      if claims gear_name title entry then some entry else rest

  unfoldable pub claimed : Guarded → Text → Option Text
  unfolding first_claim
  claimed g title = first_claim g.gear_name title g.entries

module _ (equal_fold : Text → Text → Bool) where
  unfoldable pub same_entry : Text → Text → Bool
  same_entry a b = equal_fold (trim_space a) (trim_space b)

  unfoldable pub is_reserved : Franchise → Text → Bool
  is_reserved f title = contains_func f.reserved (λ entry. same_entry entry title)

  -- the loop of Next over the entries at and after a position
  unfoldable pub next_from : Franchise → ℕ → List Text → Option (Text × ℕ)
  next_from f at [] = none
  next_from f at (title ∷ titles) =
      let rest = next_from f (suc at) titles in
      if is_reserved f title then rest else some (title, at)

  unfoldable pub next : Franchise → ℤ → Option (Text × ℕ)
  unfolding next_from
  next f (negsuc n) = none
  next f (pos position) = next_from f position (drop position f.titles)

  unfoldable pub applies : Franchise → Text → Text → Bool
  applies f sport_type gear_name =
      if not (is_blank (trim_space f.gear_name))
        && not (equal_fold (trim_space gear_name) (trim_space f.gear_name))
      then false
      else is_none f.sport_types || contains_func f.sport_types (equal_fold sport_type)
    where
      is_none : List Text → Bool
      is_none [] = true
      is_none (t ∷ ts) = false

  -- FranchiseFor
  unfoldable pub franchise_for : List Franchise → Text → Text → Option Franchise
  unfolding applies
  franchise_for [] sport_type gear_name = none
  franchise_for (f ∷ fs) sport_type gear_name =
      let rest = franchise_for fs sport_type gear_name in
      if applies f sport_type gear_name then some f else rest

-- DefaultProfile
abbrev pub default_profile : List Franchise
default_profile =
    record {
      name = codes "pink-panther";
      sport_types = codes "GravelRide" ∷ codes "Ride" ∷ [];
      gear_name = codes "Pink Panther";
      titles =
          codes "The Pink Panther"
          ∷ codes "A Shot in the Dark"
          ∷ codes "Inspector Clouseau"
          ∷ codes "The Return of the Pink Panther"
          ∷ codes "Trail of the Pink Panther"
          ∷ codes "Son of the Pink Panther"
          ∷ [];
      reserved =
          codes "The Pink Panther"
          ∷ codes "A Shot in the Dark"
          ∷ codes "Inspector Clouseau"
          ∷ codes "The Return of the Pink Panther"
          ∷ codes "Trail of the Pink Panther"
          ∷ [];
    }
    ∷ []
