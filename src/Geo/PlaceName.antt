-- ===== src/Geo/PlaceName.antt =====
-- internal/geo/geo.go, NormalizePlaceName: the dotted abbreviations of a place name.
pub mod Rounds
use titelheld.Prelude.{
  ℕ, zero, suc, ◌≡◌, refl, ap, ap₂, ◌∙◌, sym, subst, and_split, Bool, true, false, ◌&&◌, ◌||◌, inl,
  inr, List, [], ◌∷◌, ◌==◌, ==_iff, arith, Bool-cases, if◌then◌else◌,
}
use titelheld.Prelude.Text.{Text, Unicode, text_eq, text_eq_iff, text_eq_self}

module _ (u : Unicode) where
  -- a letter that is not yet part of a match stands in front of a period and a letter
  abbrev pub dotted : Bool → ℕ → ℕ → Bool
  dotted before c d = before && (c == 46 && u.is_letter d)

  -- One ReplaceAllString, behind a letter that is not yet part of a match or not: a match takes the
  -- letter behind its period.
  unfoldable pub space_dots : Bool → Text → Text
  space_dots before [] = []
  space_dots before (c ∷ []) = c ∷ []
  space_dots before (c ∷ d ∷ s) =
      let matched = space_dots false s in
      let rest = space_dots (u.is_letter c) (d ∷ s) in
      if dotted before c d then c ∷ 32 ∷ d ∷ matched else c ∷ rest

  unfoldable pub normalize_loop : ℕ → Text → Text
  unfolding space_dots
  normalize_loop zero name = name
  normalize_loop (suc fuel) name =
      let spaced = space_dots false name in
      let rest = normalize_loop fuel spaced in if text_eq spaced name then name else rest

  -- three rounds are enough
  unfoldable pub normalize_place_name : Text → Text
  unfolding normalize_loop
  normalize_place_name name = normalize_loop 3 name

  -- A space behind every period between two letters: the description that the rounds arrive at.
  unfoldable pub space_all : Bool → Text → Text
  space_all before [] = []
  space_all before (c ∷ []) = c ∷ []
  space_all before (c ∷ d ∷ s) =
      let rest = space_all (u.is_letter c) (d ∷ s) in
      if dotted before c d then c ∷ 32 ∷ space_all (u.is_letter 32) (d ∷ s) else c ∷ rest
