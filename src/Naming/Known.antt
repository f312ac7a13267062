-- ===== src/Naming/Known.antt =====
-- internal/naming/repeats.go, internal/naming/achievements.go and the line of a prompt of
-- internal/naming/prompt.go: the titles that a candidate may not be. Case folding and the normal form
-- NFKC of golang.org/x/text are parameters.
pub mod Refused
use titelheld.Prelude.{
  ℕ, Bool, true, false, not, ◌&&◌, ◌||◌, ◌==◌, Option, none, some, List, [], ◌∷◌, ◌++◌, map, select,
  if◌then◌else◌, is_empty, contains_func, take,
}
use titelheld.Prelude.Text.{Text, Unicode, codes, text_eq, fields, join}
use titelheld.Naming.Franchise.{normalize_for_match, entry_core}
use titelheld.Naming.Titles.{Categories, is_control, is_emoji_part}

pub record TextForms : Type 0 where
  pub categories : Categories
  pub fold : Text → Text
  pub nfkc : Text → Text

abbrev pub max_prompt_field_runes : ℕ
max_prompt_field_runes = 60

abbrev pub recent_title_limit : ℕ
recent_title_limit = 25

-- a control character, a line break among them, is a blank
abbrev pub flat_char : ℕ → ℕ
flat_char r = if r == 10 || r == 13 || r == 9 || is_control r then 32 else r

unfoldable pub one_line_within : Text → ℕ → Text
one_line_within value limit = take limit (join (fields (map flat_char value)) (32 ∷ []))

abbrev pub one_line : Text → Text
one_line value = one_line_within value max_prompt_field_runes

abbrev pub cap_titles : List Text → List Text
cap_titles = take recent_title_limit

-- the forms not seen before, of one title: the line shown, then the title as it is stored
abbrev pub forms_of : Text → List Text
forms_of title = one_line title ∷ title ∷ []

forms_loop : List Text → List Text → List Text
forms_loop seen [] = []
forms_loop seen (form ∷ forms) =
    let rest = forms_loop (form ∷ seen) forms in
    if is_empty form || contains_func seen (λ s. text_eq s form)
    then forms_loop seen forms
    else form ∷ rest

abbrev pub flat_map : {A B : Type 0} → (A → List B) → List A → List B
flat_map f [] = []
flat_map f (x ∷ xs) = f x ++ flat_map f xs

-- Context.ForbiddenTitles, of the recent titles and those of the examples
unfoldable pub forbidden_titles : List Text → List Text → List Text
unfolding forms_loop one_line_within
forbidden_titles recent_titles examples =
    forms_loop [] (flat_map forms_of (cap_titles recent_titles ++ examples))

module _ (f : TextForms) where
  -- a character that tells no two words apart
  abbrev pub is_dropped : ℕ → Bool
  is_dropped r =
      is_emoji_part f.categories r || (f.categories.is_mark r || f.categories.is_format r)

  abbrev pub spaced_char : ℕ → ℕ
  spaced_char r =
      if f.categories.unicode.is_letter r || f.categories.unicode.is_digit r then r else 32

  unfoldable pub normalize_for_repeat : Text → Text
  normalize_for_repeat text =
      join (fields (map spaced_char (select (λ r. not (is_dropped r)) (f.fold (f.nfkc text)))))
        (32 ∷ [])

  -- the first known title that a normal form is that of
  known_as : Text → List Text → Option Text
  unfolding normalize_for_repeat
  known_as normalized [] = none
  known_as normalized (title ∷ titles) =
      let known = normalize_for_repeat title in
      let rest = known_as normalized titles in
      if not (is_empty known) && text_eq normalized known then some title else rest

  unfoldable pub repeats_title : Text → List Text → Option Text
  unfolding known_as
  repeats_title candidate titles =
      let normalized = normalize_for_repeat candidate in
      if is_empty normalized then none else known_as normalized titles

  abbrev pub is_achievement : Text → Text → Bool
  is_achievement normalized name =
      let u = f.categories.unicode in
      let candidate = normalize_for_match u name in
      not (is_empty candidate)
      && (text_eq normalized candidate || text_eq normalized (entry_core u name))

  achieved_as : Text → List Text → Option Text
  achieved_as normalized [] = none
  achieved_as normalized (name ∷ achievements) =
      let rest = achieved_as normalized achievements in
      if is_achievement normalized name then some name else rest

  unfoldable pub copies_achievement : Text → List Text → Option Text
  unfolding achieved_as
  copies_achievement title achievements =
      let normalized = normalize_for_match f.categories.unicode title in
      if is_empty normalized then none else achieved_as normalized achievements
