-- ===== src/Naming/Titles.antt =====
-- internal/naming/naming.go: the validator that every candidate title passes. The tables of package
-- unicode are a parameter; unicode.IsControl is written out.
pub mod Accepted
use titelheld.Prelude.{
  ℕ, Bool, true, false, not, ◌&&◌, ◌||◌, ◌==◌, ltb, leb, Option, none, some, List, [], ◌∷◌, map,
  if◌then◌else◌, is_empty, length, contains_func,
}
use titelheld.Prelude.Text.{Text, Unicode, codes, fields, join, trim_space, contains}
use titelheld.Prelude.Fallible.{Fallible, returned, refused}
use titelheld.Store.{Language}

abbrev pub max_title_runes : ℕ
max_title_runes = 60

-- Language.Valid
unfoldable pub valid : Language → Bool
valid Language.german = true
valid Language.english = true
valid (Language.other t) = false

pub record Title : Type 0 where
  pub text : Text
  pub language : Language

pub data TitleError : Type 0 where
  no_title bad_language title_too_long title_shape : TitleError
  title_banned : Text → TitleError

-- More tables of package unicode, by category: So, Mn and Cf.
pub record Categories : Type 0 where
  pub unicode : Unicode
  pub is_symbol : ℕ → Bool
  pub is_mark : ℕ → Bool
  pub is_format : ℕ → Bool

-- unicode.IsControl
abbrev pub is_control : ℕ → Bool
is_control r = ltb r 0x20 || (leb 0x7f r && leb r 0x9f)

-- the quotation marks
unfoldable pub is_quote : ℕ → Bool
is_quote r =
    r == 0x22
    || r == 0x27
    || r == 0x201c
    || r == 0x201d
    || r == 0x201e
    || r == 0x2018
    || r == 0x2019

-- strings.ToLower
abbrev pub lowered : Categories → Text → Text
lowered c = map c.unicode.to_lower

abbrev pub default_banned_words : List Text
default_banned_words = codes "Epic" ∷ codes "Crushing" ∷ codes "Beast" ∷ []

module _ (c : Categories) where
  unfoldable pub is_emoji_part : ℕ → Bool
  is_emoji_part r =
      if r == 0xfe0f || r == 0xfe0e || r == 0x200d || r == 0x20e3
      then true
      else if leb 0x1f3fb r && leb r 0x1f3ff
      then true
      else if r == 0xb0
      then false
      else ltb 0x7f r && c.is_symbol r

  -- a character that no title carries
  abbrev pub is_disallowed : ℕ → Bool
  is_disallowed r = is_quote r || is_control r || is_emoji_part r

  -- checkShape: true is an error
  unfoldable pub check_shape : Text → Bool
  unfolding is_emoji_part
  check_shape text = contains_func text is_disallowed

  -- NewValidator: the banned words
  unfoldable pub new_validator : List Text → List Text
  new_validator [] = []
  new_validator (word ∷ banned) =
      let rest = new_validator banned in
      if is_empty (trim_space word) then rest else lowered c (trim_space word) ∷ rest

  -- the first banned word that a lowered title contains
  unfoldable pub banned_in : Text → List Text → Option Text
  banned_in text [] = none
  banned_in text (word ∷ banned) = if contains text word then some word else banned_in text banned

  -- whitespace runs as single spaces
  abbrev pub collapsed : Text → Text
  collapsed candidate = join (fields candidate) (32 ∷ [])

  abbrev unless_banned : Text → Language → Option Text → Fallible TitleError Title
  unless_banned text language none = returned (record { text = text; language = language })
  unless_banned text language (some word) = refused (title_banned word)

  -- of a validator with these banned words
  unfoldable pub validate : List Text → Text → Language → Fallible TitleError Title
  unfolding check_shape banned_in valid
  validate banned candidate language =
      let text = collapsed candidate in
      if is_empty text
      then refused no_title
      else if not (valid language)
      then refused bad_language
      else if ltb max_title_runes (length text)
      then refused title_too_long
      else if check_shape text
      then refused title_shape
      else unless_banned text language (banned_in (lowered c text) banned)
