-- ===== src/Logsafe.antt =====
-- internal/logsafe/logsafe.go: untrusted text on its way to a log. A string is its code points, an
-- invalid byte the replacement character, as a range over it reads them.
pub mod Bounds
use titelheld.Prelude.{
  ℕ, zero, suc, ◌+◌, ◌*◌, ◌^◌, Bool, not, ◌&&◌, ◌||◌, ◌==◌, ltb, List, [], ◌∷◌, map, if◌then◌else◌,
}
use titelheld.Prelude.Text.{Text}
use titelheld.Naming.Titles.{is_control}

abbrev pub max_len : ℕ
max_len = 256

abbrev pub max_block_len : ℕ
max_block_len = 16 * 2 ^ 10

-- the ellipsis
abbrev pub truncation_marker : Text
truncation_marker = 0x2026 ∷ []

-- utf8.RuneError
abbrev pub is_rune_error : ℕ → Bool
is_rune_error r = r == 0xfffd

-- utf8.RuneLen, of a code point that is no surrogate
unfoldable pub rune_len : ℕ → ℕ
rune_len r = if ltb r 0x80 then 1 else if ltb r 0x800 then 2 else if ltb r 0x10000 then 3 else 4

-- `is_format` is the category Cf; Zl and Zp have one character each
module _ (is_format : ℕ → Bool) where
  abbrev pub is_unsafe : ℕ → Bool
  is_unsafe r = is_control r || (is_format r || (r == 0x2028 || r == 0x2029))

  abbrev pub flattened : ℕ → ℕ
  flattened r = if is_unsafe r then 32 else r

  -- so many runes may still be kept
  unfoldable pub string_loop : ℕ → Text → Text
  string_loop left [] = []
  string_loop zero (r ∷ s) = truncation_marker
  string_loop (suc left) (r ∷ s) =
      let dropped = string_loop (suc left) s in
      let rest = string_loop left s in if is_rune_error r then dropped else flattened r ∷ rest

  -- String
  unfoldable pub string : Text → Text
  unfolding string_loop
  string s = string_loop max_len s

  abbrev pub kept_in_block : ℕ → ℕ
  kept_in_block r = if not (r == 10) && (not (r == 9) && is_unsafe r) then 32 else r

  unfoldable pub block_loop : ℕ → Text → Text
  unfolding rune_len
  block_loop size [] = []
  block_loop size (r ∷ s) =
      let grown = size + rune_len (kept_in_block r) in
      let dropped = block_loop size s in
      let rest = block_loop grown s in
      if is_rune_error r
      then dropped
      else if ltb max_block_len grown
      then truncation_marker
      else kept_in_block r ∷ rest

  -- Block
  unfoldable pub block : Text → Text
  unfolding block_loop
  block s = block_loop 0 s

  -- Strings
  unfoldable pub strings : List Text → List Text
  unfolding string
  strings values = map string values
