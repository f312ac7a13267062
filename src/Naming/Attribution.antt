-- ===== src/Naming/Attribution.antt =====
-- internal/naming/attribution.go: the line that this service writes in front of a description, and
-- its removal. Offsets count code points, as the Go code counts bytes of the same text.
pub mod Removal
pub mod RoundTrip
use titelheld.Prelude.{
  ℕ, zero, suc, ◌+◌, ◌-◌, Bool, true, false, not, ◌||◌, Option, none, some, List, [], ◌∷◌, ◌++◌,
  if◌then◌else◌, ◌==◌, length, take, drop,
}
use titelheld.Prelude.Text.{Text, codes, contains, has_prefix, cut_prefix}
use titelheld.Classifier.Titles.{is_empty}

-- Attribution
abbrev pub attribution : Text
attribution = codes "Title by titelheld — https://github.com/jkreileder/titelheld"

abbrev pub sentinel : Text
sentinel = codes "https://github.com/jkreileder/titelheld"

unfoldable pub has_attribution : Text → Bool
has_attribution description = contains description sentinel

abbrev pub lf : Text
lf = 10 ∷ []

abbrev pub crlf : Text
crlf = 13 ∷ 10 ∷ []

-- Describe: the description to write, and whether anything changed
unfoldable pub describe : Text → Bool → Text × Bool
unfolding is_empty
describe existing enabled =
    if not enabled || has_attribution existing
    then (existing, false)
    else if is_empty existing
    then (attribution, true)
    else (attribution ++ (lf ++ (lf ++ existing)), true)

-- strings.Index: the offset of the first place where p stands
unfoldable pub index : Text → Text → Option ℕ
index [] p = if has_prefix [] p then some 0 else none
index (c ∷ s) p =
    let rest = index s p in
    if has_prefix (c ∷ s) p then some 0 else elim rest [ none ↦ none | some i ↦ some (suc i) ]

get_elem? : Text → ℕ → Option ℕ
get_elem? [] i = none
get_elem? (c ∷ s) zero = some c
get_elem? (c ∷ s) (suc i) = get_elem? s i

is_lf : Option ℕ → Bool
is_lf none = false
is_lf (some c) = c == 10

unfoldable pub starts_line : Text → ℕ → Bool
unfolding get_elem? is_lf
starts_line s i = i == 0 || is_lf (get_elem? s (i - 1))

unfoldable pub ends_line : Text → ℕ → Bool
unfolding get_elem? is_lf
ends_line s i = i == length s || is_lf (get_elem? s i) || has_prefix (drop i s) crlf

-- cutTerminator: CRLF is tried first
unfoldable pub cut_terminator : Text → Text
cut_terminator s = elim (cut_prefix s crlf) [
  | some rest ↦ rest
  | none ↦ elim (cut_prefix s lf) [ some rest ↦ rest | none ↦ s ]
]

-- the loop of RemoveAttribution; `none` means that the fuel ran out
unfoldable pub remove_loop : ℕ → Text → ℕ → Option (Text × Bool)
remove_loop zero d searched = none
remove_loop (suc fuel) d searched = elim (index (drop searched d) attribution) [
  | none ↦ some (d, false)
  | some offset ↦
      let start = searched + offset in
      let end = start + length attribution in
      elim (not (starts_line d start) || not (ends_line d end)) [
        | true ↦ remove_loop fuel d end
        | false ↦ some (take start d ++ cut_terminator (cut_terminator (drop end d)), true)
      ]
]

abbrev pub or_unchanged : Text → Option (Text × Bool) → Text × Bool
or_unchanged d none = (d, false)
or_unchanged d (some r) = r

-- RemoveAttribution: each round moves `searched` forward, so the description's length bounds them
unfoldable pub remove_attribution : Text → Text × Bool
unfolding remove_loop
remove_attribution d = or_unchanged d (remove_loop (suc (length d)) d 0)
