-- ===== src/Prelude/Text.antt =====
-- Texts: the code points of a Go string, and the functions of package strings that the code calls.
pub mod Chars
use Prim.Native.Nat.{ℕ, zero, suc, ◌+◌, ◌/◌, ◌%◌}
use Prim.Native.Char.{code}
use Prim.Native.String.{String}
use mathlib.Core.Path.{◌≡◌, refl, ap₂, subst}
use mathlib.Core.Bool.{Bool, true, false, ◌&&◌, ◌||◌}
use mathlib.Core.Logic.{◌↔◌}
use mathlib.Core.List.{List, [], ◌∷◌, ◌++◌, reverse}
use mathlib.Core.Option.{Option, none, some}
use native.Mathlib.Omega.{arith}
use titelheld.Prelude.Tests.{ltb, leb, ◌==◌, ==_iff, ==_self, if◌then◌else◌, and_split}
use titelheld.Prelude.Table.{Eq}

abbrev pub Text : Type 0
Text = List ℕ

abbrev pub codes : String → Text
codes String.[] = []
codes (String.◌∷◌ c s) = code c ∷ codes s

-- s == t
unfoldable pub text_eq : Text → Text → Bool
text_eq [] [] = true
text_eq [] (d ∷ t) = false
text_eq (c ∷ s) [] = false
text_eq (c ∷ s) (d ∷ t) = c == d && text_eq s t

pub text_eq_sound : (s t : Text) → text_eq s t ≡ true → s ≡ t
unfolding text_eq
text_eq_sound [] [] h = refl
text_eq_sound [] (d ∷ t) h = ground arith
text_eq_sound (c ∷ s) [] h = ground arith
text_eq_sound (c ∷ s) (d ∷ t) h =
    let p = and_split (c == d) (text_eq s t) h in
    ap₂ ◌∷◌ ((==_iff c d).0 p.0) (text_eq_sound s t p.1)

pub text_eq_self : (s : Text) → text_eq s s ≡ true
unfolding text_eq
text_eq_self [] = refl
text_eq_self (c ∷ s) = ground (arith, ==_self c, text_eq_self s)

pub text_eq_iff : (s t : Text) → (text_eq s t ≡ true) ↔ (s ≡ t)
text_eq_iff s t = (text_eq_sound s t, λ p. subst (λ u. text_eq s u ≡ true) p (text_eq_self s))

-- The tables of package unicode, which the model takes as a parameter.
pub record Unicode : Type 0 where
  pub is_letter : ℕ → Bool
  pub is_digit : ℕ → Bool
  pub to_lower : ℕ → ℕ

-- unicode.IsSpace
unfoldable pub is_space : ℕ → Bool
is_space c =
    (leb 9 c && leb c 13)
    || c == 32
    || c == 0x85
    || c == 0xa0
    || c == 0x1680
    || (leb 0x2000 c && leb c 0x200a)
    || c == 0x2028
    || c == 0x2029
    || c == 0x202f
    || c == 0x205f
    || c == 0x3000

unfoldable pub trim_left : Text → Text
unfolding is_space
trim_left [] = []
trim_left (c ∷ s) = let rest = trim_left s in if is_space c then rest else c ∷ s

-- strings.TrimSpace
unfoldable pub trim_space : Text → Text
unfolding trim_left
trim_space s = reverse (trim_left (reverse (trim_left s)))

-- strings.CutPrefix: what follows the prefix
unfoldable pub cut_prefix : Text → Text → Option Text
cut_prefix s [] = some s
cut_prefix [] (d ∷ p) = none
cut_prefix (c ∷ s) (d ∷ p) = if c == d then cut_prefix s p else none

-- strings.HasPrefix
unfoldable pub has_prefix : Text → Text → Bool
has_prefix s [] = true
has_prefix [] (d ∷ p) = false
has_prefix (c ∷ s) (d ∷ p) = c == d && has_prefix s p

-- strings.HasSuffix
unfoldable pub has_suffix : Text → Text → Bool
unfolding has_prefix
has_suffix s p = has_prefix (reverse s) (reverse p)

-- strings.Contains
unfoldable pub contains : Text → Text → Bool
unfolding has_prefix
contains [] p = has_prefix [] p
contains (c ∷ s) p = has_prefix (c ∷ s) p || contains s p

-- the word read so far stands last to first
fields_loop : (ℕ → Bool) → Text → Text → List Text
fields_loop sep [] [] = []
fields_loop sep [] (d ∷ word) = reverse (d ∷ word) ∷ []
fields_loop sep (c ∷ s) [] = fields_loop sep s (if sep c then [] else c ∷ [])
fields_loop sep (c ∷ s) (d ∷ word) = elim (sep c) [
  | true ↦ reverse (d ∷ word) ∷ fields_loop sep s []
  | false ↦ fields_loop sep s (c ∷ d ∷ word)
]

-- strings.FieldsFunc
unfoldable pub fields_func : Text → (ℕ → Bool) → List Text
unfolding fields_loop
fields_func s sep = fields_loop sep s []

-- strings.Fields
unfoldable pub fields : Text → List Text
unfolding fields_func is_space
fields s = fields_func s is_space

-- strings.Join
unfoldable pub join : List Text → Text → Text
join [] sep = []
join (w ∷ []) sep = w
join (w ∷ v ∷ ws) sep = w ++ sep ++ join (v ∷ ws) sep

pub cut_prefix-append : (p s : Text) → cut_prefix (p ++ s) p ≡ some s
unfolding cut_prefix
cut_prefix-append [] s = refl
cut_prefix-append (c ∷ p) s = ground (arith, ==_self c, cut_prefix-append p s)

pub cut_prefix_sound : (s p rest : Text) → cut_prefix s p ≡ some rest → s ≡ p ++ rest
unfolding cut_prefix
cut_prefix_sound s [] rest h = ground arith
cut_prefix_sound [] (d ∷ p) rest h = ground arith
cut_prefix_sound (c ∷ s) (d ∷ p) rest h = ground (arith, ==_iff c d, cut_prefix_sound s p rest)

pub has_prefix-append : (p s : Text) → has_prefix (p ++ s) p ≡ true
unfolding has_prefix
has_prefix-append [] s = refl
has_prefix-append (c ∷ p) s = ground (arith, ==_self c, has_prefix-append p s)

pub contains-append : (a p b : Text) → contains (a ++ p ++ b) p ≡ true
unfolding contains
contains-append [] [] [] = unfold has_prefix in refl
contains-append [] [] (c ∷ b) = unfold has_prefix in refl
contains-append [] (d ∷ p) b = ground (arith, has_prefix-append (d ∷ p) b)
contains-append (c ∷ a) p b = ground (arith, contains-append a p b)

instance abbrev pub text_key : Eq Text
text_key = record { beq = text_eq; beq_iff = text_eq_iff }

pub fields-empty : fields [] ≡ []
unfolding fields fields_func fields_loop
fields-empty = refl

-- the decimal digits of a number, in front of those written
digits_loop : ℕ → ℕ → Text → Text
digits_loop zero n written = written
digits_loop (suc more) n written =
    let rest = digits_loop more (n / 10) ((48 + n % 10) ∷ written) in
    if ltb n 10 then (48 + n) ∷ written else rest

-- strconv.Itoa of a number of at most 20 digits, as those of 64 bits are
unfoldable pub itoa : ℕ → Text
unfolding digits_loop
itoa n = digits_loop 20 n []
