-- ===== src/Prelude/Text/Chars.antt =====
-- Predicates of characters, through the functions of package strings.
use Prim.Native.Nat.{ℕ, zero, suc, ◌/◌, ◌≤◌}
use mathlib.Core.Bool.{Bool, true, false}
use mathlib.Core.Logic.{inl, inr}
use mathlib.Core.List.{List, [], ◌∷◌, ◌++◌, reverse, reverse_aux}
use native.Mathlib.Omega.{arith}
use titelheld.Prelude.Tests.{ltb, if◌then◌else◌, Bool-cases}
use titelheld.Prelude.Lists.{All, All-append, take}
use titelheld.Prelude.Text.{
  Text, is_space, fields_loop, fields_func, fields, join, digits_loop, itoa,
}

All-reverse_aux :
    {A : Type 0} (P : A → Type 0) (xs ys : List A) → All P xs → All P ys → All P (reverse_aux xs ys)
All-reverse_aux P [] ys h k = k
All-reverse_aux P (x ∷ xs) ys h k = All-reverse_aux P xs (x ∷ ys) h.1 (h.0, k)

pub All-reverse : {A : Type 0} (P : A → Type 0) (xs : List A) → All P xs → All P (reverse xs)
All-reverse P xs h = All-reverse_aux P xs [] h tt

fields_loop-All :
    (P : ℕ → Type 0) (sep : ℕ → Bool) (s word : Text)
    → All P s
    → All P word
    → All (All P) (fields_loop sep s word)
unfolding fields_loop
fields_loop-All P sep [] [] h k = tt
fields_loop-All P sep [] (d ∷ word) h k = (All-reverse P (d ∷ word) k, tt)
fields_loop-All P sep (c ∷ s) [] h k =
    fields_loop-All P sep s (if sep c then [] else c ∷ []) h.1 (started (sep c))
  where
    started : (b : Bool) → All P (if b then [] else c ∷ [])
    started true = tt
    started false = (h.0, tt)
fields_loop-All P sep (c ∷ s) (d ∷ word) h k =
    by_sep (sep c) (fields_loop-All P sep s [] h.1 tt)
      (fields_loop-All P sep s (c ∷ d ∷ word) h.1 (h.0, k))
  where
    by_sep :
        (b : Bool)
        → All (All P) (fields_loop sep s [])
        → All (All P) (fields_loop sep s (c ∷ d ∷ word))
        → All (All P) (elim b [
          | true ↦ reverse (d ∷ word) ∷ fields_loop sep s []
          | false ↦ fields_loop sep s (c ∷ d ∷ word)
        ])
    by_sep true x y = (All-reverse P (d ∷ word) k, x)
    by_sep false x y = y

pub fields-All : (P : ℕ → Type 0) (s : Text) → All P s → All (All P) (fields s)
unfolding fields fields_func
fields-All P s h = fields_loop-All P is_space s [] h tt

pub join-All :
    (P : ℕ → Type 0) (ws : List Text) (sep : Text)
    → All P sep
    → All (All P) ws
    → All P (join ws sep)
unfolding join
join-All P [] sep h k = tt
join-All P (w ∷ []) sep h k = k.0
join-All P (w ∷ v ∷ ws) sep h k =
    All-append P (w ++ sep) (join (v ∷ ws) sep) (All-append P w sep k.0 h)
      (join-All P (v ∷ ws) sep h k.1)

digits_loop-All :
    (more n : ℕ) (written : Text)
    → All (λ r. 48 ≤ r) written
    → All (λ r. 48 ≤ r) (digits_loop more n written)
unfolding digits_loop
digits_loop-All zero n written h = h
digits_loop-All (suc more) n written h = elim (Bool-cases (ltb n 10)) [
  | inl e ↦ rw e (omega arith, h)
  | inr e ↦ rw e (digits_loop-All more (n / 10) _ (omega arith, h))
]

pub itoa-All : (n : ℕ) → All (λ r. 48 ≤ r) (itoa n)
unfolding itoa
itoa-All n = digits_loop-All 20 n [] tt

pub take-All : {A : Type 0} (P : A → Type 0) (n : ℕ) (xs : List A) → All P xs → All P (take n xs)
take-All P zero xs h = tt
take-All P (suc n) [] h = tt
take-All P (suc n) (x ∷ xs) h = (h.0, take-All P n xs h.1)
