-- ===== src/Prelude/Table.antt =====
-- A Go map, as an association list over keys with a Boolean equality.
use mathlib.Core.Path.{◌≡◌, refl, sym, ap₂}
use mathlib.Core.Logic.{◌↔◌, inl, inr}
use mathlib.Core.Bool.{Bool, true}
use mathlib.Core.List.{List, [], ◌∷◌}
use mathlib.Core.Option.{Option, none, some}
use native.Mathlib.Omega.{arith}
use titelheld.Prelude.Tests.{if◌then◌else◌, Bool-cases, some_injective}
use titelheld.Prelude.Lists.{All, In}

pub record Eq (K : Type 0) : Type 0 where
  pub beq : K → K → Bool
  pub beq_iff : (a b : K) → (beq a b ≡ true) ↔ (a ≡ b)

pub beq_self : {K : Type 0} ⦃e : Eq K⦄ (k : K) → e.beq k k ≡ true
beq_self ⦃e⦄ k = (e.beq_iff k k).1 refl

abbrev pub values : {K V : Type 0} → List (K × V) → List V
values [] = []
values ((j, w) ∷ m) = w ∷ values m

module _ {K : Type 0} ⦃e : Eq K⦄ {V : Type 0} where
  unfoldable pub lookup : K → List (K × V) → Option V
  lookup k [] = none
  lookup k ((j, v) ∷ m) = if e.beq j k then some v else lookup k m

  -- m[k] = v
  unfoldable pub insert : K → V → List (K × V) → List (K × V)
  insert k v [] = (k, v) ∷ []
  insert k v ((j, w) ∷ m) = if e.beq j k then (k, v) ∷ m else (j, w) ∷ insert k v m

  -- delete(m, k)
  unfoldable pub delete : K → List (K × V) → List (K × V)
  delete k [] = []
  delete k ((j, w) ∷ m) = if e.beq j k then delete k m else (j, w) ∷ delete k m

  pub lookup-In : (k : K) (v : V) (m : List (K × V)) → lookup k m ≡ some v → (j : K) × In (j, v) m
  unfolding lookup
  lookup-In k v [] h = absurd (ground arith)
  lookup-In k v ((j, w) ∷ m) h = elim (Bool-cases (e.beq j k)) [
    | inl p ↦
        let same : some w ≡ some v = rw p at h in
        (j, inl (ap₂ (λ a b. (a, b)) refl (some_injective (sym same))))
    | inr p ↦ let r = lookup-In k v m (rw p at h) in (r.0, inr r.1)
  ]

  -- what holds of all values holds after a change of one that it holds of
  pub All-insert :
      (P : V → Type 0) (k : K) (v : V) (m : List (K × V))
      → P v
      → All P (values m)
      → All P (values (insert k v m))
  unfolding insert
  All-insert P k v [] h hs = (h, tt)
  All-insert P k v ((j, w) ∷ m) h hs = elim (Bool-cases (e.beq j k)) [
    | inl p ↦ rw p (h, hs.1)
    | inr p ↦ rw p (hs.0, All-insert P k v m h hs.1)
  ]

  pub All-delete :
      (P : V → Type 0) (k : K) (m : List (K × V)) → All P (values m) → All P (values (delete k m))
  unfolding delete
  All-delete P k [] hs = tt
  All-delete P k ((j, w) ∷ m) hs = elim (Bool-cases (e.beq j k)) [
    | inl p ↦ rw p (All-delete P k m hs.1)
    | inr p ↦ rw p (hs.0, All-delete P k m hs.1)
  ]

  pub lookup-insert :
      (k j : K) (v : V) (m : List (K × V))
      → lookup j (insert k v m) ≡ (if e.beq k j then some v else lookup j m)
  unfolding lookup insert
  lookup-insert k j v [] = refl
  lookup-insert k j v ((i, w) ∷ m) =
      ground (arith, e.beq_iff k j, e.beq_iff i k, e.beq_iff i j, lookup-insert k j v m)

  pub lookup-delete :
      (k j : K) (m : List (K × V))
      → lookup j (delete k m) ≡ (if e.beq k j then none else lookup j m)
  unfolding lookup delete
  lookup-delete k j [] = ground arith
  lookup-delete k j ((i, w) ∷ m) =
      ground (arith, e.beq_iff k j, e.beq_iff i k, e.beq_iff i j, lookup-delete k j m)

pub ruleset table_laws = (lookup-insert, lookup-delete, beq_self)
