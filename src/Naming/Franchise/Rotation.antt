-- ===== src/Naming/Franchise/Rotation.antt =====
-- internal/naming/franchise.go: theorems on Next, alone and with the position that the store keeps.
use mathlib.Core.Option.{some-injective}
use titelheld.Prelude.{
  ℕ, suc, ◌+◌, ◌<◌, ◌≡◌, refl, sym, ap, subst, ◌∙◌, inl, inr, Bool, true, false, Option, none, some,
  List, [], ◌∷◌, ◌++◌, arith, All, drop, length, Bool-cases,
}
use titelheld.Prelude.Int.{pos}
use titelheld.Prelude.Table.{beq_self}
use titelheld.Prelude.Text.{Text}
use titelheld.Store.{Franchise, FranchiseKey, Memory, franchise_key_eq}
use titelheld.Store.InMemory.{franchise_position, advance_franchise_past}
use titelheld.Store.Rotation.{advance_franchise_past_lem}
use titelheld.Naming.Franchise.{is_reserved, next_from, next}

module _ (equal_fold : Text → Text → Bool) (f : Franchise) where
  abbrev pub IsReserved : Text → Type 0
  IsReserved title = is_reserved equal_fold f title ≡ true

  -- the entry after the reserved ones that a list starts with
  abbrev pub IsFirst : ℕ → List Text → Text → ℕ → Type 0
  IsFirst at titles title i =
      (skipped : List Text) × (rest : List Text) × (titles ≡ skipped ++ title ∷ rest)
      × All IsReserved skipped
      × (is_reserved equal_fold f title ≡ false)
      × (i ≡ at + length skipped)

  next_from-none :
      (at : ℕ) (titles : List Text)
      → next_from equal_fold f at titles ≡ none
      → All IsReserved titles
  unfolding next_from
  next_from-none at [] e = tt
  next_from-none at (t ∷ ts) e = elim (Bool-cases (is_reserved equal_fold f t)) [
    | inl r ↦ (r, next_from-none (suc at) ts (ground (arith, r)))
    | inr r ↦ absurd (ground (arith, r))
  ]

  next_from-some :
      (at : ℕ) (titles : List Text) (title : Text) (i : ℕ)
      → next_from equal_fold f at titles ≡ some (title, i)
      → IsFirst at titles title i
  unfolding next_from
  next_from-some at [] title i e = absurd (cc)
  next_from-some at (t ∷ ts) title i e = elim (Bool-cases (is_reserved equal_fold f t)) [
    | inl r ↦
        let ih = next_from-some (suc at) ts title i (ground (arith, r)) in
        (t ∷ ih.0, ih.1, ap (λ xs. t ∷ xs) ih.2, (r, ih.3), ih.4, omega (arith, ih.5))
    | inr r ↦
        let same : (t ≡ title) × (at ≡ i) = ground (arith, r) in
        (
          [],
          ts,
          ap (λ x. x ∷ ts) same.0,
          tt,
          ap (is_reserved equal_fold f) (sym same.0) ∙ r,
          omega (arith, same.1),
        )
  ]

  -- the answer that is right at a position
  abbrev pub IsRight : ℕ → Option (Text × ℕ) → Type 0
  IsRight position none = All IsReserved (drop position f.titles)
  IsRight position (some (title, i)) = IsFirst position (drop position f.titles) title i

  -- The entry offered from a position is the first at or after it that is not reserved, with its own
  -- index; where none is offered every entry from there on is reserved.
  pub next_lem : (position : ℕ) → IsRight position (next equal_fold f (pos position))
  unfolding next
  next_lem position = by_answer (next_from equal_fold f position (drop position f.titles)) refl
    where
      by_answer :
          (o : Option (Text × ℕ))
          → next_from equal_fold f position (drop position f.titles) ≡ o
          → IsRight position o
      by_answer none e = next_from-none position (drop position f.titles) e
      by_answer (some (title, i)) e = next_from-some position (drop position f.titles) title i e

  -- Once the stored position has been advanced past an entry, what is offered from it has a greater
  -- index than that entry and is not reserved.
  pub next-advance_franchise_past :
      (m m' : Memory) (athlete i j n : ℕ) (title : Text)
      → advance_franchise_past m athlete f.name (pos i) ≡ some (m', n)
      → next equal_fold f (pos (franchise_position m' athlete f.name)) ≡ some (title, j)
      → (i < j) × (is_reserved equal_fold f title ≡ false)
  next-advance_franchise_past m m' athlete i j n title e k =
      let first =
        subst (IsRight (franchise_position m' athlete f.name)) k
          (next_lem (franchise_position m' athlete f.name)) in
      (omega (arith, first.5, past), first.4)
    where
      past : i < franchise_position m' athlete f.name
      past =
          let key : FranchiseKey = (athlete, f.name) in
          let (after, _) = advance_franchise_past_lem m athlete f.name i in
          let same = ap (λ r. r.0) (some-injective _ _ (sym after.1 ∙ e)) in
          subst (λ x. i < franchise_position x athlete f.name) same
            (omega (arith, rw (beq_self key) at (after.2 athlete f.name)))
