-- ===== src/Prelude/Sort.antt =====
-- slices.SortFunc: a sort by a comparison. The order of entries that compare equal is not promised
-- by Go, and no theorem here rests on it.
use Prim.Native.Nat.{Ordering}
use mathlib.Core.Path.{◌≡◌, sym, subst}
use mathlib.Core.Bool.{Bool, true, false, not}
use mathlib.Core.List.{List, [], ◌∷◌, ◌++◌, Perm, perm_middle}
use mathlib.Core.List.Perm
use mathlib.Core.Logic.{◌⊎◌, inl, inr}
use native.Mathlib.Omega.{arith}
use titelheld.Prelude.Tests.{if◌then◌else◌, Bool-cases}
use titelheld.Prelude.Lists.{All, In, select, In-All, All-split}

abbrev pub Comparison : Type 0 → Type 0
Comparison A = A → A → Ordering

module _ {A : Type 0} (cmp : Comparison A) where
  -- a may stand before b
  abbrev pub before : A → A → Bool
  before a b = elim (cmp a b) [ Ordering.gt ↦ false | _ ↦ true ]

  insert_sorted : A → List A → List A
  insert_sorted x [] = x ∷ []
  insert_sorted x (y ∷ ys) = if before x y then x ∷ y ∷ ys else y ∷ insert_sorted x ys

  unfoldable pub sort_func : List A → List A
  unfolding insert_sorted
  sort_func [] = []
  sort_func (x ∷ xs) = insert_sorted x (sort_func xs)

  -- every entry may stand before all that follow it
  abbrev pub IsSorted : List A → Type 0
  IsSorted [] = Unit
  IsSorted (x ∷ xs) = All (λ y. before x y ≡ true) xs × IsSorted xs

  -- of a sorted list cut in two, the front is sorted and may stand before all the rest
  pub IsSorted-append :
      (xs ys : List A)
      → IsSorted (xs ++ ys)
      → IsSorted xs × ((a b : A) → In a xs → In b ys → before a b ≡ true)
  IsSorted-append [] ys s = (tt, λ a b m n. elim m [ ])
  IsSorted-append (x ∷ xs) ys s =
      let fronts = All-split (λ z. before x z ≡ true) xs ys s.0 in
      let rest = IsSorted-append xs ys s.1 in ((fronts.0, rest.0), head_or_rest fronts.1 rest.1)
    where
      head_or_rest :
          All (λ z. before x z ≡ true) ys
          → ((a b : A) → In a xs → In b ys → before a b ≡ true)
          → (a b : A) → In a (x ∷ xs)
          → In b ys
          → before a b ≡ true
      head_or_rest all ih a b (inl e) n =
          subst (λ c. before c b ≡ true) (sym e) (In-All (λ z. before x z ≡ true) b ys n all)
      head_or_rest all ih a b (inr m) n = ih a b m n

  insert_sorted-perm : (x : A) (ys : List A) → Perm (insert_sorted x ys) (x ∷ ys)
  unfolding insert_sorted
  insert_sorted-perm x [] = Perm.refl _
  insert_sorted-perm x (y ∷ ys) = elim (Bool-cases (before x y)) [
    | inl e ↦ rw e (Perm.refl _)
    | inr e ↦ rw e (Perm.trans (Perm.cons y (insert_sorted-perm x ys)) (Perm.swap x y ys))
  ]

  pub sort_func-perm : (xs : List A) → Perm (sort_func xs) xs
  unfolding sort_func
  sort_func-perm [] = Perm.refl _
  sort_func-perm (x ∷ xs) =
      Perm.trans (insert_sorted-perm x (sort_func xs)) (Perm.cons x (sort_func-perm xs))

  In-insert_sorted : (a x : A) (ys : List A) → In a (insert_sorted x ys) → (a ≡ x) ⊎ In a ys
  unfolding insert_sorted
  In-insert_sorted a x [] m = m
  In-insert_sorted a x (y ∷ ys) m = elim (Bool-cases (before x y)) [
    | inl e ↦ rw e at m
    | inr e ↦ In-rest a x y ys (In-insert_sorted a x ys) (rw e at m)
  ]
    where
      In-rest :
          (a x y : A) (ys : List A)
          → (In a (insert_sorted x ys) → (a ≡ x) ⊎ In a ys)
          → In a (y ∷ insert_sorted x ys)
          → (a ≡ x) ⊎ In a (y ∷ ys)
      In-rest a x y ys ih (inl e) = inr (inl e)
      In-rest a x y ys ih (inr m) = elim (ih m) [ inl e ↦ inl e | inr k ↦ inr (inr k) ]

  insert_sorted-In : (a x : A) (ys : List A) → (a ≡ x) ⊎ In a ys → In a (insert_sorted x ys)
  unfolding insert_sorted
  insert_sorted-In a x [] m = m
  insert_sorted-In a x (y ∷ ys) m = ground (arith, insert_sorted-In a x ys)

  pub In-sort_func : (a : A) (xs : List A) → In a (sort_func xs) → In a xs
  unfolding sort_func
  In-sort_func a [] m = m
  In-sort_func a (x ∷ xs) m = elim (In-insert_sorted a x (sort_func xs) m) [
    | inl e ↦ inl e
    | inr k ↦ inr (In-sort_func a xs k)
  ]

  pub sort_func-In : (a : A) (xs : List A) → In a xs → In a (sort_func xs)
  unfolding sort_func
  sort_func-In a [] m = m
  sort_func-In a (x ∷ xs) (inl e) = insert_sorted-In a x (sort_func xs) (inl e)
  sort_func-In a (x ∷ xs) (inr m) = insert_sorted-In a x (sort_func xs) (inr (sort_func-In a xs m))

-- A comparison orders: it is total and transitive.
pub record IsOrder {A : Type 0} (cmp : Comparison A) : Type 0 where
  pub total : (a b : A) → before cmp a b ≡ false → before cmp b a ≡ true
  pub transitive :
      (a b c : A) → before cmp a b ≡ true → before cmp b c ≡ true → before cmp a c ≡ true

module _ {A : Type 0} (cmp : Comparison A) (o : IsOrder cmp) where
  before-All :
      (x y : A) (ys : List A)
      → before cmp x y ≡ true
      → All (λ z. before cmp y z ≡ true) ys
      → All (λ z. before cmp x z ≡ true) ys
  before-All x y [] h k = tt
  before-All x y (z ∷ zs) h k = (o.transitive x y z h k.0, before-All x y zs h k.1)

  All-insert_sorted :
      (w x : A) (ys : List A)
      → before cmp w x ≡ true
      → All (λ z. before cmp w z ≡ true) ys
      → All (λ z. before cmp w z ≡ true) (insert_sorted cmp x ys)
  unfolding insert_sorted
  All-insert_sorted w x [] h k = (h, tt)
  All-insert_sorted w x (y ∷ ys) h k = elim (Bool-cases (before cmp x y)) [
    | inl e ↦ rw e (h, k)
    | inr e ↦ rw e (k.0, All-insert_sorted w x ys h k.1)
  ]

  insert_sorted-IsSorted :
      (x : A) (ys : List A) → IsSorted cmp ys → IsSorted cmp (insert_sorted cmp x ys)
  unfolding insert_sorted
  insert_sorted-IsSorted x [] s = (tt, tt)
  insert_sorted-IsSorted x (y ∷ ys) s = elim (Bool-cases (before cmp x y)) [
    | inl e ↦ rw e ((e, before-All x y ys e s.0), s)
    | inr e ↦ rw e (All-insert_sorted y x ys (o.total x y e) s.0, insert_sorted-IsSorted x ys s.1)
  ]

  pub sort_func-IsSorted : (xs : List A) → IsSorted cmp (sort_func cmp xs)
  unfolding sort_func
  sort_func-IsSorted [] = tt
  sort_func-IsSorted (x ∷ xs) = insert_sorted-IsSorted x (sort_func cmp xs) (sort_func-IsSorted xs)

-- every entry is in a relation to all that follow it
abbrev pub AreOrdered : {A : Type 0} → (A → A → Type 0) → List A → Type 0
AreOrdered R [] = Unit
AreOrdered R (x ∷ xs) = All (R x) xs × AreOrdered R xs

module _ {A : Type 0} (cmp : Comparison A) (R : A → A → Type 0)
    (sound : (a b : A) → before cmp a b ≡ true → R a b) where
  All-before : (x : A) (ys : List A) → All (λ y. before cmp x y ≡ true) ys → All (R x) ys
  All-before x [] h = tt
  All-before x (y ∷ ys) h = (sound x y h.0, All-before x ys h.1)

  -- a sorted list is in the order that the comparison stands for
  pub IsSorted-AreOrdered : (xs : List A) → IsSorted cmp xs → AreOrdered R xs
  IsSorted-AreOrdered [] h = tt
  IsSorted-AreOrdered (x ∷ xs) h = (All-before x xs h.0, IsSorted-AreOrdered xs h.1)

-- a list is the entries that pass a test and those that do not
pub select-perm :
    {A : Type 0} (p : A → Bool) (xs : List A) → Perm (select p xs ++ select (λ x. not (p x)) xs) xs
select-perm p [] = Perm.refl _
select-perm p (x ∷ xs) = elim (Bool-cases (p x)) [
  | inl e ↦ rw e (Perm.cons x (select-perm p xs))
  | inr e ↦ rw e (
      Perm.trans (perm_middle (select p xs) (select (λ y. not (p y)) xs))
        (Perm.cons x (select-perm p xs)))
]
