-- ===== src/Geo/Samples/Endpoints.antt =====
-- The samples of a track, against its endpoints.
use titelheld.Prelude.{
  ap, ℕ, zero, suc, ◌+◌, ◌≤◌, ◌≡◌, refl, Bool, true, false, not, ◌||◌, inl, inr, List, [], ◌∷◌,
  ◌++◌, Bool-cases, arith, ◌==◌, if◌then◌else◌, contains_func, select, map, length, length-append,
  All,
}
use titelheld.Geo.{Point, GeoOps}
use titelheld.Geo.Samples.{
  default_sample_count, same_point, at_endpoint, steps_from, sample_points, without_endpoints,
  dedupe_loop, dedupe_points, spread, farthest_from, arc_lengths,
}
use titelheld.Prelude.Int.{pos}

-- no entry is equal to a later one
abbrev pub AllDistinct : {A : Type 0} → (A → A → Bool) → List A → Type 0
AllDistinct same [] = Unit
AllDistinct same (x ∷ xs) = All (λ y. same x y ≡ false) xs × AllDistinct same xs

or_split : (a b : Bool) → (a || b) ≡ false → (a ≡ false) × (b ≡ false)
or_split true b h = ground arith
or_split false b h = (refl, h)

length-select : {A : Type 0} (p : A → Bool) (xs : List A) → length (select p xs) ≤ length xs
length-select p [] = omega arith
length-select p (x ∷ xs) = ground (arith, length-select p xs)

All-select : {A : Type 0} (p : A → Bool) (xs : List A) → All (λ x. p x ≡ true) (select p xs)
All-select p [] = tt
All-select p (x ∷ xs) = elim (Bool-cases (p x)) [
  | inl e ↦ rw e (e, All-select p xs)
  | inr e ↦ rw e (All-select p xs)
]

pub All-map :
    {A : Type 0} (P Q : A → Type 0) (xs : List A) → ((x : A) → P x → Q x) → All P xs → All Q xs
All-map P Q [] f h = tt
All-map P Q (x ∷ xs) f h = (f x h.0, All-map P Q xs f h.1)

length-steps : {A : Type 0} (f : ℕ → A) (step n : ℕ) → length (map f (steps_from step n)) ≡ n
length-steps f step zero = refl
length-steps f step (suc n) = ap suc (length-steps f (suc step) n)

module _ (ops : GeoOps) where
  fresh :
      (seen points : List Point)
      → All
          (λ p. contains_func seen (λ q. same_point ops q p) ≡ false)
          (dedupe_loop ops seen points)
  unfolding dedupe_loop
  fresh seen [] = tt
  fresh seen (p ∷ points) = elim (Bool-cases (contains_func seen (λ q. same_point ops q p))) [
    | inl e ↦ rw e (fresh seen points)
    | inr e ↦ rw e (e, All-map _ _ _ (λ r h. (or_split _ _ h).1) (fresh (p ∷ seen) points))
  ]

  distinct : (seen points : List Point) → AllDistinct (same_point ops) (dedupe_loop ops seen points)
  unfolding dedupe_loop
  distinct seen [] = tt
  distinct seen (p ∷ points) = elim (Bool-cases (contains_func seen (λ q. same_point ops q p))) [
    | inl e ↦ rw e (distinct seen points)
    | inr e ↦ rw e (
      All-map _ _ _ (λ r h. (or_split (same_point ops p r) _ h).0) (fresh (p ∷ seen) points),
      distinct (p ∷ seen) points,
    )
  ]

  length-dedupe : (seen points : List Point) → length (dedupe_loop ops seen points) ≤ length points
  unfolding dedupe_loop
  length-dedupe seen [] = omega arith
  length-dedupe seen (p ∷ points) =
      ground (arith, length-dedupe seen points, length-dedupe (p ∷ seen) points)

  All-dedupe :
      (P : Point → Type 0) (seen points : List Point)
      → All P points
      → All P (dedupe_loop ops seen points)
  unfolding dedupe_loop
  All-dedupe P seen [] h = tt
  All-dedupe P seen (p ∷ points) h =
      elim (Bool-cases (contains_func seen (λ q. same_point ops q p))) [
        | inl e ↦ rw e (All-dedupe P seen points h.1)
        | inr e ↦ rw e (h.0, All-dedupe P (p ∷ seen) points h.1)
      ]

  length-spread :
      (first : Point) (points : List Point) (count : ℕ)
      → length (spread ops first points count) ≤ count
  length-spread first points count =
      elim (Bool-cases (ops.lt (ops.of_int (pos 0)) (arc_lengths ops first points).1)) [
        | inl e ↦ rw e (omega (arith, length-steps _ 1 count))
        | inr e ↦ rw e (omega arith)
      ]

  negated : (b : Bool) → not b ≡ true → b ≡ false
  negated b h = ground arith

  -- Of a track that has a point, no sample falls in the cache cell of the first point or of the last,
  -- no sample is equal to an earlier one, and there is at most one sample more than were asked for,
  -- where 0 asks for six.
  pub sample_points_lem :
      (first : Point) (points : List Point) (count : ℕ)
      → All (λ s. at_endpoint ops first points s ≡ false) (sample_points ops (first ∷ points) count)
        × AllDistinct (same_point ops) (sample_points ops (first ∷ points) count)
        × (length (sample_points ops (first ∷ points) count)
            ≤ (if count == 0 then default_sample_count else count) + 1)
  unfolding sample_points dedupe_points without_endpoints
  sample_points_lem first points count =
      let count' = if count == 0 then default_sample_count else count in
      let all = spread ops first points count' ++ (farthest_from ops first (first ∷ points) ∷ []) in
      let kept = select (λ s. not (at_endpoint ops first points s)) all in
      (
        All-dedupe _ [] kept (All-map _ _ kept (λ s. negated _) (All-select _ all)),
        distinct [] kept,
        omega (
          arith,
          length-dedupe [] kept,
          length-select (λ s. not (at_endpoint ops first points s)) all,
          length-append (spread ops first points count')
              (farthest_from ops first (first ∷ points) ∷ []),
          length-spread first points count',
        ),
      )
