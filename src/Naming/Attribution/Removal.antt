-- ===== src/Naming/Attribution/Removal.antt =====
-- internal/naming/attribution.go: the theorem on what RemoveAttribution takes out of a description.
use titelheld.Prelude.{
  ℕ, zero, suc, ◌+◌, ◌≤◌, ◌<◌, ◌≡◌, refl, sym, ap, ◌∙◌, ◌⊎◌, inl, inr, Bool, true, false, not, ◌||◌,
  some, [], ◌∷◌, ◌++◌, arith, length, take, subst, length-append, ap₂, drop, append_assoc,
  Bool-cases, Option-cases, take-append-drop,
}
use titelheld.Prelude.Text.{cut_prefix_sound, Text, has_prefix, cut_prefix}
use titelheld.Naming.Attribution.{
  attribution, lf, crlf, index, starts_line, ends_line, cut_terminator, remove_loop,
  remove_attribution, or_unchanged,
}

-- p stands in s at the offset i
abbrev pub Stands : Text → Text → ℕ → Type 0
Stands s p i = (before after : Text) × (s ≡ before ++ (p ++ after)) × (length before ≡ i)

has_prefix-drop : (s p : Text) → has_prefix s p ≡ true → s ≡ p ++ drop (length p) s
unfolding has_prefix
has_prefix-drop s [] h = refl
has_prefix-drop [] (d ∷ p) h = ground arith
has_prefix-drop (c ∷ s) (d ∷ p) h = ground (arith, has_prefix-drop s p)

Stands-suc : (c : ℕ) (s p : Text) (i : ℕ) → Stands s p i → Stands (c ∷ s) p (suc i)
Stands-suc c s p i (before, after, e, n) = (c ∷ before, after, ap (λ t. c ∷ t) e, ap suc n)

-- what is found stands there
index-Stands : (s p : Text) (i : ℕ) → index s p ≡ some i → Stands s p i
unfolding index
index-Stands [] p i h = elim (Bool-cases (has_prefix [] p)) [
  | inl e ↦ ([], drop (length p) [], has_prefix-drop [] p e, ground arith)
  | inr e ↦ absurd (ground arith)
]
index-Stands (c ∷ s) p i h = elim (Bool-cases (has_prefix (c ∷ s) p)) [
  | inl e ↦ ([], drop (length p) (c ∷ s), has_prefix-drop (c ∷ s) p e, ground arith)
  | inr e ↦ elim (Option-cases (index s p)) [
    | inl n ↦ absurd (ground arith)
    | inr (j, f) ↦
        subst (Stands (c ∷ s) p) (ground arith) (Stands-suc c s p j (index-Stands s p j f))
  ]
]

take-length : (s t : Text) → take (length s) (s ++ t) ≡ s
take-length [] t = refl
take-length (c ∷ s) t = ap (λ u. c ∷ u) (take-length s t)

drop-length : (s t : Text) → drop (length s) (s ++ t) ≡ t
drop-length [] t = refl
drop-length (c ∷ s) t = drop-length s t

length-take : (n : ℕ) (s : Text) → n ≤ length s → length (take n s) ≡ n
length-take zero s h = refl
length-take (suc n) [] h = absurd (omega arith)
length-take (suc n) (c ∷ s) h = ap suc (length-take n s (omega arith))

-- what stands behind the part that is passed stands in the whole
Stands-drop :
    (n : ℕ) (s p : Text) (i : ℕ) → n ≤ length s → Stands (drop n s) p i → Stands s p (n + i)
Stands-drop n s p i h (before, after, e, k) = (
  take n s ++ before,
  after,
  sym (take-append-drop n s)
      ∙ ap (λ t. take n s ++ t) e
      ∙ sym (append_assoc (take n s) before (p ++ after)),
  omega (arith, length-append (take n s) before, length-take n s h),
)

-- One whole line is gone from d, and at most two line ends behind it.
abbrev pub Removed : Text → Text → Type 0
Removed d d' =
    (before after : Text) × (d ≡ before ++ (attribution ++ after))
    × (starts_line d (length before) ≡ true)
    × (ends_line d (length before + length attribution) ≡ true)
    × (d' ≡ before ++ cut_terminator (cut_terminator after))

abbrev pub Outcome : Text → Text × Bool → Type 0
Outcome d r = ((r.1 ≡ false) × (r.0 ≡ d)) ⊎ ((r.1 ≡ true) × Removed d r.0)

length-Stands : (s p : Text) (i : ℕ) → Stands s p i → i + length p ≤ length s
length-Stands s p i (before, after, e, n) =
    omega (arith, ap length e, length-append before (p ++ after), length-append p after)

-- the two parts of s around p
Stands-parts :
    (s p : Text) (i : ℕ) (st : Stands s p i) → (take i s ≡ st.0) × (drop (i + length p) s ≡ st.1)
Stands-parts s p i (before, after, e, n) = (
  rw (e, ← n) (take-length before (p ++ after)),
  rw (e, ← n, ← length-append before p, ← append_assoc before p after)
      (drop-length (before ++ p) after),
)

Stands-Removed :
    (d : Text) (start : ℕ)
    → Stands d attribution start
    → starts_line d start ≡ true
    → ends_line d (start + length attribution) ≡ true
    → Removed d
        (take start d ++ cut_terminator (cut_terminator (drop (start + length attribution) d)))
Stands-Removed d start (before, after, e, n) hs he =
    let parts = Stands-parts d attribution start (before, after, e, n) in
    (
      before,
      after,
      e,
      subst (λ k. starts_line d k ≡ true) (sym n) hs,
      subst (λ k. ends_line d (k + length attribution) ≡ true) (sym n) he,
      ap₂ (λ (s t : Text). s ++ cut_terminator (cut_terminator t)) parts.0 parts.1,
    )

loop_lem :
    (fuel : ℕ) (d : Text) (searched : ℕ)
    → searched ≤ length d
    → length d < fuel + searched
    → (r : Text × Bool) × (remove_loop fuel d searched ≡ some r) × Outcome d r
unfolding remove_loop
loop_lem zero d searched h m = absurd (omega arith)
loop_lem (suc fuel) d searched h m = elim (Option-cases (index (drop searched d) attribution)) [
  | inl e ↦ ((d, false), rw (e, remove_loop), inl (refl, refl))
  | inr (offset, e) ↦
      let st = Stands-drop searched d attribution offset h (index-Stands _ attribution offset e) in
      let start = searched + offset in
      let end = start + length attribution in
      elim (Bool-cases (not (starts_line d start) || not (ends_line d end))) [
        | inl t ↦
            let ih = loop_lem fuel d end (length-Stands d attribution start st) (omega arith) in
            (ih.0, rw (e, remove_loop) (rw t ih.1), ih.2)
        | inr t ↦ (
          (take start d ++ cut_terminator (cut_terminator (drop end d)), true),
          rw (e, remove_loop) (rw t),
          inr (refl, Stands-Removed d start st (ground arith) (ground arith)),
        )
      ]
]

abbrev pub IsLineEnd : Text → Type 0
IsLineEnd t = (t ≡ []) ⊎ ((t ≡ lf) ⊎ (t ≡ crlf))

-- what cutTerminator takes is one line end, or nothing
cut_terminator-IsLineEnd : (s : Text) → (t : Text) × IsLineEnd t × (s ≡ t ++ cut_terminator s)
unfolding cut_terminator
cut_terminator-IsLineEnd s = elim (Option-cases (cut_prefix s crlf)) [
  | inr (rest, e) ↦ (crlf, inr (inr refl), rw (e, cut_terminator) (cut_prefix_sound s crlf rest e))
  | inl e ↦ elim (Option-cases (cut_prefix s lf)) [
    | inr (rest, f) ↦
        (lf, inr (inl refl), rw (e, cut_terminator) (rw f (cut_prefix_sound s lf rest f)))
    | inl f ↦ ([], inl refl, rw (e, cut_terminator) (rw f))
  ]
]

outcome : (d : Text) → Outcome d (remove_attribution d)
unfolding remove_attribution
outcome d =
    let l = loop_lem (suc (length d)) d 0 (omega arith) (omega arith) in
    subst (λ o. Outcome d (or_unchanged d o)) (sym l.1) l.2

-- One whole line is gone from d, and the two line ends that stood behind it.
abbrev pub LineGone : Text → Text → Type 0
LineGone d d' =
    (before first second rest : Text) × IsLineEnd first
    × IsLineEnd second
    × (d ≡ before ++ (attribution ++ (first ++ (second ++ rest))))
    × (starts_line d (length before) ≡ true)
    × (ends_line d (length before + length attribution) ≡ true)
    × (d' ≡ before ++ rest)

Removed-LineGone : (d d' : Text) → Removed d d' → LineGone d d'
Removed-LineGone d d' (before, after, e, hs, he, f) =
    let one = cut_terminator-IsLineEnd after in
    let two = cut_terminator-IsLineEnd (cut_terminator after) in
    (
      before,
      one.0,
      two.0,
      cut_terminator (cut_terminator after),
      one.1,
      two.1,
      e
          ∙ ap (λ (t : Text). before ++ (attribution ++ t))
              (one.2 ∙ ap (λ (t : Text). one.0 ++ t) two.2),
      hs,
      he,
      f,
    )

-- A description from which the line is removed was some text that ends a line or is empty, the
-- attribution line, up to two line ends and a rest; what is left is that text and that rest, byte for
-- byte. One from which nothing is removed comes back as it is. The removal always finishes.
pub remove_attribution_lem :
    (d : Text)
    → ((remove_attribution d).1 ≡ false) × ((remove_attribution d).0 ≡ d)
      ⊎ ((remove_attribution d).1 ≡ true) × LineGone d (remove_attribution d).0
remove_attribution_lem d = elim (outcome d) [
  | inl kept ↦ inl kept
  | inr (e, gone) ↦ inr (e, Removed-LineGone d _ gone)
]
