-- ===== src/Naming/Attribution/RoundTrip.antt =====
-- internal/naming/attribution.go: theorems on Describe, and on Describe before RemoveAttribution.
use titelheld.Prelude.{
  ℕ, suc, ◌≡◌, refl, true, false, some, [], ◌∷◌, ◌++◌, arith, Bool-cases, inl, inr, length, drop,
  ap, ◌∙◌,
}
use titelheld.Prelude.Text.{Text, codes, contains, contains-append, has_prefix, cut_prefix}
use titelheld.Naming.Attribution.{
  attribution, sentinel, lf, describe, has_attribution, remove_attribution, remove_loop, index,
  starts_line, ends_line, cut_terminator, or_unchanged,
}

-- the attribution line is its prose and the sentinel
abbrev prose : Text
prose = codes "Title by titelheld — "

has_attribution-attribution : (rest : Text) → has_attribution (attribution ++ rest) ≡ true
unfolding has_attribution
has_attribution-attribution rest = contains-append prose sentinel rest

-- what Describe answers, by whether the line is there already
describe-kept : (d : Text) → has_attribution d ≡ true → describe d true ≡ (d, false)
unfolding describe
describe-kept d h = rw h

describe-nil : describe [] true ≡ (attribution, true)
unfolding describe has_attribution contains
describe-nil = refl

describe-cons :
    (c : ℕ) (d : Text)
    → has_attribution (c ∷ d) ≡ false
    → describe (c ∷ d) true ≡ (attribution ++ (lf ++ (lf ++ c ∷ d)), true)
unfolding describe
describe-cons c d h = rw h

has_attribution-describe : (d : Text) → has_attribution (describe d true).0 ≡ true
has_attribution-describe [] = rw describe-nil (has_attribution-attribution [])
has_attribution-describe (c ∷ d) = elim (Bool-cases (has_attribution (c ∷ d))) [
  | inl e ↦ rw (describe-kept (c ∷ d) e) e
  | inr e ↦ rw (describe-cons c d e) (has_attribution-attribution (lf ++ (lf ++ c ∷ d)))
]

-- A description that carries the line is left alone: after one call the line is there, and a second
-- call changes nothing and reports so.
pub describe_idem :
    (d : Text)
    → (has_attribution (describe d true).0 ≡ true)
      × (describe (describe d true).0 true ≡ ((describe d true).0, false))
describe_idem d = (has_attribution-describe d, describe-kept _ (has_attribution-describe d))

ends_line-lf : (rest : Text) → ends_line (attribution ++ (lf ++ rest)) (length attribution) ≡ true
unfolding ends_line
ends_line-lf rest = ground arith

-- the line is found where it stands first
loop-found :
    (fuel : ℕ) (d : Text)
    → index d attribution ≡ some 0
    → ends_line d (length attribution) ≡ true
    → remove_loop (suc fuel) d 0
      ≡ some (cut_terminator (cut_terminator (drop (length attribution) d)), true)
unfolding remove_loop starts_line
loop-found fuel d h k = rw (h, remove_loop) (rw k)

index-front : (rest : Text) → index (attribution ++ rest) attribution ≡ some 0
unfolding index has_prefix
index-front rest = refl

-- the line in front of a line end is found at once
remove_attribution-front :
    (rest : Text)
    → remove_attribution (attribution ++ (lf ++ rest))
      ≡ (cut_terminator (cut_terminator (lf ++ rest)), true)
unfolding remove_attribution
remove_attribution-front rest = ap (or_unchanged (attribution ++ (lf ++ rest))) (
    loop-found (length (attribution ++ (lf ++ rest))) _ (index-front (lf ++ rest))
      (ends_line-lf rest))

remove_attribution-whole : remove_attribution attribution ≡ ([], true)
unfolding remove_attribution index has_prefix starts_line ends_line cut_terminator cut_prefix
remove_attribution-whole = refl

cut_terminator-lf : (s : Text) → cut_terminator (lf ++ s) ≡ s
unfolding cut_terminator cut_prefix
cut_terminator-lf s = refl

-- For every description that gets the line, removing it gives the description back byte for byte,
-- and reports the removal.
pub remove_attribution-describe :
    (d : Text) → (describe d true).1 ≡ true → remove_attribution (describe d true).0 ≡ (d, true)
remove_attribution-describe [] h = rw describe-nil remove_attribution-whole
remove_attribution-describe (c ∷ d) h = elim (Bool-cases (has_attribution (c ∷ d))) [
  | inl e ↦ absurd (cc (describe-kept (c ∷ d) e))
  | inr e ↦ rw (describe-cons c d e) (
      remove_attribution-front (lf ++ c ∷ d)
      ∙ ap (λ (s : Text). (s, true))
          (ap cut_terminator (cut_terminator-lf (lf ++ c ∷ d)) ∙ cut_terminator-lf (c ∷ d)))
]
