-- ===== src/Naming/Figures/Fuel.antt =====
-- The rounds of figureTokens.
use titelheld.Prelude.{
  ℕ, zero, suc, ◌≤◌, ◌≡◌, refl, ap, Bool, inl, inr, Option, none, some, [], ◌∷◌, Bool-cases, arith,
  length,
}
use titelheld.Prelude.Text.{Text}
use titelheld.Naming.Known.{TextForms}
use titelheld.Naming.Figures.{
  TokenKind, span, joined_kind, joined, number_token, tokens_loop, is_digit, is_letter,
  is_word_part, word_token,
}

length-span : (p : ℕ → Bool) (text : Text) → length (span p text).1 ≤ length text
length-span p [] = omega arith
length-span p (r ∷ text) = elim (Bool-cases (p r)) [
  | inl e ↦ rw e (omega (arith, length-span p text))
  | inr e ↦ rw e (omega arith)
]

module _ (f : TextForms) where
  length-joined :
      (run : Text) (sep : ℕ) (after : Text) (kind : Option TokenKind)
      → length (joined f run sep after kind).1 ≤ suc (length after)
  length-joined run sep after none = omega arith
  length-joined run sep after (some kind) = omega (arith, length-span (is_digit f) after)

  length-number_token : (run after : Text) → length (number_token f run after).1 ≤ length after
  length-number_token run [] = omega arith
  length-number_token run (sep ∷ []) = omega arith
  length-number_token run (sep ∷ d ∷ after) = elim (Bool-cases (is_digit f d)) [
    | inl e ↦ rw e (length-joined run sep (d ∷ after) (joined_kind sep))
    | inr e ↦ rw e (omega arith)
  ]

  -- A scan for figures ends: as many rounds as the text has characters are enough, and any more find
  -- the same tokens.
  pub tokens_loop-fuel :
      (a b : ℕ) (text : Text)
      → length text ≤ a
      → length text ≤ b
      → tokens_loop f a text ≡ tokens_loop f b text
  unfolding tokens_loop
  tokens_loop-fuel a b [] h k = refl
  tokens_loop-fuel zero b (r ∷ text) h k = absurd (omega arith)
  tokens_loop-fuel (suc a) zero (r ∷ text) h k = absurd (omega arith)
  tokens_loop-fuel (suc a) (suc b) (r ∷ text) h k = elim (Bool-cases (is_digit f r)) [
    | inl e ↦
        let digits = span (is_digit f) text in
        let fewer = length-span (is_digit f) text in
        let left = length-number_token (r ∷ digits.0) digits.1 in
        rw e (
          ap (λ v. (number_token f (r ∷ digits.0) digits.1).0 ∷ v)
            (tokens_loop-fuel a b (number_token f (r ∷ digits.0) digits.1).1
              (omega (arith, fewer, left)) (omega (arith, fewer, left))))
    | inr e ↦ elim (Bool-cases (is_letter f r)) [
      | inl l ↦
          let fewer = length-span (is_word_part f) text in
          rw (e, l)
            (ap
              (λ v.
                word_token (r ∷ (span (is_word_part f) text).0)
                  (f.fold (r ∷ (span (is_word_part f) text).0))
                ∷ v)
              (tokens_loop-fuel a b (span (is_word_part f) text).1 (omega (arith, fewer))
                (omega (arith, fewer))))
      | inr l ↦ rw (e, l) (tokens_loop-fuel a b text (omega arith) (omega arith))
    ]
  ]
