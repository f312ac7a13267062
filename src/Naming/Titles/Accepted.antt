-- ===== src/Naming/Titles/Accepted.antt =====
-- The titles that the validator accepts, and why it refuses one.
use titelheld.Prelude.{
  ℕ, Bool, Option, subst, some_injective, ◌≤◌, ◌<◌, ◌≡◌, refl, true, false, inl, inr, none, some,
  List, [], ◌∷◌, Bool-cases, arith, ltb, ltb→lt, ◌⊎◌, is_empty, is_empty_sound, length,
  contains_func, All, In,
}
use titelheld.Prelude.Text.{Text, contains, trim_space}
use titelheld.Prelude.Fallible.{Outcome}
use titelheld.Store.{Language}
use titelheld.Naming.Titles.{
  Categories, Title, TitleError, no_title, bad_language, title_too_long, title_shape, title_banned,
  collapsed, valid, max_title_runes, check_shape, is_disallowed, banned_in, lowered, validate,
  unless_banned, new_validator,
}

module _ (c : Categories) where
  -- the tests of a text before the banned words, as the source orders them
  abbrev pub IsWellShaped : Text → Language → Type 0
  IsWellShaped text language =
      (is_empty text ≡ false)
      × (valid language ≡ true)
      × (length text ≤ max_title_runes)
      × All (λ r. is_disallowed c r ≡ false) text

  -- A text holds a word in any case, the space around the word left out. A blank word is in none.
  abbrev pub Holds : Text → Text → Type 0
  Holds text word =
      (is_empty (trim_space word) ≡ false)
      × (contains (lowered c text) (lowered c (trim_space word)) ≡ true)

  -- what an accepted title is
  abbrev pub IsTitle : List Text → Text → Language → Title → Type 0
  IsTitle words candidate language title =
      (title.text ≡ collapsed c candidate)
      × (title.language ≡ language)
      × IsWellShaped title.text language
      × ((word : Text) → In word words → Holds title.text word → ⊥)

  -- what an error tells
  abbrev pub Reason : List Text → Text → Language → TitleError → Type 0
  Reason words candidate language no_title = collapsed c candidate ≡ []
  Reason words candidate language bad_language = valid language ≡ false
  Reason words candidate language title_too_long = max_title_runes < length (collapsed c candidate)
  Reason words candidate language title_shape =
      (r : ℕ) × In r (collapsed c candidate) × (is_disallowed c r ≡ true)
  Reason words candidate language (title_banned found) =
      IsWellShaped (collapsed c candidate) language
      × ((word : Text) × In word words
          × Holds (collapsed c candidate) word
          × (found ≡ lowered c (trim_space word)))

  none_disallowed :
      (text : Text)
      → contains_func text (is_disallowed c) ≡ false
      → All (λ r. is_disallowed c r ≡ false) text
  none_disallowed [] h = tt
  none_disallowed (r ∷ text) h = elim (Bool-cases (is_disallowed c r)) [
    | inl e ↦ absurd (let clash : true ≡ false = rw e at h in ground arith)
    | inr e ↦ (e, none_disallowed text (rw e at h))
  ]

  some_disallowed :
      (text : Text)
      → contains_func text (is_disallowed c) ≡ true
      → (r : ℕ) × In r text × (is_disallowed c r ≡ true)
  some_disallowed [] h = absurd (ground arith)
  some_disallowed (r ∷ text) h = elim (Bool-cases (is_disallowed c r)) [
    | inl e ↦ (r, inl refl, e)
    | inr e ↦ let (q, m, k) = some_disallowed text (rw e at h) in (q, inr m, k)
  ]

  clash : (b : Bool) → b ≡ true → b ≡ false → ⊥
  clash b h k = ground arith

  -- what the search of the folded words finds
  abbrev Found : Text → List Text → Option Text → Type 0
  Found text words found =
      ((found ≡ none) × ((word : Text) → In word words → Holds text word → ⊥))
      ⊎ ((word : Text) × (found ≡ some (lowered c (trim_space word)))
          × In word words
          × Holds text word)

  Found-more :
      (text word : Text) (words : List Text) (found : Option Text)
      → (Holds text word → ⊥)
      → Found text words found
      → Found text (word ∷ words) found
  Found-more text word words found unheld (inl (n, none_held)) =
      inl (n, λ w m h. elim m [ inl q ↦ unheld (subst (Holds text) q h) | inr k ↦ none_held w k h ])
  Found-more text word words found unheld (inr (w, n, m, h)) = inr (w, n, inr m, h)

  banned_in_lem :
      (text : Text) (words : List Text)
      → Found text words (banned_in c (lowered c text) (new_validator c words))
  unfolding banned_in new_validator
  banned_in_lem text [] = inl (refl, λ w m h. elim m [ ])
  banned_in_lem text (word ∷ words) = elim (Bool-cases (is_empty (trim_space word))) [
    | inl e ↦ rw e (Found-more text word words _ (λ h. clash _ e h.0) (banned_in_lem text words))
    | inr e ↦ elim (Bool-cases (contains (lowered c text) (lowered c (trim_space word)))) [
      | inl k ↦ rw (e, k) (inr (word, refl, inl refl, (e, k)))
      | inr k ↦
          rw (e, k) (Found-more text word words _ (λ h. clash _ h.1 k) (banned_in_lem text words))
    ]
  ]

  unless_banned_lem :
      (words : List Text) (candidate : Text) (language : Language) (found : Option Text)
      → Found (collapsed c candidate) words found
      → IsWellShaped (collapsed c candidate) language
      → Outcome
          (IsTitle words candidate language)
          (Reason words candidate language)
          (unless_banned c (collapsed c candidate) language found)
  unless_banned_lem words candidate language none (inl (n, none_held)) h =
      (refl, refl, h, none_held)
  unless_banned_lem words candidate language none (inr (w, n, m, k)) h = absurd (ground arith)
  unless_banned_lem words candidate language (some found) (inl (n, k)) h = absurd (ground arith)
  unless_banned_lem words candidate language (some found) (inr (w, n, m, k)) h =
      (h, (w, m, k, some_injective n))

  -- A candidate is accepted, or refused with an error that is true of it. An accepted title is the
  -- candidate with its whitespace collapsed, is not empty, has at most 60 runes, no quotation mark, no
  -- control character and no emoji, and is in German or English. It contains none of the words that
  -- the validator was built with, in any case and with the space around the word left out. A candidate
  -- refused for a banned word passed all the tests before and contains one of them.
  pub validate_lem :
      (words : List Text) (candidate : Text) (language : Language)
      → Outcome
          (IsTitle words candidate language)
          (Reason words candidate language)
          (validate c (new_validator c words) candidate language)
  unfolding validate check_shape
  validate_lem words candidate language =
      let text = collapsed c candidate in
      elim (Bool-cases (is_empty text)) [
        | inl e ↦ rw e (is_empty_sound text e)
        | inr e ↦ elim (Bool-cases (valid language)) [
          | inr v ↦ rw (e, v) v
          | inl v ↦ elim (Bool-cases (ltb max_title_runes (length text))) [
            | inl l ↦ rw (e, v, l) (ltb→lt max_title_runes (length text) l)
            | inr l ↦ elim (Bool-cases (check_shape c text)) [
              | inl s ↦ rw (e, v, l, s) (some_disallowed text s)
              | inr s ↦
                  rw (e, v, l, s)
                    (unless_banned_lem words candidate language _ (banned_in_lem text words)
                      (e, v, ground arith, none_disallowed text s))
            ]
          ]
        ]
      ]
