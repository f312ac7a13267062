-- ===== src/Processor/Series/Checks/Clean.antt =====
-- Every title that complete returns passed every test.
use titelheld.Prelude.{
  ℕ, suc, ◌≡◌, refl, subst, ◌⊎◌, inl, inr, Bool, false, ◌||◌, [], arith, Bool-cases,
}
use titelheld.Prelude.Text.{Text}
use titelheld.Prelude.Fallible.{Fallible, returned, refused, Outcome}
use titelheld.Prelude.Action.{
  Result, ok, err, attempt, Post, Triple, Triple-bind, Triple-pure, Triple-if,
}
use titelheld.Store.{Franchise}
use titelheld.Naming.Franchise.{Guarded, is_blank, guard, uses_entry}
use titelheld.Naming.Titles.{new_validator, validate, TitleError}
use titelheld.Naming.Titles.Accepted.{IsTitle, Reason, validate_lem}
use titelheld.Processor.Rules.{Triple-attempt}
use titelheld.Processor.Series.{
  Title, refused as is_refused, judged, ask, plain, retried, offered_once, complete,
}
use titelheld.Processor.Series.Checks.{
  Asked, language_of, title_of, validated, copies, repeats, unstated, asked_model,
}

abbrev pub Nothing : ℕ → Type 0
Nothing n = Unit

or_both : (a b c d : Bool) → (a || b || c || d) ≡ false → (b ≡ false) × (c ≡ false) × (d ≡ false)
or_both a b c d h = ground arith

ok_injective : {A : Type 0} {x y : A} → ok x ≡ ok y → x ≡ y
ok_injective p = cc

module _ (a : Asked) where
  -- a valid title of the answer that the model gave in some call with an offer
  abbrev pub IsValid : Text → Title → Type 0
  IsValid offered t =
      (n : ℕ) × (candidate : Text) × (language : Text) × (a.answer n offered
        ≡ ok (candidate, language))
      × IsTitle a.forms.categories a.banned candidate (language_of a.forms language)
          (record { text = t.text; language = t.language })

  -- a title that passed the tests against the prompt of an offer
  abbrev pub Passed : Text → Title → Type 0
  Passed offered t =
      IsValid offered t
      × (copies a t.text ≡ false)
      × (repeats a t.text ≡ false)
      × (unstated a offered t.text ≡ false)

  validated_lem :
      (n : ℕ) (offered : Text) (r : Result (Text × Text)) (t : Title)
      → a.answer n offered ≡ r
      → validated a r ≡ ok t
      → IsValid offered t
  validated_lem n offered (err e) t q h = absurd (ground arith)
  validated_lem n offered (ok (candidate, language)) t q h = (
    n,
    candidate,
    language,
    q,
    by_outcome
        (validate a.forms.categories (new_validator a.forms.categories a.banned) candidate
          (language_of a.forms language))
        (validate_lem a.forms.categories a.banned candidate (language_of a.forms language)) h,
  )
    where
      by_outcome :
          (x : Fallible TitleError titelheld.Naming.Titles.Title)
          → Outcome
              (IsTitle a.forms.categories a.banned candidate (language_of a.forms language))
              (Reason a.forms.categories a.banned candidate (language_of a.forms language))
              x
          → title_of a x ≡ ok t
          → IsTitle a.forms.categories a.banned candidate
              (language_of a.forms language)
              (record { text = t.text; language = t.language })
      by_outcome (returned u) k e =
          subst
            (λ (v : Title).
              IsTitle a.forms.categories a.banned candidate (language_of a.forms language)
                (record { text = v.text; language = v.language }))
            (ok_injective e) k
      by_outcome (refused e) k p = absurd (ground arith)

  -- the titles that a model lets through: against the entry, or against no entry
  abbrev pub IsClean : Text → Title → Type 0
  IsClean entry t = Passed entry t ⊎ Passed [] t

  ask-Passed :
      (g : Guarded) (offered : Text)
      → Triple Nothing (ask (asked_model a) g offered) (λ t n. Passed offered t) Nothing
  unfolding ask
  ask-Passed g offered = record {
    run = λ n h.
        by_draw (validated a (a.answer n offered))
          (λ t e. validated_lem n offered (a.answer n offered) t refl e) (suc n);
  }
    where
      by_draw :
          (r : Result Title)
          → ((t : Title) → r ≡ ok t → IsValid offered t)
          → (n : ℕ) → Post (λ t m. Passed offered t) Nothing (judged (asked_model a) g offered r, n)
      by_draw (err e) v n = tt
      by_draw (ok t) v n = elim (Bool-cases (is_refused (asked_model a) g offered t.text)) [
        | inl e ↦ rw e tt
        | inr e ↦ rw e (
            let (c, r, u) =
              or_both _ (copies a t.text) (repeats a t.text) (unstated a offered t.text) e in
            (v t refl, c, r, u))
      ]

  module _ (series : Franchise) (entry : Text) where
    abbrev Clean : Title × Bool → ℕ → Type 0
    Clean r n = IsClean entry r.0

    plain-Clean :
        (t : Title)
        → IsClean entry t
        → (r : Result Title)
        → Triple
            (λ n. Post (λ u m. Passed [] u) Nothing (r, n))
            (plain (asked_model a) series entry t r)
            Clean
            Nothing
    plain-Clean t h (err e) = Triple-pure _ (λ n k. h)
    plain-Clean t h (ok u) = Triple-pure _ (λ n k. inr k)

    retried-Clean :
        (t : Title)
        → IsClean entry t
        → (r : Result Title)
        → Triple
            (λ n. Post (λ u m. Passed entry u) Nothing (r, n))
            (retried (asked_model a) series entry t r)
            Clean
            Nothing
    retried-Clean t h (err e) = Triple-pure _ (λ n k. h)
    retried-Clean t h (ok r) =
        Triple-if (uses_entry (asked_model a).unicode r.text entry) _ _
          (λ e. Triple-pure _ (λ n k. inl k))
          (λ e. record {
            run = λ n k.
                (Triple-bind
                    (attempt (ask (asked_model a) (guard (asked_model a).unicode series []) [])) _ _
                    (Triple-attempt _ (ask-Passed (guard (asked_model a).unicode series []) []))
                    (plain-Clean r (inl k))).run
                  n tt;
          })

    offered_once-Clean :
        (t : Title)
        → Triple (λ n. Passed entry t) (offered_once (asked_model a) series entry t) Clean Nothing
    offered_once-Clean t =
        Triple-if (is_blank entry) _ _ (λ b. Triple-pure _ (λ n h. inl h))
          (λ b.
            Triple-if (uses_entry (asked_model a).unicode t.text entry) _ _
              (λ e. Triple-pure _ (λ n h. inl h))
              (λ e. record {
                run = λ n h.
                    (Triple-bind
                        (attempt
                          (ask (asked_model a) (guard (asked_model a).unicode series entry) entry))
                        _ _
                        (Triple-attempt _
                          (ask-Passed (guard (asked_model a).unicode series entry) entry))
                        (retried-Clean t (inl h))).run
                      n tt;
              }))

    -- A title that complete returns is the title of an answer that the model gave in some call with the
    -- entry of the series or with none, accepted by the validator. It is no achievement's name taken
    -- whole and no forbidden title, and states no figure that the prompt with that offer does not.
    pub complete-IsClean :
        (n : ℕ) → Post (λ r m. IsClean entry r.0) Nothing (complete (asked_model a) series entry n)
    unfolding complete
    complete-IsClean n =
        (Triple-bind (ask (asked_model a) (guard (asked_model a).unicode series entry) entry)
            (offered_once (asked_model a) series entry) _
            (ask-Passed (guard (asked_model a).unicode series entry) entry) offered_once-Clean).run
          n tt
