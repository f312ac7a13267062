-- ===== src/Processor/Series/Spending.antt =====
-- internal/processor/title.go: the theorem on when complete takes an entry of a series as spent.
use titelheld.Prelude.{
  ℕ, suc, ◌≡◌, refl, ap, sym, ◌∙◌, ◌⊎◌, inl, inr, Bool, true, false, ◌||◌, Option, none, some, [],
  ◌∷◌, arith, In, Bool-cases, subst,
}
use titelheld.Prelude.Text.{Text}
use titelheld.Prelude.Action.{
  Result, ok, err, pure, attempt, after, ◌>>=◌, Post, Triple, Triple-bind, Triple-pure, Triple-if,
}
use titelheld.Store.{Franchise}
use titelheld.Naming.Franchise.{Guarded, is_blank, guard, claimed, claims, uses_entry}
use titelheld.Naming.Franchise.Evidence.{
  claimed-guard, claims-empty, claims-uses_entry, uses_entry-empty,
}
use titelheld.Processor.Rules.{Triple-attempt}
use titelheld.Processor.Series.{
  Title, Model, is_claimed, refused, judged, ask, plain, retried, offered_once, complete,
}

abbrev Nothing : ℕ → Type 0
Nothing n = Unit

none_claimed : (o : Option Text) (b : Bool) → (is_claimed o || b) ≡ false → o ≡ none
none_claimed none b e = refl
none_claimed (some x) b e = absurd (cc)

module _ (m : Model) where
  -- a title that the guard of an offer lets through
  abbrev Let : Guarded → Title → ℕ → Type 0
  Let g t n = claimed m.unicode g t.text ≡ none

  ask-Triple : (g : Guarded) (offered : Text) → Triple Nothing (ask m g offered) (Let g) Nothing
  unfolding ask
  ask-Triple g offered = record { run = λ n h. by_draw (m.draw n offered) (suc n) }
    where
      by_draw : (r : Result Title) (n : ℕ) → Post (Let g) Nothing (judged m g offered r, n)
      by_draw (err e) n = tt
      by_draw (ok t) n = elim (Bool-cases (refused m g offered t.text)) [
        | inl e ↦ rw e tt
        | inr e ↦ rw e (
            none_claimed (claimed m.unicode g t.text)
              (m.copies t.text || m.repeats t.text || m.unstated offered t.text)
              (ground (arith, e)))
      ]

  module _ (series : Franchise) (entry : Text)
      (listed : (entry ≡ []) ⊎ In entry series.titles) where
    -- a title, and whether it is taken to spend the entry that was offered
    abbrev pub IsFair : Title → Bool → Type 0
    IsFair t used =
        ((e : Text)
          → In e series.titles
          → claims m.unicode series.gear_name t.text e ≡ true
          → claims m.unicode series.gear_name entry e ≡ true)
        × (((used ≡ true) × (uses_entry m.unicode t.text entry ≡ true))
            ⊎ ((used ≡ false) × (claims m.unicode series.gear_name t.text entry ≡ false)))

    abbrev Fair : Title × Bool → ℕ → Type 0
    Fair r n = IsFair r.0 r.1

    unclaimed :
        (t : Title)
        → uses_entry m.unicode t.text entry ≡ false
        → claims m.unicode series.gear_name t.text entry ≡ false
    unclaimed t e = elim (Bool-cases (claims m.unicode series.gear_name t.text entry)) [
      | inr c ↦ c
      | inl c ↦
          absurd (ground (arith, e, claims-uses_entry m.unicode series.gear_name t.text entry c))
    ]

    -- a title that the guard of the offer let through
    kept-IsFair :
        (t : Title)
        → claimed m.unicode (guard m.unicode series entry) t.text ≡ none
        → uses_entry m.unicode t.text entry ≡ false
        → IsFair t false
    kept-IsFair t g e =
        ((claimed-guard m.unicode series entry t.text).0 g, inr (refl, unclaimed t e))

    used-IsFair :
        (t : Title)
        → claimed m.unicode (guard m.unicode series entry) t.text ≡ none
        → uses_entry m.unicode t.text entry ≡ true
        → IsFair t true
    used-IsFair t g e = ((claimed-guard m.unicode series entry t.text).0 g, inl (refl, e))

    -- a title that the guard without an offer let through claims nothing of the series
    plain-IsFair :
        (t : Title) → claimed m.unicode (guard m.unicode series []) t.text ≡ none → IsFair t false
    plain-IsFair t g = (λ e i c. absurd (nothing e i c), inr (refl, own listed))
      where
        nothing :
            (e : Text) → In e series.titles → claims m.unicode series.gear_name t.text e ≡ true → ⊥
        nothing e i c = ground (
          arith,
          (claimed-guard m.unicode series [] t.text).0 g e i c,
          claims-empty m.unicode series.gear_name e,
        )

        own :
            (entry ≡ []) ⊎ In entry series.titles
            → claims m.unicode series.gear_name t.text entry ≡ false
        own (inl e) = unclaimed t (
            subst (λ x. uses_entry m.unicode t.text x ≡ false) (sym e)
              (uses_entry-empty m.unicode t.text))
        own (inr i) = elim (Bool-cases (claims m.unicode series.gear_name t.text entry)) [
          | inl c ↦ absurd (nothing entry i c)
          | inr c ↦ c
        ]

    plain-Triple :
        (t : Title)
        → IsFair t false
        → (r : Result Title)
        → Triple
            (λ n. Post (Let (guard m.unicode series [])) Nothing (r, n))
            (plain m series entry t r)
            Fair
            Nothing
    plain-Triple t f (err e) = Triple-pure _ (λ n h. f)
    plain-Triple t f (ok p) = Triple-pure _ (λ n h. plain-IsFair p h)

    retried-Triple :
        (t : Title)
        → IsFair t false
        → (r : Result Title)
        → Triple
            (λ n. Post (Let (guard m.unicode series entry)) Nothing (r, n))
            (retried m series entry t r)
            Fair
            Nothing
    retried-Triple t f (err e) = Triple-pure _ (λ n h. f)
    retried-Triple t f (ok r) =
        Triple-if (uses_entry m.unicode r.text entry) _ _
          (λ e. Triple-pure _ (λ n h. used-IsFair r h e))
          (λ e. record {
            run = λ n h.
                (Triple-bind (attempt (ask m (guard m.unicode series []) [])) _ _
                    (Triple-attempt _ (ask-Triple (guard m.unicode series []) []))
                    (plain-Triple r (kept-IsFair r h e))).run
                  n tt;
          })

    offered_once-Triple :
        (t : Title)
        → Triple (Let (guard m.unicode series entry) t) (offered_once m series entry t) Fair Nothing
    offered_once-Triple t =
        Triple-if (is_blank entry) _ _ (λ b. Triple-pure _ (λ n h. kept-IsFair t h (blank b)))
          (λ b.
            Triple-if (uses_entry m.unicode t.text entry) _ _
              (λ e. Triple-pure _ (λ n h. used-IsFair t h e))
              (λ e. record {
                run = λ n h.
                    (Triple-bind (attempt (ask m (guard m.unicode series entry) entry)) _ _
                        (Triple-attempt _ (ask-Triple (guard m.unicode series entry) entry))
                        (retried-Triple t (kept-IsFair t h e))).run
                      n tt;
              }))
      where
        empty : (s : Text) → is_blank s ≡ true → s ≡ []
        empty [] b = refl
        empty (c ∷ s) b = absurd (cc)

        blank : is_blank entry ≡ true → uses_entry m.unicode t.text entry ≡ false
        blank b =
            subst (λ x. uses_entry m.unicode t.text x ≡ false) (sym (empty entry b))
              (uses_entry-empty m.unicode t.text)

    complete-Triple : Triple Nothing (complete m series entry) Fair Nothing
    unfolding complete
    complete-Triple =
        Triple-bind (ask m (guard m.unicode series entry) entry) (offered_once m series entry) _
          (ask-Triple (guard m.unicode series entry) entry) offered_once-Triple

    retried-ok :
        (t : Title) (r : Result Title) (n : ℕ)
        → (x : Title × Bool) × ((retried m series entry t r n).0 ≡ ok x)
    unfolding pure attempt ◌>>=◌
    retried-ok t (err e) n = (_, refl)
    retried-ok t (ok r) n = elim (Bool-cases (uses_entry m.unicode r.text entry)) [
      | inl e ↦ rw e (_, refl)
      | inr e ↦ rw e (plain_ok (ask m (guard m.unicode series []) [] n).0)
    ]
      where
        plain_ok :
            (q : Result Title)
            → (x : Title × Bool) × ((plain m series entry r q
                  (ask m (guard m.unicode series []) [] n).1).0
                ≡ ok x)
        plain_ok (err e) = (_, refl)
        plain_ok (ok q) = (_, refl)

    offered_once-ok :
        (t : Title) (n : ℕ) → (x : Title × Bool) × ((offered_once m series entry t n).0 ≡ ok x)
    unfolding pure attempt ◌>>=◌
    offered_once-ok t n = elim (Bool-cases (is_blank entry)) [
      | inl b ↦ rw b (_, refl)
      | inr b ↦ elim (Bool-cases (uses_entry m.unicode t.text entry)) [
        | inl e ↦ rw (b, e) (_, refl)
        | inr e ↦ rw (b, e) (retried-ok t _ _)
      ]
    ]

    -- Whatever the model draws after a first title that is let through, for a ride that is offered an
    -- entry of its series, or none, the calls end in a title: every entry of the series that it claims is
    -- claimed by the offered one too, and either the offer is taken as spent and the title uses it, or
    -- it is not and the title does not claim it.
    pub complete-IsFair :
        (n : ℕ) (first : Title)
        → (ask m (guard m.unicode series entry) entry n).0 ≡ ok first
        → (t : Title) × (used : Bool) × ((complete m series entry n).0 ≡ ok (t, used))
          × IsFair t used
    unfolding complete ◌>>=◌
    complete-IsFair n first e =
        let x = offered_once-ok first (ask m (guard m.unicode series entry) entry n).1 in
        let ends : (complete m series entry n).0 ≡ ok x.0 =
          ap (λ r. r.0) (after-first (ask m (guard m.unicode series entry) entry n) e) ∙ x.1 in
        (x.0.0, x.0.1, ends, by_end (complete m series entry n) x.0 (complete-Triple.run n tt) ends)
      where
        after-first :
            (r : Result Title × ℕ)
            → r.0 ≡ ok first
            → after r (offered_once m series entry) ≡ offered_once m series entry first r.1
        after-first (ok t, k) h =
            let same : t ≡ first = cc in ap (λ u. offered_once m series entry u k) same
        after-first (err f, k) h = absurd (cc)

        by_end :
            (r : Result (Title × Bool) × ℕ) (x : Title × Bool)
            → Post Fair Nothing r
            → r.0 ≡ ok x
            → IsFair x.0 x.1
        by_end (err f, k) x h e = absurd (cc)
        by_end (ok y, k) x h e =
            let same : y ≡ x = cc in subst (λ (z : Title × Bool). IsFair z.0 z.1) same h
