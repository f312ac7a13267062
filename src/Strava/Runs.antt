-- ===== src/Strava/Runs.antt =====
-- internal/strava/tokensource.go: sequences of calls of Token and of restarts.
use mathlib.Core.Option.{some-injective}
use titelheld.Prelude.{
  ℕ, ◌≡◌, sym, ap, subst, ◌∙◌, ◌⊎◌, inl, inr, true, false, not, ◌||◌, some, [], arith, Bool-cases,
}
use titelheld.Prelude.Text.{Text}
use titelheld.Prelude.Action.{Result, ok, err}
use titelheld.Store.{Token, Memory, id_eq}
use titelheld.Store.InMemory.{load}
use titelheld.Strava.{Oauth, TokenSource, token}
use titelheld.Strava.Chain.{
  IsLatest, IsChain, IsValid, Entered, Loaded-IsValid, new_source, token-Entered,
}

module _ (o : Oauth) where
  -- a call of Token, or the start of a new process, which has what the store has
  pub data Run : TokenSource → Type 0 where
    start :
        (m : Memory) (athlete : ℕ) (t : Token) (n : ℕ)
        → ((u : Token) → load m athlete ≡ some u → u.athlete_id ≡ athlete)
        → Run (new_source m athlete t n [])
    call : (s : TokenSource) → Run s → Run (token o s).1
    restart :
        (s : TokenSource) (t : Token)
        → Run s
        → (not s.loaded || s.persisted) ≡ true
        → Run (new_source s.memory s.athlete_id t s.tick s.exchanged)

  module _ (silent : (n : ℕ) (r : Text) (t : Token) → o.refresh n r ≡ ok t → t.athlete_id ≡ 0) where
    Entered-IsValid : {A : Type 0} (x : Result A × TokenSource) → Entered x → IsValid x.1
    Entered-IsValid (ok a, s) h = Loaded-IsValid s h
    Entered-IsValid (err e, s) h = h

    Run-IsValid : (s : TokenSource) → Run s → IsValid s
    Run-IsValid _ (start m athlete t n own) = (tt, λ e. absurd (cc), λ e u k. (own u k, tt))
    Run-IsValid _ (call s r) =
        Entered-IsValid (token o s) (token-Entered o silent s (Run-IsValid s r))
    Run-IsValid _ (restart s t r kept) = restarted s (Run-IsValid s r) kept t
      where
        restarted :
            (s : TokenSource)
            → IsValid s
            → (not s.loaded || s.persisted) ≡ true
            → (t : Token) → IsValid (new_source s.memory s.athlete_id t s.tick s.exchanged)
        restarted s h kept t = (
          h.0,
          λ e. absurd (cc),
          λ e u k. elim (Bool-cases s.loaded) [
            | inl l ↦
                let held = h.1 l in
                let same = some-injective s.cached u (sym (held.2 (ground arith)) ∙ k) in
                (
                  ap (λ x. x.athlete_id) (sym same) ∙ held.0,
                  subst (λ x. IsLatest s.exchanged x.refresh_token) same held.1,
                )
            | inr l ↦ h.2 l u k
          ],
        )

    -- If the answers of Strava to a refresh name no athlete, and the store holds for an athlete a pair of
    -- that athlete alone, then after any sequence of calls of Token, whatever Strava and the store
    -- answer, and of restarts, none of them with a pair in hand that could not be saved: every refresh that
    -- Strava answered spent the refresh token that it had issued last; and once the source is loaded, it
    -- has the latest one in hand, and in the store too where it says so.
    pub Run-IsChain :
        (s : TokenSource)
        → Run s
        → IsChain s.exchanged
          × ((s.loaded ≡ false)
              ⊎ (IsLatest s.exchanged s.cached.refresh_token
                  × ((s.persisted ≡ false) ⊎ (load s.memory s.athlete_id ≡ some s.cached))))
    Run-IsChain s r =
        let v = Run-IsValid s r in
        (
          v.0,
          elim (Bool-cases s.loaded) [
            | inr e ↦ inl e
            | inl e ↦ inr (
              (v.1 e).1,
              elim (Bool-cases s.persisted) [ inr k ↦ inl k | inl k ↦ inr ((v.1 e).2 k) ],
            )
          ],
        )
