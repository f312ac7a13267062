-- ===== src/Strava/Client/Attempts.antt =====
-- How a request to Strava ends, after which attempts.
use titelheld.Prelude.{
  ℕ, zero, suc, ◌+◌, ◌≤◌, ◌<◌, ◌≡◌, refl, sym, subst, ap, ◌⊎◌, inl, inr, true, false, ◌==◌,
  Bool-cases, arith,
}
use titelheld.Store.{Duration}
use titelheld.Strava.Client.{
  ClientError, writes_disabled, token_error, transport_error, interrupted, status_error, Outcome,
  responded, failed_at_once, exhausted, Client, Attempt, no_token, no_response, answered, Network,
  Trace, retried, unexpected, follow, attempted, slept, do_loop, do_request, Method, get, put,
  WriteMode, dry_run, enabled, backoff,
}

-- an answer for which a request is tried again: none, 429, and 500 and above
abbrev pub IsTransient : Attempt → Type 0
IsTransient no_token = ⊥
IsTransient no_response = Unit
IsTransient (answered status) = (status ≡ 429) ⊎ (500 ≤ status)

-- the error that a transient answer leaves
abbrev pub Leaves : Attempt → ClientError → Type 0
Leaves no_response e = e ≡ transport_error
Leaves (answered status) e = e ≡ status_error status
Leaves no_token e = ⊥

later : (number : ℕ) → (suc number == 0) ≡ false
later number = ground arith

module _ (net : Network) where
  -- A request is cut short where the context ends: after an attempt without an answer, or in the sleep
  -- after one that is to be tried again.
  abbrev pub IsCutShort : ℕ → Attempt → Type 0
  IsCutShort made last =
      ((last ≡ no_response) × (net.done made ≡ true))
      ⊎ (IsTransient last × ((d : Duration) × (net.sleep made d ≡ false)))

  -- how a request ends by its last attempt, where so many more were allowed, and with so many made in all
  abbrev pub EndsBy : ℕ → ℕ → Attempt → Outcome → Type 0
  EndsBy left made last (responded status) =
      (last ≡ answered status) × (200 ≤ status) × (status < 300)
  EndsBy left made last (failed_at_once (status_error status)) =
      (last ≡ answered status)
      × ((status < 200) ⊎ ((300 ≤ status) × (status < 500)))
      × (status ≡ 429 → ⊥)
  EndsBy left made last (failed_at_once token_error) = last ≡ no_token
  EndsBy left made last (failed_at_once interrupted) = IsCutShort made last
  EndsBy left made last (failed_at_once e) = ⊥
  EndsBy left made last (exhausted e) = (left ≡ 0) × IsTransient last × Leaves last e

  -- A run of attempts from the one numbered `first` on, of which `left` may follow it: all before the
  -- last one are transient, and the last one decides.
  abbrev pub Ran : ℕ → ℕ → Outcome × Trace → Type 0
  Ran left first (o, u) =
      (more : ℕ) × (unused : ℕ) × (more + unused ≡ left)
      × (u.attempts ≡ suc (first + more))
      × ((k : ℕ) → first ≤ k → k < first + more → IsTransient (net.attempt k))
      × EndsBy unused u.attempts (net.attempt (first + more)) o

  -- the last attempt of a run is its first
  stopped :
      (left first : ℕ) (o : Outcome) (u : Trace)
      → u.attempts ≡ suc first
      → EndsBy left u.attempts (net.attempt first) o
      → Ran left first (o, u)
  stopped left first o u e h =
      let same : first ≡ first + 0 = omega arith in
      (
        0,
        left,
        omega arith,
        omega arith,
        (λ k a b. absurd (omega arith)),
        subst (λ n. EndsBy left u.attempts (net.attempt n) o) same h,
      )

  Ran-more :
      (left first : ℕ) (r : Outcome × Trace)
      → IsTransient (net.attempt first)
      → Ran left (suc first) r
      → Ran (suc left) first r
  Ran-more left first (o, u) p (more, unused, e, n, before, h) =
      let same : suc first + more ≡ first + suc more = omega arith in
      (
        suc more,
        unused,
        omega arith,
        omega arith,
        earlier,
        subst (λ k. EndsBy unused u.attempts (net.attempt k) o) same h,
      )
    where
      earlier : (k : ℕ) → first ≤ k → k < first + suc more → IsTransient (net.attempt k)
      earlier k a b = elim (Bool-cases (k == first)) [
        | inl q ↦
            let same : first ≡ k = ground arith in subst (λ j. IsTransient (net.attempt j)) same p
        | inr q ↦ before k (ground arith) (omega arith)
      ]

  follow_lem :
      (left first : ℕ) (a : Attempt) (next : ClientError → Trace → Outcome × Trace) (u : Trace)
      → u.attempts ≡ suc first
      → net.attempt first ≡ a
      → ((last : ClientError) → IsTransient a → Leaves a last → Ran left first (next last u))
      → Ran left first (follow net a next u)
  follow_lem left first no_token next u e q h =
      stopped left first (failed_at_once token_error) u e q
  follow_lem left first no_response next u e q h = elim (Bool-cases (net.done u.attempts)) [
    | inl d ↦ rw d (stopped left first (failed_at_once interrupted) u e (inl (q, d)))
    | inr d ↦ rw d (h transport_error tt refl)
  ]
  follow_lem left first (answered status) next u e q h = elim (Bool-cases (retried status)) [
    | inl r ↦ rw r (h (status_error status) (ground arith) refl)
    | inr r ↦ elim (Bool-cases (unexpected status)) [
      | inl x ↦
          rw (r, x)
            (stopped left first (failed_at_once (status_error status)) u e
              (q, ground arith, λ p. ground arith))
      | inr x ↦
          rw (r, x) (stopped left first (responded status) u e (q, ground arith, ground arith))
    ]
  ]

  -- what follows an attempt that is to be tried again
  do_loop_lem :
      (left number first : ℕ) (last : ClientError) (t : Trace)
      → t.attempts ≡ suc first
      → IsTransient (net.attempt first)
      → Leaves (net.attempt first) last
      → Ran left first (do_loop net left (suc number) last t)
  unfolding do_loop
  do_loop_lem zero number first last t e p l = stopped 0 first (exhausted last) t e (refl, p, l)
  do_loop_lem (suc left) number first last t e p l =
      elim (Bool-cases (net.sleep t.attempts (backoff (suc number) (net.random t.attempts)))) [
        | inr s ↦
            rw (later number, s)
              (stopped (suc left) first (failed_at_once interrupted) (slept net (suc number) t) e
                (inr (p, (_, s))))
        | inl s ↦
            rw (later number, s)
              (Ran-more left first
                (follow net (net.attempt t.attempts) (do_loop net left (suc (suc number)))
                  (attempted net (slept net (suc number) t)))
                p
                (follow_lem left (suc first) (net.attempt t.attempts)
                  (do_loop net left (suc (suc number))) (attempted net (slept net (suc number) t))
                  (ap suc e) (ap net.attempt (sym e))
                  (λ m q k.
                    do_loop_lem left (suc number) (suc first) m _ (ap suc e)
                      (subst (λ n. IsTransient (net.attempt n)) e q)
                      (subst (λ n. Leaves (net.attempt n) m) e k))))
      ]

  -- what a request of a method does in a mode; one that changes something does nothing while writes
  -- are disabled
  abbrev pub Requested : WriteMode → ℕ → Method → Trace → Outcome × Trace → Type 0
  Requested dry_run retries put t r = r ≡ (failed_at_once writes_disabled, t)
  Requested mode retries method t r = Ran retries t.attempts r

  -- A request always ends, after one attempt and at most as many more as it may retry. Every attempt but
  -- the last one had no response, or 429, or 500 or above. The last one decides: a status from 200 to
  -- 299 is the response, any other that is neither 429 nor 500 or above is an error at once, and so is a
  -- token that could not be had. An answer that may pass is the result after all the attempts only, or
  -- the request is cut short as the context ends. A request that changes something is refused while
  -- writes are disabled, with no attempt made and no sleep.
  pub do_request_lem :
      (c : Client) (m : Method) (t : Trace)
      → Requested c.write_mode c.max_retries m t (do_request net c m t)
  unfolding do_request do_loop
  do_request_lem c m t = by_mode c.write_mode m c.max_retries
    where
      ran :
          (retries : ℕ)
          → Ran retries t.attempts
              (follow net (net.attempt t.attempts) (do_loop net retries 1) (attempted net t))
      ran retries =
          follow_lem retries t.attempts (net.attempt t.attempts) (do_loop net retries 1)
            (attempted net t) refl refl
            (λ last p l. do_loop_lem retries 0 t.attempts last (attempted net t) refl p l)

      by_mode :
          (mode : WriteMode) (method : Method) (retries : ℕ)
          → Requested mode retries method t
              (do_request net (record { write_mode = mode; max_retries = retries }) method t)
      by_mode dry_run put retries = refl
      by_mode dry_run get retries = ran retries
      by_mode enabled put retries = ran retries
      by_mode enabled get retries = ran retries
