-- ===== src/Geo/Client/Spacing.antt =====
-- The rate limit over any number of requests.
use titelheld.Prelude.{
  ℕ, zero, suc, ◌+◌, ◌-◌, ◌≤◌, ◌<◌, ◌≡◌, refl, subst, true, false, not, ◌&&◌, inl, inr, List, [],
  ◌∷◌, Bool-cases, arith, ltb→lt, and_split, ◌⊎◌, if◌then◌else◌, ltb, ◌==◌,
}
use titelheld.Prelude.Text.{Text}
use titelheld.Prelude.Fallible.{Outcome, returned}
use titelheld.Store.{Time, Duration}
use titelheld.Geo.Nominatim.{min_request_interval}
use titelheld.Geo.Client.Built.{IsClient, Wrong, new_nominatim_lem}
use titelheld.Geo.Client.{Clock, Limiter, wait, NominatimConfig, Nominatim, new_nominatim}

-- the instants at which one wait after the other lets a request pass
unfoldable pub grants : Clock → ℕ → Limiter → List Time
grants c zero l = []
grants c (suc n) l =
    let r = wait c l in let rest = grants c n r.1 in if r.0 then r.1.last ∷ rest else rest

-- each instant is so much later than the one before
abbrev pub AreSpaced : Duration → List Time → Type 0
AreSpaced d [] = Unit
AreSpaced d (t ∷ []) = Unit
AreSpaced d (t ∷ u ∷ ts) = (t + d ≤ u) × AreSpaced d (u ∷ ts)

-- no request was let pass before, or it is late enough
abbrev Late : Duration → Time → Time → Type 0
Late d last t = (last ≡ 0) ⊎ (last + d ≤ t)

abbrev FirstLate : Duration → Time → List Time → Type 0
FirstLate d last [] = Unit
FirstLate d last (t ∷ ts) = Late d last t

AreSpaced-more :
    (d : Duration) (t : Time) (ts : List Time)
    → 0 < t
    → FirstLate d t ts
    → AreSpaced d ts
    → AreSpaced d (t ∷ ts)
AreSpaced-more d t [] ht h k = tt
AreSpaced-more d t (u ∷ ts) ht (inl e) k = absurd (omega arith)
AreSpaced-more d t (u ∷ ts) ht (inr h) k = (h, k)

-- what a wait that lets a request pass leaves, and what one that fails leaves
abbrev Passed : Limiter → Limiter → Type 0
Passed l l' = (l'.interval ≡ l.interval) × (0 < l'.last) × Late l.interval l.last l'.last

abbrev Stayed : Limiter → Limiter → Type 0
Stayed l l' = (l'.interval ≡ l.interval) × (l'.last ≡ l.last)

AreSpaced-less :
    (d : Duration) (ts : List Time)
    → min_request_interval ≤ d
    → AreSpaced d ts
    → AreSpaced min_request_interval ts
AreSpaced-less d [] h k = tt
AreSpaced-less d (t ∷ []) h k = tt
AreSpaced-less d (t ∷ u ∷ ts) h k = (omega (arith, k.0), AreSpaced-less d (u ∷ ts) h k.1)

interval_bound :
    (hash : Text → Text) (cfg : NominatimConfig) (client : Nominatim)
    → new_nominatim hash cfg ≡ returned client
    → min_request_interval ≤ client.limiter.interval
interval_bound hash cfg client h =
    let k = new_nominatim_lem hash cfg in (subst (Outcome (IsClient cfg) (Wrong cfg)) h k).0

module _ (c : Clock) (ticking : (t : ℕ) → 0 < c.now t)
    (sleeping : (t : ℕ) (d : Duration)
      → c.sleep (suc t) d ≡ true
      → c.now t + d ≤ c.now (suc (suc t))) where
  wait_lem :
      (l : Limiter)
      → ((wait c l).0 ≡ true × Passed l (wait c l).1)
        ⊎ ((wait c l).0 ≡ false × Stayed l (wait c l).1)
  unfolding wait
  wait_lem l = elim (Bool-cases (not (l.last == 0) && ltb (c.now l.tick) (l.last + l.interval))) [
    | inr e ↦ rw e (inl (refl, (refl, ticking l.tick, ground arith)))
    | inl e ↦ elim (Bool-cases (c.sleep (suc l.tick) (l.last + l.interval - c.now l.tick))) [
      | inr k ↦ rw (e, k) (inr (refl, (refl, refl)))
      | inl k ↦
          rw (e, k)
            (inl (
              refl,
              (
                refl,
                ticking (suc (suc l.tick)),
                inr (
                    omega (
                      arith,
                      sleeping l.tick (l.last + l.interval - c.now l.tick) k,
                      ltb→lt (c.now l.tick) (l.last + l.interval) (and_split _ _ e).1,
                    )),
              ),
            ))
    ]
  ]

  grants_lem :
      (n : ℕ) (l : Limiter)
      → FirstLate l.interval l.last (grants c n l) × AreSpaced l.interval (grants c n l)
  unfolding grants
  grants_lem zero l = (tt, tt)
  grants_lem (suc n) l =
      let ih = grants_lem n (wait c l).1 in
      elim (wait_lem l) [
        | inl (e, (i, positive, late)) ↦
            let ih' : FirstLate l.interval (wait c l).1.last (grants c n (wait c l).1)
                × AreSpaced l.interval (grants c n (wait c l).1) =
              rw i at ih in
            rw e (late, AreSpaced-more l.interval _ _ positive ih'.0 ih'.1)
        | inr (e, (i, stayed)) ↦
            let ih' : FirstLate l.interval l.last (grants c n (wait c l).1)
                × AreSpaced l.interval (grants c n (wait c l).1) =
              rw (i, stayed) at ih in
            rw e ih'
      ]

  -- Requests to the geocoder that a client built by its constructor lets pass, one wait after the other,
  -- are a second apart at least, each from the one before, whatever interval the configuration asks for
  -- and whichever waits fail. The clock never reads the zero time, and a sleep that is not cut short
  -- lasts as long as it was asked to.
  pub grants-AreSpaced :
      (hash : Text → Text) (cfg : NominatimConfig) (n : ℕ) (client : Nominatim)
      → new_nominatim hash cfg ≡ returned client
      → AreSpaced min_request_interval (grants c n client.limiter)
  grants-AreSpaced hash cfg n client h =
      AreSpaced-less client.limiter.interval _ (interval_bound hash cfg client h)
        (grants_lem n client.limiter).1
