-- ===== src/Strava/Chain.antt =====
-- internal/strava/tokensource.go: the invariant of the token source, and that a call of Token keeps it.
use titelheld.Prelude.{
  ℕ, ◌≡◌, refl, subst, inl, inr, Bool, true, false, Option, none, some, List, [], ◌∷◌, arith,
  if◌then◌else◌, Bool-cases,
}
use titelheld.Prelude.Text.{Text}
use titelheld.Prelude.Table.{lookup-insert, beq_self}
use titelheld.Prelude.Action.{Result, ok, err, after}
use titelheld.Store.{Token, Memory, id_eq}
use titelheld.Store.InMemory.{load, save}
use titelheld.Processor.{Fault, fine, before_change, after_change}
use titelheld.Processor.Outside.{read}
use titelheld.Strava.{
  Oauth, TokenSource, next_tick, adopt_loaded, saved, carry_across, persisted_of, load_once,
  save_cached, refreshed, refresh_locked, current, token, expired, is_empty, refresh_leeway,
}

-- a refresh token is the one that Strava issued last, if it issued any
abbrev pub IsLatest : List (Text × Token) → Text → Type 0
IsLatest [] r = Unit
IsLatest ((spent, t) ∷ rest) r = r ≡ t.refresh_token

-- every exchange spent the refresh token that the exchange before it issued
abbrev pub IsChain : List (Text × Token) → Type 0
IsChain [] = Unit
IsChain ((spent, t) ∷ rest) = IsLatest rest spent × IsChain rest

-- the pair in hand is the athlete's and the latest, and stored if it is said to be
abbrev pub Held : TokenSource → Type 0
Held s =
    (s.cached.athlete_id ≡ s.athlete_id)
    × IsLatest s.exchanged s.cached.refresh_token
    × (s.persisted ≡ true → load s.memory s.athlete_id ≡ some s.cached)

-- the stored pair, if there is one, is the athlete's and the latest
abbrev pub Stored : TokenSource → Type 0
Stored s =
    (t : Token)
    → load s.memory s.athlete_id ≡ some t
    → (t.athlete_id ≡ s.athlete_id) × IsLatest s.exchanged t.refresh_token

abbrev pub IsValid : TokenSource → Type 0
IsValid s = IsChain s.exchanged × (s.loaded ≡ true → Held s) × (s.loaded ≡ false → Stored s)

load-save : (m : Memory) (t : Token) → load (save m t) t.athlete_id ≡ some t
unfolding load save
load-save m t =
    ground (arith, lookup-insert t.athlete_id t.athlete_id t m.tokens, beq_self t.athlete_id)

-- a save of the pair in hand
saved-Held : (f : Fault) (s : TokenSource) → Held s → Held (saved f s).1
saved-Held fine s h = (
  h.0,
  h.1,
  λ e.
      subst (λ i. load (save s.memory s.cached) i ≡ some s.cached) h.0
        (load-save s.memory s.cached),
)
saved-Held before_change s h = h
saved-Held after_change s h = (
  h.0,
  h.1,
  λ e.
      subst (λ i. load (save s.memory s.cached) i ≡ some s.cached) h.0
        (load-save s.memory s.cached),
)

saved-same :
    (f : Fault) (s : TokenSource)
    → ((saved f s).1.loaded ≡ s.loaded) × ((saved f s).1.exchanged ≡ s.exchanged)
saved-same fine s = (refl, refl)
saved-same before_change s = (refl, refl)
saved-same after_change s = (refl, refl)

-- a loaded source whose pair holds
abbrev Loaded : TokenSource → Type 0
Loaded s = (s.loaded ≡ true) × IsChain s.exchanged × Held s

saved-Loaded : (f : Fault) (s : TokenSource) → Loaded s → Loaded (saved f s).1
saved-Loaded fine s h = (h.0, h.1, saved-Held fine s h.2)
saved-Loaded before_change s h = h
saved-Loaded after_change s h = (h.0, h.1, saved-Held after_change s h.2)

pub Loaded-IsValid : (s : TokenSource) → Loaded s → IsValid s
Loaded-IsValid s h = (h.1, λ e. h.2, λ e. absurd (cc))

-- a call that succeeds leaves a loaded source
abbrev pub Entered : {A : Type 0} → Result A × TokenSource → Type 0
Entered (ok a, s) = Loaded s
Entered (err e, s) = IsValid s

adopt_loaded-Entered :
    (r : Result (Option Token)) (s : TokenSource)
    → ((t : Token) → r ≡ ok (some t) → load s.memory s.athlete_id ≡ some t)
    → s.loaded ≡ false
    → IsValid s
    → Entered (adopt_loaded r (next_tick s))
adopt_loaded-Entered (err x) s given e h = h
adopt_loaded-Entered (ok none) s given e h = h
adopt_loaded-Entered (ok (some t)) s given e h =
    let latest = h.2 e t (given t refl) in (refl, h.0, (latest.0, latest.1, λ p. given t refl))

read-some : {A : Type 0} (f : Fault) (o : Option A) (a : A) → read f o ≡ ok (some a) → o ≡ some a
read-some fine o a e = cc
read-some before_change o a e = absurd (cc)
read-some after_change o a e = absurd (cc)

persisted_of-Entered : (x : Result Unit × TokenSource) → Loaded x.1 → Entered (persisted_of x)
persisted_of-Entered (ok u, s) h = h
persisted_of-Entered (err e, s) h = Loaded-IsValid s h

if-property :
    {A : Type 0} (P : A → Type 0) (b : Bool) (x y : A)
    → (b ≡ true → P x)
    → (b ≡ false → P y)
    → P (if b then x else y)
if-property P true x y h k = h refl
if-property P false x y h k = k refl

-- NewStoredTokenSource
abbrev pub new_source : Memory → ℕ → Token → ℕ → List (Text × Token) → TokenSource
new_source m athlete t n exchanged = record {
  memory = m;
  athlete_id = athlete;
  cached = t;
  loaded = false;
  persisted = false;
  exchanged = exchanged;
  tick = n;
}

module _ (o : Oauth) where
  load_once-Entered : (s : TokenSource) → IsValid s → Entered (load_once o s)
  unfolding load_once
  load_once-Entered s h =
      if-property Entered s.loaded _ _ (λ e. (e, h.0, h.1 e))
        (λ e.
          adopt_loaded-Entered (read (o.store_fault s.tick) (load s.memory s.athlete_id)) s
            (λ t. read-some (o.store_fault s.tick) (load s.memory s.athlete_id) t) e h)

  current-Entered : (s : TokenSource) → Loaded s → Entered (current o s)
  unfolding current save_cached
  current-Entered s h =
      if-property Entered s.persisted _ _ (λ e. h)
        (λ e. saved-Loaded (o.store_fault s.tick) (next_tick s) h)

  module _ (silent : (n : ℕ) (r : Text) (t : Token) → o.refresh n r ≡ ok t → t.athlete_id ≡ 0) where
    refreshed-Entered :
        (n : ℕ) (s : TokenSource)
        → Loaded s
        → (r : Result Token) → o.refresh n s.cached.refresh_token ≡ r
        → Entered (refreshed o r s)
    unfolding refreshed save_cached carry_across
    refreshed-Entered n s h (err x) e = Loaded-IsValid s h
    refreshed-Entered n s h (ok t) e = persisted_of-Entered _ (
        saved-Loaded (o.store_fault s.tick) _ (
          h.0,
          (h.2.1, h.1),
          (ground (arith, silent n s.cached.refresh_token t e, h.2.0), refl, λ p. absurd (cc)),
        ))

    refresh_locked-Entered : (s : TokenSource) → Loaded s → Entered (refresh_locked o s)
    unfolding refresh_locked
    refresh_locked-Entered s h = elim (Bool-cases (is_empty s.cached.refresh_token)) [
      | inl e ↦ simp e (Loaded-IsValid s h)
      | inr e ↦
          simp e (
            refreshed-Entered s.tick (next_tick s) h (o.refresh s.tick s.cached.refresh_token) refl)
    ]

    pub token-Entered : (s : TokenSource) → IsValid s → Entered (token o s)
    unfolding token
    token-Entered s h = after_load (load_once o s) (load_once-Entered s h)
      where
        after_load :
            (x : Result Unit × TokenSource)
            → Entered x
            → Entered (
                after x (λ u v.
                  if expired v.cached (o.now v.tick) refresh_leeway
                  then refresh_locked o (next_tick v)
                  else current o (next_tick v)))
        after_load (err e, v) k = k
        after_load (ok u, v) k =
            elim (Bool-cases (expired v.cached (o.now v.tick) refresh_leeway)) [
              | inl e ↦ simp e (refresh_locked-Entered (next_tick v) k)
              | inr e ↦ simp e (current-Entered (next_tick v) k)
            ]
