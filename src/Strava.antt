-- ===== src/Strava.antt =====
-- internal/strava/token.go and tokensource.go: the OAuth token pair and its rotation. The exchange
-- with Strava, the clock and the failures of the store are outside; the lock makes each call of Token
-- one step.
pub mod Client
pub mod Chain
pub mod Runs
use titelheld.Prelude.{
  ℕ, suc, ◌+◌, ◌*◌, Bool, true, false, not, ◌||◌, ◌==◌, Option, none, some, List, [], ◌∷◌,
  if◌then◌else◌, ltb, contains_func, select,
}
use titelheld.Prelude.Text.{Text, codes, text_eq}
use titelheld.Prelude.Action.{Error, not_found, failed, Result, ok, err, Action, after}
use titelheld.Store.{Time, Duration, second, Token, Memory}
use titelheld.Store.InMemory.{load, save}
use titelheld.Processor.{Fault, fine, before_change, after_change}
use titelheld.Processor.Outside.{read}

-- Expired; an expiry of 0 is the zero time
unfoldable pub expired : Token → Time → Duration → Bool
expired t now leeway = t.expires_at == 0 || not (ltb (now + leeway) t.expires_at)

unfoldable pub has_scope : Token → Text → Bool
has_scope t scope = contains_func t.scopes (text_eq scope)

-- MissingScopes
unfoldable pub missing_scopes : Token → List Text
unfolding has_scope
missing_scopes t =
    select (λ scope. not (has_scope t scope))
      (codes "activity:read_all" ∷ codes "activity:write" ∷ [])

abbrev pub refresh_leeway : Duration
refresh_leeway = 5 * 60 * second

-- The exchange of a refresh token, the clock and the store's failures, by the number of questions
-- put so far.
pub record Oauth : Type 0 where
  pub refresh : ℕ → Text → Result Token
  pub now : ℕ → Time
  pub store_fault : ℕ → Fault

-- StoredTokenSource with its store, and the exchanges that Strava answered with a pair: the refresh
-- token spent and the pair issued, the last one first.
pub record TokenSource : Type 0 where
  pub memory : Memory
  pub athlete_id : ℕ
  pub cached : Token
  pub loaded : Bool
  pub persisted : Bool
  pub exchanged : List (Text × Token)
  pub tick : ℕ

abbrev pub next_tick : TokenSource → TokenSource
next_tick s = record s { tick = suc s.tick }

-- the answer of Load
abbrev pub adopt_loaded : Result (Option Token) → TokenSource → Result Unit × TokenSource
adopt_loaded (err e) s = (err e, s)
adopt_loaded (ok none) s = (err not_found, s)
adopt_loaded (ok (some t)) s = (ok tt, record s { cached = t; loaded = true; persisted = true })

-- the answer of Save
abbrev pub saved : Fault → TokenSource → Result Unit × TokenSource
saved fine s = (ok tt, record s { memory = save s.memory s.cached; persisted = true })
saved before_change s = (err failed, s)
saved after_change s = (err failed, record s { memory = save s.memory s.cached })

-- what a refresh carries across from the pair before
unfoldable pub carry_across : TokenSource → Token → Token
carry_across s t =
    let a = if t.athlete_id == 0 then s.cached.athlete_id else t.athlete_id in
    let b = if a == 0 then s.athlete_id else a in
    record t { athlete_id = b; scopes = or_else t.scopes s.cached.scopes }
  where
    or_else : List Text → List Text → List Text
    or_else [] before = before
    or_else (c ∷ cs) before = c ∷ cs

abbrev pub is_empty : Text → Bool
is_empty [] = true
is_empty (c ∷ cs) = false

-- the pair in hand, whatever the save says
abbrev pub cached_of : Result Unit × TokenSource → Result Token × TokenSource
cached_of (r, s) = (ok s.cached, s)

-- the pair in hand, if it was saved
abbrev pub persisted_of : Result Unit × TokenSource → Result Token × TokenSource
persisted_of (ok u, s) = (ok s.cached, s)
persisted_of (err e, s) = (err e, s)

module _ (o : Oauth) where
  unfoldable pub load_once : Action TokenSource Unit
  load_once s =
      if s.loaded
      then (ok tt, s)
      else adopt_loaded (read (o.store_fault s.tick) (load s.memory s.athlete_id)) (next_tick s)

  unfoldable pub save_cached : Action TokenSource Unit
  save_cached s = saved (o.store_fault s.tick) (next_tick s)

  -- the answer of Refresh: the pair is adopted before the store is touched
  unfoldable pub refreshed : Result Token → Action TokenSource Token
  unfolding save_cached carry_across
  refreshed (err e) s = (err e, s)
  refreshed (ok t) s = persisted_of (
      save_cached (record s {
        cached = carry_across s t;
        persisted = false;
        exchanged = (s.cached.refresh_token, t) ∷ s.exchanged;
      }))

  -- refreshLocked
  unfoldable pub refresh_locked : Action TokenSource Token
  unfolding refreshed
  refresh_locked s =
      if is_empty s.cached.refresh_token
      then (err not_found, s)
      else refreshed (o.refresh s.tick s.cached.refresh_token) (next_tick s)

  -- an unexpired pair; one that is not in the store yet is saved again
  unfoldable pub current : Action TokenSource Token
  unfolding save_cached
  current s = if s.persisted then (ok s.cached, s) else cached_of (save_cached s)

  -- Token
  unfoldable pub token : Action TokenSource Token
  unfolding load_once expired refresh_locked current
  token s = after (load_once s) (λ u v.
      if expired v.cached (o.now v.tick) refresh_leeway
      then refresh_locked (next_tick v)
      else current (next_tick v))
