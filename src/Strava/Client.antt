-- ===== src/Strava/Client.antt =====
-- internal/strava/client.go and internal/strava/errors.go: the transport of the Strava client, its
-- retries and its write guard. The token, the HTTP exchange, the context, the sleep and the random
-- numbers are outside, and answer by the number of attempts so far. A negative MaxRetries, which no
-- configuration sets, is not modelled.
pub mod Attempts
use titelheld.Prelude.{
  ℕ, zero, suc, ◌+◌, ◌-◌, ◌*◌, ◌/◌, ◌%◌, ◌^◌, Bool, true, false, not, ◌&&◌, ◌||◌, ◌==◌, ltb, leb,
  Option, none, some, List, [], ◌∷◌, if◌then◌else◌,
}
use titelheld.Prelude.Text.{Text, codes, text_eq, fields}
use titelheld.Prelude.Fallible.{Fallible, returned, refused}
use titelheld.Store.{Duration, second}

pub data WriteMode : Type 0 where
  dry_run enabled : WriteMode

pub data Method : Type 0 where
  get put : Method

-- Errors of a request: the token's, the transport's, the context's, and a status.
pub data ClientError : Type 0 where
  writes_disabled token_error transport_error interrupted : ClientError
  status_error : ℕ → ClientError

-- the sentinels that errors.Is tells apart
pub data Sentinel : Type 0 where
  not_found unauthorized rate_limited : Sentinel

-- StatusError.Is
unfoldable pub status_is : ℕ → Sentinel → Bool
status_is status not_found = status == 404
status_is status unauthorized = status == 401 || status == 403
status_is status rate_limited = status == 429

-- do: a response by its status, an error at once, or the last error after all attempts
pub data Outcome : Type 0 where
  responded : ℕ → Outcome
  failed_at_once : ClientError → Outcome
  exhausted : ClientError → Outcome

pub record ClientConfig : Type 0 where
  pub write_mode : WriteMode
  pub max_retries : ℕ

pub record Client : Type 0 where
  pub write_mode : WriteMode
  pub max_retries : ℕ

-- NewClient: cmp.Or(maxRetries, 3)
unfoldable pub new_client : ClientConfig → Client
new_client cfg = record {
  write_mode = cfg.write_mode;
  max_retries = if cfg.max_retries == 0 then 3 else cfg.max_retries;
}

-- What one attempt ends in.
pub data Attempt : Type 0 where
  no_token no_response : Attempt
  answered : ℕ → Attempt

pub record Network : Type 0 where
  pub attempt : ℕ → Attempt
  -- ctx.Err() is not nil
  pub done : ℕ → Bool
  -- false is a sleep that the context cut short
  pub sleep : ℕ → Duration → Bool
  pub random : ℕ → ℕ

-- The attempts made, and the sleeps between them, the last one first.
pub record Trace : Type 0 where
  pub attempts : ℕ
  pub sleeps : List Duration

-- backoff, of an attempt from 1 on, with rand.Int64N as a remainder
unfoldable pub backoff : ℕ → ℕ → Duration
backoff attempt random = let base = 2 ^ (attempt - 1) * second in base + random % (base / 2)

-- 429, or 500 and above
abbrev pub retried : ℕ → Bool
retried status = status == 429 || leb 500 status

abbrev pub unexpected : ℕ → Bool
unexpected status = ltb status 200 || leb 300 status

module _ (net : Network) where
  -- what follows an attempt: `next` goes on with the last error
  abbrev pub follow : Attempt → (ClientError → Trace → Outcome × Trace) → Trace → Outcome × Trace
  follow no_token next t = (failed_at_once token_error, t)
  follow no_response next t =
      if net.done t.attempts then (failed_at_once interrupted, t) else next transport_error t
  follow (answered status) next t =
      if retried status
      then next (status_error status) t
      else if unexpected status
      then (failed_at_once (status_error status), t)
      else (responded status, t)

  abbrev pub attempted : Trace → Trace
  attempted t = record t { attempts = suc t.attempts }

  abbrev pub slept : ℕ → Trace → Trace
  slept number t = record t { sleeps = backoff number (net.random t.attempts) ∷ t.sleeps }

  -- the attempts from one on, of which so many are left
  unfoldable pub do_loop : ℕ → ℕ → ClientError → Trace → Outcome × Trace
  unfolding backoff
  do_loop zero number last t = (exhausted last, t)
  do_loop (suc left) number last t =
      let next = do_loop left (suc number) in
      let tried = λ (u : Trace). follow (net.attempt u.attempts) next (attempted u) in
      if number == 0
      then tried t
      else if net.sleep t.attempts (backoff number (net.random t.attempts))
      then tried (slept number t)
      else (failed_at_once interrupted, slept number t)

  abbrev is_write : Method → Bool
  is_write get = false
  is_write put = true

  abbrev is_enabled : WriteMode → Bool
  is_enabled enabled = true
  is_enabled dry_run = false

  -- The last error before the first attempt is nil, and never returned.
  unfoldable pub do_request : Client → Method → Trace → Outcome × Trace
  unfolding do_loop
  do_request c method t =
      if is_write method && not (is_enabled c.write_mode)
      then (failed_at_once writes_disabled, t)
      else do_loop (suc c.max_retries) 0 transport_error t
