-- ===== src/Endpoint.antt =====
-- internal/sweep/sweep.go: the endpoint that the scheduler calls. A request is what the handler reads
-- of it, the Authorization header; the verification of a Google token is outside.
pub mod Access
use titelheld.Prelude.{
  ℕ, suc, ◌+◌, ◌-◌, ◌≡◌, Bool, true, false, not, ◌&&◌, Option, none, some, ◌⊎◌, inl, inr, List, [],
  ◌∷◌, if◌then◌else◌, ltb, leb, take, drop, length, map,
}
use titelheld.Prelude.Text.{Text, codes, text_eq, trim_space}
use titelheld.Prelude.Action.{Result, ok, err}
use titelheld.Processor.{SweepResult}

-- The claims of idtoken.Payload that the handler reads; a claim that is missing, or of another type,
-- is none.
pub record Payload : Type 0 where
  pub issuer : Text
  pub email : Option Text
  pub email_verified : Option Bool

pub record Deps : Type 0 where
  pub audience : Text
  pub service_account : Text
  pub validate : Text → Text → Option Payload

-- New: what a handler wants
unfoldable pub is_configured : Deps → Bool
is_configured d = not (text_eq d.audience []) && not (text_eq d.service_account [])

-- Why a caller is rejected.
pub data Rejection : Type 0 where
  no_header not_bearer empty_token not_valid wrong_issuer wrong_email not_verified : Rejection

abbrev pub google_issuer : Text
google_issuer = codes "https://accounts.google.com"

-- strings.EqualFold against an ASCII text: no other character folds to a letter of "Bearer "
abbrev pub ascii_lower : ℕ → ℕ
ascii_lower c = if leb 65 c && leb c 90 then c + 32 else c

unfoldable pub equal_fold : Text → Text → Bool
equal_fold s t = text_eq (map ascii_lower s) (map ascii_lower t)

-- cutPrefixFold
unfoldable pub cut_prefix_fold : Text → Text → Option Text
cut_prefix_fold s prefix =
    if ltb (length s) (length prefix)
    then none
    else if equal_fold (take (length prefix) s) prefix
    then some (drop (length prefix) s)
    else none

abbrev pub nonempty : Text → Text ⊎ Rejection
nonempty [] = inr Rejection.empty_token
nonempty (c ∷ cs) = inl (c ∷ cs)

abbrev pub trimmed : Option Text → Text ⊎ Rejection
trimmed none = inr Rejection.not_bearer
trimmed (some token) = nonempty (trim_space token)

-- bearerToken; a header that is missing is empty
unfoldable pub bearer_token : Text → Text ⊎ Rejection
bearer_token [] = inr Rejection.no_header
bearer_token (c ∷ cs) = trimmed (cut_prefix_fold (c ∷ cs) (codes "Bearer "))

-- the zero value of a claim that is none
abbrev pub text_or_empty : Option Text → Text
text_or_empty none = []
text_or_empty (some t) = t

abbrev pub is_verified : Option Bool → Bool
is_verified none = false
is_verified (some b) = b

module _ (d : Deps) where
  abbrev pub check_payload : Option Payload → Option Rejection
  check_payload none = some Rejection.not_valid
  check_payload (some p) =
      if not (text_eq p.issuer google_issuer)
      then some Rejection.wrong_issuer
      else if not (text_eq (text_or_empty p.email) d.service_account)
      then some Rejection.wrong_email
      else if not (is_verified p.email_verified)
      then some Rejection.not_verified
      else none

  abbrev pub check_token : Text ⊎ Rejection → Option Rejection
  check_token (inr r) = some r
  check_token (inl token) = check_payload (d.validate token d.audience)

  -- authenticate: none if the caller is the scheduler
  unfoldable pub authenticate : Text → Option Rejection
  authenticate header = check_token (bearer_token header)

-- The lock, and how many sweeps run; the lock is what TryLock reads.
pub record Handler : Type 0 where
  pub running : Bool
  pub sweeping : ℕ

pub data Response : Type 0 where
  unauthorized already_running : Response
  swept : SweepResult → Response
  sweep_failed : Response

-- ServeHTTP up to the call of Sweep: a response ahead of it, or none where the sweep starts
abbrev pub admit : Option Rejection → Handler → Option Response × Handler
admit (some r) h = (some Response.unauthorized, h)
admit none h =
    if h.running
    then (some Response.already_running, h)
    else (none, record { running = true; sweeping = suc h.sweeping })

unfoldable pub arrive : Deps → Text → Handler → Option Response × Handler
arrive d header h = admit (authenticate d header) h

-- ServeHTTP after the call of Sweep
unfoldable pub finish : Result SweepResult → Handler → Response × Handler
finish (ok r) h = (Response.swept r, record { running = false; sweeping = h.sweeping - 1 })
finish (err e) h = (Response.sweep_failed, record { running = false; sweeping = h.sweeping - 1 })
