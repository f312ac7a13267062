-- ===== src/Webhook/Handshake.antt =====
-- internal/webhook/webhook.go: the routes of the endpoint, the validation handshake and the
-- acknowledgement of an event. SHA-256 and the decoding of JSON are outside; the answer of a request is
-- its status and, for the handshake, the challenge.
use titelheld.Prelude.{
  ◌≡◌, ◌↔◌, refl, Bool, true, false, not, Option, none, some, [], ◌∷◌, if◌then◌else◌, arith,
}
use titelheld.Prelude.Text.{Text, codes, text_eq, text_eq_iff}
use titelheld.Processor.{Deps, World}
use titelheld.Webhook.{Event, Handler, process}

-- the query parameters that validate reads; one that is missing is empty
pub record Query : Type 0 where
  pub mode : Text
  pub verify_token : Text
  pub challenge : Text

pub data Request : Type 0 where
  get : Query → Request
  -- a body that holds an event, or one that does not decode
  post : Option Event → Request
  other_method : Request

pub data Response : Type 0 where
  forbidden bad_request acknowledged method_not_allowed : Response
  echoed : Text → Response

abbrev pub is_blank : Text → Bool
is_blank [] = true
is_blank (c ∷ cs) = false

-- equalSecret: the hashes are compared
unfoldable pub equal_secret : (Text → Text) → Text → Text → Bool
equal_secret sha256 got want = text_eq (sha256 got) (sha256 want)

unfoldable pub validate : (Text → Text) → Text → Query → Response
validate sha256 verify_token q =
    if not (text_eq q.mode (codes "subscribe"))
    then Response.forbidden
    else if not (equal_secret sha256 q.verify_token verify_token)
    then Response.forbidden
    else if is_blank q.challenge
    then Response.bad_request
    else Response.echoed q.challenge

-- intake: the acknowledgement goes out ahead of the work, whose errors are only logged
unfoldable pub intake : Deps → Handler → Option Event → World → Response × World
intake d h none w = (Response.bad_request, w)
intake d h (some e) w = (Response.acknowledged, (process d h e w).1)

unfoldable pub serve : Deps → Handler → (Text → Text) → Text → Request → World → Response × World
serve d h sha256 verify_token (get q) w = (validate sha256 verify_token q, w)
serve d h sha256 verify_token (post body) w = intake d h body w
serve d h sha256 verify_token other_method w = (Response.method_not_allowed, w)

validate_cases :
    (m t b : Bool) (c : Text)
    → (if not m
        then Response.forbidden
        else if not t
        then Response.forbidden
        else if b
        then Response.bad_request
        else Response.echoed c)
      ≡ Response.echoed c
    → (m ≡ true) × (t ≡ true) × (b ≡ false)
validate_cases m t b c e = ground arith

-- The handshake answers with the challenge exactly if the request asks to subscribe, carries a verify
-- token with the hash of the configured one and has a challenge.
pub validate-echoed :
    (sha256 : Text → Text) (verify_token : Text) (q : Query)
    → (validate sha256 verify_token q ≡ Response.echoed q.challenge) ↔ (
        (q.mode ≡ codes "subscribe")
        × (sha256 q.verify_token ≡ sha256 verify_token)
        × (is_blank q.challenge ≡ false))
unfolding validate equal_secret
validate-echoed sha256 verify_token q = (
  λ e.
      let c =
        validate_cases (text_eq q.mode (codes "subscribe"))
          (text_eq (sha256 q.verify_token) (sha256 verify_token)) (is_blank q.challenge) q.challenge
          e in
      (
        (text_eq_iff q.mode (codes "subscribe")).0 c.0,
        (text_eq_iff (sha256 q.verify_token) (sha256 verify_token)).0 c.1,
        c.2,
      ),
  λ h.
      rw
        (
          (text_eq_iff q.mode (codes "subscribe")).1 h.0,
          (text_eq_iff (sha256 q.verify_token) (sha256 verify_token)).1 h.1,
          h.2,
        )
        refl,
)
