-- ===== src/Geo/Client.antt =====
-- internal/geo/nominatim.go: the client, its rate limit and its requests.
pub mod Built
pub mod Spacing
pub mod Privacy
use titelheld.Prelude.{
  ℕ, suc, ◌+◌, ◌-◌, Bool, true, false, not, ◌&&◌, ◌||◌, Option, none, some, List, [], ◌∷◌, ◌++◌,
  if◌then◌else◌, ltb, ◌==◌, is_empty,
}
use titelheld.Prelude.Text.{Text, codes, text_eq, trim_space, has_suffix, itoa}
use titelheld.Prelude.Fallible.{Fallible, returned, refused, ◌>>=◌}
use titelheld.Store.{Place, Time, Duration}
use titelheld.Geo.{Point}
use titelheld.Geo.Nominatim.{
  default_nominatim_base_url, min_request_interval, default_zoom, min_zoom, max_zoom, AddressField,
  ConfigError, no_user_agent, bad_zoom, order_fields, ReverseResponse, place_from,
}

-- What the clock and the sleep answer, by the number of questions so far; false is a sleep that the
-- context cut short.
pub record Clock : Type 0 where
  pub now : ℕ → Time
  pub sleep : ℕ → Duration → Bool

-- A `last` of 0 is the zero time.
pub record Limiter : Type 0 where
  pub interval : Duration
  pub last : Time
  pub tick : ℕ

-- wait: false is the error of the sleep
unfoldable pub wait : Clock → Limiter → Bool × Limiter
wait c l =
    let now = c.now l.tick in
    if not (l.last == 0) && ltb now (l.last + l.interval)
    then (if c.sleep (suc l.tick) (l.last + l.interval - now)
        then (true, record l { last = c.now (suc (suc l.tick)); tick = suc (suc (suc l.tick)) })
        else (false, record l { tick = suc (suc l.tick) }))
    else (true, record l { last = now; tick = suc l.tick })

-- NominatimConfig; an interval of 0 and a zoom of 0 are unset, and a negative interval is as 0
pub record NominatimConfig : Type 0 where
  pub user_agent : Text
  pub base_url : Text
  pub min_interval : Duration
  pub zoom : ℕ
  pub place_fields : List Text

pub record Nominatim : Type 0 where
  pub base_url : Text
  pub user_agent : Text
  pub limiter : Limiter
  pub zoom : ℕ
  pub place_fields : List AddressField
  pub scope : Text

-- strings.TrimSuffix(url, "/")
abbrev trim_slash : Text → Text
trim_slash [] = []
trim_slash (c ∷ []) = if c == 47 then [] else c ∷ []
trim_slash (c ∷ d ∷ s) = c ∷ trim_slash (d ∷ s)

module _ (hash : Text → Text) where
  -- `hash` is the first four bytes of the SHA-256 in hex digits
  unfoldable pub cache_scope : ℕ → Text → Text → Text
  cache_scope zoom order_token base_url =
      let scope = codes "z" ++ (itoa zoom ++ (codes "_" ++ order_token)) in
      if text_eq base_url default_nominatim_base_url
      then scope
      else scope ++ (codes "_h" ++ hash base_url)

  abbrev pub client_of :
      NominatimConfig → Duration → ℕ → List AddressField × Text → Text → Nominatim
  client_of cfg interval zoom (fields, token) base_url = record {
    base_url = base_url;
    user_agent = cfg.user_agent;
    limiter = record { interval = interval; last = 0; tick = 0 };
    zoom = zoom;
    place_fields = fields;
    scope = cache_scope zoom token base_url;
  }

  unfoldable pub new_nominatim : NominatimConfig → Fallible ConfigError Nominatim
  unfolding cache_scope order_fields
  new_nominatim cfg =
      let interval =
        if ltb cfg.min_interval min_request_interval
        then min_request_interval
        else cfg.min_interval in
      let zoom = if cfg.zoom == 0 then default_zoom else cfg.zoom in
      let trimmed = trim_slash cfg.base_url in
      let base_url = if is_empty trimmed then default_nominatim_base_url else trimmed in
      if is_empty (trim_space cfg.user_agent)
      then refused no_user_agent
      else if ltb zoom min_zoom || ltb max_zoom zoom
      then refused bad_zoom
      else (order_fields cfg.place_fields >>= λ fields.
          returned (client_of cfg interval zoom fields base_url))

-- The answer to one request: none, or a status and the reply, if it decodes.
pub data HttpAnswer : Type 0 where
  no_answer : HttpAnswer
  answered : ℕ → Option ReverseResponse → HttpAnswer

pub data ReverseError : Type 0 where
  interrupted request_failed throttled blocked bad_response : ReverseError
  unexpected_status : ℕ → ReverseError

abbrev place_of : List AddressField → Option ReverseResponse → Fallible ReverseError Place
place_of fields none = refused bad_response
place_of fields (some payload) =
    if payload.error
    then returned (record { name = []; kind = []; region = []; country = [] })
    else returned (place_from fields payload)

unfoldable pub read_answer : List AddressField → HttpAnswer → Fallible ReverseError Place
read_answer fields no_answer = refused request_failed
read_answer fields (answered status payload) =
    if status == 200
    then place_of fields payload
    else if status == 429
    then refused throttled
    else if status == 403
    then refused blocked
    else refused (unexpected_status status)

-- Reverse: the answer, and the client with its limiter; `exchange` answers by the clock's count
unfoldable pub reverse :
    Clock → (ℕ → Point → HttpAnswer) → Nominatim → Point → Fallible ReverseError Place × Nominatim
unfolding wait read_answer
reverse c exchange n point =
    let granted = wait c n.limiter in
    let waited = record n { limiter = granted.1 } in
    if granted.0
    then (read_answer n.place_fields (exchange granted.1.tick point), waited)
    else (refused interrupted, waited)
