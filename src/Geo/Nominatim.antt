-- ===== src/Geo/Nominatim.antt =====
-- internal/geo/nominatim.go: the client of the geocoder. The clock, the sleep, the HTTP exchange with
-- its JSON and the hash of the base URL are outside, and parameters.
pub mod Order
use titelheld.Prelude.{
  ℕ, suc, ◌+◌, Bool, true, false, not, ◌&&◌, ◌||◌, Option, none, some, List, [], ◌∷◌, ◌++◌, map,
  if◌then◌else◌, contains_func, select, is_empty, ltb, leb, ◌==◌,
}
use titelheld.Prelude.Text.{Text, codes, text_eq, text_key, trim_space, has_suffix}
use titelheld.Prelude.Table.{lookup}
use titelheld.Prelude.Fallible.{Fallible, returned, refused, ◌>>=◌}
use titelheld.Store.{Place, Duration, second}

abbrev pub default_nominatim_base_url : Text
default_nominatim_base_url = codes "https://nominatim.openstreetmap.org"

abbrev pub min_request_interval : Duration
min_request_interval = second

abbrev pub default_zoom : ℕ
default_zoom = 16

abbrev pub min_zoom : ℕ
min_zoom = 3

abbrev pub max_zoom : ℕ
max_zoom = 18

abbrev pub default_place_fields : List Text
default_place_fields = codes "hamlet" ∷ codes "village" ∷ codes "suburb" ∷ codes "town" ∷ []

pub record AddressField : Type 0 where
  pub key : Text
  pub kind : Text
  pub token : ℕ

abbrev field : Text → Text → Text → AddressField
field key kind [] = record { key = key; kind = kind; token = 0 }
field key kind (c ∷ _) = record { key = key; kind = kind; token = c }

abbrev pub address_fields : List AddressField
address_fields =
    field (codes "village") (codes "village") (codes "v")
    ∷ field (codes "hamlet") (codes "hamlet") (codes "h")
    ∷ field (codes "town") (codes "town") (codes "t")
    ∷ field (codes "city") (codes "city") (codes "c")
    ∷ field (codes "municipality") (codes "municipality") (codes "m")
    ∷ field (codes "suburb") (codes "suburb") (codes "s")
    ∷ field (codes "city_district") (codes "district") (codes "d")
    ∷ field (codes "county") (codes "county") (codes "y")
    ∷ []

abbrev pub region_fields : List Text
region_fields = codes "state_district" ∷ codes "state" ∷ codes "region" ∷ codes "province" ∷ []

-- each type is its own kind
abbrev same_kinds : List Text → List (Text × Text)
same_kinds = map (λ t. (t, t))

abbrev pub natural_features : List (Text × List (Text × Text))
natural_features =
    (codes "waterway", same_kinds (codes "river" ∷ codes "stream" ∷ codes "canal" ∷ []))
    ∷ (
      codes "natural",
      same_kinds (
          codes "water"
          ∷ codes "bay"
          ∷ codes "strait"
          ∷ codes "wood"
          ∷ codes "forest"
          ∷ codes "heath"
          ∷ codes "moor"
          ∷ codes "grassland"
          ∷ codes "beach"
          ∷ codes "cliff"
          ∷ codes "peak"
          ∷ codes "ridge"
          ∷ codes "valley"
          ∷ codes "saddle"
          ∷ codes "glacier"
          ∷ []),
    )
    ∷ []

abbrev pub feature_kinds : List (Text × List (Text × Text)) → List Text
feature_kinds [] = []
feature_kinds ((_, types) ∷ features) = map (λ t. t.1) types ++ feature_kinds features

abbrev pub allowed_kinds : List Text
allowed_kinds = map (λ f. f.kind) address_fields ++ feature_kinds natural_features

unfoldable pub is_allowed_kind : Text → Bool
is_allowed_kind kind = contains_func allowed_kinds (λ k. text_eq k kind)

abbrev pub has_key : Text → AddressField → Bool
has_key key f = text_eq f.key key

-- the unknown keys and those listed twice, behind the keys seen
place_fields_loop : List Text → List Text → List Text × List Text
place_fields_loop seen [] = ([], [])
place_fields_loop seen (key ∷ order) =
    let again = place_fields_loop seen order in
    let rest = place_fields_loop (key ∷ seen) order in
    if contains_func seen (λ k. text_eq k key)
    then (again.0, key ∷ again.1)
    else if contains_func address_fields (has_key key)
    then rest
    else (key ∷ rest.0, rest.1)

-- What is wrong with an order: the keys that are unknown, and those listed twice.
unfoldable pub validate_place_fields : List Text → List Text × List Text
unfolding place_fields_loop
validate_place_fields order = place_fields_loop [] order

unfoldable pub find_field : Text → List AddressField → Option AddressField
find_field key [] = none
find_field key (f ∷ fields) = if has_key key f then some f else find_field key fields

-- the fields of the keys; a key of a valid order is one of a field
unfoldable pub fields_of : List Text → List AddressField
unfolding find_field
fields_of [] = []
fields_of (key ∷ order) =
    let rest = fields_of order in
    elim (find_field key address_fields) [ none ↦ rest | some f ↦ f ∷ rest ]

-- The errors of the constructor.
pub data ConfigError : Type 0 where
  no_user_agent bad_zoom : ConfigError
  bad_order : List Text × List Text → ConfigError

-- the fields, and the token of the order
unfoldable pub order_fields : List Text → Fallible ConfigError (List AddressField × Text)
unfolding validate_place_fields fields_of
order_fields order =
    let order' = if is_empty order then default_place_fields else order in
    let wrong = validate_place_fields order' in
    let taken = fields_of order' in
    if is_empty wrong.0 && is_empty wrong.1
    then returned (
      taken ++ select (λ f. not (contains_func order' (λ key. text_eq key f.key))) address_fields,
      map (λ f. f.token) taken,
    )
    else refused (bad_order wrong)

-- The subset of the reply that is read; `error` tells whether it reports an error.
pub record ReverseResponse : Type 0 where
  pub category : Text
  pub type_name : Text
  pub name : Text
  pub address : List (Text × Text)
  pub error : Bool

-- a missing key reads as the empty text
abbrev pub address_of : ReverseResponse → Text → Text
address_of payload key = elim (lookup key payload.address) [ none ↦ [] | some v ↦ v ]

unfoldable pub region_of : ReverseResponse → List Text → Text
region_of payload [] = []
region_of payload (f ∷ fields) =
    if is_empty (address_of payload f) then region_of payload fields else address_of payload f

-- the name and the kind
unfoldable pub name_of : ReverseResponse → List AddressField → Text × Text
name_of payload [] = ([], [])
name_of payload (f ∷ fields) =
    if is_empty (address_of payload f.key)
    then name_of payload fields
    else (address_of payload f.key, f.kind)

unfoldable pub feature_kind : ReverseResponse → Option Text
feature_kind payload = elim (lookup payload.category natural_features) [
  | none ↦ none
  | some types ↦ lookup payload.type_name types
]

abbrev pub feature_named : Text → Option Text → Text × Text
feature_named name none = ([], [])
feature_named name (some kind) = if is_empty name then ([], []) else (name, kind)

-- the name and the kind, where no settlement is named
unfoldable pub feature_of : ReverseResponse → Text × Text
unfolding feature_kind
feature_of payload = feature_named payload.name (feature_kind payload)

unfoldable pub place_from : List AddressField → ReverseResponse → Place
unfolding name_of feature_of region_of
place_from place_fields payload =
    let settlement = name_of payload place_fields in
    let named = if is_empty settlement.0 then feature_of payload else settlement in
    record {
      name = named.0;
      kind = named.1;
      region = region_of payload region_fields;
      country = address_of payload (codes "country");
    }
