-- ===== src/Geo/Describe.antt =====
-- internal/geo/geo.go, Describer: a route described by the names along it. The geocoder and its cache
-- are outside: they answer by the number of questions put so far, in any way.
pub mod Names
pub mod Privacy
use titelheld.Prelude.{
  ℕ, suc, Bool, ◌&&◌, Option, none, some, List, [], ◌∷◌, ◌++◌, map, if◌then◌else◌, is_empty,
  contains_func, ltb, ◌==◌,
}
use titelheld.Prelude.Text.{Text, Unicode, text_eq}
use titelheld.Prelude.Fallible.{Fallible, returned, refused}
use titelheld.Prelude.Action.{Result, ok, err, failed, Action, pure, fail, ◌>>=◌, ◌>>◌}
use titelheld.Store.{Place}
use titelheld.Geo.{Point, GeoOps}
use titelheld.Geo.Polyline.{Bytes, Vertex, PolylineError, decode_polyline}
use titelheld.Geo.Samples.{sample_points, cache_key, max_sample_count}
use titelheld.Geo.Nominatim.{is_allowed_kind}
use titelheld.Geo.PlaceName.{normalize_place_name}

pub record Summary : Type 0 where
  pub along : List Place
  pub region : Text
  pub country : Text

abbrev pub empty_summary : Summary
empty_summary = record { along = []; region = []; country = [] }

unfoldable pub names_loop : List Text → List Place → List Text
names_loop seen [] = []
names_loop seen (place ∷ along) =
    let rest = names_loop (place.name ∷ seen) along in
    if is_empty place.name
    then names_loop seen along
    else if contains_func seen (λ n. text_eq n place.name)
    then names_loop seen along
    else place.name ∷ rest

-- Summary.Names
unfoldable pub names : Summary → List Text
unfolding names_loop
names s = names_loop [] s.along

-- What the geocoder and the cache answer.
pub record Sources : Type 0 where
  pub reverse : ℕ → Point → Result Place
  pub cached : ℕ → Text → Result (Option Place)
  pub save_place : ℕ → Text → Place → Result Unit

-- what was asked of the geocoder, and what was given to the cache, the last one first
pub record Journal : Type 0 where
  pub tick : ℕ
  pub requests : List Point
  pub saves : List (Text × Place)

abbrev pub Lookup : Type 0 → Type 0
Lookup A = Action Journal A

-- NewDescriber: the sample count, or none where it is refused; the geocoder and the cache are there
unfoldable pub new_describer : ℕ → Option ℕ
new_describer sample_count = if ltb max_sample_count sample_count then none else some sample_count

-- Place.Empty
abbrev pub is_empty_place : Place → Bool
is_empty_place place = is_empty place.name && (is_empty place.region && is_empty place.country)

unfoldable pub allowed_only : Place → Place
allowed_only place =
    if is_empty place.name
    then place
    else if is_allowed_kind place.kind
    then place
    else record place { name = []; kind = [] }

module _ (src : Sources) where
  unfoldable pub ask_cache : Text → Lookup (Option Place)
  ask_cache key j = (src.cached j.tick key, record j { tick = suc j.tick })

  unfoldable pub ask_reverse : Point → Lookup Place
  ask_reverse point j =
      (src.reverse j.tick point, record j { tick = suc j.tick; requests = point ∷ j.requests })

  unfoldable pub save_to_cache : Text → Place → Lookup Unit
  save_to_cache key place j = (
    src.save_place j.tick key place,
    record j { tick = suc j.tick; saves = (key, place) ∷ j.saves },
  )

  unfoldable pub fetch : Text → Point → Lookup Place
  unfolding ask_reverse save_to_cache
  fetch key point = do
    answer ← ask_reverse point
    save_to_cache key (allowed_only answer)
    pure (allowed_only answer)

  abbrev pub answer_of : Text → Point → Option Place → Lookup Place
  answer_of key point (some place) = pure (allowed_only place)
  answer_of key point none = fetch key point

  unfoldable pub resolve : Text → Point → Lookup Place
  unfolding ask_cache fetch
  resolve key point = do answer ← ask_cache key; answer_of key point answer

-- the degrees of a vertex: float64(v) / 1e5
abbrev pub point_of : GeoOps → Vertex → Point
point_of ops v = record {
  lat = ops.float_ops.div (ops.of_int v.lat) (ops.float_ops.of_nat 100000);
  lon = ops.float_ops.div (ops.of_int v.lon) (ops.float_ops.of_nat 100000);
}

module _ (unicode : Unicode) where
  abbrev pub normalized : Place → Place
  normalized place = record place {
    name = normalize_place_name unicode place.name;
    region = normalize_place_name unicode place.region;
    country = normalize_place_name unicode place.country;
  }

  -- Region and Country stay what they are once they are set
  abbrev pub with_containers : Summary → Place → Summary
  with_containers s place = record s {
    region = if is_empty s.region then place.region else s.region;
    country = if is_empty s.country then place.country else s.country;
  }

  abbrev pub is_listed : List Text → Place → Bool
  is_listed seen_names place = contains_func seen_names (λ n. text_eq n place.name)

  -- what the loop does with a resolved place: the summary and the names seen
  unfoldable pub take_place : Summary × List Text → Place → Summary × List Text
  take_place (s, seen_names) place =
      let named = normalized place in
      let held = with_containers s named in
      if is_empty_place named
      then (s, seen_names)
      else if is_empty named.name
      then (held, seen_names)
      else if is_listed seen_names named
      then (held, seen_names)
      else (record held { along = s.along ++ (named ∷ []) }, named.name ∷ seen_names)

  module _ (ops : GeoOps) (src : Sources) (scope : Text) where
    unfoldable pub describe_loop :
        List Text → Summary × List Text → List Point → Lookup (Summary × List Text)
    unfolding resolve take_place
    describe_loop seen found [] = pure found
    describe_loop seen found (point ∷ points) =
        let key = cache_key ops scope point in
        let again = describe_loop seen found points in
        let rest = λ (place : Place). describe_loop (key ∷ seen) (take_place found place) points in
        if contains_func seen (λ k. text_eq k key) then again else (resolve src key point >>= rest)

    abbrev pub describe_track :
        ℕ → Fallible PolylineError (List Vertex) → Lookup (Summary × List Text)
    describe_track sample_count (refused e) = fail failed
    describe_track sample_count (returned vertices) =
        describe_loop [] (empty_summary, [])
          (sample_points ops (map (point_of ops) vertices) sample_count)

    -- of a describer with a sample count
    unfoldable pub describe : ℕ → Bytes → Lookup Summary
    unfolding describe_loop
    describe sample_count encoded_polyline = do
      found ← describe_track sample_count (decode_polyline encoded_polyline)
      pure found.0
