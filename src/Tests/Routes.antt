-- ===== src/Tests/Routes.antt =====
-- The theorems on the route, its geocoder, the requests to Strava, the import and the sanitized log at
-- concrete inputs.
use titelheld.Prelude.{
  Bool, ◌||◌, ◌++◌, ℕ, suc, if◌then◌else◌, ◌+◌, ◌*◌, ◌≤◌, ◌<◌, ◌≡◌, refl, true, false, none, List,
  [], ◌∷◌, arith, length, All, ltb, ◌==◌,
}
use titelheld.Prelude.Int.{pos, negsuc}
use titelheld.Prelude.Text.{Text, codes, trim_space, text_eq}
use titelheld.Prelude.Fallible.{Outcome, returned, refused}
use titelheld.Prelude.Action.{ok, Post}
use titelheld.Store.{Duration, second, new_memory, Place}
use titelheld.Processor.{fine}
use titelheld.Geo.{GeoOps}
use titelheld.Geo.Polyline.{Vertex, decode_polyline, in_range, max_encoded_polyline_bytes}
use titelheld.Geo.Polyline.Encoding.{encode_polyline, encode_points, chunks}
use titelheld.Geo.Polyline.RoundTrip.{decode_polyline-encode_polyline}
use titelheld.Geo.Polyline.Accepted.{IsTrack, Cause, decode_polyline_lem}
use titelheld.Geo.Nominatim.{min_request_interval, order_fields}
use titelheld.Geo.Nominatim.Order.{IsResolved, IsRefused, order_fields_lem}
use titelheld.Geo.Client.{Clock, NominatimConfig, Nominatim, new_nominatim}
use titelheld.Geo.Client.Spacing.{AreSpaced, grants, grants-AreSpaced}
use titelheld.Geo.Describe.{Sources, describe}
use titelheld.Geo.Samples.Endpoints.{AllDistinct}
use titelheld.Geo.Describe.Names.{IsNamed, same_name}
use titelheld.Geo.Describe.Privacy.{Kept, describe_lem}
use titelheld.Strava.Client.{
  Client, WriteMode, put, answered, no_response, Network, Trace, do_request,
}
use titelheld.Strava.Client.Attempts.{Requested, do_request_lem}
use titelheld.Importer.{Listed, Deps, Import, no_counts, run}
use titelheld.Importer.Kept.{AddsOnly, total, Stopped, run-AddsOnly}
use titelheld.Importer.Ends.{run-Ended}
use titelheld.Logsafe.{string, block, max_len, max_block_len}
use titelheld.Logsafe.Bounds.{IsSafe, IsBlockSafe, size_of, sanitized_lem}
use titelheld.Tests.{whole_ops, ascii}

abbrev track : List Vertex
track =
    record { lat = pos 4812345; lon = negsuc 1156789 }
    ∷ record { lat = pos 4813000; lon = negsuc 1150000 }
    ∷ record { lat = pos 4812345; lon = pos 5 }
    ∷ []

track-in_range : All (λ v. in_range v ≡ true) track
track-in_range = (refl, (refl, (refl, tt)))

track-short : length (encode_polyline track) ≤ max_encoded_polyline_bytes
unfolding encode_polyline encode_points chunks
track-short = omega arith

decode_polyline-encode_polyline_example : decode_polyline (encode_polyline track) ≡ returned track
decode_polyline-encode_polyline_example =
    decode_polyline-encode_polyline track track-in_range track-short

abbrev route : List ℕ
route = codes "_p~iF~ps|U_ulLnnqC_mqNvxq`@"

decode_polyline_lem_example : Outcome (IsTrack route) (Cause route) (decode_polyline route)
decode_polyline_lem_example = decode_polyline_lem route

abbrev geo_ops : GeoOps
geo_ops = record {
  float_ops = whole_ops;
  of_int = elim [ pos n ↦ n | negsuc n ↦ 0 ];
  lt = ltb;
  same = λ x y. x == y;
  round = λ x. x;
  min = λ x y. if ltb x y then x else y;
  format = λ x. x ∷ [];
  degrees_to_radians = 1;
}

abbrev village : Place
village = record {
  name = codes "Murnau";
  kind = codes "village";
  region = codes "Bayern";
  country = codes "Deutschland";
}

abbrev sources : Sources
sources = record {
  reverse = λ t p. ok village;
  cached = λ t key. ok none;
  save_place = λ t key p. ok tt;
}

describe_lem_example :
    Post
      (λ s j. Kept geo_ops 3 route j × All IsNamed s.along × AllDistinct same_name s.along)
      (Kept geo_ops 3 route)
      (describe ascii geo_ops sources
        (codes "z14")
        3
        route
        (record { tick = 0; requests = []; saves = [] }))
describe_lem_example = describe_lem ascii geo_ops sources (codes "z14") 3 route 0

abbrev chosen : List Text
chosen = codes "town" ∷ codes "village" ∷ []

order_fields_lem_example : Outcome (IsResolved chosen) (IsRefused chosen) (order_fields chosen)
order_fields_lem_example = order_fields_lem chosen

-- each question takes a second, and a sleep what it was asked for
abbrev clock : Clock
clock = record { now = λ t. suc t * second; sleep = λ t d. ltb d second }

clock-ticking : (t : ℕ) → 0 < clock.now t
clock-ticking t = ground arith

clock-sleeping :
    (t : ℕ) (d : Duration)
    → clock.sleep (suc t) d ≡ true
    → clock.now t + d ≤ clock.now (suc (suc t))
clock-sleeping t d h = ground arith

abbrev hash : Text → Text
hash url = codes "c0ffee"

abbrev configuration : NominatimConfig
configuration = record {
  user_agent = codes "titelheld/1.0 (rider@example.com)";
  base_url = [];
  min_interval = 0;
  zoom = 0;
  place_fields = [];
}

abbrev unset : Nominatim
unset = record {
  base_url = [];
  user_agent = [];
  limiter = record { interval = 0; last = 0; tick = 0 };
  zoom = 0;
  place_fields = [];
  scope = [];
}

abbrev geocoder : Nominatim
geocoder = elim (new_nominatim hash configuration) [ returned client ↦ client | refused e ↦ unset ]

geocoder-built : new_nominatim hash configuration ≡ returned geocoder
unfolding new_nominatim trim_space text_eq
geocoder-built = refl

grants-AreSpaced_example : AreSpaced min_request_interval (grants clock 5 geocoder.limiter)
grants-AreSpaced_example =
    grants-AreSpaced clock clock-ticking clock-sleeping hash configuration 5 geocoder geocoder-built

-- an overloaded server, then no answer, then a success
abbrev network : Network
network = record {
  attempt = λ n. if n == 0 then answered 503 else if n == 1 then no_response else answered 200;
  done = λ n. false;
  sleep = λ n d. true;
  random = λ n. n;
}

abbrev strava : Client
strava = record { write_mode = WriteMode.enabled; max_retries = 3 }

abbrev fresh : Trace
fresh = record { attempts = 0; sleeps = [] }

do_request_lem_example :
    Requested network WriteMode.enabled 3 put fresh (do_request network strava put fresh)
do_request_lem_example = do_request_lem network strava put fresh

abbrev listed : ℕ → Text → Listed
listed id name = record { id = id; name = name; sport_type = codes "Ride"; start_date = 1000 }

abbrev history : Deps
history = record {
  unicode = ascii;
  athlete_id = 7;
  machine_titles = record { patterns = [] };
  template_titles = [];
  per_page = 2;
  list_activities = λ t page.
      if page == 1
      then ok (listed 1 (codes "Gegenwind") ∷ listed 2 (codes "Morning Ride") ∷ [])
      else ok (listed 3 (codes "Uphill battle") ∷ []);
  store_fault = λ t. fine;
  cancelled = λ t. false;
  pause = λ t. true;
}

abbrev before : Import
before = record { memory = new_memory; counts = no_counts history; tick = 0 }

run-AddsOnly_example :
    Post
      (λ b u. AddsOnly history new_memory u.memory × (u.counts.seen ≡ total u.counts))
      (Stopped history new_memory)
      (run history 5 before)
run-AddsOnly_example = run-AddsOnly history 5 before refl

history-short :
    (t : ℕ) (activities : List Listed)
    → history.list_activities t 2 ≡ ok activities
    → length activities < history.per_page
history-short t activities h = ground arith

run-Ended_example : Post (λ b u. b ≡ true) (λ u. Unit) (run history 5 before)
run-Ended_example = run-Ended history 2 5 before history-short (omega arith) (omega arith)

-- the override of the direction of a text, and the soft hyphen
abbrev format_character : ℕ → Bool
format_character r = r == 0x202e || r == 0xad

abbrev forged_line : Text
forged_line = codes "Ride" ++ (10 ∷ 0x202e ∷ codes "level=ERROR")

sanitized_lem_example :
    (All (IsSafe format_character) (string format_character forged_line)
      × (length (string format_character forged_line) ≤ max_len + 1))
    × (All (IsBlockSafe format_character) (block format_character forged_line)
        × (size_of (block format_character forged_line) ≤ max_block_len + 3))
sanitized_lem_example = sanitized_lem format_character refl refl forged_line
