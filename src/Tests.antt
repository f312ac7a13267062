-- ===== src/Tests.antt =====
-- The theorems at concrete inputs: a ride of athlete 7 with a default title, queued and swept.
mod Pipeline
mod Parts
mod Routes
mod Candidates
use titelheld.Prelude.{
  ℕ, ◌+◌, ◌-◌, ◌*◌, ◌/◌, ◌≤◌, ◌<◌, ◌≡◌, ◌≢◌, ◌⊎◌, ◌↔◌, refl, Bool, true, false, not, ◌&&◌, ◌||◌,
  Option, none, some, List, [], ◌∷◌, arith, leb, ltb, ◌==◌, if◌then◌else◌, length,
}
use titelheld.Prelude.Int.{ℤ, pos, negsuc}
use titelheld.Prelude.Text.{Text, Unicode, codes, contains, text_eq}
use titelheld.Prelude.Table.{lookup, delete}
use titelheld.Prelude.Action.{Result, ok, err, failed}
use titelheld.Store.{
  Time, Pending, Aspect, Naming, NamedTitle, Source, Language, Token, Memory, new_memory, Franchise,
  key_eq, franchise_key_eq, second,
}
use titelheld.Classifier.{
  FloatOps, SportType, Point, Geofence, ZwiftMode, MachineTitles, Config, Tier, Verdict, Decision,
}
use titelheld.Processor.{Activity, Titled, Call, Fault, fine, World, Deps, Outcome, SweepResult}

abbrev pub whole_ops : FloatOps
whole_ops = record {
  of_nat = λ n. n;
  add = λ x y. x + y;
  sub = λ x y. x - y;
  mul = λ x y. x * y;
  div = λ x y. x / y;
  le = leb;
  sin = λ x. x;
  cos = λ x. x;
  asin = λ x. x;
  sqrt = λ x. x;
  pi = 3;
}

abbrev pub ascii : Unicode
ascii = record {
  is_letter = λ c. (leb 65 c && leb c 90) || (leb 97 c && leb c 122);
  is_digit = λ c. leb 48 c && leb c 57;
  to_lower = λ c. if leb 65 c && leb c 90 then c + 32 else c;
}

abbrev pub far : Geofence
far = record { center = record { lat = 0; lon = 0 }; radius_meters = 0 }

abbrev pub config : Config
config = record {
  zwift_mode = ZwiftMode.keep;
  home = far;
  work = far;
  to_work_title = codes "Zur Arbeit";
  to_home_title = codes "Nach Hause";
  leave_errands_unnamed = false;
  sport_min_distance_meters = 0;
  sport_min_moving_time_seconds = 3600;
  machine_titles = record { patterns = [] };
}

abbrev pub ride : ℕ → Activity
ride id = record {
  id = id;
  name = codes "Morning Ride";
  description = [];
  sport_type = SportType.ride;
  trainer = false;
  commute = false;
  distance = 40000;
  moving_time = 7200;
  start_latlng = [];
  end_latlng = [];
  start_date = 1000;
}

abbrev pub proposal : Titled
proposal = record {
  text = codes "Gegenwind";
  language = Language.german;
  franchise = [];
  franchise_entry = [];
  franchise_index = pos 0;
  source = Source.service;
}

abbrev pub deps : Deps
deps = record {
  classifier = config;
  float_ops = whole_ops;
  unicode = ascii;
  disable_attribution = false;
  provisional_skip_window = 0;
  writes_enabled = true;
  now = λ t. 5000 + t;
  store_fault = λ t. fine;
  get_activity = λ t id. ok (ride id);
  put = λ t c. ok none;
  llm_title = λ t athlete a decision. ok proposal;
  cancelled = λ t. false;
}

abbrev pub dry_deps : Deps
dry_deps = record deps { writes_enabled = false }

abbrev pub entry : Pending
entry = record {
  athlete_id = 7;
  activity_id = 42;
  aspect = Aspect.create;
  enqueued_at = 100;
  process_after = 200;
}

abbrev pub queued : World
queued = record {
  memory = record new_memory { pending = ((7, 42), entry) ∷ [] };
  calls = [];
  tick = 0;
}
