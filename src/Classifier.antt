-- ===== src/Classifier.antt =====
-- internal/classifier: activity.go and the types of classifier.go. A float64 is its bit pattern, and
-- the IEEE operations and those of package math are the fields of `FloatOps`, a parameter.
pub mod Titles
pub mod Classify
pub mod Gate
pub mod Spec
use titelheld.Prelude.{ℕ, Bool, Option, List, [], ◌∷◌}
use titelheld.Prelude.Text.{Text, codes}

abbrev pub Float : Type 0
Float = ℕ

pub record FloatOps : Type 0 where
  pub of_nat : ℕ → Float
  pub add : Float → Float → Float
  pub sub : Float → Float → Float
  pub mul : Float → Float → Float
  pub div : Float → Float → Float
  pub le : Float → Float → Bool
  pub sin : Float → Float
  pub cos : Float → Float
  pub asin : Float → Float
  pub sqrt : Float → Float
  pub pi : Float

-- The sport_type strings that the code tells apart; `other` holds any other text.
pub data SportType : Type 0 where
  ride gravel_ride virtual_ride walk hike workout weight_training : SportType
  other : Text → SportType

pub record Point : Type 0 where
  pub lat : Float
  pub lon : Float

-- A negative moving time meets no threshold, as 0 meets none.
pub record Activity : Type 0 where
  pub name : Text
  pub description : Text
  pub sport_type : SportType
  pub trainer : Bool
  pub commute : Bool
  pub distance_meters : Float
  pub moving_time_seconds : ℕ
  pub start_point : Option Point
  pub end_point : Option Point

pub data Tier : Type 0 where
  tier_none skip virtual commute errand sport_ride : Tier

pub data Verdict : Type 0 where
  skip commute_template errand_template llm llm_indoor : Verdict

pub data Direction : Type 0 where
  direction_none to_work to_home : Direction

-- the empty string is `unset`
pub data ZwiftMode : Type 0 where
  unset keep llm_indoor : ZwiftMode

pub record Geofence : Type 0 where
  pub center : Point
  pub radius_meters : Float

-- A compiled pattern is the test that it makes of a title, anchored by NewMachineTitles.
abbrev pub Pattern : Type 0
Pattern = Text → Bool

pub record MachineTitles : Type 0 where
  pub patterns : List Pattern

-- A moving time of 0 is unset, and so is a negative one.
pub record Config : Type 0 where
  pub zwift_mode : ZwiftMode
  pub home : Geofence
  pub work : Geofence
  pub to_work_title : Text
  pub to_home_title : Text
  pub leave_errands_unnamed : Bool
  pub sport_min_distance_meters : Float
  pub sport_min_moving_time_seconds : ℕ
  pub machine_titles : MachineTitles

-- The texts of Decision.Reason, which are for logs.
pub data Reason : Type 0 where
  never_named no_tier_rule : SportType → Reason
  whoop not_default_title virtual_llm virtual_keep commute_errand : Reason
  errands_disabled sport_ride below_thresholds : Reason
  safety_net : Direction → Reason

pub record Decision : Type 0 where
  pub tier : Tier
  pub action : Verdict
  pub direction : Direction
  pub reason : Reason
  pub human_titled : Bool
  pub provisional : Bool
