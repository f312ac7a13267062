-- ===== src/Classifier/Classify.antt =====
-- internal/classifier/classifier.go: Classify and what it calls. The clauses follow the order of the
-- source's tests and early returns.
use titelheld.Prelude.{
  ◌*◌, Bool, true, false, not, ◌&&◌, ◌||◌, Option, none, some, leb, ◌==◌, if◌then◌else◌,
}
use titelheld.Prelude.Text.{Text, codes, text_eq, trim_space, contains}
use titelheld.Classifier.{
  Float, FloatOps, SportType, Point, Activity, Tier, Verdict, Direction, ZwiftMode, Geofence,
  Config, Reason, Decision, direction_none, to_work, to_home,
}
use titelheld.Classifier.Titles.{is_default_title, renamable, is_empty}

-- neverNamedSportTypes
unfoldable pub never_named : SportType → Bool
never_named SportType.weight_training = true
never_named SportType.workout = true
never_named SportType.walk = true
never_named SportType.hike = true
never_named _ = false

-- rideSportTypes
unfoldable pub is_ride : SportType → Bool
is_ride SportType.ride = true
is_ride SportType.gravel_ride = true
is_ride _ = false

unfoldable pub is_virtual_ride : SportType → Bool
is_virtual_ride SportType.virtual_ride = true
is_virtual_ride _ = false

abbrev pub set_mode : ZwiftMode → ZwiftMode
set_mode ZwiftMode.unset = ZwiftMode.keep
set_mode m = m

unfoldable pub no_tier_reason : Activity → Reason
unfolding is_ride
no_tier_reason a =
    if is_ride a.sport_type then Reason.below_thresholds else Reason.no_tier_rule a.sport_type

unfoldable pub provisional : Activity → Bool
unfolding is_ride
provisional a = if not (is_ride a.sport_type) then false else is_default_title a.name

-- a decision with the fields that the source leaves at their zero values
abbrev pub plain : Tier → Verdict → Reason → Decision
plain t v r = record {
  tier = t;
  action = v;
  direction = direction_none;
  reason = r;
  human_titled = false;
  provisional = false;
}

-- the switch over the tier, for a title that the gate lets through
unfoldable pub decide : Tier → Direction → Activity → Config → Decision
unfolding no_tier_reason provisional
decide Tier.virtual d a c = elim c.zwift_mode [
  | ZwiftMode.llm_indoor ↦ plain Tier.virtual Verdict.llm_indoor Reason.virtual_llm
  | _ ↦ plain Tier.virtual Verdict.skip Reason.virtual_keep
]
decide Tier.commute d a c =
    record (plain Tier.commute Verdict.commute_template (Reason.safety_net d)) { direction = d }
decide Tier.errand d a c =
    if c.leave_errands_unnamed
    then plain Tier.errand Verdict.skip Reason.errands_disabled
    else plain Tier.errand Verdict.errand_template Reason.commute_errand
decide Tier.sport_ride d a c = plain Tier.sport_ride Verdict.llm Reason.sport_ride
decide t d a c = record (plain t Verdict.skip (no_tier_reason a)) { provisional = provisional a }

-- the commute titles are matched only where they are configured
unfoldable pub titled_as : Text → Text → Bool
unfolding is_empty
titled_as configured title = not (is_empty configured) && text_eq title configured

module _ (fl : FloatOps) where
  open fl use {of_nat, add, sub, mul, div, le, sin, cos, asin, sqrt, pi}

  radians : Float → Float
  radians x = div (mul x pi) (of_nat 180)

  pub distance_meters : Point → Point → Float
  unfolding radians
  distance_meters a b =
      let lat_a = radians a.lat in
      let lat_b = radians b.lat in
      let delta_lat = div (mul (sub b.lat a.lat) pi) (of_nat 180) in
      let delta_lon = div (mul (sub b.lon a.lon) pi) (of_nat 180) in
      let half_lat = sin (div delta_lat (of_nat 2)) in
      let half_lon = sin (div delta_lon (of_nat 2)) in
      let h =
        add (mul half_lat half_lat) (mul (mul (mul (cos lat_a) (cos lat_b)) half_lon) half_lon) in
      mul (mul (of_nat 2) (of_nat 6371000)) (asin (sqrt h))

  -- Geofence.contains
  unfoldable pub geofence_contains : Geofence → Point → Bool
  geofence_contains g p =
      if le g.radius_meters (of_nat 0)
      then false
      else le (distance_meters g.center p) g.radius_meters

  -- Config.withDefaults
  unfoldable pub with_defaults : Config → Config
  with_defaults c = record c {
    zwift_mode = set_mode c.zwift_mode;
    sport_min_distance_meters =
        if le c.sport_min_distance_meters (of_nat 0)
        then of_nat 15000
        else c.sport_min_distance_meters;
    sport_min_moving_time_seconds =
        if c.sport_min_moving_time_seconds == 0 then 45 * 60 else c.sport_min_moving_time_seconds;
  }

  unfoldable pub meets_sport_thresholds : Activity → Config → Bool
  meets_sport_thresholds a c =
      le c.sport_min_distance_meters a.distance_meters
      || leb c.sport_min_moving_time_seconds a.moving_time_seconds

  unfoldable pub point_in : Geofence → Option Point → Bool
  point_in g none = false
  point_in g (some p) = geofence_contains g p

  -- `none` is the reported false
  unfoldable pub commute_direction : Activity → Config → Option Direction
  commute_direction a c =
      let title = trim_space a.name in
      if titled_as c.to_work_title title
      then some to_work
      else if titled_as c.to_home_title title
      then some to_home
      else if meets_sport_thresholds a c
      then none
      else if point_in c.work a.end_point
      then some to_work
      else if point_in c.work a.start_point && point_in c.home a.end_point
      then some to_home
      else none

  -- an outdoor ride
  unfoldable pub ride_tier : Option Direction → Activity → Config → Tier × Direction
  ride_tier (some d) a c = (Tier.commute, d)
  ride_tier none a c =
      if a.commute
      then (Tier.errand, direction_none)
      else if meets_sport_thresholds a c
      then (Tier.sport_ride, direction_none)
      else (Tier.tier_none, direction_none)

  unfoldable pub classify_tier : Activity → Config → Tier × Direction
  unfolding ride_tier
  classify_tier a c =
      if is_virtual_ride a.sport_type
      then (Tier.virtual, direction_none)
      else if not (is_ride a.sport_type)
      then (Tier.tier_none, direction_none)
      else if a.trainer
      then (Tier.virtual, direction_none)
      else ride_tier (commute_direction a c) a c

  -- after the unconditional skips, with the defaults filled in
  unfoldable pub classify_gate : Activity → Config → Decision
  unfolding classify_tier decide
  classify_gate a c =
      let (t, d) = classify_tier a c in
      if not (renamable c.machine_titles a.name)
      then record (plain t Verdict.skip Reason.not_default_title) {
        direction = d;
        human_titled = true;
      }
      else decide t d a c

  unfoldable pub classify : Activity → Config → Decision
  unfolding with_defaults never_named classify_gate
  classify a cfg =
      let c = with_defaults cfg in
      if never_named a.sport_type
      then plain Tier.skip Verdict.skip (Reason.never_named a.sport_type)
      else if contains a.description (codes "Strain")
      then plain Tier.skip Verdict.skip Reason.whoop
      else classify_gate a c
