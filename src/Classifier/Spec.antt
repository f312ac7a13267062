-- ===== src/Classifier/Spec.antt =====
-- The table of README.md, section "The classifier", as an abstract specification of Classify: rules
-- in order, the first that matches gives the tier, and an action for each tier. The table's third row,
-- a short ride to or from the work geofence, is narrower in the code, and here: a ride from work is a
-- commute only if it ends at work or at home.
use titelheld.Prelude.{
  Bool, true, not, ◌&&◌, ◌||◌, ◌≡◌, refl, List, [], ◌∷◌, Option, none, some, arith, Bool-cases, ◌∙◌,
  inl, inr, if◌then◌else◌,
}
use titelheld.Prelude.Text.{trim_space}
use titelheld.Classifier.{FloatOps, Activity, Config, Verdict, Tier, Direction, ZwiftMode}
use titelheld.Classifier.Titles.{renamable}
use titelheld.Classifier.Classify.{
  is_ride, with_defaults, meets_sport_thresholds, commute_direction, classify_tier, classify_gate,
  classify, decide, ride_tier, titled_as, point_in, is_virtual_ride,
}
use titelheld.Classifier.Gate.{declined, classify-gate, is_none, machine_titles-with_defaults}

pub record Rule : Type 0 where
  pub applies : Activity → Bool
  pub gives : Tier

abbrev pub first_match : List Rule → Activity → Tier
first_match [] a = Tier.tier_none
first_match (r ∷ rs) a = if r.applies a then r.gives else first_match rs a

-- a ride that starts or ends at work
abbrev pub touches_work : FloatOps → Config → Activity → Bool
touches_work fl c a = point_in fl c.work a.start_point || point_in fl c.work a.end_point

-- a ride from work that ends neither at work nor at home
abbrev pub goes_elsewhere : FloatOps → Config → Activity → Bool
goes_elsewhere fl c a =
    point_in fl c.work a.start_point
    && (not (point_in fl c.work a.end_point) && not (point_in fl c.home a.end_point))

-- a work ride: by its title, or by where it starts and ends if it is no long ride
unfoldable pub is_work_ride : FloatOps → Config → Activity → Bool
is_work_ride fl c a =
    titled_as c.to_work_title (trim_space a.name)
    || titled_as c.to_home_title (trim_space a.name)
    || (not (meets_sport_thresholds fl a c) && (touches_work fl c a && not (goes_elsewhere fl c a)))

-- tiers 2 to 5
unfoldable pub ride_rules : FloatOps → Config → List Rule
ride_rules fl c =
    record {
      applies = λ a. is_virtual_ride a.sport_type || (is_ride a.sport_type && a.trainer);
      gives = Tier.virtual;
    }
    ∷ record { applies = λ a. is_ride a.sport_type && is_work_ride fl c a; gives = Tier.commute }
    ∷ record { applies = λ a. is_ride a.sport_type && a.commute; gives = Tier.errand }
    ∷ record {
      applies = λ a. is_ride a.sport_type && meets_sport_thresholds fl a c;
      gives = Tier.sport_ride;
    }
    ∷ []

unfoldable pub rules : FloatOps → Config → List Rule
unfolding ride_rules declined
rules fl c = record { applies = declined; gives = Tier.skip } ∷ ride_rules fl c

-- what a tier is named by, where the title gate allows a write
unfoldable pub action_for : Config → Tier → Verdict
action_for c Tier.virtual = elim c.zwift_mode [
  | ZwiftMode.llm_indoor ↦ Verdict.llm_indoor
  | _ ↦ Verdict.skip
]
action_for c Tier.commute = Verdict.commute_template
action_for c Tier.errand = if c.leave_errands_unnamed then Verdict.skip else Verdict.errand_template
action_for c Tier.sport_ride = Verdict.llm
action_for c _ = Verdict.skip

commute_direction-work_ride :
    (fl : FloatOps) (a : Activity) (c : Config)
    → is_none (commute_direction fl a c) ≡ not (is_work_ride fl c a)
unfolding commute_direction is_work_ride
commute_direction-work_ride fl a c = ground arith

ride_tier-first_match :
    (fl : FloatOps) (o : Option Direction) (a : Activity) (c : Config)
    → is_none o ≡ not (is_work_ride fl c a)
    → (ride_tier fl o a c).0 ≡ (
        if is_work_ride fl c a
        then Tier.commute
        else if a.commute
        then Tier.errand
        else if meets_sport_thresholds fl a c
        then Tier.sport_ride
        else Tier.tier_none)
unfolding ride_tier
ride_tier-first_match fl (some d) a c h = ground arith
ride_tier-first_match fl none a c h = ground arith

classify_tier-first_match :
    (fl : FloatOps) (a : Activity) (c : Config)
    → (classify_tier fl a c).0 ≡ first_match (ride_rules fl c) a
unfolding classify_tier ride_rules
classify_tier-first_match fl a c = ground (
  arith,
  ride_tier-first_match fl (commute_direction fl a c) a c (commute_direction-work_ride fl a c),
)

decide_lem :
    (t : Tier) (d : Direction) (a : Activity) (c : Config)
    → ((decide t d a c).tier ≡ t) × ((decide t d a c).action ≡ action_for c t)
unfolding decide action_for
decide_lem Tier.virtual d a c = ground arith
decide_lem Tier.errand d a c = ground arith
decide_lem _ d a c = (refl, refl)

gate_lem :
    (fl : FloatOps) (a : Activity) (c : Config)
    → ((classify_gate fl a c).tier ≡ (classify_tier fl a c).0)
      × ((classify_gate fl a c).action ≡ (
          if renamable c.machine_titles a.name
          then action_for c (classify_tier fl a c).0
          else Verdict.skip))
unfolding classify_gate
gate_lem fl a c =
    let d = decide_lem (classify_tier fl a c).0 (classify_tier fl a c).1 a c in
    (ground (arith, d), ground (arith, d))

declined_lem :
    (fl : FloatOps) (a : Activity) (c : Config)
    → declined a ≡ true
    → ((classify fl a c).tier ≡ Tier.skip) × ((classify fl a c).action ≡ Verdict.skip)
unfolding classify declined
declined_lem fl a c h = ground arith

-- For every activity and configuration, the tier is that of the first row of README's table that
-- matches, where a ride that starts at work and ends neither there nor at home is no commute by its
-- geofences, although the table's row has it: such a ride goes on to the rows below. The action is the
-- table's action for the tier where the current title may be replaced, and to write nothing where it may
-- not.
pub classify-first_match :
    (fl : FloatOps) (a : Activity) (c : Config)
    → ((classify fl a c).tier ≡ first_match (rules fl (with_defaults fl c)) a)
      × ((classify fl a c).action ≡ (
          if renamable c.machine_titles a.name
          then action_for (with_defaults fl c) (first_match (rules fl (with_defaults fl c)) a)
          else Verdict.skip))
unfolding rules action_for
classify-first_match fl a c = elim (Bool-cases (declined a)) [
  | inl e ↦ let d = declined_lem fl a c e in (ground (arith, d), ground (arith, d))
  | inr e ↦
      let g = gate_lem fl a (with_defaults fl c) in
      let f = classify_tier-first_match fl a (with_defaults fl c) in
      let m = machine_titles-with_defaults fl c in
      rw (e, classify-gate fl a c e) (g.0 ∙ f, g.1 ∙ rw f (simp m))
]
