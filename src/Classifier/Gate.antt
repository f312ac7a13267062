-- ===== src/Classifier/Gate.antt =====
-- internal/classifier/classifier.go: theorems on the title gate of Classify and the two flags of a skip.
use titelheld.Prelude.{
  Bool, true, false, not, ◌&&◌, ◌||◌, ◌≡◌, ◌≢◌, refl, Option, none, some, arith, Bool-cases, inl,
  inr, if◌then◌else◌,
}
use titelheld.Prelude.Text.{codes, contains}
use titelheld.Classifier.{FloatOps, Activity, Config, Verdict, Tier, Direction}
use titelheld.Classifier.Titles.{is_default_title, renamable, matches}
use titelheld.Classifier.Classify.{
  never_named, is_ride, with_defaults, meets_sport_thresholds, commute_direction, classify_tier,
  classify_gate, classify, decide, provisional, ride_tier, is_virtual_ride,
}

abbrev pub is_none {ℓ} : {A : Type ℓ} → Option A → Bool
is_none none = true
is_none (some a) = false

decide-human_titled :
    (t : Tier) (d : Direction) (a : Activity) (c : Config) → (decide t d a c).human_titled ≡ false
unfolding decide
decide-human_titled Tier.virtual d a c = ground arith
decide-human_titled Tier.errand d a c = ground arith
decide-human_titled _ d a c = refl

-- the tier that a provisional skip belongs to
tier_is_none : Tier → Bool
tier_is_none Tier.tier_none = true
tier_is_none _ = false

tier_open : Tier → Bool
tier_open Tier.tier_none = true
tier_open Tier.skip = true
tier_open _ = false

decide-provisional :
    (t : Tier) (d : Direction) (a : Activity) (c : Config)
    → (decide t d a c).provisional ≡ (tier_open t && provisional a)
unfolding decide tier_open
decide-provisional Tier.virtual d a c = ground arith
decide-provisional Tier.errand d a c = ground arith
decide-provisional _ d a c = refl

ride_tier-open :
    (fl : FloatOps) (o : Option Direction) (a : Activity) (c : Config)
    → tier_open (ride_tier fl o a c).0
      ≡ (not a.commute && not (meets_sport_thresholds fl a c) && is_none o)
unfolding tier_open ride_tier
ride_tier-open fl o a c = ground arith

classify_tier-open :
    (fl : FloatOps) (a : Activity) (c : Config)
    → (tier_open (classify_tier fl a c).0 && is_ride a.sport_type) ≡ (
        is_ride a.sport_type
        && not a.trainer
        && not a.commute
        && not (meets_sport_thresholds fl a c)
        && is_none (commute_direction fl a c))
unfolding classify_tier tier_open is_virtual_ride is_ride
classify_tier-open fl a c = ground (arith, ride_tier-open fl (commute_direction fl a c) a c)

module _ (fl : FloatOps) (a : Activity) (c : Config) where
  -- An activity that may be given a title is of no type that is never named, its description does
  -- not carry Whoop's marker, and its current title is one of Strava's defaults or a recognised
  -- machine's: a title that a person wrote is never replaced.
  pub classify-action :
      (classify fl a c).action ≢ Verdict.skip
      → (never_named a.sport_type ≡ false)
        × (contains a.description (codes "Strain") ≡ false)
        × ((is_default_title a.name || matches c.machine_titles a.name) ≡ true)
  unfolding classify classify_gate renamable
  classify-action h = ground arith

  gate-human_titled : (classify_gate fl a c).human_titled ≡ not (renamable c.machine_titles a.name)
  unfolding classify_gate
  gate-human_titled =
      ground (arith, decide-human_titled (classify_tier fl a c).0 (classify_tier fl a c).1 a c)

  gate-action :
      (classify_gate fl a c).human_titled ≡ true → (classify_gate fl a c).action ≡ Verdict.skip
  unfolding classify_gate
  gate-action h =
      ground (arith, decide-human_titled (classify_tier fl a c).0 (classify_tier fl a c).1 a c)

  gate-provisional :
      (classify_gate fl a c).provisional
      ≡ (renamable c.machine_titles a.name && tier_open (classify_tier fl a c).0 && provisional a)
  unfolding classify_gate
  gate-provisional =
      ground (arith, decide-provisional (classify_tier fl a c).0 (classify_tier fl a c).1 a c)

-- the unconditional skips
unfoldable pub declined : Activity → Bool
declined a = never_named a.sport_type || contains a.description (codes "Strain")

pub classify-declined :
    (fl : FloatOps) (a : Activity) (c : Config)
    → declined a ≡ true
    → ((classify fl a c).human_titled ≡ false) × ((classify fl a c).provisional ≡ false)
unfolding classify declined
classify-declined fl a c h = ground arith

pub classify-gate :
    (fl : FloatOps) (a : Activity) (c : Config)
    → declined a ≡ false
    → classify fl a c ≡ classify_gate fl a (with_defaults fl c)
unfolding classify declined
classify-gate fl a c h = ground arith

pub machine_titles-with_defaults :
    (fl : FloatOps) (c : Config) → (with_defaults fl c).machine_titles ≡ c.machine_titles
unfolding with_defaults
machine_titles-with_defaults fl c = refl

provisional_regroup :
    (r o d x t k m n : Bool)
    → (o && r) ≡ (r && not t && not k && not m && n)
    → ((d || x) && o && (if not r then false else d))
      ≡ (not false && r && not t && not k && not m && n && d)
provisional_regroup false o d x t k m n h = ground arith
provisional_regroup true o d x t k m n h = ground arith

module _ (fl : FloatOps) (a : Activity) (c : Config) where
  -- The flag for a person's title is set exactly on an activity that no unconditional rule skips
  -- and whose title is neither a default nor a recognised machine's.
  pub classify-human_titled :
      (classify fl a c).human_titled ≡ (not (declined a) && not (renamable c.machine_titles a.name))
  classify-human_titled = elim (Bool-cases (declined a)) [
    | inl e ↦ rw e (classify-declined fl a c e).0
    | inr e ↦ rw (
      e,
      classify-gate fl a c e,
      gate-human_titled fl a (with_defaults fl c),
      machine_titles-with_defaults fl c,
    )
  ]

  -- A skip is provisional exactly for an outdoor ride that carries no Whoop marker, no commute flag
  -- and no sign of a commute, is below both sport thresholds and is still at a default title; the
  -- code tests the sport type and the title alone.
  pub classify-provisional : (classify fl a c).provisional ≡ (
      not (declined a)
      && is_ride a.sport_type
      && not a.trainer
      && not a.commute
      && not (meets_sport_thresholds fl a (with_defaults fl c))
      && is_none (commute_direction fl a (with_defaults fl c))
      && is_default_title a.name)
  unfolding provisional renamable
  classify-provisional = elim (Bool-cases (declined a)) [
    | inl e ↦ rw e (classify-declined fl a c e).1
    | inr e ↦
        rw (e, classify-gate fl a c e, gate-provisional fl a (with_defaults fl c))
          (provisional_regroup (is_ride a.sport_type)
            (tier_open (classify_tier fl a (with_defaults fl c)).0) (is_default_title a.name)
            (matches (with_defaults fl c).machine_titles a.name) a.trainer a.commute
            (meets_sport_thresholds fl a (with_defaults fl c))
            (is_none (commute_direction fl a (with_defaults fl c)))
            (classify_tier-open fl a (with_defaults fl c)))
  ]
