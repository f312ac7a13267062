-- ===== src/Processor.antt =====
-- internal/processor: what the processor acts on. Strava, the store's failures, the clock, the
-- naming pipeline and the sweep's deadline are outside: they answer by the number of questions put
-- so far, in any way. The store's own state is that of the in-memory store.
pub mod Outside
pub mod Filter
pub mod Write
pub mod Reconcile
pub mod Process
pub mod Sweep
pub mod Rules
pub mod Pipeline
pub mod Course
pub mod Entry
pub mod Loop
pub mod Writes
pub mod Once
pub mod Queued
pub mod Series
use titelheld.Prelude.{ℕ, Bool, Option, List}
use titelheld.Prelude.Int.{ℤ}
use titelheld.Prelude.Text.{Text, Unicode}
use titelheld.Prelude.Action.{Result}
use titelheld.Store.{Time, Duration, Memory, Language, Source}
use titelheld.Classifier.{Float, FloatOps, SportType, Config, Decision}

-- The fields of strava.Activity that the processor reads. A start date of 0 is the zero time.
pub record Activity : Type 0 where
  pub id : ℕ
  pub name : Text
  pub description : Text
  pub sport_type : SportType
  pub trainer : Bool
  pub commute : Bool
  pub distance : Float
  pub moving_time : ℕ
  pub start_latlng : List Float
  pub end_latlng : List Float
  pub start_date : Time

-- titled; an empty franchise is none
pub record Titled : Type 0 where
  pub text : Text
  pub language : Language
  pub franchise : Text
  pub franchise_entry : Text
  pub franchise_index : ℤ
  pub source : Source

-- The requests to Strava that change an activity.
pub data Call : Type 0 where
  update_name : ℕ → Text → Call
  update_name_and_description : ℕ → Text → Text → Call
  update_description : ℕ → Text → Call

-- How a call of the store ends: an error may come before or after the change that it reports on.
pub data Fault : Type 0 where
  fine before_change after_change : Fault

pub record World : Type 0 where
  pub memory : Memory
  -- the requests that change an activity, the last one first
  pub calls : List Call
  -- how many questions the outside has been asked
  pub tick : ℕ

-- What the processor is built with, and what the outside answers. `llm_title` is the title that the
-- pipeline of title.go would return for an activity of an athlete.
pub record Deps : Type 0 where
  pub classifier : Config
  pub float_ops : FloatOps
  pub unicode : Unicode
  pub disable_attribution : Bool
  pub provisional_skip_window : Duration
  pub writes_enabled : Bool
  pub now : ℕ → Time
  pub store_fault : ℕ → Fault
  pub get_activity : ℕ → ℕ → Result Activity
  pub put : ℕ → Call → Result (Option Activity)
  pub llm_title : ℕ → ℕ → Activity → Decision → Result Titled
  pub cancelled : ℕ → Bool

-- outcome
pub data Outcome : Type 0 where
  skipped named dry_run reconciled reconcile_dry_run provisional : Outcome

-- Result; the counts of one sweep
pub record SweepResult : Type 0 where
  pub due : ℕ
  pub named : ℕ
  pub skipped : ℕ
  pub reconciled : ℕ
  pub provisional : ℕ
  pub failed : ℕ
  pub cancelled : Bool
