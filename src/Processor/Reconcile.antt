-- ===== src/Processor/Reconcile.antt =====
-- internal/processor/reconcile.go: an activity that is in the named log is brought into line with
-- what Strava holds.
use titelheld.Prelude.{ℕ, Bool, true, false, ◌==◌, ◌||◌, if◌then◌else◌}
use titelheld.Prelude.Text.{Text, text_eq}
use titelheld.Prelude.Action.{Error, not_found, Result, ok, err, pure, fail, attempt, ◌>>=◌, ◌>>◌}
use titelheld.Store.{Time, Pending, Naming, NamedTitle, Source}
use titelheld.Naming.Language.{guess_language}
use titelheld.Naming.Attribution.{remove_attribution}
use titelheld.Processor.{Activity, Outcome, update_description, Deps}
use titelheld.Processor.Outside.{Step, ask_now, ask_activity, ask_put, store_mark_named}
use titelheld.Processor.Filter.{not_the_athletes_title}

-- errors.Is(err, strava.ErrNotFound)
unfoldable pub gone : Error → Bool
gone not_found = true
gone _ = false

-- renamedSource
unfoldable pub renamed_source : Source → Source
renamed_source Source.imported = Source.imported
renamed_source _ = Source.human

unfoldable pub is_human : Source → Bool
is_human Source.human = true
is_human _ = false

module _ (d : Deps) where
  -- the ride's date, or the clock where Strava gave none
  unfoldable pub ride_date : Activity → Step Time
  ride_date a = if a.start_date == 0 then ask_now d else pure a.start_date

  -- the row for a title that the athlete wrote
  abbrev pub rename_of : ℕ → Activity → Source → Time → Naming
  rename_of athlete a source at = record {
    athlete_id = athlete;
    activity_id = a.id;
    title = a.name;
    language = guess_language d.unicode a.name;
    source = source;
    at = at;
  }

  -- recordRename
  unfoldable pub record_rename : ℕ → Activity → Source → Step Unit
  unfolding ride_date
  record_rename athlete a source = do
    at ← ride_date a
    store_mark_named d (rename_of athlete a source at)

  unfoldable pub remove_line : Activity → Text × Bool → Step Outcome
  remove_line a (description, false) = pure Outcome.reconciled
  remove_line a (description, true) =
      if d.writes_enabled
      then (do ask_put d (update_description a.id description); pure Outcome.reconciled)
      else pure Outcome.reconcile_dry_run

  -- removeAttribution
  unfoldable pub take_back : Activity → Source → Step Outcome
  unfolding is_human remove_line
  take_back a source =
      if is_human source
      then remove_line a (remove_attribution a.description)
      else pure Outcome.reconciled

  -- the record, and then the line
  unfoldable pub reconcile_with : Pending → NamedTitle → Activity → Step Outcome
  unfolding renamed_source record_rename take_back
  reconcile_with pending recorded a =
      if text_eq a.name recorded.title || not_the_athletes_title d.classifier a.name
      then take_back a recorded.source
      else (do
        record_rename pending.athlete_id a (renamed_source recorded.source)
        take_back a (renamed_source recorded.source))

  abbrev pub reconcile_answer : Pending → NamedTitle → Result Activity → Step Outcome
  reconcile_answer pending recorded (ok a) = reconcile_with pending recorded a
  reconcile_answer pending recorded (err e) = if gone e then pure Outcome.reconciled else fail e

  -- reconcileOne
  unfoldable pub reconcile_one : Pending → NamedTitle → Step Outcome
  unfolding gone reconcile_with
  reconcile_one pending recorded = do
    answer ← attempt (ask_activity d pending.activity_id)
    reconcile_answer pending recorded answer
