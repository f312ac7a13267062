-- ===== src/Processor/Process.antt =====
-- internal/processor/processor.go and title.go: the pipeline for a single activity (processOne).
use titelheld.Prelude.{
  ℕ, ◌+◌, Bool, true, false, not, ◌||◌, ltb, ◌==◌, Option, none, some, [], if◌then◌else◌,
}
use titelheld.Prelude.Text.{Text}
use titelheld.Prelude.Action.{failed, Result, ok, err, pure, fail, attempt, ◌>>=◌, ◌>>◌}
use titelheld.Store.{Time, Pending, NamedTitle, Source, german}
use titelheld.Classifier.{Decision, Verdict, Tier}
use titelheld.Classifier.Classify.{classify}
use titelheld.Classifier.Titles.{commute_title, template_titles}
use titelheld.Prelude.Int.{pos}
use titelheld.Processor.{Activity, Titled, Outcome, Deps}
use titelheld.Processor.Outside.{
  Step, ask_now, ask_activity, ask_llm_title, store_named, store_mark_named,
}
use titelheld.Processor.Filter.{not_a_persons_title, errand_title, to_classifier_activity}
use titelheld.Processor.Write.{write}
use titelheld.Processor.Reconcile.{gone, ride_date, rename_of, reconcile_one}

unfoldable pub is_skip : Verdict → Bool
is_skip Verdict.skip = true
is_skip _ = false

is_sport_ride : Tier → Bool
is_sport_ride Tier.sport_ride = true
is_sport_ride _ = false

-- a title from the configuration, which spends no entry of a series
abbrev from_template : Text → Titled
from_template text = record {
  text = text;
  language = german;
  franchise = [];
  franchise_entry = [];
  franchise_index = pos 0;
  source = Source.template;
}

-- the ending of a provisional skip, by whether its window is open
unfoldable pub by_deadline : Time → Time → Outcome
by_deadline now deadline = if ltb now deadline then Outcome.provisional else Outcome.skipped

module _ (d : Deps) where
  unfoldable pub decision_of : Activity → Decision
  decision_of a = classify d.float_ops (to_classifier_activity a) d.classifier

  -- recordHumanTitle
  unfoldable pub record_human_title : ℕ → Activity → Decision → Step Unit
  unfolding is_sport_ride
  record_human_title athlete a decision =
      if not decision.human_titled || not (is_sport_ride decision.tier)
      then pure tt
      else if not_a_persons_title a.name (template_titles d.classifier)
      then pure tt
      else (do at ← ride_date d a; store_mark_named d (rename_of d athlete a Source.human at))

  -- Processor.skip
  unfoldable pub skip : Pending → Decision → Step Outcome
  unfolding by_deadline
  skip pending decision =
      if not decision.provisional || d.provisional_skip_window == 0
      then pure Outcome.skipped
      else (do
        now ← ask_now d
        pure (by_deadline now (pending.enqueued_at + d.provisional_skip_window)))

  -- Processor.title
  unfoldable pub title : ℕ → Activity → Decision → Verdict → Step Titled
  title athlete a decision Verdict.commute_template =
      pure (from_template (commute_title d.classifier decision.direction))
  title athlete a decision Verdict.errand_template = pure (from_template (errand_title a))
  title athlete a decision Verdict.skip = fail failed
  title athlete a decision _ = ask_llm_title d athlete a decision

  -- a title is made and written
  unfoldable pub name_activity : ℕ → Activity → Decision → Step Outcome
  unfolding title
  name_activity athlete a decision = do
    t ← title athlete a decision decision.action
    sent ← write d athlete a t
    pure (if sent then Outcome.named else Outcome.dry_run)

  unfoldable pub decline : Pending → Activity → Decision → Step Outcome
  unfolding record_human_title skip
  decline pending a decision = do
    record_human_title pending.athlete_id a decision
    skip pending decision

  unfoldable pub act_on : Pending → Activity → Step Outcome
  unfolding is_skip decline name_activity
  act_on pending a =
      let decision = decision_of a in
      if is_skip decision.action
      then decline pending a decision
      else name_activity pending.athlete_id a decision

  abbrev pub activity_answer : Pending → Result Activity → Step Outcome
  activity_answer pending (ok a) = act_on pending a
  activity_answer pending (err e) = if gone e then pure Outcome.skipped else fail e

  abbrev pub by_log : Pending → Option NamedTitle → Step Outcome
  by_log pending (some recorded) = reconcile_one d pending recorded
  by_log pending none = do
    answer ← attempt (ask_activity d pending.activity_id)
    activity_answer pending answer

  -- processOne
  unfoldable pub process_one : Pending → Step Outcome
  unfolding act_on gone
  process_one pending = do
    recorded ← store_named d pending.athlete_id pending.activity_id
    by_log pending recorded
