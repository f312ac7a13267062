-- ===== src/Processor/Entry.antt =====
-- Proof rules for processOne, over those of write and reconcileOne.
use titelheld.Prelude.{
  ◌+◌, ◌≡◌, refl, true, false, not, ◌||◌, ◌==◌, Option, none, some, if◌then◌else◌,
}
use titelheld.Prelude.Table.{lookup}
use titelheld.Prelude.Action.{
  Result, ok, err, attempt, Post, Triple, Triple-bind, Triple-pure, Triple-fail, Triple-if,
  Triple-weaken, Triple-relax,
}
use titelheld.Store.{Pending, Naming, NamedTitle, Source, key_eq}
use titelheld.Classifier.{Decision, Verdict}
use titelheld.Classifier.Titles.{template_titles}
use titelheld.Naming.Attribution.{remove_attribution}
use titelheld.Processor.{Activity, Outcome, Call, update_description, Deps}
use titelheld.Processor.Outside.{ask_now, ask_activity, store_named}
use titelheld.Processor.Filter.{not_a_persons_title}
use titelheld.Processor.Write.{write}
use titelheld.Processor.Reconcile.{gone, ride_date, rename_of}
use titelheld.Processor.Process.{
  decision_of, record_human_title, skip, title, name_activity, decline, is_skip, act_on,
  activity_answer, by_log, process_one, by_deadline,
}
use titelheld.Processor.Rules.{
  Ledger, ledger, On, marked, sent, Triple-attempt, Answered, ask_now-Keeps, ask_activity-Triple,
  store_mark_named-Triple, store_named-Triple, ask_llm_title-Keeps,
}
use titelheld.Processor.Pipeline.{IsTitleCall, IsRowOf, write-Triple}
use titelheld.Processor.Course.{relax_error, ride_date-Keeps, reconcile_one-Triple}

-- the classifier lets this activity be named
abbrev pub MayName : Deps → Activity → Type 0
MayName d a = is_skip (decision_of d a).action ≡ false

module _ (d : Deps) (p : Pending) (I J F : Ledger → Type 0) (a : Activity)
    (mark : (n : Naming) → IsRowOf p.athlete_id a.id n → (l : Ledger) → I l → J (marked n l))
    (jf : (l : Ledger) → J l → F l) (start : (l : Ledger) → I l → F l)
    (send : MayName d a
      → (c : Call) → d.writes_enabled ≡ true
      → IsTitleCall a.id c
      → (l : Ledger) → J l
      → F (sent c l))
    (again : (n : Naming) → IsRowOf p.athlete_id a.id n → (l : Ledger) → F l → F (marked n l)) where
  record_human_title-Triple :
      (decision : Decision)
      → Triple (On I) (record_human_title d p.athlete_id a decision) (λ x. On F) (On F)
  unfolding record_human_title
  record_human_title-Triple decision =
      Triple-if _ _ _ (λ e. Triple-pure tt (λ s. start (ledger s)))
        (λ e.
          Triple-if (not_a_persons_title a.name (template_titles d.classifier)) _ _
            (λ f. Triple-pure tt (λ s. start (ledger s)))
            (λ f.
              Triple-bind (ride_date d a) _ (λ at. On I)
                (relax_error I F _ start (ride_date-Keeps d I a))
                (λ at.
                  store_mark_named-Triple d I F F (rename_of d p.athlete_id a Source.human at)
                    (λ l h. jf _ (mark _ (refl, refl) l h)) (λ l h. h) start)))

  skip-Triple : (decision : Decision) → Triple (On F) (skip d p decision) (λ o. On F) (On F)
  unfolding skip
  skip-Triple decision =
      Triple-if (not decision.provisional || d.provisional_skip_window == 0) _ _
        (λ e. Triple-pure Outcome.skipped (λ s h. h))
        (λ e.
          Triple-bind (ask_now d) _ (λ now. On F) (ask_now-Keeps d F)
            (λ now.
              Triple-pure (by_deadline now (p.enqueued_at + d.provisional_skip_window)) (λ s h. h)))

  title-Triple :
      (decision : Decision) (v : Verdict)
      → Triple (On I) (title d p.athlete_id a decision v) (λ t. On I) (On F)
  unfolding title
  title-Triple decision Verdict.commute_template = Triple-pure _ (λ s h. h)
  title-Triple decision Verdict.errand_template = Triple-pure _ (λ s h. h)
  title-Triple decision Verdict.skip = Triple-fail _ (λ s. start (ledger s))
  title-Triple decision _ =
      relax_error I F _ start (ask_llm_title-Keeps d I p.athlete_id a decision)

  act_on-Triple : Triple (On I) (act_on d p a) (λ o. On F) (On F)
  unfolding act_on decline name_activity
  act_on-Triple =
      Triple-if (is_skip (decision_of d a).action) _ _
        (λ e.
          Triple-bind (record_human_title d p.athlete_id a (decision_of d a)) _ (λ x. On F)
            (record_human_title-Triple (decision_of d a)) (λ x. skip-Triple (decision_of d a)))
        (λ e.
          Triple-bind (title d p.athlete_id a (decision_of d a) (decision_of d a).action) _
            (λ t. On I) (title-Triple (decision_of d a) (decision_of d a).action)
            (λ t.
              Triple-bind (write d p.athlete_id a t) _ (λ sent. On F)
                (write-Triple d p.athlete_id a I J F mark jf start (send e) again t)
                (λ was. Triple-pure (if was then Outcome.named else Outcome.dry_run) (λ s h. h))))

-- An entry: what holds before, with no row in the named log, with one, after the row of an activity
-- and at the end.
module _ (d : Deps) (p : Pending) (I Fresh F : Ledger → Type 0) (G : NamedTitle → Ledger → Type 0)
    (J : Activity → Ledger → Type 0)
    (fresh : (l : Ledger) → I l → lookup (p.athlete_id, p.activity_id) l.named ≡ none → Fresh l)
    (known : (r : NamedTitle) (l : Ledger)
      → I l
      → lookup (p.athlete_id, p.activity_id) l.named ≡ some r
      → G r l)
    (mark : (a : Activity)
      → Answered d p.activity_id a
      → (n : Naming) → IsRowOf p.athlete_id a.id n
      → (l : Ledger) → Fresh l
      → J a (marked n l))
    (jf : (a : Activity) (l : Ledger) → J a l → F l) (start : (l : Ledger) → I l → F l)
    (fresh_end : (l : Ledger) → Fresh l → F l)
    (send : (a : Activity)
      → Answered d p.activity_id a
      → MayName d a
      → (c : Call) → d.writes_enabled ≡ true
      → IsTitleCall a.id c
      → (l : Ledger) → J a l
      → F (sent c l))
    (again : (a : Activity)
      → Answered d p.activity_id a
      → (n : Naming) → IsRowOf p.athlete_id a.id n
      → (l : Ledger) → F l
      → F (marked n l))
    (remark : (r : NamedTitle) (a : Activity)
      → Answered d p.activity_id a
      → (n : Naming) → IsRowOf p.athlete_id a.id n
      → (l : Ledger) → G r l
      → G r (marked n l))
    (known_end : (r : NamedTitle) (l : Ledger) → G r l → F l)
    (line : (r : NamedTitle) (a : Activity)
      → Answered d p.activity_id a
      → d.writes_enabled ≡ true
      → (remove_attribution a.description).1 ≡ true
      → (l : Ledger) → G r l
      → F (sent (update_description a.id (remove_attribution a.description).0) l)) where
  activity_answer-Triple :
      (r : Result Activity)
      → Triple
          (λ s. Post (λ a w. On Fresh w × Answered d p.activity_id a) (On Fresh) (r, s))
          (activity_answer d p r)
          (λ o. On F)
          (On F)
  activity_answer-Triple (ok a) = record {
    run = λ s h.
        (act_on-Triple d p Fresh (J a) F a (mark a h.1) (jf a) fresh_end (send a h.1)
            (again a h.1)).run
          s h.0;
  }
  activity_answer-Triple (err e) =
      Triple-if (gone e) _ _ (λ g. Triple-pure Outcome.skipped (λ s. fresh_end (ledger s)))
        (λ g. Triple-fail e (λ s. fresh_end (ledger s)))

  by_log-Triple :
      (r : Option NamedTitle)
      → Triple
          (λ s. On I s × (lookup (p.athlete_id, p.activity_id) s.memory.named ≡ r))
          (by_log d p r)
          (λ o. On F)
          (On F)
  by_log-Triple none =
      Triple-weaken (On Fresh) _ (λ s h. fresh (ledger s) h.0 h.1)
        (Triple-bind (attempt (ask_activity d p.activity_id)) _ _
          (Triple-attempt _ (ask_activity-Triple d Fresh p.activity_id)) activity_answer-Triple)
  by_log-Triple (some r) =
      Triple-weaken (On (G r)) _ (λ s h. known r (ledger s) h.0 h.1)
        (reconcile_one-Triple d p (G r) F (remark r) (known_end r) (line r) r)

  pub process_one-Triple : Triple (On I) (process_one d p) (λ o. On F) (On F)
  unfolding process_one
  process_one-Triple =
      Triple-bind (store_named d p.athlete_id p.activity_id) _
        (λ r s. On I s × (lookup (p.athlete_id, p.activity_id) s.memory.named ≡ r))
        (Triple-relax _ _ (On I) (On F) _ (λ r s h. h) (λ s. start (ledger s))
          (store_named-Triple d I p.athlete_id p.activity_id))
        by_log-Triple
