-- ===== src/Processor/Course.antt =====
-- Proof rules for reconcileOne.
use titelheld.Prelude.{◌≡◌, refl, ap, subst, Bool, true, false, ◌||◌, ◌==◌}
use titelheld.Prelude.Text.{Text, text_eq}
use titelheld.Prelude.Action.{
  Result, ok, err, attempt, Post, Triple, Keeps, Triple-bind, Triple-pure, Triple-fail, Triple-if,
  Triple-relax,
}
use titelheld.Store.{Pending, Naming, NamedTitle, Source, key_eq}
use titelheld.Naming.Attribution.{remove_attribution}
use titelheld.Processor.{Activity, Outcome, update_description, Deps}
use titelheld.Processor.Outside.{Step, ask_activity, ask_put}
use titelheld.Processor.Filter.{not_the_athletes_title}
use titelheld.Processor.Reconcile.{
  gone, renamed_source, is_human, ride_date, rename_of, record_rename, remove_line, take_back,
  reconcile_with, reconcile_answer, reconcile_one,
}
use titelheld.Processor.Rules.{
  Ledger, ledger, On, marked, sent, Triple-attempt, Answered, ask_now-Keeps, ask_activity-Triple,
  store_mark_named-Triple, ask_put-Triple,
}
use titelheld.Processor.Pipeline.{IsRowOf}

-- an error leaves what held before
pub relax_error :
    {A : Type 0} (I F : Ledger → Type 0) (m : Step A)
    → ((l : Ledger) → I l → F l)
    → Keeps (On I) m
    → Triple (On I) m (λ a. On I) (On F)
relax_error I F m w h =
    Triple-relax (λ a. On I) (λ a. On I) (On I) (On F) m (λ a s k. k) (λ s. w (ledger s)) h

pub ride_date-Keeps : (d : Deps) (I : Ledger → Type 0) (a : Activity) → Keeps (On I) (ride_date d a)
unfolding ride_date
ride_date-Keeps d I a =
    Triple-if (a.start_date == 0) _ _ (λ e. ask_now-Keeps d I)
      (λ e. Triple-pure a.start_date (λ s h. h))

-- what an activity answered for this entry is asked for in each ending
module _ (d : Deps) (p : Pending) (G F : Ledger → Type 0)
    (mark : (a : Activity)
      → Answered d p.activity_id a
      → (n : Naming) → IsRowOf p.athlete_id a.id n
      → (l : Ledger) → G l
      → G (marked n l))
    (end : (l : Ledger) → G l → F l)
    (line : (a : Activity)
      → Answered d p.activity_id a
      → d.writes_enabled ≡ true
      → (remove_attribution a.description).1 ≡ true
      → (l : Ledger) → G l
      → F (sent (update_description a.id (remove_attribution a.description).0) l)) where
  remove_line-Triple :
      (a : Activity)
      → Answered d p.activity_id a
      → (r : Text × Bool) → remove_attribution a.description ≡ r
      → Triple (On G) (remove_line d a r) (λ o. On F) (On F)
  unfolding remove_line
  remove_line-Triple a given (desc, false) e = Triple-pure Outcome.reconciled (λ s. end (ledger s))
  remove_line-Triple a given (desc, true) e =
      Triple-if d.writes_enabled _ _
        (λ on.
          Triple-bind (ask_put d (update_description a.id desc)) _ (λ o. On F)
            (ask_put-Triple d G F F _
              (λ l g.
                subst (λ t. F (sent (update_description a.id t) l)) (ap (λ r. r.0) e)
                  (line a given on (ap (λ r. r.1) e) l g))
              (λ l h. h))
            (λ o. Triple-pure Outcome.reconciled (λ s h. h)))
        (λ off. Triple-pure Outcome.reconcile_dry_run (λ s. end (ledger s)))

  take_back-Triple :
      (a : Activity) (source : Source)
      → Answered d p.activity_id a
      → Triple (On G) (take_back d a source) (λ o. On F) (On F)
  unfolding take_back
  take_back-Triple a source given =
      Triple-if (is_human source) _ _ (λ e. remove_line-Triple a given _ refl)
        (λ e. Triple-pure Outcome.reconciled (λ s. end (ledger s)))

  record_rename-Triple :
      (a : Activity) (source : Source)
      → Answered d p.activity_id a
      → Triple (On G) (record_rename d p.athlete_id a source) (λ x. On G) (On F)
  unfolding record_rename
  record_rename-Triple a source given =
      Triple-bind (ride_date d a) _ (λ at. On G) (relax_error G F _ end (ride_date-Keeps d G a))
        (λ at.
          store_mark_named-Triple d G G F (rename_of d p.athlete_id a source at)
            (mark a given _ (refl, refl)) end end)

  reconcile_with-Triple :
      (recorded : NamedTitle) (a : Activity)
      → Answered d p.activity_id a
      → Triple (On G) (reconcile_with d p recorded a) (λ o. On F) (On F)
  unfolding reconcile_with
  reconcile_with-Triple recorded a given =
      Triple-if (text_eq a.name recorded.title || not_the_athletes_title d.classifier a.name) _ _
        (λ e. take_back-Triple a recorded.source given)
        (λ e.
          Triple-bind (record_rename d p.athlete_id a (renamed_source recorded.source)) _
            (λ x. On G) (record_rename-Triple a (renamed_source recorded.source) given)
            (λ x. take_back-Triple a (renamed_source recorded.source) given))

  reconcile_answer-Triple :
      (recorded : NamedTitle) (r : Result Activity)
      → Triple
          (λ s. Post (λ a w. On G w × Answered d p.activity_id a) (On G) (r, s))
          (reconcile_answer d p recorded r)
          (λ o. On F)
          (On F)
  reconcile_answer-Triple recorded (ok a) = record {
    run = λ s h. (reconcile_with-Triple recorded a h.1).run s h.0;
  }
  reconcile_answer-Triple recorded (err e) =
      Triple-if (gone e) _ _ (λ g. Triple-pure Outcome.reconciled (λ s. end (ledger s)))
        (λ g. Triple-fail e (λ s. end (ledger s)))

  pub reconcile_one-Triple :
      (recorded : NamedTitle) → Triple (On G) (reconcile_one d p recorded) (λ o. On F) (On F)
  unfolding reconcile_one
  reconcile_one-Triple recorded =
      Triple-bind (attempt (ask_activity d p.activity_id)) _ _
        (Triple-attempt _ (ask_activity-Triple d G p.activity_id))
        (reconcile_answer-Triple recorded)
