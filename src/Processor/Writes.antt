-- ===== src/Processor/Writes.antt =====
-- internal/processor: the theorem on what the pipeline of an entry sends to Strava.
use titelheld.Prelude.{
  ◌≡◌, refl, sym, ap, ◌∙◌, ◌⊎◌, inl, inr, true, ◌||◌, none, some, List, ◌∷◌, arith,
}
use titelheld.Prelude.Table.{lookup}
use titelheld.Prelude.Action.{Result, ok, err, Post}
use titelheld.Store.{Pending, NamedTitle, key_eq}
use titelheld.Classifier.Titles.{is_default_title, matches}
use titelheld.Classifier.Gate.{classify-action}
use titelheld.Naming.Attribution.{remove_attribution}
use titelheld.Processor.{Activity, Call, update_description, World, Deps}
use titelheld.Processor.Filter.{to_classifier_activity}
use titelheld.Processor.Process.{process_one, decision_of, is_skip}
use titelheld.Processor.Rules.{Ledger, On, Answered}
use titelheld.Processor.Pipeline.{IsTitleCall}
use titelheld.Processor.Entry.{process_one-Triple, MayName}

-- What may be sent for an entry, from a world: a title for an activity that has no row in the named
-- log and whose title, as Strava answered it, is a default or a recognised machine's; or, for one that
-- has a row, its description without the attribution line.
pub data IsAllowed (d : Deps) (p : Pending) (w : World) (c : Call) : Type 0 where
  title_of :
      (a : Activity)
      → Answered d p.activity_id a
      → lookup (p.athlete_id, p.activity_id) w.memory.named ≡ none
      → (is_default_title a.name || matches d.classifier.machine_titles a.name) ≡ true
      → d.writes_enabled ≡ true
      → IsTitleCall a.id c
      → IsAllowed d p w c
  line_of :
      (r : NamedTitle) (a : Activity)
      → Answered d p.activity_id a
      → lookup (p.athlete_id, p.activity_id) w.memory.named ≡ some r
      → (remove_attribution a.description).1 ≡ true
      → d.writes_enabled ≡ true
      → c ≡ update_description a.id (remove_attribution a.description).0
      → IsAllowed d p w c

MayName-title :
    (d : Deps) (a : Activity)
    → MayName d a
    → (is_default_title a.name || matches d.classifier.machine_titles a.name) ≡ true
unfolding decision_of is_skip to_classifier_activity
MayName-title d a h =
    (classify-action d.float_ops (to_classifier_activity a) d.classifier (λ e. ground arith)).2

-- where a triple with one end for success and failure ends
pub Post-end :
    {A : Type 0} (F : Ledger → Type 0) (x : Result A × World) → Post (λ a. On F) (On F) x → On F x.1
Post-end F (ok a, s) h = h
Post-end F (err e, s) h = h

abbrev pub AtMostOne : Deps → Pending → World → List Call → Type 0
AtMostOne d p w cs = (cs ≡ w.calls) ⊎ ((c : Call) × IsAllowed d p w c × (cs ≡ c ∷ w.calls))

-- Whatever Strava, the store, the clock and the naming pipeline answer, and whether it ends well or
-- in an error, the pipeline of an entry sends at most one request that changes an activity. It is a
-- title only where the named log had no row for the entry, the title that Strava holds is a default or
-- a recognised machine's and writes are enabled; and a description only where there was a row, to take
-- the attribution line out.
pub process_one-AtMostOne :
    (d : Deps) (p : Pending) (w : World) → AtMostOne d p w (process_one d p w).1.calls
process_one-AtMostOne d p w = Post-end F (process_one d p w) (
    (process_one-Triple d p I Fresh F G (λ a. Fresh)
        (λ l h e. (ap (lookup (p.athlete_id, p.activity_id)) (sym h.0) ∙ e, h.1))
        (λ r l h e. (ap (lookup (p.athlete_id, p.activity_id)) (sym h.0) ∙ e, h.1))
        (λ a given n row l h. h) (λ a l h. inl h.1) (λ l h. inl h.1) (λ l h. inl h.1)
        (λ a given may c on title l h.
          inr (c, title_of a given h.0 (MayName-title d a may) on title, ap (λ cs. c ∷ cs) h.1))
        (λ a given n row l h. h) (λ r a given n row l h. h) (λ r l h. inl h.1)
        (λ r a given on gone l h. inr (
          _,
          line_of r a given h.0 gone on refl,
          ap (λ cs. update_description a.id (remove_attribution a.description).0 ∷ cs) h.1,
        ))).run
      w (refl, refl))
  where
    I : Ledger → Type 0
    I l = (l.named ≡ w.memory.named) × (l.calls ≡ w.calls)

    Fresh : Ledger → Type 0
    Fresh l = (lookup (p.athlete_id, p.activity_id) w.memory.named ≡ none) × (l.calls ≡ w.calls)

    G : NamedTitle → Ledger → Type 0
    G r l = (lookup (p.athlete_id, p.activity_id) w.memory.named ≡ some r) × (l.calls ≡ w.calls)

    F : Ledger → Type 0
    F l = AtMostOne d p w l.calls
