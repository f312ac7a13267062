-- ===== src/Tests/Pipeline.antt =====
-- The theorems on the store, the intake and the pipeline at a concrete ride.
use titelheld.Prelude.{
  ◌<◌, ◌∷◌, All, ℕ, ◌+◌, ◌*◌, ◌≤◌, ◌≡◌, ◌⊎◌, refl, true, false, none, some, List, [], ◌++◌, arith,
  length, if◌then◌else◌, In, ◌↔◌,
}
use Prim.Native.Nat.{max}
use mathlib.Core.List.{Perm}
use titelheld.Prelude.Int.{pos, negsuc}
use titelheld.Prelude.Sort.{AreOrdered}
use titelheld.Prelude.Text.{Text, codes}
use titelheld.Prelude.Table.{lookup, delete, values}
use titelheld.Prelude.Action.{ok}
use titelheld.Store.{
  Pending, Aspect, NamedTitle, Naming, Source, Language, key_eq, franchise_key_eq, second,
  new_memory, Memory,
}
use titelheld.Store.InMemory.{
  due, recent_titles, mark_named, franchise_position, advance_franchise_past,
}
use titelheld.Store.Queue.{IsEarlier, due_lem}
use titelheld.Store.Titles.{IsNewer, kept_under, recent_titles_lem}
use titelheld.Store.Rotation.{advance_franchise_past_lem}
use titelheld.Processor.{World, SweepResult, fine}
use titelheld.Processor.Process.{process_one}
use titelheld.Processor.Sweep.{sweep, sweep_one, finished}
use titelheld.Processor.Rules.{ledger, On}
use titelheld.Processor.Writes.{AtMostOne, process_one-AtMostOne}
use titelheld.Processor.Once.{IsSound, AnswersAsked, titles_sent, rows, sweep-IsSound}
use titelheld.Processor.Queued.{counted, sweep-counted, sweep_one-pending, sweep-silent}
use titelheld.Webhook.{
  max_event_age, Event, ObjectType, Handler, process, process_after, unix, accepted, deauthorized,
  ignored,
}
use titelheld.Webhook.Intake.{Queued, process_after-bounds, process_lem, process-queued}
use titelheld.Webhook.Handshake.{Query, Response, validate, is_blank, validate-echoed}
use titelheld.System.{event, swept, Reach, start, next, fresh_world, reach-titles_sent}
use titelheld.Tests.{deps, dry_deps, entry, queued}

abbrev handler : Handler
handler = record { athlete_id = 7; delay = 600 * second }

abbrev created : Event
created = record {
  object_type = ObjectType.activity;
  object_id = 42;
  aspect_type = Aspect.create;
  owner_id = 7;
  event_time = pos 1000;
  updates = [];
}

deps-AnswersAsked : AnswersAsked deps
deps-AnswersAsked t id a e = ground arith

abbrev after_event : World
after_event = (process deps handler created fresh_world).1

-- an event, a sweep, the event once more and a second sweep
abbrev after_sweeps : World
after_sweeps = (sweep deps (process deps handler created (sweep deps after_event).1).1).1

after_sweeps-Reach : Reach deps handler after_sweeps
after_sweeps-Reach =
    next _ _
      (next _ _ (next _ _ (next _ _ start (event created fresh_world)) (swept after_event))
        (event created (sweep deps after_event).1))
      (swept (process deps handler created (sweep deps after_event).1).1)

reach-titles_sent_example :
    (titles_sent 42 after_sweeps.calls ≤ 1)
    × (titles_sent 42 after_sweeps.calls ≤ rows (lookup (7, 42) after_sweeps.memory.named))
reach-titles_sent_example =
    reach-titles_sent deps handler deps-AnswersAsked (omega arith) after_sweeps after_sweeps-Reach
      42

process_one-AtMostOne_example : AtMostOne deps entry queued (process_one deps entry queued).1.calls
process_one-AtMostOne_example = process_one-AtMostOne deps entry queued

queued-IsSound : On (IsSound 7) queued
unfolding titles_sent
queued-IsSound = (λ id. omega arith, (refl, tt))

sweep-IsSound_example : On (IsSound 7) (sweep deps queued).1
sweep-IsSound_example = sweep-IsSound deps deps-AnswersAsked 7 queued queued-IsSound

sweep-counted_example :
    (q : SweepResult) × ((sweep deps queued).0 ≡ ok q)
    × (q.due ≡ length (due queued.memory (deps.now queued.tick)))
    × (counted q ≤ q.due)
    × ((q.cancelled ≡ true) ⊎ (counted q ≡ q.due))
sweep-counted_example = sweep-counted deps queued refl

sweep_one-pending_example :
    ((sweep_one deps entry queued).1.memory.pending ≡ queued.memory.pending)
    ⊎ ((finished (process_one deps entry queued).0 ≡ true)
        × ((sweep_one deps entry queued).1.memory.pending ≡ delete (7, 42) queued.memory.pending))
sweep_one-pending_example = sweep_one-pending deps entry queued

never_fails : (t : ℕ) → deps.store_fault t ≡ fine
never_fails t = refl

sweep-silent_example : (sweep dry_deps queued).1.calls ≡ []
sweep-silent_example = sweep-silent dry_deps refl [] queued refl

process_after-bounds_example :
    (process_after handler (unix 5000) (pos 1000) ≤ unix 5000 + handler.delay)
    × (unix 5000 + handler.delay ≤ process_after handler (unix 5000) (pos 1000) + max_event_age)
process_after-bounds_example = process_after-bounds handler (unix 5000) (pos 1000)

process_lem_example : Queued handler created (ledger fresh_world) (ledger after_event)
process_lem_example = process_lem deps handler created fresh_world

created-accepted : accepted handler created ≡ true
unfolding accepted deauthorized
created-accepted = refl

created-not_ignored : ignored (lookup (7, 42) fresh_world.memory.named) created.aspect_type ≡ false
unfolding lookup
created-not_ignored = refl

process-queued_example : (p : Pending) × (lookup (7, 42) after_event.memory.pending ≡ some p)
process-queued_example =
    process-queued deps handler created fresh_world never_fails created-accepted created-not_ignored

-- a second entry, due later
abbrev later_entry : Pending
later_entry = record entry { activity_id = 43; process_after = 900 }

abbrev two_pending : Memory
two_pending = record new_memory { pending = ((7, 42), entry) ∷ ((7, 43), later_entry) ∷ [] }

due_lem_example :
    AreOrdered IsEarlier (due two_pending 300)
    × All (λ p. p.process_after ≤ 300) (due two_pending 300)
    × ((rest : List Pending) × Perm (due two_pending 300 ++ rest) (values two_pending.pending)
        × All (λ p. 300 < p.process_after) rest)
due_lem_example = due_lem two_pending 300

abbrev naming : Naming
naming = record {
  athlete_id = 7;
  activity_id = 42;
  title = codes "Gegenwind";
  language = Language.german;
  source = Source.service;
  at = 500;
}

abbrev named_memory : Memory
named_memory = mark_named new_memory naming

recent_titles_lem_example :
    AreOrdered IsNewer (recent_titles named_memory 7 (pos 3))
    × (length (recent_titles named_memory 7 (pos 3)) ≤ 3)
    × ((rest : List NamedTitle) × Perm
          (recent_titles named_memory 7 (pos 3) ++ rest)
          (kept_under 7 named_memory)
        × ((length (recent_titles named_memory 7 (pos 3)) ≡ 3) ⊎ (rest ≡ []))
        × ((a b : NamedTitle)
            → In a (recent_titles named_memory 7 (pos 3))
            → In b rest
            → IsNewer a b))
recent_titles_lem_example = recent_titles_lem named_memory 7 3

advance_franchise_past_lem_example :
    ((m : Memory) × (advance_franchise_past new_memory 7 (codes "pink") (pos 2)
        ≡ some (m, max (franchise_position new_memory 7 (codes "pink")) 3))
      × ((b : ℕ) (g : Text)
          → franchise_position m b g ≡ (
              if franchise_key_eq.beq (7, codes "pink") (b, g)
              then max (franchise_position new_memory 7 (codes "pink")) 3
              else franchise_position new_memory b g)))
    × (advance_franchise_past new_memory 7 (codes "pink") (negsuc 2) ≡ none)
advance_franchise_past_lem_example = advance_franchise_past_lem new_memory 7 (codes "pink") 2

abbrev subscription : Query
subscription = record {
  mode = codes "subscribe";
  verify_token = codes "secret";
  challenge = codes "15f7";
}

validate-echoed_example :
    (validate (λ s. s) (codes "secret") subscription ≡ Response.echoed subscription.challenge) ↔ (
      (subscription.mode ≡ codes "subscribe")
      × (subscription.verify_token ≡ codes "secret")
      × (is_blank subscription.challenge ≡ false))
validate-echoed_example = validate-echoed (λ s. s) (codes "secret") subscription
