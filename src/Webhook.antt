-- ===== src/Webhook.antt =====
-- internal/webhook/webhook.go: the intake of Strava's push events, from where the body of a request is
-- decoded and acknowledged; Handshake holds what is ahead of that. An identifier is a non-negative int64.
pub mod Intake
pub mod Handshake
use titelheld.Prelude.{
  ℕ, ◌+◌, ◌*◌, Bool, true, false, not, ◌&&◌, ◌||◌, Option, none, some, List, if◌then◌else◌, ltb,
  leb, ◌==◌, ◌-◌,
}
use titelheld.Prelude.Int.{ℤ, pos, negsuc}
use titelheld.Prelude.Text.{Text, codes, text_eq, text_key}
use titelheld.Prelude.Table.{lookup}
use titelheld.Prelude.Action.{Error, failed, Result, ok, err, Action, pure, ◌>>=◌, ◌>>◌}
use titelheld.Store.{Time, Duration, second, Aspect, Pending, NamedTitle, Memory}
use titelheld.Store.InMemory.{enqueue}
use titelheld.Processor.{Fault, fine, before_change, after_change, World, Deps}
use titelheld.Processor.Outside.{Step, change, ask_now, store_named}

-- The object_type strings that the code tells apart.
pub data ObjectType : Type 0 where
  activity athlete : ObjectType
  other : Text → ObjectType

pub record Event : Type 0 where
  pub object_type : ObjectType
  pub object_id : ℕ
  pub aspect_type : Aspect
  pub owner_id : ℕ
  pub event_time : ℤ
  pub updates : List (Text × Text)

-- an athlete_id of 0 is no configured athlete
pub record Handler : Type 0 where
  pub athlete_id : ℕ
  pub delay : Duration

abbrev pub max_event_age : Duration
max_event_age = 24 * 3600 * second

-- time.Unix(s, 0), in nanoseconds since the zero time
abbrev pub unix : ℕ → Time
unix s = (62135596800 + s) * second

abbrev is_false : Option Text → Bool
is_false none = false
is_false (some v) = text_eq v (codes "false")

unfoldable pub deauthorized : Event → Bool
deauthorized e = elim e.object_type [
  | ObjectType.athlete ↦ is_false (lookup (codes "authorized") e.updates)
  | _ ↦ false
]

-- the time that the delay is measured from
abbrev pub base_time : Time → ℤ → Time
base_time now (negsuc n) = now
base_time now (pos s) =
    if ltb 0 s && (ltb (unix s) now && leb (now - unix s) max_event_age) then unix s else now

unfoldable pub process_after : Handler → Time → ℤ → Time
process_after h now event_time = base_time now event_time + h.delay

abbrev is_activity : ObjectType → Bool
is_activity ObjectType.activity = true
is_activity _ = false

abbrev is_handled : Aspect → Bool
is_handled Aspect.create = true
is_handled Aspect.update = true
is_handled _ = false

abbrev is_update : Aspect → Bool
is_update Aspect.update = true
is_update _ = false

-- the guards of process ahead of the store
unfoldable pub accepted : Handler → Event → Bool
unfolding deauthorized
accepted h e =
    not (deauthorized e)
    && (is_activity e.object_type
        && (is_handled e.aspect_type
            && (not (not (h.athlete_id == 0) && not (e.owner_id == h.athlete_id))
                && not (e.object_id == 0))))

-- a named activity is looked at again on an update alone
abbrev pub ignored : Option NamedTitle → Aspect → Bool
ignored none aspect = false
ignored (some row) aspect = not (is_update aspect)

unfoldable pub pending_of : Handler → Event → Time → Time → Pending
pending_of h e enqueued_at now = record {
  athlete_id = e.owner_id;
  activity_id = e.object_id;
  aspect = e.aspect_type;
  enqueued_at = enqueued_at;
  process_after = process_after h now e.event_time;
}

module _ (d : Deps) where
  -- Queue.Enqueue
  unfoldable pub store_enqueue : Pending → Step Unit
  store_enqueue p w = change (d.store_fault w.tick) (enqueue w.memory p).0 w

  unfoldable pub queue_event : Handler → Event → Step Unit
  queue_event h e = do
    enqueued_at ← ask_now d
    now ← ask_now d
    store_enqueue (pending_of h e enqueued_at now)

  -- process
  unfoldable pub process : Handler → Event → Step Unit
  unfolding queue_event
  process h e =
      if accepted h e
      then (do
        row ← store_named d e.owner_id e.object_id
        if ignored row e.aspect_type then pure tt else queue_event h e)
      else pure tt
