-- ===== src/System.antt =====
-- The program as a whole: events from Strava and sweeps, in any order, from an empty store. A sweep is
-- one step: the handler in internal/sweep/sweep.go holds a lock while one runs.
use titelheld.Prelude.{ℕ, ◌≤◌, ◌<◌, ◌≡◌, sym, subst, inl, inr, [], arith, All}
use titelheld.Prelude.Table.{All-insert, lookup, values}
use titelheld.Store.{Pending, new_memory, key_eq}
use titelheld.Processor.{World, Deps}
use titelheld.Processor.Sweep.{sweep}
use titelheld.Processor.Rules.{Ledger, ledger, On}
use titelheld.Processor.Once.{titles_sent, rows, IsSound, AnswersAsked, sweep-IsSound, rows-le}
use titelheld.Webhook.{Event, Handler, process, pending_of}
use titelheld.Webhook.Intake.{Queued, IsMeant, process_lem}

-- a fresh deployment
abbrev pub fresh_world : World
fresh_world = record { memory = new_memory; calls = []; tick = 0 }

-- One request to the service.
pub data Move (d : Deps) (h : Handler) : World → World → Type 0 where
  event : (e : Event) (w : World) → Move d h w (process d h e w).1
  swept : (w : World) → Move d h w (sweep d w).1

pub data Reach (d : Deps) (h : Handler) : World → Type 0 where
  start : Reach d h fresh_world
  next : (v w : World) → Reach d h v → Move d h v w → Reach d h w

abbrev Owned : Handler → Pending → Type 0
Owned h p = p.athlete_id ≡ h.athlete_id

-- an event that may be queued is the configured athlete's
IsMeant-owner :
    (h : Handler) (e : Event) → 0 < h.athlete_id → IsMeant h e → e.owner_id ≡ h.athlete_id
IsMeant-owner h e set (o, t, inl none_set, i) = absurd (omega arith)
IsMeant-owner h e set (o, t, inr owner, i) = owner

Queued-IsSound :
    (h : Handler) (e : Event) (l m : Ledger)
    → 0 < h.athlete_id
    → Queued h e l m
    → IsSound h.athlete_id l
    → IsSound h.athlete_id m
unfolding pending_of
Queued-IsSound h e l m set q s = (
  λ id. rw (q.0, q.1) (s.0 id),
  elim q.2 [
    | inl same ↦ subst (λ p. All (Owned h) (values p)) (sym same) s.1
    | inr (t, u, a, i, free, grown) ↦
        subst (λ p. All (Owned h) (values p)) (sym grown)
          (All-insert (Owned h) (e.owner_id, e.object_id) (pending_of h e t u) l.pending
            (owner t u a) s.1)
  ],
)
  where
    owner : (t u : ℕ) → IsMeant h e → Owned h (pending_of h e t u)
    owner t u a = IsMeant-owner h e set a

module _ (d : Deps) (h : Handler) (asked : AnswersAsked d) (set : 0 < h.athlete_id) where
  Move-IsSound :
      (v w : World) → Move d h v w → On (IsSound h.athlete_id) v → On (IsSound h.athlete_id) w
  Move-IsSound v _ (event e _) s =
      Queued-IsSound h e (ledger v) (ledger (process d h e v).1) set (process_lem d h e v) s
  Move-IsSound v _ (swept _) s = sweep-IsSound d asked h.athlete_id v s

  Reach-IsSound : (w : World) → Reach d h w → On (IsSound h.athlete_id) w
  unfolding titles_sent
  Reach-IsSound _ start = (λ id. omega arith, tt)
  Reach-IsSound _ (next v w r m) = Move-IsSound v w m (Reach-IsSound v r)

  -- If Strava answers with the activity that it is asked for, and the service is configured with an
  -- athlete, then after any sequence of events, forged ones included, and sweeps from an empty store,
  -- whatever the outside answers, every activity has been sent a title at most once, and an activity
  -- that has been sent one has a row in the named log.
  pub reach-titles_sent :
      (w : World)
      → Reach d h w
      → (id : ℕ)
      → (titles_sent id w.calls ≤ 1)
        × (titles_sent id w.calls ≤ rows (lookup (h.athlete_id, id) w.memory.named))
  reach-titles_sent w r id =
      let s = (Reach-IsSound w r).0 id in
      (omega (arith, s, rows-le (lookup (h.athlete_id, id) w.memory.named)), s)
