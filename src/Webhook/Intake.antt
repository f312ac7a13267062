-- ===== src/Webhook/Intake.antt =====
-- internal/webhook/webhook.go: theorems on process and processAfter.
use titelheld.Prelude.{
  ℕ, suc, ◌≢◌, not, and_split, ◌+◌, ◌≤◌, ◌≡◌, refl, sym, ap, subst, ◌∙◌, ◌⊎◌, inl, inr, true, false,
  Option, none, some, arith, Option-cases,
}
use titelheld.Prelude.Int.{ℤ, pos, negsuc}
use titelheld.Prelude.Table.{lookup, insert, beq_self}
use titelheld.Prelude.Action.{
  pure, ◌>>=◌, Post, Triple, Triple-bind, Triple-pure, Triple-if, Triple-relax,
}
use titelheld.Store.{Aspect, Time, Pending, NamedTitle, key_eq, Memory}
use titelheld.Store.InMemory.{enqueue, pending_key, named_row}
use titelheld.Store.Queue.{existing_or, enqueue_lem}
use titelheld.Processor.{Fault, fine, before_change, after_change, World, Deps}
use titelheld.Processor.Outside.{change, ask_now, store_named}
use titelheld.Processor.Rules.{Ledger, ledger, On, ask_now-Keeps, store_named-Triple}
use titelheld.Processor.Writes.{Post-end}
use titelheld.Processor.Course.{relax_error}
use titelheld.Webhook.{
  ObjectType, deauthorized, is_activity, is_handled, Event, Handler, max_event_age, process_after,
  accepted, ignored, pending_of, store_enqueue, queue_event, process,
}

-- Whatever event time an event claims, its activity is due no later than the delay after now and no
-- more than a day earlier than that.
pub process_after-bounds :
    (h : Handler) (now : Time) (event_time : ℤ)
    → (process_after h now event_time ≤ now + h.delay)
      × (now + h.delay ≤ process_after h now event_time + max_event_age)
unfolding process_after
process_after-bounds h now (negsuc n) = (omega arith, omega arith)
process_after-bounds h now (pos s) = (ground arith, ground arith)

-- an event that may be queued: one of a create or an update of an activity, for the configured athlete,
-- or for any where none is configured
abbrev pub IsMeant : Handler → Event → Type 0
IsMeant h e =
    (e.object_type ≡ ObjectType.activity)
    × ((e.aspect_type ≡ Aspect.create) ⊎ (e.aspect_type ≡ Aspect.update))
    × ((h.athlete_id ≡ 0) ⊎ (e.owner_id ≡ h.athlete_id))
    × (e.object_id ≢ 0)

is_activity_sound : (o : ObjectType) → is_activity o ≡ true → o ≡ ObjectType.activity
is_activity_sound ObjectType.activity k = refl
is_activity_sound ObjectType.athlete k = absurd (ground arith)
is_activity_sound (ObjectType.other t) k = absurd (ground arith)

is_handled_sound : (a : Aspect) → is_handled a ≡ true → (a ≡ Aspect.create) ⊎ (a ≡ Aspect.update)
is_handled_sound Aspect.create k = inl refl
is_handled_sound Aspect.update k = inr refl
is_handled_sound (Aspect.other t) k = absurd (ground arith)

accepted-IsMeant : (h : Handler) (e : Event) → accepted h e ≡ true → IsMeant h e
unfolding accepted
accepted-IsMeant h e k =
    let (a, b) = and_split (not (deauthorized e)) _ k in
    let (o, c) = and_split (is_activity e.object_type) _ b in
    let (t, d) = and_split (is_handled e.aspect_type) _ c in
    (
      is_activity_sound e.object_type o,
      is_handled_sound e.aspect_type t,
      ground arith,
      ground arith,
    )

ignored_sound :
    (row : Option NamedTitle) (a : Aspect)
    → (a ≡ Aspect.create) ⊎ (a ≡ Aspect.update)
    → ignored row a ≡ false
    → (row ≡ none) ⊎ (a ≡ Aspect.update)
ignored_sound none a h k = inl refl
ignored_sound (some row) a (inr p) k = inr p
ignored_sound (some row) a (inl p) k = absurd (
    let clash : ignored (some row) Aspect.create ≡ false =
      subst (λ b. ignored (some row) b ≡ false) p k in
    ground arith)

-- what an event may leave
abbrev pub Queued : Handler → Event → Ledger → Ledger → Type 0
Queued h e before after =
    (after.named ≡ before.named)
    × (after.calls ≡ before.calls)
    × ((after.pending ≡ before.pending)
        ⊎ ((enqueued_at : Time) × (now : Time) × IsMeant h e
            × ((lookup (e.owner_id, e.object_id) before.named ≡ none)
                ⊎ (e.aspect_type ≡ Aspect.update))
            × (lookup (e.owner_id, e.object_id) before.pending ≡ none)
            × (after.pending
                ≡ insert (e.owner_id, e.object_id) (pending_of h e enqueued_at now)
                    before.pending)))

store_enqueue-Triple :
    (d : Deps) (I R : Ledger → Type 0) (p : Pending)
    → ((l : Ledger) → I l → R l)
    → ((l : Ledger)
        → I l
        → lookup (pending_key p) l.pending ≡ none
        → R (record l { pending = insert (pending_key p) p l.pending }))
    → Triple (On I) (store_enqueue d p) (λ x. On R) (On R)
unfolding store_enqueue enqueue
store_enqueue-Triple d I R p stays grows = record {
  run = λ w h. by_fault (d.store_fault w.tick) w (stays (ledger w) h) (kept w h);
}
  where
    kept : (w : World) → On I w → On R (record w { memory = (enqueue w.memory p).0 })
    kept w h = elim (Option-cases (lookup (pending_key p) w.memory.pending)) [
      | inl e ↦ rw (e, enqueue) (grows (ledger w) h e)
      | inr (q, e) ↦ rw (e, enqueue) (stays (ledger w) h)
    ]

    by_fault :
        (f : Fault) (w : World)
        → On R w
        → On R (record w { memory = (enqueue w.memory p).0 })
        → Post (λ x. On R) (On R) (change f (enqueue w.memory p).0 w)
    by_fault fine w a b = b
    by_fault before_change w a b = a
    by_fault after_change w a b = b

process-Triple :
    (d : Deps) (h : Handler) (e : Event) (l : Ledger)
    → Triple (On (λ m. m ≡ l)) (process d h e) (λ x. On (Queued h e l)) (On (Queued h e l))
unfolding process queue_event pending_of
process-Triple d h e l =
    Triple-if (accepted h e) _ _
      (λ a.
        Triple-bind (store_named d e.owner_id e.object_id) _ (λ r. On (Read r))
          (Triple-relax _ _ (On (λ m. m ≡ l)) (On (Queued h e l)) _ (λ r s x. x)
            (λ s. same (ledger s)) (store_named-Triple d (λ m. m ≡ l) e.owner_id e.object_id))
          (λ r.
            Triple-if (ignored r e.aspect_type) _ _
              (λ i. Triple-pure tt (λ s x. same (ledger s) x.0)) (λ i. queued a r i)))
      (λ a. Triple-pure tt (λ s. same (ledger s)))
  where
    same : (m : Ledger) → m ≡ l → Queued h e l m
    same m q = (cc, cc, inl (cc))

    Read : Option NamedTitle → Ledger → Type 0
    Read r m = (m ≡ l) × (lookup (e.owner_id, e.object_id) m.named ≡ r)

    queued :
        accepted h e ≡ true
        → (r : Option NamedTitle) → ignored r e.aspect_type ≡ false
        → Triple (On (Read r)) (queue_event d h e) (λ x. On (Queued h e l)) (On (Queued h e l))
    queued a r i =
        Triple-bind (ask_now d) _ (λ t. On (Read r))
          (relax_error (Read r) (Queued h e l) _ (λ m x. same m x.0) (ask_now-Keeps d (Read r)))
          (λ t.
            Triple-bind (ask_now d) _ (λ u. On (Read r))
              (relax_error (Read r) (Queued h e l) _ (λ m x. same m x.0) (ask_now-Keeps d (Read r)))
              (λ u.
                store_enqueue-Triple d (Read r) (Queued h e l) (pending_of h e t u)
                  (λ m x. same m x.0)
                  (λ m x free. (
                    cc,
                    cc,
                    inr (
                      t,
                      u,
                      accepted-IsMeant h e a,
                      ignored_sound _ e.aspect_type (accepted-IsMeant h e a).1 (
                          subst (λ q. ignored q e.aspect_type ≡ false)
                            (sym x.1 ∙ ap (λ n. lookup (e.owner_id, e.object_id) n.named) x.0) i),
                      subst (λ n. lookup (e.owner_id, e.object_id) n.pending ≡ none) x.0 free,
                      ap (λ n. insert (e.owner_id, e.object_id) (pending_of h e t u) n.pending) x.0,
                    ),
                  ))))

-- Whatever the store and the clock answer, and whether it ends well or in an error: an event changes
-- no row of the named log and sends nothing to Strava. The queue stays as it is, or it gains one entry
-- for the activity that the event names, where it had none; that happens only for a create or an update
-- of an activity with an identifier, owned by the configured athlete where one is configured, and for
-- an activity in the named log only on an update. The entry holds nothing of the
-- event but its owner, activity and aspect, and a deadline from its time.
pub process_lem :
    (d : Deps) (h : Handler) (e : Event) (w : World)
    → Queued h e (ledger w) (ledger (process d h e w).1)
process_lem d h e w =
    Post-end (Queued h e (ledger w)) (process d h e w)
      ((process-Triple d h e (ledger w)).run w refl)

enqueue-present :
    (m : Memory) (p : Pending)
    → (q : Pending) × (lookup (pending_key p) (enqueue m p).0.pending ≡ some q)
enqueue-present m p = (
  existing_or p (lookup (pending_key p) m.pending),
  (enqueue_lem m p p.athlete_id p.activity_id).0 ∙ rw (beq_self (pending_key p)) refl,
)

-- If no call of the store fails, then after an event that passes every guard, for an activity that is
-- not in the named log or on an update, the queue holds an entry for its activity.
pub process-queued :
    (d : Deps) (h : Handler) (e : Event) (w : World)
    → ((t : ℕ) → d.store_fault t ≡ fine)
    → accepted h e ≡ true
    → ignored (lookup (e.owner_id, e.object_id) w.memory.named) e.aspect_type ≡ false
    → (p : Pending) × (lookup (e.owner_id, e.object_id) (process d h e w).1.memory.pending ≡ some p)
unfolding process queue_event store_enqueue store_named ask_now named_row pending_of ◌>>=◌ pure
process-queued d h e w sound a i =
    rw (a, sound w.tick, i, sound (suc (suc (suc w.tick))))
      (enqueue-present w.memory (pending_of h e (d.now (suc w.tick)) (d.now (suc (suc w.tick)))))
