-- ===== src/Store/Queue.antt =====
-- internal/store/memory.go: theorems on the delay queue, Enqueue and Due.
use mathlib.Core.List.{Perm}
use mathlib.Core.List.Perm
use titelheld.Prelude.{
  ℕ, ◌<◌, ◌++◌, ◌⊎◌, not, List, All, All-of_In, select, ◌≤◌, ◌≡◌, refl, true, false, none, some,
  arith, if◌then◌else◌, In, sym, ap, ◌∙◌, Option, Bool, Bool-cases, Option-cases, inl, inr,
  In-select,
}
use titelheld.Prelude.Sort.{
  before, AreOrdered, IsSorted-AreOrdered, select-perm, sort_func-perm, IsOrder, sort_func-IsSorted,
  In-sort_func,
}
use titelheld.Prelude.Table.{lookup, lookup-insert, values}
use titelheld.Store.{Time, Pending, due_at, key_eq, key_beq_iff, Memory}
use titelheld.Store.InMemory.{enqueue, by_deadline, sort_pending, due, pending_key}

by_deadline-IsOrder : IsOrder by_deadline
by_deadline-IsOrder = record {
  total = λ a b h. ground arith;
  transitive = λ a b c h k. ground arith;
}

-- due earlier, or at one instant and of an activity with no greater identifier
abbrev pub IsEarlier : Pending → Pending → Type 0
IsEarlier p q =
    (p.process_after < q.process_after)
    ⊎ ((p.process_after ≡ q.process_after) × (p.activity_id ≤ q.activity_id))

by_deadline-IsEarlier : (p q : Pending) → before by_deadline p q ≡ true → IsEarlier p q
by_deadline-IsEarlier p q h = ground arith

-- Every read of the queue, at any instant, lists entries with the earliest deadline first, those with
-- one deadline by the identifier of their activity, the least first. Together with some rest they are a
-- permutation of the queue; the deadline of no listed entry is after the instant, and that of every
-- entry of the rest is.
pub due_lem :
    (m : Memory) (now : Time)
    → AreOrdered IsEarlier (due m now)
      × All (λ p. p.process_after ≤ now) (due m now)
      × ((rest : List Pending) × Perm (due m now ++ rest) (values m.pending)
          × All (λ p. now < p.process_after) rest)
unfolding due sort_pending due_at
due_lem m now =
    let entries = values m.pending in
    let waiting = select (λ p. not (due_at p now)) entries in
    (
      IsSorted-AreOrdered by_deadline IsEarlier by_deadline-IsEarlier _
          (sort_func-IsSorted by_deadline by_deadline-IsOrder _),
      All-of_In _ _
          (λ p i. let r = In-select _ p entries (In-sort_func by_deadline p _ i) in ground arith),
      (
        waiting,
        Perm.trans
            (Perm.append_right waiting
              (sort_func-perm by_deadline (select (λ p. due_at p now) entries)))
            (select-perm (λ p. due_at p now) entries),
        All-of_In _ _ (λ p i. let r = In-select _ p entries i in ground arith),
      ),
    )

-- an entry that is due is in the queue
pub due-In : (m : Memory) (now : Time) (p : Pending) → In p (due m now) → In p (values m.pending)
unfolding due sort_pending due_at
due-In m now p i = (In-select _ p (values m.pending) (In-sort_func by_deadline p _ i)).0

-- the entry that a queue holds, or else this one
abbrev pub existing_or : Pending → Option Pending → Pending
existing_or p none = p
existing_or p (some q) = q

abbrev pub is_free : Option Pending → Bool
is_free none = true
is_free (some q) = false

-- After an activity is queued the queue holds an entry for it, the one that was there before if there
-- was one, whatever the new one says; no other activity's entry changes; and the report is true
-- exactly if there was none.
pub enqueue_lem :
    (m : Memory) (p : Pending) (a b : ℕ)
    → (lookup (a, b) (enqueue m p).0.pending ≡ (
        if key_eq.beq (pending_key p) (a, b)
        then some (existing_or p (lookup (pending_key p) m.pending))
        else lookup (a, b) m.pending))
      × ((enqueue m p).1 ≡ is_free (lookup (pending_key p) m.pending))
unfolding enqueue
enqueue_lem m p a b = elim (Option-cases (lookup (pending_key p) m.pending)) [
  | inl e ↦ rw (e, enqueue) (lookup-insert (pending_key p) (a, b) p m.pending, refl)
  | inr (q, e) ↦ rw (e, enqueue) (kept q e, refl)
]
  where
    kept :
        (q : Pending)
        → lookup (pending_key p) m.pending ≡ some q
        → lookup (a, b) m.pending
          ≡ (if key_eq.beq (pending_key p) (a, b) then some q else lookup (a, b) m.pending)
    kept q e = elim (Bool-cases (key_eq.beq (pending_key p) (a, b))) [
      | inl s ↦
          rw s (ap (λ k. lookup k m.pending) (sym ((key_beq_iff (pending_key p) (a, b)).0 s)) ∙ e)
      | inr s ↦ rw s refl
    ]
