-- ===== src/Processor/Queued.antt =====
-- internal/processor/processor.go: theorems on the queue in a sweep, and on what a sweep reports.
use titelheld.Prelude.{
  ℕ, suc, ◌+◌, ◌≤◌, ◌≡◌, refl, ap, ◌∙◌, ◌⊎◌, inl, inr, true, false, List, [], ◌∷◌, arith, length,
  Bool-cases, All,
}
use titelheld.Prelude.Table.{delete, values}
use titelheld.Prelude.Action.{Result, ok, err, pure, attempt, after, ◌>>=◌, Keeps}
use titelheld.Store.{Pending, Key, key_eq}
use titelheld.Store.InMemory.{due}
use titelheld.Processor.{Call, Outcome, SweepResult, World, Deps, fine}
use titelheld.Processor.Outside.{Step, asked, ask_now, ask_cancelled, store_due, store_remove}
use titelheld.Processor.Process.{process_one}
use titelheld.Processor.Sweep.{
  finished, count_ending, empty_result, dequeue, sweep_one, sweep_loop, sweep,
}
use titelheld.Processor.Rules.{Ledger, On, store_remove-Triple}
use titelheld.Processor.Entry.{process_one-Triple}
use titelheld.Processor.Loop.{sweep-Keeps}
use titelheld.Processor.Writes.{Post-end}

-- how many entries a result has counted
abbrev pub counted : SweepResult → ℕ
counted r = r.named + (r.skipped + (r.reconciled + (r.provisional + r.failed)))

count_ending-counted :
    (r : SweepResult) (e : Result Outcome)
    → (counted (count_ending r e) ≡ suc (counted r))
      × ((count_ending r e).due ≡ r.due)
      × ((count_ending r e).cancelled ≡ r.cancelled)
unfolding count_ending
count_ending-counted r (err e) = (omega arith, refl, refl)
count_ending-counted r (ok Outcome.named) = (omega arith, refl, refl)
count_ending-counted r (ok Outcome.dry_run) = (omega arith, refl, refl)
count_ending-counted r (ok Outcome.reconciled) = (omega arith, refl, refl)
count_ending-counted r (ok Outcome.reconcile_dry_run) = (omega arith, refl, refl)
count_ending-counted r (ok Outcome.provisional) = (omega arith, refl, refl)
count_ending-counted r (ok Outcome.skipped) = (omega arith, refl, refl)

after-ok :
    {A B : Type 0} (x : Result A × World) (a : A) (f : A → Step B)
    → x.0 ≡ ok a
    → after x f ≡ f a x.1
after-ok (ok b, w) a f e = ap (λ c. f c w) (cc)
after-ok (err b, w) a f e = absurd (cc)

abbrev Either : Pending → World → Ledger → Type 0
Either p w l =
    (l.pending ≡ w.memory.pending)
    ⊎ (l.pending ≡ delete (p.athlete_id, p.activity_id) w.memory.pending)

abbrev Any : Pending → Type 0
Any p = Unit

module _ (d : Deps) where
  -- an entry's processing always has an ending, which the removal does not change
  sweep_one-ending : (p : Pending) (w : World) → (sweep_one d p w).0 ≡ ok (process_one d p w).0
  unfolding sweep_one dequeue attempt ◌>>=◌ pure
  sweep_one-ending p w = elim (Bool-cases (finished (process_one d p w).0)) [
    | inl f ↦ rw f refl
    | inr f ↦ rw f refl
  ]

  sweep_loop-counted :
      (ps : List Pending) (r : SweepResult) (w : World)
      → r.cancelled ≡ false
      → (q : SweepResult) × ((sweep_loop d ps r w).0 ≡ ok q)
        × (q.due ≡ r.due)
        × (counted q ≤ counted r + length ps)
        × (q.cancelled ≡ false → counted q ≡ counted r + length ps)
  unfolding sweep_loop pure ask_cancelled ◌>>=◌
  sweep_loop-counted [] r w c = (r, refl, refl, omega arith, λ e. omega arith)
  sweep_loop-counted (p ∷ ps) r w c = elim (Bool-cases (d.cancelled w.tick)) [
    | inl stop ↦ rw stop (record r { cancelled = true }, refl, refl, omega arith, λ e. absurd (cc))
    | inr on ↦
        let v = asked w in
        let e = (process_one d p v).0 in
        let k = count_ending-counted r e in
        let ih = sweep_loop-counted ps (count_ending r e) (sweep_one d p v).1 (k.2 ∙ c) in
        (
          ih.0,
          rw on (
              ap (λ x. x.0)
                (after-ok (sweep_one d p v) e (λ x. sweep_loop d ps (count_ending r x))
                  (sweep_one-ending p v))
              ∙ ih.1),
          ih.2 ∙ k.1,
          omega (arith, k.0, ih.3),
          λ q. omega (arith, k.0, ih.4 q),
        )
  ]

  -- If the read of the due entries succeeds, a sweep returns a result, whatever else fails: it reports
  -- as many due entries as the queue had at that time, counts none of them twice, and, unless it was
  -- cancelled, counts every one of them as named, skipped, reconciled, provisional or failed.
  pub sweep-counted :
      (w : World)
      → d.store_fault (suc w.tick) ≡ fine
      → (q : SweepResult) × ((sweep d w).0 ≡ ok q)
        × (q.due ≡ length (due w.memory (d.now w.tick)))
        × (counted q ≤ q.due)
        × ((q.cancelled ≡ true) ⊎ (counted q ≡ q.due))
  unfolding sweep ask_now store_due ◌>>=◌
  sweep-counted w f =
      let ps = due w.memory (d.now w.tick) in
      let k = sweep_loop-counted ps (empty_result (length ps)) (asked (asked w)) refl in
      (
        k.0,
        rw f k.1,
        k.2,
        omega (arith, k.2, k.3),
        elim (Bool-cases k.0.cancelled) [ inl c ↦ inl c | inr c ↦ inr (omega (arith, k.2, k.4 c)) ],
      )

  process_one-pending :
      (p : Pending) (q : List (Key × Pending)) → Keeps (On (λ l. l.pending ≡ q)) (process_one d p)
  process_one-pending p q =
      process_one-Triple d p I I I (λ r. I) (λ a. I) (λ l h e. h) (λ r l h e. h)
        (λ a g n row l h. h) (λ a l h. h) (λ l h. h) (λ l h. h) (λ a g m c on t l h. h)
        (λ a g n row l h. h) (λ r a g n row l h. h) (λ r l h. h) (λ r a g on gone l h. h)
    where
      I : Ledger → Type 0
      I l = l.pending ≡ q

  kept_pending : (p : Pending) (w : World) → (process_one d p w).1.memory.pending ≡ w.memory.pending
  kept_pending p w =
      Post-end (λ l. l.pending ≡ w.memory.pending) (process_one d p w)
        ((process_one-pending p w.memory.pending).run w refl)

  -- An entry leaves the queue only once it is finished with: whatever fails, after an entry the queue
  -- is as it was, or it lacks exactly that entry, whose processing neither failed nor ended in a dry run
  -- or a provisional skip.
  pub sweep_one-pending :
      (p : Pending) (w : World)
      → ((sweep_one d p w).1.memory.pending ≡ w.memory.pending)
        ⊎ ((finished (process_one d p w).0 ≡ true)
            × ((sweep_one d p w).1.memory.pending
                ≡ delete (p.athlete_id, p.activity_id) w.memory.pending))
  unfolding sweep_one dequeue attempt ◌>>=◌ pure
  sweep_one-pending p w = elim (Bool-cases (finished (process_one d p w).0)) [
    | inr f ↦ inl (rw f (kept_pending p w))
    | inl f ↦
        elim (Post-end (Either p w)
          (store_remove d p.athlete_id p.activity_id (process_one d p w).1)
          ((store_remove-Triple d (λ l. l.pending ≡ w.memory.pending) (Either p w) (Either p w)
              p.athlete_id p.activity_id (λ l h. inr (ap (delete (p.athlete_id, p.activity_id)) h))
              (λ l h. h) (λ l h. inl h)).run
            (process_one d p w).1 (kept_pending p w))) [
              | inl e ↦ inl (rw f e)
              | inr e ↦ inr (f, rw f e)
            ]
  ]

module _ (d : Deps) (off : d.writes_enabled ≡ false) (cs : List Call) where
  process_one-silent : (p : Pending) → Any p → Keeps (On (λ l. l.calls ≡ cs)) (process_one d p)
  process_one-silent p u =
      process_one-Triple d p I I I (λ r. I) (λ a. I) (λ l h e. h) (λ r l h e. h)
        (λ a g n row l h. h) (λ a l h. h) (λ l h. h) (λ l h. h) (λ a g m c on t l h. absurd (cc))
        (λ a g n row l h. h) (λ r a g n row l h. h) (λ r l h. h) (λ r a g on gone l h. absurd (cc))
    where
      I : Ledger → Type 0
      I l = l.calls ≡ cs

  anything : (ps : List Pending) → All Any ps
  anything [] = tt
  anything (p ∷ ps) = (tt, anything ps)

  -- With writes disabled a sweep sends no request that changes an activity, whatever the outside
  -- answers, and whether it ends well or in an error.
  pub sweep-silent : (w : World) → w.calls ≡ cs → (sweep d w).1.calls ≡ cs
  sweep-silent w h =
      Post-end (λ l. l.calls ≡ cs) (sweep d w)
        ((sweep-Keeps d (λ l. l.calls ≡ cs) Any process_one-silent (λ p u l e. e)
            (λ l e. anything (values l.pending))).run
          w h)
