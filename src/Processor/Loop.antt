-- ===== src/Processor/Loop.antt =====
-- The proof rule for Sweep, over that of processOne.
use titelheld.Prelude.{
  ℕ, ◌≡◌, Bool, true, false, List, [], ◌∷◌, All, All-of_In, In-All, length, subst,
}
use titelheld.Prelude.Table.{values}
use titelheld.Prelude.Action.{
  Result, pure, attempt, ◌>>=◌, Keeps, Triple-bind, Triple-pure, Triple-if,
}
use titelheld.Store.{Pending}
use titelheld.Store.InMemory.{due}
use titelheld.Store.Queue.{due-In}
use titelheld.Processor.{Outcome, SweepResult, World, Deps}
use titelheld.Processor.Outside.{ask_now, ask_cancelled, store_due, store_remove}
use titelheld.Processor.Process.{process_one}
use titelheld.Processor.Sweep.{
  finished, count_ending, empty_result, dequeue, sweep_one, sweep_loop, sweep,
}
use titelheld.Processor.Rules.{
  Ledger, ledger, On, removed, ask_now-Keeps, ask_cancelled-Keeps, store_due-Triple,
  store_remove-Triple,
}
use titelheld.Processor.Pipeline.{attempt-Keeps}

module _ (d : Deps) (I : Ledger → Type 0) (E : Pending → Type 0)
    (one : (p : Pending) → E p → Keeps (On I) (process_one d p))
    (gone : (p : Pending)
      → E p
      → (l : Ledger) → I l
      → I (removed p.athlete_id p.activity_id l)) where
  dequeue-Keeps : (p : Pending) (r : Result Outcome) → E p → Keeps (On I) (dequeue d p r)
  unfolding dequeue
  dequeue-Keeps p r e =
      Triple-if (finished r) _ _
        (λ f.
          Triple-bind (attempt (store_remove d p.athlete_id p.activity_id)) _ (λ x. On I)
            (attempt-Keeps I I _ (
              store_remove-Triple d I I I p.athlete_id p.activity_id (gone p e) (λ l h. h)
                (λ l h. h)))
            (λ x. Triple-pure r (λ s h. h)))
        (λ f. Triple-pure r (λ s h. h))

  sweep_one-Keeps : (p : Pending) → E p → Keeps (On I) (sweep_one d p)
  unfolding sweep_one
  sweep_one-Keeps p e =
      Triple-bind (attempt (process_one d p)) _ (λ r. On I) (attempt-Keeps I I _ (one p e))
        (λ r. dequeue-Keeps p r e)

  pub sweep_loop-Keeps :
      (ps : List Pending) (r : SweepResult) → All E ps → Keeps (On I) (sweep_loop d ps r)
  unfolding sweep_loop
  sweep_loop-Keeps [] r es = Triple-pure r (λ s h. h)
  sweep_loop-Keeps (p ∷ ps) r es =
      Triple-bind (ask_cancelled d) _ (λ stop. On I) (ask_cancelled-Keeps d I)
        (by_stop p ps r (sweep_one-Keeps p es.0) (λ q. sweep_loop-Keeps ps q es.1))
    where
      by_stop :
          (p : Pending) (ps : List Pending) (r : SweepResult)
          → Keeps (On I) (sweep_one d p)
          → ((q : SweepResult) → Keeps (On I) (sweep_loop d ps q))
          → (stop : Bool)
          → Keeps (On I) (elim stop [
            | true ↦ pure (record r { cancelled = true })
            | false ↦ sweep_one d p >>= λ ending. sweep_loop d ps (count_ending r ending)
          ])
      by_stop p ps r first rest true = Triple-pure _ (λ s h. h)
      by_stop p ps r first rest false =
          Triple-bind (sweep_one d p) _ (λ e. On I) first (λ e. rest (count_ending r e))

  -- where the queue holds such entries alone
  pub sweep-Keeps : ((l : Ledger) → I l → All E (values l.pending)) → Keeps (On I) (sweep d)
  unfolding sweep
  sweep-Keeps queued =
      Triple-bind (ask_now d) _ (λ now. On I) (ask_now-Keeps d I)
        (λ now.
          Triple-bind (store_due d now) _ (λ ps w. On I w × (due w.memory now ≡ ps))
            (store_due-Triple d I now)
            (λ ps. record {
              run = λ w h.
                  (sweep_loop-Keeps ps (empty_result (length ps)) (all_due now ps w h)).run w h.0;
            }))
    where
      all_due :
          (now : ℕ) (ps : List Pending) (w : World) → On I w × (due w.memory now ≡ ps) → All E ps
      all_due now ps w h = subst (All E) h.1 (
          All-of_In E (due w.memory now) (λ p m.
            In-All E p (values w.memory.pending) (due-In w.memory now p m) (queued (ledger w) h.0)))
