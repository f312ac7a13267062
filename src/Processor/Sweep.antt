-- ===== src/Processor/Sweep.antt =====
-- internal/processor/processor.go: Sweep, the loop over the entries that are due.
use titelheld.Prelude.{ℕ, ◌+◌, Bool, true, false, not, List, [], ◌∷◌, if◌then◌else◌, length}
use titelheld.Prelude.Action.{Result, ok, err, pure, attempt, ◌>>=◌, ◌>>◌}
use titelheld.Store.{Pending}
use titelheld.Processor.{Outcome, SweepResult, Deps}
use titelheld.Processor.Outside.{Step, ask_now, ask_cancelled, store_due, store_remove}
use titelheld.Processor.Process.{process_one}

-- outcome.staysQueued
unfoldable pub stays_queued : Outcome → Bool
stays_queued Outcome.dry_run = true
stays_queued Outcome.reconcile_dry_run = true
stays_queued Outcome.provisional = true
stays_queued _ = false

-- the switch over one ending
unfoldable pub count_ending : SweepResult → Result Outcome → SweepResult
count_ending r (err e) = record r { failed = r.failed + 1 }
count_ending r (ok Outcome.named) = record r { named = r.named + 1 }
count_ending r (ok Outcome.dry_run) = record r { named = r.named + 1 }
count_ending r (ok Outcome.reconciled) = record r { reconciled = r.reconciled + 1 }
count_ending r (ok Outcome.reconcile_dry_run) = record r { reconciled = r.reconciled + 1 }
count_ending r (ok Outcome.provisional) = record r { provisional = r.provisional + 1 }
count_ending r (ok Outcome.skipped) = record r { skipped = r.skipped + 1 }

-- an entry is finished with unless it failed or stays for the next sweep
unfoldable pub finished : Result Outcome → Bool
unfolding stays_queued
finished (err e) = false
finished (ok o) = not (stays_queued o)

abbrev pub empty_result : ℕ → SweepResult
empty_result n = record {
  due = n;
  named = 0;
  skipped = 0;
  reconciled = 0;
  provisional = 0;
  failed = 0;
  cancelled = false;
}

module _ (d : Deps) where
  unfoldable pub dequeue : Pending → Result Outcome → Step (Result Outcome)
  unfolding finished
  dequeue p ending =
      if finished ending
      then (do attempt (store_remove d p.athlete_id p.activity_id); pure ending)
      else pure ending

  -- one entry: it is processed, and dequeued if it is finished with; an error of the removal is
  -- only logged
  unfoldable pub sweep_one : Pending → Step (Result Outcome)
  unfolding dequeue
  sweep_one p = do ending ← attempt (process_one d p); dequeue p ending

  unfoldable pub sweep_loop : List Pending → SweepResult → Step SweepResult
  sweep_loop [] r = pure r
  sweep_loop (p ∷ ps) r = do
    stop ← ask_cancelled d
    elim stop [
      | true ↦ pure (record r { cancelled = true })
      | false ↦ do ending ← sweep_one p; sweep_loop ps (count_ending r ending)
    ]

  -- Sweep
  unfoldable pub sweep : Step SweepResult
  unfolding sweep_loop
  sweep = do now ← ask_now d; due ← store_due d now; sweep_loop due (empty_result (length due))
