-- ===== src/Processor/Outside.antt =====
-- One question to the outside each: the calls that the processor makes of its dependencies. Every
-- question advances the tick, so that no two questions need have the same answer.
use titelheld.Prelude.{ℕ, suc, Bool, Option, none, some, List, ◌∷◌}
use titelheld.Prelude.Int.{ℤ}
use titelheld.Prelude.Text.{Text}
use titelheld.Prelude.Action.{failed, Result, ok, err, Action}
use titelheld.Store.{Time, Pending, Naming, NamedTitle, Memory}
use titelheld.Store.InMemory.{mark_named, named_row, due, remove, advance_franchise_past}
use titelheld.Classifier.{Decision}
use titelheld.Processor.{
  Activity, Titled, Call, Fault, fine, before_change, after_change, World, Deps,
}

abbrev pub Step : Type 0 → Type 0
Step A = Action World A

-- the world after a question
abbrev pub asked : World → World
asked w = record w { tick = suc w.tick }

-- a read of the store
abbrev pub read : {A : Type 0} → Fault → A → Result A
read fine a = ok a
read _ a = err failed

-- a change of the store
abbrev pub change : Fault → Memory → World → Result Unit × World
change fine m w = (ok tt, record (asked w) { memory = m })
change before_change m w = (err failed, asked w)
change after_change m w = (err failed, record (asked w) { memory = m })

-- an advance of a series; the position is only logged, and the error of a negative index changes
-- nothing
abbrev pub advance_change : Fault → World → Option (Memory × ℕ) → Result Unit × World
advance_change f w none = (err failed, asked w)
advance_change f w (some (m, _)) = change f m w

module _ (d : Deps) where
  unfoldable pub ask_now : Step Time
  ask_now w = (ok (d.now w.tick), asked w)

  unfoldable pub ask_cancelled : Step Bool
  ask_cancelled w = (ok (d.cancelled w.tick), asked w)

  unfoldable pub ask_activity : ℕ → Step Activity
  ask_activity id w = (d.get_activity w.tick id, asked w)

  unfoldable pub ask_llm_title : ℕ → Activity → Decision → Step Titled
  ask_llm_title athlete a decision w = (d.llm_title w.tick athlete a decision, asked w)

  -- the request is sent, whatever is answered
  unfoldable pub ask_put : Call → Step (Option Activity)
  ask_put c w = (d.put w.tick c, record (asked w) { calls = c ∷ w.calls })

  unfoldable pub store_named : ℕ → ℕ → Step (Option NamedTitle)
  store_named athlete id w = (read (d.store_fault w.tick) (named_row w.memory athlete id), asked w)

  unfoldable pub store_due : Time → Step (List Pending)
  store_due t w = (read (d.store_fault w.tick) (due w.memory t), asked w)

  unfoldable pub store_mark_named : Naming → Step Unit
  store_mark_named n w = change (d.store_fault w.tick) (mark_named w.memory n) w

  unfoldable pub store_remove : ℕ → ℕ → Step Unit
  store_remove athlete id w = change (d.store_fault w.tick) (remove w.memory athlete id) w

  unfoldable pub store_advance : ℕ → Text → ℤ → Step Unit
  store_advance athlete franchise index w =
      advance_change (d.store_fault w.tick) w
        (advance_franchise_past w.memory athlete franchise index)
