-- ===== src/Processor/Series.antt =====
-- internal/processor/title.go, complete and ask; internal/processor/context.go, franchiseNext: the entry
-- that a ride is offered, and the calls of the model for a title. The model's draw, parsed and validated,
-- and the tests against achievements, known titles and figures are outside.
pub mod Spending
pub mod Checks
use titelheld.Prelude.{
  ℕ, suc, Bool, true, false, not, ◌||◌, Option, none, some, List, [], if◌then◌else◌,
}
use titelheld.Prelude.Int.{ℤ, pos}
use titelheld.Prelude.Text.{Text, Unicode}
use titelheld.Prelude.Action.{Error, failed, Result, ok, err, Action, pure, fail, attempt, ◌>>=◌}
use titelheld.Store.{Franchise, Language}
use titelheld.Naming.Franchise.{Guarded, is_blank, guard, claimed, uses_entry, next, offerable}

pub record Title : Type 0 where
  pub text : Text
  pub language : Language

-- A draw answers a prompt that offers this entry, or none where it is empty.
pub record Model : Type 0 where
  pub unicode : Unicode
  pub draw : ℕ → Text → Result Title
  pub copies : Text → Bool
  pub repeats : Text → Bool
  pub unstated : Text → Text → Bool

abbrev pub is_claimed : Option Text → Bool
is_claimed none = false
is_claimed (some entry) = true

-- what follows franchise.Next: an entry that cannot be a title is not offered
abbrev pub offer_of : Unicode → Option (Text × ℕ) → Text × ℕ
offer_of u none = ([], 0)
offer_of u (some (entry, index)) = if not (offerable u entry) then ([], 0) else (entry, index)

-- franchiseNext, where the series applies and its position was read
unfoldable pub franchise_next : (Text → Text → Bool) → Unicode → Franchise → ℕ → Text × ℕ
franchise_next equal_fold u f position = offer_of u (next equal_fold f (pos position))

module _ (m : Model) where
  -- a candidate that is no title for this ride
  abbrev pub refused : Guarded → Text → Text → Bool
  refused g offered text =
      is_claimed (claimed m.unicode g text)
      || m.copies text
      || m.repeats text
      || m.unstated offered text

  abbrev pub judged : Guarded → Text → Result Title → Result Title
  judged g offered (err e) = err e
  judged g offered (ok t) = if refused g offered t.text then err failed else ok t

  unfoldable pub ask : Guarded → Text → Action ℕ Title
  ask g offered n = (judged g offered (m.draw n offered), suc n)

  module _ (series : Franchise) (entry : Text) where
    -- the answer without the series
    abbrev pub plain : Title → Result Title → Action ℕ (Title × Bool)
    plain kept (err e) = pure (kept, false)
    plain kept (ok t) = pure (t, false)

    -- the answer to the second offer
    abbrev pub retried : Title → Result Title → Action ℕ (Title × Bool)
    retried kept (err e) = pure (kept, false)
    retried kept (ok t) =
        if uses_entry m.unicode t.text entry
        then pure (t, true)
        else attempt (ask (guard m.unicode series []) []) >>= plain t

    -- the answer to the first offer
    abbrev pub offered_once : Title → Action ℕ (Title × Bool)
    offered_once t =
        if is_blank entry
        then pure (t, false)
        else if uses_entry m.unicode t.text entry
        then pure (t, true)
        else attempt (ask (guard m.unicode series entry) entry) >>= retried t

    -- complete: the title, and whether it spends the entry
    unfoldable pub complete : Action ℕ (Title × Bool)
    unfolding ask
    complete = ask (guard m.unicode series entry) entry >>= offered_once
