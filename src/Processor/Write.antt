-- ===== src/Processor/Write.antt =====
-- internal/processor/write.go: the record of a title, and its sending. Log lines are left out.
use titelheld.Prelude.{ℕ, Bool, true, false, ◌||◌, Option, none, some, if◌then◌else◌}
use titelheld.Prelude.Text.{Text, text_eq}
use titelheld.Prelude.Action.{Result, ok, err, pure, attempt, ◌>>=◌, ◌>>◌}
use titelheld.Store.{Time, Naming}
use titelheld.Classifier.Titles.{is_empty}
use titelheld.Naming.Attribution.{describe}
use titelheld.Processor.{Activity, Titled, Call, update_name, update_name_and_description, Deps}
use titelheld.Processor.Outside.{
  Step, ask_now, ask_activity, ask_put, store_mark_named, store_advance,
}

-- the row for a title that this service produced
abbrev pub naming_of : ℕ → ℕ → Text → Titled → Time → Naming
naming_of athlete id text t at = record {
  athlete_id = athlete;
  activity_id = id;
  title = text;
  language = t.language;
  source = t.source;
  at = at;
}

-- the description to send, with the attribution, of the activity as it is re-read
unfoldable pub described : Result Activity → Option Text
described (err e) = none
described (ok fresh) =
    let (updated, changed) = describe fresh.description true in
    if changed then some updated else none

abbrev pub title_call : ℕ → Text → Option Text → Call
title_call id text none = update_name id text
title_call id text (some desc) = update_name_and_description id text desc

module _ (d : Deps) where
  -- description: `none` is the reported false
  unfoldable pub description : Activity → Step (Option Text)
  unfolding described
  description a =
      if d.disable_attribution
      then pure none
      else (do fresh ← attempt (ask_activity d a.id); pure (described fresh))

  unfoldable pub record_franchise : ℕ → Titled → Step Unit
  record_franchise athlete t =
      if is_empty t.franchise
      then pure tt
      else (do attempt (store_advance d athlete t.franchise t.franchise_index); pure tt)

  unfoldable pub reconcile_title : ℕ → ℕ → Titled → Option Activity → Step Unit
  reconcile_title athlete id t none = pure tt
  reconcile_title athlete id t (some written) =
      if is_empty written.name || text_eq written.name t.text then pure tt else (do
        at ← ask_now d
        attempt (store_mark_named d (naming_of athlete id written.name t at))
        pure tt)

  -- the row, the series and the request, in this order
  unfoldable pub record_and_send : ℕ → Activity → Titled → Option Text → Step Bool
  unfolding record_franchise reconcile_title
  record_and_send athlete a t desc = do
    at ← ask_now d
    store_mark_named d (naming_of athlete a.id t.text t at)
    record_franchise athlete t
    written ← ask_put d (title_call a.id t.text desc)
    reconcile_title athlete a.id t written
    pure true

  -- write: whether anything was sent
  unfoldable pub write : ℕ → Activity → Titled → Step Bool
  unfolding description record_and_send
  write athlete a t =
      if d.writes_enabled
      then (do desc ← description a; record_and_send athlete a t desc)
      else pure false
