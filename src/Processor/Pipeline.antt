-- ===== src/Processor/Pipeline.antt =====
-- Proof rules for write, over those of Rules.
use titelheld.Prelude.{ℕ, ◌≡◌, refl, true, false, ◌||◌, Option, none, some}
use titelheld.Prelude.Text.{Text, text_eq}
use titelheld.Prelude.Action.{
  Result, ok, err, attempt, Post, Triple, Keeps, Triple-bind, Triple-pure, Triple-if, Triple-relax,
}
use titelheld.Store.{Naming, key_eq}
use titelheld.Classifier.Titles.{is_empty}
use titelheld.Processor.{
  Activity, Titled, Call, update_name, update_name_and_description, update_description, World, Deps,
}
use titelheld.Processor.Outside.{
  Step, ask_now, ask_activity, ask_put, store_mark_named, store_advance,
}
use titelheld.Processor.Write.{
  description, described, record_franchise, reconcile_title, record_and_send, write, title_call,
  naming_of,
}
use titelheld.Processor.Rules.{
  Ledger, ledger, On, marked, sent, Triple-attempt, Answered, ask_now-Keeps, ask_activity-Triple,
  store_mark_named-Triple, ask_put-Triple, store_advance-Keeps,
}

-- a request that gives the activity a title
abbrev pub IsTitleCall : ℕ → Call → Type 0
IsTitleCall id (update_name i text) = i ≡ id
IsTitleCall id (update_name_and_description i text desc) = i ≡ id
IsTitleCall id (update_description i desc) = ⊥

-- a row of this activity of this athlete
abbrev pub IsRowOf : ℕ → ℕ → Naming → Type 0
IsRowOf athlete id n = (n.athlete_id ≡ athlete) × (n.activity_id ≡ id)

title_call-IsTitleCall :
    (id : ℕ) (text : Text) (o : Option Text) → IsTitleCall id (title_call id text o)
title_call-IsTitleCall id text none = refl
title_call-IsTitleCall id text (some desc) = refl

same_end :
    {A : Type 0} (I : Ledger → Type 0) (r : Result A) (s : World)
    → Post (λ a. On I) (On I) (r, s)
    → On I s
same_end I (ok a) s k = k
same_end I (err e) s k = k

-- an attempt cannot fail
pub attempt-Keeps :
    {A : Type 0} (I R : Ledger → Type 0) (m : Step A)
    → Keeps (On I) m
    → Triple (On I) (attempt m) (λ r. On I) (On R)
attempt-Keeps I R m h =
    Triple-relax (λ r s. Post (λ a. On I) (On I) (r, s)) (λ r. On I) (On R) (On R) (attempt m)
      (same_end I) (λ s r. r) (Triple-attempt m h)

ask_activity-Keeps : (d : Deps) (I : Ledger → Type 0) (id : ℕ) → Keeps (On I) (ask_activity d id)
ask_activity-Keeps d I id =
    Triple-relax (λ a w. On I w × Answered d id a) (λ a. On I) (On I) (On I) (ask_activity d id)
      (λ a s h. h.0) (λ s h. h) (ask_activity-Triple d I id)

module _ (d : Deps) (athlete : ℕ) (a : Activity) (I J F : Ledger → Type 0)
    (mark : (n : Naming) → IsRowOf athlete a.id n → (l : Ledger) → I l → J (marked n l))
    (jf : (l : Ledger) → J l → F l) (start : (l : Ledger) → I l → F l)
    (send : (c : Call)
      → d.writes_enabled ≡ true
      → IsTitleCall a.id c
      → (l : Ledger) → J l
      → F (sent c l))
    (again : (n : Naming) → IsRowOf athlete a.id n → (l : Ledger) → F l → F (marked n l)) where
  description-Triple : Triple (On I) (description d a) (λ o. On I) (On F)
  unfolding description
  description-Triple =
      Triple-if d.disable_attribution _ _ (λ e. Triple-pure none (λ s h. h))
        (λ e.
          Triple-bind (attempt (ask_activity d a.id)) _ (λ r. On I)
            (attempt-Keeps I F _ (ask_activity-Keeps d I a.id))
            (λ r. Triple-pure (described r) (λ s h. h)))

  record_franchise-Triple :
      (t : Titled) → Triple (On J) (record_franchise d athlete t) (λ x. On J) (On F)
  unfolding record_franchise
  record_franchise-Triple t =
      Triple-if (is_empty t.franchise) _ _ (λ e. Triple-pure tt (λ s h. h))
        (λ e.
          Triple-bind (attempt (store_advance d athlete t.franchise t.franchise_index)) _
            (λ r. On J)
            (attempt-Keeps J F _ (store_advance-Keeps d J athlete t.franchise t.franchise_index))
            (λ r. Triple-pure tt (λ s h. h)))

  reconcile_title-Triple :
      (t : Titled) (o : Option Activity)
      → Triple (On F) (reconcile_title d athlete a.id t o) (λ x. On F) (On F)
  unfolding reconcile_title
  reconcile_title-Triple t none = Triple-pure tt (λ s h. h)
  reconcile_title-Triple t (some w) =
      Triple-if (is_empty w.name || text_eq w.name t.text) _ _ (λ e. Triple-pure tt (λ s h. h))
        (λ e.
          Triple-bind (ask_now d) _ (λ at. On F) (ask_now-Keeps d F)
            (λ at.
              Triple-bind (attempt (store_mark_named d (naming_of athlete a.id w.name t at))) _
                (λ r. On F)
                (attempt-Keeps F F _ (
                  store_mark_named-Triple d F F F (naming_of athlete a.id w.name t at)
                    (again _ (refl, refl)) (λ l h. h) (λ l h. h)))
                (λ r. Triple-pure tt (λ s h. h))))

  record_and_send-Triple :
      (t : Titled) (o : Option Text)
      → d.writes_enabled ≡ true
      → Triple (On I) (record_and_send d athlete a t o) (λ x. On F) (On F)
  unfolding record_and_send
  record_and_send-Triple t o on =
      Triple-bind (ask_now d) _ (λ at. On I)
        (Triple-relax (λ at. On I) (λ at. On I) (On I) (On F) (ask_now d) (λ at s h. h)
          (λ s. start (ledger s)) (ask_now-Keeps d I))
        (λ at.
          Triple-bind (store_mark_named d (naming_of athlete a.id t.text t at)) _ (λ x. On J)
            (store_mark_named-Triple d I J F _ (mark _ (refl, refl)) jf start)
            (λ x.
              Triple-bind (record_franchise d athlete t) _ (λ y. On J) (record_franchise-Triple t)
                (λ y.
                  Triple-bind (ask_put d (title_call a.id t.text o)) _ (λ w. On F)
                    (ask_put-Triple d J F F _ (send _ on (title_call-IsTitleCall a.id t.text o))
                      (λ l h. h))
                    (λ w.
                      Triple-bind (reconcile_title d athlete a.id t w) _ (λ z. On F)
                        (reconcile_title-Triple t w) (λ z. Triple-pure true (λ s h. h))))))

  pub write-Triple : (t : Titled) → Triple (On I) (write d athlete a t) (λ x. On F) (On F)
  unfolding write
  write-Triple t =
      Triple-if d.writes_enabled _ _
        (λ on.
          Triple-bind (description d a) _ (λ o. On I) description-Triple
            (λ o. record_and_send-Triple t o on))
        (λ off. Triple-pure false (λ s. start (ledger s)))
