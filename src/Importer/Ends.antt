-- ===== src/Importer/Ends.antt =====
-- When an import ends.
use titelheld.Prelude.{
  ℕ, zero, suc, ◌+◌, ◌≤◌, ◌<◌, ◌≡◌, ◌⊎◌, inl, inr, refl, sym, subst, ◌∙◌, ==_iff, Bool, true, false,
  List, Bool-cases, arith, ltb, lt→ltb, ◌==◌, is_empty, length,
}
use titelheld.Prelude.Action.{
  Result, ok, err, failed, fail, ◌>>◌, Post, Post-of, Triple, Triple-bind, Triple-pure, Triple-fail,
  Triple-if,
}
use titelheld.Importer.{
  Listed, Deps, Import, Step, count, import_page, ask_page, ask_context, ask_pause, follow_page,
  pages_from, run,
}

abbrev Any : Import → Type 0
Any s = Unit

-- an end of the listing
abbrev Ended : Bool → Import → Type 0
Ended b s = b ≡ true

Any-Post : {A : Type 0} (x : Result A × Import) → Post (λ a. Any) Any x
Any-Post (ok a, s) = tt
Any-Post (err e, s) = tt

Any-Triple : {A : Type 0} (m : Step A) → Triple Any m (λ a. Any) Any
Any-Triple m = record { run = λ s h. Any-Post (m s) }

module _ (d : Deps) (last : ℕ)
    (short : (tick : ℕ) (activities : List Listed)
      → d.list_activities tick last ≡ ok activities
      → length activities < d.per_page) where
  -- where the page is the last one, it is short
  abbrev IsLast : ℕ → List Listed → Import → Type 0
  IsLast page activities s = page ≡ last → length activities < d.per_page

  ask_page-Triple : (page : ℕ) → Triple Any (ask_page d page) (IsLast page) Any
  unfolding ask_page
  ask_page-Triple page = record {
    run = λ s h.
        Post-of _ _ (d.list_activities s.tick page) _
          (λ activities e p.
            short s.tick activities (subst (λ v. d.list_activities s.tick v ≡ ok activities) p e))
          tt;
  }

  follow_page-Ended :
      (activities : List Listed) (next : Step Bool)
      → (length activities < d.per_page) ⊎ Triple Any next Ended Any
      → Triple Any (follow_page d activities next) Ended Any
  follow_page-Ended activities next h =
      Triple-bind (count (λ c. record c { pages = suc c.pages })) _ (λ u. Any)
        (Any-Triple (count (λ c. record c { pages = suc c.pages })))
        (λ u.
          Triple-if (is_empty activities) _ _ (λ e. Triple-pure true (λ s k. refl))
            (λ e.
              Triple-bind (import_page d activities) _ (λ u. Any)
                (Any-Triple (import_page d activities))
                (λ u.
                  Triple-if (ltb (length activities) d.per_page) _ _
                    (λ k. Triple-pure true (λ s q. refl)) (λ k. by_length k h))))
    where
      by_length :
          ltb (length activities) d.per_page ≡ false
          → (length activities < d.per_page) ⊎ Triple Any next Ended Any
          → Triple Any next Ended Any
      by_length k (inr t) = t
      by_length k (inl l) =
          let clash : true ≡ false = sym (lt→ltb _ _ l) ∙ k in absurd (ground arith)

  pages_from-Ended :
      (fuel page : ℕ)
      → page ≤ last
      → last < page + fuel
      → Triple Any (pages_from d fuel page) Ended Any
  unfolding pages_from
  pages_from-Ended zero page h k = absurd (omega arith)
  pages_from-Ended (suc fuel) page h k =
      Triple-bind (ask_context d >> ask_pause d page) _ (λ u. Any)
        (Any-Triple (ask_context d >> ask_pause d page))
        (λ u. Triple-bind (ask_page d page) _ (IsLast page) (ask_page-Triple page) (λ activities.
          record {
            run = λ s l.
                (follow_page-Ended activities (pages_from d fuel (suc page))
                    (elim (Bool-cases (page == last)) [
                      | inl e ↦ inl (l ((==_iff page last).0 e))
                      | inr e ↦ inr (pages_from-Ended fuel (suc page) (ground arith) (omega arith))
                    ])).run
                  s tt;
          }))

-- An import ends: if some page of the listing is always shorter than a full page, a round for each page up
-- to that one is enough, and the import stops at the end of the listing or with an error.
pub run-Ended :
    (d : Deps) (last fuel : ℕ) (s : Import)
    → ((tick : ℕ) (activities : List Listed)
        → d.list_activities tick last ≡ ok activities
        → length activities < d.per_page)
    → 1 ≤ last
    → last ≤ fuel
    → Post (λ b u. b ≡ true) (λ u. Unit) (run d fuel s)
unfolding run
run-Ended d last fuel s short h k =
    (Triple-if (d.athlete_id == 0) (fail failed) (pages_from d fuel 1)
        (λ e. Triple-fail failed (λ u q. tt))
        (λ e. pages_from-Ended d last short fuel 1 h (omega arith))).run
      s tt
