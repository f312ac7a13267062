-- ===== src/Importer/Kept.antt =====
-- What an import changes in the named log, and what it counts.
use titelheld.Prelude.{
  ℕ, zero, suc, ◌+◌, ◌≡◌, ◌⊎◌, inl, inr, refl, sym, subst, ap, ◌∙◌, Bool, true, false, not, Option,
  none, some, some_injective, List, [], ◌∷◌, Bool-cases, arith, if◌then◌else◌, ltb, ◌==◌, is_empty,
  length,
}
use titelheld.Prelude.Table.{lookup, lookup-insert}
use titelheld.Prelude.Action.{
  Result, failed, fail, ◌>>◌, Post, Post-of, Triple, Triple-bind, Triple-pure, Triple-fail,
  Triple-if, Triple-weaken,
}
use titelheld.Store.{Memory, NamedTitle, Source, Key, key_eq}
use titelheld.Store.InMemory.{mark_named, named_row, row_of}
use titelheld.Processor.{Fault, fine, before_change, after_change}
use titelheld.Processor.Outside.{read}
use titelheld.Importer.{
  Listed, Deps, Counts, Import, Step, importable_sport, count, change, asked,
  not_the_athletes_style, store_named, naming_of, store_mark_named, record_unknown, import_one,
  import_page, ask_page, ask_context, ask_pause, follow_page, pages_from, run,
}

-- all activities that are accounted for
abbrev pub total : Counts → ℕ
total c = c.imported + c.skipped + c.not_a_ride + c.already_known

-- a row that an import may write
abbrev pub IsImport : Deps → Key → NamedTitle → Type 0
IsImport d key row =
    (key.0 ≡ d.athlete_id)
    × (row.source ≡ Source.imported)
    × (not_the_athletes_style d row.title ≡ false)

-- the rows of before are as they were, and every other row is an import
abbrev pub AddsOnly : Deps → Memory → Memory → Type 0
AddsOnly d m₀ m =
    ((key : Key) (row : NamedTitle)
      → lookup key m₀.named ≡ some row
      → lookup key m.named ≡ some row)
    × ((key : Key) (row : NamedTitle)
        → lookup key m.named ≡ some row
        → (lookup key m₀.named ≡ some row) ⊎ IsImport d key row)

module _ (d : Deps) (m₀ : Memory) where
  mark_named-AddsOnly :
      (m : Memory) (a : Listed)
      → AddsOnly d m₀ m
      → named_row m d.athlete_id a.id ≡ none
      → not_the_athletes_style d a.name ≡ false
      → AddsOnly d m₀ (mark_named m (naming_of d a))
  unfolding mark_named named_row
  mark_named-AddsOnly m a (old, new) h style = (kept, known)
    where
      key : Key
      key = (d.athlete_id, a.id)

      inserted :
          (k : Key)
          → lookup k (mark_named m (naming_of d a)).named
            ≡ (if key_eq.beq key k then some (row_of (naming_of d a)) else lookup k m.named)
      inserted k = lookup-insert key k (row_of (naming_of d a)) m.named

      kept :
          (k : Key) (row : NamedTitle)
          → lookup k m₀.named ≡ some row
          → lookup k (mark_named m (naming_of d a)).named ≡ some row
      kept k row e = elim (Bool-cases (key_eq.beq key k)) [
        | inl p ↦
            let free : lookup k m.named ≡ none =
              subst (λ v. lookup v m.named ≡ none) ((key_eq.beq_iff key k).0 p) h in
            absurd (let clash : none ≡ some row = sym free ∙ old k row e in ground arith)
        | inr p ↦
            (inserted k ∙ ap (λ b. if b then some (row_of (naming_of d a)) else lookup k m.named) p)
            ∙ old k row e
      ]

      known :
          (k : Key) (row : NamedTitle)
          → lookup k (mark_named m (naming_of d a)).named ≡ some row
          → (lookup k m₀.named ≡ some row) ⊎ IsImport d k row
      known k row e = elim (Bool-cases (key_eq.beq key k)) [
        | inl p ↦
            let written : some (row_of (naming_of d a)) ≡ some row =
              sym (
                inserted k
                ∙ ap (λ b. if b then some (row_of (naming_of d a)) else lookup k m.named) p)
              ∙ e in
            inr (
              subst (λ v. IsImport d v row) ((key_eq.beq_iff key k).0 p)
                (subst (λ r. IsImport d key r) (some_injective written) (refl, refl, style)))
        | inr p ↦ new k row (
            sym (
              inserted k
              ∙ ap (λ b. if b then some (row_of (naming_of d a)) else lookup k m.named) p)
            ∙ e)
      ]

  abbrev Balanced : Import → Type 0
  Balanced s = AddsOnly d m₀ s.memory × (s.counts.seen ≡ total s.counts)

  -- one activity is seen and not yet accounted for
  abbrev Pending : Import → Type 0
  Pending s = AddsOnly d m₀ s.memory × (s.counts.seen ≡ suc (total s.counts))

  -- what an import leaves that stops
  abbrev pub Stopped : Import → Type 0
  Stopped s =
      AddsOnly d m₀ s.memory
      × ((s.counts.seen ≡ total s.counts) ⊎ (s.counts.seen ≡ suc (total s.counts)))

  count-Triple :
      (P Q : Import → Type 0) (f : Counts → Counts)
      → ((s : Import) → P s → Q (record s { counts = f s.counts }))
      → Triple P (count f) (λ u. Q) Stopped
  unfolding count
  count-Triple P Q f h = record { run = λ s p. h s p }

  store_named-Triple :
      (id : ℕ)
      → Triple Pending
          (store_named d id)
          (λ row s. Pending s × (row ≡ named_row s.memory d.athlete_id id))
          Stopped
  unfolding store_named
  store_named-Triple id = record { run = λ s h. by_fault (d.store_fault s.tick) s h }
    where
      by_fault :
          (f : Fault) (s : Import)
          → Pending s
          → Post
              (λ row u. Pending u × (row ≡ named_row u.memory d.athlete_id id))
              Stopped
              (read f (named_row s.memory d.athlete_id id), asked s)
      by_fault fine s h = (h, refl)
      by_fault before_change s h = (h.0, inr h.1)
      by_fault after_change s h = (h.0, inr h.1)

  store_mark_named-Triple :
      (a : Listed)
      → not_the_athletes_style d a.name ≡ false
      → Triple
          (λ s. Pending s × (named_row s.memory d.athlete_id a.id ≡ none))
          (store_mark_named d a)
          (λ u. Pending)
          Stopped
  unfolding store_mark_named
  store_mark_named-Triple a style = record {
    run = λ s h.
        by_fault (d.store_fault s.tick) s h.0 (mark_named-AddsOnly s.memory a h.0.0 h.1 style);
  }
    where
      by_fault :
          (f : Fault) (s : Import)
          → Pending s
          → AddsOnly d m₀ (mark_named s.memory (naming_of d a))
          → Post (λ u. Pending) Stopped (change f (mark_named s.memory (naming_of d a)) s)
      by_fault fine s h k = (k, h.1)
      by_fault before_change s h k = (h.0, inr h.1)
      by_fault after_change s h k = (k, inr h.1)

  record_unknown-Triple :
      (a : Listed) (row : Option NamedTitle)
      → not_the_athletes_style d a.name ≡ false
      → Triple
          (λ s. Pending s × (row ≡ named_row s.memory d.athlete_id a.id))
          (record_unknown d a row)
          (λ u. Balanced)
          Stopped
  record_unknown-Triple a (some row) style =
      count-Triple _ Balanced _ (λ s h. (h.0.0, omega (arith, h.0.1)))
  record_unknown-Triple a none style =
      Triple-bind (store_mark_named d a) _ (λ u. Pending)
        (Triple-weaken _ _ (λ s h. (h.0, sym h.1)) (store_mark_named-Triple a style))
        (λ u. count-Triple Pending Balanced _ (λ s h. (h.0, omega (arith, h.1))))

  import_one-Triple : (a : Listed) → Triple Balanced (import_one d a) (λ u. Balanced) Stopped
  unfolding import_one
  import_one-Triple a =
      Triple-bind (count (λ c. record c { seen = suc c.seen })) _ (λ u. Pending)
        (count-Triple Balanced Pending _ (λ s h. (h.0, ap suc h.1)))
        (λ u.
          Triple-if (not (importable_sport a.sport_type)) _ _
            (λ e. count-Triple Pending Balanced _ (λ s h. (h.0, omega (arith, h.1))))
            (λ e.
              Triple-if (not_the_athletes_style d a.name) _ _
                (λ k. count-Triple Pending Balanced _ (λ s h. (h.0, omega (arith, h.1))))
                (λ k.
                  Triple-bind (store_named d a.id) (record_unknown d a) _ (store_named-Triple a.id)
                    (λ row. record_unknown-Triple a row k))))

  import_page-Triple :
      (activities : List Listed)
      → Triple Balanced (import_page d activities) (λ u. Balanced) Stopped
  unfolding import_page
  import_page-Triple [] = Triple-pure tt (λ s h. h)
  import_page-Triple (a ∷ activities) =
      Triple-bind (import_one d a) _ (λ u. Balanced) (import_one-Triple a)
        (λ u. import_page-Triple activities)

  -- a question that changes nothing
  answer-Triple :
      {A : Type 0} (answer : Import → Result A)
      → Triple Balanced (λ s. (answer s, asked s)) (λ u. Balanced) Stopped
  answer-Triple answer = record {
    run = λ s h. Post-of _ _ (answer s) (asked s) (λ a e. h) (h.0, inl h.1);
  }

  follow_page-Triple :
      (activities : List Listed) (next : Step Bool)
      → Triple Balanced next (λ b. Balanced) Stopped
      → Triple Balanced (follow_page d activities next) (λ b. Balanced) Stopped
  follow_page-Triple activities next h =
      Triple-bind (count (λ c. record c { pages = suc c.pages })) _ (λ u. Balanced)
        (count-Triple Balanced Balanced _ (λ s h. h))
        (λ u.
          Triple-if (is_empty activities) _ _ (λ e. Triple-pure true (λ s h. h))
            (λ e.
              Triple-bind (import_page d activities) _ (λ u. Balanced)
                (import_page-Triple activities)
                (λ u.
                  Triple-if (ltb (length activities) d.per_page) _ _
                    (λ k. Triple-pure true (λ s h. h)) (λ k. h))))

  pages_from-Triple :
      (fuel page : ℕ) → Triple Balanced (pages_from d fuel page) (λ b. Balanced) Stopped
  unfolding pages_from
  pages_from-Triple zero page = Triple-pure false (λ s h. h)
  pages_from-Triple (suc fuel) page =
      Triple-bind (ask_context d >> ask_pause d page) _ (λ u. Balanced)
        (Triple-bind (ask_context d) _ (λ u. Balanced) (unfold ask_context in answer-Triple _)
          (λ u. unfold ask_pause in answer-Triple _))
        (λ u.
          Triple-bind (ask_page d page) _ (λ activities. Balanced)
            (unfold ask_page in answer-Triple _)
            (λ activities.
              follow_page-Triple activities (pages_from d fuel (suc page))
                (pages_from-Triple fuel (suc page))))

-- An import only adds: every row that the named log had is as it was, and every other row is one of the
-- athlete's, marked as imported, whose title is the athlete's own style. At the end every activity
-- that was seen is counted once, as imported, skipped, no ride or known; where the import stops with an
-- error, all but the last one are. All this holds for any number of pages, whatever the listing and the
-- store answer.
pub run-AddsOnly :
    (d : Deps) (fuel : ℕ) (s : Import)
    → s.counts.seen ≡ total s.counts
    → Post
        (λ b u. AddsOnly d s.memory u.memory × (u.counts.seen ≡ total u.counts))
        (Stopped d s.memory)
        (run d fuel s)
unfolding run
run-AddsOnly d fuel s h =
    (Triple-if (d.athlete_id == 0) (fail failed) (pages_from d fuel 1)
        (λ e. Triple-fail failed (λ u k. (k.0, inl k.1)))
        (λ e. pages_from-Triple d s.memory fuel 1)).run
      s ((λ key row e. e, λ key row e. inl e), h)
