-- ===== src/Processor/Once.antt =====
-- internal/processor: how many titles a sweep sends for an activity, as an invariant of the ledger.
use titelheld.Prelude.{
  ℕ, ◌+◌, ◌≤◌, ◌≡◌, sym, ap, ◌∙◌, Bool, false, Option, none, some, List, [], ◌∷◌, arith, ◌==◌,
  ==_iff, if◌then◌else◌, All, subst, Bool-cases, inl, inr,
}
use titelheld.Prelude.Text.{Text}
use titelheld.Prelude.Table.{lookup, lookup-insert, values, All-delete}
use titelheld.Prelude.Action.{ok, Keeps}
use titelheld.Store.{Pending, NamedTitle, Naming, key_eq}
use titelheld.Store.InMemory.{naming_key, row_of}
use titelheld.Processor.{
  Activity, Call, update_name, update_name_and_description, update_description, World, Deps,
}
use titelheld.Processor.Process.{process_one}
use titelheld.Processor.Sweep.{sweep}
use titelheld.Processor.Rules.{Ledger, On, marked, sent, Answered}
use titelheld.Processor.Pipeline.{IsTitleCall, IsRowOf}
use titelheld.Processor.Entry.{process_one-Triple}
use titelheld.Processor.Loop.{sweep-Keeps}
use titelheld.Processor.Writes.{Post-end}

-- the activity that a request gives a title, if it does
title_target : Call → Option ℕ
title_target (update_name i text) = some i
title_target (update_name_and_description i text desc) = some i
title_target (update_description i desc) = none

is_target : ℕ → Option ℕ → Bool
is_target id none = false
is_target id (some i) = i == id

-- how many titles an activity has been sent
unfoldable pub titles_sent : ℕ → List Call → ℕ
unfolding title_target is_target
titles_sent id [] = 0
titles_sent id (c ∷ cs) = (if is_target id (title_target c) then 1 else 0) + titles_sent id cs

abbrev pub rows : Option NamedTitle → ℕ
rows none = 0
rows (some r) = 1

-- of one athlete's activities
abbrev pub IsOnce : ℕ → Ledger → Type 0
IsOnce athlete l = (id : ℕ) → titles_sent id l.calls ≤ rows (lookup (athlete, id) l.named)

-- the queue holds entries of one athlete alone
abbrev pub IsOwned : ℕ → Ledger → Type 0
IsOwned athlete l = All (λ p. p.athlete_id ≡ athlete) (values l.pending)

-- Strava answers with the activity that it is asked for
abbrev pub AnswersAsked : Deps → Type 0
AnswersAsked d = (t id : ℕ) (a : Activity) → d.get_activity t id ≡ ok a → a.id ≡ id

pub rows-le : (o : Option NamedTitle) → rows o ≤ 1
rows-le none = omega arith
rows-le (some r) = omega arith

IsOnce-marked :
    (athlete : ℕ) (n : Naming) (l : Ledger) → IsOnce athlete l → IsOnce athlete (marked n l)
IsOnce-marked athlete n l h id = ground (
  arith,
  lookup-insert (naming_key n) (athlete, id) (row_of n) l.named,
  h id,
  rows-le (lookup (athlete, id) l.named),
)

one_more :
    (athlete id i j : ℕ) (l : Ledger)
    → IsOnce athlete l
    → titles_sent id l.calls ≡ 0
    → rows (lookup (athlete, id) l.named) ≡ 1
    → i ≡ id
    → (if i == j then 1 else 0) + titles_sent j l.calls ≤ rows (lookup (athlete, j) l.named)
one_more athlete id i j l h none_sent row e = elim (Bool-cases (i == j)) [
  | inl same ↦ rw same (
      subst (λ k. 1 + titles_sent k l.calls ≤ rows (lookup (athlete, k) l.named))
        (sym e ∙ (==_iff i j).0 same) (omega arith))
  | inr other ↦ rw other (omega (arith, h j))
]

IsOnce-sent :
    (athlete id : ℕ) (c : Call) (l : Ledger)
    → IsOnce athlete l
    → titles_sent id l.calls ≡ 0
    → rows (lookup (athlete, id) l.named) ≡ 1
    → IsTitleCall id c
    → IsOnce athlete (sent c l)
unfolding titles_sent
IsOnce-sent athlete id (update_name i text) l h none_sent row e j =
    one_more athlete id i j l h none_sent row e
IsOnce-sent athlete id (update_name_and_description i text desc) l h none_sent row e j =
    one_more athlete id i j l h none_sent row e
IsOnce-sent athlete id (update_description i desc) l h none_sent row e j = elim e [ ]

IsOnce-line :
    (athlete id : ℕ) (desc : Text) (l : Ledger)
    → IsOnce athlete l
    → IsOnce athlete (sent (update_description id desc) l)
unfolding titles_sent
IsOnce-line athlete id desc l h j = omega (arith, h j)

-- the invariant of a sweep
abbrev pub IsSound : ℕ → Ledger → Type 0
IsSound athlete l = IsOnce athlete l × IsOwned athlete l

-- no title was sent for this activity
abbrev Unsent : ℕ → ℕ → Ledger → Type 0
Unsent athlete id l = IsSound athlete l × (titles_sent id l.calls ≡ 0)

abbrev Marked : ℕ → ℕ → Ledger → Type 0
Marked athlete id l = Unsent athlete id l × (rows (lookup (athlete, id) l.named) ≡ 1)

module _ (d : Deps) (asked : AnswersAsked d) (athlete : ℕ) where
  same_id : (p : Pending) (a : Activity) → Answered d p.activity_id a → a.id ≡ p.activity_id
  same_id p a given = asked given.0 p.activity_id a given.1

  Marked-marked :
      (p : Pending)
      → p.athlete_id ≡ athlete
      → (a : Activity) → Answered d p.activity_id a
      → (n : Naming) → IsRowOf p.athlete_id a.id n
      → (l : Ledger) → Unsent athlete p.activity_id l
      → Marked athlete a.id (marked n l)
  Marked-marked p own a given n row l h = (
    (
      (IsOnce-marked athlete n l h.0.0, h.0.1),
      subst (λ i. titles_sent i l.calls ≡ 0) (sym (same_id p a given)) h.1,
    ),
    ground (
      arith,
      lookup-insert (naming_key n) (athlete, a.id) (row_of n) l.named,
      ==_iff n.athlete_id athlete,
      ==_iff n.activity_id a.id,
    ),
  )

  Unsent-fresh :
      (p : Pending)
      → p.athlete_id ≡ athlete
      → (l : Ledger) → IsSound athlete l
      → lookup (p.athlete_id, p.activity_id) l.named ≡ none
      → Unsent athlete p.activity_id l
  Unsent-fresh p own l h e = (
    h,
    omega (
      arith,
      h.0 p.activity_id,
      ap rows (subst (λ b. lookup (b, p.activity_id) l.named ≡ none) own e),
    ),
  )

  process_one-IsSound :
      (p : Pending) → p.athlete_id ≡ athlete → Keeps (On (IsSound athlete)) (process_one d p)
  process_one-IsSound p own =
      process_one-Triple d p (IsSound athlete) (Unsent athlete p.activity_id) (IsSound athlete)
        (λ r. IsSound athlete) (λ a. Marked athlete a.id) (Unsent-fresh p own) (λ r l h e. h)
        (Marked-marked p own) (λ a l h. h.0.0) (λ l h. h) (λ l h. h.0)
        (λ a given may c on title l h.
          (IsOnce-sent athlete a.id c l h.0.0.0 h.0.1 h.1 title, h.0.0.1))
        (λ a given n row l h. (IsOnce-marked athlete n l h.0, h.1))
        (λ r a given n row l h. (IsOnce-marked athlete n l h.0, h.1)) (λ r l h. h)
        (λ r a given on gone l h. (IsOnce-line athlete a.id _ l h.0, h.1))

  kept_by_sweep : Keeps (On (IsSound athlete)) (sweep d)
  kept_by_sweep =
      sweep-Keeps d (IsSound athlete) (λ p. p.athlete_id ≡ athlete) process_one-IsSound
        (λ p own l h. (h.0, All-delete (λ q. q.athlete_id ≡ athlete) _ l.pending h.1)) (λ l h. h.1)

  -- One sweep, whatever the outside answers, and whether it ends well or in an error: if Strava
  -- answers with the activity that it is asked for, and the queue holds entries of one athlete alone,
  -- then from a state in which no activity of the athlete has been sent more titles than it has rows
  -- in the named log (a row is one at most), the sweep ends in such a state.
  pub sweep-IsSound : (w : World) → On (IsSound athlete) w → On (IsSound athlete) (sweep d w).1
  sweep-IsSound w h = Post-end (IsSound athlete) (sweep d w) (kept_by_sweep.run w h)
