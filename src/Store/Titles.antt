-- ===== src/Store/Titles.antt =====
-- internal/store/memory.go: theorems on MarkNamed, Named and RecentTitles.
use mathlib.Core.List.{Perm}
use titelheld.Prelude.{
  ℕ, zero, suc, ap, refl, ◌<◌, ◌⊎◌, inl, inr, ◌==◌, [], ◌∷◌, map, select, Bool-cases, ◌≤◌, ◌≡◌, sym,
  true, some, List, ◌++◌, arith, if◌then◌else◌, In, length, take, drop, length-take-le,
  take-append-drop, subst,
}
use titelheld.Prelude.Int.{pos}
use titelheld.Prelude.Sort.{
  IsSorted, AreOrdered, IsSorted-AreOrdered, IsOrder, sort_func-IsSorted, sort_func-perm, sort_func,
  before, IsSorted-append,
}
use titelheld.Prelude.Table.{lookup-insert}
use titelheld.Store.{Key, NamedTitle, Naming, key_eq, Memory}
use titelheld.Store.InMemory.{mark_named, named_row, rows_of, by_newest, recent_titles, row_of}

by_newest-IsOrder : IsOrder by_newest
by_newest-IsOrder = record { total = λ a b h. ground arith; transitive = λ a b c h k. ground arith }

-- named later, or at one instant and for an activity with no smaller identifier
abbrev pub IsNewer : NamedTitle → NamedTitle → Type 0
IsNewer a b =
    (b.named_at < a.named_at) ⊎ ((b.named_at ≡ a.named_at) × (b.activity_id ≤ a.activity_id))

by_newest-IsNewer : (a b : NamedTitle) → before by_newest a b ≡ true → IsNewer a b
by_newest-IsNewer a b h = ground arith

-- the rows that the named log keeps under an athlete
abbrev pub kept_under : ℕ → Memory → List NamedTitle
kept_under athlete_id m =
    map (λ (e : Key × NamedTitle). e.1)
      (select (λ (e : Key × NamedTitle). e.0.0 == athlete_id) m.named)

rows_of_lem :
    (athlete_id : ℕ) (named : List (Key × NamedTitle))
    → rows_of athlete_id named
      ≡ map
          (λ (e : Key × NamedTitle). e.1)
          (select (λ (e : Key × NamedTitle). e.0.0 == athlete_id) named)
unfolding rows_of
rows_of_lem athlete_id [] = refl
rows_of_lem athlete_id (((a, b), row) ∷ rest) = elim (Bool-cases (a == athlete_id)) [
  | inl e ↦ rw e (ap (λ rows. row ∷ rows) (rows_of_lem athlete_id rest))
  | inr e ↦ rw e (rows_of_lem athlete_id rest)
]

-- all that a limit leaves out is nothing, unless it is reached
drop-none : {A : Type 0} (n : ℕ) (xs : List A) → (length (take n xs) ≡ n) ⊎ (drop n xs ≡ [])
drop-none zero xs = inl refl
drop-none (suc n) [] = inr refl
drop-none (suc n) (x ∷ xs) = elim (drop-none n xs) [ inl e ↦ inl (omega arith) | inr e ↦ inr e ]

-- Asked for at most `limit` titles of an athlete, the history lists rows newest first, those of one
-- instant by their activity, the greatest first. Together with some rest they are a permutation of the
-- rows that the named log keeps under the athlete. They are `limit` rows and no row of the rest is
-- newer than one of them, or they are fewer and the rest is empty.
pub recent_titles_lem :
    (m : Memory) (athlete_id limit : ℕ)
    → AreOrdered IsNewer (recent_titles m athlete_id (pos limit))
      × (length (recent_titles m athlete_id (pos limit)) ≤ limit)
      × ((rest : List NamedTitle) × Perm
            (recent_titles m athlete_id (pos limit) ++ rest)
            (kept_under athlete_id m)
          × ((length (recent_titles m athlete_id (pos limit)) ≡ limit) ⊎ (rest ≡ []))
          × ((a b : NamedTitle)
              → In a (recent_titles m athlete_id (pos limit))
              → In b rest
              → IsNewer a b))
unfolding recent_titles
recent_titles_lem m athlete_id limit =
    let rows = sort_func by_newest (rows_of athlete_id m.named) in
    let whole = take-append-drop limit rows in
    let cut =
      IsSorted-append by_newest (take limit rows) (drop limit rows) (
        subst (IsSorted by_newest) (sym whole)
          (sort_func-IsSorted by_newest by_newest-IsOrder _)) in
    (
      IsSorted-AreOrdered by_newest IsNewer by_newest-IsNewer (take limit rows) cut.0,
      length-take-le limit rows,
      (
        drop limit rows,
        subst (λ l. Perm (take limit rows ++ drop limit rows) l) (rows_of_lem athlete_id m.named)
            (subst (λ l. Perm l (rows_of athlete_id m.named)) (sym whole)
              (sort_func-perm by_newest _)),
        drop-none limit rows,
        λ a b i j. by_newest-IsNewer a b (cut.1 a b i j),
      ),
    )

-- A title that is recorded is found under its athlete and activity with the text, source, language
-- and instant it was recorded with, and no other activity's row changes.
pub named_row-mark_named :
    (m : Memory) (n : Naming) (a b : ℕ)
    → named_row (mark_named m n) a b ≡ (
        if key_eq.beq (n.athlete_id, n.activity_id) (a, b)
        then some (row_of n)
        else named_row m a b)
unfolding named_row mark_named
named_row-mark_named m n a b = lookup-insert (n.athlete_id, n.activity_id) (a, b) (row_of n) m.named
