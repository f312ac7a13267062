-- ===== src/Store/InMemory.antt =====
-- internal/store/memory.go: the operations of the in-memory store. The locks only make each
-- operation one step, so an operation is a function of the state.
use Prim.Native.Nat.{compare, Ordering}
use titelheld.Prelude.{
  ℕ, ◌+◌, Bool, true, false, Option, none, some, List, [], ◌∷◌, ltb, ◌==◌, if◌then◌else◌, length,
  take, select, map,
}
use titelheld.Prelude.Int.{ℤ, pos, negsuc}
use titelheld.Prelude.Sort.{Comparison, sort_func}
use titelheld.Prelude.Text.{Text, text_key}
use titelheld.Prelude.Table.{lookup, insert, delete, values}
use titelheld.Store.{
  Time, Pending, due_at, Naming, NamedTitle, Token, Place, Franchise, AthleteConfig, Key, key_eq,
  franchise_key_eq, id_eq, Memory,
}

-- Load: `none` is ErrTokenNotFound
unfoldable pub load : Memory → ℕ → Option Token
load m athlete_id = lookup athlete_id m.tokens

unfoldable pub save : Memory → Token → Memory
save m token = record m { tokens = insert token.athlete_id token m.tokens }

only : List (ℕ × Token) → Option Token
only ((id, token) ∷ []) = some token
only _ = none

-- AnyToken: the one token, if there is exactly one
unfoldable pub any_token : Memory → Option Token
unfolding only
any_token m = only m.tokens

abbrev pub pending_key : Pending → Key
pending_key p = (p.athlete_id, p.activity_id)

-- Enqueue: false where an entry already existed, which stays as it is
unfoldable pub enqueue : Memory → Pending → Memory × Bool
enqueue m p = elim (lookup (pending_key p) m.pending) [
  | some _ ↦ (m, false)
  | none ↦ (record m { pending = insert (pending_key p) p m.pending }, true)
]

-- byDeadline: cmp.Compare on the activity breaks a tie of the deadlines
abbrev pub by_deadline : Comparison Pending
by_deadline a b =
    if a.process_after == b.process_after
    then compare a.activity_id b.activity_id
    else if ltb a.process_after b.process_after
    then Ordering.lt
    else Ordering.gt

unfoldable pub sort_pending : List Pending → List Pending
sort_pending = sort_func by_deadline

unfoldable pub due : Memory → Time → List Pending
due m now = sort_pending (select (λ p. due_at p now) (values m.pending))

unfoldable pub remove : Memory → ℕ → ℕ → Memory
remove m athlete_id activity_id = record m { pending = delete (athlete_id, activity_id) m.pending }

unfoldable pub len : Memory → ℕ
len m = length m.pending

abbrev pub naming_key : Naming → Key
naming_key n = (n.athlete_id, n.activity_id)

abbrev pub row_of : Naming → NamedTitle
row_of n = record {
  activity_id = n.activity_id;
  title = n.title;
  language = n.language;
  source = n.source;
  named_at = n.at;
}

unfoldable pub mark_named : Memory → Naming → Memory
mark_named m n = record m { named = insert (naming_key n) (row_of n) m.named }

-- Named
unfoldable pub named_row : Memory → ℕ → ℕ → Option NamedTitle
named_row m athlete_id activity_id = lookup (athlete_id, activity_id) m.named

-- the athlete's rows
unfoldable pub rows_of : ℕ → List (Key × NamedTitle) → List NamedTitle
rows_of athlete_id [] = []
rows_of athlete_id (((a, b), row) ∷ rest) =
    if a == athlete_id then row ∷ rows_of athlete_id rest else rows_of athlete_id rest

-- newest first, a tie broken by the activity, greatest first
abbrev pub by_newest : Comparison NamedTitle
by_newest a b =
    if b.named_at == a.named_at
    then compare b.activity_id a.activity_id
    else if ltb b.named_at a.named_at
    then Ordering.lt
    else Ordering.gt

unfoldable pub recent_titles : Memory → ℕ → ℤ → List NamedTitle
recent_titles m athlete_id (negsuc _) = []
recent_titles m athlete_id (pos limit) =
    take limit (sort_func by_newest (rows_of athlete_id m.named))

-- Place, and its flag
unfoldable pub place : Memory → Text → Option Place
place m key = lookup key m.places

unfoldable pub save_place : Memory → Text → Place → Memory
save_place m key p = record m { places = insert key p m.places }

abbrev pub position_or_zero : Option ℕ → ℕ
position_or_zero none = 0
position_or_zero (some n) = n

unfoldable pub franchise_position : Memory → ℕ → Text → ℕ
franchise_position m athlete_id franchise =
    position_or_zero (lookup (athlete_id, franchise) m.franchises)

-- AdvanceFranchisePast: `none` is the error on a negative index
unfoldable pub advance_franchise_past : Memory → ℕ → Text → ℤ → Option (Memory × ℕ)
unfolding franchise_position
advance_franchise_past m athlete_id franchise (negsuc _) = none
advance_franchise_past m athlete_id franchise (pos index) =
    let next = index + 1 in
    let stored = franchise_position m athlete_id franchise in
    some (
      if ltb stored next
      then (record m { franchises = insert (athlete_id, franchise) next m.franchises }, next)
      else (m, stored))

clone_franchise : Franchise → Franchise
clone_franchise f = record {
  name = f.name;
  sport_types = f.sport_types;
  gear_name = f.gear_name;
  titles = f.titles;
  reserved = f.reserved;
}

-- cloneConfig: values are not shared in the model, so a copy is the value
unfoldable pub clone_config : AthleteConfig → AthleteConfig
unfolding clone_franchise
clone_config c = record { franchises = map clone_franchise c.franchises }

unfoldable pub athlete_config : Memory → ℕ → Option AthleteConfig
athlete_config m athlete_id = elim (lookup athlete_id m.configs) [
  | none ↦ none
  | some c ↦ some (clone_config c)
]

unfoldable pub save_athlete_config : Memory → ℕ → AthleteConfig → Memory
save_athlete_config m athlete_id c = record m {
  configs = insert athlete_id (clone_config c) m.configs;
}
