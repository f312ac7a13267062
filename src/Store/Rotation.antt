-- ===== src/Store/Rotation.antt =====
-- internal/store/memory.go: theorems on FranchisePosition and AdvanceFranchisePast.
use Prim.Native.Nat.{max}
use mathlib.Core.Option
use titelheld.Prelude.{
  ℕ, ◌+◌, ◌≡◌, none, some, Option, refl, sym, ap, ◌∙◌, arith, ltb, if◌then◌else◌,
}
use titelheld.Prelude.Int.{pos, negsuc}
use titelheld.Prelude.Text.{Text}
use titelheld.Prelude.Table.{lookup-insert, insert, beq_self}
use titelheld.Store.{franchise_key_eq, franchise_key_beq_iff, Memory, FranchiseKey}
use titelheld.Store.InMemory.{franchise_position, advance_franchise_past}

-- the state that an advance past an entry leaves
advanced : Memory → ℕ → Text → ℕ → Memory
advanced m a f index =
    if ltb (franchise_position m a f) (index + 1)
    then record m { franchises = insert (a, f) (index + 1) m.franchises }
    else m

advance_franchise_past-advanced :
    (m : Memory) (a : ℕ) (f : Text) (index : ℕ)
    → advance_franchise_past m a f (pos index)
      ≡ some (advanced m a f index, max (franchise_position m a f) (index + 1))
unfolding advance_franchise_past advanced
advance_franchise_past-advanced m a f index = ground arith

franchise_position-advanced :
    (m : Memory) (a : ℕ) (f : Text) (index b : ℕ) (g : Text)
    → franchise_position (advanced m a f index) b g ≡ (
        if franchise_key_eq.beq (a, f) (b, g)
        then max (franchise_position m a f) (index + 1)
        else franchise_position m b g)
unfolding advanced franchise_position
franchise_position-advanced m a f index b g = ground (
  arith,
  lookup-insert (a, f) (b, g) (index + 1) m.franchises,
  franchise_key_beq_iff (a, f) (b, g),
)

-- Advancing past an entry always succeeds; it reports the greater of the stored position and the
-- entry's index plus one, which is then the stored position, and no other athlete's or series'
-- position changes. A negative index is refused.
pub advance_franchise_past_lem :
    (m : Memory) (a : ℕ) (f : Text) (index : ℕ)
    → ((m' : Memory) × (advance_franchise_past m a f (pos index)
          ≡ some (m', max (franchise_position m a f) (index + 1)))
        × ((b : ℕ) (g : Text)
            → franchise_position m' b g ≡ (
                if franchise_key_eq.beq (a, f) (b, g)
                then max (franchise_position m a f) (index + 1)
                else franchise_position m b g)))
      × (advance_franchise_past m a f (negsuc index) ≡ none)
advance_franchise_past_lem m a f index = (
  (
    advanced m a f index,
    advance_franchise_past-advanced m a f index,
    franchise_position-advanced m a f index,
  ),
  unfold advance_franchise_past in refl,
)

advance_again : ℕ → Text → ℕ → Option (Memory × ℕ) → Option (Memory × ℕ)
advance_again a f j none = none
advance_again a f j (some (m, _)) = advance_franchise_past m a f (pos j)

-- two advances, the second from what the first left; none if one is refused
pub advance_twice : Memory → ℕ → Text → ℕ → ℕ → Option ℕ
unfolding advance_again
advance_twice m a f i j =
    Option.map (λ r. r.1) (advance_again a f j (advance_franchise_past m a f (pos i)))

advance_twice-max :
    (m : Memory) (a : ℕ) (f : Text) (i j : ℕ)
    → advance_twice m a f i j ≡ some (max (franchise_position m a f) (max (i + 1) (j + 1)))
unfolding advance_twice
advance_twice-max m a f i j = rw (advance_franchise_past-advanced m a f i) (
    rw (advance_franchise_past-advanced (advanced m a f i) a f j) (
      rw (franchise_position-advanced m a f i a f)
        (rw (beq_self {K = FranchiseKey} (a, f)) (ap some (omega arith)))))

-- Two rides that spend entries of one series leave the same position in either order, the greatest
-- of the old position and the two indices plus one: neither can rewind the other.
pub advance_twice_comm :
    (m : Memory) (a : ℕ) (f : Text) (i j : ℕ)
    → (advance_twice m a f i j ≡ some (max (franchise_position m a f) (max (i + 1) (j + 1))))
      × (advance_twice m a f j i ≡ advance_twice m a f i j)
advance_twice_comm m a f i j = (
  advance_twice-max m a f i j,
  advance_twice-max m a f j i ∙ ap some (omega arith) ∙ sym (advance_twice-max m a f i j),
)
