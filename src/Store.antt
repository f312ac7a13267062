-- ===== src/Store.antt =====
-- internal/store/store.go and internal/store/memory.go: the persistent state and its operations.
-- An instant is a number of nanoseconds since the zero time of package time, a duration a number of
-- nanoseconds, an identifier a non-negative int64.
pub mod InMemory
pub mod Queue
pub mod Titles
pub mod Rotation
use titelheld.Prelude.{
  ℕ, ◌+◌, ◌*◌, ◌<◌, ◌≡◌, ◌↔◌, refl, Bool, true, false, not, ◌&&◌, Option, none, some, List, [], ◌∷◌,
  arith, ltb, leb, ◌==◌, ==_iff, and_split, if◌then◌else◌, length, take, select, map,
}
use titelheld.Prelude.Text.{Text, text_eq, text_eq_iff, text_key}
use titelheld.Prelude.Table.{Eq, lookup, insert, delete, values}

abbrev pub Time : Type 0
Time = ℕ

abbrev pub Duration : Type 0
Duration = ℕ

abbrev pub second : Duration
second = 1000000000

-- The aspect_type strings that the code tells apart.
pub data Aspect : Type 0 where
  create update : Aspect
  other : Text → Aspect

pub record Pending : Type 0 where
  pub athlete_id : ℕ
  pub activity_id : ℕ
  pub aspect : Aspect
  pub enqueued_at : Time
  pub process_after : Time

-- Pending.Due
unfoldable pub due_at : Pending → Time → Bool
due_at p now = not (ltb now p.process_after)

-- The source strings that the code tells apart; a stored row may hold any other text.
pub data Source : Type 0 where
  service template imported human : Source
  other : Text → Source

pub data Language : Type 0 where
  german english : Language
  other : Text → Language

pub record Naming : Type 0 where
  pub athlete_id : ℕ
  pub activity_id : ℕ
  pub title : Text
  pub language : Language
  pub source : Source
  pub at : Time

pub record NamedTitle : Type 0 where
  pub activity_id : ℕ
  pub title : Text
  pub language : Language
  pub source : Source
  pub named_at : Time

pub record Token : Type 0 where
  pub athlete_id : ℕ
  pub access_token : Text
  pub refresh_token : Text
  pub expires_at : Time
  pub scopes : List Text

pub record Place : Type 0 where
  pub name : Text
  pub kind : Text
  pub region : Text
  pub country : Text

pub record Franchise : Type 0 where
  pub name : Text
  pub sport_types : List Text
  pub gear_name : Text
  pub titles : List Text
  pub reserved : List Text

pub record AthleteConfig : Type 0 where
  pub franchises : List Franchise

-- key and franchiseKey
abbrev pub Key : Type 0
Key = ℕ × ℕ

abbrev pub FranchiseKey : Type 0
FranchiseKey = ℕ × Text

abbrev key_beq : Key → Key → Bool
key_beq (a, b) (c, d) = a == c && b == d

pub key_beq_iff : (j k : Key) → (key_beq j k ≡ true) ↔ (j ≡ k)
key_beq_iff (a, b) (c, d) = ground arith

abbrev franchise_key_beq : FranchiseKey → FranchiseKey → Bool
franchise_key_beq (a, s) (b, t) = a == b && text_eq s t

pub franchise_key_beq_iff : (j k : FranchiseKey) → (franchise_key_beq j k ≡ true) ↔ (j ≡ k)
franchise_key_beq_iff (a, s) (b, t) = ground (arith, text_eq_iff s t)

instance abbrev pub key_eq : Eq Key
key_eq = record { beq = key_beq; beq_iff = key_beq_iff }

instance abbrev pub franchise_key_eq : Eq FranchiseKey
franchise_key_eq = record { beq = franchise_key_beq; beq_iff = franchise_key_beq_iff }

instance abbrev pub id_eq : Eq ℕ
id_eq = record { beq = ◌==◌; beq_iff = ==_iff }

pub record Memory : Type 0 where
  pub tokens : List (ℕ × Token)
  pub pending : List (Key × Pending)
  pub named : List (Key × NamedTitle)
  pub places : List (Text × Place)
  pub franchises : List (FranchiseKey × ℕ)
  pub configs : List (ℕ × AthleteConfig)

abbrev pub new_memory : Memory
new_memory = record {
  tokens = [];
  pending = [];
  named = [];
  places = [];
  franchises = [];
  configs = [];
}
