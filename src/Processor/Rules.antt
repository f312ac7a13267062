-- ===== src/Processor/Rules.antt =====
-- Proof rules for the pipeline of one activity. A property of the ledger (the named log, the queue
-- and the requests sent) is carried through each method, whatever the outside answers.
use mathlib.Core.Path.{subst₂}
use titelheld.Prelude.{ℕ, ◌≡◌, refl, sym, Option, none, some, List, ◌∷◌, arith}
use titelheld.Prelude.Int.{ℤ, pos, negsuc}
use titelheld.Prelude.Text.{Text}
use titelheld.Prelude.Table.{lookup, insert, delete}
use titelheld.Prelude.Action.{Action, ok, attempt, Post, Triple, Keeps, Post-of}
use titelheld.Store.{Time, Pending, Naming, NamedTitle, Key, key_eq, Memory}
use titelheld.Store.InMemory.{
  mark_named, named_row, remove, advance_franchise_past, naming_key, row_of, due,
}
use titelheld.Classifier.{Decision}
use titelheld.Processor.{Activity, Call, Fault, fine, before_change, after_change, World, Deps}
use titelheld.Processor.Outside.{
  ask_now, ask_cancelled, ask_activity, ask_llm_title, ask_put, store_named, store_due,
  store_mark_named, store_remove, store_advance, asked, read, change, advance_change,
}

pub record Ledger : Type 0 where
  pub named : List (Key × NamedTitle)
  pub pending : List (Key × Pending)
  pub calls : List Call

abbrev pub ledger : World → Ledger
ledger w = record { named = w.memory.named; pending = w.memory.pending; calls = w.calls }

-- a property of the ledger, as one of the world
abbrev pub On : (Ledger → Type 0) → World → Type 0
On I w = I (ledger w)

abbrev pub marked : Naming → Ledger → Ledger
marked n l = record l { named = insert (naming_key n) (row_of n) l.named }

abbrev pub removed : ℕ → ℕ → Ledger → Ledger
removed a b l = record l { pending = delete (a, b) l.pending }

abbrev pub sent : Call → Ledger → Ledger
sent c l = record l { calls = c ∷ l.calls }

pub Triple-attempt :
    {S A : Type 0} {P : S → Type 0} {Q : A → S → Type 0} {R R' : S → Type 0} (m : Action S A)
    → Triple P m Q R
    → Triple P (attempt m) (λ r s. Post Q R (r, s)) R'
unfolding attempt
Triple-attempt m h = record { run = λ s p. h.run s p }

-- Strava gave this activity for this identifier at some time
abbrev pub Answered : Deps → ℕ → Activity → Type 0
Answered d id a = (t : ℕ) × (d.get_activity t id ≡ ok a)

module _ (d : Deps) (I : Ledger → Type 0) where
  pub ask_now-Keeps : Keeps (On I) (ask_now d)
  unfolding ask_now
  ask_now-Keeps = record { run = λ w h. h }

  pub ask_cancelled-Keeps : Keeps (On I) (ask_cancelled d)
  unfolding ask_cancelled
  ask_cancelled-Keeps = record { run = λ w h. h }

  pub ask_llm_title-Keeps :
      (athlete : ℕ) (a : Activity) (decision : Decision)
      → Keeps (On I) (ask_llm_title d athlete a decision)
  unfolding ask_llm_title
  ask_llm_title-Keeps athlete a decision = record {
    run = λ w h.
        Post-of (λ t. On I) (On I) (d.llm_title w.tick athlete a decision) (asked w) (λ t e. h) h;
  }

  pub ask_activity-Triple :
      (id : ℕ) → Triple (On I) (ask_activity d id) (λ a w. On I w × Answered d id a) (On I)
  unfolding ask_activity
  ask_activity-Triple id = record {
    run = λ w h.
        Post-of (λ a w. On I w × Answered d id a) (On I) (d.get_activity w.tick id) (asked w)
          (λ a e. (h, (w.tick, e))) h;
  }

  read-Post :
      {A : Type 0} (Q : A → World → Type 0) (f : Fault) (a : A) (w : World)
      → Q a (asked w)
      → On I w
      → Post Q (On I) (read f a, asked w)
  read-Post Q fine a w q h = q
  read-Post Q before_change a w q h = h
  read-Post Q after_change a w q h = h

  pub store_named-Triple :
      (a b : ℕ)
      → Triple
          (On I)
          (store_named d a b)
          (λ r w. On I w × (lookup (a, b) w.memory.named ≡ r))
          (On I)
  unfolding store_named named_row
  store_named-Triple a b = record {
    run = λ w h.
        read-Post (λ r s. On I s × (lookup (a, b) s.memory.named ≡ r)) (d.store_fault w.tick)
          (lookup (a, b) w.memory.named) w (h, refl) h;
  }

  pub store_due-Triple :
      (t : Time) → Triple (On I) (store_due d t) (λ ps w. On I w × (due w.memory t ≡ ps)) (On I)
  unfolding store_due
  store_due-Triple t = record {
    run = λ w h.
        read-Post (λ ps s. On I s × (due s.memory t ≡ ps)) (d.store_fault w.tick) (due w.memory t) w
          (h, refl) h;
  }

module _ (d : Deps) (I J R : Ledger → Type 0) where
  change-Post :
      (f : Fault) (m : Memory) (w : World)
      → On J (record (asked w) { memory = m })
      → On R (record (asked w) { memory = m })
      → On R w
      → Post (λ x s. On J s) (On R) (change f m w)
  change-Post fine m w j r r' = j
  change-Post before_change m w j r r' = r'
  change-Post after_change m w j r r' = r

  pub store_mark_named-Triple :
      (n : Naming)
      → ((l : Ledger) → I l → J (marked n l))
      → ((l : Ledger) → J l → R l)
      → ((l : Ledger) → I l → R l)
      → Triple (On I) (store_mark_named d n) (λ x. On J) (On R)
  unfolding store_mark_named mark_named
  store_mark_named-Triple n ij jr ir = record {
    run = λ w h.
        change-Post (d.store_fault w.tick) (mark_named w.memory n) w (ij (ledger w) h)
          (jr _ (ij (ledger w) h)) (ir (ledger w) h);
  }

  pub store_remove-Triple :
      (a b : ℕ)
      → ((l : Ledger) → I l → J (removed a b l))
      → ((l : Ledger) → J l → R l)
      → ((l : Ledger) → I l → R l)
      → Triple (On I) (store_remove d a b) (λ x. On J) (On R)
  unfolding store_remove remove
  store_remove-Triple a b ij jr ir = record {
    run = λ w h.
        change-Post (d.store_fault w.tick) (remove w.memory a b) w (ij (ledger w) h)
          (jr _ (ij (ledger w) h)) (ir (ledger w) h);
  }

  pub ask_put-Triple :
      (c : Call)
      → ((l : Ledger) → I l → J (sent c l))
      → ((l : Ledger) → J l → R l)
      → Triple (On I) (ask_put d c) (λ x. On J) (On R)
  unfolding ask_put
  ask_put-Triple c ij jr = record {
    run = λ w h.
        Post-of (λ x. On J) (On R) (d.put w.tick c) (record (asked w) { calls = c ∷ w.calls })
          (λ x e. ij (ledger w) h) (jr _ (ij (ledger w) h));
  }

advance_franchise_past-ledger :
    (m : Memory) (a : ℕ) (f : Text) (i : ℤ) (m' : Memory) (n : ℕ)
    → advance_franchise_past m a f i ≡ some (m', n)
    → (m'.named ≡ m.named) × (m'.pending ≡ m.pending)
unfolding advance_franchise_past
advance_franchise_past-ledger m a f (pos k) m' n e = ground arith
advance_franchise_past-ledger m a f (negsuc k) m' n e = absurd (cc)

-- the position of a series is no part of the ledger
module _ (d : Deps) (I : Ledger → Type 0) where
  advance-Post :
      (f : Fault) (w : World) (o : Option (Memory × ℕ))
      → ((m : Memory) (n : ℕ) → o ≡ some (m, n) → On I (record (asked w) { memory = m }))
      → On I w
      → Post (λ x s. On I s) (On I) (advance_change f w o)
  advance-Post f w none k h = h
  advance-Post f w (some (m, n)) k h = change-Post d I I I f m w (k m n refl) (k m n refl) h

  pub store_advance-Keeps : (a : ℕ) (f : Text) (i : ℤ) → Keeps (On I) (store_advance d a f i)
  unfolding store_advance
  store_advance-Keeps a f i = record {
    run = λ w h.
        advance-Post (d.store_fault w.tick) w (advance_franchise_past w.memory a f i)
          (λ m n e.
            let same = advance_franchise_past-ledger w.memory a f i m n e in
            subst₂ (λ x y. I (record { named = x; pending = y; calls = w.calls })) (sym same.0)
              (sym same.1) h)
          h;
  }
