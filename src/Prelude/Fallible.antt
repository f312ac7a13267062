-- ===== src/Prelude/Fallible.antt =====
-- A function that returns a value or an error of its own kind, as Go's pair of a value and an error.

pub data Fallible (E A : Type 0) : Type 0 where
  returned : A → Fallible E A
  refused : E → Fallible E A

module _ {E : Type 0} where
  infixl 5 ◌>>=◌
  abbrev pub ◌>>=◌ : {A B : Type 0} → Fallible E A → (A → Fallible E B) → Fallible E B
  returned a >>= f = f a
  refused e >>= f = refused e

  -- P of the value, Q of the error
  abbrev pub Outcome : {A : Type 0} → (A → Type 0) → (E → Type 0) → Fallible E A → Type 0
  Outcome P Q (returned a) = P a
  Outcome P Q (refused e) = Q e

pub Outcome-bind :
    {E A B : Type 0} (P : A → Type 0) (Q : E → Type 0) (R : B → Type 0) (x : Fallible E A)
    (f : A → Fallible E B)
    → Outcome P Q x
    → ((a : A) → P a → Outcome R Q (f a))
    → Outcome R Q (x >>= f)
Outcome-bind P Q R (returned a) f h k = k a h
Outcome-bind P Q R (refused e) f h k = h

pub Outcome-relax :
    {E A : Type 0} (P : A → Type 0) (Q Q' : E → Type 0) (x : Fallible E A)
    → ((e : E) → Q e → Q' e)
    → Outcome P Q x
    → Outcome P Q' x
Outcome-relax P Q Q' (returned a) hq h = h
Outcome-relax P Q Q' (refused e) hq h = hq e h
