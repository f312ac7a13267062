-- ===== src/Prelude/Action.antt =====
-- Methods that act on a world and may fail: what was done before an error stays done, so the world
-- comes back beside the error. `Triple` is the Hoare triple over such methods.
use mathlib.Core.Path.{◌≡◌, refl}
use mathlib.Core.Bool.{Bool, true, false}
use titelheld.Prelude.Tests.{if◌then◌else◌}

-- The errors that the code tells apart: `errors.Is(err, strava.ErrNotFound)`, and the rest.
pub data Error : Type 0 where
  not_found dry_run failed : Error

pub data Result (A : Type 0) : Type 0 where
  ok : A → Result A
  err : Error → Result A

abbrev pub Action : Type 0 → Type 0 → Type 0
Action S A = S → Result A × S

module _ {S A B : Type 0} where
  -- what follows a finished call
  abbrev pub after : Result A × S → (A → Action S B) → Result B × S
  after (ok a, s) f = f a s
  after (err e, s) f = (err e, s)

  infixl 5 ◌>>=◌ ◌>>◌
  unfoldable pub ◌>>=◌ : Action S A → (A → Action S B) → Action S B
  ◌>>=◌ m f s = after (m s) f

  abbrev pub ◌>>◌ : Action S A → Action S B → Action S B
  m >> n = m >>= λ _. n

module _ {S A : Type 0} where
  unfoldable pub pure : A → Action S A
  pure a s = (ok a, s)

  unfoldable pub fail : Error → Action S A
  fail e s = (err e, s)

  -- the error as a value, as Go returns it
  unfoldable pub attempt : Action S A → Action S (Result A)
  attempt m s = let (r, t) = m s in (ok r, t)

  -- Q of the value and the world on success, R of the world on an error
  abbrev pub Post : (A → S → Type 0) → (S → Type 0) → Result A × S → Type 0
  Post Q R (ok a, s) = Q a s
  Post Q R (err e, s) = R s

-- Started where P holds, m ends in Q or fails in R.
pub record Triple {S A : Type 0} (P : S → Type 0) (m : Action S A) (Q : A → S → Type 0)
    (R : S → Type 0) : Type 0 where
  pub run : (s : S) → P s → Post Q R (m s)

-- an answer that is not known: what holds of each value, and what holds of an error
pub Post-of :
    {S A : Type 0} (Q : A → S → Type 0) (R : S → Type 0) (r : Result A) (s : S)
    → ((a : A) → r ≡ ok a → Q a s)
    → R s
    → Post Q R (r, s)
Post-of Q R (ok a) s h k = h a refl
Post-of Q R (err e) s h k = k

module _ {S A B : Type 0} {Q : B → S → Type 0} {R : S → Type 0} where
  Post-after :
      (M : A → S → Type 0) (x : Result A × S) (f : A → Action S B)
      → Post M R x
      → ((a : A) → Triple (M a) (f a) Q R)
      → Post Q R (after x f)
  Post-after M (ok a, s) f h k = (k a).run s h
  Post-after M (err e, s) f h k = h

module _ {S A B : Type 0} {P : S → Type 0} {Q : B → S → Type 0} {R : S → Type 0} where
  pub Triple-bind :
      (m : Action S A) (f : A → Action S B) (M : A → S → Type 0)
      → Triple P m M R
      → ((a : A) → Triple (M a) (f a) Q R)
      → Triple P (m >>= f) Q R
  unfolding ◌>>=◌
  Triple-bind m f M hm hf = record { run = λ s h. Post-after M (m s) f (hm.run s h) hf }

module _ {S A : Type 0} {P : S → Type 0} {Q : A → S → Type 0} {R : S → Type 0} where
  pub Triple-pure : (a : A) → ((s : S) → P s → Q a s) → Triple P (pure a) Q R
  unfolding pure
  Triple-pure a h = record { run = h }

  pub Triple-fail : (e : Error) → ((s : S) → P s → R s) → Triple P (fail {A = A} e) Q R
  unfolding fail
  Triple-fail e h = record { run = h }

  pub Triple-if :
      (b : Bool) (m n : Action S A)
      → (b ≡ true → Triple P m Q R)
      → (b ≡ false → Triple P n Q R)
      → Triple P (if b then m else n) Q R
  Triple-if true m n hm hn = hm refl
  Triple-if false m n hm hn = hn refl

  pub Triple-weaken :
      (P' : S → Type 0) (m : Action S A) → ((s : S) → P s → P' s) → Triple P' m Q R → Triple P m Q R
  Triple-weaken P' m w h = record { run = λ s p. h.run s (w s p) }

-- a weaker end
pub Triple-relax :
    {S A : Type 0} {P : S → Type 0} (Q Q' : A → S → Type 0) (R R' : S → Type 0) (m : Action S A)
    → ((a : A) (s : S) → Q a s → Q' a s)
    → ((s : S) → R s → R' s)
    → Triple P m Q R
    → Triple P m Q' R'
Triple-relax Q Q' R R' m hq hr h = record { run = λ s p. weaker (m s) (h.run s p) }
  where
    weaker : (x : Result _ × _) → Post Q R x → Post Q' R' x
    weaker (ok a, s) k = hq a s k
    weaker (err e, s) k = hr s k

-- An invariant kept on success and on failure.
abbrev pub Keeps : {S A : Type 0} → (S → Type 0) → Action S A → Type 0
Keeps I m = Triple I m (λ a s. I s) I
