-- ===== src/Base/Result.antt =====
-- What a Go call does: it returns a value, returns an error (by its text), panics, or has not
-- returned within the rounds that the model gives its loops. A computation threads a state through.
use Prim.Native.Nat.{ℕ}
use mathlib.Core.List.{List}

pub data Res (A : Type 0) : Type 0 where
  ok : A → Res A
  err : List ℕ → Res A
  panicked : Res A
  pending : Res A

-- `S` is the state. An error keeps the changes made before it, as in Go.
abbrev pub M : Type 0 → Type 0 → Type 0
M S A = S → Res A × S

-- The pair `v, err := f()` where the caller looks at `err` itself.
pub data Try (A : Type 0) : Type 0 where
  value : A → Try A
  error : List ℕ → Try A

module _ {S A : Type 0} where
  unfoldable pub pure : A → M S A
  pure a s = (ok a, s)

  unfoldable pub fail : List ℕ → M S A
  fail e s = (err e, s)

  unfoldable pub panic : M S A
  panic s = (panicked, s)

  unfoldable pub exhausted : M S A
  exhausted s = (pending, s)

  abbrev pub caught : Res A × S → Res (Try A) × S
  caught (ok a, s) = (ok (value a), s)
  caught (err e, s) = (ok (error e), s)
  caught (panicked, s) = (panicked, s)
  caught (pending, s) = (pending, s)

  unfoldable pub attempt : M S A → M S (Try A)
  attempt m s = caught (m s)

  -- `if err != nil { return err }` on a value computed without the state.
  unfoldable pub returned : Try A → M S A
  returned (value a) s = (ok a, s)
  returned (error e) s = (err e, s)

module _ {S A B : Type 0} where
  -- The rest after a step, by the step's result.
  abbrev pub and_then : Res A × S → (A → M S B) → Res B × S
  and_then (ok a, s) f = f a s
  and_then (err e, s) f = (err e, s)
  and_then (panicked, s) f = (panicked, s)
  and_then (pending, s) f = (pending, s)

  infixl 5 ◌>>=◌ ◌>>◌
  unfoldable pub ◌>>=◌ : M S A → (A → M S B) → M S B
  unfolding pure fail panic exhausted attempt returned
  ◌>>=◌ m f s = and_then (m s) f

  abbrev pub ◌>>◌ : M S A → M S B → M S B
  m >> k = m >>= λ _. k

-- An outside operation: it always has an answer, and the state goes on.
module _ {S A : Type 0} where
  abbrev pub answer : Try A × S → Res A × S
  answer (value a, s) = (ok a, s)
  answer (error e, s) = (err e, s)

  unfoldable pub ask : (S → Try A × S) → M S A
  ask op s = answer (op s)
