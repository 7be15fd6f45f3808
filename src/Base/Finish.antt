-- ===== src/Base/Finish.antt =====
-- Actions that come to an end in every state, with a value or an error: one rule for each way to build an action.
use mathlib.Core.Bool.{Bool, true, false}
use mathlib.Core.List.{List}
use Prim.Native.Nat.{ℕ}
use golang_debugger_skill.Base.Tests.{if◌then◌else◌}
use golang_debugger_skill.Base.Result.{
  Res, ok, err, panicked, pending, M, Try, value, error, pure, fail, caught, attempt, returned,
  and_then, ◌>>=◌, answer, ask,
}

-- A value or an error: no panic, and no end of the rounds.
abbrev pub IsReturn : {A : Type 0} → Res A → Type 0
IsReturn (ok a) = Unit
IsReturn (err e) = Unit
IsReturn panicked = ⊥
IsReturn pending = ⊥

pub record Finishes {S A : Type 0} (m : M S A) : Type 0 where
  pub at : (s : S) → IsReturn (m s).0

module _ {S A : Type 0} where
  caught-IsReturn : (r : Res A × S) → IsReturn r.0 → IsReturn (caught r).0
  caught-IsReturn (ok a, s) h = tt
  caught-IsReturn (err e, s) h = tt
  caught-IsReturn (panicked, s) h = h
  caught-IsReturn (pending, s) h = h

  answer-IsReturn : (r : Try A × S) → IsReturn (answer r).0
  answer-IsReturn (value a, s) = tt
  answer-IsReturn (error e, s) = tt

module _ {S A : Type 0} where
  pub Finishes-pure : (a : A) → Finishes {S = S} (pure a)
  unfolding pure
  Finishes-pure a = record { at = λ s. tt }

  pub Finishes-fail : (e : List ℕ) → Finishes {S = S} (fail {A = A} e)
  unfolding fail
  Finishes-fail e = record { at = λ s. tt }

  pub Finishes-returned : (r : Try A) → Finishes {S = S} (returned r)
  unfolding returned
  Finishes-returned (value a) = record { at = λ s. tt }
  Finishes-returned (error e) = record { at = λ s. tt }

  pub Finishes-attempt : (m : M S A) → Finishes m → Finishes (attempt m)
  unfolding attempt
  Finishes-attempt m k = record { at = λ s. caught-IsReturn (m s) (k.at s) }

  pub Finishes-ask : (op : S → Try A × S) → Finishes (ask op)
  unfolding ask
  Finishes-ask op = record { at = λ s. answer-IsReturn (op s) }

  pub Finishes-if :
      (b : Bool) (m n : M S A) → Finishes m → Finishes n → Finishes (if b then m else n)
  Finishes-if true m n km kn = km
  Finishes-if false m n km kn = kn

module _ {S A B : Type 0} where
  then-IsReturn :
      (r : Res A × S) (f : A → M S B)
      → IsReturn r.0
      → ((a : A) → Finishes (f a))
      → IsReturn (and_then r f).0
  then-IsReturn (ok a, s) f h kf = (kf a).at s
  then-IsReturn (err e, s) f h kf = tt
  then-IsReturn (panicked, s) f h kf = h
  then-IsReturn (pending, s) f h kf = h

  pub Finishes-bind :
      (m : M S A) (f : A → M S B) → Finishes m → ((a : A) → Finishes (f a)) → Finishes (m >>= f)
  unfolding ◌>>=◌
  Finishes-bind m f km kf = record { at = λ s. then-IsReturn (m s) f (km.at s) kf }

pub ruleset finishes_rules = (
  Finishes-pure, Finishes-fail, Finishes-returned, Finishes-attempt, Finishes-ask, Finishes-if,
  Finishes-bind,
)
