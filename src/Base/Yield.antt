-- ===== src/Base/Yield.antt =====
-- Actions that return a value in every state, and what holds of it.
use mathlib.Core.Bool.{Bool, true, false}
use golang_debugger_skill.Base.Tests.{if◌then◌else◌}
use golang_debugger_skill.Base.Result.{
  Res, ok, err, panicked, pending, M, pure, caught, attempt, and_then, ◌>>=◌,
}
use golang_debugger_skill.Base.Finish.{Finishes, IsReturn}

abbrev pub Holds : {A : Type 0} → (A → Type 0) → Res A → Type 0
Holds P (ok a) = P a
Holds P _ = ⊥

pub record Yields {S A : Type 0} (P : A → Type 0) (m : M S A) : Type 0 where
  pub at : (s : S) → Holds P (m s).0

module _ {S A : Type 0} {P : A → Type 0} where
  pub Yields-pure : (a : A) → P a → Yields {S = S} P (pure a)
  unfolding pure
  Yields-pure a p = record { at = λ s. p }

  pub Yields-if : (b : Bool) (m n : M S A) → Yields P m → Yields P n → Yields P (if b then m else n)
  Yields-if true m n km kn = km
  Yields-if false m n km kn = kn

module _ {S A : Type 0} where
  caught-Holds : (r : Res A × S) → IsReturn r.0 → Holds (λ _. Unit {0}) (caught r).0
  caught-Holds (ok a, s) h = tt
  caught-Holds (err e, s) h = tt
  caught-Holds (panicked, s) h = h
  caught-Holds (pending, s) h = h

  -- What comes to an end with a value or an error has a result to look at.
  pub Yields-attempt : (m : M S A) → Finishes m → Yields (λ _. Unit {0}) (attempt m)
  unfolding attempt
  Yields-attempt m k = record { at = λ s. caught-Holds (m s) (k.at s) }

module _ {S A B : Type 0} {P : A → Type 0} {Q : B → Type 0} where
  then-Holds :
      (r : Res A × S) (f : A → M S B)
      → Holds P r.0
      → ((a : A) → P a → Yields Q (f a))
      → Holds Q (and_then r f).0
  then-Holds (ok a, s) f p k = (k a p).at s
  then-Holds (err e, s) f p k = p
  then-Holds (panicked, s) f p k = p
  then-Holds (pending, s) f p k = p

  pub Yields-bind :
      (m : M S A) (f : A → M S B)
      → Yields P m
      → ((a : A) → P a → Yields Q (f a))
      → Yields Q (m >>= f)
  unfolding ◌>>=◌
  Yields-bind m f km kf = record { at = λ s. then-Holds (m s) f (km.at s) kf }
