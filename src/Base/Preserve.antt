-- ===== src/Base/Preserve.antt =====
-- Invariants of a state under actions: one rule for each way to build an action.
use mathlib.Core.Path.{◌≡◌, refl}
use mathlib.Core.Bool.{Bool, true, false}
use mathlib.Core.List.{List}
use Prim.Native.Nat.{ℕ}
use golang_debugger_skill.Base.Tests.{if◌then◌else◌}
use golang_debugger_skill.Base.Result.{
  Res, ok, err, panicked, pending, M, Try, value, error, pure, fail, exhausted, caught, attempt,
  returned, and_then, ◌>>=◌, answer, ask,
}

-- However `m` ends, `Q` still holds.
pub record Preserves {S A : Type 0} (Q : S → Type 0) (m : M S A) : Type 0 where
  pub at : (s : S) → Q s → Q (m s).1

module _ {S A : Type 0} (Q : S → Type 0) where
  caught-Preserves : (r : Res A × S) → Q r.1 → Q (caught r).1
  caught-Preserves (ok a, s) h = h
  caught-Preserves (err e, s) h = h
  caught-Preserves (panicked, s) h = h
  caught-Preserves (pending, s) h = h

  answer-Preserves : (r : Try A × S) → Q r.1 → Q (answer r).1
  answer-Preserves (value a, s) h = h
  answer-Preserves (error e, s) h = h

module _ {S A : Type 0} {Q : S → Type 0} where
  pub Preserves-pure : (a : A) → Preserves Q (pure a)
  unfolding pure
  Preserves-pure a = record { at = λ s h. h }

  pub Preserves-fail : (e : List ℕ) → Preserves Q (fail {A = A} e)
  unfolding fail
  Preserves-fail e = record { at = λ s h. h }

  pub Preserves-exhausted : Preserves Q (exhausted {A = A})
  unfolding exhausted
  Preserves-exhausted = record { at = λ s h. h }

  pub Preserves-returned : (r : Try A) → Preserves Q (returned r)
  unfolding returned
  Preserves-returned (value a) = record { at = λ s h. h }
  Preserves-returned (error e) = record { at = λ s h. h }

  pub Preserves-attempt : (m : M S A) → Preserves Q m → Preserves Q (attempt m)
  unfolding attempt
  Preserves-attempt m k = record { at = λ s h. caught-Preserves Q (m s) (k.at s h) }

  pub Preserves-ask : (op : S → Try A × S) → ((s : S) → Q s → Q (op s).1) → Preserves Q (ask op)
  unfolding ask
  Preserves-ask op k = record { at = λ s h. answer-Preserves Q (op s) (k s h) }

  pub Preserves-if :
      (b : Bool) (m n : M S A)
      → (b ≡ true → Preserves Q m)
      → (b ≡ false → Preserves Q n)
      → Preserves Q (if b then m else n)
  Preserves-if true m n km kn = km refl
  Preserves-if false m n km kn = kn refl

module _ {S A B : Type 0} (Q : S → Type 0) where
  then-Preserves :
      (r : Res A × S) (f : A → M S B) → Q r.1 → ((a : A) → Preserves Q (f a)) → Q (and_then r f).1
  then-Preserves (ok a, s) f h kf = (kf a).at s h
  then-Preserves (err e, s) f h kf = h
  then-Preserves (panicked, s) f h kf = h
  then-Preserves (pending, s) f h kf = h

module _ {S A B : Type 0} {Q : S → Type 0} where
  pub Preserves-bind :
      (m : M S A) (f : A → M S B)
      → Preserves Q m
      → ((a : A) → Preserves Q (f a))
      → Preserves Q (m >>= f)
  unfolding ◌>>=◌
  Preserves-bind m f km kf = record { at = λ s h. then-Preserves Q (m s) f (km.at s h) kf }

pub ruleset preserves_rules = (
  Preserves-pure, Preserves-fail, Preserves-exhausted, Preserves-returned, Preserves-attempt,
  Preserves-if, Preserves-bind,
)
