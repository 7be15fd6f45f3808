-- ===== src/Daemon/Logic/Total.antt =====
-- Actions that come to an end: no loop of theirs runs out of fuel.
use golang_debugger_skill.Base.{
  ◌≢◌, refl, Bool, true, false, if◌then◌else◌, Text, Res, ok, err, panicked, pending, Try, value,
  error, pure, fail, panic, attempt, returned, ◌>>=◌, caught, and_then,
}
use golang_debugger_skill.Dlv.Client.{Outside}
use golang_debugger_skill.Daemon.State.{
  Session, World, Io, settle, call, current, update, new_output, all_output,
}

pub record Ends (X : Outside) {A : Type 0} (m : Io X A) : Type 0 where
  pub at : (w : World X) → (m w).0 ≢ pending

module _ (X : Outside) {A : Type 0} where
  settled-ends : (s : Session) (r : Try A × X.State) → (settle X s r).0 ≢ pending
  settled-ends s (value a, o) e = cc
  settled-ends s (error m, o) e = cc

module _ {X : Outside} {A : Type 0} where
  pub Ends-pure : (a : A) → Ends X (pure a)
  unfolding pure
  Ends-pure a = record { at = λ w h. cc }

  pub Ends-fail : (e : Text) → Ends X (fail {A = A} e)
  unfolding fail
  Ends-fail e = record { at = λ w h. cc }

  pub Ends-panic : Ends X (panic {A = A})
  unfolding panic
  Ends-panic = record { at = λ w h. cc }

  pub Ends-returned : (r : Try A) → Ends X (returned r)
  unfolding returned
  Ends-returned (value a) = record { at = λ w h. cc }
  Ends-returned (error e) = record { at = λ w h. cc }

  pub Ends-if : (b : Bool) (m n : Io X A) → Ends X m → Ends X n → Ends X (if b then m else n)
  Ends-if true m n em en = em
  Ends-if false m n em en = en

  caught-ends : (r : Res A × World X) → r.0 ≢ pending → (caught r).0 ≢ pending
  caught-ends (ok a, w) h e = cc
  caught-ends (err m, w) h e = cc
  caught-ends (panicked, w) h e = cc
  caught-ends (pending, w) h e = h refl

  pub Ends-attempt : (m : Io X A) → Ends X m → Ends X (attempt m)
  unfolding attempt
  Ends-attempt m k = record { at = λ w. caught-ends (m w) (k.at w) }

  pub Ends-call : (op : X.State → Try A × X.State) → Ends X (call X op)
  unfolding call
  Ends-call op = record { at = λ w. settled-ends X w.session (op w.outside) }

module _ {X : Outside} {A B : Type 0} where
  then-Ends :
      (r : Res A × World X) (f : A → Io X B)
      → r.0 ≢ pending
      → ((a : A) → Ends X (f a))
      → (and_then r f).0 ≢ pending
  then-Ends (ok a, w) f h ef e = (ef a).at w e
  then-Ends (err m, w) f h ef e = cc
  then-Ends (panicked, w) f h ef e = cc
  then-Ends (pending, w) f h ef e = h refl

  pub Ends-bind :
      (m : Io X A) (f : A → Io X B) → Ends X m → ((a : A) → Ends X (f a)) → Ends X (m >>= f)
  unfolding ◌>>=◌
  Ends-bind m f em ef = record { at = λ w. then-Ends (m w) f (em.at w) ef }

module _ {X : Outside} where
  pub Ends-current : Ends X (current X)
  unfolding current
  Ends-current = record { at = λ w h. cc }

  pub Ends-update : (f : Session → Session) → Ends X (update X f)
  unfolding update
  Ends-update f = record { at = λ w h. cc }

  pub Ends-new_output : Ends X (new_output X)
  unfolding new_output
  Ends-new_output = record { at = λ w h. cc }

  pub Ends-all_output : Ends X (all_output X)
  unfolding all_output
  Ends-all_output = record { at = λ w h. cc }

pub ruleset ends_rules = (
  Ends-pure, Ends-fail, Ends-panic, Ends-returned, Ends-if, Ends-attempt, Ends-call, Ends-bind,
  Ends-current, Ends-update, Ends-new_output, Ends-all_output,
)
