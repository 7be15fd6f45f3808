-- ===== src/Daemon/Logic.antt =====
-- Invariants of the session under its methods: one rule for each way to build an action.
pub mod Total
use golang_debugger_skill.Base.{
  ◌≡◌, refl, Bool, true, false, Option, none, some, List, if◌then◌else◌, Text, M, Res, ok, err,
  panicked, pending, Try, value, error, pure, fail, panic, exhausted, attempt, returned, ◌>>=◌,
  caught, and_then,
}
use golang_debugger_skill.Dlv.Client.{Outside}
use golang_debugger_skill.Dlv.Proc.{Proc}
use golang_debugger_skill.Daemon.State.{
  Session, World, Io, settle, call, current, update, new_output, all_output,
}

-- However `m` ends, `Q` still holds of the session.
pub record Keeps (X : Outside) {A : Type 0} (Q : Session → Type 0) (m : Io X A) : Type 0 where
  pub at : (w : World X) → Q w.session → Q (m w).1.session

-- Where `m` returns a value, `Q` holds of the session.
pub record Gives (X : Outside) {A : Type 0} (Q : Session → Type 0) (m : Io X A) : Type 0 where
  pub at : (w : World X) (a : A) → (m w).0 ≡ ok a → Q (m w).1.session

module _ {X : Outside} {A : Type 0} (Q : Session → Type 0) where
  caught-keeps : (r : Res A × World X) → Q r.1.session → Q (caught r).1.session
  caught-keeps (ok a, w) h = h
  caught-keeps (err e, w) h = h
  caught-keeps (panicked, w) h = h
  caught-keeps (pending, w) h = h

module _ {X : Outside} {A : Type 0} {Q : Session → Type 0} where
  pub Keeps-pure : (a : A) → Keeps X Q (pure a)
  unfolding pure
  Keeps-pure a = record { at = λ w h. h }

  pub Keeps-fail : (e : Text) → Keeps X Q (fail {A = A} e)
  unfolding fail
  Keeps-fail e = record { at = λ w h. h }

  pub Keeps-panic : Keeps X Q (panic {A = A})
  unfolding panic
  Keeps-panic = record { at = λ w h. h }

  pub Keeps-exhausted : Keeps X Q (exhausted {A = A})
  unfolding exhausted
  Keeps-exhausted = record { at = λ w h. h }

  pub Keeps-returned : (r : Try A) → Keeps X Q (returned r)
  unfolding returned
  Keeps-returned (value a) = record { at = λ w h. h }
  Keeps-returned (error e) = record { at = λ w h. h }

  pub Keeps-if :
      (b : Bool) (m n : Io X A)
      → (b ≡ true → Keeps X Q m)
      → (b ≡ false → Keeps X Q n)
      → Keeps X Q (if b then m else n)
  Keeps-if true m n km kn = km refl
  Keeps-if false m n km kn = kn refl

  pub Keeps-attempt : (m : Io X A) → Keeps X Q m → Keeps X Q (attempt m)
  unfolding attempt
  Keeps-attempt m k = record { at = λ w h. caught-keeps Q (m w) (k.at w h) }

  pub Keeps-call : (op : X.State → Try A × X.State) → Keeps X Q (call X op)
  unfolding call
  Keeps-call op = record { at = λ w h. settled w h (op w.outside) }
    where
      settled :
          (w : World X) → Q w.session → (r : Try A × X.State) → Q (settle X w.session r).1.session
      settled w h (value a, o) = h
      settled w h (error e, o) = h

module _ {X : Outside} {A B : Type 0} (Q : Session → Type 0) where
  then-keeps :
      (r : Res A × World X) (f : A → Io X B)
      → Q r.1.session
      → ((a : A) → Keeps X Q (f a))
      → Q (and_then r f).1.session
  then-keeps (ok a, w) f h kf = (kf a).at w h
  then-keeps (err e, w) f h kf = h
  then-keeps (panicked, w) f h kf = h
  then-keeps (pending, w) f h kf = h

  then-gives :
      (r : Res A × World X) (f : A → Io X B)
      → ((a : A) → Gives X Q (f a))
      → (b : B) → (and_then r f).0 ≡ ok b
      → Q (and_then r f).1.session
  then-gives (ok a, w) f gf b e = (gf a).at w b e
  then-gives (err e', w) f gf b e = cc
  then-gives (panicked, w) f gf b e = cc
  then-gives (pending, w) f gf b e = cc

module _ {X : Outside} {A B : Type 0} {Q : Session → Type 0} where
  pub Keeps-bind :
      (m : Io X A) (f : A → Io X B)
      → Keeps X Q m
      → ((a : A) → Keeps X Q (f a))
      → Keeps X Q (m >>= f)
  unfolding ◌>>=◌
  Keeps-bind m f km kf = record { at = λ w h. then-keeps Q (m w) f (km.at w h) kf }

  -- After a step that leaves `Q`.
  pub Keeps-after :
      (m : Io X A) (f : A → Io X B) (w : World X)
      → Q (m w).1.session
      → ((a : A) → Keeps X Q (f a))
      → Q ((m >>= f) w).1.session
  unfolding ◌>>=◌
  Keeps-after m f w h kf = then-keeps Q (m w) f h kf

  pub Gives-bind : (m : Io X A) (f : A → Io X B) → ((a : A) → Gives X Q (f a)) → Gives X Q (m >>= f)
  unfolding ◌>>=◌
  Gives-bind m f gf = record { at = λ w b e. then-gives Q (m w) f gf b e }

module _ {X : Outside} {Q : Session → Type 0} where
  pub Keeps-current : Keeps X Q (current X)
  unfolding current
  Keeps-current = record { at = λ w h. h }

  pub Keeps-update :
      (f : Session → Session) → ((s : Session) → Q s → Q (f s)) → Keeps X Q (update X f)
  unfolding update
  Keeps-update f h = record { at = λ w q. h w.session q }

  pub Keeps-new_output :
      ((s : Session) (p : Proc) → Q s → Q (record s { proc = p })) → Keeps X Q (new_output X)
  unfolding new_output
  Keeps-new_output k = record { at = λ w h. k w.session _ h }

  pub Keeps-all_output :
      ((s : Session) (p : Proc) → Q s → Q (record s { proc = p })) → Keeps X Q (all_output X)
  unfolding all_output
  Keeps-all_output k = record { at = λ w h. k w.session _ h }

pub ruleset keeps_rules = (
  Keeps-pure, Keeps-fail, Keeps-panic, Keeps-exhausted, Keeps-returned, Keeps-if, Keeps-attempt,
  Keeps-call, Keeps-bind, Keeps-current,
)
