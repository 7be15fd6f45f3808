-- ===== src/Daemon/Trace/Bounds.antt =====
-- How many hits a trace counts.
use golang_debugger_skill.Base.{
  pos, negsuc, ltb_ℤ, index, ◌<◌, ◌≢◌, refl, [], ◌∷◌, attempt, ◌≡◌, ℕ, zero, suc, ◌+◌, ◌≤◌, Bool,
  true, false, Option, none, some, List, Text, ℤ, arith, Res, ok, err, panicked, pending, Try,
  value, error, pure, fail, ◌>>=◌, and_then, if◌then◌else◌,
}
use golang_debugger_skill.Dlv.Types.{DebuggerState, Thread, continue}
use golang_debugger_skill.Dlv.Client.{Outside}
use golang_debugger_skill.Daemon.State.{World, Io}
use golang_debugger_skill.Daemon.Session.Resume.{has_exited, run_command, reply_result}
use golang_debugger_skill.Daemon.Logic.Total.{
  Ends, Ends-bind, Ends-attempt, Ends-returned, ends_rules,
}
use golang_debugger_skill.Daemon.Session.Ends.{report_never_hit-Ends}
use golang_debugger_skill.Daemon.Trace.{
  Traced, raised, finished, is_panic, hit, at_thread, after_round, trace_loop, captured,
  trace_backtrace, trace_report, trace_run,
}

-- The action comes to an end, and what it returns satisfies `P`.
abbrev pub EndsIn : {A : Type 0} → (A → Type 0) → Res A → Type 0
EndsIn P (ok a) = P a
EndsIn P pending = ⊥
EndsIn P _ = Unit {0}

record Yields (X : Outside) {A : Type 0} (P : A → Type 0) (m : Io X A) : Type 0 where
  at : (w : World X) → EndsIn P (m w).0

module _ {X : Outside} {A : Type 0} {P : A → Type 0} where
  Yields-pure : (a : A) → P a → Yields X P (pure a)
  unfolding pure
  Yields-pure a p = record { at = λ w. p }

  Yields-fail : (e : Text) → Yields X P (fail e)
  unfolding fail
  Yields-fail e = record { at = λ w. tt }

  Yields-if :
      (b : Bool) (m n : Io X A)
      → (b ≡ true → Yields X P m)
      → (b ≡ false → Yields X P n)
      → Yields X P (if b then m else n)
  Yields-if true m n ym yn = ym refl
  Yields-if false m n ym yn = yn refl

  Yields-bind :
      {B : Type 0} (m : Io X B) (f : B → Io X A)
      → Ends X m
      → ((b : B) → Yields X P (f b))
      → Yields X P (m >>= f)
  unfolding ◌>>=◌
  Yields-bind {B = B} m f em yf = record { at = λ w. by_step (m w) (em.at w) }
    where
      by_step : (r : Res B × World X) → r.0 ≢ pending → EndsIn P (and_then r f).0
      by_step (ok b, w) h = (yf b).at w
      by_step (err e, w) h = tt
      by_step (panicked, w) h = tt
      by_step (pending, w) h = absurd (h refl)

-- The number in the report.
abbrev pub hits_of : Traced → ℕ
hits_of (raised hits rows) = hits
hits_of (finished hits rows) = hits

-- The guard of the loop, as an inequality
in_range : (hits : ℕ) (max : ℤ) → ltb_ℤ (pos hits) max ≡ true → hits < index max
in_range hits (pos n) h = ground arith
in_range hits (negsuc n) h = cc

module _ (X : Outside) (captures : List Text) (depth max : ℤ) where
  -- At most `max` hits
  abbrev Few : Traced → Type 0
  Few t = hits_of t ≤ index max

  captured-Ends : (es : List Text) → Ends X (captured X es)
  unfolding captured
  captured-Ends [] = search ends_rules
  captured-Ends (e ∷ es) =
      Ends-bind _ _ (search ends_rules) (λ v. Ends-bind _ _ (captured-Ends es) (search ends_rules))

  trace_backtrace-Ends : Ends X (trace_backtrace X depth)
  unfolding trace_backtrace
  trace_backtrace-Ends = search ends_rules depth 7

  run_command-Ends : Ends X (attempt (run_command X continue))
  unfolding run_command
  run_command-Ends = Ends-attempt _ (record {
    at = λ w.
        (Ends-returned (reply_result (X.resume_command continue w.outside).0)).at
          (record { session = w.session; outside = (X.resume_command continue w.outside).1 });
  })

  module _ (next : ℕ → Text → Io X Traced) (hits : ℕ) (rows : Text) where
    at_thread-Yields :
        (halted : Bool) (th : Option Thread)
        → hits < index max
        → ((rows : Text) → Yields X Few (next (suc hits) rows))
        → Yields X Few (at_thread X next captures depth hits rows halted th)
    unfolding at_thread hit
    at_thread-Yields true th h y = Yields-pure _ (omega arith)
    at_thread-Yields false none h y = Yields-pure _ (omega arith)
    at_thread-Yields false (some th) h y =
        Yields-if (is_panic th.breakpoint) _ _
          (λ e. Yields-bind _ _ (search ends_rules) (λ u. Yields-pure _ (omega arith)))
          (λ e.
            Yields-bind _ _ (captured-Ends captures)
              (λ values. Yields-bind _ _ trace_backtrace-Ends (λ callers. y _)))

    after_round-Yields :
        (r : Try (DebuggerState × Bool))
        → hits < index max
        → ((rows : Text) → Yields X Few (next (suc hits) rows))
        → Yields X Few (after_round X next captures depth hits rows r)
    unfolding after_round
    after_round-Yields (error e) h y =
        Yields-if (has_exited e) _ _ (λ b. Yields-pure _ (omega arith)) (λ b. Yields-fail e)
    after_round-Yields (value (state, halted)) h y =
        Yields-if state.exited _ _ (λ b. Yields-pure _ (omega arith))
          (λ b. at_thread-Yields halted state.current_thread h y)

  loop-Yields :
      (fuel hits : ℕ) (rows : Text)
      → hits ≤ index max
      → index max ≤ hits + fuel
      → Yields X Few (trace_loop X captures depth max fuel hits rows)
  unfolding trace_loop
  loop-Yields zero hits rows low enough =
      Yields-if (ltb_ℤ (pos hits) max) _ _ (λ b. absurd (omega (arith, in_range hits max b)))
        (λ b. Yields-pure _ low)
  loop-Yields (suc fuel) hits rows low enough =
      Yields-if (ltb_ℤ (pos hits) max) _ _
        (λ b. Yields-bind _ _ run_command-Ends (λ r.
          after_round-Yields (trace_loop X captures depth max fuel) hits rows r
            (in_range hits max b)
            (λ more. loop-Yields fuel (suc hits) more (in_range hits max b) (omega arith))))
        (λ b. Yields-pure _ low)

  EndsIn-Ends : {P : Traced → Type 0} (m : Io X Traced) → Yields X P m → Ends X m
  EndsIn-Ends {P = P} m y = record { at = λ w. by_end (m w).0 (y.at w) }
    where
      by_end : (r : Res Traced) → EndsIn P r → r ≢ pending
      by_end (ok t) h e = cc
      by_end (err m) h e = cc
      by_end panicked h e = cc
      by_end pending h e = h

  trace_report-Ends : (t : Traced) → Ends X (trace_report X max t)
  unfolding trace_report
  trace_report-Ends (raised hits rows) = search ends_rules
  trace_report-Ends (finished hits rows) = search (ends_rules, report_never_hit-Ends) depth 8

  pub trace_run-Ends : Ends X (trace_run X captures depth max)
  unfolding trace_run
  trace_run-Ends =
      Ends-bind _ _ (EndsIn-Ends _ (loop-Yields (index max) 0 [] (omega arith) (omega arith)))
        trace_report-Ends

-- The loop of a trace, with the fuel that `trace` gives it, comes to an end, and where it ends well it has
-- counted at most `--max` hits, none if that is negative: at the end of its run, at the exit of the
-- program and at a panic. The trace with its report comes to an end, too.
pub trace_loop-bounded :
    (X : Outside) (captures : List Text) (depth max : ℤ) (w : World X)
    → EndsIn (λ t. hits_of t ≤ index max) (trace_loop X captures depth max (index max) 0 [] w).0
      × ((trace_run X captures depth max w).0 ≢ pending)
trace_loop-bounded X captures depth max w = (
  (loop-Yields X captures depth max (index max) 0 [] (omega arith) (omega arith)).at w,
  (trace_run-Ends X captures depth max).at w,
)
