-- ===== src/Dlv/Dial/First.antt =====
-- The loop of `Dial` ends with the first try that succeeds.
use golang_debugger_skill.Base.{
  ℕ, zero, suc, ◌<◌, ◌≡◌, refl, arith, Text, Try, value, error, ok, pure, ask, attempt, ◌>>=◌, M,
  Res, caught, answer, and_then,
}
use golang_debugger_skill.Dlv.Dial.{Dialer, pause, next_try, dial_loop}

module _ {S : Type 0} (D : Dialer S) (addr : Text) where
  -- The state after some rounds that fail, and that they fail.
  abbrev pub after : ℕ → S → S
  after zero s = s
  after (suc k) s = after k (D.pause (D.connect addr s).1)

  abbrev IsError : Try (Unit {0}) → Type 0
  IsError (value u) = ⊥
  IsError (error e) = Unit

  abbrev pub AllFail : ℕ → S → Type 0
  AllFail zero s = Unit
  AllFail (suc k) s = IsError (D.connect addr s).0 × AllFail k (D.pause (D.connect addr s).1)

  round :
      (again : Try (Unit {0}) → M S (Try (Unit {0})))
      → Try (Unit {0}) × S
      → Res (Try (Unit {0})) × S
  round again r = and_then (caught (answer r)) (λ t. next_try D (pause D >>= λ _. again t) t)

  round-error :
      (again : Try (Unit {0}) → M S (Try (Unit {0}))) (r : Try (Unit {0}) × S)
      → IsError r.0
      → round again r ≡ again r.0 (D.pause r.1)
  unfolding round next_try pause ◌>>=◌
  round-error again (error e, s) h = refl
  round-error again (value u, s) h = absurd h

  round-value :
      (again : Try (Unit {0}) → M S (Try (Unit {0}))) (r : Try (Unit {0}) × S)
      → r.0 ≡ value tt
      → round again r ≡ (ok (value tt), r.1)
  unfolding round next_try pure
  round-value again (error e, s) h = absurd cc
  round-value again (value tt, s) h = refl

  dial_loop-round :
      (n : ℕ) (last : Try (Unit {0})) (s : S)
      → dial_loop D (suc n) addr last s ≡ round (λ r. dial_loop D n addr r) (D.connect addr s)
  unfolding dial_loop round ask attempt ◌>>=◌
  dial_loop-round n last s = refl

  -- If some tries fail and the next one, within the rounds, succeeds, the loop ends there with that
  -- connection and tries no more.
  pub dial_loop-first :
      (k n : ℕ) (last : Try (Unit {0})) (s : S)
      → k < n
      → AllFail k s
      → (D.connect addr (after k s)).0 ≡ value tt
      → dial_loop D n addr last s ≡ (ok (value tt), (D.connect addr (after k s)).1)
  dial_loop-first k zero last s lt f e = absurd (omega arith)
  dial_loop-first zero (suc n) last s lt f e = rw (dial_loop-round n last s) (round-value _ _ e)
  dial_loop-first (suc k) (suc n) last s lt (f, fs) e =
      rw (dial_loop-round n last s, round-error (λ r. dial_loop D n addr r) (D.connect addr s) f)
        (dial_loop-first k n (D.connect addr s).0 (D.pause (D.connect addr s).1) (omega arith) fs e)
