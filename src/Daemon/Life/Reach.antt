-- ===== src/Daemon/Life/Reach.antt =====
-- What can happen to a daemon, and what holds whenever it has happened.
use golang_debugger_skill.Base.{
  ℕ, ◌≤◌, ◌≡◌, ◌≢◌, refl, arith, Bool, true, false, Option, none, Text, if◌then◌else◌, Res, ok, err,
  panicked, pending,
}
use golang_debugger_skill.Dlv.Client.{Outside}
use golang_debugger_skill.Daemon.Host.{Host}
use golang_debugger_skill.Daemon.Serve.{Request, Handled, handle}
use golang_debugger_skill.Daemon.Serve.Closing.{Closed, handle-Closed}
use golang_debugger_skill.Daemon.Life.{
  Phase, accepting, handling, over, crashed, is_alive, Life, touches_again, born, begin_request,
  next_phase, after_handle, end_request, pass, quit, is_idle, check_idle,
}

module _ (X : Outside) (fuel depth : ℕ) (root : Text) where
  -- Time passes while the daemon lives; requests come one at a time, and the idle check looks at the
  -- clock at any time, also while a request is handled.
  pub data Step : Life X → Life X → Type 0 where
    begins :
        (req : Option Request) (l : Life X)
        → l.phase ≡ accepting
        → Step l (begin_request X fuel depth root req l)
    finishes :
        (req : Option Request) (l : Life X)
        → l.phase ≡ handling req
        → Step l (end_request X fuel depth root req l)
    breaks_off : (l : Life X) → l.phase ≡ accepting → Step l (quit X fuel depth root l)
    passes : (ms : ℕ) (l : Life X) → is_alive l.phase ≡ true → Step l (pass X fuel depth root ms l)
    checks : (l : Life X) → is_alive l.phase ≡ true → Step l (check_idle X fuel depth root l)

  pub data Reachable : Life X → Type 0 where
    starts : (clock : ℕ) (o : X.State) → Reachable (born X fuel depth root clock o)
    goes : (l m : Life X) → Reachable l → Step l m → Reachable m

-- Who is over has no session left, and the last use is not in the future.
pub record IsSound (X : Outside) (l : Life X) : Type 0 where
  pub closed : l.phase ≡ over → l.host.sess ≡ none
  pub used : l.last_used ≤ l.clock

module _ (X : Outside) (fuel depth : ℕ) (root : Text) where
  used_after : (b : Bool) (c u : ℕ) → u ≤ c → (if b then c else u) ≤ c
  used_after true c u h = omega arith
  used_after false c u h = h

  after_handle-IsSound :
      (l : Life X) (again : Bool) (r : Res Handled × Host X)
      → l.last_used ≤ l.clock
      → (l.phase ≢ over)
      → Closed X r
      → IsSound X (after_handle X fuel depth root l again r)
  after_handle-IsSound l again (ok r, h) u g k = record {
    closed = by_end r.ends k;
    used = used_after again _ _ u;
  }
    where
      by_end :
          (b : Bool)
          → (b ≡ true → h.sess ≡ none)
          → next_phase X fuel depth root b ≡ over
          → h.sess ≡ none
      by_end true c e = c refl
      by_end false c e = cc
  after_handle-IsSound l again (err e, h) u g k = record { closed = λ p. cc; used = u }
  after_handle-IsSound l again (panicked, h) u g k = record { closed = λ p. cc; used = u }
  after_handle-IsSound l again (pending, h) u g k = record { closed = λ p. absurd (g p); used = u }

  quit-IsSound : (l : Life X) → IsSound X l → IsSound X (quit X fuel depth root l)
  unfolding quit
  quit-IsSound l k = record { closed = λ p. refl; used = k.used }

  not_gone : (p : Phase) → is_alive p ≡ true → p ≢ over
  not_gone accepting h e = cc
  not_gone (handling req) h e = cc
  not_gone over h e = cc
  not_gone crashed h e = cc

  check_idle-IsSound : (l : Life X) → IsSound X l → IsSound X (check_idle X fuel depth root l)
  unfolding check_idle
  check_idle-IsSound l k = by_idle (is_idle X fuel depth root l)
    where
      by_idle : (b : Bool) → IsSound X (if b then quit X fuel depth root l else l)
      by_idle true = quit-IsSound l k
      by_idle false = k

  Step-IsSound : {l m : Life X} → IsSound X l → Step X fuel depth root l m → IsSound X m
  unfolding begin_request end_request pass
  Step-IsSound k (begins req l e) = record { closed = λ p. cc; used = omega arith }
  Step-IsSound k (finishes req l e) =
      after_handle-IsSound l (touches_again req) (handle X fuel depth root req l.host) k.used
        (λ p. cc) (handle-Closed X fuel depth root req l.host)
  Step-IsSound k (breaks_off l e) = quit-IsSound l k
  Step-IsSound k (passes ms l e) = record { closed = k.closed; used = omega (arith, k.used) }
  Step-IsSound k (checks l e) = check_idle-IsSound l k

  -- Whatever has happened to a daemon, requests, time and looks of the idle check in any order: if it has
  -- ended by itself no session is left, and its last use is not in the future.
  pub Reachable-IsSound : {l : Life X} → Reachable X fuel depth root l → IsSound X l
  unfolding born
  Reachable-IsSound (starts clock o) = record { closed = λ p. cc; used = omega arith }
  Reachable-IsSound (goes l m r s) = Step-IsSound (Reachable-IsSound r) s
