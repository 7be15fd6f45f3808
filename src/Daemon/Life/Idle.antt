-- ===== src/Daemon/Life/Idle.antt =====
-- A daemon that nobody uses ends.
use golang_debugger_skill.Base.{
  ℕ, ◌+◌, ◌-◌, ◌*◌, ◌≤◌, ◌<◌, ◌≡◌, ◌⊎◌, refl, arith, true, false, Bool-cases, inl, inr, none, Text,
  List, [], ◌∷◌, length, ltb, lt→ltb, ltb→lt, if◌then◌else◌,
}
use golang_debugger_skill.Dlv.Client.{Outside}
use golang_debugger_skill.Daemon.Host.{stop_session}
use golang_debugger_skill.Daemon.Life.{
  accepting, over, is_alive, Life, pass, quit, is_idle, check_idle, idle_timeout, minute,
}
use golang_debugger_skill.Daemon.Life.Reach.{Reachable, Reachable-IsSound}

le_cases : (a b : ℕ) → (a ≤ b) ⊎ (b < a)
le_cases a b = elim (Bool-cases (ltb b a)) [
  | inl h ↦ inr (ltb→lt b a h)
  | inr h ↦ inl (ground arith)
]

module _ (X : Outside) (fuel depth : ℕ) (root : Text) where
  -- What a sleep of a minute comes to: it lasts at least that long.
  abbrev later : (late : ℕ) → Life X → Life X
  later late l = pass X fuel depth root (minute + late) l

  -- The loop of the idle check, while no request comes. Each sleep lasts a minute and some milliseconds more.
  abbrev pub ticks : (lates : List ℕ) → Life X → Life X
  ticks [] l = l
  ticks (late ∷ lates) l =
      let rest = ticks lates (check_idle X fuel depth root (later late l)) in
      if is_alive l.phase then rest else l

  ticks-dead : (lates : List ℕ) (l : Life X) → is_alive l.phase ≡ false → ticks lates l ≡ l
  ticks-dead [] l h = refl
  ticks-dead (late ∷ lates) l h = rw h refl

  ticks-step :
      (late : ℕ) (lates : List ℕ) (l : Life X)
      → is_alive l.phase ≡ true
      → ticks (late ∷ lates) l ≡ ticks lates (check_idle X fuel depth root (later late l))
  ticks-step late lates l h = rw h refl

  checked_idle :
      (l : Life X)
      → idle_timeout < l.clock - l.last_used
      → check_idle X fuel depth root l ≡ quit X fuel depth root l
  unfolding check_idle is_idle
  checked_idle l h = rw (lt→ltb idle_timeout (l.clock - l.last_used) h) refl

  not_ltb : (a b : ℕ) → b ≤ a → ltb a b ≡ false
  not_ltb a b h = ground arith

  checked_used :
      (l : Life X) → l.clock ≤ l.last_used + idle_timeout → check_idle X fuel depth root l ≡ l
  unfolding check_idle is_idle
  checked_used l h = rw (not_ltb idle_timeout (l.clock - l.last_used) (omega arith)) refl

  abbrev IsOver : Life X → Type 0
  IsOver l = (l.phase ≡ over) × (l.host.sess ≡ none)

  quit-IsOver : (lates : List ℕ) (l : Life X) → IsOver (ticks lates (quit X fuel depth root l))
  unfolding quit stop_session
  quit-IsOver lates l = rw (ticks-dead lates (quit X fuel depth root l) refl) (refl, refl)

  -- The sleep that passes makes it idle, or it does not.
  idle_cases :
      (late : ℕ) (l : Life X)
      → (check_idle X fuel depth root (later late l) ≡ quit X fuel depth root (later late l))
        ⊎ ((l.clock + (minute + late) ≤ l.last_used + idle_timeout)
            × (check_idle X fuel depth root (later late l) ≡ later late l))
  unfolding pass
  idle_cases late l = elim (le_cases (l.clock + (minute + late)) (l.last_used + idle_timeout)) [
    | inl le ↦ inr (le, checked_used (later late l) le)
    | inr lt ↦ inl (checked_idle (later late l) (omega arith))
  ]

  ticks-IsOver :
      (lates : List ℕ) (l : Life X)
      → is_alive l.phase ≡ true
      → l.last_used + idle_timeout < l.clock + minute * length lates
      → l.clock ≤ l.last_used + idle_timeout
      → IsOver (ticks lates l)
  unfolding pass
  ticks-IsOver [] l a h k = absurd (omega arith)
  ticks-IsOver (late ∷ lates) l a h k = elim (idle_cases late l) [
    | inl idle ↦ rw (ticks-step late lates l a, idle) (quit-IsOver lates (later late l))
    | inr (le, same) ↦
        rw (ticks-step late lates l a, same) (ticks-IsOver lates (later late l) a (omega arith) le)
  ]

  some-IsOver :
      (lates : List ℕ) (l : Life X)
      → is_alive l.phase ≡ true
      → l.last_used ≤ l.clock
      → 31 ≤ length lates
      → IsOver (ticks lates l)
  unfolding pass
  some-IsOver [] l a u n = absurd (omega arith)
  some-IsOver (late ∷ lates) l a u n = elim (idle_cases late l) [
    | inl idle ↦ rw (ticks-step late lates l a, idle) (quit-IsOver lates (later late l))
    | inr (le, same) ↦
        rw (ticks-step late lates l a, same) (ticks-IsOver lates (later late l) a (omega arith) le)
  ]

  -- Whatever has happened to a daemon that waits for a request: if none comes, it has ended after 31 looks
  -- of the idle check, each after a sleep of a minute or more, and it leaves no session.
  pub ticks-ends :
      (l : Life X) (lates : List ℕ)
      → Reachable X fuel depth root l
      → l.phase ≡ accepting
      → 31 ≤ length lates
      → ((ticks lates l).phase ≡ over) × ((ticks lates l).host.sess ≡ none)
  ticks-ends l lates r e n =
      some-IsOver lates l (rw e refl) (Reachable-IsSound X fuel depth root r).used n
