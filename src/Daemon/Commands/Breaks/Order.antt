-- ===== src/Daemon/Commands/Breaks/Order.antt =====
-- The order in which breakpoints are listed.
use mathlib.Core.List.Perm
use mathlib.Core.List.{Perm}
use golang_debugger_skill.Base.{
  ◌≡◌, refl, Bool, true, false, Bool-cases, inl, inr, List, [], ◌∷◌, ℤ, pos, negsuc, ltb_ℤ,
  if◌then◌else◌, arith, ℕ, Text, ◌++◌, ap, ◌∙◌, ◌>>=◌, pure, ok, value,
}
use golang_debugger_skill.Dlv.Client.{Outside}
use golang_debugger_skill.Daemon.State.{World, call, current}
use golang_debugger_skill.Dlv.Types.{Breakpoint}
use golang_debugger_skill.Daemon.Commands.Breaks.{
  insert_break, sort_breaks, break_line, break_lines, breaks_text, cmd_breaks,
}

-- No breakpoint has a smaller id than the one before it.
abbrev pub IsAscending : List Breakpoint → Type 0
IsAscending [] = Unit {0}
IsAscending (a ∷ []) = Unit {0}
IsAscending (a ∷ b ∷ bps) = (ltb_ℤ b.id a.id ≡ false) × IsAscending (b ∷ bps)

ltb_ℤ_asym : (i j : ℤ) → ltb_ℤ i j ≡ true → ltb_ℤ j i ≡ false
ltb_ℤ_asym (pos m) (pos n) h = ground arith
ltb_ℤ_asym (negsuc m) (negsuc n) h = ground arith
ltb_ℤ_asym (pos m) (negsuc n) h = cc
ltb_ℤ_asym (negsuc m) (pos n) h = refl

-- A breakpoint that may stand before both candidates stands before the one that comes first.
IsAscending-cons :
    (a b c : Breakpoint) (first : Bool) (ins bps : List Breakpoint)
    → ltb_ℤ b.id a.id ≡ false
    → ltb_ℤ c.id a.id ≡ false
    → IsAscending (if first then c ∷ ins else b ∷ c ∷ bps)
    → IsAscending (a ∷ (if first then c ∷ ins else b ∷ c ∷ bps))
IsAscending-cons a b c true ins bps hb hc h = (hc, h)
IsAscending-cons a b c false ins bps hb hc h = (hb, h)

insert_break-IsAscending :
    (b : Breakpoint) (bps : List Breakpoint) → IsAscending bps → IsAscending (insert_break b bps)
unfolding insert_break
insert_break-IsAscending b [] h = tt
insert_break-IsAscending b (a ∷ []) h = elim (Bool-cases (ltb_ℤ a.id b.id)) [
  | inl e ↦ rw e (ltb_ℤ_asym a.id b.id e, tt)
  | inr e ↦ rw e (e, tt)
]
insert_break-IsAscending b (a ∷ c ∷ bps) (hc, h) = by_id (insert_break-IsAscending b (c ∷ bps) h)
  where
    rest : List Breakpoint
    rest = if ltb_ℤ c.id b.id then c ∷ insert_break b bps else b ∷ c ∷ bps

    by_id : IsAscending rest → IsAscending (if ltb_ℤ a.id b.id then a ∷ rest else b ∷ a ∷ c ∷ bps)
    by_id k = elim (Bool-cases (ltb_ℤ a.id b.id)) [
      | inl e ↦ rw e (
          IsAscending-cons a b c (ltb_ℤ c.id b.id) (insert_break b bps) bps (ltb_ℤ_asym a.id b.id e)
            hc k)
      | inr e ↦ rw e (e, (hc, h))
    ]

insert_break-Perm : (b : Breakpoint) (bps : List Breakpoint) → Perm (insert_break b bps) (b ∷ bps)
unfolding insert_break
insert_break-Perm b [] = Perm.rfl
insert_break-Perm b (a ∷ bps) = by_id (ltb_ℤ a.id b.id) (insert_break-Perm b bps)
  where
    by_id :
        (first : Bool)
        → Perm (insert_break b bps) (b ∷ bps)
        → Perm (if first then a ∷ insert_break b bps else b ∷ a ∷ bps) (b ∷ a ∷ bps)
    by_id true k = Perm.trans (Perm.cons a k) (Perm.swap b a bps)
    by_id false k = Perm.rfl

sort_breaks-IsAscending : (bps : List Breakpoint) → IsAscending (sort_breaks bps)
unfolding sort_breaks
sort_breaks-IsAscending [] = tt
sort_breaks-IsAscending (b ∷ bps) =
    insert_break-IsAscending b (sort_breaks bps) (sort_breaks-IsAscending bps)

sort_breaks-permutes : (bps : List Breakpoint) → Perm (sort_breaks bps) bps
unfolding sort_breaks
sort_breaks-permutes [] = Perm.rfl
sort_breaks-permutes (b ∷ bps) =
    Perm.trans (insert_break-Perm b (sort_breaks bps)) (Perm.cons b (sort_breaks-permutes bps))

-- Those of the user: Delve's own breakpoints have negative ids.
abbrev pub of_user : List Breakpoint → List Breakpoint
of_user [] = []
of_user (bp ∷ bps) = if ltb_ℤ bp.id (pos 0) then of_user bps else bp ∷ of_user bps

-- One line for each.
abbrev pub listing : (ℕ → Bool) → List (ℤ × Text) → List Breakpoint → Text
listing printable logpoints [] = []
listing printable logpoints (bp ∷ bps) =
    break_line printable logpoints bp ++ listing printable logpoints bps

break_lines-of_user :
    (printable : ℕ → Bool) (logpoints : List (ℤ × Text)) (bps : List Breakpoint)
    → break_lines printable logpoints bps ≡ listing printable logpoints (of_user bps)
unfolding break_lines
break_lines-of_user printable logpoints [] = refl
break_lines-of_user printable logpoints (bp ∷ bps) = elim (Bool-cases (ltb_ℤ bp.id (pos 0))) [
  | inl e ↦ rw (e, break_lines) (break_lines-of_user printable logpoints bps)
  | inr e ↦
      rw (e, break_lines)
        (ap (λ t. break_line printable logpoints bp ++ t)
          (break_lines-of_user printable logpoints bps))
]

-- A negative id is below one that is not.
ltb_ℤ_sign : (i j : ℤ) → ltb_ℤ i (pos 0) ≡ true → ltb_ℤ j (pos 0) ≡ false → ltb_ℤ i j ≡ true
ltb_ℤ_sign (pos m) j hi hj = absurd (ground arith)
ltb_ℤ_sign (negsuc m) (pos n) hi hj = refl
ltb_ℤ_sign (negsuc m) (negsuc n) hi hj = cc

of_user-insert_own :
    (b : Breakpoint) (bps : List Breakpoint)
    → ltb_ℤ b.id (pos 0) ≡ true
    → of_user (insert_break b bps) ≡ of_user bps
unfolding insert_break
of_user-insert_own b [] h = rw h refl
of_user-insert_own b (c ∷ bps) h = elim (Bool-cases (ltb_ℤ c.id b.id)) [
  | inl e ↦ rw (e, of_user-insert_own b bps h) refl
  | inr e ↦ rw (e, h) refl
]

of_user-insert_break :
    (b : Breakpoint) (bps : List Breakpoint)
    → ltb_ℤ b.id (pos 0) ≡ false
    → of_user (insert_break b bps) ≡ insert_break b (of_user bps)
unfolding insert_break
of_user-insert_break b [] h = rw h refl
of_user-insert_break b (c ∷ bps) h = elim (Bool-cases (ltb_ℤ c.id (pos 0))) [
  | inl own ↦ rw (ltb_ℤ_sign c.id b.id own h, own) (of_user-insert_break b bps h)
  | inr user ↦ elim (Bool-cases (ltb_ℤ c.id b.id)) [
    | inl e ↦ rw (e, user, e) (ap (λ cs. c ∷ cs) (of_user-insert_break b bps h))
    | inr e ↦ rw (e, h, user, e) refl
  ]
]

of_user-sort_breaks :
    (bps : List Breakpoint) → of_user (sort_breaks bps) ≡ sort_breaks (of_user bps)
unfolding sort_breaks
of_user-sort_breaks [] = refl
of_user-sort_breaks (b ∷ bps) = elim (Bool-cases (ltb_ℤ b.id (pos 0))) [
  | inl own ↦ rw (own) (of_user-insert_own b (sort_breaks bps) own ∙ of_user-sort_breaks bps)
  | inr user ↦ rw (user) (
      of_user-insert_break b (sort_breaks bps) user ∙ ap (insert_break b) (of_user-sort_breaks bps))
]

-- Where Delve gives its list of breakpoints, `breaks` prints one line for each of those whose id is not
-- negative, exactly as often as it is there, by ascending id.
pub cmd_breaks-Perm :
    (X : Outside) (w : World X) (bps : List Breakpoint) (o : X.State)
    → X.list_breakpoints w.outside ≡ (value bps, o)
    → (shown : List Breakpoint) × IsAscending shown
      × Perm shown (of_user bps)
      × ((cmd_breaks X w).0 ≡ ok (breaks_text (listing X.printable w.session.logpoints shown)))
unfolding cmd_breaks ◌>>=◌ call current pure
cmd_breaks-Perm X w bps o h = (
  sort_breaks (of_user bps),
  sort_breaks-IsAscending (of_user bps),
  sort_breaks-permutes (of_user bps),
  rw h (
      ap (λ t. ok (breaks_text t))
        (break_lines-of_user X.printable w.session.logpoints (sort_breaks bps)
          ∙ ap (listing X.printable w.session.logpoints) (of_user-sort_breaks bps))),
)
