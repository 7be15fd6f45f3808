-- ===== src/Daemon/State/Logs.antt =====
-- The map of logpoint templates.
use golang_debugger_skill.Base.{
  ℤ, pos, negsuc, eq_ℤ, ◌≡◌, refl, ap, ◌↔◌, true, none, some, List, [], ◌∷◌, Text, arith,
  if◌then◌else◌, ==_iff,
}
use golang_debugger_skill.Daemon.State.{find_log, set_log, delete_log}

eq_ℤ_iff : (a b : ℤ) → (eq_ℤ a b ≡ true) ↔ (a ≡ b)
eq_ℤ_iff (pos m) (pos n) = ((λ h. ap pos ((==_iff m n).0 h)), λ h. ground (arith, h))
eq_ℤ_iff (negsuc m) (negsuc n) = ((λ h. ap negsuc ((==_iff m n).0 h)), λ h. ground (arith, h))
eq_ℤ_iff (pos m) (negsuc n) = ((λ h. cc), λ h. cc)
eq_ℤ_iff (negsuc m) (pos n) = ((λ h. cc), λ h. cc)

-- A template that is set is found under its breakpoint; the templates of the others stay.
pub find_log-set_log :
    (id j : ℤ) (t : Text) (m : List (ℤ × Text))
    → find_log j (set_log id t m) ≡ (if eq_ℤ id j then some t else find_log j m)
unfolding find_log set_log
find_log-set_log id j t [] = refl
find_log-set_log id j t ((k, u) ∷ m) =
    ground (arith, eq_ℤ_iff k id, eq_ℤ_iff k j, eq_ℤ_iff id j, find_log-set_log id j t m)

-- After a breakpoint's template is deleted it has none; the templates of the others stay.
pub find_log-delete_log :
    (id j : ℤ) (m : List (ℤ × Text))
    → find_log j (delete_log id m) ≡ (if eq_ℤ id j then none else find_log j m)
unfolding find_log delete_log
find_log-delete_log id j [] = ground arith
find_log-delete_log id j ((k, u) ∷ m) =
    ground (arith, eq_ℤ_iff k id, eq_ℤ_iff k j, eq_ℤ_iff id j, find_log-delete_log id j m)
