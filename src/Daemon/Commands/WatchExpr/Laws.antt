-- ===== src/Daemon/Commands/WatchExpr/Laws.antt =====
-- Adding a watch expression and removing it.
use golang_debugger_skill.Base.{
  ℕ, inl, inr, Option-cases, ◌≡◌, refl, none, some, List, [], ◌∷◌, ◌++◌, Text, text, text_eq,
  text_eq_refl, text_eq_iff, join, ok, pure, ◌>>=◌, arith,
}
use golang_debugger_skill.Dlv.Client.{Outside}
use golang_debugger_skill.Daemon.State.{World, update, current}
use golang_debugger_skill.Daemon.Commands.WatchExpr.{remove_first, cmd_watch_expr}

-- The last of a list goes when it stands nowhere before.
remove_first-append :
    (e : Text) (es : List Text)
    → remove_first e es ≡ none
    → remove_first e (es ++ (e ∷ [])) ≡ some es
unfolding remove_first
remove_first-append e [] h = rw (text_eq_refl e) refl
remove_first-append e (d ∷ es) h = elim (Option-cases (remove_first e es)) [
  | inl n ↦ ground (arith, remove_first-append e es, text_eq_iff d e)
  | inr (rest, f) ↦ ground (arith, remove_first-append e es, text_eq_iff d e)
]

-- With an expression that is not empty and not watched, `add` succeeds, appends it to the watched
-- expressions and changes nothing else; and `rm` after that succeeds and leaves everything as it was before.
pub watch_expr-add-rm :
    (X : Outside) (c : ℕ) (e : Text) (w : World X)
    → remove_first (c ∷ e) w.session.watch_exprs ≡ none
    → (cmd_watch_expr X (text "add" ∷ (c ∷ e) ∷ []) w ≡ (
      ok (text "watching " ++ ((c ∷ e) ++ text " (re-shown at every stop)")),
      record w {
        session = record w.session { watch_exprs = w.session.watch_exprs ++ ((c ∷ e) ∷ []) };
      },
    ))
      × ((cmd_watch_expr X (text "add" ∷ (c ∷ e) ∷ []) >>= λ _.
              cmd_watch_expr X (text "rm" ∷ (c ∷ e) ∷ []))
            w
          ≡ (ok (text "removed " ++ (c ∷ e)), w))
unfolding cmd_watch_expr ◌>>=◌ update current text text_eq join pure
watch_expr-add-rm X c e w h = (refl, rw (remove_first-append (c ∷ e) w.session.watch_exprs h) refl)
