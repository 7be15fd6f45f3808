-- ===== src/Daemon/Session/Logpoint.antt =====
-- `renderLogpoint`: the matches of `\{[^{}]+\}` in a template are replaced by values.
pub mod Pieces
use golang_debugger_skill.Base.{
  ℕ, ◌==◌, Bool, true, false, Option, none, some, List, [], ◌∷◌, ◌++◌, Text, text, negsuc, pos, Try,
  value, error, pure, attempt, ◌>>=◌,
}
use golang_debugger_skill.Dlv.Types.{EvalScope, DebuggerState, Thread, Variable}
use golang_debugger_skill.Dlv.Client.{Outside}
use golang_debugger_skill.Daemon.Render.Inline.{inline_var}
use golang_debugger_skill.Daemon.State.{Io, call}
use golang_debugger_skill.Daemon.Session.Source.{place}

-- A template is plain characters and the expressions between braces.
pub data Piece : Type 0 where
  plain : Text → Piece
  hole : Text → Piece

abbrev closed : Text → Piece
closed [] = plain (b'{' ∷ b'}' ∷ [])
closed (c ∷ s) = hole (c ∷ s)

-- `some e` is an open brace with `e` behind it.
unfoldable pub pieces : Option Text → Text → List Piece
pieces none [] = []
pieces none (c ∷ s) = elim (c == b'{') [
  | true ↦ pieces (some []) s
  | false ↦ plain (c ∷ []) ∷ pieces none s
]
pieces (some e) [] = plain (b'{' ∷ e) ∷ []
pieces (some e) (c ∷ s) = elim (c == b'}') [
  | true ↦ closed e ∷ pieces none s
  | false ↦ elim (c == b'{') [
    | true ↦ plain (b'{' ∷ e) ∷ pieces (some []) s
    | false ↦ pieces (some (e ++ (c ∷ []))) s
  ]
]

abbrev pub current_scope : EvalScope
current_scope = record { goroutine_id = negsuc 0; frame = pos 0; deferred_call = pos 0 }

abbrev shown : (ℕ → Bool) → Try Variable → Text
shown printable (value v) = inline_var printable v 60
shown printable (error e) = text "<err>"

abbrev thread_place : Option Thread → Text
thread_place none = []
thread_place (some th) = place th.file th.line

module _ (X : Outside) where
  unfoldable pub fill : List Piece → Io X Text
  fill [] = pure []
  fill (plain t ∷ ps) = do more ← fill ps; pure (t ++ more)
  fill (hole e ∷ ps) = do
    v ← attempt (call X (X.eval current_scope e))
    more ← fill ps
    pure (shown X.printable v ++ more)

  unfoldable pub render_logpoint : DebuggerState → Text → Io X Text
  unfolding fill pieces inline_var place text
  render_logpoint state tmpl = do
    msg ← fill (pieces none tmpl)
    pure (text "log " ++ (thread_place state.current_thread ++ (text "  " ++ msg)))
