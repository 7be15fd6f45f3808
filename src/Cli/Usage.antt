-- ===== src/Cli/Usage.antt =====
-- The constant `usage`, line by line.
use golang_debugger_skill.Base.{List, [], ◌∷◌, ◌++◌, Text, text, newline}

abbrev unlines : List Text → Text
unlines [] = []
unlines (l ∷ ls) = l ++ (newline ∷ unlines ls)

unfoldable pub usage : Text
unfolding text
usage = unlines (
    text "gdbg — debug a Go program: breakpoints, stepping, real values, live edits."
    ∷ []
    ∷ text "Session (state persists between calls; one paused process per project):"
    ∷ text "  gdbg launch --pkg <dir> [--break file:line]... [--break-fn name]... [-- args]"
    ∷ text "  gdbg launch --test <dir> [--break file:line]... [-- -run TestName]"
    ∷ text "  gdbg launch --bin-path <file> [--break file:line]...     # pre-built binary"
    ∷ text "  gdbg trace  --pkg <dir> --break file:line --capture i,sum [--max 30]"
    ∷ text "  gdbg restart [--rebuild]      relaunch (rebuild picks up code edits)"
    ∷ text "  gdbg stop                     end the session;  gdbg down  stops the daemon"
    ∷ []
    ∷ text "Breakpoints (set any time; panics and fatal errors always stop):"
    ∷ text "  gdbg break file.go:42 [--if \"i == 5\"] [--hit 3] [--log \"i={i}\"]"
    ∷ text "  gdbg break --fn main.total"
    ∷ text "  gdbg watch <var> [--read]     stop the moment a variable changes"
    ∷ text "  gdbg breaks | break-rm <id> | break-on <id> | break-off <id>"
    ∷ []
    ∷ text "Run:"
    ∷ text "  gdbg continue                 to next stop (auto-interrupts after 25s)"
    ∷ text "  gdbg step over|in|out|insn"
    ∷ text "  gdbg until file.go:99"
    ∷ text "  gdbg pause"
    ∷ []
    ∷ text "Inspect and change state:"
    ∷ text "  gdbg vars [--depth N]         args + locals as real Go values"
    ∷ text "  gdbg eval <expr>...           e.g.  gdbg eval items[0].Qty len(items)==2"
    ∷ text "  gdbg set <var> = <value> [--then continue]"
    ∷ text "  gdbg watch-expr add|rm <expr> | watch-expr list"
    ∷ text "  gdbg bt [--depth N] | list | state | output"
    ∷ []
    ∷ text "Goroutines and frames (vars/eval follow the selection):"
    ∷ text "  gdbg goroutines | goroutine <id> | frame <n>|up|down"
    ∷ []
    ∷ text "Navigate (no session needed):"
    ∷ text "  gdbg where <name>             find a declaration"
    ∷ text "  gdbg def|hover|refs <file> <line> <col>       via gopls"
    ∷ []
    ∷ text "Several commands in one call:"
    ∷ text "  gdbg do \"vars; step over; vars\""
    ∷ []
    ∷ text "MCP server (same session as the CLI):"
    ∷ text "  gdbg mcp"
    ∷ [])
