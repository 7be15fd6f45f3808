-- ===== src/Dlv/Client.antt =====
-- The calls of internal/dlv/client.go. Delve, the file system, the clock and the target program are
-- outside: a record of operations over an unknown state. An operation is one RPC round trip.
use golang_debugger_skill.Base.{ℕ, Bool, Option, List, Text, ℤ, Try}
use golang_debugger_skill.Dlv.Types.{
  EvalScope, LoadConfig, Breakpoint, Location, Goroutine, Variable, DebuggerState, Command,
}

-- How a resume command ends within the time limits of `runCommand`: the reply comes before
-- `resumeTimeout`, or within ten seconds of the halt that is then sent, or not at all.
pub data Reply : Type 0 where
  in_time : Try DebuggerState → Reply
  after_halt : Try DebuggerState → Reply
  silent : Reply

pub record Outside : Type 1 where
  pub State : Type 0
  -- `Command`, with the waiting that `runCommand` does round it
  pub resume_command : Command → State → Reply × State
  pub halt : State → Try DebuggerState × State
  -- `State(false)`; the reply's pointer may be nil
  pub state : State → Try (Option DebuggerState) × State
  pub create_breakpoint : (cond hit_cond loc : Text) → State → Try Breakpoint × State
  pub amend_breakpoint : Breakpoint → State → Try (Unit {0}) × State
  pub list_breakpoints : State → Try (List Breakpoint) × State
  pub clear_breakpoint : ℤ → State → Try (Unit {0}) × State
  -- the bits of `WatchRead` and `WatchWrite`
  pub create_watchpoint : EvalScope → Text → ℕ → State → Try Breakpoint × State
  pub stacktrace : (goroutine depth : ℤ) → State → Try (List Location) × State
  pub list_goroutines : (start count : ℤ) → State → Try (List Goroutine) × State
  pub list_local_vars : EvalScope → LoadConfig → State → Try (List Variable) × State
  pub list_function_args : EvalScope → LoadConfig → State → Try (List Variable) × State
  pub eval : EvalScope → Text → State → Try Variable × State
  pub set : EvalScope → (symbol value : Text) → State → Try (Unit {0}) × State
  pub restart : Bool → State → Try (Unit {0}) × State
  -- `Detach` and `Close`, and the end of the process
  pub close : State → State
  -- `dlv.Spawn` and `dlv.Dial`: working directory, mode, target, build flags, arguments, environment
  pub spawn :
      (root mode target build_flags : Text)
      → (target_args env : List Text) → State
      → Try (Unit {0}) × State
  -- the lines of target output that the reader goroutine has passed on since the last look
  pub arrived : State → List Text × State
  -- the clock, as `time.RFC3339` text
  pub timestamp : State → Text
  -- whether the usage log can be opened, and whether a line can be written to it
  pub opens_log : State → Bool
  pub writes_log : State → Bool
  pub read_file : Text → State → Try Text × State
  -- Unicode's table of printable characters from 0x80 on
  pub printable : ℕ → Bool
