-- ===== src/Lib.antt =====
-- gdbg, a debugger front end for agents: a daemon drives Delve for one project and answers short
-- text commands; a command line and an MCP server send it their commands, and start it if need be.
-- This library models the daemon (internal/daemon), its clients (internal/client, internal/mcp,
-- cmd/gdbg), the navigation (internal/nav) and the parts of internal/dlv and internal/proto that they
-- stand on, and proves what their operations promise.
--
-- Parts:
--   Dlv.Types    internal/dlv/types.go: the structs that are read and sent.
--   Dlv.Client   internal/dlv/client.go: the calls of Delve as a record of operations (`Outside`)
--                over an unknown state, with the files, the clock and the table of printable
--                characters. Nothing is assumed of the answers unless a theorem says so.
--   Dlv.Proc     internal/dlv/spawn.go: the ring of captured output.
--   Dlv.Spawn    internal/dlv/spawn.go: dlv's arguments, the reader of its output and the wait for
--                its address, over the events that the wait sees in their order.
--   Dlv.Dial     internal/dlv/client.go: the connection to dlv and its retries.
--   Daemon.Args  internal/daemon/commands.go: parseArgs, launchMode, normalizeTestArgs, splitList.
--   Daemon.Render    internal/daemon/render.go: a value on one line and as a tree.
--   Daemon.State     internal/daemon/session.go: the session, and how its methods call the outside.
--   Daemon.Session   source windows, logpoints, stop and exit reports, and the loop of resume.
--   Daemon.Commands  the commands of a session, in the order of commands.go.
--   Daemon.Host      internal/daemon/daemon.go: the session slot, the usage log, stopSession.
--   Daemon.Launch, Daemon.Trace, Daemon.Usage, Daemon.Dispatch, Daemon.Serve
--                cmdLaunch, cmdTrace, cmdUsage, dispatch with execute and cmdDo, handle with the
--                accept loop of Run.
--   Daemon.Start internal/daemon/session.go: newSession, as far as it starts dlv and connects to it;
--                `Host.start_session` takes its outcome from `Outside`.
--   Daemon.Life  internal/daemon/daemon.go: Run over time, with touch and the idle check, as a
--                relation between states.
--   Daemon.Logic     rules for invariants of the session under the methods.
--   Nav          internal/nav/nav.go: the part of Go's syntax trees that is read (`Nav.Syntax`),
--                signatures, the walk of Where, and Gopls, over a `Navigator`.
--   Client       internal/client/client.go: ProjectRoot (`Client.Root`), Send, SendIfRunning,
--                dialRetry and spawnDaemon (`Client.Send`) over what they call (`Client.Link`).
--   Mcp          internal/mcp/mcp.go: JSON values, the argument vectors of the tools (`Mcp.Argv`), the
--                table of tools with its schemas (`Mcp.Schema`, `Mcp.Tools`), and Serve.
--   Cli          cmd/gdbg/main.go: main, over a `Link`, a `Navigator` and a `Process`.
--   System       a `Link` whose other end is the daemon, for theorems from the command line to the session.
--   Base         lists, Go's int, strings as lists of code points, strconv and fmt as far as they are
--                used, and the results of a call: a value, an error, a panic, or no end in time, with
--                rules for invariants (`Preserves`), ends (`Finishes`) and results (`Yields`).
--   Tests        a scripted debugger, a toy machine, and the theorems at concrete data.
--
-- A method of the session is a function from a session and an outside state to a result and both
-- again; an error keeps the changes made before it. A method runs inside the daemon by
-- `Host.in_session`. The clients are functions from the state of a `Link` to a result and a state.
-- Go's names in snake case name the functions: `cmdBreakRm` is `cmd_break_rm`. A Go map is an
-- association list; nil for a pointer is `none`; an int has 64 bits, and its steps up and down wrap.
-- An absolute path is the list of its names, the deepest first. The functions in the table of tools are
-- the constructors of `Run`, which `run_tool` runs.
--
-- Bounds: `resume` runs a logpoint and continues for as long as the target stops at logpoints, so
-- its loop has fuel, one unit for each resume command; `Session.Resume.Fuel` says how much is enough.
-- `dispatch` is re-entered by `do`, so it has a depth; `Dispatch.Halts` shows that one above the length
-- of the command line is enough. The loop of a trace has `--max` as its fuel, beside its guard. The
-- time limits of runCommand are three ways in which a reply comes (`Reply`). dialRetry has rounds; with
-- a clock that does not go back and sleeps that take their time (`IsClock`), `Send.Retry.enough` of
-- them are enough.
--
-- Not modelled: the system calls behind a `Link`, a `Launcher` and an `Outside`; the JSON codec, so
-- requests come decoded; Go's parser, so a file comes as its declarations; locks (one request is
-- handled at a time, and only the idle check runs beside it); the name of the socket; durations and
-- error texts in the usage log; what the daemon logs, but for its place on the error stream
-- (`Process.run_daemon`); a client that waits for ever, for which `System` means nothing (a theorem on it
-- has as a hypothesis that the dispatch ends); benchmarks and examples.
pub mod Base
pub mod Dlv
pub mod Daemon
pub mod Nav
pub mod Client
pub mod Mcp
pub mod Cli
pub mod System
pub mod Tests
