-- ===== src/Client/Link.antt =====
-- What internal/client and cmd/gdbg call besides: the socket, the start of a process, the file system,
-- the clock and the environment, as a record of operations over an unknown state.
use golang_debugger_skill.Base.{ℕ, List, Text, Try}
use golang_debugger_skill.Client.Root.{FilePath}
use golang_debugger_skill.Daemon.Serve.{Request, Response}

pub record Link : Type 1 where
  pub State : Type 0
  -- `dial`: one try to connect to the daemon's socket, at most a second long
  pub dial : FilePath → State → Try (Unit {0}) × State
  -- the request and the answer, as JSON over the connection
  pub send_request : Request → State → Try (Unit {0}) × State
  pub read_response : State → Try Response × State
  pub environ : State → List Text
  -- the clock in milliseconds, and `time.Sleep`
  pub now : State → ℕ
  pub sleep : ℕ → State → State
  -- `os.Executable`, `os.MkdirAll`, `os.Remove`, `os.OpenFile` for appending, and the start of a
  -- process in a session of its own with a log and a working directory
  pub executable : State → Try Text × State
  pub make_dirs : FilePath → State → Try (Unit {0}) × State
  pub remove_socket : FilePath → State → State
  pub open_log : FilePath → State → Try (Unit {0}) × State
  pub start_process :
      (self : Text) (args : List Text) (dir : FilePath) → State → Try (Unit {0}) × State
