-- ===== src/System.antt =====
-- The clients joined to the daemon: a `Link` whose other end is `handle` of internal/daemon/daemon.go. A
-- request that is sent is handled at once, and its answer waits to be read.
pub mod Commands
use golang_debugger_skill.Base.{
  ℕ, ◌+◌, Bool, true, false, ◌&&◌, not, Option, none, some, List, [], Text, text, if◌then◌else◌,
  Try, value, error, Res, ok, err, panicked, pending,
}
use golang_debugger_skill.Dlv.Client.{Outside}
use golang_debugger_skill.Daemon.Host.{Host}
use golang_debugger_skill.Daemon.Serve.{Request, Response, Handled, handle}
use golang_debugger_skill.Client.Root.{FilePath}
use golang_debugger_skill.Client.Link.{Link}

-- The daemon, if one runs, the answer on its way, and the clock.
pub record Joined (X : Outside) : Type 0 where
  pub host : Host X
  pub running : Bool
  pub reply : Option Response
  pub clock : ℕ

module _ (X : Outside) (fuel depth : ℕ) (root : Text) (env : List Text) where
  abbrev dialled : Bool → Try (Unit {0})
  dialled true = value tt
  dialled false = error (text "connection refused")

  abbrev pub received : Option Response → Try Response
  received none = error (text "EOF")
  received (some r) = value r

  -- After `handle`: a panic in it ends the daemon. A client whose request is not answered waits for ever,
  -- which a link cannot say: nothing is meant by the clause of a handler that does not return.
  abbrev pub handled : Joined X → Res Handled × Host X → Joined X
  handled j (ok r, h) = record j { host = h; running = not r.ends; reply = r.reply }
  handled j (err e, h) = record j { host = h; running = false; reply = none }
  handled j (panicked, h) = record j { host = h; running = false; reply = none }
  handled j (pending, h) = record j { host = h; reply = none }

  abbrev started : Joined X → Joined X
  started j = record j {
    host = record {
      sess = none;
      req_env = [];
      log_open = X.opens_log j.host.outside;
      log = j.host.log;
      outside = j.host.outside;
    };
    running = true;
  }

  abbrev pub joined : Link
  joined = record {
    State = Joined X;
    dial = λ dir j. (dialled j.running, j);
    send_request = λ req j. (value tt, handled j (handle X fuel depth root (some req) j.host));
    read_response = λ j. (received j.reply, record j { reply = none });
    environ = λ j. env;
    now = λ j. j.clock;
    sleep = λ n j. record j { clock = j.clock + n };
    executable = λ j. (value (text "gdbg"), j);
    make_dirs = λ dir j. (value tt, j);
    remove_socket = λ dir j. j;
    open_log = λ dir j. (value tt, j);
    start_process = λ self args dir j. (value tt, started j);
  }
