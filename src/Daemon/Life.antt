-- ===== src/Daemon/Life.antt =====
-- `Run` over time: the accept loop beside the goroutine that ends an idle daemon. Times are in
-- milliseconds.
pub mod Reach
pub mod Idle
use golang_debugger_skill.Base.{
  ℕ, ◌+◌, ◌-◌, ◌*◌, ◌≤◌, ◌<◌, ◌≡◌, Bool, true, false, ◌||◌, not, Option, none, some, List, [], ◌∷◌,
  Text, text, ltb, if◌then◌else◌, Res, ok, err, panicked, pending,
}
use golang_debugger_skill.Dlv.Client.{Outside}
use golang_debugger_skill.Daemon.Host.{Host, stop_session}
use golang_debugger_skill.Daemon.Serve.{Request, Response, Handled, is_command, handle}

abbrev pub minute : ℕ
minute = 60 * 1000

abbrev pub idle_timeout : ℕ
idle_timeout = 30 * minute

-- What the daemon is doing: waiting in `Accept`, inside `handle`, ended by itself, or ended by a panic.
pub data Phase : Type 0 where
  accepting : Phase
  handling : Option Request → Phase
  over : Phase
  crashed : Phase

abbrev pub is_alive : Phase → Bool
is_alive accepting = true
is_alive (handling req) = true
is_alive over = false
is_alive crashed = false

pub record Life (X : Outside) : Type 0 where
  pub host : Host X
  pub clock : ℕ
  pub last_used : ℕ
  pub phase : Phase

-- The second `touch`: after a dispatch, and not after `down`, `pause` or what cannot be decoded.
unfoldable pub touches_again : Option Request → Bool
unfolding text
touches_again none = false
touches_again (some req) =
    not (is_command (text "down") req.argv || is_command (text "pause") req.argv)

module _ (X : Outside) (fuel depth : ℕ) (root : Text) where
  -- `d := &Daemon{…}`
  unfoldable pub born : (clock : ℕ) → X.State → Life X
  born clock o = record {
    host = record { sess = none; req_env = []; log_open = X.opens_log o; log = []; outside = o };
    clock = clock;
    last_used = clock;
    phase = accepting;
  }

  -- A connection is accepted, and `handle` begins.
  unfoldable pub begin_request : Option Request → Life X → Life X
  begin_request req l = record l { last_used = l.clock; phase = handling req }

  abbrev pub next_phase : Bool → Phase
  next_phase ends = if ends then over else accepting

  -- `handle` returns, or panics, or has not returned. It returns no error.
  abbrev pub after_handle : Life X → Bool → Res Handled × Host X → Life X
  after_handle l again (ok r, h) = record l {
    host = h;
    last_used = (if again then l.clock else l.last_used);
    phase = next_phase r.ends;
  }
  after_handle l again (err e, h) = record l { host = h; phase = crashed }
  after_handle l again (panicked, h) = record l { host = h; phase = crashed }
  after_handle l again (pending, h) = record l { host = h }

  unfoldable pub end_request : Option Request → Life X → Life X
  unfolding handle touches_again
  end_request req l = after_handle l (touches_again req) (handle X fuel depth root req l.host)

  unfoldable pub pass : (ms : ℕ) → Life X → Life X
  pass ms l = record l { clock = l.clock + ms }

  -- `stopSession` and the end of the process, from the idle check or from a failed `Accept`.
  unfoldable pub quit : Life X → Life X
  unfolding stop_session
  quit l = record l { host = (stop_session X l.host).1; phase = over }

  -- One look at the clock by the idle check.
  unfoldable pub is_idle : Life X → Bool
  is_idle l = ltb idle_timeout (l.clock - l.last_used)

  unfoldable pub check_idle : Life X → Life X
  unfolding is_idle quit
  check_idle l = if is_idle l then quit l else l
