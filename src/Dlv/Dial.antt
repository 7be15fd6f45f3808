-- ===== src/Dlv/Dial.antt =====
-- `Dial` of internal/dlv/client.go.
pub mod First
use golang_debugger_skill.Base.{
  ℕ, zero, suc, ◌++◌, Text, text, Try, value, error, M, ok, pure, fail, ask, attempt, ◌>>=◌, ◌>>◌,
}

-- A try to connect, the pause after a failure, and the first call on the connection.
pub record Dialer (S : Type 0) : Type 0 where
  pub connect : (addr : Text) → S → Try (Unit {0}) × S
  pub pause : S → S
  pub set_api_version : S → Try (Unit {0}) × S

module _ {S : Type 0} (D : Dialer S) where
  pause : M S (Unit {0})
  pause s = (ok tt, D.pause s)

  next_try : M S (Try (Unit {0})) → Try (Unit {0}) → M S (Try (Unit {0}))
  next_try again (value u) = pure (value u)
  next_try again (error e) = again

  -- `err` after the loop; `last` is what it was before.
  unfoldable pub dial_loop :
      (rounds : ℕ) → (addr : Text) → (last : Try (Unit {0})) → M S (Try (Unit {0}))
  unfolding pause next_try
  dial_loop zero addr last = pure last
  dial_loop (suc rounds) addr last = do
    r ← attempt (ask (D.connect addr))
    next_try (do pause; dial_loop rounds addr r) r

  connected : (addr : Text) → Try (Unit {0}) → M S (Unit {0})
  unfolding text
  connected addr (value u) = pure u
  connected addr (error e) = fail (text "connect to delve at " ++ (addr ++ (text ": " ++ e)))

  on_version_two : Try (Unit {0}) → M S (Unit {0})
  unfolding text
  on_version_two (value u) = pure u
  on_version_two (error e) = fail (text "set api version: " ++ e)

  unfoldable pub dial : (addr : Text) → M S (Unit {0})
  unfolding dial_loop connected on_version_two
  dial addr = do
    r ← dial_loop 50 addr (value tt)
    connected addr r
    v ← attempt (ask D.set_api_version)
    on_version_two v
