-- ===== src/Start/Served.antt =====
-- The server that `run` of cmd/minisshd/main.go constructs, and the exit code at the end.
use minisshd.Prelude.{ℕ, Option, none, some, Bytes}
use minisshd.Ratelimit.Limiter.{new}
use minisshd.Server.Config.{Config}
use minisshd.Start.Ran.{Outcome, running, stopped, exit_ok, exit_internal_error}
use minisshd.Start.Run

module _ {K Sleep : Type 0} where
  unfoldable pub config_of : Run.Config K → Config K Sleep
  config_of c = record {
    host_key = c.signer;
    credentials = c.credentials;
    limiter = new;
    session_service = record { shell = c.shell };
    methods = c.methods;
    keyset_source = c.keyset_source;
    forward_max = c.forward_max;
    sleep = none;
    drain_timeout = 0;
  }

-- The exit code of the program, given what `Serve` returns.
unfoldable pub exit_code : {K : Type 0} → Outcome (Run.Config K) → (serve_error : Option Bytes) → ℕ
exit_code (stopped code) e = code
exit_code (running c) none = exit_ok
exit_code (running c) (some message) = exit_internal_error
