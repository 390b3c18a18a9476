-- ===== src/Server/Config.antt =====
-- `Config`, `Server` and `New` of internal/server, and the drain that `Serve` waits for. The listener,
-- the session service and the logger are effects elsewhere, and stand for themselves.
use minisshd.Prelude.{ℕ, ◌*◌, Option, none, some, Bytes, ◌==◌, if◌then◌else◌}
use minisshd.Auth.Credentials.{Credentials}
use minisshd.Auth.Keyset.{Source}
use minisshd.Auth.Methods.{Methods}
use minisshd.Ratelimit.Limiter.{Limiter}
use minisshd.Ratelimit.Delay.{second}

-- `session.Service`, but for its logger
pub record SessionService : Type 0 where
  pub shell : Bytes

module _ (K Sleep : Type 0) where
  pub record Config : Type 0 where
    pub host_key : K
    pub credentials : Credentials
    pub limiter : Limiter
    pub session_service : SessionService
    pub methods : Methods
    pub keyset_source : Option Source
    pub forward_max : ℕ
    pub sleep : Option Sleep  -- `none` for nil
    pub drain_timeout : ℕ

  pub record Server : Type 0 where
    pub cfg : Config
    pub limiter : Limiter
    pub creds : Credentials
    pub session : SessionService
    pub sleep : Sleep

abbrev pub drain_timeout : ℕ
drain_timeout = 5 * second

abbrev pub sleep_or : {Sleep : Type 0} → Sleep → Option Sleep → Sleep
sleep_or real none = real
sleep_or real (some f) = f

module _ {K Sleep : Type 0} where
  -- `New`; the argument before the configuration is `time.Sleep`.
  unfoldable pub new_server : Sleep → Config K Sleep → Server K Sleep
  new_server real cfg = record {
    cfg = cfg;
    limiter = cfg.limiter;
    creds = cfg.credentials;
    session = cfg.session_service;
    sleep = sleep_or real cfg.sleep;
  }

  unfoldable pub new_with_deps : Sleep → Config K Sleep → SessionService → Server K Sleep
  new_with_deps real cfg session = record (new_server real cfg) { session = session }

  -- The `drain` of `Serve`.
  unfoldable pub drain_of : Server K Sleep → ℕ
  drain_of s = if s.cfg.drain_timeout == 0 then drain_timeout else s.cfg.drain_timeout
