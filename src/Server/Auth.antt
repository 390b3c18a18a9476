-- ===== src/Server/Auth.antt =====
-- `passwordCallback` and `publickeyCallback` of internal/server/auth.go, with `extractIP`,
-- `normalizeKey` and `nextDelay`, on the limiter of internal/ratelimit and the checks of
-- internal/auth. A callback runs here with no other one in between; what it does to the outside is
-- recorded as a list of effects. SHA-256, the fingerprint, `net.IP.String`, `net.ParseIP` and
-- `net.SplitHostPort` are parameters. A nil IP is the empty list.
pub mod Attempted
pub mod Callbacks
pub mod Guessing
use minisshd.Prelude.{
  ℕ, ◌-◌, ◌%◌, ◌*◌, ◌^◌, Bool, true, false, ◌&&◌, ◌||◌, Option, none, some, List, [], ◌∷◌, ltb, leb,
  ◌==◌, if◌then◌else◌, Bytes, codes, ◌=s=◌, ◌++◌,
}
use mathlib.Core.Option
use minisshd.Prelude.Maps.{lookup}
use minisshd.Ratelimit.Delay.{second, max_delay}
use minisshd.Ratelimit.Limiter.{Limiter, Lease, to4, acquire, release, snapshot}
use minisshd.Auth.Credentials.{Credentials, check, check_username}
use minisshd.Auth.Keyset
use minisshd.Auth.Keyset.{Keyset, Line}

pub data Addr : Type 0 where
  tcp udp ip : Bytes → Addr
  other : Bytes → Addr

-- What a callback does, in order: the calls of the limiter (`Acquire`, the release function it returned,
-- and `Snapshot`), the sleep, the calls of the checks, and the log.
pub data Effect : Type 0 where
  acquired : Effect
  sleep : ℕ → Effect
  checked_credentials checked_username checked_key : Effect
  released : (ok : Bool) → Effect
  read_snapshot : Effect
  auth_ok : (remote user method fingerprint : Bytes) → Effect
  auth_fail :
      (remote user method reason : Bytes) (attempt next_delay : ℕ) (fingerprint : Bytes) → Effect

-- The connection's metadata: the text of the remote address, the address itself, and the user.
pub record Meta : Type 0 where
  pub remote : Bytes
  pub addr : Addr
  pub user : Bytes

-- The second copy of `computeDelay`.
unfoldable pub next_delay : ℕ → ℕ
next_delay fail_count =
    if fail_count == 0 || leb (2 ^ 63) fail_count
    then 0
    else let exp = fail_count - 1 in
      if ltb 62 exp
      then max_delay
      else let d = (2 ^ exp % 2 ^ 64) * second % 2 ^ 64 in
        if ltb max_delay d || leb (2 ^ 63) d then max_delay else d

-- What a callback is run with: the two readings of the limiter's clock.
pub record Times : Type 0 where
  pub at : ℕ
  pub until : ℕ

-- `ok` stands for `&ssh.Permissions{}` with no error.
pub record Result : Type 0 where
  pub limiter : Limiter
  pub effects : List Effect
  pub ok : Bool

module _ (parse_ip split_host : Bytes → Option Bytes) where
  unfoldable pub extract_ip : Addr → Bytes
  extract_ip (tcp a) = a
  extract_ip (udp a) = a
  extract_ip (ip a) = a
  extract_ip (other text) =
      let host = Option.get_or (split_host text) text in Option.get_or (parse_ip host) []

module _ (ip_string : Bytes → Bytes) where
  unfoldable pub normalize_key : Bytes → Bytes
  normalize_key a =
      if a =s= [] then [] else (elim (to4 a) [ some v4 ↦ ip_string v4 | none ↦ ip_string a ])

  -- `snapshot[key]`, 0 on a missing key
  abbrev pub attempts : Limiter → Bytes → ℕ
  attempts l key = Option.get_or (lookup key (snapshot l)) 0

  -- The last part of both callbacks, from `release(ok)` on, and what they have done before.
  unfoldable pub conclude :
      Meta
      → Times
      → Bytes
      → (method : Bytes) → (before : List Effect) → (ok : Bool) (reason fingerprint : Bytes)
      → Limiter
      → Lease
      → Result
  conclude meta t a method before true reason fp l r = record {
    limiter = release true t.until r l;
    effects = before ++ released true ∷ auth_ok meta.remote meta.user method fp ∷ [];
    ok = true;
  }
  conclude meta t a method before false reason fp l r =
      let l' = release false t.until r l in
      let attempt = attempts l' (normalize_key a) in
      record {
        limiter = l';
        effects =
            before
            ++ released false
              ∷ read_snapshot
              ∷ auth_fail meta.remote meta.user method reason attempt (next_delay attempt) fp
              ∷ [];
        ok = false;
      }

  module _ (parse_ip split_host : Bytes → Option Bytes) (sha256 : Bytes → Bytes)
      (creds : Credentials) where
    unfoldable pub password_callback : Meta → Bytes → Times → Limiter → Result
    password_callback meta password t l =
        let a = extract_ip parse_ip split_host meta.addr in
        let (l', r) = acquire ip_string a t.at l in
        let (ok, reason) = (check sha256 creds meta.user password).0 in
        let done = acquired ∷ sleep r.delay ∷ checked_credentials ∷ [] in
        conclude meta t a (codes "password") done ok reason [] l' r

    unfoldable pub publickey_callback :
        (fingerprint trim : Bytes → Bytes) (parse_line : Bytes → Line) (current : Option Keyset)
        → Meta
        → (key : Bytes) → Times
        → Limiter
        → Result
    publickey_callback fingerprint trim parse_line current meta key t l =
        let a = extract_ip parse_ip split_host meta.addr in
        let (l', r) = acquire ip_string a t.at l in
        let (user_ok, user_reason) = (check_username sha256 creds meta.user).0 in
        let (key_ok, key_reason, fp) =
          (Keyset.check sha256 fingerprint trim parse_line current key).0 in
        let reason = if user_ok then key_reason else user_reason in
        let done = acquired ∷ sleep r.delay ∷ checked_username ∷ checked_key ∷ [] in
        conclude meta t a (codes "publickey") done (user_ok && key_ok) reason fp l' r
