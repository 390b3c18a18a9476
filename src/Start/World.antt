-- ===== src/Start/World.antt =====
-- What `run` of cmd/minisshd/main.go takes from outside: the parsed flags, the environment, the user,
-- the network, the random numbers, and the functions of packages that are not in the repository.
use minisshd.Prelude.{ℕ, ℤ, Bool, Option, none, some, [], List, Bytes}
use mathlib.Core.Option
use minisshd.HostKey.Files.{Files}
use minisshd.HostKey.Load.{Keys}
use minisshd.Auth.Keyset.{File, Line}
use minisshd.Auth.Resolve.{Home}

-- The flags' values, and for some of them whether they were given.
pub record Flags : Type 0 where
  pub port : ℤ
  pub bind : Bytes
  pub pass : Bytes
  pub pass_set : Bool
  pub user : Bytes
  pub shell : Bytes
  pub host_key : Bytes
  pub host_key_set : Bool
  pub log_format : Bytes
  pub log_format_set : Bool
  pub auth : Bytes
  pub auth_set : Bool
  pub authorized_keys : Bytes
  pub authorized_keys_set : Bool
  pub forward_max : ℤ
  pub forward_max_set : Bool

pub record World (S K : Type 0) : Type 0 where
  pub flags : Option Flags  -- none if `Parse` fails
  pub env : Bytes → Option Bytes
  pub current_user : Option Bytes
  pub home : Home
  pub pid : ℕ
  pub parse_ip : Bytes → Option Bytes  -- with the text of the IP
  pub listen : (ip : Bytes) (port : ℕ) → Option ℕ  -- the bound port
  pub drawn : Option ℕ  -- what `GeneratePassword` draws
  pub sentinel : Option Bytes  -- what `rand.Read` fills in
  pub keys_file : Bytes → File
  pub fs : Files S
  pub keys : Keys K
  pub eval_symlinks : Bytes → S → Option Bytes
  pub dir : Bytes → Bytes
  pub join : List Bytes → Bytes
  pub atoi : Bytes → Option ℤ
  pub trim : Bytes → Bytes
  pub hex : Bytes → Bytes
  pub sha256 : Bytes → Bytes
  pub key_fingerprint : Bytes → Bytes
  pub trim_line : Bytes → Bytes
  pub parse_line : Bytes → Line
  pub marshal_string : Bytes → Bytes  -- `json.Marshal` of a string

module _ {S K : Type 0} (w : World S K) where
  abbrev pub is_set : Bytes → Bool
  is_set name = elim (w.env name) [ none ↦ Bool.false | some v ↦ Bool.true ]

  abbrev pub getenv : Bytes → Bytes
  getenv name = Option.get_or (w.env name) []
