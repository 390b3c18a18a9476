-- ===== src/Logging/Events/Calls.antt =====
-- The calls that `Logger` of internal/logging/logging.go takes, and what an event is made of.
use minisshd.Prelude.{ℕ, List, [], ◌∷◌, if◌then◌else◌, Bytes, codes, ◌=s=◌}
use minisshd.Logging.Line.{Field, string}

abbrev pub level_info : Bytes
level_info = codes "INFO"

abbrev pub level_warn : Bytes
level_warn = codes "WARN"

abbrev pub level_error : Bytes
level_error = codes "ERROR"

pub record Event : Type 0 where
  pub level : Bytes
  pub name : Bytes
  pub fields : List Field

abbrev pub str_field : (key v : Bytes) → Field
str_field key v = record { key = key; value = v; kind = string; num = 0; dur = 0 }

-- A field that is left out when its value is empty.
abbrev pub field_unless_empty : (key v : Bytes) → List Field
field_unless_empty key v = if v =s= [] then [] else str_field key v ∷ []

-- A call of one of the methods.
pub data Call : Type 0 where
  call_listening :
      (bind : Bytes) (port : ℕ) (fingerprint : Bytes) (user : Bytes) (pid : ℕ)
      (auth_methods : Bytes) (pubkey_count : ℕ)
      → Call
  call_conn_open : (remote : Bytes) → Call
  call_conn_close : (remote : Bytes) (duration : ℕ) → Call
  call_auth_ok : (remote : Bytes) (user : Bytes) (method : Bytes) (fingerprint : Bytes) → Call
  call_auth_fail :
      (remote : Bytes) (user : Bytes) (method : Bytes) (reason : Bytes) (attempt : ℕ)
      (next_delay : ℕ) (fingerprint : Bytes)
      → Call
  call_session : (remote : Bytes) (kind : Bytes) → Call
  call_reject : (remote : Bytes) (what : Bytes) → Call
  call_shutdown_signal : (pgid : ℕ) (sig : Bytes) (reason : Bytes) → Call
  call_drain_timeout : (remote : Bytes) (kind : Bytes) (bytes_dropped : ℕ) → Call
  call_error : (message : Bytes) (remote : Bytes) → Call
  call_pubkey_parse_error : (path : Bytes) (line : ℕ) (error : Bytes) → Call
  call_pubkey_option_ignored : (path : Bytes) (line : ℕ) (option : Bytes) → Call
  call_pubkey_keys_missing : (path : Bytes) → Call
  call_pubkey_reload_ok : (path : Bytes) (pubkey_count : ℕ) → Call
  call_pubkey_reload_failed : (path : Bytes) (error : Bytes) → Call
  call_forward_open :
      (remote : Bytes) (dest_host : Bytes) (dest_port : ℕ) (originator_host : Bytes)
      (originator_port : ℕ)
      → Call
  call_forward_close :
      (remote : Bytes) (dest_host : Bytes) (dest_port : ℕ) (bytes_in : ℕ) (bytes_out : ℕ)
      (duration : ℕ)
      → Call
  call_forward_reject : (remote : Bytes) (dest_host : Bytes) (dest_port : ℕ) (reason : Bytes) → Call
