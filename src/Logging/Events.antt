-- ===== src/Logging/Events.antt =====
-- The events of internal/logging/logging.go: a function per method of `Logger`, which gives the
-- level, the name and the fields that the method hands to `emit`. `itoa` and `duration_string` are
-- `fmt`'s decimal and `Duration.String`.
mod Calls
pub mod Reading
pub use Calls.*
use minisshd.Prelude.{ℕ, Bool, List, [], ◌∷◌, ◌++◌, if◌then◌else◌, Bytes, codes, ◌=s=◌}
use minisshd.Logging.Line.{Field, Kind, string, int, duration_sec}

module _ (itoa duration_string : ℕ → Bytes) where
  abbrev pub int_field : Bytes → ℕ → Field
  int_field key n = record { key = key; value = itoa n; kind = int; num = n; dur = 0 }

  abbrev pub dur_field : Bytes → ℕ → Field
  dur_field key d = record {
    key = key;
    value = duration_string d;
    kind = duration_sec;
    num = 0;
    dur = d;
  }

  unfoldable pub listening :
      (bind : Bytes) (port : ℕ) (fingerprint : Bytes) (user : Bytes) (pid : ℕ)
      (auth_methods : Bytes) (pubkey_count : ℕ)
      → Event
  listening bind port fingerprint user pid auth_methods pubkey_count = record {
    level = level_info;
    name = codes "listening";
    fields =
        str_field (codes "bind") bind
        ∷ int_field (codes "port") port
        ∷ str_field (codes "fingerprint") fingerprint
        ∷ str_field (codes "user") user
        ∷ int_field (codes "pid") pid
        ∷ str_field (codes "auth_methods") auth_methods
        ∷ int_field (codes "pubkey_count") pubkey_count
        ∷ [];
  }

  unfoldable pub conn_open : (remote : Bytes) → Event
  conn_open remote = record {
    level = level_info;
    name = codes "conn-open";
    fields = str_field (codes "remote") remote ∷ [];
  }

  unfoldable pub conn_close : (remote : Bytes) (duration : ℕ) → Event
  conn_close remote duration = record {
    level = level_info;
    name = codes "conn-close";
    fields = str_field (codes "remote") remote ∷ dur_field (codes "duration") duration ∷ [];
  }

  unfoldable pub auth_ok :
      (remote : Bytes) (user : Bytes) (method : Bytes) (fingerprint : Bytes) → Event
  auth_ok remote user method fingerprint = record {
    level = level_info;
    name = codes "auth-ok";
    fields =
        (str_field (codes "remote") remote
          ∷ str_field (codes "user") user
          ∷ str_field (codes "method") method
          ∷ [])
        ++ field_unless_empty (codes "fingerprint") fingerprint;
  }

  unfoldable pub auth_fail :
      (remote : Bytes) (user : Bytes) (method : Bytes) (reason : Bytes) (attempt : ℕ)
      (next_delay : ℕ) (fingerprint : Bytes)
      → Event
  auth_fail remote user method reason attempt next_delay fingerprint = record {
    level = level_warn;
    name = codes "auth-fail";
    fields =
        (str_field (codes "remote") remote
          ∷ str_field (codes "user") user
          ∷ str_field (codes "method") method
          ∷ str_field (codes "reason") reason
          ∷ int_field (codes "attempt") attempt
          ∷ dur_field (codes "next_delay") next_delay
          ∷ [])
        ++ field_unless_empty (codes "fingerprint") fingerprint;
  }

  unfoldable pub session : (remote : Bytes) (kind : Bytes) → Event
  session remote kind = record {
    level = level_info;
    name = codes "session";
    fields = str_field (codes "remote") remote ∷ str_field (codes "kind") kind ∷ [];
  }

  unfoldable pub reject : (remote : Bytes) (what : Bytes) → Event
  reject remote what = record {
    level = level_warn;
    name = codes "reject";
    fields = str_field (codes "remote") remote ∷ str_field (codes "what") what ∷ [];
  }

  unfoldable pub shutdown_signal : (pgid : ℕ) (sig : Bytes) (reason : Bytes) → Event
  shutdown_signal pgid sig reason = record {
    level = level_info;
    name = codes "shutdown-signal";
    fields =
        int_field (codes "pgid") pgid
        ∷ str_field (codes "sig") sig
        ∷ str_field (codes "reason") reason
        ∷ [];
  }

  unfoldable pub drain_timeout : (remote : Bytes) (kind : Bytes) (bytes_dropped : ℕ) → Event
  drain_timeout remote kind bytes_dropped = record {
    level = level_warn;
    name = codes "drain-timeout";
    fields =
        str_field (codes "remote") remote
        ∷ str_field (codes "kind") kind
        ∷ int_field (codes "bytes_dropped") bytes_dropped
        ∷ [];
  }

  unfoldable pub error : (message : Bytes) (remote : Bytes) → Event
  error message remote = record {
    level = level_error;
    name = codes "error";
    fields =
        (str_field (codes "message") message ∷ []) ++ field_unless_empty (codes "remote") remote;
  }

  unfoldable pub pubkey_parse_error : (path : Bytes) (line : ℕ) (error : Bytes) → Event
  pubkey_parse_error path line error = record {
    level = level_warn;
    name = codes "pubkey-parse-error";
    fields =
        str_field (codes "path") path
        ∷ int_field (codes "line") line
        ∷ str_field (codes "error") error
        ∷ [];
  }

  unfoldable pub pubkey_option_ignored : (path : Bytes) (line : ℕ) (option : Bytes) → Event
  pubkey_option_ignored path line option = record {
    level = level_warn;
    name = codes "pubkey-option-ignored";
    fields =
        str_field (codes "path") path
        ∷ int_field (codes "line") line
        ∷ str_field (codes "option") option
        ∷ [];
  }

  unfoldable pub pubkey_keys_missing : (path : Bytes) → Event
  pubkey_keys_missing path = record {
    level = level_warn;
    name = codes "pubkey-keys-missing";
    fields = str_field (codes "path") path ∷ [];
  }

  unfoldable pub pubkey_reload_ok : (path : Bytes) (pubkey_count : ℕ) → Event
  pubkey_reload_ok path pubkey_count = record {
    level = level_info;
    name = codes "pubkey-reload-ok";
    fields = str_field (codes "path") path ∷ int_field (codes "pubkey_count") pubkey_count ∷ [];
  }

  unfoldable pub pubkey_reload_failed : (path : Bytes) (error : Bytes) → Event
  pubkey_reload_failed path error = record {
    level = level_warn;
    name = codes "pubkey-reload-failed";
    fields = str_field (codes "path") path ∷ str_field (codes "error") error ∷ [];
  }

  unfoldable pub forward_open :
      (remote : Bytes) (dest_host : Bytes) (dest_port : ℕ) (originator_host : Bytes)
      (originator_port : ℕ)
      → Event
  forward_open remote dest_host dest_port originator_host originator_port = record {
    level = level_info;
    name = codes "forward-open";
    fields =
        str_field (codes "remote") remote
        ∷ str_field (codes "dest_host") dest_host
        ∷ int_field (codes "dest_port") dest_port
        ∷ str_field (codes "originator_host") originator_host
        ∷ int_field (codes "originator_port") originator_port
        ∷ [];
  }

  unfoldable pub forward_close :
      (remote : Bytes) (dest_host : Bytes) (dest_port : ℕ) (bytes_in : ℕ) (bytes_out : ℕ)
      (duration : ℕ)
      → Event
  forward_close remote dest_host dest_port bytes_in bytes_out duration = record {
    level = level_info;
    name = codes "forward-close";
    fields =
        str_field (codes "remote") remote
        ∷ str_field (codes "dest_host") dest_host
        ∷ int_field (codes "dest_port") dest_port
        ∷ int_field (codes "bytes_in") bytes_in
        ∷ int_field (codes "bytes_out") bytes_out
        ∷ dur_field (codes "duration") duration
        ∷ [];
  }

  unfoldable pub forward_reject :
      (remote : Bytes) (dest_host : Bytes) (dest_port : ℕ) (reason : Bytes) → Event
  forward_reject remote dest_host dest_port reason = record {
    level = level_warn;
    name = codes "forward-reject";
    fields =
        str_field (codes "remote") remote
        ∷ str_field (codes "dest_host") dest_host
        ∷ int_field (codes "dest_port") dest_port
        ∷ str_field (codes "reason") reason
        ∷ [];
  }

  unfoldable pub event_of : Call → Event
  event_of (call_listening bind port fingerprint user pid auth_methods pubkey_count) =
      listening bind port fingerprint user pid auth_methods pubkey_count
  event_of (call_conn_open remote) = conn_open remote
  event_of (call_conn_close remote duration) = conn_close remote duration
  event_of (call_auth_ok remote user method fingerprint) = auth_ok remote user method fingerprint
  event_of (call_auth_fail remote user method reason attempt next_delay fingerprint) =
      auth_fail remote user method reason attempt next_delay fingerprint
  event_of (call_session remote kind) = session remote kind
  event_of (call_reject remote what) = reject remote what
  event_of (call_shutdown_signal pgid sig reason) = shutdown_signal pgid sig reason
  event_of (call_drain_timeout remote kind bytes_dropped) = drain_timeout remote kind bytes_dropped
  event_of (call_error message remote) = error message remote
  event_of (call_pubkey_parse_error path line error) = pubkey_parse_error path line error
  event_of (call_pubkey_option_ignored path line option) = pubkey_option_ignored path line option
  event_of (call_pubkey_keys_missing path) = pubkey_keys_missing path
  event_of (call_pubkey_reload_ok path pubkey_count) = pubkey_reload_ok path pubkey_count
  event_of (call_pubkey_reload_failed path error) = pubkey_reload_failed path error
  event_of (call_forward_open remote dest_host dest_port originator_host originator_port) =
      forward_open remote dest_host dest_port originator_host originator_port
  event_of (call_forward_close remote dest_host dest_port bytes_in bytes_out duration) =
      forward_close remote dest_host dest_port bytes_in bytes_out duration
  event_of (call_forward_reject remote dest_host dest_port reason) =
      forward_reject remote dest_host dest_port reason
