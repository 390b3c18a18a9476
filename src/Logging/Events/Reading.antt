-- ===== src/Logging/Events/Reading.antt =====
-- The events of internal/logging/logging.go in logfmt.
use minisshd.Prelude.{
  arith, ℕ, ◌≡◌, [], ◌∷◌, ◌++◌, Bool-cases, inl, inr, some, Bytes, length, ◌=s=◌,
}
use minisshd.Logging.Line.{write_fields}
use minisshd.Logging.Line.ReadBack.{read_fields, pairs, IsKeyed, read_fields-write_fields}
use minisshd.Logging.Events.{
  Call, call_listening, listening, call_conn_open, conn_open, call_conn_close, conn_close,
  call_auth_ok, auth_ok, call_auth_fail, auth_fail, call_session, session, call_reject, reject,
  call_shutdown_signal, shutdown_signal, call_drain_timeout, drain_timeout, call_error, error,
  call_pubkey_parse_error, pubkey_parse_error, call_pubkey_option_ignored, pubkey_option_ignored,
  call_pubkey_keys_missing, pubkey_keys_missing, call_pubkey_reload_ok, pubkey_reload_ok,
  call_pubkey_reload_failed, pubkey_reload_failed, call_forward_open, forward_open,
  call_forward_close, forward_close, call_forward_reject, forward_reject, event_of,
  field_unless_empty, str_field,
}

field_unless_empty-IsKeyed :
    (key v : Bytes) → IsKeyed (str_field key v ∷ []) → IsKeyed (field_unless_empty key v)
field_unless_empty-IsKeyed key v h = elim (Bool-cases (v =s= [])) [
  | inl e ↦ rw e tt
  | inr e ↦ rw e h
]

event_of-IsKeyed :
    (itoa duration_string : ℕ → Bytes) (c : Call)
    → IsKeyed ((event_of itoa duration_string c).fields)
unfolding event_of listening conn_open conn_close auth_ok auth_fail session reject shutdown_signal
    drain_timeout error pubkey_parse_error pubkey_option_ignored pubkey_keys_missing
    pubkey_reload_ok pubkey_reload_failed forward_open forward_close forward_reject
event_of-IsKeyed itoa duration_string
      (call_listening bind port fingerprint user pid auth_methods pubkey_count) =
    ground arith
event_of-IsKeyed itoa duration_string (call_conn_open remote) = ground arith
event_of-IsKeyed itoa duration_string (call_conn_close remote duration) = ground arith
event_of-IsKeyed itoa duration_string (call_auth_ok remote user method fingerprint) = ground arith
event_of-IsKeyed itoa duration_string
      (call_auth_fail remote user method reason attempt next_delay fingerprint) =
    ground arith
event_of-IsKeyed itoa duration_string (call_session remote kind) = ground arith
event_of-IsKeyed itoa duration_string (call_reject remote what) = ground arith
event_of-IsKeyed itoa duration_string (call_shutdown_signal pgid sig reason) = ground arith
event_of-IsKeyed itoa duration_string (call_drain_timeout remote kind bytes_dropped) = ground arith
event_of-IsKeyed itoa duration_string (call_error message remote) = ground arith
event_of-IsKeyed itoa duration_string (call_pubkey_parse_error path line error) = ground arith
event_of-IsKeyed itoa duration_string (call_pubkey_option_ignored path line option) = ground arith
event_of-IsKeyed itoa duration_string (call_pubkey_keys_missing path) = ground arith
event_of-IsKeyed itoa duration_string (call_pubkey_reload_ok path pubkey_count) = ground arith
event_of-IsKeyed itoa duration_string (call_pubkey_reload_failed path error) = ground arith
event_of-IsKeyed itoa duration_string
      (call_forward_open remote dest_host dest_port originator_host originator_port) =
    ground arith
event_of-IsKeyed itoa duration_string
      (call_forward_close remote dest_host dest_port bytes_in bytes_out duration) =
    ground arith
event_of-IsKeyed itoa duration_string (call_forward_reject remote dest_host dest_port reason) =
    ground arith

-- Whatever a method of `Logger` is called with, the fields that `encodeLogfmt` prints for its event,
-- with the newline after them, are read back as the event's keys and values in order.
pub event_of-read :
    (itoa duration_string : ℕ → Bytes) (c : Call)
    → let fields = (event_of itoa duration_string c).fields in
      read_fields (length fields) (write_fields fields ++ 10 ∷ []) ≡ some (pairs fields)
event_of-read itoa duration_string c =
    read_fields-write_fields ((event_of itoa duration_string c).fields)
      (event_of-IsKeyed itoa duration_string c)
