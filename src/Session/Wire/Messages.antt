-- ===== src/Session/Wire/Messages.antt =====
-- Whole messages: the layouts of RFC 4254 that the parsers of internal/session/helpers.go are to
-- read, and a reader of the payload of `exit-signal`.
use minisshd.Prelude.{
  ℕ, ◌+◌, ◌<◌, ◌^◌, ◌≡◌, sym, ap, ◌∙◌, Bool, true, false, [], ◌∷◌, ◌++◌, arith, if◌then◌else◌,
  Bytes, length, codes, append_assoc, length-append, append-nil, ◌==◌,
}
use minisshd.Session.Wire.{
  Read, ok, bad, ◌>>=◌, put32, read_ssh_string, read_uint32, PtyReq, parse_pty_req, WinChange,
  parse_window_change, EnvReq, parse_env_req, parse_exec_command, parse_subsystem_name,
  append_ssh_string, exit_signal_payload,
}
use minisshd.Session.Wire.RoundTrip.{read_uint32-put32, read_ssh_string-append}

abbrev pub string_field : Bytes → Bytes
string_field s = append_ssh_string [] s

-- RFC 4254, 6.2: TERM, columns, rows, width and height in pixels, modes.
abbrev pub encode_pty_req : PtyReq → Bytes
encode_pty_req r =
    string_field r.term
    ++ (put32 r.cols
        ++ (put32 r.rows ++ (put32 r.width_px ++ (put32 r.height_px ++ string_field r.modes))))

-- RFC 4254, 6.7 and 6.4.
abbrev pub encode_win_change : WinChange → Bytes
encode_win_change r = put32 r.cols ++ (put32 r.rows ++ (put32 r.width_px ++ put32 r.height_px))

abbrev pub encode_env_req : EnvReq → Bytes
encode_env_req r = string_field r.name ++ string_field r.value

abbrev pub IsWord : ℕ → Type 0
IsWord n = n < 2 ^ 32

string-end :
    (what s : Bytes) → 4 + length s < 2 ^ 32 → read_ssh_string what (string_field s) ≡ ok (s, [])
string-end what s h =
    ap (read_ssh_string what) (sym (append-nil (string_field s)))
    ∙ read_ssh_string-append what s [] (omega arith)

length-string_field : (s : Bytes) → length (string_field s) ≡ 4 + length s
unfolding append_ssh_string
length-string_field s = omega arith

uint32-end : (what : Bytes) (n : ℕ) → IsWord n → read_uint32 what (put32 n) ≡ ok (n, [])
uint32-end what n h = read_uint32-put32 what n [] h

-- A pty-req laid out as RFC 4254 says, with 32-bit sizes and shorter than 2 ^ 32 bytes, is parsed
-- into what was encoded.
parse_pty_req-encode :
    (r : PtyReq)
    → IsWord r.cols
    → IsWord r.rows
    → IsWord r.width_px
    → IsWord r.height_px
    → 24 + length r.term + length r.modes < 2 ^ 32
    → parse_pty_req (encode_pty_req r) ≡ ok r
unfolding parse_pty_req
parse_pty_req-encode r c w x y h =
    let after =
      put32 r.cols
      ++ (put32 r.rows ++ (put32 r.width_px ++ (put32 r.height_px ++ string_field r.modes))) in
    rw (
      read_ssh_string-append (codes "pty-req: malformed TERM") r.term after
          (omega (arith, length-string_field r.modes)),
      read_uint32-put32 (codes "pty-req: malformed cols") r.cols _ c,
      read_uint32-put32 (codes "pty-req: malformed rows") r.rows _ w,
      read_uint32-put32 (codes "pty-req: malformed width px") r.width_px _ x,
      read_uint32-put32 (codes "pty-req: malformed height px") r.height_px _ y,
      string-end (codes "pty-req: malformed modes") r.modes (omega arith),
    )

-- A window-change laid out as RFC 4254 says, of four 32-bit numbers, is parsed into what was encoded.
parse_window_change-encode :
    (r : WinChange)
    → IsWord r.cols
    → IsWord r.rows
    → IsWord r.width_px
    → IsWord r.height_px
    → parse_window_change (encode_win_change r) ≡ ok r
unfolding parse_window_change
parse_window_change-encode r c w x y = rw (
  read_uint32-put32 (codes "window-change: malformed cols") r.cols _ c,
  read_uint32-put32 (codes "window-change: malformed rows") r.rows _ w,
  read_uint32-put32 (codes "window-change: malformed width px") r.width_px _ x,
  uint32-end (codes "window-change: malformed height px") r.height_px y,
)

-- An env request laid out as RFC 4254 says, a name and a value in fewer than 2 ^ 32 bytes, is parsed
-- into what was encoded.
parse_env_req-encode :
    (r : EnvReq)
    → 8 + length r.name + length r.value < 2 ^ 32
    → parse_env_req (encode_env_req r) ≡ ok r
unfolding parse_env_req
parse_env_req-encode r h = rw (
  read_ssh_string-append (codes "env: malformed name") r.name (string_field r.value)
      (omega (arith, length-string_field r.value)),
  string-end (codes "env: malformed value") r.value (omega arith),
)

-- A single string in fewer than 2 ^ 32 bytes, laid out as RFC 4254 says, is parsed back both as the
-- command of an exec request and as the name of a subsystem request.
parse_string-encode :
    (s : Bytes)
    → 4 + length s < 2 ^ 32
    → (parse_exec_command (string_field s) ≡ ok s) × (parse_subsystem_name (string_field s) ≡ ok s)
unfolding parse_exec_command parse_subsystem_name
parse_string-encode s h = (
  rw (string-end (codes "exec: malformed command") s h),
  rw (string-end (codes "subsystem: malformed name") s h),
)

-- A message that a client sends in a request, with what the parsers are to give back.
pub data Message : Type 0 where
  pty_req : PtyReq → Message
  window_change : WinChange → Message
  env : EnvReq → Message
  exec subsystem : Bytes → Message

-- Its numbers are below 2 ^ 32, and so is the length of its texts with their headers.
abbrev pub IsSized : Message → Type 0
IsSized (pty_req r) =
    IsWord r.cols
    × IsWord r.rows
    × IsWord r.width_px
    × IsWord r.height_px
    × (24 + length r.term + length r.modes < 2 ^ 32)
IsSized (window_change r) = IsWord r.cols × IsWord r.rows × IsWord r.width_px × IsWord r.height_px
IsSized (env r) = 8 + length r.name + length r.value < 2 ^ 32
IsSized (exec s) = 4 + length s < 2 ^ 32
IsSized (subsystem s) = 4 + length s < 2 ^ 32

-- The layout of RFC 4254 is parsed into what was laid out.
abbrev pub IsReadBack : Message → Type 0
IsReadBack (pty_req r) = parse_pty_req (encode_pty_req r) ≡ ok r
IsReadBack (window_change r) = parse_window_change (encode_win_change r) ≡ ok r
IsReadBack (env r) = parse_env_req (encode_env_req r) ≡ ok r
IsReadBack (exec s) = parse_exec_command (string_field s) ≡ ok s
IsReadBack (subsystem s) = parse_subsystem_name (string_field s) ≡ ok s

-- Each message of a client, pty-req, window-change, env, exec and subsystem, is parsed by its parser
-- into what was encoded, if it is laid out as RFC 4254 says, with numbers below 2 ^ 32, and its texts
-- with their headers, or the whole of a pty-req, take fewer than 2 ^ 32 bytes.
pub message-IsReadBack : (m : Message) → IsSized m → IsReadBack m
message-IsReadBack (pty_req r) (c, w, x, y, h) = parse_pty_req-encode r c w x y h
message-IsReadBack (window_change r) (c, w, x, y) = parse_window_change-encode r c w x y
message-IsReadBack (env r) h = parse_env_req-encode r h
message-IsReadBack (exec s) h = (parse_string-encode s h).0
message-IsReadBack (subsystem s) h = (parse_string-encode s h).1

-- The client's side of `exit-signal`: the name, the flag byte, the message and the language tag.
abbrev pub flag_byte : Bytes → Read (Bool × Bytes)
flag_byte [] = bad []
flag_byte (b ∷ rest) = ok (if b == 0 then false else true, rest)

unfoldable pub decode_exit_signal : Bytes → Read (Bytes × Bool × Bytes × Bytes)
decode_exit_signal payload = do
  (name, p1) ← read_ssh_string [] payload
  (core, p2) ← flag_byte p1
  (message, p3) ← read_ssh_string [] p2
  (language, p4) ← read_ssh_string [] p3
  ok (name, core, message, language)

exit_signal-layout :
    (name : Bytes) (core : Bool) (message : Bytes)
    → exit_signal_payload name core message
      ≡ string_field name ++ (if core then 1 else 0) ∷ (string_field message ++ string_field [])
unfolding exit_signal_payload append_ssh_string
exit_signal-layout name core message = simp append_assoc

-- The payload of `exit-signal`, decoded by its RFC layout, gives back the signal's name, whether the
-- core was dumped and the message, with an empty language tag.
pub decode-exit_signal_payload :
    (name : Bytes) (core : Bool) (message : Bytes)
    → 13 + length name + length message < 2 ^ 32
    → decode_exit_signal (exit_signal_payload name core message) ≡ ok (name, core, message, [])
unfolding decode_exit_signal
decode-exit_signal_payload name core message h =
    let flagged = (if core then 1 else 0) ∷ (string_field message ++ string_field []) in
    rw
      (
        exit_signal-layout name core message,
        read_ssh_string-append [] name flagged (
            omega (
              arith,
              length-append (string_field message) (string_field []),
              length-string_field message,
              length-string_field [],
            )),
        read_ssh_string-append [] message (string_field []) (omega (arith, length-string_field [])),
        string-end [] [] (omega arith),
      )
      (ground arith)
