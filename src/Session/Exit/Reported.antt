-- ===== src/Session/Exit/Reported.antt =====
-- What the client reads of a child's end.
use minisshd.Prelude.{
  ℕ, ◌+◌, ◌<◌, ◌^◌, ◌≡◌, refl, Bool, [], arith, if◌then◌else◌, Bytes, codes, length, ◌=s=◌, ◌++◌,
  drop, ap, ◌∙◌,
}
use minisshd.Session.Wire.{
  Read, ok, ◌>>=◌, read_uint32, u32, exit_status_payload, exit_signal_payload,
}
use minisshd.Session.Wire.RoundTrip.{read_uint32-put32}
use minisshd.Session.Wire.Messages.{decode_exit_signal, decode-exit_signal_payload}
use minisshd.Session.Exit.{
  Signal, sighup, sigint, sigquit, sigill, sigabrt, sigfpe, sigkill, sigsegv, sigpipe, sigalrm,
  sigterm, sigusr1, sigusr2, other_signal, signal_name, ProcessState, absent, opaque_state,
  signaled, exited, other_state, Sent, send_exit,
}

pub data Report : Type 0 where
  status : (code : ℕ) → Report
  signal_report : (name : Bytes) (core : Bool) (message : Bytes) → Report

-- The client's reading of the request.
pub decode_report : Sent → Read Report
decode_report sent =
    let as_status : Read Report = (do
      (code, rest) ← read_uint32 [] sent.payload
      ok (status code)) in
    let as_signal : Read Report = (do
      (name, core, message, language) ← decode_exit_signal sent.payload
      ok (signal_report name core message)) in
    if sent.name =s= codes "exit-status" then as_status else as_signal

-- The POSIX names.
abbrev pub posix_name : Signal → Bytes
posix_name sighup = codes "SIGHUP"
posix_name sigint = codes "SIGINT"
posix_name sigquit = codes "SIGQUIT"
posix_name sigill = codes "SIGILL"
posix_name sigabrt = codes "SIGABRT"
posix_name sigfpe = codes "SIGFPE"
posix_name sigkill = codes "SIGKILL"
posix_name sigsegv = codes "SIGSEGV"
posix_name sigpipe = codes "SIGPIPE"
posix_name sigalrm = codes "SIGALRM"
posix_name sigterm = codes "SIGTERM"
posix_name sigusr1 = codes "SIGUSR1"
posix_name sigusr2 = codes "SIGUSR2"
posix_name (other_signal text) = text

-- RFC 4254 names a signal by its POSIX name without "SIG"; one that it has no name for stands as TERM,
-- with the text in the message.
abbrev pub report_signal : Signal → Bool → Report
report_signal (other_signal text) core =
    signal_report (codes "TERM") core (codes "unmapped signal: " ++ text)
report_signal signal core = signal_report (drop 3 (posix_name signal)) core []

-- A process that a signal ended is reported by the signal, every other by its status.
abbrev pub report_of : ProcessState → Report
report_of absent = status 0
report_of (opaque_state exit_code) = status (exit_code)
report_of (signaled signal core_dump) = report_signal signal core_dump
report_of (exited exit_status) = status exit_status
report_of other_state = status 0

-- Codes are `uint32`s, and the text of a signal without an SSH name fits a message.
abbrev pub IsReportable : ProcessState → Type 0
IsReportable absent = Unit
IsReportable (opaque_state exit_code) = exit_code < 2 ^ 32
IsReportable (signaled (other_signal text) core_dump) = 34 + length text < 2 ^ 32
IsReportable (signaled _ core_dump) = Unit
IsReportable (exited exit_status) = exit_status < 2 ^ 32
IsReportable other_state = Unit

decode-status :
    (code : ℕ)
    → code < 2 ^ 32
    → decode_report
        (record { name = codes "exit-status"; payload = exit_status_payload (u32 code) })
      ≡ ok (status code)
unfolding decode_report ◌=s=◌ exit_status_payload
decode-status code h =
    let kept : u32 code ≡ code = omega arith in rw (kept, read_uint32-put32 [] code [] h) refl

decode-signal :
    (name : Bytes) (core : Bool) (message : Bytes)
    → 13 + length name + length message < 2 ^ 32
    → decode_report
        (record { name = codes "exit-signal"; payload = exit_signal_payload name core message })
      ≡ ok (signal_report name core message)
unfolding decode_report ◌=s=◌
decode-signal name core message h = rw (decode-exit_signal_payload name core message h) refl

-- The name and the message of a signal fit.
signal_name-fits :
    (signal : Signal) (core : Bool)
    → IsReportable (signaled signal core)
    → 13 + length ((signal_name signal).0) + length ((signal_name signal).1) < 2 ^ 32
unfolding signal_name
signal_name-fits sighup core h = omega arith
signal_name-fits sigint core h = omega arith
signal_name-fits sigquit core h = omega arith
signal_name-fits sigill core h = omega arith
signal_name-fits sigabrt core h = omega arith
signal_name-fits sigfpe core h = omega arith
signal_name-fits sigkill core h = omega arith
signal_name-fits sigsegv core h = omega arith
signal_name-fits sigpipe core h = omega arith
signal_name-fits sigalrm core h = omega arith
signal_name-fits sigterm core h = omega arith
signal_name-fits sigusr1 core h = omega arith
signal_name-fits sigusr2 core h = omega arith
signal_name-fits (other_signal text) core h = omega arith

signal_name-reports :
    (signal : Signal) (core : Bool)
    → signal_report ((signal_name signal).0) core ((signal_name signal).1)
      ≡ report_signal signal core
unfolding signal_name
signal_name-reports sighup core = refl
signal_name-reports sigint core = refl
signal_name-reports sigquit core = refl
signal_name-reports sigill core = refl
signal_name-reports sigabrt core = refl
signal_name-reports sigfpe core = refl
signal_name-reports sigkill core = refl
signal_name-reports sigsegv core = refl
signal_name-reports sigpipe core = refl
signal_name-reports sigalrm core = refl
signal_name-reports sigterm core = refl
signal_name-reports sigusr1 core = refl
signal_name-reports sigusr2 core = refl
signal_name-reports (other_signal text) core = refl

-- For the end of any child, the message that `sendExit` sends is decoded by its RFC layout as what
-- happened: the exit status where there is one; for a signal that killed the child the POSIX name
-- without "SIG" and the core flag, or, if it is none of the thirteen that have an SSH name, TERM with the signal's text in the message;
-- and status 0 otherwise. Codes
-- are below 2 ^ 32, and the text of a signal without a name fits a message.
pub send_exit-reports :
    (ps : ProcessState) → IsReportable ps → decode_report (send_exit ps) ≡ ok (report_of ps)
unfolding send_exit
send_exit-reports absent h = decode-status 0 (omega arith)
send_exit-reports (opaque_state exit_code) h = decode-status exit_code h
send_exit-reports (signaled signal core_dump) h =
    decode-signal _ core_dump _ (signal_name-fits signal core_dump h)
    ∙ ap ok (signal_name-reports signal core_dump)
send_exit-reports (exited exit_status) h = decode-status exit_status h
send_exit-reports other_state h = decode-status 0 (omega arith)
