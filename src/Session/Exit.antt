-- ===== src/Session/Exit.antt =====
-- How a child's end is reported: `signalName` of internal/session/helpers.go and `sendExit` of
-- internal/session/service.go.
pub mod Reported
use minisshd.Prelude.{ℕ, ◌%◌, ◌^◌, Bool, Bytes, [], codes, ◌++◌}
use minisshd.Session.Wire.{u32, exit_status_payload, exit_signal_payload}

-- A signal of `syscall` that has an SSH name, or any other `os.Signal` with the text `%v` prints.
pub data Signal : Type 0 where
  sighup sigint sigquit sigill sigabrt sigfpe sigkill sigsegv sigpipe sigalrm sigterm sigusr1
        sigusr2 :
      Signal
  other_signal : (text : Bytes) → Signal

unfoldable pub signal_name : Signal → Bytes × Bytes
signal_name sighup = (codes "HUP", [])
signal_name sigint = (codes "INT", [])
signal_name sigquit = (codes "QUIT", [])
signal_name sigill = (codes "ILL", [])
signal_name sigabrt = (codes "ABRT", [])
signal_name sigfpe = (codes "FPE", [])
signal_name sigkill = (codes "KILL", [])
signal_name sigsegv = (codes "SEGV", [])
signal_name sigpipe = (codes "PIPE", [])
signal_name sigalrm = (codes "ALRM", [])
signal_name sigterm = (codes "TERM", [])
signal_name sigusr1 = (codes "USR1", [])
signal_name sigusr2 = (codes "USR2", [])
signal_name (other_signal text) = (codes "TERM", codes "unmapped signal: " ++ text)

-- `*os.ProcessState`: nil, one whose `Sys` is no `WaitStatus`, and the three answers of a
-- `WaitStatus`. An exit code is given as the `uint32` that the source converts it to.
pub data ProcessState : Type 0 where
  absent : ProcessState
  opaque_state : (exit_code : ℕ) → ProcessState
  signaled : (signal : Signal) (core_dump : Bool) → ProcessState
  exited : (exit_status : ℕ) → ProcessState
  other_state : ProcessState

-- The request that goes to the client; none wants a reply.
pub record Sent : Type 0 where
  pub name : Bytes
  pub payload : Bytes

unfoldable pub send_exit : ProcessState → Sent
send_exit absent = record { name = codes "exit-status"; payload = exit_status_payload 0 }
send_exit (opaque_state exit_code) = record {
  name = codes "exit-status";
  payload = exit_status_payload (u32 exit_code);
}
send_exit (signaled signal core_dump) =
    let (name, err_msg) = signal_name signal in
    record { name = codes "exit-signal"; payload = exit_signal_payload name core_dump err_msg }
send_exit (exited exit_status) = record {
  name = codes "exit-status";
  payload = exit_status_payload (u32 exit_status);
}
send_exit other_state = record { name = codes "exit-status"; payload = exit_status_payload 0 }
