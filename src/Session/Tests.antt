-- ===== src/Session/Tests.antt =====
-- The theorems on session channels at concrete requests.
use minisshd.Prelude.{
  ◌=s=◌, ◌++◌, ℕ, ◌+◌, ◌⊎◌, some, Bool, false, ltb, ◌≡◌, ◌≢◌, refl, true, none, List, [], ◌∷◌,
  Bytes, codes, arith,
}
use minisshd.Prelude.Maps.{insert}
use minisshd.Session.Wire.{ok, PtyReq, WinChange, EnvReq, append_ssh_string}
use minisshd.Session.Wire.Messages.{string_field}
use minisshd.Session.Wire.Messages.{encode_pty_req, pty_req, IsReadBack, message-IsReadBack}
use mathlib.Core.List.{Perm, Permᴰ}
use minisshd.Session.Env.{
  Env, picked_env, index_equal, index_equal_from, render, pick, key_value, pick_locale, override,
  set_term, filter_env,
}
use minisshd.Session.Env.Entries.{IsName}
use minisshd.Session.Env.Unordered.{build_env-unordered}
use minisshd.Session.Env.Lookup.{expected, last_value}
use minisshd.Session.Exit.{absent, signaled, sigkill, send_exit}
use minisshd.Session.Exit.Reported.{decode_report, report_of, send_exit-reports}
use minisshd.Session.Requests.{
  first_phase, Request, Alloc, Service, State, initial, pre_spawn, pre_spawn_dispatch, panicked,
}
use minisshd.Session.Requests.Invariant.{IsValid, IsConfined, pre_spawn-IsConfined}
use minisshd.Session.Requests.Replies.{
  IsAnswered, pre_spawn_dispatch-IsAnswered, pre_spawn-ne-panicked,
}
use minisshd.Session.Child.{
  process, shutdown_grace, nap, Ending, kill, log_shutdown_signal, kill_overdue, signal_and_kill,
}
use minisshd.Session.Child.Kill.{IsEnding, signal_and_kill-ends}
use minisshd.Session.Child.Supervise.{
  draining, returned, selecting, reaping, Pc, wait_returns, and_copies, Supervised, begin, reap,
  cancel, start, happened, none_yet, and_move, and_end,
}
use minisshd.Session.Child.Supervise
use minisshd.Session.Resize
use minisshd.Session.Resize.Safety.{resize-open}
use minisshd.Session.Child.Supervise.Liveness.{shutdown-waits}
use minisshd.Session.Child.{close_channel}
use minisshd.Session.Sftp
use minisshd.Session.Handle.{Event, after, World, second_phase, handle}
use minisshd.Session.Handle.Settled.{closed, closes, handle-closed}
use minisshd.Session.Handle.Answered.{marks, committed, second_phase-answers}

abbrev xterm : PtyReq
xterm = record {
  term = codes "xterm";
  cols = 80;
  rows = 24;
  width_px = 0;
  height_px = 0;
  modes = 0 ∷ [];
}

abbrev wide : WinChange
wide = record { cols = 300; rows = 24; width_px = 0; height_px = 0 }

abbrev lang : EnvReq
lang = record { name = codes "LANG"; value = codes "C" }

send_exit-reports_example :
    decode_report (send_exit (signaled sigkill true)) ≡ ok (report_of (signaled sigkill true))
send_exit-reports_example = send_exit-reports (signaled sigkill true) tt

abbrev host_env : List Bytes
host_env = codes "HOME=/root" ∷ codes "SECRET=x" ∷ []

abbrev from_channel : Env
from_channel = (codes "LC_ALL", codes "C") ∷ []

locale-IsName : IsName (codes "LC_ALL")
unfolding index_equal index_equal_from
locale-IsName = (refl, λ e. cc)

-- The client's variable before the server's.
abbrev swapped : Env
swapped = (codes "LC_ALL", codes "C") ∷ (codes "HOME", codes "/root") ∷ []

host_env-swapped : Perm (picked_env host_env from_channel none) swapped
unfolding picked_env pick key_value index_equal index_equal_from pick_locale override set_term
    insert filter_env ◌=s=◌
host_env-swapped = ∣ Permᴰ.swap refl refl ∣₁

build_env-unordered_example :
    last_value (codes "HOME") (render swapped) ≡ expected host_env from_channel none (codes "HOME")
build_env-unordered_example =
    build_env-unordered host_env from_channel none (locale-IsName, tt) swapped host_env-swapped
      (codes "HOME")

-- A name with '=' in it passes the filter, and then two entries set one variable: which of them is the
-- last depends on the order of the map.
abbrev two_entries : Env
two_entries = (codes "LC_A", codes "z") ∷ (codes "LC_A=x", codes "y") ∷ []

abbrev two_entries_swapped : Env
two_entries_swapped = (codes "LC_A=x", codes "y") ∷ (codes "LC_A", codes "z") ∷ []

filter_env-ambiguous :
    (filter_env (codes "LC_A=x") ≡ true)
    × (last_value (codes "LC_A") (render two_entries) ≡ some (codes "x=y"))
    × (last_value (codes "LC_A") (render two_entries_swapped) ≡ some (codes "z"))
unfolding filter_env last_value render key_value index_equal index_equal_from ◌=s=◌
filter_env-ambiguous = (refl, refl, refl)

abbrev service : Service
service = record { shell = codes "/bin/sh"; host_env = host_env }

abbrev exec_request : Request
exec_request = record {
  kind = codes "exec";
  payload = string_field (codes "ls");
  want_reply = true;
}

abbrev requests : List (Request × Alloc)
requests = (exec_request, Alloc.failed (codes "none")) ∷ []

pre_spawn-IsConfined_example :
    (let out = pre_spawn (λ s. s) service requests initial [] in
      IsValid out.state × IsConfined (λ s. s) service out.verdict)
pre_spawn-IsConfined_example = pre_spawn-IsConfined (λ s. s) service requests

pre_spawn_dispatch-IsAnswered_example :
    IsAnswered exec_request
      (pre_spawn_dispatch (λ s. s) service exec_request (Alloc.failed (codes "none")) initial)
pre_spawn_dispatch-IsAnswered_example =
    pre_spawn_dispatch-IsAnswered exec_request initial (λ s. s) service
      (Alloc.failed (codes "none"))

pre_spawn-ne-panicked_example : (pre_spawn (λ s. s) service requests initial []).verdict ≢ panicked
unfolding append_ssh_string
pre_spawn-ne-panicked_example =
    pre_spawn-ne-panicked (λ s. s) service requests initial [] (omega arith, tt)

message-IsReadBack_example : IsReadBack (pty_req xterm)
message-IsReadBack_example =
    message-IsReadBack (pty_req xterm)
      (omega arith, omega arith, omega arith, omega arith, omega arith)

-- A group that is gone after three seconds, and a sleep that lasts a nanosecond too long.
abbrev alive : ℕ → Bool
alive t = ltb t 3000000000

abbrev wake : ℕ → ℕ
wake t = t + nap + 1

signal_and_kill-ends_example :
    (e : Ending) × IsEnding alive wake 1 (7 + shutdown_grace) e
    × (signal_and_kill alive wake 101 7 (codes "shutdown")
        ≡ some (
            kill (codes "HUP")
            ∷ log_shutdown_signal (codes "HUP") (codes "shutdown")
            ∷ kill_overdue alive wake (codes "shutdown") e))
signal_and_kill-ends_example =
    signal_and_kill-ends alive wake 1 (λ t. omega arith) (λ t. omega arith) 7 (codes "shutdown")

abbrev with_pty : State
with_pty = record initial { pty = some xterm; ends = some (record { master = 5; slave = 6 }) }

abbrev ended : Supervised
ended = record (begin false) { exited = true; copied = true }

abbrev over : Supervised
over = record ended { pc = returned; requests_over = true; reaped = true; closed_by_server = true }

-- The size is set while the cleanup waits for the lock.
resize-open_example :
    ◌≡◌ {A = Bool} false false
    × ((Resize.outside ≢ Resize.resizing) ⊎ (true ≡ true))
    × ((Resize.outside ≡ Resize.outside) ⊎ (Resize.running ≢ Resize.clearing))
resize-open_example = resize-open (
    Resize.moved
      (Resize.moved
        (Resize.moved (Resize.moved Resize.start (Resize.requests_lock refl refl))
          (Resize.found_master refl refl))
        (Resize.set_size refl))
      (Resize.requests_unlock refl))

abbrev cancelled_run : Supervised
cancelled_run = record (begin false) { cancelled = true }

shutdown-waits_example : draining true ≢ returned
shutdown-waits_example = shutdown-waits (happened (start false) cancel) refl refl refl (
    and_move (and_move (and_copies (and_end none_yet)) (wait_returns refl refl refl))
      (reap refl refl))

abbrev sftp_request : Request
sftp_request = record {
  kind = codes "subsystem";
  payload = string_field (codes "sftp");
  want_reply = true;
}

abbrev pty_request : Request
pty_request = record { kind = codes "pty-req"; payload = encode_pty_req xterm; want_reply = true }

abbrev leaky : List (Request × Alloc)
leaky =
    (pty_request, Alloc.opened (record { master = 5; slave = 6 }))
    ∷ (sftp_request, Alloc.failed (codes "none"))
    ∷ []

abbrev world : World
world = record { start = process; killed = false; end = absent; selects = []; sftp = Sftp.shutdown }

handle-closed_example :
    (let out = pre_spawn (λ s. s) service leaky initial [] in
      (closed (handle (λ s. s) service leaky world) ≡ closes out.verdict process out.state.ends)
      × ((es : List Event) × (handle (λ s. s) service leaky world
            ≡ es ++ after close_channel ∷ [])))
handle-closed_example = handle-closed (λ s. s) service leaky world

second_phase-answers_example :
    marks (second_phase world (first_phase (λ s. s) service leaky))
    ≡ committed (pre_spawn (λ s. s) service leaky initial []).verdict process
second_phase-answers_example = second_phase-answers (λ s. s) service leaky world
