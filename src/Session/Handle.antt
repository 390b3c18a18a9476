-- ===== src/Session/Handle.antt =====
-- `Handle` of internal/session/service.go from its first request to its return: the first phase, the
-- launch, and what follows the child or sftp. What the operating system and the sftp server answer, and
-- how the child ends, are inputs.
pub mod Settled
pub mod Answered
use minisshd.Prelude.{Bool, Option, none, some, List, [], ◌∷◌, ◌++◌, Bytes}
use minisshd.Session.Exit.{ProcessState}
use minisshd.Session.Requests
use minisshd.Session.Requests.{
  Request, Alloc, Spawn, sftp, Verdict, leave, Outcome, Service, first_phase,
}
use minisshd.Session.Child
use minisshd.Session.Child.{Start, Runner, settle, launch, kind_of}
use minisshd.Session.Sftp
use minisshd.Session.Sftp.{run_sftp}

pub data Event : Type 0 where
  before : Requests.Effect → Event
  after : Child.Effect → Event

abbrev pub all_before : List Requests.Effect → List Event
all_before [] = []
all_before (e ∷ es) = before e ∷ all_before es

abbrev pub all_after : List Child.Effect → List Event
all_after [] = []
all_after (e ∷ es) = after e ∷ all_after es

-- What the outside answers once a session is committed: to `StdinPipe` and `Start`, whether the child
-- is killed, how it has ended, and the rounds of the drain; and to sftp.
pub record World : Type 0 where
  pub start : Start
  pub killed : Bool
  pub end : ProcessState
  pub selects : List Child.Select
  pub sftp : Sftp.Select

-- The second phase to its end.
abbrev pub conclude : Spawn → World → Option Runner × List Child.Effect → List Child.Effect
conclude sftp w (r, es) = es ++ run_sftp w.sftp
conclude sp w (none, es) = es
conclude sp w (some r, es) = es ++ settle (kind_of sp) r w.killed w.end w.selects

unfoldable pub second_phase : World → Outcome → List Child.Effect
second_phase w out = elim out.verdict [
  | leave sp ↦ conclude sp w (launch sp out.state w.start)
  | _ ↦ []
]

-- With the deferred close of the channel.
unfoldable pub handle :
    (base : Bytes → Bytes) → Service → List (Request × Alloc) → World → List Event
handle base s reqs w =
    let out = first_phase base s reqs in
    all_before out.effects ++ (all_after (second_phase w out) ++ after Child.close_channel ∷ [])
