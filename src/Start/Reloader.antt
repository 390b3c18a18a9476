-- ===== src/Start/Reloader.antt =====
-- The goroutine of cmd/minisshd/main.go that reloads the accepted keys at a SIGHUP, beside the file, the
-- signals and the server's context. The channel of the signals holds one; a signal that finds it full is
-- dropped. The file is read at one moment.
pub mod Settled
pub mod Kept
use minisshd.Prelude.{◌≡◌, ◌≢◌, Bool, true, false, Bytes}
use minisshd.Auth.Keyset
use minisshd.Auth.Keyset.{File, Line, Source}

pub data Stage : Type 0 where
  waiting : Stage
  reloading : Stage
  stopped : Stage

pub record Watch : Type 0 where
  pub file : File
  pub source : Source
  pub stage : Stage
  pub pending : Bool
  pub cancelled : Bool

abbrev pub begin : File → Source → Watch
begin file source = record {
  file = file;
  source = source;
  stage = waiting;
  pending = false;
  cancelled = false;
}

module _ (sha256 fingerprint trim : Bytes → Bytes) (parse_line : Bytes → Line) where
  -- What the goroutine does.
  pub data Move (s : Watch) : Watch → Type 0 where
    take :
        s.stage ≡ waiting
        → s.pending ≡ true
        → Move s (record s { stage = reloading; pending = false })
    reload :
        s.stage ≡ reloading
        → Move s (record s {
          stage = waiting;
          source = (Keyset.reload sha256 fingerprint trim parse_line s.file s.source).0;
        })
    stop : s.stage ≡ waiting → s.cancelled ≡ true → Move s (record s { stage = stopped })

  -- What the outside does but to write the file.
  pub data Event (s : Watch) : Watch → Type 0 where
    signal : Event s (record s { pending = true })
    cancel : Event s (record s { cancelled = true })

  -- A run from `s` on, in which the file may be written at any time.
  pub data Run (s : Watch) : Watch → Type 0 where
    start : Run s s
    moved : {t u : Watch} → Run s t → Move t u → Run s u
    happened : {t u : Watch} → Run s t → Event t u → Run s u
    written : {t : Watch} (file : File) → Run s t → Run s (record t { file = file })

  -- A run from `s` on in which nobody writes the file.
  pub data Quiet (s : Watch) : Watch → Type 0 where
    none_yet : Quiet s s
    and_move : {t u : Watch} → Quiet s t → Move t u → Quiet s u
    and_event : {t u : Watch} → Quiet s t → Event t u → Quiet s u
