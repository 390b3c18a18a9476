-- ===== src/Logging/Tests.antt =====
-- The logging theorems on concrete lines.
use minisshd.Prelude.{◌≡◌, false, some, List, [], ◌∷◌, ◌++◌, codes, length}
use minisshd.Logging.Scrub.{generate_password, scrubs_of}
use minisshd.Logging.Scrub.Absence.{occurs}
use minisshd.Logging.Line.{Field, string, logfmt, write_fields, emit_line}
use minisshd.Logging.Line.Emitted.{emit_line-absent}
use minisshd.Logging.Line.ReadBack.{read_fields, pairs}
use minisshd.Logging.Events.{Call, call_auth_ok, event_of}
use minisshd.Logging.Events.Reading.{event_of-read}

-- A field that holds the password 012345.
abbrev leaking : List Field
leaking =
    record { key = codes "user"; value = codes "a 012345"; kind = string; num = 0; dur = 0 } ∷ []

emit_line-absent_example :
    occurs (generate_password 12345) (
      emit_line
        (λ s. s)
        (λ _. [])
        logfmt
        (scrubs_of (generate_password 12345) (codes "x"))
        (codes "now")
        (codes "INFO")
        (codes "auth-ok")
        leaking)
    ≡ false
emit_line-absent_example =
    emit_line-absent (λ s. s) (λ _. []) 12345 (codes "x") logfmt (codes "now") (codes "INFO")
      (codes "auth-ok") leaking

abbrev logged_in : Call
logged_in = call_auth_ok (codes "10.0.0.1:22") (codes "al ice") (codes "password") []

event_of-read_example :
    (let fields = (event_of (λ n. n ∷ []) (λ n. n ∷ []) logged_in).fields in
      read_fields (length fields) (write_fields fields ++ 10 ∷ []) ≡ some (pairs fields))
event_of-read_example = event_of-read (λ n. n ∷ []) (λ n. n ∷ []) logged_in
