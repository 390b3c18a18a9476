-- ===== src/Logging/Line/Emitted.antt =====
-- The lines of `emit` in internal/logging/logging.go under a generated password.
use minisshd.Prelude.{ℕ, ◌≡◌, false, List, Bytes}
use minisshd.Logging.Scrub.{generate_password, scrubs_of}
use minisshd.Logging.Scrub.Absence.{occurs, generated-absent}
use minisshd.Logging.Line.{Field, Format, logfmt, json, encode_logfmt, encode_json, emit_line}

-- The line that `emit` writes, in either format, contains nowhere the password that the program has
-- generated and that `New` was given: whatever the number drawn, the JSON form of the password, the
-- event and its fields are.
pub emit_line-absent :
    (json_string : Bytes → Bytes) (float_seconds : ℕ → Bytes) (n : ℕ) (encoded : Bytes)
    (format : Format) (now level event : Bytes) (fields : List Field)
    → occurs (generate_password n) (
        emit_line json_string float_seconds format
          (scrubs_of (generate_password n) encoded)
          now
          level
          event
          fields)
      ≡ false
unfolding emit_line
emit_line-absent json_string float_seconds n encoded logfmt now level event fields =
    generated-absent n encoded (encode_logfmt now level event fields)
emit_line-absent json_string float_seconds n encoded json now level event fields =
    generated-absent n encoded (encode_json json_string float_seconds now level event fields)
