-- ===== src/Session/Sftp.antt =====
-- `runSftp` and `defaultSftpHandler` of internal/session/service.go, over what the server of
-- github.com/pkg/sftp answers.
use minisshd.Prelude.{Bool, true, false, Option, none, some, List, [], ◌∷◌, ◌++◌, Bytes, codes}
use minisshd.Session.Child.{Effect, close_channel, log_error}

-- `io.EOF`, or another error with its message.
pub data Error : Type 0 where
  eof : Error
  other : (message : Bytes) → Error

-- What `Serve` gives, with its EOF taken for a success.
abbrev pub served : Option Error → Option Error
served (some (other e)) = some (other e)
served _ = none

-- From the errors of `NewServer` and `Serve`, the handler's error, and whether it closes the server.
unfoldable pub default_sftp_handler : (made serve : Option Error) → Option Error × Bool
default_sftp_handler (some e) serve = (some e, false)
default_sftp_handler none serve = (served serve, true)

-- What the select takes: the handler's error, or the end of the server's context.
pub data Select : Type 0 where
  handled : Option Error → Select
  shutdown : Select

unfoldable pub run_sftp : Select → List Effect
run_sftp (handled (some (other e))) = log_error (codes "sftp: " ++ e) ∷ []
run_sftp (handled _) = []
run_sftp shutdown = close_channel ∷ []
