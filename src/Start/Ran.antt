-- ===== src/Start/Ran.antt =====
-- A run of the program so far: what it has written on standard output, and whether it goes on or has
-- exited. Each exit also writes one line on standard error, which is left out.
use minisshd.Prelude.{ℕ, List, [], ◌++◌, Bytes}
use minisshd.Auth.Keyset.{Log}
use minisshd.Logging.Events.{Call}

pub data Out : Type 0 where
  banner : (password : Bytes) → Out
  key_event : Log → Out
  event : Call → Out

pub data Outcome (A : Type 0) : Type 0 where
  running : A → Outcome A
  stopped : (code : ℕ) → Outcome A

pub record Ran (A : Type 0) : Type 0 where
  pub out : List Out
  pub outcome : Outcome A

abbrev pub exit_ok : ℕ
exit_ok = 0

abbrev pub exit_internal_error : ℕ
exit_internal_error = 1

abbrev pub exit_bad_config : ℕ
exit_bad_config = 2

abbrev pub exit_bind_failure : ℕ
exit_bind_failure = 3

abbrev pub exit_fs_failure : ℕ
exit_fs_failure = 4

module _ {A : Type 0} where
  abbrev pub pure : A → Ran A
  pure a = record { out = []; outcome = running a }

  abbrev pub exit : ℕ → Ran A
  exit code = record { out = []; outcome = stopped code }

  abbrev pub write : List Out → A → Ran A
  write out a = record { out = out; outcome = running a }

abbrev pub after : {A B : Type 0} → List Out → Outcome A → (A → Ran B) → Ran B
after out (running a) f = let r = f a in record { out = out ++ r.out; outcome = r.outcome }
after out (stopped code) f = record { out = out; outcome = stopped code }

infixl 5 ◌>>=◌
abbrev pub ◌>>=◌ : {A B : Type 0} → Ran A → (A → Ran B) → Ran B
m >>= f = after m.out m.outcome f
