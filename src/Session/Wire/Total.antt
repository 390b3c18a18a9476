-- ===== src/Session/Wire/Total.antt =====
-- The slices that the parsers of internal/session/helpers.go take.
use minisshd.Prelude.{◌<◌, ◌^◌, ◌≢◌, arith, Bytes, length, drop, length-drop}
use minisshd.Session.Wire.{
  Read, ok, bad, panic, ◌>>=◌, be32, read_ssh_string, read_uint32, parse_pty_req,
  parse_window_change, parse_env_req, parse_exec_command, parse_subsystem_name,
}
use minisshd.Session.Wire.RoundTrip.{read_string_lem}

-- A reader that does not panic, and what its value satisfies.
abbrev Ensures {ℓ} : {A : Type ℓ} → (A → Type 0) → Read A → Type 0
Ensures P (ok a) = P a
Ensures P (bad e) = Unit
Ensures P panic = ⊥

abbrev Short : {A : Type 0} → A × Bytes → Type 0
Short r = length r.1 < 2 ^ 32

abbrev IsSafe : {A : Type 0} → Read A → Type 0
IsSafe m = m ≢ panic

bind-IsSafe :
    {A B : Type 0} {P : A → Type 0} (m : Read A) (f : A → Read B)
    → Ensures P m
    → ((a : A) → P a → IsSafe (f a))
    → IsSafe (m >>= f)
bind-IsSafe (ok a) f h k = k a h
bind-IsSafe (bad e) f h k = cc
bind-IsSafe panic f h k = absurd h

read_ssh_string-Ensures :
    (what b : Bytes) → length b < 2 ^ 32 → Ensures Short (read_ssh_string what b)
read_ssh_string-Ensures what b h =
    rw (read_string_lem what b h) (ground (arith, length-drop (be32 b) (drop 4 b), length-drop 4 b))

read_uint32-Ensures : (what b : Bytes) → length b < 2 ^ 32 → Ensures Short (read_uint32 what b)
unfolding read_uint32
read_uint32-Ensures what b h = ground (arith, length-drop 4 b)

pty : (b : Bytes) → length b < 2 ^ 32 → parse_pty_req b ≢ panic
unfolding parse_pty_req
pty b h = bind-IsSafe (read_ssh_string _ b) _ (read_ssh_string-Ensures _ b h) λ r1 h1.
    bind-IsSafe (read_uint32 _ r1.1) _ (read_uint32-Ensures _ r1.1 h1) λ r2 h2.
      bind-IsSafe (read_uint32 _ r2.1) _ (read_uint32-Ensures _ r2.1 h2) λ r3 h3.
        bind-IsSafe (read_uint32 _ r3.1) _ (read_uint32-Ensures _ r3.1 h3) λ r4 h4.
          bind-IsSafe (read_uint32 _ r4.1) _ (read_uint32-Ensures _ r4.1 h4) λ r5 h5.
            bind-IsSafe (read_ssh_string _ r5.1) _ (read_ssh_string-Ensures _ r5.1 h5) λ r6 h6. cc

window : (b : Bytes) → length b < 2 ^ 32 → parse_window_change b ≢ panic
unfolding parse_window_change
window b h = bind-IsSafe (read_uint32 _ b) _ (read_uint32-Ensures _ b h) λ r2 h2.
    bind-IsSafe (read_uint32 _ r2.1) _ (read_uint32-Ensures _ r2.1 h2) λ r3 h3.
      bind-IsSafe (read_uint32 _ r3.1) _ (read_uint32-Ensures _ r3.1 h3)
        λ r4 h4. bind-IsSafe (read_uint32 _ r4.1) _ (read_uint32-Ensures _ r4.1 h4) λ r5 h5. cc

env : (b : Bytes) → length b < 2 ^ 32 → parse_env_req b ≢ panic
unfolding parse_env_req
env b h =
    bind-IsSafe (read_ssh_string _ b) _ (read_ssh_string-Ensures _ b h) λ r1 h1.
      bind-IsSafe (read_ssh_string _ r1.1) _ (read_ssh_string-Ensures _ r1.1 h1) λ r2 h2. cc

exec : (b : Bytes) → length b < 2 ^ 32 → parse_exec_command b ≢ panic
unfolding parse_exec_command
exec b h = bind-IsSafe (read_ssh_string _ b) _ (read_ssh_string-Ensures _ b h) λ r1 h1. cc

subsystem : (b : Bytes) → length b < 2 ^ 32 → parse_subsystem_name b ≢ panic
unfolding parse_subsystem_name
subsystem b h = bind-IsSafe (read_ssh_string _ b) _ (read_ssh_string-Ensures _ b h) λ r1 h1. cc

-- Whatever a client sends, on a payload shorter than 2 ^ 32 bytes no parser slices out of range:
-- each gives a value or an error.
pub parsers-ne-panic :
    (b : Bytes)
    → length b < 2 ^ 32
    → (parse_pty_req b ≢ panic)
      × (parse_window_change b ≢ panic)
      × (parse_env_req b ≢ panic)
      × (parse_exec_command b ≢ panic)
      × (parse_subsystem_name b ≢ panic)
parsers-ne-panic b h = (pty b h, window b h, env b h, exec b h, subsystem b h)
