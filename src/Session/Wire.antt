-- ===== src/Session/Wire.antt =====
-- The wire formats of internal/session/helpers.go. A uint32 keeps its wrap-around. A slice expression
-- out of range is a run-time panic, and so is its own outcome.
pub mod RoundTrip
pub mod Messages
pub mod Total
use minisshd.Prelude.{
  ℕ, ◌+◌, ◌-◌, ◌*◌, ◌/◌, ◌%◌, ◌^◌, Bool, true, false, ◌||◌, List, [], ◌∷◌, ◌++◌, ltb, leb,
  if◌then◌else◌, Bytes, length, take, drop, codes, ◌=s=◌, ◌&&◌, ◌≡◌, refl, ◌⊎◌, inl, inr,
}

-- What reading a payload gives: a value, a refusal with its message, or a panic.
pub data Read {ℓ} (A : Type ℓ) : Type ℓ where
  ok : A → Read A
  bad : Bytes → Read A
  panic : Read A

infixl 5 ◌>>=◌
abbrev pub ◌>>=◌ {ℓ κ} : {A : Type ℓ} {B : Type κ} → Read A → (A → Read B) → Read B
ok a >>= f = f a
bad e >>= f = bad e
panic >>= f = panic

pub Read-cases {ℓ} :
    {A : Type ℓ} (m : Read A) → ((a : A) × (m ≡ ok a)) ⊎ ((e : Bytes) × (m ≡ bad e)) ⊎ (m ≡ panic)
Read-cases (ok a) = inl (a, refl)
Read-cases (bad e) = inr (inl (e, refl))
Read-cases panic = inr (inr refl)

abbrev pub u32 : ℕ → ℕ
u32 n = n % 2 ^ 32

-- `b[lo:hi]` and `b[lo:]`
abbrev pub slice : Bytes → ℕ → ℕ → Read Bytes
slice b lo hi = if leb lo hi && leb hi (length b) then ok (take (hi - lo) (drop lo b)) else panic

abbrev pub slice_from : Bytes → ℕ → Read Bytes
slice_from b lo = if leb lo (length b) then ok (drop lo b) else panic

-- `binary.BigEndian.Uint32` and `PutUint32`
abbrev pub be32 : Bytes → ℕ
be32 (a ∷ b ∷ c ∷ d ∷ _) = ((a * 256 + b) * 256 + c) * 256 + d
be32 _ = 0

abbrev pub put32 : ℕ → Bytes
put32 n = (n / 2 ^ 24 % 256) ∷ (n / 2 ^ 16 % 256) ∷ (n / 2 ^ 8 % 256) ∷ (n % 256) ∷ []

-- The message stands for `ok = false`; the callers wrap it.
unfoldable pub read_ssh_string : Bytes → Bytes → Read (Bytes × Bytes)
read_ssh_string what b =
    if ltb (length b) 4
    then bad what
    else let n = be32 b in
      if ltb (u32 (length b - 4)) n
      then bad what
      else do value ← slice b 4 (u32 (4 + n)); rest ← slice_from b (u32 (4 + n)); ok (value, rest)

unfoldable pub read_uint32 : Bytes → Bytes → Read (ℕ × Bytes)
read_uint32 what b = if ltb (length b) 4 then bad what else ok (be32 b, drop 4 b)

pub record PtyReq : Type 0 where
  pub term : Bytes
  pub cols : ℕ
  pub rows : ℕ
  pub width_px : ℕ
  pub height_px : ℕ
  pub modes : Bytes

unfoldable pub parse_pty_req : Bytes → Read PtyReq
parse_pty_req payload = do
  (term, p1) ← read_ssh_string (codes "pty-req: malformed TERM") payload
  (cols, p2) ← read_uint32 (codes "pty-req: malformed cols") p1
  (rows, p3) ← read_uint32 (codes "pty-req: malformed rows") p2
  (width_px, p4) ← read_uint32 (codes "pty-req: malformed width px") p3
  (height_px, p5) ← read_uint32 (codes "pty-req: malformed height px") p4
  (modes, p6) ← read_ssh_string (codes "pty-req: malformed modes") p5
  ok (record {
    term = term;
    cols = cols;
    rows = rows;
    width_px = width_px;
    height_px = height_px;
    modes = modes;
  })

pub record WinChange : Type 0 where
  pub cols : ℕ
  pub rows : ℕ
  pub width_px : ℕ
  pub height_px : ℕ

unfoldable pub parse_window_change : Bytes → Read WinChange
parse_window_change payload = do
  (cols, p1) ← read_uint32 (codes "window-change: malformed cols") payload
  (rows, p2) ← read_uint32 (codes "window-change: malformed rows") p1
  (width_px, p3) ← read_uint32 (codes "window-change: malformed width px") p2
  (height_px, p4) ← read_uint32 (codes "window-change: malformed height px") p3
  ok (record { cols = cols; rows = rows; width_px = width_px; height_px = height_px })

pub record EnvReq : Type 0 where
  pub name : Bytes
  pub value : Bytes

unfoldable pub parse_env_req : Bytes → Read EnvReq
parse_env_req payload = do
  (name, p1) ← read_ssh_string (codes "env: malformed name") payload
  (value, p2) ← read_ssh_string (codes "env: malformed value") p1
  ok (record { name = name; value = value })

unfoldable pub parse_exec_command : Bytes → Read Bytes
parse_exec_command payload = do
  (command, rest) ← read_ssh_string (codes "exec: malformed command") payload
  ok command

unfoldable pub parse_subsystem_name : Bytes → Read Bytes
parse_subsystem_name payload = do
  (name, rest) ← read_ssh_string (codes "subsystem: malformed name") payload
  ok name

unfoldable pub append_ssh_string : Bytes → Bytes → Bytes
append_ssh_string dst s = dst ++ (put32 (u32 (length s)) ++ s)

unfoldable pub exit_status_payload : ℕ → Bytes
exit_status_payload code = put32 code

unfoldable pub exit_signal_payload : Bytes → Bool → Bytes → Bytes
exit_signal_payload sig_name core_dumped err_msg =
    let named = append_ssh_string [] sig_name in
    let flagged = named ++ (if core_dumped then 1 else 0) ∷ [] in
    append_ssh_string (append_ssh_string flagged err_msg) []
