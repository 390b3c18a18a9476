-- ===== src/Session/Pty.antt =====
-- The PTY adapter of internal/session/pty.go and the process attributes of internal/session/sysproc.go.
use minisshd.Prelude.{ℕ, ◌%◌, ◌^◌, ◌<◌, ◌≡◌, Bool, true, false, Option, none, some, arith}
use minisshd.Session.Wire.{WinChange, Read, ok, ◌>>=◌, parse_window_change}
use minisshd.Session.Wire.Messages.{encode_win_change, window_change, message-IsReadBack}

-- The two flags of `syscall.SysProcAttr` that the program sets.
pub record SysProcAttr : Type 0 where
  pub setsid : Bool
  pub setctty : Bool

unfoldable pub new_pipe_sys_proc_attr : SysProcAttr
new_pipe_sys_proc_attr = record { setsid = true; setctty = false }

unfoldable pub new_pty_sys_proc_attr : SysProcAttr
new_pty_sys_proc_attr = record { setsid = true; setctty = true }

unfoldable pub apply_pty_sys_proc_attr : SysProcAttr → SysProcAttr
apply_pty_sys_proc_attr s = record s { setsid = true; setctty = true }

-- What `startWithPTY` makes of `cmd.SysProcAttr`.
unfoldable pub pty_attributes : Option SysProcAttr → SysProcAttr
pty_attributes none = new_pty_sys_proc_attr
pty_attributes (some s) = apply_pty_sys_proc_attr s

-- With what `startChild` starts the child of a fresh command.
unfoldable pub child_attributes : (has_pty : Bool) → SysProcAttr
child_attributes true = pty_attributes none
child_attributes false = new_pipe_sys_proc_attr

-- `pty.Winsize`
pub record Winsize : Type 0 where
  pub cols : ℕ
  pub rows : ℕ
  pub x : ℕ
  pub y : ℕ

-- What `Setsize` hands to the PTY library: each uint32 converted to a uint16.
unfoldable pub set_size : (cols rows width_px height_px : ℕ) → Winsize
set_size cols rows width_px height_px = record {
  cols = cols % 2 ^ 16;
  rows = rows % 2 ^ 16;
  x = width_px % 2 ^ 16;
  y = height_px % 2 ^ 16;
}

-- `Setsize` on a parsed window-change.
abbrev pub size_of : WinChange → Winsize
size_of wc = set_size wc.cols wc.rows wc.width_px wc.height_px

abbrev read_size : Read WinChange → Read Winsize
read_size r = do wc ← r; ok (size_of wc)

-- A window-change request sets the size that the client has encoded, if its numbers are below 2 ^ 16.
pub window_change-set_size :
    (r : WinChange)
    → r.cols < 2 ^ 16
    → r.rows < 2 ^ 16
    → r.width_px < 2 ^ 16
    → r.height_px < 2 ^ 16
    → read_size (parse_window_change (encode_win_change r))
      ≡ ok (record { cols = r.cols; rows = r.rows; x = r.width_px; y = r.height_px })
unfolding set_size
window_change-set_size r c w x y =
    let read =
      message-IsReadBack (window_change r)
        (omega (arith, c), omega (arith, w), omega (arith, x), omega (arith, y)) in
    rw read (grind arith)
