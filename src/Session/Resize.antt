-- ===== src/Session/Resize.antt =====
-- `handleWindowChange` beside the cleanup of `runChild` in internal/session/service.go: the goroutine
-- that handles the requests, the one that supervises the child, and the lock of the session's state.
pub mod Safety
use minisshd.Prelude.{◌≡◌, Bool, true, false, if◌then◌else◌}

-- Who holds `st.mu`.
pub data Lock : Type 0 where
  free by_requests by_cleanup : Lock

-- In `handleWindowChange`: outside the lock, in it, and in it before the call of `Setsize`.
pub data Requests : Type 0 where
  outside checking resizing unlocking : Requests

-- In `runChild`: before the lock, in it, after it with the master cleared, and past the closers.
pub data Cleanup : Type 0 where
  running clearing cleared closed : Cleanup

-- `has_master` is whether `st.ptyMaster` is set, `is_open` whether that file is open, and
-- `misused` whether `Setsize` has been called on it after its close.
pub record Shared : Type 0 where
  pub lock : Lock
  pub requests : Requests
  pub cleanup : Cleanup
  pub has_master : Bool
  pub is_open : Bool
  pub misused : Bool

abbrev pub begin : Shared
begin = record {
  lock = free;
  requests = outside;
  cleanup = running;
  has_master = true;
  is_open = true;
  misused = false;
}

pub data Move (s : Shared) : Shared → Type 0 where
  requests_lock :
      s.requests ≡ outside
      → s.lock ≡ free
      → Move s (record s { requests = checking; lock = by_requests })
  found_master :
      s.requests ≡ checking → s.has_master ≡ true → Move s (record s { requests = resizing })
  no_master :
      s.requests ≡ checking → s.has_master ≡ false → Move s (record s { requests = unlocking })
  set_size :
      s.requests ≡ resizing
      → Move s (record s { requests = unlocking; misused = if s.is_open then s.misused else true })
  requests_unlock : s.requests ≡ unlocking → Move s (record s { requests = outside; lock = free })
  cleanup_lock :
      s.cleanup ≡ running
      → s.lock ≡ free
      → Move s (record s { cleanup = clearing; lock = by_cleanup })
  cleanup_unlock :
      s.cleanup ≡ clearing
      → Move s (record s { cleanup = cleared; has_master = false; lock = free })
  close_master : s.cleanup ≡ cleared → Move s (record s { cleanup = closed; is_open = false })

pub data Reach : Shared → Type 0 where
  start : Reach begin
  moved : {s t : Shared} → Reach s → Move s t → Reach t
