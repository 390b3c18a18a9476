-- ===== src/Session/Resize/Safety.antt =====
-- That the size of a PTY is never set after its master has been closed.
use minisshd.Prelude.{◌≡◌, ◌≢◌, ◌⊎◌, true, false, arith}
use minisshd.Session.Resize.{
  by_requests, by_cleanup, outside, resizing, running, clearing, cleared, closed, Shared, Move,
  requests_lock, found_master, no_master, set_size, requests_unlock, cleanup_lock, cleanup_unlock,
  close_master, Reach, start, moved,
}

-- The lock is held by the goroutine that is inside it.
abbrev IsLocked : Shared → Type 0
IsLocked s =
    (elim s.requests [ outside ↦ s.lock ≢ by_requests | _ ↦ s.lock ≡ by_requests ])
    × (elim s.cleanup [ clearing ↦ s.lock ≡ by_cleanup | _ ↦ s.lock ≢ by_cleanup ])

-- The master is set until the cleanup has cleared it, and open until the cleanup has closed it.
abbrev IsKept : Shared → Type 0
IsKept s = (elim s.cleanup [
  | running ↦ (s.has_master ≡ true) × (s.is_open ≡ true)
  | clearing ↦ (s.has_master ≡ true) × (s.is_open ≡ true)
  | cleared ↦ (s.has_master ≡ false) × (s.is_open ≡ true)
  | closed ↦ s.has_master ≡ false
])

abbrev IsValid : Shared → Type 0
IsValid s =
    IsLocked s × IsKept s × (s.misused ≡ false) × (s.requests ≡ resizing → s.has_master ≡ true)

Move-IsValid : {s t : Shared} → Move s t → IsValid s → IsValid t
Move-IsValid (requests_lock r l) v = ground arith
Move-IsValid (found_master r m) v = ground arith
Move-IsValid (no_master r m) v = ground arith
Move-IsValid (set_size r) v = ground arith
Move-IsValid (requests_unlock r) v = ground arith
Move-IsValid (cleanup_lock c l) v = ground arith
Move-IsValid (cleanup_unlock c) v = ground arith
Move-IsValid (close_master c) v = ground arith

Reach-IsValid : {s : Shared} → Reach s → IsValid s
Reach-IsValid start = ground arith
Reach-IsValid (moved r m) = Move-IsValid m (Reach-IsValid r)

-- However the requests and the cleanup of a session interleave, `Setsize` has not been called on a
-- closed master; when it is about to be called, the master is open; and the two goroutines are never
-- inside the lock together.
pub resize-open :
    {s : Shared}
    → Reach s
    → (s.misused ≡ false)
      × ((s.requests ≢ resizing) ⊎ (s.is_open ≡ true))
      × ((s.requests ≡ outside) ⊎ (s.cleanup ≢ clearing))
resize-open {s} r = let v = Reach-IsValid r in (v.2, ground arith, ground arith)
