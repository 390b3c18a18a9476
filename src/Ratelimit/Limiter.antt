-- ===== src/Ratelimit/Limiter.antt =====
-- `Limiter` of internal/ratelimit/ratelimit.go, run by one caller at a time. The map holds pointers
-- to entries, so the limiter is a map from keys to addresses beside a heap of entries: the code
-- compares the pointer in the map with its own before it deletes. Times are the nanoseconds of the
-- monotonic clock; `Sub` of a later time from an earlier one is negative in the source and 0 here,
-- and neither is beyond the expiry.
use minisshd.Prelude.{
  ℕ, ◌+◌, ◌-◌, ◌%◌, ◌^◌, Bool, true, false, ◌&&◌, not, Option, none, some, List, [], ◌∷◌, ltb, ◌==◌,
  if◌then◌else◌, Bytes, length, take, drop, ◌=s=◌,
}
use minisshd.Prelude.Maps.{lookup, insert, delete}
use minisshd.Ratelimit.Delay.{idle_expiry, not_pos, compute_delay}
use mathlib.Core.Option

pub record Entry : Type 0 where
  pub fail_count : ℕ
  pub last_fail : ℕ

pub record Limiter : Type 0 where
  pub entries : List (Bytes × ℕ)
  pub heap : ℕ → Entry
  pub next : ℕ

-- `&entry{}`
abbrev pub fresh : Entry
fresh = record { fail_count = 0; last_fail = 0 }

unfoldable pub new : Limiter
new = record { entries = []; heap = λ _. fresh; next = 0 }

abbrev pub store : (ℕ → Entry) → ℕ → Entry → ℕ → Entry
store h p e q = if p == q then e else h q

-- `ip.To4()` of package net: `none` is nil.
unfoldable pub to4 : Bytes → Option Bytes
to4 ip =
    if length ip == 4
    then some ip
    else (if length ip == 16
          && (take 10 ip =s= (0 ∷ 0 ∷ 0 ∷ 0 ∷ 0 ∷ 0 ∷ 0 ∷ 0 ∷ 0 ∷ 0 ∷ [])
              && take 2 (drop 10 ip) =s= (255 ∷ 255 ∷ []))
        then some (drop 12 ip)
        else none)

unfoldable pub normalize : Bytes → Bytes
normalize ip = Option.get_or (to4 ip) ip

-- The second look-up of `loadOrCreate`, under the write lock.
unfoldable pub create_entry : Bytes → Limiter → Limiter × ℕ
create_entry key l = elim (lookup key l.entries) [
  | some e ↦ (l, e)
  | none ↦ (
    record {
      entries = insert key l.next l.entries;
      heap = store l.heap l.next fresh;
      next = l.next + 1;
    },
    l.next,
  )
]

unfoldable pub load_or_create : Bytes → Limiter → Limiter × ℕ
load_or_create key l = elim (lookup key l.entries) [ some e ↦ (l, e) | none ↦ create_entry key l ]

-- `e.failCount > 0 && now.Sub(e.lastFail) > IdleExpiry`
abbrev pub is_stale : ℕ → Entry → Bool
is_stale now e = not (not_pos e.fail_count) && ltb idle_expiry (now - e.last_fail)

-- Delete the key, but only while the map still points at this entry.
unfoldable pub delete_current : Bytes → ℕ → Limiter → Limiter
delete_current key e l = elim (lookup key l.entries) [
  | some cur ↦ if cur == e then record l { entries = delete key l.entries } else l
  | none ↦ l
]

-- What `Acquire` returns: the delay, and what the closure `release` has captured.
pub record Lease : Type 0 where
  pub key : Bytes
  pub entry : ℕ
  pub delay : ℕ

unfoldable pub lease : Bytes → Limiter × ℕ → Limiter × Lease
lease key (l, e) = (l, record { key = key; entry = e; delay = compute_delay (l.heap e).fail_count })

unfoldable pub acquire_key : Bytes → ℕ → Limiter → Limiter × Lease
acquire_key key now l =
    let (l1, e) = load_or_create key l in
    if is_stale now (l1.heap e)
    then lease key (load_or_create key (delete_current key e l1))
    else lease key (l1, e)

-- `failCount++` on a 64-bit int
abbrev pub inc64 : ℕ → ℕ
inc64 n = (n + 1) % 2 ^ 64

abbrev pub fail_entry : ℕ → Entry → Entry
fail_entry now e = record { fail_count = inc64 e.fail_count; last_fail = now }

unfoldable pub release : Bool → ℕ → Lease → Limiter → Limiter
release true now r l = delete_current r.key r.entry l
release false now r l = record l { heap = store l.heap r.entry (fail_entry now (l.heap r.entry)) }

-- `out[k] = e.failCount` for each pair of the map
abbrev pub counts : (ℕ → Entry) → List (Bytes × ℕ) → List (Bytes × ℕ)
counts h [] = []
counts h ((k, e) ∷ m) = (k, (h e).fail_count) ∷ counts h m

unfoldable pub snapshot : Limiter → List (Bytes × ℕ)
snapshot l = counts l.heap l.entries

-- `net.IP.String` is a parameter: it gives the textual form by which the map is keyed.
module _ (ip_string : Bytes → Bytes) where
  abbrev pub key_of : Bytes → Bytes
  key_of ip = ip_string (normalize ip)

  unfoldable pub acquire : Bytes → ℕ → Limiter → Limiter × Lease
  acquire ip now l = acquire_key (key_of ip) now l
