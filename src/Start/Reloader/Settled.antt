-- ===== src/Start/Reloader/Settled.antt =====
-- What the accepted keys are when the goroutine that reloads them has caught up.
use minisshd.Prelude.{
  ℕ, ◌+◌, ◌<◌, Bool-cases, if◌then◌else◌, suc, ◌≤◌, ◌≡◌, refl, sym, ap, ◌∙◌, ◌⊎◌, inl, inr, true,
  false, some, List, [], ◌∷◌, arith, Bytes, length,
}
use minisshd.Auth.Keyset
use minisshd.Auth.Keyset.{
  AcceptedKey, sort_in, Keyset, File, Line, Source, Parsed, keys, scanned, parse, parse_lines, sort,
  check, count, load,
}
use minisshd.Auth.Keyset.Accepts.{mentions, load-accepts}
use minisshd.Auth.Keyset.Reloads.{reload_lem}
use minisshd.Start.Reloader.{
  Stage, stopped, waiting, reloading, Watch, Move, take, reload, stop, Event, signal, cancel, Quiet,
  none_yet, and_move, and_event,
}

length-sort_in : (k : AcceptedKey) (ks : Keyset) → length (sort_in k ks) ≡ suc (length ks)
unfolding sort_in
length-sort_in k [] = refl
length-sort_in k (j ∷ js) = ground (arith, length-sort_in k js)

length-sort : (ks : Keyset) → length (sort ks) ≡ length ks
unfolding sort
length-sort [] = refl
length-sort (k ∷ ks) = omega (arith, length-sort_in k (sort ks), length-sort ks)

-- How much the goroutine has to do before it waits with no signal left.
abbrev pub rank : Watch → ℕ
rank s = (if s.pending then 2 else 0) + (elim s.stage [ waiting ↦ 1 | reloading ↦ 2 | stopped ↦ 0 ])

module _ (sha256 fingerprint trim : Bytes → Bytes) (parse_line : Bytes → Line) where
  reload-path :
      (f : File) (s : Source)
      → (Keyset.reload sha256 fingerprint trim parse_line f s).0.path ≡ s.path
  reload-path f s = elim (reload_lem sha256 fingerprint trim parse_line f s) [
    | inl (e, same) ↦ ap (λ t. t.path) same
    | inr (e, (ks, p, same, n)) ↦ ap (λ t. t.path) same
  ]

  keys-eq : {a b : Keyset} → keys a ≡ keys b → a ≡ b
  keys-eq {a} h = ap (λ p. elim p [ keys ks ↦ ks | _ ↦ a ]) h

  finish_reload-cur :
      (s : Source) (r : Parsed × List Keyset.Log) (ks : Keyset)
      → r.0 ≡ keys ks
      → 1 ≤ length ks
      → (Keyset.finish_reload sha256 fingerprint trim parse_line s r).0.cur ≡ some ks
  finish_reload-cur s (keys ks', logs) ks p n =
      let same = keys-eq p in rw (sym same) (ground (arith, ap length same))
  finish_reload-cur s (Keyset.failed m e, logs) ks p n = cc

  -- A reload of a file with a usable key makes its keys the accepted ones.
  reload-cur :
      (f : File) (s : Source) (ks : Keyset)
      → (parse sha256 fingerprint trim parse_line s.path f).0 ≡ keys ks
      → 1 ≤ length ks
      → (Keyset.reload sha256 fingerprint trim parse_line f s).0.cur ≡ some ks
  unfolding Keyset.reload
  reload-cur f s ks p n =
      finish_reload-cur s (parse sha256 fingerprint trim parse_line s.path f) ks p n

  module _ (path : Bytes) (file : File) (ks : Keyset)
      (parsed : (parse sha256 fingerprint trim parse_line path file).0 ≡ keys ks)
      (usable : 1 ≤ length ks) where
    -- A reload of this file is due, or it has been made.
    IsDue : Watch → Type 0
    IsDue s =
        (s.file ≡ file)
        × (s.source.path ≡ path)
        × ((s.pending ≡ true) ⊎ (s.stage ≡ reloading) ⊎ (s.source.cur ≡ some ks))

    Move-IsDue : {s t : Watch} → Move sha256 fingerprint trim parse_line s t → IsDue s → IsDue t
    unfolding IsDue
    Move-IsDue (take w p) v = ground arith
    Move-IsDue {s} (reload r) (f, p, v) =
        let fresh = reload-cur s.file s.source ks (rw (f, p) parsed) usable in
        (f, reload-path s.file s.source ∙ p, inr (inr fresh))
    Move-IsDue (stop w c) v = ground arith

    Event-IsDue : {s t : Watch} → Event sha256 fingerprint trim parse_line s t → IsDue s → IsDue t
    unfolding IsDue
    Event-IsDue signal v = ground arith
    Event-IsDue cancel v = v

    Quiet-IsDue : {s t : Watch} → Quiet sha256 fingerprint trim parse_line s t → IsDue s → IsDue t
    Quiet-IsDue none_yet v = v
    Quiet-IsDue (and_move q m) v = Move-IsDue m (Quiet-IsDue q v)
    Quiet-IsDue (and_event q e) v = Event-IsDue e (Quiet-IsDue q v)

  -- What the whole run keeps: the path of the keys.
  Move-path :
      {s t : Watch} → Move sha256 fingerprint trim parse_line s t → t.source.path ≡ s.source.path
  Move-path (take w p) = refl
  Move-path {s} (reload r) = reload-path s.file s.source
  Move-path (stop w c) = refl

  Event-path :
      {s t : Watch} → Event sha256 fingerprint trim parse_line s t → t.source.path ≡ s.source.path
  Event-path signal = refl
  Event-path cancel = refl

  Move-rank : {s t : Watch} → Move sha256 fingerprint trim parse_line s t → rank t < rank s
  Move-rank (take w p) = ground arith
  Move-rank (reload r) = ground arith
  Move-rank (stop w c) = ground arith

  progress :
      (s : Watch) (g : Stage)
      → s.stage ≡ g
      → (s.stage ≡ stopped)
        ⊎ ((s.stage ≡ waiting) × (s.pending ≡ false))
        ⊎ ((t : Watch) × Move sha256 fingerprint trim parse_line s t)
  progress s stopped e = inl e
  progress s reloading e = inr (inr (_, reload e))
  progress s waiting e = elim (Bool-cases s.pending) [
    | inl p ↦ inr (inr (_, take e p))
    | inr p ↦ inr (inl (e, p))
  ]

  -- If the file has lines of which at least one gives a usable key, and a SIGHUP comes after the last
  -- write to it, then whenever the goroutine waits again with no signal left, a key with which no other
  -- collides under SHA-256 is accepted exactly if a line of that file gives it: whatever
  -- signals come beside it, and even if the SIGHUP has found a reload under way or another one waiting.
  -- And it does come to that: unless the goroutine waits with no signal left, or has stopped, it has a
  -- move; and no run of its moves goes on for ever, since each makes the rank smaller.
  pub signal-settles :
      (s t : Watch) (lines : List Bytes) (key : Bytes)
      → ((k : Bytes) → sha256 key ≡ sha256 k → key ≡ k)
      → s.file ≡ scanned lines
      → s.pending ≡ true
      → 1 ≤ length (parse_lines sha256 fingerprint trim parse_line s.source.path 1 lines).0
      → Quiet sha256 fingerprint trim parse_line s t
      → t.stage ≡ waiting
      → t.pending ≡ false
      → ((check sha256 fingerprint trim parse_line t.source.cur key).0.0
          ≡ mentions sha256 fingerprint trim parse_line key lines)
        × ((u : Watch)
            → (u.stage ≡ stopped)
              ⊎ ((u.stage ≡ waiting) × (u.pending ≡ false))
              ⊎ ((v : Watch) × Move sha256 fingerprint trim parse_line u v))
        × ((u v : Watch) → Move sha256 fingerprint trim parse_line u v → rank v < rank u)
  unfolding parse load IsDue
  signal-settles s t lines key unique f p usable q w empty =
      let ks = (parse_lines sha256 fingerprint trim parse_line s.source.path 1 lines).0 in
      let (_, _, due) =
        Quiet-IsDue s.source.path (scanned lines) (sort ks) refl
          (omega (arith, length-sort ks, usable)) q (f, refl, inl p) in
      let settled : (check sha256 fingerprint trim parse_line t.source.cur key).0.0
          ≡ mentions sha256 fingerprint trim parse_line key lines =
        elim due [
          | inl still ↦ cc
          | inr (inl busy) ↦ cc
          | inr (inr now) ↦
              rw now (load-accepts sha256 fingerprint trim parse_line key unique lines s.source)
        ] in
      (settled, λ u. progress u u.stage refl, λ u v m. Move-rank m)
