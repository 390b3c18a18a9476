-- ===== src/Start/Reloader/Kept.antt =====
-- The keys of a server that takes no password, from its start on.
use minisshd.Prelude.{ap, sym, ◌∙◌, ◌*◌, ◌≤◌, ◌≡◌, inl, inr, false, some, [], ◌∷◌, Bytes, length}
use mathlib.Core.Option
use minisshd.Auth.Keyset.{File, Line, Source, count}
use minisshd.Auth.Keyset.Reloads.{reloads, reloads-keep}
use minisshd.Auth.Methods.{contains, method_password}
use minisshd.Start.Ran.{running}
use minisshd.Start.World.{World}
use minisshd.Start.Run.{Config, run}
use minisshd.Start.Ready.{run-IsReady}
use minisshd.Start.Reloader.{
  Watch, begin, Move, take, reload, stop, Event, signal, cancel, Run, start, moved, happened,
  written,
}

some-eq : {a b : Source} → some a ≡ some b → a ≡ b
some-eq {a} h = ap (λ o. Option.get_or o a) h

module _ (sha256 fingerprint trim : Bytes → Bytes) (parse_line : Bytes → Line) where
  Move-keeps :
      {s t : Watch}
      → Move sha256 fingerprint trim parse_line s t
      → 1 ≤ count s.source.cur
      → 1 ≤ count t.source.cur
  unfolding reloads
  Move-keeps (take w p) h = h
  Move-keeps {s} (reload r) h =
      reloads-keep sha256 fingerprint trim parse_line (s.file ∷ []) s.source h
  Move-keeps (stop w c) h = h

  Event-keeps :
      {s t : Watch}
      → Event sha256 fingerprint trim parse_line s t
      → 1 ≤ count s.source.cur
      → 1 ≤ count t.source.cur
  Event-keeps signal h = h
  Event-keeps cancel h = h

  Run-keeps :
      {s t : Watch}
      → Run sha256 fingerprint trim parse_line s t
      → 1 ≤ count s.source.cur
      → 1 ≤ count t.source.cur
  Run-keeps start h = h
  Run-keeps (moved r m) h = Move-keeps m (Run-keeps r h)
  Run-keeps (happened r e) h = Event-keeps e (Run-keeps r h)
  Run-keeps (written f r) h = Run-keeps r h

-- Once a program has come to serve without password among its methods, at least one key is accepted,
-- however often the file is then written and a SIGHUP comes, and wherever the reloads stand
-- between them. It relies on hex writing two digits for a byte, and on the random source filling its 32
-- bytes.
pub run-keeps :
    {S K : Type 0} (w : World S K)
    → (hexed : (b : Bytes) → length (w.hex b) ≡ 2 * length b)
    → (filled : (b : Bytes) → w.sentinel ≡ some b → length b ≡ 32) → (s : S) (c : Config K)
    → (run w s).outcome ≡ running c
    → contains c.methods method_password ≡ false
    → (source : Source) → c.keyset_source ≡ some source
    → (file : File) (t : Watch)
    → Run w.sha256 w.key_fingerprint w.trim_line w.parse_line (begin file source) t
    → 1 ≤ count t.source.cur
run-keeps w hexed filled s c h without source given file t r =
    elim ((run-IsReady w hexed filled s c h).reachable) [
      | inl p ↦ cc
      | inr (source', e, n) ↦
          let same = some-eq (sym e ∙ given) in
          Run-keeps w.sha256 w.key_fingerprint w.trim_line w.parse_line r (rw (sym same) n)
    ]
