-- ===== src/Auth/Keyset/Reloads.antt =====
-- Loads and reloads of the keys of internal/auth/pubkey.go.
use minisshd.Prelude.{
  ◌≤◌, ◌≡◌, ◌⊎◌, inl, inr, refl, true, false, some, List, [], ◌∷◌, arith, leb, ◌==◌, Bytes, length,
  ◌&&◌, Bool-cases,
}
use minisshd.Auth.Keyset.{
  Keyset, count, File, Parsed, keys, failed, Line, Source, parse, reload, finish_reload, Log,
}

module _ (sha256 fingerprint trim : Bytes → Bytes) (parse_line : Bytes → Line) where
  unfoldable pub reloads : List File → Source → Source
  reloads [] s = s
  reloads (f ∷ fs) s = reloads fs (reload sha256 fingerprint trim parse_line f s).0

  finish-keeps :
      (s : Source) (p : Parsed × List Log)
      → 1 ≤ count s.cur
      → 1 ≤ count (finish_reload sha256 fingerprint trim parse_line s p).0.cur
  unfolding count
  finish-keeps s (failed m e, logs) h = h
  finish-keeps s (keys ks, logs) h = ground arith

  -- A reload returns an error and keeps the keys, if the file cannot be parsed or has no usable line
  -- while a key is accepted; otherwise the parsed keys replace the old ones.
  pub reload_lem :
      (f : File) (s : Source)
      → (let r = reload sha256 fingerprint trim parse_line f s in
          ((r.1 ≡ true) × (r.0 ≡ s))
          ⊎ ((r.1 ≡ false)
              × ((ks : Keyset) × ((parse sha256 fingerprint trim parse_line s.path f).0 ≡ keys ks)
                  × (r.0 ≡ record s { cur = some ks })
                  × ((1 ≤ length ks) ⊎ (count s.cur ≡ 0)))))
  unfolding reload
  reload_lem f s = go (parse sha256 fingerprint trim parse_line s.path f)
    where
      go :
          (p : Parsed × List Log)
          → (let r = finish_reload sha256 fingerprint trim parse_line s p in
              ((r.1 ≡ true) × (r.0 ≡ s))
              ⊎ ((r.1 ≡ false)
                  × ((ks : Keyset) × (p.0 ≡ keys ks)
                      × (r.0 ≡ record s { cur = some ks })
                      × ((1 ≤ length ks) ⊎ (count s.cur ≡ 0)))))
      go (failed m e, logs) = inl (refl, refl)
      go (keys ks, logs) = elim (Bool-cases (length ks == 0 && leb 1 (count s.cur))) [
        | inl h ↦ inl (rw h (refl, refl))
        | inr h ↦ inr (rw h (refl, (ks, refl, refl, ground arith)))
      ]

  -- Whatever the file is at each reload (missing, unreadable, empty, or without a usable line), a
  -- source that has a key goes on having one.
  pub reloads-keep :
      (files : List File) (s : Source) → 1 ≤ count s.cur → 1 ≤ count (reloads files s).cur
  unfolding reloads reload
  reloads-keep [] s h = h
  reloads-keep (f ∷ fs) s h =
      reloads-keep fs (reload sha256 fingerprint trim parse_line f s).0
        (finish-keeps s (parse sha256 fingerprint trim parse_line s.path f) h)
