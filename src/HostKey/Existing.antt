-- ===== src/HostKey/Existing.antt =====
-- A run of `LoadOrGenerate` of internal/hostkey/hostkey.go on a key that is there, and what its parts
-- leave alone.
use minisshd.Prelude.{
  ℕ, ◌≡◌, ◌≢◌, refl, ap, ◌∙◌, ◌⊎◌, inl, inr, Option, none, some, ◌==◌, arith, Bytes, codes, length,
  length-append, Bool-cases, Option-cases,
}
use minisshd.HostKey.Files.{Info, found, Read, data_read, read_error, Files, IsFiles, bits_beyond}
use minisshd.HostKey.Load.{
  Error, Result, ok, err, key_corrupt, call_failed, permissions_too_open, Keys, mode_private,
  mode_public, pub_path, then_chmod, write_pub, finish, load_existing, check_parent,
  load_or_generate,
}

pub pub_path-ne : (p : Bytes) → pub_path p ≢ p
pub_path-ne p e = omega (arith, ap length e, length-append p (codes ".pub"))

Read-cases : (r : Read) → ((d : Bytes) × (r ≡ data_read d)) ⊎ ((e : Bytes) × (r ≡ read_error e))
Read-cases (data_read d) = inl (d, refl)
Read-cases (read_error e) = inr (e, refl)

module _ {S K : Type 0} (fs : Files S) (laws : IsFiles fs) (ks : Keys K) (dir : Bytes → Bytes) where
  read-then_chmod :
      (p q : Bytes) (m : ℕ) (r : S × Option Bytes)
      → fs.read_file q (then_chmod fs ks dir p m r).0 ≡ fs.read_file q r.0
  read-then_chmod p q m (s, some e) = refl
  read-then_chmod p q m (s, none) = laws.read-chmod p q m s

  stat-then_chmod :
      (p q : Bytes) (m : ℕ) (r : S × Option Bytes)
      → p ≢ q
      → fs.stat q (then_chmod fs ks dir p m r).0 ≡ fs.stat q r.0
  stat-then_chmod p q m (s, some e) ne = refl
  stat-then_chmod p q m (s, none) ne = laws.stat-chmod_other p q m s ne

  -- Writing the public key leaves every other file's content and status alone.
  pub read-write_pub :
      (path q : Bytes) (key : K) (s : S)
      → pub_path path ≢ q
      → fs.read_file q (write_pub fs ks dir path key s).0 ≡ fs.read_file q s
  unfolding write_pub
  read-write_pub path q key s ne =
      read-then_chmod (pub_path path) q mode_public _
      ∙ laws.read-write_other (pub_path path) q (ks.marshal_authorized key) mode_public s ne

  pub stat-write_pub :
      (path q : Bytes) (key : K) (s : S)
      → pub_path path ≢ q
      → fs.stat q (write_pub fs ks dir path key s).0 ≡ fs.stat q s
  unfolding write_pub
  stat-write_pub path q key s ne =
      stat-then_chmod (pub_path path) q mode_public _ ne
      ∙ laws.stat-write_other (pub_path path) q (ks.marshal_authorized key) mode_public s ne

  finish-store : (key : K) (r : S × Option Error) → (finish fs ks dir key r).0 ≡ r.0
  finish-store key (s, none) = refl
  finish-store key (s, some e) = refl

  -- A run ends in an error, or with the key that the file holds.
  abbrev pub IsLoaded : Bytes → Info → S → Result K → Type 0
  IsLoaded path info s r =
      ((e : Error) × (r ≡ err e))
      ⊎ ((content : Bytes) × (key : K) × (fs.read_file path s ≡ data_read content)
          × (ks.parse_private content ≡ some key)
          × (bits_beyond info.perm mode_private ≡ 0)
          × (r ≡ ok key (ks.fingerprint key)))

  finish-cases :
      (key : K) (r : S × Option Error)
      → ((e : Error) × ((finish fs ks dir key r).1 ≡ err e))
        ⊎ ((finish fs ks dir key r).1 ≡ ok key (ks.fingerprint key))
  finish-cases key (s, none) = inr refl
  finish-cases key (s, some e) = inl (e, refl)

  -- What a run amounts to, given what each call has answered.
  pub load_existing_read :
      (path content : Bytes) (key : K) (s : S)
      → fs.read_file path s ≡ data_read content
      → ks.parse_private content ≡ some key
      → load_existing fs ks dir path s ≡ finish fs ks dir key (write_pub fs ks dir path key s)
  unfolding load_existing
  load_existing_read path content key s p q = cc

  load_existing_corrupt :
      (path content : Bytes) (s : S)
      → fs.read_file path s ≡ data_read content
      → ks.parse_private content ≡ none
      → load_existing fs ks dir path s ≡ (s, err key_corrupt)
  unfolding load_existing
  load_existing_corrupt path content s p q = cc

  load_existing_unread :
      (path e : Bytes) (s : S)
      → fs.read_file path s ≡ read_error e
      → load_existing fs ks dir path s ≡ (s, err (call_failed (codes "read") e))
  unfolding load_existing
  load_existing_unread path e s p = cc

  load_existing-IsLoaded :
      (path : Bytes) (info : Info) (s : S)
      → bits_beyond info.perm mode_private ≡ 0
      → (let r = load_existing fs ks dir path s in
          (fs.read_file path r.0 ≡ fs.read_file path s) × IsLoaded path info s r.1)
  load_existing-IsLoaded path info s h = elim (Read-cases (fs.read_file path s)) [
    | inr (e, p) ↦ rw (load_existing_unread path e s p) (refl, inl (_, refl))
    | inl (content, p) ↦ elim (Option-cases (ks.parse_private content)) [
      | inl q ↦ rw (load_existing_corrupt path content s p q) (refl, inl (_, refl))
      | inr (key, q) ↦
          let w = write_pub fs ks dir path key s in
          let kept = finish-store key w in
          rw (load_existing_read path content key s p q) (
            ap (fs.read_file path) kept ∙ read-write_pub path path key s (pub_path-ne path),
            elim (finish-cases key w) [
              | inl bad ↦ inl bad
              | inr good ↦ inr (content, key, p, q, h, good)
            ],
          )
    ]
  ]

  -- On files with the laws of `IsFiles`: with a file at the path, whatever happens, the file keeps its
  -- content; and the key that is returned is the one in it, with its fingerprint, and only if no
  -- permission beyond 0600 is set.
  pub load_or_generate-keeps :
      (path : Bytes) (s : S) (info : Info)
      → fs.stat path s ≡ found info
      → (let r = load_or_generate fs ks dir path s in
          (fs.read_file path r.0 ≡ fs.read_file path s) × IsLoaded path info s r.1)
  unfolding load_or_generate
  load_or_generate-keeps path s info h = elim (Option-cases (check_parent fs ks dir path s)) [
    | inr (e, p) ↦
        let run : load_or_generate fs ks dir path s ≡ (s, err e) = cc in
        rw run (refl, inl (e, refl))
    | inl p ↦ elim (Bool-cases (bits_beyond info.perm mode_private == 0)) [
      | inl z ↦
          let run : load_or_generate fs ks dir path s ≡ load_existing fs ks dir path s = cc in
          rw run (load_existing-IsLoaded path info s (ground arith))
      | inr z ↦
          let run : load_or_generate fs ks dir path s ≡ (s, err permissions_too_open) = cc in
          rw run (refl, inl (_, refl))
    ]
  ]
