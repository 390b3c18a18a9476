-- ===== src/HostKey/Generated.antt =====
-- A run of `LoadOrGenerate` of internal/hostkey/hostkey.go that generates a key, and the run after it.
use minisshd.Prelude.{◌≡◌, ◌≢◌, refl, ap, sym, ◌∙◌, true, Option, none, some, ◌==◌, arith, Bytes}
use minisshd.HostKey.Files.{Info, found, not_exist, data_read, Files, IsFiles, bits_beyond}
use minisshd.HostKey.Load.{
  Error, ok, Keys, mode_private, pub_path, write_pub, finish, generate_and_write, load_existing,
  check_parent, load_or_generate,
}
use minisshd.HostKey.Existing.{pub_path-ne, read-write_pub, stat-write_pub, load_existing_read}

module _ {S K : Type 0} (fs : Files S) (laws : IsFiles fs) (ks : Keys K) (dir : Bytes → Bytes) where
  -- What has happened when a generation has succeeded.
  abbrev IsGenerated : Bytes → S → K → Bytes → Type 0
  IsGenerated path s key fp =
      (content : Bytes) × (ks.marshal_private key ≡ some content)
      × (let w = fs.write_file path content mode_private s in
          let c = fs.chmod path mode_private w.0 in
          (w.1 ≡ none)
          × (c.1 ≡ none)
          × (fp ≡ ks.fingerprint key)
          × ((generate_and_write fs ks dir path s).0 ≡ (write_pub fs ks dir path key c.0).0))

  generate_and_write-IsGenerated :
      (path fp : Bytes) (key : K) (s : S)
      → (generate_and_write fs ks dir path s).1 ≡ ok key fp
      → IsGenerated path s key fp
  unfolding generate_and_write
  generate_and_write-IsGenerated path fp key s h = grind arith

  -- The store after a generation: the parent as before, the file private and with the key in it.
  stat-generated :
      (path q content : Bytes) (key : K) (s : S)
      → path ≢ q
      → pub_path path ≢ q
      → (let c = fs.chmod path mode_private (fs.write_file path content mode_private s).0 in
          fs.stat q (write_pub fs ks dir path key c.0).0 ≡ fs.stat q s)
  stat-generated path q content key s ne₁ ne₂ =
      stat-write_pub fs laws ks dir path q key _ ne₂
      ∙ (laws.stat-chmod_other path q mode_private _ ne₁
          ∙ laws.stat-write_other path q content mode_private s ne₁)

  read-generated :
      (path content : Bytes) (key : K) (s : S)
      → (let w = fs.write_file path content mode_private s in
          let c = fs.chmod path mode_private w.0 in
          w.1 ≡ none → fs.read_file path (write_pub fs ks dir path key c.0).0 ≡ data_read content)
  read-generated path content key s h =
      read-write_pub fs laws ks dir path path key _ (pub_path-ne path)
      ∙ (laws.read-chmod path path mode_private _ ∙ laws.read-write path content mode_private s h)

  load_or_generate_gone :
      (path e fp : Bytes) (key : K) (s : S)
      → fs.stat path s ≡ not_exist e
      → (load_or_generate fs ks dir path s).1 ≡ ok key fp
      → (check_parent fs ks dir path s ≡ none)
        × (load_or_generate fs ks dir path s ≡ generate_and_write fs ks dir path s)
  unfolding load_or_generate
  load_or_generate_gone path e fp key s gone made = ground arith

  check_parent_same :
      (path : Bytes) (s s' : S)
      → fs.stat (dir path) s' ≡ fs.stat (dir path) s
      → check_parent fs ks dir path s' ≡ check_parent fs ks dir path s
  unfolding check_parent
  check_parent_same path s s' h = cc

  finish-none :
      (key : K) (r : S × Option Error)
      → r.1 ≡ none
      → (finish fs ks dir key r).1 ≡ ok key (ks.fingerprint key)
  finish-none key (s, none) h = refl
  finish-none key (s, some e) h = cc

  load_or_generate_found :
      (path content : Bytes) (key : K) (s : S) (i : Info)
      → check_parent fs ks dir path s ≡ none
      → fs.stat path s ≡ found i
      → i.perm ≡ mode_private
      → fs.read_file path s ≡ data_read content
      → ks.parse_private content ≡ some key
      → (write_pub fs ks dir path key s).1 ≡ none
      → (load_or_generate fs ks dir path s).1 ≡ ok key (ks.fingerprint key)
  unfolding load_or_generate
  load_or_generate_found path content key s i parent there mode text parsed written =
      let beyond : (bits_beyond i.perm mode_private == 0) ≡ true = rw mode refl in
      let run : load_or_generate fs ks dir path s ≡ load_existing fs ks dir path s = cc in
      rw (run, load_existing_read fs laws ks dir path content key s text parsed)
        (finish-none key _ written)

  -- On files with the laws of `IsFiles`: a key that one run has generated is loaded by the next, with
  -- the same fingerprint, if the written form of a key is parsed back, the public key can be written
  -- again, and the parent directory is another path than the two files.
  pub load_or_generate-again :
      ((key : K) (content : Bytes)
        → ks.marshal_private key ≡ some content
        → ks.parse_private content ≡ some key)
      → (path e fp : Bytes) (key : K) (s : S) → path ≢ dir path
      → pub_path path ≢ dir path
      → fs.stat path s ≡ not_exist e
      → (load_or_generate fs ks dir path s).1 ≡ ok key fp
      → (write_pub fs ks dir path key (load_or_generate fs ks dir path s).0).1 ≡ none
      → (load_or_generate fs ks dir path (load_or_generate fs ks dir path s).0).1 ≡ ok key fp
  load_or_generate-again back path e fp key s ne₁ ne₂ gone made again =
      let (parent, run) = load_or_generate_gone path e fp key s gone made in
      let done : (generate_and_write fs ks dir path s).1 ≡ ok key fp =
        ap (λ r. r.1) (sym run) ∙ made in
      let (content, m, (w, c, f, store)) = generate_and_write-IsGenerated path fp key s done in
      let after = ap (λ r. r.0) run ∙ store in
      let (i, there, mode) = laws.stat-chmod path content mode_private mode_private s w c in
      rw f (
        load_or_generate_found path content key (load_or_generate fs ks dir path s).0 i
          (check_parent_same path s _
              (ap (fs.stat (dir path)) after ∙ stat-generated path (dir path) content key s ne₁ ne₂)
            ∙ parent)
          (ap (fs.stat path) after
            ∙ (stat-write_pub fs laws ks dir path path key _ (pub_path-ne path) ∙ there))
          mode (ap (fs.read_file path) after ∙ read-generated path content key s w)
          (back key content m) again)
