-- ===== src/HostKey/Load.antt =====
-- `LoadOrGenerate`, `generateAndWrite`, `loadExisting` and `writePub`. A private key is `K`; what
-- packages ed25519, ssh and pem do with it are parameters, and so is `filepath.Dir`. An error is kept
-- as the sentinel that it wraps, or as the call that failed with its message.
use minisshd.Prelude.{ℕ, Bool, not, Option, none, some, [], ◌++◌, ◌==◌, if◌then◌else◌, Bytes, codes}
use minisshd.HostKey.Files.{found, not_exist, stat_error, data_read, read_error, Files, bits_beyond}

pub data Error : Type 0 where
  parent_missing permissions_too_open key_corrupt : Error
  call_failed : (call message : Bytes) → Error

pub data Result (K : Type 0) : Type 0 where
  ok : K → (fingerprint : Bytes) → Result K
  err : Error → Result K

-- Package ed25519's and ssh's part; `generated` is what this run's `GenerateKey` gives.
pub record Keys (K : Type 0) : Type 0 where
  pub generated : Option K
  pub marshal_private : K → Option Bytes
  pub parse_private : Bytes → Option K
  pub new_signer : K → Bool
  pub marshal_authorized : K → Bytes
  pub fingerprint : K → Bytes

abbrev pub mode_private : ℕ
mode_private = 384

abbrev pub mode_public : ℕ
mode_public = 420

abbrev pub pub_path : Bytes → Bytes
pub_path path = path ++ codes ".pub"

module _ {S K : Type 0} (fs : Files S) (ks : Keys K) (dir : Bytes → Bytes) where
  -- What follows a write: the chmod, and its error.
  abbrev pub then_chmod : (path : Bytes) (perm : ℕ) → S × Option Bytes → S × Option Error
  then_chmod path perm (s, some e) = (s, some (call_failed (codes "write") e))
  then_chmod path perm (s, none) =
      let (s', failed) = fs.chmod path perm s in
      (s', elim failed [ none ↦ none | some e ↦ some (call_failed (codes "chmod") e) ])

  unfoldable pub write_pub : Bytes → K → S → S × Option Error
  write_pub path key s =
      then_chmod (pub_path path) mode_public
        (fs.write_file (pub_path path) (ks.marshal_authorized key) mode_public s)

  abbrev pub finish : K → S × Option Error → S × Result K
  finish key (s, none) = (s, ok key (ks.fingerprint key))
  finish key (s, some e) = (s, err e)

  -- After the private key has been written.
  abbrev pub derive : Bytes → K → S × Option Error → S × Result K
  derive path key (s, some e) = (s, err e)
  derive path key (s, none) =
      if ks.new_signer key
      then finish key (write_pub path key s)
      else (s, err (call_failed (codes "derive signer") []))

  unfoldable pub generate_and_write : Bytes → S → S × Result K
  generate_and_write path s = elim ks.generated [
    | none ↦ (s, err (call_failed (codes "generate") []))
    | some key ↦ elim (ks.marshal_private key) [
      | none ↦ (s, err (call_failed (codes "marshal") []))
      | some content ↦
          derive path key (then_chmod path mode_private (fs.write_file path content mode_private s))
    ]
  ]

  unfoldable pub load_existing : Bytes → S → S × Result K
  load_existing path s = elim (fs.read_file path s) [
    | read_error e ↦ (s, err (call_failed (codes "read") e))
    | data_read content ↦ elim (ks.parse_private content) [
      | none ↦ (s, err key_corrupt)
      | some key ↦ finish key (write_pub path key s)
    ]
  ]

  -- The check of the parent directory.
  unfoldable pub check_parent : Bytes → S → Option Error
  check_parent path s = elim (fs.stat (dir path) s) [
    | not_exist e ↦ some parent_missing
    | stat_error e ↦ some (call_failed (codes "stat parent") e)
    | found info ↦ if info.is_dir then none else some parent_missing
  ]

  unfoldable pub load_or_generate : Bytes → S → S × Result K
  load_or_generate path s = elim (check_parent path s) [
    | some e ↦ (s, err e)
    | none ↦ elim (fs.stat path s) [
      | found info ↦
          if not (bits_beyond info.perm mode_private == 0)
          then (s, err permissions_too_open)
          else load_existing path s
      | not_exist e ↦ generate_and_write path s
      | stat_error e ↦ (s, err (call_failed (codes "stat") e))
    ]
  ]
