-- ===== src/HostKey/Tests.antt =====
-- The theorems on `LoadOrGenerate` of internal/hostkey/hostkey.go on a disk that is a map from paths to
-- contents and permissions, and on which no call fails but that of a missing file.
use minisshd.Prelude.{
  ℕ, ◌≡◌, ◌≢◌, refl, ap, sym, ◌∙◌, inl, inr, true, false, Option, none, some, List, [], ◌∷◌, ◌++◌,
  arith, Bytes, codes, ◌=s=◌, =s=_iff, =s=-refl, length, Bool-cases,
}
use minisshd.Prelude.Maps.{lookup, insert, lookup-insert}
use minisshd.HostKey.Files.{
  Info, Stat, found, not_exist, Read, data_read, read_error, Files, IsFiles,
}
use minisshd.HostKey.Load.{Keys, ok, load_or_generate, generate_and_write, check_parent, write_pub}
use minisshd.HostKey.Existing.{IsLoaded, load_or_generate-keeps}
use minisshd.HostKey.Generated.{load_or_generate-again}

abbrev pub Disk : Type 0
Disk = List (Bytes × (Bytes × ℕ))

abbrev pub root : Bytes
root = codes "/"

abbrev info_of : Bytes → ℕ → Info
info_of p m = record { is_dir = p =s= root; is_regular = true; perm = m }

abbrev stat_entry : Bytes → Option (Bytes × ℕ) → Stat
stat_entry p none = not_exist (codes "no such file")
stat_entry p (some (d, m)) = found (info_of p m)

abbrev read_entry : Option (Bytes × ℕ) → Read
read_entry none = read_error (codes "no such file")
read_entry (some (d, m)) = data_read d

abbrev chmod_entry : Bytes → ℕ → Option (Bytes × ℕ) → Disk → Disk × Option Bytes
chmod_entry p n none s = (s, some (codes "no such file"))
chmod_entry p n (some (d, m)) s = (insert p (d, n) s, none)

abbrev pub disk : Files Disk
disk = record {
  stat = λ p s. stat_entry p (lookup p s);
  read_file = λ p s. read_entry (lookup p s);
  write_file = λ p d m s. (insert p (d, m) s, none);
  chmod = λ p n s. chmod_entry p n (lookup p s) s;
  mkdir_all = λ p n s. (insert p ([], n) s, none);
}

unequal : (p q : Bytes) → p ≢ q → (p =s= q) ≡ false
unequal p q ne = ground (arith, =s=_iff p q)

stored : (p : Bytes) (v : Bytes × ℕ) (s : Disk) → lookup p (insert p v s) ≡ some v
stored p v s = rw (lookup-insert p p v s, =s=-refl p) refl

stored_other :
    (p q : Bytes) (v : Bytes × ℕ) (s : Disk) → p ≢ q → lookup q (insert p v s) ≡ lookup q s
stored_other p q v s ne = rw (lookup-insert p q v s, unequal p q ne) refl

read-chmod_entry :
    (p q : Bytes) (n : ℕ) (o : Option (Bytes × ℕ)) (s : Disk)
    → lookup p s ≡ o
    → read_entry (lookup q (chmod_entry p n o s).0) ≡ read_entry (lookup q s)
read-chmod_entry p q n none s h = refl
read-chmod_entry p q n (some (d, m)) s h = elim (Bool-cases (p =s= q)) [
  | inl e ↦
      let same : p ≡ q = (=s=_iff p q).0 e in
      rw (lookup-insert p q (d, n) s, e) (rw (sym same, h) refl)
  | inr e ↦ rw (lookup-insert p q (d, n) s, e) refl
]

stat-chmod_entry_other :
    (p q : Bytes) (n : ℕ) (o : Option (Bytes × ℕ)) (s : Disk)
    → p ≢ q
    → stat_entry q (lookup q (chmod_entry p n o s).0) ≡ stat_entry q (lookup q s)
stat-chmod_entry_other p q n none s ne = refl
stat-chmod_entry_other p q n (some (d, m)) s ne = rw (stored_other p q (d, n) s ne) refl

disk-IsFiles : IsFiles disk
disk-IsFiles = record {
  read-write = λ p d m s h. ap read_entry (stored p (d, m) s);
  read-write_other = λ p q d m s ne. ap read_entry (stored_other p q (d, m) s ne);
  read-chmod = λ p q m s. read-chmod_entry p q m (lookup p s) s refl;
  stat-write_other = λ p q d m s ne. ap (stat_entry q) (stored_other p q (d, m) s ne);
  stat-chmod_other = λ p q m s ne. stat-chmod_entry_other p q m (lookup p s) s ne;
  stat-chmod = λ p d m n s h h'. (
    info_of p n,
    ap (λ o. stat_entry p (lookup p (chmod_entry p n o (insert p (d, m) s)).0)) (stored p (d, m) s)
        ∙ ap (stat_entry p) (stored p (d, n) (insert p (d, m) s)),
    refl,
  );
}

-- A key is its own text, and is signed by everybody.
abbrev pub keys : Keys Bytes
keys = record {
  generated = some (codes "key");
  marshal_private = λ k. some k;
  parse_private = λ c. some c;
  new_signer = λ k. true;
  marshal_authorized = λ k. codes "ssh-ed25519 " ++ k;
  fingerprint = λ k. codes "SHA256:" ++ k;
}

abbrev pub dir_root : Bytes → Bytes
dir_root p = root

abbrev empty_disk : Disk
empty_disk = (root, ([], 493)) ∷ []

abbrev key_path : Bytes
key_path = codes "/k"

abbrev keyed_disk : Disk
keyed_disk = (key_path, (codes "old", 384)) ∷ empty_disk

load_or_generate-keeps_example :
    (let r = load_or_generate disk keys dir_root key_path keyed_disk in
      (disk.read_file key_path r.0 ≡ disk.read_file key_path keyed_disk)
      × IsLoaded disk disk-IsFiles keys dir_root key_path (info_of key_path 384) keyed_disk r.1)
unfolding lookup ◌=s=◌
load_or_generate-keeps_example =
    load_or_generate-keeps disk disk-IsFiles keys dir_root key_path keyed_disk
      (info_of key_path 384) refl

load_or_generate-again_example :
    (load_or_generate disk keys dir_root key_path
      (load_or_generate disk keys dir_root key_path empty_disk).0).1
    ≡ ok (codes "key") (codes "SHA256:key")
unfolding lookup insert load_or_generate generate_and_write check_parent write_pub ◌=s=◌
load_or_generate-again_example =
    load_or_generate-again disk disk-IsFiles keys dir_root (λ k c h. sym h) key_path
      (codes "no such file") (codes "SHA256:key") (codes "key") empty_disk
      (λ e. omega (arith, ap length e)) (λ e. omega (arith, ap length e)) refl refl refl
