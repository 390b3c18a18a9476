-- ===== src/HostKey/Files.antt =====
-- The calls of package os as an interface, with what the callers rely on. `S` is the state of the
-- file system; an error is its message.
use minisshd.Prelude.{ℕ, ◌-◌, ◌≡◌, ◌≢◌, Bool, Option, none, Bytes}
use Prim.Native.Nat.{bit_and}

-- `FileInfo`, with the permission bits of its mode.
pub record Info : Type 0 where
  pub is_dir : Bool
  pub is_regular : Bool
  pub perm : ℕ

pub data Stat : Type 0 where
  found : Info → Stat
  not_exist : (message : Bytes) → Stat
  stat_error : (message : Bytes) → Stat

pub data Read : Type 0 where
  data_read : Bytes → Read
  read_error : (message : Bytes) → Read

pub record Files (S : Type 0) : Type 0 where
  pub stat : Bytes → S → Stat
  pub read_file : Bytes → S → Read
  pub write_file : (path content : Bytes) (perm : ℕ) → S → S × Option Bytes
  pub chmod : (path : Bytes) (perm : ℕ) → S → S × Option Bytes
  pub mkdir_all : (path : Bytes) (perm : ℕ) → S → S × Option Bytes

-- Paths name different files unless they are equal, so that links and two spellings of one path are left
-- out, and so is a mode that takes the owner's right to read away. A write that gives no error can be
-- read back. A `Chmod` that gives no error on such a file sets its permissions, and changes no content.
pub record IsFiles {S : Type 0} (fs : Files S) : Type 0 where
  pub read-write :
      (p d : Bytes) (m : ℕ) (s : S)
      → (fs.write_file p d m s).1 ≡ none
      → fs.read_file p (fs.write_file p d m s).0 ≡ data_read d
  pub read-write_other :
      (p q d : Bytes) (m : ℕ) (s : S)
      → p ≢ q
      → fs.read_file q (fs.write_file p d m s).0 ≡ fs.read_file q s
  pub read-chmod :
      (p q : Bytes) (m : ℕ) (s : S) → fs.read_file q (fs.chmod p m s).0 ≡ fs.read_file q s
  pub stat-write_other :
      (p q d : Bytes) (m : ℕ) (s : S) → p ≢ q → fs.stat q (fs.write_file p d m s).0 ≡ fs.stat q s
  pub stat-chmod_other :
      (p q : Bytes) (m : ℕ) (s : S) → p ≢ q → fs.stat q (fs.chmod p m s).0 ≡ fs.stat q s
  pub stat-chmod :
      (p d : Bytes) (m n : ℕ) (s : S)
      → (fs.write_file p d m s).1 ≡ none
      → (fs.chmod p n (fs.write_file p d m s).0).1 ≡ none
      → (i : Info) × (fs.stat p (fs.chmod p n (fs.write_file p d m s).0).0 ≡ found i) × (i.perm ≡ n)

-- `a &^ b`
abbrev pub bits_beyond : ℕ → ℕ → ℕ
bits_beyond a b = a - bit_and a b
