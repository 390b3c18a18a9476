-- ===== src/Auth/Keyset.antt =====
-- `Keyset` and `KeysetSource` of internal/auth/pubkey.go. A public key is its `Marshal` bytes.
-- SHA-256, the fingerprint, `bytes.TrimSpace` and `ssh.ParseAuthorizedKey` are parameters, and so is
-- what opening and scanning the file gives. A nil `*Keyset` is `none`.
pub mod Accepts
pub mod Reloads
use Prim.Native.Nat.{bit_or, compare, Ordering}
use minisshd.Prelude.{
  ℕ, zero, suc, ◌+◌, Bool, true, false, ◌&&◌, ◌||◌, Option, none, some, List, [], ◌∷◌, ◌++◌, ltb,
  leb, ◌==◌, if◌then◌else◌, Bytes, codes, ◌=s=◌, length,
}
use minisshd.Auth.Credentials.{Traced, ◌>>=◌, done, constant_time_compare}

abbrev pub reason_bad_key : Bytes
reason_bad_key = codes "bad-key"

pub record AcceptedKey : Type 0 where
  pub marshal : Bytes
  pub digest : Bytes
  pub fingerprint : Bytes
  pub comment : Bytes

abbrev pub Keyset : Type 0
Keyset = List AcceptedKey

unfoldable pub count : Option Keyset → ℕ
count none = 0
count (some ks) = length ks

-- The loop of `Check`: every key is compared, and the results are or-ed.
unfoldable pub scan : Bytes → Keyset → ℕ → Traced ℕ
scan presented [] matched = done matched
scan presented (k ∷ ks) matched = do
  m ← constant_time_compare presented k.digest
  scan presented ks (bit_or matched m)

abbrev pub zeros : ℕ → Bytes
zeros zero = []
zeros (suc n) = 0 ∷ zeros n

-- `[sha256.Size]byte{}`
abbrev pub zero_digest : Bytes
zero_digest = zeros 32

-- An empty keyset compares once with zeros and drops the result.
unfoldable pub match_keys : Bytes → Option Keyset → Traced ℕ
match_keys presented none = do dropped ← constant_time_compare presented zero_digest; done 0
match_keys presented (some []) = do dropped ← constant_time_compare presented zero_digest; done 0
match_keys presented (some (k ∷ ks)) = scan presented (k ∷ ks) 0

-- `bytes.Compare(a, b) < 0`
unfoldable pub bytes_less : Bytes → Bytes → Bool
bytes_less [] [] = false
bytes_less [] (b ∷ t) = true
bytes_less (a ∷ s) [] = false
bytes_less (a ∷ s) (b ∷ t) = if ltb a b then true else (a == b && bytes_less s t)

-- `sort.Slice` by digest, as an insertion sort.
unfoldable pub sort_in : AcceptedKey → Keyset → Keyset
sort_in k [] = k ∷ []
sort_in k (j ∷ js) = if bytes_less j.digest k.digest then j ∷ sort_in k js else k ∷ j ∷ js

unfoldable pub sort : Keyset → Keyset
sort [] = []
sort (k ∷ ks) = sort_in k (sort ks)

pub data Log : Type 0 where
  parse_error : (path : Bytes) (line : ℕ) (message : Bytes) → Log
  option_ignored : (path : Bytes) (line : ℕ) (option : Bytes) → Log
  keys_missing : (path : Bytes) → Log
  reload_ok : (path : Bytes) (count : ℕ) → Log
  reload_failed : (path message : Bytes) → Log

-- What `os.Open` and the scanner give.
pub data File : Type 0 where
  not_exist : (message : Bytes) → File
  open_error : (message : Bytes) → File
  scanned : List Bytes → File
  scan_error : List Bytes → (message : Bytes) → File

-- The error of `parse`; the flag says whether it is `os.ErrNotExist`.
pub data Parsed : Type 0 where
  keys : Keyset → Parsed
  failed : (missing : Bool) (message : Bytes) → Parsed

-- What `ssh.ParseAuthorizedKey` gives for a line.
pub record Entry : Type 0 where
  pub key : Bytes
  pub comment : Bytes
  pub options : List Bytes

pub data Line : Type 0 where
  entry : Entry → Line
  malformed : (message : Bytes) → Line

pub record Source : Type 0 where
  pub path : Bytes
  pub cur : Option Keyset

module _ (sha256 fingerprint trim : Bytes → Bytes) (parse_line : Bytes → Line) where
  unfoldable pub check : Option Keyset → Bytes → Traced (Bool × Bytes × Bytes)
  check ks key = do
    matched ← match_keys (sha256 key) ks
    done (
        if matched == 0
        then (false, reason_bad_key, fingerprint key)
        else (true, [], fingerprint key))

  unfoldable pub is_skipped : Bytes → Bool
  is_skipped [] = true
  is_skipped (c ∷ s) = c == b'#'

  abbrev pub accept : Entry → AcceptedKey
  accept e = record {
    marshal = e.key;
    digest = sha256 e.key;
    fingerprint = fingerprint e.key;
    comment = e.comment;
  }

  abbrev pub warn_options : Bytes → ℕ → List Bytes → List Log
  warn_options path line [] = []
  warn_options path line (o ∷ os) = option_ignored path line o ∷ []

  -- The loop over the lines: the keys and the log lines, in the order of the file.
  unfoldable pub parse_lines : Bytes → ℕ → List Bytes → Keyset × List Log
  parse_lines path line [] = ([], [])
  parse_lines path line (text ∷ rest) =
      let (ks, logs) = parse_lines path (suc line) rest in
      if is_skipped (trim text) then (ks, logs) else (elim (parse_line text) [
        | malformed e ↦ (ks, parse_error path line e ∷ logs)
        | entry e ↦ (accept e ∷ ks, warn_options path line e.options ++ logs)
      ])

  unfoldable pub parse : Bytes → File → Parsed × List Log
  parse path (not_exist e) = (failed true e, [])
  parse path (open_error e) = (failed false e, [])
  parse path (scanned lines) = let (ks, logs) = parse_lines path 1 lines in (keys (sort ks), logs)
  parse path (scan_error lines e) =
      let (ks, logs) = parse_lines path 1 lines in (failed false e, logs)

  -- The Boolean tells whether an error is returned.
  abbrev pub finish_load : Source → Parsed × List Log → Source × Bool × List Log
  finish_load s (keys ks, logs) = (record s { cur = some ks }, false, logs)
  finish_load s (failed true e, logs) =
      (record s { cur = some [] }, false, logs ++ keys_missing s.path ∷ [])
  finish_load s (failed false e, logs) = (s, true, logs)

  unfoldable pub load : File → Source → Source × Bool × List Log
  load file s = finish_load s (parse s.path file)

  abbrev pub finish_reload : Source → Parsed × List Log → Source × Bool × List Log
  finish_reload s (failed missing e, logs) = (s, true, logs ++ reload_failed s.path e ∷ [])
  finish_reload s (keys ks, logs) =
      if length ks == 0 && leb 1 (count s.cur)
      then (
        s,
        true,
        logs
            ++ reload_failed s.path
                (codes "reload yielded zero usable keys; preserving previous keyset")
              ∷ [],
      )
      else (record s { cur = some ks }, false, logs ++ reload_ok s.path (length ks) ∷ [])

  unfoldable pub reload : File → Source → Source × Bool × List Log
  reload file s = finish_reload s (parse s.path file)
