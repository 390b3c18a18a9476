-- ===== src/Start/Settings.antt =====
-- Settings that `run` of cmd/minisshd/main.go resolves by helpers of its own: `resolveForwardMax`,
-- `validateShell` and `ensureMinisshdDir`, and `ParseFormat` of internal/logging/format.go.
-- `strconv.Atoi` and `filepath.EvalSymlinks` are parameters.
use minisshd.Prelude.{
  ℕ, ℤ, pos, negsuc, ◌==◌, Bool, true, false, not, ◌&&◌, Option, none, some, [], if◌then◌else◌,
  Bytes, codes, ◌=s=◌, ◌≡◌, refl,
}
use Prim.Native.Nat.{bit_and}
use minisshd.HostKey.Files.{found, not_exist, stat_error, Files, bits_beyond}
use minisshd.Logging.Line.{Format, logfmt, json}

-- `none` is the error.
abbrev pub natural : ℤ → Option ℕ
natural (pos n) = some n
natural (negsuc n) = none

unfoldable pub resolve_forward_max : (atoi : Bytes → Option ℤ) → ℤ → Bool → Bytes → Option ℕ
resolve_forward_max atoi flag_value flag_set env_value =
    if flag_set
    then natural flag_value
    else (if not (env_value =s= [])
        then elim (atoi env_value) [ none ↦ none | some n ↦ natural n ]
        else some 32)

unfoldable pub parse_format_string : Bytes → Option Format
parse_format_string s =
    if s =s= codes "logfmt" then some logfmt else (if s =s= codes "json" then some json else none)

-- `String`, for the two formats there are
unfoldable pub format_name : Format → Bytes
format_name logfmt = codes "logfmt"
format_name json = codes "json"

-- A format's name is parsed into the format.
parse_format_string-format_name : (f : Format) → parse_format_string (format_name f) ≡ some f
unfolding parse_format_string format_name ◌=s=◌
parse_format_string-format_name logfmt = refl
parse_format_string-format_name json = refl

unfoldable pub parse_format : Bytes → Bool → Bytes → Bool → Option Format
parse_format flag_value flag_set env_value env_set =
    if flag_set
    then parse_format_string flag_value
    else (if env_set && not (env_value =s= []) then parse_format_string env_value else some logfmt)

module _ {S : Type 0} (fs : Files S) where
  -- Whether the shell passes; 73 is 0o111.
  unfoldable pub validate_shell : (eval_symlinks : Bytes → S → Option Bytes) → Bytes → S → Bool
  validate_shell eval_symlinks path s = elim (eval_symlinks path s) [
    | none ↦ false
    | some resolved ↦ elim (fs.stat resolved s) [
      | not_exist e ↦ false
      | stat_error e ↦ false
      | found info ↦ info.is_regular && not (bit_and info.perm 73 == 0)
    ]
  ]

  -- After `MkdirAll`; the Boolean tells whether there was no error. 448 is 0o700.
  abbrev pub then_private : Bytes → S × Option Bytes → S × Bool
  then_private path (s, some e) = (s, false)
  then_private path (s, none) =
      let (s', failed) = fs.chmod path 448 s in (s', elim failed [ none ↦ true | some e ↦ false ])

  unfoldable pub ensure_minisshd_dir : Bytes → S → S × Bool
  ensure_minisshd_dir path s = elim (fs.stat path s) [
    | stat_error e ↦ (s, false)
    | not_exist e ↦ then_private path (fs.mkdir_all path 448 s)
    | found info ↦ (s, info.is_dir && bits_beyond info.perm 448 == 0)
  ]
