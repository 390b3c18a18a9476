-- ===== src/Session/Env.antt =====
-- The environment of a child: `filterEnv` of internal/session/helpers.go, and `indexEqual` and
-- `buildEnv` of internal/session/service.go. The order in which Go ranges over a map is unspecified;
-- here it is the list's.
pub mod Lookup
pub mod Allowed
pub mod Entries
pub mod Unordered
use minisshd.Prelude.{
  ℕ, zero, suc, ◌+◌, Bool, true, false, ◌&&◌, Option, none, some, List, [], ◌∷◌, ◌++◌, ltb, ◌==◌,
  if◌then◌else◌, Bytes, length, take, drop, codes, ◌=s=◌,
}
use minisshd.Prelude.Maps.{lookup, insert}

-- `strings.HasPrefix(name, "LC_") && len(name) > 3`
unfoldable pub filter_env : Bytes → Bool
filter_env name =
    if name =s= codes "LANG"
    then true
    else (if (take 3 name =s= codes "LC_") && ltb 3 (length name) then true else false)

-- The position of the first '=', or `none` for -1.
unfoldable pub index_equal_from : ℕ → Bytes → Option ℕ
index_equal_from i [] = none
index_equal_from i (c ∷ s) = if c == b'=' then some i else index_equal_from (suc i) s

unfoldable pub index_equal : Bytes → Option ℕ
index_equal s = index_equal_from 0 s

-- `kv[:eq]` and `kv[eq+1:]`, where `eq := indexEqual(kv); eq > 0`.
unfoldable pub key_value : Bytes → Option (Bytes × Bytes)
key_value kv = elim (index_equal kv) [
  | none ↦ none
  | some eq ↦ if ltb 0 eq then some (take eq kv, drop (suc eq) kv) else none
]

abbrev pub Env : Type 0
Env = List (Bytes × Bytes)

-- The loop of `pick(name)`.
abbrev pub pick_one : Bytes → Bytes → Env → Env
pick_one name kv picked = elim (key_value kv) [
  | none ↦ picked
  | some (k, v) ↦ if k =s= name then insert name v picked else picked
]

unfoldable pub pick : Bytes → List Bytes → Env → Env
pick name [] picked = picked
pick name (kv ∷ src) picked = pick name src (pick_one name kv picked)

-- The loop over the server's `LANG` and `LC_*`.
abbrev pub pick_locale_one : Bytes → Env → Env
pick_locale_one kv picked = elim (key_value kv) [
  | none ↦ picked
  | some (k, v) ↦ if filter_env k then insert k v picked else picked
]

unfoldable pub pick_locale : List Bytes → Env → Env
pick_locale [] picked = picked
pick_locale (kv ∷ src) picked = pick_locale src (pick_locale_one kv picked)

-- The loop over `st.envFromCh`.
unfoldable pub override : Env → Env → Env
override [] picked = picked
override ((k, v) ∷ env) picked = insert k v (override env picked)

-- `st.pty.Term`, where a PTY was requested
unfoldable pub set_term : Option Bytes → Env → Env
set_term none picked = picked
set_term (some term) picked = if term =s= [] then picked else insert (codes "TERM") term picked

unfoldable pub picked_env : List Bytes → Env → Option Bytes → Env
picked_env src from_channel term =
    let home = pick (codes "HOME") src [] in
    let user = pick (codes "USER") src home in
    let logname = pick (codes "LOGNAME") src user in
    let shell = pick (codes "SHELL") src logname in
    let path = pick (codes "PATH") src shell in
    set_term term (override from_channel (pick_locale src path))

-- `k + "=" + v` for each pair
unfoldable pub render : Env → List Bytes
render [] = []
render ((k, v) ∷ m) = (k ++ b'=' ∷ v) ∷ render m

unfoldable pub build_env : List Bytes → Env → Option Bytes → List Bytes
build_env src from_channel term = render (picked_env src from_channel term)
