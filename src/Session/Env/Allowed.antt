-- ===== src/Session/Env/Allowed.antt =====
-- The names in a child's environment, `buildEnv` of internal/session/service.go.
use minisshd.Prelude.{
  ◌≡◌, ◌≢◌, refl, Bool, true, ◌||◌, Option, none, List, [], ◌∷◌, ◌++◌, arith, Bytes, codes, ◌=s=◌,
  =s=_iff, =s=-refl, All,
}
use minisshd.Prelude.Maps.{lookup}
use minisshd.Session.Env.{filter_env, Env, picked_env, render, build_env}
use minisshd.Session.Env.Lookup.{is_login_name, lookup-picked_env}

-- TERM, HOME, USER, LOGNAME, SHELL, PATH, LANG, and LC_ with something behind it.
abbrev pub is_allowed : Bytes → Bool
is_allowed name = codes "TERM" =s= name || is_login_name name || filter_env name

-- A "name=value" whose name is permitted.
abbrev pub IsAllowedEntry : Bytes → Type 0
IsAllowedEntry s = (k : Bytes) × (v : Bytes) × (s ≡ k ++ b'=' ∷ v) × (is_allowed k ≡ true)

abbrev pub IsFiltered : Env → Type 0
IsFiltered = All (λ p. filter_env p.0 ≡ true)

filtered-lookup :
    (env : Env) (k : Bytes) → IsFiltered env → lookup k env ≢ none → filter_env k ≡ true
unfolding lookup
filtered-lookup [] k h found = absurd (found refl)
filtered-lookup ((j, v) ∷ env) k h found = ground (arith, filtered-lookup env k h.1, =s=_iff j k)

allowed-lookup :
    (src : List Bytes) (from_channel : Env) (term : Option Bytes)
    → IsFiltered from_channel
    → (k : Bytes) → lookup k (picked_env src from_channel term) ≢ none
    → is_allowed k ≡ true
allowed-lookup src from_channel term h k found =
    ground (arith, lookup-picked_env src from_channel term k, filtered-lookup from_channel k h)

render-All :
    (P : Bytes → Type 0) (m : Env)
    → ((k : Bytes) → lookup k m ≢ none → P k)
    → All (λ s. (k : Bytes) × (v : Bytes) × (s ≡ k ++ b'=' ∷ v) × P k) (render m)
unfolding render lookup
render-All P [] h = tt
render-All P ((k, v) ∷ m) h =
    ((k, v, refl, h k (ground (arith, =s=-refl k))), render-All P m (λ j found. h j (ground arith)))

-- If every name that the client has set passes `filterEnv`, every entry of the child's environment
-- is a permitted name with its value, whatever the server's environment holds.
pub build_env-allowed :
    (src : List Bytes) (from_channel : Env) (term : Option Bytes)
    → IsFiltered from_channel
    → All IsAllowedEntry (build_env src from_channel term)
unfolding build_env
build_env-allowed src from_channel term h =
    render-All (λ k. is_allowed k ≡ true) (picked_env src from_channel term)
      (allowed-lookup src from_channel term h)
