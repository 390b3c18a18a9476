-- ===== src/Session/Env/Lookup.antt =====
-- The values in a child's environment, `buildEnv` of internal/session/service.go.
use minisshd.Prelude.{
  ◌≡◌, refl, Bool, ◌||◌, Option, none, some, List, [], ◌∷◌, arith, if◌then◌else◌, Bytes, codes,
  ◌=s=◌, =s=_iff, Option-cases, inl, inr,
}
use minisshd.Prelude.Maps.{lookup, lookup-insert}
use minisshd.Session.Env.{
  filter_env, key_value, Env, pick_one, pick, pick_locale_one, pick_locale, override, set_term,
  picked_env,
}

-- The first choice, or else the second.
abbrev pub or_else : {A : Type 0} → Option A → Option A → Option A
or_else (some a) b = some a
or_else none b = b

-- The value that the last well-formed entry of a list of "name=value" gives to a name.
abbrev value_of : Bytes → Option (Bytes × Bytes) → Option Bytes
value_of name none = none
value_of name (some (k, v)) = if k =s= name then some v else none

unfoldable pub last_value : Bytes → List Bytes → Option Bytes
last_value name [] = none
last_value name (kv ∷ src) = or_else (last_value name src) (value_of name (key_value kv))

lookup-pick :
    (name j : Bytes) (src : List Bytes) (m : Env)
    → lookup j (pick name src m)
      ≡ (if name =s= j then or_else (last_value j src) (lookup j m) else lookup j m)
unfolding pick last_value
lookup-pick name j [] m = ground arith
lookup-pick name j (kv ∷ src) m = elim (Option-cases (key_value kv)) [
  | inl p ↦ ground (arith, lookup-pick name j src m)
  | inr ((k, v), p) ↦ ground (
    arith,
    lookup-pick name j src (pick_one name kv m),
    lookup-insert name j v m,
    =s=_iff k name,
    =s=_iff name j,
    =s=_iff k j,
  )
]

lookup-pick_locale :
    (j : Bytes) (src : List Bytes) (m : Env)
    → lookup j (pick_locale src m)
      ≡ (if filter_env j then or_else (last_value j src) (lookup j m) else lookup j m)
unfolding pick_locale last_value
lookup-pick_locale j [] m = ground arith
lookup-pick_locale j (kv ∷ src) m = elim (Option-cases (key_value kv)) [
  | inl p ↦ ground (arith, lookup-pick_locale j src m)
  | inr ((k, v), p) ↦
      ground
        (arith, lookup-pick_locale j src (pick_locale_one kv m), lookup-insert k j v m, =s=_iff k j)
]

lookup-override :
    (j : Bytes) (env m : Env) → lookup j (override env m) ≡ or_else (lookup j env) (lookup j m)
unfolding override lookup
lookup-override j [] m = refl
lookup-override j ((k, v) ∷ env) m =
    ground (arith, lookup-insert k j v (override env m), lookup-override j env m)

-- The five names that are always taken from the server's environment.
abbrev pub is_login_name : Bytes → Bool
is_login_name name =
    codes "HOME" =s= name
    || codes "USER" =s= name
    || codes "LOGNAME" =s= name
    || codes "SHELL" =s= name
    || codes "PATH" =s= name

abbrev pub given_term : Option Bytes → Option Bytes
given_term none = none
given_term (some term) = if term =s= [] then none else some term

-- The value that a name should have: the PTY's terminal type for TERM; else what the client sent
-- for it; else the server's own value, if the name is one of the five or passes the filter.
abbrev pub expected : List Bytes → Env → Option Bytes → Bytes → Option Bytes
expected src from_channel term name =
    or_else (if codes "TERM" =s= name then given_term term else none) (
      or_else (lookup name from_channel)
        (if is_login_name name || filter_env name then last_value name src else none))

lookup-set_term :
    (j : Bytes) (term : Option Bytes) (m : Env)
    → lookup j (set_term term m)
      ≡ or_else (if codes "TERM" =s= j then given_term term else none) (lookup j m)
unfolding set_term
lookup-set_term j none m = ground arith
lookup-set_term j (some term) m = ground (arith, lookup-insert (codes "TERM") j term m)

-- The lookup through the five calls of `pick`.
abbrev picked_login : List Bytes → Env
picked_login src = pick (codes "PATH") src (
    pick (codes "SHELL") src
      (pick (codes "LOGNAME") src (pick (codes "USER") src (pick (codes "HOME") src []))))

lookup-picked_login :
    (src : List Bytes) (j : Bytes)
    → lookup j (picked_login src) ≡ (if is_login_name j then last_value j src else none)
lookup-picked_login src j =
    rw
      (
        lookup-pick (codes "PATH") j src _,
        lookup-pick (codes "SHELL") j src _,
        lookup-pick (codes "LOGNAME") j src _,
        lookup-pick (codes "USER") j src _,
        lookup-pick (codes "HOME") j src [],
      )
      (unfold lookup in ground arith)

-- Whatever the server's environment, the client's env requests and the terminal type, a name has in
-- the child's environment: if it is TERM, the PTY's terminal type where there is one; else what the
-- client sent for it; else the server's last value, if it is HOME, USER, LOGNAME, SHELL or PATH or
-- passes `filterEnv`; and nothing otherwise.
pub lookup-picked_env :
    (src : List Bytes) (from_channel : Env) (term : Option Bytes) (name : Bytes)
    → lookup name (picked_env src from_channel term) ≡ expected src from_channel term name
unfolding picked_env
lookup-picked_env src from_channel term name = ground (
  arith,
  lookup-set_term name term (override from_channel (pick_locale src (picked_login src))),
  lookup-override name from_channel (pick_locale src (picked_login src)),
  lookup-pick_locale name src (picked_login src),
  lookup-picked_login src name,
)
