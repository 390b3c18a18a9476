-- ===== src/Auth/Methods.antt =====
-- `Methods` and `ResolveMethods` of internal/auth/resolve.go: the list of authentication methods.
-- `strings.TrimSpace` is an argument, `trim`; the error's wrapped token is kept.
pub mod Laws
use minisshd.Prelude.{
  ℕ, ◌≡◌, ◌≢◌, refl, Bool, true, false, Option, none, some, List, [], ◌∷◌, ◌++◌, arith, ◌==◌,
  if◌then◌else◌, Bytes, ◌&&◌, not, codes, ◌=s=◌, =s=_iff, =s=-refl, All,
}

pub data Error : Type 0 where
  empty_auth_methods : Error
  unknown_auth_method : Bytes → Error
  duplicate_auth_method : Bytes → Error

pub data Result {ℓ} (A : Type ℓ) : Type ℓ where
  ok : A → Result A
  err : Error → Result A

abbrev pub method_password : Bytes
method_password = codes "password"

abbrev pub method_publickey : Bytes
method_publickey = codes "publickey"

abbrev pub Methods : Type 0
Methods = List Bytes

unfoldable pub contains : Methods → Bytes → Bool
contains [] m = false
contains (v ∷ vs) m = if v =s= m then true else contains vs m

-- `strings.Join(ms, sep)` with a separator of one byte
unfoldable pub join : List Bytes → ℕ → Bytes
join [] sep = []
join (s ∷ []) sep = s
join (s ∷ t ∷ ss) sep = s ++ sep ∷ join (t ∷ ss) sep

unfoldable pub to_string : Methods → Bytes
to_string ms = join ms b','

-- `strings.Split(s, sep)` with a separator of one byte: the part that is open, then the others.
unfoldable pub split_from : Bytes → Bytes → ℕ → List Bytes
split_from cur [] sep = cur ∷ []
split_from cur (c ∷ s) sep = elim (c == sep) [
  | true ↦ cur ∷ split_from [] s sep
  | false ↦ split_from (cur ++ c ∷ []) s sep
]

unfoldable pub split : Bytes → ℕ → List Bytes
split s sep = split_from [] s sep

module _ (trim : Bytes → Bytes) where
  -- The loop over the tokens; `seen` holds the keys of the map of that name.
  unfoldable pub resolve_tokens : List Bytes → List Bytes → Methods → Result Methods
  resolve_tokens [] seen methods = ok methods
  resolve_tokens (t ∷ ts) seen methods =
      let tok = trim t in
      let rest = resolve_tokens ts (tok ∷ seen) (methods ++ tok ∷ []) in
      if tok =s= []
      then err empty_auth_methods
      else (if not (tok =s= method_password) && not (tok =s= method_publickey)
          then err (unknown_auth_method tok)
          else (if contains seen tok then err (duplicate_auth_method tok) else rest))

  unfoldable pub resolve_raw : Bytes → Result Methods
  resolve_raw value =
      let raw = trim value in
      if raw =s= [] then err empty_auth_methods else resolve_tokens (split raw b',') [] []

  unfoldable pub resolve_methods : Bytes → Bool → Bytes → Bool → Result Methods
  resolve_methods flag_val flag_set env_val env_set =
      if flag_set
      then resolve_raw flag_val
      else (if env_set then resolve_raw env_val else ok (method_password ∷ []))

-- The lists that can result.
pub data IsMethods : Methods → Type 0 where
  password_only : IsMethods (method_password ∷ [])
  publickey_only : IsMethods (method_publickey ∷ [])
  password_first : IsMethods (method_password ∷ method_publickey ∷ [])
  publickey_first : IsMethods (method_publickey ∷ method_password ∷ [])
