-- ===== src/Auth/Resolve.antt =====
-- `ResolvePassword`, `ResolvePasswordStrict`, `ResolveUsername` and `ResolveAuthorizedKeysPath` of
-- internal/auth/resolve.go. The environment and the home directory are inputs.
use minisshd.Prelude.{
  ◌≡◌, ◌≢◌, Bool, true, false, not, ◌&&◌, ◌⊎◌, ◌↔◌, List, [], ◌∷◌, arith, if◌then◌else◌, Bytes,
  codes, ◌=s=◌, =s=_iff,
}

pub data Error : Type 0 where
  empty_password empty_username : Error
  no_home : (message : Bytes) → Error

pub data Result : Type 0 where
  ok : Bytes → Result
  err : Error → Result

unfoldable pub resolve_password : (flag_pass env_pass : Bytes) → Result
resolve_password flag_pass env_pass =
    if not (flag_pass =s= [])
    then ok flag_pass
    else (if not (env_pass =s= []) then ok env_pass else ok [])

unfoldable pub resolve_password_strict : Bytes → Bool → Bytes → Bool → Result
resolve_password_strict flag_pass flag_set env_pass env_set =
    if flag_set
    then (if flag_pass =s= [] then err empty_password else ok flag_pass)
    else (if env_set then (if env_pass =s= [] then err empty_password else ok env_pass) else ok [])

unfoldable pub resolve_username : (flag_user env_user os_user : Bytes) → Result
resolve_username flag_user env_user os_user =
    if not (flag_user =s= [])
    then ok flag_user
    else (if not (env_user =s= [])
        then ok env_user
        else (if not (os_user =s= []) then ok os_user else err empty_username))

-- What `os.UserHomeDir` gives.
pub data Home : Type 0 where
  directory : Bytes → Home
  unknown : (message : Bytes) → Home

-- `join` is `filepath.Join`.
module _ (join : List Bytes → Bytes) where
  unfoldable pub resolve_authorized_keys_path :
      Bytes → Bool → Bytes → Bool → (xdg : Bytes) → Home → Result
  resolve_authorized_keys_path flag_val flag_set env_val env_set xdg home =
      if flag_set && not (flag_val =s= [])
      then ok flag_val
      else (if env_set && not (env_val =s= [])
          then ok env_val
          else (if not (xdg =s= [])
              then ok (join (xdg ∷ codes "minisshd" ∷ codes "authorized_keys" ∷ []))
              else (elim home [
                | directory hd ↦
                    ok (
                      join (hd ∷ codes ".config" ∷ codes "minisshd" ∷ codes "authorized_keys" ∷ []))
                | unknown message ↦ err (no_home message)
              ])))

-- `ResolvePasswordStrict` refuses exactly when the value that takes precedence is supplied and empty,
-- and gives what `ResolvePassword` gives otherwise, if a value that is not supplied is empty.
resolve_password_strict_lem :
    (flag_pass : Bytes) (flag_set : Bool) (env_pass : Bytes) (env_set : Bool)
    → (flag_set ≡ true) ⊎ (flag_pass ≡ [])
    → (env_set ≡ true) ⊎ (env_pass ≡ [])
    → (let strict = resolve_password_strict flag_pass flag_set env_pass env_set in
        let refused =
          ((flag_set ≡ true) × (flag_pass ≡ []))
          ⊎ ((flag_set ≡ false) × (env_set ≡ true) × (env_pass ≡ [])) in
        ((strict ≡ err empty_password) ↔ refused)
        × ((strict ≡ err empty_password) ⊎ (strict ≡ resolve_password flag_pass env_pass)))
unfolding resolve_password_strict resolve_password
resolve_password_strict_lem flag_pass flag_set env_pass env_set h₁ h₂ =
    ground (arith, =s=_iff flag_pass [], =s=_iff env_pass [])

-- The user name is never empty, and is refused exactly if none of the three sources gives one.
pub resolve_username_lem :
    (flag_user env_user os_user : Bytes)
    → (resolve_username flag_user env_user os_user ≢ ok [])
      × ((resolve_username flag_user env_user os_user ≡ err empty_username)
          ↔ ((flag_user ≡ []) × (env_user ≡ []) × (os_user ≡ [])))
unfolding resolve_username
resolve_username_lem flag_user env_user os_user =
    ground (arith, =s=_iff flag_user [], =s=_iff env_user [], =s=_iff os_user [])
