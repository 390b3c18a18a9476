-- ===== src/Auth/Credentials.antt =====
-- `Credentials` of internal/auth/credentials.go. SHA-256 is a parameter, `sha256`. The comparison is
-- an argument of `checkWith`, as in the source; each call of it is recorded, so that the theorems
-- can speak of which comparisons run. `subtle.ConstantTimeCompare` gives 1 on equal contents and 0
-- otherwise, on slices of different lengths too.
use Prim.Native.Nat.{bit_and}
use minisshd.Prelude.{
  ℕ, ◌≡◌, ◌≢◌, refl, ◌↔◌, Bool, true, false, List, [], ◌∷◌, ◌++◌, arith, ◌==◌, if◌then◌else◌, Bytes,
  codes, ◌=s=◌, =s=_iff,
}

abbrev pub reason_bad_user : Bytes
reason_bad_user = codes "bad-user"

abbrev pub reason_bad_password : Bytes
reason_bad_password = codes "bad-password"

-- A computation beside the pairs of slices that it has compared.
abbrev pub Traced : Type 0 → Type 0
Traced A = A × List (Bytes × Bytes)

infixl 5 ◌>>=◌
abbrev pub ◌>>=◌ : {A B : Type 0} → Traced A → (A → Traced B) → Traced B
m >>= f = ((f m.0).0, m.1 ++ (f m.0).1)

abbrev pub done : {A : Type 0} → A → Traced A
done a = (a, [])

-- `subtle.ConstantTimeCompare`, with its call recorded.
unfoldable pub constant_time_compare : Bytes → Bytes → Traced ℕ
constant_time_compare a b = (if a =s= b then 1 else 0, (a, b) ∷ [])

pub record Credentials : Type 0 where
  pub user_hash : Bytes
  pub password_hash : Bytes

module _ (sha256 : Bytes → Bytes) where
  unfoldable pub new_credentials : Bytes → Bytes → Credentials
  new_credentials user password = record {
    user_hash = sha256 user;
    password_hash = sha256 password;
  }

  unfoldable pub check_username_with :
      Credentials → Bytes → (Bytes → Bytes → Traced ℕ) → Traced (Bool × Bytes)
  check_username_with c user cmp = do
    user_match ← cmp (sha256 user) c.user_hash
    done (if user_match == 1 then (true, []) else (false, reason_bad_user))

  unfoldable pub check_username : Credentials → Bytes → Traced (Bool × Bytes)
  check_username c user = check_username_with c user constant_time_compare

  unfoldable pub check_with :
      Credentials → Bytes → Bytes → (Bytes → Bytes → Traced ℕ) → Traced (Bool × Bytes)
  check_with c user password cmp = do
    user_match ← cmp (sha256 user) c.user_hash
    pass_match ← cmp (sha256 password) c.password_hash
    let ok_int = bit_and user_match pass_match
    done (
        if ok_int == 1
        then (true, [])
        else (if user_match == 0 then (false, reason_bad_user) else (false, reason_bad_password)))

  unfoldable pub check : Credentials → Bytes → Bytes → Traced (Bool × Bytes)
  check c user password = check_with c user password constant_time_compare

  -- The verdict and the reason, by the two hashes: a wrong user is reported first.
  check-table :
      (c : Credentials) (u p : Bytes)
      → (check c u p).0 ≡ (
          if sha256 u =s= c.user_hash
          then (if sha256 p =s= c.password_hash then (true, []) else (false, reason_bad_password))
          else (false, reason_bad_user))
  unfolding check check_with constant_time_compare
  check-table c u p = ground arith

  -- Whatever the comparison answers, `Check` runs it twice, first on the user's digests and then on
  -- the password's.
  check-compares :
      (c : Credentials) (u p : Bytes) (cmp : Bytes → Bytes → ℕ)
      → (check_with c u p (λ a b. (cmp a b, (a, b) ∷ []))).1
        ≡ (sha256 u, c.user_hash) ∷ (sha256 p, c.password_hash) ∷ []
  unfolding check_with
  check-compares c u p cmp = refl

  check_username-compares :
      (c : Credentials) (u : Bytes) (cmp : Bytes → Bytes → ℕ)
      → (check_username_with c u (λ a b. (cmp a b, (a, b) ∷ []))).1 ≡ (sha256 u, c.user_hash) ∷ []
  unfolding check_username_with
  check_username-compares c u cmp = refl

  check_username-table :
      (c : Credentials) (u : Bytes)
      → (check_username c u).0
        ≡ (if sha256 u =s= c.user_hash then (true, []) else (false, reason_bad_user))
  unfolding check_username check_username_with constant_time_compare
  check_username-table c u = ground arith

  -- The presented text does not collide with the configured one.
  abbrev pub IsCollisionFree : Bytes → Bytes → Type 0
  IsCollisionFree s t = sha256 s ≡ sha256 t → s ≡ t

  same-hash : (s t : Bytes) → IsCollisionFree s t → (sha256 s =s= sha256 t) ≡ (s =s= t)
  same-hash s t free = ground (arith, =s=_iff (sha256 s) (sha256 t), =s=_iff s t, free)

  -- Unless SHA-256 collides on the texts compared, credentials made from a user and a password accept
  -- exactly that user with exactly that password; else the reason is bad-user if the user differs,
  -- whatever the password, and bad-password if only the password does.
  pub check-new_credentials :
      (user password u p : Bytes)
      → IsCollisionFree u user
      → IsCollisionFree p password
      → (let verdict = (check (new_credentials user password) u p).0 in
          ((verdict ≡ (true, [])) ↔ ((u ≡ user) × (p ≡ password)))
          × ((verdict ≡ (false, reason_bad_user)) ↔ (u ≢ user))
          × ((verdict ≡ (false, reason_bad_password)) ↔ ((u ≡ user) × (p ≢ password))))
  unfolding new_credentials
  check-new_credentials user password u p free_u free_p = ground (
    arith,
    check-table (new_credentials user password) u p,
    same-hash u user free_u,
    same-hash p password free_p,
    =s=_iff u user,
    =s=_iff p password,
  )
