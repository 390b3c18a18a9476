-- ===== src/Start/Offered.antt =====
-- What the SSH handshake offers, from the command line of cmd/minisshd/main.go to `newServerConfig` of
-- internal/server/server.go.
use minisshd.Prelude.{
  ◌*◌, ◌≤◌, ◌≡◌, ◌⊎◌, inl, inr, true, false, refl, [], ◌∷◌, ◌=s=◌, Option, some, Bytes, length,
}
use minisshd.Auth.Keyset.{Source, count}
use minisshd.Auth.Methods.{
  Methods, contains, method_password, IsMethods, password_only, publickey_only, password_first,
  publickey_first,
}
use minisshd.Server.Connection.{ServerConfig, new_server_config}
use minisshd.Start.Ran.{running}
use minisshd.Start.World.{World}
use minisshd.Start.Run.{Config, run}
use minisshd.Start.Ready.{run-IsReady}

-- Somebody can log in: the password callback is set, or the key callback is set for a source that
-- holds a key.
abbrev pub IsOffered : {P Q K : Type 0} → (Source → Q) → ServerConfig P Q K → Type 0
IsOffered {P} by_key c =
    (c.no_client_auth ≡ false)
    × (((call : P) × (c.password_callback ≡ some call))
        ⊎ ((source : Source) × (c.public_key_callback ≡ some (by_key source))
            × (1 ≤ count source.cur)))

module _ {P Q K : Type 0} (by_password : P) (by_key : Source → Q) (key : K) where
  password-IsOffered :
      (ms : Methods) (o : Option Source)
      → contains ms method_password ≡ true
      → IsOffered by_key (new_server_config ms by_password by_key o key)
  unfolding new_server_config contains ◌=s=◌
  password-IsOffered [] o h = (refl, inl (by_password, refl))
  password-IsOffered (m ∷ ms) o h = (refl, inl (by_password, rw h refl))

  keys-IsOffered :
      (ms : Methods) (source : Source)
      → IsMethods ms
      → 1 ≤ count source.cur
      → IsOffered by_key (new_server_config ms by_password by_key (some source) key)
  unfolding new_server_config contains ◌=s=◌
  keys-IsOffered ms source password_only h = (refl, inl (by_password, refl))
  keys-IsOffered ms source publickey_only h = (refl, inr (source, refl, h))
  keys-IsOffered ms source password_first h = (refl, inl (by_password, refl))
  keys-IsOffered ms source publickey_first h = (refl, inl (by_password, refl))

-- Whenever the program comes to serve, the handshake demands authentication, and it offers the
-- password callback, or the key callback on a source that holds a key. It relies on hex
-- writing two digits for a byte, and on the random source filling its 32 bytes.
pub run-IsOffered :
    {S K P Q : Type 0} (w : World S K) (by_password : P) (by_key : Source → Q)
    → (hexed : (b : Bytes) → length (w.hex b) ≡ 2 * length b)
    → (filled : (b : Bytes) → w.sentinel ≡ some b → length b ≡ 32) → (s : S) (c : Config K)
    → (run w s).outcome ≡ running c
    → IsOffered by_key (new_server_config c.methods by_password by_key c.keyset_source c.signer)
run-IsOffered w by_password by_key hexed filled s c h =
    let ready = run-IsReady w hexed filled s c h in
    elim ready.reachable [
      | inl p ↦ password-IsOffered by_password by_key c.signer c.methods c.keyset_source p
      | inr (source, e, n) ↦
          rw e (keys-IsOffered by_password by_key c.signer c.methods source ready.known n)
    ]
