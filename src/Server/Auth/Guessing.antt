-- ===== src/Server/Auth/Guessing.antt =====
-- How fast the callbacks of internal/server/auth.go let a client guess, over any number of connections.
use minisshd.Prelude.{
  ℕ, ◌+◌, ◌*◌, ◌^◌, ◌≤◌, ◌<◌, ◌≡◌, refl, sym, ◌∙◌, ap, ap₂, Bool, true, false, Option, List, [],
  ◌∷◌, Bytes, codes,
}
use mathlib.Core.Option
use minisshd.Ratelimit.Delay.{second}
use minisshd.Ratelimit.Limiter.{Limiter, key_of, new, acquire, acquire_key}
use minisshd.Ratelimit.Attempts.{Attempt, attempt, delays}
use minisshd.Ratelimit.Guesses.{IsGuessing, guesses, finish, delays-slow}
use minisshd.Auth.Credentials.{Credentials}
use minisshd.Auth.Keyset.{Keyset, Line}
use minisshd.Server.Auth.{
  Effect, acquired, sleep, Meta, Times, Result, password_callback, publickey_callback, conclude,
}
use minisshd.Server.Auth.Callbacks.{slept, ip_of, by_password, by_key}

-- What a client presents: a password, or a key while this key set is the current one.
pub data Proof : Type 0 where
  a_password : Bytes → Proof
  a_key : Option Keyset → Bytes → Proof

pub record Login : Type 0 where
  pub meta : Meta
  pub proof : Proof
  pub times : Times

module _ (ip_string : Bytes → Bytes) (parse_ip split_host : Bytes → Option Bytes)
    (sha256 : Bytes → Bytes) (creds : Credentials) (fingerprint trim : Bytes → Bytes)
    (parse_line : Bytes → Line) where
  -- The callback that the SSH library calls.
  abbrev pub present : Proof → Meta → Times → Limiter → Result
  present (a_password text) meta t l =
      by_password ip_string parse_ip split_host sha256 creds fingerprint trim parse_line meta text t
        l
  present (a_key ks key) meta t l =
      by_key ip_string parse_ip split_host sha256 creds fingerprint trim parse_line ks meta key t l

  -- One callback after the other, on one limiter.
  unfoldable pub results : List Login → Limiter → List Result
  results [] l = []
  results (x ∷ xs) l = let res = present x.proof x.meta x.times l in res ∷ results xs res.limiter

  -- What the limiter sees of a callback.
  abbrev pub seen_attempt : Login → Result → Attempt
  seen_attempt x res = record {
    key =
        key_of ip_string
          (ip_of ip_string parse_ip split_host sha256 creds fingerprint trim parse_line x.meta);
    at = x.times.at;
    ok = res.ok;
    until = x.times.until;
  }

  unfoldable pub attempts_of : List Login → List Result → List Attempt
  attempts_of (x ∷ xs) (res ∷ rest) = seen_attempt x res ∷ attempts_of xs rest
  attempts_of _ _ = []

  -- What the callbacks have slept.
  unfoldable pub naps : List Result → List ℕ
  naps [] = []
  naps (res ∷ rest) = Option.get_or (slept res.effects) 0 ∷ naps rest

  conclude-attempt :
      (meta : Meta) (t : Times) (a method : Bytes) (checks : List Effect) (ok : Bool)
      (reason fp : Bytes) (l : Limiter)
      → (let (l', r) = acquire_key (key_of ip_string a) t.at l in
          let res =
            conclude ip_string meta t a method
              (acquired ∷ sleep r.delay ∷ checks)
              ok
              reason
              fp
              l'
              r in
          attempt (record { key = key_of ip_string a; at = t.at; ok = res.ok; until = t.until }) l
          ≡ (res.limiter, Option.get_or (slept res.effects) 0))
  unfolding conclude attempt
  conclude-attempt meta t a method checks true reason fp l = refl
  conclude-attempt meta t a method checks false reason fp l = refl

  -- The limiter and the sleep of a callback are those of its attempt.
  present-attempt :
      (p : Proof) (meta : Meta) (t : Times) (l : Limiter)
      → (let res = present p meta t l in
          attempt (seen_attempt (record { meta = meta; proof = p; times = t }) res) l
          ≡ (res.limiter, Option.get_or (slept res.effects) 0))
  unfolding password_callback publickey_callback acquire
  present-attempt (a_password text) meta t l =
      conclude-attempt meta t _ (codes "password") _ _ _ [] l
  present-attempt (a_key ks key) meta t l = conclude-attempt meta t _ (codes "publickey") _ _ _ _ l

  naps-delays :
      (xs : List Login) (l : Limiter)
      → naps (results xs l) ≡ delays (attempts_of xs (results xs l)) l
  unfolding naps results attempts_of delays
  naps-delays [] l = refl
  naps-delays (x ∷ xs) l =
      let res = present x.proof x.meta x.times l in
      let same = present-attempt x.proof x.meta x.times l in
      ap₂ ◌∷◌ (sym (ap (λ p. p.1) same)) (
        naps-delays xs res.limiter
        ∙ ap (delays (attempts_of xs (results xs res.limiter))) (sym (ap (λ p. p.0) same)))

  -- However a client mixes passwords, keys, user names and connections: if its attempts from one IP all
  -- fail, each begins after the last has ended, and each ends after it has slept as the callback asks,
  -- then `n` of them (fewer than 2 ^ 63) take at least `56 * n - 581` seconds, whatever attempts from
  -- other IPs succeed or fail in between.
  pub results-slow :
      (k : Bytes) (from : ℕ) (xs : List Login)
      → guesses k (attempts_of xs (results xs new)) < 2 ^ 63
      → IsGuessing k from (attempts_of xs (results xs new)) (naps (results xs new))
      → 56 * second * guesses k (attempts_of xs (results xs new)) + from
        ≤ finish k from (attempts_of xs (results xs new)) + 581 * second
  results-slow k from xs small g =
      delays-slow k from (attempts_of xs (results xs new)) small (rw (naps-delays xs new) at g)
