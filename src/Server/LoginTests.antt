-- ===== src/Server/LoginTests.antt =====
-- The theorems on the auth callbacks at concrete attempts.
use minisshd.Prelude.{
  ◌*◌, ◌∙◌, ◌=s=◌, ◌+◌, false, ◌≡◌, ◌≢◌, ◌≤◌, refl, false, ◌&&◌, Option, none, List, [], ◌∷◌, Bytes,
  codes, arith, if◌then◌else◌,
}
use minisshd.Prelude.Maps.{lookup, insert}
use minisshd.Ratelimit.Delay.{second, compute_delay, shifted_second, cap_delay}
use minisshd.Ratelimit.Guesses.{IsGuessing, guesses, finish}
use minisshd.Ratelimit.Limiter.{
  new, key_of, normalize, to4, acquire, acquire_key, release, load_or_create, lease, create_entry,
}
use minisshd.Ratelimit.Attempts.{Attempt, new-IsValid}
use minisshd.Auth.Credentials.{
  Credentials, check_with, constant_time_compare, new_credentials, check, check_username,
  check_username_with,
}
use minisshd.Auth.Keyset
use minisshd.Auth.Keyset.{Line, malformed}
use minisshd.Server.Auth.Guessing.{
  Login, a_password, a_key, results, attempts_of, naps, results-slow,
}
use minisshd.Server.Auth.{
  password_callback, publickey_callback, conclude, Result, extract_ip, tcp, checked_credentials,
  checked_username, checked_key, Meta, Times,
}
use minisshd.Server.Auth.Attempted.{Attempted}
use minisshd.Server.Auth.Callbacks.{
  by_password, by_key, slept, announced, password_callback-Attempted, publickey_callback-Attempted,
  announced-slept,
}

abbrev same : Bytes → Bytes
same s = s

abbrev absent : Bytes → Option Bytes
absent s = none

cons-ne-nil : ◌≢◌ {A = Bytes} (10 ∷ 0 ∷ 0 ∷ 1 ∷ []) []
cons-ne-nil = λ e. cc

abbrev creds : Credentials
creds = new_credentials same (codes "al") (codes "pw")

abbrev no_key : Bytes → Line
no_key s = malformed (codes "ssh: no key found")

abbrev peer : Meta
peer = record { remote = codes "10.0.0.1:22"; addr = tcp (10 ∷ 0 ∷ 0 ∷ 1 ∷ []); user = codes "al" }

abbrev early : Times
early = record { at = 1; until = 2 }

abbrev late : Times
late = record { at = 3; until = 4 }

password_callback-Attempted_example :
    (let verdict = (check same creds peer.user (codes "no")).0 in
      Attempted
        (key_of same (10 ∷ 0 ∷ 0 ∷ 1 ∷ []))
        peer
        early
        (codes "password")
        (checked_credentials ∷ [])
        verdict.0
        verdict.1
        []
        new
        (by_password same absent absent same creds same same no_key peer (codes "no") early new))
unfolding extract_ip
password_callback-Attempted_example =
    password_callback-Attempted same absent absent same creds same same no_key peer (codes "no")
      early new cons-ne-nil new-IsValid

publickey_callback-Attempted_example :
    (let user = (check_username same creds peer.user).0 in
      let keyed = (Keyset.check same same same no_key none (1 ∷ [])).0 in
      Attempted
        (key_of same (10 ∷ 0 ∷ 0 ∷ 1 ∷ []))
        peer
        early
        (codes "publickey")
        (checked_username ∷ checked_key ∷ [])
        (user.0 && keyed.0)
        (if user.0 then keyed.1 else user.1)
        keyed.2
        new
        (by_key same absent absent same creds same same no_key none peer (1 ∷ []) early new))
unfolding extract_ip
publickey_callback-Attempted_example =
    publickey_callback-Attempted same absent absent same creds same same no_key none peer (1 ∷ [])
      early new cons-ne-nil new-IsValid

checked : (check same creds peer.user (codes "no")).0.0 ≡ false
unfolding check check_with constant_time_compare ◌=s=◌ new_credentials
checked = refl

denied :
    (by_password same absent absent same creds same same no_key peer (codes "no") early new).ok
    ≡ false
unfolding extract_ip
denied =
    (password_callback-Attempted same absent absent same creds same same no_key peer (codes "no")
      early new cons-ne-nil new-IsValid).verdict
    ∙ checked

announced-slept_example :
    (let first =
        by_password same absent absent same creds same same no_key peer (codes "no") early new in
      (slept
          (by_password same absent absent same creds same same no_key peer
            (codes "pw")
            late
            first.limiter).effects
        ≡ announced first.effects)
      × (slept
            (by_key same absent absent same creds same same no_key none peer
              (1 ∷ [])
              late
              first.limiter).effects
          ≡ announced first.effects))
unfolding extract_ip
announced-slept_example =
    announced-slept same absent absent same creds same same no_key peer peer (codes "no")
      (codes "pw") (1 ∷ []) none early late new cons-ne-nil refl new-IsValid (omega arith) denied

-- A wrong password, and then, after a second's delay, a key that is not accepted.
abbrev two_logins : List Login
two_logins =
    record { meta = peer; proof = a_password (codes "no"); times = early }
    ∷ record {
      meta = peer;
      proof = a_key none (1 ∷ []);
      times = record { at = 3; until = second + 5 };
    }
    ∷ []

abbrev their_results : List Result
their_results = results same absent absent same creds same same no_key two_logins new

abbrev their_attempts : List Attempt
their_attempts = attempts_of same absent absent same creds same same no_key two_logins their_results

abbrev peer_key : Bytes
peer_key = key_of same (10 ∷ 0 ∷ 0 ∷ 1 ∷ [])

two_logins-IsGuessing :
    IsGuessing peer_key 0 their_attempts
      (naps same absent absent same creds same same no_key their_results)
unfolding results attempts_of naps extract_ip password_callback publickey_callback conclude acquire
    acquire_key release load_or_create lease create_entry lookup insert compute_delay shifted_second
    cap_delay check check_with check_username constant_time_compare new_credentials Keyset.check new
    ◌=s=◌ normalize to4 check_username_with Keyset.match_keys
two_logins-IsGuessing = (refl, omega arith, omega arith, (refl, omega arith, omega arith, tt))

results-slow_example :
    56 * second * guesses peer_key their_attempts + 0
    ≤ finish peer_key 0 their_attempts + 581 * second
unfolding results attempts_of extract_ip ◌=s=◌ normalize to4
results-slow_example =
    results-slow same absent absent same creds same same no_key peer_key 0 two_logins (omega arith)
      two_logins-IsGuessing
