-- ===== src/Server/Auth/Callbacks.antt =====
-- Authentication attempts through the callbacks of internal/server/auth.go.
use minisshd.Prelude.{
  ℕ, ◌+◌, ◌≤◌, ◌≡◌, ◌≢◌, refl, ◌++◌, sym, ap, ◌∙◌, Bool, false, ◌&&◌, Option, none, some, List, [],
  ◌∷◌, arith, if◌then◌else◌, Bytes, codes, =s=-refl,
}
use minisshd.Ratelimit.Delay.{second, idle_expiry}
use minisshd.Ratelimit.Limiter.{Entry, Limiter, key_of, acquire, fail_entry}
use minisshd.Ratelimit.Refinement.{view, IsValid}
use minisshd.Ratelimit.Attempts.{current}
use minisshd.Auth.Credentials.{Credentials, check, check_username}
use minisshd.Auth.Keyset
use minisshd.Auth.Keyset.{Keyset, Line}
use minisshd.Server.Auth.{
  Effect, acquired, sleep, checked_credentials, checked_username, checked_key, auth_fail, Meta,
  Times, Result, extract_ip, password_callback, publickey_callback,
}
use minisshd.Server.Auth.Attempted.{Attempted, conclude_lem}

abbrev pub slept : List Effect → Option ℕ
slept (acquired ∷ sleep d ∷ es) = some d
slept _ = none

-- The `next_delay` of the failure that is logged.
abbrev pub announced : List Effect → Option ℕ
announced [] = none
announced (auth_fail remote user method reason attempt next fp ∷ es) = some next
announced (e ∷ es) = announced es

kept_entry :
    (now until : ℕ) (e : Entry)
    → now ≤ until + idle_expiry
    → current now (fail_entry until e) ≡ fail_entry until e
kept_entry now until e h = ground arith

failed-slept :
    {k k' reason reason' fp fp' method method' : Bytes} {meta meta' : Meta} {t t' : Times}
    {ok ok' : Bool} {l : Limiter} (checks checks' : List Effect) (res res' : Result)
    → ((es : List Effect) → announced (checks ++ es) ≡ announced es)
    → res.ok ≡ false
    → k' ≡ k
    → Attempted k meta t method checks ok reason fp l res
    → Attempted k' meta' t' method' checks' ok' reason' fp' res.limiter res'
    → t'.at ≤ t.until + idle_expiry
    → slept res'.effects ≡ announced res.effects
failed-slept {k} {t = t} {t' = t'} {ok} {l = l} checks checks' res res' silent failed same first
      second h =
    let no : ok ≡ false = sym first.verdict ∙ failed in
    let e = current t.at (view l k) in
    let here : view res.limiter k ≡ fail_entry t.until e =
      ground (arith, first.seen k, =s=-refl k) in
    rw (second.logged, first.logged, no, silent, same, here, kept_entry t'.at t.until e h)

module _ (ip_string : Bytes → Bytes) (parse_ip split_host : Bytes → Option Bytes)
    (sha256 : Bytes → Bytes) (creds : Credentials) (fingerprint trim : Bytes → Bytes)
    (parse_line : Bytes → Line) where
  abbrev pub ip_of : Meta → Bytes
  ip_of meta = extract_ip parse_ip split_host meta.addr

  abbrev pub by_password : Meta → Bytes → Times → Limiter → Result
  by_password = password_callback ip_string parse_ip split_host sha256 creds

  abbrev pub by_key : Option Keyset → Meta → Bytes → Times → Limiter → Result
  by_key = publickey_callback ip_string parse_ip split_host sha256 creds fingerprint trim parse_line

  -- A password attempt from an address with an IP, on a well-formed limiter and run alone: the verdict
  -- is that of the credential check. The callback does, in this order and nothing else, `Acquire`, the
  -- sleep of the delay of the IP's failures, the check, the release with the verdict, on a failure the
  -- snapshot, and one log with the check's reason and, on a failure, the new count and its delay. The
  -- limiter forgets the IP on success, counts the failure otherwise, and leaves every other IP alone.
  pub password_callback-Attempted :
      (meta : Meta) (password : Bytes) (t : Times) (l : Limiter)
      → ip_of meta ≢ []
      → IsValid l
      → (let verdict = (check sha256 creds meta.user password).0 in
          Attempted
            (key_of ip_string (ip_of meta))
            meta
            t
            (codes "password")
            (checked_credentials ∷ [])
            verdict.0
            verdict.1
            []
            l
            (by_password meta password t l))
  unfolding password_callback acquire
  password_callback-Attempted meta password t l some_ip v =
      conclude_lem ip_string meta t (ip_of meta) (codes "password") (checked_credentials ∷ []) _ _
        [] l some_ip v

  -- A publickey attempt from an address with an IP, on a well-formed limiter and run alone: it
  -- succeeds exactly if the user name and the key are both accepted, and a wrong user is the reason
  -- that is logged even if the key is wrong too. The callback does, in this order and nothing else,
  -- `Acquire`, the sleep of the delay of the IP's failures, the check of the user name, the check of the
  -- key whatever the first one said, the release with the verdict, on a failure the snapshot, and one
  -- log, on a failure with the new count and its delay. The limiter forgets the IP on success, counts
  -- the failure otherwise, and leaves every other IP alone.
  pub publickey_callback-Attempted :
      (ks : Option Keyset) (meta : Meta) (key : Bytes) (t : Times) (l : Limiter)
      → ip_of meta ≢ []
      → IsValid l
      → (let user = (check_username sha256 creds meta.user).0 in
          let keyed = (Keyset.check sha256 fingerprint trim parse_line ks key).0 in
          Attempted
            (key_of ip_string (ip_of meta))
            meta
            t
            (codes "publickey")
            (checked_username ∷ checked_key ∷ [])
            (user.0 && keyed.0)
            (if user.0 then keyed.1 else user.1)
            keyed.2
            l
            (by_key ks meta key t l))
  unfolding publickey_callback acquire
  publickey_callback-Attempted ks meta key t l some_ip v =
      conclude_lem ip_string meta t (ip_of meta) (codes "publickey")
        (checked_username ∷ checked_key ∷ []) _ _ _ l some_ip v

  -- On a well-formed limiter, the delay announced in the log of a failed password attempt from an
  -- address with an IP is the one that the next attempt from that IP sleeps, by password or by key and
  -- on any connection, if it begins within ten minutes of the failure and no other attempt comes
  -- between.
  pub announced-slept :
      (meta meta' : Meta) (password password' key : Bytes) (ks : Option Keyset) (t t' : Times)
      (l : Limiter)
      → ip_of meta ≢ []
      → ip_of meta' ≡ ip_of meta
      → IsValid l
      → t'.at ≤ t.until + idle_expiry
      → (by_password meta password t l).ok ≡ false
      → (let first = by_password meta password t l in
          (slept (by_password meta' password' t' first.limiter).effects ≡ announced first.effects)
          × (slept (by_key ks meta' key t' first.limiter).effects ≡ announced first.effects))
  announced-slept meta meta' password password' key ks t t' l some_ip same v soon failed =
      let first = password_callback-Attempted meta password t l some_ip v in
      let there : ip_of meta' ≢ [] = rw same some_ip in
      let again = password_callback-Attempted meta' password' t' _ there first.valid in
      let keyed = publickey_callback-Attempted ks meta' key t' _ there first.valid in
      (
        failed-slept _ _ _ _ (λ es. refl) failed (ap (key_of ip_string) same) first again soon,
        failed-slept _ _ _ _ (λ es. refl) failed (ap (key_of ip_string) same) first keyed soon,
      )
