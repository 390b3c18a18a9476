-- ===== src/Server/Auth/Attempted.antt =====
-- What the last part of the callbacks of internal/server/auth.go does with a lease of the limiter.
use minisshd.Prelude.{
  ℕ, ◌≡◌, ◌≢◌, refl, Bool, true, false, some, List, [], ◌∷◌, arith, if◌then◌else◌, Bytes, ◌=s=◌,
  ◌++◌, =s=_iff, =s=-refl,
}
use minisshd.Prelude.Maps.{lookup}
use minisshd.Ratelimit.Delay.{compute_delay, shifted_second, cap_delay}
use minisshd.Ratelimit.Limiter.{
  Entry, Limiter, Lease, normalize, key_of, acquire_key, release, snapshot, counts, inc64,
}
use minisshd.Ratelimit.Refinement.{view, view_of, IsValid}
use minisshd.Ratelimit.Attempts.{
  current, Acquired, acquire_key_lem, settle, release-IsValid, release-view,
}
use minisshd.Server.Auth.{
  Effect, acquired, sleep, released, read_snapshot, auth_ok, auth_fail, Meta, next_delay, Times,
  Result, normalize_key, attempts, conclude,
}

-- The delay that is logged is computed as the limiter computes its own, at every count.
next_delay-compute_delay : (n : ℕ) → next_delay n ≡ compute_delay n
unfolding next_delay compute_delay shifted_second cap_delay
next_delay-compute_delay n = refl

lookup-counts :
    (k : Bytes) (h : ℕ → Entry) (m : List (Bytes × ℕ)) {e : ℕ}
    → lookup k m ≡ some e
    → lookup k (counts h m) ≡ some (h e).fail_count
unfolding lookup
lookup-counts k h [] p = cc
lookup-counts k h ((j, d) ∷ m) {e} p = ground (arith, lookup-counts k h m {e = e})

module _ (ip_string : Bytes → Bytes) where
  -- The key under which the callbacks read the snapshot is the limiter's, unless there is no IP.
  normalize_key-key_of : (a : Bytes) → a ≢ [] → normalize_key ip_string a ≡ key_of ip_string a
  unfolding normalize_key normalize
  normalize_key-key_of a h = ground (arith, =s=_iff a [])

  -- What the callbacks' last part does with the lease of `Acquire`.
  module _ {k : Bytes} {now : ℕ} {l l' : Limiter} {r : Lease} (got : Acquired k now l l' r)
      (t : Times) where
    attempts-release :
        attempts ip_string (release false t.until r l') k
        ≡ inc64 (current now (view l k)).fail_count
    unfolding release snapshot
    attempts-release = ground (
      arith,
      lookup-counts k (release false t.until r l').heap l'.entries got.mapped,
      view_of l' k got.mapped,
      got.seen k,
      =s=-refl k,
    )

-- The log of an attempt; on a failure it is made from a snapshot.
abbrev pub report : Meta → (method : Bytes) → Bool → (reason fingerprint : Bytes) → ℕ → List Effect
report meta method true reason fp fails = auth_ok meta.remote meta.user method fp ∷ []
report meta method false reason fp fails =
    read_snapshot
    ∷ auth_fail meta.remote meta.user method reason (inc64 fails) (compute_delay (inc64 fails)) fp
    ∷ []

-- What an attempt with key `k` does, in this order: `Acquire`, the sleep of the delay that the key's
-- failures call for, the checks, the release with the verdict, and one log; on a failure, after a
-- snapshot, with the new count and the delay that belongs to it. The key's entry is removed on success
-- and counted up on failure, and no other key's changes.
pub record Attempted (k : Bytes) (meta : Meta) (t : Times) (method : Bytes) (checks : List Effect)
    (ok : Bool) (reason fp : Bytes) (l : Limiter) (res : Result) : Type 0 where
  pub verdict : res.ok ≡ ok
  pub logged :
      (let fails = (current t.at (view l k)).fail_count in
        res.effects
        ≡ acquired ∷ sleep (compute_delay fails) ∷ checks
          ++ released ok ∷ report meta method ok reason fp fails)
  pub valid : IsValid res.limiter
  pub seen :
      (j : Bytes)
      → view res.limiter j
        ≡ (if k =s= j then settle ok t.until (current t.at (view l k)) else view l j)

module _ (ip_string : Bytes → Bytes) where
  pub conclude_lem :
      (meta : Meta) (t : Times) (a method : Bytes) (checks : List Effect) (ok : Bool)
      (reason fp : Bytes) (l : Limiter)
      → a ≢ []
      → IsValid l
      → (let (l', r) = acquire_key (key_of ip_string a) t.at l in
          Attempted (key_of ip_string a) meta t method checks ok reason fp l (
            conclude ip_string meta t a method
              (acquired ∷ sleep r.delay ∷ checks)
              ok
              reason
              fp
              l'
              r))
  unfolding conclude
  conclude_lem meta t a method checks ok reason fp l some_ip v =
      let k = key_of ip_string a in
      let (l', r) = acquire_key k t.at l in
      let got = acquire_key_lem k t.at l v in
      let settled = release-view k l' got.valid r got.keyed got.mapped ok t.until in
      let valid = release-IsValid k l' got.valid r got.keyed got.mapped ok t.until in
      go l' r got ok valid settled
    where
      go :
          (l' : Limiter) (r : Lease)
          → Acquired (key_of ip_string a) t.at l l' r
          → (ok : Bool) → IsValid (release ok t.until r l')
          → ((j : Bytes)
              → view (release ok t.until r l') j ≡ (
                  if key_of ip_string a =s= j
                  then settle ok t.until (view l' (key_of ip_string a))
                  else view l' j))
          → Attempted (key_of ip_string a) meta t method checks ok reason fp l (
              conclude ip_string meta t a method
                (acquired ∷ sleep r.delay ∷ checks)
                ok
                reason
                fp
                l'
                r)
      go l' r got true valid settled = record {
        verdict = refl;
        logged = rw (got.delayed);
        valid = valid;
        seen = λ j. ground (arith, settled j, got.seen j, got.seen (key_of ip_string a));
      }
      go l' r got false valid settled = record {
        verdict = refl;
        logged = rw (
          normalize_key-key_of ip_string a some_ip,
          attempts-release ip_string got t,
          next_delay-compute_delay,
          got.delayed,
        );
        valid = valid;
        seen = λ j. ground (
          arith,
          settled j,
          got.seen j,
          got.seen (key_of ip_string a),
          =s=-refl (key_of ip_string a),
        );
      }
