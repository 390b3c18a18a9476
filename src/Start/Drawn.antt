-- ===== src/Start/Drawn.antt =====
-- The password that `run` of cmd/minisshd/main.go draws, in the credentials and in the log.
use minisshd.Prelude.{
  codes, ℕ, ◌≡◌, ◌↔◌, ap, sym, ◌∙◌, true, false, some, List, [], arith, Bytes, ◌=s=◌,
}
use mathlib.Core.Option
use minisshd.Auth.Credentials.{
  Credentials, check, new_credentials, IsCollisionFree, check-new_credentials,
}
use minisshd.Auth.Methods.{contains, method_password, Methods}
use minisshd.Logging.Scrub.{generate_password, scrubs_of}
use minisshd.Logging.Scrub.Absence.{occurs}
use minisshd.Logging.Line.{Format, emit_line}
use minisshd.Logging.Line.Emitted.{emit_line-absent}
use minisshd.Logging.Events.{Call, Event, event_of}
use minisshd.Start.Ran.{running}
use minisshd.Start.World.{getenv, Flags, World}
use minisshd.Auth.Resolve
use minisshd.Auth.Resolve.{resolve_username}
use minisshd.Start.Run.{Settings, resolve_settings, os_user, Config, pick_password, run}
use minisshd.Start.Settled.{IsUnsupplied, resolve_settings-unsupplied}
use minisshd.Start.Ready.{run-picked}

some-eq : {a b : Flags} → some a ≡ some b → a ≡ b
some-eq {a} h = ap (λ o. Option.get_or o a) h

module _ {S K : Type 0} (w : World S K) where
  pick_password-drawn :
      (ms : Methods) (p : Bytes)
      → contains ms method_password ≡ true
      → (pick_password w [] ms).outcome ≡ running p
      → (n : ℕ) × (w.drawn ≡ some n) × (p ≡ generate_password n)
  unfolding pick_password ◌=s=◌
  pick_password-drawn ms p h e = grind arith

  drawn-accepted :
      (n : ℕ) (user q u p : Bytes) (creds : Credentials)
      → q ≡ generate_password n
      → creds ≡ new_credentials w.sha256 user q
      → IsCollisionFree w.sha256 u user
      → IsCollisionFree w.sha256 p (generate_password n)
      → ((check w.sha256 creds u p).0 ≡ (true, [])) ↔ ((u ≡ user) × (p ≡ generate_password n))
  drawn-accepted n user q u p creds e made free_u free_p =
      rw (made, e) ((check-new_credentials w.sha256 user (generate_password n) u p free_u free_p).0)

  drawn-absent :
      (json_string : Bytes → Bytes) (float_seconds : ℕ → Bytes) (n : ℕ) (q encoded : Bytes)
      (scrubs : List Bytes) (format : Format) (now : Bytes) (e : Event)
      → q ≡ generate_password n
      → scrubs ≡ scrubs_of q encoded
      → occurs
          (generate_password n)
          (emit_line json_string float_seconds format scrubs now e.level e.name e.fields)
        ≡ false
  drawn-absent json_string float_seconds n q encoded scrubs format now e p made =
      rw (made, p)
        (emit_line-absent json_string float_seconds n encoded format now e.level e.name e.fields)

  username-settled :
      (f : Flags) (set : Settings) (user : Bytes)
      → resolve_username f.user (getenv w (codes "MINISSHD_USER")) (os_user w) ≡ Resolve.ok user
      → (resolve_settings w f).outcome ≡ running set
      → set.username ≡ user
  unfolding resolve_settings
  username-settled f set user named h = grind arith

  -- If no password is supplied and password is among the methods, a program that comes to serve has
  -- drawn a number. Take a user name and a password that do not collide under SHA-256 with the user name
  -- that the flag, the variable or the system gives and with the number's six digits: they are let in
  -- exactly if they are these two. And no line that the logger writes, for whatever event, in the
  -- configured format, contains the six digits.
  pub run-drawn :
      (json_string : Bytes → Bytes) (decimal float_seconds : ℕ → Bytes) (f : Flags)
      → w.flags ≡ some f
      → IsUnsupplied w f
      → (user : Bytes)
      → resolve_username f.user (getenv w (codes "MINISSHD_USER")) (os_user w) ≡ Resolve.ok user
      → (s : S) (c : Config K) → (run w s).outcome ≡ running c
      → contains c.methods method_password ≡ true
      → (u p : Bytes) → IsCollisionFree w.sha256 u user
      → ((n : ℕ) → w.drawn ≡ some n → IsCollisionFree w.sha256 p (generate_password n))
      → (n : ℕ) × (w.drawn ≡ some n)
        × (((check w.sha256 c.credentials u p).0 ≡ (true, []))
            ↔ ((u ≡ user) × (p ≡ generate_password n)))
        × ((call : Call) (now : Bytes)
            → (let e = event_of decimal float_seconds call in
                occurs (generate_password n) (
                  emit_line json_string float_seconds c.format c.scrubs now e.level e.name e.fields)
                ≡ false))
  run-drawn json_string decimal float_seconds f given unsupplied user named s c h ms u p free_u
        free_p =
      let (f', set, q, given', settled, picked, creds, scrubs, same) = run-picked w s c h in
      let same_flags : f' ≡ f = some-eq (sym given' ∙ given) in
      let settled' : (resolve_settings w f).outcome ≡ running set = rw (sym same_flags) settled in
      let empty : set.password ≡ [] = resolve_settings-unsupplied w f set unsupplied settled' in
      let (n, d, e) =
        pick_password-drawn set.methods q (rw (sym same) ms) (rw (sym empty) picked) in
      let made : c.credentials ≡ new_credentials w.sha256 user q =
        rw (sym (username-settled f set user named settled')) creds in
      (
        n,
        d,
        drawn-accepted n user q u p c.credentials e made free_u (free_p n d),
        λ call now. drawn-absent json_string float_seconds n q _ c.scrubs c.format now _ e scrubs,
      )
