-- ===== src/Start/Settled.antt =====
-- The settings that `run` of cmd/minisshd/main.go has resolved, and rules for its stages.
use minisshd.Prelude.{
  ℕ, ◌≡◌, ◌≢◌, refl, ◌⊎◌, inl, inr, sym, ◌++◌, append-nil, false, Option, none, some, List, [],
  arith, Bytes, codes, =s=_iff,
}
use minisshd.Auth.Methods.{IsMethods}
use minisshd.Auth.Methods.Laws.{resolve_methods-IsMethods}
use minisshd.Auth.Resolve
use minisshd.Auth.Resolve.{resolve_password_strict, resolve_username, resolve_username_lem}
use minisshd.Start.Ran.{Out, Outcome, running, stopped, Ran, after, ◌>>=◌}
use minisshd.Start.World.{Flags, World, is_set, getenv}
use minisshd.Start.Run.{Settings, or_exit, resolve_settings, os_user}

after-running :
    {A B : Type 0} (out : List Out) (o : Outcome A) (f : A → Ran B) (b : B)
    → (after out o f).outcome ≡ running b
    → (a : A) × (o ≡ running a) × ((f a).outcome ≡ running b)
after-running out (running a) f b h = (a, refl, h)
after-running out (stopped code) f b h = cc

-- The value that a stage has passed on, when the whole comes to an end.
pub bind-running :
    {A B : Type 0} (m : Ran A) (f : A → Ran B) (b : B)
    → (m >>= f).outcome ≡ running b
    → (a : A) × (m.outcome ≡ running a) × ((f a).outcome ≡ running b)
bind-running m f b h = after-running m.out m.outcome f b h

-- What a stage that prints nothing hands on to be printed.
pub quiet-out :
    {A B : Type 0} (m : Ran A) (f : A → Ran B) (P : List Out → Type 0)
    → m.out ≡ []
    → P []
    → ((a : A) → m.outcome ≡ running a → P (f a).out)
    → P (m >>= f).out
quiet-out {A = A} m f P e nothing go = on m.out m.outcome e go
  where
    on :
        (out : List Out) (o : Outcome A)
        → out ≡ []
        → ((a : A) → o ≡ running a → P (f a).out)
        → P (after out o f).out
    on out (running a) e go = rw e (go a refl)
    on out (stopped code) e go = rw e nothing

-- What a stage and those after it print.
pub loud-out :
    {A B : Type 0} (m : Ran A) (f : A → Ran B)
    → (rest : List Out) × ((m >>= f).out ≡ m.out ++ rest)
      × ((rest ≡ []) ⊎ ((a : A) × (m.outcome ≡ running a) × (rest ≡ (f a).out)))
loud-out {A = A} m f = on m.out m.outcome
  where
    on :
        (out : List Out) (o : Outcome A)
        → (rest : List Out) × ((after out o f).out ≡ out ++ rest)
          × ((rest ≡ []) ⊎ ((a : A) × (o ≡ running a) × (rest ≡ (f a).out)))
    on out (running a) = ((f a).out, refl, inr (a, refl, refl))
    on out (stopped code) = ([], sym (append-nil out), inl refl)

pub or_exit-out : {A : Type 0} (code : ℕ) (o : Option A) → (or_exit code o).out ≡ []
or_exit-out code none = refl
or_exit-out code (some a) = refl

pub or_exit-running :
    {A : Type 0} (code : ℕ) (o : Option A) (a : A)
    → (or_exit code o).outcome ≡ running a
    → o ≡ some a
or_exit-running code none a h = cc
or_exit-running code (some b) a h = cc

module _ {S K : Type 0} (w : World S K) where
  -- The password is missing only if neither the flag nor the variable has been given.
  abbrev pub IsUnsupplied : Flags → Type 0
  IsUnsupplied f = (f.pass_set ≡ false) × (is_set w (codes "MINISSHD_PASS") ≡ false)

  strict-supplied :
      (f : Flags) (v : Bytes)
      → resolve_password_strict f.pass f.pass_set
          (getenv w (codes "MINISSHD_PASS"))
          (is_set w (codes "MINISSHD_PASS"))
        ≡ Resolve.ok v
      → (v ≢ []) ⊎ IsUnsupplied f
  unfolding resolve_password_strict
  strict-supplied f v h =
      ground (arith, =s=_iff f.pass [], =s=_iff (getenv w (codes "MINISSHD_PASS")) [])

  abbrev pub IsSettled : Flags → Settings → Type 0
  IsSettled f set =
      IsMethods set.methods × (set.username ≢ []) × ((set.password ≢ []) ⊎ IsUnsupplied f)

  pub resolve_settings-IsSettled :
      (f : Flags) (set : Settings) → (resolve_settings w f).outcome ≡ running set → IsSettled f set
  unfolding resolve_settings
  resolve_settings-IsSettled f set h = grind (
    arith,
    resolve_methods-IsMethods w.trim f.auth f.auth_set (getenv w (codes "MINISSHD_AUTH"))
        (is_set w (codes "MINISSHD_AUTH")),
    resolve_username_lem f.user (getenv w (codes "MINISSHD_USER")) (os_user w),
    strict-supplied f,
  )

  strict-unsupplied :
      (f : Flags) (v : Bytes)
      → IsUnsupplied f
      → resolve_password_strict f.pass f.pass_set
          (getenv w (codes "MINISSHD_PASS"))
          (is_set w (codes "MINISSHD_PASS"))
        ≡ Resolve.ok v
      → v ≡ []
  unfolding resolve_password_strict
  strict-unsupplied f v u h = grind arith

  pub resolve_settings-unsupplied :
      (f : Flags) (set : Settings)
      → IsUnsupplied f
      → (resolve_settings w f).outcome ≡ running set
      → set.password ≡ []
  unfolding resolve_settings
  resolve_settings-unsupplied f set u h = grind (arith, strict-unsupplied f)

  pub resolve_settings-out : (f : Flags) → (resolve_settings w f).out ≡ []
  unfolding resolve_settings
  resolve_settings-out f = ground arith
