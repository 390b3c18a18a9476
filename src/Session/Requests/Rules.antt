-- ===== src/Session/Requests/Rules.antt =====
-- Proof rules for the dispatch over request kinds and for the loop.
use minisshd.Prelude.{
  Bool, true, false, ◌≡◌, refl, ◌⊎◌, inl, inr, List, [], ◌∷◌, ◌++◌, if◌then◌else◌, Bytes, codes,
  ◌=s=◌,
}
use minisshd.Session.Requests.{
  Request, Alloc, State, Effect, Spawn, shell, Verdict, go_on, leave, panicked, Outcome, continue,
  handle_pty_req, handle_env, handle_window_change, Service, prepare_shell, handle_exec,
  handle_subsystem, start, pre_spawn_dispatch, pre_spawn,
}

if_elim {ℓ κ} :
    {A : Type ℓ} (P : A → Type κ) (b : Bool) {x y : A} → P x → P y → P (if b then x else y)
if_elim P true p q = p
if_elim P false p q = q

pub Verdict-cases : (v : Verdict) → (v ≡ go_on) ⊎ ((sp : Spawn) × (v ≡ leave sp)) ⊎ (v ≡ panicked)
Verdict-cases go_on = inl refl
Verdict-cases (leave sp) = inr (inl (sp, refl))
Verdict-cases panicked = inr (inr refl)

module _ (base : Bytes → Bytes) (s : Service) where
  -- What every handler's outcome satisfies, the dispatch's outcome does.
  pub dispatch_elim :
      (P : Outcome → Type 0) (req : Request) (alloc : Alloc) (st : State)
      → P (handle_pty_req req alloc st)
      → P (handle_env req st)
      → P (handle_window_change req st)
      → P (start base s st (shell (prepare_shell base s st)))
      → P (handle_exec base s req st)
      → P (handle_subsystem base s req st)
      → ((es : List Effect) → P (continue st es))
      → P (pre_spawn_dispatch base s req alloc st)
  unfolding pre_spawn_dispatch
  dispatch_elim P req alloc st pty env window sh ex sub other =
      if_elim P (req.kind =s= codes "pty-req") pty (
        if_elim P (req.kind =s= codes "env") env (
          if_elim P (req.kind =s= codes "window-change") window (
            if_elim P (req.kind =s= codes "shell") sh (
              if_elim P (req.kind =s= codes "exec") ex (
                if_elim P (req.kind =s= codes "subsystem") sub (
                  if_elim P (req.kind =s= codes "signal") (other _) (
                    if_elim P (req.kind =s= codes "x11-req") (other _) (
                      if_elim P (req.kind =s= codes "auth-agent-req@openssh.com") (other _)
                        (other _)))))))))

  -- An invariant of the state, and what every dispatch from a state with it satisfies.
  pub pre_spawn_elim :
      (I : State → Type 0) (Q : Verdict → Type 0)
      → Q go_on
      → ((req : Request) (alloc : Alloc) (st : State)
          → I st
          → (let out = pre_spawn_dispatch base s req alloc st in I out.state × Q out.verdict))
      → (reqs : List (Request × Alloc)) (st : State) (es : List Effect) → I st
      → (let out = pre_spawn base s reqs st es in I out.state × Q out.verdict)
  unfolding pre_spawn
  pre_spawn_elim I Q q h [] st es i = (i, q)
  pre_spawn_elim I Q q h ((req, alloc) ∷ reqs) st es i =
      let out = pre_spawn_dispatch base s req alloc st in
      let (i', q') = h req alloc st i in
      elim (Verdict-cases out.verdict) [
        | inl e ↦ rw (e, pre_spawn) (pre_spawn_elim I Q q h reqs out.state (es ++ out.effects) i')
        | inr (inl (sp, e)) ↦ let q'' = rw e at q' in rw (e, pre_spawn) (i', q'')
        | inr (inr e) ↦ let q'' = rw e at q' in rw (e, pre_spawn) (i', q'')
      ]
