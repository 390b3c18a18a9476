-- ===== src/Session/Requests/Replies.antt =====
-- The replies of internal/session/service.go before a child runs, and its loop on any payloads.
use minisshd.Prelude.{
  ℕ, suc, ◌<◌, ◌^◌, ◌≡◌, ◌≢◌, ◌⊎◌, inl, inr, refl, sym, ◌∙◌, Bool, ◌||◌, if◌then◌else◌, Bool-cases,
  true, false, List, [], ◌∷◌, ◌++◌, arith, Bytes, codes, ◌=s=◌, All, length,
}
use minisshd.Session.Wire.{panic, parse_pty_req}
use minisshd.Session.Wire.Total.{parsers-ne-panic}
use minisshd.Session.Requests.Rules.{dispatch_elim}
use minisshd.Session.Requests.{
  Request, Alloc, opened, failed, State, Effect, reply, reply_if, log_reject, go_on, leave,
  panicked, Verdict, Outcome, open_pty, handle_pty_req, handle_env, handle_window_change, Service,
  handle_exec, handle_subsystem, pre_spawn_dispatch, pre_spawn,
}

abbrev pub count_replies : List Effect → ℕ
count_replies [] = 0
count_replies (reply b ∷ es) = suc (count_replies es)
count_replies (_ ∷ es) = count_replies es

-- The answers, in their order.
abbrev pub replies : List Effect → List Bool
replies [] = []
replies (reply b ∷ es) = b ∷ replies es
replies (_ ∷ es) = replies es

-- The kinds that can be granted without the start of a session.
abbrev pub is_grantable : Bytes → Bool
is_grantable kind =
    kind =s= codes "pty-req" || kind =s= codes "env" || kind =s= codes "window-change"

-- One answer, if the client wants one.
abbrev pub if_wanted : Bool → Bool → List Bool
if_wanted want b = if want then b ∷ [] else []

-- The answers to a request after which the loop goes on, if the verdict on it is `b`.
abbrev pub owed : Request → Bool → List Bool
owed req b =
    if req.kind =s= codes "pty-req" || req.kind =s= codes "env"
    then b ∷ []
    else if req.kind =s= codes "window-change"
    then if_wanted req.want_reply b
    else if req.kind =s= codes "exec" || req.kind =s= codes "subsystem"
    then b ∷ []
    else if req.kind =s= codes "signal"
    then []
    else if_wanted req.want_reply b

-- A request after which the loop goes on has the answers that it is owed, and is refused unless its
-- kind can be granted; one that leaves the loop has none.
abbrev pub IsAnsweredBy : Request → Verdict → List Bool → Type 0
IsAnsweredBy req go_on bs =
    (bs ≡ owed req false) ⊎ ((bs ≡ owed req true) × (is_grantable req.kind ≡ true))
IsAnsweredBy req _ bs = bs ≡ []

unfoldable pub IsAnswered : Request → Outcome → Type 0
IsAnswered req out = IsAnsweredBy req out.verdict (replies out.effects)

module _ (req : Request) (st : State) where
  -- The answer of a handler, to a client that wants one.
  abbrev IsTold : Bool → Verdict → List Bool → Type 0
  IsTold want go_on bs = (bs ≡ if_wanted want false) ⊎ (bs ≡ if_wanted want true)
  IsTold want _ bs = bs ≡ []

  -- The same of a handler that grants nothing by itself.
  abbrev IsRefused : Bool → Verdict → List Bool → Type 0
  IsRefused want go_on bs = bs ≡ if_wanted want false
  IsRefused want _ bs = bs ≡ []

  replies-refused : (want : Bool) → replies (reply_if want false) ≡ if_wanted want false
  replies-refused true = refl
  replies-refused false = refl

  replies-rejected :
      (want : Bool) (what : Bytes)
      → replies (reply_if want false ++ log_reject what ∷ []) ≡ if_wanted want false
  replies-rejected true what = refl
  replies-rejected false what = refl

  told-IsAnswered :
      (want : Bool) (v : Verdict) (bs : List Bool)
      → ((b : Bool) → owed req b ≡ if_wanted want b)
      → is_grantable req.kind ≡ true
      → IsTold want v bs
      → IsAnsweredBy req v bs
  told-IsAnswered want go_on bs same grantable (inl p) = inl (p ∙ sym (same false))
  told-IsAnswered want go_on bs same grantable (inr p) = inr (p ∙ sym (same true), grantable)
  told-IsAnswered want (leave sp) bs same grantable p = p
  told-IsAnswered want panicked bs same grantable p = p

  refused-IsAnswered :
      (want : Bool) (v : Verdict) (bs : List Bool)
      → owed req false ≡ if_wanted want false
      → IsRefused want v bs
      → IsAnsweredBy req v bs
  refused-IsAnswered want go_on bs same p = inl (p ∙ sym same)
  refused-IsAnswered want (leave sp) bs same p = p
  refused-IsAnswered want panicked bs same p = p

  pty-IsTold :
      (alloc : Alloc)
      → (let out = handle_pty_req req alloc st in IsTold true out.verdict (replies out.effects))
  unfolding handle_pty_req open_pty
  pty-IsTold (opened ends) = ground arith
  pty-IsTold (failed e) = ground arith

  env-IsTold : (let out = handle_env req st in IsTold true out.verdict (replies out.effects))
  unfolding handle_env
  env-IsTold = ground arith

  window-IsTold :
      (let out = handle_window_change req st in
        IsTold req.want_reply out.verdict (replies out.effects))
  unfolding handle_window_change
  window-IsTold = ground arith

  module _ (base : Bytes → Bytes) (s : Service) where
    exec-IsRefused :
        (let out = handle_exec base s req st in IsRefused true out.verdict (replies out.effects))
    unfolding handle_exec
    exec-IsRefused = ground arith

    subsystem-IsRefused :
        (let out = handle_subsystem base s req st in
          IsRefused true out.verdict (replies out.effects))
    unfolding handle_subsystem
    subsystem-IsRefused = ground arith

    -- A request that starts a session, or that crashes the loop, is not answered here. Any other one is
    -- answered exactly once if it is a pty-req, an env, an exec or a subsystem, whether it asks for an
    -- answer or not; never if it is a signal; and otherwise once if it asks for an answer, and not at
    -- all if it does not. The answer is a refusal, unless the request is a pty-req, an env or a
    -- window-change.
    pub pre_spawn_dispatch-IsAnswered :
        (alloc : Alloc) → IsAnswered req (pre_spawn_dispatch base s req alloc st)
    unfolding pre_spawn_dispatch
    pre_spawn_dispatch-IsAnswered alloc =
        unfold IsAnswered in
        elim (Bool-cases (req.kind =s= codes "pty-req")) [
          | inl e₁ ↦
              rw e₁ (told-IsAnswered true _ _ (λ b. rw e₁ refl) (rw e₁ refl) (pty-IsTold alloc))
          | inr e₁ ↦ elim (Bool-cases (req.kind =s= codes "env")) [
            | inl e₂ ↦
                rw (e₁, e₂)
                  (told-IsAnswered true _ _ (λ b. rw (e₁, e₂) refl) (rw (e₁, e₂) refl) env-IsTold)
            | inr e₂ ↦ elim (Bool-cases (req.kind =s= codes "window-change")) [
              | inl e₃ ↦
                  rw (e₁, e₂, e₃)
                    (told-IsAnswered req.want_reply _ _ (λ b. rw (e₁, e₂, e₃) refl)
                      (rw (e₁, e₂, e₃) refl) window-IsTold)
              | inr e₃ ↦ elim (Bool-cases (req.kind =s= codes "shell")) [
                | inl e₄ ↦ rw (e₁, e₂, e₃, e₄) (refl)
                | inr e₄ ↦ elim (Bool-cases (req.kind =s= codes "exec")) [
                  | inl e₅ ↦
                      rw (e₁, e₂, e₃, e₄, e₅)
                        (refused-IsAnswered true _ _ (rw (e₁, e₂, e₃, e₅) refl) exec-IsRefused)
                  | inr e₅ ↦ elim (Bool-cases (req.kind =s= codes "subsystem")) [
                    | inl e₆ ↦
                        rw (e₁, e₂, e₃, e₄, e₅, e₆)
                          (refused-IsAnswered true _ _ (rw (e₁, e₂, e₃, e₅, e₆) refl)
                            subsystem-IsRefused)
                    | inr e₆ ↦ elim (Bool-cases (req.kind =s= codes "signal")) [
                      | inl e₇ ↦
                          rw (e₁, e₂, e₃, e₄, e₅, e₆, e₇) (inl (rw (e₁, e₂, e₃, e₅, e₆, e₇) refl))
                      | inr e₇ ↦ elim (Bool-cases (req.kind =s= codes "x11-req")) [
                        | inl e₈ ↦
                            rw (e₁, e₂, e₃, e₄, e₅, e₆, e₇, e₈)
                              (refused-IsAnswered req.want_reply go_on _
                                (rw (e₁, e₂, e₃, e₅, e₆, e₇) refl)
                                (replies-rejected req.want_reply (codes "x11")))
                        | inr e₈ ↦
                            elim (Bool-cases (req.kind =s= codes "auth-agent-req@openssh.com")) [
                              | inl e₉ ↦
                                  rw (e₁, e₂, e₃, e₄, e₅, e₆, e₇, e₈, e₉)
                                    (refused-IsAnswered req.want_reply go_on _
                                      (rw (e₁, e₂, e₃, e₅, e₆, e₇) refl)
                                      (replies-rejected req.want_reply (codes "agent")))
                              | inr e₉ ↦
                                  rw (e₁, e₂, e₃, e₄, e₅, e₆, e₇, e₈, e₉)
                                    (refused-IsAnswered req.want_reply go_on _
                                      (rw (e₁, e₂, e₃, e₅, e₆, e₇) refl)
                                      (replies-refused req.want_reply))
                            ]
                      ]
                    ]
                  ]
                ]
              ]
            ]
          ]
        ]

    dispatch-ne-panicked :
        (alloc : Alloc)
        → length req.payload < 2 ^ 32
        → (pre_spawn_dispatch base s req alloc st).verdict ≢ panicked
    unfolding handle_pty_req open_pty handle_env handle_window_change handle_exec handle_subsystem
    dispatch-ne-panicked alloc h =
        let fine = parsers-ne-panic req.payload h in
        dispatch_elim base s (λ out. out.verdict ≢ panicked) req alloc st (pty alloc fine.0)
          (ground (arith, fine.2)) (ground (arith, fine.1)) (cc) (ground (arith, fine.3))
          (ground (arith, fine.4)) (λ es. cc)
      where
        pty :
            (a : Alloc)
            → parse_pty_req req.payload ≢ panic
            → (handle_pty_req req a st).verdict ≢ panicked
        pty (opened ends) f = ground arith
        pty (failed e) f = ground arith

-- If every payload is shorter than 2 ^ 32 bytes, no sequence of requests makes the loop panic.
pub pre_spawn-ne-panicked :
    (base : Bytes → Bytes) (s : Service) (reqs : List (Request × Alloc)) (st : State)
    (es : List Effect)
    → All (λ r. length r.0.payload < 2 ^ 32) reqs
    → (pre_spawn base s reqs st es).verdict ≢ panicked
unfolding pre_spawn
pre_spawn-ne-panicked base s [] st es h = cc
pre_spawn-ne-panicked base s ((req, alloc) ∷ reqs) st es h =
    let out = pre_spawn_dispatch base s req alloc st in
    ground (
      arith,
      dispatch-ne-panicked req st base s alloc,
      pre_spawn-ne-panicked base s reqs out.state (es ++ out.effects),
    )
