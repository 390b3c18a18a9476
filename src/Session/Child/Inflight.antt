-- ===== src/Session/Child/Inflight.antt =====
-- Requests that come while a child or sftp runs (internal/session/service.go).
use minisshd.Prelude.{
  List, [], ◌∷◌, some, ℕ, ◌≡◌, refl, true, false, ◌||◌, ◌&&◌, not, if◌then◌else◌, Bytes, codes,
  ◌=s=◌, =s=_iff, arith, length, ◌<◌, ◌^◌,
}
use minisshd.Session.Requests
use minisshd.Session.Requests.{set_size, Request, State, go_on, handle_window_change}
use minisshd.Session.Requests.Replies.{count_replies}
use minisshd.Session.Wire.Total.{parsers-ne-panic}
use minisshd.Session.Child.{Runner, process_inflight, reject_extra, forget_master}

-- How many answers a request is to get while a child runs.
abbrev pub answers : Request → ℕ
answers req =
    if req.kind =s= codes "shell" || req.kind =s= codes "exec" || req.kind =s= codes "subsystem"
    then 1
    else (if req.want_reply && not (req.kind =s= codes "signal") then 1 else 0)

-- A text that is one literal is not another.
apart : (k a b : Bytes) → (a =s= b) ≡ false → (k =s= a) ≡ true → (k =s= b) ≡ false
apart k a b ne e = let same : k ≡ a = (=s=_iff k a).0 e in rw same ne

window-answers :
    (req : Request) (st : State)
    → length req.payload < 2 ^ 32
    → (let out = handle_window_change req st in
        (out.verdict ≡ go_on)
        × (out.state ≡ st)
        × (count_replies out.effects ≡ (if req.want_reply then 1 else 0)))
unfolding handle_window_change
window-answers req st h = ground (arith, parsers-ne-panic req.payload h)

answers_window :
    (req : Request)
    → (req.kind =s= codes "window-change") ≡ true
    → answers req ≡ (if req.want_reply then 1 else 0)
unfolding ◌=s=◌
answers_window req e = ground (
  arith,
  apart req.kind (codes "window-change") (codes "shell") refl e,
  apart req.kind (codes "window-change") (codes "exec") refl e,
  apart req.kind (codes "window-change") (codes "subsystem") refl e,
  apart req.kind (codes "window-change") (codes "signal") refl e,
)

answers_signal : (req : Request) → (req.kind =s= codes "signal") ≡ true → answers req ≡ 0
unfolding ◌=s=◌
answers_signal req e = ground (
  arith,
  apart req.kind (codes "signal") (codes "shell") refl e,
  apart req.kind (codes "signal") (codes "exec") refl e,
  apart req.kind (codes "signal") (codes "subsystem") refl e,
)

-- The sizes that are set, by their masters.
abbrev sized : List Requests.Effect → List ℕ
sized [] = []
sized (set_size m c r w h ∷ es) = m ∷ sized es
sized (_ ∷ es) = sized es

-- Once the drain is over and the runner's master is forgotten, no request touches it any more.
forget_master-sized :
    (req : Request) (st : State) (r : Runner) (m : ℕ)
    → r.master ≡ some m
    → sized (process_inflight req (forget_master r st)).effects ≡ []
unfolding process_inflight handle_window_change
forget_master-sized req st r m h = ground (arith)

-- While a child runs, a request with a payload below 2 ^ 32 bytes leaves the session's state alone,
-- starts nothing and does not panic, and it is answered as often as it should be: a second shell, exec
-- or subsystem once, a signal never, any other once if it asks for a reply. While sftp runs, every
-- request is answered once if it asks for a reply.
pub process_inflight-answers :
    (req : Request) (st : State)
    → length req.payload < 2 ^ 32
    → (let out = process_inflight req st in
        ((out.verdict ≡ go_on) × (out.state ≡ st) × (count_replies out.effects ≡ answers req))
        × (count_replies (reject_extra req) ≡ (if req.want_reply then 1 else 0)))
unfolding process_inflight reject_extra
process_inflight-answers req st h =
    ground (arith, window-answers req st h, answers_window req, answers_signal req)
