-- ===== src/Session/Child/Kill.antt =====
-- The loop of `signalAndKill` in internal/session/service.go: that it ends, and how.
use minisshd.Prelude.{
  ℕ, zero, suc, ◌+◌, ◌*◌, ◌≤◌, ◌<◌, ◌≡◌, Bool, true, false, some, ◌∷◌, ltb, arith, Bool-cases, inl,
  inr, Bytes, codes,
}
use minisshd.Session.Child.{
  kill, log_shutdown_signal, Ending, gone, overdue, poll, nap, shutdown_grace, kill_overdue,
  signal_and_kill,
}

module _ (alive : ℕ → Bool) (wake : ℕ → ℕ) (slack : ℕ) where
  -- The polls have ended before the deadline with the group gone, or after it and not much later.
  abbrev pub IsEnding : (deadline : ℕ) → Ending → Type 0
  IsEnding deadline (gone t) = (alive t ≡ false) × (t < deadline)
  IsEnding deadline (overdue t) = (deadline ≤ t) × (t ≤ deadline + nap + slack)

  early_lt : (a b : ℕ) → ltb a b ≡ true → a < b
  early_lt a b e = ground arith

  poll-ends :
      (late : (t : ℕ) → t + nap ≤ wake t)
      → (soon : (t : ℕ) → wake t ≤ t + nap + slack) → (rounds now deadline : ℕ)
      → deadline ≤ now + rounds * nap
      → now ≤ deadline + nap + slack
      → (e : Ending) × (poll alive wake (suc rounds) now deadline ≡ some e) × IsEnding deadline e
  unfolding poll
  poll-ends late soon zero now deadline enough h = (overdue now, ground arith, ground arith)
  poll-ends late soon (suc rounds) now deadline enough h = elim (Bool-cases (ltb now deadline)) [
    | inr past ↦ (overdue now, ground arith, ground arith)
    | inl early ↦ elim (Bool-cases (alive now)) [
      | inr dead ↦ (gone now, ground arith, ground arith)
      | inl there ↦
          let below = early_lt now deadline early in
          let (e, run, how) =
            poll-ends late soon rounds (wake now) deadline (omega (arith, late now))
              (omega (arith, soon now)) in
          (e, ground arith, how)
    ]
  ]

  -- `signalAndKill` returns after at most 101 polls, if a sleep lasts at least the 50 ms asked for and
  -- at most `slack` longer. It has sent and logged SIGHUP; and then either a poll before the deadline
  -- has found the group gone, and nothing more is sent, or SIGKILL is sent and logged, not before the
  -- 5 s are over and at most 50 ms and the slack later.
  pub signal_and_kill-ends :
      (late : (t : ℕ) → t + nap ≤ wake t)
      → (soon : (t : ℕ) → wake t ≤ t + nap + slack) → (now : ℕ) (reason : Bytes)
      → (e : Ending) × IsEnding (now + shutdown_grace) e
        × (signal_and_kill alive wake 101 now reason
            ≡ some (
                kill (codes "HUP")
                ∷ log_shutdown_signal (codes "HUP") reason
                ∷ kill_overdue alive wake reason e))
  unfolding signal_and_kill
  signal_and_kill-ends late soon now reason =
      let (e, run, how) =
        poll-ends late soon 100 now (now + shutdown_grace) (omega arith) (omega arith) in
      (e, how, cc)
