-- ===== src/Loop/Waiting.antt =====
-- src/unix/core.c: when `uv_run` may wait in `uv__io_poll`.
use libuv.Prelude.{
  ℕ, zero, suc, ◌≡◌, ◌⊎◌, refl, sym, ◌∙◌, ap, inl, inr, true, false, Option, some, Bool-cases,
  arith,
}
use libuv.Loop.Turns.{uv_run_other_modes}
use libuv.Loop.{
  Mode, run_default, run_once, run_nowait, is_default, Phases, loop_alive, backend_timeout,
  can_sleep, turn_timeout, turn, pending_rounds, run_loop, leave, uv_run,
}

module _ {S : Type 0} (p : Phases S) where
  -- Something is at hand, or the loop is to end, so that no turn may wait.
  abbrev pub IsBusy : S → Type 0
  IsBusy s =
      (p.stop_flag s ≡ true)
      ⊎ (p.pending_queue_empty s ≡ false)
      ⊎ (p.idle_handles_empty s ≡ false)
      ⊎ (p.reap_children s ≡ true)
      ⊎ (p.closing_handles_null s ≡ false)
      ⊎ ((p.has_active_handles s ≡ false) × (p.has_active_reqs s ≡ false))

  -- `uv__backend_timeout` is 0 if the loop is stopped, has pending callbacks, idle handles, children
  -- to reap or handles to close, or has neither active handles nor active requests.
  pub backend_timeout-IsBusy : (s : S) → IsBusy s → backend_timeout p s ≡ some 0
  unfolding backend_timeout
  backend_timeout-IsBusy s busy = ground arith

  -- The same phases over another `uv__io_poll`.
  abbrev pub with_poll : (Option ℕ → S → S) → Phases S
  with_poll poll = record p { io_poll = poll }

  pending_rounds-with_poll :
      (poll : Option ℕ → S → S) (rounds : ℕ) (s : S)
      → pending_rounds (with_poll poll) rounds s ≡ pending_rounds p rounds s
  unfolding pending_rounds
  pending_rounds-with_poll poll zero s = refl
  pending_rounds-with_poll poll (suc rounds) s = elim (Bool-cases (p.pending_queue_empty s)) [
    | inl empty ↦ rw (empty, pending_rounds) refl
    | inr some_left ↦
        rw (some_left, pending_rounds) (pending_rounds-with_poll poll rounds (p.run_pending s))
  ]

  -- The mode, or what is at hand when `uv_run` begins, forbids to wait.
  abbrev pub MayNotWait : Mode → S → Type 0
  MayNotWait run_nowait s = Unit {0}
  MayNotWait run_once s = can_sleep p s ≡ false
  MayNotWait run_default s = ⊥

  turn_timeout-zero :
      (mode : Mode) (s ready : S)
      → MayNotWait mode s
      → turn_timeout p mode (can_sleep p s) ready ≡ some 0
  unfolding turn_timeout
  turn_timeout-zero run_nowait s ready h = refl
  turn_timeout-zero run_once s ready h = rw h refl
  turn_timeout-zero run_default s ready h = absurd h

  not_default : (mode : Mode) (s : S) → MayNotWait mode s → is_default mode ≡ false
  not_default run_nowait s h = refl
  not_default run_once s h = refl
  not_default run_default s h = absurd h

  module _ (poll : Option ℕ → S → S)
      (agree : (s : S) → poll (some 0) s ≡ p.io_poll (some 0) s) where
    turn-with_poll :
        (mode : Mode) (s : S) → MayNotWait mode s → turn (with_poll poll) mode s ≡ turn p mode s
    unfolding turn
    turn-with_poll mode s h =
        let ready = p.run_prepare (p.run_idle (p.run_pending s)) in
        let zero_timeout = turn_timeout-zero mode s ready h in
        let start = p.metrics_inc_loop_count ready in
        let rounds = pending_rounds-with_poll poll 8 (p.io_poll (some 0) start) in
        let rest : S → S = λ t.
          p.run_timers
            (p.update_time (p.run_closing_handles (p.run_check (p.metrics_update_idle_time t)))) in
        let polled : poll (turn_timeout p mode (can_sleep p s) ready) start
            ≡ p.io_poll (some 0) start =
          ap (λ t. poll t start) zero_timeout ∙ agree start in
        ap (λ t. rest (pending_rounds (with_poll poll) 8 t)) polled
        ∙ ap rest rounds
        ∙ ap (λ t. rest (pending_rounds p 8 (p.io_poll t start))) (sym zero_timeout)

    -- In the mode UV_RUN_NOWAIT, and in the mode UV_RUN_ONCE if there are pending callbacks or idle
    -- handles when it begins, `uv_run` does not wait: it does the same over any two `uv__io_poll`
    -- that do the same when their timeout is 0.
    pub uv_run-with_poll :
        (fuel : ℕ) (mode : Mode) (s : S)
        → MayNotWait mode s
        → uv_run (with_poll poll) fuel mode s ≡ uv_run p fuel mode s
    unfolding uv_run loop_alive leave run_loop
    uv_run-with_poll zero mode s h = refl
    uv_run-with_poll (suc fuel) mode s h =
        let other = not_default mode s h in
        uv_run_other_modes (with_poll poll) fuel mode s other
        ∙ rw (turn-with_poll mode s h) refl
        ∙ sym (uv_run_other_modes p fuel mode s other)
