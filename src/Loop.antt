-- ===== src/Loop.antt =====
-- src/unix/core.c: `uv_run`.
-- The loop's state is any type `S`; what the phases of a turn do to it, and what the tests read of
-- it, is the record `Phases`. `uv__io_poll` is given its timeout, and `none` is -1: it may wait for
-- ever.
pub mod Turns
pub mod Waiting
mod Examples
use libuv.Prelude.{
  ℕ, zero, suc, ◌≡◌, Bool, true, false, not, ◌&&◌, ◌||◌, Option, none, some, if◌then◌else◌, ◌>>=◌,
}

-- `uv_run_mode`
pub data Mode : Type 0 where
  run_default run_once run_nowait : Mode

abbrev pub is_default : Mode → Bool
is_default run_default = true
is_default run_once = false
is_default run_nowait = false

abbrev pub is_once : Mode → Bool
is_once run_default = false
is_once run_once = true
is_once run_nowait = false

pub record Phases (S : Type 0) : Type 0 where
  pub update_time : S → S
  pub run_timers : S → S
  pub run_pending : S → S
  pub run_idle : S → S
  pub run_prepare : S → S
  pub metrics_inc_loop_count : S → S
  pub io_poll : Option ℕ → S → S
  pub metrics_update_idle_time : S → S
  pub run_check : S → S
  pub run_closing_handles : S → S
  pub next_timeout : S → Option ℕ
  pub has_active_handles : S → Bool
  pub has_active_reqs : S → Bool
  pub pending_queue_empty : S → Bool
  pub idle_handles_empty : S → Bool
  pub reap_children : S → Bool
  pub closing_handles_null : S → Bool
  pub stop_flag : S → Bool
  pub clear_stop_flag : S → S
  pub stop_flag-clear : (s : S) → stop_flag (clear_stop_flag s) ≡ false

module _ {S : Type 0} (p : Phases S) where
  pub loop_alive : S → Bool
  loop_alive s =
      p.has_active_handles s
      || (p.has_active_reqs s || (not (p.pending_queue_empty s) || not (p.closing_handles_null s)))

  pub backend_timeout : S → Option ℕ
  backend_timeout s =
      if not (p.stop_flag s)
        && ((p.has_active_handles s || p.has_active_reqs s)
            && (p.pending_queue_empty s
                && (p.idle_handles_empty s
                    && (not (p.reap_children s) && p.closing_handles_null s))))
      then p.next_timeout s
      else some 0

  pub can_sleep : S → Bool
  can_sleep s = p.pending_queue_empty s && p.idle_handles_empty s

  -- The timeout of a turn, from `can_sleep` as it was at its start.
  pub turn_timeout : Mode → Bool → S → Option ℕ
  unfolding backend_timeout
  turn_timeout mode sleep s =
      if is_once mode && sleep || is_default mode then backend_timeout s else some 0

  -- `for (r = 0; r < 8 && !uv__queue_empty(&loop->pending_queue); r++)`, by the rounds left.
  pub pending_rounds : ℕ → S → S
  pending_rounds zero s = s
  pending_rounds (suc rounds) s = elim (p.pending_queue_empty s) [
    | true ↦ s
    | false ↦ pending_rounds rounds (p.run_pending s)
  ]

  -- The body of the `while`, to the test of the mode.
  pub turn : Mode → S → S
  unfolding can_sleep turn_timeout pending_rounds
  turn mode s =
      let ready = p.run_prepare (p.run_idle (p.run_pending s)) in
      let timeout = turn_timeout mode (can_sleep s) ready in
      let polled = p.io_poll timeout (p.metrics_inc_loop_count ready) in
      let drained = p.metrics_update_idle_time (pending_rounds 8 polled) in
      p.run_timers (p.update_time (p.run_closing_handles (p.run_check drained)))

  -- The `while`, from its test; `r` is what `uv__loop_alive` returned last.
  pub run_loop : ℕ → Mode → Bool → S → Option (S × Bool)
  run_loop zero mode r s = none
  run_loop (suc fuel) mode r s =
      let next = turn mode s in
      let rest = run_loop fuel mode (loop_alive next) next in
      if r && not (p.stop_flag s)
      then (if is_default mode then rest else some (next, loop_alive next))
      else some (s, r)

  -- What comes before the `while`.
  pub enter : Mode → S → S
  enter mode s =
      let r = loop_alive s in
      let timed = if r then s else p.update_time s in
      if is_default mode && (r && not (p.stop_flag timed))
      then p.run_timers (p.update_time timed)
      else timed

  -- What comes behind it.
  pub leave : S × Bool → S × Bool
  leave (s, r) = (if p.stop_flag s then p.clear_stop_flag s else s, r)

  -- The state after `uv_run`, and whether it returns nonzero. `none` is a call that is still running
  -- when the fuel, a bound on the turns, is used up.
  pub uv_run : ℕ → Mode → S → Option (S × Bool)
  unfolding enter
  uv_run fuel mode s = run_loop fuel mode (loop_alive s) (enter mode s) >>= λ end. some (leave end)
