-- ===== src/Loop/Examples.antt =====
-- src/unix/core.c: a loop with some rounds of work, each of which a turn's check phase does.
use libuv.Prelude.{
  ℕ, ◌+◌, ◌-◌, ◌≡◌, refl, Bool, true, false, Option, none, some, ltb, if◌then◌else◌,
}
use libuv.Loop.{run_default, run_nowait, Phases, loop_alive, turn, run_loop, leave, uv_run}
use libuv.Loop.Waiting.{with_poll, uv_run-with_poll}

record Sample : Type 0 where
  work : ℕ
  waits : ℕ
  stop : Bool

-- A poll that may wait counts it.
abbrev count_wait : Option ℕ → Sample → Sample
count_wait none s = record s { waits = s.waits + 1 }
count_wait (some t) s = if ltb 0 t then record s { waits = s.waits + 1 } else s

abbrev sample : Phases Sample
sample = record {
  update_time = λ s. s;
  run_timers = λ s. s;
  run_pending = λ s. s;
  run_idle = λ s. s;
  run_prepare = λ s. s;
  metrics_inc_loop_count = λ s. s;
  io_poll = count_wait;
  metrics_update_idle_time = λ s. s;
  run_check = λ s. record s { work = s.work - 1 };
  run_closing_handles = λ s. s;
  next_timeout = λ s. none;
  has_active_handles = λ s. ltb 0 s.work;
  has_active_reqs = λ s. false;
  pending_queue_empty = λ s. true;
  idle_handles_empty = λ s. true;
  reap_children = λ s. false;
  closing_handles_null = λ s. true;
  stop_flag = λ s. s.stop;
  clear_stop_flag = λ s. record s { stop = false };
  stop_flag-clear = λ s. refl;
}

abbrev two_rounds : Sample
two_rounds = record { work = 2; waits = 0; stop = false }

abbrev done : Sample
done = record { work = 0; waits = 2; stop = false }

two_rounds-runs : uv_run sample 5 run_default two_rounds ≡ some (done, false)
unfolding uv_run run_loop turn loop_alive leave
two_rounds-runs = refl

uv_run-with_poll_example :
    uv_run (with_poll sample (λ t s. s)) 1 run_nowait two_rounds
    ≡ uv_run sample 1 run_nowait two_rounds
uv_run-with_poll_example = uv_run-with_poll sample (λ t s. s) (λ s. refl) 1 run_nowait two_rounds tt
