-- ===== src/Timer/Examples.antt =====
-- src/timer.c: a loop at time 15 with a timer that is due at 10 and one that is due at 20.
use libuv.Prelude.{
  ℕ, ◌+◌, ◌≡◌, refl, Option, List, true, false, none, some, [], ◌==◌, if◌then◌else◌, arith,
}
use libuv.Errno.{ok}
use libuv.Handle.{handle_init, is_closing}
use libuv.Heap.{null, node}
use libuv.Timer.{Timer, Loop, timer_less_than, uv_timer_start, uv_next_timeout, uv_run_timers}
use libuv.Timer.Valid.{IsValid}
use libuv.Timer.Start.{Started, uv_timer_start-Started}
use libuv.Timer.Expiry.{Promises, uv_next_timeout-Promises}
use libuv.Timer.Ready.{Collected}
use libuv.Timer.Runnable.{IsRunnable, Behaves}
use libuv.Timer.Running.{Drained, uv_run_timers-Drained}
use mathlib.Core.List.Sublistᴰ

abbrev active_until : ℕ → ℕ → Timer
active_until timeout start_id = record {
  flags = record handle_init { active = true };
  timer_cb = some 7;
  timeout = timeout;
  repeat = 0;
  start_id = start_id;
}

abbrev idle_timer : Timer
idle_timer = record { flags = handle_init; timer_cb = none; timeout = 0; repeat = 0; start_id = 0 }

abbrev two_timers : Loop
two_timers = record {
  time = 15;
  timer_counter = 2;
  active_handles = 2;
  timer_heap = record { min = node (node null 2 null) 1 null; nelts = 2 };
  handles =
      λ k. if k == 1 then active_until 10 0 else if k == 2 then active_until 20 1 else idle_timer;
  ready = [];
}

in_order : timer_less_than two_timers.handles 2 1 ≡ false
unfolding timer_less_than
in_order = refl

two_timers-IsValid : IsValid two_timers
two_timers-IsValid = record {
  heap = record {
    ordered = (in_order, tt, (tt, tt, tt, tt), tt);
    full = omega arith;
    sized = refl;
  };
  linked = λ h. ground arith;
  queued = λ h. ground arith;
}

open_handle : is_closing (two_timers.handles 3).flags ≡ false
unfolding is_closing
open_handle = refl

uv_timer_start-Started_example :
    (l' : Loop) × (uv_timer_start two_timers 3 (some 7) 30 5 ≡ some (ok, l'))
    × IsValid l'
    × Started two_timers 3 7 30 5 l'
uv_timer_start-Started_example =
    uv_timer_start-Started two_timers 3 7 30 5 two_timers-IsValid (omega arith) open_handle
      (omega arith) (omega arith)

uv_next_timeout-Promises_example : Promises two_timers (uv_next_timeout two_timers)
uv_next_timeout-Promises_example = uv_next_timeout-Promises two_timers two_timers-IsValid

two_timers-IsRunnable : IsRunnable two_timers
two_timers-IsRunnable = record {
  valid = two_timers-IsValid;
  room = omega arith;
  now = omega arith;
  repeats = λ k. ground arith;
  has_cb = λ k there. (7, ground arith);
}

-- A callback that starts a handle of another type.
abbrev starts_other : ℕ → ℕ → Loop → Option Loop
starts_other cb h l = some (record l { active_handles = l.active_handles + 1 })

starts_other-Behaves : Behaves starts_other
starts_other-Behaves = record {
  returns = λ cb h l r. (
    record l { active_handles = l.active_handles + 1 },
    refl,
    record {
      valid = record { heap = r.valid.heap; linked = r.valid.linked; queued = r.valid.queued };
      room = r.room;
      now = r.now;
      repeats = r.repeats;
      has_cb = r.has_cb;
    },
    Sublistᴰ.refl l.ready,
    refl,
  );
}

uv_run_timers-Drained_example :
    (collected : Loop) × (calls : List ℕ) × (end : Loop) × Collected two_timers collected
    × (uv_run_timers starts_other two_timers ≡ some end)
    × Drained starts_other collected calls end
uv_run_timers-Drained_example =
    uv_run_timers-Drained starts_other starts_other-Behaves two_timers two_timers-IsRunnable refl
