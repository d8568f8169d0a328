-- ===== src/Threadpool/Examples.antt =====
-- src/threadpool.c: a pool of four threads with fast and slow work.
use libuv.Prelude.{◌+◌, ◌≤◌, ◌≡◌, ◌⊎◌, refl, true, false, none, length, arith}
use libuv.Threadpool.{
  Pool, work_cpu, work_slow_io, wait, init_threads, unstarted, uv_work_submit, post,
  is_slow_scheduled, worker_take, must_wait, slow_work_thread_threshold, mem_item, uv_work_cancel,
}
use libuv.Threadpool.Steps.{Reachable, start, next, submit, take}
use libuv.Threadpool.Counts.{slow_jobs}
use libuv.Threadpool.Sound.{IsSound, Reachable-IsSound}
use libuv.Threadpool.Idle.{worker_take-leaves}
use libuv.Threadpool.Cancel.{CancelOutcome, times, times_item, uv_work_cancel-CancelOutcome}

abbrev fresh : Pool
fresh = init_threads unstarted none true

fresh-Reachable : Reachable fresh
fresh-Reachable = start none true

-- Slow work, then other work.
abbrev busy : Pool
busy = uv_work_submit (uv_work_submit fresh 8 work_slow_io) 9 work_cpu

busy-Reachable : Reachable busy
busy-Reachable =
    next (uv_work_submit fresh 8 work_slow_io) busy
      (next fresh (uv_work_submit fresh 8 work_slow_io) fresh-Reachable
        (submit fresh 8 work_slow_io))
      (submit (uv_work_submit fresh 8 work_slow_io) 9 work_cpu)

Reachable-IsSound_example : IsSound (worker_take busy).1
Reachable-IsSound_example =
    Reachable-IsSound (worker_take busy).1
      (next busy (worker_take busy).1 busy-Reachable (take busy))

fresh-waits : (worker_take fresh).0 ≡ wait
unfolding worker_take must_wait init_threads
fresh-waits = refl

worker_take-leaves_example :
    (mem_item 9 fresh.wq ≡ false)
    × ((length fresh.slow_io_pending_wq ≡ 0)
        ⊎ (slow_jobs fresh.jobs ≡ slow_work_thread_threshold fresh))
worker_take-leaves_example = worker_take-leaves fresh 9 fresh-Reachable fresh-waits

busy_once : times_item 9 busy.wq + times 9 busy.slow_io_pending_wq + times 9 busy.loop_wq ≤ 1
unfolding times_item times uv_work_submit post is_slow_scheduled init_threads
busy_once = omega arith

busy_fresh : busy.stale 9 ≡ false
unfolding uv_work_submit post is_slow_scheduled init_threads
busy_fresh = refl

uv_work_cancel-CancelOutcome_example : CancelOutcome busy 9 (uv_work_cancel busy 9)
uv_work_cancel-CancelOutcome_example = uv_work_cancel-CancelOutcome busy 9 busy_fresh busy_once
