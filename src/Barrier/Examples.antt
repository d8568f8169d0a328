-- ===== src/Barrier/Examples.antt =====
-- src/thread-common.c: a barrier for two threads, and failures of its initialisation.
use libuv.Prelude.{◌<◌, ◌≡◌, refl, true, some, none, arith}
use libuv.Errno.{failed, uv_enomem, ok}
use libuv.Barrier.{
  Barrier, new_barrier, leave, arrive, uv_barrier_wait, wake_inside, uv_barrier_init,
}
use libuv.Barrier.Steps.{Reachable, start, next, call}
use libuv.Barrier.Sound.{KeepsRounds, Reachable-KeepsRounds, Reachable-stuck}

abbrev one_inside : Barrier
one_inside = record (new_barrier 2) { entered = 1; inside_asleep = 1; arrivals = 1 }

-- The second thread fills the round and leaves; the first one is awake.
abbrev draining : Barrier
draining = record (new_barrier 2) { out = 1; inside_awake = 1; arrivals = 2; departures = 1 }

one_inside-Reachable : Reachable 2 one_inside
unfolding uv_barrier_wait arrive
one_inside-Reachable = next (new_barrier 2) one_inside start (call (new_barrier 2))

draining-Reachable : Reachable 2 draining
unfolding uv_barrier_wait arrive leave
draining-Reachable = next one_inside draining one_inside-Reachable (call one_inside)

Reachable-KeepsRounds_example : KeepsRounds 2 draining
Reachable-KeepsRounds_example =
    Reachable-KeepsRounds 2 draining (omega arith) (omega arith) draining-Reachable

Reachable-stuck_example :
    (one_inside.gate_asleep ≡ 0)
    × (one_inside.out ≡ 0)
    × (one_inside.inside_asleep ≡ one_inside.entered)
    × (one_inside.entered < 2)
Reachable-stuck_example =
    Reachable-stuck 2 one_inside (omega arith) (omega arith) one_inside-Reachable refl refl

-- The last thread to leave is told so.
last_leaves : (wake_inside draining).0 ≡ some true
unfolding wake_inside leave
last_leaves = refl

-- If the condition variable cannot be made, the mutex and the memory are given back.
cond_init_fails :
    uv_barrier_init true 2 true ok (failed uv_enomem)
    ≡ record { rc = failed uv_enomem; barrier = none; blocks = 0; mutexes = 0 }
unfolding uv_barrier_init
cond_init_fails = refl
