-- ===== src/Barrier/Steps.antt =====
-- src/thread-common.c: the interleavings of the threads at a barrier.
use libuv.Prelude.{ℕ, ◌+◌, ◌-◌, ◌<◌}
use libuv.Barrier.{Barrier, new_barrier, uv_barrier_wait, wake_at_gate, wake_inside}

-- A thread calls `uv_barrier_wait`; a thread that was woken goes on; a thread wakes up although
-- nobody has called it, as condition variables allow.
pub data Step : Barrier → Barrier → Type 0 where
  call : (b : Barrier) → Step b (uv_barrier_wait b).1
  go_on_at_gate : (b : Barrier) → 0 < b.gate_awake → Step b (wake_at_gate b).1
  go_on_inside : (b : Barrier) → 0 < b.inside_awake → Step b (wake_inside b).1
  spurious_at_gate :
      (b : Barrier)
      → 0 < b.gate_asleep
      → Step b (record b { gate_asleep = b.gate_asleep - 1; gate_awake = b.gate_awake + 1 })
  spurious_inside :
      (b : Barrier)
      → 0 < b.inside_asleep
      → Step b (record b { inside_asleep = b.inside_asleep - 1; inside_awake = b.inside_awake + 1 })

-- What a barrier for `count` threads can come to.
pub data Reachable (count : ℕ) : Barrier → Type 0 where
  start : Reachable count (new_barrier count)
  next : (b c : Barrier) → Reachable count b → Step b c → Reachable count c
