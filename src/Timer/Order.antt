-- ===== src/Timer/Order.antt =====
-- src/timer.c: `timer_less_than` is what the heap asks of its comparison.
use libuv.Prelude.{ℕ, ◌<◌, ◌≡◌, ◌⊎◌, true, arith}
use libuv.Heap.Order.{IsOrder}
use libuv.Timer.{Memory, timer_less_than}

-- Timers are in order by the time when they are due and, at the same time, by the order in which
-- they were started.
pub timer_less_than_iff :
    (s : Memory) (a b : ℕ)
    → timer_less_than s a b ≡ true
    → ((s a).timeout < (s b).timeout)
      ⊎ (((s a).timeout ≡ (s b).timeout) × ((s a).start_id < (s b).start_id))
unfolding timer_less_than
timer_less_than_iff s a b h = ground arith

pub timer_less_than-IsOrder : (s : Memory) → IsOrder (timer_less_than s)
unfolding timer_less_than
timer_less_than-IsOrder s = record {
  asym = λ a b h. ground arith;
  le_trans = λ a b c h k. ground arith;
}
