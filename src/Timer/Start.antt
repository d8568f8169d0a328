-- ===== src/Timer/Start.antt =====
-- src/timer.c: what `uv_timer_start` and `uv_timer_again` do.
use Prim.Native.Nat.{min}
use mathlib.Core.Path.{fun_ext}
use libuv.Prelude.{ℕ, ◌+◌, ◌-◌, ◌%◌, ◌^◌, ◌≤◌, ◌<◌, ◌≡◌, ◌≢◌, refl, true, false, some, ◌==◌, arith}
use libuv.Errno.{ok}
use libuv.Handle.{Flags, is_closing, handle_start}
use libuv.Heap.{Heap, heap_insert}
use libuv.Heap.Place.{copies}
use libuv.Heap.Correct.{everything, IsHeap, Adds, heap_insert-IsHeap}
use libuv.Queue.{occurs}
use libuv.Timer.{
  Loop, Memory, update, timer_less_than, on_flags, uv_timer_stop, uv_timer_start, set_timer,
  link_timer, clamp, u64_mod,
}
use libuv.Timer.Order.{timer_less_than-IsOrder}
use libuv.Timer.Valid.{IsValid, Stopped, Ordered-agree, uv_timer_stop-IsValid}

-- The time when a timer is due: the sum, or the last representable time.
abbrev pub due_time : ℕ → ℕ → ℕ
due_time time timeout = min (time + timeout) (u64_mod - 1)

-- What a successful start changes.
pub record Started (l : Loop) (h cb timeout repeat : ℕ) (l' : Loop) : Type 0 where
  pub active : (l'.handles h).flags.active ≡ true
  pub same_cb : (l'.handles h).timer_cb ≡ some cb
  pub due : (l'.handles h).timeout ≡ due_time l.time timeout
  pub repeats : (l'.handles h).repeat ≡ repeat
  pub last : (l'.handles h).start_id ≡ l.timer_counter
  pub counter : l'.timer_counter ≡ (l.timer_counter + 1) % u64_mod
  pub others : (k : ℕ) → k ≢ h → l'.handles k ≡ l.handles k
  pub same_time : l'.time ≡ l.time
  pub kept : occurs h l.ready ≡ 0 → l'.ready ≡ l.ready
  pub fewer : l'.timer_heap.nelts ≤ l.timer_heap.nelts + 1

module _ (l : Loop) (h cb timeout repeat : ℕ) where
  -- The fields of the stopped timer are set.
  set_timer-IsValid :
      IsValid l → (l.handles h).flags.active ≡ false → IsValid (set_timer l h cb timeout repeat)
  unfolding update
  set_timer-IsValid v off =
      let s' = (set_timer l h cb timeout repeat).handles in
      let out : copies ◌==◌ h l.timer_heap.min ≡ 0 = ground (arith, v.linked h) in
      record {
        heap = record {
          ordered =
              Ordered-agree l.handles s' h (λ k n. (ground arith, ground arith)) l.timer_heap.min
                out v.heap.ordered;
          full = v.heap.full;
          sized = v.heap.sized;
        };
        linked = λ k. ground (arith, v.linked k);
        queued = λ k. ground (arith, v.queued k);
      }

set_timer-inactive :
    (l : Loop) (h cb timeout repeat : ℕ)
    → (l.handles h).flags.active ≡ false
    → ((set_timer l h cb timeout repeat).handles h).flags.active ≡ false
unfolding update
set_timer-inactive l h cb timeout repeat off = ground arith

-- A wrapped sum is less than its second part.
clamp-due_time :
    (time timeout : ℕ)
    → time < u64_mod
    → timeout < u64_mod
    → clamp ((time + timeout) % u64_mod) timeout ≡ due_time time timeout
clamp-due_time time timeout p q = ground arith

-- The flags of a timer play no part in the order.
less_than-flags :
    (s : Memory) (h : ℕ) (f : Flags)
    → timer_less_than (update s h (record (s h) { flags = f })) ≡ timer_less_than s
unfolding update timer_less_than
less_than-flags s h f = fun_ext λ a. fun_ext λ b. ground arith

module _ (l : Loop) (h : ℕ) where
  linked_timer : Heap ℕ → Loop
  linked_timer heap = on_flags handle_start (record l { timer_heap = heap }) h

  linked-IsValid :
      (heap : Heap ℕ)
      → IsValid l
      → (l.handles h).flags.active ≡ false
      → occurs h l.ready ≡ 0
      → IsHeap (timer_less_than l.handles) heap
      → Adds h l.timer_heap heap
      → IsValid (linked_timer heap)
  unfolding linked_timer handle_start update
  linked-IsValid heap v off out v' adds = record {
    heap =
        rw (less_than-flags l.handles h (handle_start (l.handles h).flags l.active_handles).0) v';
    linked = λ k. ground (arith, adds (λ y. y == k), v.linked k);
    queued = λ k. ground (arith, v.queued k);
  }

  link_timer-linked :
      (heap : Heap ℕ)
      → heap_insert (timer_less_than l.handles) l.timer_heap h ≡ some heap
      → link_timer l h ≡ some (linked_timer heap)
  unfolding linked_timer
  link_timer-linked heap e = rw e refl

module _ (l : Loop) (h cb timeout repeat : ℕ) where
  started : (stopped : Loop) → Heap ℕ → Loop
  started stopped = linked_timer (set_timer stopped h cb timeout repeat) h

  started-Started :
      (stopped : Loop) (heap : Heap ℕ)
      → Stopped l h stopped
      → l.time < u64_mod
      → timeout < u64_mod
      → heap.nelts ≤ l.timer_heap.nelts + 1
      → Started l h cb timeout repeat (started stopped heap)
  unfolding started linked_timer handle_start update
  started-Started stopped heap st time_fits timeout_fits fewer = record {
    active = ground arith;
    same_cb = ground arith;
    due = ground (arith, st.same_time, clamp-due_time l.time timeout time_fits timeout_fits);
    repeats = ground arith;
    last = ground (arith, st.same_counter);
    counter = ground (arith, st.same_counter);
    others = λ k n. ground (arith, st.others k);
    same_time = st.same_time;
    kept = st.kept;
    fewer = fewer;
  }

  uv_timer_start-started :
      (stopped : Loop) (heap : Heap ℕ)
      → is_closing (l.handles h).flags ≡ false
      → uv_timer_stop l h ≡ some stopped
      → heap_insert
          (timer_less_than (set_timer stopped h cb timeout repeat).handles)
          stopped.timer_heap
          h
        ≡ some heap
      → uv_timer_start l h (some cb) timeout repeat ≡ some (ok, started stopped heap)
  unfolding uv_timer_start started linked_timer
  uv_timer_start-started stopped heap live stop insert = rw (live, stop, insert) refl

  -- Starting a timer of a valid loop that has room, with a callback and unless it is closing, is
  -- not a fault and succeeds. The loop stays valid and the timer is active. It is due at the sum of
  -- the loop's time and the timeout, or at the last representable time if that is earlier. It takes
  -- the next start id, and no other timer changes.
  pub uv_timer_start-Started :
      IsValid l
      → l.timer_heap.nelts + 1 < 2 ^ 32
      → is_closing (l.handles h).flags ≡ false
      → l.time < u64_mod
      → timeout < u64_mod
      → (l' : Loop) × (uv_timer_start l h (some cb) timeout repeat ≡ some (ok, l'))
        × IsValid l'
        × Started l h cb timeout repeat l'
  unfolding started
  uv_timer_start-Started v small live time_fits timeout_fits =
      let (stopped, stop, valid, st) = uv_timer_stop-IsValid l h v (omega arith) in
      let ready = set_timer-IsValid stopped h cb timeout repeat valid st.inactive in
      let fresh = set_timer stopped h cb timeout repeat in
      let (heap, insert, v', adds) =
        heap_insert-IsHeap (timer_less_than fresh.handles) (timer_less_than-IsOrder fresh.handles)
          stopped.timer_heap h ready.heap (omega (arith, st.fewer)) in
      (
        started stopped heap,
        uv_timer_start-started stopped heap live stop insert,
        linked-IsValid fresh h heap ready
            (set_timer-inactive stopped h cb timeout repeat st.inactive) st.out v' adds,
        started-Started stopped heap st time_fits timeout_fits
            (omega (arith, adds everything, ready.heap.sized, v'.sized, st.fewer)),
      )
