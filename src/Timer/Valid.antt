-- ===== src/Timer/Valid.antt =====
-- src/timer.c: the invariant of a loop's timers, and that stopping and starting one keep it.
use libuv.Prelude.{
  ℕ, ◌+◌, ◌^◌, ◌≤◌, ◌<◌, ◌≡◌, ◌≢◌, refl, ◌∙◌, inl, inr, true, false, some, ◌==◌, ==_iff, Bool-cases,
  one_if, arith,
}
use libuv.Handle.{is_closing, handle_stop}
use libuv.Heap.{Tree, null, node, Heap, heap_remove}
use libuv.Heap.Order.{Ordered, RootLe}
use libuv.Heap.Place.{copies}
use libuv.Heap.Correct.{everything, IsHeap, Adds}
use libuv.Heap.Removal.{heap_remove-IsHeap}
use libuv.Queue.{erase, occurs, occurs-erase, erase-absent}
use libuv.Timer.{Timer, Loop, Memory, update, timer_less_than, on_flags, uv_timer_stop}
use libuv.Timer.Order.{timer_less_than-IsOrder}

-- The heap holds exactly the active timers, once each, and a timer is in the ready queue at most
-- once, and then it is not active.
pub record IsValid (l : Loop) : Type 0 where
  pub heap : IsHeap (timer_less_than l.handles) l.timer_heap
  pub linked : (h : ℕ) → copies ◌==◌ h l.timer_heap.min ≡ one_if (l.handles h).flags.active
  pub queued : (h : ℕ) → occurs h l.ready + one_if (l.handles h).flags.active ≤ 1

-- Two memories in which every timer but `h` is due at the same time and place.
abbrev pub AgreeOff : Memory → Memory → ℕ → Type 0
AgreeOff s s' h =
    (k : ℕ) → k ≢ h → ((s' k).timeout ≡ (s k).timeout) × ((s' k).start_id ≡ (s k).start_id)

module _ (s s' : Memory) (h : ℕ) (agree : AgreeOff s s' h) where
  less-agree : (a b : ℕ) → a ≢ h → b ≢ h → timer_less_than s' a b ≡ timer_less_than s a b
  unfolding timer_less_than
  less-agree a b na nb =
      let (ta, ia) = agree a na in let (tb, ib) = agree b nb in rw (ta, tb, ia, ib) refl

  ne_of_copies : (y : ℕ) → one_if (y == h) ≡ 0 → y ≢ h
  ne_of_copies y z e = ground arith

  RootLe-agree :
      (b : ℕ) (t : Tree ℕ)
      → b ≢ h
      → copies ◌==◌ h t ≡ 0
      → RootLe (timer_less_than s) b t
      → RootLe (timer_less_than s') b t
  RootLe-agree b null nb z le = tt
  RootLe-agree b (node l y r) nb z le = less-agree y b (ne_of_copies y (omega arith)) nb ∙ le

  -- A change of a timer outside the heap keeps the heap in order.
  pub Ordered-agree :
      (t : Tree ℕ)
      → copies ◌==◌ h t ≡ 0
      → Ordered (timer_less_than s) t
      → Ordered (timer_less_than s') t
  Ordered-agree null z o = tt
  Ordered-agree (node l y r) z o =
      let ny = ne_of_copies y (omega arith) in
      (
        RootLe-agree y l ny (omega arith) o.0,
        RootLe-agree y r ny (omega arith) o.1,
        Ordered-agree l (omega arith) o.2,
        Ordered-agree r (omega arith) o.3,
      )

-- What stopping a timer changes, besides the heap.
pub record Stopped (l : Loop) (h : ℕ) (l' : Loop) : Type 0 where
  pub inactive : (l'.handles h).flags.active ≡ false
  pub out : occurs h l'.ready ≡ 0
  pub same_timer :
      ((l'.handles h).timer_cb ≡ (l.handles h).timer_cb)
      × ((l'.handles h).timeout ≡ (l.handles h).timeout)
      × ((l'.handles h).repeat ≡ (l.handles h).repeat)
      × ((l'.handles h).start_id ≡ (l.handles h).start_id)
      × (is_closing (l'.handles h).flags ≡ is_closing (l.handles h).flags)
  pub others : (k : ℕ) → k ≢ h → l'.handles k ≡ l.handles k
  pub same_time : l'.time ≡ l.time
  pub same_counter : l'.timer_counter ≡ l.timer_counter
  pub fewer : l'.timer_heap.nelts ≤ l.timer_heap.nelts
  pub unqueued : (l.handles h).flags.active ≡ true → l'.ready ≡ l.ready
  pub kept : occurs h l.ready ≡ 0 → l'.ready ≡ l.ready
  pub unlinked : (l.handles h).flags.active ≡ true → l'.timer_heap.nelts + 1 ≡ l.timer_heap.nelts

update_ne : (s : Memory) (h k : ℕ) (v : Timer) → k ≢ h → update s h v k ≡ s k
unfolding update
update_ne s h k v n = ground arith

update_self : (s : Memory) (h : ℕ) (v : Timer) → update s h v h ≡ v
unfolding update
update_self s h v = ground arith

module _ (l : Loop) (h : ℕ) where
  stopped_active : Heap ℕ → Loop
  stopped_active heap = on_flags handle_stop (record l { timer_heap = heap }) h

  active-IsValid :
      (heap : Heap ℕ)
      → IsValid l
      → (l.handles h).flags.active ≡ true
      → IsHeap (timer_less_than l.handles) heap
      → Adds h heap l.timer_heap
      → IsValid (stopped_active heap) × Stopped l h (stopped_active heap)
  unfolding stopped_active handle_stop update is_closing
  active-IsValid heap v on v' adds =
      let s' = (stopped_active heap).handles in
      let out : copies ◌==◌ h heap.min ≡ 0 = ground (arith, adds (λ y. y == h), v.linked h) in
      (
        record {
          heap = record {
            ordered =
                Ordered-agree l.handles s' h (λ k n. (ground arith, ground arith)) heap.min out
                  v'.ordered;
            full = v'.full;
            sized = v'.sized;
          };
          linked = λ k. ground (arith, adds (λ y. y == k), v.linked k);
          queued = λ k. ground (arith, v.queued k);
        },
        record {
          inactive = ground arith;
          out = ground (arith, v.queued h);
          same_timer = ground arith;
          others = λ k n. ground arith;
          same_time = refl;
          same_counter = refl;
          fewer = omega (arith, adds everything, v.heap.sized, v'.sized);
          unqueued = λ _. refl;
          kept = λ _. refl;
          unlinked = λ _. omega (arith, adds everything, v.heap.sized, v'.sized);
        },
      )

  idle-IsValid :
      IsValid l
      → (l.handles h).flags.active ≡ false
      → let l' = record l { ready = erase h l.ready } in IsValid l' × Stopped l h l'
  idle-IsValid v off =
      let gone = λ (k : ℕ). occurs-erase h k l.ready (ground (arith, v.queued h)) in
      (
        record {
          heap = v.heap;
          linked = v.linked;
          queued = λ k. ground (arith, gone k, v.queued k);
        },
        record {
          inactive = off;
          out = ground (arith, gone h);
          same_timer = (refl, refl, refl, refl, refl);
          others = λ k n. refl;
          same_time = refl;
          same_counter = refl;
          fewer = omega arith;
          unqueued = λ on. cc;
          kept = erase-absent h l.ready;
          unlinked = λ on. cc;
        },
      )

  uv_timer_stop-active :
      (heap : Heap ℕ)
      → (l.handles h).flags.active ≡ true
      → heap_remove (timer_less_than l.handles) ◌==◌ l.timer_heap h ≡ some heap
      → uv_timer_stop l h ≡ some (stopped_active heap)
  unfolding uv_timer_stop stopped_active
  uv_timer_stop-active heap on e = rw (on, e) refl

  -- Stopping any timer of a valid loop is not a fault, and leaves a valid loop in which the timer
  -- is neither active nor in the ready queue, and no other timer has changed.
  pub uv_timer_stop-IsValid :
      IsValid l
      → l.timer_heap.nelts < 2 ^ 32
      → (l' : Loop) × (uv_timer_stop l h ≡ some l') × IsValid l' × Stopped l h l'
  unfolding uv_timer_stop
  uv_timer_stop-IsValid v small = elim (Bool-cases (l.handles h).flags.active) [
    | inl on ↦
        let (heap, e, v', adds) =
          heap_remove-IsHeap (timer_less_than l.handles) (timer_less_than-IsOrder l.handles) ◌==◌
            ==_iff h l.timer_heap v.heap small (ground (arith, v.linked h)) in
        let (valid, stopped) = active-IsValid heap v on v' adds in
        (stopped_active heap, uv_timer_stop-active heap on e, valid, stopped)
    | inr off ↦
        let (valid, stopped) = idle-IsValid v off in
        (record l { ready = erase h l.ready }, rw off refl, valid, stopped)
  ]
