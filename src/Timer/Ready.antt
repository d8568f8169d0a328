-- ===== src/Timer/Ready.antt =====
-- src/timer.c: the first loop of `uv__run_timers`, which collects the timers that are due.
use mathlib.Core.Path.{fun_ext}
use native.Mathlib.Decide.{dec_lt}
use libuv.Prelude.{
  ℕ, zero, suc, ◌+◌, ◌^◌, ◌≤◌, ◌<◌, ◌≡◌, ◌⊎◌, refl, ◌∙◌, ap, inl, inr, Bool, true, false, some,
  List, [], ◌∷◌, ◌++◌, ltb, length, length-append, Bool-cases, Option-cases, one_if, arith,
}
use libuv.Heap.{heap_min}
use libuv.Queue.{occurs, occurs-append}
use libuv.Timer.{Loop, timer_less_than, uv_timer_stop, collect}
use libuv.Timer.Valid.{IsValid, Stopped, uv_timer_stop-IsValid}
use libuv.Timer.Expiry.{min-earliest, no_min-inactive, timer_less_than-timeout}

-- Each timer of the queue stands before those that it is not less than.
abbrev pub Sorted : (ℕ → ℕ → Bool) → List ℕ → Type 0
Sorted less_than [] = Unit
Sorted less_than (h ∷ q) = ((k : ℕ) → 0 < occurs k q → less_than k h ≡ false) × Sorted less_than q

Sorted-append :
    (less_than : ℕ → ℕ → Bool) (q : List ℕ) (h : ℕ)
    → Sorted less_than q
    → ((k : ℕ) → 0 < occurs k q → less_than h k ≡ false)
    → Sorted less_than (q ++ h ∷ [])
Sorted-append less_than [] h o last = (λ k none_left. absurd (omega arith), tt)
Sorted-append less_than (j ∷ q) h o last = (
  λ k there. elim (dec_lt 0 (occurs k q)) [
    | yes in_q ↦ o.0 k in_q
    | no out_q ↦
        let is : h ≡ k = ground (arith, occurs-append k q h) in rw (← is) (last j (ground arith))
  ],
  Sorted-append less_than q h o.1 (λ k in_q. last k (omega arith)),
)

-- The times and the order of the timers are the same in both.
record SameTimes (l l' : Loop) : Type 0 where
  times : (k : ℕ) → (l'.handles k).timeout ≡ (l.handles k).timeout
  order : timer_less_than l'.handles ≡ timer_less_than l.handles
  now : l'.time ≡ l.time
  cbs : (k : ℕ) → (l'.handles k).timer_cb ≡ (l.handles k).timer_cb
  repeats : (k : ℕ) → (l'.handles k).repeat ≡ (l.handles k).repeat

Stopped-SameTimes : (l : Loop) (h : ℕ) (l' : Loop) → Stopped l h l' → SameTimes l l'
unfolding timer_less_than
Stopped-SameTimes l h l' st =
    let due = λ (k : ℕ). times k in
    let ids = λ (k : ℕ). ids_of k in
    record {
      times = times;
      order = fun_ext λ a. fun_ext λ b. rw (times a, times b, ids_of a, ids_of b) refl;
      now = st.same_time;
      cbs = λ k. ground (arith, st.others k, st.same_timer);
      repeats = λ k. ground (arith, st.others k, st.same_timer);
    }
  where
    times : (k : ℕ) → (l'.handles k).timeout ≡ (l.handles k).timeout
    times k = ground (arith, st.others k)

    ids_of : (k : ℕ) → (l'.handles k).start_id ≡ (l.handles k).start_id
    ids_of k = ground (arith, st.others k)

-- The ready queue of a loop holds timers that are due, in order, and before those in the heap.
record IsReady (l : Loop) : Type 0 where
  due : (k : ℕ) → 0 < occurs k l.ready → (l.handles k).timeout ≤ l.time
  sorted : Sorted (timer_less_than l.handles) l.ready
  before :
      (j k : ℕ)
      → 0 < occurs j l.ready
      → (l.handles k).flags.active ≡ true
      → timer_less_than l.handles k j ≡ false

-- The stopped timer at the end of the ready queue.
queue_up : Loop → ℕ → Loop
queue_up stopped h = record stopped { ready = stopped.ready ++ h ∷ [] }

module _ (l : Loop) (h : ℕ) (stopped : Loop) (v : IsValid stopped) (st : Stopped l h stopped) where
  queue_up-IsValid : IsValid (queue_up stopped h)
  unfolding queue_up
  queue_up-IsValid = record {
    heap = v.heap;
    linked = v.linked;
    queued = λ k. ground (arith, occurs-append k stopped.ready h, v.queued k);
  }

  -- Who stands in the longer queue.
  in_queue_up :
      (k : ℕ)
      → (l.handles h).flags.active ≡ true
      → 0 < occurs k (queue_up stopped h).ready
      → (0 < occurs k l.ready) ⊎ (h ≡ k)
  unfolding queue_up
  in_queue_up k on there = elim (dec_lt 0 (occurs k l.ready)) [
    | yes old ↦ inl old
    | no new ↦ inr (ground (arith, occurs-append k stopped.ready h, ap (occurs k) (st.unqueued on)))
  ]

  still_active :
      (k : ℕ) → (stopped.handles k).flags.active ≡ true → (l.handles k).flags.active ≡ true
  still_active k a = ground (arith, st.others k, st.inactive)

  queue_up-IsReady :
      (l.handles h).flags.active ≡ true
      → (l.handles h).timeout ≤ l.time
      → ((k : ℕ) → (l.handles k).flags.active ≡ true → timer_less_than l.handles k h ≡ false)
      → IsReady l
      → IsReady (queue_up stopped h)
  unfolding queue_up
  queue_up-IsReady on late least r =
      let same = Stopped-SameTimes l h stopped st in
      record {
        due = λ k there. elim (in_queue_up k on there) [
          | inl old ↦ omega (arith, r.due k old, same.times k, same.now)
          | inr is ↦ ground (arith, same.times k, same.now)
        ];
        sorted =
            rw (st.unqueued on, same.order)
              (Sorted-append (timer_less_than l.handles) l.ready h r.sorted
                (λ k there. r.before k h there on));
        before = λ j k there a. rw same.order (elim (in_queue_up j on there) [
          | inl old ↦ r.before j k old (still_active k a)
          | inr is ↦ rw (← is) (least k (still_active k a))
        ]);
      }

-- What the first loop leaves: of the timers, those that were active and are due stand in the ready
-- queue, and the others are as they were.
pub record Collected (l l' : Loop) : Type 0 where
  pub valid : IsValid l'
  pub not_due : (k : ℕ) → (l'.handles k).flags.active ≡ true → l'.time < (l'.handles k).timeout
  pub due : (k : ℕ) → 0 < occurs k l'.ready → (l'.handles k).timeout ≤ l'.time
  pub sorted : Sorted (timer_less_than l'.handles) l'.ready
  pub moved :
      (k : ℕ)
      → occurs k l'.ready + one_if (l'.handles k).flags.active
        ≡ occurs k l.ready + one_if (l.handles k).flags.active
  pub times : (k : ℕ) → (l'.handles k).timeout ≡ (l.handles k).timeout
  pub now : l'.time ≡ l.time
  pub same_cbs : (k : ℕ) → (l'.handles k).timer_cb ≡ (l.handles k).timer_cb
  pub same_repeats : (k : ℕ) → (l'.handles k).repeat ≡ (l.handles k).repeat
  pub total : l'.timer_heap.nelts + length l'.ready ≡ l.timer_heap.nelts + length l.ready

collect-stop :
    (fuel : ℕ) (l : Loop) (h : ℕ) (stopped : Loop)
    → heap_min l.timer_heap ≡ some h
    → ltb l.time (l.handles h).timeout ≡ false
    → uv_timer_stop l h ≡ some stopped
    → collect (suc fuel) l ≡ collect fuel (queue_up stopped h)
unfolding collect queue_up
collect-stop fuel l h stopped e late s = rw (e, collect) (rw (late, s) refl)

-- The loop stops: nothing in the heap is due.
stop-Collected :
    (l : Loop)
    → IsValid l
    → IsReady l
    → ((k : ℕ) → (l.handles k).flags.active ≡ true → l.time < (l.handles k).timeout)
    → Collected l l
stop-Collected l v r not_due = record {
  valid = v;
  not_due = not_due;
  due = r.due;
  sorted = r.sorted;
  moved = λ k. refl;
  times = λ k. refl;
  now = refl;
  same_cbs = λ k. refl;
  same_repeats = λ k. refl;
  total = refl;
}

step-Collected :
    (l : Loop) (h : ℕ) (stopped l' : Loop)
    → (l.handles h).flags.active ≡ true
    → Stopped l h stopped
    → Collected (queue_up stopped h) l'
    → Collected l l'
unfolding queue_up
step-Collected l h stopped l' on st c =
    let same = Stopped-SameTimes l h stopped st in
    record {
      valid = c.valid;
      not_due = c.not_due;
      due = c.due;
      sorted = c.sorted;
      moved = λ k. ground (
        arith,
        c.moved k,
        occurs-append k stopped.ready h,
        ap (occurs k) (st.unqueued on),
        st.others k,
        st.inactive,
      );
      times = λ k. c.times k ∙ same.times k;
      now = c.now ∙ same.now;
      same_cbs = λ k. c.same_cbs k ∙ same.cbs k;
      same_repeats = λ k. c.same_repeats k ∙ same.repeats k;
      total = omega (
        arith,
        c.total,
        length-append stopped.ready (h ∷ []),
        ap length (st.unqueued on),
        st.unlinked on,
      );
    }

collect-Collected :
    (fuel : ℕ) (l : Loop)
    → l.timer_heap.nelts < fuel
    → l.timer_heap.nelts < 2 ^ 32
    → IsValid l
    → IsReady l
    → (l' : Loop) × (collect fuel l ≡ some l') × Collected l l'
unfolding collect queue_up
collect-Collected zero l enough small v r = absurd (omega arith)
collect-Collected (suc fuel) l enough small v r = elim (Option-cases (heap_min l.timer_heap)) [
  | inl e ↦
      (l, rw (e, collect) refl, stop-Collected l v r λ k a. let off = no_min-inactive l k v e in cc)
  | inr (h, e) ↦
      let (on, least) = min-earliest l h v e in
      elim (Bool-cases (ltb l.time (l.handles h).timeout)) [
        | inl early ↦ (
          l,
          rw (e, collect) (rw early refl),
          stop-Collected l v r λ k a. ground (arith, timer_less_than-timeout l k h (least k a)),
        )
        | inr late ↦
            let (stopped, stop, v', st) = uv_timer_stop-IsValid l h v small in
            let (l', run, c) =
              collect-Collected fuel (queue_up stopped h) (omega (arith, st.unlinked on))
                (omega (arith, st.unlinked on)) (queue_up-IsValid l h stopped v' st)
                (queue_up-IsReady l h stopped v' st on (ground arith) least r) in
            (
              l',
              collect-stop fuel l h stopped e late stop ∙ run,
              step-Collected l h stopped l' on st c,
            )
      ]
]

-- From a valid loop, with the ready queue empty as `uv__run_timers` begins, the first loop of
-- `uv__run_timers` ends without a fault. It leaves a valid loop. The timers in the ready queue are
-- those that were active and are due; they stand there once, in the order of their times and then
-- of their starts, and are no longer active. The others are active as before, and are not due.
pub collect-ready :
    (l : Loop)
    → IsValid l
    → l.timer_heap.nelts < 2 ^ 32
    → l.ready ≡ []
    → (l' : Loop) × (collect (suc l.timer_heap.nelts) l ≡ some l') × Collected l l'
collect-ready l v small e =
    collect-Collected (suc l.timer_heap.nelts) l (omega arith) small v (record {
      due = λ k there. absurd (omega (arith, ap (occurs k) e));
      sorted = rw e tt;
      before = λ j k there a. absurd (omega (arith, ap (occurs j) e));
    })
