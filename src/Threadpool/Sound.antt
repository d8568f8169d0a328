-- ===== src/Threadpool/Sound.antt =====
-- src/threadpool.c: what holds of the queues and the counters in every interleaving.
use libuv.Prelude.{
  ℕ, suc, ◌≤◌, Bool, false, not, Option, List, [], ◌∷◌, ◌++◌, ◌&&◌, ◌∙◌, sym, ap, arith, ◌≡◌, inl,
  inr, refl, length, Bool-cases,
}
use libuv.Threadpool.{
  Pool, Item, work_item, run_slow_work_message, exit_message, Kind, work_cpu, work_fast_io,
  work_slow_io, Job, running, returning, slow_work_thread_threshold, is_slow_scheduled,
  at_threshold, must_wait, take_pending, take_slow, take_head, worker_take, worker_wake,
  worker_finish, worker_return, post, post_exit, uv_work_submit, init_threads, uv_work_cancel,
  uv_work_done, unstarted, queue_remove, is_linked, is_null,
}
use libuv.Threadpool.Steps.{
  Step, Reachable, submit, exit, take, wake, finish, return, cancel, done, start, next,
}
use libuv.Threadpool.Counts.{
  messages, slow_jobs, messages-append, slow_jobs-append, is_slow_scheduled-true,
  is_slow_scheduled-false, messages-unlink_item, length-unlink_le,
}

-- The message is in the queue at most once, and it is there when slow work is pending; the counter
-- of slow jobs is right, and stays within the threshold.
pub record IsSound (p : Pool) : Type 0 where
  pub one_message : messages p.wq ≤ 1
  pub scheduled : messages p.wq ≡ 0 → length p.slow_io_pending_wq ≡ 0
  pub counted : p.slow_io_work_running ≡ slow_jobs p.jobs
  pub within : p.slow_io_work_running ≤ slow_work_thread_threshold p

init_threads-IsSound :
    (val : Option ℕ) (has_memory : Bool) → IsSound (init_threads unstarted val has_memory)
unfolding init_threads messages slow_jobs
init_threads-IsSound val has_memory = record {
  one_message = omega arith;
  scheduled = λ _. refl;
  counted = refl;
  within = omega arith;
}

post_exit-IsSound : (p : Pool) → IsSound p → IsSound (post_exit p)
unfolding post_exit messages slow_work_thread_threshold
post_exit-IsSound p s =
    let e = messages-append p.wq (exit_message ∷ []) in
    record {
      one_message = let one = s.one_message in omega arith;
      scheduled = λ none_there. s.scheduled (omega arith);
      counted = s.counted;
      within = s.within;
    }

uv_work_submit-IsSound :
    (p : Pool) (w : ℕ) (kind : Kind) → IsSound p → IsSound (uv_work_submit p w kind)
unfolding uv_work_submit post messages slow_work_thread_threshold
uv_work_submit-IsSound p w work_cpu s =
    let e = messages-append p.wq (work_item w ∷ []) in
    record {
      one_message = let one = s.one_message in omega arith;
      scheduled = λ none_there. s.scheduled (omega arith);
      counted = s.counted;
      within = s.within;
    }
uv_work_submit-IsSound p w work_fast_io s =
    let e = messages-append p.wq (work_item w ∷ []) in
    record {
      one_message = let one = s.one_message in omega arith;
      scheduled = λ none_there. s.scheduled (omega arith);
      counted = s.counted;
      within = s.within;
    }
uv_work_submit-IsSound p w work_slow_io s = elim (Bool-cases (is_slow_scheduled p.wq)) [
  | inl there ↦
      let one = is_slow_scheduled-true p.wq there in
      rw there (record {
        one_message = s.one_message;
        scheduled = λ none_there. omega arith;
        counted = s.counted;
        within = s.within;
      })
  | inr not_there ↦
      let none = is_slow_scheduled-false p.wq not_there in
      let e = messages-append p.wq (run_slow_work_message ∷ []) in
      rw not_there (record {
        one_message = omega arith;
        scheduled = λ none_there. omega arith;
        counted = s.counted;
        within = s.within;
      })
]

-- One worker more, with `is_slow_work`, is within the threshold when the counter is below it.
take_pending-IsSound :
    (p : Pool) (rest : List Item) (pending : List ℕ)
    → p.slow_io_pending_wq ≡ pending
    → messages rest ≡ 0
    → at_threshold p ≡ false
    → IsSound p
    → IsSound (take_pending p rest pending).1
unfolding take_pending messages slow_jobs slow_work_thread_threshold
take_pending-IsSound p rest [] all gone free s = record {
  one_message = omega arith;
  scheduled = λ none_there. ap length all;
  counted = s.counted;
  within = s.within;
}
take_pending-IsSound p rest (w ∷ []) all gone free s =
    let count = s.counted in
    record {
      one_message = omega arith;
      scheduled = λ none_there. refl;
      counted = omega arith;
      within = ground arith;
    }
take_pending-IsSound p rest (w ∷ k ∷ more) all gone free s =
    let count = s.counted in
    let e = messages-append rest (run_slow_work_message ∷ []) in
    record {
      one_message = omega arith;
      scheduled = λ none_there. omega arith;
      counted = omega arith;
      within = ground arith;
    }

take_slow-IsSound :
    (p : Pool) (rest : List Item)
    → IsSound p
    → p.wq ≡ run_slow_work_message ∷ rest
    → IsSound (take_slow p rest).1
unfolding take_slow messages slow_jobs slow_work_thread_threshold
take_slow-IsSound p rest s head =
    let one : suc (messages rest) ≤ 1 = rw head at s.one_message in
    let e = messages-append rest (run_slow_work_message ∷ []) in
    elim (Bool-cases (at_threshold p)) [
      | inl full ↦ rw full (record {
        one_message = omega arith;
        scheduled = λ none_there. omega arith;
        counted = s.counted;
        within = s.within;
      })
      | inr free ↦
          rw free (take_pending-IsSound p rest p.slow_io_pending_wq refl (omega arith) free s)
    ]

take_head-IsSound : (p : Pool) (q : List Item) → p.wq ≡ q → IsSound p → IsSound (take_head p q).1
unfolding take_head messages slow_jobs slow_work_thread_threshold
take_head-IsSound p [] head s = s
take_head-IsSound p (exit_message ∷ rest) head s = s
take_head-IsSound p (run_slow_work_message ∷ rest) head s = take_slow-IsSound p rest s head
take_head-IsSound p (work_item w ∷ rest) head s =
    let e = ap messages head in
    record {
      one_message = let one = s.one_message in omega arith;
      scheduled = λ none_there. s.scheduled (e ∙ none_there);
      counted = let count = s.counted in omega arith;
      within = s.within;
    }

worker_take-IsSound : (p : Pool) → IsSound p → IsSound (worker_take p).1
unfolding worker_take slow_work_thread_threshold
worker_take-IsSound p s = elim (Bool-cases (must_wait p)) [
  | inl waits ↦ rw waits (record {
    one_message = s.one_message;
    scheduled = s.scheduled;
    counted = s.counted;
    within = s.within;
  })
  | inr goes ↦ rw goes (take_head-IsSound p p.wq refl s)
]

worker_wake-IsSound : (p : Pool) → IsSound p → IsSound (worker_wake p)
unfolding worker_wake slow_work_thread_threshold
worker_wake-IsSound p s = record {
  one_message = s.one_message;
  scheduled = s.scheduled;
  counted = s.counted;
  within = s.within;
}

worker_finish-IsSound :
    (p : Pool) (before : List Job) (w : ℕ) (slow : Bool) (after : List Job)
    → p.jobs ≡ before ++ running w slow ∷ after
    → IsSound p
    → IsSound (worker_finish p before w slow after)
unfolding worker_finish slow_jobs slow_work_thread_threshold
worker_finish-IsSound p before w slow after here s =
    let now = slow_jobs-append before (running w slow ∷ after) in
    let later = slow_jobs-append before (returning slow ∷ after) in
    record {
      one_message = s.one_message;
      scheduled = s.scheduled;
      counted = s.counted ∙ ap slow_jobs here ∙ now ∙ sym later;
      within = s.within;
    }

worker_return-IsSound :
    (p : Pool) (before : List Job) (slow : Bool) (after : List Job)
    → p.jobs ≡ before ++ returning slow ∷ after
    → IsSound p
    → IsSound (worker_return p before slow after)
unfolding worker_return slow_jobs slow_work_thread_threshold
worker_return-IsSound p before slow after here s =
    let now = slow_jobs-append before (returning slow ∷ after) in
    let later = slow_jobs-append before after in
    let count = s.counted ∙ ap slow_jobs here in
    let bound = s.within in
    record {
      one_message = s.one_message;
      scheduled = s.scheduled;
      counted = ground arith;
      within = ground arith;
    }

uv_work_cancel-IsSound : (p : Pool) (w : ℕ) → IsSound p → IsSound (uv_work_cancel p w).1
unfolding uv_work_cancel queue_remove slow_work_thread_threshold
uv_work_cancel-IsSound p w s = elim (Bool-cases (is_linked p w && not (is_null (p.work w)))) [
  | inl can ↦
      let e = messages-unlink_item w p.wq in
      let l = length-unlink_le w p.slow_io_pending_wq in
      let one = s.one_message in
      rw can (record {
        one_message = omega arith;
        scheduled = λ none_there. let z = s.scheduled (sym e ∙ none_there) in omega arith;
        counted = s.counted;
        within = s.within;
      })
  | inr cannot ↦ rw cannot s
]

uv_work_done-IsSound : (p : Pool) → IsSound p → IsSound (uv_work_done p).1
unfolding uv_work_done slow_work_thread_threshold
uv_work_done-IsSound p s = record {
  one_message = s.one_message;
  scheduled = s.scheduled;
  counted = s.counted;
  within = s.within;
}

step-IsSound : {p q : Pool} → Step p q → IsSound p → IsSound q
step-IsSound (submit p w kind) s = uv_work_submit-IsSound p w kind s
step-IsSound (exit p) s = post_exit-IsSound p s
step-IsSound (take p) s = worker_take-IsSound p s
step-IsSound (wake p) s = worker_wake-IsSound p s
step-IsSound (finish p before w slow after here) s =
    worker_finish-IsSound p before w slow after here s
step-IsSound (return p before slow after here) s = worker_return-IsSound p before slow after here s
step-IsSound (cancel p w fresh) s = uv_work_cancel-IsSound p w s
step-IsSound (done p) s = uv_work_done-IsSound p s

-- In every pool that can be reached by critical sections of the workers, of submissions, of
-- cancellations and of the loop in any order, `run_slow_work_message` stands in `wq` at most once
-- and does so when slow work is pending, and `slow_io_work_running` is the number of workers with
-- slow work and at most `slow_work_thread_threshold()`.
pub Reachable-IsSound : (p : Pool) → Reachable p → IsSound p
Reachable-IsSound p (start val has_memory) = init_threads-IsSound val has_memory
Reachable-IsSound p (next q r reached step) = step-IsSound step (Reachable-IsSound q reached)
