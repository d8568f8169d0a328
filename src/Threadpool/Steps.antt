-- ===== src/Threadpool/Steps.antt =====
-- src/threadpool.c: the interleavings of the threads, as sequences of their critical sections.
use libuv.Prelude.{ℕ, ◌≡◌, Bool, false, Option, List, ◌∷◌, ◌++◌}
use libuv.Threadpool.{
  Pool, Kind, Job, running, returning, worker_take, worker_wake, worker_finish, worker_return,
  uv_work_submit, post_exit, uv_work_cancel, uv_work_done, init_threads, unstarted,
}

-- One thread's critical section: a submission, the end of the pool, a worker's, a cancellation, or
-- the loop's `uv__work_done`. A work is cancelled only until its `done` is called.
pub data Step : Pool → Pool → Type 0 where
  submit : (p : Pool) (w : ℕ) (kind : Kind) → Step p (uv_work_submit p w kind)
  exit : (p : Pool) → Step p (post_exit p)
  take : (p : Pool) → Step p (worker_take p).1
  wake : (p : Pool) → Step p (worker_wake p)
  finish :
      (p : Pool) (before : List Job) (w : ℕ) (slow : Bool) (after : List Job)
      → p.jobs ≡ before ++ running w slow ∷ after
      → Step p (worker_finish p before w slow after)
  return :
      (p : Pool) (before : List Job) (slow : Bool) (after : List Job)
      → p.jobs ≡ before ++ returning slow ∷ after
      → Step p (worker_return p before slow after)
  cancel : (p : Pool) (w : ℕ) → p.stale w ≡ false → Step p (uv_work_cancel p w).1
  done : (p : Pool) → Step p (uv_work_done p).1

-- What the pool can come to from its initialisation, in a process that does not fork.
pub data Reachable : Pool → Type 0 where
  start : (val : Option ℕ) (has_memory : Bool) → Reachable (init_threads unstarted val has_memory)
  next : (p q : Pool) → Reachable p → Step p q → Reachable q
