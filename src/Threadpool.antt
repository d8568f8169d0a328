-- ===== src/Threadpool.antt =====
-- src/threadpool.c: the queues that the worker threads share, and cancellation.
-- A `struct uv__work` is known by its address, a number. Each function below is one critical
-- section of the code, so that an interleaving of threads is a sequence of their calls (`Steps`).
-- One loop submits all the work. The threads' creation, the condition variable and the semaphore
-- are the system's and are left out: a thread that waits may be woken at any time.
pub mod Steps
pub mod Counts
pub mod Sound
pub mod Idle
pub mod Cancel
mod Examples
use libuv.Prelude.{
  ℕ, zero, suc, ◌+◌, ◌-◌, ◌/◌, ◌^◌, ◌%◌, Bool, true, false, not, ◌&&◌, ◌||◌, Option, none, some,
  List, [], ◌∷◌, ◌++◌, ltb, leb, ◌==◌, if◌then◌else◌, length, one_if,
}
use libuv.Errno.{uv_einval, uv_ebusy, uv_ecanceled, Status, ok, failed}

-- What stands in `wq`: the queue node of some work, or one of the two messages.
pub data Item : Type 0 where
  work_item : ℕ → Item
  run_slow_work_message exit_message : Item

-- `w->work`: the function that was submitted, `NULL`, or `uv__cancelled`.
pub data Work : Type 0 where
  submitted null cancelled : Work

pub data Kind : Type 0 where
  work_cpu work_fast_io work_slow_io : Kind

-- A worker between two of its critical sections: it runs `w->work(w)`, or has put `w` on the loop's
-- queue and is about to lock `mutex`. The flag is `is_slow_work`.
pub data Job : Type 0 where
  running : ℕ → Bool → Job
  returning : Bool → Job

-- The static variables, with `loop->wq` and the memory of the works; `jobs` is the workers' part.
-- `stale` tells of a node that stands in no queue whether it still has the links that it had in one:
-- `uv__work_done` takes a node off without giving it to `uv__queue_init`.
pub record Pool : Type 0 where
  pub nthreads : ℕ
  pub idle_threads : ℕ
  pub slow_io_work_running : ℕ
  pub wq : List Item
  pub slow_io_pending_wq : List ℕ
  pub loop_wq : List ℕ
  pub work : ℕ → Work
  pub jobs : List Job
  pub stale : ℕ → Bool

pub slow_work_thread_threshold : Pool → ℕ
slow_work_thread_threshold p = (p.nthreads + 1) / 2

-- `!uv__queue_empty(&run_slow_work_message)`: it stands in `wq`.
pub is_slow_scheduled : List Item → Bool
is_slow_scheduled [] = false
is_slow_scheduled (run_slow_work_message ∷ q) = true
is_slow_scheduled (i ∷ q) = is_slow_scheduled q

-- `slow_io_work_running >= slow_work_thread_threshold()`
abbrev pub at_threshold : Pool → Bool
at_threshold p = leb (slow_work_thread_threshold p) p.slow_io_work_running

-- The test of the worker's inner `while`.
pub must_wait : Pool → Bool
must_wait p = elim p.wq [
  | [] ↦ true
  | i ∷ rest ↦ elim i [
    | run_slow_work_message ↦ elim rest [ [] ↦ at_threshold p | _ ∷ _ ↦ false ]
    | work_item w ↦ false
    | exit_message ↦ false
  ]
]

-- What a worker does after it has looked at the queues.
pub data Outcome : Type 0 where
  wait leave again : Outcome
  run : ℕ → Bool → Outcome

-- The worker takes the first slow work, if a cancellation has left one; `rest` is `wq`.
pub take_pending : Pool → List Item → List ℕ → Outcome × Pool
take_pending p rest [] = (again, record p { wq = rest })
take_pending p rest (w ∷ pending) = (
  run w true,
  record p {
    wq = elim pending [ [] ↦ rest | _ ∷ _ ↦ rest ++ run_slow_work_message ∷ [] ];
    slow_io_pending_wq = pending;
    slow_io_work_running = p.slow_io_work_running + 1;
    jobs = running w true ∷ p.jobs;
  },
)

-- From the head of `wq`, which is `rest` without it, to the end of the critical section or to
-- the next round of the `for`.
pub take_slow : Pool → List Item → Outcome × Pool
unfolding take_pending
take_slow p rest =
    if at_threshold p
    then (again, record p { wq = rest ++ run_slow_work_message ∷ [] })
    else take_pending p rest p.slow_io_pending_wq

pub take_head : Pool → List Item → Outcome × Pool
unfolding take_slow
take_head p [] = (wait, p)
take_head p (exit_message ∷ rest) = (leave, p)
take_head p (work_item w ∷ rest) =
    (run w false, record p { wq = rest; jobs = running w false ∷ p.jobs })
take_head p (run_slow_work_message ∷ rest) = take_slow p rest

pub worker_take : Pool → Outcome × Pool
worker_take p =
    if must_wait p then (wait, record p { idle_threads = p.idle_threads + 1 }) else take_head p p.wq

-- The thread that waits goes on: `idle_threads -= 1`.
pub worker_wake : Pool → Pool
worker_wake p = record p { idle_threads = p.idle_threads - 1 }

-- Under the loop's mutex, after `w->work(w)`.
pub worker_finish : Pool → List Job → ℕ → Bool → List Job → Pool
worker_finish p before w slow after = record p {
  work = λ k. if k == w then null else p.work k;
  loop_wq = p.loop_wq ++ w ∷ [];
  jobs = before ++ returning slow ∷ after;
}

-- Under `mutex` again, before the next round.
pub worker_return : Pool → List Job → Bool → List Job → Pool
worker_return p before slow after = record p {
  slow_io_work_running = if slow then p.slow_io_work_running - 1 else p.slow_io_work_running;
  jobs = before ++ after;
}

pub post : Pool → ℕ → Kind → Pool
post p w work_slow_io =
    let queued = record p { slow_io_pending_wq = p.slow_io_pending_wq ++ w ∷ [] } in
    if is_slow_scheduled p.wq
    then queued
    else record queued { wq = p.wq ++ run_slow_work_message ∷ [] }
post p w _ = record p { wq = p.wq ++ work_item w ∷ [] }

-- `post(&exit_message, UV__WORK_CPU)`, by which `uv__threadpool_cleanup` ends the threads.
pub post_exit : Pool → Pool
post_exit p = record p { wq = p.wq ++ exit_message ∷ [] }

pub uv_work_submit : Pool → ℕ → Kind → Pool
unfolding post
uv_work_submit p w kind =
    post
      (record p {
        work = λ k. if k == w then submitted else p.work k;
        stale = λ k. if k == w then false else p.stale k;
      })
      w kind

-- `nthreads`, from the value of `UV_THREADPOOL_SIZE`, if it is set, as `atoi` reads it into an
-- `unsigned int`; and the threads that run, if the memory for them may be missing.
pub init_threads_count : Option ℕ → Bool → ℕ
init_threads_count val has_memory =
    let asked : ℕ = elim val [ none ↦ 4 | some n ↦ n ] in
    let some_thread = if asked == 0 then 1 else asked in
    let most = if ltb 1024 some_thread then 1024 else some_thread in
    if ltb 4 most && not has_memory then 4 else most

-- `idle_threads` and `slow_io_work_running` are left as they are.
pub init_threads : Pool → Option ℕ → Bool → Pool
unfolding init_threads_count
init_threads p val has_memory = record p {
  nthreads = init_threads_count val has_memory;
  wq = [];
  slow_io_pending_wq = [];
  jobs = [];
}

-- The static variables when the process starts.
abbrev pub unstarted : Pool
unstarted = record {
  nthreads = 0;
  idle_threads = 0;
  slow_io_work_running = 0;
  wq = [];
  slow_io_pending_wq = [];
  loop_wq = [];
  work = λ _. null;
  jobs = [];
  stale = λ _. false;
}

-- The queue without a node, and whether the node is in it.
pub mem : ℕ → List ℕ → Bool
mem w [] = false
mem w (k ∷ q) = k == w || mem w q

pub unlink : ℕ → List ℕ → List ℕ
unlink w [] = []
unlink w (k ∷ q) = if k == w then q else k ∷ unlink w q

pub mem_item : ℕ → List Item → Bool
mem_item w [] = false
mem_item w (work_item k ∷ q) = k == w || mem_item w q
mem_item w (i ∷ q) = mem_item w q

pub unlink_item : ℕ → List Item → List Item
unlink_item w [] = []
unlink_item w (work_item k ∷ q) = if k == w then q else work_item k ∷ unlink_item w q
unlink_item w (i ∷ q) = i ∷ unlink_item w q

-- `!uv__queue_empty(&w->wq)`: the node stands in one of the three queues, or has the links of one.
pub is_linked : Pool → ℕ → Bool
unfolding mem mem_item
is_linked p w = mem_item w p.wq || (mem w p.slow_io_pending_wq || (mem w p.loop_wq || p.stale w))

-- `uv__queue_remove(&w->wq)`, from whichever queue it stands in. A stale node, whose neighbours are
-- on the stack of a call that has returned, must not be given to it.
pub queue_remove : Pool → ℕ → Pool
unfolding unlink unlink_item
queue_remove p w = record p {
  wq = unlink_item w p.wq;
  slow_io_pending_wq = unlink w p.slow_io_pending_wq;
  loop_wq = unlink w p.loop_wq;
}

abbrev pub is_null : Work → Bool
is_null null = true
is_null submitted = false
is_null cancelled = false

-- The second critical section is entered at once: between the two nobody else has the node.
pub uv_work_cancel : Pool → ℕ → Status × Pool
unfolding is_linked queue_remove
uv_work_cancel p w =
    if is_linked p w && not (is_null (p.work w))
    then (
      ok,
      record (queue_remove p w) {
        work = λ k. if k == w then cancelled else p.work k;
        loop_wq = unlink w p.loop_wq ++ w ∷ [];
        stale = λ k. if k == w then false else p.stale k;
      },
    )
    else (failed uv_ebusy, p)

-- The `err` that `done` is called with.
pub done_status : Work → Status
done_status cancelled = failed uv_ecanceled
done_status submitted = ok
done_status null = ok

-- The calls `w->done(w, err)` that `uv__work_done` makes for the works on the loop's queue.
pub done_calls : (ℕ → Work) → List ℕ → List (ℕ × Status)
unfolding done_status
done_calls work [] = []
done_calls work (w ∷ q) = (w, done_status (work w)) ∷ done_calls work q

pub uv_work_done : Pool → List (ℕ × Status) × Pool
unfolding done_calls mem
uv_work_done p = (
  done_calls p.work p.loop_wq,
  record p { loop_wq = []; stale = λ k. mem k p.loop_wq || p.stale k },
)

-- The requests that `uv_cancel` takes.
pub data ReqType : Type 0 where
  uv_fs uv_getaddrinfo uv_getnameinfo uv_random uv_work uv_other_req : ReqType

pub uv_cancel : Pool → ReqType → ℕ → Status × Pool
unfolding uv_work_cancel
uv_cancel p uv_other_req w = (failed uv_einval, p)
uv_cancel p _ w = uv_work_cancel p w
