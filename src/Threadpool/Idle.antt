-- ===== src/Threadpool/Idle.antt =====
-- src/threadpool.c: when the inner `while` of `worker` lets a thread wait.
use libuv.Prelude.{
  ℕ, true, false, List, [], ◌∷◌, arith, ap, refl, ◌∙◌, ◌≡◌, ◌⊎◌, ◌≢◌, inl, inr, length, Bool-cases,
}
use libuv.Threadpool.{
  Pool, Item, work_item, run_slow_work_message, exit_message, wait, again,
  slow_work_thread_threshold, at_threshold, must_wait, worker_take, take_head, take_slow,
  take_pending, mem_item,
}
use libuv.Threadpool.Counts.{messages, slow_jobs}
use libuv.Threadpool.Sound.{IsSound, Reachable-IsSound}
use libuv.Threadpool.Steps.{Reachable}

-- The two states of `wq` in which a worker waits.
Idle : Pool → List Item → Type 0
Idle p q = (q ≡ []) ⊎ ((q ≡ run_slow_work_message ∷ []) × (at_threshold p ≡ true))

must_wait-Idle : (p : Pool) (q : List Item) → p.wq ≡ q → must_wait p ≡ true → Idle p q
unfolding Idle must_wait slow_work_thread_threshold
must_wait-Idle p [] head h = inl refl
must_wait-Idle p (run_slow_work_message ∷ []) head h = inr (refl, rw head at h)
must_wait-Idle p (run_slow_work_message ∷ _ ∷ _) head h = let f : false ≡ true = rw head at h in cc
must_wait-Idle p (work_item w ∷ q) head h = let f : false ≡ true = rw head at h in cc
must_wait-Idle p (exit_message ∷ q) head h = let f : false ≡ true = rw head at h in cc

take_pending-goes :
    (p : Pool) (rest : List Item) (pending : List ℕ) → (take_pending p rest pending).0 ≢ wait
unfolding take_pending
take_pending-goes p rest [] h = cc
take_pending-goes p rest (w ∷ pending) h = cc

take_slow-goes : (p : Pool) (rest : List Item) → (take_slow p rest).0 ≢ wait
unfolding take_slow
take_slow-goes p rest h = elim (Bool-cases (at_threshold p)) [
  | inl full ↦ let f : again ≡ wait = rw full at h in cc
  | inr free ↦ take_pending-goes p rest p.slow_io_pending_wq (rw free at h)
]

take_head-Idle : (p : Pool) (q : List Item) → (take_head p q).0 ≡ wait → Idle p q
unfolding Idle take_head
take_head-Idle p [] h = inl refl
take_head-Idle p (run_slow_work_message ∷ rest) h = absurd (take_slow-goes p rest h)
take_head-Idle p (work_item w ∷ q) h = cc
take_head-Idle p (exit_message ∷ q) h = cc

worker_take-Idle : (p : Pool) → (worker_take p).0 ≡ wait → Idle p p.wq
unfolding worker_take
worker_take-Idle p h = elim (Bool-cases (must_wait p)) [
  | inl waits ↦ must_wait-Idle p p.wq refl waits
  | inr goes ↦ take_head-Idle p p.wq (rw goes at h)
]

none_left :
    (p : Pool) (w : ℕ)
    → IsSound p
    → (q : List Item) → p.wq ≡ q
    → Idle p q
    → (mem_item w p.wq ≡ false)
      × ((length p.slow_io_pending_wq ≡ 0) ⊎ (slow_jobs p.jobs ≡ slow_work_thread_threshold p))
unfolding Idle mem_item messages
none_left p w s q head (inl nothing) =
    let e = head ∙ nothing in (ap (mem_item w) e, inl (s.scheduled (ap messages e)))
none_left p w s q head (inr alone) =
    let e = head ∙ alone.0 in
    let count = s.counted in
    let bound = s.within in let full = alone.1 in (ap (mem_item w) e, inr (ground arith))

-- A worker that waits, in a pool that can be reached, leaves nothing that it may run: the node of
-- no work stands in `wq`, and either no slow work is pending, or as many workers have slow work as
-- the threshold allows.
pub worker_take-leaves :
    (p : Pool) (w : ℕ)
    → Reachable p
    → (worker_take p).0 ≡ wait
    → (mem_item w p.wq ≡ false)
      × ((length p.slow_io_pending_wq ≡ 0) ⊎ (slow_jobs p.jobs ≡ slow_work_thread_threshold p))
worker_take-leaves p w reached waits =
    none_left p w (Reachable-IsSound p reached) p.wq refl (worker_take-Idle p waits)
