-- ===== src/Threadpool/Cancel.antt =====
-- src/threadpool.c: what `uv__work_cancel` and `uv__work_done` do with a work.
use libuv.Prelude.{
  ℕ, ◌+◌, ◌≤◌, true, false, List, [], ◌∷◌, ◌++◌, arith, ap, refl, ◌∙◌, ◌≡◌, ◌⊎◌, inl, inr, ◌==◌,
  if◌then◌else◌, Bool-cases, one_if,
}
use libuv.Errno.{uv_ebusy, uv_ecanceled, Status, ok, failed}
use libuv.Threadpool.{
  Pool, Item, work_item, run_slow_work_message, exit_message, Work, cancelled, mem, mem_item,
  unlink, unlink_item, is_linked, queue_remove, is_null, uv_work_cancel, uv_work_done, done_calls,
  done_status,
}

-- How often the node of a work stands in a queue.
unfoldable pub times : ℕ → List ℕ → ℕ
times w [] = 0
times w (k ∷ q) = one_if (k == w) + times w q

unfoldable pub times_item : ℕ → List Item → ℕ
times_item w [] = 0
times_item w (work_item k ∷ q) = one_if (k == w) + times_item w q
times_item w (run_slow_work_message ∷ q) = times_item w q
times_item w (exit_message ∷ q) = times_item w q

mem-none : (w : ℕ) (q : List ℕ) → times w q ≡ 0 → mem w q ≡ false
unfolding times mem
mem-none w [] h = refl
mem-none w (k ∷ q) h = let e = mem-none w q in ground arith

mem_item-none : (w : ℕ) (q : List Item) → times_item w q ≡ 0 → mem_item w q ≡ false
unfolding times_item mem_item
mem_item-none w [] h = refl
mem_item-none w (work_item k ∷ q) h = let e = mem_item-none w q in ground arith
mem_item-none w (run_slow_work_message ∷ q) h = mem_item-none w q h
mem_item-none w (exit_message ∷ q) h = mem_item-none w q h

mem-unlink : (w : ℕ) (q : List ℕ) → times w q ≤ 1 → mem w (unlink w q) ≡ false
unfolding times mem unlink
mem-unlink w [] h = refl
mem-unlink w (k ∷ q) h = elim (Bool-cases (k == w)) [
  | inl same ↦ rw same (mem-none w q (let t : 1 + times w q ≤ 1 = rw same at h in omega arith))
  | inr other ↦
      rw other
        (rw other (mem-unlink w q (let t : 0 + times w q ≤ 1 = rw other at h in omega arith)))
]

mem_item-unlink_item :
    (w : ℕ) (q : List Item) → times_item w q ≤ 1 → mem_item w (unlink_item w q) ≡ false
unfolding times_item mem_item unlink_item
mem_item-unlink_item w [] h = refl
mem_item-unlink_item w (work_item k ∷ q) h = elim (Bool-cases (k == w)) [
  | inl same ↦
      rw same (mem_item-none w q (let t : 1 + times_item w q ≤ 1 = rw same at h in omega arith))
  | inr other ↦ rw other (
      rw other
        (mem_item-unlink_item w q (let t : 0 + times_item w q ≤ 1 = rw other at h in omega arith)))
]
mem_item-unlink_item w (run_slow_work_message ∷ q) h = mem_item-unlink_item w q h
mem_item-unlink_item w (exit_message ∷ q) h = mem_item-unlink_item w q h

done_calls-append :
    (work : ℕ → Work) (a b : List ℕ)
    → done_calls work (a ++ b) ≡ done_calls work a ++ done_calls work b
unfolding done_calls
done_calls-append work [] b = refl
done_calls-append work (w ∷ a) b =
    ap (λ cs. (w, done_status (work w)) ∷ cs) (done_calls-append work a b)

done_calls-last :
    (work : ℕ → Work) (w : ℕ) (q : List ℕ)
    → work w ≡ cancelled
    → done_calls work (q ++ w ∷ []) ≡ done_calls work q ++ (w, failed uv_ecanceled) ∷ []
unfolding done_calls done_status
done_calls-last work w q h =
    done_calls-append work q (w ∷ []) ∙ ap (λ a. done_calls work q ++ (w, done_status a) ∷ []) h

-- No worker can take the work any more, and the loop's next `uv__work_done` ends with the call of
-- `done` that says it was cancelled.
pub record Cancelled (q : Pool) (w : ℕ) : Type 0 where
  not_queued : mem_item w q.wq ≡ false
  not_pending : mem w q.slow_io_pending_wq ≡ false
  earlier : List ℕ
  told : (uv_work_done q).0 ≡ done_calls q.work earlier ++ (w, failed uv_ecanceled) ∷ []
  told_once : mem w earlier ≡ false

-- The two ends of a cancellation.
pub CancelOutcome : Pool → ℕ → Status × Pool → Type 0
CancelOutcome p w (ok, q) = (is_linked p w ≡ true) × (is_null (p.work w) ≡ false) × Cancelled q w
CancelOutcome p w (failed e, q) =
    (e ≡ uv_ebusy) × (q ≡ p) × ((is_linked p w ≡ false) ⊎ (is_null (p.work w) ≡ true))

-- For a work whose `done` has not been called since it was submitted, and whose node stands in at
-- most one of the queues and at most once: `uv__work_cancel`
-- succeeds if the node is in a queue and `w->work` is not NULL, and then the node is in neither of
-- the workers' queues and `uv__work_done` calls `done` for it once, last, with UV_ECANCELED;
-- otherwise it returns UV_EBUSY and changes nothing.
pub uv_work_cancel-CancelOutcome :
    (p : Pool) (w : ℕ)
    → p.stale w ≡ false
    → times_item w p.wq + times w p.slow_io_pending_wq + times w p.loop_wq ≤ 1
    → CancelOutcome p w (uv_work_cancel p w)
unfolding uv_work_cancel CancelOutcome queue_remove uv_work_done
uv_work_cancel-CancelOutcome p w fresh once = elim (Bool-cases (is_linked p w)) [
  | inl linked ↦ elim (Bool-cases (is_null (p.work w))) [
    | inl gone ↦ rw (linked, gone) (refl, refl, inr gone)
    | inr there ↦
        rw (linked, there)
          (
            linked,
            there,
            record {
              not_queued = mem_item-unlink_item w p.wq (omega arith);
              not_pending = mem-unlink w p.slow_io_pending_wq (omega arith);
              earlier = unlink w p.loop_wq;
              told =
                  done_calls-last (λ k. if k == w then cancelled else p.work k) w
                    (unlink w p.loop_wq) (ground arith);
              told_once = mem-unlink w p.loop_wq (omega arith);
            },
          )
  ]
  | inr free ↦ rw free (refl, refl, inl free)
]
