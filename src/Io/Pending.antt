-- ===== src/Io/Pending.antt =====
-- src/unix/core.c: `uv__run_pending`.
use mathlib.Core.List.{Sublistᴰ}
use mathlib.Core.Path.{subst}
use libuv.Prelude.{
  ◌∙◌, length-Sublistᴰ, Sublistᴰ-trans, ℕ, zero, suc, ◌+◌, ◌≤◌, ◌<◌, ◌≡◌, refl, sym, ap, Option,
  none, some, List, [], ◌∷◌, length, arith,
}
use libuv.Queue.{occurs}
use libuv.Io.{Loop}
use libuv.Io.Valid.{IsValid}

-- The body of the loop: the watcher leaves the local queue, then its callback runs.
abbrev pub pending_step : (ℕ → Loop → Loop) → Loop → ℕ → List ℕ → Loop
pending_step io_cb l w rest = io_cb w (record l { pq = rest })

-- The loop over the local queue; `none` if the fuel is used up.
pub run_queue : (ℕ → Loop → Loop) → ℕ → Loop → Option Loop
run_queue io_cb zero l = none
run_queue io_cb (suc fuel) l = elim l.pq [
  | [] ↦ some l
  | w ∷ rest ↦ run_queue io_cb fuel (pending_step io_cb l w rest)
]

pub run_pending : (ℕ → Loop → Loop) → ℕ → Loop → Option Loop
unfolding run_queue
run_pending io_cb fuel l =
    run_queue io_cb fuel (record l { pq = l.pending_queue; pending_queue = [] })

-- What is asked of the callbacks: they leave a valid loop valid, and at most take watchers out of the
-- local queue, of which they know nothing.
pub record Behaves (io_cb : ℕ → Loop → Loop) : Type 0 where
  pub keeps : (w : ℕ) (l : Loop) → IsValid l → IsValid (io_cb w l)
  pub removes : (w : ℕ) (l : Loop) → Sublistᴰ (io_cb w l).pq l.pq

-- The rounds over the local queue, and the watchers that they call, in order: each round takes the
-- head off, and then calls its callback.
pub data Calls (io_cb : ℕ → Loop → Loop) : Loop → List ℕ → Loop → Type 0 where
  done : (l : Loop) → l.pq ≡ [] → Calls io_cb l [] l
  next :
      (l end : Loop) (w : ℕ) (rest calls : List ℕ)
      → l.pq ≡ w ∷ rest
      → Calls io_cb (io_cb w (record l { pq = rest })) calls end
      → Calls io_cb l (w ∷ calls) end

-- `uv__queue_move(&loop->pending_queue, &pq)`
abbrev pub moved : Loop → Loop
moved l = record l { pq = l.pending_queue; pending_queue = [] }

moved-IsValid :
    (l : Loop) (pending pq : List ℕ)
    → ((w : ℕ) → occurs w pending + occurs w pq ≤ 1)
    → IsValid l
    → IsValid (record l { pending_queue = pending; pq = pq })
moved-IsValid l pending pq once v = record {
  sized = v.sized;
  bounded = v.bounded;
  counted = v.counted;
  placed = v.placed;
  awaited = v.awaited;
  queued = v.queued;
  wanted = v.wanted;
  pending = once;
}

-- What the rounds come to.
pub record Ran (io_cb : ℕ → Loop → Loop) (l : Loop) (calls : List ℕ) (end : Loop) : Type 0 where
  pub ran : Calls io_cb l calls end
  pub in_order : Sublistᴰ calls l.pq
  pub valid : IsValid end
  pub empty : end.pq ≡ []

run_queue-empty :
    (io_cb : ℕ → Loop → Loop) (fuel : ℕ) (l : Loop)
    → l.pq ≡ []
    → run_queue io_cb (suc fuel) l ≡ some l
unfolding run_queue
run_queue-empty io_cb fuel l at =
    let same : record l { pq = [] } ≡ l = ap (λ q. record l { pq = q }) (sym at) in
    ap (run_queue io_cb (suc fuel)) (sym same) ∙ ap some same

run_queue-next :
    (io_cb : ℕ → Loop → Loop) (fuel : ℕ) (l : Loop) (w : ℕ) (rest : List ℕ)
    → l.pq ≡ w ∷ rest
    → run_queue io_cb (suc fuel) l ≡ run_queue io_cb fuel (io_cb w (record l { pq = rest }))
unfolding run_queue
run_queue-next io_cb fuel l w rest at = rw (at, run_queue) refl

run_queue-Ran :
    (io_cb : ℕ → Loop → Loop) (fuel : ℕ) (l : Loop) (pq : List ℕ)
    → Behaves io_cb
    → l.pq ≡ pq
    → length pq < fuel
    → IsValid l
    → (calls : List ℕ) × (end : Loop) × (run_queue io_cb fuel l ≡ some end) × Ran io_cb l calls end
run_queue-Ran io_cb zero l pq behaves at lt v = absurd (omega arith)
run_queue-Ran io_cb (suc fuel) l [] behaves at lt v = (
  [],
  l,
  run_queue-empty io_cb fuel l at,
  record {
    ran = done l at;
    in_order = subst (Sublistᴰ []) (sym at) Sublistᴰ.slnil;
    valid = v;
    empty = at;
  },
)
run_queue-Ran io_cb (suc fuel) l (w ∷ rest) behaves at lt v =
    let popped = record l { pq = rest } in
    let taken =
      moved-IsValid l l.pending_queue rest (λ k. ground (arith, v.pending k, ap (occurs k) at)) v in
    let after = io_cb w popped in
    let left = behaves.removes w popped in
    let (calls, end, run, r) =
      run_queue-Ran io_cb fuel after after.pq behaves refl
        (omega (arith, length-Sublistᴰ after.pq rest left)) (behaves.keeps w popped taken) in
    (
      w ∷ calls,
      end,
      run_queue-next io_cb fuel l w rest at ∙ run,
      record {
        ran = next l end w rest calls at r.ran;
        in_order =
            subst (Sublistᴰ (w ∷ calls)) (sym at)
              (Sublistᴰ.cons-cons refl (Sublistᴰ-trans calls after.pq rest r.in_order left));
        valid = r.valid;
        empty = r.empty;
      },
    )

-- From a valid loop whose local queue is empty, and with callbacks that keep the loop valid and at
-- most take watchers out of the local queue, `uv__run_pending` ends, whatever they feed meanwhile. It
-- takes the watchers that were pending off one by one, in their order, and calls the callback of each
-- that is still in the queue then, once. It leaves a valid loop with an empty local queue.
pub run_pending-Ran :
    (io_cb : ℕ → Loop → Loop) (l : Loop)
    → Behaves io_cb
    → IsValid l
    → l.pq ≡ []
    → (calls : List ℕ) × (end : Loop) × (run_pending io_cb (length l.pending_queue + 1) l
        ≡ some end)
      × Ran io_cb (moved l) calls end
unfolding run_pending
run_pending-Ran io_cb l behaves v at =
    run_queue-Ran io_cb (length l.pending_queue + 1) (moved l) l.pending_queue behaves refl
      (omega arith) (moved-IsValid l [] l.pending_queue (λ k. omega (arith, v.pending k)) v)
