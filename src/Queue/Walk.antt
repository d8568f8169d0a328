-- ===== src/Queue/Walk.antt =====
-- src/queue.h: `uv__queue_foreach`, the walk over a queue, and what the queries read.
use libuv.Prelude.{
  ℕ, zero, suc, ◌<◌, ◌≡◌, refl, true, false, Option, none, some, List, [], ◌∷◌, ◌==◌, ◌>>=◌,
  if◌then◌else◌, length, arith,
}
use mathlib.Core.Path.{subst}
use libuv.Queue.{occurs}
use libuv.Queue.Links.{Links, queue_empty, queue_next}
use libuv.Queue.Ring.{Linked}
use libuv.Queue.Moves.{Once}
use libuv.Queue.Rings.{Op, Rings, find_ring, perform_all, carry_out_all, Represents}
use libuv.Queue.Finding.{OrNone, Found, find_ring-Found}
use libuv.Queue.Refines.{carry_out_all-Represents}

-- The nodes from `q` on up to the head `h`; `none` without fuel.
pub foreach_from : Links → ℕ → ℕ → ℕ → Option (List ℕ)
unfolding queue_next
foreach_from s h zero q = none
foreach_from s h (suc fuel) q =
    let rest = foreach_from s h fuel (queue_next s q) in
    if q == h then some [] else (rest >>= λ qs. some (q ∷ qs))

pub queue_foreach : ℕ → Links → ℕ → Option (List ℕ)
unfolding queue_next
queue_foreach fuel s h = foreach_from s h fuel (queue_next s h)

foreach_from-Linked :
    (s : Links) (h a : ℕ) (l : List ℕ) (fuel : ℕ)
    → occurs h l ≡ 0
    → length l < fuel
    → Linked s a l h
    → foreach_from s h fuel (s.next a) ≡ some l
unfolding foreach_from queue_next
foreach_from-Linked s h a l zero apart lt linked = absurd (omega arith)
foreach_from-Linked s h a [] (suc fuel) apart lt linked =
    let here : (s.next a == h) ≡ true = ground arith in rw here refl
foreach_from-Linked s h a (x ∷ l) (suc fuel) apart lt linked =
    let there : (x == h) ≡ false = ground arith in
    rw (linked.0, there, foreach_from-Linked s h x l fuel (omega arith) (omega arith) linked.2) refl

queue_empty-Linked :
    (t : Links) (h : ℕ) (l : List ℕ)
    → Once (h ∷ l)
    → Linked t h l h
    → queue_empty t h ≡ (length l == 0)
unfolding queue_empty
queue_empty-Linked t h [] once linked = ground arith
queue_empty-Linked t h (x ∷ l) once linked = ground (arith, once h)

-- After any run of operations that the abstract view allows, the walk over each queue ends, and
-- visits the nodes that the abstract run leaves there, in their order; `uv__queue_empty` says
-- whether there are any.
pub queue_foreach-carry_out_all :
    (os : List Op) (s : Links) (rs after : Rings) (h : ℕ) (l : List ℕ) (others : Rings) (fuel : ℕ)
    → Represents s rs
    → perform_all os rs ≡ some after
    → find_ring h after ≡ some (l, others)
    → length l < fuel
    → (queue_foreach fuel (carry_out_all os s) h ≡ some l)
      × (queue_empty (carry_out_all os s) h ≡ (length l == 0))
unfolding queue_foreach queue_next
queue_foreach-carry_out_all os s rs after h l others fuel valid run is_there lt =
    let t = carry_out_all os s in
    let end = carry_out_all-Represents os s rs after valid run in
    let found : Found t after h l others =
      subst (λ m. OrNone (λ (f : List ℕ × Rings). Found t after h f.0 f.1) m) is_there
        (find_ring-Found t h after end.linked) in
    let once : Once (h ∷ l) = λ k. omega (arith, end.apart k, found.parts k) in
    (
      foreach_from-Linked t h h l fuel (ground (arith, once h)) lt found.one,
      queue_empty-Linked t h l once found.one,
    )
