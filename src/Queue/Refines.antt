-- ===== src/Queue/Refines.antt =====
-- src/queue.h: the operations on the links do what the operations on the lists of nodes say.
use libuv.Prelude.{ℕ, ◌<◌, ◌≡◌, sym, Option, some, List, [], ◌∷◌, ◌++◌, ◌>>=◌, bind-eq-some, arith}
use mathlib.Core.Path.{subst}
use libuv.Queue.{erase, occurs, occurs-erase}
use libuv.Queue.Links.{
  Links, queue_init, queue_add, queue_move, queue_insert_head, queue_insert_tail, queue_remove,
}
use libuv.Queue.Moves.{
  Once, occurs-two, queue_init-Linked, queue_insert_head-Linked, queue_insert_tail-Linked,
  queue_remove-Linked, queue_move-Linked, queue_add-Linked,
}
use libuv.Queue.Rings.{
  Op, init, insert_head, insert_tail, remove, move, add, forget, Rings, count, find_ring, find_node,
  unused, perform, carry_out, perform_all, carry_out_all, AllLinked, Represents,
}
use libuv.Queue.Finding.{
  AllLinked-same, Found, OrNone, OrNone-bind, find_ring-Found, FoundNode, find_node-Found,
  unused-Unused,
}
use libuv.Queue.Frames.{
  queue_init-Same, queue_insert_head-Same, queue_insert_tail-Same, queue_remove-Same,
  queue_move-Same, queue_add-Same,
}

queue_init-Represents :
    (s : Links) (rs : Rings) (q : ℕ)
    → Represents s rs
    → count q rs ≡ 0
    → Represents (queue_init s q) ((q, []) ∷ rs)
queue_init-Represents s rs q valid fresh = record {
  apart = λ k. ground (arith, valid.apart k, fresh);
  linked = (
    queue_init-Linked s q,
    AllLinked-same s (queue_init s q) rs (λ k lt. queue_init-Same s q k (ground (arith, fresh)))
        valid.linked,
  );
}

-- Facts on one queue and a node that is in none.
module _ (s : Links) (rs : Rings) (h : ℕ) (q : ℕ) (l : List ℕ) (others : Rings)
    (valid : Represents s rs) (fresh : count q rs ≡ 0) (found : Found s rs h l others) where
  once : Once (h ∷ l)
  once k = omega (arith, valid.apart k, found.parts k)

  not_inside : occurs q (h ∷ l) ≡ 0
  not_inside = omega (arith, fresh, found.parts q)

  elsewhere : (k : ℕ) → 0 < count k others → occurs k (h ∷ q ∷ l) ≡ 0
  elsewhere k lt = ground (arith, lt, valid.apart k, found.parts k, fresh)

  queue_insert_head-Represents : Represents (queue_insert_head s h q) ((h, q ∷ l) ∷ others)
  queue_insert_head-Represents = record {
    apart = λ k. ground (arith, valid.apart k, found.parts k, fresh);
    linked = (
      queue_insert_head-Linked s h q l once not_inside found.one,
      AllLinked-same s (queue_insert_head s h q) others
          (λ k lt. queue_insert_head-Same s h q l k found.one (elsewhere k lt)) found.rest,
    );
  }

  queue_insert_tail-Represents : Represents (queue_insert_tail s h q) ((h, l ++ q ∷ []) ∷ others)
  queue_insert_tail-Represents = record {
    apart = λ k. ground (arith, occurs-two k l (q ∷ []), valid.apart k, found.parts k, fresh);
    linked = (
      queue_insert_tail-Linked s h q l once not_inside found.one,
      AllLinked-same s (queue_insert_tail s h q) others
          (λ k lt. queue_insert_tail-Same s h q l k found.one (elsewhere k lt)) found.rest,
    );
  }

  queue_move-Represents : Represents (queue_move s h q) ((q, l) ∷ (h, []) ∷ others)
  queue_move-Represents =
      let (moved, left) = queue_move-Linked s h q l once not_inside found.one in
      record {
        apart = λ k. ground (arith, valid.apart k, found.parts k, fresh);
        linked = (
          moved,
          (
            left,
            AllLinked-same s (queue_move s h q) others
                (λ k lt. queue_move-Same s h q l k found.one (elsewhere k lt)) found.rest,
          ),
        );
      }

queue_remove-Represents :
    (s : Links) (rs : Rings) (q h : ℕ) (l : List ℕ) (others : Rings)
    → Represents s rs
    → FoundNode s rs q h l others
    → Represents (queue_remove s q) ((h, erase q l) ∷ others)
queue_remove-Represents s rs q h l others valid found =
    let once : Once (h ∷ l) = λ k. omega (arith, valid.apart k, found.ring.parts k) in
    let fewer = λ (k : ℕ). occurs-erase q k l (omega (arith, once q)) in
    record {
      apart = λ k. ground (arith, valid.apart k, found.ring.parts k, fewer k);
      linked = (
        queue_remove-Linked s h q l once found.inside found.ring.one,
        AllLinked-same s (queue_remove s q) others
            (λ k lt.
              queue_remove-Same s h q l k found.inside found.ring.one
                (omega (arith, lt, valid.apart k, found.ring.parts k)))
            found.ring.rest,
      );
    }

queue_add-Represents :
    (s : Links) (rs : Rings) (h n : ℕ) (l m : List ℕ) (others rest : Rings)
    → Represents s rs
    → Found s rs n m others
    → Found s others h l rest
    → Represents (queue_add s h n) ((h, l ++ m) ∷ rest)
queue_add-Represents s rs h n l m others rest valid second first = record {
  apart = λ k. ground (arith, occurs-two k l m, valid.apart k, second.parts k, first.parts k);
  linked = (
    queue_add-Linked s h n l m (λ k. omega (arith, valid.apart k, second.parts k, first.parts k))
        (λ k. omega (arith, valid.apart k, second.parts k))
        (λ k lt. omega (arith, valid.apart k, second.parts k, first.parts k)) first.one second.one,
    AllLinked-same s (queue_add s h n) rest
        (λ k lt.
          queue_add-Same s h n l m k first.one second.one
            (omega (arith, lt, valid.apart k, second.parts k, first.parts k))
            (omega (arith, lt, valid.apart k, second.parts k, first.parts k)))
        first.rest,
  );
}

module _ (P : Rings → Type 0) where
  with_unused :
      (q : ℕ) (rs : Rings) (f : Rings → Option Rings)
      → (count q rs ≡ 0 → OrNone P (f rs))
      → OrNone P (unused q rs >>= f)
  with_unused q rs f next =
      OrNone-bind (λ free. (free ≡ rs) × (count q rs ≡ 0)) P (unused q rs) f (unused-Unused q rs)
        (λ free (same, fresh). subst (λ rs. OrNone P (f rs)) (sym same) (next fresh))

  with_ring :
      (s : Links) (h : ℕ) (rs : Rings) (f : List ℕ × Rings → Option Rings)
      → AllLinked s rs
      → ((l : List ℕ) (others : Rings) → Found s rs h l others → OrNone P (f (l, others)))
      → OrNone P (find_ring h rs >>= f)
  with_ring s h rs f linked next =
      OrNone-bind (λ (r : List ℕ × Rings). Found s rs h r.0 r.1) P (find_ring h rs) f
        (find_ring-Found s h rs linked) (λ r found. next r.0 r.1 found)

-- One operation: the links stay those of the queues, as the abstract operation has them.
pub perform-Represents :
    (o : Op) (s : Links) (rs : Rings)
    → Represents s rs
    → OrNone (λ after. Represents (carry_out o s) after) (perform o rs)
unfolding perform carry_out
perform-Represents (init q) s rs valid =
    with_unused (λ after. Represents (queue_init s q) after) q rs (λ free. some ((q, []) ∷ free))
      (λ fresh. queue_init-Represents s rs q valid fresh)
perform-Represents (insert_head h q) s rs valid =
    let P = λ (after : Rings). Represents (queue_insert_head s h q) after in
    let f = λ (r : List ℕ × Rings). some ((h, q ∷ r.0) ∷ r.1) in
    with_unused P q rs (λ free. find_ring h free >>= f)
      (λ fresh.
        with_ring P s h rs f valid.linked
          (λ l others found. queue_insert_head-Represents s rs h q l others valid fresh found))
perform-Represents (insert_tail h q) s rs valid =
    let P = λ (after : Rings). Represents (queue_insert_tail s h q) after in
    let f = λ (r : List ℕ × Rings). some ((h, r.0 ++ q ∷ []) ∷ r.1) in
    with_unused P q rs (λ free. find_ring h free >>= f)
      (λ fresh.
        with_ring P s h rs f valid.linked
          (λ l others found. queue_insert_tail-Represents s rs h q l others valid fresh found))
perform-Represents (remove q) s rs valid =
    OrNone-bind (λ (r : ℕ × List ℕ × Rings). FoundNode s rs q r.0 r.1 r.2)
      (λ after. Represents (queue_remove s q) after) (find_node q rs)
      (λ r. some ((r.0, erase q r.1) ∷ r.2)) (find_node-Found s q rs valid.linked)
      (λ r found. queue_remove-Represents s rs q r.0 r.1 r.2 valid found)
perform-Represents (move h n) s rs valid =
    let P = λ (after : Rings). Represents (queue_move s h n) after in
    let f = λ (r : List ℕ × Rings). some ((n, r.0) ∷ (h, []) ∷ r.1) in
    with_unused P n rs (λ free. find_ring h free >>= f)
      (λ fresh.
        with_ring P s h rs f valid.linked
          (λ l others found. queue_move-Represents s rs h n l others valid fresh found))
perform-Represents (add h n) s rs valid =
    let P = λ (after : Rings). Represents (queue_add s h n) after in
    with_ring P s n rs (λ r. find_ring h r.1 >>= λ r'. some ((h, r'.0 ++ r.0) ∷ r'.1)) valid.linked
      (λ m others second.
        with_ring P s h others (λ r'. some ((h, r'.0 ++ m) ∷ r'.1)) second.rest
          (λ l rest first. queue_add-Represents s rs h n l m others rest valid second first))
perform-Represents (forget h) s rs valid =
    with_ring (λ after. Represents s after) s h rs (λ r. some r.1) valid.linked
      (λ l others found. record {
        apart = λ k. omega (arith, valid.apart k, found.parts k);
        linked = found.rest;
      })

-- Any run of operations that the abstract view allows, on links that are those of its queues,
-- leaves the links of the queues that the abstract run leaves.
pub carry_out_all-Represents :
    (os : List Op) (s : Links) (rs after : Rings)
    → Represents s rs
    → perform_all os rs ≡ some after
    → Represents (carry_out_all os s) after
unfolding perform_all carry_out_all
carry_out_all-Represents [] s rs after valid run =
    let same : rs ≡ after = cc in subst (λ r. Represents s r) same valid
carry_out_all-Represents (o ∷ os) s rs after valid run =
    let (one, first, rest) = bind-eq-some (perform o rs) (λ one. perform_all os one) run in
    let step : Represents (carry_out o s) one =
      subst (λ m. OrNone (λ r. Represents (carry_out o s) r) m) first
        (perform-Represents o s rs valid) in
    carry_out_all-Represents os (carry_out o s) one after step rest
