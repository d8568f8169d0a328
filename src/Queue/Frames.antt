-- ===== src/Queue/Frames.antt =====
-- src/queue.h: an operation leaves the links of every node that it is not given.
use libuv.Prelude.{
  ℕ, ◌+◌, ◌<◌, ◌≡◌, inl, inr, ap, ◌∙◌, List, [], ◌∷◌, ◌==◌, one_if, Bool-cases, arith,
}
use mathlib.Core.Path.{subst}
use libuv.Queue.{occurs}
use libuv.Queue.Links.{
  Links, queue_init, queue_empty, queue_add, queue_split, queue_move, queue_insert_head,
  queue_insert_tail, queue_remove,
}
use libuv.Queue.Ring.{Linked, Linked-split, prev-occurs, next-occurs}
use libuv.Queue.Moves.{occurs-split, occurs-two}

-- The links of `k` are the same in two stores.
abbrev pub Same : Links → Links → ℕ → Type 0
Same s t k = (t.next k ≡ s.next k) × (t.prev k ≡ s.prev k)

prev-next : (s : Links) (a b : ℕ) (l : List ℕ) → Linked s a l b → s.prev (s.next a) ≡ a
prev-next s a b [] linked = ap s.prev linked.0 ∙ linked.1
prev-next s a b (x ∷ l) linked = ap s.prev linked.0 ∙ linked.1

pub queue_init-Same : (s : Links) (q k : ℕ) → occurs k (q ∷ []) ≡ 0 → Same s (queue_init s q) k
unfolding queue_init
queue_init-Same s q k other = (ground (arith, other), ground (arith, other))

pub queue_insert_head-Same :
    (s : Links) (h q : ℕ) (l : List ℕ) (k : ℕ)
    → Linked s h l h
    → occurs k (h ∷ q ∷ l) ≡ 0
    → Same s (queue_insert_head s h q) k
unfolding queue_insert_head
queue_insert_head-Same s h q l k linked other =
    let first = next-occurs s h h l linked in (ground (arith, other), ground (arith, other, first))

pub queue_insert_tail-Same :
    (s : Links) (h q : ℕ) (l : List ℕ) (k : ℕ)
    → Linked s h l h
    → occurs k (h ∷ q ∷ l) ≡ 0
    → Same s (queue_insert_tail s h q) k
unfolding queue_insert_tail
queue_insert_tail-Same s h q l k linked other =
    let last = prev-occurs s h h l linked in (ground (arith, other, last), ground (arith, other))

pub queue_remove-Same :
    (s : Links) (h q : ℕ) (l : List ℕ) (k : ℕ)
    → 0 < occurs q l
    → Linked s h l h
    → occurs k (h ∷ l) ≡ 0
    → Same s (queue_remove s q) k
unfolding queue_remove
queue_remove-Same s h q l k lt linked other =
    let (a, b, e, gone) = occurs-split q l lt in
    let (first, rest) = Linked-split s h q h a b (subst (λ t. Linked s h t h) e linked) in
    let before = prev-occurs s h q a first in
    let after = next-occurs s q h b rest in
    let count : occurs k l ≡ occurs k a + (one_if (q == k) + occurs k b) =
      ap (occurs k) e ∙ occurs-two k a (q ∷ b) in
    (ground (arith, other, before, count), ground (arith, other, after, count))

pub queue_move-Same :
    (s : Links) (h n : ℕ) (l : List ℕ) (k : ℕ)
    → Linked s h l h
    → occurs k (h ∷ n ∷ l) ≡ 0
    → Same s (queue_move s h n) k
unfolding queue_move queue_empty queue_init queue_split
queue_move-Same s h n l k linked other =
    let first = next-occurs s h h l linked in
    let last = prev-occurs s h h l linked in
    let back = prev-next s h h l linked in
    elim (Bool-cases (h == s.next h)) [
      | inl empty ↦ rw empty (ground (arith, other), ground (arith, other))
      | inr full ↦
          rw full
            (ground (arith, other, first, last, back), ground (arith, other, first, last, back))
    ]

pub queue_add-Same :
    (s : Links) (h n : ℕ) (l m : List ℕ) (k : ℕ)
    → Linked s h l h
    → Linked s n m n
    → occurs k (h ∷ l) ≡ 0
    → occurs k (n ∷ m) ≡ 0
    → Same s (queue_add s h n) k
unfolding queue_add
queue_add-Same s h n l m k first second other other_m =
    let last = prev-occurs s h h l first in
    let start = next-occurs s n n m second in
    let end = prev-occurs s n n m second in
    (
      ground (arith, other, other_m, last, start, end),
      ground (arith, other, other_m, last, start, end),
    )
