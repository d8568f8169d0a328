-- ===== src/Queue/Links.antt =====
-- src/queue.h: the queues as the code has them, by the two links of each node.
-- A node, the head of a queue included, is known by its address, a number. The store holds the
-- links of all nodes. Each function makes the writes of the code, in their order.
use libuv.Prelude.{ℕ, Bool, ◌==◌, if◌then◌else◌}

pub record Links : Type 0 where
  pub next : ℕ → ℕ
  pub prev : ℕ → ℕ

abbrev pub update : (ℕ → ℕ) → ℕ → ℕ → ℕ → ℕ
update f p v k = if k == p then v else f k

-- `p->next = v;` and `p->prev = v;`
abbrev pub set_next : Links → ℕ → ℕ → Links
set_next s p v = record s { next = update s.next p v }

abbrev pub set_prev : Links → ℕ → ℕ → Links
set_prev s p v = record s { prev = update s.prev p v }

unfoldable pub queue_init : Links → ℕ → Links
queue_init s q = set_prev (set_next s q q) q q

unfoldable pub queue_empty : Links → ℕ → Bool
queue_empty s q = q == s.next q

unfoldable pub queue_head : Links → ℕ → ℕ
queue_head s q = s.next q

unfoldable pub queue_next : Links → ℕ → ℕ
queue_next s q = s.next q

unfoldable pub queue_add : Links → ℕ → ℕ → Links
queue_add s h n =
    let s1 = set_next s (s.prev h) (s.next n) in
    let s2 = set_prev s1 (s1.next n) (s1.prev h) in
    let s3 = set_prev s2 h (s2.prev n) in set_next s3 (s3.prev h) h

unfoldable pub queue_split : Links → ℕ → ℕ → ℕ → Links
queue_split s h q n =
    let s1 = set_prev s n (s.prev h) in
    let s2 = set_next s1 (s1.prev n) n in
    let s3 = set_next s2 n q in
    let s4 = set_prev s3 h (s3.prev q) in let s5 = set_next s4 (s4.prev h) h in set_prev s5 q n

unfoldable pub queue_move : Links → ℕ → ℕ → Links
unfolding queue_empty queue_init queue_split
queue_move s h n = if queue_empty s h then queue_init s n else queue_split s h (s.next h) n

unfoldable pub queue_insert_head : Links → ℕ → ℕ → Links
queue_insert_head s h q =
    let s1 = set_next s q (s.next h) in
    let s2 = set_prev s1 q h in let s3 = set_prev s2 (s2.next q) q in set_next s3 h q

unfoldable pub queue_insert_tail : Links → ℕ → ℕ → Links
queue_insert_tail s h q =
    let s1 = set_next s q h in
    let s2 = set_prev s1 q (s1.prev h) in let s3 = set_next s2 (s2.prev q) q in set_prev s3 h q

unfoldable pub queue_remove : Links → ℕ → Links
queue_remove s q = let s1 = set_next s (s.prev q) (s.next q) in set_prev s1 (s1.next q) (s1.prev q)
