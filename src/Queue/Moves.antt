-- ===== src/Queue/Moves.antt =====
-- src/queue.h: what each operation does to the rings that it is given.
use libuv.Prelude.{
  ℕ, ◌+◌, ◌≤◌, ◌<◌, ◌≡◌, refl, sym, ap, ◌∙◌, inl, inr, true, false, List, [], ◌∷◌, ◌++◌, ◌==◌,
  if◌then◌else◌, one_if, append-nil, Bool-cases, arith,
}
use mathlib.Core.Path.{subst}
use libuv.Queue.{erase, occurs}
use libuv.Queue.Links.{
  Links, queue_init, queue_empty, queue_add, queue_split, queue_move, queue_insert_head,
  queue_insert_tail, queue_remove,
}
use libuv.Queue.Ring.{Linked, Linked-same, Linked-end, Linked-append, Linked-split, prev-occurs}

-- No node stands in a list twice.
abbrev pub Once : List ℕ → Type 0
Once l = (k : ℕ) → occurs k l ≤ 1

pub queue_init-Linked : (s : Links) (q : ℕ) → Linked (queue_init s q) q [] q
unfolding queue_init
queue_init-Linked s q = ground arith

pub queue_insert_head-Linked :
    (s : Links) (h q : ℕ) (l : List ℕ)
    → Once (h ∷ l)
    → occurs q (h ∷ l) ≡ 0
    → Linked s h l h
    → Linked (queue_insert_head s h q) h (q ∷ l) h
unfolding queue_insert_head
queue_insert_head-Linked s h q [] once fresh linked = ground (arith, fresh)
queue_insert_head-Linked s h q (x ∷ l) once fresh linked = (
  ground (arith, fresh),
  ground (arith, fresh),
  (
    ground (arith, fresh, once x),
    ground (arith, fresh, once x),
    Linked-same s (queue_insert_head s h q) x h l (λ k lt. ground (arith, fresh, once h, once k))
        (λ k lt. ground (arith, fresh, once h, once k, once x)) linked.2,
  ),
)

pub queue_insert_tail-Linked :
    (s : Links) (h q : ℕ) (l : List ℕ)
    → Once (h ∷ l)
    → occurs q (h ∷ l) ≡ 0
    → Linked s h l h
    → Linked (queue_insert_tail s h q) h (l ++ q ∷ []) h
unfolding queue_insert_tail
queue_insert_tail-Linked s h q l once fresh linked =
    let last = prev-occurs s h h l linked in
    let t = queue_insert_tail s h q in
    Linked-append t h q h l []
      (Linked-end s t h h q l once (λ k lt. ground (arith, fresh, last))
        (λ k lt. ground (arith, fresh, once h)) (ground (arith, fresh, last)) linked)
      (ground (arith, fresh, last), ground (arith, fresh, last))

-- The ring without one of its nodes.
without :
    (s t : Links) (h q : ℕ) (l m : List ℕ)
    → Once (h ∷ l)
    → Once (q ∷ m)
    → occurs q (h ∷ l) ≡ 0
    → ((k : ℕ) → 0 < occurs k m → occurs k (h ∷ l) ≡ 0)
    → ((k : ℕ) → t.next k ≡ (if k == s.prev q then s.next q else s.next k))
    → ((k : ℕ) → t.prev k ≡ (if k == s.next q then s.prev q else s.prev k))
    → Linked s h l q
    → Linked s q m h
    → Linked t h (l ++ m) h
without s t h q l [] once once_m fresh apart next prev first rest = rw (append-nil l) (
    Linked-end s t h q h l once (λ k lt. ground (arith, next k))
      (λ k lt. ground (arith, prev k, once h)) (ground (arith, prev h)) first)
without s t h q l (x ∷ m) once once_m fresh apart next prev first rest =
    let last = prev-occurs s h q l first in
    Linked-append t h x h l m
      (Linked-end s t h q x l once (λ k lt. ground (arith, next k))
        (λ k lt. ground (arith, prev k, apart x)) (ground (arith, prev x)) first)
      (Linked-same s t x h m (λ k lt. ground (arith, next k, apart k, last))
        (λ k lt. ground (arith, prev k, once_m x, apart x)) rest.2)

-- A list around one of its nodes.
pub occurs-split :
    (q : ℕ) (l : List ℕ) → 0 < occurs q l → (a b : List ℕ) × (l ≡ a ++ q ∷ b) × (erase q l ≡ a ++ b)
occurs-split q [] lt = absurd (omega arith)
occurs-split q (x ∷ l) lt = elim (Bool-cases (x == q)) [
  | inl here ↦
      let same : x ≡ q = ground arith in
      ([], l, ap (λ k. k ∷ l) same, ap (λ t. if t then l else x ∷ erase q l) here)
  | inr other ↦
      let (a, b, e, gone) = occurs-split q l (ground arith) in
      (
        x ∷ a,
        b,
        ap (λ t. x ∷ t) e,
        ap (λ t. if t then l else x ∷ erase q l) other ∙ ap (λ t. x ∷ t) gone,
      )
]

pub occurs-two : (k : ℕ) (a b : List ℕ) → occurs k (a ++ b) ≡ occurs k a + occurs k b
occurs-two k [] b = omega arith
occurs-two k (x ∷ a) b = omega (arith, occurs-two k a b)

pub queue_remove-Linked :
    (s : Links) (h q : ℕ) (l : List ℕ)
    → Once (h ∷ l)
    → 0 < occurs q l
    → Linked s h l h
    → Linked (queue_remove s q) h (erase q l) h
unfolding queue_remove
queue_remove-Linked s h q l once lt linked =
    let (a, b, e, gone) = occurs-split q l lt in
    let (first, rest) = Linked-split s h q h a b (subst (λ t. Linked s h t h) e linked) in
    let count = λ (k : ℕ). ap (occurs k) e ∙ occurs-two k a (q ∷ b) in
    let here : one_if (q == q) ≡ 1 = ground arith in
    subst (λ t. Linked (queue_remove s q) h t h) (sym gone)
      (without s (queue_remove s q) h q a b (λ k. omega (arith, once k, count k))
        (λ k. omega (arith, once k, count k)) (omega (arith, once q, count q, here))
        (λ k in_b. omega (arith, once k, count k)) (λ k. ground arith) (λ k. ground arith) first
        rest)

-- The nodes from `q` on leave the ring of `h` and make the ring of `n`.
pub queue_split-Linked :
    (s : Links) (h q n : ℕ) (l m : List ℕ)
    → Once (h ∷ l)
    → Once (q ∷ m)
    → ((k : ℕ) → 0 < occurs k (q ∷ m) → occurs k (h ∷ l) ≡ 0)
    → occurs n (h ∷ l) ≡ 0
    → occurs n (q ∷ m) ≡ 0
    → Linked s h l q
    → Linked s q m h
    → Linked (queue_split s h q n) n (q ∷ m) n × Linked (queue_split s h q n) h l h
unfolding queue_split
queue_split-Linked s h q n l m once once_m apart fresh fresh_m first rest =
    let t = queue_split s h q n in
    let before = prev-occurs s h q l first in
    let last = prev-occurs s q h m rest in
    (
      (
        ground (arith, before, fresh),
        ground arith,
        Linked-end s t q h n m once_m (λ k lt. ground (arith, before, apart k, fresh_m))
            (λ k lt. ground (arith, once_m k, apart k, fresh_m)) (ground (arith, fresh, fresh_m))
            rest,
      ),
      Linked-end s t h q h l once (λ k lt. ground (arith, last, apart (s.prev h), fresh))
          (λ k lt. ground (arith, once k, apart q, fresh)) (ground (arith, apart q)) first,
    )

pub queue_move-Linked :
    (s : Links) (h n : ℕ) (l : List ℕ)
    → Once (h ∷ l)
    → occurs n (h ∷ l) ≡ 0
    → Linked s h l h
    → Linked (queue_move s h n) n l n × Linked (queue_move s h n) h [] h
unfolding queue_move queue_init queue_empty
queue_move-Linked s h n [] once fresh linked =
    let empty : (h == s.next h) ≡ true = ground arith in rw empty (ground (arith, fresh))
queue_move-Linked s h n (x ∷ l) once fresh linked =
    let full : (h == s.next h) ≡ false = ground (arith, once h) in
    let split : queue_move s h n ≡ queue_split s h x n = rw (full, linked.0) refl in
    subst (λ t. Linked t n (x ∷ l) n × Linked t h [] h) (sym split)
      (queue_split-Linked s h x n [] l (λ k. ground arith) (λ k. omega (arith, once k))
        (λ k lt. omega (arith, once k)) (omega (arith, fresh)) (omega (arith, fresh))
        (linked.0, linked.1) linked.2)

pub queue_add-Linked :
    (s : Links) (h n : ℕ) (l m : List ℕ)
    → Once (h ∷ l)
    → Once (n ∷ m)
    → ((k : ℕ) → 0 < occurs k (n ∷ m) → occurs k (h ∷ l) ≡ 0)
    → Linked s h l h
    → Linked s n m n
    → Linked (queue_add s h n) h (l ++ m) h
unfolding queue_add
queue_add-Linked s h n l [] once once_m apart first second =
    let last = prev-occurs s h h l first in
    rw (append-nil l) (
      Linked-end s (queue_add s h n) h h h l once
        (λ k lt. ground (arith, last, second.0, second.1, apart n))
        (λ k lt. ground (arith, last, second.0, second.1, apart n, once h))
        (ground (arith, last, second.0, second.1, apart n)) first)
queue_add-Linked s h n l (x ∷ m) once once_m apart first second =
    let t = queue_add s h n in
    let last = prev-occurs s h h l first in
    let end = prev-occurs s x n m second.2 in
    Linked-append t h x h l m
      (Linked-end s t h h x l once
        (λ k lt. ground (arith, last, end, second.0, once_m n, apart n, apart (s.prev n)))
        (λ k lt. ground (arith, last, second.0, apart n, apart x, once h))
        (ground (arith, last, second.0, apart n, apart x)) first)
      (Linked-end s t x n h m (λ k. omega (arith, once_m k))
        (λ k lt. ground (arith, last, end, second.0, once_m n, apart n, apart k))
        (λ k lt. ground (arith, last, end, second.0, apart n, apart k, once_m x))
        (ground (arith, last, end, second.0, once_m n, apart n, apart x)) second.2)
