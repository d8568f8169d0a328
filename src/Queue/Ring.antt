-- ===== src/Queue/Ring.antt =====
-- src/queue.h: the rings of nodes that the links form.
use libuv.Prelude.{ℕ, ◌+◌, ◌≤◌, ◌<◌, ◌≡◌, List, [], ◌∷◌, ◌++◌, ◌==◌, if◌then◌else◌, one_if, arith}
use libuv.Queue.{occurs}
use libuv.Queue.Links.{Links}

-- From `a`, the links lead through `l` to `b`, and back.
abbrev pub Linked : Links → ℕ → List ℕ → ℕ → Type 0
Linked s a [] b = (s.next a ≡ b) × (s.prev b ≡ a)
Linked s a (x ∷ l) b = (s.next a ≡ x) × (s.prev x ≡ a) × Linked s x l b

-- The links of the nodes on the way are the same in two stores.
pub Linked-same :
    (s t : Links) (a b : ℕ) (l : List ℕ)
    → ((k : ℕ) → 0 < occurs k (a ∷ l) → t.next k ≡ s.next k)
    → ((k : ℕ) → 0 < occurs k l + one_if (b == k) → t.prev k ≡ s.prev k)
    → Linked s a l b
    → Linked t a l b
Linked-same s t a b [] next prev linked = ground (arith, next a, prev b)
Linked-same s t a b (x ∷ l) next prev linked = (
  ground (arith, next a),
  ground (arith, prev x),
  Linked-same s t x b l (λ k lt. next k (omega arith)) (λ k lt. prev k (omega arith)) linked.2,
)

-- The node before `b` is on the way.
pub prev-occurs :
    (s : Links) (a b : ℕ) (l : List ℕ) → Linked s a l b → 0 < occurs (s.prev b) (a ∷ l)
prev-occurs s a b [] linked = ground arith
prev-occurs s a b (x ∷ l) linked = omega (arith, prev-occurs s x b l linked.2)

pub next-occurs :
    (s : Links) (a b : ℕ) (l : List ℕ)
    → Linked s a l b
    → 0 < occurs (s.next a) l + one_if (b == s.next a)
next-occurs s a b [] linked = ground arith
next-occurs s a b (x ∷ l) linked = ground arith

pub Linked-append :
    (s : Links) (a x b : ℕ) (l m : List ℕ)
    → Linked s a l x
    → Linked s x m b
    → Linked s a (l ++ x ∷ m) b
Linked-append s a x b [] m first rest = (first.0, first.1, rest)
Linked-append s a x b (y ∷ l) m first rest =
    (first.0, first.1, Linked-append s y x b l m first.2 rest)

pub Linked-split :
    (s : Links) (a x b : ℕ) (l m : List ℕ)
    → Linked s a (l ++ x ∷ m) b
    → Linked s a l x × Linked s x m b
Linked-split s a x b [] m linked = ((linked.0, linked.1), linked.2)
Linked-split s a x b (y ∷ l) m linked =
    let (first, rest) = Linked-split s y x b l m linked.2 in ((linked.0, linked.1, first), rest)

-- The way ends at `q` instead of `b`, once the last node and `q` are linked.
pub Linked-end :
    (s t : Links) (a b q : ℕ) (l : List ℕ)
    → ((k : ℕ) → occurs k (a ∷ l) ≤ 1)
    → ((k : ℕ) → 0 < occurs k (a ∷ l) → t.next k ≡ (if k == s.prev b then q else s.next k))
    → ((k : ℕ) → 0 < occurs k l → t.prev k ≡ s.prev k)
    → t.prev q ≡ s.prev b
    → Linked s a l b
    → Linked t a l q
Linked-end s t a b q [] once next prev back linked = ground (arith, next a)
Linked-end s t a b q (x ∷ l) once next prev back linked =
    let last = prev-occurs s x b l linked.2 in
    (
      ground (arith, next a, last, once a),
      ground (arith, prev x),
      Linked-end s t x b q l (λ k. omega (arith, once k)) (λ k lt. next k (omega arith))
          (λ k lt. prev k (omega arith)) back linked.2,
    )
