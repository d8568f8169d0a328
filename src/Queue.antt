-- ===== src/Queue.antt =====
-- src/queue.h: the intrusive queues, as the lists of their nodes.
-- A node is known by its address, a number, and stands in one queue at most. The other components
-- take these lists for their queues; `Queue.Links` has the links of the code.
pub mod Links
pub mod Ring
pub mod Moves
pub mod Rings
pub mod Frames
pub mod Finding
pub mod Refines
pub mod Walk
mod Examples
use libuv.Prelude.{
  ℕ, ◌+◌, ◌≤◌, ◌≡◌, refl, List, [], ◌∷◌, ◌++◌, ◌==◌, if◌then◌else◌, one_if, length, arith,
}

-- `uv__queue_remove`: nothing, if the node is not in the queue.
abbrev pub erase : ℕ → List ℕ → List ℕ
erase h [] = []
erase h (k ∷ ks) = if k == h then ks else k ∷ erase h ks

-- How often a node stands in a queue.
abbrev pub occurs : ℕ → List ℕ → ℕ
occurs h [] = 0
occurs h (k ∷ ks) = one_if (k == h) + occurs h ks

pub occurs-append :
    (k : ℕ) (q : List ℕ) (h : ℕ) → occurs k (q ++ h ∷ []) ≡ occurs k q + one_if (h == k)
occurs-append k [] h = omega arith
occurs-append k (j ∷ q) h = omega (arith, occurs-append k q h)

pub occurs-erase :
    (h k : ℕ) (q : List ℕ)
    → occurs h q ≤ 1
    → occurs k (erase h q) ≡ (if k == h then 0 else occurs k q)
occurs-erase h k [] u = ground arith
occurs-erase h k (j ∷ q) u = ground (arith, occurs-erase h k q)

pub length-erase-le : (h : ℕ) (q : List ℕ) → length (erase h q) ≤ length q
length-erase-le h [] = omega arith
length-erase-le h (k ∷ q) = ground (arith, length-erase-le h q)

pub erase-absent : (h : ℕ) (q : List ℕ) → occurs h q ≡ 0 → erase h q ≡ q
erase-absent h [] none_there = refl
erase-absent h (k ∷ q) none_there = ground (arith, erase-absent h q)
