-- ===== src/Heap.antt =====
-- src/heap-inl.h: the binary min-heap.
-- A node's `left` and `right` links are the subtrees of `Tree`. Its `parent` link is the frame that
-- encloses it: a place in the heap is a node with the list of `Frame`s from it up to the root.
-- The payload `A` stands for the address of a node, which the code never copies or changes.
mod Cases
pub mod Order
pub mod Count
pub mod Shape
pub mod Resize
pub mod Place
pub mod Correct
pub mod Removal
mod Examples
use libuv.Prelude.{
  ℕ, zero, suc, ◌+◌, ◌-◌, ◌*◌, ◌/◌, ◌%◌, ◌^◌, Bool, Option, none, some, List, [], ◌∷◌, ◌==◌, leb,
  if◌then◌else◌, ◌>>=◌,
}

-- A subtree: `NULL`, or a node with its two links.
pub data Tree (A : Type 0) : Type 0 where
  null : Tree A
  node : Tree A → A → Tree A → Tree A

-- A parent with the other subtree: the hole is its left, or its right link.
pub data Frame (A : Type 0) : Type 0 where
  in_left : A → Tree A → Frame A
  in_right : Tree A → A → Frame A

abbrev pub Context : Type 0 → Type 0
Context A = List (Frame A)

-- `struct heap`
pub record Heap (A : Type 0) : Type 0 where
  pub min : Tree A
  pub nelts : ℕ

-- `unsigned int` arithmetic wraps.
abbrev pub u32 : ℕ → ℕ
u32 n = n % 2 ^ 32

-- The whole tree, from a subtree and its place.
pub plug : {A : Type 0} → Tree A → Context A → Tree A
plug t [] = t
plug t (in_left y s ∷ c) = plug (node t y s) c
plug t (in_right s y ∷ c) = plug (node s y t) c

pub heap_init : {A : Type 0} → Heap A
heap_init = record { min = null; nelts = 0 }

-- The node that `heap->min` points at.
unfoldable pub heap_min : {A : Type 0} → Heap A → Option A
heap_min h = elim (h.min) [ null ↦ none | node l x r ↦ some x ]

-- `for (...; n >= 2; k += 1, n /= 2) path = (path << 1) | (n & 1);` from `path`, `k` and `n`.
-- `n` is an `unsigned int`, so that 32 rounds are enough (`Heap.Shape`).
path_loop : ℕ → ℕ → ℕ → ℕ → ℕ × ℕ
path_loop zero path k n = (path, k)
path_loop (suc fuel) path k n =
    let rest = path_loop fuel (u32 (path * 2 + n % 2)) (u32 (k + 1)) (n / 2) in
    if leb 2 n then rest else (path, k)

-- The path from the root to the `n`th node, row by row: its turns, the first one in bit 0, and
-- their number.
pub path_to : ℕ → ℕ × ℕ
unfolding path_loop
path_to n = path_loop 32 0 0 n

-- The `while (k > 0)` traversal. `none` is a read through a null link.
pub descend : {A : Type 0} → ℕ → ℕ → Tree A → Context A → Option (Tree A × Context A)
descend zero path t c = some (t, c)
descend (suc k) path null c = none
descend (suc k) path (node l x r) c =
    if path % 2 == 1
    then descend k (path / 2) r (in_right l x ∷ c)
    else descend k (path / 2) l (in_left x r ∷ c)

module _ {A : Type 0} (same : A → A → Bool) where
  -- The place of a node that is given by its address.
  pub locate : A → Tree A → Context A → Option (Tree A × Context A)
  locate x null c = none
  locate x (node l y r) c =
      let in_l = locate x l (in_left y r ∷ c) in
      let in_r = locate x r (in_right l y ∷ c) in
      if same y x then some (node l y r, c) else elim in_l [ none ↦ in_r | some p ↦ some p ]

-- Where `smallest` points: at the node, or at one of its children.
pub data Side : Type 0 where
  here at_left at_right : Side

module _ {A : Type 0} (less_than : A → A → Bool) where
  -- `while (node->parent != NULL && less_than(node, node->parent)) heap_node_swap(...)`.
  -- The swap gives the parent the node's links, and the node the parent's place and other link.
  pub sift_up : Tree A → A → Tree A → Context A → Tree A
  sift_up l x r [] = node l x r
  sift_up l x r (in_left y s ∷ c) =
      let up = sift_up (node l y r) x s c in
      if less_than x y then up else plug (node l x r) (in_left y s ∷ c)
  sift_up l x r (in_right s y ∷ c) =
      let up = sift_up s x (node l y r) c in
      if less_than x y then up else plug (node l x r) (in_right s y ∷ c)

  -- `smallest`, as the place where it stands and its payload, after each of the two tests.
  or_left : Tree A → A → Side × A
  or_left null x = (here, x)
  or_left (node _ y _) x = if less_than y x then (at_left, y) else (here, x)

  or_right : Tree A → Side × A → Side × A
  or_right null m = m
  or_right (node _ z _) m = if less_than z m.1 then (at_right, z) else m

  pub smallest : Tree A → A → Tree A → Side × A
  smallest l x r = or_right r (or_left l x)

  -- The loop that walks down, then the one that walks up. `x` stands at the root of the tree, in
  -- place of the payload there. The walk goes to a child only if there is one, so that `null` is
  -- not reached.
  pub sift_down : Tree A → A → Context A → Tree A
  sift_down null x c = sift_up null x null c
  sift_down (node l _ r) x c =
      let (side, y) = smallest l x r in
      elim side [
        | here ↦ sift_up l x r c
        | at_left ↦ sift_down l x (in_left y r ∷ c)
        | at_right ↦ sift_down r x (in_right l y ∷ c)
      ]

  -- `none` is a fault. The place where the path ends is a null link (`Heap.Shape`).
  pub heap_insert : Heap A → A → Option (Heap A)
  heap_insert h x =
      let (path, k) = path_to (u32 (1 + h.nelts)) in
      descend k path h.min [] >>= λ (t, c).
      some (record { min = sift_up null x null c; nelts = u32 (h.nelts + 1) })

  module _ (same : A → A → Bool) where
    -- The tree without its last node, `child`: done if that is the node itself, or else the last
    -- node takes its place.
    replace : A → A → Tree A → Option (Tree A)
    replace child x t =
        if same child x then some t else locate same x t [] >>= λ (s, c). some (sift_down s child c)

    -- Unlinks the last node. `none` is a fault: a read through a null link.
    unlink_max : ℕ → Tree A → Option (A × Tree A)
    unlink_max n t =
        let (path, k) = path_to n in
        descend k path t [] >>= λ (last, c). elim last [
          | null ↦ none
          | node _ child _ ↦ some (child, plug null c)
        ]

    pub heap_remove : Heap A → A → Option (Heap A)
    heap_remove h x =
        let removed = unlink_max h.nelts h.min >>= λ (child, t).
        replace child x t >>= λ t'. some (record { min = t'; nelts = h.nelts - 1 }) in
        if h.nelts == 0 then some h else removed

    -- `heap_dequeue` passes `heap->min`. The heap is not touched if it holds nothing; a null node
    -- in a heap that counts some is a fault.
    pub heap_dequeue : Heap A → Option (Heap A)
    heap_dequeue h = if h.nelts == 0 then some h else heap_min h >>= λ x. heap_remove h x
