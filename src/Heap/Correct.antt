-- ===== src/Heap/Correct.antt =====
-- src/heap-inl.h: what the three operations on a heap do to it.
use libuv.Prelude.{
  ℕ, suc, ◌+◌, ◌^◌, ◌<◌, ◌≡◌, refl, ap, Bool, true, false, some, [], arith, inl, inr, Bool-cases,
  one_if,
}
use libuv.Heap.{
  Tree, null, node, Context, Heap, u32, path_to, descend, sift_up, heap_min, heap_insert,
}
use libuv.Heap.Order.{IsOrder, Ordered, RootAbove, RootLe, sift_up-Ordered}
use libuv.Heap.Count.{count, count-sift_up}
use libuv.Heap.Shape.{Full}
use libuv.Heap.Resize.{sift_up-Full, FullRound-grow}
use libuv.Heap.Place.{IsPlace, SameNodes, descend-path_to}

abbrev pub everything : {A : Type 0} → A → Bool
everything _ = true

-- What holds of a `struct heap` between two calls: no node is less than its parent, the rows are
-- filled from the left, and `nelts` is the number of nodes.
pub record IsHeap {A : Type 0} (less_than : A → A → Bool) (h : Heap A) : Type 0 where
  pub ordered : Ordered less_than h.min
  pub full : Full h.min 1 h.nelts
  pub sized : count everything h.min ≡ h.nelts

-- The nodes of `h'` are those of `h`, and `x`.
abbrev pub Adds : {A : Type 0} → A → Heap A → Heap A → Type 0
Adds {A} x h h' = (test : A → Bool) → count test h'.min ≡ one_if (test x) + count test h.min

module _ {A : Type 0} (less_than : A → A → Bool) where
  pub root-IsPlace : (h : Heap A) → IsHeap less_than h → IsPlace less_than h.nelts 1 h.min []
  root-IsPlace h v = record {
    ordered = v.ordered;
    above = above h.min;
    fits = tt;
    full = v.full;
    round = refl;
  }
    where
      above : (t : Tree A) → RootAbove less_than t []
      above null = tt
      above (node l x r) = tt

  Full-null : (t : Tree A) (n : ℕ) → Full t (suc n) n → t ≡ null
  Full-null null n f = refl
  Full-null (node l x r) n f = absurd (omega arith)

  module _ (order : IsOrder less_than) (h : Heap A) (x : A) where
    -- The new node, linked in at the place behind the last one and moved up from there.
    inserted : Tree A → Context A → Heap A
    inserted t c = record { min = sift_up less_than null x null c; nelts = suc h.nelts }

    inserted-IsHeap :
        (t : Tree A) (c : Context A)
        → IsHeap less_than h
        → IsPlace less_than h.nelts (suc h.nelts) t c
        → SameNodes less_than h.min [] t c
        → IsHeap less_than (inserted t c) × Adds x h (inserted t c)
    unfolding inserted
    inserted-IsHeap t c v pl same =
        let empty : t ≡ null = Full-null t h.nelts pl.full in
        let adds : Adds x h (inserted t c) = λ test.
          omega
            (arith, count-sift_up test less_than null x null c, same test, ap (count test) empty) in
        (
          record {
            ordered = sift_up-Ordered less_than order null x null c (tt, tt, tt, tt) tt tt pl.fits;
            full =
                sift_up-Full less_than null x null c (suc h.nelts) (suc h.nelts) (omega arith)
                  (FullRound-grow c h.nelts pl.round);
            sized = omega (arith, adds everything, v.sized);
          },
          adds,
        )

    heap_insert-inserted :
        (t : Tree A) (c : Context A)
        → h.nelts + 1 < 2 ^ 32
        → descend (path_to (suc h.nelts)).1 (path_to (suc h.nelts)).0 h.min [] ≡ some (t, c)
        → heap_insert less_than h x ≡ some (inserted t c)
    unfolding heap_insert inserted
    heap_insert-inserted t c small e =
        let next : u32 (1 + h.nelts) ≡ suc h.nelts = omega arith in
        let next' : u32 (h.nelts + 1) ≡ suc h.nelts = omega arith in rw (next, next', e) refl

    -- An insertion into a valid heap that has room is not a fault, leaves a valid heap, and adds
    -- exactly the new node.
    pub heap_insert-IsHeap :
        IsHeap less_than h
        → h.nelts + 1 < 2 ^ 32
        → (h' : Heap A) × (heap_insert less_than h x ≡ some h') × IsHeap less_than h' × Adds x h h'
    heap_insert-IsHeap v small =
        let (t, c, e, pl, same) =
          descend-path_to less_than h.nelts h.min (suc h.nelts) (omega arith) (omega arith)
            (omega arith) (root-IsPlace h v) in
        let (v', adds) = inserted-IsHeap t c v pl same in
        (inserted t c, heap_insert-inserted t c small e, v', adds)

  -- No node of a subtree in order is less than its root, nor than what may stand above the root.
  root_least :
      IsOrder less_than
      → (b : A) (t : Tree A) → RootLe less_than b t
      → Ordered less_than t
      → (test : A → Bool) → test b ≡ false
      → ((y z : A) → test y ≡ false → less_than z y ≡ false → test z ≡ false)
      → count test t ≡ 0
  root_least order b null le o test no_b up = refl
  root_least order b (node l y r) le o test no_b up =
      let no_y = up b y no_b le in
      omega (
        arith,
        root_least order y l o.0 o.2 test no_y up,
        root_least order y r o.1 o.3 test no_y up,
        ap one_if no_y,
      )

  -- `heap_min` is a node of the heap that no node is less than; there is none in an empty heap alone.
  pub heap_min-least :
      (h : Heap A) (x : A)
      → IsOrder less_than
      → IsHeap less_than h
      → heap_min h ≡ some x
      → (count (λ y. less_than y x) h.min ≡ 0)
        × ((test : A → Bool) → test x ≡ true → 0 < count test h.min)
  unfolding heap_min
  heap_min-least h x order v e = least h.min (v.ordered) e
    where
      irreflexive : (y : A) → less_than y y ≡ false
      irreflexive y = elim (Bool-cases (less_than y y)) [ inl lt ↦ order.asym y y lt | inr ge ↦ ge ]

      least :
          (t : Tree A)
          → Ordered less_than t
          → heap_min (record { min = t; nelts = h.nelts }) ≡ some x
          → (count (λ y. less_than y x) t ≡ 0)
            × ((test : A → Bool) → test x ≡ true → 0 < count test t)
      least null o f = cc
      least (node l y r) o f =
          let is : y ≡ x = cc in
          let up = λ (a z : A) (p : less_than a x ≡ false) (q : less_than z a ≡ false).
            order.le_trans x a z p q in
          let first : less_than y x ≡ false = rw is (irreflexive x) in
          (
            omega (
              arith,
              root_least order y l o.0 o.2 (λ z. less_than z x) first up,
              root_least order y r o.1 o.3 (λ z. less_than z x) first up,
              ap one_if first,
            ),
            λ test pass. let one : one_if (test y) ≡ 1 = rw (is, pass) refl in omega arith,
          )
