-- ===== src/Heap/Removal.antt =====
-- src/heap-inl.h: what `heap_remove` and `heap_dequeue` do to a valid heap.
use libuv.Prelude.{
  ℕ, suc, ◌+◌, ◌-◌, ◌^◌, ◌≤◌, ◌<◌, ◌≡◌, ◌↔◌, refl, ◌∙◌, ap, Bool, true, false, some, [], arith, inl,
  inr, ◌==◌, Bool-cases, one_if,
}
use libuv.Heap.{
  Tree, null, node, Context, Heap, path_to, descend, plug, sift_down, locate, unlink_max, replace,
  heap_min, heap_remove, heap_dequeue,
}
use libuv.Heap.Order.{
  IsOrder, RootAbove, RootAbove-of-RootLe, Above, sift_down-Ordered, plug-Ordered,
}
use libuv.Heap.Count.{count, count-sift_down, count-plug}
use libuv.Heap.Shape.{Full, plug-Full}
use libuv.Heap.Resize.{sift_down-Full, FullRound-shrink}
use libuv.Heap.Place.{IsPlace, SameNodes, descend-path_to, copies, locate-IsPlace}
use libuv.Heap.Correct.{everything, IsHeap, Adds, root-IsPlace, heap_min-least}

module _ {A : Type 0} (less_than : A → A → Bool) (order : IsOrder less_than) where
  count-le-everything : (test : A → Bool) (t : Tree A) → count test t ≤ count everything t
  count-le-everything test null = omega arith
  count-le-everything test (node l x r) =
      omega (arith, count-le-everything test l, count-le-everything test r, one_if-le (test x))
    where
      one_if-le : (b : Bool) → one_if b ≤ 1
      one_if-le true = omega arith
      one_if-le false = omega arith

  -- What is left of a heap of `m + 1` nodes without the last one.
  rest : ℕ → Context A → Heap A
  rest m c = record { min = plug null c; nelts = m }

  rest-IsHeap :
      (h : Heap A) (m : ℕ) (l : Tree A) (child : A) (r : Tree A) (c : Context A)
      → h.nelts ≡ suc m
      → IsHeap less_than h
      → IsPlace less_than (suc m) (suc m) (node l child r) c
      → SameNodes less_than h.min [] (node l child r) c
      → IsHeap less_than (rest m c) × Adds child (rest m c) h
  unfolding rest
  rest-IsHeap h m (node a b d) child r c e v pl same = absurd (omega (arith, pl.full))
  rest-IsHeap h m null child (node a b d) c e v pl same = absurd (omega (arith, pl.full))
  rest-IsHeap h m null child null c e v pl same =
      let adds : Adds child (rest m c) h =
        λ test. omega (arith, count-plug test null c, same test) in
      (
        record {
          ordered = plug-Ordered less_than null c tt tt pl.fits;
          full = plug-Full null c (suc m) m (omega arith) (FullRound-shrink c m pl.round);
          sized = omega (arith, adds everything, v.sized, e);
        },
        adds,
      )

  Above-of-RootAbove :
      (l : Tree A) (y : A) (r : Tree A) (c : Context A)
      → RootAbove less_than (node l y r) c
      → Above less_than y c
  Above-of-RootAbove l y r c h = h

  -- Another node in the place of one in the heap.
  placed-IsHeap :
      (h : Heap A) (child : A) (l : Tree A) (y : A) (r : Tree A) (c : Context A) (q : ℕ)
      → IsHeap less_than h
      → 1 ≤ q
      → IsPlace less_than h.nelts q (node l y r) c
      → SameNodes less_than h.min [] (node l y r) c
      → let h' = record h { min = sift_down less_than (node l y r) child c } in
        IsHeap less_than h'
        × ((test : A → Bool)
            → count test h'.min + one_if (test y) ≡ count test h.min + one_if (test child))
  placed-IsHeap h child l y r c q v pos pl same =
      let trade : (test : A → Bool)
          → count test (sift_down less_than (node l y r) child c) + one_if (test y)
            ≡ count test h.min + one_if (test child) =
        λ test. omega (arith, count-sift_down test less_than (node l y r) child c, same test) in
      (
        record {
          ordered =
              sift_down-Ordered less_than order (node l y r) child c
                (
                  pl.ordered.2,
                  pl.ordered.3,
                  RootAbove-of-RootLe less_than order y l c pl.above pl.ordered.0,
                  RootAbove-of-RootLe less_than order y r c pl.above pl.ordered.1,
                )
                pl.fits;
          full =
              sift_down-Full less_than (node l y r) child c q h.nelts pl.full.0 pos pl.full
                pl.round;
          sized = omega (arith, trade everything, v.sized);
        },
        trade,
      )

  module _ (same : A → A → Bool) (same_iff : (a b : A) → (same a b ≡ true) ↔ (a ≡ b)) (x : A) where
    replace-locate :
        (child : A) (t s : Tree A) (c : Context A)
        → same child x ≡ false
        → locate same x t [] ≡ some (s, c)
        → replace less_than same child x t ≡ some (sift_down less_than s child c)
    unfolding replace
    replace-locate child t s c other found = rw (other, found) refl

    -- The last node takes the place of `x`, or is `x` itself.
    replace-IsHeap :
        (m : ℕ) (child : A) (t : Tree A)
        → IsHeap less_than (record { min = t; nelts = m })
        → 0 < one_if (same child x) + copies same x t
        → (t' : Tree A) × (replace less_than same child x t ≡ some t')
          × IsHeap less_than (record { min = t'; nelts = m })
          × ((test : A → Bool)
              → count test t' + one_if (test x) ≡ count test t + one_if (test child))
    unfolding replace
    replace-IsHeap m child t v there = elim (Bool-cases (same child x)) [
      | inl last ↦
          let is : child ≡ x = (same_iff child x).0 last in (t, rw last refl, v, λ test. rw is refl)
      | inr other ↦
          let zero_here : one_if (same child x) ≡ 0 = ap one_if other in
          let (l, y, r, c, q, found, is, pos, pl, nodes) =
            locate-IsPlace same x less_than m 1 t [] (omega arith) (omega arith)
              (root-IsPlace less_than (record { min = t; nelts = m }) v) in
          let here : y ≡ x = (same_iff y x).0 is in
          let (v', trade) =
            placed-IsHeap (record { min = t; nelts = m }) child l y r c q v pos pl nodes in
          (
            sift_down less_than (node l y r) child c,
            replace-locate child t (node l y r) c other found,
            v',
            λ test. omega (arith, trade test, ap (λ z. one_if (test z)) here),
          )
    ]

    unlink_max-descend :
        (n : ℕ) (t l : Tree A) (child : A) (r : Tree A) (c : Context A)
        → descend (path_to n).1 (path_to n).0 t [] ≡ some (node l child r, c)
        → unlink_max less_than same n t ≡ some (child, plug null c)
    unfolding unlink_max
    unlink_max-descend n t l child r c e = rw e refl

    -- Unlinking the last node of a valid heap leaves a valid heap of the others.
    unlink_max-IsHeap :
        (h : Heap A) (m : ℕ)
        → IsHeap less_than h
        → h.nelts ≡ suc m
        → suc m < 2 ^ 32
        → (child : A) × (c : Context A) × (unlink_max less_than same (suc m) h.min
            ≡ some (child, plug null c))
          × IsHeap less_than (rest m c)
          × Adds child (rest m c) h
    unlink_max-IsHeap h m v e small =
        let (t, c, d, pl, nodes) =
          descend-path_to less_than (suc m) h.min (suc m) (omega arith) (omega arith) small
            (rw e at (root-IsPlace less_than h v)) in
        last t c d pl nodes
      where
        last :
            (t : Tree A) (c : Context A)
            → descend (path_to (suc m)).1 (path_to (suc m)).0 h.min [] ≡ some (t, c)
            → IsPlace less_than (suc m) (suc m) t c
            → SameNodes less_than h.min [] t c
            → (child : A) × (c' : Context A) × (unlink_max less_than same (suc m) h.min
                ≡ some (child, plug null c'))
              × IsHeap less_than (rest m c')
              × Adds child (rest m c') h
        last null c d pl nodes = absurd (omega (arith, pl.full))
        last (node l child r) c d pl nodes =
            let (v', adds) = rest-IsHeap h m l child r c e v pl nodes in
            (child, c, unlink_max-descend (suc m) h.min l child r c d, v', adds)

    heap_remove-eq :
        (h : Heap A) (m : ℕ) (child : A) (t t' : Tree A)
        → h.nelts ≡ suc m
        → unlink_max less_than same (suc m) h.min ≡ some (child, t)
        → replace less_than same child x t ≡ some t'
        → heap_remove less_than same h x ≡ some (record { min = t'; nelts = m })
    unfolding heap_remove
    heap_remove-eq h m child t t' e u r =
        let some_node : (suc m == 0) ≡ false = ground arith in
        let one_less : suc m - 1 ≡ m = omega arith in rw (e, some_node, u, r, one_less) refl

    -- The removal of a node that a valid heap holds is not a fault, leaves a valid heap, and takes
    -- exactly that node out.
    pub heap_remove-IsHeap :
        (h : Heap A)
        → IsHeap less_than h
        → h.nelts < 2 ^ 32
        → 0 < copies same x h.min
        → (h' : Heap A) × (heap_remove less_than same h x ≡ some h')
          × IsHeap less_than h'
          × Adds x h' h
    unfolding rest
    heap_remove-IsHeap h v small there =
        let m = h.nelts - 1 in
        let e : h.nelts ≡ suc m =
          omega (arith, v.sized, count-le-everything (λ y. same y x) h.min) in
        let (child, c, u, v', adds) = unlink_max-IsHeap h m v e (omega arith) in
        let (t', r, v'', trade) =
          replace-IsHeap m child (plug null c) v' (omega (arith, adds (λ y. same y x))) in
        (
          record { min = t'; nelts = m },
          heap_remove-eq h m child (plug null c) t' e u r,
          v'',
          λ test. omega (arith, trade test, adds test),
        )

    heap_dequeue-remove :
        (h : Heap A)
        → 0 < h.nelts
        → heap_min h ≡ some x
        → heap_dequeue less_than same h ≡ heap_remove less_than same h x
    unfolding heap_dequeue
    heap_dequeue-remove h some_node e =
        let busy : (h.nelts == 0) ≡ false = ground arith in rw (busy, e) refl

  -- Dequeuing takes out the node that `heap_min` gives, which no node is less than.
  heap_dequeue-IsHeap :
      (same : A → A → Bool)
      → ((a b : A) → (same a b ≡ true) ↔ (a ≡ b))
      → (h : Heap A) → IsHeap less_than h
      → 0 < h.nelts
      → h.nelts < 2 ^ 32
      → (x : A) × (h' : Heap A) × (heap_min h ≡ some x)
        × (heap_dequeue less_than same h ≡ some h')
        × IsHeap less_than h'
        × Adds x h' h
        × (count (λ y. less_than y x) h'.min ≡ 0)
  unfolding heap_min
  heap_dequeue-IsHeap same same_iff h v some_node small =
      let (x, e) = first h.min h.nelts v.full some_node in
      let least = heap_min-least less_than h x order v e in
      let here : 0 < copies same x h.min = least.1 (λ y. same y x) ((same_iff x x).1 refl) in
      let (h', removed, v', adds) = heap_remove-IsHeap same same_iff x h v small here in
      (
        x,
        h',
        e,
        heap_dequeue-remove same same_iff x h some_node e ∙ removed,
        v',
        adds,
        omega (arith, adds (λ y. less_than y x), least.0),
      )
    where
      first :
          (t : Tree A) (n : ℕ)
          → Full t 1 n
          → 0 < n
          → (x : A) × (heap_min (record { min = t; nelts = h.nelts }) ≡ some x)
      first null n f pos = absurd (omega arith)
      first (node l x r) n f pos = (x, refl)
