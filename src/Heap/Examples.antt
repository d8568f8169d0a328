-- ===== src/Heap/Examples.antt =====
-- src/heap-inl.h: a heap of three numbers.
use libuv.Prelude.{ℕ, ◌≡◌, refl, some, ltb, ◌==◌, ==_iff, arith}
use libuv.Heap.{null, node, Heap, plug, path_to, descend, sift_up, heap_insert, heap_remove}
use libuv.Heap.Order.{IsOrder}
use libuv.Heap.Correct.{IsHeap, Adds, heap_insert-IsHeap}
use libuv.Heap.Removal.{heap_remove-IsHeap}

abbrev three : Heap ℕ
three = record { min = node (node null 5 null) 3 (node null 4 null); nelts = 3 }

ltb-IsOrder : IsOrder ltb
ltb-IsOrder = record { asym = λ a b h. ground arith; le_trans = λ a b c h k. ground arith }

three-IsHeap : IsHeap ltb three
three-IsHeap = record {
  ordered = (refl, refl, (tt, tt, tt, tt), (tt, tt, tt, tt));
  full = omega arith;
  sized = refl;
}

heap_insert-IsHeap_example :
    (h' : Heap ℕ) × (heap_insert ltb three 1 ≡ some h') × IsHeap ltb h' × Adds 1 three h'
heap_insert-IsHeap_example = heap_insert-IsHeap ltb ltb-IsOrder three 1 three-IsHeap (omega arith)

heap_remove-IsHeap_example :
    (h' : Heap ℕ) × (heap_remove ltb ◌==◌ three 5 ≡ some h') × IsHeap ltb h' × Adds 5 h' three
heap_remove-IsHeap_example =
    heap_remove-IsHeap ltb ltb-IsOrder ◌==◌ ==_iff 5 three three-IsHeap (omega arith) (omega arith)

-- The new least number becomes the root, and the old root goes to the place behind the last.
heap_insert_least :
    heap_insert ltb three 1
    ≡ some (record { min = node (node (node null 5 null) 3 null) 1 (node null 4 null); nelts = 4 })
unfolding heap_insert descend sift_up plug path_to
heap_insert_least = refl
