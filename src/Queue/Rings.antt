-- ===== src/Queue/Rings.antt =====
-- src/queue.h: an abstract view of all the queues of a program, and what the operations are on it.
-- A queue is its head and the list of its nodes. The order of the queues means nothing: an
-- operation puts the queue that it changes first. An operation that the code does not allow, on a
-- node that is in use or that is in no queue, is `none`.
use libuv.Prelude.{ℕ, ◌+◌, ◌≤◌, Option, none, some, List, [], ◌∷◌, ◌++◌, ◌==◌, ◌>>=◌, if◌then◌else◌}
use libuv.Queue.{erase, occurs}
use libuv.Queue.Links.{
  Links, queue_init, queue_add, queue_move, queue_insert_head, queue_insert_tail, queue_remove,
}
use libuv.Queue.Ring.{Linked}

pub data Op : Type 0 where
  init : ℕ → Op
  insert_head : ℕ → ℕ → Op
  insert_tail : ℕ → ℕ → Op
  remove : ℕ → Op
  move : ℕ → ℕ → Op
  add : ℕ → ℕ → Op
  -- The memory of a head is given up.
  forget : ℕ → Op

abbrev pub Rings : Type 0
Rings = List (ℕ × List ℕ)

-- How often a node stands in the queues, as a head or not.
abbrev pub count : ℕ → Rings → ℕ
count k [] = 0
count k ((h, l) ∷ rs) = occurs k (h ∷ l) + count k rs

-- The nodes of the queue of `h`, and the other queues.
abbrev pub find_ring : ℕ → Rings → Option (List ℕ × Rings)
find_ring h [] = none
find_ring h ((g, l) ∷ rs) =
    let rest = find_ring h rs in
    if g == h then some (l, rs) else rest >>= λ found. some (found.0, (g, l) ∷ found.1)

-- The queue in which `q` stands, and the others.
abbrev pub find_node : ℕ → Rings → Option (ℕ × List ℕ × Rings)
find_node q [] = none
find_node q ((g, l) ∷ rs) =
    let rest = find_node q rs in
    if occurs q l == 0
    then (rest >>= λ found. some (found.0, found.1, (g, l) ∷ found.2))
    else some (g, l, rs)

abbrev pub unused : ℕ → Rings → Option Rings
unused q rs = if count q rs == 0 then some rs else none

unfoldable pub perform : Op → Rings → Option Rings
perform (init q) rs = do free ← unused q rs; some ((q, []) ∷ free)
perform (insert_head h q) rs = do
  free ← unused q rs
  (l, others) ← find_ring h free
  some ((h, q ∷ l) ∷ others)
perform (insert_tail h q) rs = do
  free ← unused q rs
  (l, others) ← find_ring h free
  some ((h, l ++ q ∷ []) ∷ others)
perform (remove q) rs = do (h, l, others) ← find_node q rs; some ((h, erase q l) ∷ others)
perform (move h n) rs = do
  free ← unused n rs
  (l, others) ← find_ring h free
  some ((n, l) ∷ (h, []) ∷ others)
perform (add h n) rs = do
  (m, others) ← find_ring n rs
  (l, rest) ← find_ring h others
  some ((h, l ++ m) ∷ rest)
perform (forget h) rs = do (l, others) ← find_ring h rs; some others

-- The same operation on the links.
unfoldable pub carry_out : Op → Links → Links
carry_out (init q) s = queue_init s q
carry_out (insert_head h q) s = queue_insert_head s h q
carry_out (insert_tail h q) s = queue_insert_tail s h q
carry_out (remove q) s = queue_remove s q
carry_out (move h n) s = queue_move s h n
carry_out (add h n) s = queue_add s h n
carry_out (forget h) s = s

unfoldable pub perform_all : List Op → Rings → Option Rings
unfolding perform
perform_all [] rs = some rs
perform_all (o ∷ os) rs = do after ← perform o rs; perform_all os after

unfoldable pub carry_out_all : List Op → Links → Links
unfolding carry_out
carry_out_all [] s = s
carry_out_all (o ∷ os) s = carry_out_all os (carry_out o s)

abbrev pub AllLinked : Links → Rings → Type 0
AllLinked s [] = Unit
AllLinked s ((h, l) ∷ rs) = Linked s h l h × AllLinked s rs

-- The links are those of the queues, and no node stands in them twice.
pub record Represents (s : Links) (rs : Rings) : Type 0 where
  pub apart : (k : ℕ) → count k rs ≤ 1
  pub linked : AllLinked s rs
