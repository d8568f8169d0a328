-- ===== src/Queue/Examples.antt =====
-- src/queue.h: runs on concrete queues.
use libuv.Prelude.{ℕ, ◌≡◌, refl, some, List, [], ◌∷◌, ◌==◌, length, arith}
use libuv.Queue.Links.{Links, queue_empty}
use libuv.Queue.Rings.{
  Op, init, insert_head, insert_tail, remove, move, add, forget, perform, perform_all,
  carry_out_all, Represents,
}
use libuv.Queue.Refines.{carry_out_all-Represents}
use libuv.Queue.Walk.{queue_foreach, queue_foreach-carry_out_all}

abbrev no_links : Links
no_links = record { next = λ k. 0; prev = λ k. 0 }

-- What the callbacks of a loop do to a queue: it is moved aside, and added to meanwhile.
abbrev busy : List Op
busy =
    init 1
    ∷ insert_tail 1 5
    ∷ insert_head 1 6
    ∷ insert_tail 1 7
    ∷ move 1 2
    ∷ remove 5
    ∷ insert_tail 1 5
    ∷ add 1 2
    ∷ init 2
    ∷ forget 2
    ∷ []

abbrev three : List ℕ
three = 5 ∷ 6 ∷ 7 ∷ []

no_links-Represents : Represents no_links []
no_links-Represents = record { apart = λ k. omega arith; linked = tt }

carry_out_all-Represents_example : Represents (carry_out_all busy no_links) ((1, three) ∷ [])
unfolding perform_all perform
carry_out_all-Represents_example =
    carry_out_all-Represents busy no_links [] ((1, three) ∷ []) no_links-Represents refl

queue_foreach-carry_out_all_example :
    (queue_foreach 4 (carry_out_all busy no_links) 1 ≡ some three)
    × (queue_empty (carry_out_all busy no_links) 1 ≡ (length three == 0))
unfolding perform_all perform
queue_foreach-carry_out_all_example =
    queue_foreach-carry_out_all busy no_links [] ((1, three) ∷ []) 1 three [] 4 no_links-Represents
      refl refl (omega arith)
