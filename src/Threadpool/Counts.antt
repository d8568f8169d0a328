-- ===== src/Threadpool/Counts.antt =====
-- src/threadpool.c: the messages in `wq` and the slow workers, counted.
use libuv.Prelude.{
  ℕ, suc, ◌+◌, ◌≤◌, true, false, List, [], ◌∷◌, ◌++◌, arith, ap, refl, ◌≡◌, if◌then◌else◌, length,
}
use libuv.Threadpool.{
  Item, work_item, run_slow_work_message, exit_message, Job, running, returning, is_slow_scheduled,
  unlink, unlink_item,
}

-- How often the message stands in the queue, and how many jobs are slow.
unfoldable pub messages : List Item → ℕ
messages [] = 0
messages (run_slow_work_message ∷ q) = suc (messages q)
messages (work_item w ∷ q) = messages q
messages (exit_message ∷ q) = messages q

unfoldable pub slow_jobs : List Job → ℕ
slow_jobs [] = 0
slow_jobs (running w slow ∷ js) = (if slow then 1 else 0) + slow_jobs js
slow_jobs (returning slow ∷ js) = (if slow then 1 else 0) + slow_jobs js

pub messages-append : (a b : List Item) → messages (a ++ b) ≡ messages a + messages b
unfolding messages
messages-append [] b = omega arith
messages-append (run_slow_work_message ∷ a) b = omega (arith, messages-append a b)
messages-append (work_item w ∷ a) b = messages-append a b
messages-append (exit_message ∷ a) b = messages-append a b

pub slow_jobs-append : (a b : List Job) → slow_jobs (a ++ b) ≡ slow_jobs a + slow_jobs b
unfolding slow_jobs
slow_jobs-append [] b = omega arith
slow_jobs-append (running w slow ∷ a) b = let e = slow_jobs-append a b in ground arith
slow_jobs-append (returning slow ∷ a) b = let e = slow_jobs-append a b in ground arith

pub is_slow_scheduled-true : (q : List Item) → is_slow_scheduled q ≡ true → 1 ≤ messages q
unfolding messages is_slow_scheduled
is_slow_scheduled-true [] h = cc
is_slow_scheduled-true (run_slow_work_message ∷ q) h = omega arith
is_slow_scheduled-true (work_item w ∷ q) h = is_slow_scheduled-true q h
is_slow_scheduled-true (exit_message ∷ q) h = is_slow_scheduled-true q h

pub is_slow_scheduled-false : (q : List Item) → is_slow_scheduled q ≡ false → messages q ≡ 0
unfolding messages is_slow_scheduled
is_slow_scheduled-false [] h = refl
is_slow_scheduled-false (run_slow_work_message ∷ q) h = cc
is_slow_scheduled-false (work_item w ∷ q) h = is_slow_scheduled-false q h
is_slow_scheduled-false (exit_message ∷ q) h = is_slow_scheduled-false q h

pub messages-unlink_item : (w : ℕ) (q : List Item) → messages (unlink_item w q) ≡ messages q
unfolding messages unlink_item
messages-unlink_item w [] = refl
messages-unlink_item w (work_item k ∷ q) = let e = messages-unlink_item w q in ground arith
messages-unlink_item w (run_slow_work_message ∷ q) = ap suc (messages-unlink_item w q)
messages-unlink_item w (exit_message ∷ q) = messages-unlink_item w q

pub length-unlink_le : (w : ℕ) (q : List ℕ) → length (unlink w q) ≤ length q
unfolding unlink
length-unlink_le w [] = omega arith
length-unlink_le w (k ∷ q) = let e = length-unlink_le w q in ground arith
