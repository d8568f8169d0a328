-- ===== src/Watcher/Examples.antt =====
-- src/unix/loop-watcher.c: three active watchers, the first of which stops the second.
use libuv.Prelude.{
  ℕ, ◌≤◌, ◌≡◌, refl, Option, none, some, List, [], ◌∷◌, ◌==◌, leb, ltb, ◌&&◌, if◌then◌else◌, one_if,
  arith,
}
use libuv.Queue.{occurs}
use libuv.Handle.{handle_init, handle_start, handle_stop}
use libuv.Watcher.{
  Watchers, Call, start, stop, perform_all, watcher_start, watcher_stop, run_watchers,
}
use libuv.Watcher.Valid.{IsValid, stops_in}
use libuv.Watcher.Running.{run_watchers-IsValid, run_watchers-IsSpared}

abbrev three : Watchers
three = record {
  handles = 1 ∷ 2 ∷ 3 ∷ [];
  queue = [];
  flags = λ h. record handle_init { active = ltb 0 h && leb h 3 };
  name_cb = λ h. some h;
  active_handles = 3;
}

three-IsValid : IsValid three
three-IsValid = record { queued = λ h. ground arith; callable = λ h on null. cc }

abbrev stop_two : ℕ → ℕ → Watchers → List Call
stop_two cb h w = if h == 1 then stop 2 ∷ start 4 (some 4) ∷ [] else []

run_watchers-IsValid_example :
    (called : List ℕ) × (w' : Watchers) × (run_watchers stop_two three ≡ some (called, w'))
    × IsValid w'
    × (w'.queue ≡ [])
    × ((k : ℕ) → occurs k called ≤ one_if (three.flags k).active)
run_watchers-IsValid_example = run_watchers-IsValid stop_two three three-IsValid refl

spares_three : (cb h : ℕ) (w : Watchers) → stops_in 3 (stop_two cb h w) ≡ 0
spares_three cb h w = ground arith

run_watchers-IsSpared_example :
    (called : List ℕ) × (w' : Watchers) × (run_watchers stop_two three ≡ some (called, w'))
    × (occurs 3 called ≡ 1)
run_watchers-IsSpared_example =
    run_watchers-IsSpared stop_two three 3 three-IsValid refl spares_three

-- Watcher 2 is stopped before its turn, and watcher 4 is started too late for this one.
called_of : Option (List ℕ × Watchers) → List ℕ
called_of none = []
called_of (some (called, w)) = called

three_calls : called_of (run_watchers stop_two three) ≡ 1 ∷ 3 ∷ []
unfolding called_of run_watchers perform_all watcher_stop watcher_start handle_start handle_stop
three_calls = refl
