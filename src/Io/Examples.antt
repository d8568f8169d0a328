-- ===== src/Io/Examples.antt =====
-- src/unix/core.c: a loop with a watcher of the descriptor 3, and one of the descriptor 9.
use libuv.Prelude.{
  ℕ, ◌≡◌, refl, true, false, none, some, List, [], ◌∷◌, ◌==◌, if◌then◌else◌, arith, Bool-cases, inl,
  inr,
}
use mathlib.Core.List.Sublistᴰ
use libuv.Errno.{uv_enomem, ok, failed}
use libuv.Io.Bits.{Mask, no_events, all_events, smear, bit_or, next_power_of_two}
use libuv.Io.Valid.{IsValid}
use libuv.Io.Start.{Started, uv_io_start-Started}
use libuv.Io.Stop.{Stopped, uv_io_stop-Stopped}
use libuv.Io.Close.{Closed, uv_io_close-Closed, uv_io_feed-IsValid}
use libuv.Io.Pending.{Behaves, Ran, moved, run_pending, run_pending-Ran}
use libuv.Io.Failure.{uv_io_start-freed}
use libuv.Io.{slots, Loop, uv_io_start, uv_io_stop, uv_io_close, is_pending, uv_io_feed}

abbrev readable : Mask
readable = record no_events { poll_in = true }

abbrev one_watcher : Loop
one_watcher = record {
  watchers = slots 8 (λ i. if i == 3 then some 1 else none);
  nwatchers = 6;
  nfds = 1;
  watcher_queue = 1 ∷ [];
  pending_queue = [];
  pq = [];
  ios = λ w. record {
    io_cb = 1;
    fd = some (if w == 1 then 3 else 9);
    events = no_events;
    pevents = (if w == 1 then readable else no_events);
    pending_stale = false;
  };
}

one_watcher-IsValid : IsValid one_watcher
one_watcher-IsValid = record {
  sized = refl;
  bounded = omega arith;
  counted = refl;
  placed = λ i w lt e. ground arith;
  awaited = λ i w lt e. ground arith;
  queued = λ w. ground arith;
  wanted = λ w lt. ground arith;
  pending = λ w. omega arith;
}

uv_io_start-Started_example :
    (l' : Loop) × (uv_io_start true one_watcher 2 readable ≡ some (ok, l'))
    × Started one_watcher 2 9 readable l'
uv_io_start-Started_example =
    uv_io_start-Started one_watcher 2 9 readable one_watcher-IsValid refl (omega arith) refl

uv_io_stop-Stopped_example :
    (l' : Loop) × (uv_io_stop one_watcher 1 readable ≡ some l')
    × Stopped one_watcher 1 3 readable l'
uv_io_stop-Stopped_example =
    uv_io_stop-Stopped one_watcher 1 3 readable one_watcher-IsValid refl (omega arith) refl

uv_io_close-Closed_example :
    (l' : Loop) × (uv_io_close one_watcher 1 ≡ some l') × Closed one_watcher 1 3 l'
uv_io_close-Closed_example =
    uv_io_close-Closed one_watcher 1 3 one_watcher-IsValid refl (omega arith) refl

uv_io_start-freed_example :
    (l' : Loop) × (uv_io_start false one_watcher 2 readable ≡ some (failed uv_enomem, l'))
    × (uv_io_stop l' 1 all_events ≡ none)
uv_io_start-freed_example =
    uv_io_start-freed one_watcher 2 9 3 1 8 (λ i. if i == 3 then some 1 else none) readable
      one_watcher-IsValid refl refl (omega arith) (omega arith) refl (omega arith) refl

abbrev pending_loop : Loop
pending_loop = record one_watcher { pending_queue = 1 ∷ [] }

pending_loop-IsValid : IsValid pending_loop
pending_loop-IsValid = record {
  sized = refl;
  bounded = omega arith;
  counted = refl;
  placed = λ i w lt e. ground arith;
  awaited = λ i w lt e. ground arith;
  queued = λ w. ground arith;
  wanted = λ w lt. ground arith;
  pending = λ w. ground arith;
}

-- A callback that feeds its watcher again, as that of a stream with more to write does.
abbrev feed_again : ℕ → Loop → Loop
feed_again w l = uv_io_feed l w

feed_again-Behaves : Behaves feed_again
unfolding uv_io_feed
feed_again-Behaves = record {
  keeps = λ w l v. (let (valid, fed) = uv_io_feed-IsValid l w v in valid);
  removes = λ w l. elim (Bool-cases (is_pending l w)) [
    | inl here ↦ rw here (Sublistᴰ.refl l.pq)
    | inr new ↦ rw new (Sublistᴰ.refl l.pq)
  ];
}

run_pending-Ran_example :
    (calls : List ℕ) × (end : Loop) × (run_pending feed_again 2 pending_loop ≡ some end)
    × Ran feed_again (moved pending_loop) calls end
run_pending-Ran_example =
    run_pending-Ran feed_again pending_loop feed_again-Behaves pending_loop-IsValid refl

eight : next_power_of_two 6 ≡ 8
unfolding next_power_of_two smear bit_or
eight = refl
