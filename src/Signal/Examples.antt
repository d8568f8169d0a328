-- ===== src/Signal/Examples.antt =====
-- src/unix/signal.c: a one-shot handle and a regular one for the same signal.
use libuv.Prelude.{◌∷◌, ℕ, ◌≡◌, ◌∙◌, refl, Bool, true, false, some, ◌>>=◌, []}
use libuv.Errno.{Status, ok}
use libuv.Signal.{SignalHandle, signal_compare, default_action, caught}
use libuv.Signal.Tree.{Signals}
use libuv.Signal.Actions.{
  has_failed, first_handle, signal_stop, start_stopped, signal_start, notify, signal_handler,
  catch_signal,
}
use libuv.Signal.Lists.{list_tree}
use libuv.Signal.Valid.{IsValid}
use libuv.Signal.Delivery.{signal_handler-IsValid}
use libuv.Signal.Start.{Started, signal_start-IsValid}

abbrev idle_handle : SignalHandle
idle_handle = record {
  signum = 0;
  one_shot = false;
  loop = 7;
  signal_cb = 0;
  is_active = false;
  is_closing = false;
  caught_signals = 0;
  dispatched_signals = 0;
}

abbrev nothing_started : Signals list_tree
nothing_started = record {
  handles = λ h. idle_handle;
  started = [];
  disposition = λ n. default_action;
  pipe = λ l. [];
}

abbrev accepts : ℕ → Status
accepts n = ok

abbrev room : ℕ → Bool
room l = true

nothing_started-IsValid : IsValid list_tree nothing_started
nothing_started-IsValid = record {
  sorted = tt;
  member = λ h. refl;
  active = λ h. refl;
  suits = λ n. record { kept = refl; unwatched = refl };
}

-- Signal 12 arrives between the two locks.
abbrev signal_12 : Signals list_tree → Signals list_tree
signal_12 s = signal_handler list_tree room 12 s

signal_12-keeps :
    (t : Signals list_tree)
    → IsValid list_tree t
    → (t.handles 1).signum ≡ 0
    → IsValid list_tree (signal_12 t) × (((signal_12 t).handles 1).signum ≡ 0)
signal_12-keeps t valid idle =
    let (valid', same) = signal_handler-IsValid list_tree room 12 t valid in (valid', same 1 ∙ idle)

signal_start-IsValid_example :
    IsValid list_tree (signal_start list_tree accepts signal_12 nothing_started 1 5 10 true).1
    × Started list_tree accepts 1 5 10 true
        (signal_start list_tree accepts signal_12 nothing_started 1 5 10 true)
    × (has_failed (signal_start list_tree accepts signal_12 nothing_started 1 5 10 true).0 ≡ false)
unfolding first_handle signal_handler notify signal_stop
signal_start-IsValid_example =
    signal_start-IsValid list_tree accepts signal_12 nothing_started 1 5 10 true signal_12-keeps
      nothing_started-IsValid refl

-- A one-shot handle and a regular one for the same signal, which is then caught each time.
abbrev once_10 : Signals list_tree
once_10 = (signal_start list_tree accepts signal_12 nothing_started 1 5 10 true).1

abbrev both_10 : Signals list_tree
both_10 = (signal_start list_tree accepts signal_12 once_10 2 6 10 false).1

both_10-caught : both_10.disposition 10 ≡ caught
unfolding signal_start start_stopped signal_stop first_handle signal_compare signal_handler notify
both_10-caught = refl

both_10-caught_twice :
    (catch_signal list_tree room 10 both_10 >>= λ s. some (s.pipe 7))
    ≡ some ((2, 10) ∷ (1, 10) ∷ [])
unfolding signal_start start_stopped signal_stop first_handle signal_compare signal_handler notify
    catch_signal
both_10-caught_twice = refl
