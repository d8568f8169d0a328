-- ===== src/Closing/Examples.antt =====
-- src/unix/core.c: two closing handles, a stream and a signal handle with a caught signal, and a
-- callback that closes a third handle.
use libuv.Prelude.{
  ℕ, ◌≡◌, refl, true, false, Option, none, some, List, [], ◌∷◌, ◌==◌, if◌then◌else◌, arith,
}
use libuv.Handle.{handle_init, handle_unref, is_closing}
use libuv.Closing.Valid.{IsPending}
use libuv.Closing.Running.{Finished, run_closing_handles-Finished}
use libuv.Closing.{
  uv_signal, uv_stream, Handles, Types, update, uv_close, run_closing_handles, finish_all,
  finish_close, finish_kind, finish_destroy, finish, call_close_cb, close_all, close_kind,
  make_close_pending,
}

abbrev deactivate : ℕ → Handles → Handles
deactivate h s = record s { flags = update s.flags h (record (s.flags h) { active = false }) }

deactivate-closing :
    (h k : ℕ) (s : Handles) → ((deactivate h s).flags k).closing ≡ (s.flags k).closing
deactivate-closing h k s = ground arith

deactivate-closed : (h k : ℕ) (s : Handles) → ((deactivate h s).flags k).closed ≡ (s.flags k).closed
deactivate-closed h k s = ground arith

abbrev plain_types : Types
plain_types = record {
  stop = deactivate;
  destroy = λ h s. s;
  destroy_closes = λ h s. (3, none) ∷ [];
  stop-list = λ h s. refl;
  stop-closing = deactivate-closing;
  stop-closed = deactivate-closed;
  destroy-list = λ h s. refl;
  destroy-closing = λ h k s. refl;
  destroy-closed = λ h k s. refl;
}

abbrev close_three : ℕ → ℕ → Handles → List (ℕ × Option ℕ)
close_three cb h s = (3, none) ∷ []

abbrev two_closing : Handles
two_closing = record {
  handle_queue = 1 ∷ 2 ∷ 3 ∷ [];
  closing_handles = 2 ∷ 1 ∷ [];
  flags = λ h. if h == 3 then handle_init else record handle_init { closing = true };
  kind = λ h. if h == 1 then uv_signal else uv_stream;
  close_cb = λ h. if h == 2 then some 7 else none;
  caught_signals = λ h. 1;
  dispatched_signals = λ h. 0;
  active_handles = 0;
}

two_closing-IsPending : IsPending two_closing []
two_closing-IsPending = record { listed = λ k. ground arith }

run_closing_handles-Finished_example :
    (s' : Handles) × (run_closing_handles plain_types close_three two_closing ≡ some s')
    × Finished (record two_closing { closing_handles = [] }) (2 ∷ 1 ∷ []) s'
run_closing_handles-Finished_example =
    run_closing_handles-Finished plain_types close_three two_closing two_closing-IsPending

-- The handle 2 is closed, the signal handle waits, and the handle 3 has come in.
list_of : Option Handles → List ℕ
list_of none = []
list_of (some s) = s.closing_handles

two_closing-list : list_of (run_closing_handles plain_types close_three two_closing) ≡ 1 ∷ 3 ∷ []
unfolding list_of run_closing_handles finish_all finish_close finish_kind finish_destroy finish
    call_close_cb close_all uv_close close_kind make_close_pending handle_unref is_closing
two_closing-list = refl
