-- ===== src/Stream/EndExamples.antt =====
-- src/unix/stream.c: a closing stream with a request that has failed and one that waits.
use libuv.Prelude.{ℕ, ◌≡◌, refl, true, false, Option, none, some, [], ◌∷◌, arith}
use libuv.Errno.{Errno, uv_epipe}
use libuv.Stream.{Req}
use libuv.Stream.Callbacks.{Session, stream_destroy}
use libuv.Stream.Live.{IsLive, Behaves}
use libuv.Stream.Destroyed.{Destroyed, stream_destroy-Destroyed}
use libuv.Stream.Examples.{first_req, second_req, idle}

-- The first request has failed, the second one waits, and a shutdown and a connection are awaited.
abbrev failed_req : Req
failed_req = record first_req { error = some uv_epipe; cb = some 1 }

abbrev waiting_req : Req
waiting_req = record second_req { cb = some 2 }

abbrev ending : Session
ending = record {
  stream = record idle {
    write_queue_size = 7;
    write_queue = waiting_req ∷ [];
    write_completed_queue = failed_req ∷ [];
    connecting = true;
    active_reqs = 4;
  };
  closing = true;
  closed = true;
  wants_in = false;
  shut = false;
  shutdown_req = some (some 3);
  connect_req_cb = some 4;
  pq = [];
  called = [];
}

ending-IsLive : IsLive ending
ending-IsLive = record {
  sized = refl;
  small_waiting = (omega arith, tt);
  small_done = (omega arith, tt);
  small_pq = tt;
  counted = omega arith;
}

-- A callback that feeds the watcher of the stream.
abbrev feeds : Session → Session
feeds t = record t { stream = record t.stream { fed = true } }

feeds-Behaves : Behaves feeds
feeds-Behaves = record {
  keeps = λ t v. record {
    sized = v.sized;
    small_waiting = v.small_waiting;
    small_done = v.small_done;
    small_pq = v.small_pq;
    counted = v.counted;
  };
  same_pq = λ t. refl;
  same_called = λ t. refl;
  quiet = λ t on. (on, refl, refl, refl, refl);
}

abbrev write_feeds : ℕ → ℕ → Option Errno → Session → Session
write_feeds cb id status = feeds

abbrev shutdown_feeds : ℕ → Option Errno → Session → Session
shutdown_feeds cb status = feeds

abbrev connect_feeds : ℕ → Option Errno → Session → Session
connect_feeds cb status = feeds

stream_destroy-Destroyed_example :
    (end : Session) × (stream_destroy write_feeds shutdown_feeds connect_feeds none ending
      ≡ some end)
    × Destroyed ending end
stream_destroy-Destroyed_example =
    stream_destroy-Destroyed write_feeds shutdown_feeds connect_feeds none
      (λ cb id status. feeds-Behaves) (λ cb status. feeds-Behaves) (λ cb status. feeds-Behaves)
      ending 4 (λ on. refl) ending-IsLive refl refl refl refl refl (omega arith)
