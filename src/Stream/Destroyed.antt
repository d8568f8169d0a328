-- ===== src/Stream/Destroyed.antt =====
-- src/unix/stream.c: `uv__stream_destroy` leaves no request behind.
use libuv.Prelude.{
  ℕ, suc, ◌+◌, ◌≤◌, ◌≡◌, refl, sym, ap, ◌∙◌, true, false, Bool, ◌||◌, if◌then◌else◌, Option, none,
  some, List, [], ◌∷◌, ◌++◌, ◌==◌, length, length-append, append_assoc, All, All-append, one_if,
  arith,
}
use libuv.Errno.{Errno, uv_ecanceled}
use libuv.Stream.{Req, map_error, flush_write_queue}
use libuv.Stream.Valid.{unsent, queued}
use libuv.Stream.Callbacks.{
  Session, is_shutting, write_callbacks, drain, cancel_connect, destroy_requests, stream_destroy,
}
use libuv.Stream.Live.{IsLive, IsSmall, requests_of, Behaves, call_of, calls}
use libuv.Stream.Draining.{drain-Drained, unconnected-IsLive}
use libuv.Stream.Called.{write_callbacks-Reported}

queued-append-all :
    (a b : List Req) → length (queued (a ++ b)) ≡ length (queued a) + length (queued b)
queued-append-all [] b = omega arith
queued-append-all (r ∷ a) b = omega (
  arith,
  length-append (unsent r) (queued (a ++ b)),
  length-append (unsent r) (queued a),
  queued-append-all a b,
)

calls-append : (a b : List Req) → calls (a ++ b) ≡ calls a ++ calls b
calls-append [] b = refl
calls-append (r ∷ a) b =
    ap (λ c. call_of r r.cb ++ c) (calls-append a b)
    ∙ sym (append_assoc (call_of r r.cb) (calls a) (calls b))

-- The status is all that changes in the requests that are flushed.
queued-map_error : (e : Errno) (q : List Req) → queued (map_error e q) ≡ queued q
unfolding map_error
queued-map_error e [] = refl
queued-map_error e (r ∷ q) = ap (λ t. unsent r ++ t) (queued-map_error e q)

length-map_error : (e : Errno) (q : List Req) → length (map_error e q) ≡ length q
unfolding map_error
length-map_error e [] = refl
length-map_error e (r ∷ q) = ap suc (length-map_error e q)

map_error-IsSmall : (e : Errno) (q : List Req) → All IsSmall q → All IsSmall (map_error e q)
unfolding map_error
map_error-IsSmall e [] small = tt
map_error-IsSmall e (r ∷ q) small = (small.0, map_error-IsSmall e q small.1)

abbrev flushed : Session → Session
flushed t = record t { stream = flush_write_queue t.stream uv_ecanceled }

flushed-IsLive : (t : Session) → IsLive t → IsLive (flushed t)
unfolding flush_write_queue
flushed-IsLive t v =
    let done = t.stream.write_completed_queue in
    let canceled = map_error uv_ecanceled t.stream.write_queue in
    let len = length-map_error uv_ecanceled t.stream.write_queue in
    record {
      sized = omega (
        arith,
        v.sized,
        queued-append-all done canceled,
        ap length (queued-map_error uv_ecanceled t.stream.write_queue),
      );
      small_waiting = tt;
      small_done =
          All-append IsSmall done canceled v.small_done
            (map_error-IsSmall uv_ecanceled t.stream.write_queue v.small_waiting);
      small_pq = v.small_pq;
      counted = omega (arith, v.counted, length-append done canceled, len);
    }

flushed-waiting : (t : Session) → (flushed t).stream.write_queue ≡ []
unfolding flush_write_queue
flushed-waiting t = refl

flushed-connecting : (t : Session) → (flushed t).stream.connecting ≡ t.stream.connecting
unfolding flush_write_queue
flushed-connecting t = refl

flushed-calls :
    (t u : Session)
    → u.stream.write_queue ≡ t.stream.write_queue
    → u.stream.write_completed_queue ≡ t.stream.write_completed_queue
    → u.called ≡ t.called
    → (flushed u).called ++ calls (flushed u).stream.write_completed_queue
      ≡ t.called
        ++ (calls t.stream.write_completed_queue
            ++ calls (map_error uv_ecanceled t.stream.write_queue))
unfolding flush_write_queue
flushed-calls t u waiting done called =
    let canceled = λ (q : List Req). calls (map_error uv_ecanceled q) in
    ap (λ c. u.called ++ c)
      (calls-append u.stream.write_completed_queue (map_error uv_ecanceled u.stream.write_queue))
    ∙ ap (λ c. c ++ (calls u.stream.write_completed_queue ++ canceled u.stream.write_queue)) called
    ∙ ap (λ q. t.called ++ (calls q ++ canceled u.stream.write_queue)) done
    ∙ ap (λ q. t.called ++ (calls t.stream.write_completed_queue ++ canceled q)) waiting

-- What is left of a stream: no request to write, to shut down or to connect, and the callbacks that its end has called.
pub record Destroyed (t end : Session) : Type 0 where
  pub no_waiting : end.stream.write_queue ≡ []
  pub no_done : end.stream.write_completed_queue ≡ []
  pub no_bytes : end.stream.write_queue_size ≡ 0
  pub no_shutdown : end.shutdown_req ≡ none
  pub no_connect : end.stream.connecting ≡ false
  pub called :
      end.called
      ≡ t.called
        ++ (calls t.stream.write_completed_queue
            ++ calls (map_error uv_ecanceled t.stream.write_queue))

module _ (write_cb : ℕ → ℕ → Option Errno → Session → Session)
    (shutdown_cb : ℕ → Option Errno → Session → Session)
    (connect_cb : ℕ → Option Errno → Session → Session) (shutdown_result : Option Errno)
    (write_behaves : (cb id : ℕ) (status : Option Errno) → Behaves (write_cb cb id status))
    (shutdown_behaves : (cb : ℕ) (status : Option Errno) → Behaves (shutdown_cb cb status))
    (connect_behaves : (cb : ℕ) (status : Option Errno) → Behaves (connect_cb cb status)) where
  destroy_requests-steps :
      (t u reported drained : Session)
      → cancel_connect write_cb shutdown_cb connect_cb shutdown_result t ≡ some u
      → write_callbacks write_cb shutdown_cb connect_cb shutdown_result (flushed u) ≡ some reported
      → drain write_cb shutdown_cb connect_cb shutdown_result reported ≡ some drained
      → drained.stream.write_queue_size ≡ 0
      → destroy_requests write_cb shutdown_cb connect_cb shutdown_result t ≡ some drained
  unfolding destroy_requests
  destroy_requests-steps t u reported drained canceled told down no_bytes =
      let empty : (drained.stream.write_queue_size == 0) ≡ true = ground arith in
      rw (canceled, told, down) (rw empty refl)

  stream_destroy-steps :
      (t end : Session)
      → t.wants_in ≡ false
      → t.stream.wants_out ≡ false
      → t.closed ≡ true
      → destroy_requests write_cb shutdown_cb connect_cb shutdown_result t ≡ some end
      → stream_destroy write_cb shutdown_cb connect_cb shutdown_result t ≡ some end
  unfolding stream_destroy
  stream_destroy-steps t end no_in no_out closed run =
      let go = destroy_requests write_cb shutdown_cb connect_cb shutdown_result t in
      let guards = λ (i o c : Bool). if i || o then none else if c then go else none in
      ap (λ i. guards i t.stream.wants_out t.closed) no_in
      ∙ ap (λ o. guards false o t.closed) no_out
      ∙ ap (λ c. guards false false c) closed
      ∙ run

  -- On a live stream that is closing and closed, whose watcher waits for nothing, whose request to
  -- connect, if there is one, has a callback, whose `active_reqs` counts that request too, and with
  -- callbacks that behave, `uv__stream_destroy` ends without a fault: its assertions and those of what
  -- it calls hold. No request is left, no byte is counted in `write_queue_size`, and neither a shutdown
  -- nor a connection is awaited. The callbacks of all writes were called once each:
  -- first those of the completed ones, with their status, and then those of the ones that waited, with
  -- UV_ECANCELED, each in their order.
  pub stream_destroy-Destroyed :
      (t : Session) (cb : ℕ)
      → (t.stream.connecting ≡ true → t.connect_req_cb ≡ some cb)
      → IsLive t
      → t.closing ≡ true
      → t.closed ≡ true
      → t.wants_in ≡ false
      → t.stream.wants_out ≡ false
      → t.pq ≡ []
      → requests_of t + one_if (is_shutting t) + one_if t.stream.connecting ≤ t.stream.active_reqs
      → (end : Session) × (stream_destroy write_cb shutdown_cb connect_cb shutdown_result t
          ≡ some end)
        × Destroyed t end
  stream_destroy-Destroyed t cb given v on closed no_in no_out at room =
      let (u, canceled, live, closing, waiting, done, same_pq, called, unconnected) =
        unconnected-IsLive write_cb shutdown_cb connect_cb shutdown_result shutdown_behaves
          connect_behaves t cb given v on room in
      let (reported, told, live', empty, calls', e) =
        write_callbacks-Reported write_cb shutdown_cb connect_cb shutdown_result write_behaves
          (flushed u) (flushed-IsLive u live) (same_pq ∙ at) in
      let no_waiting = e.waiting closing ∙ flushed-waiting u in
      let (end, down, d) =
        drain-Drained write_cb shutdown_cb connect_cb shutdown_result shutdown_behaves reported
          live' (e.closing closing) no_waiting in
      let none_waiting = d.waiting ∙ no_waiting in
      let none_done = d.done ∙ e.done closing in
      let no_bytes : end.stream.write_queue_size ≡ 0 = omega (
        arith,
        d.live.sized,
        ap (λ q. length (queued q)) none_waiting,
        ap (λ q. length (queued q)) none_done,
        ap (λ q. length (queued q)) (d.same_pq ∙ empty),
      ) in
      (
        end,
        stream_destroy-steps t end no_in no_out closed
            (destroy_requests-steps t u reported end canceled told down no_bytes),
        record {
          no_waiting = none_waiting;
          no_done = none_done;
          no_bytes = no_bytes;
          no_shutdown = d.no_shutdown;
          no_connect = d.connect ∙ e.connect closing ∙ flushed-connecting u ∙ unconnected;
          called = d.called ∙ calls' ∙ flushed-calls t u waiting done called;
        },
      )
