-- ===== src/Stream/Callbacks.antt =====
-- src/unix/stream.c: the callbacks of writes and of a shutdown, and the end of a stream.
use libuv.Prelude.{
  ℕ, zero, suc, ◌-◌, Bool, true, false, not, ◌||◌, Option, none, some, List, [], ◌∷◌, ◌++◌, ◌==◌,
  if◌then◌else◌, ◌>>=◌, length,
}
use libuv.Errno.{Errno, uv_ecanceled, uv_enotconn, Status, ok, failed}
use libuv.Handle.{req_register, req_unregister}
use libuv.Stream.{Req, Stream, write_req_size, flush_write_queue}

-- A stream with what its end is about. The flags are `UV_HANDLE_CLOSING`, `UV_HANDLE_CLOSED` and
-- `UV_HANDLE_SHUT`; `wants_in` is `POLLIN` in what the watcher waits for. A request to shut down is its
-- callback, and `connect_req_cb` the callback in the request to connect, if there is that request.
-- `pq` is the local queue of `uv__write_callbacks`. `called` is not in the code: it collects the
-- requests whose callbacks were called, with their status.
pub record Session : Type 0 where
  pub stream : Stream
  pub closing : Bool
  pub closed : Bool
  pub wants_in : Bool
  pub shut : Bool
  pub shutdown_req : Option (Option ℕ)
  pub connect_req_cb : Option ℕ
  pub pq : List Req
  pub called : List (ℕ × Option Errno)

abbrev pub is_shutting : Session → Bool
is_shutting t = elim t.shutdown_req [ none ↦ false | some cb ↦ true ]

abbrev pub unregister_req : Session → Option Session
unregister_req t = req_unregister t.stream.active_reqs >>= λ n.
    some (record t { stream = record t.stream { active_reqs = n } })

abbrev pub has_bufs : Req → Bool
has_bufs r = elim r.bufs [ none ↦ false | some bs ↦ true ]

-- What is left of the buffers of a request that failed leaves `write_queue_size`.
unfoldable pub free_bufs : Session → Req → Option Session
free_bufs t r =
    if has_bufs r
    then (write_req_size t.stream r >>= λ size. some (record t {
      stream = record t.stream { write_queue_size = t.stream.write_queue_size - size };
    }))
    else some t

abbrev pub has_error : Option Errno → Bool
has_error none = false
has_error (some e) = true

-- What the callbacks of the user do, with the status that they are given; `shutdown_result` is what
-- `shutdown` gives, `none` for 0.
module _ (write_cb : ℕ → ℕ → Option Errno → Session → Session)
    (shutdown_cb : ℕ → Option Errno → Session → Session)
    (connect_cb : ℕ → Option Errno → Session → Session) (shutdown_result : Option Errno) where
  -- `if (req->cb) req->cb(req, req->error)`
  unfoldable pub report : Session → Req → Option ℕ → Session
  report t r none = t
  report t r (some cb) =
      write_cb cb r.id r.error (record t { called = t.called ++ (r.id, r.error) ∷ [] })

  -- The `while` over the local queue.
  unfoldable pub callback_loop : ℕ → Session → Option Session
  unfolding free_bufs report
  callback_loop zero t = none
  callback_loop (suc fuel) t = elim t.pq [
    | [] ↦ some t
    | r ∷ rest ↦ unregister_req (record t { pq = rest }) >>= λ counted.
        free_bufs counted r >>= λ freed. callback_loop fuel (report freed r r.cb)
  ]

  unfoldable pub write_callbacks : Session → Option Session
  unfolding callback_loop
  write_callbacks t =
      let done = t.stream.write_completed_queue in
      if length done == 0
      then some t
      else callback_loop (suc (length done))
          (record t { stream = record t.stream { write_completed_queue = [] }; pq = done })

  -- `if (req->cb != NULL) req->cb(req, err)`
  unfoldable pub report_shutdown : Session → Option Errno → Option ℕ → Session
  report_shutdown t err none = t
  report_shutdown t err (some cb) = shutdown_cb cb err t

  -- Behind `uv__req_unregister`.
  unfoldable pub shut_down : Session → Option ℕ → Session
  unfolding report_shutdown
  shut_down t cb =
      if t.closing
      then report_shutdown t (some uv_ecanceled) cb
      else report_shutdown (record t { shut = not (has_error shutdown_result) || t.shut })
          shutdown_result cb

  unfoldable pub drain_req : Session → Option (Option ℕ) → Option Session
  unfolding shut_down
  drain_req t none = some t
  drain_req t (some cb) =
      if t.closing || not t.shut
      then (unregister_req (record t { shutdown_req = none }) >>= λ counted.
          some (shut_down counted cb))
      else some t

  unfoldable pub drain : Session → Option Session
  unfolding drain_req
  drain t =
      let stopped =
        if t.closing then t else record t { stream = record t.stream { wants_out = false } } in
      if length t.stream.write_queue == 0 then drain_req stopped t.shutdown_req else none

  -- The callback of a connection that is still awaited runs, without a test for `NULL`, before the
  -- request is forgotten.
  unfoldable pub call_connect_cb : Session → Option ℕ → Option Session
  call_connect_cb t none = none
  call_connect_cb t (some cb) =
      let called = connect_cb cb (some uv_ecanceled) t in
      some (record called { stream = record called.stream { connecting = false } })

  unfoldable pub cancel_connect : Session → Option Session
  unfolding call_connect_cb
  cancel_connect t =
      if t.stream.connecting
      then (unregister_req t >>= λ counted. call_connect_cb counted t.connect_req_cb)
      else some t

  -- Behind the two assertions.
  unfoldable pub destroy_requests : Session → Option Session
  unfolding cancel_connect write_callbacks drain
  destroy_requests t = cancel_connect t >>= λ unconnected.
      write_callbacks
        (record unconnected { stream = flush_write_queue unconnected.stream uv_ecanceled })
      >>= λ reported. drain reported >>= λ drained.
          if drained.stream.write_queue_size == 0 then some drained else none

  unfoldable pub stream_destroy : Session → Option Session
  unfolding destroy_requests
  stream_destroy t =
      if t.wants_in || t.stream.wants_out
      then none
      else if t.closed
      then destroy_requests t
      else none

-- `req` is known by its callback, and given to `uv__io_feed` is the watcher of the stream.
unfoldable pub uv_shutdown : Session → Option ℕ → Status × Session
uv_shutdown t cb =
    if not t.stream.writable || (t.shut || (is_shutting t || t.closing))
    then (failed uv_enotconn, t)
    else (
      ok,
      record t {
        shutdown_req = some cb;
        stream = record t.stream {
          active_reqs = req_register t.stream.active_reqs;
          writable = false;
          fed = if length t.stream.write_queue == 0 then true else t.stream.fed;
        };
      },
    )
