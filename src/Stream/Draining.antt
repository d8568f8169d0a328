-- ===== src/Stream/Draining.antt =====
-- src/unix/stream.c: `uv__drain` and the request to connect, on a stream that is closing.
use libuv.Prelude.{
  ℕ, ◌+◌, ◌-◌, ◌≤◌, ◌≡◌, inl, inr, refl, ap, ◌∙◌, Bool, true, false, ◌||◌, not, ltb, Option, none,
  some, Bool-cases, [], ◌==◌, if◌then◌else◌, ◌>>=◌, length, one_if, arith,
}
use libuv.Errno.{Errno, uv_ecanceled}
use libuv.Stream.Callbacks.{
  Session, is_shutting, unregister_req, has_error, report_shutdown, shut_down, drain_req, drain,
  cancel_connect, call_connect_cb,
}
use libuv.Stream.Live.{IsLive, requests_of, Behaves}

module _ (write_cb : ℕ → ℕ → Option Errno → Session → Session)
    (shutdown_cb : ℕ → Option Errno → Session → Session)
    (connect_cb : ℕ → Option Errno → Session → Session) (shutdown_result : Option Errno)
    (shutdown_behaves : (cb : ℕ) (status : Option Errno) → Behaves (shutdown_cb cb status)) where
  -- What `uv__drain` leaves of a closing stream.
  pub record Drained (t end : Session) : Type 0 where
    pub live : IsLive end
    pub no_shutdown : end.shutdown_req ≡ none
    pub waiting : end.stream.write_queue ≡ t.stream.write_queue
    pub done : end.stream.write_completed_queue ≡ t.stream.write_completed_queue
    pub same_pq : end.pq ≡ t.pq
    pub connect : end.stream.connecting ≡ t.stream.connecting
    pub called : end.called ≡ t.called

  report_shutdown-Drained :
      (t : Session) (status : Option Errno) (cb : Option ℕ)
      → IsLive t
      → t.closing ≡ true
      → t.shutdown_req ≡ none
      → Drained t (report_shutdown write_cb shutdown_cb connect_cb shutdown_result t status cb)
  unfolding report_shutdown
  report_shutdown-Drained t status none v on gone = record {
    live = v;
    no_shutdown = gone;
    waiting = refl;
    done = refl;
    same_pq = refl;
    connect = refl;
    called = refl;
  }
  report_shutdown-Drained t status (some cb) v on gone =
      let b = shutdown_behaves cb status in
      let quiet = b.quiet t on in
      record {
        live = b.keeps t v;
        no_shutdown = quiet.3 ∙ gone;
        waiting = quiet.1;
        done = quiet.2;
        same_pq = b.same_pq t;
        connect = quiet.4;
        called = b.same_called t;
      }

  -- The shutdown is counted out and forgotten.
  abbrev forgotten : Session → Session
  forgotten t = record t {
    stream = record t.stream { active_reqs = t.stream.active_reqs - 1 };
    shutdown_req = none;
  }

  drain_req-closing :
      (t : Session) (cb : Option ℕ)
      → t.closing ≡ true
      → ltb 0 t.stream.active_reqs ≡ true
      → drain_req write_cb shutdown_cb connect_cb shutdown_result t (some cb)
        ≡ some (
            report_shutdown write_cb shutdown_cb connect_cb shutdown_result
              (forgotten t)
              (some uv_ecanceled)
              cb)
  unfolding drain_req shut_down
  drain_req-closing t cb on some_req =
      let u = forgotten t in
      let down = shut_down write_cb shutdown_cb connect_cb shutdown_result in
      let end = report_shutdown write_cb shutdown_cb connect_cb shutdown_result in
      let counting = unregister_req (record t { shutdown_req = none }) >>= λ c. some (down c cb) in
      let closed : down u cb ≡ end u (some uv_ecanceled) cb =
        ap
          (λ b.
            if b
            then end u (some uv_ecanceled) cb
            else end (record u { shut = not (has_error shutdown_result) || u.shut }) shutdown_result
                cb)
          on in
      ap (λ b. if b || not t.shut then counting else some t) on ∙ rw some_req (ap some closed)

  drain_req-Drained :
      (t : Session) (req : Option (Option ℕ))
      → t.shutdown_req ≡ req
      → IsLive t
      → t.closing ≡ true
      → (end : Session) × (drain_req write_cb shutdown_cb connect_cb shutdown_result t req
          ≡ some end)
        × Drained t end
  unfolding drain_req shut_down
  drain_req-Drained t none at v on = (
    t,
    refl,
    record {
      live = v;
      no_shutdown = at;
      waiting = refl;
      done = refl;
      same_pq = refl;
      connect = refl;
      called = refl;
    },
  )
  drain_req-Drained t (some cb) at v on =
      let shutting : is_shutting t ≡ true = rw at refl in
      let some_req : ltb 0 t.stream.active_reqs ≡ true = ground (arith, v.counted, shutting) in
      let live : IsLive (forgotten t) = record {
        sized = v.sized;
        small_waiting = v.small_waiting;
        small_done = v.small_done;
        small_pq = v.small_pq;
        counted = ground (arith, v.counted, shutting);
      } in
      let d = report_shutdown-Drained (forgotten t) (some uv_ecanceled) cb live on refl in
      (
        report_shutdown write_cb shutdown_cb connect_cb shutdown_result (forgotten t)
            (some uv_ecanceled) cb,
        drain_req-closing t cb on some_req,
        record {
          live = d.live;
          no_shutdown = d.no_shutdown;
          waiting = d.waiting;
          done = d.done;
          same_pq = d.same_pq;
          connect = d.connect;
          called = d.called;
        },
      )

  pub drain-Drained :
      (t : Session)
      → IsLive t
      → t.closing ≡ true
      → t.stream.write_queue ≡ []
      → (end : Session) × (drain write_cb shutdown_cb connect_cb shutdown_result t ≡ some end)
        × Drained t end
  unfolding drain
  drain-Drained t v on empty =
      let none_waiting : (length t.stream.write_queue == 0) ≡ true = rw empty refl in
      let (end, run, d) = drain_req-Drained t t.shutdown_req refl v on in
      let req = drain_req write_cb shutdown_cb connect_cb shutdown_result in
      let stopped = record t { stream = record t.stream { wants_out = false } } in
      let same = ap (λ b. req (if b then t else stopped) t.shutdown_req) on in
      (end, rw (drain, none_waiting) (same ∙ run), d)

  pub unconnected-IsLive :
      ((cb : ℕ) (status : Option Errno) → Behaves (connect_cb cb status))
      → (t : Session) (cb : ℕ) → (t.stream.connecting ≡ true → t.connect_req_cb ≡ some cb)
      → IsLive t
      → t.closing ≡ true
      → requests_of t + one_if (is_shutting t) + one_if t.stream.connecting ≤ t.stream.active_reqs
      → (u : Session) × (cancel_connect write_cb shutdown_cb connect_cb shutdown_result t ≡ some u)
        × IsLive u
        × (u.closing ≡ true)
        × (u.stream.write_queue ≡ t.stream.write_queue)
        × (u.stream.write_completed_queue ≡ t.stream.write_completed_queue)
        × (u.pq ≡ t.pq)
        × (u.called ≡ t.called)
        × (u.stream.connecting ≡ false)
  unfolding cancel_connect call_connect_cb
  unconnected-IsLive connect_behaves t cb given v on room =
      let call = call_connect_cb write_cb shutdown_cb connect_cb shutdown_result in
      let cancel = λ (c : Session). call c t.connect_req_cb in
      let choose = λ (b : Bool). if b then unregister_req t >>= cancel else some t in
      elim (Bool-cases t.stream.connecting) [
        | inl awaited ↦
            let b = connect_behaves cb (some uv_ecanceled) in
            let counted = record t {
              stream = record t.stream { active_reqs = t.stream.active_reqs - 1 };
            } in
            let some_req : ltb 0 t.stream.active_reqs ≡ true = ground (arith, room, awaited) in
            let live : IsLive counted = record {
              sized = v.sized;
              small_waiting = v.small_waiting;
              small_done = v.small_done;
              small_pq = v.small_pq;
              counted = ground (arith, room, awaited);
            } in
            let u = connect_cb cb (some uv_ecanceled) counted in
            let after = b.keeps counted live in
            let quiet = b.quiet counted on in
            (
              record u { stream = record u.stream { connecting = false } },
              ap choose awaited ∙ rw some_req (ap (call counted) (given awaited)),
              record {
                sized = after.sized;
                small_waiting = after.small_waiting;
                small_done = after.small_done;
                small_pq = after.small_pq;
                counted = after.counted;
              },
              quiet.0,
              quiet.1,
              quiet.2,
              b.same_pq counted,
              b.same_called counted,
              refl,
            )
        | inr not_awaited ↦ (t, ap choose not_awaited, v, on, refl, refl, refl, refl, not_awaited)
      ]
