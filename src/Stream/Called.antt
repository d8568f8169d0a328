-- ===== src/Stream/Called.antt =====
-- src/unix/stream.c: `uv__write_callbacks` calls the callbacks of the completed requests.
use libuv.Prelude.{
  ℕ, zero, suc, ◌+◌, ◌<◌, ◌^◌, not, ◌||◌, ◌≡◌, inl, inr, refl, sym, ap, ◌∙◌, true, Option, none,
  some, Bool-cases, List, [], ◌∷◌, ◌++◌, ◌==◌, length, append_assoc, append-nil, arith,
}
use libuv.Errno.{Errno}
use libuv.Stream.{Req}
use libuv.Stream.Valid.{queued}
use libuv.Stream.Callbacks.{
  Session, is_shutting, report, callback_loop, write_callbacks, uv_shutdown,
}
use libuv.Stream.Live.{
  IsLive, Behaves, call_of, calls, lighter, popped, unregister_req-popped, taken-IsLive,
  free_bufs-popped, Quiet, Quiet-refl, Quiet-trans, Emptied,
}

no_elements : (reqs : List Req) → (length reqs == 0) ≡ true → reqs ≡ []
no_elements [] none_there = refl
no_elements (r ∷ reqs) none_there = absurd (ground arith)

-- `uv__queue_move` to the local queue.
abbrev moved : Session → Session
moved t = record t {
  stream = record t.stream { write_completed_queue = [] };
  pq = t.stream.write_completed_queue;
}

moved-IsLive : (t : Session) → IsLive t → t.pq ≡ [] → IsLive (moved t)
moved-IsLive t v at = record {
  sized = omega (arith, v.sized, ap (λ q. length (queued q)) at);
  small_waiting = v.small_waiting;
  small_done = tt;
  small_pq = v.small_done;
  counted = omega (arith, v.counted, ap length at);
}

-- The callbacks of some requests were called.
pub record Reported (t : Session) (reqs : List Req) (end : Session) : Type 0 where
  pub live : IsLive end
  pub called : end.called ≡ t.called ++ calls reqs
  pub quiet : Quiet t end

module _ (write_cb : ℕ → ℕ → Option Errno → Session → Session)
    (shutdown_cb : ℕ → Option Errno → Session → Session)
    (connect_cb : ℕ → Option Errno → Session → Session) (shutdown_result : Option Errno)
    (behaves : (cb id : ℕ) (status : Option Errno) → Behaves (write_cb cb id status)) where
  report-Told :
      (t : Session) (r : Req) (cb : Option ℕ)
      → IsLive t
      → let u = report write_cb shutdown_cb connect_cb shutdown_result t r cb in
        IsLive u × (u.pq ≡ t.pq) × (u.called ≡ t.called ++ call_of r cb) × Quiet t u
  unfolding report
  report-Told t r none v = (v, refl, sym (append-nil t.called), Quiet-refl t)
  report-Told t r (some cb) v =
      let logged = record t { called = t.called ++ (r.id, r.error) ∷ [] } in
      let b = behaves cb r.id r.error in
      let live : IsLive logged = record {
        sized = v.sized;
        small_waiting = v.small_waiting;
        small_done = v.small_done;
        small_pq = v.small_pq;
        counted = v.counted;
      } in
      (
        b.keeps logged live,
        b.same_pq logged,
        b.same_called logged,
        record {
          closing = λ on. (b.quiet logged on).0;
          waiting = λ on. (b.quiet logged on).1;
          done = λ on. (b.quiet logged on).2;
          shutdown = λ on. (b.quiet logged on).3;
          connect = λ on. (b.quiet logged on).4;
        },
      )

  callback_loop-empty :
      (fuel : ℕ) (t : Session)
      → t.pq ≡ []
      → callback_loop write_cb shutdown_cb connect_cb shutdown_result (suc fuel) t ≡ some t
  unfolding callback_loop
  callback_loop-empty fuel t at =
      let same : record t { pq = [] } ≡ t = ap (λ q. record t { pq = q }) (sym at) in
      ap (callback_loop write_cb shutdown_cb connect_cb shutdown_result (suc fuel)) (sym same)
      ∙ ap some same

  callback_loop-next :
      (fuel : ℕ) (t : Session) (r : Req) (rest : List Req)
      → t.pq ≡ r ∷ rest
      → IsLive t
      → callback_loop write_cb shutdown_cb connect_cb shutdown_result (suc fuel) t
        ≡ callback_loop write_cb shutdown_cb connect_cb shutdown_result fuel (
            report write_cb shutdown_cb connect_cb shutdown_result
              (lighter (popped t rest) r)
              r
              r.cb)
  unfolding callback_loop
  callback_loop-next fuel t r rest at v =
      rw (at, callback_loop)
        (rw (unregister_req-popped t r rest at v) (rw (free_bufs-popped t r rest at v) refl))

  callback_loop-Reported :
      (fuel : ℕ) (t : Session) (reqs : List Req)
      → t.pq ≡ reqs
      → length reqs < fuel
      → IsLive t
      → (end : Session) × (callback_loop write_cb shutdown_cb connect_cb shutdown_result fuel t
          ≡ some end)
        × Reported t reqs end
        × (end.pq ≡ [])
  callback_loop-Reported zero t reqs at enough v = absurd (omega arith)
  callback_loop-Reported (suc fuel) t [] at enough v = (
    t,
    callback_loop-empty fuel t at,
    record { live = v; called = sym (append-nil t.called); quiet = Quiet-refl t },
    at,
  )
  callback_loop-Reported (suc fuel) t (r ∷ rest) at enough v =
      let freed = lighter (popped t rest) r in
      let u = report write_cb shutdown_cb connect_cb shutdown_result freed r r.cb in
      let (live, same, told, quiet) = report-Told freed r r.cb (taken-IsLive t r rest at v) in
      let (end, run, reported, empty) =
        callback_loop-Reported fuel u rest same (omega arith) live in
      (
        end,
        callback_loop-next fuel t r rest at v ∙ run,
        record {
          live = reported.live;
          called =
              reported.called
              ∙ ap (λ c. c ++ calls rest) told
              ∙ append_assoc t.called (call_of r r.cb) (calls rest);
          quiet =
              Quiet-trans t u end
                (record {
                  closing = quiet.closing;
                  waiting = quiet.waiting;
                  done = quiet.done;
                  shutdown = quiet.shutdown;
                  connect = quiet.connect;
                })
                reported.quiet;
        },
        empty,
      )

  -- On a live stream, outside of another run, and with callbacks that behave, `uv__write_callbacks`
  -- ends without a fault: no assertion fails. It calls the callbacks of the completed requests, once
  -- each, in their order and with their status, and leaves a live stream. On a closing stream it
  -- leaves the waiting requests, and no completed ones.
  pub write_callbacks-Reported :
      (t : Session)
      → IsLive t
      → t.pq ≡ []
      → (end : Session) × (write_callbacks write_cb shutdown_cb connect_cb shutdown_result t
          ≡ some end)
        × IsLive end
        × (end.pq ≡ [])
        × (end.called ≡ t.called ++ calls t.stream.write_completed_queue)
        × Emptied t end
  unfolding write_callbacks
  write_callbacks-Reported t v at = elim (Bool-cases (length t.stream.write_completed_queue == 0)) [
    | inl none_done ↦
        let nothing = no_elements t.stream.write_completed_queue none_done in
        (
          t,
          rw (write_callbacks, none_done) refl,
          v,
          at,
          rw nothing (sym (append-nil t.called)),
          record {
            closing = λ on. on;
            waiting = λ on. refl;
            done = λ on. nothing;
            shutdown = λ on. refl;
            connect = λ on. refl;
          },
        )
    | inr some_done ↦
        let done = t.stream.write_completed_queue in
        let (end, run, r, empty) =
          callback_loop-Reported (suc (length done)) (moved t) done refl (omega arith)
            (moved-IsLive t v at) in
        (
          end,
          rw (write_callbacks, some_done) run,
          r.live,
          empty,
          r.called,
          record {
            closing = r.quiet.closing;
            waiting = r.quiet.waiting;
            done = r.quiet.done;
            shutdown = r.quiet.shutdown;
            connect = r.quiet.connect;
          },
        )
  ]

-- `uv_shutdown` leaves a live stream live, as long as `active_reqs` does not wrap.
uv_shutdown-IsLive :
    (t : Session) (cb : Option ℕ)
    → IsLive t
    → t.stream.active_reqs + 1 < 2 ^ 32
    → IsLive (uv_shutdown t cb).1
unfolding uv_shutdown
uv_shutdown-IsLive t cb v small =
    elim (Bool-cases (not t.stream.writable || (t.shut || (is_shutting t || t.closing)))) [
      | inl refused ↦ rw refused v
      | inr accepted ↦ rw accepted (record {
        sized = v.sized;
        small_waiting = v.small_waiting;
        small_done = v.small_done;
        small_pq = v.small_pq;
        counted = ground (arith, v.counted);
      })
    ]
