-- ===== src/Stream/Live.antt =====
-- src/unix/stream.c: what the callbacks of a stream keep, and one round of `uv__write_callbacks`.
use mathlib.Core.Path.{subst}
use libuv.Prelude.{
  ℕ, ◌+◌, ◌-◌, ◌≤◌, ◌≡◌, inl, inr, refl, ap, ◌∙◌, true, false, Option, none, some, Option-cases,
  List, [], ◌∷◌, ◌++◌, ltb, length, length-append, drop, All, one_if, arith,
}
use libuv.Errno.{Errno}
use libuv.Stream.Buffers.{size_of}
use libuv.Stream.Valid.{unsent, queued}
use libuv.Stream.{
  Req, Stream, bytes_of, from_index, int32_max, io_max_bytes, count_from, count_bufs,
  write_req_size,
}
use libuv.Stream.Callbacks.{Session, is_shutting, unregister_req, has_bufs, free_bufs}

count_from-size :
    (bytes : ℕ) (bs : List (List ℕ))
    → bytes + size_of bs ≤ int32_max
    → count_from bytes bs ≡ bytes + size_of bs
unfolding count_from
count_from-size bytes [] le = omega arith
count_from-size bytes (b ∷ bs) le =
    let len = length-append b (bytes_of bs) in
    let fits : ltb (int32_max - bytes) (length b) ≡ false = ground (arith, len) in
    rw fits (omega (arith, len, count_from-size (bytes + length b) bs (omega (arith, len))))

-- What is asked of a request: it has no more bytes than `uv_write2` accepts.
abbrev pub IsSmall : Req → Type 0
IsSmall r = length (unsent r) ≤ io_max_bytes

-- The requests that wait to be written or to be reported.
abbrev pub requests_of : Session → ℕ
requests_of t = length t.stream.write_queue + length t.stream.write_completed_queue + length t.pq

-- `write_queue_size` counts the bytes that the requests have still to write, and `active_reqs` at
-- least the requests of the stream.
pub record IsLive (t : Session) : Type 0 where
  pub sized :
      t.stream.write_queue_size
      ≡ length (queued t.stream.write_queue)
        + length (queued t.stream.write_completed_queue)
        + length (queued t.pq)
  pub small_waiting : All IsSmall t.stream.write_queue
  pub small_done : All IsSmall t.stream.write_completed_queue
  pub small_pq : All IsSmall t.pq
  pub counted : requests_of t + one_if (is_shutting t) ≤ t.stream.active_reqs

-- What is asked of a callback: it leaves a live stream live, and knows nothing of the local queue. On
-- a closing stream it can neither write, connect nor shut down, and whatever else it does leaves its queues.
pub record Behaves (cb : Session → Session) : Type 0 where
  pub keeps : (t : Session) → IsLive t → IsLive (cb t)
  pub same_pq : (t : Session) → (cb t).pq ≡ t.pq
  pub same_called : (t : Session) → (cb t).called ≡ t.called
  pub quiet :
      (t : Session)
      → t.closing ≡ true
      → ((cb t).closing ≡ true)
        × ((cb t).stream.write_queue ≡ t.stream.write_queue)
        × ((cb t).stream.write_completed_queue ≡ t.stream.write_completed_queue)
        × ((cb t).shutdown_req ≡ t.shutdown_req)
        × ((cb t).stream.connecting ≡ t.stream.connecting)

-- The calls of the callbacks of some requests: those that have one, in their order, each with the
-- status of its request.
abbrev pub call_of : Req → Option ℕ → List (ℕ × Option Errno)
call_of r none = []
call_of r (some cb) = (r.id, r.error) ∷ []

abbrev pub calls : List Req → List (ℕ × Option Errno)
calls [] = []
calls (r ∷ rs) = call_of r r.cb ++ calls rs

-- `uv__write_req_size` is the number of bytes that are left.
write_req_size-exact :
    (s : Stream) (r : Req) (bs : List (List ℕ))
    → r.bufs ≡ some bs
    → length (unsent r) ≤ io_max_bytes
    → length (unsent r) ≤ s.write_queue_size
    → write_req_size s r ≡ some (length (unsent r))
unfolding write_req_size count_bufs
write_req_size-exact s r bs e small fits =
    let bytes = ap (λ o. length (bytes_of (from_index r.write_index o))) e in
    let exact = count_from-size 0 (drop r.write_index bs) (omega (arith, bytes)) in
    let no_fault : ltb s.write_queue_size (0 + size_of (drop r.write_index bs)) ≡ false =
      ground (arith, bytes) in
    rw (e, exact, no_fault) (ap some {x = 0 + size_of (drop r.write_index bs)} (omega arith))

-- The stream without the bytes of a request.
abbrev pub lighter : Session → Req → Session
lighter t r = record t {
  stream = record t.stream { write_queue_size = t.stream.write_queue_size - length (unsent r) };
}

free_bufs-lighter :
    (t : Session) (r : Req)
    → length (unsent r) ≤ io_max_bytes
    → length (unsent r) ≤ t.stream.write_queue_size
    → free_bufs t r ≡ some (lighter t r)
unfolding free_bufs
free_bufs-lighter t r small fits = elim (Option-cases r.bufs) [
  | inl e ↦
      let unset : has_bufs r ≡ false = rw e refl in
      let nothing : length (unsent r) ≡ 0 =
        ap (λ o. length (bytes_of (from_index r.write_index o))) e in
      let same : t.stream.write_queue_size ≡ t.stream.write_queue_size - length (unsent r) =
        omega (arith, nothing) in
      rw (free_bufs, unset)
        (ap (λ n. some (record t { stream = record t.stream { write_queue_size = n } })) same)
  | inr (bs, e) ↦
      let set : has_bufs r ≡ true = rw e refl in
      rw (free_bufs, set, write_req_size-exact t.stream r bs e small fits) refl
]

-- The head of the local queue is taken off and counted out.
abbrev pub popped : Session → List Req → Session
popped t rest = record t {
  stream = record t.stream { active_reqs = t.stream.active_reqs - 1 };
  pq = rest;
}

module _ (t : Session) (r : Req) (rest : List Req) (at : t.pq ≡ r ∷ rest) (v : IsLive t) where
  pub unregister_req-popped : unregister_req (record t { pq = rest }) ≡ some (popped t rest)
  unregister_req-popped =
      let some_req : ltb 0 t.stream.active_reqs ≡ true = ground (arith, v.counted, ap length at) in
      rw some_req refl

  head-IsSmall : IsSmall r × All IsSmall rest
  head-IsSmall = subst (All IsSmall) at v.small_pq

  head_bytes : length (queued t.pq) ≡ length (unsent r) + length (queued rest)
  head_bytes = ap (λ q. length (queued q)) at ∙ length-append (unsent r) (queued rest)

  pub taken-IsLive : IsLive (lighter (popped t rest) r)
  taken-IsLive = record {
    sized = omega (arith, v.sized, head_bytes);
    small_waiting = v.small_waiting;
    small_done = v.small_done;
    small_pq = head-IsSmall.1;
    counted = omega (arith, v.counted, ap length at);
  }

  pub free_bufs-popped : free_bufs (popped t rest) r ≡ some (lighter (popped t rest) r)
  free_bufs-popped =
      free_bufs-lighter (popped t rest) r head-IsSmall.0 (omega (arith, v.sized, head_bytes))

-- What is the same in a closing stream.
pub record Quiet (t end : Session) : Type 0 where
  pub closing : t.closing ≡ true → end.closing ≡ true
  pub waiting : t.closing ≡ true → end.stream.write_queue ≡ t.stream.write_queue
  pub done : t.closing ≡ true → end.stream.write_completed_queue ≡ t.stream.write_completed_queue
  pub shutdown : t.closing ≡ true → end.shutdown_req ≡ t.shutdown_req
  pub connect : t.closing ≡ true → end.stream.connecting ≡ t.stream.connecting

pub Quiet-trans : (t u end : Session) → Quiet t u → Quiet u end → Quiet t end
Quiet-trans t u end a b = record {
  closing = λ on. b.closing (a.closing on);
  waiting = λ on. b.waiting (a.closing on) ∙ a.waiting on;
  done = λ on. b.done (a.closing on) ∙ a.done on;
  shutdown = λ on. b.shutdown (a.closing on) ∙ a.shutdown on;
  connect = λ on. b.connect (a.closing on) ∙ a.connect on;
}

pub Quiet-refl : (t : Session) → Quiet t t
Quiet-refl t = record {
  closing = λ on. on;
  waiting = λ on. refl;
  done = λ on. refl;
  shutdown = λ on. refl;
  connect = λ on. refl;
}

-- What a run of the callbacks leaves of a closing stream.
pub record Emptied (t end : Session) : Type 0 where
  pub closing : t.closing ≡ true → end.closing ≡ true
  pub waiting : t.closing ≡ true → end.stream.write_queue ≡ t.stream.write_queue
  pub done : t.closing ≡ true → end.stream.write_completed_queue ≡ []
  pub shutdown : t.closing ≡ true → end.shutdown_req ≡ t.shutdown_req
  pub connect : t.closing ≡ true → end.stream.connecting ≡ t.stream.connecting
