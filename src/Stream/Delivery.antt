-- ===== src/Stream/Delivery.antt =====
-- src/unix/stream.c: the loop of `uv__write`.
use libuv.Prelude.{
  ℕ, zero, suc, ◌≤◌, ◌<◌, ◌≡◌, refl, sym, ap, ◌∙◌, inl, inr, Bool, true, false, ◌||◌, Option, none,
  some, List, [], ◌∷◌, ◌++◌, if◌then◌else◌, length, take, append-nil, length-append, Bool-cases,
  arith,
}
use libuv.Errno.{uv_ebadf}
use libuv.Stream.Buffers.{size_of, take-bytes_of}
use libuv.Stream.Valid.{IsValid, IsReady, unsent, queued, write_req_update-Updated}
use libuv.Stream.Writing.{
  Wrote, is_empty, still, or-true, whole-queue, completed-Wrote, refused-Wrote, part-Wrote,
  finished, finished-IsValid, released-unsent, released-id,
}
use libuv.Stream.{
  Req, Stream, remaining, released, write_req_finish, Outcome, accepted, again, refused, try_write,
  not_done, next_req, after_try, write_round, write_loop, uv_write_queued,
}

-- What is documented of `writev` and `sendmsg`: they take at most the bytes that they are given.
abbrev pub IsBounded : (ℕ → Option ℕ → List (List ℕ) → Outcome) → Type 0
IsBounded kernel =
    (call : ℕ) (send : Option ℕ) (bs : List (List ℕ)) (n : ℕ)
    → kernel call send bs ≡ accepted n
    → n ≤ size_of bs

abbrev Runs : Option Stream → Stream → Type 0
Runs out s = (s' : Stream) × (new : List Req) × (out ≡ some s') × Wrote s s' new

up : (a b : Bool) → (a || (b || true)) ≡ true
up a b = ap (λ c. a || c) (or-true b) ∙ or-true a

module _ (next : ℕ → Stream → Option Stream) (s : Stream) (r : Req) (rest : List Req)
    (q : s.write_queue ≡ r ∷ rest) (v : IsValid s) (free : s.blocking ≡ false) where
  -- Behind a complete request.
  next_req-Runs :
      (count n : ℕ) (r' : Req)
      → ((c : ℕ)
          → count ≡ suc c
          → (t : Stream) → t.blocking ≡ false
          → IsValid t
          → Runs (next c t) t)
      → take n (unsent r) ++ unsent r' ≡ unsent r
      → n ≤ length (unsent r)
      → unsent r' ≡ []
      → r'.error ≡ none
      → r'.id ≡ r.id
      → Runs (next_req next count (finished s r rest n r')) s
  unfolding next_req finished write_req_finish
  next_req-Runs zero n r' go bytes le empty fresh same_id =
      let s1 = finished s r rest n r' in
      let v1 = finished-IsValid s r rest n r' q v bytes le fresh empty in
      (
        s1,
        _,
        refl,
        completed-Wrote s s1 s1 r (released r') rest [] (take n (unsent r)) q refl refl refl
            (ap (λ t. take n (unsent r) ++ t) (released-unsent r' fresh ∙ sym empty) ∙ bytes)
            (released-unsent r' fresh) (released-id r' ∙ same_id)
            (still s1 v1 (up (is_empty rest) s.wants_out)),
      )
  next_req-Runs (suc c) n r' go bytes le empty fresh same_id =
      let s1 = finished s r rest n r' in
      let v1 = finished-IsValid s r rest n r' q v bytes le fresh empty in
      let (s', new, e, wrote) = go c refl s1 free v1 in
      (
        s',
        _,
        e,
        completed-Wrote s s1 s' r (released r') rest new (take n (unsent r)) q refl refl refl
            (ap (λ t. take n (unsent r) ++ t) (released-unsent r' fresh ∙ sym empty) ∙ bytes)
            (released-unsent r' fresh) (released-id r' ∙ same_id) wrote,
      )

  after_try-Runs :
      (count : ℕ) (o : Outcome)
      → ((c : ℕ)
          → count ≡ suc c
          → (t : Stream) → t.blocking ≡ false
          → IsValid t
          → Runs (next c t) t)
      → ((n : ℕ) → o ≡ accepted n → n ≤ length (unsent r))
      → Runs (after_try next count s r rest o) s
  unfolding after_try not_done finished
  after_try-Runs count (refused e) go le = (_, _, refl, refused-Wrote s r rest e q v)
  after_try-Runs count again go le = (
    record s { wants_out = true },
    [],
    rw free refl,
    record {
      valid = record { ready = v.ready; sized = v.sized };
      completed = sym (append-nil s.write_completed_queue);
      bytes = refl;
      order = refl;
      whole = tt;
      awake = or-true (is_empty s.write_queue);
    },
  )
  after_try-Runs count (accepted n) go le =
      let mine = (whole-queue s r rest q v).0 in
      let ready : IsReady (record r { send_handle = none }) = record {
        held = mine.held;
        has = mine.has;
        counted = mine.counted;
        left = mine.left;
        fresh = mine.fresh;
      } in
      let fits : n ≤ s.write_queue_size = omega (
        arith,
        le n refl,
        v.sized,
        ap (λ t. length (queued t)) q,
        length-append (unsent r) (queued rest),
      ) in
      let (complete, r', u) =
        write_req_update-Updated s (record r { send_handle = none }) n ready (le n refl) fits in
      elim (u.rest) [
        | inl (whole, empty) ↦
            rw (u.done, whole)
              (next_req-Runs count n r' go u.bytes (le n refl) empty u.fresh u.same_id)
        | inr (part, ready') ↦ (
          _,
          [],
          rw (u.done, part, free) refl,
          part-Wrote s r rest n r' q v u.bytes (le n refl) ready' u.same_id,
        )
      ]

module _ (kernel : ℕ → Option ℕ → List (List ℕ) → Outcome) (iovmax : ℕ)
    (is_closing : ℕ → Bool) where
  try_write-le :
      IsBounded kernel
      → (call : ℕ) (bs : List (List ℕ)) (send : Option ℕ) (n : ℕ)
      → try_write kernel iovmax is_closing call bs send ≡ accepted n
      → n ≤ size_of bs
  unfolding try_write
  try_write-le bounded call bs none n e =
      take-bytes_of n iovmax bs (bounded call none (take iovmax bs) n e)
  try_write-le bounded call bs (some h) n e = elim (Bool-cases (is_closing h)) [
    | inl closing ↦ let e' : refused uv_ebadf ≡ accepted n = rw closing at e in absurd cc
    | inr alive ↦
        let e' : kernel call (some h) (take iovmax bs) ≡ accepted n = rw alive at e in
        take-bytes_of n iovmax bs (bounded call (some h) (take iovmax bs) n e')
  ]

  write_loop-Runs :
      IsBounded kernel
      → (fuel count : ℕ) (s : Stream) (queue : List Req) → s.write_queue ≡ queue
      → count < fuel
      → s.blocking ≡ false
      → IsValid s
      → Runs (write_loop kernel iovmax is_closing fuel count s) s
  unfolding write_loop write_round
  write_loop-Runs bounded zero count s queue q lt free v = absurd (omega arith)
  write_loop-Runs bounded (suc fuel) count s [] q lt free v = (
    s,
    [],
    ap
        (write_round kernel iovmax is_closing (write_loop kernel iovmax is_closing fuel) fuel count
          s)
        q,
    still s v (ap (λ t. is_empty t || (s.wants_out || s.fed)) q),
  )
  write_loop-Runs bounded (suc fuel) count s (r ∷ rest) q lt free v =
      let go =
        λ (c : ℕ) (e : count ≡ suc c) (t : Stream) (free' : t.blocking ≡ false) (v' : IsValid t).
          write_loop-Runs bounded fuel c t t.write_queue refl (omega arith) free' v' in
      let (s', new, e, wrote) =
        after_try-Runs (write_loop kernel iovmax is_closing fuel) s r rest q v free count
          (try_write kernel iovmax is_closing fuel (remaining r) r.send_handle) go
          (try_write-le bounded fuel (remaining r) r.send_handle) in
      (
        s',
        new,
        ap
              (write_round kernel iovmax is_closing (write_loop kernel iovmax is_closing fuel) fuel
                count s)
              q
            ∙ e,
        wrote,
      )

  -- `uv__write` on a valid stream that is open and does not block ends, after 33 rounds at most, and
  -- is not a fault. It leaves a valid stream, and neither loses, repeats nor reorders bytes: what it
  -- does to the requests and to the bytes is said at `Wrote`. The kernel is one that takes at most
  -- the bytes that it is given.
  pub uv_write_queued-Wrote :
      IsBounded kernel
      → (s : Stream) → s.is_open ≡ true
      → s.blocking ≡ false
      → IsValid s
      → (s' : Stream) × (new : List Req) × (uv_write_queued kernel iovmax is_closing 33 s ≡ some s')
        × Wrote s s' new
  unfolding uv_write_queued
  uv_write_queued-Wrote bounded s opened free v =
      let (s', new, e, wrote) =
        write_loop-Runs bounded 33 32 s s.write_queue refl (omega arith) free v in
      (
        s',
        new,
        ap (λ b. if b then write_loop kernel iovmax is_closing 33 32 s else none) opened ∙ e,
        wrote,
      )
