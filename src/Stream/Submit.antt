-- ===== src/Stream/Submit.antt =====
-- src/unix/stream.c: `uv_write2`.
use libuv.Prelude.{
  ℕ, suc, ◌+◌, ◌-◌, ◌≤◌, ◌<◌, ◌≡◌, refl, sym, ap, ◌∙◌, inl, inr, Bool, true, false, not, ◌&&◌,
  Option, some, List, [], ◌∷◌, ltb, ◌==◌, length, append-nil, length-append, All-append, Bool-cases,
  arith,
}
use libuv.Errno.{uv_enomem, ok, failed}
use libuv.Stream.Buffers.{size_of}
use libuv.Stream.Valid.{IsValid, IsReady, unsent, queued, queued-append}
use libuv.Stream.Writing.{Wrote, is_empty, or-true}
use libuv.Stream.Delivery.{IsBounded, uv_write_queued-Wrote}
use libuv.Stream.{
  Req, Stream, bytes_of, int32_max, io_max_bytes, count_from, count_bufs, Outcome,
  check_before_write, new_req, enqueue_req, submit, after_check, uv_write2, uv_write_queued,
}

count_from-exact :
    (bytes : ℕ) (bs : List (List ℕ))
    → bytes ≤ int32_max
    → count_from bytes bs < int32_max
    → count_from bytes bs ≡ bytes + size_of bs
unfolding count_from
count_from-exact bytes [] le lt = omega arith
count_from-exact bytes (b ∷ bs) le lt = elim (Bool-cases (ltb (int32_max - bytes) (length b))) [
  | inl over ↦ let whole : int32_max < int32_max = rw over at lt in absurd (omega arith)
  | inr fits ↦
      let lt' : count_from (bytes + length b) bs < int32_max = rw fits at lt in
      let rest = count_from-exact (bytes + length b) bs (ground arith) lt' in
      rw fits (omega (arith, rest, length-append b (bytes_of bs)))
]

-- Below its limit `uv__count_bufs` is the number of the bytes.
pub count_bufs-exact :
    (bs : List (List ℕ)) → count_bufs bs ≤ io_max_bytes → count_bufs bs ≡ size_of bs
unfolding count_bufs
count_bufs-exact bs le =
    let e = count_from-exact 0 bs (omega arith) (omega arith) in omega (arith, e)

check-ok :
    (has_fd : ℕ → Bool) (s : Stream) (bs : List (List ℕ)) (send : Option ℕ)
    → check_before_write has_fd s bs send ≡ ok
    → (0 < length bs) × (count_bufs bs ≤ io_max_bytes) × (s.is_open ≡ true)
unfolding check_before_write
check-ok has_fd s bs send e = (ground (arith, e), ground (arith, e), ground (arith, e))

enqueue_req-IsValid :
    (s : Stream) (id : ℕ) (bs : List (List ℕ)) (send cb : Option ℕ)
    → IsValid s
    → 0 < length bs
    → count_bufs bs ≤ io_max_bytes
    → IsValid (enqueue_req s (new_req id bs send cb) bs)
enqueue_req-IsValid s id bs send cb v some_bufs le =
    let r = new_req id bs send cb in
    record {
      ready =
          All-append IsReady s.write_queue (r ∷ []) v.ready
            (record { held = bs; has = refl; counted = refl; left = some_bufs; fresh = refl }, tt);
      sized = omega (
        arith,
        v.sized,
        count_bufs-exact bs le,
        ap length (queued-append s.write_queue r),
        length-append (queued s.write_queue) (unsent r),
      );
    }

-- The requests that the stream has.
abbrev pub requests : Stream → ℕ
requests s = length s.write_queue + length s.write_completed_queue

module _ (kernel : ℕ → Option ℕ → List (List ℕ) → Outcome) (iovmax : ℕ)
    (is_closing has_fd : ℕ → Bool) where
  submit-written :
      (s s' : Stream) (r : Req) (bs : List (List ℕ))
      → s.connecting ≡ false
      → uv_write_queued kernel iovmax is_closing 33 (enqueue_req s r bs) ≡ some s'
      → submit kernel iovmax is_closing true 33 s true r bs ≡ some (ok, s')
  unfolding submit
  submit-written s s' r bs ready e =
      let no_fault : (ltb 4 (length bs) && not true) ≡ false = ground arith in
      rw (no_fault, e) (simp ready refl)

  submit-later :
      (s : Stream) (r : Req) (bs : List (List ℕ))
      → s.connecting ≡ false
      → s.blocking ≡ false
      → submit kernel iovmax is_closing true 33 s false r bs
        ≡ some (ok, record (enqueue_req s r bs) { wants_out = true })
  unfolding submit
  submit-later s r bs ready free =
      let no_fault : (ltb 4 (length bs) && not true) ≡ false = ground arith in
      rw no_fault (simp (ready, free) refl)

  submit-failed :
      (fuel : ℕ) (s : Stream) (empty_queue : Bool) (r : Req) (bs : List (List ℕ))
      → 4 < length bs
      → submit kernel iovmax is_closing false fuel s empty_queue r bs ≡ some (failed uv_enomem, s)
  unfolding submit
  submit-failed fuel s empty_queue r bs many =
      let fault : (ltb 4 (length bs) && not false) ≡ true = ground arith in rw fault refl

  -- `uv_write2` on a valid stream that does not block and is not connecting, for buffers that pass its
  -- checks, returns 0 if the allocation that it may need succeeds. It appends the request to the
  -- queue, and then does with the queue what is said at `Wrote`, as `uv__write` does.
  pub uv_write2-Wrote :
      IsBounded kernel
      → (s : Stream) (id : ℕ) (bs : List (List ℕ)) (send cb : Option ℕ) → IsValid s
      → s.blocking ≡ false
      → s.connecting ≡ false
      → check_before_write has_fd s bs send ≡ ok
      → (s' : Stream) × (new : List Req) × (uv_write2 kernel iovmax is_closing has_fd true 33 s id
            bs send cb
          ≡ some (ok, s'))
        × Wrote
            (enqueue_req (record s { active_reqs = s.active_reqs + 1 }) (new_req id bs send cb) bs)
            s'
            new
  unfolding uv_write2 after_check
  uv_write2-Wrote bounded s id bs send cb v free ready passes =
      let counted = record s { active_reqs = s.active_reqs + 1 } in
      let r = new_req id bs send cb in
      let queued' = enqueue_req counted r bs in
      let (some_bufs, le, opened) = check-ok has_fd s bs send passes in
      let vq =
        enqueue_req-IsValid counted id bs send cb (record { ready = v.ready; sized = v.sized })
          some_bufs le in
      let first = ap (after_check kernel iovmax is_closing true 33 s id bs send cb) passes in
      elim (Bool-cases (s.write_queue_size == 0)) [
        | inl empty ↦
            let (s', new, e, wrote) =
              uv_write_queued-Wrote kernel iovmax is_closing bounded queued' opened free vq in
            (s', new, first ∙ rw empty (submit-written counted s' r bs ready e), wrote)
        | inr busy ↦ (
          record queued' { wants_out = true },
          [],
          first ∙ rw busy (submit-later counted r bs ready free),
          record {
            valid = record { ready = vq.ready; sized = vq.sized };
            completed = sym (append-nil s.write_completed_queue);
            bytes = refl;
            order = refl;
            whole = tt;
            awake = or-true (is_empty queued'.write_queue);
          },
        )
      ]

  -- Code bug. If the allocation for more than four buffers fails, `uv_write2` returns UV_ENOMEM with
  -- the request still counted in `active_reqs`: from a stream whose requests are all that the loop
  -- counts, it leaves one too many.
  pub uv_write2-leak :
      (fuel : ℕ) (s : Stream) (id : ℕ) (bs : List (List ℕ)) (send cb : Option ℕ)
      → check_before_write has_fd s bs send ≡ ok
      → 4 < length bs
      → s.active_reqs ≡ requests s
      → (s' : Stream) × (uv_write2 kernel iovmax is_closing has_fd false fuel s id bs send cb
          ≡ some (failed uv_enomem, s'))
        × (s'.active_reqs ≡ suc (requests s'))
  unfolding uv_write2 after_check
  uv_write2-leak fuel s id bs send cb passes many counted = (
    record s { active_reqs = s.active_reqs + 1 },
    ap (after_check kernel iovmax is_closing false fuel s id bs send cb) passes
        ∙ submit-failed fuel (record s { active_reqs = s.active_reqs + 1 })
            (s.write_queue_size == 0) (new_req id bs send cb) bs many,
    omega (arith, counted),
  )
