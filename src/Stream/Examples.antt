-- ===== src/Stream/Examples.antt =====
-- src/unix/stream.c: a stream with two requests, over a kernel that takes three bytes at a time.
use libuv.Prelude.{
  ℕ, zero, suc, ◌≤◌, ◌≡◌, refl, Bool, true, false, Option, none, some, List, [], ◌∷◌, if◌then◌else◌,
  ltb, length, take, Bool-cases, inl, inr, arith,
}
use libuv.Errno.{ok}
use libuv.Stream.Buffers.{Walked, walk-Walked}
use libuv.Stream.Valid.{IsValid, IsReady}
use libuv.Stream.Writing.{Wrote}
use libuv.Stream.Delivery.{IsBounded, uv_write_queued-Wrote}
use libuv.Stream.Submit.{uv_write2-Wrote}
use libuv.Stream.{
  Req, Stream, bytes_of, walk, count_from, count_bufs, Outcome, accepted, again, new_req,
  enqueue_req, check_before_write, uv_write2, uv_write_queued, write_loop, write_round, after_try,
  try_write, write_req_update, write_req_finish, update_bufs, not_done, next_req,
}

-- At most three bytes in a call, and no more after the second.
abbrev up_to_three : ℕ → Option ℕ → List (List ℕ) → Outcome
up_to_three call send bs = if ltb call 31 then again else accepted (length (take 3 (bytes_of bs)))

abbrev no_handle : ℕ → Bool
no_handle h = false

length-take_le : (n : ℕ) (xs : List ℕ) → length (take n xs) ≤ length xs
length-take_le zero xs = omega arith
length-take_le (suc n) [] = omega arith
length-take_le (suc n) (x ∷ xs) = omega (arith, length-take_le n xs)

up_to_three-IsBounded : IsBounded up_to_three
up_to_three-IsBounded call send bs n e = elim (Bool-cases (ltb call 31)) [
  | inl late ↦ let e' : again ≡ accepted n = rw late at e in absurd cc
  | inr early ↦
      let e' : accepted (length (take 3 (bytes_of bs))) ≡ accepted n = rw early at e in
      let same : length (take 3 (bytes_of bs)) ≡ n = cc in
      omega (arith, same, length-take_le 3 (bytes_of bs))
]

abbrev pub first_req : Req
first_req = new_req 1 ((10 ∷ 11 ∷ []) ∷ (12 ∷ []) ∷ []) none none

abbrev pub second_req : Req
second_req = new_req 2 ((20 ∷ 21 ∷ 22 ∷ 23 ∷ []) ∷ []) none none

abbrev pub idle : Stream
idle = record {
  write_queue_size = 0;
  write_queue = [];
  write_completed_queue = [];
  is_open = true;
  writable = true;
  blocking = false;
  ipc = false;
  connecting = false;
  wants_out = false;
  fed = false;
  active_reqs = 0;
  wire = [];
}

abbrev two_requests : Stream
two_requests = record idle {
  write_queue_size = 7;
  write_queue = first_req ∷ second_req ∷ [];
  active_reqs = 2;
}

first_req-IsReady : IsReady first_req
first_req-IsReady = record {
  held = _;
  has = refl;
  counted = refl;
  left = omega arith;
  fresh = refl;
}

two_requests-IsValid : IsValid two_requests
two_requests-IsValid = record {
  ready = (
    first_req-IsReady,
    (record { held = _; has = refl; counted = refl; left = omega arith; fresh = refl }, tt),
  );
  sized = refl;
}

walk-Walked_example :
    (advance : ℕ) × (bs' : List (List ℕ)) × Walked 3
      ((10 ∷ 11 ∷ []) ∷ (12 ∷ 13 ∷ []) ∷ [])
      advance
      bs'
walk-Walked_example =
    walk-Walked 3 ((10 ∷ 11 ∷ []) ∷ (12 ∷ 13 ∷ []) ∷ []) (omega arith) (omega arith)

uv_write_queued-Wrote_example :
    (s' : Stream) × (new : List Req) × (uv_write_queued up_to_three 1024 no_handle 33 two_requests
      ≡ some s')
    × Wrote two_requests s' new
uv_write_queued-Wrote_example =
    uv_write_queued-Wrote up_to_three 1024 no_handle up_to_three-IsBounded two_requests refl refl
      two_requests-IsValid

-- The first request is complete, and the second one waits with its last byte.
wire_of : Option Stream → List ℕ
wire_of none = []
wire_of (some s) = s.wire

two_requests-wire :
    wire_of (uv_write_queued up_to_three 1024 no_handle 33 two_requests)
    ≡ 10 ∷ 11 ∷ 12 ∷ 20 ∷ 21 ∷ 22 ∷ []
unfolding wire_of uv_write_queued write_loop write_round try_write after_try write_req_update
    update_bufs walk write_req_finish not_done next_req
two_requests-wire = refl

abbrev five_buffers : List (List ℕ)
five_buffers = (1 ∷ []) ∷ (2 ∷ []) ∷ (3 ∷ []) ∷ (4 ∷ []) ∷ (5 ∷ []) ∷ []

idle-IsValid : IsValid idle
idle-IsValid = record { ready = tt; sized = refl }

five_buffers-pass : check_before_write no_handle idle five_buffers none ≡ ok
unfolding check_before_write count_bufs count_from
five_buffers-pass = refl

uv_write2-Wrote_example :
    (s' : Stream) × (new : List Req) × (uv_write2 up_to_three 1024 no_handle no_handle true 33 idle
        7 five_buffers none none
      ≡ some (ok, s'))
    × Wrote
        (enqueue_req
          (record idle { active_reqs = 1 })
          (new_req 7 five_buffers none none)
          five_buffers)
        s'
        new
uv_write2-Wrote_example =
    uv_write2-Wrote up_to_three 1024 no_handle no_handle up_to_three-IsBounded idle 7 five_buffers
      none none idle-IsValid refl refl five_buffers-pass
