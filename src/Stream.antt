-- ===== src/Stream.antt =====
-- src/unix/stream.c: the write queue of a stream.
-- A buffer is the list of its bytes; `buf->base += n` drops bytes from it. A queue lists its
-- requests. `wire` is not in the code: it collects the bytes that the kernel has accepted. The
-- result `none` is a fault (an assertion that fails, or a read behind the last buffer), or a loop
-- whose fuel is used up.
pub mod Buffers
pub mod Valid
pub mod Writing
pub mod Delivery
pub mod Submit
pub mod Callbacks
pub mod Live
pub mod Called
pub mod Draining
pub mod Destroyed
mod Examples
mod EndExamples
use libuv.Prelude.{
  ℕ, zero, suc, ◌+◌, ◌-◌, Bool, true, false, not, ◌&&◌, ◌||◌, Option, none, some, List, [], ◌∷◌,
  ◌++◌, ltb, leb, ◌==◌, if◌then◌else◌, ◌>>=◌, length, take, drop,
}
use libuv.Errno.{Errno, uv_einval, uv_ebadf, uv_epipe, uv_enomem, uv_ecanceled, Status, ok, failed}

-- `uv_write_t`. `bufs` is `none` for `NULL`, `error` for 0. Callbacks and handles are known by a
-- number.
pub record Req : Type 0 where
  pub id : ℕ
  pub bufs : Option (List (List ℕ))
  pub nbufs : ℕ
  pub write_index : ℕ
  pub error : Option Errno
  pub send_handle : Option ℕ
  pub cb : Option ℕ

-- `ipc`: a `uv_pipe_t` whose `ipc` is set. `wants_out`: `POLLOUT` is in what the stream's watcher waits for. `fed`: the watcher was given to
-- `uv__io_feed`. The flags are `UV_HANDLE_WRITABLE` and `UV_HANDLE_BLOCKING_WRITES`.
pub record Stream : Type 0 where
  pub write_queue_size : ℕ
  pub write_queue : List Req
  pub write_completed_queue : List Req
  pub is_open : Bool
  pub writable : Bool
  pub blocking : Bool
  pub ipc : Bool
  pub connecting : Bool
  pub wants_out : Bool
  pub fed : Bool
  pub active_reqs : ℕ
  pub wire : List ℕ

abbrev pub bytes_of : List (List ℕ) → List ℕ
bytes_of [] = []
bytes_of (b ∷ bs) = b ++ bytes_of bs

-- `INT32_MAX` and `UV__IO_MAX_BYTES`
abbrev pub int32_max : ℕ
int32_max = 2147483647

abbrev pub io_max_bytes : ℕ
io_max_bytes = 2147479552

-- From `bytes`.
pub count_from : ℕ → List (List ℕ) → ℕ
count_from bytes [] = bytes
count_from bytes (b ∷ bs) =
    let rest = count_from (bytes + length b) bs in
    if ltb (int32_max - bytes) (length b) then int32_max else rest

pub count_bufs : List (List ℕ) → ℕ
unfolding count_from
count_bufs bs = count_from 0 bs

-- `req->bufs + req->write_index`
abbrev pub from_index : ℕ → Option (List (List ℕ)) → List (List ℕ)
from_index i none = []
from_index i (some bs) = drop i bs

abbrev pub remaining : Req → List (List ℕ)
remaining r = from_index r.write_index r.bufs

-- `none` if an assertion fails.
pub write_req_size : Stream → Req → Option ℕ
unfolding count_bufs
write_req_size s r = elim (r.bufs) [
  | none ↦ none
  | some bs ↦
      let size = count_bufs (drop r.write_index bs) in
      if ltb s.write_queue_size size then none else some size
]

-- The `do while` of `uv__write_req_update`, from `n` and the buffers at `buf`: how far `buf` goes,
-- and the buffers after it.
pub walk : ℕ → List (List ℕ) → Option (ℕ × List (List ℕ))
walk n [] = none
walk n (b ∷ bs) =
    let len = if ltb n (length b) then n else length b in
    let rest = walk (n - len) bs in
    let step = if length b - len == 0 then 1 else 0 in
    if n - len == 0
    then some (step, drop len b ∷ bs)
    else rest >>= λ (advance, bs'). some (step + advance, drop len b ∷ bs')

-- From `req->bufs`.
pub update_bufs : Stream → Req → ℕ → Option (List (List ℕ)) → Option (Bool × Stream × Req)
unfolding walk
update_bufs s r n none = none
update_bufs s r n (some bs) =
    if ltb s.write_queue_size n
    then none
    else walk n (drop r.write_index bs) >>= λ (advance, rest).
        let index = r.write_index + advance in
        some (
          index == r.nbufs,
          record s { write_queue_size = s.write_queue_size - n },
          record r { bufs = some (take r.write_index bs ++ rest); write_index = index },
        )

-- The result is whether the request is complete.
pub write_req_update : Stream → Req → ℕ → Option (Bool × Stream × Req)
unfolding update_bufs
write_req_update s r n = update_bufs s r n r.bufs

-- The buffers are freed only if there was no error.
abbrev pub bufs_after : Option Errno → Option (List (List ℕ)) → Option (List (List ℕ))
bufs_after none bufs = none
bufs_after (some e) bufs = bufs

abbrev pub released : Req → Req
released r = record r { bufs = bufs_after r.error r.bufs }

-- The request, which the caller has taken off `write_queue`, is completed.
pub write_req_finish : Stream → Req → Stream
write_req_finish s r = record s {
  write_completed_queue = s.write_completed_queue ++ released r ∷ [];
  fed = true;
}

-- What `writev` or `sendmsg` gives, after the rounds for EINTR: the number of bytes that were
-- taken, EAGAIN and its kin, or another error.
pub data Outcome : Type 0 where
  accepted : ℕ → Outcome
  again : Outcome
  refused : Errno → Outcome

-- Behind the tests of `n`: a blocking stream tries again, another one waits.
pub not_done : (ℕ → Stream → Option Stream) → ℕ → Stream → Option Stream
not_done next count s = if s.blocking then next count s else some (record s { wants_out = true })

-- `count-- > 0`
pub next_req : (ℕ → Stream → Option Stream) → ℕ → Stream → Option Stream
next_req next zero s = some s
next_req next (suc count) s = next count s

-- The body of the `for`, from `n`; `rest` is the queue behind the request.
pub after_try : (ℕ → Stream → Option Stream) → ℕ → Stream → Req → List Req → Outcome → Option Stream
unfolding write_req_update write_req_finish not_done next_req
after_try next count s r rest (refused e) =
    some
      (record (write_req_finish (record s { write_queue = rest }) (record r { error = some e })) {
        wants_out = false;
      })
after_try next count s r rest again = not_done next count s
after_try next count s r rest (accepted n) =
    write_req_update s (record r { send_handle = none }) n >>= λ (complete, s', r').
    let sent = record s' { wire = s.wire ++ take n (bytes_of (remaining r)) } in
    if complete
    then next_req next count (write_req_finish (record sent { write_queue = rest }) r')
    else not_done next count (record sent { write_queue = r' ∷ rest })

-- `has_fd` tells of a handle whether it has a descriptor.
pub check_before_write : (ℕ → Bool) → Stream → List (List ℕ) → Option ℕ → Status
check_before_write has_fd s bs send =
    if length bs == 0 || ltb 1048576 (length bs)
    then failed uv_einval
    else if ltb io_max_bytes (count_bufs bs)
    then failed uv_einval
    else if not s.is_open
    then failed uv_ebadf
    else if not s.writable
    then failed uv_epipe
    else if (elim send [ none ↦ false | some h ↦ not s.ipc ])
    then failed uv_einval
    else if (elim send [ none ↦ false | some h ↦ not (has_fd h) ])
    then failed uv_ebadf
    else ok

abbrev pub new_req : ℕ → List (List ℕ) → Option ℕ → Option ℕ → Req
new_req id bs send cb = record {
  id = id;
  bufs = some bs;
  nbufs = length bs;
  write_index = 0;
  error = none;
  send_handle = send;
  cb = cb;
}

-- The request in the queue.
abbrev pub enqueue_req : Stream → Req → List (List ℕ) → Stream
enqueue_req s r bs = record s {
  write_queue_size = s.write_queue_size + count_bufs bs;
  write_queue = s.write_queue ++ r ∷ [];
}

-- The kernel answers each call, known by its number and what it is given; `iovmax` is the result of
-- `uv__getiovmax`, and `is_closing` tells of a handle to send whether it is closing. The assertion
-- that it has a descriptor is left out.
module _ (kernel : ℕ → Option ℕ → List (List ℕ) → Outcome) (iovmax : ℕ)
    (is_closing : ℕ → Bool) where
  pub try_write : ℕ → List (List ℕ) → Option ℕ → Outcome
  try_write call bs none = kernel call none (take iovmax bs)
  try_write call bs (some h) =
      if is_closing h then refused uv_ebadf else kernel call (some h) (take iovmax bs)

  pub write_round : (ℕ → Stream → Option Stream) → ℕ → ℕ → Stream → List Req → Option Stream
  unfolding try_write after_try
  write_round next call count s [] = some s
  write_round next call count s (r ∷ rest) =
      after_try next count s r rest (try_write call (remaining r) r.send_handle)

  -- The `for (;;)`. The fuel bounds its rounds, and numbers the calls of the kernel.
  pub write_loop : ℕ → ℕ → Stream → Option Stream
  unfolding write_round
  write_loop zero count s = none
  write_loop (suc fuel) count s = write_round (write_loop fuel) fuel count s s.write_queue

  pub uv_write_queued : ℕ → Stream → Option Stream
  uv_write_queued fuel s = if s.is_open then write_loop fuel 32 s else none

  -- Behind `uv__req_init`; `alloc` is whether `uv__malloc` succeeds, and `bufsml` holds 4 buffers.
  pub submit : Bool → ℕ → Stream → Bool → Req → List (List ℕ) → Option (Status × Stream)
  submit alloc fuel s empty_queue r bs =
      let queued = enqueue_req s r bs in
      let written = uv_write_queued fuel queued >>= λ s'. some (ok, s') in
      if ltb 4 (length bs) && not alloc
      then some (failed uv_enomem, s)
      else if s.connecting
      then some (ok, queued)
      else if empty_queue
      then written
      else if s.blocking
      then none
      else some (ok, record queued { wants_out = true })

  -- From the result of the checks.
  pub after_check :
      Bool
      → ℕ
      → Stream
      → ℕ
      → List (List ℕ)
      → Option ℕ
      → Option ℕ
      → Status
      → Option (Status × Stream)
  after_check alloc fuel s id bs send cb (failed e) = some (failed e, s)
  after_check alloc fuel s id bs send cb ok =
      submit alloc fuel (record s { active_reqs = s.active_reqs + 1 }) (s.write_queue_size == 0)
        (new_req id bs send cb) bs

  -- `has_fd` is that of `check_before_write`.
  pub uv_write2 :
      (ℕ → Bool)
      → Bool
      → ℕ
      → Stream
      → ℕ
      → List (List ℕ)
      → Option ℕ
      → Option ℕ
      → Option (Status × Stream)
  uv_write2 has_fd alloc fuel s id bs send cb =
      after_check alloc fuel s id bs send cb (check_before_write has_fd s bs send)

-- `uv__stream_flush_write_queue`
pub map_error : Errno → List Req → List Req
map_error e [] = []
map_error e (r ∷ rs) = record r { error = some e } ∷ map_error e rs

pub flush_write_queue : Stream → Errno → Stream
unfolding map_error
flush_write_queue s e = record s {
  write_completed_queue = s.write_completed_queue ++ map_error e s.write_queue;
  write_queue = [];
}
