-- ===== src/Async.antt =====
-- src/unix/async.c: one async handle, its senders, and its loop.
-- The atomic operations on `pending` are the steps, in the order in which they take effect. A sender
-- is known by what it has done so far. What other handles of the loop do to the file descriptor that
-- wakes it, which they share, is a step of its own.
use libuv.Prelude.{
  ℕ, ◌+◌, ◌-◌, ◌/◌, ◌%◌, Bool, true, false, not, ◌&&◌, List, [], ◌∷◌, ◌++◌, ◌==◌, if◌then◌else◌,
}
pub mod Steps
pub mod Sound
pub mod Handling
pub mod Promises
mod Examples

-- Where the loop is with the handle: elsewhere, in `uv__async_io` before it comes to the handle, in
-- `uv__async_spin`, or behind it.
pub data Place : Type 0 where
  elsewhere visiting spinning closed : Place

-- `pending` with the flag in bit 0 and the busy counter above; the senders that have read an even
-- `current`, by that value, those between the exchange and the write, and those between the write
-- and the decrement; whether the descriptor is readable; and how many exchanges, visits that found
-- the flag and calls of the callback there have been.
pub record Async : Type 0 where
  pub pending : ℕ
  pub loaded : List ℕ
  pub marked : ℕ
  pub written : ℕ
  pub readable : Bool
  pub place : Place
  pub has_cb : Bool
  pub marks : ℕ
  pub visits : ℕ
  pub calls : ℕ

-- `uv_async_init`
abbrev pub uv_async_init : Bool → Async
uv_async_init has_cb = record {
  pending = 0;
  loaded = [];
  marked = 0;
  written = 0;
  readable = false;
  place = elsewhere;
  has_cb = has_cb;
  marks = 0;
  visits = 0;
  calls = 0;
}

-- `current & 1`
abbrev pub is_pending : ℕ → Bool
is_pending current = current % 2 == 1

-- `uv_async_send` up to its first read. It returns at once if the flag is set.
pub send_load : Async → Async
send_load a = if is_pending a.pending then a else record a { loaded = a.pending ∷ a.loaded }

-- A round of the `while` loop of `uv_async_send` for the sender with `current`, the others being
-- `before` and `after`; `fails` is whether the weak exchange fails without a reason.
pub send_exchange : Async → List ℕ → ℕ → List ℕ → Bool → Async
send_exchange a before current after fails =
    if not fails && a.pending == current
    then record a {
      pending = current + 3;
      loaded = before ++ after;
      marked = a.marked + 1;
      marks = a.marks + 1;
    }
    else if is_pending a.pending
    then record a { loaded = before ++ after }
    else record a { loaded = before ++ a.pending ∷ after }

-- `uv__async_send`: a write that would block finds the descriptor readable.
pub send_wake : Async → Async
send_wake a = record a { marked = a.marked - 1; written = a.written + 1; readable = true }

-- The decrement of the busy counter.
pub send_finish : Async → Async
send_finish a = record a { pending = a.pending - 2; written = a.written - 1 }

-- `uv__async_io` up to its second loop: the descriptor is read until it is empty.
pub io_begin : Async → Async
io_begin a = record a { readable = false; place = visiting }

-- What `uv__async_io` does with the handle.
pub io_visit : Async → Async
io_visit a =
    let cleared = record a { pending = a.pending - a.pending % 2; place = elsewhere } in
    let found = record cleared { visits = a.visits + 1 } in
    if is_pending a.pending
    then if a.has_cb then record found { calls = a.calls + 1 } else found
    else cleared

-- `uv__async_spin` up to its loop.
pub spin_begin : Async → Async
spin_begin a = record a { pending = a.pending + (1 - a.pending % 2); place = spinning }

-- A round of its inner loop.
pub spin_round : Async → Async
spin_round a = if a.pending / 2 == 0 then record a { place = closed } else a
