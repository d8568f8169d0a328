-- ===== src/Async/Steps.antt =====
-- src/unix/async.c: the interleavings of the senders and the loop.
use libuv.Prelude.{ℕ, ◌<◌, ◌≡◌, Bool, true, List, ◌∷◌, ◌++◌}
use libuv.Async.{
  Async, elsewhere, visiting, spinning, uv_async_init, send_load, send_exchange, send_wake,
  send_finish, io_begin, io_visit, spin_begin, spin_round,
}

-- Any thread may call `uv_async_send`, and each sender may go on. The loop polls, visits the handle,
-- and closes it, also from the callback of another handle in the middle of `uv__async_io`.
pub data Step : Async → Async → Type 0 where
  load : (a : Async) → Step a (send_load a)
  exchange :
      (a : Async) (before : List ℕ) (current : ℕ) (after : List ℕ) (fails : Bool)
      → a.loaded ≡ before ++ current ∷ after
      → Step a (send_exchange a before current after fails)
  wake : (a : Async) → 0 < a.marked → Step a (send_wake a)
  finish : (a : Async) → 0 < a.written → Step a (send_finish a)
  other_wakes : (a : Async) → Step a (record a { readable = true })
  poll : (a : Async) → a.place ≡ elsewhere → Step a (io_begin a)
  visit : (a : Async) → a.place ≡ visiting → Step a (io_visit a)
  close : (a : Async) → a.place ≡ elsewhere → Step a (spin_begin a)
  close_in_visit : (a : Async) → a.place ≡ visiting → Step a (spin_begin a)
  spin : (a : Async) → a.place ≡ spinning → Step a (spin_round a)

-- What an initialised handle can come to.
pub data Reachable : Async → Type 0 where
  start : (has_cb : Bool) → Reachable (uv_async_init has_cb)
  next : (a b : Async) → Reachable a → Step a b → Reachable b
