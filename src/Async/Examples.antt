-- ===== src/Async/Examples.antt =====
-- src/unix/async.c: a handle with one sender.
use libuv.Prelude.{◌+◌, ◌%◌, ◌≡◌, refl, true, false, [], ◌∷◌, if◌then◌else◌, arith}
use libuv.Async.{
  Async, spinning, closed, uv_async_init, send_load, send_exchange, send_wake, io_begin, io_visit,
  spin_begin, spin_round,
}
use libuv.Async.Steps.{Reachable, start, next, load, exchange, wake, close, spin}
use libuv.Async.Promises.{Reachable-served, Quiet, Reachable-Quiet}

abbrev loaded_once : Async
loaded_once = record (uv_async_init true) { loaded = 0 ∷ [] }

abbrev exchanged : Async
exchanged = record (uv_async_init true) { pending = 3; marked = 1; marks = 1 }

abbrev woken : Async
woken = record (uv_async_init true) { pending = 3; written = 1; marks = 1; readable = true }

loaded_once-Reachable : Reachable loaded_once
unfolding send_load
loaded_once-Reachable =
    next (uv_async_init true) loaded_once (start true) (load (uv_async_init true))

woken-Reachable : Reachable woken
unfolding send_exchange send_wake
woken-Reachable =
    next exchanged woken
      (next loaded_once exchanged loaded_once-Reachable (exchange loaded_once [] 0 [] false refl))
      (wake exchanged (omega arith))

Reachable-served_example :
    (woken.marks ≡ woken.visits + 1)
    × (woken.readable ≡ true)
    × ((io_visit (io_begin woken)).pending % 2 ≡ 0)
    × ((io_visit (io_begin woken)).visits ≡ woken.marks)
    × ((io_visit (io_begin woken)).calls ≡ (if woken.has_cb then woken.marks else 0))
Reachable-served_example = Reachable-served woken woken-Reachable refl refl refl

-- The handle is closed while a sender has read `pending` and not yet changed it.
abbrev closing : Async
closing = record loaded_once { pending = 1; place = spinning }

abbrev shut : Async
shut = record loaded_once { pending = 1; place = closed }

shut-Reachable : Reachable shut
unfolding spin_begin spin_round
shut-Reachable =
    next closing shut (next loaded_once closing loaded_once-Reachable (close loaded_once refl))
      (spin closing refl)

Reachable-Quiet_example : Quiet shut
Reachable-Quiet_example = Reachable-Quiet shut shut-Reachable refl
