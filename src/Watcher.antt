-- ===== src/Watcher.antt =====
-- src/unix/loop-watcher.c: prepare, check and idle handles, the three instances of one macro.
-- A watcher is known by its address, a number. `handles` is the loop's queue of one kind, and
-- `queue` the local one of `uv__run_...`; a callback is known by a number, and `none` is `NULL`.
pub mod Valid
pub mod Running
mod Examples
use libuv.Prelude.{
  ℕ, zero, suc, Bool, true, false, Option, none, some, List, [], ◌∷◌, ◌++◌, ◌==◌, if◌then◌else◌,
  ◌>>=◌, length,
}
use libuv.Queue.{erase}
use libuv.Errno.{uv_einval, Status, ok, failed}
use libuv.Handle.{Flags, handle_init, handle_start, handle_stop, handle_ref, handle_unref}

pub record Watchers : Type 0 where
  pub handles : List ℕ
  pub queue : List ℕ
  pub flags : ℕ → Flags
  pub name_cb : ℕ → Option ℕ
  pub active_handles : ℕ

abbrev pub update {ℓ} : {A : Type ℓ} → (ℕ → A) → ℕ → A → ℕ → A
update f h v k = if k == h then v else f k

-- A macro of uv-common.h, on a watcher of the loop.
abbrev pub on_flags : (Flags → ℕ → Flags × ℕ) → Watchers → ℕ → Watchers
on_flags macro w h =
    let (f, n) = macro (w.flags h) w.active_handles in
    record w { flags = update w.flags h f; active_handles = n }

pub watcher_init : Watchers → ℕ → Watchers
watcher_init w h = record w {
  flags = update w.flags h handle_init;
  name_cb = update w.name_cb h none;
}

-- The watcher at the head of the queue, with its callback.
abbrev pub linked : Watchers → ℕ → ℕ → Watchers
linked w h cb = record w { handles = h ∷ w.handles; name_cb = update w.name_cb h (some cb) }

pub watcher_start : Watchers → ℕ → Option ℕ → Status × Watchers
watcher_start w h none = (if (w.flags h).active then ok else failed uv_einval, w)
watcher_start w h (some cb) =
    if (w.flags h).active then (ok, w) else (ok, on_flags handle_start (linked w h cb) h)

-- `uv__queue_remove`, from the queue in which the watcher stands.
abbrev pub unlinked : Watchers → ℕ → Watchers
unlinked w h = record w { handles = erase h w.handles; queue = erase h w.queue }

pub watcher_stop : Watchers → ℕ → Watchers
watcher_stop w h = if (w.flags h).active then on_flags handle_stop (unlinked w h) h else w

pub watcher_close : Watchers → ℕ → Watchers
unfolding watcher_stop
watcher_close w h = watcher_stop w h

-- What a callback may do to the watchers of its kind.
pub data Call : Type 0 where
  start : ℕ → Option ℕ → Call
  stop ref unref : ℕ → Call

pub perform : Call → Watchers → Watchers
perform (start h cb) w = (watcher_start w h cb).1
perform (stop h) w = watcher_stop w h
perform (ref h) w = on_flags handle_ref w h
perform (unref h) w = on_flags handle_unref w h

pub perform_all : List Call → Watchers → Watchers
unfolding perform
perform_all [] w = w
perform_all (c ∷ cs) w = perform_all cs (perform c w)

-- The calls that a callback makes, from the watcher that it is given and what it sees.
module _ (callback : ℕ → ℕ → Watchers → List Call) where
  -- `h->name##_cb(h)`, a fault if the callback is `NULL`.
  pub call_back : Watchers → ℕ → Option Watchers
  call_back w h = elim (w.name_cb h) [
    | none ↦ none
    | some cb ↦ some (perform_all (callback cb h w) w)
  ]

  -- A round of the `while` from the local queue, and the rounds that follow it.
  pub round :
      (Watchers → Option (List ℕ × Watchers)) → Watchers → List ℕ → Option (List ℕ × Watchers)
  round next w [] = some ([], w)
  round next w (h ∷ rest) =
      call_back (record w { queue = rest; handles = w.handles ++ h ∷ [] }) h
      >>= next
      >>= λ (called, end). some (h ∷ called, end)

  -- The `while`, with the watchers that are called. Callbacks take watchers out of the local queue
  -- and put none in, so that its length bounds the rounds.
  pub run_rounds : ℕ → Watchers → Option (List ℕ × Watchers)
  unfolding round
  run_rounds zero w = none
  run_rounds (suc fuel) w = round (run_rounds fuel) w w.queue

  -- `uv__queue_move`, then the `while`.
  pub run_watchers : Watchers → Option (List ℕ × Watchers)
  unfolding run_rounds call_back
  run_watchers w =
      run_rounds (suc (length w.handles)) (record w { queue = w.handles; handles = [] })
