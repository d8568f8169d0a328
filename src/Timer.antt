-- ===== src/Timer.antt =====
-- src/timer.c: timers, kept in a heap by the time when they are due.
-- A `uv_timer_t` is known by its address, a number, and `handles` is the memory that holds them.
-- `node.heap` is the timer's place in `timer_heap`. `node.queue` is its place in the local
-- `ready_queue` of `uv__run_timers`: `ready` lists that queue, and a node that was given to
-- `uv__queue_init` stands in no queue.
pub mod Order
pub mod Valid
pub mod Start
pub mod Again
pub mod Expiry
pub mod Ready
pub mod Runnable
pub mod Running
mod Examples
use libuv.Prelude.{
  ℕ, zero, suc, ◌+◌, ◌-◌, ◌%◌, ◌^◌, Bool, true, false, Option, none, some, List, [], ◌∷◌, ◌++◌, ltb,
  length, leb, ◌==◌, if◌then◌else◌, ◌>>=◌,
}
use libuv.Queue.{erase}
use libuv.Errno.{uv_einval, Status, ok, failed}
use libuv.Handle.{Flags, handle_init, is_closing, handle_start, handle_stop}
use libuv.Heap.{Heap, heap_min, heap_insert, heap_remove}

-- A callback is known by a number, and `none` is `NULL`. Times are `uint64_t`.
pub record Timer : Type 0 where
  pub flags : Flags
  pub timer_cb : Option ℕ
  pub timeout : ℕ
  pub repeat : ℕ
  pub start_id : ℕ

pub record Loop : Type 0 where
  pub time : ℕ
  pub timer_counter : ℕ
  pub active_handles : ℕ
  pub timer_heap : Heap ℕ
  pub handles : ℕ → Timer
  pub ready : List ℕ

abbrev pub Memory : Type 0
Memory = ℕ → Timer

pub update : Memory → ℕ → Timer → Memory
update s h v k = if k == h then v else s k

-- `uint64_t` and `INT_MAX`
abbrev pub u64_mod : ℕ
u64_mod = 2 ^ 64

abbrev pub int_max : ℕ
int_max = 2 ^ 31 - 1

pub timer_less_than : Memory → ℕ → ℕ → Bool
timer_less_than s a b =
    if ltb (s a).timeout (s b).timeout
    then true
    else if ltb (s b).timeout (s a).timeout
    then false
    else ltb (s a).start_id (s b).start_id

-- What `uv_timer_init` makes of a handle; it is in no heap and in no queue.
pub uv_timer_init : Loop → ℕ → Loop
uv_timer_init l h = record l {
  handles = update l.handles h (record {
    flags = handle_init;
    timer_cb = none;
    timeout = 0;
    repeat = 0;
    start_id = (l.handles h).start_id;
  });
}

-- A macro of uv-common.h, on a timer of a loop.
abbrev pub on_flags : (Flags → ℕ → Flags × ℕ) → Loop → ℕ → Loop
on_flags macro l h =
    let (f, n) = macro (l.handles h).flags l.active_handles in
    record l {
      handles = update l.handles h (record (l.handles h) { flags = f });
      active_handles = n;
    }

-- The result is `none` at a fault of the heap. The code returns 0 otherwise.
pub uv_timer_stop : Loop → ℕ → Option Loop
uv_timer_stop l h =
    if (l.handles h).flags.active
    then (heap_remove (timer_less_than l.handles) ◌==◌ l.timer_heap h >>= λ heap.
        some (on_flags handle_stop (record l { timer_heap = heap }) h))
    else some (record l { ready = erase h l.ready })

-- `clamped_timeout`, from the sum that has wrapped.
abbrev pub clamp : ℕ → ℕ → ℕ
clamp sum timeout = if ltb sum timeout then u64_mod - 1 else sum

-- The fields that `uv_timer_start` gives a handle.
abbrev pub set_timer : Loop → ℕ → ℕ → ℕ → ℕ → Loop
set_timer l h cb timeout repeat = record l {
  handles = update l.handles h (record (l.handles h) {
    timer_cb = some cb;
    timeout = clamp ((l.time + timeout) % u64_mod) timeout;
    repeat = repeat;
    start_id = l.timer_counter;
  });
  timer_counter = (l.timer_counter + 1) % u64_mod;
}

-- `heap_insert` and `uv__handle_start`.
abbrev pub link_timer : Loop → ℕ → Option Loop
link_timer l h = heap_insert (timer_less_than l.handles) l.timer_heap h >>= λ heap.
    some (on_flags handle_start (record l { timer_heap = heap }) h)

pub uv_timer_start : Loop → ℕ → Option ℕ → ℕ → ℕ → Option (Status × Loop)
uv_timer_start l h none timeout repeat = some (failed uv_einval, l)
uv_timer_start l h (some cb) timeout repeat =
    if is_closing (l.handles h).flags
    then some (failed uv_einval, l)
    else uv_timer_stop l h >>= λ stopped.
        link_timer (set_timer stopped h cb timeout repeat) h >>= λ l'. some (ok, l')

pub uv_timer_again : Loop → ℕ → Option (Status × Loop)
uv_timer_again l h = elim (l.handles h).timer_cb [
  | none ↦ some (failed uv_einval, l)
  | some cb ↦
      if (l.handles h).repeat == 0
      then some (ok, l)
      else uv_timer_stop l h >>= λ stopped.
          let repeat = (stopped.handles h).repeat in
          uv_timer_start stopped h (stopped.handles h).timer_cb repeat repeat >>= λ (_, l').
          some (ok, l')
]

pub uv_timer_set_repeat : Loop → ℕ → ℕ → Loop
uv_timer_set_repeat l h repeat = record l {
  handles = update l.handles h (record (l.handles h) { repeat = repeat });
}

pub uv_timer_get_repeat : Loop → ℕ → ℕ
uv_timer_get_repeat l h = (l.handles h).repeat

pub uv_timer_get_due_in : Loop → ℕ → ℕ
uv_timer_get_due_in l h =
    let due = (l.handles h).timeout in if leb due l.time then 0 else due - l.time

-- `none` is -1: block indefinitely.
pub uv_next_timeout : Loop → Option ℕ
uv_next_timeout l = elim (heap_min l.timer_heap) [
  | none ↦ none
  | some h ↦
      let due = (l.handles h).timeout in
      let diff = due - l.time in
      some (if leb due l.time then 0 else if ltb int_max diff then int_max else diff)
]

-- The first loop of `uv__run_timers`: the due timers leave the heap for `ready_queue`. Each round
-- takes a timer out of the heap, so that one round more than `nelts` is enough fuel.
pub collect : ℕ → Loop → Option Loop
collect zero l = none
collect (suc fuel) l = elim (heap_min l.timer_heap) [
  | none ↦ some l
  | some h ↦
      if ltb l.time (l.handles h).timeout
      then some l
      else uv_timer_stop l h >>= λ stopped.
          collect fuel (record stopped { ready = stopped.ready ++ h ∷ [] })
]

-- What the user's callback does to the loop when it is called with a handle.
module _ (timer_cb : ℕ → ℕ → Loop → Option Loop) where
  -- `handle->timer_cb(handle)`, a fault if the callback is `NULL`.
  pub call : Loop → ℕ → Option Loop
  call l h = elim (l.handles h).timer_cb [ none ↦ none | some cb ↦ timer_cb cb h l ]

  -- The second loop. A callback can take timers out of `ready_queue` and cannot add any.
  drain : ℕ → Loop → Option Loop
  drain zero l = none
  drain (suc fuel) l = elim l.ready [
    | [] ↦ some l
    | h ∷ rest ↦ uv_timer_again (record l { ready = rest }) h >>= λ (_, again).
        call again h >>= λ called. drain fuel called
  ]

  pub uv_run_timers : Loop → Option Loop
  uv_run_timers l = collect (suc l.timer_heap.nelts) (record l { ready = [] }) >>= λ collected.
      drain (suc (length collected.ready)) collected
