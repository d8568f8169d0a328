-- ===== src/Barrier.antt =====
-- src/thread-common.c: the barriers of the systems without pthread barriers.
-- Each stretch of `uv_barrier_wait` between two waits on the condition variable holds the mutex,
-- and is one function here. The threads in the two loops of the function are known by their number:
-- those that sleep on the condition variable, and those that were woken and have yet to take the
-- mutex. What `uv_mutex_init` and `uv_cond_init` return is a parameter.
use libuv.Prelude.{
  ℕ, ◌+◌, ◌%◌, ◌^◌, Bool, true, false, Option, none, some, ◌-◌, ◌==◌, ltb, if◌then◌else◌, one_if,
}
use libuv.Errno.{Errno, Status, ok, failed, uv_einval, uv_enomem}
pub mod Steps
pub mod Sound
mod Examples

-- `struct _uv_barrier`, its `in` being `entered`; the threads that wait on its condition variable;
-- and, for the statements, how many threads have entered, left, and been the last of a round.
pub record Barrier : Type 0 where
  pub entered : ℕ
  pub out : ℕ
  pub threshold : ℕ
  pub gate_asleep : ℕ
  pub gate_awake : ℕ
  pub inside_asleep : ℕ
  pub inside_awake : ℕ
  pub arrivals : ℕ
  pub departures : ℕ
  pub lasts : ℕ

-- What the initialisation returns, the barrier if there is one, and what stays allocated.
pub record Made : Type 0 where
  pub rc : Status
  pub barrier : Option Barrier
  pub blocks : ℕ
  pub mutexes : ℕ

abbrev pub new_barrier : ℕ → Barrier
new_barrier count = record {
  entered = 0;
  out = 0;
  threshold = count;
  gate_asleep = 0;
  gate_awake = 0;
  inside_asleep = 0;
  inside_awake = 0;
  arrivals = 0;
  departures = 0;
  lasts = 0;
}

abbrev pub cond_init : Status → Made → Made
cond_init ok m = m
cond_init (failed e) m = record {
  rc = failed e;
  barrier = none;
  blocks = m.blocks - 1;
  mutexes = m.mutexes - 1;
}

abbrev pub mutex_init : Status → Status → Made → Made
mutex_init ok cond m = cond_init cond (record m { mutexes = m.mutexes + 1 })
mutex_init (failed e) cond m = record {
  rc = failed e;
  barrier = none;
  blocks = m.blocks - 1;
  mutexes = m.mutexes;
}

-- `has_barrier` is that the caller's pointer is not null, `has_memory` that `uv__malloc` succeeds,
-- `mutex` and `cond` what the initialisations of the two return.
pub uv_barrier_init : Bool → ℕ → Bool → Status → Status → Made
uv_barrier_init has_barrier count has_memory mutex cond =
    if has_barrier
    then if count == 0
      then record { rc = failed uv_einval; barrier = none; blocks = 0; mutexes = 0 }
      else if has_memory
      then mutex_init mutex cond
          (record { rc = ok; barrier = some (new_barrier count); blocks = 1; mutexes = 0 })
      else record { rc = failed uv_enomem; barrier = none; blocks = 0; mutexes = 0 }
    else record { rc = failed uv_einval; barrier = none; blocks = 0; mutexes = 0 }

-- `uv_cond_broadcast`
abbrev pub broadcast : Barrier → Barrier
broadcast b = record b {
  gate_asleep = 0;
  gate_awake = b.gate_awake + b.gate_asleep;
  inside_asleep = 0;
  inside_awake = b.inside_awake + b.inside_asleep;
}

-- The end of `uv_barrier_wait`, and what it returns: whether the thread is the last of the round.
unfoldable pub leave : Barrier → Bool × Barrier
leave b =
    let out = (b.out + 2 ^ 32 - 1) % 2 ^ 32 in
    let last = out == 0 in
    let left = record b {
      out = out;
      departures = b.departures + 1;
      lasts = b.lasts + one_if last;
    } in
    (last, (if last then broadcast left else left))

-- From the end of the first loop. No value is returned when the thread goes to sleep.
pub arrive : Barrier → Option Bool × Barrier
unfolding leave
arrive b =
    let entered = (b.entered + 1) % 2 ^ 32 in
    let counted = record b { arrivals = b.arrivals + 1 } in
    let full = leave (broadcast (record counted { entered = 0; out = b.threshold })) in
    if entered == b.threshold
    then (some full.0, full.1)
    else (none, record counted { entered = entered; inside_asleep = b.inside_asleep + 1 })

pub uv_barrier_wait : Barrier → Option Bool × Barrier
unfolding arrive
uv_barrier_wait b =
    if b.out == 0 then arrive b else (none, record b { gate_asleep = b.gate_asleep + 1 })

-- A thread of the first loop takes the mutex again.
pub wake_at_gate : Barrier → Option Bool × Barrier
unfolding uv_barrier_wait
wake_at_gate b = uv_barrier_wait (record b { gate_awake = b.gate_awake - 1 })

-- A thread of the second loop takes the mutex again.
pub wake_inside : Barrier → Option Bool × Barrier
unfolding leave
wake_inside b =
    let up = record b { inside_awake = b.inside_awake - 1 } in
    let left = leave up in
    if b.entered == 0
    then (some left.0, left.1)
    else (none, record up { inside_asleep = b.inside_asleep + 1 })

pub data Destruction : Type 0 where
  assertion_failed : Destruction
  -- It waits for the threads that have yet to leave.
  must_wait : Destruction
  destroyed : Destruction

-- `uv_barrier_destroy`, from its beginning and each time that it takes the mutex again.
pub uv_barrier_destroy : Barrier → Destruction
uv_barrier_destroy b =
    if b.entered == 0 then if b.out == 0 then destroyed else must_wait else assertion_failed
