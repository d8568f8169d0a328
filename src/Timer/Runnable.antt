-- ===== src/Timer/Runnable.antt =====
-- src/timer.c: the loops that `uv__run_timers` runs on, and what is asked of the callbacks.
use mathlib.Core.List.{Sublistᴰ}
use libuv.Prelude.{
  ℕ, ◌+◌, ◌^◌, ◌<◌, ◌≡◌, ◌≢◌, ap, ◌∙◌, ◌⊎◌, inl, inr, Bool-cases, Option, some, false, List, [],
  ◌∷◌, length, one_if, arith, ◌==◌,
}
use libuv.Queue.{occurs}
use libuv.Errno.{ok}
use libuv.Timer.{uv_timer_again, Loop, call, u64_mod}
use libuv.Timer.Valid.{IsValid}
use libuv.Timer.Again.{Repeats, Again}

same_or_not : (k h : ℕ) → (k ≡ h) ⊎ (k ≢ h)
same_or_not k h = elim (Bool-cases (k == h)) [
  | inl is ↦ inl (ground arith)
  | inr isnt ↦ inr (ground arith)
]

-- A valid loop with room for the timers that wait to be called, whose numbers fit, and whose active
-- and waiting timers have callbacks.
pub record IsRunnable (l : Loop) : Type 0 where
  pub valid : IsValid l
  pub room : l.timer_heap.nelts + length l.ready + 1 < 2 ^ 32
  pub now : l.time < u64_mod
  pub repeats : (k : ℕ) → (l.handles k).repeat < u64_mod
  pub has_cb :
      (k : ℕ)
      → 0 < occurs k l.ready + one_if (l.handles k).flags.active
      → (cb : ℕ) × ((l.handles k).timer_cb ≡ some cb)

-- What is asked of the callbacks: they return, leave a runnable loop runnable, do not move its
-- clock, and take at most some of the timers that wait to be called out of the queue.
pub record Behaves (timer_cb : ℕ → ℕ → Loop → Option Loop) : Type 0 where
  pub returns :
      (cb h : ℕ) (l : Loop)
      → IsRunnable l
      → (l' : Loop) × (timer_cb cb h l ≡ some l')
        × IsRunnable l'
        × Sublistᴰ l'.ready l.ready
        × (l'.time ≡ l.time)

-- The loop when the head has left the queue.
abbrev pub popped : Loop → List ℕ → Loop
popped l rest = record l { ready = rest }

-- The second loop, and the timers whose callbacks it calls, in order: each round gives the head of
-- the queue to `uv_timer_again`, by which it is active again and due one repeat later, if it repeats
-- and is not closing, and then calls it.
pub data Calls (timer_cb : ℕ → ℕ → Loop → Option Loop) : Loop → List ℕ → Loop → Type 0 where
  done : (l : Loop) → l.ready ≡ [] → Calls timer_cb l [] l
  next :
      (l again called end : Loop) (h : ℕ) (rest calls : List ℕ)
      → l.ready ≡ h ∷ rest
      → uv_timer_again (popped l rest) h ≡ some (ok, again)
      → Repeats (popped l rest) h again
      → call timer_cb again h ≡ some called
      → Calls timer_cb called calls end
      → Calls timer_cb l (h ∷ calls) end

module _ (l : Loop) (h : ℕ) (rest : List ℕ) (at : l.ready ≡ h ∷ rest) (r : IsRunnable l) where
  pub popped-IsValid : IsValid (popped l rest)
  popped-IsValid = record {
    heap = r.valid.heap;
    linked = r.valid.linked;
    queued = λ k. ground (arith, r.valid.queued k, ap (occurs k) at);
  }

  pub popped-inactive : ((l.handles h).flags.active ≡ false) × (occurs h rest ≡ 0)
  popped-inactive = (
    ground (arith, r.valid.queued h, ap (occurs h) at),
    ground (arith, r.valid.queued h, ap (occurs h) at),
  )

  pub head_cb : (cb : ℕ) × ((l.handles h).timer_cb ≡ some cb)
  head_cb = r.has_cb h (ground (arith, ap (occurs h) at))

  pub repeated-IsRunnable : (again : Loop) → Again (popped l rest) h again → IsRunnable again
  repeated-IsRunnable again a = record {
    valid = a.valid;
    room = omega (arith, r.room, a.fewer, ap length a.same_ready, ap length at);
    now = omega (arith, a.same_time, r.now);
    repeats = λ k. elim (same_or_not k h) [
      | inl is ↦ rw is (omega (arith, a.same_repeat, r.repeats h))
      | inr isnt ↦ rw (a.others k isnt) (r.repeats k)
    ];
    has_cb = λ k there. elim (same_or_not k h) [
      | inl is ↦ let (cb, e) = head_cb in (cb, rw is (a.same_cb ∙ e))
      | inr isnt ↦
          let (cb, e) = r.has_cb k (
            ground (arith, there, a.others k isnt, ap (occurs k) a.same_ready, ap (occurs k) at)) in
          (cb, rw (a.others k isnt) e)
    ];
  }
