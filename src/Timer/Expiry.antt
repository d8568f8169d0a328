-- ===== src/Timer/Expiry.antt =====
-- src/timer.c: `uv__next_timeout`, how long the loop may wait for input.
use Prim.Native.Nat.{min}
use native.Mathlib.Decide.{dec_lt}
use libuv.Prelude.{
  ℕ, ◌-◌, ◌≤◌, ◌<◌, ◌≡◌, refl, inl, inr, Bool, true, false, Option, none, some, ◌==◌, ==_iff,
  Bool-cases, Option-cases, one_if, arith,
}
use libuv.Heap.{Tree, null, node, heap_min}
use libuv.Heap.Count.{count}
use libuv.Heap.Place.{copies}
use libuv.Heap.Correct.{heap_min-least}
use libuv.Timer.{Loop, int_max, timer_less_than, uv_next_timeout}
use libuv.Timer.Order.{timer_less_than-IsOrder}
use libuv.Timer.Valid.{IsValid}

-- A test that fails everywhere fails at every member.
pub count-zero :
    (test : ℕ → Bool) (k : ℕ) (t : Tree ℕ) → count test t ≡ 0 → 0 < copies ◌==◌ k t → test k ≡ false
count-zero test k null z h = absurd (omega arith)
count-zero test k (node l y r) z h = elim (Bool-cases (y == k)) [
  | inl e ↦ ground (arith, (==_iff y k).0 e)
  | inr ne ↦ elim (dec_lt 0 (copies ◌==◌ k l)) [
    | yes in_l ↦ count-zero test k l (omega arith) in_l
    | no out_l ↦ count-zero test k r (omega arith) (ground arith)
  ]
]

-- No active timer is due before an active timer that the heap gives.
pub min-earliest :
    (l : Loop) (h : ℕ)
    → IsValid l
    → heap_min l.timer_heap ≡ some h
    → ((l.handles h).flags.active ≡ true)
      × ((k : ℕ) → (l.handles k).flags.active ≡ true → timer_less_than l.handles k h ≡ false)
min-earliest l h v e =
    let (least, here) =
      heap_min-least (timer_less_than l.handles) l.timer_heap h (timer_less_than-IsOrder l.handles)
        v.heap e in
    (
      ground (arith, here (λ y. y == h) ((==_iff h h).1 refl), v.linked h),
      λ k on.
          count-zero (λ y. timer_less_than l.handles y h) k l.timer_heap.min least
            (ground (arith, v.linked k)),
    )

pub no_min-inactive :
    (l : Loop) (k : ℕ)
    → IsValid l
    → heap_min l.timer_heap ≡ none
    → (l.handles k).flags.active ≡ false
unfolding heap_min
no_min-inactive l k v e = empty l.timer_heap.min e (v.linked k)
  where
    empty :
        (t : Tree ℕ)
        → heap_min (record l.timer_heap { min = t }) ≡ none
        → copies ◌==◌ k t ≡ one_if (l.handles k).flags.active
        → (l.handles k).flags.active ≡ false
    empty null f c = ground arith
    empty (node a y b) f c = cc

pub timer_less_than-timeout :
    (l : Loop) (k h : ℕ)
    → timer_less_than l.handles k h ≡ false
    → (l.handles h).timeout ≤ (l.handles k).timeout
unfolding timer_less_than
timer_less_than-timeout l k h e = ground arith

-- What the wait promises: with no active timer, to wait for ever; or else, to wait until the timer
-- is due that is due first, and at most `INT_MAX` milliseconds.
abbrev pub Promises : Loop → Option ℕ → Type 0
Promises l none = (k : ℕ) → (l.handles k).flags.active ≡ false
Promises l (some wait) =
    (h : ℕ) × ((l.handles h).flags.active ≡ true)
    × ((k : ℕ) → (l.handles k).flags.active ≡ true → (l.handles h).timeout ≤ (l.handles k).timeout)
    × (wait ≡ min ((l.handles h).timeout - l.time) int_max)

-- `uv__next_timeout` is -1 if no timer of the loop is active. Or else it is the time from now
-- until the active timer that is due first, 0 if that is due, and `INT_MAX` if it is more.
pub uv_next_timeout-Promises : (l : Loop) → IsValid l → Promises l (uv_next_timeout l)
unfolding uv_next_timeout
uv_next_timeout-Promises l v = elim (Option-cases (heap_min l.timer_heap)) [
  | inl e ↦ rw (e, uv_next_timeout) (λ k. no_min-inactive l k v e)
  | inr (h, e) ↦
      let (on, least) = min-earliest l h v e in
      rw (e, uv_next_timeout)
        (h, on, λ k a. timer_less_than-timeout l k h (least k a), ground arith)
]
