-- ===== src/Io/Stop.antt =====
-- src/unix/core.c: `uv__io_stop`.
use libuv.Prelude.{
  ℕ, ◌<◌, ◌≡◌, ◌≢◌, refl, sym, ap, ◌∙◌, inl, inr, Bool, true, false, ◌&&◌, none, some, leb, ◌==◌,
  if◌then◌else◌, Bool-cases, arith,
}
use libuv.Queue.{occurs, occurs-erase}
use libuv.Io.Bits.{Mask, mask_minus, is_zero}
use libuv.Io.Valid.{IsValid, IsSized, entry, used}
use libuv.Io.Register.{occurs-enqueue, is_held, unregister-Unregistered}
use libuv.Io.{Watchers, Loop, enqueue, unregister, unwant, silence, stop_at, uv_io_stop}

-- Whether a stop for these events leaves none that the watcher wants.
abbrev pub is_done : Loop → ℕ → Mask → Bool
is_done l w events = is_zero (mask_minus (l.ios w).pevents events)

-- The state after `uv__io_stop`.
pub record Stopped (l : Loop) (w fd : ℕ) (events : Mask) (l' : Loop) : Type 0 where
  pub valid : IsValid l'
  pub wants : (l'.ios w).pevents ≡ mask_minus (l.ios w).pevents events
  pub same_stale : (l'.ios w).pending_stale ≡ (l.ios w).pending_stale
  pub same_pending : l'.pending_queue ≡ l.pending_queue
  pub same_pq : l'.pq ≡ l.pq
  pub others : (k : ℕ) → l'.ios k ≡ (if k == w then l'.ios w else l.ios k)
  pub waits :
      (k : ℕ)
      → occurs k l'.watcher_queue
        ≡ (if w == k then (if is_done l w events then 0 else 1) else occurs k l.watcher_queue)
  pub held :
      (i : ℕ)
      → entry l'.watchers i ≡ (
          if is_done l w events && (i == fd && is_held (entry l.watchers fd) w)
          then none
          else entry l.watchers i)

-- Some events are left.
still-IsValid :
    (l : Loop) (w : ℕ) (events : Mask)
    → IsValid l
    → is_done l w events ≡ false
    → IsValid (record (unwant l w events) { watcher_queue = enqueue w l.watcher_queue })
still-IsValid l w events v left = record {
  sized = v.sized;
  bounded = v.bounded;
  counted = v.counted;
  placed = λ i k lt e. ground (arith, v.placed i k lt e);
  awaited = λ i k lt e. ground (arith, v.awaited i k lt e);
  queued = λ k. ground (arith, occurs-enqueue w k l.watcher_queue (v.queued w), v.queued k);
  wanted = λ k lt. ground (arith, occurs-enqueue w k l.watcher_queue (v.queued w), v.wanted k);
  pending = v.pending;
}

-- No events are left: from the array `w'` without the watcher.
done-IsValid :
    (l : Loop) (w n : ℕ) (events : Mask) (w' : Watchers)
    → IsValid l
    → IsSized w' l.nwatchers
    → n ≡ used l.nwatchers (entry w')
    → ((i k : ℕ) → entry w' i ≡ some k → i < l.nwatchers → (entry l.watchers i ≡ some k) × (k ≢ w))
    → IsValid (record (silence (unwant l w events) w) { watchers = w'; nfds = n })
done-IsValid l w n events w' v sized counted kept =
    let gone = λ (k : ℕ). occurs-erase w k l.watcher_queue (v.queued w) in
    record {
      sized = sized;
      bounded = v.bounded;
      counted = counted;
      placed = λ i k lt e. let (old, other) = kept i k e lt in ground (arith, v.placed i k lt old);
      awaited =
          λ i k lt e. let (old, other) = kept i k e lt in ground (arith, v.awaited i k lt old);
      queued = λ k. ground (arith, gone k, v.queued k);
      wanted = λ k lt. ground (arith, gone k, v.wanted k);
      pending = v.pending;
    }

uv_io_stop-steps :
    (l : Loop) (w fd : ℕ) (events : Mask)
    → (l.ios w).fd ≡ some fd
    → fd < l.nwatchers
    → is_zero events ≡ false
    → uv_io_stop l w events ≡ (
        if is_done l w events
        then unregister (silence (unwant l w events) w) w fd
        else some (record (unwant l w events) { watcher_queue = enqueue w l.watcher_queue }))
unfolding uv_io_stop
uv_io_stop-steps l w fd events at inside some_events =
    let within : leb l.nwatchers fd ≡ false = ground arith in
    let self : (w == w) ≡ true = ground arith in
    ap (stop_at l w events) at ∙ rw (some_events, within, self) refl

-- The watchers that the array still holds.
module _ (l : Loop) (w fd : ℕ) (w' : Watchers) (n : ℕ) (v : IsValid l) where
  kept :
      (l.ios w).fd ≡ some fd
      → ((i : ℕ)
          → entry w' i
            ≡ (if i == fd && is_held (entry l.watchers fd) w then none else entry l.watchers i))
      → (i k : ℕ) → entry w' i ≡ some k
      → i < l.nwatchers
      → (entry l.watchers i ≡ some k) × (k ≢ w)
  kept at held i k e lt = elim (Bool-cases (i == fd && is_held (entry l.watchers fd) w)) [
    | inl cleared ↦ let empty : entry w' i ≡ none = rw cleared at (held i) in absurd cc
    | inr other ↦
        let same : entry w' i ≡ entry l.watchers i = rw other at (held i) in
        let old : entry l.watchers i ≡ some k = sym same ∙ e in
        (old, λ mine. not_mine other old mine (v.placed i k lt old))
  ]
    where
      not_mine :
          (i == fd && is_held (entry l.watchers fd) w) ≡ false
          → entry l.watchers i ≡ some k
          → k ≡ w
          → (l.ios k).fd ≡ some i
          → ⊥
      not_mine other old mine place =
          let there : some i ≡ some fd = sym place ∙ ap (λ j. (l.ios j).fd) mine ∙ at in
          let index : i ≡ fd = cc in
          let holder : is_held (entry l.watchers fd) w ≡ true =
            ap (λ j. is_held (entry l.watchers j) w) (sym index) ∙ rw old (ground arith) in
          let first : (i == fd) ≡ true = ground arith in
          let both : (i == fd && is_held (entry l.watchers fd) w) ≡ true =
            rw (first, holder) refl in
          cc

-- `uv__io_stop` on a valid loop, for a watcher whose descriptor has an entry and some event, is not
-- a fault and leaves a valid loop. The watcher wants the events no more. If it then wants none, it
-- leaves `watcher_queue` and the array; otherwise it waits in `watcher_queue`. No other watcher
-- changes its place.
pub uv_io_stop-Stopped :
    (l : Loop) (w fd : ℕ) (events : Mask)
    → IsValid l
    → (l.ios w).fd ≡ some fd
    → fd < l.nwatchers
    → is_zero events ≡ false
    → (l' : Loop) × (uv_io_stop l w events ≡ some l') × Stopped l w fd events l'
uv_io_stop-Stopped l w fd events v at inside some_events =
    let less = unwant l w events in
    let steps = uv_io_stop-steps l w fd events at inside some_events in
    elim (Bool-cases (is_done l w events)) [
      | inr left ↦ (
        record less { watcher_queue = enqueue w less.watcher_queue },
        steps ∙ rw left refl,
        record {
          valid = still-IsValid l w events v left;
          wants = ground arith;
          same_stale = ground arith;
          same_pending = refl;
          same_pq = refl;
          others = λ k. ground arith;
          waits = λ k. rw left (occurs-enqueue w k l.watcher_queue (v.queued w));
          held = λ i. rw left (ground arith);
        },
      )
      | inl gone ↦
          let (w', n, u) = unregister-Unregistered (silence less w) w fd v.sized v.counted inside in
          (
            record (silence less w) { watchers = w'; nfds = n },
            steps ∙ rw gone u.done,
            record {
              valid =
                  done-IsValid l w n events w' v u.sized u.counted (kept l w fd w' n v at u.held);
              wants = ground arith;
              same_stale = ground arith;
              same_pending = refl;
              same_pq = refl;
              others = λ k. ground arith;
              waits = λ k.
                  rw gone
                    (ground (arith, occurs-erase w k l.watcher_queue (v.queued w), v.queued k));
              held = λ i. rw gone (u.held i);
            },
          )
    ]
