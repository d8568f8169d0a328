-- ===== src/Io/Close.antt =====
-- src/unix/core.c: `uv__io_close` and `uv__io_feed`.
use libuv.Prelude.{
  ℕ, ◌+◌, ◌<◌, ◌≡◌, refl, ap, ◌∙◌, true, false, not, Option, none, some, ◌==◌, if◌then◌else◌,
  Bool-cases, inl, inr, arith,
}
use libuv.Queue.{erase, occurs, occurs-erase, occurs-append}
use libuv.Io.Bits.{all_events}
use libuv.Io.Valid.{IsValid, entry}
use libuv.Io.Register.{is_held}
use libuv.Io.Stop.{is_done, uv_io_stop-Stopped}
use libuv.Io.{Loop, update, unlink_pending, uv_io_close, is_pending, uv_io_feed}

-- The state after `uv__io_close`.
pub record Closed (l : Loop) (w fd : ℕ) (l' : Loop) : Type 0 where
  pub valid : IsValid l'
  pub unwatched : occurs w l'.watcher_queue ≡ 0
  pub unheld : is_held (entry l'.watchers fd) w ≡ false
  pub unlinked : occurs w l'.pending_queue + occurs w l'.pq ≡ 0
  pub same_test : is_pending l' w ≡ is_pending l w

not_held : (o : Option ℕ) (w : ℕ) → is_held (if is_held o w then none else o) w ≡ false
not_held none w = refl
not_held (some k) w = ground arith

unlink_pending-IsValid :
    (l : Loop) (w : ℕ)
    → IsValid l
    → IsValid (record l {
      pending_queue = erase w l.pending_queue;
      pq = erase w l.pq;
      ios = update l.ios w (record (l.ios w) {
        pending_stale = not (occurs w l.pending_queue + occurs w l.pq == 0);
      });
    })
unlink_pending-IsValid l w v = record {
  sized = v.sized;
  bounded = v.bounded;
  counted = v.counted;
  placed = λ i k lt e. ground (arith, v.placed i k lt e);
  awaited = λ i k lt e. ground (arith, v.awaited i k lt e);
  queued = v.queued;
  wanted = λ k lt. ground (arith, v.wanted k lt);
  pending = λ k.
      ground
        (arith, v.pending k, v.pending w, occurs-erase w k l.pending_queue, occurs-erase w k l.pq);
}

-- `uv__io_close` on a valid loop, for a watcher whose descriptor has an entry and whose node was not
-- closed while it was pending, is not a fault and leaves a valid loop. The watcher stands in no queue
-- and not in the array. `uv__queue_empty` answers for its pending node what it did before, so that a
-- watcher that was pending is never fed again.
pub uv_io_close-Closed :
    (l : Loop) (w fd : ℕ)
    → IsValid l
    → (l.ios w).fd ≡ some fd
    → fd < l.nwatchers
    → (l.ios w).pending_stale ≡ false
    → (l' : Loop) × (uv_io_close l w ≡ some l') × Closed l w fd l'
unfolding uv_io_close unlink_pending is_pending
uv_io_close-Closed l w fd v at inside fresh =
    let (stopped, e, s) = uv_io_stop-Stopped l w fd all_events v at inside refl in
    let stale : (stopped.ios w).pending_stale ≡ false = s.same_stale ∙ fresh in
    let done : is_done l w all_events ≡ true = ground arith in
    let first : (fd == fd) ≡ true = ground arith in
    let same : entry stopped.watchers fd
        ≡ (if is_held (entry l.watchers fd) w then none else entry l.watchers fd) =
      s.held fd ∙ rw (done, first) refl in
    (
      _,
      rw (e, stale) refl,
      record {
        valid = unlink_pending-IsValid stopped w s.valid;
        unwatched = ground (arith, s.waits w);
        unheld = ap (λ o. is_held o w) same ∙ not_held (entry l.watchers fd) w;
        unlinked = ground (
          arith,
          occurs-erase w w stopped.pending_queue,
          occurs-erase w w stopped.pq,
          s.valid.pending w,
        );
        same_test = ground (
          arith,
          fresh,
          occurs-erase w w stopped.pending_queue,
          occurs-erase w w stopped.pq,
          s.valid.pending w,
          ap (occurs w) s.same_pending,
          ap (occurs w) s.same_pq,
        );
      },
    )

-- `uv__io_feed` on a valid loop leaves a valid loop, in which the watcher is pending.
pub uv_io_feed-IsValid :
    (l : Loop) (w : ℕ)
    → IsValid l
    → IsValid (uv_io_feed l w) × (is_pending (uv_io_feed l w) w ≡ true)
unfolding uv_io_feed is_pending
uv_io_feed-IsValid l w v = elim (Bool-cases (is_pending l w)) [
  | inl here ↦ rw here (v, here)
  | inr new ↦ rw new (
    record {
      sized = v.sized;
      bounded = v.bounded;
      counted = v.counted;
      placed = v.placed;
      awaited = v.awaited;
      queued = v.queued;
      wanted = v.wanted;
      pending = λ k. ground (arith, new, occurs-append k l.pending_queue w, v.pending k);
    },
    ground (arith, occurs-append w l.pending_queue w),
  )
]
