-- ===== src/Io/Start.antt =====
-- src/unix/core.c: `uv__io_start`.
use libuv.Prelude.{
  leb, ◌||◌, ℕ, ◌+◌, ◌≤◌, ◌<◌, ◌≡◌, refl, ap, ◌∙◌, inl, inr, Bool, true, false, some, if◌then◌else◌,
  Bool-cases, arith,
}
use libuv.Errno.{Status, ok}
use libuv.Queue.{occurs}
use libuv.Io.Bits.{Mask, mask_or, is_zero, same_mask}
use libuv.Io.Valid.{IsValid, entry, holds}
use libuv.Io.Register.{register-Registered}
use libuv.Io.Resize.{Resized, maybe_resize-Resized}
use libuv.Io.{Loop, resized, want, maybe_resize, uv_io_start}

pub want-IsValid :
    (l : Loop) (w : ℕ) (events : Mask)
    → IsValid l
    → is_zero events ≡ false
    → IsValid (want l w events)
want-IsValid l w events v some_events = record {
  sized = v.sized;
  bounded = v.bounded;
  counted = v.counted;
  placed = λ i k lt e. ground (arith, v.placed i k lt e);
  awaited = λ i k lt e. ground (arith, v.awaited i k lt e);
  queued = v.queued;
  wanted = λ k lt. ground (arith, v.wanted k lt);
  pending = v.pending;
}

-- Whether the poller already has the events that the watcher wants.
abbrev pub is_known : Loop → ℕ → Mask → Bool
is_known l w events = same_mask (l.ios w).events (mask_or (l.ios w).pevents events)

-- The state after `uv__io_start`: the watcher wants the events too. If the poller has to hear of
-- that, then the watcher stands in `watcher_queue` and the entry of its descriptor is taken.
pub record Started (l : Loop) (w fd : ℕ) (events : Mask) (l' : Loop) : Type 0 where
  pub valid : IsValid l'
  pub wants : l'.ios ≡ (want l w events).ios
  pub waits :
      occurs w l'.watcher_queue ≡ (if is_known l w events then occurs w l.watcher_queue else 1)
  pub holder : (if is_known l w events then 1 else holds (entry l'.watchers fd)) ≡ 1
  pub room : fd < l'.nwatchers

pub uv_io_start-steps :
    (alloc : Bool) (l : Loop) (w fd : ℕ) (events : Mask) (result : Status × Loop)
    → (l.ios w).fd ≡ some fd
    → fd < 2147483647
    → is_zero events ≡ false
    → maybe_resize alloc (want l w events) (fd + 1) ≡ some result
    → uv_io_start alloc l w events ≡ resized w fd result
unfolding uv_io_start
uv_io_start-steps alloc l w fd events result at small some_events e =
    let asserted : (is_zero events || leb 2147483647 fd) ≡ false = ground arith in
    rw (at, asserted, e, uv_io_start) refl

resized-Started :
    (l : Loop) (w fd : ℕ) (events : Mask) (grown : Loop)
    → (l.ios w).fd ≡ some fd
    → is_zero events ≡ false
    → Resized (want l w events) (fd + 1) grown
    → (l' : Loop) × (resized w fd (ok, grown) ≡ some (ok, l')) × Started l w fd events l'
unfolding resized
resized-Started l w fd events grown at some_events r =
    let mine : grown.ios w ≡ record (l.ios w) { pevents = mask_or (l.ios w).pevents events } =
      ap (λ f. f w) r.same_ios ∙ ground arith in
    let known : same_mask (grown.ios w).events (grown.ios w).pevents ≡ is_known l w events =
      ap (λ i. same_mask i.events i.pevents) mine in
    elim (Bool-cases (is_known l w events)) [
      | inl old ↦ (
        grown,
        rw (known, old) refl,
        record {
          valid = r.valid;
          wants = r.same_ios;
          waits = rw old (ap (occurs w) r.same_queue);
          holder = rw old refl;
          room = omega (arith, r.room);
        },
      )
      | inr new ↦
          let (l', done, reg) =
            register-Registered grown w fd r.valid (ap (λ i. i.fd) mine ∙ at)
              (omega (arith, r.room)) (ap (λ i. is_zero i.pevents) mine ∙ ground arith) in
          (
            l',
            rw (known, new) done,
            record {
              valid = reg.valid;
              wants = reg.same_ios ∙ r.same_ios;
              waits = rw new reg.waits;
              holder = rw new reg.holder;
              room = omega (arith, r.room, reg.same_size);
            },
          )
    ]

-- `uv__io_start` on a valid loop, for a descriptor in range and some event, returns 0 if the
-- allocation that it may need succeeds. It leaves a valid loop, in which the watcher wants the
-- events; what it does to the lists is said at `Started`.
pub uv_io_start-Started :
    (l : Loop) (w fd : ℕ) (events : Mask)
    → IsValid l
    → (l.ios w).fd ≡ some fd
    → fd + 3 ≤ 2147483648
    → is_zero events ≡ false
    → (l' : Loop) × (uv_io_start true l w events ≡ some (ok, l')) × Started l w fd events l'
uv_io_start-Started l w fd events v at small some_events =
    let wanted = want l w events in
    let (grown, e, r) =
      maybe_resize-Resized wanted (fd + 1) (want-IsValid l w events v some_events) (omega arith) in
    let (l', e', started) = resized-Started l w fd events grown at some_events r in
    (
      l',
      uv_io_start-steps true l w fd events (ok, grown) at (omega arith) some_events e ∙ e',
      started,
    )
