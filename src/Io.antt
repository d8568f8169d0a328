-- ===== src/Io.antt =====
-- src/unix/core.c: the watchers of file descriptors.
-- A `uv__io_t` is known by its address, a number, and `ios` is the memory that holds them. `none` is
-- the descriptor -1. The result `none` of an operation is a fault: a read of freed or missing
-- memory, an assertion that fails, or a queue node that is removed a second time.
pub mod Bits
pub mod Valid
pub mod Resize
pub mod Register
pub mod Start
pub mod Stop
pub mod Close
pub mod Failure
pub mod Pending
mod Examples
use libuv.Prelude.{
  ℕ, zero, suc, ◌+◌, ◌-◌, Bool, true, false, not, ◌&&◌, ◌||◌, Option, none, some, List, [], ◌∷◌,
  ◌++◌, ltb, leb, ◌==◌, if◌then◌else◌, ◌>>=◌, ◌%◌, ◌^◌,
}
use libuv.Queue.{erase, occurs}
use libuv.Errno.{uv_enomem, Status, ok, failed}
use libuv.Io.Bits.{
  Mask, no_events, all_events, mask_or, mask_minus, mask_and, is_zero, same_mask, next_power_of_two,
}

-- `pending_stale`: `uv__io_close` has taken `pending_queue` out of its queue without a
-- `uv__queue_init`. The callback is known by a number.
pub record Io : Type 0 where
  pub io_cb : ℕ
  pub fd : Option ℕ
  pub events : Mask
  pub pevents : Mask
  pub pending_stale : Bool

-- `loop->watchers`: `NULL`, an allocation with its number of entries and what they hold, or an
-- allocation that was freed.
pub data Watchers : Type 0 where
  unallocated freed : Watchers
  slots : ℕ → (ℕ → Option ℕ) → Watchers

-- `pq` is the local queue of `uv__run_pending`.
pub record Loop : Type 0 where
  pub watchers : Watchers
  pub nwatchers : ℕ
  pub nfds : ℕ
  pub watcher_queue : List ℕ
  pub pending_queue : List ℕ
  pub pq : List ℕ
  pub ios : ℕ → Io

abbrev pub update {ℓ} : {A : Type ℓ} → (ℕ → A) → ℕ → A → ℕ → A
update f h v k = if k == h then v else f k

-- `loop->watchers[i]`, read and written.
pub read : Watchers → ℕ → Option (Option ℕ)
read (slots n f) i = if ltb i n then some (f i) else none
read unallocated i = none
read freed i = none

pub write : Watchers → ℕ → Option ℕ → Option Watchers
write (slots n f) i v = if ltb i n then some (slots n (update f i v)) else none
write unallocated i v = none
write freed i v = none

-- The two entries behind the others, that the poller uses.
fakes : Watchers → ℕ → Option (Option ℕ × Option ℕ)
unfolding read
fakes unallocated n = some (none, none)
fakes (slots m f) n = read (slots m f) n >>= λ fake_watcher_list.
    read (slots m f) (n + 1) >>= λ fake_watcher_count. some (fake_watcher_list, fake_watcher_count)
fakes freed n = none

-- The entries after the loop and the two assignments.
grown : Watchers → ℕ → ℕ → Option ℕ × Option ℕ → ℕ → Option ℕ
grown (slots m f) n n' (fake_list, fake_count) i =
    if ltb i n then f i else if ltb i n' then none else if i == n' then fake_list else fake_count
grown _ n n' (fake_list, fake_count) i =
    if ltb i n' then none else if i == n' then fake_list else fake_count

-- `uv__reallocf` frees the old allocation if it fails; `alloc` is whether it succeeds.
after_failure : Watchers → Watchers
after_failure unallocated = unallocated
after_failure (slots n f) = freed
after_failure freed = freed

pub maybe_resize : Bool → Loop → ℕ → Option (Status × Loop)
unfolding fakes grown after_failure
maybe_resize alloc l len =
    let nwatchers = (next_power_of_two ((len + 2) % 2 ^ 32) + 2 ^ 32 - 2) % 2 ^ 32 in
    if leb len l.nwatchers
    then some (ok, l)
    else (fakes l.watchers l.nwatchers >>= λ kept. some (
        if alloc
        then (
          ok,
          record l {
            watchers = slots (nwatchers + 2) (grown l.watchers l.nwatchers nwatchers kept);
            nwatchers = nwatchers;
          },
        )
        else (failed uv_enomem, record l { watchers = after_failure l.watchers })))

-- A watcher that is in no queue.
pub uv_io_init : Loop → ℕ → ℕ → Option ℕ → Loop
uv_io_init l w cb fd = record l {
  ios = update l.ios w (record {
    io_cb = cb;
    fd = fd;
    events = no_events;
    pevents = no_events;
    pending_stale = false;
  });
}

-- `uv__queue_insert_tail`, unless the node stands in the queue.
abbrev pub enqueue : ℕ → List ℕ → List ℕ
enqueue w q = if occurs w q == 0 then q ++ w ∷ [] else q

-- What follows the short circuit.
pub register : Loop → ℕ → ℕ → Option (Status × Loop)
unfolding read write
register l w fd =
    let queued = record l { watcher_queue = enqueue w l.watcher_queue } in
    read l.watchers fd >>= λ entry. elim entry [
      | some _ ↦ some (ok, queued)
      | none ↦ write l.watchers fd (some w) >>= λ watchers.
          some (ok, record queued { watchers = watchers; nfds = (l.nfds + 1) % 2 ^ 32 })
    ]

-- From `maybe_resize`, with its result.
pub resized : ℕ → ℕ → Status × Loop → Option (Status × Loop)
unfolding register
resized w fd (failed e, l) = some (failed e, l)
resized w fd (ok, l) =
    if same_mask (l.ios w).events (l.ios w).pevents then some (ok, l) else register l w fd

abbrev pub want : Loop → ℕ → Mask → Loop
want l w events = record l {
  ios = update l.ios w (record (l.ios w) { pevents = mask_or (l.ios w).pevents events });
}

-- The descriptor is less than `INT_MAX`; the short circuit is that of all systems but Solaris.
pub uv_io_start : Bool → Loop → ℕ → Mask → Option (Status × Loop)
unfolding maybe_resize resized
uv_io_start alloc l w events = elim (l.ios w).fd [
  | none ↦ none
  | some fd ↦
      if is_zero events || leb 2147483647 fd
      then none
      else maybe_resize alloc (want l w events) (fd + 1) >>= λ result. resized w fd result
]

-- `UV__NO_IO_CB` is 0.
pub uv_io_init_start : Bool → Loop → ℕ → ℕ → ℕ → Mask → Option (Status × Loop)
unfolding uv_io_init uv_io_start
uv_io_init_start alloc l w cb fd events =
    uv_io_start alloc (uv_io_init l w cb (some fd)) w events >>= λ (err, l'). elim err [
      | ok ↦ some (ok, l')
      | failed e ↦ some (failed e, uv_io_init l' w 0 none)
    ]

-- `if (w == loop->watchers[w->fd])`, with its assertion.
pub unregister : Loop → ℕ → ℕ → Option Loop
unfolding read write
unregister l w fd = read l.watchers fd >>= λ entry.
    if (elim entry [ none ↦ false | some k ↦ k == w ])
    then (if l.nfds == 0
        then none
        else (write l.watchers fd none >>= λ watchers.
            some (record l { watchers = watchers; nfds = l.nfds - 1 })))
    else some l

abbrev pub unwant : Loop → ℕ → Mask → Loop
unwant l w events = record l {
  ios = update l.ios w (record (l.ios w) { pevents = mask_minus (l.ios w).pevents events });
}

-- The watcher wants nothing any more.
abbrev pub silence : Loop → ℕ → Loop
silence l w = record l {
  watcher_queue = erase w l.watcher_queue;
  ios = update l.ios w (record (l.ios w) { events = no_events });
}

-- From `w->fd`.
pub stop_at : Loop → ℕ → Mask → Option ℕ → Option Loop
unfolding unregister
stop_at l w events none = if is_zero events then none else some l
stop_at l w events (some fd) =
    let less = unwant l w events in
    if is_zero events
    then none
    else if leb l.nwatchers fd
    then some l
    else if is_zero (less.ios w).pevents
    then unregister (silence less w) w fd
    else some (record less { watcher_queue = enqueue w less.watcher_queue })

pub uv_io_stop : Loop → ℕ → Mask → Option Loop
unfolding stop_at
uv_io_stop l w events = stop_at l w events (l.ios w).fd

-- `uv__queue_remove(&w->pending_queue)`, from `loop->pending_queue` or from `pq`.
unlink_pending : Loop → ℕ → Option Loop
unlink_pending l w =
    if (l.ios w).pending_stale
    then none
    else some (record l {
      pending_queue = erase w l.pending_queue;
      pq = erase w l.pq;
      ios = update l.ios w (record (l.ios w) {
        pending_stale = not (occurs w l.pending_queue + occurs w l.pq == 0);
      });
    })

-- `uv__platform_invalidate_fd` is the poller's and does not touch what is modelled here.
pub uv_io_close : Loop → ℕ → Option Loop
unfolding uv_io_stop unlink_pending
uv_io_close l w = uv_io_stop l w all_events >>= λ stopped. unlink_pending stopped w

-- `uv__queue_empty(&w->pending_queue)`
pub is_pending : Loop → ℕ → Bool
is_pending l w = (l.ios w).pending_stale || not (occurs w l.pending_queue + occurs w l.pq == 0)

pub uv_io_feed : Loop → ℕ → Loop
unfolding is_pending
uv_io_feed l w =
    if is_pending l w then l else record l { pending_queue = l.pending_queue ++ w ∷ [] }

pub uv_io_active : Loop → ℕ → Mask → Bool
uv_io_active l w events = not (is_zero (mask_and (l.ios w).pevents events))
