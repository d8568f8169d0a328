-- ===== src/Io/Failure.antt =====
-- src/unix/core.c: what a failed allocation in `maybe_resize` leads to.
use libuv.Prelude.{
  ℕ, ◌+◌, ◌≤◌, ◌<◌, ◌≡◌, ap, ◌∙◌, true, false, Option, none, some, leb, ◌==◌, arith,
}
use libuv.Errno.{uv_enomem, failed}
use libuv.Io.Bits.{Mask, all_events, is_zero}
use libuv.Io.Valid.{IsValid, entry}
use libuv.Io.Resize.{maybe_resize-freed}
use libuv.Io.Start.{want-IsValid, uv_io_start-steps}
use libuv.Io.{slots, freed, Loop, read, want, resized, unregister, stop_at, uv_io_start, uv_io_stop}

-- Code bug. If the array of a valid loop has to grow for a descriptor in range in `uv__io_start` and the allocation fails, it
-- returns UV_ENOMEM, but the array is freed. A later `uv__io_stop` of another watcher, one that the
-- array held, reads the freed memory.
pub uv_io_start-freed :
    (l : Loop) (w fd i k m : ℕ) (f : ℕ → Option ℕ) (events : Mask)
    → IsValid l
    → l.watchers ≡ slots m f
    → (l.ios w).fd ≡ some fd
    → l.nwatchers ≤ fd
    → fd < 2147483647
    → is_zero events ≡ false
    → i < l.nwatchers
    → entry l.watchers i ≡ some k
    → (l' : Loop) × (uv_io_start false l w events ≡ some (failed uv_enomem, l'))
      × (uv_io_stop l' k all_events ≡ none)
unfolding resized uv_io_stop stop_at unregister read
uv_io_start-freed l w fd i k m f events v held at short small some_events inside e =
    let wanted = want l w events in
    let failure =
      maybe_resize-freed wanted (fd + 1) m f (want-IsValid l w events v some_events) held
        (omega arith) in
    let l' = record wanted { watchers = freed } in
    let place : (l'.ios k).fd ≡ some i = ground (arith, v.placed i k inside e) in
    let within : leb l.nwatchers i ≡ false = ground arith in
    let self : (k == k) ≡ true = ground arith in
    (
      l',
      uv_io_start-steps false l w fd events (failed uv_enomem, l') at small some_events failure,
      ap (stop_at l' k all_events) place ∙ rw (within, self) (ground arith),
    )
