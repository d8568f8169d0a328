-- ===== src/Signal/Actions.antt =====
-- src/unix/signal.c: starting and stopping signal handles, and catching a signal.
use libuv.Prelude.{
  ℕ, ◌+◌, Bool, true, false, not, ◌&&◌, Option, none, some, List, [], ◌∷◌, ◌++◌, ◌==◌,
  if◌then◌else◌,
}
use libuv.Errno.{Status, ok, failed, uv_einval}
use libuv.Signal.{
  SignalHandle, Key, key_of, Disposition, default_action, caught_once, caught, disposition_of,
}
use libuv.Signal.Tree.{RbTree, nfind, Signals}

abbrev pub update {ℓ} : {A : Type ℓ} → (ℕ → A) → ℕ → A → ℕ → A
update f p v k = if k == p then v else f k

-- The first of the entries, if it is for the signal.
abbrev pub head_for : (ℕ → SignalHandle) → ℕ → List ℕ → Option ℕ
head_for handles signum [] = none
head_for handles signum (h ∷ l) = if (handles h).signum == signum then some h else none

abbrev pub lookup_key : ℕ → Key
lookup_key signum = record { signum = signum; one_shot = false; loop = 0; address = 0 }

unfoldable pub first_handle : (ℕ → SignalHandle) → ℕ → List ℕ → Option ℕ
first_handle handles signum l =
    head_for handles signum (nfind (key_of handles) (lookup_key signum) l)

-- `first_handle == NULL || (!oneshot && (first_handle->flags & UV_SIGNAL_ONE_SHOT))`
abbrev pub must_register : (ℕ → SignalHandle) → Bool → Option ℕ → Bool
must_register handles oneshot none = true
must_register handles oneshot (some first) = not oneshot && (handles first).one_shot

-- The disposition when a handle, one-shot or not, has left the tree.
abbrev pub left_by : (ℕ → SignalHandle) → Bool → Option ℕ → Disposition → Disposition
left_by handles rem_oneshot none d = default_action
left_by handles rem_oneshot (some first) d =
    if (handles first).one_shot && not rem_oneshot then caught_once else d

abbrev pub stopped : SignalHandle → SignalHandle
stopped w = record w { signum = 0; is_active = false }

abbrev pub watching : SignalHandle → ℕ → Bool → SignalHandle
watching w signum oneshot = record w {
  signum = signum;
  one_shot = if oneshot then true else w.one_shot;
}

abbrev pub has_failed : Status → Bool
has_failed ok = false
has_failed (failed e) = true

-- `accepts` is what `uv__signal_register_handler` returns for a signal, and `room` whether a handle's
-- loop has room in its pipe.
module _ {ℓ} {T : Type ℓ} (tree : RbTree T) where
  unfoldable pub signal_stop : Signals tree → ℕ → Signals tree
  signal_stop s h =
      let w = s.handles h in
      let started = tree.remove (key_of s.handles) h s.started in
      let first = first_handle s.handles w.signum (tree.entries started) in
      let disposition = left_by s.handles w.one_shot first (s.disposition w.signum) in
      if w.signum == 0 then s else record s {
        started = started;
        disposition = update s.disposition w.signum disposition;
        handles = update s.handles h (stopped w);
      }

  -- `uv__signal_start` from where the handle is stopped.
  unfoldable pub start_stopped :
      (ℕ → Status) → Signals tree → ℕ → ℕ → ℕ → Bool → Status × Signals tree
  start_stopped accepts s h cb signum oneshot =
      let first = first_handle s.handles signum (tree.entries s.started) in
      let register = must_register s.handles oneshot first in
      let registered =
        if register then update s.disposition signum (disposition_of oneshot) else s.disposition in
      let w = watching (s.handles h) signum oneshot in
      let keyed = update s.handles h w in
      if register && has_failed (accepts signum) then (accepts signum, s) else (
        ok,
        record s {
          disposition = registered;
          started = tree.insert (key_of keyed) h s.started;
          handles = update s.handles h (record w { signal_cb = cb; is_active = true });
        },
      )

  -- Between the end of `uv__signal_stop` and the lock that `uv__signal_start` takes itself, signals
  -- arrive and other loops start and stop handles; `between` is what all that does. A handle that is
  -- not started needs no stop, and `signal_stop` leaves it then.
  unfoldable pub signal_start :
      (ℕ → Status)
      → (Signals tree → Signals tree)
      → Signals tree
      → ℕ
      → ℕ
      → ℕ
      → Bool
      → Status × Signals tree
  signal_start accepts between s h cb signum oneshot =
      if signum == 0
      then (failed uv_einval, s)
      else if signum == (s.handles h).signum
      then (ok, record s { handles = update s.handles h (record (s.handles h) { signal_cb = cb }) })
      else start_stopped accepts (between (signal_stop s h)) h cb signum oneshot

  -- `none` is the failed assertion that the handle is not closing.
  unfoldable pub uv_signal_start :
      (ℕ → Status)
      → (Signals tree → Signals tree)
      → Signals tree
      → ℕ
      → ℕ
      → ℕ
      → Option (Status × Signals tree)
  uv_signal_start accepts between s h cb signum =
      if (s.handles h).is_closing
      then none
      else some (signal_start accepts between s h cb signum false)

  unfoldable pub uv_signal_start_oneshot :
      (ℕ → Status)
      → (Signals tree → Signals tree)
      → Signals tree
      → ℕ
      → ℕ
      → ℕ
      → Option (Status × Signals tree)
  uv_signal_start_oneshot accepts between s h cb signum =
      if (s.handles h).is_closing
      then none
      else some (signal_start accepts between s h cb signum true)

  unfoldable pub uv_signal_stop : Signals tree → ℕ → Option (Signals tree)
  uv_signal_stop s h = if (s.handles h).is_closing then none else some (signal_stop s h)

  -- One message of `uv__signal_handler`.
  abbrev pub send : (ℕ → Bool) → ℕ → ℕ → Signals tree → Signals tree
  send room signum h s =
      let w = s.handles h in
      if room h
      then record s {
        pipe = update s.pipe w.loop (s.pipe w.loop ++ (h, signum) ∷ []);
        handles = update s.handles h (record w { caught_signals = w.caught_signals + 1 });
      }
      else s

  unfoldable pub notify : (ℕ → Bool) → ℕ → List ℕ → Signals tree → Signals tree
  notify room signum [] s = s
  notify room signum (h ∷ l) s =
      let more = notify room signum l (send room signum h s) in
      if (s.handles h).signum == signum then more else s

  unfoldable pub signal_handler : (ℕ → Bool) → ℕ → Signals tree → Signals tree
  signal_handler room signum s =
      notify room signum (nfind (key_of s.handles) (lookup_key signum) (tree.entries s.started)) s

  -- What the system does with a signal that has a disposition; `none` is the default action.
  abbrev pub catch_with : (ℕ → Bool) → ℕ → Disposition → Signals tree → Option (Signals tree)
  catch_with room signum default_action s = none
  catch_with room signum caught_once s = some (
      signal_handler room signum
        (record s { disposition = update s.disposition signum default_action }))
  catch_with room signum caught s = some (signal_handler room signum s)

  unfoldable pub catch_signal : (ℕ → Bool) → ℕ → Signals tree → Option (Signals tree)
  catch_signal room signum s = catch_with room signum (s.disposition signum) s
