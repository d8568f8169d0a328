-- ===== src/Closing.antt =====
-- src/unix/core.c: the closing of handles.
-- A handle is known by its address, a number. `closing_handles` is the list that `next_closing`
-- links. The result `none` is an assertion that fails. The handles are those that `uv_close` always
-- puts into the list once they are stopped: fs-poll handles, whose closing waits for a timer of their
-- own that it closes too, are left out.
pub mod Valid
pub mod Running
mod Examples
use libuv.Prelude.{
  ℕ, suc, ◌+◌, ◌≡◌, Bool, true, false, not, ◌&&◌, ◌||◌, Option, none, some, List, [], ◌∷◌, ◌==◌,
  ltb, if◌then◌else◌, ◌>>=◌,
}
use libuv.Queue.{erase, occurs}
use libuv.Handle.{Flags, is_closing, handle_unref}

-- The types of handles, as far as the code here tells them apart.
pub data Kind : Type 0 where
  uv_signal uv_stream uv_udp uv_other : Kind

pub record Handles : Type 0 where
  pub handle_queue : List ℕ
  pub closing_handles : List ℕ
  pub flags : ℕ → Flags
  pub kind : ℕ → Kind
  pub close_cb : ℕ → Option ℕ
  pub caught_signals : ℕ → ℕ
  pub dispatched_signals : ℕ → ℕ
  pub active_handles : ℕ

abbrev pub update {ℓ} : {A : Type ℓ} → (ℕ → A) → ℕ → A → ℕ → A
update f h v k = if k == h then v else f k

-- What closing does to a handle of some type: `stop` is `uv__..._close`, and `destroy` what
-- `uv__stream_destroy` or `uv__udp_finish_close` itself does. They leave the list and the flags of
-- closing alone. `destroy_closes` lists the handles that the callbacks of the requests that end there
-- close, with their callbacks; the state is the one behind `destroy`.
pub record Types : Type 0 where
  pub stop : ℕ → Handles → Handles
  pub destroy : ℕ → Handles → Handles
  pub destroy_closes : ℕ → Handles → List (ℕ × Option ℕ)
  pub stop-list : (h : ℕ) (s : Handles) → (stop h s).closing_handles ≡ s.closing_handles
  pub stop-closing : (h k : ℕ) (s : Handles) → ((stop h s).flags k).closing ≡ (s.flags k).closing
  pub stop-closed : (h k : ℕ) (s : Handles) → ((stop h s).flags k).closed ≡ (s.flags k).closed
  pub destroy-list : (h : ℕ) (s : Handles) → (destroy h s).closing_handles ≡ s.closing_handles
  pub destroy-closing :
      (h k : ℕ) (s : Handles) → ((destroy h s).flags k).closing ≡ (s.flags k).closing
  pub destroy-closed : (h k : ℕ) (s : Handles) → ((destroy h s).flags k).closed ≡ (s.flags k).closed

pub make_close_pending : Handles → ℕ → Option Handles
make_close_pending s h =
    if (s.flags h).closing && not (s.flags h).closed
    then some (record s { closing_handles = h ∷ s.closing_handles })
    else none

-- `handle->flags |= UV_HANDLE_CLOSING; handle->close_cb = close_cb;`
abbrev pub mark_closing : Handles → ℕ → Option ℕ → Handles
mark_closing s h cb = record s {
  flags = update s.flags h (record (s.flags h) { closing = true });
  close_cb = update s.close_cb h cb;
}

-- `UV_HANDLE_CLOSED`, set or taken back.
abbrev pub mark_closed : Handles → ℕ → Bool → Handles
mark_closed s h closed = record s {
  flags = update s.flags h (record (s.flags h) { closed = closed });
}

abbrev pub unref : Handles → ℕ → Handles
unref s h =
    let (f, n) = handle_unref (s.flags h) s.active_handles in
    record s { flags = update s.flags h f; active_handles = n }

module _ (types : Types) where
  -- Of a handle of some kind, once it is stopped.
  pub close_kind : Kind → Handles → ℕ → Option Handles
  unfolding make_close_pending
  close_kind uv_signal s h = make_close_pending s h
  close_kind uv_stream s h = make_close_pending s h
  close_kind uv_udp s h = make_close_pending s h
  close_kind uv_other s h = make_close_pending s h

  pub uv_close : Handles → ℕ → Option ℕ → Option Handles
  unfolding close_kind
  uv_close s h cb =
      if is_closing (s.flags h)
      then none
      else close_kind (s.kind h) (types.stop h (mark_closing s h cb)) h

  -- A callback closes the handles that it lists, with their callbacks. It asks `uv_is_closing` first, since `uv_close`
  -- asserts that.
  pub close_all : List (ℕ × Option ℕ) → Handles → Option Handles
  close_all [] s = some s
  close_all ((h, cb) ∷ hs) s =
      if is_closing (s.flags h) then close_all hs s else uv_close s h cb >>= close_all hs

  module _ (callback : ℕ → ℕ → Handles → List (ℕ × Option ℕ)) where
    -- `if (handle->close_cb) handle->close_cb(handle);`
    pub call_close_cb : Option ℕ → Handles → ℕ → Option Handles
    unfolding close_all
    call_close_cb none s h = some s
    call_close_cb (some cb) s h = close_all (callback cb h s) s

    -- Behind the `switch`.
    pub finish : Handles → ℕ → Option Handles
    unfolding call_close_cb
    finish s h =
        let gone = record (unref s h) { handle_queue = erase h s.handle_queue } in
        call_close_cb (gone.close_cb h) gone h

    -- The end of a stream or a UDP handle, with the callbacks that it calls.
    pub finish_destroy : Handles → ℕ → Option Handles
    unfolding close_all
    finish_destroy s h =
        let gone = types.destroy h s in close_all (types.destroy_closes h gone) gone

    -- The `switch`. A signal handle with caught signals that were not dispatched goes back.
    pub finish_kind : Kind → Handles → ℕ → Option Handles
    unfolding finish_destroy finish make_close_pending
    finish_kind uv_signal s h =
        if ltb (s.dispatched_signals h) (s.caught_signals h)
        then make_close_pending (mark_closed s h false) h
        else finish s h
    finish_kind uv_stream s h = finish_destroy s h >>= λ t. finish t h
    finish_kind uv_udp s h = finish_destroy s h >>= λ t. finish t h
    finish_kind uv_other s h = finish s h

    pub finish_close : Handles → ℕ → Option Handles
    unfolding finish_kind
    finish_close s h =
        if (s.flags h).closing && not (s.flags h).closed
        then finish_kind (s.kind h) (mark_closed s h true) h
        else none

    -- The `while`, over the handles that were in the list.
    pub finish_all : List ℕ → Handles → Option Handles
    unfolding finish_close
    finish_all [] s = some s
    finish_all (h ∷ hs) s = finish_close s h >>= finish_all hs

    pub run_closing_handles : Handles → Option Handles
    unfolding finish_all
    run_closing_handles s = finish_all s.closing_handles (record s { closing_handles = [] })
