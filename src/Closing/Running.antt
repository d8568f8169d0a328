-- ===== src/Closing/Running.antt =====
-- src/unix/core.c: `uv__run_closing_handles`.
use libuv.Prelude.{
  ℕ, ◌+◌, ◌≤◌, ◌≡◌, refl, ap, ◌∙◌, inl, inr, true, false, not, ◌&&◌, Option, none, some, List, [],
  ◌∷◌, ◌==◌, ltb, if◌then◌else◌, ◌>>=◌, one_if, Bool-cases, arith,
}
use libuv.Queue.{occurs, erase}
use libuv.Handle.{handle_unref}
use libuv.Closing.Valid.{IsPending, Progress, Keeps, Progress-refl, Progress-trans, close_all-Keeps}
use libuv.Closing.{
  Kind, uv_signal, uv_stream, uv_udp, uv_other, Handles, Types, make_close_pending, mark_closed,
  unref, call_close_cb, finish_destroy, finish, finish_kind, finish_close, finish_all,
  run_closing_handles,
}

-- The handles that were in the list are closed, or stand in the list again.
pub record Finished (s : Handles) (pending : List ℕ) (s' : Handles) : Type 0 where
  pub valid : IsPending s' []
  pub progress : Progress s s'
  pub settled :
      (k : ℕ) → occurs k pending ≤ one_if (s'.flags k).closed + occurs k s'.closing_handles

module _ (types : Types) (callback : ℕ → ℕ → Handles → List (ℕ × Option ℕ)) where
  -- The handle `h` is done with: it is closed, or stands in the list again.
  record Done (s : Handles) (h : ℕ) (pending : List ℕ) (out : Option Handles) : Type 0 where
    pub next : Handles
    pub result : out ≡ some next
    pub valid : IsPending next pending
    pub progress : Progress s next
    pub settled : 1 ≤ one_if (next.flags h).closed + occurs h next.closing_handles

  call_close_cb-Keeps :
      (cb : Option ℕ) (s : Handles) (h : ℕ) (pending : List ℕ)
      → IsPending s pending
      → Keeps (call_close_cb types callback cb s h) s pending
  unfolding call_close_cb
  call_close_cb-Keeps none s h pending v = (s, refl, v, Progress-refl s)
  call_close_cb-Keeps (some cb) s h pending v = close_all-Keeps types (callback cb h s) s pending v

  -- The handle `h` is closed, and the others of the list are as they were.
  finish-Done :
      (s t : Handles) (h : ℕ) (pending : List ℕ)
      → IsPending t pending
      → Progress s t
      → (t.flags h).closed ≡ true
      → Done s h pending (finish types callback t h)
  unfolding finish handle_unref
  finish-Done s t h pending v before now =
      let gone = record (unref t h) { handle_queue = erase h t.handle_queue } in
      let vg : IsPending gone pending = record {
        listed = λ k. ground (arith, v.listed k, unref_closing k, unref_closed k);
      } in
      let (s', e, v', p) = call_close_cb-Keeps (gone.close_cb h) gone h pending vg in
      record {
        next = s';
        result = e;
        valid = v';
        progress = record {
          closed = λ k. omega (arith, before.closed k, p.closed k, ap one_if (unref_closed k));
          list = λ k. omega (arith, before.list k, p.list k);
        };
        settled = omega (arith, p.closed h, ap one_if (unref_closed h), ap one_if now);
      }
    where
      unref_closing : (k : ℕ) → ((unref t h).flags k).closing ≡ (t.flags k).closing
      unref_closing k = ground arith

      unref_closed : (k : ℕ) → ((unref t h).flags k).closed ≡ (t.flags k).closed
      unref_closed k = ground arith

  -- `UV_HANDLE_CLOSED` is set, and the list and the flags of closing are as they were.
  closed-IsPending :
      (s t : Handles) (h : ℕ) (pending : List ℕ)
      → t.closing_handles ≡ s.closing_handles
      → ((k : ℕ) → (t.flags k).closing ≡ (s.flags k).closing)
      → ((k : ℕ) → (t.flags k).closed ≡ (if k == h then true else (s.flags k).closed))
      → IsPending s (h ∷ pending)
      → IsPending t pending × Progress s t
  closed-IsPending s t h pending list closing closed v = (
    record {
      listed = λ k. ground (arith, v.listed k, v.listed h, closing k, closed k, ap (occurs k) list);
    },
    record {
      closed = λ k. ground (arith, closed k);
      list = λ k. omega (arith, ap (occurs k) list);
    },
  )

  -- A signal handle goes back into the list.
  again-Done :
      (s : Handles) (h : ℕ) (pending : List ℕ)
      → IsPending s (h ∷ pending)
      → Done s h pending (make_close_pending (mark_closed (mark_closed s h true) h false) h)
  unfolding make_close_pending
  again-Done s h pending v =
      let t = mark_closed (mark_closed s h true) h false in
      let now : ((t.flags h).closing && not (t.flags h).closed) ≡ true =
        ground (arith, v.listed h) in
      record {
        next = record t { closing_handles = h ∷ t.closing_handles };
        result = rw now refl;
        valid = record { listed = λ k. ground (arith, v.listed k, v.listed h) };
        progress = record { closed = λ k. ground (arith, v.listed h); list = λ k. omega arith };
        settled = ground arith;
      }

  plain-Done :
      (s : Handles) (h : ℕ) (pending : List ℕ)
      → IsPending s (h ∷ pending)
      → Done s h pending (finish types callback (mark_closed s h true) h)
  plain-Done s h pending v =
      let t = mark_closed s h true in
      let (vt, p) = closed-IsPending s t h pending refl (λ k. ground arith) (λ k. ground arith) v in
      finish-Done s t h pending vt p (ground arith)

  -- The callbacks that the end of the handle calls leave it closed.
  destroyed-Done :
      (s : Handles) (h : ℕ) (pending : List ℕ)
      → IsPending s (h ∷ pending)
      → Done s h pending (
          finish_destroy types callback (mark_closed s h true) h >>= λ t. finish types callback t h)
  unfolding finish_destroy
  destroyed-Done s h pending v =
      let marked = mark_closed s h true in
      let gone = types.destroy h marked in
      let (vg, before) =
        closed-IsPending s gone h pending (types.destroy-list h marked)
          (λ k. ground (arith, types.destroy-closing h k marked))
          (λ k. ground (arith, types.destroy-closed h k marked)) v in
      let (t, e, vt, p) = close_all-Keeps types (types.destroy_closes h gone) gone pending vg in
      let closed : (gone.flags h).closed ≡ true = ground (arith, types.destroy-closed h h marked) in
      let d =
        finish-Done s t h pending vt (Progress-trans s gone t before p)
          (ground (arith, p.closed h, closed)) in
      record {
        next = d.next;
        result = ap (λ out. out >>= λ u. finish types callback u h) e ∙ d.result;
        valid = d.valid;
        progress = d.progress;
        settled = d.settled;
      }

  finish_kind-Done :
      (kind : Kind) (s : Handles) (h : ℕ) (pending : List ℕ)
      → IsPending s (h ∷ pending)
      → Done s h pending (finish_kind types callback kind (mark_closed s h true) h)
  unfolding finish_kind
  finish_kind-Done uv_signal s h pending v =
      elim (Bool-cases (ltb (s.dispatched_signals h) (s.caught_signals h))) [
        | inl trapped ↦ rw trapped (again-Done s h pending v)
        | inr free ↦ rw free (plain-Done s h pending v)
      ]
  finish_kind-Done uv_stream s h pending v = destroyed-Done s h pending v
  finish_kind-Done uv_udp s h pending v = destroyed-Done s h pending v
  finish_kind-Done uv_other s h pending v = plain-Done s h pending v

  finish_close-Done :
      (s : Handles) (h : ℕ) (pending : List ℕ)
      → IsPending s (h ∷ pending)
      → Done s h pending (finish_close types callback s h)
  unfolding finish_close
  finish_close-Done s h pending v =
      let now : ((s.flags h).closing && not (s.flags h).closed) ≡ true =
        ground (arith, v.listed h) in
      let d = finish_kind-Done (s.kind h) s h pending v in
      record {
        next = d.next;
        result =
            ap
              (λ b.
                if b then finish_kind types callback (s.kind h) (mark_closed s h true) h else none)
              now
            ∙ d.result;
        valid = d.valid;
        progress = d.progress;
        settled = d.settled;
      }

  finish_all-Finished :
      (pending : List ℕ) (s : Handles)
      → IsPending s pending
      → (s' : Handles) × (finish_all types callback pending s ≡ some s') × Finished s pending s'
  unfolding finish_all
  finish_all-Finished [] s v =
      (s, refl, record { valid = v; progress = Progress-refl s; settled = λ k. omega arith })
  finish_all-Finished (h ∷ pending) s v =
      let d = finish_close-Done s h pending v in
      let (s', e, f) = finish_all-Finished pending d.next d.valid in
      (
        s',
        rw (d.result) e,
        record {
          valid = f.valid;
          progress = Progress-trans s d.next s' d.progress f.progress;
          settled = λ k.
              ground
                (arith, f.settled k, d.settled, f.progress.closed h, f.progress.list h, v.listed k);
        },
      )

  -- `uv__run_closing_handles`, on a valid list of handles other than fs-poll ones, never fails an
  -- assertion of the closing, whatever handles the close callbacks and the callbacks of the requests
  -- that end with a stream or a UDP handle close. It leaves a valid list. Every handle that was in the list is closed, or is back
  -- in it, and handles that were closed stay closed.
  pub run_closing_handles-Finished :
      (s : Handles)
      → IsPending s []
      → (s' : Handles) × (run_closing_handles types callback s ≡ some s')
        × Finished (record s { closing_handles = [] }) s.closing_handles s'
  unfolding run_closing_handles
  run_closing_handles-Finished s v =
      finish_all-Finished s.closing_handles (record s { closing_handles = [] })
        (record { listed = λ k. omega (arith, v.listed k) })
