-- ===== src/Closing/Valid.antt =====
-- src/unix/core.c: `uv_close` and the list of closing handles.
use libuv.Prelude.{
  ℕ, ◌+◌, ◌≤◌, ◌≡◌, refl, ap, ◌∙◌, inl, inr, true, false, not, ◌&&◌, Option, none, some, List, [],
  ◌∷◌, ◌==◌, if◌then◌else◌, one_if, Bool-cases, arith,
}
use libuv.Queue.{occurs}
use libuv.Handle.{is_closing}
use libuv.Closing.{
  Kind, uv_signal, uv_stream, uv_udp, uv_other, Handles, Types, make_close_pending, mark_closing,
  close_kind, uv_close, close_all,
}

-- The handles of the list, and those that are still to finish, are closing, not closed, and stand in
-- one place only.
pub record IsPending (s : Handles) (pending : List ℕ) : Type 0 where
  pub listed :
      (k : ℕ)
      → occurs k pending + occurs k s.closing_handles
        ≤ one_if ((s.flags k).closing && not (s.flags k).closed)

-- Closed handles stay closed, and listed ones stay in the list.
pub record Progress (s s' : Handles) : Type 0 where
  pub closed : (k : ℕ) → one_if (s.flags k).closed ≤ one_if (s'.flags k).closed
  pub list : (k : ℕ) → occurs k s.closing_handles ≤ occurs k s'.closing_handles

pub Progress-refl : (s : Handles) → Progress s s
Progress-refl s = record { closed = λ k. omega arith; list = λ k. omega arith }

pub Progress-trans : (s t u : Handles) → Progress s t → Progress t u → Progress s u
Progress-trans s t u p q = record {
  closed = λ k. omega (arith, p.closed k, q.closed k);
  list = λ k. omega (arith, p.list k, q.list k);
}

abbrev pub Keeps : Option Handles → Handles → List ℕ → Type 0
Keeps out s pending = (s' : Handles) × (out ≡ some s') × IsPending s' pending × Progress s s'

-- A handle that was not closing is put into the list.
listed-Keeps :
    (s t : Handles) (h : ℕ) (pending : List ℕ)
    → is_closing (s.flags h) ≡ false
    → t.closing_handles ≡ s.closing_handles
    → ((k : ℕ) → (t.flags k).closing ≡ (if k == h then true else (s.flags k).closing))
    → ((k : ℕ) → (t.flags k).closed ≡ (s.flags k).closed)
    → IsPending s pending
    → Keeps (make_close_pending t h) s pending
unfolding make_close_pending is_closing
listed-Keeps s t h pending fresh list closing closed v =
    let now : ((t.flags h).closing && not (t.flags h).closed) ≡ true =
      ground (arith, fresh, closing h, closed h) in
    (
      record t { closing_handles = h ∷ t.closing_handles },
      rw now refl,
      record {
        listed = λ k. ground (arith, fresh, v.listed k, closing k, closed k, ap (occurs k) list);
      },
      record {
        closed = λ k. omega (arith, ap one_if (closed k));
        list = λ k. omega (arith, ap (occurs k) list);
      },
    )

module _ (types : Types) where
  close_kind-Keeps :
      (kind : Kind) (s t : Handles) (h : ℕ) (pending : List ℕ)
      → is_closing (s.flags h) ≡ false
      → t.closing_handles ≡ s.closing_handles
      → ((k : ℕ) → (t.flags k).closing ≡ (if k == h then true else (s.flags k).closing))
      → ((k : ℕ) → (t.flags k).closed ≡ (s.flags k).closed)
      → IsPending s pending
      → Keeps (close_kind types kind t h) s pending
  unfolding close_kind
  close_kind-Keeps uv_signal s t h pending fresh list closing closed v =
      listed-Keeps s t h pending fresh list closing closed v
  close_kind-Keeps uv_stream s t h pending fresh list closing closed v =
      listed-Keeps s t h pending fresh list closing closed v
  close_kind-Keeps uv_udp s t h pending fresh list closing closed v =
      listed-Keeps s t h pending fresh list closing closed v
  close_kind-Keeps uv_other s t h pending fresh list closing closed v =
      listed-Keeps s t h pending fresh list closing closed v

  -- `uv_close`, on a handle that is not closing yet.
  uv_close-Keeps :
      (s : Handles) (h : ℕ) (cb : Option ℕ) (pending : List ℕ)
      → is_closing (s.flags h) ≡ false
      → IsPending s pending
      → Keeps (uv_close types s h cb) s pending
  unfolding uv_close
  uv_close-Keeps s h cb pending fresh v =
      let marked = mark_closing s h cb in
      let t = types.stop h marked in
      let closing = λ (k : ℕ). types.stop-closing h k marked ∙ mark k in
      let closed = λ (k : ℕ). types.stop-closed h k marked ∙ unmarked k in
      let (s', e, v', p) =
        close_kind-Keeps (s.kind h) s t h pending fresh (types.stop-list h marked) closing closed
          v in
      (s', ap (λ b. if b then none else close_kind types (s.kind h) t h) fresh ∙ e, v', p)
    where
      mark :
          (k : ℕ)
          → ((mark_closing s h cb).flags k).closing ≡ (if k == h then true else (s.flags k).closing)
      mark k = ground arith

      unmarked : (k : ℕ) → ((mark_closing s h cb).flags k).closed ≡ (s.flags k).closed
      unmarked k = ground arith

  pub close_all-Keeps :
      (hs : List (ℕ × Option ℕ)) (s : Handles) (pending : List ℕ)
      → IsPending s pending
      → Keeps (close_all types hs s) s pending
  unfolding close_all
  close_all-Keeps [] s pending v = (s, refl, v, Progress-refl s)
  close_all-Keeps ((h, cb) ∷ hs) s pending v = elim (Bool-cases (is_closing (s.flags h))) [
    | inl closing ↦ rw closing (close_all-Keeps hs s pending v)
    | inr fresh ↦
        let (t, e, vt, p) = uv_close-Keeps s h cb pending fresh v in
        let (u, e', vu, p') = close_all-Keeps hs t pending vt in
        (u, rw (fresh, e) e', vu, Progress-trans s t u p p')
  ]
