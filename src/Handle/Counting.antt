-- ===== src/Handle/Counting.antt =====
-- src/uv-common.h: `active_handles` counts the handles that keep the loop alive.
use libuv.Prelude.{
  ℕ, ◌+◌, ◌^◌, ◌<◌, ◌≤◌, ◌≡◌, true, false, ◌&&◌, List, [], ◌∷◌, ◌++◌, arith, one_if,
}
use libuv.Handle.{Flags, handle_start, handle_stop, handle_ref, handle_unref}

-- Whether a handle counts: it is active and referenced.
abbrev pub counts : Flags → ℕ
counts f = one_if (f.active && f.ref)

-- The loop's count, over the flags of the handles of its `handle_queue`.
abbrev pub total : List Flags → ℕ
total [] = 0
total (f ∷ fs) = counts f + total fs

-- A macro that is run on one handle of a loop whose `active_handles` is right leaves it right.
abbrev KeepsTotal : (Flags → ℕ → Flags × ℕ) → Flags → Type 0
KeepsTotal macro f =
    (before after : List Flags)
    → total (before ++ f ∷ after) + 1 < 2 ^ 32
    → (macro f (total (before ++ f ∷ after))).1
      ≡ total (before ++ (macro f (total (before ++ f ∷ after))).0 ∷ after)

total-append : (before after : List Flags) → total (before ++ after) ≡ total before + total after
total-append [] after = omega arith
total-append (f ∷ before) after = omega (arith, total-append before after)

-- A macro's result, from the count that it is given: it changes with the handle's own part.
abbrev Steps : (Flags → ℕ → Flags × ℕ) → Flags → Type 0
Steps macro f =
    (n : ℕ) → counts f ≤ n → n + 1 < 2 ^ 32 → (macro f n).1 + counts f ≡ n + counts (macro f n).0

keeps : (macro : Flags → ℕ → Flags × ℕ) (f : Flags) → Steps macro f → KeepsTotal macro f
keeps macro f step before after small =
    let n = total (before ++ f ∷ after) in
    let here = total-append before (f ∷ after) in
    let there = total-append before ((macro f n).0 ∷ after) in
    omega (arith, here, there, step n (omega (arith, here)) small)

handle_start-Steps : (f : Flags) → Steps handle_start f
unfolding handle_start
handle_start-Steps f n le small = ground arith

handle_stop-Steps : (f : Flags) → Steps handle_stop f
unfolding handle_stop
handle_stop-Steps f n le small = ground arith

handle_ref-Steps : (f : Flags) → (f.closing ≡ true → f.active ≡ false) → Steps handle_ref f
unfolding handle_ref
handle_ref-Steps f stopped n le small = ground arith

handle_unref-Steps : (f : Flags) → (f.closing ≡ true → f.active ≡ false) → Steps handle_unref f
unfolding handle_unref
handle_unref-Steps f stopped n le small = ground arith

-- Run on any handle of a loop whose `active_handles` is the number of its handles that are active
-- and referenced, fewer than 2 ^ 32 - 1, `uv__handle_start` and `uv__handle_stop` leave it so. So do
-- `uv__handle_ref` and `uv__handle_unref`, if the handle is inactive once it is closing.
pub macros-total :
    (f : Flags) (before after : List Flags)
    → (f.closing ≡ true → f.active ≡ false)
    → total (before ++ f ∷ after) + 1 < 2 ^ 32
    → let n = total (before ++ f ∷ after) in
      ((handle_start f n).1 ≡ total (before ++ (handle_start f n).0 ∷ after))
      × ((handle_stop f n).1 ≡ total (before ++ (handle_stop f n).0 ∷ after))
      × ((handle_ref f n).1 ≡ total (before ++ (handle_ref f n).0 ∷ after))
      × ((handle_unref f n).1 ≡ total (before ++ (handle_unref f n).0 ∷ after))
macros-total f before after stopped small = (
  keeps handle_start f (handle_start-Steps f) before after small,
  keeps handle_stop f (handle_stop-Steps f) before after small,
  keeps handle_ref f (handle_ref-Steps f stopped) before after small,
  keeps handle_unref f (handle_unref-Steps f stopped) before after small,
)
