-- ===== src/Async/Promises.antt =====
-- src/unix/async.c: no wakeup is lost, and nobody is inside a handle that is closed.
use libuv.Prelude.{
  ℕ, ◌+◌, ◌-◌, ◌%◌, ◌≡◌, refl, ap, ◌∙◌, inl, inr, Bool, true, false, not, ◌&&◌, List, ◌∷◌, ◌++◌,
  All, ◌==◌, if◌then◌else◌, Bool-cases, arith,
}
use mathlib.Core.Path.{subst}
use libuv.Async.{Async, elsewhere, closed, is_pending, send_exchange, io_begin, io_visit}
use libuv.Async.Steps.{Reachable}
use libuv.Async.Sound.{Coming, Balanced, IsEven, All-split}
use libuv.Async.Handling.{handle-IsSound}

-- While the handle is open, whatever the order of the senders and the loop, there have been as many
-- visits that found the flag as exchanges, but for one less while the flag is set. Then, once no
-- sender is before its write, the loop is woken, and the next turn of `uv__async_io` clears the flag
-- and calls the callback, if there is one, once.
pub Reachable-served :
    (a : Async)
    → Reachable a
    → a.place ≡ elsewhere
    → a.marked ≡ 0
    → is_pending a.pending ≡ true
    → (a.marks ≡ a.visits + 1)
      × (a.readable ≡ true)
      × ((io_visit (io_begin a)).pending % 2 ≡ 0)
      × ((io_visit (io_begin a)).visits ≡ a.marks)
      × ((io_visit (io_begin a)).calls ≡ (if a.has_cb then a.marks else 0))
unfolding io_visit io_begin
Reachable-served a reached at none_marked set =
    let sound = handle-IsSound a reached in
    let coming : Coming a elsewhere = subst (Coming a) at sound.coming in
    let balanced : Balanced a elsewhere = subst (Balanced a) at sound.balanced in
    let one_due : a.marks ≡ a.visits + 1 = ground (arith, balanced, set) in
    let woken : a.readable ≡ true = ground (arith, coming, none_marked, set) in
    let cleared : (a.pending - a.pending % 2) % 2 ≡ 0 = omega arith in
    elim (Bool-cases a.has_cb) [
      | inl called ↦
          let calls : a.calls ≡ a.visits =
            sound.called ∙ ap (λ b. if b then a.visits else 0) called in
          rw (set, called)
            (one_due, woken, cleared, omega (arith, one_due), omega (arith, one_due, calls))
      | inr silent ↦
          let calls : a.calls ≡ 0 = sound.called ∙ ap (λ b. if b then a.visits else 0) silent in
          rw (set, silent) (one_due, woken, cleared, omega (arith, one_due), calls)
    ]

-- Nobody is inside of a handle, and nobody gets there.
pub record Quiet (a : Async) : Type 0 where
  pub nobody : a.marked + a.written ≡ 0
  pub refused :
      (before : List ℕ) (current : ℕ) (after : List ℕ) (fails : Bool)
      → a.loaded ≡ before ++ current ∷ after
      → ((send_exchange a before current after fails).marked ≡ 0)
        × ((send_exchange a before current after fails).pending ≡ a.pending)

-- Once `uv__async_spin` has returned, no sender is between its exchange and its decrement, and none
-- can get there: the exchange of any sender that has read `pending` fails and changes nothing.
pub Reachable-Quiet : (a : Async) → Reachable a → a.place ≡ closed → Quiet a
unfolding send_exchange
Reachable-Quiet a reached at =
    let sound = handle-IsSound a reached in
    let coming : Coming a closed = subst (Coming a) at sound.coming in
    let none_inside : a.marked + a.written ≡ 0 = omega (arith, sound.busy, coming) in
    let set : is_pending a.pending ≡ true = ground (arith, coming) in
    record {
      nobody = none_inside;
      refused = λ before current after fails there.
          let even : current % 2 ≡ 0 =
            (All-split before after current (subst (All IsEven) there sound.loaded)).1.1.1 in
          let no_match : (not fails && a.pending == current) ≡ false =
            ground (arith, coming, even) in
          rw (no_match, set) (omega (arith, none_inside), refl);
    }
