-- ===== src/Async/Handling.antt =====
-- src/unix/async.c: the steps of the loop and the last step of a sender keep the handle sound.
use libuv.Prelude.{
  ◌+◌, ◌/◌, ◌%◌, ◌<◌, ◌≤◌, ◌≡◌, ap, ◌∙◌, inl, inr, true, ◌==◌, if◌then◌else◌, Bool-cases, arith,
}
use mathlib.Core.Path.{subst}
use libuv.Async.{
  Async, Place, elsewhere, visiting, spinning, closed, is_pending, send_finish, io_begin, io_visit,
  spin_begin, spin_round,
}
use libuv.Async.Steps.{
  Step, load, exchange, wake, finish, other_wakes, poll, visit, close, close_in_visit, spin,
  Reachable, start, next,
}
use libuv.Async.Sound.{
  Coming, Balanced, IsSound, uv_async_init-IsSound, send_load-IsSound, send_exchange-IsSound,
  send_wake-IsSound,
}

Coming-finish :
    (a : Async) (p : Place)
    → 0 < a.written
    → a.pending / 2 ≡ a.marked + a.written
    → Coming a p
    → Coming (send_finish a) p
unfolding send_finish
Coming-finish a elsewhere written busy coming = omega (arith, busy, written, coming)
Coming-finish a visiting written busy coming = tt
Coming-finish a spinning written busy coming = omega (arith, busy, written, coming)
Coming-finish a closed written busy coming = absurd (omega (arith, busy, written, coming))

Balanced-finish :
    (a : Async) (p : Place)
    → 0 < a.written
    → a.pending / 2 ≡ a.marked + a.written
    → Balanced a p
    → Balanced (send_finish a) p
unfolding send_finish
Balanced-finish a elsewhere written busy balanced = omega (arith, busy, written, balanced)
Balanced-finish a visiting written busy balanced = omega (arith, busy, written, balanced)
Balanced-finish a spinning written busy balanced = balanced
Balanced-finish a closed written busy balanced = balanced

send_finish-IsSound : (a : Async) → 0 < a.written → IsSound a → IsSound (send_finish a)
unfolding send_finish
send_finish-IsSound a written sound = record {
  busy = omega (arith, sound.busy, written);
  loaded = sound.loaded;
  coming = Coming-finish a a.place written sound.busy sound.coming;
  balanced = Balanced-finish a a.place written sound.busy sound.balanced;
  called = sound.called;
}

Coming-woken : (a : Async) (p : Place) → Coming a p → Coming (record a { readable = true }) p
Coming-woken a elsewhere coming = omega arith
Coming-woken a visiting coming = tt
Coming-woken a spinning coming = coming
Coming-woken a closed coming = coming

other_wakes-IsSound : (a : Async) → IsSound a → IsSound (record a { readable = true })
other_wakes-IsSound a sound = record {
  busy = sound.busy;
  loaded = sound.loaded;
  coming = Coming-woken a a.place sound.coming;
  balanced = sound.balanced;
  called = sound.called;
}

io_begin-IsSound : (a : Async) → a.place ≡ elsewhere → IsSound a → IsSound (io_begin a)
unfolding io_begin
io_begin-IsSound a at sound = record {
  busy = sound.busy;
  loaded = sound.loaded;
  coming = tt;
  balanced = subst (Balanced a) at sound.balanced;
  called = sound.called;
}

io_visit-IsSound : (a : Async) → a.place ≡ visiting → IsSound a → IsSound (io_visit a)
unfolding io_visit
io_visit-IsSound a at sound =
    let balanced : Balanced a visiting = subst (Balanced a) at sound.balanced in
    elim (Bool-cases (is_pending a.pending)) [
      | inr clear ↦ rw clear (record {
        busy = ground (arith, sound.busy, clear);
        loaded = sound.loaded;
        coming = ground (arith, clear);
        balanced = ground (arith, clear, balanced);
        called = sound.called;
      })
      | inl set ↦ elim (Bool-cases a.has_cb) [
        | inl called ↦
            rw (set, called)
              (record {
                busy = ground (arith, sound.busy, set);
                loaded = sound.loaded;
                coming = ground (arith, set);
                balanced = ground (arith, set, balanced);
                called =
                    ap (λ n. n + 1) (sound.called ∙ ap (λ b. if b then a.visits else 0) called);
              })
        | inr silent ↦
            rw (set, silent)
              (record {
                busy = ground (arith, sound.busy, set);
                loaded = sound.loaded;
                coming = ground (arith, set);
                balanced = ground (arith, set, balanced);
                called = sound.called ∙ ap (λ b. if b then a.visits else 0) silent;
              })
      ]
    ]

spin_begin-IsSound :
    (a : Async) → (visits_le : a.visits ≤ a.marks) → IsSound a → IsSound (spin_begin a)
unfolding spin_begin
spin_begin-IsSound a visits_le sound = record {
  busy = omega (arith, sound.busy);
  loaded = sound.loaded;
  coming = omega arith;
  balanced = visits_le;
  called = sound.called;
}

spin_round-IsSound : (a : Async) → a.place ≡ spinning → IsSound a → IsSound (spin_round a)
unfolding spin_round
spin_round-IsSound a at sound =
    let flag : a.pending % 2 ≡ 1 = subst (Coming a) at sound.coming in
    let balanced : a.visits ≤ a.marks = subst (Balanced a) at sound.balanced in
    elim (Bool-cases (a.pending / 2 == 0)) [
      | inl quiet ↦ rw quiet (record {
        busy = sound.busy;
        loaded = sound.loaded;
        coming = ground (arith, flag, quiet);
        balanced = balanced;
        called = sound.called;
      })
      | inr busy ↦ rw busy sound
    ]

step-IsSound : {a b : Async} → Step a b → IsSound a → IsSound b
step-IsSound (load a) sound = send_load-IsSound a sound
step-IsSound (exchange a before current after fails there) sound =
    send_exchange-IsSound a before current after fails there sound
step-IsSound (wake a marked) sound = send_wake-IsSound a marked sound
step-IsSound (finish a written) sound = send_finish-IsSound a written sound
step-IsSound (other_wakes a) sound = other_wakes-IsSound a sound
step-IsSound (poll a at) sound = io_begin-IsSound a at sound
step-IsSound (visit a at) sound = io_visit-IsSound a at sound
step-IsSound (close a at) sound =
    let balanced : Balanced a elsewhere = subst (Balanced a) at sound.balanced in
    spin_begin-IsSound a (omega (arith, balanced)) sound
step-IsSound (close_in_visit a at) sound =
    let balanced : Balanced a visiting = subst (Balanced a) at sound.balanced in
    spin_begin-IsSound a (omega (arith, balanced)) sound
step-IsSound (spin a at) sound = spin_round-IsSound a at sound

pub handle-IsSound : (a : Async) → Reachable a → IsSound a
handle-IsSound a (start has_cb) = uv_async_init-IsSound has_cb
handle-IsSound a (next b c reached step) = step-IsSound step (handle-IsSound b reached)
