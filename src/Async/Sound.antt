-- ===== src/Async/Sound.antt =====
-- src/unix/async.c: what holds of an async handle, and that a sender keeps it.
use libuv.Prelude.{
  ℕ, ◌+◌, ◌/◌, ◌%◌, ◌<◌, ◌≤◌, ◌≡◌, inl, inr, Bool, not, ◌&&◌, List, [], ◌∷◌, ◌++◌, All, All-append,
  ◌==◌, if◌then◌else◌, one_if, Bool-cases, arith,
}
use mathlib.Core.Path.{subst}
use libuv.Async.{
  Async, Place, elsewhere, visiting, spinning, closed, uv_async_init, is_pending, send_load,
  send_exchange, send_wake,
}

-- The loop will come to the handle: it is about to, or it will be woken.
abbrev pub Coming : Async → Place → Type 0
Coming a elsewhere = a.pending % 2 ≤ a.marked + one_if a.readable
Coming a visiting = Unit
Coming a spinning = a.pending % 2 ≡ 1
Coming a closed = a.pending ≡ 1

-- While the handle is open, each exchange is followed by one visit, but for one that is to come.
abbrev pub Balanced : Async → Place → Type 0
Balanced a elsewhere = a.marks ≡ a.visits + a.pending % 2
Balanced a visiting = a.marks ≡ a.visits + a.pending % 2
Balanced a spinning = a.visits ≤ a.marks
Balanced a closed = a.visits ≤ a.marks

abbrev pub IsEven : ℕ → Type 0
IsEven c = c % 2 ≡ 0

-- The busy counter is the number of the senders between the exchange and the decrement.
pub record IsSound (a : Async) : Type 0 where
  pub busy : a.pending / 2 ≡ a.marked + a.written
  pub loaded : All IsEven a.loaded
  pub coming : Coming a a.place
  pub balanced : Balanced a a.place
  pub called : a.calls ≡ (if a.has_cb then a.visits else 0)

pub uv_async_init-IsSound : (has_cb : Bool) → IsSound (uv_async_init has_cb)
uv_async_init-IsSound has_cb = record {
  busy = omega arith;
  loaded = tt;
  coming = omega arith;
  balanced = omega arith;
  called = ground arith;
}

pub send_load-IsSound : (a : Async) → IsSound a → IsSound (send_load a)
unfolding send_load
send_load-IsSound a sound = elim (Bool-cases (is_pending a.pending)) [
  | inl set ↦ rw set sound
  | inr clear ↦ rw clear (record {
    busy = sound.busy;
    loaded = (ground (arith, clear), sound.loaded);
    coming = sound.coming;
    balanced = sound.balanced;
    called = sound.called;
  })
]

-- Only the numbers of `pending`, of the senders and of the exchanges count.
Coming-marked :
    (a : Async) (loaded : List ℕ) (current : ℕ) (p : Place)
    → a.pending ≡ current
    → a.pending % 2 ≡ 0
    → Coming a p
    → Coming
        (record a {
          pending = current + 3;
          loaded = loaded;
          marked = a.marked + 1;
          marks = a.marks + 1;
        })
        p
Coming-marked a loaded current elsewhere same even coming = omega (arith, same, even)
Coming-marked a loaded current visiting same even coming = tt
Coming-marked a loaded current spinning same even coming = absurd (omega (arith, even, coming))
Coming-marked a loaded current closed same even coming = absurd (omega (arith, even, coming))

Balanced-marked :
    (a : Async) (loaded : List ℕ) (current : ℕ) (p : Place)
    → a.pending ≡ current
    → a.pending % 2 ≡ 0
    → Balanced a p
    → Balanced
        (record a {
          pending = current + 3;
          loaded = loaded;
          marked = a.marked + 1;
          marks = a.marks + 1;
        })
        p
Balanced-marked a loaded current elsewhere same even balanced = omega (arith, same, even, balanced)
Balanced-marked a loaded current visiting same even balanced = omega (arith, same, even, balanced)
Balanced-marked a loaded current spinning same even balanced = omega (arith, balanced)
Balanced-marked a loaded current closed same even balanced = omega (arith, balanced)

pub All-split :
    (before after : List ℕ) (c : ℕ)
    → All IsEven (before ++ c ∷ after)
    → All IsEven (before ++ after) × (All IsEven before × (All IsEven after × IsEven c))
All-split [] after c all = (all.1, (tt, (all.1, all.0)))
All-split (b ∷ before) after c all =
    let (both, (first, (rest, one))) = All-split before after c all.1 in
    ((all.0, both), ((all.0, first), (rest, one)))

pub send_exchange-IsSound :
    (a : Async) (before : List ℕ) (current : ℕ) (after : List ℕ) (fails : Bool)
    → a.loaded ≡ before ++ current ∷ after
    → IsSound a
    → IsSound (send_exchange a before current after fails)
unfolding send_exchange
send_exchange-IsSound a before current after fails there sound =
    let (both, (first, (rest, one))) =
      All-split before after current (subst (All IsEven) there sound.loaded) in
    elim (Bool-cases (not fails && a.pending == current)) [
      | inl done ↦
          let same : a.pending ≡ current = ground (arith, done) in
          let even : a.pending % 2 ≡ 0 = ground (arith, same, one) in
          rw done (record {
            busy = omega (arith, same, even, sound.busy);
            loaded = both;
            coming = Coming-marked a (before ++ after) current a.place same even sound.coming;
            balanced = Balanced-marked a (before ++ after) current a.place same even sound.balanced;
            called = sound.called;
          })
      | inr not_yet ↦ elim (Bool-cases (is_pending a.pending)) [
        | inl set ↦
            rw (not_yet, set)
              (record {
                busy = sound.busy;
                loaded = both;
                coming = sound.coming;
                balanced = sound.balanced;
                called = sound.called;
              })
        | inr clear ↦
            rw (not_yet, clear)
              (record {
                busy = sound.busy;
                loaded =
                    All-append IsEven before (a.pending ∷ after) first
                      (ground (arith, clear), rest);
                coming = sound.coming;
                balanced = sound.balanced;
                called = sound.called;
              })
      ]
    ]

Coming-wake : (a : Async) (p : Place) → 0 < a.marked → Coming a p → Coming (send_wake a) p
unfolding send_wake
Coming-wake a elsewhere marked coming = ground (arith, coming)
Coming-wake a visiting marked coming = tt
Coming-wake a spinning marked coming = coming
Coming-wake a closed marked coming = coming

pub send_wake-IsSound : (a : Async) → 0 < a.marked → IsSound a → IsSound (send_wake a)
unfolding send_wake
send_wake-IsSound a marked sound = record {
  busy = omega (arith, sound.busy, marked);
  loaded = sound.loaded;
  coming = Coming-wake a a.place marked sound.coming;
  balanced = sound.balanced;
  called = sound.called;
}
