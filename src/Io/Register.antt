-- ===== src/Io/Register.antt =====
-- src/unix/core.c: a watcher in `watcher_queue` and in `watchers`.
use libuv.Prelude.{
  ℕ, ◌+◌, ◌-◌, ◌≤◌, ◌<◌, ◌%◌, ◌^◌, ◌≡◌, ◌⊎◌, refl, sym, ap, ◌∙◌, inl, inr, Bool, true, false, ◌&&◌,
  Option, none, some, ltb, ◌==◌, if◌then◌else◌, List, Bool-cases, Option-cases, arith,
}
use libuv.Errno.{ok}
use libuv.Queue.{occurs, occurs-append}
use libuv.Io.Bits.{is_zero}
use libuv.Io.Valid.{IsValid, IsSized, entry, holds, used, used-le, used-update}
use libuv.Io.{
  Watchers, unallocated, freed, slots, Loop, update, read, write, enqueue, register, unregister,
}

pub read-entry : (w : Watchers) (n i : ℕ) → IsSized w n → i < n → read w i ≡ some (entry w i)
unfolding read
read-entry unallocated n i sized lt = absurd (omega (arith, sized))
read-entry freed n i sized lt = absurd sized
read-entry (slots m f) n i sized lt = ground (arith, sized)

-- A write to an entry of the array.
pub write-entry :
    (w : Watchers) (n i : ℕ) (x : Option ℕ)
    → IsSized w n
    → i < n
    → (w' : Watchers) × (write w i x ≡ some w') × IsSized w' n × (entry w' ≡ update (entry w) i x)
unfolding write
write-entry unallocated n i x sized lt = absurd (omega (arith, sized))
write-entry freed n i x sized lt = absurd sized
write-entry (slots m f) n i x sized lt =
    let inside : ltb i m ≡ true = ground (arith, sized) in
    (slots m (update f i x), rw inside refl, sized, refl)

pub occurs-enqueue :
    (w k : ℕ) (q : List ℕ)
    → occurs w q ≤ 1
    → occurs k (enqueue w q) ≡ (if w == k then 1 else occurs k q)
occurs-enqueue w k q le = ground (arith, occurs-append k q w)

-- The watcher in the queue of those that the poller has not seen.
pub enqueue-IsValid :
    (l : Loop) (w : ℕ)
    → IsValid l
    → is_zero (l.ios w).pevents ≡ false
    → IsValid (record l { watcher_queue = enqueue w l.watcher_queue })
enqueue-IsValid l w v wants = record {
  sized = v.sized;
  bounded = v.bounded;
  counted = v.counted;
  placed = v.placed;
  awaited = v.awaited;
  queued = λ k. ground (arith, occurs-enqueue w k l.watcher_queue (v.queued w), v.queued k);
  wanted = λ k lt. ground (arith, occurs-enqueue w k l.watcher_queue (v.queued w), v.wanted k);
  pending = v.pending;
}

-- The watcher in the entry of its descriptor, if that is free.
placed-IsValid :
    (l : Loop) (w fd : ℕ) (w' : Watchers)
    → IsValid l
    → (l.ios w).fd ≡ some fd
    → fd < l.nwatchers
    → is_zero (l.ios w).pevents ≡ false
    → entry l.watchers fd ≡ none
    → IsSized w' l.nwatchers
    → entry w' ≡ update (entry l.watchers) fd (some w)
    → IsValid (record l { watchers = w'; nfds = (l.nfds + 1) % 2 ^ 32 })
placed-IsValid l w fd w' v at inside wants free sized e =
    let count = used-update l.nwatchers fd (entry l.watchers) (some w) inside in
    record {
      sized = sized;
      bounded = v.bounded;
      counted = omega (
        arith,
        count,
        ap holds free,
        ap (used l.nwatchers) e,
        v.counted,
        v.bounded,
        used-le l.nwatchers (entry l.watchers),
      );
      placed = λ i k lt held. elim (cases i k held) [
        | inl (same, who) ↦ ap (λ j. (l.ios j).fd) (sym who) ∙ at ∙ ap some (sym same)
        | inr old ↦ v.placed i k lt old
      ];
      awaited = λ i k lt held. elim (cases i k held) [
        | inl (same, who) ↦ ap (λ j. is_zero (l.ios j).pevents) (sym who) ∙ wants
        | inr old ↦ v.awaited i k lt old
      ];
      queued = v.queued;
      wanted = v.wanted;
      pending = v.pending;
    }
  where
    cases : (i k : ℕ) → entry w' i ≡ some k → ((i ≡ fd) × (w ≡ k)) ⊎ (entry l.watchers i ≡ some k)
    cases i k held = elim (Bool-cases (i == fd)) [
      | inl same ↦
          let here : some w ≡ some k = rw same at (sym (ap (λ f. f i) e) ∙ held) in
          inl (ground arith, cc)
      | inr other ↦ inr (rw other at (sym (ap (λ f. f i) e) ∙ held))
    ]

-- The state after `uv__io_start` has gone on to the lists.
pub record Registered (l : Loop) (w fd : ℕ) (l' : Loop) : Type 0 where
  pub valid : IsValid l'
  pub waits : occurs w l'.watcher_queue ≡ 1
  pub holder : holds (entry l'.watchers fd) ≡ 1
  pub same_ios : l'.ios ≡ l.ios
  pub same_size : l'.nwatchers ≡ l.nwatchers

pub register-Registered :
    (l : Loop) (w fd : ℕ)
    → IsValid l
    → (l.ios w).fd ≡ some fd
    → fd < l.nwatchers
    → is_zero (l.ios w).pevents ≡ false
    → (l' : Loop) × (register l w fd ≡ some (ok, l')) × Registered l w fd l'
unfolding register
register-Registered l w fd v at inside wants =
    let r = read-entry l.watchers l.nwatchers fd v.sized inside in
    let queued = record l { watcher_queue = enqueue w l.watcher_queue } in
    let vq = enqueue-IsValid l w v wants in
    let in_queue : occurs w (enqueue w l.watcher_queue) ≡ 1 =
      ground (arith, occurs-enqueue w w l.watcher_queue (v.queued w)) in
    elim (Option-cases (entry l.watchers fd)) [
      | inr (k, taken) ↦ (
        queued,
        rw (r, taken) refl,
        record {
          valid = vq;
          waits = in_queue;
          holder = ap holds taken;
          same_ios = refl;
          same_size = refl;
        },
      )
      | inl free ↦
          let (w', e, sized, new) = write-entry l.watchers l.nwatchers fd (some w) v.sized inside in
          (
            record queued { watchers = w'; nfds = (l.nfds + 1) % 2 ^ 32 },
            rw (r, free, e) refl,
            record {
              valid = placed-IsValid queued w fd w' vq at inside wants free sized new;
              waits = in_queue;
              holder = ap (λ f. holds (f fd)) new ∙ ground arith;
              same_ios = refl;
              same_size = refl;
            },
          )
    ]

-- Whether the entry of a descriptor holds the watcher.
abbrev pub is_held : Option ℕ → ℕ → Bool
is_held none w = false
is_held (some k) w = k == w

-- What `unregister` leaves of the array.
pub record Unregistered (l : Loop) (w fd : ℕ) (w' : Watchers) (n : ℕ) : Type 0 where
  pub done : unregister l w fd ≡ some (record l { watchers = w'; nfds = n })
  pub sized : IsSized w' l.nwatchers
  pub counted : n ≡ used l.nwatchers (entry w')
  pub held :
      (i : ℕ)
      → entry w' i
        ≡ (if i == fd && is_held (entry l.watchers fd) w then none else entry l.watchers i)

pub unregister-Unregistered :
    (l : Loop) (w fd : ℕ)
    → IsSized l.watchers l.nwatchers
    → l.nfds ≡ used l.nwatchers (entry l.watchers)
    → fd < l.nwatchers
    → (w' : Watchers) × (n : ℕ) × Unregistered l w fd w' n
unfolding unregister
unregister-Unregistered l w fd sized counted inside =
    let r = read-entry l.watchers l.nwatchers fd sized inside in
    elim (Option-cases (entry l.watchers fd)) [
      | inl free ↦ (
        l.watchers,
        l.nfds,
        record {
          done = rw (r, free) refl;
          sized = sized;
          counted = counted;
          held = λ i. rw free (ground arith);
        },
      )
      | inr (k, taken) ↦ elim (Bool-cases (k == w)) [
        | inr other ↦ (
          l.watchers,
          l.nfds,
          record {
            done = rw (r, taken, other) refl;
            sized = sized;
            counted = counted;
            held = λ i. rw (taken, other) (ground arith);
          },
        )
        | inl mine ↦
            let (w', e, sized', new) = write-entry l.watchers l.nwatchers fd none sized inside in
            let count = used-update l.nwatchers fd (entry l.watchers) none inside in
            let one = ap holds taken in
            let positive : (l.nfds == 0) ≡ false = ground (arith, count, one, counted) in
            (
              w',
              l.nfds - 1,
              record {
                done = rw (r, taken, mine, positive, e) refl;
                sized = sized';
                counted = omega (arith, count, one, counted, ap (used l.nwatchers) new);
                held = λ i. rw (taken, mine) (ap (λ f. f i) new ∙ ground arith);
              },
            )
      ]
    ]
