-- ===== src/Barrier/Sound.antt =====
-- src/thread-common.c: what holds at a barrier, whatever the order of the threads.
use libuv.Prelude.{
  ℕ, ◌+◌, ◌*◌, ◌-◌, ◌%◌, ◌^◌, ◌<◌, ◌≤◌, ◌≡◌, ◌↔◌, refl, inl, inr, ◌==◌, if◌then◌else◌, Bool-cases,
  arith,
}
use libuv.Barrier.{
  Barrier, new_barrier, broadcast, leave, arrive, assertion_failed, destroyed, uv_barrier_destroy,
  uv_barrier_wait, wake_at_gate, wake_inside,
}
use libuv.Barrier.Steps.{
  Step, call, go_on_at_gate, go_on_inside, spurious_at_gate, spurious_inside, Reachable, start,
  next,
}

-- `rounds` is how many rounds have filled up. While a round fills, `entered` threads are inside and
-- none has to leave; while it drains, `out` threads have yet to leave, all of them awake, and none
-- has entered. The threads at the gate sleep only while a round drains.
pub record KeepsRounds (count : ℕ) (b : Barrier) : Type 0 where
  pub rounds : ℕ
  pub threshold : b.threshold ≡ count
  pub room : b.entered < count
  pub inside : b.inside_asleep + b.inside_awake ≡ b.entered + b.out
  pub alone : (if b.entered == 0 then 0 else b.out) ≡ 0
  pub most : b.out ≤ count
  pub roused : (if b.entered == 0 then b.inside_asleep else 0) ≡ 0
  pub gate : (if b.out == 0 then b.gate_asleep else 0) ≡ 0
  pub arrived : b.arrivals ≡ rounds * count + b.entered
  pub departed : b.departures + b.out ≡ rounds * count
  pub serial : b.lasts + (if b.out == 0 then 0 else 1) ≡ rounds

new_barrier-KeepsRounds : (count : ℕ) → 0 < count → KeepsRounds count (new_barrier count)
new_barrier-KeepsRounds count positive = record {
  rounds = 0;
  threshold = refl;
  room = positive;
  inside = refl;
  alone = refl;
  most = omega arith;
  roused = refl;
  gate = refl;
  arrived = omega arith;
  departed = omega arith;
  serial = refl;
}

-- One of the threads that drain a round leaves.
leave-KeepsRounds :
    (count rounds : ℕ) (b : Barrier)
    → count < 2 ^ 32
    → 0 < b.out
    → b.out ≤ count
    → b.threshold ≡ count
    → b.entered ≡ 0
    → b.inside_asleep ≡ 0
    → b.inside_awake + 1 ≡ b.out
    → b.arrivals ≡ rounds * count
    → b.departures + b.out ≡ rounds * count
    → b.lasts + 1 ≡ rounds
    → KeepsRounds count (leave b).1
unfolding leave
leave-KeepsRounds count rounds b small positive most threshold entered asleep awake arrived departed
      serial =
    elim (Bool-cases ((b.out + 2 ^ 32 - 1) % 2 ^ 32 == 0)) [
      | inl last ↦ rw last (record {
        rounds = rounds;
        threshold = ground arith;
        room = ground arith;
        inside = ground arith;
        alone = ground arith;
        most = ground arith;
        roused = ground arith;
        gate = ground arith;
        arrived = ground arith;
        departed = ground arith;
        serial = ground arith;
      })
      | inr more ↦ rw more (record {
        rounds = rounds;
        threshold = ground arith;
        room = ground arith;
        inside = ground arith;
        alone = ground arith;
        most = ground arith;
        roused = ground arith;
        gate = ground arith;
        arrived = ground arith;
        departed = ground arith;
        serial = ground arith;
      })
    ]

-- How many threads are awake at the gate is of no account.
gate_awake-KeepsRounds :
    (count : ℕ) (b : Barrier) (asleep awake : ℕ)
    → (if b.out == 0 then asleep else 0) ≡ 0
    → KeepsRounds count b
    → KeepsRounds count (record b { gate_asleep = asleep; gate_awake = awake })
gate_awake-KeepsRounds count b asleep awake shut sound = record {
  rounds = sound.rounds;
  threshold = sound.threshold;
  room = sound.room;
  inside = sound.inside;
  alone = sound.alone;
  most = sound.most;
  roused = sound.roused;
  gate = shut;
  arrived = sound.arrived;
  departed = sound.departed;
  serial = sound.serial;
}

arrive-KeepsRounds :
    (count : ℕ) (b : Barrier)
    → 0 < count
    → count < 2 ^ 32
    → KeepsRounds count b
    → b.out ≡ 0
    → KeepsRounds count (arrive b).1
unfolding arrive
arrive-KeepsRounds count b positive small sound open_gate =
    elim (Bool-cases ((b.entered + 1) % 2 ^ 32 == b.threshold)) [
      | inl full ↦
          let more : (sound.rounds + 1) * count ≡ sound.rounds * count + count = grind arith in
          rw full (
            leave-KeepsRounds count (sound.rounds + 1)
              (broadcast (record b { entered = 0; out = b.threshold; arrivals = b.arrivals + 1 }))
              small (ground (arith, more)) (ground (arith, more)) sound.threshold refl refl
              (ground (arith, more)) (ground (arith, more)) (ground (arith, more))
              (ground (arith, more)))
      | inr filling ↦ rw filling (record {
        rounds = sound.rounds;
        threshold = ground arith;
        room = ground arith;
        inside = ground arith;
        alone = ground arith;
        most = ground arith;
        roused = ground arith;
        gate = ground arith;
        arrived = ground arith;
        departed = ground arith;
        serial = ground arith;
      })
    ]

uv_barrier_wait-KeepsRounds :
    (count : ℕ) (b : Barrier)
    → 0 < count
    → count < 2 ^ 32
    → KeepsRounds count b
    → KeepsRounds count (uv_barrier_wait b).1
unfolding uv_barrier_wait
uv_barrier_wait-KeepsRounds count b positive small sound = elim (Bool-cases (b.out == 0)) [
  | inl through ↦ rw through (arrive-KeepsRounds count b positive small sound (ground arith))
  | inr shut ↦ rw shut (record {
    rounds = sound.rounds;
    threshold = ground arith;
    room = ground arith;
    inside = ground arith;
    alone = ground arith;
    most = ground arith;
    roused = ground arith;
    gate = ground arith;
    arrived = ground arith;
    departed = ground arith;
    serial = ground arith;
  })
]

wake_at_gate-KeepsRounds :
    (count : ℕ) (b : Barrier)
    → 0 < count
    → count < 2 ^ 32
    → KeepsRounds count b
    → KeepsRounds count (wake_at_gate b).1
unfolding wake_at_gate
wake_at_gate-KeepsRounds count b positive small sound =
    uv_barrier_wait-KeepsRounds count (record b { gate_awake = b.gate_awake - 1 }) positive small
      (gate_awake-KeepsRounds count b b.gate_asleep (b.gate_awake - 1) sound.gate sound)

wake_inside-KeepsRounds :
    (count : ℕ) (b : Barrier)
    → count < 2 ^ 32
    → 0 < b.inside_awake
    → KeepsRounds count b
    → KeepsRounds count (wake_inside b).1
unfolding wake_inside
wake_inside-KeepsRounds count b small there sound = elim (Bool-cases (b.entered == 0)) [
  | inl drains ↦ rw drains (
      leave-KeepsRounds count sound.rounds (record b { inside_awake = b.inside_awake - 1 }) small
        (ground arith) sound.most sound.threshold (ground arith) (ground arith) (ground arith)
        (ground arith) sound.departed (ground arith))
  | inr fills ↦ rw fills (record {
    rounds = sound.rounds;
    threshold = ground arith;
    room = ground arith;
    inside = ground arith;
    alone = ground arith;
    most = ground arith;
    roused = ground arith;
    gate = ground arith;
    arrived = ground arith;
    departed = ground arith;
    serial = ground arith;
  })
]

step-KeepsRounds :
    {b c : Barrier} (count : ℕ)
    → 0 < count
    → count < 2 ^ 32
    → Step b c
    → KeepsRounds count b
    → KeepsRounds count c
step-KeepsRounds count positive small (call b) sound =
    uv_barrier_wait-KeepsRounds count b positive small sound
step-KeepsRounds count positive small (go_on_at_gate b there) sound =
    wake_at_gate-KeepsRounds count b positive small sound
step-KeepsRounds count positive small (go_on_inside b there) sound =
    wake_inside-KeepsRounds count b small there sound
step-KeepsRounds count positive small (spurious_at_gate b there) sound =
    gate_awake-KeepsRounds count b (b.gate_asleep - 1) (b.gate_awake + 1)
      (ground (arith, sound.gate)) sound
step-KeepsRounds count positive small (spurious_inside b there) sound = record {
  rounds = sound.rounds;
  threshold = sound.threshold;
  room = sound.room;
  inside = ground (arith, sound.inside);
  alone = sound.alone;
  most = sound.most;
  roused = ground (arith, sound.roused);
  gate = sound.gate;
  arrived = sound.arrived;
  departed = sound.departed;
  serial = sound.serial;
}

-- At a barrier for `count` threads, whatever the order of its threads: the threads inside are those
-- of a round that fills, fewer than `count`, or of one that drains. As many have left as `count`
-- times the rounds that have filled up, less those that have yet to leave, so that no thread leaves
-- before `count` have entered; of each round that has drained one thread was the last.
pub Reachable-KeepsRounds :
    (count : ℕ) (b : Barrier) → 0 < count → count < 2 ^ 32 → Reachable count b → KeepsRounds count b
Reachable-KeepsRounds count b positive small start = new_barrier-KeepsRounds count positive
Reachable-KeepsRounds count b positive small (next c d reached step) =
    step-KeepsRounds count positive small step
      (Reachable-KeepsRounds count c positive small reached)

-- If no thread at a barrier for `count` threads can go on, all its threads wait inside, in a round
-- of which fewer than `count` have entered.
pub Reachable-stuck :
    (count : ℕ) (b : Barrier)
    → 0 < count
    → count < 2 ^ 32
    → Reachable count b
    → b.gate_awake ≡ 0
    → b.inside_awake ≡ 0
    → (b.gate_asleep ≡ 0) × (b.out ≡ 0) × (b.inside_asleep ≡ b.entered) × (b.entered < count)
Reachable-stuck count b positive small reached none_at_gate none_inside =
    let sound = Reachable-KeepsRounds count b positive small reached in
    (
      ground (arith, sound.gate, sound.inside, sound.alone, sound.roused),
      ground (arith, sound.inside, sound.alone, sound.roused),
      ground (arith, sound.inside, sound.alone, sound.roused),
      sound.room,
    )

-- `uv_barrier_destroy` destroys exactly the barriers inside which there is no thread, and its
-- assertion fails exactly if a thread waits there for others.
uv_barrier_destroy_iff :
    (count : ℕ) (b : Barrier)
    → 0 < count
    → count < 2 ^ 32
    → Reachable count b
    → ((uv_barrier_destroy b ≡ destroyed) ↔ (b.inside_asleep + b.inside_awake ≡ 0))
      × ((uv_barrier_destroy b ≡ assertion_failed) ↔ (0 < b.entered))
unfolding uv_barrier_destroy
uv_barrier_destroy_iff count b positive small reached =
    let sound = Reachable-KeepsRounds count b positive small reached in
    (elim (Bool-cases (b.entered == 0)) [
      | inl clear ↦ elim (Bool-cases (b.out == 0)) [
        | inl gone ↦
            rw (clear, gone)
              (
                (λ e. ground (arith, sound.inside), λ e. refl),
                (λ e. absurd cc, λ lt. absurd (ground arith)),
              )
        | inr drains ↦
            rw (clear, drains)
              (
                (λ e. absurd cc, λ e. absurd (ground (arith, sound.inside))),
                (λ e. absurd cc, λ lt. absurd (ground arith)),
              )
      ]
      | inr fills ↦ rw fills (
        (λ e. absurd cc, λ e. absurd (ground (arith, sound.inside))),
        (λ e. ground arith, λ lt. refl),
      )
    ])
