-- ===== src/Watcher/Running.antt =====
-- src/unix/loop-watcher.c: which watchers `uv__run_...` calls.
use libuv.Prelude.{
  ℕ, zero, suc, ◌≤◌, ◌<◌, ◌≡◌, refl, ◌∙◌, ap, inl, inr, true, some, List, [], ◌∷◌, ◌++◌, one_if,
  length, arith, Option-cases,
}
use libuv.Queue.{occurs, occurs-append}
use libuv.Watcher.{Watchers, Call, perform_all, call_back, round, run_rounds, run_watchers}
use libuv.Watcher.Valid.{IsValid, stops_in, perform_all-IsValid, perform_all-Leaves}

module _ (callback : ℕ → ℕ → Watchers → List Call) where
  -- No callback ever stops the watcher.
  abbrev pub IsSpared : ℕ → Type 0
  IsSpared k = (cb h : ℕ) (w : Watchers) → stops_in k (callback cb h w) ≡ 0

  -- The head of the local queue goes to the end of the loop's.
  moved : Watchers → ℕ → List ℕ → Watchers
  moved w h rest = record w { queue = rest; handles = w.handles ++ h ∷ [] }

  moved-IsValid :
      (w : Watchers) (h : ℕ) (rest : List ℕ)
      → w.queue ≡ h ∷ rest
      → IsValid w
      → IsValid (moved w h rest)
  unfolding moved
  moved-IsValid w h rest e v = record {
    queued = λ k. omega (arith, v.queued k, ap (occurs k) e, occurs-append k w.handles h);
    callable = v.callable;
  }

  -- A run of the loop: what it calls, and the state that it leaves.
  record Ran (w : Watchers) (called : List ℕ) (w' : Watchers) : Type 0 where
    pub valid : IsValid w'
    pub emptied : w'.queue ≡ []
    pub once : (k : ℕ) → occurs k called ≤ occurs k w.queue
    pub reached : (k : ℕ) → IsSpared k → occurs k called ≡ occurs k w.queue

  -- The callback of a watcher that has one.
  after : ℕ → Watchers → ℕ → Watchers
  after cb w h = perform_all (callback cb h w) w

  call_back-after :
      (w : Watchers) (h cb : ℕ)
      → w.name_cb h ≡ some cb
      → call_back callback w h ≡ some (after cb w h)
  unfolding call_back after
  call_back-after w h cb e = rw (e, call_back) refl

  step-Ran :
      (w : Watchers) (h : ℕ) (rest : List ℕ) (cb : ℕ) (called : List ℕ) (end : Watchers)
      → w.queue ≡ h ∷ rest
      → IsValid (moved w h rest)
      → Ran (after cb (moved w h rest) h) called end
      → Ran w (h ∷ called) end
  unfolding after moved
  step-Ran w h rest cb called end e v ran =
      let left =
        λ (k : ℕ). perform_all-Leaves k (callback cb h (moved w h rest)) (moved w h rest) v in
      record {
        valid = ran.valid;
        emptied = ran.emptied;
        once = λ k. omega (arith, ran.once k, left k, ap (occurs k) e);
        reached = λ k spared. omega (
          arith,
          ran.reached k spared,
          (left k).same (spared cb h (moved w h rest)),
          ap (occurs k) e,
        );
      }

  run_rounds-empty :
      (fuel : ℕ) (w : Watchers) → w.queue ≡ [] → run_rounds callback (suc fuel) w ≡ some ([], w)
  unfolding run_rounds
  run_rounds-empty fuel w e = ap (round callback (run_rounds callback fuel) w) e

  run_rounds-step :
      (fuel : ℕ) (w : Watchers) (h : ℕ) (rest : List ℕ) (cb : ℕ) (called : List ℕ) (end : Watchers)
      → w.queue ≡ h ∷ rest
      → w.name_cb h ≡ some cb
      → run_rounds callback fuel (after cb (moved w h rest) h) ≡ some (called, end)
      → run_rounds callback (suc fuel) w ≡ some (h ∷ called, end)
  unfolding run_rounds moved
  run_rounds-step fuel w h rest cb called end e some_cb run =
      ap (round callback (run_rounds callback fuel) w) e
      ∙ rw (call_back-after (moved w h rest) h cb some_cb) (rw run refl)

  run_rounds-Ran :
      (fuel : ℕ) (w : Watchers) (q : List ℕ)
      → w.queue ≡ q
      → length q < fuel
      → IsValid w
      → (called : List ℕ) × (w' : Watchers) × (run_rounds callback fuel w ≡ some (called, w'))
        × Ran w called w'
  unfolding moved after
  run_rounds-Ran zero w q e enough v = absurd (omega arith)
  run_rounds-Ran (suc fuel) w [] e enough v = (
    [],
    w,
    run_rounds-empty fuel w e,
    record {
      valid = v;
      emptied = e;
      once = λ k. omega arith;
      reached = λ k spared. omega (arith, ap (occurs k) e);
    },
  )
  run_rounds-Ran (suc fuel) w (h ∷ rest) e enough v =
      let v1 = moved-IsValid w h rest e v in
      let on : (w.flags h).active ≡ true = ground (arith, v.queued h, ap (occurs h) e) in
      elim (Option-cases (w.name_cb h)) [
        | inl null ↦ absurd (v.callable h on null)
        | inr (cb, some_cb) ↦
            let calls = callback cb h (moved w h rest) in
            let left = perform_all-Leaves h calls (moved w h rest) v1 in
            let (called, end, run, ran) =
              run_rounds-Ran fuel (after cb (moved w h rest) h) (after cb (moved w h rest) h).queue
                refl (omega (arith, left)) (perform_all-IsValid calls (moved w h rest) v1) in
            (
              h ∷ called,
              end,
              run_rounds-step fuel w h rest cb called end e some_cb run,
              step-Ran w h rest cb called end e v1 ran,
            )
      ]

  run_watchers-rounds :
      (w : Watchers)
      → IsValid w
      → w.queue ≡ []
      → (called : List ℕ) × (w' : Watchers) × (run_watchers callback w ≡ some (called, w'))
        × Ran (record w { queue = w.handles; handles = [] }) called w'
  unfolding run_watchers
  run_watchers-rounds w v idle =
      let start = record w { queue = w.handles; handles = [] } in
      run_rounds-Ran (suc (length w.handles)) start w.handles refl (omega arith) (record {
        queued = λ k. omega (arith, v.queued k, ap (occurs k) idle);
        callable = v.callable;
      })

  -- `uv__run_prepare`, `uv__run_check` and `uv__run_idle` on valid watchers end without a fault,
  -- whatever the callbacks start, stop, reference and unreference. They leave valid watchers, with
  -- the local queue empty. Only watchers that were active at the beginning are called, each once at
  -- most.
  pub run_watchers-IsValid :
      (w : Watchers)
      → IsValid w
      → w.queue ≡ []
      → (called : List ℕ) × (w' : Watchers) × (run_watchers callback w ≡ some (called, w'))
        × IsValid w'
        × (w'.queue ≡ [])
        × ((k : ℕ) → occurs k called ≤ one_if (w.flags k).active)
  run_watchers-IsValid w v idle =
      let (called, end, run, ran) = run_watchers-rounds w v idle in
      (
        called,
        end,
        run,
        ran.valid,
        ran.emptied,
        λ k. omega (arith, ran.once k, v.queued k, ap (occurs k) idle),
      )

  -- A watcher that no callback stops is called exactly once if it was active at the beginning, and
  -- not at all otherwise.
  pub run_watchers-IsSpared :
      (w : Watchers) (k : ℕ)
      → IsValid w
      → w.queue ≡ []
      → IsSpared k
      → (called : List ℕ) × (w' : Watchers) × (run_watchers callback w ≡ some (called, w'))
        × (occurs k called ≡ one_if (w.flags k).active)
  run_watchers-IsSpared w k v idle spared =
      let (called, end, run, ran) = run_watchers-rounds w v idle in
      (called, end, run, omega (arith, ran.reached k spared, v.queued k, ap (occurs k) idle))
