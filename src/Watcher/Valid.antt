-- ===== src/Watcher/Valid.antt =====
-- src/unix/loop-watcher.c: each active watcher stands in one queue, once.
use libuv.Prelude.{
  ℕ, ◌+◌, ◌≤◌, ◌≡◌, ◌≢◌, refl, ap, inl, inr, true, Option, none, some, List, [], ◌∷◌, ◌==◌,
  if◌then◌else◌, one_if, length, arith, Bool-cases,
}
use libuv.Queue.{erase, occurs, occurs-erase, length-erase-le}
use libuv.Handle.{Flags, handle_start, handle_stop, handle_ref, handle_unref}
use libuv.Watcher.{
  update, Watchers, watcher_start, watcher_stop, Call, start, stop, ref, unref, perform,
  perform_all,
}

-- A watcher stands in one of the two queues, once, if it is active, and in none otherwise; an
-- active watcher has a callback.
pub record IsValid (w : Watchers) : Type 0 where
  pub queued : (h : ℕ) → occurs h w.handles + occurs h w.queue ≡ one_if (w.flags h).active
  pub callable : (h : ℕ) → (w.flags h).active ≡ true → w.name_cb h ≢ none

-- What a call leaves of the local queue, seen from the watcher `k`.
pub record Leaves (k stops : ℕ) (w w' : Watchers) : Type 0 where
  pub shorter : length w'.queue ≤ length w.queue
  pub fewer : occurs k w'.queue ≤ occurs k w.queue
  pub same : stops ≡ 0 → occurs k w'.queue ≡ occurs k w.queue

watcher_start-IsValid :
    (w : Watchers) (h : ℕ) (cb : Option ℕ) → IsValid w → IsValid (watcher_start w h cb).1
unfolding watcher_start handle_start
watcher_start-IsValid w h none v = v
watcher_start-IsValid w h (some cb) v = elim (Bool-cases (w.flags h).active) [
  | inl on ↦ rw on v
  | inr off ↦ rw off (record {
    queued = λ k. ground (arith, v.queued k);
    callable = λ k a. ground (arith, v.callable k);
  })
]

erased :
    (h k : ℕ) (w : Watchers)
    → IsValid w
    → occurs k (erase h w.handles) + occurs k (erase h w.queue)
      ≡ (if k == h then 0 else one_if (w.flags k).active)
erased h k w v =
    ground (arith, v.queued h, v.queued k, occurs-erase h k w.handles, occurs-erase h k w.queue)

watcher_stop-IsValid : (w : Watchers) (h : ℕ) → IsValid w → IsValid (watcher_stop w h)
unfolding watcher_stop handle_stop
watcher_stop-IsValid w h v = elim (Bool-cases (w.flags h).active) [
  | inr off ↦ rw off v
  | inl on ↦ rw on (record {
    queued = λ k. ground (arith, erased h k w v);
    callable = λ k a. ground (arith, v.callable k);
  })
]

-- A macro that leaves every watcher as active as it was.
reflagged-IsValid :
    (w : Watchers) (h n : ℕ) (f : Flags)
    → f.active ≡ (w.flags h).active
    → IsValid w
    → IsValid (record w { flags = update w.flags h f; active_handles = n })
reflagged-IsValid w h n f same v = record {
  queued = λ k. ground (arith, v.queued k);
  callable = λ k a. ground (arith, v.callable k);
}

perform-IsValid : (c : Call) (w : Watchers) → IsValid w → IsValid (perform c w)
unfolding perform handle_ref handle_unref
perform-IsValid (start h cb) w v = watcher_start-IsValid w h cb v
perform-IsValid (stop h) w v = watcher_stop-IsValid w h v
perform-IsValid (ref h) w v = reflagged-IsValid w h _ _ (ground arith) v
perform-IsValid (unref h) w v = reflagged-IsValid w h _ _ (ground arith) v

-- How often a list of calls stops a watcher.
abbrev pub stops_in : ℕ → List Call → ℕ
stops_in k [] = 0
stops_in k (stop h ∷ cs) = one_if (h == k) + stops_in k cs
stops_in k (start h cb ∷ cs) = stops_in k cs
stops_in k (ref h ∷ cs) = stops_in k cs
stops_in k (unref h ∷ cs) = stops_in k cs

unchanged : (k : ℕ) (w w' : Watchers) → w'.queue ≡ w.queue → Leaves k 0 w w'
unchanged k w w' e = record {
  shorter = omega (arith, ap length e);
  fewer = omega (arith, ap (occurs k) e);
  same = λ _. ap (occurs k) e;
}

watcher_start-queue :
    (w : Watchers) (h : ℕ) (cb : Option ℕ) → (watcher_start w h cb).1.queue ≡ w.queue
unfolding watcher_start
watcher_start-queue w h none = refl
watcher_start-queue w h (some cb) = ground arith

watcher_stop-Leaves :
    (k h : ℕ) (w : Watchers) → IsValid w → Leaves k (one_if (h == k)) w (watcher_stop w h)
unfolding watcher_stop
watcher_stop-Leaves k h w v =
    let gone = occurs-erase h k w.queue (ground (arith, v.queued h)) in
    elim (Bool-cases (w.flags h).active) [
      | inr off ↦ rw off (record { shorter = omega arith; fewer = omega arith; same = λ _. refl })
      | inl on ↦ rw on (record {
        shorter = length-erase-le h w.queue;
        fewer = ground (arith, gone);
        same = λ other. ground (arith, gone);
      })
    ]

perform-Leaves :
    (k : ℕ) (c : Call) (w : Watchers) → IsValid w → Leaves k (stops_in k (c ∷ [])) w (perform c w)
unfolding perform
perform-Leaves k (start h cb) w v = unchanged k w _ (watcher_start-queue w h cb)
perform-Leaves k (stop h) w v =
    let l = watcher_stop-Leaves k h w v in
    record { shorter = l.shorter; fewer = l.fewer; same = λ none_here. l.same (omega arith) }
perform-Leaves k (ref h) w v = unchanged k w _ refl
perform-Leaves k (unref h) w v = unchanged k w _ refl

stops_in-cons :
    (k : ℕ) (c : Call) (cs : List Call) → stops_in k (c ∷ cs) ≡ stops_in k (c ∷ []) + stops_in k cs
stops_in-cons k (start h cb) cs = omega arith
stops_in-cons k (stop h) cs = omega arith
stops_in-cons k (ref h) cs = omega arith
stops_in-cons k (unref h) cs = omega arith

-- On valid watchers any sequence of starts, stops, references and unreferences leaves valid
-- watchers: each active one stands in one queue, once, and has a callback, and the others stand in
-- none.
pub perform_all-IsValid : (cs : List Call) (w : Watchers) → IsValid w → IsValid (perform_all cs w)
unfolding perform_all
perform_all-IsValid [] w v = v
perform_all-IsValid (c ∷ cs) w v = perform_all-IsValid cs (perform c w) (perform-IsValid c w v)

-- Calls take watchers out of the local queue and put none in; one that they do not stop stays.
pub perform_all-Leaves :
    (k : ℕ) (cs : List Call) (w : Watchers)
    → IsValid w
    → Leaves k (stops_in k cs) w (perform_all cs w)
unfolding perform_all
perform_all-Leaves k [] w v = record {
  shorter = omega arith;
  fewer = omega arith;
  same = λ _. refl;
}
perform_all-Leaves k (c ∷ cs) w v =
    let first = perform-Leaves k c w v in
    let rest = perform_all-Leaves k cs (perform c w) (perform-IsValid c w v) in
    let parts = stops_in-cons k c cs in
    record {
      shorter = omega (arith, first.shorter, rest.shorter);
      fewer = omega (arith, first.fewer, rest.fewer);
      same = λ none_here. omega (arith, first.same (omega arith), rest.same (omega arith));
    }
