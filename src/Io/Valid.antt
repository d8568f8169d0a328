-- ===== src/Io/Valid.antt =====
-- src/unix/core.c: `loop->watchers`, `nfds` and `watcher_queue` agree with the watchers.
use libuv.Prelude.{
  ℕ, zero, suc, ◌+◌, ◌≤◌, ◌<◌, ◌≡◌, refl, ap, inl, inr, Bool-cases, false, Option, none, some, ◌==◌,
  arith,
}
use libuv.Queue.{occurs}
use libuv.Io.Bits.{is_zero}
use libuv.Io.{Watchers, unallocated, freed, slots, Loop, update}

-- What an entry of `watchers` holds.
abbrev pub entry : Watchers → ℕ → Option ℕ
entry unallocated i = none
entry freed i = none
entry (slots n f) i = f i

-- Room for `n` watchers and the two entries behind them.
abbrev pub IsSized : Watchers → ℕ → Type 0
IsSized unallocated n = n ≡ 0
IsSized freed n = ⊥
IsSized (slots m f) n = m ≡ n + 2

abbrev pub holds : Option ℕ → ℕ
holds none = 0
holds (some w) = 1

-- The number of entries below `n` that hold a watcher.
abbrev pub used : ℕ → (ℕ → Option ℕ) → ℕ
used zero f = 0
used (suc n) f = holds (f n) + used n f

-- The array has its size, `nfds` counts what it holds, a watcher in it stands at its descriptor and
-- wants events, and `watcher_queue` holds watchers that want events, each once. A watcher is pending
-- once at most.
pub record IsValid (l : Loop) : Type 0 where
  pub sized : IsSized l.watchers l.nwatchers
  pub bounded : l.nwatchers + 2 ≤ 2147483648
  pub counted : l.nfds ≡ used l.nwatchers (entry l.watchers)
  pub placed : (i w : ℕ) → i < l.nwatchers → entry l.watchers i ≡ some w → (l.ios w).fd ≡ some i
  pub awaited :
      (i w : ℕ) → i < l.nwatchers → entry l.watchers i ≡ some w → is_zero (l.ios w).pevents ≡ false
  pub queued : (w : ℕ) → occurs w l.watcher_queue ≤ 1
  pub wanted : (w : ℕ) → 0 < occurs w l.watcher_queue → is_zero (l.ios w).pevents ≡ false
  pub pending : (w : ℕ) → occurs w l.pending_queue + occurs w l.pq ≤ 1

holds-le : (v : Option ℕ) → holds v ≤ 1
holds-le none = omega arith
holds-le (some w) = omega arith

pub used-le : (n : ℕ) (f : ℕ → Option ℕ) → used n f ≤ n
used-le zero f = omega arith
used-le (suc n) f = omega (arith, used-le n f, holds-le (f n))

pub used-same : (n : ℕ) (f g : ℕ → Option ℕ) → ((i : ℕ) → i < n → g i ≡ f i) → used n g ≡ used n f
used-same zero f g same = refl
used-same (suc n) f g same =
    rw (same n (omega arith), used-same n f g (λ i lt. same i (omega arith))) refl

-- Further entries that hold nothing.
pub used-more :
    (m n : ℕ) (f : ℕ → Option ℕ)
    → n ≤ m
    → ((i : ℕ) → n ≤ i → i < m → f i ≡ none)
    → used m f ≡ used n f
used-more zero n f le empty = ap (λ k. used k f) {x = 0} {y = n} (omega arith)
used-more (suc m) n f le empty = elim (Bool-cases (n == suc m)) [
  | inl same ↦ ap (λ k. used k f) {x = suc m} {y = n} (ground arith)
  | inr less ↦
      let rest = used-more m n f (ground arith) (λ i ge below. empty i ge (omega arith)) in
      omega (arith, rest, ap holds (empty m (ground arith) (omega arith)))
]

used-above : (n i : ℕ) (f : ℕ → Option ℕ) (v : Option ℕ) → n ≤ i → used n (update f i v) ≡ used n f
used-above n i f v ge = used-same n f (update f i v) (λ k lt. ground arith)

-- A write to an entry.
pub used-update :
    (n i : ℕ) (f : ℕ → Option ℕ) (v : Option ℕ)
    → i < n
    → used n (update f i v) + holds (f i) ≡ used n f + holds v
used-update zero i f v lt = absurd (omega arith)
used-update (suc n) i f v lt = elim (Bool-cases (n == i)) [
  | inl here ↦
      let at : n ≡ i = ground arith in
      let top : holds (update f i v n) ≡ holds v = rw here refl in
      omega (arith, top, ap (λ k. holds (f k)) at, used-above n i f v (omega arith))
  | inr other ↦
      let top : holds (update f i v n) ≡ holds (f n) = rw other refl in
      let below : i < n = ground arith in omega (arith, top, used-update n i f v below)
]
