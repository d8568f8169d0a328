-- ===== src/Signal/Counts.antt =====
-- src/unix/signal.c: the entries of the tree when one handle is changed, enters or leaves.
use libuv.Prelude.{
  ℕ, ◌+◌, ◌<◌, ◌≡◌, refl, sym, ap, false, List, [], ◌∷◌, ◌++◌, ◌==◌, if◌then◌else◌, one_if, All,
  arith,
}
use mathlib.Core.Path.{subst}
use libuv.Queue.{occurs}
use libuv.Queue.Moves.{occurs-two}
use libuv.Signal.{SignalHandle, Key, key_of, is_less, Sorted}
use libuv.Signal.Actions.{update}
use libuv.Signal.First.{watchers, regulars}

module _ (handles : ℕ → SignalHandle) (h : ℕ) (w : SignalHandle) where
  -- A handle that is no entry may change.
  update-elsewhere : (e : ℕ) → (e == h) ≡ false → update handles h w e ≡ handles e
  update-elsewhere e other = rw other refl

  pub watchers-update :
      (signum : ℕ) (l : List ℕ)
      → occurs h l ≡ 0
      → watchers (update handles h w) signum l ≡ watchers handles signum l
  watchers-update signum [] fresh = refl
  watchers-update signum (e ∷ l) fresh =
      let other : (e == h) ≡ false = ground (arith, fresh) in
      rw other (
        ap (λ n. one_if ((handles e).signum == signum) + n)
          (watchers-update signum l (omega (arith, fresh))))

  pub regulars-update :
      (signum : ℕ) (l : List ℕ)
      → occurs h l ≡ 0
      → regulars (update handles h w) signum l ≡ regulars handles signum l
  regulars-update signum [] fresh = refl
  regulars-update signum (e ∷ l) fresh =
      let other : (e == h) ≡ false = ground (arith, fresh) in
      rw other (
        ap (λ n. (if (handles e).one_shot then 0 else one_if ((handles e).signum == signum)) + n)
          (regulars-update signum l (omega (arith, fresh))))

pub All-same :
    {P Q : ℕ → Type 0} (l : List ℕ) → ((e : ℕ) → 0 < occurs e l → P e → Q e) → All P l → All Q l
All-same [] change all = tt
All-same (e ∷ l) change (first, all) =
    (change e (ground arith) first, All-same l (λ d lt. change d (ground (arith, lt))) all)

pub Sorted-same :
    (k k' : ℕ → Key) (l : List ℕ)
    → ((e : ℕ) → 0 < occurs e l → k' e ≡ k e)
    → Sorted k l
    → Sorted k' l
Sorted-same k k' [] same sorted = tt
Sorted-same k k' (x ∷ l) same (all, sorted) = (
  All-same l
      (λ y lt e.
        subst (λ key. is_less (k' y) key ≡ false) (sym (same x (ground arith)))
          (subst (λ key. is_less key (k x) ≡ false) (sym (same y (ground (arith, lt)))) e))
      all,
  Sorted-same k k' l (λ e lt. same e (ground (arith, lt))) sorted,
)

All-without : (P : ℕ → Type 0) (l m : List ℕ) (h : ℕ) → All P (l ++ h ∷ m) → All P (l ++ m)
All-without P [] m h all = all.1
All-without P (x ∷ l) m h (first, all) = (first, All-without P l m h all)

pub Sorted-without :
    (k : ℕ → Key) (l m : List ℕ) (h : ℕ) → Sorted k (l ++ h ∷ m) → Sorted k (l ++ m)
Sorted-without k [] m h sorted = sorted.1
Sorted-without k (x ∷ l) m h (all, sorted) =
    (All-without (λ y. is_less (k y) (k x) ≡ false) l m h all, Sorted-without k l m h sorted)

pub Sorted-update :
    (handles : ℕ → SignalHandle) (h : ℕ) (w : SignalHandle) (l : List ℕ)
    → occurs h l ≡ 0
    → Sorted (key_of handles) l
    → Sorted (key_of (update handles h w)) l
Sorted-update handles h w l fresh =
    Sorted-same (key_of handles) (key_of (update handles h w)) l
      (λ e lt. let other : (e == h) ≡ false = ground (arith, fresh, lt) in rw other refl)

module _ (handles : ℕ → SignalHandle) (signum : ℕ) (h : ℕ) where
  pub watchers-middle :
      (l m : List ℕ)
      → watchers handles signum (l ++ h ∷ m)
        ≡ one_if ((handles h).signum == signum) + watchers handles signum (l ++ m)
  watchers-middle [] m = refl
  watchers-middle (x ∷ l) m = omega (arith, watchers-middle l m)

  pub regulars-middle :
      (l m : List ℕ)
      → regulars handles signum (l ++ h ∷ m)
        ≡ (if (handles h).one_shot then 0 else one_if ((handles h).signum == signum))
          + regulars handles signum (l ++ m)
  regulars-middle [] m = refl
  regulars-middle (x ∷ l) m = omega (arith, regulars-middle l m)

pub occurs-middle :
    (e h : ℕ) (l m : List ℕ) → occurs e (l ++ h ∷ m) ≡ one_if (h == e) + occurs e (l ++ m)
occurs-middle e h l m = omega (arith, occurs-two e l (h ∷ m), occurs-two e l m)
