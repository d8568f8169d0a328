-- ===== src/Signal/Alike.antt =====
-- src/unix/signal.c: what a change of a handle's counters and callback does not touch.
use libuv.Prelude.{
  ℕ, ◌+◌, ◌≡◌, refl, ap, inl, inr, List, [], ◌∷◌, ◌==◌, if◌then◌else◌, one_if, Bool-cases, arith,
}
use libuv.Signal.{SignalHandle, key_of}
use libuv.Signal.Tree.{RbTree, Signals}
use libuv.Signal.Actions.{update}
use libuv.Signal.First.{watchers, regulars}
use libuv.Signal.Counts.{Sorted-same}
use libuv.Signal.Valid.{IsValid, Suits-counts}

-- Two states of a handle that watch the same signal in the same way.
pub record Alike (v : SignalHandle) (w : SignalHandle) : Type 0 where
  pub signum : v.signum ≡ w.signum
  pub one_shot : v.one_shot ≡ w.one_shot
  pub loop : v.loop ≡ w.loop
  pub is_active : v.is_active ≡ w.is_active

pub update-Alike :
    (handles : ℕ → SignalHandle) (h : ℕ) (v : SignalHandle)
    → Alike v (handles h)
    → (g : ℕ) → Alike (update handles h v g) (handles g)
update-Alike handles h v alike g = elim (Bool-cases (g == h)) [
  | inl here ↦ let same : g ≡ h = ground arith in rw (here, same) alike
  | inr other ↦ rw other (record { signum = refl; one_shot = refl; loop = refl; is_active = refl })
]

module _ (handles : ℕ → SignalHandle) (handles' : ℕ → SignalHandle)
    (alike : (g : ℕ) → Alike (handles' g) (handles g)) where
  watchers-Alike : (n : ℕ) (l : List ℕ) → watchers handles n l ≡ watchers handles' n l
  watchers-Alike n [] = refl
  watchers-Alike n (e ∷ l) =
      rw (← (alike e).signum) (ap (λ c. one_if ((handles' e).signum == n) + c) (watchers-Alike n l))

  regulars-Alike : (n : ℕ) (l : List ℕ) → regulars handles n l ≡ regulars handles' n l
  regulars-Alike n [] = refl
  regulars-Alike n (e ∷ l) =
      rw (← (alike e).signum, ← (alike e).one_shot)
        (ap (λ c. (if (handles' e).one_shot then 0 else one_if ((handles' e).signum == n)) + c)
          (regulars-Alike n l))

  key-Alike : (e : ℕ) → key_of handles' e ≡ key_of handles e
  key-Alike e = rw ((alike e).signum, (alike e).one_shot, (alike e).loop) refl

pub Alike-IsValid {ℓ} :
    {T : Type ℓ} (tree : RbTree T) (s : Signals tree) (handles' : ℕ → SignalHandle)
    (pipe : ℕ → List (ℕ × ℕ))
    → ((g : ℕ) → Alike (handles' g) (s.handles g))
    → IsValid tree s
    → IsValid tree (record s { handles = handles'; pipe = pipe })
Alike-IsValid tree s handles' pipe alike valid =
    let entries = tree.entries s.started in
    record {
      sorted =
          Sorted-same (key_of s.handles) (key_of handles') entries
            (λ e lt. key-Alike s.handles handles' alike e) valid.sorted;
      member = λ g. rw (alike g).signum (valid.member g);
      active = λ g. rw ((alike g).signum, (alike g).is_active) (valid.active g);
      suits = λ n.
          Suits-counts (watchers s.handles n entries) (watchers handles' n entries)
            (regulars s.handles n entries) (regulars handles' n entries) (s.disposition n)
            (watchers-Alike s.handles handles' alike n entries)
            (regulars-Alike s.handles handles' alike n entries) (valid.suits n);
    }
