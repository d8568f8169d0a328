-- ===== src/Signal/Valid.antt =====
-- src/unix/signal.c: the tree and the dispositions agree with the handles that are started.
use libuv.Prelude.{
  ℕ, ◌+◌, ◌<◌, ◌≤◌, ◌≡◌, refl, sym, ap, ◌∙◌, inl, inr, Bool, true, false, not, Option, none, some,
  List, ◌∷◌, ◌++◌, ◌==◌, if◌then◌else◌, one_if, Bool-cases, arith,
}
use mathlib.Core.Path.{subst}
use libuv.Queue.{occurs}
use libuv.Queue.Moves.{occurs-split}
use libuv.Signal.{SignalHandle, key_of, Sorted, Disposition, default_action, caught}
use libuv.Signal.Tree.{RbTree, Signals}
use libuv.Signal.Actions.{update, first_handle, left_by, stopped, signal_stop}
use libuv.Signal.First.{watchers, regulars, regulars-le, FirstOf, first_handle-FirstOf}
use libuv.Signal.Counts.{
  watchers-update, regulars-update, Sorted-without, Sorted-update, watchers-middle, regulars-middle,
  occurs-middle,
}

-- A disposition that suits so many watchers of a signal and so many regular ones among them.
pub record Suits (all : ℕ) (regular : ℕ) (d : Disposition) : Type 0 where
  pub kept : (if regular == 0 then caught else d) ≡ caught
  pub unwatched : (if all == 0 then d else default_action) ≡ default_action

module _ {ℓ} {T : Type ℓ} (tree : RbTree T) where
  -- The tree is in order and holds just the handles that have a signal, once each; they are the
  -- active ones. A signal that a regular handle watches is caught each time, and one that no handle
  -- watches has its default action.
  pub record IsValid (s : Signals tree) : Type ℓ where
    pub sorted : Sorted (key_of s.handles) (tree.entries s.started)
    pub member :
        (h : ℕ) → occurs h (tree.entries s.started) ≡ (if (s.handles h).signum == 0 then 0 else 1)
    pub active : (h : ℕ) → (s.handles h).is_active ≡ not ((s.handles h).signum == 0)
    pub suits :
        (n : ℕ)
        → Suits
            (watchers s.handles n (tree.entries s.started))
            (regulars s.handles n (tree.entries s.started))
            (s.disposition n)

-- When a handle leaves.
left_by-Suits :
    (handles : ℕ → SignalHandle) (signum : ℕ) (l : List ℕ) (rem_oneshot : Bool) (first : Option ℕ)
    (d : Disposition)
    → FirstOf handles signum l first
    → (if regulars handles signum l == 0 then caught else d) ≡ caught
    → Suits
        (watchers handles signum l)
        (regulars handles signum l)
        (left_by handles rem_oneshot first d)
left_by-Suits handles signum l rem_oneshot none d found kept =
    let no_regular : regulars handles signum l ≡ 0 =
      omega (arith, regulars-le handles signum l, found) in
    record { kept = rw no_regular refl; unwatched = rw found refl }
left_by-Suits handles signum l rem_oneshot (some f) d (there, kind) kept =
    let watched : (watchers handles signum l == 0) ≡ false = ground (arith, there) in
    elim (Bool-cases (handles f).one_shot) [
      | inl shot ↦
          let no_regular : regulars handles signum l ≡ 0 =
            ap
              (λ b.
                if b
                then regulars handles signum l
                else if regulars handles signum l == 0
                then 1
                else 0)
              (sym shot)
            ∙ kind in
          record { kept = rw no_regular refl; unwatched = rw watched refl }
      | inr regular ↦ rw regular (record { kept = kept; unwatched = rw watched refl })
    ]

-- More regular watchers than there are ask for no more.
pub kept-fewer :
    (fewer more : ℕ) (d : Disposition)
    → fewer ≤ more
    → (if more == 0 then caught else d) ≡ caught
    → (if fewer == 0 then caught else d) ≡ caught
kept-fewer fewer more d le kept = elim (Bool-cases (fewer == 0)) [
  | inl none_left ↦ rw none_left refl
  | inr some_left ↦
      let some_before : (more == 0) ≡ false = ground (arith, some_left) in
      rw some_left (ap (λ b. if b then caught else d) (sym some_before) ∙ kept)
]

pub Suits-counts :
    (all all' regular regular' : ℕ) (d : Disposition)
    → all ≡ all'
    → regular ≡ regular'
    → Suits all regular d
    → Suits all' regular' d
Suits-counts all all' regular regular' d e e' suits =
    subst (λ a. Suits a regular' d) e (subst (λ r. Suits all r d) e' suits)

module _ {ℓ} {T : Type ℓ} (tree : RbTree T) (s : Signals tree) (h : ℕ) (l : List ℕ)
    (m : List ℕ) where
  -- A started handle leaves the tree.
  module _ (valid : IsValid tree s) (started : ((s.handles h).signum == 0) ≡ false)
      (e : tree.entries s.started ≡ l ++ h ∷ m) where
    count : (g : ℕ) → occurs g (tree.entries s.started) ≡ one_if (h == g) + occurs g (l ++ m)
    count g = ap (occurs g) e ∙ occurs-middle g h l m

    fresh : occurs h (l ++ m) ≡ 0
    fresh =
        let here : one_if (h == h) ≡ 1 = ground arith in
        let one : occurs h (tree.entries s.started) ≡ 1 =
          valid.member h ∙ ap (λ b. if b then 0 else 1) started in
        omega (arith, count h, here, one)

    stopped-member :
        (g : ℕ)
        → occurs g (l ++ m)
          ≡ (if (update s.handles h (stopped (s.handles h)) g).signum == 0 then 0 else 1)
    stopped-member g = elim (Bool-cases (g == h)) [
      | inl here ↦ let same : g ≡ h = ground arith in rw (here, same) fresh
      | inr other ↦
          let apart : one_if (h == g) ≡ 0 = ground (arith, other) in
          rw (other, ← valid.member g) (omega (arith, count g, apart))
    ]

    stopped-active :
        (g : ℕ)
        → (update s.handles h (stopped (s.handles h)) g).is_active
          ≡ not ((update s.handles h (stopped (s.handles h)) g).signum == 0)
    stopped-active g = elim (Bool-cases (g == h)) [
      | inl here ↦ rw here refl
      | inr other ↦ rw other (valid.active g)
    ]

    stopped-Suits :
        (n : ℕ)
        → Sorted (key_of s.handles) (l ++ m)
        → Suits
            (watchers (update s.handles h (stopped (s.handles h))) n (l ++ m))
            (regulars (update s.handles h (stopped (s.handles h))) n (l ++ m))
            (update s.disposition
              (s.handles h).signum
              (left_by s.handles
                (s.handles h).one_shot
                (first_handle s.handles (s.handles h).signum (l ++ m))
                (s.disposition (s.handles h).signum))
              n)
    stopped-Suits n sorted =
        let w = s.handles h in
        let all = ap (watchers s.handles n) e ∙ watchers-middle s.handles n h l m in
        let regular = ap (regulars s.handles n) e ∙ regulars-middle s.handles n h l m in
        rw
          (
            watchers-update s.handles h (stopped w) n (l ++ m) fresh,
            regulars-update s.handles h (stopped w) n (l ++ m) fresh,
          )
          (elim (Bool-cases (n == w.signum)) [
            | inl here ↦
                let same : n ≡ w.signum = ground arith in
                let less : regulars s.handles w.signum (l ++ m)
                    ≤ regulars s.handles w.signum (tree.entries s.started) =
                  omega (
                    arith,
                    ap (regulars s.handles w.signum) e ∙ regulars-middle s.handles w.signum h l m,
                  ) in
                rw (here, same)
                  (left_by-Suits s.handles w.signum (l ++ m) w.one_shot
                    (first_handle s.handles w.signum (l ++ m)) (s.disposition w.signum)
                    (first_handle-FirstOf s.handles w.signum (l ++ m) sorted)
                    (kept-fewer (regulars s.handles w.signum (l ++ m))
                      (regulars s.handles w.signum (tree.entries s.started))
                      (s.disposition w.signum) less (valid.suits w.signum).kept))
            | inr other ↦
                let apart : one_if (w.signum == n) ≡ 0 = ground (arith, other) in
                rw other (
                  Suits-counts (watchers s.handles n (tree.entries s.started))
                    (watchers s.handles n (l ++ m)) (regulars s.handles n (tree.entries s.started))
                    (regulars s.handles n (l ++ m)) (s.disposition n) (omega (arith, all, apart))
                    (ground (arith, regular, apart)) (valid.suits n))
          ])

-- `uv__signal_stop` keeps the tree and the dispositions in agreement with the handles, and stops the
-- handle.
module _ {ℓ} {T : Type ℓ} (tree : RbTree T) where
  pub signal_stop-IsValid :
      (s : Signals tree) (h : ℕ)
      → IsValid tree s
      → IsValid tree (signal_stop tree s h) × (((signal_stop tree s h).handles h).signum ≡ 0)
  unfolding signal_stop
  signal_stop-IsValid s h valid = elim (Bool-cases ((s.handles h).signum == 0)) [
    | inl idle ↦ rw idle (valid, ground (arith, idle))
    | inr started ↦
        let inside : 0 < occurs h (tree.entries s.started) =
          subst (λ n. 0 < n) (sym (valid.member h ∙ ap (λ b. if b then 0 else 1) started))
            (omega arith) in
        let (l, m, e, gone) = occurs-split h (tree.entries s.started) inside in
        let k = key_of s.handles in
        let left =
          tree.remove-entries k h s.started l m valid.sorted (fresh tree s h l m valid started e)
            e in
        let sorted = Sorted-without k l m h (subst (Sorted k) e valid.sorted) in
        let here : (h == h) ≡ true = ground arith in
        rw started (
          record {
            sorted = rw left (
                Sorted-update s.handles h (stopped (s.handles h)) (l ++ m)
                  (fresh tree s h l m valid started e) sorted);
            member = λ g. rw left (stopped-member tree s h l m valid started e g);
            active = λ g. stopped-active tree s h l m valid started e g;
            suits = λ n. rw left (stopped-Suits tree s h l m valid started e n sorted);
          },
          rw here refl,
        )
  ]
