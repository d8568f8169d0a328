-- ===== src/Heap/Place.antt =====
-- src/heap-inl.h: the two ways to a place in the heap, by a path and by a node's address.
use native.Mathlib.Decide.{dec_lt}
use libuv.Prelude.{
  ℕ, zero, suc, ◌+◌, ◌*◌, ◌/◌, ◌%◌, ◌^◌, ◌≤◌, ◌<◌, ◌≡◌, refl, Bool, true, none, some, [], ◌∷◌,
  arith, inl, inr, ◌==◌, Bool-cases, one_if,
}
use libuv.Heap.{Tree, null, node, in_left, in_right, Context, path_to, descend, locate}
use libuv.Heap.Order.{Ordered, RootAbove, Fits}
use libuv.Heap.Count.{count, count_round}
use libuv.Heap.Shape.{walk, le-walk, path_to-walk, Full, FullRound}

module _ {A : Type 0} (less_than : A → A → Bool) where
  -- A subtree and its place make up a heap of `n` places in order, the subtree's at `p`.
  pub record IsPlace (n p : ℕ) (t : Tree A) (c : Context A) : Type 0 where
    pub ordered : Ordered less_than t
    pub above : RootAbove less_than t c
    pub fits : Fits less_than c
    pub full : Full t p n
    pub round : FullRound c p n

  -- The same nodes in both.
  abbrev pub SameNodes : Tree A → Context A → Tree A → Context A → Type 0
  SameNodes t c t' c' =
      (test : A → Bool) → count test t' + count_round test c' ≡ count test t + count_round test c

  IsPlace-left :
      (n p : ℕ) (l : Tree A) (x : A) (r : Tree A) (c : Context A)
      → 1 ≤ p
      → IsPlace n p (node l x r) c
      → IsPlace n (2 * p) l (in_left x r ∷ c)
  IsPlace-left n p null x r c pos h = record {
    ordered = tt;
    above = tt;
    fits = (h.ordered.1, h.ordered.3, h.above, h.fits);
    full = h.full.1;
    round = (p, refl, pos, h.full.0, h.full.2, h.round);
  }
  IsPlace-left n p (node a y b) x r c pos h = record {
    ordered = h.ordered.2;
    above = h.ordered.0;
    fits = (h.ordered.1, h.ordered.3, h.above, h.fits);
    full = h.full.1;
    round = (p, refl, pos, h.full.0, h.full.2, h.round);
  }

  IsPlace-right :
      (n p : ℕ) (l : Tree A) (x : A) (r : Tree A) (c : Context A)
      → 1 ≤ p
      → IsPlace n p (node l x r) c
      → IsPlace n (2 * p + 1) r (in_right l x ∷ c)
  IsPlace-right n p l x null c pos h = record {
    ordered = tt;
    above = tt;
    fits = (h.ordered.0, h.ordered.2, h.above, h.fits);
    full = h.full.2;
    round = (p, refl, pos, h.full.0, h.full.1, h.round);
  }
  IsPlace-right n p l x (node a y b) c pos h = record {
    ordered = h.ordered.3;
    above = h.ordered.1;
    fits = (h.ordered.0, h.ordered.2, h.above, h.fits);
    full = h.full.2;
    round = (p, refl, pos, h.full.0, h.full.1, h.round);
  }

  -- A path that leads to a place of the heap, or to the one behind its last, meets no null link.
  pub descend-IsPlace :
      (k path n p : ℕ) (t : Tree A) (c : Context A)
      → 1 ≤ p
      → walk k path p ≤ suc n
      → IsPlace n p t c
      → (t' : Tree A) × (c' : Context A) × (descend k path t c ≡ some (t', c'))
        × IsPlace n (walk k path p) t' c'
        × SameNodes t c t' c'
  unfolding descend walk
  descend-IsPlace zero path n p t c pos le h = (t, c, refl, h, λ test. refl)
  descend-IsPlace (suc k) path n p null c pos le h =
      absurd (omega (arith, le-walk k (path / 2) (2 * p + path % 2), h.full))
  descend-IsPlace (suc k) path n p (node l x r) c pos le h = elim (Bool-cases (path % 2 == 1)) [
    | inl odd ↦
        let bit : 2 * p + path % 2 ≡ 2 * p + 1 = ground arith in
        let (t', c', e, h', same) =
          descend-IsPlace k (path / 2) n (2 * p + 1) r (in_right l x ∷ c) (omega arith)
            (rw bit at le) (IsPlace-right n p l x r c pos h) in
        rw (odd, bit) (t', c', e, h', λ test. omega (arith, same test))
    | inr even ↦
        let bit : 2 * p + path % 2 ≡ 2 * p = ground arith in
        let (t', c', e, h', same) =
          descend-IsPlace k (path / 2) n (2 * p) l (in_left x r ∷ c) (omega arith) (rw bit at le)
            (IsPlace-left n p l x r c pos h) in
        rw (even, bit) (t', c', e, h', λ test. omega (arith, same test))
  ]

module _ {A : Type 0} (same : A → A → Bool) (x : A) where
  -- The nodes with that address.
  abbrev pub copies : Tree A → ℕ
  copies t = count (λ y. same y x) t

  locate-none : (t : Tree A) (c : Context A) → copies t ≡ 0 → locate same x t c ≡ none
  unfolding locate
  locate-none null c h = refl
  locate-none (node l y r) c h = elim (Bool-cases (same y x)) [
    | inl e ↦ absurd (let one : one_if (same y x) ≡ 1 = rw e refl in omega arith)
    | inr e ↦
        rw (e, locate-none l (in_left y r ∷ c) (omega arith))
          (locate-none r (in_right l y ∷ c) (omega arith))
  ]

  -- A node that the heap holds is found, at its place.
  pub locate-IsPlace :
      (less_than : A → A → Bool) (n p : ℕ) (t : Tree A) (c : Context A)
      → 1 ≤ p
      → 0 < copies t
      → IsPlace less_than n p t c
      → (l : Tree A) × (y : A) × (r : Tree A) × (c' : Context A) × (q : ℕ) × (locate same x t c
          ≡ some (node l y r, c'))
        × (same y x ≡ true)
        × (1 ≤ q)
        × IsPlace less_than n q (node l y r) c'
        × SameNodes less_than t c (node l y r) c'
  unfolding locate
  locate-IsPlace less_than n p null c pos h v = absurd (omega arith)
  locate-IsPlace less_than n p (node l y r) c pos h v = elim (Bool-cases (same y x)) [
    | inl e ↦ (l, y, r, c, p, rw e refl, e, pos, v, λ test. refl)
    | inr e ↦
        let none_here : one_if (same y x) ≡ 0 = rw e refl in
        elim (dec_lt 0 (copies l)) [
          | yes in_l ↦
              let (l', y', r', c', q, found, is, pos', v', all) =
                locate-IsPlace less_than n (2 * p) l (in_left y r ∷ c) (omega arith) in_l
                  (IsPlace-left less_than n p l y r c pos v) in
              (l', y', r', c', q, rw (e, found) refl, is, pos', v', λ test. omega (arith, all test))
          | no not_l ↦
              let (l', y', r', c', q, found, is, pos', v', all) =
                locate-IsPlace less_than n (2 * p + 1) r (in_right l y ∷ c) (omega arith)
                  (omega arith) (IsPlace-right less_than n p l y r c pos v) in
              (
                l',
                y',
                r',
                c',
                q,
                rw (e, locate-none l (in_left y r ∷ c) (omega arith), found) refl,
                is,
                pos',
                v',
                λ test. omega (arith, all test),
              )
        ]
  ]

module _ {A : Type 0} (less_than : A → A → Bool) (n : ℕ) (t : Tree A) where
  -- The path to `m` leads to the place `m` from the root.
  pub descend-path_to :
      (m : ℕ)
      → 1 ≤ m
      → m ≤ suc n
      → m < 2 ^ 32
      → IsPlace less_than n 1 t []
      → (t' : Tree A) × (c : Context A) × (descend (path_to m).1 (path_to m).0 t [] ≡ some (t', c))
        × IsPlace less_than n m t' c
        × SameNodes less_than t [] t' c
  descend-path_to m pos le small v =
      let there = path_to-walk m pos small in
      rw there at (
        descend-IsPlace less_than (path_to m).1 (path_to m).0 n 1 t [] (omega arith) (rw there le)
          v)
