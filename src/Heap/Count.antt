-- ===== src/Heap/Count.antt =====
-- src/heap-inl.h: which nodes a heap holds, as the number of them that pass any given test.
use libuv.Prelude.{ℕ, ◌+◌, ◌≡◌, Bool, [], ◌∷◌, arith, inl, inr, Bool-cases, one_if}
use libuv.Heap.Cases.{Side-cases}
use libuv.Heap.{
  Tree, null, node, in_left, in_right, Context, Side, here, at_left, at_right, plug, sift_up,
  sift_down, smallest, or_left, or_right,
}

module _ {A : Type 0} (p : A → Bool) where
  abbrev pub count : Tree A → ℕ
  count null = 0
  count (node l x r) = count l + one_if (p x) + count r

  -- Those outside the hole.
  abbrev pub count_round : Context A → ℕ
  count_round [] = 0
  count_round (in_left y s ∷ c) = one_if (p y) + count s + count_round c
  count_round (in_right s y ∷ c) = one_if (p y) + count s + count_round c

  pub count-plug : (t : Tree A) (c : Context A) → count (plug t c) ≡ count t + count_round c
  unfolding plug
  count-plug t [] = omega arith
  count-plug t (in_left y s ∷ c) = omega (arith, count-plug (node t y s) c)
  count-plug t (in_right s y ∷ c) = omega (arith, count-plug (node s y t) c)

  module _ (less_than : A → A → Bool) where
    pub count-sift_up :
        (l : Tree A) (x : A) (r : Tree A) (c : Context A)
        → count (sift_up less_than l x r c) ≡ count (node l x r) + count_round c
    unfolding sift_up
    count-sift_up l x r [] = omega arith
    count-sift_up l x r (in_left y s ∷ c) = elim (Bool-cases (less_than x y)) [
      | inl lt ↦ rw lt (omega (arith, count-sift_up (node l y r) x s c))
      | inr ge ↦ rw ge (count-plug (node l x r) (in_left y s ∷ c))
    ]
    count-sift_up l x r (in_right s y ∷ c) = elim (Bool-cases (less_than x y)) [
      | inl lt ↦ rw lt (omega (arith, count-sift_up s x (node l y r) c))
      | inr ge ↦ rw ge (count-plug (node l x r) (in_right s y ∷ c))
    ]

    -- The nodes below the root, whose own payload `sift_down` replaces.
    abbrev pub count_below : Tree A → ℕ
    count_below null = 0
    count_below (node l x r) = count l + count r

    -- The walk down trades places, so that the payload beside the smaller child is its own.
    Trades : Tree A → Tree A → Side × A → Type 0
    Trades l r (here, m) = Unit
    Trades l r (at_left, m) = count l ≡ count_below l + one_if (p m)
    Trades l r (at_right, m) = count r ≡ count_below r + one_if (p m)

    smallest-Trades : (l : Tree A) (x : A) (r : Tree A) → Trades l r (smallest less_than l x r)
    unfolding smallest or_left or_right Trades
    smallest-Trades null x null = tt
    smallest-Trades null x (node rl z rr) = elim (Bool-cases (less_than z x)) [
      | inl lt ↦ rw lt (omega arith)
      | inr ge ↦ rw ge tt
    ]
    smallest-Trades (node ll y lr) x null = elim (Bool-cases (less_than y x)) [
      | inl lt ↦ rw lt (omega arith)
      | inr ge ↦ rw ge tt
    ]
    smallest-Trades (node ll y lr) x (node rl z rr) = elim (Bool-cases (less_than y x)) [
      | inl yx ↦ elim (Bool-cases (less_than z y)) [
        | inl zy ↦ rw (yx, zy) (omega arith)
        | inr yz ↦ rw (yx, yz) (omega arith)
      ]
      | inr xy ↦ elim (Bool-cases (less_than z x)) [
        | inl zx ↦ rw (xy, zx) (omega arith)
        | inr xz ↦ rw (xy, xz) tt
      ]
    ]

    pub count-sift_down :
        (t : Tree A) (x : A) (c : Context A)
        → count (sift_down less_than t x c) ≡ count_below t + one_if (p x) + count_round c
    unfolding sift_down Trades
    count-sift_down null x c = omega (arith, count-sift_up null x null c)
    count-sift_down (node l _ r) x c = elim (Side-cases (smallest less_than l x r)) [
      | inl e ↦ rw (e, sift_down) (omega (arith, count-sift_up l x r c))
      | inr (inl e) ↦
          let y = (smallest less_than l x r).1 in
          let s : count l ≡ count_below l + one_if (p y) = rw e at (smallest-Trades l x r) in
          rw (e, sift_down) (omega (arith, count-sift_down l x (in_left y r ∷ c), s))
      | inr (inr e) ↦
          let y = (smallest less_than l x r).1 in
          let s : count r ≡ count_below r + one_if (p y) = rw e at (smallest-Trades l x r) in
          rw (e, sift_down) (omega (arith, count-sift_down r x (in_right l y ∷ c), s))
    ]
