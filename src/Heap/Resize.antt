-- ===== src/Heap/Resize.antt =====
-- src/heap-inl.h: the shape is kept by the walks, and grows or shrinks at the last place alone.
use libuv.Prelude.{
  ℕ, zero, suc, ◌+◌, ◌*◌, ◌/◌, ◌≤◌, ◌<◌, ◌≡◌, ◌≢◌, refl, sym, ◌∙◌, ap, Bool, [], ◌∷◌, arith, inl,
  inr, Bool-cases,
}
use native.Mathlib.Decide.{dec_lt}
use libuv.Heap.Cases.{Side-cases}
use libuv.Heap.{
  Tree, null, node, in_left, in_right, Context, Side, here, at_left, at_right, sift_up, sift_down,
  smallest, or_left, or_right,
}
use libuv.Heap.Shape.{Full, FullRound, plug-Full}

module _ {A : Type 0} (less_than : A → A → Bool) where
  pub sift_up-Full :
      (l : Tree A) (x : A) (r : Tree A) (c : Context A) (p n : ℕ)
      → Full (node l x r) p n
      → FullRound c p n
      → Full (sift_up less_than l x r c) 1 n
  unfolding sift_up
  sift_up-Full l x r [] p n f e = rw e at f
  sift_up-Full l x r (in_left y s ∷ c) p n f (q, e, pos, le, g, rest) =
      elim (Bool-cases (less_than x y)) [
        | inl lt ↦ rw lt (sift_up-Full (node l y r) x s c q n (le, (rw e at f), g) rest)
        | inr ge ↦ rw ge (plug-Full (node l x r) (in_left y s ∷ c) p n f (q, e, pos, le, g, rest))
      ]
  sift_up-Full l x r (in_right s y ∷ c) p n f (q, e, pos, le, g, rest) =
      elim (Bool-cases (less_than x y)) [
        | inl lt ↦ rw lt (sift_up-Full s x (node l y r) c q n (le, g, (rw e at f)) rest)
        | inr ge ↦ rw ge (plug-Full (node l x r) (in_right s y ∷ c) p n f (q, e, pos, le, g, rest))
      ]

  abbrev IsNode : Tree A → Type 0
  IsNode null = ⊥
  IsNode (node l x r) = Unit

  -- `smallest` points at a node.
  abbrev Present : Tree A → Tree A → Side × A → Type 0
  Present l r (here, m) = Unit
  Present l r (at_left, m) = IsNode l
  Present l r (at_right, m) = IsNode r

  smallest-Present : (l : Tree A) (x : A) (r : Tree A) → Present l r (smallest less_than l x r)
  unfolding smallest or_left or_right
  smallest-Present null x null = tt
  smallest-Present null x (node rl z rr) = elim (Bool-cases (less_than z x)) [
    | inl lt ↦ rw lt tt
    | inr ge ↦ rw ge tt
  ]
  smallest-Present (node ll y lr) x null = elim (Bool-cases (less_than y x)) [
    | inl lt ↦ rw lt tt
    | inr ge ↦ rw ge tt
  ]
  smallest-Present (node ll y lr) x (node rl z rr) =
      elim (Bool-cases (less_than z (or_left less_than (node ll y lr) x).1)) [
        | inl lt ↦ rw lt tt
        | inr ge ↦ elim (Bool-cases (less_than y x)) [
          | inl yx ↦ rw (ge, yx) tt
          | inr xy ↦ rw (ge, xy) tt
        ]
      ]

  Full-node : (t : Tree A) (p n : ℕ) → IsNode t → Full t p n → p ≤ n
  Full-node null p n h f = absurd h
  Full-node (node l x r) p n h f = f.0

  pub sift_down-Full :
      (t : Tree A) (x : A) (c : Context A) (p n : ℕ)
      → p ≤ n
      → 1 ≤ p
      → Full t p n
      → FullRound c p n
      → Full (sift_down less_than t x c) 1 n
  unfolding sift_down
  sift_down-Full null x c p n le pos f g = absurd (omega arith)
  sift_down-Full (node l _ r) x c p n le pos f g = elim (Side-cases (smallest less_than l x r)) [
    | inl e ↦ rw (e, sift_down) (sift_up-Full l x r c p n f g)
    | inr (inl e) ↦
        let there : IsNode l = rw e at (smallest-Present l x r) in
        let y = (smallest less_than l x r).1 in
        rw (e, sift_down)
          (sift_down-Full l x (in_left y r ∷ c) (2 * p) n (Full-node l (2 * p) n there f.1)
            (omega arith) f.1 (p, refl, pos, le, f.2, g))
    | inr (inr e) ↦
        let there : IsNode r = rw e at (smallest-Present l x r) in
        let y = (smallest less_than l x r).1 in
        rw (e, sift_down)
          (sift_down-Full r x (in_right l y ∷ c) (2 * p + 1) n (Full-node r (2 * p + 1) n there f.2)
            (omega arith) f.2 (p, refl, pos, le, f.1, g))
  ]

-- The place `i` rows above `m`.
ancestor : ℕ → ℕ → ℕ
ancestor zero m = m
ancestor (suc i) m = ancestor i m / 2

ancestor-le : (i j m : ℕ) → i < j → ancestor j m ≤ ancestor i m / 2
unfolding ancestor
ancestor-le i zero m h = absurd (omega arith)
ancestor-le i (suc j) m h = elim (dec_lt i j) [
  | yes lt ↦ omega (arith, ancestor-le i j m lt)
  | no ge ↦ let e : i ≡ j = omega arith in rw e (omega arith)
]

-- `q` is not on the path to `m`.
abbrev Off : ℕ → ℕ → Type 0
Off q m = (i : ℕ) → ancestor i m ≢ q

-- Nor is a child of it.
Off-child : (q p m : ℕ) → p / 2 ≡ q → Off q m → Off p m
unfolding ancestor
Off-child q p m e off i h = off (suc i) (ap (λ (t : ℕ). t / 2) h ∙ e)

-- The other child of a place on the path is off it.
sibling-Off :
    (j p q m : ℕ) → ancestor j m ≡ p → 1 ≤ q → p / 2 ≡ q / 2 → p ≢ q → 2 ≤ p → 2 ≤ q → Off q m
sibling-Off j p q m e pos half ne p2 q2 i h = elim (dec_lt i j) [
  | yes lt ↦ omega (arith, ancestor-le i j m lt)
  | no ge ↦ elim (dec_lt j i) [
    | yes lt ↦ omega (arith, ancestor-le j i m lt)
    | no ge' ↦ let same : i ≡ j = omega arith in ne (sym e ∙ ap (λ k. ancestor k m) (sym same) ∙ h)
  ]
]

-- The places up to `n` and up to `n'` are the same but for `m`.
abbrev Agree : ℕ → ℕ → ℕ → Type 0
Agree m n n' = (p : ℕ) → p ≢ m → (p ≤ n → p ≤ n') × (n < p → n' < p)

module _ {A : Type 0} (m n n' : ℕ) (agree : Agree m n n') where
  Full-Off : (t : Tree A) (q : ℕ) → Off q m → Full t q n → Full t q n'
  unfolding ancestor
  Full-Off null q off f = (agree q (λ e. off 0 (sym e))).1 f
  Full-Off (node l x r) q off f = (
    (agree q (λ e. off 0 (sym e))).0 f.0,
    Full-Off l (2 * q) (Off-child q (2 * q) m (omega arith) off) f.1,
    Full-Off r (2 * q + 1) (Off-child q (2 * q + 1) m (omega arith) off) f.2,
  )

  -- `q` is on the path to `m`, strictly above it.
  FullRound-on :
      (c : Context A) (j p : ℕ) → ancestor j m ≡ p → p ≤ m → FullRound c p n → FullRound c p n'
  unfolding ancestor
  FullRound-on [] j p e le f = f
  FullRound-on (in_left y s ∷ c) j p e le (q, d, pos, small, g, rest) =
      let up : ancestor (suc j) m ≡ q = omega arith in
      (
        q,
        d,
        pos,
        (agree q (λ t. omega arith)).0 small,
        Full-Off s (2 * q + 1)
            (sibling-Off j p (2 * q + 1) m e (omega arith) (omega arith) (omega arith) (omega arith)
              (omega arith))
            g,
        FullRound-on c (suc j) q up (omega arith) rest,
      )
  FullRound-on (in_right s y ∷ c) j p e le (q, d, pos, small, g, rest) =
      let up : ancestor (suc j) m ≡ q = omega arith in
      (
        q,
        d,
        pos,
        (agree q (λ t. omega arith)).0 small,
        Full-Off s (2 * q)
            (sibling-Off j p (2 * q) m e (omega arith) (omega arith) (omega arith) (omega arith)
              (omega arith))
            g,
        FullRound-on c (suc j) q up (omega arith) rest,
      )

-- With its last place filled, a heap of `n` places is one of `n + 1`.
pub FullRound-grow :
    {A : Type 0} (c : Context A) (n : ℕ) → FullRound c (suc n) n → FullRound c (suc n) (suc n)
unfolding ancestor
FullRound-grow c n f =
    FullRound-on (suc n) n (suc n) (λ p ne. (λ h. omega arith, λ h. omega arith)) c 0 (suc n) refl
      (omega arith) f

-- With its last place emptied, a heap of `n + 1` places is one of `n`.
pub FullRound-shrink :
    {A : Type 0} (c : Context A) (n : ℕ) → FullRound c (suc n) (suc n) → FullRound c (suc n) n
unfolding ancestor
FullRound-shrink c n f =
    FullRound-on (suc n) (suc n) n (λ p ne. (λ h. omega arith, λ h. omega arith)) c 0 (suc n) refl
      (omega arith) f
