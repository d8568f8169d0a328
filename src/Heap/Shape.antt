-- ===== src/Heap/Shape.antt =====
-- src/heap-inl.h: the shape of the heap, a binary tree whose rows are filled from the left.
-- The places are numbered row by row from 1, so that the children of `p` are `2 * p` and
-- `2 * p + 1`. A heap of `n` nodes holds the places up to `n`.
use native.Mathlib.Nat.{pow-suc}
use libuv.Prelude.{
  ℕ, zero, suc, ◌+◌, ◌*◌, ◌/◌, ◌%◌, ◌^◌, ◌≤◌, ◌<◌, ◌≡◌, refl, ◌∙◌, [], ◌∷◌, arith, inl, inr, leb,
  Bool-cases,
}
use libuv.Heap.{Tree, null, node, in_left, in_right, Context, plug, u32, path_loop, path_to}

-- The place reached from `p` by the `k` turns of a path.
unfoldable pub walk : ℕ → ℕ → ℕ → ℕ
walk zero path p = p
walk (suc k) path p = walk k (path / 2) (2 * p + path % 2)

pub le-walk : (k path p : ℕ) → p ≤ walk k path p
unfolding walk
le-walk zero path p = omega arith
le-walk (suc k) path p = omega (arith, le-walk k (path / 2) (2 * p + path % 2))

mul_mono : (a b c : ℕ) → a ≤ b → a * c ≤ b * c
mul_mono a b c h = grind arith

bits_fit : (path n : ℕ) → 2 ≤ n → (path * 2 + n % 2 + 1) * (n / 2) ≤ (path + 1) * n
bits_fit path n two = omega (
  arith,
  mul_mono (path * 2 + n % 2 + 1) ((path + 1) * 2) (n / 2) (omega arith),
  mul_mono (n / 2 * 2) n (path + 1) (omega arith),
)

path_small : (path n : ℕ) → 2 ≤ n → path * 2 + n % 2 < (path + 1) * n
path_small path n two = omega (arith, mul_mono 2 n (path + 1) two)

-- Pushing the lowest bit of `n` makes up for halving it.
walk-push : (k path n : ℕ) → walk (suc k) (path * 2 + n % 2) (n / 2) ≡ walk k path n
unfolding walk
walk-push k path n =
    let low : (path * 2 + n % 2) / 2 ≡ path = omega arith in
    let high : 2 * (n / 2) + (path * 2 + n % 2) % 2 ≡ n = omega arith in rw (low, high) refl

path_loop-walk :
    (fuel path k n : ℕ)
    → 1 ≤ n
    → n < 2 ^ fuel
    → k + fuel ≤ 32
    → (path + 1) * n < 2 ^ 32
    → let (path', k') = path_loop fuel path k n in walk k' path' 1 ≡ walk k path n
unfolding path_loop
path_loop-walk zero path k n pos h b f = absurd (omega arith)
path_loop-walk (suc fuel) path k n pos h b f = elim (Bool-cases (leb 2 n)) [
  | inl more ↦
      let two : 2 ≤ n = ground arith in
      let path' : u32 (path * 2 + n % 2) ≡ path * 2 + n % 2 =
        omega (arith, path_small path n two) in
      let k' : u32 (k + 1) ≡ suc k = omega arith in
      rw (more, path', k')
        (path_loop-walk fuel (path * 2 + n % 2) (suc k) (n / 2) (omega arith)
            (omega (arith, pow-suc 2 fuel)) (omega arith) (omega (arith, bits_fit path n two))
          ∙ walk-push k path n)
  | inr done ↦ let one : 1 ≡ n = ground arith in rw (done, ← one) refl
]

-- The path to `n` leads from the root to the place `n`.
pub path_to-walk : (n : ℕ) → 1 ≤ n → n < 2 ^ 32 → walk (path_to n).1 (path_to n).0 1 ≡ n
unfolding path_to walk
path_to-walk n pos h = path_loop-walk 32 0 0 n pos h (omega arith) (omega arith)

module _ {A : Type 0} where
  -- The subtree at `p` holds exactly the places up to `n` that are below `p`.
  abbrev pub Full : Tree A → ℕ → ℕ → Type 0
  Full null p n = n < p
  Full (node l x r) p n = (p ≤ n) × Full l (2 * p) n × Full r (2 * p + 1) n

  -- So does all that lies outside the hole at `p`.
  abbrev pub FullRound : Context A → ℕ → ℕ → Type 0
  FullRound [] p n = p ≡ 1
  FullRound (in_left y s ∷ c) p n =
      (q : ℕ) × (p ≡ 2 * q) × (1 ≤ q) × (q ≤ n) × Full s (2 * q + 1) n × FullRound c q n
  FullRound (in_right s y ∷ c) p n =
      (q : ℕ) × (p ≡ 2 * q + 1) × (1 ≤ q) × (q ≤ n) × Full s (2 * q) n × FullRound c q n

  pub plug-Full :
      (t : Tree A) (c : Context A) (p n : ℕ) → Full t p n → FullRound c p n → Full (plug t c) 1 n
  unfolding plug
  plug-Full t [] p n f e = rw e at f
  plug-Full t (in_left y s ∷ c) p n f (q, e, pos, le, g, rest) =
      plug-Full (node t y s) c q n (le, (rw e at f), g) rest
  plug-Full t (in_right s y ∷ c) p n f (q, e, pos, le, g, rest) =
      plug-Full (node s y t) c q n (le, g, (rw e at f)) rest
