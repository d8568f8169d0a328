-- ===== src/Heap/Order.antt =====
-- src/heap-inl.h: the heap order, and the loops that restore it.
use libuv.Prelude.{◌≡◌, refl, Bool, true, false, [], ◌∷◌, inl, inr, Bool-cases}
use libuv.Heap.Cases.{Side-cases}
use libuv.Heap.{
  Tree, null, node, in_left, in_right, Context, Side, here, at_left, at_right, plug, sift_up,
  sift_down, smallest, or_left, or_right,
}

-- What `heap_compare_fn` promises: `less_than` is a strict order on the payloads, and two that
-- are not in order either way stand in the same order to every other.
pub record IsOrder {A : Type 0} (less_than : A → A → Bool) : Type 0 where
  pub asym : (a b : A) → less_than a b ≡ true → less_than b a ≡ false
  pub le_trans : (a b c : A) → less_than b a ≡ false → less_than c b ≡ false → less_than c a ≡ false

module _ {A : Type 0} (less_than : A → A → Bool) where
  -- `a` may stand above `b`.
  abbrev pub Le : A → A → Type 0
  Le a b = less_than b a ≡ false

  abbrev pub RootLe : A → Tree A → Type 0
  RootLe y null = Unit
  RootLe y (node l x r) = Le y x

  -- No node is less than its parent.
  abbrev pub Ordered : Tree A → Type 0
  Ordered null = Unit
  Ordered (node l x r) = RootLe x l × RootLe x r × Ordered l × Ordered r

  -- The parent that encloses the hole may stand above `x`.
  abbrev pub Above : A → Context A → Type 0
  Above x [] = Unit
  Above x (in_left y s ∷ c) = Le y x
  Above x (in_right s y ∷ c) = Le y x

  abbrev pub RootAbove : Tree A → Context A → Type 0
  RootAbove null c = Unit
  RootAbove (node l x r) c = Above x c

  -- Everything outside the hole is in order.
  abbrev pub Fits : Context A → Type 0
  Fits [] = Unit
  Fits (in_left y s ∷ c) = RootLe y s × Ordered s × Above y c × Fits c
  Fits (in_right s y ∷ c) = RootLe y s × Ordered s × Above y c × Fits c

  -- The subtrees of the root are in order, and may stand where the root stands.
  abbrev pub Below : Tree A → Context A → Type 0
  Below null c = Unit
  Below (node l x r) c = Ordered l × Ordered r × RootAbove l c × RootAbove r c

  pub plug-Ordered :
      (t : Tree A) (c : Context A) → Ordered t → RootAbove t c → Fits c → Ordered (plug t c)
  unfolding plug
  plug-Ordered t [] o a f = o
  plug-Ordered null (in_left y s ∷ c) o a f =
      plug-Ordered (node null y s) c (tt, f.0, tt, f.1) f.2 f.3
  plug-Ordered (node l x r) (in_left y s ∷ c) o a f =
      plug-Ordered (node (node l x r) y s) c (a, f.0, o, f.1) f.2 f.3
  plug-Ordered null (in_right s y ∷ c) o a f =
      plug-Ordered (node s y null) c (f.0, tt, f.1, tt) f.2 f.3
  plug-Ordered (node l x r) (in_right s y ∷ c) o a f =
      plug-Ordered (node s y (node l x r)) c (f.0, a, f.1, o) f.2 f.3

module _ {A : Type 0} (less_than : A → A → Bool) (order : IsOrder less_than) where
  RootLe-trans :
      (a b : A) (t : Tree A) → Le less_than a b → RootLe less_than b t → RootLe less_than a t
  RootLe-trans a b null h k = tt
  RootLe-trans a b (node l x r) h k = order.le_trans a b x h k

  pub RootAbove-of-RootLe :
      (y : A) (t : Tree A) (c : Context A)
      → Above less_than y c
      → RootLe less_than y t
      → RootAbove less_than t c
  RootAbove-of-RootLe y null c a h = tt
  RootAbove-of-RootLe y (node l x r) [] a h = tt
  RootAbove-of-RootLe y (node l x r) (in_left z s ∷ c) a h = order.le_trans z y x a h
  RootAbove-of-RootLe y (node l x r) (in_right s z ∷ c) a h = order.le_trans z y x a h

  RootAbove-in_left :
      (y : A) (s t : Tree A) (c : Context A)
      → RootAbove less_than t (in_left y s ∷ c)
      → RootLe less_than y t
  RootAbove-in_left y s null c h = tt
  RootAbove-in_left y s (node l x r) c h = h

  RootAbove-in_right :
      (y : A) (s t : Tree A) (c : Context A)
      → RootAbove less_than t (in_right s y ∷ c)
      → RootLe less_than y t
  RootAbove-in_right y s null c h = tt
  RootAbove-in_right y s (node l x r) c h = h

  pub sift_up-Ordered :
      (l : Tree A) (x : A) (r : Tree A) (c : Context A)
      → Ordered less_than (node l x r)
      → RootAbove less_than l c
      → RootAbove less_than r c
      → Fits less_than c
      → Ordered less_than (sift_up less_than l x r c)
  unfolding sift_up
  sift_up-Ordered l x r [] o al ar f = o
  sift_up-Ordered l x r (in_left y s ∷ c) o al ar f = elim (Bool-cases (less_than x y)) [
    | inl lt ↦ rw lt (
        sift_up-Ordered (node l y r) x s c
          (
            order.asym x y lt,
            RootLe-trans x y s (order.asym x y lt) f.0,
            (RootAbove-in_left y s l c al, RootAbove-in_left y s r c ar, o.2, o.3),
            f.1,
          )
          f.2 (RootAbove-of-RootLe y s c f.2 f.0) f.3)
    | inr ge ↦ rw ge (plug-Ordered less_than (node l x r) (in_left y s ∷ c) o ge f)
  ]
  sift_up-Ordered l x r (in_right s y ∷ c) o al ar f = elim (Bool-cases (less_than x y)) [
    | inl lt ↦ rw lt (
        sift_up-Ordered s x (node l y r) c
          (
            RootLe-trans x y s (order.asym x y lt) f.0,
            order.asym x y lt,
            f.1,
            (RootAbove-in_right y s l c al, RootAbove-in_right y s r c ar, o.2, o.3),
          )
          (RootAbove-of-RootLe y s c f.2 f.0) f.2 f.3)
    | inr ge ↦ rw ge (plug-Ordered less_than (node l x r) (in_right s y ∷ c) o ge f)
  ]

  -- The side that `smallest` names holds a payload that may stand above the others.
  abbrev Smallest : Tree A → A → Tree A → Side × A → Type 0
  Smallest l x r (here, m) = RootLe less_than x l × RootLe less_than x r
  Smallest null x r (at_left, m) = ⊥
  Smallest (node ll y lr) x r (at_left, m) = (m ≡ y) × Le less_than y x × RootLe less_than y r
  Smallest l x null (at_right, m) = ⊥
  Smallest l x (node rl z rr) (at_right, m) = (m ≡ z) × Le less_than z x × RootLe less_than z l

  smallest-Smallest : (l : Tree A) (x : A) (r : Tree A) → Smallest l x r (smallest less_than l x r)
  unfolding smallest or_left or_right
  smallest-Smallest null x null = (tt, tt)
  smallest-Smallest null x (node rl z rr) = elim (Bool-cases (less_than z x)) [
    | inl lt ↦ rw lt (refl, order.asym z x lt, tt)
    | inr ge ↦ rw ge (tt, ge)
  ]
  smallest-Smallest (node ll y lr) x null = elim (Bool-cases (less_than y x)) [
    | inl lt ↦ rw lt (refl, order.asym y x lt, tt)
    | inr ge ↦ rw ge (ge, tt)
  ]
  smallest-Smallest (node ll y lr) x (node rl z rr) = elim (Bool-cases (less_than y x)) [
    | inl yx ↦ elim (Bool-cases (less_than z y)) [
      | inl zy ↦
          rw (yx, zy)
            (refl, order.le_trans z y x (order.asym z y zy) (order.asym y x yx), order.asym z y zy)
      | inr yz ↦ rw (yx, yz) (refl, order.asym y x yx, yz)
    ]
    | inr xy ↦ elim (Bool-cases (less_than z x)) [
      | inl zx ↦ rw (xy, zx) (refl, order.asym z x zx, order.le_trans z x y (order.asym z x zx) xy)
      | inr xz ↦ rw (xy, xz) (xy, xz)
    ]
  ]

  left_step :
      (l : Tree A) (x : A) (r : Tree A) (m : A) (c : Context A)
      → Smallest l x r (at_left, m)
      → Ordered less_than l
      → Ordered less_than r
      → RootAbove less_than l c
      → Fits less_than c
      → Below less_than l (in_left m r ∷ c) × Fits less_than (in_left m r ∷ c)
  left_step null x r m c h ol or al f = absurd h
  left_step (node ll y lr) x r m c (e, h, k) ol or al f =
      rw e ((ol.2, ol.3, below ll ol.0, below lr ol.1), (k, or, al, f))
    where
      below : (t : Tree A) → RootLe less_than y t → RootAbove less_than t (in_left y r ∷ c)
      below null p = tt
      below (node a b d) p = p

  right_step :
      (l : Tree A) (x : A) (r : Tree A) (m : A) (c : Context A)
      → Smallest l x r (at_right, m)
      → Ordered less_than l
      → Ordered less_than r
      → RootAbove less_than r c
      → Fits less_than c
      → Below less_than r (in_right l m ∷ c) × Fits less_than (in_right l m ∷ c)
  right_step l x null m c h ol or ar f = absurd (no_right l h)
    where
      no_right : (t : Tree A) → Smallest t x null (at_right, m) → ⊥
      no_right null p = p
      no_right (node a b d) p = p
  right_step l x (node rl z rr) m c h ol or ar f =
      rw (facts l h).0 ((or.2, or.3, below rl or.0, below rr or.1), ((facts l h).2, ol, ar, f))
    where
      facts :
          (t : Tree A)
          → Smallest t x (node rl z rr) (at_right, m)
          → (m ≡ z) × Le less_than z x × RootLe less_than z t
      facts null p = p
      facts (node a b d) p = p

      below : (t : Tree A) → RootLe less_than z t → RootAbove less_than t (in_right l z ∷ c)
      below null p = tt
      below (node a b d) p = p

  pub sift_down-Ordered :
      (t : Tree A) (x : A) (c : Context A)
      → Below less_than t c
      → Fits less_than c
      → Ordered less_than (sift_down less_than t x c)
  unfolding sift_down
  sift_down-Ordered null x c b f = sift_up-Ordered null x null c (tt, tt, tt, tt) tt tt f
  sift_down-Ordered (node l _ r) x c b f = elim (Side-cases (smallest less_than l x r)) [
    | inl e ↦
        let s = rw e at (smallest-Smallest l x r) in
        rw (e, sift_down) (sift_up-Ordered l x r c (s.0, s.1, b.0, b.1) b.2 b.3 f)
    | inr (inl e) ↦
        let s = rw e at (smallest-Smallest l x r) in
        let (b', f') = left_step l x r _ c s b.0 b.1 b.2 f in
        rw (e, sift_down) (sift_down-Ordered l x (in_left (smallest less_than l x r).1 r ∷ c) b' f')
    | inr (inr e) ↦
        let s = rw e at (smallest-Smallest l x r) in
        let (b', f') = right_step l x r _ c s b.0 b.1 b.3 f in
        rw (e, sift_down)
          (sift_down-Ordered r x (in_right l (smallest less_than l x r).1 ∷ c) b' f')
  ]
