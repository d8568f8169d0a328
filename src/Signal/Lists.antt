-- ===== src/Signal/Lists.antt =====
-- include/uv/tree.h: a sorted list does what src/unix/signal.c uses of the tree.
use libuv.Prelude.{
  ℕ, ◌≤◌, ◌≡◌, refl, sym, ap, ◌∙◌, inl, inr, true, false, List, [], ◌∷◌, ◌++◌, ltb, ◌==◌,
  if◌then◌else◌, All, Bool-cases, arith,
}
use libuv.Queue.{erase, occurs}
use libuv.Queue.Moves.{occurs-two}
use libuv.Signal.{Key, Cmp, same, cmp_nat, flag, signal_compare, is_before, is_less, Sorted}
use libuv.Signal.Tree.{RbTree}

cmp_nat-le : (a b : ℕ) (x : Cmp) → is_before (cmp_nat b a x) ≡ false → a ≤ b
cmp_nat-le a b x e = elim (Bool-cases (ltb b a)) [
  | inl lt ↦ let is : is_before (cmp_nat b a x) ≡ true = rw lt refl in absurd cc
  | inr ge ↦ ground (arith, ge)
]

cmp_nat-same : (a b : ℕ) (x : Cmp) → a ≡ b → cmp_nat a b x ≡ x
cmp_nat-same a b x e =
    let one : ltb a b ≡ false = ground (arith, e) in
    let two : ltb b a ≡ false = ground (arith, e) in rw (one, two) refl

cmp_nat_trans :
    (a b c : ℕ) (x y z : Cmp)
    → (is_before x ≡ false → is_before y ≡ false → is_before z ≡ false)
    → is_before (cmp_nat b a x) ≡ false
    → is_before (cmp_nat c b y) ≡ false
    → is_before (cmp_nat c a z) ≡ false
cmp_nat_trans a b c x y z rest first second =
    let low = cmp_nat-le a b x first in
    let high = cmp_nat-le b c y second in
    let not_below : ltb c a ≡ false = ground (arith, low, high) in
    elim (Bool-cases (ltb a c)) [
      | inl above ↦ rw (not_below, above) refl
      | inr level ↦
          let ba : a ≡ b = ground (arith, low, high, level) in
          let cb : b ≡ c = ground (arith, low, high, level) in
          rw (not_below, level)
            (rest (ap is_before (sym (cmp_nat-same b a x (sym ba))) ∙ first)
              (ap is_before (sym (cmp_nat-same c b y (sym cb))) ∙ second))
    ]

not_less_trans : (a b c : Key) → is_less b a ≡ false → is_less c b ≡ false → is_less c a ≡ false
unfolding signal_compare
not_less_trans a b c first second =
    cmp_nat_trans a.signum b.signum c.signum
      (cmp_nat (flag b.one_shot) (flag a.one_shot)
        (cmp_nat b.loop a.loop (cmp_nat b.address a.address same)))
      (cmp_nat (flag c.one_shot) (flag b.one_shot)
        (cmp_nat c.loop b.loop (cmp_nat c.address b.address same)))
      (cmp_nat (flag c.one_shot) (flag a.one_shot)
        (cmp_nat c.loop a.loop (cmp_nat c.address a.address same)))
      (cmp_nat_trans (flag a.one_shot) (flag b.one_shot) (flag c.one_shot)
        (cmp_nat b.loop a.loop (cmp_nat b.address a.address same))
        (cmp_nat c.loop b.loop (cmp_nat c.address b.address same))
        (cmp_nat c.loop a.loop (cmp_nat c.address a.address same))
        (cmp_nat_trans a.loop b.loop c.loop (cmp_nat b.address a.address same)
          (cmp_nat c.address b.address same) (cmp_nat c.address a.address same)
          (cmp_nat_trans a.address b.address c.address same same same (λ e e'. refl))))
      first second

cmp_nat_asym :
    (a b : ℕ) (x y : Cmp)
    → (is_before x ≡ true → is_before y ≡ false)
    → is_before (cmp_nat a b x) ≡ true
    → is_before (cmp_nat b a y) ≡ false
cmp_nat_asym a b x y rest e = elim (Bool-cases (ltb a b)) [
  | inl lt ↦ let not_above : ltb b a ≡ false = ground (arith, lt) in rw (not_above, lt) refl
  | inr ge ↦ elim (Bool-cases (ltb b a)) [
    | inl gt ↦ let isnt : is_before (cmp_nat a b x) ≡ false = rw (ge, gt) refl in absurd cc
    | inr le ↦
        let level : a ≡ b = ground (arith, ge, le) in
        rw (le, ge) (rest (ap is_before (sym (cmp_nat-same a b x level)) ∙ e))
  ]
]

not_less_asym : (a b : Key) → is_less a b ≡ true → is_less b a ≡ false
unfolding signal_compare
not_less_asym a b less =
    cmp_nat_asym a.signum b.signum
      (cmp_nat (flag a.one_shot) (flag b.one_shot)
        (cmp_nat a.loop b.loop (cmp_nat a.address b.address same)))
      (cmp_nat (flag b.one_shot) (flag a.one_shot)
        (cmp_nat b.loop a.loop (cmp_nat b.address a.address same)))
      (cmp_nat_asym (flag a.one_shot) (flag b.one_shot)
        (cmp_nat a.loop b.loop (cmp_nat a.address b.address same))
        (cmp_nat b.loop a.loop (cmp_nat b.address a.address same))
        (cmp_nat_asym a.loop b.loop (cmp_nat a.address b.address same)
          (cmp_nat b.address a.address same)
          (cmp_nat_asym a.address b.address same same (λ e. refl))))
      less

abbrev pub insert_sorted : (ℕ → Key) → ℕ → List ℕ → List ℕ
insert_sorted k h [] = h ∷ []
insert_sorted k h (x ∷ l) =
    let rest = insert_sorted k h l in if is_less (k x) (k h) then x ∷ rest else h ∷ x ∷ l

All-weaker :
    (k : ℕ → Key) (x h : ℕ) (l : List ℕ)
    → is_less (k x) (k h) ≡ false
    → All (λ y. is_less (k y) (k x) ≡ false) l
    → All (λ y. is_less (k y) (k h) ≡ false) l
All-weaker k x h [] first all = tt
All-weaker k x h (y ∷ l) first (e, all) =
    (not_less_trans (k h) (k x) (k y) first e, All-weaker k x h l first all)

pub insert_sorted-laws :
    (k : ℕ → Key) (h : ℕ) (t : List ℕ)
    → Sorted k t
    → (l m : List ℕ) × (t ≡ l ++ m) × (insert_sorted k h t ≡ l ++ h ∷ m)
insert_sorted-laws k h [] sorted = ([], [], refl, refl)
insert_sorted-laws k h (x ∷ t) (all, sorted) = elim (Bool-cases (is_less (k x) (k h))) [
  | inl less ↦
      let (l, m, e, e') = insert_sorted-laws k h t sorted in
      (x ∷ l, m, ap (λ s. x ∷ s) e, rw less (ap (λ s. x ∷ s) e'))
  | inr there ↦ ([], x ∷ t, refl, rw there refl)
]

insert_sorted-All :
    (k : ℕ → Key) (x h : ℕ) (t : List ℕ)
    → is_less (k h) (k x) ≡ false
    → All (λ y. is_less (k y) (k x) ≡ false) t
    → All (λ y. is_less (k y) (k x) ≡ false) (insert_sorted k h t)
insert_sorted-All k x h [] first all = (first, tt)
insert_sorted-All k x h (y ∷ t) first (e, all) = elim (Bool-cases (is_less (k y) (k h))) [
  | inl less ↦ rw less (e, insert_sorted-All k x h t first all)
  | inr there ↦ rw there (first, (e, all))
]

pub insert_sorted-Sorted :
    (k : ℕ → Key) (h : ℕ) (t : List ℕ) → Sorted k t → Sorted k (insert_sorted k h t)
insert_sorted-Sorted k h [] sorted = (tt, tt)
insert_sorted-Sorted k h (x ∷ t) (all, sorted) = elim (Bool-cases (is_less (k x) (k h))) [
  | inl less ↦ rw less (
    insert_sorted-All k x h t (not_less_asym (k x) (k h) less) all,
    insert_sorted-Sorted k h t sorted,
  )
  | inr there ↦ rw there ((there, All-weaker k x h t there all), (all, sorted))
]

pub erase-first : (h : ℕ) (l m : List ℕ) → occurs h l ≡ 0 → erase h (l ++ h ∷ m) ≡ l ++ m
erase-first h [] m fresh = let here : (h == h) ≡ true = ground arith in rw here refl
erase-first h (x ∷ l) m fresh =
    let other : (x == h) ≡ false = ground (arith, fresh) in
    rw other (ap (λ t. x ∷ t) (erase-first h l m (omega (arith, fresh))))

abbrev pub list_tree : RbTree (List ℕ)
list_tree = record {
  entries = λ t. t;
  insert = λ k h t. insert_sorted k h t;
  remove = λ k h t. erase h t;
  insert-entries = λ k h t sorted fresh.
      let (l, m, e, e') = insert_sorted-laws k h t sorted in
      (l, m, e, e', insert_sorted-Sorted k h t sorted);
  remove-entries = λ k h t l m sorted once e.
      ap (erase h) e ∙ erase-first h l m (omega (arith, once, occurs-two h l m));
}
