-- ===== src/Prelude/Lists.antt =====
-- Lists measured and indexed by native numbers, under the library's names.
use Prim.Native.Nat.{ℕ, zero, suc, ◌+◌, ◌≤◌}
use mathlib.Core.Path.{◌≡◌, refl, ap, ◌∙◌}
use mathlib.Core.List.{List, [], ◌∷◌, ◌++◌, Sublistᴰ}
use mathlib.Core.Option.{Option, none, some}
use native.Mathlib.Omega.{arith}

module _ {ℓ} {A : Type ℓ} where
  abbrev pub length : List A → ℕ
  length [] = 0
  length (x ∷ xs) = suc (length xs)

  abbrev pub get_elem? : List A → ℕ → Option A
  get_elem? [] i = none
  get_elem? (x ∷ xs) zero = some x
  get_elem? (x ∷ xs) (suc i) = get_elem? xs i

  -- A write out of bounds changes nothing.
  abbrev pub set : List A → ℕ → A → List A
  set [] i v = []
  set (x ∷ xs) zero v = v ∷ xs
  set (x ∷ xs) (suc i) v = x ∷ set xs i v

  abbrev pub take : ℕ → List A → List A
  take zero xs = []
  take (suc n) [] = []
  take (suc n) (x ∷ xs) = x ∷ take n xs

  abbrev pub drop : ℕ → List A → List A
  drop zero xs = xs
  drop (suc n) [] = []
  drop (suc n) (x ∷ xs) = drop n xs

  abbrev pub replicate : ℕ → A → List A
  replicate zero a = []
  replicate (suc n) a = a ∷ replicate n a

  -- A predicate that holds of every entry, as a tuple.
  abbrev pub All {κ} : (A → Type κ) → List A → Type κ
  All P [] = Unit
  All P (x ∷ xs) = P x × All P xs

  pub length-append : (xs ys : List A) → length (xs ++ ys) ≡ length xs + length ys
  length-append [] ys = omega arith
  length-append (x ∷ xs) ys = omega (arith, length-append xs ys)

  pub length-set : (xs : List A) (i : ℕ) (v : A) → length (set xs i v) ≡ length xs
  length-set [] i v = refl
  length-set (x ∷ xs) zero v = refl
  length-set (x ∷ xs) (suc i) v = ap suc (length-set xs i v)

  pub length-replicate : (n : ℕ) (a : A) → length (replicate n a) ≡ n
  length-replicate zero a = refl
  length-replicate (suc n) a = ap suc (length-replicate n a)

  pub All-append {κ} : (P : A → Type κ) (xs ys : List A) → All P xs → All P ys → All P (xs ++ ys)
  All-append P [] ys hx hy = hy
  All-append P (x ∷ xs) ys hx hy = (hx.0, All-append P xs ys hx.1 hy)

pub Sublistᴰ-trans : {A : Type 0} (p q r : List A) → Sublistᴰ p q → Sublistᴰ q r → Sublistᴰ p r
Sublistᴰ-trans p q [] a Sublistᴰ.slnil = a
Sublistᴰ-trans p q (z ∷ r) a (Sublistᴰ.cons b) = Sublistᴰ.cons (Sublistᴰ-trans p q r a b)
Sublistᴰ-trans p (y ∷ q) (z ∷ r) (Sublistᴰ.cons a) (Sublistᴰ.cons-cons e b) =
    Sublistᴰ.cons (Sublistᴰ-trans p q r a b)
Sublistᴰ-trans (x ∷ p) (y ∷ q) (z ∷ r) (Sublistᴰ.cons-cons d a) (Sublistᴰ.cons-cons e b) =
    Sublistᴰ.cons-cons (d ∙ e) (Sublistᴰ-trans p q r a b)

pub length-Sublistᴰ : {A : Type 0} (p q : List A) → Sublistᴰ p q → length p ≤ length q
length-Sublistᴰ [] [] Sublistᴰ.slnil = omega arith
length-Sublistᴰ (x ∷ p) [] a = elim a [ ]
length-Sublistᴰ p (y ∷ q) (Sublistᴰ.cons a) = omega (arith, length-Sublistᴰ p q a)
length-Sublistᴰ (x ∷ p) (y ∷ q) (Sublistᴰ.cons-cons e a) = omega (arith, length-Sublistᴰ p q a)
