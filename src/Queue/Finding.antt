-- ===== src/Queue/Finding.antt =====
-- src/queue.h: the search for a queue among the queues of a program.
use libuv.Prelude.{
  ℕ, ◌+◌, ◌<◌, ◌≡◌, refl, inl, inr, Option, none, some, List, [], ◌∷◌, ◌==◌, ◌>>=◌, Bool-cases,
  arith,
}
use mathlib.Core.Path.{subst}
use libuv.Queue.{occurs}
use libuv.Queue.Links.{Links}
use libuv.Queue.Ring.{Linked, Linked-same}
use libuv.Queue.Rings.{Rings, count, find_ring, find_node, unused, AllLinked}
use libuv.Queue.Frames.{Same}

pub AllLinked-same :
    (s t : Links) (rs : Rings)
    → ((k : ℕ) → 0 < count k rs → Same s t k)
    → AllLinked s rs
    → AllLinked t rs
AllLinked-same s t [] same linked = tt
AllLinked-same s t ((h, l) ∷ rs) same (one, others) = (
  Linked-same s t h h l (λ k lt. (same k (omega arith)).0) (λ k lt. (same k (omega arith)).1) one,
  AllLinked-same s t rs (λ k lt. same k (omega arith)) others,
)

-- One of the queues, and the others.
pub record Found (s : Links) (rs : Rings) (h : ℕ) (l : List ℕ) (others : Rings) : Type 0 where
  pub parts : (k : ℕ) → count k rs ≡ occurs k (h ∷ l) + count k others
  pub one : Linked s h l h
  pub rest : AllLinked s others

-- What holds of a result, if there is one.
abbrev pub OrNone : {A : Type 0} → (A → Type 0) → Option A → Type 0
OrNone P none = Unit
OrNone P (some a) = P a

pub OrNone-bind :
    {A B : Type 0} (P : A → Type 0) (Q : B → Type 0) (m : Option A) (f : A → Option B)
    → OrNone P m
    → ((a : A) → P a → OrNone Q (f a))
    → OrNone Q (m >>= f)
OrNone-bind P Q none f first next = tt
OrNone-bind P Q (some a) f first next = next a first

Found-later :
    (s : Links) (rs : Rings) (g h : ℕ) (m l : List ℕ) (others : Rings)
    → Linked s g m g
    → Found s rs h l others
    → Found s ((g, m) ∷ rs) h l ((g, m) ∷ others)
Found-later s rs g h m l others first found = record {
  parts = λ k. omega (arith, found.parts k);
  one = found.one;
  rest = (first, found.rest);
}

pub find_ring-Found :
    (s : Links) (h : ℕ) (rs : Rings)
    → AllLinked s rs
    → OrNone (λ (f : List ℕ × Rings). Found s rs h f.0 f.1) (find_ring h rs)
find_ring-Found s h [] linked = tt
find_ring-Found s h ((g, m) ∷ rs) (first, linked) = elim (Bool-cases (g == h)) [
  | inl here ↦
      let same : g ≡ h = ground arith in
      rw here (record {
        parts = λ k. rw same refl;
        one = subst (λ h. Linked s h m h) same first;
        rest = linked;
      })
  | inr other ↦ rw other (
      OrNone-bind (λ (f : List ℕ × Rings). Found s rs h f.0 f.1)
        (λ (f : List ℕ × Rings). Found s ((g, m) ∷ rs) h f.0 f.1) (find_ring h rs)
        (λ found. some (found.0, (g, m) ∷ found.1)) (find_ring-Found s h rs linked)
        (λ f found. Found-later s rs g h m f.0 f.1 first found))
]

pub record FoundNode (s : Links) (rs : Rings) (q h : ℕ) (l : List ℕ) (others : Rings) : Type 0 where
  pub ring : Found s rs h l others
  pub inside : 0 < occurs q l

pub find_node-Found :
    (s : Links) (q : ℕ) (rs : Rings)
    → AllLinked s rs
    → OrNone (λ (f : ℕ × List ℕ × Rings). FoundNode s rs q f.0 f.1 f.2) (find_node q rs)
find_node-Found s q [] linked = tt
find_node-Found s q ((g, m) ∷ rs) (first, linked) = elim (Bool-cases (occurs q m == 0)) [
  | inl nowhere ↦ rw nowhere (
      OrNone-bind (λ (f : ℕ × List ℕ × Rings). FoundNode s rs q f.0 f.1 f.2)
        (λ (f : ℕ × List ℕ × Rings). FoundNode s ((g, m) ∷ rs) q f.0 f.1 f.2) (find_node q rs)
        (λ found. some (found.0, found.1, (g, m) ∷ found.2)) (find_node-Found s q rs linked)
        (λ f found. record {
          ring = Found-later s rs g f.0 m f.1 f.2 first found.ring;
          inside = found.inside;
        }))
  | inr here ↦ rw here (record {
    ring = record { parts = λ k. refl; one = first; rest = linked };
    inside = ground arith;
  })
]

pub unused-Unused :
    (q : ℕ) (rs : Rings) → OrNone (λ free. (free ≡ rs) × (count q rs ≡ 0)) (unused q rs)
unused-Unused q rs = elim (Bool-cases (count q rs == 0)) [
  | inl free ↦ rw free (refl, ground arith)
  | inr used ↦ rw used tt
]
