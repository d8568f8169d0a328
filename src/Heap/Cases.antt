-- ===== src/Heap/Cases.antt =====
-- src/heap-inl.h: the places where `smallest` may point, as a split that keeps the equation.
use libuv.Prelude.{◌≡◌, refl, ◌⊎◌, inl, inr}
use libuv.Heap.{Side, here, at_left, at_right}

pub Side-cases :
    {A : Type 0} (m : Side × A) → (m ≡ (here, m.1)) ⊎ ((m ≡ (at_left, m.1)) ⊎ (m ≡ (at_right, m.1)))
Side-cases (here, y) = inl refl
Side-cases (at_left, y) = inr (inl refl)
Side-cases (at_right, y) = inr (inr refl)
