-- ===== src/Signal/First.antt =====
-- src/unix/signal.c: what `uv__signal_first_handle` finds in a tree in order.
use libuv.Prelude.{
  ℕ, ◌+◌, ◌<◌, ◌≤◌, ◌≡◌, refl, sym, inl, inr, true, false, Option, none, some, List, [], ◌∷◌, ◌==◌,
  ltb, if◌then◌else◌, one_if, All, Bool-cases, arith,
}
use mathlib.Core.Path.{subst}
use libuv.Signal.{SignalHandle, Key, signal_compare, key_of, is_less, Sorted}
use libuv.Signal.Actions.{lookup_key, first_handle}

-- The entries for a signal, and those of them that are not one-shot.
abbrev pub watchers : (ℕ → SignalHandle) → ℕ → List ℕ → ℕ
watchers handles signum [] = 0
watchers handles signum (h ∷ l) = one_if ((handles h).signum == signum) + watchers handles signum l

abbrev pub regulars : (ℕ → SignalHandle) → ℕ → List ℕ → ℕ
regulars handles signum [] = 0
regulars handles signum (h ∷ l) =
    (if (handles h).one_shot then 0 else one_if ((handles h).signum == signum))
    + regulars handles signum l

less-lookup :
    (handles : ℕ → SignalHandle) (h signum : ℕ)
    → is_less (key_of handles h) (lookup_key signum) ≡ ltb (handles h).signum signum
unfolding signal_compare
less-lookup handles h signum = elim (Bool-cases (handles h).one_shot) [
  | inl e ↦ rw e (ground arith)
  | inr e ↦ rw e (ground arith)
]

not_less-signum : (a b : Key) → is_less a b ≡ false → b.signum ≤ a.signum
unfolding signal_compare
not_less-signum a b e = elim (Bool-cases (ltb a.signum b.signum)) [
  | inl lt ↦ let less : is_less a b ≡ true = rw lt refl in absurd cc
  | inr ge ↦ ground (arith, ge)
]

not_less-one_shot :
    (a b : Key) → is_less a b ≡ false → a.signum ≡ b.signum → b.one_shot ≡ true → a.one_shot ≡ true
unfolding signal_compare
not_less-one_shot a b e same_signum shot = elim (Bool-cases a.one_shot) [
  | inl yes' ↦ yes'
  | inr no' ↦
      let not_below : ltb a.signum b.signum ≡ false = ground (arith, same_signum) in
      let not_above : ltb b.signum a.signum ≡ false = ground (arith, same_signum) in
      let less : is_less a b ≡ true = rw (not_below, not_above, shot, no') refl in absurd cc
]

module _ (handles : ℕ → SignalHandle) where
  -- Behind an entry for a greater signal there is none for a lesser one.
  greater-watchers :
      (x signum : ℕ) (l : List ℕ)
      → All (λ y. is_less (key_of handles y) (key_of handles x) ≡ false) l
      → signum < (handles x).signum
      → watchers handles signum l ≡ 0
  greater-watchers x signum [] all gt = refl
  greater-watchers x signum (y ∷ l) (first, all) gt = ground (
    arith,
    not_less-signum (key_of handles y) (key_of handles x) first,
    greater-watchers x signum l all gt,
  )

  -- Behind a one-shot entry there is no regular one for the same signal.
  one_shot-regulars :
      (x signum : ℕ) (l : List ℕ)
      → All (λ y. is_less (key_of handles y) (key_of handles x) ≡ false) l
      → (handles x).signum ≡ signum
      → (handles x).one_shot ≡ true
      → regulars handles signum l ≡ 0
  one_shot-regulars x signum [] all here shot = refl
  one_shot-regulars x signum (y ∷ l) (first, all) here shot =
      let rest = one_shot-regulars x signum l all here shot in
      elim (Bool-cases ((handles y).signum == signum)) [
        | inr other ↦ rw other (ground (arith, rest))
        | inl one ↦
            let shot_too =
              not_less-one_shot (key_of handles y) (key_of handles x) first
                (ground (arith, one, here)) shot in
            rw shot_too (ground (arith, rest))
      ]

  pub regulars-le :
      (signum : ℕ) (l : List ℕ) → regulars handles signum l ≤ watchers handles signum l
  regulars-le signum [] = omega arith
  regulars-le signum (h ∷ l) = elim (Bool-cases (handles h).one_shot) [
    | inl e ↦ rw e (ground (arith, regulars-le signum l))
    | inr e ↦ rw e (ground (arith, regulars-le signum l))
  ]

  -- What is found, if anything: nothing, if there is no entry for the signal; a one-shot handle, if
  -- all of them are; a regular one otherwise.
  abbrev pub FirstOf : ℕ → List ℕ → Option ℕ → Type 0
  FirstOf signum l none = watchers handles signum l ≡ 0
  FirstOf signum l (some f) =
      (0 < watchers handles signum l)
      × ((if (handles f).one_shot
            then regulars handles signum l
            else if regulars handles signum l == 0
            then 1
            else 0)
          ≡ 0)

  FirstOf-skip :
      (h signum : ℕ) (l : List ℕ) (r : Option ℕ)
      → ((handles h).signum == signum) ≡ false
      → FirstOf signum l r
      → FirstOf signum (h ∷ l) r
  FirstOf-skip h signum l none other found = ground (arith, other, found)
  FirstOf-skip h signum l (some f) other (some_there, kind) =
      let same_regulars : regulars handles signum (h ∷ l) ≡ regulars handles signum l =
        elim (Bool-cases (handles h).one_shot) [
          | inl e ↦ rw e (omega arith)
          | inr e ↦ rw (e, other) (omega arith)
        ] in
      (
        ground (arith, other, some_there),
        subst (λ n. (if (handles f).one_shot then n else if n == 0 then 1 else 0) ≡ 0)
            (sym same_regulars) kind,
      )

  FirstOf-here :
      (h signum : ℕ) (l : List ℕ)
      → Sorted (key_of handles) (h ∷ l)
      → ((handles h).signum == signum) ≡ true
      → FirstOf signum (h ∷ l) (some h)
  FirstOf-here h signum l (all, sorted) here = elim (Bool-cases (handles h).one_shot) [
    | inl shot ↦
        let others = one_shot-regulars h signum l all (ground (arith, here)) shot in
        (ground (arith, here), rw shot (omega (arith, others)))
    | inr regular ↦ (ground (arith, here), rw (regular, here) (ground arith))
  ]

  pub first_handle-FirstOf :
      (signum : ℕ) (l : List ℕ)
      → Sorted (key_of handles) l
      → FirstOf signum l (first_handle handles signum l)
  unfolding first_handle
  first_handle-FirstOf signum [] sorted = refl
  first_handle-FirstOf signum (h ∷ l) sorted = elim (Bool-cases (ltb (handles h).signum signum)) [
    | inl below ↦
        rw (less-lookup handles h signum, below)
          (FirstOf-skip h signum l (first_handle handles signum l) (ground (arith, below))
            (first_handle-FirstOf signum l sorted.1))
    | inr above ↦ elim (Bool-cases ((handles h).signum == signum)) [
      | inl here ↦
          rw (less-lookup handles h signum, above, here) (FirstOf-here h signum l sorted here)
      | inr other ↦
          rw (less-lookup handles h signum, above, other)
            (ground (
              arith,
              above,
              other,
              greater-watchers h signum l sorted.0 (ground (arith, above, other)),
            ))
    ]
  ]
