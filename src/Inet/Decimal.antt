-- ===== src/Inet/Decimal.antt =====
-- src/inet.c: the decimal text of an octet, and how a digit extends it.
use libuv.Prelude.{
  ℕ, ◌+◌, ◌*◌, ◌/◌, ◌%◌, ◌≤◌, ◌<◌, ◌≡◌, ◌≢◌, refl, true, false, some, List, [], ◌∷◌, ◌++◌, arith,
  ltb, if◌then◌else◌, inl, inr, Bool-cases,
}
use libuv.Inet.{digit}
use libuv.Inet.Print.{decimal}

-- The text of a number below 1000.
abbrev pub three_digits : ℕ → List ℕ
three_digits n =
    if ltb n 10
    then (b'0' + n) ∷ []
    else if ltb n 100
    then (b'0' + n / 10) ∷ (b'0' + n % 10) ∷ []
    else (b'0' + n / 100) ∷ (b'0' + n / 10 % 10) ∷ (b'0' + n % 10) ∷ []

pub decimal-three_digits : (n : ℕ) → n < 1000 → decimal n ≡ three_digits n
unfolding decimal
decimal-three_digits n h = elim (Bool-cases (ltb n 10)) [
  | inl one ↦ rw one refl
  | inr more ↦ elim (Bool-cases (ltb n 100)) [
    | inl two ↦ let first : ltb (n / 10) 10 ≡ true = ground arith in rw (more, first, two) refl
    | inr three ↦
        let first : ltb (n / 10) 10 ≡ false = ground arith in
        let second : ltb (n / 10 / 10) 10 ≡ true = ground arith in
        let hundreds : n / 10 / 10 ≡ n / 100 = omega arith in
        rw (more, first, second, three, hundreds) refl
  ]
]

-- A digit behind a text that is not 0.
pub decimal-digit :
    (n c d : ℕ)
    → digit c ≡ some d
    → n ≢ 0
    → n * 10 + d ≤ 255
    → decimal (n * 10 + d) ≡ decimal n ++ c ∷ []
unfolding digit
decimal-digit n c d e pos h =
    rw (decimal-three_digits (n * 10 + d) (omega arith), decimal-three_digits n (omega arith))
      (ground arith)

pub decimal-first : (c d : ℕ) → digit c ≡ some d → decimal d ≡ c ∷ []
unfolding digit
decimal-first c d e =
    let small : d < 10 = ground arith in rw (decimal-three_digits d (omega arith)) (ground arith)
