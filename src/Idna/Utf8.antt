-- ===== src/Idna/Utf8.antt =====
-- src/idna.c: what the UTF-8 decoder gives back, and which malformed bytes it accepts.
use libuv.Prelude.{
  ℕ, ◌+◌, ◌/◌, ◌%◌, ◌≤◌, ◌<◌, true, false, some, List, [], ◌∷◌, ◌++◌, ◌≡◌, ◌⊎◌, inl, inr, ltb,
  if◌then◌else◌, arith, Bool-cases,
}
use libuv.Idna.{join_sequence, two_bytes, three_bytes, utf8_decode1_slow, utf8_decode1}

-- A Unicode scalar value.
abbrev pub IsScalar : ℕ → Type 0
IsScalar u = ((u < 0xD800) ⊎ (0xDFFF < u)) × (u ≤ 0x10FFFF)

-- Its UTF-8 bytes, as RFC 3629 has them.
abbrev pub utf8 : ℕ → List ℕ
utf8 u =
    if ltb u 0x80
    then u ∷ []
    else if ltb u 0x800
    then (0xC0 + u / 64) ∷ (0x80 + u % 64) ∷ []
    else if ltb u 0x10000
    then (0xE0 + u / 4096) ∷ (0x80 + u / 64 % 64) ∷ (0x80 + u % 64) ∷ []
    else (0xF0 + u / 262144) ∷ (0x80 + u / 4096 % 64) ∷ (0x80 + u / 64 % 64) ∷ (0x80 + u % 64) ∷ []

two_bytes-utf8 :
    (u : ℕ) (rest : List ℕ)
    → 0x80 ≤ u
    → u < 0x800
    → two_bytes (0xC0 + u / 64) ((0x80 + u % 64) ∷ rest) ≡ (some u, rest)
unfolding two_bytes
two_bytes-utf8 u rest low high = ground arith

two :
    (u : ℕ) (rest : List ℕ)
    → 0x80 ≤ u
    → u < 0x800
    → utf8_decode1 ((0xC0 + u / 64) ∷ (0x80 + u % 64) ∷ rest) ≡ (some u, rest)
unfolding utf8_decode1_slow utf8_decode1 three_bytes
two u rest low high = first rest
  where
    not_ascii : ltb (0xC0 + u / 64) 128 ≡ false
    not_ascii = ground arith

    not_big : ltb 0xF7 (0xC0 + u / 64) ≡ false
    not_big = ground arith

    not_four : ltb 0xEF (0xC0 + u / 64) ≡ false
    not_four = ground arith

    not_three : ltb 0xDF (0xC0 + u / 64) ≡ false
    not_three = ground arith

    first :
        (rest : List ℕ) → utf8_decode1 ((0xC0 + u / 64) ∷ (0x80 + u % 64) ∷ rest) ≡ (some u, rest)
    first [] = rw (not_ascii, not_big) (two_bytes-utf8 u [] low high)
    first (b ∷ []) = rw (not_ascii, not_big, not_three) (two_bytes-utf8 u (b ∷ []) low high)
    first (b ∷ c ∷ rest) =
        rw (not_ascii, not_big, not_four, not_three) (two_bytes-utf8 u (b ∷ c ∷ rest) low high)

three_bytes-utf8 :
    (u : ℕ) (rest : List ℕ)
    → 0x800 ≤ u
    → u < 0x10000
    → IsScalar u
    → three_bytes (0xE0 + u / 4096) ((0x80 + u / 64 % 64) ∷ (0x80 + u % 64) ∷ rest) ≡ (some u, rest)
unfolding join_sequence three_bytes
three_bytes-utf8 u rest low high s =
    let big : ltb 0xDF (0xE0 + u / 4096) ≡ true = ground arith in rw big (ground arith)

three :
    (u : ℕ) (rest : List ℕ)
    → 0x800 ≤ u
    → u < 0x10000
    → IsScalar u
    → utf8_decode1 ((0xE0 + u / 4096) ∷ (0x80 + u / 64 % 64) ∷ (0x80 + u % 64) ∷ rest)
      ≡ (some u, rest)
unfolding utf8_decode1_slow utf8_decode1
three u rest low high s = first rest
  where
    not_ascii : ltb (0xE0 + u / 4096) 128 ≡ false
    not_ascii = ground arith

    not_big : ltb 0xF7 (0xE0 + u / 4096) ≡ false
    not_big = ground arith

    not_four : ltb 0xEF (0xE0 + u / 4096) ≡ false
    not_four = ground arith

    first :
        (rest : List ℕ)
        → utf8_decode1 ((0xE0 + u / 4096) ∷ (0x80 + u / 64 % 64) ∷ (0x80 + u % 64) ∷ rest)
          ≡ (some u, rest)
    first [] = rw (not_ascii, not_big) (three_bytes-utf8 u [] low high s)
    first (b ∷ rest) = rw (not_ascii, not_big, not_four) (three_bytes-utf8 u (b ∷ rest) low high s)

four :
    (u : ℕ) (rest : List ℕ)
    → 0x10000 ≤ u
    → u ≤ 0x10FFFF
    → utf8_decode1 (
        (0xF0 + u / 262144)
        ∷ (0x80 + u / 4096 % 64)
        ∷ (0x80 + u / 64 % 64)
        ∷ (0x80 + u % 64)
        ∷ rest)
      ≡ (some u, rest)
unfolding utf8_decode1
four u rest low high = ground arith

-- The UTF-8 bytes of a Unicode scalar value, whatever follows them, are decoded to that value, and
-- the pointer is left behind them.
pub utf8_decode1-utf8 :
    (u : ℕ) (rest : List ℕ) → IsScalar u → utf8_decode1 (utf8 u ++ rest) ≡ (some u, rest)
unfolding utf8_decode1
utf8_decode1-utf8 u rest s = elim (Bool-cases (ltb u 0x80)) [
  | inl one ↦ rw one (ground arith)
  | inr more ↦ elim (Bool-cases (ltb u 0x800)) [
    | inl e ↦ rw (more, e) (two u rest (ground arith) (ground arith))
    | inr more' ↦ elim (Bool-cases (ltb u 0x10000)) [
      | inl e ↦ rw (more, more', e) (three u rest (ground arith) (ground arith) s)
      | inr e ↦ rw (more, more', e) (four u rest (ground arith) s.1)
    ]
  ]
]
