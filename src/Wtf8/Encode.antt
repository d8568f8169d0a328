-- ===== src/Wtf8/Encode.antt =====
-- src/idna.c: WTF-8 holds every sequence of UTF-16 units, and gives it back.
use libuv.Prelude.{
  ℕ, zero, suc, ◌≤◌, ◌<◌, ◌≡◌, refl, sym, ap, ◌∙◌, some, List, [], ◌∷◌, ◌++◌, append_assoc, arith,
  All, ltb, length, length-append, inl, inr, Bool-cases,
}
use libuv.Wtf8.{
  wtf8_decode1, units_of, to_utf16_loop, wtf8_to_utf16, is_pair, surrogate_value, encode1,
}

-- The bytes of a sequence of units: those of its code points.
unfoldable pub encode : ℕ → List ℕ → List ℕ
encode zero units = []
encode (suc fuel) [] = []
encode (suc fuel) (u ∷ units) =
    let (code_point, rest) = surrogate_value u units in encode1 code_point ++ encode fuel rest

decode1-encode1 :
    (c : ℕ) (s : List ℕ) → 1 ≤ c → c ≤ 0x10ffff → wtf8_decode1 (encode1 c ++ s) ≡ some (c, s)
unfolding wtf8_decode1 encode1
decode1-encode1 c s pos small = elim (Bool-cases (ltb c 0x80)) [
  | inl one ↦ rw one (ground arith)
  | inr more ↦ elim (Bool-cases (ltb c 0x800)) [
    | inl two ↦ rw (more, two) (ground arith)
    | inr more' ↦ elim (Bool-cases (ltb c 0x10000)) [
      | inl three ↦ rw (more, more', three) (ground arith)
      | inr four ↦ rw (more, more', four) (ground arith)
    ]
  ]
]

-- A unit of a string.
abbrev pub IsUnit : ℕ → Type 0
IsUnit u = (1 ≤ u) × (u ≤ 0xffff)

-- What a code point and the units behind it make of the units.
record Split (u : ℕ) (units : List ℕ) (code_point : ℕ) (rest : List ℕ) : Type 0 where
  same : units_of code_point ++ rest ≡ u ∷ units
  positive : 1 ≤ code_point
  small : code_point ≤ 0x10ffff
  shorter : length rest ≤ length units
  all : All IsUnit rest

surrogate_value-Split :
    (u : ℕ) (units : List ℕ)
    → IsUnit u
    → All IsUnit units
    → Split u units (surrogate_value u units).0 (surrogate_value u units).1
unfolding surrogate_value units_of
surrogate_value-Split u [] h all = record {
  same = ground arith;
  positive = h.0;
  small = omega arith;
  shorter = omega arith;
  all = tt;
}
surrogate_value-Split u (next ∷ rest) h all = elim (Bool-cases (is_pair u next)) [
  | inl pair ↦ rw pair (record {
    same = ground arith;
    positive = omega arith;
    small = ground arith;
    shorter = omega arith;
    all = all.1;
  })
  | inr alone ↦ rw alone (record {
    same = ground arith;
    positive = h.0;
    small = omega arith;
    shorter = omega arith;
    all = all;
  })
]

to_utf16_loop-step :
    (fuel c : ℕ) (s rest units : List ℕ)
    → 1 ≤ length s
    → wtf8_decode1 s ≡ some (c, rest)
    → to_utf16_loop fuel rest ≡ some units
    → to_utf16_loop (suc fuel) s ≡ some (units_of c ++ units)
unfolding to_utf16_loop
to_utf16_loop-step fuel c [] rest units some_byte d e = absurd (omega arith)
to_utf16_loop-step fuel c (b ∷ s) rest units some_byte d e = rw (d, e, to_utf16_loop) refl

encode1-length : (c : ℕ) → 1 ≤ length (encode1 c)
unfolding encode1
encode1-length c = ground arith

to_utf16_loop-encode :
    (n fuel : ℕ) (units : List ℕ)
    → length units ≤ n
    → length (encode n units) < fuel
    → All IsUnit units
    → to_utf16_loop fuel (encode n units) ≡ some (units ++ 0 ∷ [])
unfolding encode to_utf16_loop wtf8_decode1 units_of
to_utf16_loop-encode n zero units le lt all = absurd (omega arith)
to_utf16_loop-encode zero (suc fuel) [] le lt all = refl
to_utf16_loop-encode (suc n) (suc fuel) [] le lt all = refl
to_utf16_loop-encode zero (suc fuel) (u ∷ units) le lt all = absurd (omega arith)
to_utf16_loop-encode (suc n) (suc fuel) (u ∷ units) le lt all =
    let c = (surrogate_value u units).0 in
    let rest = (surrogate_value u units).1 in
    let split = surrogate_value-Split u units all.0 all.1 in
    let size = length-append (encode1 c) (encode n rest) in
    let one = encode1-length c in
    let step =
      to_utf16_loop-step fuel c (encode1 c ++ encode n rest) (encode n rest) (rest ++ 0 ∷ [])
        (omega (arith, size, one)) (decode1-encode1 c (encode n rest) split.positive split.small)
        (to_utf16_loop-encode n fuel rest (omega (arith, split.shorter))
          (omega (arith, size, one, lt)) split.all) in
    step
    ∙ ap some (sym (append_assoc (units_of c) rest (0 ∷ [])) ∙ ap (λ t. t ++ 0 ∷ []) split.same)

-- Every sequence of UTF-16 units without NUL, unpaired surrogates included, comes back from its
-- WTF-8 bytes as it was, with a NUL behind it.
pub wtf8_to_utf16-encode :
    (units : List ℕ)
    → All IsUnit units
    → wtf8_to_utf16 (encode (length units) units) ≡ some (units ++ 0 ∷ [])
unfolding wtf8_to_utf16
wtf8_to_utf16-encode units all =
    to_utf16_loop-encode (length units) (suc (length (encode (length units) units))) units
      (omega arith) (omega arith) all
