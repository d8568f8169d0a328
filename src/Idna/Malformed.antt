-- ===== src/Idna/Malformed.antt =====
-- src/idna.c: malformed bytes that the UTF-8 decoder accepts.
use libuv.Prelude.{
  ℕ, ◌+◌, ◌*◌, ◌/◌, ◌%◌, ◌^◌, ◌≤◌, ◌<◌, true, false, some, List, [], ◌∷◌, ◌≡◌, ltb, arith,
}
use libuv.Idna.{two_bytes, three_bytes, utf8_decode1_slow, utf8_decode1}

two_bytes-truncated :
    (a d : ℕ)
    → 0xE2 ≤ a
    → a ≤ 0xF7
    → 0x80 ≤ d
    → d ≤ 0xBF
    → two_bytes a (d ∷ []) ≡ (some (a % 32 * 64 + d % 64), [])
unfolding two_bytes
two_bytes-truncated a d low high low' high' = ground arith

-- At the end of a buffer a lead byte of a three-byte or a four-byte sequence, from 0xE2 to 0xF7,
-- with one continuation byte behind it is not refused as truncated: its five low bits and the six
-- of the continuation byte come back as a code point.
utf8_decode1-truncated :
    (a d : ℕ)
    → 0xE2 ≤ a
    → a ≤ 0xF7
    → 0x80 ≤ d
    → d ≤ 0xBF
    → utf8_decode1 (a ∷ d ∷ []) ≡ (some (a % 32 * 64 + d % 64), [])
unfolding utf8_decode1 utf8_decode1_slow three_bytes
utf8_decode1-truncated a d low high low' high' =
    let not_ascii : ltb a 128 ≡ false = ground arith in
    let not_big : ltb 0xF7 a ≡ false = ground arith in
    rw (not_ascii, not_big) (two_bytes-truncated a d low high low' high')

-- Behind a lead byte from 0xF1 to 0xF3 and one continuation byte any two bytes with the same two
-- top bits are taken for continuation bytes, ASCII characters such as `.` among them.
utf8_decode1-same_top_bits :
    (a b c d : ℕ) (rest : List ℕ)
    → 0xF1 ≤ a
    → a ≤ 0xF3
    → 0x80 ≤ b
    → b ≤ 0xBF
    → c < 256
    → d < 256
    → c / 64 ≡ d / 64
    → utf8_decode1 (a ∷ b ∷ c ∷ d ∷ rest)
      ≡ (some (a % 8 * 2 ^ 18 + b % 64 * 2 ^ 12 + c % 64 * 2 ^ 6 + d % 64), rest)
unfolding utf8_decode1 utf8_decode1_slow
utf8_decode1-same_top_bits a b c d rest low high low' high' byte byte' same =
    let not_ascii : ltb a 128 ≡ false = ground arith in
    let not_big : ltb 0xF7 a ≡ false = ground arith in
    let is_four : ltb 0xEF a ≡ true = ground arith in
    rw (not_ascii, not_big, is_four) (ground arith)
