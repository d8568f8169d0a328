-- ===== src/Inet/Text.antt =====
-- src/inet.c: what `inet_ntop4` writes, and that `inet_pton4` reads it back.
use libuv.Prelude.{
  if◌then◌else◌, ℕ, suc, ◌≤◌, ◌<◌, ◌≡◌, ◌≢◌, refl, ap, ◌∙◌, none, some, List, [], ◌∷◌, ◌++◌, arith,
  All, All-append, ltb, length, length-append, drop, inl, inr, Bool-cases,
}
use libuv.Errno.{uv_enospc, ok, failed}
use libuv.Text.{strscpy}
use libuv.Text.Copy.{strscpy-copies}
use libuv.Inet.{inet_pton4}
use libuv.Inet.Print.{decimal, dotted_quad, text4, inet_ntop4}
use libuv.Inet.Decimal.{decimal-three_digits}
use libuv.Inet.Four.{text, inet_pton4_iff}

-- An octet's text has one to three characters, none of which is NUL.
decimal_bounds :
    (n : ℕ)
    → n ≤ 255
    → All (λ c. c ≢ 0) (decimal n) × (1 ≤ length (decimal n)) × (length (decimal n) ≤ 3)
decimal_bounds n byte = rw (decimal-three_digits n (omega arith)) (elim (Bool-cases (ltb n 10)) [
  | inl one ↦ rw one (omega arith)
  | inr more ↦ elim (Bool-cases (ltb n 100)) [
    | inl two ↦ rw (more, two) (omega arith)
    | inr three ↦ rw (more, three) (omega arith)
  ]
])

text4-fits :
    (src : List ℕ) (size : ℕ)
    → 1 ≤ length (dotted_quad src)
    → length (dotted_quad src) < size
    → text4 src size ≡ some (dotted_quad src)
unfolding text4
text4-fits src size some_text fits = ground arith

text4-none : (src : List ℕ) (size : ℕ) → size ≤ length (dotted_quad src) → text4 src size ≡ none
unfolding text4
text4-none src size long = ground arith

inet_ntop4-fits :
    (src dst t : List ℕ) (size : ℕ)
    → text4 src size ≡ some t
    → inet_ntop4 src dst size ≡ (ok, (strscpy dst t size).1)
unfolding inet_ntop4
inet_ntop4-fits src dst t size e = rw (e, inet_ntop4) refl

inet_ntop4-none :
    (src dst : List ℕ) (size : ℕ)
    → text4 src size ≡ none
    → inet_ntop4 src dst size ≡ (failed uv_enospc, dst)
unfolding inet_ntop4
inet_ntop4-none src dst size e = rw (e, inet_ntop4) refl

module _ (a b c d : ℕ) (ha : a ≤ 255) (hb : b ≤ 255) (hc : c ≤ 255) (hd : d ≤ 255) where
  abbrev address : List ℕ
  address = a ∷ b ∷ c ∷ d ∷ []

  text_bounds :
      All (λ k. k ≢ 0) (text address) × (1 ≤ length (text address)) × (length (text address) ≤ 15)
  text_bounds =
      let (na, la, ua) = decimal_bounds a ha in
      let (nb, lb, ub) = decimal_bounds b hb in
      let (nc, lc, uc) = decimal_bounds c hc in
      let (nd, ld, ud) = decimal_bounds d hd in
      let after_c = b'.' ∷ decimal d in
      let after_b = b'.' ∷ (decimal c ++ after_c) in
      let after_a = b'.' ∷ (decimal b ++ after_b) in
      let size_a = length-append (decimal a) after_a in
      let size_b = length-append (decimal b) after_b in
      let size_c = length-append (decimal c) after_c in
      (
        joined (decimal a) (decimal b ++ after_b) na
            (joined (decimal b) (decimal c ++ after_c) nb (joined (decimal c) (decimal d) nc nd)),
        omega (arith, size_a),
        omega (arith, size_a, size_b, size_c),
      )
    where
      joined :
          (x y : List ℕ)
          → All (λ k. k ≢ 0) x
          → All (λ k. k ≢ 0) y
          → All (λ k. k ≢ 0) (x ++ b'.' ∷ y)
      joined x y hx hy = All-append (λ k. k ≢ 0) x (b'.' ∷ y) hx (omega arith, hy)

  -- Into a buffer of at least `size` bytes `inet_ntop4` writes the text of any four bytes and a
  -- NUL, if they fit into `size` bytes, which 16 bytes always do. Otherwise it returns UV_ENOSPC and
  -- writes nothing. `inet_pton4` reads the text back as the same address.
  pub inet_ntop4-text :
      (dst : List ℕ) (size : ℕ)
      → size ≤ length dst
      → (inet_ntop4 address dst size ≡ (
          if ltb (length (text address)) size
          then (ok, text address ++ 0 ∷ drop (suc (length (text address))) dst)
          else (failed uv_enospc, dst)))
        × (length (text address) < 16)
        × (inet_pton4 (text address) ≡ some address)
  unfolding dotted_quad
  inet_ntop4-text dst size room =
      let (printable, some_text, short) = text_bounds in
      (
        elim (Bool-cases (ltb (length (text address)) size)) [
          | inl fits ↦
              let shorter : length (text address) < size = ground arith in
              let run =
                inet_ntop4-fits address dst (text address) size
                  (text4-fits address size some_text shorter) in
              let copy = strscpy-copies dst (text address) size printable room (omega arith) in
              let copied = rw fits at copy in rw fits (run ∙ ap (λ r. (ok, r.1)) copied)
          | inr long ↦
              rw long (inet_ntop4-none address dst size (text4-none address size (ground arith)))
        ],
        omega arith,
        (inet_pton4_iff (text address) address).1 (refl, (ha, (hb, (hc, (hd, tt)))), refl),
      )
