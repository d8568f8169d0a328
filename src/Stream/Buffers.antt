-- ===== src/Stream/Buffers.antt =====
-- src/unix/stream.c: a partial write and the buffers that it leaves.
use libuv.Prelude.{
  ℕ, zero, suc, ◌+◌, ◌-◌, ◌≤◌, ◌<◌, ◌≡◌, refl, sym, ap, ◌∙◌, inl, inr, true, false, some, List, [],
  ◌∷◌, ◌++◌, ltb, ◌==◌, length, take, drop, append-nil, append_assoc, length-append, Bool-cases,
  arith,
}
use mathlib.Core.Path.{subst}
use libuv.Stream.{bytes_of, walk}

abbrev pub size_of : List (List ℕ) → ℕ
size_of bs = length (bytes_of bs)

pub take-drop {ℓ} : {A : Type ℓ} (n : ℕ) (xs : List A) → take n xs ++ drop n xs ≡ xs
take-drop zero xs = refl
take-drop (suc n) [] = refl
take-drop (suc n) (x ∷ xs) = ap (λ t. x ∷ t) (take-drop n xs)

pub take-append {ℓ} :
    {A : Type ℓ} (n : ℕ) (xs ys : List A) → n ≤ length xs → take n (xs ++ ys) ≡ take n xs
take-append zero xs ys le = refl
take-append (suc n) [] ys le = absurd (omega arith)
take-append (suc n) (x ∷ xs) ys le = ap (λ t. x ∷ t) (take-append n xs ys (omega arith))

pub take-more {ℓ} :
    {A : Type ℓ} (n : ℕ) (xs ys : List A)
    → length xs ≤ n
    → take n (xs ++ ys) ≡ xs ++ take (n - length xs) ys
take-more n [] ys le = ap (λ k. take k ys) {x = n} {y = n - 0} (omega arith)
take-more zero (x ∷ xs) ys le = absurd (omega arith)
take-more (suc n) (x ∷ xs) ys le =
    ap (λ t. x ∷ t) (take-more n xs ys (omega arith))
    ∙ ap (λ k. x ∷ xs ++ take k ys) {x = n - length xs} {y = suc n - suc (length xs)} (omega arith)

pub length-take {ℓ} : {A : Type ℓ} (n : ℕ) (xs : List A) → n ≤ length xs → length (take n xs) ≡ n
length-take zero xs le = refl
length-take (suc n) [] le = absurd (omega arith)
length-take (suc n) (x ∷ xs) le = ap suc (length-take n xs (omega arith))

pub drop-all {ℓ} : {A : Type ℓ} (n : ℕ) (xs : List A) → length xs ≤ n → drop n xs ≡ []
drop-all zero [] le = refl
drop-all zero (x ∷ xs) le = absurd (omega arith)
drop-all (suc n) [] le = refl
drop-all (suc n) (x ∷ xs) le = drop-all n xs (omega arith)

pub length-drop {ℓ} : {A : Type ℓ} (n : ℕ) (xs : List A) → length (drop n xs) ≡ length xs - n
length-drop zero xs = omega arith
length-drop (suc n) [] = omega arith
length-drop (suc n) (x ∷ xs) = omega (arith, length-drop n xs)

-- The first buffers hold the first bytes.
pub take-bytes_of : (n k : ℕ) (bs : List (List ℕ)) → n ≤ size_of (take k bs) → n ≤ size_of bs
take-bytes_of n zero bs le = omega arith
take-bytes_of n (suc k) [] le = le
take-bytes_of n (suc k) (b ∷ bs) le =
    let more =
      take-bytes_of (n - length b) k bs (omega (arith, length-append b (bytes_of (take k bs)))) in
    omega (arith, more, length-append b (bytes_of bs))

-- What a write of `n` bytes does to the buffers `bs`.
pub record Walked (n : ℕ) (bs : List (List ℕ)) (advance : ℕ) (bs' : List (List ℕ)) : Type 0 where
  pub done : walk n bs ≡ some (advance, bs')
  pub same_length : length bs' ≡ length bs
  pub in_range : advance ≤ length bs
  pub bytes : take n (bytes_of bs) ++ bytes_of (drop advance bs') ≡ bytes_of bs

-- The first buffer holds more bytes than were written.
walk-part :
    (n : ℕ) (b : List ℕ) (bs : List (List ℕ)) → n < length b → Walked n (b ∷ bs) 0 (drop n b ∷ bs)
unfolding walk
walk-part n b bs lt =
    let len : ltb n (length b) ≡ true = ground arith in
    let stop : (n - n == 0) ≡ true = ground arith in
    let step : (length b - n == 0) ≡ false = ground arith in
    record {
      done = rw (len, stop, step) refl;
      same_length = refl;
      in_range = omega arith;
      bytes =
          ap (λ t. t ++ (drop n b ++ bytes_of bs)) (take-append n b (bytes_of bs) (omega arith))
          ∙ sym (append_assoc (take n b) (drop n b) (bytes_of bs))
          ∙ ap (λ t. t ++ bytes_of bs) (take-drop n b);
    }

-- Exactly the first buffer was written.
walk-whole :
    (b : List ℕ) (bs : List (List ℕ)) → Walked (length b) (b ∷ bs) 1 (drop (length b) b ∷ bs)
unfolding walk
walk-whole b bs =
    let len : ltb (length b) (length b) ≡ false = ground arith in
    let stop : (length b - length b == 0) ≡ true = ground arith in
    record {
      done = rw (len, stop) refl;
      same_length = refl;
      in_range = omega arith;
      bytes =
          ap (λ t. t ++ bytes_of bs)
            (take-more (length b) b (bytes_of bs) (omega arith)
              ∙ ap (λ k. b ++ take k (bytes_of bs)) {x = length b - length b} {y = 0} (omega arith)
              ∙ append-nil b);
    }

-- The first buffer was written, and some of those that follow it.
walk-on :
    (n : ℕ) (b : List ℕ) (bs bs' : List (List ℕ)) (advance : ℕ)
    → length b < n
    → Walked (n - length b) bs advance bs'
    → Walked n (b ∷ bs) (suc advance) (drop (length b) b ∷ bs')
unfolding walk
walk-on n b bs bs' advance gt w =
    let len : ltb n (length b) ≡ false = ground arith in
    let go_on : (n - length b == 0) ≡ false = ground arith in
    let step : (length b - length b == 0) ≡ true = ground arith in
    let sum : 1 + advance ≡ suc advance = omega arith in
    record {
      done = rw (len, go_on, w.done, step, sum) refl;
      same_length = ap suc w.same_length;
      in_range = omega (arith, w.in_range);
      bytes =
          ap (λ t. t ++ bytes_of (drop advance bs')) (take-more n b (bytes_of bs) (omega arith))
          ∙ append_assoc b (take (n - length b) (bytes_of bs)) (bytes_of (drop advance bs'))
          ∙ ap (λ t. b ++ t) w.bytes;
    }

-- The loop of `uv__write_req_update` on at least one buffer, for as many bytes as there are at most,
-- ends without reading behind the last buffer. The bytes that were written and the bytes of the
-- buffers that are left, in this order, are the bytes of the buffers before.
pub walk-Walked :
    (n : ℕ) (bs : List (List ℕ))
    → 0 < length bs
    → n ≤ size_of bs
    → (advance : ℕ) × (bs' : List (List ℕ)) × Walked n bs advance bs'
walk-Walked n [] some_bufs le = absurd (omega arith)
walk-Walked n (b ∷ bs) some_bufs le = elim (Bool-cases (ltb n (length b))) [
  | inl part ↦ (0, drop n b ∷ bs, walk-part n b bs (ground arith))
  | inr long ↦ elim (Bool-cases (n == length b)) [
    | inl whole ↦
        let same : length b ≡ n = ground arith in
        let w = walk-whole b bs in
        (
          1,
          drop (length b) b ∷ bs,
          subst (λ k. Walked k (b ∷ bs) 1 (drop (length b) b ∷ bs)) same w,
        )
    | inr more ↦
        let gt : length b < n = ground arith in
        let left : n - length b ≤ size_of bs = omega (arith, length-append b (bytes_of bs)) in
        let (advance, bs', w) = walk-Walked (n - length b) bs (some_left bs (omega arith)) left in
        (suc advance, drop (length b) b ∷ bs', walk-on n b bs bs' advance gt w)
  ]
]
  where
    some_left : (bs : List (List ℕ)) → 0 < size_of bs → 0 < length bs
    some_left [] lt = lt
    some_left (b ∷ bs) lt = omega arith
