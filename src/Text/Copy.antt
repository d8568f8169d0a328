-- ===== src/Text/Copy.antt =====
-- src/strscpy.c: what `uv__strscpy` copies.
use libuv.Prelude.{
  if◌then◌else◌, ltb, inl, inr, Bool-cases, ℕ, zero, suc, ◌+◌, ◌-◌, ◌≤◌, ◌<◌, ◌≡◌, ◌≢◌, refl, ap,
  false, Option, none, some, List, [], ◌∷◌, ◌++◌, arith, All, ltb, ◌==◌, length, set, take, drop,
  length-append, append_assoc, sym, ◌∙◌,
}
use libuv.Errno.{uv_e2big}
use libuv.Text.{Length, len, err, char_at, ssize_max, copy_loop, after_loop, strscpy}

char_at-append : (done s : List ℕ) → char_at (done ++ s) (length done) ≡ char_at s 0
char_at-append [] s = refl
char_at-append (c ∷ done) s = char_at-append done s

set-append : (done d : List ℕ) (v : ℕ) → set (done ++ d) (length done) v ≡ done ++ set d 0 v
set-append [] d v = refl
set-append (c ∷ done) d v = ap (◌∷◌ c) (set-append done d v)

length-concat : (done : List ℕ) (c : ℕ) → length (done ++ c ∷ []) ≡ length done + 1
length-concat done c = omega (arith, length-append done (c ∷ []))

concat : (done : List ℕ) (c : ℕ) (s : List ℕ) → done ++ c ∷ s ≡ (done ++ c ∷ []) ++ s
concat done c s = sym (append_assoc done (c ∷ []) s)

-- One round that copies a character which is not the NUL, with `done` already copied.
copy_loop-round :
    (rounds : ℕ) (done : List ℕ) (c : ℕ) (s : List ℕ) (x : ℕ) (d : List ℕ)
    → c ≢ 0
    → copy_loop (suc rounds) (length done) (done ++ x ∷ d) (done ++ c ∷ s)
      ≡ copy_loop rounds (length (done ++ c ∷ [])) ((done ++ c ∷ []) ++ d) ((done ++ c ∷ []) ++ s)
unfolding copy_loop
copy_loop-round rounds done c s x d ne =
    let more : (c == 0) ≡ false = ground arith in
    rw
      (
        char_at-append done (c ∷ s),
        more,
        set-append done (x ∷ d) c,
        length-concat done c,
        ← concat done c d,
        ← concat done c s,
      )
      refl

copied :
    {a b : List ℕ} (n m : ℕ)
    → n ≡ m
    → a ≡ b
    → ◌≡◌ {A = Option Length × List ℕ} (some (len n), b) (some (len m), a)
copied n m e f = cc

copy_loop-short :
    (s : List ℕ) (rounds : ℕ) (done d : List ℕ)
    → All (λ c. c ≢ 0) s
    → length s < rounds
    → rounds ≤ length d
    → length done + length s ≤ ssize_max
    → copy_loop rounds (length done) (done ++ d) (done ++ s)
      ≡ (some (len (length done + length s)), done ++ (s ++ 0 ∷ drop (suc (length s)) d))
unfolding copy_loop
copy_loop-short [] (suc rounds) done (x ∷ d) all more room fits =
    let small : ltb ssize_max (length done) ≡ false = ground arith in
    let whole : length done + 0 ≡ length done = omega arith in
    rw (whole, copy_loop, char_at-append done [], small, set-append done (x ∷ d) 0) refl
copy_loop-short (c ∷ s) (suc rounds) done (x ∷ d) all more room fits =
    copy_loop-round rounds done c s x d all.0
    ∙ copy_loop-short s rounds (done ++ c ∷ []) d all.1 (omega arith) (omega arith)
        (omega (arith, length-concat done c))
    ∙ copied (length (done ++ c ∷ []) + length s) (length done + suc (length s))
        (omega (arith, length-concat done c)) (concat done c (s ++ 0 ∷ drop (suc (length s)) d))
copy_loop-short s zero done d all more room fits = absurd (omega arith)
copy_loop-short s (suc rounds) done [] all more room fits = absurd (omega arith)

copy_loop-long :
    (rounds : ℕ) (s done d : List ℕ)
    → All (λ c. c ≢ 0) s
    → rounds ≤ length s
    → rounds ≤ length d
    → copy_loop rounds (length done) (done ++ d) (done ++ s)
      ≡ (none, done ++ (take rounds s ++ drop rounds d))
unfolding copy_loop
copy_loop-long zero s done d all more room = refl
copy_loop-long (suc rounds) (c ∷ s) done (x ∷ d) all more room =
    copy_loop-round rounds done c s x d all.0
    ∙ copy_loop-long rounds s (done ++ c ∷ []) d all.1 (omega arith) (omega arith)
    ∙ ap (λ z. (none, z)) (sym (concat done c (take rounds s ++ drop rounds d)))
copy_loop-long (suc rounds) [] done d all more room = absurd (omega arith)
copy_loop-long (suc rounds) (c ∷ s) done [] all more room = absurd (omega arith)

-- What the call leaves, for a buffer of at least `n` bytes. The string and its NUL, if they fit. The
-- first `n - 1` bytes and a NUL, with an error, if they do not. Nothing, if `n` is 0. The rest of
-- the buffer is not touched.
abbrev Copies : List ℕ → List ℕ → ℕ → Length × List ℕ → Type 0
Copies d s n (r, d') =
    (length s < n → (r ≡ len (length s)) × (d' ≡ s ++ 0 ∷ drop (suc (length s)) d))
    × (n ≡ 0 → (r ≡ len 0) × (d' ≡ d))
    × (n ≤ length s → 0 < n → (r ≡ err uv_e2big) × (d' ≡ take (n - 1) s ++ 0 ∷ drop n d))

set-last :
    (n : ℕ) (s d : List ℕ)
    → suc n ≤ length s
    → suc n ≤ length d
    → set (take (suc n) s ++ drop (suc n) d) n 0 ≡ take n s ++ 0 ∷ drop (suc n) d
set-last zero (c ∷ s) (x ∷ d) p q = refl
set-last (suc n) (c ∷ s) (x ∷ d) p q = ap (◌∷◌ c) (set-last n s d (omega arith) (omega arith))
set-last n [] d p q = absurd (omega arith)
set-last n (c ∷ s) [] p q = absurd (omega arith)

strscpy-short :
    (d s : List ℕ) (n : ℕ)
    → All (λ c. c ≢ 0) s
    → n ≤ length d
    → length s < n
    → length s ≤ ssize_max
    → strscpy d s n ≡ (len (length s), s ++ 0 ∷ drop (suc (length s)) d)
unfolding strscpy after_loop
strscpy-short d s n all room short fits =
    let zero_add : 0 + length s ≡ length s = omega arith in
    let run : copy_loop n 0 d s ≡ (some (len (length s)), s ++ 0 ∷ drop (suc (length s)) d) =
      rw zero_add at (copy_loop-short s n [] d all short room (omega arith)) in
    ap (after_loop n) run

strscpy-long :
    (d s : List ℕ) (n : ℕ)
    → All (λ c. c ≢ 0) s
    → suc n ≤ length d
    → suc n ≤ length s
    → strscpy d s (suc n) ≡ (err uv_e2big, take n s ++ 0 ∷ drop (suc n) d)
unfolding strscpy after_loop
strscpy-long d s n all room long =
    let run : copy_loop (suc n) 0 d s ≡ (none, take (suc n) s ++ drop (suc n) d) =
      copy_loop-long (suc n) s [] d all long room in
    let last : suc n - 1 ≡ n = omega arith in
    let some_room : (suc n == 0) ≡ false = ground arith in
    ap (after_loop (suc n)) run ∙ rw (some_room, last, set-last n s d long room) refl

strscpy-Copies :
    (d s : List ℕ) (n : ℕ)
    → All (λ c. c ≢ 0) s
    → n ≤ length d
    → length s ≤ ssize_max
    → Copies d s n (strscpy d s n)
unfolding strscpy after_loop copy_loop
strscpy-Copies d s n all room fits = (
  λ short. parts (strscpy-short d s n all room short fits),
  λ none_left. rw none_left (refl, refl),
  λ long some_left.
      let e : n ≡ suc (n - 1) = omega arith in rw e (again (n - 1) (omega arith) (omega arith)),
)
  where
    parts :
        {r : Length} {b : List ℕ}
        → strscpy d s n ≡ (r, b)
        → ((strscpy d s n).0 ≡ r) × ((strscpy d s n).1 ≡ b)
    parts e = (ap (λ (t : Length × List ℕ). t.0) e, ap (λ (t : Length × List ℕ). t.1) e)

    again :
        (m : ℕ)
        → suc m ≤ length s
        → suc m ≤ length d
        → ((strscpy d s (suc m)).0 ≡ err uv_e2big)
          × ((strscpy d s (suc m)).1 ≡ take (suc m - 1) s ++ 0 ∷ drop (suc m) d)
    again m p q =
        let e = strscpy-long d s m all q p in
        let last : suc m - 1 ≡ m = omega arith in
        rw last (ap (λ (t : Length × List ℕ). t.0) e, ap (λ (t : Length × List ℕ). t.1) e)

-- `uv__strscpy` into a buffer of at least `n` bytes, of a string shorter than 2 ^ 63. A string
-- that fits with its NUL is copied whole, and its length is the result. If `n` is 0, the result is
-- 0 and nothing is written. Of any other string the first `n - 1` bytes and a NUL are written, and
-- the result is UV_E2BIG. The rest of the buffer is not touched.
pub strscpy-copies :
    (d s : List ℕ) (n : ℕ)
    → All (λ c. c ≢ 0) s
    → n ≤ length d
    → length s ≤ ssize_max
    → strscpy d s n ≡ (
        if ltb (length s) n
        then (len (length s), s ++ 0 ∷ drop (suc (length s)) d)
        else if n == 0
        then (len 0, d)
        else (err uv_e2big, take (n - 1) s ++ 0 ∷ drop n d))
strscpy-copies d s n all room fits =
    let (short, empty, long) = strscpy-Copies d s n all room fits in
    elim (Bool-cases (ltb (length s) n)) [
      | inl yes_fits ↦ let (r, b) = short (ground arith) in rw yes_fits (both (strscpy d s n) r b)
      | inr too_long ↦ elim (Bool-cases (n == 0)) [
        | inl none_left ↦
            let (r, b) = empty (ground arith) in rw (too_long, none_left) (both (strscpy d s n) r b)
        | inr some_left ↦
            let (r, b) = long (ground arith) (ground arith) in
            rw (too_long, some_left) (both (strscpy d s n) r b)
      ]
    ]
  where
    both : (p : Length × List ℕ) {r : Length} {b : List ℕ} → p.0 ≡ r → p.1 ≡ b → p ≡ (r, b)
    both p e f = λ i. (e i, f i)
