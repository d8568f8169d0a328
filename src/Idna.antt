-- ===== src/Idna.antt =====
-- src/idna.c: the UTF-8 decoder and the translation of a host name to its ASCII form.
-- A pointer and the end of its buffer are the list of the bytes between them; the destination is
-- what has been written with the room that is left. An `unsigned` is a number below 2 ^ 32. Every
-- `while (s < se)` of a label decodes it again; since the first of them has checked it, they all
-- walk over the code points that this one gives (`decode_loop`).
pub mod Ascii
pub mod Utf8
pub mod Malformed
mod Examples
use libuv.Prelude.{
  ℕ, zero, suc, ◌+◌, ◌-◌, ◌*◌, ◌/◌, ◌%◌, ◌^◌, Bool, true, false, not, ◌&&◌, ◌||◌, Option, none,
  some, List, [], ◌∷◌, ◌++◌, ltb, leb, ◌==◌, if◌then◌else◌, length, take, ◌>>=◌,
}
use libuv.Errno.{Errno, uv_einval, uv_e2big}

-- From the check of the continuation bytes on. Of `b ^ c ^ d` only the two top bits are read.
pub join_sequence : ℕ → ℕ → ℕ → ℕ → ℕ → Option ℕ
join_sequence min a b c d =
    let bit7 = (b / 128 + c / 128 + d / 128) % 2 in
    let bit6 = (b / 64 + c / 64 + d / 64) % 2 in
    let point = a * 2 ^ 18 + b % 64 * 2 ^ 12 + c % 64 * 2 ^ 6 + d % 64 in
    if not (bit7 == 1 && bit6 == 0)
      || ltb point min
      || ltb 0x10FFFF point
      || leb 0xD800 point && leb point 0xDFFF
    then none
    else some point

-- `case 1`, then `case 0`.
pub two_bytes : ℕ → List ℕ → Option ℕ × List ℕ
unfolding join_sequence
two_bytes a [] = (none, [])
two_bytes a (d ∷ p) =
    if ltb 0xBF a then (join_sequence 0x80 0 0x80 (0x80 + a % 32) d, p) else (none, d ∷ p)

-- `case 2`.
pub three_bytes : ℕ → List ℕ → Option ℕ × List ℕ
unfolding join_sequence two_bytes
three_bytes a (c ∷ d ∷ p) =
    if ltb 0xDF a then (join_sequence 0x800 0 (0x80 + a % 16) c d, p) else two_bytes a (c ∷ d ∷ p)
three_bytes a p = two_bytes a p

pub utf8_decode1_slow : List ℕ → ℕ → Option ℕ × List ℕ
unfolding join_sequence three_bytes
utf8_decode1_slow (b ∷ c ∷ d ∷ p) a =
    if ltb 0xF7 a
    then (none, b ∷ c ∷ d ∷ p)
    else if ltb 0xEF a
    then (join_sequence 0x10000 (a % 8) b c d, p)
    else three_bytes a (b ∷ c ∷ d ∷ p)
utf8_decode1_slow p a = if ltb 0xF7 a then (none, p) else three_bytes a p

-- The result is `none` for `-1`, which is `UINT_MAX`. The pointer is below the end.
pub utf8_decode1 : List ℕ → Option ℕ × List ℕ
unfolding utf8_decode1_slow
utf8_decode1 [] = (none, [])
utf8_decode1 (a ∷ p) = if ltb a 128 then (some a, p) else utf8_decode1_slow p a

-- The code points of a label, by the loop that checks them.
pub decode_loop : ℕ → List ℕ → Option (List ℕ)
decode_loop zero s = none
decode_loop (suc fuel) [] = some []
decode_loop (suc fuel) (b ∷ s) =
    let r = utf8_decode1 (b ∷ s) in r.0 >>= λ c. decode_loop fuel r.1 >>= λ cs. some (c ∷ cs)

-- `h` and `todo` after it.
pub ascii_count : List ℕ → ℕ
ascii_count [] = 0
ascii_count (c ∷ cs) = if ltb c 128 then suc (ascii_count cs) else ascii_count cs

-- What stands between the start of the destination and `*d`, and `de - *d`.
pub record Output : Type 0 where
  pub written : List ℕ
  pub room : ℕ

-- `if (*d < de) *(*d)++ = c;`
pub put : Output → ℕ → Output
put o c = if o.room == 0 then o else record { written = o.written ++ c ∷ []; room = o.room - 1 }

pub put_prefix : Output → Output
unfolding put
put_prefix o = put (put (put (put o 120) 110) 45) 45

-- The ASCII characters, to the last of the `h`; `x` have been written.
pub ascii_loop : ℕ → ℕ → List ℕ → Output → Output
unfolding put
ascii_loop h x [] o = o
ascii_loop h x (c ∷ cs) o = elim (ltb 127 c) [
  | true ↦ ascii_loop h x cs o
  | false ↦ elim (suc x == h) [ true ↦ put o c | false ↦ ascii_loop h (suc x) cs (put o c) ]
]

-- `alphabet[t]`
pub alphabet : ℕ → ℕ
alphabet t = if ltb t 26 then 97 + t else 48 + (t - 26)

pub threshold : ℕ → ℕ → ℕ
threshold k bias = let t = if ltb bias k then k - bias else 1 in if ltb 26 t then 26 else t

-- The digits of `q`, as the `for` over `k` and the line after it write them.
pub digit_loop : ℕ → ℕ → ℕ → ℕ → Output → Option Output
unfolding put alphabet threshold
digit_loop zero k q bias o = none
digit_loop (suc fuel) k q bias o =
    let t = threshold k bias in
    elim (ltb q t) [
      | true ↦ some (put o (alphabet q))
      | false ↦
          let x = q - t in
          let y = 36 - t in digit_loop fuel (k + 36) (x / y) bias (put o (alphabet (t + x % y)))
    ]

-- `for (bias = 0; delta > 35 * 26 / 2; bias += 36) delta /= 35;`
pub bias_loop : ℕ → ℕ → ℕ → Option (ℕ × ℕ)
bias_loop zero bias delta = none
bias_loop (suc fuel) bias delta = elim (ltb (35 * 26 / 2) delta) [
  | true ↦ bias_loop fuel (bias + 36) (delta / 35)
  | false ↦ some (bias, delta)
]

-- The variables of the outer `while`.
pub record Punycode : Type 0 where
  pub h : ℕ
  pub todo : ℕ
  pub bias : ℕ
  pub delta : ℕ
  pub first : Bool
  pub out : Output

-- A label's result: the return value, or one of the `UV_E...` codes.
pub data Rc (A : Type 0) : Type 0 where
  returned : A → Rc A
  error : Errno → Rc A

-- A code point that is `n`: its digits, and the new bias. `none` is a loop without fuel.
pub encode_delta : Punycode → Option Punycode
unfolding digit_loop bias_loop
encode_delta s = digit_loop (suc s.delta) 36 s.delta s.bias s.out >>= λ o.
    let halved = s.delta / 2 in
    let damped = if s.first then halved / 350 else halved in
    let grown = damped + damped / suc s.h in
    bias_loop (suc grown) 0 grown >>= λ b. some (record {
      h = suc s.h;
      todo = s.todo - 1;
      bias = b.0 + 36 * b.1 / (b.1 + 38);
      delta = 0;
      first = false;
      out = o;
    })

pub point_step : ℕ → ℕ → Punycode → Option (Rc Punycode)
unfolding encode_delta
point_step n c s = elim (ltb c n) [
  | true ↦
      let more = (s.delta + 1) % 2 ^ 32 in
      if more == 0 then some (error uv_e2big) else some (returned (record s { delta = more }))
  | false ↦ if c == n then (encode_delta s >>= λ next. some (returned next)) else some (returned s)
]

pub point_loop : ℕ → List ℕ → Punycode → Option (Rc Punycode)
unfolding point_step
point_loop n [] s = some (returned s)
point_loop n (c ∷ cs) s =
    point_step n c s >>= λ r. elim r [ error e ↦ some (error e) | returned s' ↦ point_loop n cs s' ]

-- `m`: the least code point that is not below `n`.
pub least_from : ℕ → ℕ → List ℕ → ℕ
least_from n m [] = m
least_from n m (c ∷ cs) = least_from n (if leb n c && ltb c m then c else m) cs

-- The outer `while`. Each round has at least one code point that is `m`.
pub round_loop : ℕ → ℕ → List ℕ → Punycode → Option (Rc Punycode)
unfolding point_loop least_from
round_loop zero n cs s = if s.todo == 0 then some (returned s) else none
round_loop (suc fuel) n cs s = elim (s.todo == 0) [
  | true ↦ some (returned s)
  | false ↦
      let m = least_from n (2 ^ 32 - 1) cs in
      let x = m - n in
      let y = s.h + 1 in
      elim (ltb ((2 ^ 32 - 1 - s.delta) / y) x) [
        | true ↦ some (error uv_e2big)
        | false ↦ point_loop m cs (record s { delta = s.delta + x * y }) >>= λ r. elim r [
          | error e ↦ some (error e)
          | returned s' ↦ round_loop fuel (m + 1) cs (record s' { delta = (s'.delta + 1) % 2 ^ 32 })
        ]
      ]
]
