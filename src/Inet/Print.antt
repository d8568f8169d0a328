-- ===== src/Inet/Print.antt =====
-- src/inet.c: addresses to text.
use libuv.Prelude.{
  ℕ, zero, suc, ◌+◌, ◌-◌, ◌*◌, ◌/◌, ◌%◌, Bool, false, not, ◌&&◌, ◌||◌, Option, none, some, List, [],
  ◌∷◌, ◌++◌, ltb, leb, ◌==◌, if◌then◌else◌, ◌>>=◌, length,
}
use libuv.Errno.{uv_enospc, Status, ok, failed}
use libuv.Text.{char_at, strscpy}

-- What `snprintf` writes for `%u` and `%x`, of a number with at most `fuel` digits.
pub decimal_digits : ℕ → ℕ → List ℕ
decimal_digits zero n = []
decimal_digits (suc fuel) n =
    let rest = decimal_digits fuel (n / 10) in
    if ltb n 10 then (b'0' + n) ∷ [] else rest ++ (b'0' + n % 10) ∷ []

-- An `unsigned int` has at most 10 decimal and 8 hexadecimal digits.
unfoldable pub decimal : ℕ → List ℕ
unfolding decimal_digits
decimal n = decimal_digits 10 n

pub hex_char : ℕ → ℕ
hex_char d = if ltb d 10 then b'0' + d else b'a' + (d - 10)

pub hex_digits : ℕ → ℕ → List ℕ
unfolding hex_char
hex_digits zero n = []
hex_digits (suc fuel) n =
    let rest = hex_digits fuel (n / 16) in
    if ltb n 16 then hex_char n ∷ [] else rest ++ hex_char (n % 16) ∷ []

unfoldable pub hex : ℕ → List ℕ
unfolding hex_digits
hex n = hex_digits 8 n

-- `"%u.%u.%u.%u"` of the first four bytes.
unfoldable pub dotted_quad : List ℕ → List ℕ
dotted_quad src =
    decimal (char_at src 0)
    ++ b'.'
      ∷ (decimal (char_at src 1)
          ++ b'.' ∷ (decimal (char_at src 2) ++ b'.' ∷ decimal (char_at src 3)))

-- The text, if it fits into `size` bytes with its NUL.
unfoldable pub text4 : List ℕ → ℕ → Option (List ℕ)
text4 src size =
    let l = length (dotted_quad src) in
    if l == 0 || leb size l then none else some (dotted_quad src)

-- The buffer `dst` after the call stands beside the status.
unfoldable pub inet_ntop4 : List ℕ → List ℕ → ℕ → Status × List ℕ
inet_ntop4 src dst size = elim (text4 src size) [
  | none ↦ (failed uv_enospc, dst)
  | some tmp ↦ (ok, (strscpy dst tmp size).1)
]

-- `words[i / 2] |= src[i] << ((1 - (i % 2)) << 3)`
pub words_of : List ℕ → List ℕ
words_of [] = []
words_of (hi ∷ []) = hi * 256 ∷ []
words_of (hi ∷ lo ∷ src) = (hi * 256 + lo) ∷ words_of src

-- A run of zero words; no base stands for -1.
pub record Run : Type 0 where
  pub base : Option ℕ
  pub len : ℕ

abbrev pub no_run : Run
no_run = record { base = none; len = 0 }

-- The run that `best` becomes when `cur` ends.
pub close_run : Run → Run → Run
close_run best cur = elim cur.base [
  | none ↦ best
  | some _ ↦ elim best.base [ none ↦ cur | some _ ↦ if ltb best.len cur.len then cur else best ]
]

-- The loop over the words from index `i`, and the lines behind it.
pub find_run : List ℕ → ℕ → Run → Run → Run
unfolding close_run
find_run [] i best cur = close_run best cur
find_run (w ∷ words) i best cur =
    let more = find_run words (i + 1) best (elim cur.base [
      | none ↦ record { base = some i; len = 1 }
      | some b ↦ record { base = some b; len = cur.len + 1 }
    ]) in
    let next = find_run words (i + 1) (close_run best cur) (record cur { base = none }) in
    if w == 0 then more else next

pub best_run : List ℕ → Run
unfolding find_run
best_run words =
    let best = find_run words 0 no_run no_run in
    if ltb best.len 2 then record best { base = none } else best

-- `best.base != -1 && i >= best.base && i < best.base + best.len`, and `i == best.base`.
pub in_run : Run → ℕ → Bool
in_run best i = elim best.base [ none ↦ false | some b ↦ leb b i && ltb i (b + best.len) ]

pub at_base : Run → ℕ → Bool
at_base best i = elim best.base [ none ↦ false | some b ↦ i == b ]

-- Whether an IPv4 address is encapsulated.
pub holds_four : Run → List ℕ → Bool
unfolding at_base
holds_four best words =
    at_base best 0
    && (best.len == 6
        || (best.len == 7 && not (char_at words 7 == 1)
            || best.len == 5 && char_at words 5 == 0xffff))

-- `sizeof(tmp)`, UV__INET6_ADDRSTRLEN
abbrev pub tmp_size : ℕ
tmp_size = 46

-- The formatting loop: the words from index `i`, and what is written.
module _ (src words : List ℕ) (best : Run) where
  pub format : List ℕ → ℕ → List ℕ → Option (List ℕ)
  unfolding holds_four in_run at_base
  format [] i out = some out
  format (w ∷ rest) i out =
      let out' = if i == 0 then out else out ++ b':' ∷ [] in
      let skip = format rest (i + 1) (if at_base best i then out ++ b':' ∷ [] else out) in
      let next = format rest (i + 1) (out' ++ hex w) in
      if in_run best i
      then skip
      else if i == 6 && holds_four best words
      then (text4 (char_at src 12 ∷ char_at src 13 ∷ char_at src 14 ∷ char_at src 15 ∷ [])
            (tmp_size - length out')
          >>= λ quad. some (out' ++ quad))
      else next

-- `none` is the error of `inet_ntop4`.
unfoldable pub text6 : List ℕ → Option (List ℕ)
unfolding format best_run words_of
text6 src =
    let words = words_of src in
    let best = best_run words in
    format src words best words 0 [] >>= λ tp.
    some (elim best.base [ none ↦ tp | some b ↦ if b + best.len == 8 then tp ++ b':' ∷ [] else tp ])

unfoldable pub inet_ntop6 : List ℕ → List ℕ → ℕ → Status × List ℕ
inet_ntop6 src dst size = elim (text6 src) [
  | none ↦ (failed uv_enospc, dst)
  | some tmp ↦
      if ltb size (length tmp + 1) then (failed uv_enospc, dst) else (ok, (strscpy dst tmp size).1)
]
