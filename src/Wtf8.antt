-- ===== src/Wtf8.antt =====
-- src/idna.c: the conversions between UTF-16 and WTF-8.
-- A WTF-8 string is the list of its bytes before the terminating NUL. The input of the conversions
-- from UTF-16 is the list of its units: those before the terminating NUL, if the length is given
-- as -1, or else the units of the given length.
pub mod Encode
pub mod Capacity
pub mod Length
mod Examples
use libuv.Prelude.{
  ℕ, zero, suc, ◌+◌, ◌-◌, ◌*◌, ◌/◌, ◌%◌, ◌^◌, Bool, true, false, not, ◌&&◌, ◌||◌, Option, none,
  some, List, [], ◌∷◌, ◌++◌, ltb, leb, ◌==◌, if◌then◌else◌, ◌>>=◌, length, take, drop,
}
use libuv.Errno.{uv_enobufs, uv_enomem, Status, ok, failed}
use libuv.Text.{char_at}

-- `(b & 0xC0) == 0x80`
abbrev pub is_continuation : ℕ → Bool
is_continuation b = b / 64 == 2

-- A code point, with what follows it in the string. `none` is -1. The bytes behind the end are
-- NULs, of which the code reads one at most.
unfoldable pub wtf8_decode1 : List ℕ → Option (ℕ × List ℕ)
wtf8_decode1 s =
    let b1 = char_at s 0 in
    let b2 = char_at s 1 in
    let b3 = char_at s 2 in
    let b4 = char_at s 3 in
    let two = b1 * 64 + b2 % 64 in
    let three = two * 64 + b3 % 64 in
    let four = (three * 64 + b4 % 64) % 2 ^ 21 in
    if leb b1 0x7f
    then some (b1, drop 1 s)
    else if ltb b1 0xc2
    then none
    else if not (is_continuation b2)
    then none
    else if leb b1 0xdf
    then some (two % 2 ^ 11, drop 2 s)
    else if not (is_continuation b3)
    then none
    else if leb b1 0xef
    then some (three % 2 ^ 16, drop 3 s)
    else if not (is_continuation b4)
    then none
    else if leb b1 0xf4 && leb four 0x10ffff
    then some (four, drop 4 s)
    else none

-- The units that one code point becomes.
unfoldable pub units_of : ℕ → List ℕ
units_of code_point =
    if ltb 0xffff code_point
    then ((code_point - 0x10000) / 2 ^ 10 + 0xd800)
      ∷ ((code_point - 0x10000) % 2 ^ 10 + 0xdc00)
      ∷ []
    else code_point ∷ []

-- The `do` loop of `uv_wtf8_length_as_utf16`, which also counts the NUL. Each round reads a byte at
-- least, so that one round more than there are bytes is enough; `none` is UV_EINVAL.
length_loop : ℕ → List ℕ → Option ℕ
length_loop zero s = none
length_loop (suc fuel) s = wtf8_decode1 s >>= λ (code_point, rest).
    let this = if ltb 0xffff code_point then 2 else 1 in
    elim s [ [] ↦ some this | _ ∷ _ ↦ length_loop fuel rest >>= λ n. some (this + n) ]

pub wtf8_length_as_utf16 : List ℕ → Option ℕ
wtf8_length_as_utf16 s = length_loop (suc (length s)) s

-- The units that `uv_wtf8_to_utf16` writes, the NUL among them; `none` is a failed assertion.
unfoldable pub to_utf16_loop : ℕ → List ℕ → Option (List ℕ)
to_utf16_loop zero s = none
to_utf16_loop (suc fuel) s = wtf8_decode1 s >>= λ (code_point, rest). elim s [
  | [] ↦ some (units_of code_point)
  | _ ∷ _ ↦ to_utf16_loop fuel rest >>= λ units. some (units_of code_point ++ units)
]

unfoldable pub wtf8_to_utf16 : List ℕ → Option (List ℕ)
wtf8_to_utf16 s = to_utf16_loop (suc (length s)) s

-- Whether the first two units are a surrogate pair.
abbrev pub is_pair : ℕ → ℕ → Bool
is_pair u next = (leb 0xd800 u && leb u 0xdbff) && (leb 0xdc00 next && leb next 0xdfff)

-- `uv__get_surrogate_value`, with the units that the caller goes on with.
pub surrogate_value : ℕ → List ℕ → ℕ × List ℕ
surrogate_value u [] = (u, [])
surrogate_value u (next ∷ rest) =
    if is_pair u next
    then (0x10000 + (u - 0xd800) * 2 ^ 10 + (next - 0xdc00), rest)
    else (u, next ∷ rest)

-- The number of bytes that a code point takes.
pub encoded_length : ℕ → ℕ
encoded_length code_point =
    if ltb code_point 0x80
    then 1
    else if ltb code_point 0x800
    then 2
    else if ltb code_point 0x10000
    then 3
    else 4

-- The loop of `uv_utf16_length_as_wtf8`; a round for each unit is enough.
pub length_as_wtf8 : ℕ → List ℕ → ℕ
length_as_wtf8 zero units = 0
length_as_wtf8 (suc fuel) [] = 0
length_as_wtf8 (suc fuel) (u ∷ units) =
    let (code_point, rest) = surrogate_value u units in
    encoded_length code_point + length_as_wtf8 fuel rest

pub utf16_length_as_wtf8 : List ℕ → ℕ
utf16_length_as_wtf8 units = length_as_wtf8 (length units) units

-- The bytes of a code point.
pub encode1 : ℕ → List ℕ
encode1 code_point =
    if ltb code_point 0x80
    then code_point ∷ []
    else if ltb code_point 0x800
    then (0xc0 + code_point / 2 ^ 6) ∷ (0x80 + code_point % 64) ∷ []
    else if ltb code_point 0x10000
    then (0xe0 + code_point / 2 ^ 12)
      ∷ (0x80 + code_point / 2 ^ 6 % 64)
      ∷ (0x80 + code_point % 64)
      ∷ []
    else (0xf0 + code_point / 2 ^ 18)
      ∷ (0x80 + code_point / 2 ^ 12 % 64)
      ∷ (0x80 + code_point / 2 ^ 6 % 64)
      ∷ (0x80 + code_point % 64)
      ∷ []

-- What the encoding loop leaves: the bytes up to `target`, `target_len`, and the units from
-- `w_source_ptr`.
pub record Encoded : Type 0 where
  pub bytes : List ℕ
  pub target_len : ℕ
  pub remaining : List ℕ

-- The loop, with `room` bytes left before `target_end`. A code point that does not fit is written
-- as far as it goes, and neither `target_len` nor `w_source_ptr` moves on. A round for each unit is
-- enough.
pub encode_loop : ℕ → ℕ → Encoded → Encoded
encode_loop zero room e = e
encode_loop (suc fuel) room e = elim e.remaining [
  | [] ↦ e
  | u ∷ units ↦
      let (code_point, rest) = surrogate_value u units in
      let next = encode1 code_point in
      let written = e.bytes ++ next in
      let more =
        encode_loop fuel (room - length next)
          (record { bytes = written; target_len = length written; remaining = rest }) in
      if room == 0
      then e
      else if ltb room (length next)
      then record e { bytes = e.bytes ++ take room next }
      else more
]

-- `uv_utf16_to_wtf8` into a buffer with room for `capacity` bytes and a NUL: the status, the bytes
-- before the NUL, and `*target_len_ptr`.
pub utf16_to_wtf8 : ℕ → List ℕ → Status × List ℕ × ℕ
utf16_to_wtf8 capacity units =
    let e =
      encode_loop (length units) capacity
        (record { bytes = []; target_len = capacity; remaining = units }) in
    if length e.remaining == 0
    then (ok, e.bytes, length e.bytes)
    else (failed uv_enobufs, e.bytes, e.target_len + utf16_length_as_wtf8 e.remaining)

-- With `*target_ptr` null the buffer is allocated, with just the room for the whole text; whether
-- `uv__malloc` gives it is the environment's.
pub utf16_to_wtf8_alloc : Bool → List ℕ → Status × List ℕ × ℕ
utf16_to_wtf8_alloc has_memory units =
    if has_memory
    then utf16_to_wtf8 (utf16_length_as_wtf8 units) units
    else (failed uv_enomem, [], utf16_length_as_wtf8 units)
