-- ===== src/Wtf8/Capacity.antt =====
-- src/idna.c: `uv_utf16_to_wtf8` and the size of its buffer.
use libuv.Prelude.{
  ℕ, zero, suc, ◌+◌, ◌-◌, ◌≤◌, ◌<◌, ◌≡◌, refl, sym, ◌∙◌, true, false, List, [], ◌∷◌, ◌++◌,
  append-nil, append_assoc, arith, ltb, ◌==◌, length, length-append, take,
}
use libuv.Errno.{uv_enobufs, ok, failed}
use libuv.Wtf8.{
  surrogate_value, encode1, encoded_length, length_as_wtf8, utf16_length_as_wtf8, encode_loop,
  utf16_to_wtf8,
}
use libuv.Wtf8.Encode.{encode}

encode1-encoded_length : (c : ℕ) → length (encode1 c) ≡ encoded_length c
unfolding encode1 encoded_length
encode1-encoded_length c = ground arith

encoded_length-pos : (c : ℕ) → 1 ≤ encoded_length c
unfolding encoded_length
encoded_length-pos c = ground arith

-- `uv_utf16_length_as_wtf8` is the number of bytes.
length-encode : (n : ℕ) (units : List ℕ) → length (encode n units) ≡ length_as_wtf8 n units
unfolding encode length_as_wtf8
length-encode zero units = refl
length-encode (suc n) [] = refl
length-encode (suc n) (u ∷ units) =
    let c = (surrogate_value u units).0 in
    let rest = (surrogate_value u units).1 in
    omega (
      arith,
      length-append (encode1 c) (encode n rest),
      encode1-encoded_length c,
      length-encode n rest,
    )

surrogate_value-shorter :
    (u : ℕ) (units : List ℕ) → length (surrogate_value u units).1 ≤ length units
unfolding surrogate_value
surrogate_value-shorter u [] = omega arith
surrogate_value-shorter u (next ∷ rest) = ground arith

encode_loop-step :
    (fuel room : ℕ) (bytes : List ℕ) (t u : ℕ) (units : List ℕ)
    → let (c, rest) = surrogate_value u units in
      length (encode1 c) ≤ room
      → 1 ≤ room
      → encode_loop
          (suc fuel)
          room
          (record { bytes = bytes; target_len = t; remaining = u ∷ units })
        ≡ encode_loop fuel (room - length (encode1 c)) (record {
          bytes = bytes ++ encode1 c;
          target_len = length (bytes ++ encode1 c);
          remaining = rest;
        })
unfolding encode_loop
encode_loop-step fuel room bytes t u units fits pos =
    let some_room : (room == 0) ≡ false = ground arith in
    let enough : ltb room (length (encode1 (surrogate_value u units).0)) ≡ false = ground arith in
    rw (some_room, enough, encode_loop) refl

encode_loop-enough :
    (fuel room t : ℕ) (bytes units : List ℕ)
    → length units ≤ fuel
    → length_as_wtf8 fuel units ≤ room
    → let e = encode_loop fuel room (record { bytes = bytes; target_len = t; remaining = units }) in
      (e.bytes ≡ bytes ++ encode fuel units) × (e.remaining ≡ [])
unfolding encode_loop encode length_as_wtf8
encode_loop-enough zero room t bytes [] le fits = (sym (append-nil bytes), refl)
encode_loop-enough (suc fuel) room t bytes [] le fits = (sym (append-nil bytes), refl)
encode_loop-enough zero room t bytes (u ∷ units) le fits = absurd (omega arith)
encode_loop-enough (suc fuel) room t bytes (u ∷ units) le fits =
    let c = (surrogate_value u units).0 in
    let rest = (surrogate_value u units).1 in
    let size = encode1-encoded_length c in
    let pos = encoded_length-pos c in
    let (all, none_left) =
      encode_loop-enough fuel (room - length (encode1 c)) (length (bytes ++ encode1 c))
        (bytes ++ encode1 c) rest (omega (arith, surrogate_value-shorter u units))
        (omega (arith, size)) in
    rw (encode_loop-step fuel room bytes t u units (omega (arith, size)) (omega (arith, pos)))
      (all ∙ append_assoc bytes (encode1 c) (encode fuel rest), none_left)

-- With room for `uv_utf16_length_as_wtf8` bytes `uv_utf16_to_wtf8` succeeds. It writes the bytes of
-- all the code points, as many as that length says, and reports their number.
pub utf16_to_wtf8-enough :
    (capacity : ℕ) (units : List ℕ)
    → utf16_length_as_wtf8 units ≤ capacity
    → let bytes = encode (length units) units in
      (utf16_to_wtf8 capacity units ≡ (ok, bytes, length bytes))
      × (length bytes ≡ utf16_length_as_wtf8 units)
unfolding utf16_to_wtf8 utf16_length_as_wtf8
utf16_to_wtf8-enough capacity units fits =
    let (all, none_left) =
      encode_loop-enough (length units) capacity capacity [] units (omega arith) fits in
    (rw (none_left, all) refl, length-encode (length units) units)

-- If the first code point does not fit into a buffer that is not empty, UV_ENOBUFS comes with the
-- length of the whole text and, besides, the capacity of the buffer.
pub utf16_to_wtf8-overcount :
    (capacity u : ℕ) (units : List ℕ)
    → 0 < capacity
    → capacity < encoded_length (surrogate_value u units).0
    → utf16_to_wtf8 capacity (u ∷ units) ≡ (
      failed uv_enobufs,
      take capacity (encode1 (surrogate_value u units).0),
      capacity + utf16_length_as_wtf8 (u ∷ units),
    )
unfolding utf16_to_wtf8 encode_loop
utf16_to_wtf8-overcount capacity u units pos short =
    let some_room : (capacity == 0) ≡ false = ground arith in
    let long : ltb capacity (length (encode1 (surrogate_value u units).0)) ≡ true =
      ground (arith, encode1-encoded_length (surrogate_value u units).0) in
    let left : (suc (length units) == 0) ≡ false = ground arith in rw (some_room, long, left) refl
