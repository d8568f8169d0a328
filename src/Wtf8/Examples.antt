-- ===== src/Wtf8/Examples.antt =====
-- src/idna.c: conversions of a text with an unpaired surrogate.
use libuv.Prelude.{ℕ, ◌+◌, ◌<◌, ◌++◌, ◌≡◌, refl, true, some, List, [], ◌∷◌, length, arith}
use libuv.Errno.{ok}
use libuv.Wtf8.{
  wtf8_length_as_utf16, wtf8_to_utf16, utf16_length_as_wtf8, utf16_to_wtf8, utf16_to_wtf8_alloc,
  surrogate_value, encoded_length, length_as_wtf8, to_utf16_loop, wtf8_decode1, units_of,
}
use libuv.Wtf8.Encode.{encode}
use libuv.Wtf8.Capacity.{utf16_to_wtf8-enough}
use libuv.Wtf8.Length.{utf16_to_wtf8_alloc-to_utf16}

abbrev units : List ℕ
units = 0xd83d ∷ 0xde00 ∷ 0xd800 ∷ 97 ∷ []

utf16_to_wtf8_alloc-to_utf16_example :
    let r = utf16_to_wtf8_alloc true units in
    (r.0 ≡ ok)
    × (r.2 ≡ utf16_length_as_wtf8 units)
    × (length r.1 ≡ utf16_length_as_wtf8 units)
    × (wtf8_length_as_utf16 r.1 ≡ some (4 + 1))
    × (wtf8_to_utf16 r.1 ≡ some (units ++ 0 ∷ []))
utf16_to_wtf8_alloc-to_utf16_example = utf16_to_wtf8_alloc-to_utf16 units (omega arith)

wtf8_length : utf16_length_as_wtf8 units ≡ 8
unfolding utf16_length_as_wtf8 length_as_wtf8 surrogate_value encoded_length
wtf8_length = refl

utf16_to_wtf8-enough_example :
    (utf16_to_wtf8 9 units
      ≡ (ok, encode (length units) units, length (encode (length units) units)))
    × (length (encode (length units) units) ≡ utf16_length_as_wtf8 units)
utf16_to_wtf8-enough_example = utf16_to_wtf8-enough 9 units (rw wtf8_length (omega arith))

too_long : 3 < encoded_length (surrogate_value 0xd83d (0xde00 ∷ [])).0
unfolding surrogate_value encoded_length
too_long = omega arith

-- Three bytes that encode zero in an overlong way are decoded, to a NUL in the middle of the text.
overlong_nul : wtf8_to_utf16 (0xe0 ∷ 0x80 ∷ 0x80 ∷ 97 ∷ []) ≡ some (0 ∷ 97 ∷ 0 ∷ [])
unfolding wtf8_to_utf16 to_utf16_loop wtf8_decode1 units_of
overlong_nul = refl
