-- ===== src/Wtf8/Length.antt =====
-- src/idna.c: `uv_wtf8_length_as_utf16` and `uv_wtf8_to_utf16` on the same text.
use mathlib.Core.Option
use libuv.Prelude.{
  ℕ, zero, suc, ◌+◌, ◌≡◌, refl, ap, sym, ◌∙◌, Option, true, none, some, List, [], ◌∷◌, ◌++◌, arith,
  All, ltb, ◌>>=◌, if◌then◌else◌, inl, inr, length, length-append, Option-cases,
}
use libuv.Errno.{ok}
use libuv.Wtf8.{
  wtf8_decode1, units_of, length_loop, wtf8_length_as_utf16, to_utf16_loop, wtf8_to_utf16,
  utf16_length_as_wtf8, utf16_to_wtf8_alloc,
}
use libuv.Wtf8.Encode.{encode, IsUnit, wtf8_to_utf16-encode}
use libuv.Wtf8.Capacity.{utf16_to_wtf8-enough}

length-units_of : (c : ℕ) → length (units_of c) ≡ (if ltb 0xffff c then 2 else 1)
unfolding units_of
length-units_of c = ground arith

counted :
    (c : ℕ) (r : Option (List ℕ))
    → (Option.map length r >>= λ n. some ((if ltb 0xffff c then 2 else 1) + n))
      ≡ Option.map length (r >>= λ units. some (units_of c ++ units))
counted c none = refl
counted c (some units) =
    ap some (omega (arith, length-append (units_of c) units, length-units_of c))

length_loop-to_utf16_loop :
    (fuel : ℕ) (s : List ℕ) → length_loop fuel s ≡ Option.map length (to_utf16_loop fuel s)
unfolding length_loop to_utf16_loop
length_loop-to_utf16_loop zero s = refl
length_loop-to_utf16_loop (suc fuel) [] = elim (Option-cases (wtf8_decode1 [])) [
  | inl e ↦ rw e refl
  | inr ((c, rest), e) ↦ rw e (ap some (sym (length-units_of c)))
]
length_loop-to_utf16_loop (suc fuel) (b ∷ s) = elim (Option-cases (wtf8_decode1 (b ∷ s))) [
  | inl e ↦ rw e refl
  | inr ((c, rest), e) ↦
      rw (e, length_loop-to_utf16_loop fuel rest) (counted c (to_utf16_loop fuel rest))
]

-- On any bytes `uv_wtf8_length_as_utf16` fails if and only if `uv_wtf8_to_utf16` would, and
-- otherwise it is the number of units that `uv_wtf8_to_utf16` writes, the NUL among them.
pub wtf8_length_as_utf16-to_utf16 :
    (s : List ℕ) → wtf8_length_as_utf16 s ≡ Option.map length (wtf8_to_utf16 s)
unfolding wtf8_length_as_utf16 wtf8_to_utf16
wtf8_length_as_utf16-to_utf16 s = length_loop-to_utf16_loop (suc (length s)) s

-- From any UTF-16 units without NUL, unpaired surrogates included, `uv_utf16_to_wtf8` with no buffer
-- given, if there is memory for one, makes a WTF-8 text of `uv_utf16_length_as_wtf8` bytes. `uv_wtf8_length_as_utf16` of it counts
-- the units and a NUL, and `uv_wtf8_to_utf16` gives just these back.
pub utf16_to_wtf8_alloc-to_utf16 :
    (units : List ℕ)
    → All IsUnit units
    → let r = utf16_to_wtf8_alloc true units in
      (r.0 ≡ ok)
      × (r.2 ≡ utf16_length_as_wtf8 units)
      × (length r.1 ≡ utf16_length_as_wtf8 units)
      × (wtf8_length_as_utf16 r.1 ≡ some (length units + 1))
      × (wtf8_to_utf16 r.1 ≡ some (units ++ 0 ∷ []))
unfolding utf16_to_wtf8_alloc
utf16_to_wtf8_alloc-to_utf16 units all =
    let (e, size) = utf16_to_wtf8-enough (utf16_length_as_wtf8 units) units (omega arith) in
    let back = wtf8_to_utf16-encode units all in
    rw e (
      refl,
      size,
      size,
      wtf8_length_as_utf16-to_utf16 (encode (length units) units)
          ∙ ap (Option.map length) back
          ∙ ap some (length-append units (0 ∷ [])),
      back,
    )
