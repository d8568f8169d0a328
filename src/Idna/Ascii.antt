-- ===== src/Idna/Ascii.antt =====
-- src/idna.c: `uv__idna_toascii_label` and `uv__idna_toascii`.
use libuv.Prelude.{
  ℕ, zero, suc, ◌+◌, ◌-◌, Bool, true, false, ◌||◌, Option, none, some, List, [], ◌∷◌, ◌++◌, ltb,
  ◌==◌, ◌≡◌, refl, if◌then◌else◌, length, take, ◌>>=◌,
}
use libuv.Errno.{uv_einval}
use libuv.Idna.{
  utf8_decode1, decode_loop, ascii_count, Output, put, put_prefix, ascii_loop, Rc, returned, error,
  round_loop,
}

-- After the first loop. `none` is a loop without fuel.
pub label_points : List ℕ → Output → Option (Rc (ℕ × Output))
unfolding ascii_count put put_prefix ascii_loop round_loop
label_points cs o =
    let h = ascii_count cs in
    let todo = length cs - h in
    let ascii = ascii_loop h 0 cs (if ltb 0 todo then put_prefix o else o) in
    elim (todo == 0) [
      | true ↦ some (returned (h, ascii))
      | false ↦
          let separated = if ltb 0 h then put ascii 45 else ascii in
          round_loop todo 128 cs
            (record { h = h; todo = todo; bias = 72; delta = 0; first = true; out = separated })
          >>= λ r. elim r [ error e ↦ some (error e) | returned s ↦ some (returned (0, s.out)) ]
    ]

-- `s` are the bytes of the label, to `se`. The return value comes with the destination.
pub idna_toascii_label : List ℕ → Output → Option (Rc (ℕ × Output))
unfolding decode_loop label_points
idna_toascii_label s o = elim (decode_loop (suc (length s)) s) [
  | none ↦ some (error uv_einval)
  | some cs ↦ label_points cs o
]

pub is_dot : ℕ → Bool
is_dot c = c == 46 || c == 0x3002 || c == 0xFF0E || c == 0xFF61

-- The last label and the final NUL; what is returned is the number of bytes written, with them.
pub finish_name : Output → Option (Rc (ℕ × List ℕ))
finish_name o =
    if o.room == 0
    then some (error uv_einval)
    else some (returned (length o.written + 1, o.written ++ 0 ∷ []))

pub last_label : List ℕ → Output → Option (Rc (ℕ × List ℕ))
unfolding idna_toascii_label finish_name
last_label [] o = finish_name o
last_label (b ∷ s) o = idna_toascii_label (b ∷ s) o >>= λ r. elim r [
  | error e ↦ some (error e)
  | returned x ↦ finish_name x.1
]

-- `s` starts at the label, `si` at the next code point.
pub name_loop : ℕ → List ℕ → List ℕ → Output → Option (Rc (ℕ × List ℕ))
unfolding utf8_decode1 is_dot last_label idna_toascii_label put
name_loop zero s si o = none
name_loop (suc fuel) s [] o = last_label s o
name_loop (suc fuel) s (b ∷ si) o =
    let r = utf8_decode1 (b ∷ si) in
    elim r.0 [
      | none ↦ some (error uv_einval)
      | some c ↦ elim (is_dot c) [
        | false ↦ name_loop fuel s r.1 o
        | true ↦ idna_toascii_label (take (length s - suc (length si)) s) o >>= λ rc. elim rc [
          | error e ↦ some (error e)
          | returned x ↦ name_loop fuel r.1 r.1 (put x.1 46)
        ]
      ]
    ]

-- `room` is `de - d`. The result is the return value with the bytes that it counts.
pub idna_toascii : List ℕ → ℕ → Option (Rc (ℕ × List ℕ))
unfolding name_loop
idna_toascii [] room = some (error uv_einval)
idna_toascii (b ∷ s) room =
    name_loop (suc (suc (length s))) (b ∷ s) (b ∷ s) (record { written = []; room = room })

-- "bücher.de", whose ASCII form is "xn--bcher-kva.de".
t1 :
    idna_toascii (98 ∷ 0xC3 ∷ 0xBC ∷ 99 ∷ 104 ∷ 101 ∷ 114 ∷ 46 ∷ 100 ∷ 101 ∷ []) 20
    ≡ some (
        returned (
          17,
          120 ∷ 110 ∷ 45 ∷ 45 ∷ 98 ∷ 99 ∷ 104 ∷ 101 ∷ 114 ∷ 45 ∷ 107 ∷ 118 ∷ 97 ∷ 46 ∷ 100 ∷ 101 ∷ 0
              ∷ [],
        ))
unfolding idna_toascii
t1 = refl
