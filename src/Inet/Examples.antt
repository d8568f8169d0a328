-- ===== src/Inet/Examples.antt =====
-- src/inet.c: addresses as text.
use libuv.Prelude.{
  ℕ, suc, ◌<◌, ◌≡◌, ◌↔◌, some, List, [], ◌∷◌, ◌++◌, ltb, if◌then◌else◌, length, drop, replicate,
  arith,
}
use libuv.Errno.{uv_enospc, ok, failed}
use libuv.Inet.{inet_pton4}
use libuv.Inet.Print.{inet_ntop4}
use libuv.Inet.Four.{text, IsAddress, inet_pton4_iff}
use libuv.Inet.Text.{inet_ntop4-text}

abbrev buffer : List ℕ
buffer = replicate 16 0

-- "10.0.0.255"
abbrev ten : List ℕ
ten = 49 ∷ 48 ∷ 46 ∷ 48 ∷ 46 ∷ 48 ∷ 46 ∷ 50 ∷ 53 ∷ 53 ∷ []

inet_pton4_iff_example :
    (inet_pton4 ten ≡ some (10 ∷ 0 ∷ 0 ∷ 255 ∷ [])) ↔ IsAddress ten (10 ∷ 0 ∷ 0 ∷ 255 ∷ [])
inet_pton4_iff_example = inet_pton4_iff ten (10 ∷ 0 ∷ 0 ∷ 255 ∷ [])

abbrev address : List ℕ
address = 10 ∷ 0 ∷ 0 ∷ 255 ∷ []

inet_ntop4-text_example :
    (inet_ntop4 address buffer 16 ≡ (
      if ltb (length (text address)) 16
      then (ok, text address ++ 0 ∷ drop (suc (length (text address))) buffer)
      else (failed uv_enospc, buffer)))
    × (length (text address) < 16)
    × (inet_pton4 (text address) ≡ some address)
inet_ntop4-text_example =
    inet_ntop4-text 10 0 0 255 (omega arith) (omega arith) (omega arith) (omega arith) buffer 16
      (omega arith)
