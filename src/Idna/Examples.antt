-- ===== src/Idna/Examples.antt =====
-- src/idna.c: decoding and host names.
use libuv.Prelude.{◌≡◌, inl, some, [], ◌∷◌, ◌++◌, arith}
use libuv.Idna.{utf8_decode1}
use libuv.Idna.Utf8.{utf8, utf8_decode1-utf8}

utf8_decode1-utf8_example : utf8_decode1 (utf8 0xFC ++ 46 ∷ []) ≡ (some 0xFC, 46 ∷ [])
utf8_decode1-utf8_example = utf8_decode1-utf8 0xFC (46 ∷ []) (inl (omega arith), omega arith)
