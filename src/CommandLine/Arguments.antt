-- ===== src/CommandLine/Arguments.antt =====
-- src/win/process.c: the command line that `make_program_args` makes.
use libuv.Prelude.{ℕ, ◌+◌, ◌≤◌, ◌<◌, ◌≡◌, some, List, [], ◌∷◌, ◌++◌, length, All}
use mathlib.Core.Option
use libuv.Wtf8.{wtf8_to_utf16}
use libuv.CommandLine.{space, quote_cmd_arg, Sizes, end_of}

-- The units of each argument, none of which is a NUL.
abbrev pub Decoded : List (List ℕ) → List (List ℕ) → Type 0
Decoded [] [] = Unit
Decoded [] (u ∷ us) = ⊥
Decoded (arg ∷ args) [] = ⊥
Decoded (arg ∷ args) (u ∷ us) =
    (wtf8_to_utf16 arg ≡ some (u ++ 0 ∷ [])) × (All (λ c. 0 < c) u × Decoded args us)

-- The space for some arguments, with their NULs.
abbrev total : List (List ℕ) → ℕ
total [] = 0
total (u ∷ us) = length u + 1 + total us

-- What the first loop finds suffices for the second one.
record Enough (z z' : Sizes) (us : List (List ℕ)) : Type 0 where
  dst_len : z'.dst_len ≡ z.dst_len + total us
  temp_buffer_len : All (λ u. length u + 1 ≤ z'.temp_buffer_len) us
  temp_grows : z.temp_buffer_len ≤ z'.temp_buffer_len
  arg_count : z'.arg_count ≡ z.arg_count + length us

-- The text of the second loop.
abbrev joined : List (List ℕ) → List (List ℕ) → List ℕ
joined args [] = []
joined [] (u ∷ us) = []
joined (arg ∷ args) (u ∷ us) = quote_cmd_arg u ++ end_of args ∷ joined args us

-- The same text without the NUL.
abbrev spaced : List ℕ → List (List ℕ) → List ℕ
spaced u [] = quote_cmd_arg u
spaced u (v ∷ us) = quote_cmd_arg u ++ space ∷ spaced v us
