-- ===== src/CommandLine.antt =====
-- src/win/process.c: the command line of a program, made of its arguments.
-- A wide string is the list of its units before the NUL. A buffer that is written in one direction
-- is the list of what was written.
use libuv.Prelude.{
  ℕ, suc, ◌+◌, ◌*◌, Bool, true, false, ◌&&◌, ◌||◌, Option, none, some, List, [], ◌∷◌, ◌++◌, ◌==◌,
  ◌-◌, ltb, leb, if◌then◌else◌, ◌>>=◌, length, take,
}
use libuv.Errno.{Errno, uv_einval, uv_enomem}
use libuv.Wtf8.{wtf8_length_as_utf16, wtf8_to_utf16}
pub mod Parser
pub mod Escaped
pub mod Reading
pub mod Quote
pub mod Arguments
mod Examples

abbrev pub space : ℕ
space = 0x20

abbrev pub tab : ℕ
tab = 0x09

abbrev pub quote : ℕ
quote = 0x22

abbrev pub backslash : ℕ
backslash = 0x5c

-- `wcspbrk(source, L" \t\"")` and `wcspbrk(source, L"\"\\")`, as tests.
abbrev pub has_blank_or_quote : List ℕ → Bool
has_blank_or_quote [] = false
has_blank_or_quote (c ∷ s) = c == space || (c == tab || (c == quote || has_blank_or_quote s))

abbrev pub has_quote_or_backslash : List ℕ → Bool
has_quote_or_backslash [] = false
has_quote_or_backslash (c ∷ s) = c == quote || (c == backslash || has_quote_or_backslash s)

-- `_wcsrev`
abbrev pub wcsrev : List ℕ → List ℕ
wcsrev [] = []
wcsrev (c ∷ s) = wcsrev s ++ c ∷ []

-- The loop of `quote_cmd_arg` over the source from its end, `quote_hit` before the round: what it
-- writes from `start` on.
pub escape_loop : List ℕ → Bool → List ℕ
escape_loop [] quote_hit = []
escape_loop (c ∷ s) quote_hit =
    let hit = escape_loop s true in
    let no_hit = escape_loop s false in
    if quote_hit && c == backslash
    then c ∷ backslash ∷ hit
    else if c == quote
    then c ∷ backslash ∷ hit
    else c ∷ no_hit

-- What it writes from `target` on.
pub quote_cmd_arg : List ℕ → List ℕ
unfolding escape_loop
quote_cmd_arg source =
    if length source == 0
    then quote ∷ quote ∷ []
    else if has_blank_or_quote source
    then if has_quote_or_backslash source
      then quote ∷ (wcsrev (escape_loop (wcsrev source) true) ++ quote ∷ [])
      else quote ∷ (source ++ quote ∷ [])
    else source

-- What the first loop of `make_program_args` finds.
pub record Sizes : Type 0 where
  pub dst_len : ℕ
  pub temp_buffer_len : ℕ
  pub arg_count : ℕ

-- `none` is the error of `uv_wtf8_length_as_utf16`.
pub count_args : Sizes → List (List ℕ) → Option Sizes
count_args z [] = some z
count_args z (arg ∷ args) =
    let counted = λ (arg_len : ℕ).
      count_args
        (record {
          dst_len = z.dst_len + arg_len;
          temp_buffer_len = if ltb z.temp_buffer_len arg_len then arg_len else z.temp_buffer_len;
          arg_count = z.arg_count + 1;
        })
        args in
    wtf8_length_as_utf16 arg >>= counted

-- The wide string that begins at a place.
abbrev pub wide_string : List ℕ → List ℕ
wide_string [] = []
wide_string (u ∷ units) = let rest = wide_string units in if u == 0 then [] else u ∷ rest

-- `assert(c)`
abbrev pub check : Bool → Option ℕ
check c = if c then some 0 else none

-- What one round writes for its argument, whose units and NUL are in the buffer `temp`. With
-- `verbatim_arguments` the place moves on by all units; behind a NUL among them the contents of the
-- buffer is of no account.
pub arg_text : Bool → List ℕ → List ℕ
unfolding quote_cmd_arg
arg_text verbatim temp =
    if verbatim then take (length temp - 1) temp else quote_cmd_arg (wide_string temp)

-- `*(arg + 1) ? L' ' : L'\0'`
abbrev pub end_of : List (List ℕ) → ℕ
end_of [] = 0
end_of (arg ∷ args) = space

-- The units from `dst` on, with the NUL that ends them; `out` is what stands there before the round.
-- `none` is a failed assertion.
pub write_args : Bool → Sizes → List ℕ → List (List ℕ) → Option (List ℕ)
unfolding arg_text
write_args verbatim z out [] = some out
write_args verbatim z out (arg ∷ args) =
    let go = λ (out' : List ℕ). write_args verbatim z out' args in
    do
      arg_len ← wtf8_length_as_utf16 arg
      positive ← check (ltb 0 arg_len)
      fits ← check (leb arg_len z.temp_buffer_len)
      temp ← wtf8_to_utf16 arg
      room ← check (leb (length out + length (arg_text verbatim temp) + 1) z.dst_len)
      go (out ++ (arg_text verbatim temp ++ end_of args ∷ []))

pub data Program : Type 0 where
  error : Errno → Program
  -- What stands from `*dst_ptr` on.
  command_line : List ℕ → Program

-- From the end of the first loop; `has_dst` and `has_temp` are whether the allocations succeed, and
-- `none` is a failed assertion.
pub with_sizes : Option Sizes → List (List ℕ) → Bool → Bool → Bool → Option Program
with_sizes none args verbatim has_dst has_temp = some (error uv_einval)
with_sizes (some z) args verbatim has_dst has_temp =
    let sized = record z { dst_len = z.dst_len * 2 + z.arg_count * 2 + 1 } in
    if has_dst
    then if z.arg_count == 0
      then some (command_line (0 ∷ []))
      else if has_temp
      then (write_args verbatim sized [] args >>= λ text. some (command_line text))
      else some (error uv_enomem)
    else some (error uv_enomem)

-- The sizes are those of arguments in memory, which twice and with two bytes each stay below
-- `SIZE_MAX`.
pub make_program_args : List (List ℕ) → Bool → Bool → Bool → Option Program
make_program_args args verbatim has_dst has_temp =
    with_sizes (count_args (record { dst_len = 0; temp_buffer_len = 0; arg_count = 0 }) args) args
      verbatim has_dst has_temp
