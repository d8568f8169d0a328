-- ===== src/Text.antt =====
-- src/strscpy.c and src/strtok.c: C strings.
-- A string is the list of its bytes before the terminating NUL, none of which is NUL.
pub mod Copy
pub mod Token
mod Examples
use libuv.Prelude.{
  ℕ, zero, suc, ◌+◌, ◌-◌, ◌^◌, Bool, true, false, ◌||◌, Option, none, some, List, [], ◌∷◌, ltb,
  ◌==◌, if◌then◌else◌, set,
}
use libuv.Errno.{Errno, uv_e2big}

-- `s[i]`, for `i` up to the NUL.
abbrev pub char_at : List ℕ → ℕ → ℕ
char_at [] i = 0
char_at (c ∷ s) zero = c
char_at (c ∷ s) (suc i) = char_at s i

abbrev pub ssize_max : ℕ
ssize_max = 2 ^ 63 - 1

-- An `ssize_t` result: a length, or an error.
pub data Length : Type 0 where
  len : ℕ → Length
  err : Errno → Length

-- The `for` loop, with the rounds that are left. `none` means that it has ended by its test.
copy_loop : ℕ → ℕ → List ℕ → List ℕ → Option Length × List ℕ
copy_loop zero i d s = (none, d)
copy_loop (suc rounds) i d s =
    let rest = copy_loop rounds (i + 1) (set d i (char_at s i)) s in
    if char_at s i == 0
    then (some (if ltb ssize_max i then err uv_e2big else len i), set d i (char_at s i))
    else rest

-- What follows the loop, where `i` is `n` if the loop has ended by its test.
after_loop : ℕ → Option Length × List ℕ → Length × List ℕ
after_loop n (some r, d) = (r, d)
after_loop n (none, d) = if n == 0 then (len 0, d) else (err uv_e2big, set d (n - 1) 0)

-- The buffer `d` after the call stands beside the result.
pub strscpy : List ℕ → List ℕ → ℕ → Length × List ℕ
strscpy d s n = after_loop n (copy_loop n 0 d s)

-- Whether the inner loop meets the character among the separators.
pub is_sep : List ℕ → ℕ → Bool
is_sep [] c = false
is_sep (k ∷ sep) c = c == k || is_sep sep c

-- `uv__strtok` over the bytes from `start` to the NUL: the token, which ends where the separator
-- is overwritten by a NUL, and `*itr`, what lies behind the separator, or `NULL`.
pub strtok_scan : List ℕ → List ℕ → List ℕ × Option (List ℕ)
strtok_scan sep [] = ([], none)
strtok_scan sep (c ∷ s) =
    let (token, itr) = strtok_scan sep s in if is_sep sep c then ([], some s) else (c ∷ token, itr)

-- `str` and `*itr` on entry; the result is the token, if any, and `*itr` on return.
pub strtok : Option (List ℕ) → List ℕ → Option (List ℕ) → Option (List ℕ) × Option (List ℕ)
strtok (some str) sep itr = let (token, rest) = strtok_scan sep str in (some token, rest)
strtok none sep none = (none, none)
strtok none sep (some s) = let (token, rest) = strtok_scan sep s in (some token, rest)
