-- ===== src/Handle.antt =====
-- src/uv-common.h: the flags that every handle has, and the loop's count of active handles.
pub mod Counting
use libuv.Prelude.{
  ℕ, ◌+◌, ◌-◌, ◌%◌, ◌^◌, Bool, true, false, ◌&&◌, ◌||◌, ltb, Option, none, some, if◌then◌else◌,
  one_if,
}

-- The bits of `flags` that the macros read and write: `UV_HANDLE_CLOSING`, `UV_HANDLE_CLOSED`,
-- `UV_HANDLE_ACTIVE` and `UV_HANDLE_REF`.
pub record Flags : Type 0 where
  pub closing : Bool
  pub closed : Bool
  pub active : Bool
  pub ref : Bool

-- `active_handles` is an `unsigned int`.
abbrev pub add : ℕ → ℕ
add n = (n + 1) % 2 ^ 32

abbrev pub rm : ℕ → ℕ
rm n = (n + 2 ^ 32 - 1) % 2 ^ 32

-- The `flags` that `uv__handle_init` gives.
abbrev pub handle_init : Flags
handle_init = record { closing = false; closed = false; active = false; ref = true }

-- `uv__is_closing`
unfoldable pub is_closing : Flags → Bool
is_closing f = f.closing || f.closed

-- The macros, on a handle's flags and `loop->active_handles`.
unfoldable pub handle_start : Flags → ℕ → Flags × ℕ
handle_start f n =
    if f.active then (f, n) else (record f { active = true }, if f.ref then add n else n)

unfoldable pub handle_stop : Flags → ℕ → Flags × ℕ
handle_stop f n =
    if f.active then (record f { active = false }, if f.ref then rm n else n) else (f, n)

unfoldable pub handle_ref : Flags → ℕ → Flags × ℕ
handle_ref f n =
    if f.ref
    then (f, n)
    else (record f { ref = true }, if f.closing then n else (if f.active then add n else n))

unfoldable pub handle_unref : Flags → ℕ → Flags × ℕ
handle_unref f n =
    if f.ref
    then (record f { ref = false }, if f.closing then n else (if f.active then rm n else n))
    else (f, n)

-- `uv__has_active_reqs`, `uv__req_register` and `uv__req_unregister`, on `active_reqs.count`. `none` is a
-- failed assertion.
abbrev pub has_active_reqs : ℕ → Bool
has_active_reqs n = ltb 0 n

abbrev pub req_register : ℕ → ℕ
req_register n = (n + 1) % 2 ^ 32

abbrev pub req_unregister : ℕ → Option ℕ
req_unregister n = if has_active_reqs n then some (n - 1) else none
