-- ===== src/Io/Bits.antt =====
-- src/unix/core.c: the bit operations on `unsigned int` that the watchers of descriptors need.
use native.Mathlib.Nat.{div-le_self}
use libuv.Prelude.{
  ℕ, zero, suc, ◌+◌, ◌-◌, ◌*◌, ◌/◌, ◌%◌, ◌^◌, ◌≤◌, ◌<◌, ◌≡◌, Bool, true, false, ◌&&◌, ◌||◌, not,
  ◌==◌, one_if, arith,
}

-- The bits of an event mask that the code allows: `POLLIN`, `POLLOUT`, `UV__POLLRDHUP` and
-- `UV__POLLPRI`.
pub record Mask : Type 0 where
  pub poll_in : Bool
  pub poll_out : Bool
  pub poll_rdhup : Bool
  pub poll_pri : Bool

abbrev pub no_events : Mask
no_events = record { poll_in = false; poll_out = false; poll_rdhup = false; poll_pri = false }

abbrev pub all_events : Mask
all_events = record { poll_in = true; poll_out = true; poll_rdhup = true; poll_pri = true }

-- `a | b`, `a & ~b` and `a & b`
abbrev pub mask_or : Mask → Mask → Mask
mask_or a b = record {
  poll_in = a.poll_in || b.poll_in;
  poll_out = a.poll_out || b.poll_out;
  poll_rdhup = a.poll_rdhup || b.poll_rdhup;
  poll_pri = a.poll_pri || b.poll_pri;
}

abbrev pub mask_minus : Mask → Mask → Mask
mask_minus a b = record {
  poll_in = a.poll_in && not b.poll_in;
  poll_out = a.poll_out && not b.poll_out;
  poll_rdhup = a.poll_rdhup && not b.poll_rdhup;
  poll_pri = a.poll_pri && not b.poll_pri;
}

abbrev pub mask_and : Mask → Mask → Mask
mask_and a b = record {
  poll_in = a.poll_in && b.poll_in;
  poll_out = a.poll_out && b.poll_out;
  poll_rdhup = a.poll_rdhup && b.poll_rdhup;
  poll_pri = a.poll_pri && b.poll_pri;
}

abbrev pub is_zero : Mask → Bool
is_zero m = not (m.poll_in || (m.poll_out || (m.poll_rdhup || m.poll_pri)))

abbrev pub same_bit : Bool → Bool → Bool
same_bit true b = b
same_bit false b = not b

abbrev pub same_mask : Mask → Mask → Bool
same_mask a b =
    same_bit a.poll_in b.poll_in
    && (same_bit a.poll_out b.poll_out
        && (same_bit a.poll_rdhup b.poll_rdhup && same_bit a.poll_pri b.poll_pri))

-- `a | b`, of the lowest bits.
unfoldable pub bit_or : ℕ → ℕ → ℕ → ℕ
bit_or zero a b = 0
bit_or (suc bits) a b = one_if (a % 2 == 1 || b % 2 == 1) + 2 * bit_or bits (a / 2) (b / 2)

-- `val |= val >> n`, where `d` is `2 ^ n`.
unfoldable pub smear : ℕ → ℕ → ℕ
smear d val = bit_or 32 val (val / d)

unfoldable pub next_power_of_two : ℕ → ℕ
next_power_of_two val =
    let below = (val + 2 ^ 32 - 1) % 2 ^ 32 in
    (smear (2 ^ 16) (smear (2 ^ 8) (smear (2 ^ 4) (smear (2 ^ 2) (smear 2 below)))) + 1) % 2 ^ 32

double : (n : ℕ) → 2 ^ suc n ≡ 2 * 2 ^ n
double n = omega arith

bit_or-le : (bits a b : ℕ) → a < 2 ^ bits → a ≤ bit_or bits a b
unfolding bit_or
bit_or-le zero a b lt = omega arith
bit_or-le (suc bits) a b lt = ground (arith, double bits, bit_or-le bits (a / 2) (b / 2))

bit_or-lt : (bits j a b : ℕ) → a < 2 ^ j → b < 2 ^ j → bit_or bits a b < 2 ^ j
unfolding bit_or
bit_or-lt zero j a b la lb = omega arith
bit_or-lt (suc bits) zero a b la lb = ground (arith, bit_or-lt bits zero (a / 2) (b / 2))
bit_or-lt (suc bits) (suc j) a b la lb = ground (arith, double j, bit_or-lt bits j (a / 2) (b / 2))

smear-bounds : (d val : ℕ) → 1 ≤ d → val < 2 ^ 31 → (val ≤ smear d val) × (smear d val < 2 ^ 31)
unfolding smear
smear-bounds d val pos lt =
    let shifted : val / d ≤ val = div-le_self val d in
    (bit_or-le 32 val (val / d) (omega arith), bit_or-lt 32 31 val (val / d) lt (omega arith))

pub next_power_of_two-bounds :
    (val : ℕ)
    → 1 ≤ val
    → val ≤ 2 ^ 31
    → (val ≤ next_power_of_two val) × (next_power_of_two val ≤ 2 ^ 31)
unfolding next_power_of_two
next_power_of_two-bounds val pos le =
    let below : (val + 2 ^ 32 - 1) % 2 ^ 32 ≡ val - 1 = omega arith in
    let (l1, u1) = smear-bounds 2 (val - 1) (omega arith) (omega arith) in
    let (l2, u2) = smear-bounds 4 _ (omega arith) u1 in
    let (l3, u3) = smear-bounds 16 _ (omega arith) u2 in
    let (l4, u4) = smear-bounds 256 _ (omega arith) u3 in
    let (l5, u5) = smear-bounds 65536 _ (omega arith) u4 in rw below (omega arith, omega arith)
