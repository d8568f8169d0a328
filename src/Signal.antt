-- ===== src/Signal.antt =====
-- src/unix/signal.c: signal handles, the tree of those that are started, and the disposition of each
-- signal. The red-black tree of include/uv/tree.h, which libuv has from elsewhere, is a parameter: an
-- ordered sequence of handles that an insertion and a removal keep in order. Whether the system lets
-- a signal be caught, and whether a loop's pipe has room, are parameters too. The lock, and that
-- signals are blocked while it is held, make each stretch under the lock one step. The dispatch of the
-- caught signals, `uv__signal_event`, is not modelled.
use libuv.Prelude.{
  ℕ, ◌+◌, ◌≡◌, Bool, true, false, not, ◌&&◌, ◌||◌, Option, none, some, List, [], ◌∷◌, ◌++◌, ◌==◌,
  ltb, if◌then◌else◌, All,
}
use libuv.Errno.{Status, ok, failed, Errno, uv_einval}
pub mod Tree
pub mod Actions
pub mod First
pub mod Counts
pub mod Valid
pub mod Alike
pub mod Joined
pub mod Start
pub mod Delivery
mod Lists
mod Examples

pub record SignalHandle : Type 0 where
  pub signum : ℕ
  pub one_shot : Bool
  pub loop : ℕ
  pub signal_cb : ℕ
  pub is_active : Bool
  pub is_closing : Bool
  pub caught_signals : ℕ
  pub dispatched_signals : ℕ

pub data Cmp : Type 0 where
  before same after : Cmp

abbrev pub cmp_nat : ℕ → ℕ → Cmp → Cmp
cmp_nat a b otherwise = if ltb a b then before else if ltb b a then after else otherwise

abbrev pub flag : Bool → ℕ
flag true = 1
flag false = 0

-- What the tree is ordered by: the signal, the flag, the loop and the address of a handle.
pub record Key : Type 0 where
  pub signum : ℕ
  pub one_shot : Bool
  pub loop : ℕ
  pub address : ℕ

pub signal_compare : Key → Key → Cmp
signal_compare w1 w2 = cmp_nat w1.signum w2.signum (
    cmp_nat (flag w1.one_shot) (flag w2.one_shot)
      (cmp_nat w1.loop w2.loop (cmp_nat w1.address w2.address same)))

abbrev pub key_of : (ℕ → SignalHandle) → ℕ → Key
key_of handles h = record {
  signum = (handles h).signum;
  one_shot = (handles h).one_shot;
  loop = (handles h).loop;
  address = h;
}

abbrev pub is_same : Cmp → Bool
is_same before = false
is_same same = true
is_same after = false

abbrev pub is_before : Cmp → Bool
is_before before = true
is_before same = false
is_before after = false

abbrev pub is_less : Key → Key → Bool
is_less a b = is_before (signal_compare a b)

-- No entry is less than one before it.
abbrev pub Sorted : (ℕ → Key) → List ℕ → Type 0
Sorted k [] = Unit
Sorted k (x ∷ l) = All (λ y. is_less (k y) (k x) ≡ false) l × Sorted k l

-- SIG_DFL; `uv__signal_handler`, reset when it is run; `uv__signal_handler`.
pub data Disposition : Type 0 where
  default_action caught_once caught : Disposition

abbrev pub disposition_of : Bool → Disposition
disposition_of true = caught_once
disposition_of false = caught
