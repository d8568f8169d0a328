-- ===== src/Signal/Tree.antt =====
-- include/uv/tree.h: what src/unix/signal.c uses of it, and the functions of src/unix/signal.c on it.
use libuv.Prelude.{ℕ, ◌≡◌, false, All, List, [], ◌∷◌, ◌++◌, if◌then◌else◌}
use libuv.Queue.{occurs}
use libuv.Signal.{SignalHandle, Key, signal_compare, is_same, is_less, Sorted, Disposition}

-- RB_INSERT, of what compares equal to no entry, RB_REMOVE, and the entries in the order in which RB_NEXT visits them.
pub record RbTree {ℓ} (T : Type ℓ) : Type ℓ where
  pub entries : T → List ℕ
  pub insert : (ℕ → Key) → ℕ → T → T
  pub remove : (ℕ → Key) → ℕ → T → T
  pub insert-entries :
      (k : ℕ → Key) (h : ℕ) (t : T)
      → Sorted k (entries t)
      → All (λ x. is_same (signal_compare (k h) (k x)) ≡ false) (entries t)
      → (l m : List ℕ) × (entries t ≡ l ++ m)
        × (entries (insert k h t) ≡ l ++ h ∷ m)
        × Sorted k (entries (insert k h t))
  pub remove-entries :
      (k : ℕ → Key) (h : ℕ) (t : T) (l m : List ℕ)
      → Sorted k (entries t)
      → occurs h (l ++ m) ≡ 0
      → entries t ≡ l ++ h ∷ m
      → entries (remove k h t) ≡ l ++ m

-- The entries from what RB_NFIND finds on: the first that is not less than the key.
abbrev pub nfind : (ℕ → Key) → Key → List ℕ → List ℕ
nfind k key [] = []
nfind k key (h ∷ l) = let rest = nfind k key l in if is_less (k h) key then rest else h ∷ l

module _ {ℓ} {T : Type ℓ} (tree : RbTree T) where
  pub record Signals : Type ℓ where
    pub handles : ℕ → SignalHandle
    pub started : T
    pub disposition : ℕ → Disposition
    -- The messages in the pipe of each loop: a handle and a signal.
    pub pipe : ℕ → List (ℕ × ℕ)
