-- ===== src/Io/Resize.antt =====
-- src/unix/core.c: `maybe_resize`, and what its failure leaves.
use libuv.Prelude.{
  ℕ, ◌+◌, ◌-◌, ◌≤◌, ◌<◌, ◌%◌, ◌≡◌, refl, sym, ap, ◌∙◌, inl, inr, true, false, Option, none, some,
  ltb, leb, Bool-cases, arith,
}
use libuv.Errno.{uv_enomem, ok, failed}
use libuv.Io.Bits.{next_power_of_two, next_power_of_two-bounds}
use libuv.Io.Valid.{IsValid, IsSized, entry, used, used-same, used-more}
use libuv.Io.{
  Watchers, unallocated, freed, slots, Loop, read, fakes, grown, after_failure, maybe_resize,
}

fakes-some :
    (w : Watchers) (n : ℕ) → IsSized w n → (kept : Option ℕ × Option ℕ) × (fakes w n ≡ some kept)
unfolding fakes read
fakes-some unallocated n sized = ((none, none), refl)
fakes-some (slots m f) n sized =
    let first : ltb n m ≡ true = ground arith in
    let second : ltb (n + 1) m ≡ true = ground arith in ((f n, f (n + 1)), rw (first, second) refl)
fakes-some freed n sized = absurd sized

grown-old :
    (w : Watchers) (n n' : ℕ) (kept : Option ℕ × Option ℕ) (i : ℕ)
    → IsSized w n
    → i < n
    → grown w n n' kept i ≡ entry w i
unfolding grown
grown-old unallocated n n' (a, b) i sized lt = absurd (omega (arith, sized))
grown-old (slots m f) n n' (a, b) i sized lt = ground arith
grown-old freed n n' kept i sized lt = absurd sized

grown-new :
    (w : Watchers) (n n' : ℕ) (kept : Option ℕ × Option ℕ) (i : ℕ)
    → n ≤ i
    → i < n'
    → grown w n n' kept i ≡ none
unfolding grown
grown-new unallocated n n' (a, b) i ge lt = ground arith
grown-new (slots m f) n n' (a, b) i ge lt = ground arith
grown-new freed n n' (a, b) i ge lt = ground arith

-- The state after `maybe_resize` has returned 0.
pub record Resized (l : Loop) (len : ℕ) (l' : Loop) : Type 0 where
  pub valid : IsValid l'
  pub room : len ≤ l'.nwatchers
  pub grows : l.nwatchers ≤ l'.nwatchers
  pub kept : (i : ℕ) → i < l.nwatchers → entry l'.watchers i ≡ entry l.watchers i
  pub empty : (i : ℕ) → l.nwatchers ≤ i → i < l'.nwatchers → entry l'.watchers i ≡ none
  pub same_ios : l'.ios ≡ l.ios
  pub same_queue : l'.watcher_queue ≡ l.watcher_queue

-- Where the array has grown, the new entries hold no watcher.
module _ (l : Loop) (n : ℕ) (kept : Option ℕ × Option ℕ) (v : IsValid l) where
  new : ℕ → Option ℕ
  new = grown l.watchers l.nwatchers n kept

  new-old : (i w : ℕ) → i < n → new i ≡ some w → (i < l.nwatchers) × (entry l.watchers i ≡ some w)
  unfolding new
  new-old i w lt e = elim (Bool-cases (ltb i l.nwatchers)) [
    | inl old ↦
        let below : i < l.nwatchers = ground arith in
        (below, sym (grown-old l.watchers l.nwatchers n kept i v.sized below) ∙ e)
    | inr later ↦
        let empty = grown-new l.watchers l.nwatchers n kept i (ground arith) lt in absurd cc
  ]

  new-used : l.nwatchers ≤ n → used n new ≡ used l.nwatchers (entry l.watchers)
  unfolding new
  new-used le =
      used-more n l.nwatchers (grown l.watchers l.nwatchers n kept) le
        (λ i ge lt. grown-new l.watchers l.nwatchers n kept i ge lt)
      ∙ used-same l.nwatchers (entry l.watchers) (grown l.watchers l.nwatchers n kept)
          (λ i lt. grown-old l.watchers l.nwatchers n kept i v.sized lt)

  new-IsValid :
      l.nwatchers ≤ n
      → n + 2 ≤ 2147483648
      → IsValid (record l {
        watchers = slots (n + 2) (grown l.watchers l.nwatchers n kept);
        nwatchers = n;
      })
  unfolding new
  new-IsValid le small = record {
    sized = refl;
    bounded = small;
    counted = v.counted ∙ sym (new-used le);
    placed = λ i w lt e. let (below, old) = new-old i w lt e in v.placed i w below old;
    awaited = λ i w lt e. let (below, old) = new-old i w lt e in v.awaited i w below old;
    queued = v.queued;
    wanted = v.wanted;
    pending = v.pending;
  }

-- On a valid loop, with a descriptor in range, `maybe_resize` returns 0 if the allocation
-- succeeds. The loop then has room for the descriptor, and holds the watchers that it held.
pub maybe_resize-Resized :
    (l : Loop) (len : ℕ)
    → IsValid l
    → len + 2 ≤ 2147483648
    → (l' : Loop) × (maybe_resize true l len ≡ some (ok, l')) × Resized l len l'
unfolding maybe_resize
maybe_resize-Resized l len v small = elim (Bool-cases (leb len l.nwatchers)) [
  | inl fits ↦ (
    l,
    rw fits refl,
    record {
      valid = v;
      room = ground arith;
      grows = omega arith;
      kept = λ i lt. refl;
      empty = λ i ge lt. absurd (omega arith);
      same_ios = refl;
      same_queue = refl;
    },
  )
  | inr short ↦
      let (kept, e) = fakes-some l.watchers l.nwatchers v.sized in
      let wrap : (len + 2) % 4294967296 ≡ len + 2 = omega arith in
      let (low, high) = next_power_of_two-bounds (len + 2) (omega arith) small in
      let n = next_power_of_two (len + 2) - 2 in
      let wraps : (next_power_of_two (len + 2) + 4294967296 - 2) % 4294967296 ≡ n = omega arith in
      let l' = record l {
        watchers = slots (n + 2) (grown l.watchers l.nwatchers n kept);
        nwatchers = n;
      } in
      let less : l.nwatchers < len = ground arith in
      let old =
        λ (i : ℕ) (lt : i < l.nwatchers). grown-old l.watchers l.nwatchers n kept i v.sized lt in
      let new = λ (i : ℕ) (ge : l.nwatchers ≤ i) (lt : i < n).
        grown-new l.watchers l.nwatchers n kept i ge lt in
      (
        l',
        rw (short, e, wrap, wraps) refl,
        record {
          valid = new-IsValid l n kept v (omega arith) (omega arith);
          room = omega arith;
          grows = omega arith;
          kept = old;
          empty = new;
          same_ios = refl;
          same_queue = refl;
        },
      )
]

-- A failed allocation, if there was one before: it is freed, and `loop->watchers` still points at it.
pub maybe_resize-freed :
    (l : Loop) (len m : ℕ) (f : ℕ → Option ℕ)
    → IsValid l
    → l.watchers ≡ slots m f
    → l.nwatchers < len
    → maybe_resize false l len ≡ some (failed uv_enomem, record l { watchers = freed })
unfolding maybe_resize after_failure
maybe_resize-freed l len m f v held more =
    let (kept, e) = fakes-some l.watchers l.nwatchers v.sized in
    let short : leb len l.nwatchers ≡ false = ground arith in
    rw (short, e) (ap (λ w. some (failed uv_enomem, record l { watchers = after_failure w })) held)
