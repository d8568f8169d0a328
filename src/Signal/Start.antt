-- ===== src/Signal/Start.antt =====
-- src/unix/signal.c: `uv__signal_start`.
use libuv.Prelude.{
  ℕ, ◌≡◌, refl, sym, inl, inr, Bool, true, false, not, ◌&&◌, ◌==◌, List, [], ◌∷◌, All, ltb,
  Bool-cases, arith,
}
use mathlib.Core.Path.{subst}
use libuv.Errno.{Status, ok, failed}
use libuv.Queue.{occurs}
use libuv.Signal.{
  SignalHandle, Key, Cmp, same, cmp_nat, flag, is_same, signal_compare, key_of, Sorted,
}
use libuv.Signal.Tree.{RbTree, Signals}
use libuv.Signal.Actions.{
  update, first_handle, must_register, has_failed, signal_stop, start_stopped, signal_start,
}
use libuv.Signal.Counts.{Sorted-update}
use libuv.Signal.Alike.{update-Alike, Alike-IsValid}
use libuv.Signal.Valid.{IsValid, signal_stop-IsValid}
use libuv.Signal.Joined.{keyed, absent, joined-Sorted, joined-member, joined-active, joined-Suits}

and-true : (a b : Bool) → (a && b) ≡ true → (a ≡ true) × (b ≡ true)
and-true true b e = (refl, e)
and-true false b e = absurd cc

-- Handles at two addresses never compare equal.
cmp_nat-apart : (a b : ℕ) (x : Cmp) → is_same x ≡ false → is_same (cmp_nat a b x) ≡ false
cmp_nat-apart a b x apart = elim (Bool-cases (ltb a b)) [
  | inl lt ↦ rw lt refl
  | inr ge ↦ elim (Bool-cases (ltb b a)) [ inl gt ↦ rw (ge, gt) refl | inr le ↦ rw (ge, le) apart ]
]

address-apart : (a b : ℕ) → (b == a) ≡ false → is_same (cmp_nat a b same) ≡ false
address-apart a b other = elim (Bool-cases (ltb a b)) [
  | inl lt ↦ rw lt refl
  | inr ge ↦ let gt : ltb b a ≡ true = ground (arith, ge, other) in rw (ge, gt) refl
]

signal_compare-apart :
    (a b : Key) → (b.address == a.address) ≡ false → is_same (signal_compare a b) ≡ false
unfolding signal_compare
signal_compare-apart a b other =
    cmp_nat-apart a.signum b.signum
      (cmp_nat (flag a.one_shot) (flag b.one_shot)
        (cmp_nat a.loop b.loop (cmp_nat a.address b.address same)))
      (cmp_nat-apart (flag a.one_shot) (flag b.one_shot)
        (cmp_nat a.loop b.loop (cmp_nat a.address b.address same))
        (cmp_nat-apart a.loop b.loop (cmp_nat a.address b.address same)
          (address-apart a.address b.address other)))

none-same :
    (handles : ℕ → SignalHandle) (h : ℕ) (l : List ℕ)
    → occurs h l ≡ 0
    → All (λ x. is_same (signal_compare (key_of handles h) (key_of handles x)) ≡ false) l
none-same handles h [] gone = tt
none-same handles h (x ∷ l) gone =
    let other : (x == h) ≡ false = ground (arith, gone) in
    (
      signal_compare-apart (key_of handles h) (key_of handles x) other,
      none-same handles h l (omega (arith, gone)),
    )

module _ {ℓ} {T : Type ℓ} (tree : RbTree T) (accepts : ℕ → Status) where
  -- What a start leaves: on success the handle is active, watches the signal and calls the callback.
  -- It fails with what the system refuses the signal with, and then the signal had to be registered
  -- and the handle is stopped.
  abbrev pub Started : ℕ → ℕ → ℕ → Bool → Status × Signals tree → Type 0
  Started h cb signum oneshot (ok, after) =
      ((after.handles h).signum ≡ signum)
      × ((after.handles h).signal_cb ≡ cb)
      × ((after.handles h).is_active ≡ true)
  Started h cb signum oneshot (failed e, after) =
      (accepts signum ≡ failed e)
      × (must_register after.handles oneshot
            (first_handle after.handles signum (tree.entries after.started))
          ≡ true)
      × ((after.handles h).signum ≡ 0)

  -- The signal has to be registered, and the system refuses it.
  abbrev pub refuses : Signals tree → ℕ → Bool → Bool
  refuses t signum oneshot =
      must_register t.handles oneshot (first_handle t.handles signum (tree.entries t.started))
      && has_failed (accepts signum)

  Started-refused :
      (s : Signals tree) (h cb signum : ℕ) (oneshot : Bool) (rc : Status)
      → accepts signum ≡ rc
      → has_failed rc ≡ true
      → must_register s.handles oneshot (first_handle s.handles signum (tree.entries s.started))
        ≡ true
      → (s.handles h).signum ≡ 0
      → Started h cb signum oneshot (rc, s)
  Started-refused s h cb signum oneshot ok answers refused needed idle = absurd cc
  Started-refused s h cb signum oneshot (failed e) answers refused needed idle =
      (answers, needed, idle)

  start_stopped-IsValid :
      (s : Signals tree) (h cb signum : ℕ) (oneshot : Bool)
      → IsValid tree s
      → (s.handles h).signum ≡ 0
      → (signum == 0) ≡ false
      → IsValid tree (start_stopped tree accepts s h cb signum oneshot).1
        × Started h cb signum oneshot (start_stopped tree accepts s h cb signum oneshot)
        × (has_failed (start_stopped tree accepts s h cb signum oneshot).0
            ≡ refuses s signum oneshot)
  unfolding start_stopped
  start_stopped-IsValid s h cb signum oneshot valid idle nonzero =
      let register =
        must_register s.handles oneshot (first_handle s.handles signum (tree.entries s.started)) in
      elim (Bool-cases (register && has_failed (accepts signum))) [
        | inl refused ↦
            let (needed, fails) = and-true register (has_failed (accepts signum)) refused in
            rw refused (
              valid,
              Started-refused s h cb signum oneshot (accepts signum) refl fails needed idle,
              fails,
            )
        | inr taken ↦
            let w = keyed tree s h cb signum oneshot valid idle nonzero in
            let gone = absent tree s h cb signum oneshot valid idle nonzero in
            let (l, m, e, e', sorted) =
              tree.insert-entries (key_of (update s.handles h w)) h s.started
                (Sorted-update s.handles h w (tree.entries s.started) gone valid.sorted)
                (none-same (update s.handles h w) h (tree.entries s.started) gone) in
            let here : (h == h) ≡ true = ground arith in
            rw taken (
              record {
                sorted = rw e' (
                    joined-Sorted tree s h cb signum oneshot valid idle nonzero l m e
                      (subst (Sorted (key_of (update s.handles h w))) e' sorted));
                member = λ g.
                    rw e' (joined-member tree s h cb signum oneshot valid idle nonzero l m e g);
                active = λ g. joined-active tree s h cb signum oneshot valid idle nonzero l m e g;
                suits =
                    λ n. rw e' (joined-Suits tree s h cb signum oneshot valid idle nonzero l m e n);
              },
              (rw here refl, rw here refl, rw here refl),
              refl,
            )
      ]

  -- `uv__signal_start`, for a signal that is not 0, on valid signals leaves valid ones, if what
  -- happens between its two locks keeps them valid and does not start the handle. It fails exactly
  -- where the handle does not watch the signal yet, the signal has to be registered and the system
  -- refuses it, with the error of the system, and the handle is stopped then. Else the handle is active, watches the signal and has the callback.
  pub signal_start-IsValid :
      (between : Signals tree → Signals tree) (s : Signals tree) (h cb signum : ℕ) (oneshot : Bool)
      → ((t : Signals tree)
          → IsValid tree t
          → (t.handles h).signum ≡ 0
          → IsValid tree (between t) × (((between t).handles h).signum ≡ 0))
      → IsValid tree s
      → (signum == 0) ≡ false
      → IsValid tree (signal_start tree accepts between s h cb signum oneshot).1
        × Started h cb signum oneshot (signal_start tree accepts between s h cb signum oneshot)
        × (has_failed (signal_start tree accepts between s h cb signum oneshot).0 ≡ (
            not (signum == (s.handles h).signum)
            && refuses (between (signal_stop tree s h)) signum oneshot))
  unfolding signal_start
  signal_start-IsValid between s h cb signum oneshot keeps valid nonzero =
      elim (Bool-cases (signum == (s.handles h).signum)) [
        | inl again ↦
            let same : signum ≡ (s.handles h).signum = ground arith in
            let here : (h == h) ≡ true = ground arith in
            rw (nonzero, again)
              (
                Alike-IsValid tree s (update s.handles h (record (s.handles h) { signal_cb = cb }))
                    s.pipe
                    (update-Alike s.handles h (record (s.handles h) { signal_cb = cb })
                      (record { signum = refl; one_shot = refl; loop = refl; is_active = refl }))
                    valid,
                (rw here (sym same), rw here refl, rw (here, valid.active h, ← same, nonzero) refl),
                refl,
              )
        | inr other ↦
            let (stopped_valid, idle) = signal_stop-IsValid tree s h valid in
            let (still_valid, still_idle) = keeps (signal_stop tree s h) stopped_valid idle in
            rw (nonzero, other)
              (start_stopped-IsValid (between (signal_stop tree s h)) h cb signum oneshot
                still_valid still_idle nonzero)
      ]
