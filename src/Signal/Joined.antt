-- ===== src/Signal/Joined.antt =====
-- src/unix/signal.c: the tree and the dispositions when `uv__signal_start` adds a handle.
use libuv.Prelude.{
  ℕ, ◌+◌, ◌≡◌, refl, sym, ap, ◌∙◌, inl, inr, Bool, true, false, not, Option, none, some, List, ◌∷◌,
  ◌++◌, ◌==◌, if◌then◌else◌, one_if, Bool-cases, arith,
}
use mathlib.Core.Path.{subst}
use libuv.Queue.{occurs}
use libuv.Signal.{SignalHandle, key_of, Sorted, Disposition, caught, disposition_of}
use libuv.Signal.Tree.{RbTree, Signals}
use libuv.Signal.Actions.{update, first_handle, must_register, watching}
use libuv.Signal.First.{watchers, regulars, regulars-le, FirstOf, first_handle-FirstOf}
use libuv.Signal.Counts.{
  watchers-update, regulars-update, Sorted-same, watchers-middle, regulars-middle, occurs-middle,
}
use libuv.Signal.Valid.{Suits, IsValid, Suits-counts}

kept-caught : (b : Bool) (d : Disposition) → d ≡ caught → (if b then caught else d) ≡ caught
kept-caught true d e = refl
kept-caught false d e = e

module _ (b : Bool) (f : ℕ → Disposition) (signum : ℕ) (n : ℕ) (v : Disposition) where
  registered-at :
      (n == signum) ≡ true → (if b then v else f signum) ≡ (if b then update f signum v else f) n
  registered-at here =
      let same : n ≡ signum = ground arith in
      elim (Bool-cases b) [ inl e ↦ rw (e, here) refl | inr e ↦ rw e (ap f (sym same)) ]

  registered-elsewhere : (n == signum) ≡ false → f n ≡ (if b then update f signum v else f) n
  registered-elsewhere other = elim (Bool-cases b) [
    | inl e ↦ rw (e, other) refl
    | inr e ↦ rw e refl
  ]

-- When a handle enters.
entering-Suits :
    (handles : ℕ → SignalHandle) (signum : ℕ) (l : List ℕ) (oneshot sticky : Bool)
    (first : Option ℕ) (d : Disposition)
    → FirstOf handles signum l first
    → (if regulars handles signum l == 0 then caught else d) ≡ caught
    → Suits
        (1 + watchers handles signum l)
        ((if (if oneshot then true else sticky) then 0 else 1) + regulars handles signum l)
        (if must_register handles oneshot first then disposition_of oneshot else d)
entering-Suits handles signum l true sticky none d found kept =
    let watched : (1 + watchers handles signum l == 0) ≡ false = ground arith in
    let no_regular : (0 + regulars handles signum l == 0) ≡ true =
      ground (arith, regulars-le handles signum l, found) in
    record { kept = rw no_regular refl; unwatched = rw watched refl }
entering-Suits handles signum l false sticky none d found kept =
    let watched : (1 + watchers handles signum l == 0) ≡ false = ground arith in
    record {
      kept = kept-caught ((if sticky then 0 else 1) + regulars handles signum l == 0) caught refl;
      unwatched = rw watched refl;
    }
entering-Suits handles signum l true sticky (some f) d (there, kind) kept =
    let watched : (1 + watchers handles signum l == 0) ≡ false = ground arith in
    let same : 0 + regulars handles signum l ≡ regulars handles signum l = omega arith in
    record { kept = rw same kept; unwatched = rw watched refl }
entering-Suits handles signum l false sticky (some f) d (there, kind) kept =
    let watched : (1 + watchers handles signum l == 0) ≡ false = ground arith in
    elim (Bool-cases (handles f).one_shot) [
      | inl shot ↦ rw shot (record {
        kept = kept-caught ((if sticky then 0 else 1) + regulars handles signum l == 0) caught refl;
        unwatched = rw watched refl;
      })
      | inr regular ↦
          let some_regular : (if regulars handles signum l == 0 then 1 else 0) ≡ 0 =
            ap
              (λ b.
                if b
                then regulars handles signum l
                else if regulars handles signum l == 0
                then 1
                else 0)
              (sym regular)
            ∙ kind in
          let not_zero : (regulars handles signum l == 0) ≡ false = ground (arith, some_regular) in
          let is_caught : d ≡ caught = ap (λ b. if b then caught else d) (sym not_zero) ∙ kept in
          rw regular (record {
            kept =
                kept-caught ((if sticky then 0 else 1) + regulars handles signum l == 0) d
                  is_caught;
            unwatched = rw watched refl;
          })
    ]

module _ {ℓ} {T : Type ℓ} (tree : RbTree T) (s : Signals tree) (h : ℕ) (cb : ℕ) (signum : ℕ)
    (oneshot : Bool) (valid : IsValid tree s) (idle : (s.handles h).signum ≡ 0)
    (nonzero : (signum == 0) ≡ false) where
  abbrev pub keyed : SignalHandle
  keyed = watching (s.handles h) signum oneshot

  abbrev pub started : SignalHandle
  started = record keyed { signal_cb = cb; is_active = true }

  abbrev pub handles' : ℕ → SignalHandle
  handles' = update s.handles h started

  pub absent : occurs h (tree.entries s.started) ≡ 0
  absent = valid.member h ∙ rw idle refl

  module _ (l : List ℕ) (m : List ℕ) (e : tree.entries s.started ≡ l ++ m) where
    fresh : occurs h (l ++ m) ≡ 0
    fresh = ap (occurs h) (sym e) ∙ absent

    pub joined-Sorted :
        Sorted (key_of (update s.handles h keyed)) (l ++ h ∷ m)
        → Sorted (key_of handles') (l ++ h ∷ m)
    joined-Sorted =
        Sorted-same (key_of (update s.handles h keyed)) (key_of handles') (l ++ h ∷ m) (λ g lt.
          elim (Bool-cases (g == h)) [ inl here ↦ rw here refl | inr other ↦ rw other refl ])

    pub joined-member :
        (g : ℕ) → occurs g (l ++ h ∷ m) ≡ (if (handles' g).signum == 0 then 0 else 1)
    joined-member g = elim (Bool-cases (g == h)) [
      | inl here ↦
          let same : g ≡ h = ground arith in
          let one : one_if (h == h) ≡ 1 = ground arith in
          rw (here, nonzero, same) (omega (arith, occurs-middle h h l m, fresh, one))
      | inr other ↦
          let apart : one_if (h == g) ≡ 0 = ground (arith, other) in
          rw (other, ← valid.member g, e) (omega (arith, occurs-middle g h l m, apart))
    ]

    pub joined-active : (g : ℕ) → (handles' g).is_active ≡ not ((handles' g).signum == 0)
    joined-active g = elim (Bool-cases (g == h)) [
      | inl here ↦ rw (here, nonzero) refl
      | inr other ↦ rw other (valid.active g)
    ]

    all_joined :
        (n : ℕ)
        → one_if (signum == n) + watchers s.handles n (tree.entries s.started)
          ≡ watchers handles' n (l ++ h ∷ m)
    all_joined n =
        let here : (h == h) ≡ true = ground arith in
        let at : one_if ((handles' h).signum == n) ≡ one_if (signum == n) = rw here refl in
        omega (
          arith,
          watchers-middle handles' n h l m,
          watchers-update s.handles h started n (l ++ m) fresh,
          ap (watchers s.handles n) e,
          at,
        )

    regular_joined :
        (n : ℕ)
        → (if keyed.one_shot then 0 else one_if (signum == n))
            + regulars s.handles n (tree.entries s.started)
          ≡ regulars handles' n (l ++ h ∷ m)
    regular_joined n =
        let here : (h == h) ≡ true = ground arith in
        let at : (if (handles' h).one_shot then 0 else one_if ((handles' h).signum == n))
            ≡ (if keyed.one_shot then 0 else one_if (signum == n)) =
          rw here refl in
        omega (
          arith,
          regulars-middle handles' n h l m,
          regulars-update s.handles h started n (l ++ m) fresh,
          ap (regulars s.handles n) e,
          at,
        )

    pub joined-Suits :
        (n : ℕ)
        → Suits (watchers handles' n (l ++ h ∷ m)) (regulars handles' n (l ++ h ∷ m)) (
            (if must_register s.handles oneshot
                  (first_handle s.handles signum (tree.entries s.started))
                then update s.disposition signum (disposition_of oneshot)
                else s.disposition)
              n)
    joined-Suits n =
        let old = tree.entries s.started in
        let first = first_handle s.handles signum old in
        let register = must_register s.handles oneshot first in
        elim (Bool-cases (n == signum)) [
          | inl here ↦
              let same : n ≡ signum = ground arith in
              let one : one_if (signum == signum) ≡ 1 = ground arith in
              let disposition : (if register then disposition_of oneshot else s.disposition signum)
                  ≡ (if register
                        then update s.disposition signum (disposition_of oneshot)
                        else s.disposition)
                      n =
                registered-at register s.disposition signum n (disposition_of oneshot) here in
              subst
                (λ d. Suits (watchers handles' n (l ++ h ∷ m)) (regulars handles' n (l ++ h ∷ m)) d)
                disposition
                (Suits-counts (1 + watchers s.handles signum old) (watchers handles' n (l ++ h ∷ m))
                  ((if keyed.one_shot then 0 else 1) + regulars s.handles signum old)
                  (regulars handles' n (l ++ h ∷ m))
                  (if register then disposition_of oneshot else s.disposition signum)
                  (omega (
                    arith,
                    all_joined signum,
                    one,
                    ap (λ k. watchers handles' k (l ++ h ∷ m)) same,
                  ))
                  (omega (
                    arith,
                    regular_joined signum,
                    ap (λ k. if keyed.one_shot then 0 else k) one,
                    ap (λ k. regulars handles' k (l ++ h ∷ m)) same,
                  ))
                  (entering-Suits s.handles signum old oneshot (s.handles h).one_shot first
                    (s.disposition signum) (first_handle-FirstOf s.handles signum old valid.sorted)
                    (valid.suits signum).kept))
          | inr other ↦
              let apart : one_if (signum == n) ≡ 0 = ground (arith, other) in
              let disposition : s.disposition n
                  ≡ (if register
                        then update s.disposition signum (disposition_of oneshot)
                        else s.disposition)
                      n =
                registered-elsewhere register s.disposition signum n (disposition_of oneshot)
                  other in
              subst
                (λ d. Suits (watchers handles' n (l ++ h ∷ m)) (regulars handles' n (l ++ h ∷ m)) d)
                disposition
                (Suits-counts (watchers s.handles n old) (watchers handles' n (l ++ h ∷ m))
                  (regulars s.handles n old) (regulars handles' n (l ++ h ∷ m)) (s.disposition n)
                  (omega (arith, all_joined n, apart)) (ground (arith, regular_joined n, apart))
                  (valid.suits n))
        ]
