-- ===== src/Signal/Delivery.antt =====
-- src/unix/signal.c: the delivery of a signal.
use libuv.Prelude.{
  ℕ, ◌+◌, ◌≡◌, refl, sym, ap, ◌∙◌, inl, inr, Bool, some, List, [], ◌∷◌, ◌++◌, ◌==◌, if◌then◌else◌,
  Bool-cases, arith,
}
use mathlib.Core.Path.{subst}
use libuv.Signal.{key_of, Disposition, default_action, caught_once, caught}
use libuv.Signal.Tree.{RbTree, Signals, nfind}
use libuv.Signal.Actions.{update, catch_with, lookup_key, send, notify, signal_handler}
use libuv.Signal.First.{watchers, regulars}
use libuv.Signal.Alike.{update-Alike, Alike-IsValid}
use libuv.Signal.Valid.{Suits, IsValid}

module _ {ℓ} {T : Type ℓ} (tree : RbTree T) where
  send-IsValid :
      (room : ℕ → Bool) (signum h : ℕ) (s : Signals tree)
      → IsValid tree s
      → IsValid tree (send tree room signum h s)
  send-IsValid room signum h s valid =
      let w = s.handles h in
      let counted = record w { caught_signals = w.caught_signals + 1 } in
      elim (Bool-cases (room h)) [
        | inl there ↦ rw there (
            Alike-IsValid tree s (update s.handles h counted)
              (update s.pipe w.loop (s.pipe w.loop ++ (h, signum) ∷ []))
              (update-Alike s.handles h counted
                (record { signum = refl; one_shot = refl; loop = refl; is_active = refl }))
              valid)
        | inr full ↦ rw full valid
      ]

  notify-IsValid :
      (room : ℕ → Bool) (signum : ℕ) (l : List ℕ) (s : Signals tree)
      → IsValid tree s
      → IsValid tree (notify tree room signum l s)
  unfolding notify
  notify-IsValid room signum [] s valid = valid
  notify-IsValid room signum (h ∷ l) s valid = elim (Bool-cases ((s.handles h).signum == signum)) [
    | inl for_it ↦ rw for_it (
        notify-IsValid room signum l (send tree room signum h s)
          (send-IsValid room signum h s valid))
    | inr other ↦ rw other valid
  ]

  notify-signum :
      (room : ℕ → Bool) (signum : ℕ) (l : List ℕ) (s : Signals tree) (g : ℕ)
      → ((notify tree room signum l s).handles g).signum ≡ (s.handles g).signum
  unfolding notify
  notify-signum room signum [] s g = refl
  notify-signum room signum (h ∷ l) s g = elim (Bool-cases ((s.handles h).signum == signum)) [
    | inl for_it ↦
        rw for_it (notify-signum room signum l (send tree room signum h s) g ∙ send-signum h)
    | inr other ↦ rw other refl
  ]
    where
      send-signum : (h : ℕ) → ((send tree room signum h s).handles g).signum ≡ (s.handles g).signum
      send-signum h = elim (Bool-cases (room h)) [
        | inl there ↦ elim (Bool-cases (g == h)) [
          | inl same ↦
              let level : g ≡ h = ground arith in
              rw (there, same) (ap (λ k. (s.handles k).signum) (sym level))
          | inr apart ↦ rw (there, apart) refl
        ]
        | inr full ↦ rw full refl
      ]

  -- A signal that arrives keeps valid signals valid, and starts and stops no handle.
  pub signal_handler-IsValid :
      (room : ℕ → Bool) (signum : ℕ) (s : Signals tree)
      → IsValid tree s
      → IsValid tree (signal_handler tree room signum s)
        × ((g : ℕ) → ((signal_handler tree room signum s).handles g).signum ≡ (s.handles g).signum)
  unfolding signal_handler
  signal_handler-IsValid room signum s valid =
      let found = nfind (key_of s.handles) (lookup_key signum) (tree.entries s.started) in
      (notify-IsValid room signum found s valid, notify-signum room signum found s)

  -- A disposition that is reset when it is used is not that of a signal with a regular watcher.
  reset-Suits :
      (all regular : ℕ) (d : Disposition)
      → d ≡ caught_once
      → Suits all regular d
      → Suits all regular default_action
  reset-Suits all regular d once suits = elim (Bool-cases (regular == 0)) [
    | inl no_regular ↦ record {
      kept = rw no_regular refl;
      unwatched = elim (Bool-cases (all == 0)) [ inl e ↦ rw e refl | inr e ↦ rw e refl ];
    }
    | inr some_regular ↦
        let is_caught : d ≡ caught =
          ap (λ b. if b then caught else d) (sym some_regular) ∙ suits.kept in
        absurd cc
  ]

  reset-IsValid :
      (s : Signals tree) (signum : ℕ)
      → s.disposition signum ≡ caught_once
      → IsValid tree s
      → IsValid tree (record s { disposition = update s.disposition signum default_action })
  reset-IsValid s signum once valid = record {
    sorted = valid.sorted;
    member = valid.member;
    active = valid.active;
    suits = λ n. elim (Bool-cases (n == signum)) [
      | inl here ↦
          let same : n ≡ signum = ground arith in
          rw here (
            reset-Suits (watchers s.handles n (tree.entries s.started))
              (regulars s.handles n (tree.entries s.started)) (s.disposition n)
              (ap s.disposition same ∙ once) (valid.suits n))
      | inr other ↦ rw other (valid.suits n)
    ];
  }

  pub catch_with-IsValid :
      (room : ℕ → Bool) (signum : ℕ) (d : Disposition) (s t : Signals tree)
      → s.disposition signum ≡ d
      → catch_with tree room signum d s ≡ some t
      → IsValid tree s
      → IsValid tree t
  unfolding signal_handler
  catch_with-IsValid room signum default_action s t is caught_it valid = absurd cc
  catch_with-IsValid room signum caught_once s t is caught_it valid =
      let reset : Signals tree = record s {
        disposition = update s.disposition signum default_action;
      } in
      let same : signal_handler tree room signum reset ≡ t = cc in
      subst (IsValid tree) same (
        notify-IsValid room signum
          (nfind (key_of s.handles) (lookup_key signum) (tree.entries s.started)) reset
          (reset-IsValid s signum is valid))
  catch_with-IsValid room signum caught s t is caught_it valid =
      let same : signal_handler tree room signum s ≡ t = cc in
      subst (IsValid tree) same (
        notify-IsValid room signum
          (nfind (key_of s.handles) (lookup_key signum) (tree.entries s.started)) s valid)
