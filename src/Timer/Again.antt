-- ===== src/Timer/Again.antt =====
-- src/timer.c: what `uv_timer_again` does to a timer that has just expired.
use libuv.Prelude.{
  ℕ, ◌+◌, ◌^◌, ◌≤◌, ◌<◌, ◌≡◌, ◌≢◌, refl, ◌∙◌, sym, inl, inr, true, false, some, ◌==◌, Bool-cases,
  arith,
}
use libuv.Errno.{ok}
use libuv.Handle.{is_closing}
use libuv.Queue.{occurs}
use libuv.Timer.{Loop, uv_timer_stop, uv_timer_start, uv_timer_again, u64_mod}
use libuv.Timer.Valid.{IsValid, Stopped, uv_timer_stop-IsValid}
use libuv.Timer.Start.{Started, due_time, uv_timer_start-Started}

-- What `uv_timer_again` leaves of a loop.
pub record Again (l : Loop) (h : ℕ) (l' : Loop) : Type 0 where
  pub valid : IsValid l'
  pub same_time : l'.time ≡ l.time
  pub same_ready : l'.ready ≡ l.ready
  pub fewer : l'.timer_heap.nelts ≤ l.timer_heap.nelts + 1
  pub others : (k : ℕ) → k ≢ h → l'.handles k ≡ l.handles k
  pub same_cb : (l'.handles h).timer_cb ≡ (l.handles h).timer_cb
  pub same_repeat : (l'.handles h).repeat ≡ (l.handles h).repeat

-- When the timer is due next, and whether it is.
pub record Repeats (l : Loop) (h : ℕ) (l' : Loop) : Type 0 where
  pub once : (l.handles h).repeat ≡ 0 → (l'.handles h).flags.active ≡ false
  pub next :
      (l.handles h).repeat ≢ 0
      → is_closing (l.handles h).flags ≡ false
      → ((l'.handles h).flags.active ≡ true)
        × ((l'.handles h).timeout ≡ due_time l.time (l.handles h).repeat)

module _ (l : Loop) (h : ℕ) where
  unrepeated-Again :
      IsValid l
      → (l.handles h).flags.active ≡ false
      → (l.handles h).repeat ≡ 0
      → Again l h l × Repeats l h l
  unrepeated-Again v off zero_repeat = (
    record {
      valid = v;
      same_time = refl;
      same_ready = refl;
      fewer = omega arith;
      others = λ k n. refl;
      same_cb = refl;
      same_repeat = refl;
    },
    record { once = λ e. off; next = λ n. absurd (n zero_repeat) },
  )

  closing-Again :
      (stopped : Loop)
      → IsValid stopped
      → Stopped l h stopped
      → occurs h l.ready ≡ 0
      → (l.handles h).repeat ≢ 0
      → is_closing (l.handles h).flags ≡ true
      → Again l h stopped × Repeats l h stopped
  closing-Again stopped v st out repeats closing = (
    record {
      valid = v;
      same_time = st.same_time;
      same_ready = st.kept out;
      fewer = omega (arith, st.fewer);
      others = st.others;
      same_cb = st.same_timer.0;
      same_repeat = st.same_timer.2;
    },
    record { once = λ e. absurd (repeats e); next = λ n live. cc },
  )

  begun-Again :
      (stopped l' : Loop) (cb repeat : ℕ)
      → (l.handles h).timer_cb ≡ some cb
      → repeat ≡ (l.handles h).repeat
      → Stopped l h stopped
      → IsValid l'
      → Started stopped h cb repeat repeat l'
      → occurs h l.ready ≡ 0
      → (l.handles h).repeat ≢ 0
      → Again l h l' × Repeats l h l'
  begun-Again stopped l' cb repeat is_cb is st v s out repeats = (
    record {
      valid = v;
      same_time = s.same_time ∙ st.same_time;
      same_ready = s.kept st.out ∙ st.kept out;
      fewer = omega (arith, s.fewer, st.fewer);
      others = λ k n. s.others k n ∙ st.others k n;
      same_cb = s.same_cb ∙ sym is_cb;
      same_repeat = s.repeats ∙ is;
    },
    record {
      once = λ e. absurd (repeats e);
      next = λ n live. (s.active, s.due ∙ rw (is, st.same_time) refl);
    },
  )

  uv_timer_again-failed :
      (stopped : Loop) (cb : ℕ)
      → (l.handles h).timer_cb ≡ some cb
      → ((l.handles h).repeat == 0) ≡ false
      → uv_timer_stop l h ≡ some stopped
      → (stopped.handles h).timer_cb ≡ some cb
      → is_closing (stopped.handles h).flags ≡ true
      → uv_timer_again l h ≡ some (ok, stopped)
  unfolding uv_timer_again uv_timer_start
  uv_timer_again-failed stopped cb is_cb not_zero stop same closing =
      rw (is_cb, uv_timer_again) (rw (not_zero, stop, same) (rw closing refl))

  uv_timer_again-started :
      (stopped l' : Loop) (cb : ℕ)
      → (l.handles h).timer_cb ≡ some cb
      → ((l.handles h).repeat == 0) ≡ false
      → uv_timer_stop l h ≡ some stopped
      → (stopped.handles h).timer_cb ≡ some cb
      → uv_timer_start stopped h (some cb) (stopped.handles h).repeat (stopped.handles h).repeat
        ≡ some (ok, l')
      → uv_timer_again l h ≡ some (ok, l')
  unfolding uv_timer_again
  uv_timer_again-started stopped l' cb is_cb not_zero stop same start =
      rw (is_cb, uv_timer_again) (rw (not_zero, stop, same, start) refl)

  -- On a valid loop that has room, and a timer with a callback that has just expired and left the
  -- queue, `uv_timer_again` succeeds without a fault. It keeps the loop valid, the other timers and
  -- the queue as they are, and the timer's callback and repeat. A timer that does not repeat stays
  -- inactive; one that does, and is not closing, is active again and due one repeat from now.
  pub uv_timer_again-Again :
      (cb : ℕ)
      → IsValid l
      → l.timer_heap.nelts + 1 < 2 ^ 32
      → (l.handles h).flags.active ≡ false
      → occurs h l.ready ≡ 0
      → (l.handles h).timer_cb ≡ some cb
      → l.time < u64_mod
      → (l.handles h).repeat < u64_mod
      → (l' : Loop) × (uv_timer_again l h ≡ some (ok, l')) × Again l h l' × Repeats l h l'
  unfolding uv_timer_again
  uv_timer_again-Again cb v room off out is_cb now small =
      elim (Bool-cases ((l.handles h).repeat == 0)) [
        | inl zero_repeat ↦
            let (again, repeats) = unrepeated-Again v off (ground arith) in
            (l, rw (is_cb, uv_timer_again) (rw zero_repeat refl), again, repeats)
        | inr not_zero ↦
            let (stopped, stop, v', st) = uv_timer_stop-IsValid l h v (omega arith) in
            let same = st.same_timer.0 ∙ is_cb in
            let repeats : (l.handles h).repeat ≢ 0 = ground arith in
            elim (Bool-cases (is_closing (l.handles h).flags)) [
              | inl closing ↦
                  let (again, next) = closing-Again stopped v' st out repeats closing in
                  (
                    stopped,
                    uv_timer_again-failed stopped cb is_cb not_zero stop same
                        (st.same_timer.4 ∙ closing),
                    again,
                    next,
                  )
              | inr live ↦
                  let repeat = (stopped.handles h).repeat in
                  let (l', start, valid, s) =
                    uv_timer_start-Started stopped h cb repeat repeat v' (omega (arith, st.fewer))
                      (st.same_timer.4 ∙ live) (omega (arith, st.same_time))
                      (omega (arith, st.same_timer.2)) in
                  let (again, next) =
                    begun-Again stopped l' cb repeat is_cb st.same_timer.2 st valid s out repeats in
                  (
                    l',
                    uv_timer_again-started stopped l' cb is_cb not_zero stop same start,
                    again,
                    next,
                  )
            ]
      ]
