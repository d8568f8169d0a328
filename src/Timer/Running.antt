-- ===== src/Timer/Running.antt =====
-- src/timer.c: `uv__run_timers` as a whole, with callbacks that start and stop timers.
use mathlib.Core.List.{Sublistᴰ}
use mathlib.Core.Path.{subst}
use libuv.Prelude.{
  ℕ, zero, suc, ◌<◌, ◌≡◌, refl, sym, ap, ◌∙◌, Option, some, List, [], ◌∷◌, length, Sublistᴰ-trans,
  length-Sublistᴰ, arith,
}
use libuv.Errno.{ok}
use libuv.Timer.{Loop, uv_timer_again, call, collect, drain, uv_run_timers}
use libuv.Timer.Again.{uv_timer_again-Again}
use libuv.Timer.Ready.{Collected, collect-ready}
use libuv.Timer.Runnable.{
  IsRunnable, Behaves, Calls, done, next, popped, popped-IsValid, popped-inactive, head_cb,
  repeated-IsRunnable,
}

-- What the second loop does: it empties the queue, and calls timers of the queue, in its order.
pub record Drained (timer_cb : ℕ → ℕ → Loop → Option Loop) (l : Loop) (calls : List ℕ) (end : Loop)
    : Type 0 where
  pub runnable : IsRunnable end
  pub empty : end.ready ≡ []
  pub same_time : end.time ≡ l.time
  pub ran : Calls timer_cb l calls end
  pub in_order : Sublistᴰ calls l.ready

module _ (timer_cb : ℕ → ℕ → Loop → Option Loop) (behaves : Behaves timer_cb) where
  call-callback :
      (l : Loop) (h cb : ℕ) → (l.handles h).timer_cb ≡ some cb → call timer_cb l h ≡ timer_cb cb h l
  unfolding call
  call-callback l h cb e = rw (e, call) refl

  drain-empty : (fuel : ℕ) (l : Loop) → l.ready ≡ [] → drain timer_cb (suc fuel) l ≡ some l
  unfolding drain
  drain-empty fuel l at =
      let same : record l { ready = [] } ≡ l = ap (λ q. record l { ready = q }) (sym at) in
      ap (drain timer_cb (suc fuel)) (sym same) ∙ ap some same

  drain-next :
      (fuel : ℕ) (l again called : Loop) (h : ℕ) (rest : List ℕ)
      → l.ready ≡ h ∷ rest
      → uv_timer_again (popped l rest) h ≡ some (ok, again)
      → call timer_cb again h ≡ some called
      → drain timer_cb (suc fuel) l ≡ drain timer_cb fuel called
  unfolding drain
  drain-next fuel l again called h rest at repeated callback =
      rw (at, drain) (rw (repeated, callback) refl)

  drain-Drained :
      (fuel : ℕ) (l : Loop) (queue : List ℕ)
      → l.ready ≡ queue
      → length queue < fuel
      → IsRunnable l
      → (calls : List ℕ) × (end : Loop) × (drain timer_cb fuel l ≡ some end)
        × Drained timer_cb l calls end
  unfolding drain
  drain-Drained zero l queue at enough r = absurd (omega arith)
  drain-Drained (suc fuel) l [] at enough r = (
    [],
    l,
    drain-empty fuel l at,
    record {
      runnable = r;
      empty = at;
      same_time = refl;
      ran = done l at;
      in_order = subst (Sublistᴰ []) (sym at) Sublistᴰ.slnil;
    },
  )
  drain-Drained (suc fuel) l (h ∷ rest) at enough r =
      let (cb, is_cb) = head_cb l h rest at r in
      let (inactive, out) = popped-inactive l h rest at r in
      let (again, repeated, a, repeats) =
        uv_timer_again-Again (popped l rest) h cb (popped-IsValid l h rest at r)
          (omega (arith, r.room)) inactive out is_cb r.now (r.repeats h) in
      let (called, callback, r', removed, now) =
        behaves.returns cb h again (repeated-IsRunnable l h rest at r again a) in
      let calling = call-callback again h cb (a.same_cb ∙ is_cb) ∙ callback in
      let left : Sublistᴰ called.ready rest = subst (Sublistᴰ called.ready) a.same_ready removed in
      let (calls, end, run, d) =
        drain-Drained fuel called called.ready refl
          (omega (arith, length-Sublistᴰ called.ready rest left)) r' in
      (
        h ∷ calls,
        end,
        drain-next fuel l again called h rest at repeated calling ∙ run,
        record {
          runnable = d.runnable;
          empty = d.empty;
          same_time = d.same_time ∙ now ∙ a.same_time;
          ran = next l again called end h rest calls at repeated repeats calling d.ran;
          in_order =
              subst (Sublistᴰ (h ∷ calls)) (sym at)
                (Sublistᴰ.cons-cons refl (Sublistᴰ-trans calls called.ready rest d.in_order left));
        },
      )

  gathered-IsRunnable : (l c : Loop) → IsRunnable l → l.ready ≡ [] → Collected l c → IsRunnable c
  gathered-IsRunnable l c r at col = record {
    valid = col.valid;
    room = omega (arith, r.room, col.total);
    now = omega (arith, col.now, r.now);
    repeats = λ k. omega (arith, col.same_repeats k, r.repeats k);
    has_cb = λ k there.
        let (cb, e) = r.has_cb k (omega (arith, col.moved k, there)) in (cb, col.same_cbs k ∙ e);
  }

  uv_run_timers-drain :
      (l collected end : Loop)
      → l.ready ≡ []
      → collect (suc l.timer_heap.nelts) l ≡ some collected
      → drain timer_cb (suc (length collected.ready)) collected ≡ some end
      → uv_run_timers timer_cb l ≡ some end
  unfolding uv_run_timers
  uv_run_timers-drain l collected end at collecting draining =
      let same : record l { ready = [] } ≡ l = ap (λ q. record l { ready = q }) (sym at) in
      rw (same, collecting) draining

  -- On a runnable loop whose queue of expired timers is empty, as `uv__run_timers` begins, and with
  -- callbacks that keep it runnable and at most stop timers that wait to be called, `uv__run_timers`
  -- ends without a fault, with one round for each timer that is due at most. The first loop collects
  -- the due timers, in order; the second starts each again, if it repeats, calls it, and goes on in
  -- that order with those that are still in the queue. The loop is runnable afterwards and its queue empty.
  pub uv_run_timers-Drained :
      (l : Loop)
      → IsRunnable l
      → l.ready ≡ []
      → (collected : Loop) × (calls : List ℕ) × (end : Loop) × Collected l collected
        × (uv_run_timers timer_cb l ≡ some end)
        × Drained timer_cb collected calls end
  uv_run_timers-Drained l r at =
      let (collected, collect_run, c) = collect-ready l r.valid (omega (arith, r.room)) at in
      let (calls, end, run, d) =
        drain-Drained (suc (length collected.ready)) collected collected.ready refl (omega arith)
          (gathered-IsRunnable l collected r at c) in
      (collected, calls, end, c, uv_run_timers-drain l collected end at collect_run run, d)
