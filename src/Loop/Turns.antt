-- ===== src/Loop/Turns.antt =====
-- src/unix/core.c: `uv_run` where it makes one turn at most.
use libuv.Prelude.{ℕ, suc, ◌≡◌, refl, inl, inr, true, false, some, if◌then◌else◌, Bool-cases}
use libuv.Loop.{Mode, is_default, Phases, loop_alive, turn, run_loop, enter, leave, uv_run}

module _ {S : Type 0} (p : Phases S) where
  -- In a mode other than the default one `uv_run` returns whatever the fuel, if there is any, after one turn if the
  -- loop is alive and not stopped, and with no turn otherwise. What it returns is whether the loop
  -- was alive at the last of its tests.
  pub uv_run_other_modes :
      (fuel : ℕ) (mode : Mode) (s : S)
      → is_default mode ≡ false
      → uv_run p (suc fuel) mode s ≡ (
          if loop_alive p s
          then (if p.stop_flag s
              then some (leave p (s, true))
              else some (leave p (turn p mode s, loop_alive p (turn p mode s))))
          else some (leave p (p.update_time s, false)))
  unfolding uv_run run_loop enter
  uv_run_other_modes fuel mode s other = elim (Bool-cases (loop_alive p s)) [
    | inr dead ↦ rw (other, dead) refl
    | inl alive ↦ elim (Bool-cases (p.stop_flag s)) [
      | inl stop ↦ rw (other, alive, stop) refl
      | inr free ↦ rw (other, alive, free) refl
    ]
  ]
