-- ===== src/Worker/Runtime/Idle.antt =====
-- How long the main loop waits when there is nothing to do.
use native.Mathlib.Nat.{mul_assoc, pow-succ'}
use allgres.Base.{
  ℕ, zero, suc, ◌+◌, ◌*◌, ◌^◌, true, false, List, [], ◌∷◌, ◌≡◌, refl, arith, min, length, sym, ap,
  ◌∙◌,
}
use allgres.Worker.Runtime.{start, Runtime, schedule, pump_idle_min, pump_idle_max}

-- Pumps that find nothing to do, at these times.
abbrev idle_pumps : List ℕ → Runtime → Runtime
idle_pumps [] r = r
idle_pumps (now ∷ nows) r = idle_pumps nows (schedule false now r)

abbrev doubled : ℕ → ℕ → ℕ
doubled zero c = c
doubled (suc n) c = doubled n (c * 2)

idle_delay_from :
    (nows : List ℕ) (r : Runtime) (c : ℕ)
    → r.idle_delay ≡ min (pump_idle_min * c) pump_idle_max
    → (idle_pumps nows r).idle_delay ≡ min (pump_idle_min * doubled (length nows) c) pump_idle_max
unfolding schedule
idle_delay_from [] r c h = h
idle_delay_from (now ∷ nows) r c h =
    idle_delay_from nows (schedule false now r) (c * 2) (omega (arith, h))

doubled-eq : (n c : ℕ) → doubled n c ≡ c * 2 ^ n
doubled-eq zero c = omega arith
doubled-eq (suc n) c =
    doubled-eq n (c * 2) ∙ mul_assoc c 2 (2 ^ n) ∙ ap (◌*◌ c) (sym (pow-succ' 2 n))

wait_after :
    (nows : List ℕ) (now : ℕ) (r : Runtime)
    → r.idle_delay ≡ pump_idle_min
    → (schedule false now (idle_pumps nows r)).next_pump
      ≡ now + min (pump_idle_min * 2 ^ length nows) pump_idle_max
unfolding schedule
wait_after nows now r h =
    omega (arith, idle_delay_from nows r 1 (omega (arith, h)), doubled-eq (length nows) 1)

-- The main loop waits twice as long after each pump that finds nothing to do: behind n of them
-- since the start, or since a pump that did some work, the next such pump is followed by a wait of
-- 500 * 2^n milliseconds, but of 4,000 at most.
idle_wait :
    (nows : List ℕ) (now begun : ℕ) (r : Runtime)
    → ((schedule false now (idle_pumps nows (start begun))).next_pump
        ≡ now + min (pump_idle_min * 2 ^ length nows) pump_idle_max)
      × ((schedule false now (idle_pumps nows (schedule true begun r))).next_pump
          ≡ now + min (pump_idle_min * 2 ^ length nows) pump_idle_max)
unfolding schedule
idle_wait nows now begun r =
    (wait_after nows now (start begun) refl, wait_after nows now (schedule true begun r) refl)
