-- ===== src/Scheduler/Tick/Backoff.antt =====
-- The back-off of a sensor that fails again and again.
use lin_sight.Base.{
  ℕ, zero, suc, ◌+◌, ◌*◌, ◌%◌, ◌^◌, ◌≤◌, ◌<◌, ◌≡◌, refl, ◌∙◌, List, [], ◌∷◌, ◌++◌, Option, none,
  some, arith, min, u64_mod, u64_max, length,
}
use native.Mathlib.Nat.{add-zero, zero-add}
use lin_sight.Scheduler.Table.{Entry}
use lin_sight.Scheduler.Tick.{PluginError, unsupported, timeout, fail, strike, backoff}

-- The entry after the same failure at each of the times.
unfoldable pub failing : PluginError → Entry → List ℕ → Entry
failing why e [] = e
failing why e (t ∷ ts) = failing why (fail t e why) ts

abbrev pub u32_max : ℕ
u32_max = 0xffff_ffff

pow_le : (m : ℕ) → m ≤ 8 → 2 ^ m ≤ 256
pow_le zero h = omega arith
pow_le (suc zero) h = omega arith
pow_le (suc (suc zero)) h = omega arith
pow_le (suc (suc (suc zero))) h = omega arith
pow_le (suc (suc (suc (suc zero)))) h = omega arith
pow_le (suc (suc (suc (suc (suc zero))))) h = omega arith
pow_le (suc (suc (suc (suc (suc (suc zero)))))) h = omega arith
pow_le (suc (suc (suc (suc (suc (suc (suc zero))))))) h = omega arith
pow_le (suc (suc (suc (suc (suc (suc (suc (suc zero)))))))) h = omega arith
pow_le (suc (suc (suc (suc (suc (suc (suc (suc (suc m))))))))) h = absurd (omega arith)

wrapped_sum :
    (now period w : ℕ)
    → w ≤ 256
    → now + period * 256 < u64_mod
    → (now + min (period * w) u64_max) % u64_mod ≡ now + period * w
wrapped_sum now period w h fits = let bound : period * w ≤ period * 256 = grind arith in omega arith

backoff_exact :
    (now period n : ℕ)
    → now + period * 256 < u64_mod
    → backoff now period n ≡ now + period * 2 ^ min n 8
unfolding backoff
backoff_exact now period n fits =
    wrapped_sum now period (2 ^ min n 8) (pow_le (min n 8) (omega arith)) fits

-- The counter that a kind of failure drives; the other kinds have none.
unfoldable pub strikes : PluginError → Entry → Option ℕ
strikes (unsupported _) e = some e.unsupported_strikes
strikes (timeout _) e = some e.timeout_strikes
strikes _ e = none

fail_strike :
    (why : PluginError) (t : ℕ) (e : Entry) (n : ℕ)
    → strikes why e ≡ some n
    → n < u32_max
    → (strikes why (fail t e why) ≡ some (n + 1))
      × ((fail t e why).period ≡ e.period)
      × ((fail t e why).next_due ≡ backoff t e.period (n + 1))
unfolding fail strikes strike
fail_strike (unsupported _) t e n h fits = ground arith
fail_strike _ t e n h fits = ground arith

failing-strikes :
    (why : PluginError) (e : Entry) (ts : List ℕ) (n : ℕ)
    → strikes why e ≡ some n
    → n + length ts < u32_max
    → (strikes why (failing why e ts) ≡ some (n + length ts))
      × ((failing why e ts).period ≡ e.period)
unfolding failing
failing-strikes why e [] n h fits = rw add-zero (h, refl)
failing-strikes why e (t ∷ ts) n h fits =
    let (struck, same, _) = fail_strike why t e n h (omega arith) in
    let (after, same') = failing-strikes why (fail t e why) ts (n + 1) struck (omega arith) in
    (ground (arith, after), same' ∙ same)

failing-concat :
    (why : PluginError) (e : Entry) (ts : List ℕ) (t : ℕ)
    → failing why e (ts ++ t ∷ []) ≡ fail t (failing why e ts) why
unfolding failing
failing-concat why e [] t = refl
failing-concat why e (u ∷ ts) t = failing-concat why (fail u e why) ts t

-- After `n` results in a row that say that the sensor is unsupported, or that it timed out, it is
-- next due `2 ^ n` periods after the last of them, and from the eighth on 256 periods, unless that
-- leaves the range of a `u64`.
pub failing_backoff :
    (why : PluginError) (e : Entry) (ts : List ℕ) (t : ℕ)
    → strikes why e ≡ some 0
    → length ts + 1 < u32_max
    → t + e.period * 256 < u64_mod
    → (failing why e (ts ++ t ∷ [])).next_due ≡ t + e.period * 2 ^ min (length ts + 1) 8
failing_backoff why e ts t none_yet short fits =
    let (struck, same) = failing-strikes why e ts 0 none_yet (omega arith) in
    let (_, _, due) = fail_strike why t (failing why e ts) (0 + length ts) struck (omega arith) in
    rw (failing-concat why e ts t, due, same, zero-add (length ts))
      (backoff_exact t e.period (length ts + 1) fits)
