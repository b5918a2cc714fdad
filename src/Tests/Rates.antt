-- ===== src/Tests/Rates.antt =====
-- The rate arithmetic at a rate of 2 Hz, and at a NaN.
use lin_sight.Base.{Option, true, none, some, ◌≡◌, ◌≢◌, ◌↔◌}
use lin_sight.Scheduler.Rate.{period_micros, period_micros_panics}
use lin_sight.Tests.Fixtures.{Rate, rates, rates_law}

abbrev named : Option Rate
named = some (some 20)

period_micros_panics_example :
    (period_micros rates none named ≡ none) ↔ ((rates.is_nan none ≡ true) × (named ≢ none))
period_micros_panics_example = period_micros_panics rates rates_law none named
