-- ===== src/Engine/Transaction/Timeouts.antt =====
-- Lock timeouts: a bound that the caller gives is never shortened.
use dart_odbc_fast.Prelude.{
  ℕ, zero, suc, max, ◌/◌, ◌+◌, ◌*◌, ◌^◌, ◌≤◌, ◌<◌, none, some, ◌≡◌, refl, ◌⊎◌, inl, inr, arith,
}
use dart_odbc_fast.Engine.Transaction.{from_millis, from_duration, millis_as_seconds_rounded_up}

-- The seconds sent to an engine that counts in seconds are at least one, cover the milliseconds
-- that were asked for, and exceed them by less than a second, or are the least possible; and zero
-- milliseconds stand for the engine's default.
seconds-from_millis :
    (ms : ℕ)
    → ((ms ≡ 0) × (millis_as_seconds_rounded_up (from_millis ms) ≡ none))
      ⊎ ((secs : ℕ) × (millis_as_seconds_rounded_up (from_millis ms) ≡ some secs)
          × (1 ≤ secs)
          × (ms ≤ 1000 * secs)
          × (1000 * secs < ms + 1000))
unfolding from_millis millis_as_seconds_rounded_up
seconds-from_millis zero = inl (refl, refl)
seconds-from_millis (suc ms) =
    let e : from_millis (suc ms) ≡ some (suc ms) = ground arith in
    inr (max ((suc ms + 999) / 1000) 1, rw e refl, omega arith, omega arith, omega arith)

-- A duration becomes the engine's default only if it is zero. Otherwise the timeout is from 1 to
-- 2^32 - 1 milliseconds, is within a millisecond of the duration unless it is the greatest one, and is
-- rounded up only if the duration is below a millisecond.
from_duration_lem :
    (nanos : ℕ)
    → ((nanos ≡ 0) × (from_duration nanos ≡ none))
      ⊎ ((ms : ℕ) × (from_duration nanos ≡ some ms)
          × (1 ≤ ms)
          × (ms < 2 ^ 32)
          × ((nanos < (ms + 1) * 1000000) ⊎ (ms + 1 ≡ 2 ^ 32))
          × ((ms * 1000000 ≤ nanos) ⊎ ((ms ≡ 1) × (nanos < 1000000))))
unfolding from_duration
from_duration_lem nanos = ground arith
