-- ===== src/Base/Clock.antt =====
-- The clocks that the code reads, as an argument of each call: `Instant::now()` in milliseconds,
-- and `SystemTime::now()` since the epoch in seconds and in milliseconds.
use Prim.Native.Nat.{ℕ}

pub record Clock : Type 0 where
  pub instant : ℕ
  pub unix_secs : ℕ
  pub unix_millis : ℕ
