-- ===== src/Base/Word.antt =====
-- Rust's `u64`: a number below `2 ^ 64`. `+`, `-` and `*` wrap, as in a build with no overflow
-- checks; `saturating_*` stop at the ends.
use Prim.Native.Nat.{ℕ, ◌+◌, ◌-◌, ◌*◌, ◌%◌, ◌≤◌, ◌<◌}
use mathlib.Core.Path.{◌≡◌}
use native.Mathlib.Omega.{arith}
use silver_consensus.Base.Tests.{leb, if◌then◌else◌}

-- `2 ^ 64`
abbrev pub u64_mod : ℕ
u64_mod = 18446744073709551616

-- `u64::MAX`
abbrev pub u64_max : ℕ
u64_max = 18446744073709551615

unfoldable pub add64 : ℕ → ℕ → ℕ
add64 a b = (a + b) % u64_mod

unfoldable pub sub64 : ℕ → ℕ → ℕ
sub64 a b = (a + u64_mod - b) % u64_mod

unfoldable pub mul64 : ℕ → ℕ → ℕ
mul64 a b = (a * b) % u64_mod

-- `saturating_add`
unfoldable pub sat_add64 : ℕ → ℕ → ℕ
sat_add64 a b = if leb (a + b) u64_max then a + b else u64_max

-- `saturating_mul`
unfoldable pub sat_mul64 : ℕ → ℕ → ℕ
sat_mul64 a b = if leb (a * b) u64_max then a * b else u64_max

pub add64_exact : (a b : ℕ) → a + b < u64_mod → add64 a b ≡ a + b
unfolding add64
add64_exact a b h = omega arith

pub sub64_exact : (a b : ℕ) → b ≤ a → a < u64_mod → sub64 a b ≡ a - b
unfolding sub64
sub64_exact a b h k = omega arith

pub mul64_exact : (a b : ℕ) → a * b < u64_mod → mul64 a b ≡ a * b
unfolding mul64
mul64_exact a b h = omega arith

pub add64_bound : (a b : ℕ) → add64 a b < u64_mod
unfolding add64
add64_bound a b = omega arith

pub sub64_bound : (a b : ℕ) → sub64 a b < u64_mod
unfolding sub64
sub64_bound a b = omega arith

pub ruleset word_laws = (arith, add64_exact, sub64_exact, mul64_exact)
