-- ===== src/Tiers/Order.antt =====
-- The tiers against the stake: src/validator_tiers.rs.
use silver_consensus.Base.{ℕ, ◌≤◌, ◌≡◌, ◌↔◌, arith, true}
use silver_consensus.Tiers.Info.{tier_eq}
use silver_consensus.Tiers.{
  ValidatorTier, bronze, silver, gold, platinum, min_stake, rank, from_stake, voting_power,
  voting_power_multiplier,
}

-- `from_stake` is the highest tier that a stake affords: a tier's minimum is met exactly when the
-- tier is not above it. The stake meets the lowest minimum.
pub from_stake_greatest :
    (tier : ValidatorTier) (stake : ℕ)
    → min_stake bronze ≤ stake
    → (min_stake tier ≤ stake) ↔ (rank tier ≤ rank (from_stake stake))
unfolding min_stake rank from_stake
from_stake_greatest bronze stake h = (ground arith, ground arith)
from_stake_greatest silver stake h = (ground arith, ground arith)
from_stake_greatest gold stake h = (ground arith, ground arith)
from_stake_greatest platinum stake h = (ground arith, ground arith)

pub rank-from_stake_mono : (a b : ℕ) → a ≤ b → rank (from_stake a) ≤ rank (from_stake b)
unfolding rank from_stake
rank-from_stake_mono a b h = ground arith

-- More stake never means less voting power, the change of tier included.
pub voting_power_mono :
    (a b : ℕ) → a ≤ b → voting_power (from_stake a) a ≤ voting_power (from_stake b) b
unfolding voting_power from_stake voting_power_multiplier
voting_power_mono a b h = ground arith

pub rank_injective : (a b : ValidatorTier) → rank a ≡ rank b → a ≡ b
unfolding rank
rank_injective a b h = ground arith

pub tier_eq-eq : (a b : ValidatorTier) → tier_eq a b ≡ true → a ≡ b
unfolding tier_eq
tier_eq-eq a b h = rank_injective a b (ground arith)
