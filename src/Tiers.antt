-- ===== src/Tiers.antt =====
-- Validator tiers: src/validator_tiers.rs, the enum and its functions of the stake.
pub mod Info
pub mod Manager
pub mod Records
mod Examples
pub mod Order
use silver_consensus.Base.{
  ℕ, ◌*◌, ◌/◌, ◌<◌, Bool, Option, none, some, List, [], ◌∷◌, ltb, leb, if◌then◌else◌, ◌&&◌,
}

pub data ValidatorTier : Type 0 where
  bronze silver gold platinum : ValidatorTier

unfoldable pub min_stake : ValidatorTier → ℕ
min_stake bronze = 10000
min_stake silver = 50000
min_stake gold = 100000
min_stake platinum = 500000

-- the derived order of the enum
unfoldable pub rank : ValidatorTier → ℕ
rank bronze = 0
rank silver = 1
rank gold = 2
rank platinum = 3

-- in halves: 0.5, 1.0, 1.5 and 2.0
unfoldable pub voting_power_multiplier : ValidatorTier → ℕ
voting_power_multiplier bronze = 1
voting_power_multiplier silver = 2
voting_power_multiplier gold = 3
voting_power_multiplier platinum = 4

-- in tenths: 1.0, 1.2, 1.5 and 2.0
unfoldable pub reward_multiplier : ValidatorTier → ℕ
reward_multiplier bronze = 10
reward_multiplier silver = 12
reward_multiplier gold = 15
reward_multiplier platinum = 20

unfoldable pub from_stake : ℕ → ValidatorTier
unfolding min_stake
from_stake stake =
    if leb (min_stake platinum) stake
    then platinum
    else if leb (min_stake gold) stake
    then gold
    else if leb (min_stake silver) stake
    then silver
    else bronze

abbrev pub all_tiers : List ValidatorTier
all_tiers = bronze ∷ silver ∷ gold ∷ platinum ∷ []

unfoldable pub can_upgrade_to : ValidatorTier → ValidatorTier → ℕ → Bool
unfolding min_stake rank
can_upgrade_to self target stake = ltb (rank self) (rank target) && leb (min_stake target) stake

unfoldable pub will_downgrade_to : ValidatorTier → ℕ → Option ValidatorTier
unfolding rank
will_downgrade_to self stake =
    let new_tier = from_stake stake in
    if ltb (rank new_tier) (rank self) then some new_tier else none

-- `(stake as f64 * multiplier) as u64`, which is exact for a stake below `2 ^ 52`
unfoldable pub voting_power : ValidatorTier → ℕ → ℕ
unfolding voting_power_multiplier
voting_power tier stake = stake * voting_power_multiplier tier / 2
