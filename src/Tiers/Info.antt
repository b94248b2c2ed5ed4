-- ===== src/Tiers/Info.antt =====
-- `TierChangeEvent` and `ValidatorTierInfo` of src/validator_tiers.rs.
use silver_consensus.Base.{
  ℕ, ◌-◌, Bool, Option, none, some, List, [], ◌∷◌, ltb, if◌then◌else◌, length, take, ◌==◌,
}
use silver_consensus.Tiers.{ValidatorTier, rank, from_stake, min_stake, voting_power, all_tiers}

pub record TierChangeEvent : Type 0 where
  pub validator_id : ℕ
  pub from_tier : ValidatorTier
  pub to_tier : ValidatorTier
  pub stake_amount : ℕ
  pub timestamp : ℕ
  pub cycle : ℕ

unfoldable pub is_upgrade : TierChangeEvent → Bool
is_upgrade e = ltb (rank e.from_tier) (rank e.to_tier)

unfoldable pub is_downgrade : TierChangeEvent → Bool
is_downgrade e = ltb (rank e.to_tier) (rank e.from_tier)

pub record ValidatorTierInfo : Type 0 where
  pub validator_id : ℕ
  pub current_tier : ValidatorTier
  pub stake_amount : ℕ
  pub tier_history : List TierChangeEvent
  pub last_updated_cycle : ℕ

unfoldable pub new : ℕ → ℕ → ℕ → ValidatorTierInfo
new validator_id stake_amount cycle = record {
  validator_id = validator_id;
  current_tier = from_stake stake_amount;
  stake_amount = stake_amount;
  tier_history = [];
  last_updated_cycle = cycle;
}

unfoldable pub tier_eq : ValidatorTier → ValidatorTier → Bool
unfolding rank
tier_eq a b = rank a == rank b

-- the event of a move to the tier of the new stake
abbrev pub change_of : ℕ → ℕ → ℕ → ValidatorTierInfo → TierChangeEvent
change_of new_stake cycle now info = record {
  validator_id = info.validator_id;
  from_tier = info.current_tier;
  to_tier = from_stake new_stake;
  stake_amount = new_stake;
  timestamp = now;
  cycle = cycle;
}

-- the newest change stands first, and a hundred are kept
unfoldable pub update_stake :
    ℕ → ℕ → ℕ → ValidatorTierInfo → Option TierChangeEvent × ValidatorTierInfo
unfolding tier_eq
update_stake new_stake cycle now info =
    let new_tier = from_stake new_stake in
    let updated = record info { stake_amount = new_stake; last_updated_cycle = cycle } in
    let event = change_of new_stake cycle now info in
    if tier_eq new_tier info.current_tier then (none, updated) else (
      some event,
      record updated {
        current_tier = new_tier;
        tier_history =
            if ltb 100 (length (event ∷ info.tier_history))
            then take 100 (event ∷ info.tier_history)
            else event ∷ info.tier_history;
      },
    )

unfoldable pub effective_voting_power : ValidatorTierInfo → ℕ
effective_voting_power info = voting_power info.current_tier info.stake_amount

-- the tiers above the current one, with the stake that each still wants
path_above : ValidatorTierInfo → List ValidatorTier → List (ValidatorTier × ℕ)
path_above info [] = []
path_above info (tier ∷ tiers) =
    let rest = path_above info tiers in
    let needed =
      (if ltb info.stake_amount (min_stake tier) then min_stake tier - info.stake_amount else 0) in
    if ltb (rank info.current_tier) (rank tier) then (tier, needed) ∷ rest else rest

unfoldable pub upgrade_path : ValidatorTierInfo → List (ValidatorTier × ℕ)
unfolding path_above
upgrade_path info = path_above info all_tiers
