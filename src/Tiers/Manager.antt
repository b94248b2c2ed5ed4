-- ===== src/Tiers/Manager.antt =====
-- `ValidatorTierManager` of src/validator_tiers.rs.
use silver_consensus.Base.{
  ℕ, Option, none, some, List, [], ◌∷◌, ◌++◌, ltb, ◌==◌, if◌then◌else◌, keep,
}
use silver_consensus.Base.Word.{add64}
use silver_consensus.Base.Dict.{Dict, lookup, contains_key, insert, remove}
use silver_consensus.Base.Outcome.{Result, ok, err}
use silver_consensus.Tiers.{ValidatorTier, bronze, min_stake}
use silver_consensus.Tiers.Info.{
  TierChangeEvent, ValidatorTierInfo, new, update_stake, effective_voting_power, tier_eq,
}

pub record ValidatorTierManager : Type 0 where
  pub tiers : Dict ValidatorTierInfo
  pub current_cycle : ℕ
  pub all_tier_changes : List TierChangeEvent

pub data TierError : Type 0 where
  below_minimum already_registered not_found : TierError

abbrev pub empty : ValidatorTierManager
empty = record { tiers = []; current_cycle = 0; all_tier_changes = [] }

unfoldable pub register_validator :
    ℕ → ℕ → ValidatorTierManager → Result TierError ValidatorTier × ValidatorTierManager
register_validator validator_id stake m =
    let info = new validator_id stake m.current_cycle in
    if ltb stake (min_stake bronze)
    then (err below_minimum, m)
    else if contains_key validator_id m.tiers
    then (err already_registered, m)
    else (ok info.current_tier, record m { tiers = insert validator_id info m.tiers })

-- `push` of an event, where there is one
abbrev pub push_event : Option TierChangeEvent → List TierChangeEvent → List TierChangeEvent
push_event none events = events
push_event (some e) events = events ++ e ∷ []

-- the validator is looked up before the stake is tested
unfoldable pub update_validator_stake :
    ℕ
    → ℕ
    → ℕ
    → ValidatorTierManager
    → Result TierError (Option TierChangeEvent) × ValidatorTierManager
update_validator_stake validator_id new_stake now m = elim (lookup validator_id m.tiers) [
  | none ↦ (err not_found, m)
  | some info ↦
      if ltb new_stake (min_stake bronze)
      then (err below_minimum, m)
      else (let (event, info') = update_stake new_stake m.current_cycle now info in
          (
            ok event,
            record m {
              tiers = insert validator_id info' m.tiers;
              all_tier_changes = push_event event m.all_tier_changes;
            },
          ))
]

unfoldable pub get_voting_power : ℕ → ValidatorTierManager → ℕ
get_voting_power validator_id m = elim (lookup validator_id m.tiers) [
  | none ↦ 0
  | some info ↦ effective_voting_power info
]

sum_power : Dict ValidatorTierInfo → ℕ
sum_power [] = 0
sum_power (e ∷ d) = add64 (effective_voting_power e.1) (sum_power d)

unfoldable pub total_voting_power : ValidatorTierManager → ℕ
unfolding sum_power
total_voting_power m = sum_power m.tiers

-- the identifiers of the validators of a tier
in_tier : ValidatorTier → Dict ValidatorTierInfo → List ℕ
in_tier tier [] = []
in_tier tier (e ∷ d) =
    let rest = in_tier tier d in if tier_eq e.1.current_tier tier then e.0 ∷ rest else rest

unfoldable pub get_validators_by_tier : ValidatorTier → ValidatorTierManager → List ℕ
unfolding in_tier
get_validators_by_tier tier m = in_tier tier m.tiers

unfoldable pub get_validator_tier_changes : ℕ → ValidatorTierManager → List TierChangeEvent
get_validator_tier_changes validator_id m =
    keep (λ e. e.validator_id == validator_id) m.all_tier_changes

unfoldable pub advance_cycle : ValidatorTierManager → ValidatorTierManager
advance_cycle m = record m { current_cycle = add64 m.current_cycle 1 }

unfoldable pub remove_validator :
    ℕ → ValidatorTierManager → Result TierError (Unit {0}) × ValidatorTierManager
remove_validator validator_id m = elim (lookup validator_id m.tiers) [
  | none ↦ (err not_found, m)
  | some info ↦ (ok tt, record m { tiers = remove validator_id m.tiers })
]

unfoldable pub clear : ValidatorTierManager → ValidatorTierManager
clear m = record m { tiers = []; all_tier_changes = [] }
