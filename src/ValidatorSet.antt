-- ===== src/ValidatorSet.antt =====
-- The validator set: src/validator.rs.
pub mod Info
pub mod Cycle
pub mod Stakes
pub mod Quorum
mod Examples
use silver_consensus.Base.{
  ℕ, zero, suc, ◌+◌, Bool, true, false, Option, none, some, List, [], ◌∷◌, ltb, if◌then◌else◌,
  length,
}
use silver_consensus.Base.Word.{add64, sub64, mul64}
use silver_consensus.Base.Dict.{Dict, lookup, contains_key, insert, remove}
use silver_consensus.Base.Outcome.{Result, ok, err}
use silver_consensus.Core.{MetadataApi}
use Info.{ValidatorInfo, new_info, record_one, reset_cycle_stats}

pub data ValidatorError : Type 0 where
  bad_metadata already_exists not_found no_stake_found : ValidatorError

pub record ValidatorSetChangeEvent : Type 0 where
  pub cycle : ℕ
  pub added : List ℕ
  pub removed : List ℕ
  pub total_validators : ℕ
  pub total_stake : ℕ
  pub timestamp : ℕ

module _ (api : MetadataApi) where
  pub record ValidatorSet : Type 0 where
    pub validators : Dict (ValidatorInfo api)
    pub total_stake : ℕ
    pub current_cycle : ℕ
    pub change_history : List ValidatorSetChangeEvent
    pub min_stake : ℕ

  unfoldable pub with_min_stake : ℕ → ValidatorSet
  with_min_stake min_stake = record {
    validators = [];
    total_stake = 0;
    current_cycle = 0;
    change_history = [];
    min_stake = min_stake;
  }

  unfoldable pub add_validator :
      api.Metadata → ValidatorSet → Result ValidatorError (Unit {0}) × ValidatorSet
  add_validator metadata s =
      let id = api.id metadata in
      if api.is_valid metadata
      then if contains_key id s.validators then (err already_exists, s) else (
        ok tt,
        record s {
          validators = insert id (new_info api metadata) s.validators;
          total_stake = add64 s.total_stake (api.stake_amount metadata);
        },
      )
      else (err bad_metadata, s)

  unfoldable pub remove_validator :
      ℕ → ValidatorSet → Result ValidatorError (Unit {0}) × ValidatorSet
  remove_validator id s = elim (lookup id s.validators) [
    | none ↦ (err not_found, s)
    | some info ↦ (
      ok tt,
      record s {
        validators = remove id s.validators;
        total_stake = sub64 s.total_stake info.stake;
      },
    )
  ]

  abbrev pub contains_validator : ℕ → ValidatorSet → Bool
  contains_validator id s = contains_key id s.validators

  -- the stake of a validator that is in the set
  abbrev pub stake_of : ValidatorSet → ℕ → Option ℕ
  stake_of s id = elim (lookup id s.validators) [ none ↦ none | some info ↦ some info.stake ]

  -- an identifier that is not in the set is passed over, one that occurs twice counts twice
  unfoldable pub calculate_stake_weight : List ℕ → ValidatorSet → ℕ
  calculate_stake_weight [] s = 0
  calculate_stake_weight (id ∷ ids) s =
      let rest = calculate_stake_weight ids s in
      elim (lookup id s.validators) [ none ↦ rest | some info ↦ add64 info.stake rest ]

  unfoldable pub has_quorum : List ℕ → ValidatorSet → Bool
  has_quorum ids s = ltb (mul64 s.total_stake 2) (mul64 (calculate_stake_weight ids s) 3)

  unfoldable pub record_participation : ℕ → Bool → ValidatorSet → ValidatorSet
  record_participation id participated s = elim (lookup id s.validators) [
    | none ↦ s
    | some info ↦ record s {
      validators = insert id (record_one api participated info) s.validators;
    }
  ]

  reset_all : Dict (ValidatorInfo api) → Dict (ValidatorInfo api)
  reset_all [] = []
  reset_all ((k, info) ∷ d) = (k, reset_cycle_stats api info) ∷ reset_all d

  unfoldable pub advance_cycle : ValidatorSet → ℕ × ValidatorSet
  unfolding reset_all
  advance_cycle s =
      let cycle = add64 s.current_cycle 1 in
      (cycle, record s { current_cycle = cycle; validators = reset_all s.validators })

  unfoldable pub set_min_stake : ℕ → ValidatorSet → ValidatorSet
  set_min_stake min_stake s = record s { min_stake = min_stake }

  unfoldable pub clear : ValidatorSet → ValidatorSet
  clear s = record s { validators = []; total_stake = 0 }

  active_in : Dict (ValidatorInfo api) → List (ValidatorInfo api)
  active_in [] = []
  active_in (e ∷ d) = let rest = active_in d in if e.1.active then e.1 ∷ rest else rest

  unfoldable pub get_active_validators : ValidatorSet → List (ValidatorInfo api)
  unfolding active_in
  get_active_validators s = active_in s.validators
