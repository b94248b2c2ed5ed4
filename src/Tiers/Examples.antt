-- ===== src/Tiers/Examples.antt =====
-- Runs of src/validator_tiers.rs, and the theorems at concrete inputs.
use silver_consensus.Base.{◌≤◌, ◌≡◌, refl, ◌↔◌, some, List, [], ◌∷◌, arith}
use silver_consensus.Base.Word.{add64}
use silver_consensus.Base.Dict.{lookup}
use silver_consensus.Tiers.{bronze, gold, platinum, min_stake, rank, from_stake}
use silver_consensus.Tiers.Info.{ValidatorTierInfo, new, update_stake, tier_eq}
use silver_consensus.Tiers.Manager.{
  empty, register_validator, update_validator_stake, advance_cycle,
}
use silver_consensus.Tiers.Order.{from_stake_greatest}
use silver_consensus.Tiers.Records.{Op, run, apply, IsCurrent, run-IsCurrent}

from_stake_greatest_example : (min_stake gold ≤ 120000) ↔ (rank gold ≤ rank (from_stake 120000))
from_stake_greatest_example = from_stake_greatest gold 120000 (unfold min_stake in omega arith)

abbrev promoted : ValidatorTierInfo
promoted = record {
  validator_id = 4;
  current_tier = platinum;
  stake_amount = 600000;
  tier_history =
      record {
        validator_id = 4;
        from_tier = bronze;
        to_tier = platinum;
        stake_amount = 600000;
        timestamp = 77;
        cycle = 1;
      }
      ∷ [];
  last_updated_cycle = 1;
}

abbrev promotion : List Op
promotion = Op.register 4 20000 ∷ Op.advance ∷ Op.update 4 600000 77 ∷ []

promotion-entry : lookup 4 (run promotion empty).tiers ≡ some promoted
unfolding run apply register_validator update_validator_stake advance_cycle update_stake new
    from_stake tier_eq add64
promotion-entry = refl

run-IsCurrent_example : IsCurrent 4 promoted
run-IsCurrent_example = run-IsCurrent promotion 4 promoted promotion-entry
