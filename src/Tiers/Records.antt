-- ===== src/Tiers/Records.antt =====
-- What `ValidatorTierManager` of src/validator_tiers.rs records of each validator.
use silver_consensus.Base.{
  ℕ, ◌≤◌, ◌≡◌, refl, sym, inl, inr, some, List, [], ◌∷◌, arith, ltb, if◌then◌else◌, length, take,
  length-take-le, Bool-cases, Option-cases, IsDistinct,
}
use silver_consensus.Base.Dict.{
  lookup, keys, AllEntries, AllEntries-insert, AllEntries-lookup, AllEntries-remove,
  IsDistinct-insert, IsDistinct-remove,
}
use silver_consensus.Tiers.{bronze, min_stake, from_stake}
use silver_consensus.Tiers.Info.{
  TierChangeEvent, ValidatorTierInfo, new, update_stake, tier_eq, change_of,
}
use silver_consensus.Tiers.Order.{tier_eq-eq}
use silver_consensus.Tiers.Manager.{
  ValidatorTierManager, empty, register_validator, update_validator_stake, advance_cycle,
  remove_validator, clear,
}

-- An entry that stands for its validator: a stake that meets the minimum, the tier of that stake,
-- and a hundred changes at most.
pub record IsCurrent (k : ℕ) (info : ValidatorTierInfo) : Type 0 where
  pub named : info.validator_id ≡ k
  pub funded : min_stake bronze ≤ info.stake_amount
  pub tiered : info.current_tier ≡ from_stake info.stake_amount
  pub short : length info.tier_history ≤ 100

capped :
    (n : ℕ) (events : List TierChangeEvent)
    → length (if ltb n (length events) then take n events else events) ≤ n
capped n events = ground (arith, length-take-le n events)

update_stake-IsCurrent :
    (k new_stake cycle now : ℕ) (info : ValidatorTierInfo)
    → min_stake bronze ≤ new_stake
    → IsCurrent k info
    → IsCurrent k (update_stake new_stake cycle now info).1
unfolding update_stake
update_stake-IsCurrent k new_stake cycle now info h c =
    elim (Bool-cases (tier_eq (from_stake new_stake) info.current_tier)) [
      | inl same ↦
          rw (same, update_stake)
            (record {
              named = c.named;
              funded = h;
              tiered = sym (tier_eq-eq (from_stake new_stake) info.current_tier same);
              short = c.short;
            })
      | inr other ↦
          rw (other, update_stake)
            (record {
              named = c.named;
              funded = h;
              tiered = refl;
              short = capped 100 (change_of new_stake cycle now info ∷ info.tier_history);
            })
    ]

pub record IsConsistent (m : ValidatorTierManager) : Type 0 where
  pub distinct : IsDistinct (keys m.tiers)
  pub current : AllEntries IsCurrent m.tiers

pub data Op : Type 0 where
  register : ℕ → ℕ → Op
  update : ℕ → ℕ → ℕ → Op
  advance : Op
  remove_one : ℕ → Op
  clear_all : Op

unfoldable pub apply : Op → ValidatorTierManager → ValidatorTierManager
apply (register v stake) m = (register_validator v stake m).1
apply (update v stake now) m = (update_validator_stake v stake now m).1
apply advance m = advance_cycle m
apply (remove_one v) m = (remove_validator v m).1
apply clear_all m = clear m

unfoldable pub run : List Op → ValidatorTierManager → ValidatorTierManager
run [] m = m
run (op ∷ ops) m = run ops (apply op m)

apply-IsConsistent :
    (op : Op) (m : ValidatorTierManager) → IsConsistent m → IsConsistent (apply op m)
unfolding apply
apply-IsConsistent (register v stake) m c =
    unfold register_validator new in
    ground (
      arith,
      IsDistinct-insert v (new v stake m.current_cycle) m.tiers c.distinct,
      AllEntries-insert IsCurrent v (new v stake m.current_cycle) m.tiers c.current,
    )
apply-IsConsistent (update v stake now) m c = elim (Option-cases (lookup v m.tiers)) [
  | inl missing ↦ unfold update_validator_stake in ground arith
  | inr (info, found) ↦
      let info' = (update_stake stake m.current_cycle now info).1 in
      unfold update_validator_stake in
      ground (
        arith,
        IsDistinct-insert v info' m.tiers c.distinct,
        AllEntries-insert IsCurrent v info' m.tiers c.current,
        update_stake-IsCurrent v stake m.current_cycle now info,
        AllEntries-lookup IsCurrent v info m.tiers c.current found,
      )
]
apply-IsConsistent advance m c =
    unfold advance_cycle in (record { distinct = c.distinct; current = c.current })
apply-IsConsistent (remove_one v) m c =
    unfold remove_validator in
    ground (
      arith,
      IsDistinct-remove v m.tiers c.distinct,
      AllEntries-remove IsCurrent v m.tiers c.current,
    )
apply-IsConsistent clear_all m c = unfold clear in ground arith

run-IsConsistent :
    (ops : List Op) (m : ValidatorTierManager) → IsConsistent m → IsConsistent (run ops m)
unfolding run
run-IsConsistent [] m c = c
run-IsConsistent (op ∷ ops) m c = run-IsConsistent ops (apply op m) (apply-IsConsistent op m c)

-- After any calls on an empty manager, the entry that is found for a validator has its identifier, a
-- stake of at least the lowest minimum, the tier of that stake, and at most a hundred tier changes.
pub run-IsCurrent :
    (ops : List Op) (v : ℕ) (info : ValidatorTierInfo)
    → lookup v (run ops empty).tiers ≡ some info
    → IsCurrent v info
run-IsCurrent ops v info found =
    AllEntries-lookup IsCurrent v info (run ops empty).tiers
      (run-IsConsistent ops empty (record { distinct = tt; current = tt })).current found
