-- ===== src/ValidatorSet/Quorum.antt =====
-- `has_quorum` of `ValidatorSet` in src/validator.rs, for a list of distinct validators.
use silver_consensus.Base.{
  ℕ, ◌*◌, ◌≤◌, ◌<◌, ◌≡◌, ◌↔◌, refl, inl, inr, Bool, true, false, none, some, List, [], ◌∷◌, arith,
  member, IsDistinct, Option-cases, keep,
}
use silver_consensus.Base.Word.{u64_mod, add64_exact, mul64_exact}
use silver_consensus.Base.Dict.{Dict, lookup, keys, sum_values}
use silver_consensus.Core.{MetadataApi}
use silver_consensus.Snapshot.Weight.{
  weight, IsSubset, weight-le, common, weight-common, weight-keep-common, weight_honest,
  member_of_common,
}
use silver_consensus.ValidatorSet.{ValidatorSet, calculate_stake_weight, has_quorum}
use silver_consensus.ValidatorSet.Info.{ValidatorInfo}
use silver_consensus.ValidatorSet.Stakes.{IsSummed, stake_in}

module _ (api : MetadataApi) where
  -- the stake that the set records, and 0 for a stranger
  abbrev pub stake_at : Dict (ValidatorInfo api) → ℕ → ℕ
  stake_at d v = elim (lookup v d) [ none ↦ 0 | some info ↦ info.stake ]

  weight-cons_absent :
      (e : ℕ × ValidatorInfo api) (d : Dict (ValidatorInfo api)) (vs : List ℕ)
      → member e.0 vs ≡ false
      → weight (stake_at (e ∷ d)) vs ≡ weight (stake_at d) vs
  weight-cons_absent e d [] h = refl
  weight-cons_absent e d (v ∷ vs) h = ground (arith, weight-cons_absent e d vs)

  pub weight-keys :
      (d : Dict (ValidatorInfo api))
      → IsDistinct (keys d)
      → weight (stake_at d) (keys d) ≡ sum_values (stake_in api) d
  weight-keys [] h = refl
  weight-keys (e ∷ d) h = ground (arith, weight-keys d h.1, weight-cons_absent e d (keys d) h.0)

  -- while it fits 64 bits the code's weight is the plain sum
  pub calculate_stake_weight-exact :
      (s : ValidatorSet api) (ids : List ℕ)
      → weight (stake_at s.validators) ids < u64_mod
      → calculate_stake_weight api ids s ≡ weight (stake_at s.validators) ids
  unfolding calculate_stake_weight
  calculate_stake_weight-exact s [] h = refl
  calculate_stake_weight-exact s (v ∷ vs) h = elim (Option-cases (lookup v s.validators)) [
    | inl missing ↦ ground (arith, calculate_stake_weight-exact s vs)
    | inr (info, found) ↦ ground (
      arith,
      calculate_stake_weight-exact s vs,
      add64_exact info.stake (calculate_stake_weight api vs s),
    )
  ]

  -- For distinct members of a set whose total is the sum of its stakes, and three times fits 64
  -- bits, the test holds exactly when they have more than two thirds of the total.
  pub has_quorum_iff :
      (s : ValidatorSet api) (ids : List ℕ)
      → IsSummed api s
      → 3 * s.total_stake < u64_mod
      → IsDistinct ids
      → IsSubset ids (keys s.validators)
      → (has_quorum api ids s ≡ true) ↔ (2 * s.total_stake < 3 * weight (stake_at s.validators) ids)
  unfolding has_quorum
  has_quorum_iff s ids h fits d m =
      let below = weight-le (stake_at s.validators) ids (keys s.validators) d h.distinct m in
      let whole = weight-keys s.validators h.distinct in
      let exact = calculate_stake_weight-exact s ids (omega (arith, h.summed)) in
      let doubled = mul64_exact s.total_stake 2 (omega arith) in
      let tripled = mul64_exact (calculate_stake_weight api ids s) 3 (omega (arith, h.summed)) in
      (ground (arith, h.summed), ground (arith, h.summed))

  -- Two quorums of distinct members share a member that is not faulty, where the faulty members have
  -- at most a third of the total.
  pub quorums_meet :
      (s : ValidatorSet api) (faulty : ℕ → Bool) (xs ys : List ℕ)
      → IsSummed api s
      → 3 * s.total_stake < u64_mod
      → 3 * weight (stake_at s.validators) (keep faulty (keys s.validators)) ≤ s.total_stake
      → IsDistinct xs
      → IsDistinct ys
      → IsSubset xs (keys s.validators)
      → IsSubset ys (keys s.validators)
      → has_quorum api xs s ≡ true
      → has_quorum api ys s ≡ true
      → (v : ℕ) × (member v xs ≡ true) × (member v ys ≡ true) × (faulty v ≡ false)
  quorums_meet s faulty xs ys h fits few dx dy mx my qx qy =
      let stake = stake_at s.validators in
      let all = keys s.validators in
      let heavy_x = (has_quorum_iff s xs h fits dx mx).0 qx in
      let heavy_y = (has_quorum_iff s ys h fits dy my).0 qy in
      let whole = weight-keys s.validators h.distinct in
      let overlap = weight-common stake xs ys all dx dy h.distinct mx my in
      let light = weight-keep-common stake faulty xs ys all dx h.distinct mx in
      let (v, m, honest) = weight_honest stake faulty (common xs ys) (omega (arith, h.summed)) in
      let (in_x, in_y) = member_of_common stake v xs ys m in (v, in_x, in_y, honest)
