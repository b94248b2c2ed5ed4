-- ===== src/Rewards/Shares.antt =====
-- The shares of the fees of one cycle, in src/rewards.rs.
use silver_consensus.Base.{
  ℕ, ◌+◌, ◌*◌, ◌≤◌, ◌<◌, ◌≡◌, refl, sym, ◌∙◌, ap, ◌⊎◌, inl, inr, true, some, List, [], ◌∷◌,
  is_empty, ◌==◌, ◌||◌, leb, if◌then◌else◌, arith, Bool-cases, sum_by,
}
use silver_consensus.Base.Word.{u64_mod, u64_max, add64, sat_add64, sat_mul64}
use silver_consensus.Base.Dict.{
  Dict, lookup, insert, AllValues, AllValues-lookup, AllValues-insert, sum_values,
}
use silver_consensus.Core.{FloatApi, FloatLaws}
use silver_consensus.Rewards.{
  new_collector, collect_fee, reset, Standing, ValidatorReward, RewardDistributor, total_stake,
  reward_of, rewards_from, calculate_rewards, distribute_cycle_rewards, CycleRewardsManager, new,
  collect_transaction_fee, end_cycle,
}

-- a transaction: its digest, the fuel that it consumes and the price
pub record Fuel : Type 0 where
  pub digest : ℕ
  pub consumed : ℕ
  pub price : ℕ

-- a number that stops at `u64::MAX`
abbrev pub capped : ℕ → ℕ
capped n = if leb n u64_max then n else u64_max

abbrev pub all_fees : List Fuel → ℕ
all_fees fs = sum_by (λ f. f.consumed * f.price) fs

module _ (fl : FloatApi) where
  unfoldable pub collect : List Fuel → CycleRewardsManager fl → CycleRewardsManager fl
  collect [] m = m
  collect (f ∷ fs) m = collect fs (collect_transaction_fee fl f.digest f.consumed f.price m)

  collect_total :
      (fs : List Fuel) (n : ℕ) (m : CycleRewardsManager fl)
      → m.collector.total_fees ≡ capped n
      → (collect fs m).collector.total_fees ≡ capped (n + all_fees fs)
  unfolding collect collect_transaction_fee collect_fee
  collect_total [] n m e = ground (arith, e)
  collect_total (f ∷ fs) n m e =
      let next : sat_add64 m.collector.total_fees (sat_mul64 f.consumed f.price)
          ≡ capped (n + f.consumed * f.price) =
        unfold sat_add64 in unfold sat_mul64 in ground (arith, e) in
      let sum : n + f.consumed * f.price + all_fees fs ≡ n + (f.consumed * f.price + all_fees fs) =
        omega arith in
      collect_total fs (n + f.consumed * f.price) _ next ∙ ap capped sum

  collect_distributor :
      (fs : List Fuel) (m : CycleRewardsManager fl) → (collect fs m).distributor ≡ m.distributor
  unfolding collect collect_transaction_fee
  collect_distributor [] m = refl
  collect_distributor (f ∷ fs) m = collect_distributor fs _

  total_stake_exact :
      (d : Dict (Standing fl))
      → sum_values (λ s. s.0) d < u64_mod
      → total_stake fl d ≡ sum_values (λ s. s.0) d
  unfolding total_stake add64
  total_stake_exact [] h = refl
  total_stake_exact ((v, s) ∷ d) h = omega (arith, h, total_stake_exact d (omega (arith, h)))

  stakes_at_most :
      (total : ℕ) (d : Dict (Standing fl))
      → sum_values (λ s. s.0) d ≤ total
      → AllValues (λ s. s.0 ≤ total) d
  stakes_at_most total [] h = tt
  stakes_at_most total ((v, s) ∷ d) h =
      (omega (arith, h), stakes_at_most total d (omega (arith, h)))

  module _ (laws : FloatLaws fl) (fees total : ℕ) (b : RewardDistributor fl) where
    -- the reward of a validator whose stake is at most the total
    IsShare : ValidatorReward fl → Type 0
    IsShare r = (v : ℕ) × (s : Standing fl) × (r ≡ reward_of fl fees total v s b) × (s.0 ≤ total)

    rewards_from-IsShare :
        (d : Dict (Standing fl)) (rewards : Dict (ValidatorReward fl))
        → AllValues (λ s. s.0 ≤ total) d
        → AllValues IsShare rewards
        → AllValues IsShare (rewards_from fl fees total d b rewards)
    unfolding rewards_from IsShare
    rewards_from-IsShare [] rewards a known = known
    rewards_from-IsShare ((w, s) ∷ d) rewards a known =
        let r = reward_of fl fees total w s b in
        rewards_from-IsShare d (insert w r rewards) a.1
          (AllValues-insert IsShare w r rewards known (w, s, refl, a.0))

    share : ℕ → ℕ
    share stake = fl.to_u64 (fl.mul (fl.of_u64 fees) (fl.div (fl.of_u64 stake) (fl.of_u64 total)))

    share_mono : (x y : ℕ) → 0 < total → x ≤ y → share x ≤ share y
    unfolding share
    share_mono x y p h =
        laws.to_u64_mono _ _
          (laws.mul_mono fees _ _ (laws.div_mono total _ _ p (laws.of_u64_mono x y h)))

    share_at_most : (x : ℕ) → 0 < total → fees ≤ 9007199254740992 → x ≤ total → share x ≤ fees
    unfolding share
    share_at_most x p small h =
        let whole : share total ≡ fees =
          rw (laws.div_self total p, laws.mul_one fees, share) (laws.to_u64_of_u64 fees small) in
        let part = share_mono x total p h in omega (arith, whole, part)

  -- the reward is at most the fees, and is cut only where participation is low
  pub record IsFairShare (fees : ℕ) (b : RewardDistributor fl) (r : ValidatorReward fl)
      : Type 0 where
    pub within : r.base_reward ≤ fees
    pub reduced : r.final_reward ≤ r.base_reward
    pub kept :
        (fl.lt r.participation_rate b.min_participation_rate ≡ true)
        ⊎ (r.final_reward ≡ r.base_reward)

  module _ (laws : FloatLaws fl) where
    calculated :
        (fees v : ℕ) (b : RewardDistributor fl) (d : Dict (Standing fl)) (r : ValidatorReward fl)
        → sum_values (λ s. s.0) d < u64_mod
        → lookup v (calculate_rewards fl fees d b) ≡ some r
        → IsShare laws fees (total_stake fl d) b r × (0 < total_stake fl d)
    unfolding calculate_rewards
    calculated fees v b d r fits e =
        let total = total_stake fl d in
        let exact = total_stake_exact d fits in
        let below = stakes_at_most total d (omega (arith, exact)) in
        elim (Bool-cases (is_empty d || (fees == 0))) [
          | inl y ↦ ground (arith, y, e)
          | inr n ↦ elim (Bool-cases (total == 0)) [
            | inl z ↦ ground (arith, n, z, e)
            | inr z ↦
                let found : lookup v (rewards_from fl fees total d b []) ≡ some r =
                  ground (arith, n, z, e) in
                (
                  AllValues-lookup (IsShare laws fees total b) v r _
                      (rewards_from-IsShare laws fees total b d [] below tt) found,
                  ground (arith, z),
                )
          ]
        ]

    IsShare-IsFairShare :
        (fees total : ℕ) (b : RewardDistributor fl) (r : ValidatorReward fl)
        → 0 < total
        → fees ≤ 9007199254740992
        → IsShare laws fees total b r
        → IsFairShare fees b r
    unfolding IsShare reward_of share
    IsShare-IsFairShare fees total b r p small (v, s, e, h) =
        let most = share_at_most laws fees total b s.0 p small h in
        rw e (record {
          within = most;
          reduced = omega arith;
          kept = elim (Bool-cases (fl.lt s.1 b.min_participation_rate)) [
            | inl y ↦ inl y
            | inr n ↦ inr (rw n (omega arith))
          ];
        })

    share_of_IsShare :
        (fees total : ℕ) (b : RewardDistributor fl) (r : ValidatorReward fl)
        → IsShare laws fees total b r
        → r.base_reward ≡ share laws fees total b r.stake
    unfolding IsShare reward_of share
    share_of_IsShare fees total b r (v, s, e, h) = rw e refl

    -- After fees of at most 2^53 in all are collected on a new manager, the end of the cycle, for
    -- validators whose stakes fit u64 in all, gives a validator a reward of at most the fees, which is
    -- cut only where participation is low; of two validators, the one with more stake has no smaller
    -- base reward; and no fees are left for the next cycle.
    pub end_cycle_lem :
        (b : RewardDistributor fl) (fs : List Fuel) (validators : Dict (Standing fl)) (v w : ℕ)
        (r r' : ValidatorReward fl)
        → all_fees fs ≤ 9007199254740992
        → sum_values (λ s. s.0) validators < u64_mod
        → lookup v (end_cycle fl validators (collect fs (new fl b))).0 ≡ some r
        → lookup w (end_cycle fl validators (collect fs (new fl b))).0 ≡ some r'
        → r.stake ≤ r'.stake
        → IsFairShare (all_fees fs) b r
          × (r.base_reward ≤ r'.base_reward)
          × ((end_cycle fl validators (collect fs (new fl b))).1.collector.total_fees ≡ 0)
    unfolding end_cycle distribute_cycle_rewards reset
    end_cycle_lem b fs validators v w r r' small fits e e' more =
        let fees = all_fees fs in
        let m = collect fs (new fl b) in
        let start : (new fl b).collector.total_fees ≡ capped 0 =
          unfold new in unfold new_collector in refl in
        let zero_add : 0 + fees ≡ fees = omega arith in
        let all : m.collector.total_fees ≡ fees =
          collect_total fs 0 (new fl b) start ∙ ground (arith, small, zero_add) in
        let same : m.distributor ≡ b = collect_distributor fs (new fl b) ∙ unfold new in refl in
        let pays : (end_cycle fl validators m).0 ≡ calculate_rewards fl fees validators b =
          ap (λ x. calculate_rewards fl x validators m.distributor) all
          ∙ ap (λ x. calculate_rewards fl fees validators x) same in
        let first = calculated fees v b validators r fits (ap (lookup v) (sym pays) ∙ e) in
        let second = calculated fees w b validators r' fits (ap (lookup w) (sym pays) ∙ e') in
        let total = total_stake fl validators in
        let grows = share_mono laws fees total b r.stake r'.stake first.1 more in
        (
          IsShare-IsFairShare fees total b r first.1 small first.0,
          omega (
            arith,
            grows,
            share_of_IsShare fees total b r first.0,
            share_of_IsShare fees total b r' second.0,
          ),
          refl,
        )
