-- ===== src/Lib.antt =====
-- Silver consensus: the Mercury consensus of SilverBitcoin, its validators and their stake.
--
-- The program (paths from the repository's root). Validators deposit stake (src/staking.rs), which
-- puts them in a tier (src/validator_tiers.rs), and form a validator set (src/validator.rs); others
-- delegate stake to them (src/delegation.rs) for a commission (src/commission.rs), and offences cost a
-- penalty and time in jail (src/slashing.rs). Votes make a validator active and take it out of service
-- (src/validator_activation.rs) and change its keys (src/key_rotation.rs); a validator that misses
-- snapshots goes into recovery (src/downtime_tracker.rs), and fees are shared out at the end of a cycle
-- (src/rewards.rs). The mempool (src/cascade.rs) puts transactions in batches and collects signatures
-- of them for certificates; the batches are vertices of a flow graph (src/flow_graph.rs), which orders
-- them, and the Mercury protocol (src/mercury.rs) makes snapshots of that order, which become final
-- when validators with more than two thirds of the stake have signed. The snapshot manager
-- (src/snapshot.rs) does the same with certificates of its own. Upgrades of the protocol are voted on
-- (src/upgrade.rs), activated (src/activation.rs), and decide which transactions are compatible
-- (src/compatibility.rs).
--
-- Which file models which part:
-- * Tiers, Tiers/Info, Tiers/Manager: `ValidatorTier`, `TierChangeEvent`, `ValidatorTierInfo` and
--   `ValidatorTierManager` of src/validator_tiers.rs.
-- * Staking/Stake, Staking/Manager: `StakeDeposit`, `UnstakingRequest`, `ValidatorStake` and
--   `StakingManager` of src/staking.rs.
-- * ValidatorSet, ValidatorSet/Info, ValidatorSet/Cycle: `ValidatorSet`, `ValidatorInfo` and
--   `reconfigure_at_cycle_end` of src/validator.rs.
-- * Snapshot/Certificate, Snapshot/Manager: `SnapshotCertificate`, `PendingSnapshot` and
--   `SnapshotManager` of src/snapshot.rs.
-- * Mercury/Defs, Mercury/Votes, Mercury/Execution, Mercury/Creation: the state of `MercuryProtocol`,
--   `add_snapshot_signature`, `compute_state_root` and `create_snapshot_internal` of src/mercury.rs.
-- * FlowGraph, FlowGraph/Sort, FlowGraph/Stats: `FlowGraphVertex`, `FlowGraph`, its sorts and its
--   statistics, of src/flow_graph.rs.
-- * The file Slashing: `SlashingConfig`, `JailRecord`, `SlashEvent` and `SlashingManager` of
--   src/slashing.rs.
-- * Delegation, Delegation/Manager: `Delegation`, `UndelegationRequest`, `ValidatorDelegationInfo` and
--   `DelegationManager` of src/delegation.rs.
-- * The file Commission: `CommissionRate`, `CommissionRateChange`, `ValidatorCommissionInfo` and
--   `CommissionManager` of src/commission.rs.
-- * ValidatorActivation, ValidatorActivation/Manager: `ValidatorActivationRecord`,
--   `ActivationRequest` and `ValidatorActivationManager` of src/validator_activation.rs.
-- * KeyRotation, KeyRotation/Manager: `KeyRecord`, `KeyRotationRequest` and `KeyRotationManager` of
--   src/key_rotation.rs.
-- * The file Upgrade: `UpgradeManager` of src/upgrade.rs; Upgrade/Activation: `ActivationCoordinator`
--   of src/activation.rs; Upgrade/Compatibility: `CompatibilityChecker` and `FeatureExtractor` of
--   src/compatibility.rs.
-- * The file Downtime: `ValidatorDowntimeRecord` and `DowntimeTracker` of src/downtime_tracker.rs.
-- * The file Rewards: `FuelFeeCollector`, `RewardDistributor` and `CycleRewardsManager` of
--   src/rewards.rs.
-- * The file Cascade: `CascadeState` and `CascadeMempool` of src/cascade.rs, and Cascade/Certifier its
--   `BatchCertifier`.
-- The other files hold proofs, and the Examples files hold runs and instances of the theorems.
--
-- How state and operations correspond to the code. A struct is a record with the same fields, and a
-- method that changes `self` returns its result and the new record, also where it fails, so that what
-- was written before an error stays written. An `Error::InvalidData` is a constructor for each message.
-- A hash map is an association list (Base/Dict), whose order is one order of iteration.
-- Identifiers, digests and signatures are only stored, compared and ordered, so they are numbers.
-- Time is an argument of each call (Base/Clock). `u64` arithmetic (Base/Word) wraps, as in a build
-- with no overflow checks; where a build has them, a run that would wrap stops instead, and the
-- theorems that exclude a wrap hold for both.
--
-- What the crates silver_core, silver_crypto, silver_network, silver_storage and silver_execution
-- provide is taken as an argument (Core): the constructor, the fields and the quorum test of
-- `Snapshot`; the fields and the checks of `ValidatorMetadata`, `TransactionBatch`, `Transaction` and
-- `Certificate`; and the proposals, votes, results and flags of upgrades. What a run of
-- `create_snapshot_internal` gets from the flow graph, from execution, from the key and from the store
-- is a record of inputs, and which attempts to broadcast a batch succeed is a function. Where the code
-- computes with `f64`, the type and its operations are an argument too (`FloatApi`), with the laws of
-- rounding that a theorem relies on (`FloatLaws`).
--
-- The channels of the mempool are lists. `BatchCertifier::add_signature` removes an entry of a concurrent
-- map while it holds a reference into it, so the call never returns and the shard stays locked: such a
-- call, and a later one that wants the shard, has the error `never_returns` and the state it leaves.
-- A panic, as in `compute_state_root`, is the error `panicked`; Blake3 is an argument (`HashApi`), and
-- its hashes have 32 bytes (`HashLaws`). A change through `get_record_mut` is a call with any function
-- of the record.
--
-- Bounds. The loop of `topological_sort` runs on as many rounds as the graph has batches: no batch
-- enters its queue twice in a graph made by calls that prune nothing. Each other loop goes over a
-- list. Histories of calls are bounded by `u64::MAX` calls, or by stake that fits `2 ^ 64`, so that sequences and totals do not wrap. Three float products of the code are numbers here: voting
-- power is a number of halves, which is exact below a stake of `2 ^ 52`, reward multipliers are in
-- tenths, and a delegator's share of rewards is the quotient of a product, which it equals for
-- products below `2 ^ 53`. The commission on rewards is an argument of the functions that compute it.
--
-- Not modelled: logging; percentages and mean times of components that compute with numbers otherwise;
-- the timers, the closing of channels and the spawning of tasks of tokio, whose rounds are calls here;
-- the fork choice and recovery of the Mercury protocol; and the
-- components with no file above (the records of commissions, key files, blocks, caches, monitoring,
-- operations and persistence).
pub mod Base
pub mod Snapshot
pub mod Core
pub mod Tiers
pub mod Staking
pub mod ValidatorSet
pub mod Mercury
pub mod FlowGraph
pub mod Slashing
pub mod Delegation
pub mod Commission
pub mod ValidatorActivation
pub mod KeyRotation
pub mod Upgrade
pub mod Downtime
pub mod Rewards
pub mod Cascade
