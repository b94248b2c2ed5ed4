-- ===== src/Core.antt =====
-- What the code takes from the crates `silver_core`, `silver_crypto` and `silver_storage`, which are
-- not part of this repository. An identifier or a digest is a number here, since it is only stored,
-- compared and ordered.
pub mod Plain
use silver_consensus.Base.{ℕ, ◌*◌, ◌≡◌, ◌↔◌, ◌<◌, ◌≤◌, Bool, true, Option, some, List}

-- `ValidatorSignature`, of which the code reads the validator
pub record ValidatorSignature : Type 0 where
  pub validator : ℕ
  pub signature : ℕ

-- `Snapshot`: its constructor, the fields that the code reads and writes, and its quorum test.
pub record SnapshotApi : Type 1 where
  pub Snapshot : Type 0
  -- sequence, timestamp, previous digest, state root, transaction digests, cycle, signatures, stake
  pub create : ℕ → ℕ → ℕ → ℕ → List ℕ → ℕ → List ValidatorSignature → ℕ → Snapshot
  pub digest : Snapshot → ℕ
  pub validator_signatures : Snapshot → List ValidatorSignature
  pub stake_weight : Snapshot → ℕ
  -- the assignments to the two fields above
  pub with_votes : List ValidatorSignature → ℕ → Snapshot → Snapshot
  pub has_quorum : Snapshot → ℕ → Bool

-- What the code relies on: the fields hold what was written, and the test compares the stake that
-- the snapshot records with two thirds of the total.
pub record SnapshotLaws (api : SnapshotApi) : Type 0 where
  pub create_signatures :
      (sequence timestamp previous root : ℕ) (digests : List ℕ) (cycle : ℕ)
      (signatures : List ValidatorSignature) (stake : ℕ)
      → api.validator_signatures
          (api.create sequence timestamp previous root digests cycle signatures stake)
        ≡ signatures
  pub create_stake :
      (sequence timestamp previous root : ℕ) (digests : List ℕ) (cycle : ℕ)
      (signatures : List ValidatorSignature) (stake : ℕ)
      → api.stake_weight
          (api.create sequence timestamp previous root digests cycle signatures stake)
        ≡ stake
  pub votes_signatures :
      (signatures : List ValidatorSignature) (stake : ℕ) (s : api.Snapshot)
      → api.validator_signatures (api.with_votes signatures stake s) ≡ signatures
  pub votes_stake :
      (signatures : List ValidatorSignature) (stake : ℕ) (s : api.Snapshot)
      → api.stake_weight (api.with_votes signatures stake s) ≡ stake
  pub quorum_test :
      (s : api.Snapshot) (total : ℕ)
      → (api.has_quorum s total ≡ true) ↔ (2 * total < 3 * api.stake_weight s)

-- `ValidatorMetadata`: its fields that the code reads, and its own check.
pub record MetadataApi : Type 1 where
  pub Metadata : Type 0
  pub id : Metadata → ℕ
  pub stake_amount : Metadata → ℕ
  pub is_valid : Metadata → Bool

-- `TransactionBatch`: its fields that the code reads, and `validate`
pub record BatchApi : Type 1 where
  pub Batch : Type 0
  pub batch_id : Batch → ℕ
  pub previous_batches : Batch → List ℕ
  pub is_valid : Batch → Bool

-- What the code does with an `f64`: the casts from and to `u64`, products, quotients and `<`.
pub record FloatApi : Type 1 where
  pub F64 : Type 0
  pub of_u64 : ℕ → F64
  pub mul : F64 → F64 → F64
  pub div : F64 → F64 → F64
  pub to_u64 : F64 → ℕ
  pub lt : F64 → F64 → Bool

-- `UpgradeProposal`, `UpgradeVote`, `VotingResults`, `ApprovedUpgrade` and `FeatureFlags`: the fields
-- that the code reads and the functions that it calls. A version or the name of a feature is a number.
pub record UpgradeApi : Type 1 where
  pub Flags : Type 0
  pub no_flags : Flags
  pub is_enabled : ℕ → Flags → Bool
  pub Proposal : Type 0
  pub proposal_id : Proposal → ℕ
  pub new_version : Proposal → ℕ
  pub activation_cycle : Proposal → ℕ
  pub feature_flags : Proposal → Flags
  -- `validate` and `is_voting_open`, in a cycle
  pub is_valid_proposal : ℕ → Proposal → Bool
  pub is_voting_open : ℕ → Proposal → Bool
  pub Vote : Type 0
  pub vote_proposal : Vote → ℕ
  pub is_valid_vote : Vote → Bool
  pub Results : Type 0
  -- `VotingResults::new` of a proposal and a total stake
  pub new_results : ℕ → ℕ → Results
  -- whether the vote was added, and the results then
  pub add_vote : Vote → Results → Bool × Results
  pub has_quorum : Results → Bool
  pub Approved : Type 0
  pub proposal : Approved → Proposal
  -- `ApprovedUpgrade::new` of a proposal, its results and a snapshot digest
  pub approve : Proposal → Results → ℕ → Option Approved

-- What the code relies on: an approved upgrade holds the proposal that it was made of.
pub record UpgradeLaws (api : UpgradeApi) : Type 0 where
  pub approve_proposal :
      (p : api.Proposal) (results : api.Results) (snapshot : ℕ) (upgrade : api.Approved)
      → api.approve p results snapshot ≡ some upgrade
      → api.proposal upgrade ≡ p

-- What the code relies on: IEEE 754 rounds to the nearest number, which keeps the order, and is exact
-- where the result is a number of the format, as for integers up to `2 ^ 53`.
pub record FloatLaws (fl : FloatApi) : Type 1 where
  pub AtMost : fl.F64 → fl.F64 → Type 0
  pub of_u64_mono : (a b : ℕ) → a ≤ b → AtMost (fl.of_u64 a) (fl.of_u64 b)
  pub to_u64_mono : (x y : fl.F64) → AtMost x y → fl.to_u64 x ≤ fl.to_u64 y
  pub mul_mono :
      (n : ℕ) (x y : fl.F64) → AtMost x y → AtMost (fl.mul (fl.of_u64 n) x) (fl.mul (fl.of_u64 n) y)
  pub div_mono :
      (n : ℕ) (x y : fl.F64)
      → 0 < n
      → AtMost x y
      → AtMost (fl.div x (fl.of_u64 n)) (fl.div y (fl.of_u64 n))
  pub mul_one : (n : ℕ) → fl.mul (fl.of_u64 n) (fl.of_u64 1) ≡ fl.of_u64 n
  pub div_self : (n : ℕ) → 0 < n → fl.div (fl.of_u64 n) (fl.of_u64 n) ≡ fl.of_u64 1
  pub to_u64_of_u64 : (n : ℕ) → n ≤ 9007199254740992 → fl.to_u64 (fl.of_u64 n) ≡ n

-- What the mempool takes from `Transaction`, `TransactionBatch` and the validator's key.
pub record MempoolApi (bt : BatchApi) : Type 1 where
  pub Transaction : Type 0
  pub is_valid : Transaction → Bool
  pub digest : Transaction → ℕ
  pub size_bytes : Transaction → ℕ
  -- the bytes of an address, of a batch's identifier or of a digest
  pub as_bytes : ℕ → List ℕ
  pub sign : List ℕ → Option ℕ
  -- `TransactionBatch::new` of transactions, author, time, previous batches and signature
  pub new_batch : List Transaction → ℕ → ℕ → List ℕ → ℕ → Option bt.Batch
  pub transaction_count : bt.Batch → ℕ
  pub batch_size : bt.Batch → ℕ

-- `Certificate`, as a number: its constructor of a batch, signatures, stake and time, and its check
pub record CertificateApi : Type 0 where
  pub new_certificate : ℕ → List ValidatorSignature → ℕ → ℕ → ℕ
  pub is_valid : ℕ → ℕ → Bool
