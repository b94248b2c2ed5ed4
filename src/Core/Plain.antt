-- ===== src/Core/Plain.antt =====
-- Snapshots as plain records: values of the interfaces of `Core`, for the examples.
use silver_consensus.Base.{
  ℕ, ◌+◌, ◌*◌, ◌/◌, ◌≤◌, ◌<◌, refl, List, [], ◌∷◌, some, true, false, ◌&&◌, if◌then◌else◌, member,
  ltb, leb, ltb→lt, lt→ltb, arith,
}
use native.Mathlib.Nat.{mul_comm, mul-div-le, le-div_iff_mul-le, mul-le-mul_left, mul-div_right}
use silver_consensus.Core.{
  SnapshotApi, SnapshotLaws, ValidatorSignature, MetadataApi, BatchApi, FloatApi, FloatLaws,
  UpgradeApi, UpgradeLaws, MempoolApi, CertificateApi,
}

pub record PlainSnapshot : Type 0 where
  pub sequence : ℕ
  pub timestamp : ℕ
  pub previous : ℕ
  pub root : ℕ
  pub digests : List ℕ
  pub cycle : ℕ
  pub signatures : List ValidatorSignature
  pub stake : ℕ

abbrev pub plain_api : SnapshotApi
plain_api = record {
  Snapshot = PlainSnapshot;
  create = λ sequence timestamp previous root digests cycle signatures stake. record {
    sequence = sequence;
    timestamp = timestamp;
    previous = previous;
    root = root;
    digests = digests;
    cycle = cycle;
    signatures = signatures;
    stake = stake;
  };
  digest = λ s. s.sequence;
  validator_signatures = λ s. s.signatures;
  stake_weight = λ s. s.stake;
  with_votes = λ signatures stake s. record s { signatures = signatures; stake = stake };
  has_quorum = λ s total. ltb (2 * total) (3 * s.stake);
}

pub plain_laws : SnapshotLaws plain_api
plain_laws = record {
  create_signatures = λ sequence timestamp previous root digests cycle signatures stake. refl;
  create_stake = λ sequence timestamp previous root digests cycle signatures stake. refl;
  votes_signatures = λ signatures stake s. refl;
  votes_stake = λ signatures stake s. refl;
  quorum_test = λ s total. (ltb→lt (2 * total) (3 * s.stake), lt→ltb (2 * total) (3 * s.stake));
}

pub record PlainMetadata : Type 0 where
  pub number : ℕ
  pub stake : ℕ

abbrev pub plain_metadata : MetadataApi
plain_metadata = record {
  Metadata = PlainMetadata;
  id = λ m. m.number;
  stake_amount = λ m. m.stake;
  is_valid = λ m. ltb 0 m.stake;
}

pub record PlainBatch : Type 0 where
  pub id : ℕ
  pub previous : List ℕ

abbrev pub plain_batches : BatchApi
plain_batches = record {
  Batch = PlainBatch;
  batch_id = λ b. b.id;
  previous_batches = λ b. b.previous;
  is_valid = λ b. true;
}

-- numbers in thousandths
abbrev pub plain_floats : FloatApi
plain_floats = record {
  F64 = ℕ;
  of_u64 = λ n. n * 1000;
  mul = λ a b. a * b / 1000;
  div = λ a b. a * 1000 / b;
  to_u64 = λ a. a / 1000;
  lt = ltb;
}

pub record PlainProposal : Type 0 where
  pub id : ℕ
  pub version : ℕ
  pub cycle : ℕ
  pub flags : List ℕ
  pub deadline : ℕ

pub record PlainVote : Type 0 where
  pub proposal : ℕ
  pub voter : ℕ
  pub stake : ℕ

pub record PlainResults : Type 0 where
  pub total : ℕ
  pub voters : List ℕ
  pub stake : ℕ

pub record PlainApproved : Type 0 where
  pub proposal : PlainProposal
  pub snapshot : ℕ

-- each validator votes once, and two thirds of the stake are a quorum
abbrev pub plain_upgrades : UpgradeApi
plain_upgrades = record {
  Flags = List ℕ;
  no_flags = [];
  is_enabled = member;
  Proposal = PlainProposal;
  proposal_id = λ p. p.id;
  new_version = λ p. p.version;
  activation_cycle = λ p. p.cycle;
  feature_flags = λ p. p.flags;
  is_valid_proposal = λ cycle p. ltb cycle p.deadline && ltb p.deadline p.cycle;
  is_voting_open = λ cycle p. ltb cycle p.deadline;
  Vote = PlainVote;
  vote_proposal = λ v. v.proposal;
  is_valid_vote = λ v. ltb 0 v.stake;
  Results = PlainResults;
  new_results = λ id total. record { total = total; voters = []; stake = 0 };
  add_vote = λ v r.
      if member v.voter r.voters
      then (false, r)
      else (true, record r { voters = v.voter ∷ r.voters; stake = r.stake + v.stake });
  has_quorum = λ r. leb (2 * r.total) (3 * r.stake);
  Approved = PlainApproved;
  proposal = λ a. a.proposal;
  approve = λ p r snapshot. some (record { proposal = p; snapshot = snapshot });
}

pub plain_upgrade_laws : UpgradeLaws plain_upgrades
plain_upgrade_laws = record { approve_proposal = λ p r snapshot upgrade e. ground (arith, e) }

div_mono : (k a b : ℕ) → 0 < k → a ≤ b → a / k ≤ b / k
div_mono k a b p h = (le-div_iff_mul-le p).1 (omega (arith, mul-div-le a k, mul_comm (a / k) k, h))

pub plain_float_laws : FloatLaws plain_floats
plain_float_laws = record {
  AtMost = λ x y. x ≤ y;
  of_u64_mono = λ a b h. omega (arith, h);
  to_u64_mono = λ x y h. div_mono 1000 x y (omega arith) h;
  mul_mono = λ n x y h.
      div_mono 1000 (n * 1000 * x) (n * 1000 * y) (omega arith) (mul-le-mul_left (n * 1000) h);
  div_mono =
      λ n x y p h. div_mono (n * 1000) (x * 1000) (y * 1000) (omega (arith, p)) (omega (arith, h));
  mul_one = λ n. omega arith;
  div_self = λ n p. mul-div_right 1000 (omega (arith, p));
  to_u64_of_u64 = λ n h. omega arith;
}

pub record PlainTransaction : Type 0 where
  pub number : ℕ
  pub size : ℕ

-- a batch is numbered by its time
abbrev pub plain_mempool : MempoolApi plain_batches
plain_mempool = record {
  Transaction = PlainTransaction;
  is_valid = λ t. ltb 0 t.size;
  digest = λ t. t.number;
  size_bytes = λ t. t.size;
  as_bytes = λ n. n ∷ [];
  sign = λ bytes. some 1;
  new_batch = λ ts author timestamp previous signature.
      some (record { id = timestamp; previous = previous });
  transaction_count = λ b. 1;
  batch_size = λ b. 1;
}

-- a certificate is the stake that it stands for
abbrev pub plain_certificates : CertificateApi
plain_certificates = record {
  new_certificate = λ id signatures stake timestamp. stake;
  is_valid = λ total certificate. ltb (2 * total) (3 * certificate);
}
