-- ===== src/Snapshot/Examples.antt =====
-- Runs of src/snapshot.rs, and the theorems at concrete inputs.
use silver_consensus.Base.{
  ℕ, ◌+◌, ◌*◌, ◌≤◌, ◌<◌, ◌≡◌, refl, ◌↔◌, Bool, true, false, none, some, List, [], ◌∷◌, ◌++◌, arith,
  ltb, ◌&&◌, ◌==◌, member, IsDistinct, map,
}
use silver_consensus.Base.Word.{add64, mul64}
use silver_consensus.Base.Dict.{lookup}
use silver_consensus.Base.Clock.{Clock}
use silver_consensus.Base.Outcome.{ok, err}
use silver_consensus.Core.Plain.{PlainSnapshot, plain_api}
use silver_consensus.Snapshot.Certificate.{SnapshotCertificate, new, backpressure, no_quorum}
use silver_consensus.Snapshot.Certificate as Certificate
use silver_consensus.Snapshot.Weight.{weight}
use silver_consensus.Snapshot.Quorum.{Vote, AreMembers, collect, validator_of}
use silver_consensus.Snapshot.Safety.{signers, collect_quorum, quorum_intersection}
use silver_consensus.Snapshot.Manager.{
  SnapshotManager, PendingSnapshot, create_snapshot, add_signature, finalize_snapshot, with_timeout,
  verify_certificate, fresh_pending, finalize_removed, is_timed_out, process_timeouts,
}
use silver_consensus.Snapshot.Lifecycle.{IsValid, with_timeout-IsValid}
use silver_consensus.Snapshot.History.{Op, run, apply, run-IsValid}
use silver_consensus.Snapshot.Finality.{
  finalized_verify, finality, finalize_with_quorum, finalize_without_quorum,
}

abbrev at_time : ℕ → Clock
at_time n = record { instant = 1000 * n; unix_secs = n; unix_millis = 1000 * n }

abbrev equal_stake : ℕ → ℕ
equal_stake v = 100

abbrev four : List ℕ
four = 1 ∷ 2 ∷ 3 ∷ 4 ∷ []

abbrev vote_of : ℕ → Vote
vote_of v = record { validator = v; signature = 7; clock = at_time 1 }

abbrev three_votes : List Vote
three_votes = vote_of 1 ∷ vote_of 2 ∷ vote_of 2 ∷ vote_of 3 ∷ []

abbrev other_votes : List Vote
other_votes = vote_of 4 ∷ vote_of 3 ∷ vote_of 2 ∷ []

-- validator 2 is the faulty one
abbrev two_is_faulty : ℕ → Bool
two_is_faulty v = v == 2

abbrev certificate_of : List Vote → SnapshotCertificate
certificate_of votes = collect equal_stake votes (new 1 9 400 (at_time 0))

four-IsDistinct : IsDistinct four
four-IsDistinct = (refl, (refl, (refl, (refl, tt))))

three-members : AreMembers four three_votes
three-members = (refl, (refl, (refl, (refl, tt))))

collect_quorum_example :
    let c = certificate_of three_votes in
    IsDistinct (signers c)
    × (member 2 (signers c) ≡ (member 2 (map validator_of three_votes) && ltb 0 (equal_stake 2)))
    × ((c.has_quorum ≡ true) ↔ (2 * weight equal_stake four < 3 * weight equal_stake (signers c)))
collect_quorum_example =
    collect_quorum equal_stake four three_votes 1 9 2 (at_time 0) four-IsDistinct (omega arith)
      three-members

quorum_intersection_example :
    (v : ℕ) × (member v (signers (certificate_of three_votes)) ≡ true)
    × (member v (signers (certificate_of other_votes)) ≡ true)
    × (two_is_faulty v ≡ false)
unfolding collect new Certificate.add_signature Certificate.check_quorum add64 mul64
quorum_intersection_example =
    quorum_intersection equal_stake four two_is_faulty three_votes other_votes 1 9 1 9 (at_time 0)
      (at_time 0) four-IsDistinct (omega arith) (omega arith) three-members
      (refl, (refl, (refl, tt))) refl refl

abbrev created : List Op
created = Op.create 9 (5 ∷ []) 0 400 (at_time 0) ∷ []

abbrev signed : List Op
signed =
    Op.create 9 (5 ∷ []) 0 400 (at_time 0)
    ∷ Op.sign 1 1 7 150 (at_time 1)
    ∷ Op.sign 1 2 7 150 (at_time 1)
    ∷ []

abbrev finalizing : List Op
finalizing =
    Op.create 9 (5 ∷ []) 0 400 (at_time 0)
    ∷ Op.sign 1 1 7 150 (at_time 1)
    ∷ Op.sign 1 2 7 150 (at_time 1)
    ∷ Op.finalize 1 (at_time 2)
    ∷ []

abbrev later : List Op
later = Op.create 8 [] 0 400 (at_time 3) ∷ Op.finalize 2 (at_time 3) ∷ Op.timeouts (at_time 9) ∷ []

-- a manager with a timeout of 5 s, after the calls
abbrev after : List Op → SnapshotManager plain_api
after ops = run plain_api ops (with_timeout plain_api 5000)

abbrev signature_of : ℕ → Certificate.ValidatorSignatureInfo
signature_of v = record { validator_id = v; signature = 7; stake_weight = 150; signed_at = 1 }

abbrev first_snapshot : PlainSnapshot
first_snapshot = record {
  sequence = 1;
  timestamp = 0;
  previous = 0;
  root = 9;
  digests = 5 ∷ [];
  cycle = 0;
  signatures = [];
  stake = 0;
}

abbrev unsigned_entry : PendingSnapshot plain_api
unsigned_entry = record {
  snapshot = first_snapshot;
  certificate = record {
    sequence = 1;
    snapshot_digest = 9;
    signatures = [];
    stake_weight = 0;
    total_stake = 400;
    created_at = 0;
    finalized_at = none;
    has_quorum = false;
  };
  created_at = 0;
  timeout = 5000;
}

abbrev signed_entry : PendingSnapshot plain_api
signed_entry = record unsigned_entry {
  certificate = record (unsigned_entry.certificate) {
    signatures = (1, signature_of 1) ∷ (2, signature_of 2) ∷ [];
    stake_weight = 300;
    has_quorum = true;
  };
}

abbrev final_entry : PlainSnapshot × SnapshotCertificate
final_entry = (first_snapshot, record (signed_entry.certificate) { finalized_at = some 2 })

-- one line for the calls of these runs
abbrev runs : Unit {0}
unfolding run apply create_snapshot add_signature finalize_snapshot fresh_pending finalize_removed
    is_timed_out with_timeout process_timeouts add64 mul64 Certificate.new Certificate.add_signature
    Certificate.check_quorum Certificate.finalize
runs = tt

created_pending : lookup 1 (after created).pending_snapshots ≡ some unsigned_entry
unfolding runs
created_pending = refl

signed_pending : lookup 1 (after signed).pending_snapshots ≡ some signed_entry
unfolding runs
signed_pending = refl

finalizing_final : lookup 1 (after finalizing).finalized_snapshots ≡ some final_entry
unfolding runs
finalizing_final = refl

created-IsValid : IsValid plain_api (after created)
created-IsValid =
    run-IsValid plain_api created (with_timeout plain_api 5000) (unfold runs in omega arith)
      (with_timeout-IsValid plain_api 5000)

signed-IsValid : IsValid plain_api (after signed)
signed-IsValid =
    run-IsValid plain_api signed (with_timeout plain_api 5000) (unfold runs in omega arith)
      (with_timeout-IsValid plain_api 5000)

finalized_verify_example :
    let m = after finalizing in
    (verify_certificate plain_api 1 m ≡ ok tt) × (1 ≤ m.latest_sequence) × (m.latest_sequence ≤ 4)
finalized_verify_example =
    finalized_verify plain_api 5000 finalizing 1 final_entry (omega arith) finalizing_final

finality_example : lookup 1 (after (finalizing ++ later)).finalized_snapshots ≡ some final_entry
finality_example =
    finality plain_api 5000 finalizing later 1 final_entry (omega arith) finalizing_final

finalize_with_quorum_example :
    let (r, m') = finalize_snapshot plain_api 1 (at_time 2) (after signed) in
    let c = (Certificate.finalize (at_time 2) signed_entry.certificate).1 in
    (r ≡ ok c)
    × (Certificate.verify c ≡ ok tt)
    × (lookup 1 m'.finalized_snapshots ≡ some (first_snapshot, c))
    × (m'.latest_sequence ≡ 1)
    × (1 ≡ (after signed).latest_sequence + 1)
    × (m'.pending_snapshots ≡ [])
finalize_with_quorum_example =
    finalize_with_quorum plain_api 1 (at_time 2) signed_entry (after signed) signed-IsValid
      signed_pending refl

finalize_without_quorum_example :
    let (r, m') = finalize_snapshot plain_api 1 (at_time 2) (after created) in
    (r ≡ err no_quorum)
    × (m'.finalized_snapshots ≡ (after created).finalized_snapshots)
    × (m'.latest_sequence ≡ (after created).latest_sequence)
    × (m'.pending_snapshots ≡ [])
finalize_without_quorum_example =
    finalize_without_quorum plain_api 1 (at_time 2) unsigned_entry (after created) created-IsValid
      created_pending refl
