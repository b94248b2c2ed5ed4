-- ===== src/Cascade/Signing.antt =====
-- Calls on `BatchCertifier` of src/cascade.rs, and what each does to the certificates.
use silver_consensus.Base.{ℕ, ◌≡◌, true, false, List, [], ◌∷◌, ◌++◌, All, ltb}
use silver_consensus.Base.Word.{mul64}
use silver_consensus.Base.Dict.{contains_key, insert, AllEntries}
use silver_consensus.Core.{BatchApi, MetadataApi, CertificateApi, ValidatorSignature}
use silver_consensus.ValidatorSet.{ValidatorSet, contains_validator}
use silver_consensus.FlowGraph.{FlowGraph, add_batch, set_certificate, contains_batch}
use silver_consensus.Cascade.Certifier.{
  BatchCertifier, signatures_of, weight_of, add_signature, clear_old_pending,
}

-- A signature, a cleaning, a batch that is added to the graph, a change of the validator set, and any
-- other change of the graph that the certifier shares: a pruning or clearing of it, for instance.
pub data Call (bt : BatchApi) (md : MetadataApi) : Type 0 where
  sign : ℕ → ValidatorSignature → ℕ → Call bt md
  clear : Call bt md
  grow : bt.Batch → ℕ → ℕ → Call bt md
  reconfigure : ValidatorSet md → Call bt md
  replace : FlowGraph bt → Call bt md

module _ (bt : BatchApi) (md : MetadataApi) (ct : CertificateApi) where
  unfoldable pub apply : Call bt md → BatchCertifier bt md ct → BatchCertifier bt md ct
  apply (sign id signature timestamp) m = (add_signature bt md ct id signature timestamp m).1
  apply clear m = clear_old_pending bt md ct m
  apply (grow b now later) m = record m { flow_graph = (add_batch bt b now later m.flow_graph).1 }
  apply (reconfigure s) m = record m { validator_set = s }
  apply (replace graph) m = record m { flow_graph = graph }

  unfoldable pub run : List (Call bt md) → BatchCertifier bt md ct → BatchCertifier bt md ct
  run [] m = m
  run (c ∷ cs) m = run cs (apply c m)

  -- one of the calls gives the signature for the batch
  pub data IsSent (id : ℕ) (s : ValidatorSignature) : List (Call bt md) → Type 0 where
    here : {t : ℕ} {cs : List (Call bt md)} → IsSent id s (sign id s t ∷ cs)
    there : {c : Call bt md} {cs : List (Call bt md)} → IsSent id s cs → IsSent id s (c ∷ cs)

  abbrev pub AreSent : List (Call bt md) → ℕ → List ValidatorSignature → Type 0
  AreSent seen id sigs = All (λ s. IsSent id s seen) sigs

  -- every signature that waits for a batch was sent for it
  abbrev pub IsHonest : List (Call bt md) → BatchCertifier bt md ct → Type 0
  IsHonest seen m = AllEntries (AreSent seen) m.pending_signatures

  -- The call, after those seen, gives the batch its certificate: its signature and those that wait for
  -- the batch, all of them sent for it, have a quorum of the validator set that there is at the time.
  pub record IsCertifying (id certificate : ℕ) (seen : List (Call bt md))
      (m : BatchCertifier bt md ct) (c : Call bt md) : Type 0 where
    pub signature : ValidatorSignature
    pub timestamp : ℕ
    pub is_sign : c ≡ sign id signature timestamp
    pub are_sent : AreSent (c ∷ seen) id (signatures_of bt md ct id m ++ signature ∷ [])
    pub is_known : contains_validator md signature.validator m.validator_set ≡ true
    pub in_graph : contains_batch bt id m.flow_graph ≡ true
    pub has_quorum :
        ltb
          (mul64 m.validator_set.total_stake 2)
          (mul64 (weight_of bt md ct (signatures_of bt md ct id m ++ signature ∷ []) m) 3)
        ≡ true
    pub is_made :
        certificate
        ≡ ct.new_certificate id
            (signatures_of bt md ct id m ++ signature ∷ [])
            (weight_of bt md ct (signatures_of bt md ct id m ++ signature ∷ []) m)
            timestamp
    pub is_valid : ct.is_valid m.validator_set.total_stake certificate ≡ true

  -- nothing happens to the certificates, or one is made, stored and set
  pub data IsChange (seen : List (Call bt md)) (m : BatchCertifier bt md ct) (c : Call bt md)
      (m' : BatchCertifier bt md ct) : Type 0 where
    same :
        m'.certified_batches ≡ m.certified_batches
        → m'.flow_graph ≡ m.flow_graph
        → IsChange seen m c m'
    made :
        (id certificate : ℕ)
        → IsCertifying id certificate seen m c
        → contains_key id m.certified_batches ≡ false
        → m'.certified_batches ≡ insert id certificate m.certified_batches
        → m'.flow_graph ≡ (set_certificate bt id certificate m.flow_graph).1
        → IsChange seen m c m'
