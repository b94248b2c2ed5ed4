-- ===== src/Cascade/Signatures.antt =====
-- The signatures that wait in `BatchCertifier` of src/cascade.rs were sent, and what a signature does.
use silver_consensus.Base.{
  ℕ, ◌≡◌, refl, inl, inr, true, false, List, [], ◌∷◌, ◌++◌, All-append, All-mono, member, is_empty,
  ltb, arith, Bool-cases, Option-cases, after_test, after_guard,
}
use silver_consensus.Base.Word.{mul64}
use silver_consensus.Base.Dict.{
  Dict, lookup, contains_key, insert, AllEntries, AllEntries-lookup, AllEntries-insert,
  AllEntries-mono, AllEntries-remove,
}
use silver_consensus.Core.{BatchApi, MetadataApi, CertificateApi, ValidatorSignature}
use silver_consensus.ValidatorSet.{contains_validator}
use silver_consensus.FlowGraph.{contains_batch}
use silver_consensus.Cascade.Holding.{set_certificate_ok}
use silver_consensus.Cascade.Certifier.{
  BatchCertifier, signatures_of, weight_of, certify, add_signature, clear_old_pending, remove_all,
  emptied,
}
use silver_consensus.Cascade.Signing.{
  Call, sign, clear, grow, reconfigure, replace, apply, IsSent, here, there, AreSent, IsHonest,
  IsChange, same, made,
}

module _ (bt : BatchApi) (md : MetadataApi) (ct : CertificateApi) where
  signatures_of-sent :
      (id : ℕ) (seen : List (Call bt md)) (m : BatchCertifier bt md ct)
      → IsHonest bt md ct seen m
      → AreSent bt md ct seen id (signatures_of bt md ct id m)
  signatures_of-sent id seen m h = elim (Option-cases (lookup id m.pending_signatures)) [
    | inl e ↦ rw (e, signatures_of) tt
    | inr (sigs, e) ↦
        rw (e, signatures_of)
          (AllEntries-lookup (AreSent bt md ct seen) id sigs m.pending_signatures h e)
  ]

  older :
      (c : Call bt md) (seen : List (Call bt md)) (d : Dict (List ValidatorSignature))
      → AllEntries (AreSent bt md ct seen) d
      → AllEntries (AreSent bt md ct (c ∷ seen)) d
  older c seen d =
      AllEntries-mono (AreSent bt md ct seen) (AreSent bt md ct (c ∷ seen)) d (λ id sigs h.
        All-mono (λ s. IsSent bt md ct id s seen) (λ s. IsSent bt md ct id s (c ∷ seen)) sigs
          (λ s k. there k) h)

  -- the signatures of the batch, with the one that the call gives
  signed :
      (id t : ℕ) (s : ValidatorSignature) (seen : List (Call bt md)) (m : BatchCertifier bt md ct)
      → IsHonest bt md ct seen m
      → AreSent bt md ct (sign id s t ∷ seen) id (signatures_of bt md ct id m ++ s ∷ [])
  signed id t s seen m h =
      let old =
        All-mono (λ x. IsSent bt md ct id x seen) (λ x. IsSent bt md ct id x (sign id s t ∷ seen))
          (signatures_of bt md ct id m) (λ x k. there k) (signatures_of-sent id seen m h) in
      All-append (λ x. IsSent bt md ct id x (sign id s t ∷ seen)) (signatures_of bt md ct id m)
        (s ∷ []) old (here, tt)

  certify-IsHonest :
      (id t : ℕ) (sigs : List ValidatorSignature) (seen : List (Call bt md))
      (m : BatchCertifier bt md ct)
      → IsHonest bt md ct seen m
      → IsHonest bt md ct seen (certify bt md ct id sigs t m).1
  unfolding certify
  certify-IsHonest id t sigs seen m h = ground (arith, h)

  sign-IsHonest :
      (id t : ℕ) (s : ValidatorSignature) (seen : List (Call bt md)) (m : BatchCertifier bt md ct)
      → IsHonest bt md ct seen m
      → IsHonest bt md ct (sign id s t ∷ seen) (add_signature bt md ct id s t m).1
  unfolding add_signature
  sign-IsHonest id t s seen m h =
      let now = sign id s t ∷ seen in
      let sigs = signatures_of bt md ct id m ++ s ∷ [] in
      let m' : BatchCertifier bt md ct = record m {
        pending_signatures = insert id sigs m.pending_signatures;
      } in
      let idle = older (sign id s t) seen m.pending_signatures h in
      let longer : IsHonest bt md ct now m' =
        AllEntries-insert (AreSent bt md ct now) id sigs m.pending_signatures idle
          (signed id t s seen m h) in
      let P : BatchCertifier bt md ct → Type 0 = λ n. IsHonest bt md ct now n in
      after_test P (contains_batch bt id m.flow_graph) _ _
        (λ a. after_guard P (contains_key id m.certified_batches) _ _ idle (λ b.
          after_test P (contains_validator md s.validator m.validator_set) _ _
            (λ c. after_guard P (member (m.shard_of id) m.held) _ _ idle (λ d.
              after_test P
                (ltb (mul64 m.validator_set.total_stake 2) (mul64 (weight_of bt md ct sigs m) 3)) _
                _ (λ e. certify-IsHonest id t sigs now m' longer) (λ e. longer)))
            (λ c. idle)))
        (λ a. idle)

  remove_all-sent :
      (P : ℕ → List ValidatorSignature → Type 0) (ids : List ℕ) (d : Dict (List ValidatorSignature))
      → AllEntries P d
      → AllEntries P (remove_all bt md ct ids d)
  unfolding remove_all
  remove_all-sent P [] d h = h
  remove_all-sent P (id ∷ ids) d h = remove_all-sent P ids _ (AllEntries-remove P id d h)

  pub apply-IsHonest :
      (c : Call bt md) (seen : List (Call bt md)) (m : BatchCertifier bt md ct)
      → IsHonest bt md ct seen m
      → IsHonest bt md ct (c ∷ seen) (apply bt md ct c m)
  unfolding apply clear_old_pending
  apply-IsHonest (sign id s t) seen m h = sign-IsHonest id t s seen m h
  apply-IsHonest clear seen m h =
      let now = older clear seen m.pending_signatures h in
      elim (Bool-cases (is_empty m.held)) [
        | inl y ↦
            rw (y, clear_old_pending)
              (remove_all-sent (AreSent bt md ct (clear ∷ seen))
                (emptied bt md ct m.pending_signatures) _ now)
        | inr n ↦ rw (n, clear_old_pending) now
      ]
  apply-IsHonest (grow b now later) seen m h = older (grow b now later) seen m.pending_signatures h
  apply-IsHonest (reconfigure s) seen m h = older (reconfigure s) seen m.pending_signatures h
  apply-IsHonest (replace g) seen m h = older (replace g) seen m.pending_signatures h

  certify-IsChange :
      (id t : ℕ) (s : ValidatorSignature) (seen : List (Call bt md)) (m : BatchCertifier bt md ct)
      → IsHonest bt md ct seen m
      → contains_validator md s.validator m.validator_set ≡ true
      → contains_batch bt id m.flow_graph ≡ true
      → contains_key id m.certified_batches ≡ false
      → let sigs = signatures_of bt md ct id m ++ s ∷ [] in
        ltb (mul64 m.validator_set.total_stake 2) (mul64 (weight_of bt md ct sigs m) 3) ≡ true
        → let sigs = signatures_of bt md ct id m ++ s ∷ [] in
          let m' : BatchCertifier bt md ct = record m {
            pending_signatures = insert id sigs m.pending_signatures;
          } in
          IsChange bt md ct seen m (sign id s t) (certify bt md ct id sigs t m').1
  unfolding certify weight_of
  certify-IsChange id t s seen m h known there_is fresh quorum =
      let sigs = signatures_of bt md ct id m ++ s ∷ [] in
      let c = ct.new_certificate id sigs (weight_of bt md ct sigs m) t in
      let set = set_certificate_ok bt id c m.flow_graph there_is in
      after_test (IsChange bt md ct seen m (sign id s t))
        (ct.is_valid m.validator_set.total_stake c) _ _
        (λ a. rw set (
          made id c
            (record {
              signature = s;
              timestamp = t;
              is_sign = refl;
              are_sent = signed id t s seen m h;
              is_known = known;
              in_graph = there_is;
              has_quorum = quorum;
              is_made = refl;
              is_valid = a;
            })
            fresh refl refl))
        (λ a. same refl refl)

  pub sign-IsChange :
      (id t : ℕ) (s : ValidatorSignature) (seen : List (Call bt md)) (m : BatchCertifier bt md ct)
      → IsHonest bt md ct seen m
      → IsChange bt md ct seen m (sign id s t) (add_signature bt md ct id s t m).1
  unfolding add_signature
  sign-IsChange id t s seen m h =
      let sigs = signatures_of bt md ct id m ++ s ∷ [] in
      let P = IsChange bt md ct seen m (sign id s t) in
      let idle : P m = same refl refl in
      after_test P (contains_batch bt id m.flow_graph) _ _
        (λ a. after_guard P (contains_key id m.certified_batches) _ _ idle (λ b.
          after_test P (contains_validator md s.validator m.validator_set) _ _
            (λ c. after_guard P (member (m.shard_of id) m.held) _ _ idle (λ d.
              after_test P
                (ltb (mul64 m.validator_set.total_stake 2) (mul64 (weight_of bt md ct sigs m) 3)) _
                _ (λ e. certify-IsChange id t s seen m h c a b e) (λ e. same refl refl)))
            (λ c. idle)))
        (λ a. idle)
