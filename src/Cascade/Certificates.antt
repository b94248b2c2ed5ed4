-- ===== src/Cascade/Certificates.antt =====
-- The certificates of src/cascade.rs, in the certifier and in the flow graph of src/flow_graph.rs.
use silver_consensus.Base.{
  ℕ, ◌≡◌, refl, ◌⊎◌, inl, inr, true, none, some, List, [], ◌∷◌, arith, Bool-cases, Option-cases,
}
use silver_consensus.Base.Dict.{lookup}
use silver_consensus.Core.{BatchApi, MetadataApi, CertificateApi}
use silver_consensus.ValidatorSet.{ValidatorSet}
use silver_consensus.FlowGraph.{FlowGraph}
use silver_consensus.FlowGraph as Graph
use silver_consensus.Cascade.Certifier.{BatchCertifier, new, get_certificate}
use silver_consensus.Cascade.Signing.{Call, apply, run, IsHonest, IsCertifying}
use silver_consensus.Cascade.Changes.{
  replaces, AreHeld, kept, brought, apply-held, replaces-cons, replaces_later,
}
use silver_consensus.Cascade.Signatures.{apply-IsHonest}

module _ (bt : BatchApi) (md : MetadataApi) (ct : CertificateApi) where
  -- one of the calls, from the state and after those seen, gives the batch its certificate
  pub data Witnessed (id certificate : ℕ)
      : List (Call bt md) → BatchCertifier bt md ct → List (Call bt md) → Type 0 where
    by_this :
        {seen cs : List (Call bt md)} {m : BatchCertifier bt md ct} {c : Call bt md}
        → IsCertifying bt md ct id certificate seen m c
        → Witnessed id certificate seen m (c ∷ cs)
    by_later :
        {seen cs : List (Call bt md)} {m : BatchCertifier bt md ct} {c : Call bt md}
        → Witnessed id certificate (c ∷ seen) (apply bt md ct c m) cs
        → Witnessed id certificate seen m (c ∷ cs)

  run-kept :
      (id c : ℕ) (seen cs : List (Call bt md)) (m : BatchCertifier bt md ct)
      → IsHonest bt md ct seen m
      → lookup id m.certified_batches ≡ some c
      → lookup id (run bt md ct cs m).certified_batches ≡ some c
  unfolding run
  run-kept id c seen [] m honest h = h
  run-kept id c seen (k ∷ cs) m honest h =
      run-kept id c (k ∷ seen) cs (apply bt md ct k m) (apply-IsHonest bt md ct k seen m honest)
        (kept bt md ct id c seen k m honest h)

  -- the calls seen after a run, newest first
  abbrev seen_after : List (Call bt md) → List (Call bt md) → List (Call bt md)
  seen_after seen [] = seen
  seen_after seen (k ∷ cs) = seen_after (k ∷ seen) cs

  run-IsHonest :
      (seen cs : List (Call bt md)) (m : BatchCertifier bt md ct)
      → IsHonest bt md ct seen m
      → IsHonest bt md ct (seen_after seen cs) (run bt md ct cs m)
  unfolding run
  run-IsHonest seen [] m honest = honest
  run-IsHonest seen (k ∷ cs) m honest =
      run-IsHonest (k ∷ seen) cs _ (apply-IsHonest bt md ct k seen m honest)

  run-Witnessed :
      (id c : ℕ) (seen cs : List (Call bt md)) (m : BatchCertifier bt md ct)
      → IsHonest bt md ct seen m
      → lookup id m.certified_batches ≡ none
      → lookup id (run bt md ct cs m).certified_batches ≡ some c
      → Witnessed id c seen m cs
  unfolding run
  run-Witnessed id c seen [] m honest h found = ground (arith, h, found)
  run-Witnessed id c seen (k ∷ cs) m honest h found =
      let m' = apply bt md ct k m in
      let honest' = apply-IsHonest bt md ct k seen m honest in
      elim (Option-cases (lookup id m'.certified_batches)) [
        | inl e ↦ by_later (run-Witnessed id c (k ∷ seen) cs m' honest' e found)
        | inr (d, e) ↦
            let last = run-kept id d (k ∷ seen) cs m' honest' e in
            let one : c ≡ d = ground (arith, last, found) in
            by_this (rw one (brought bt md ct id d seen k m honest h e))
      ]

  run-held :
      (seen cs : List (Call bt md)) (m : BatchCertifier bt md ct)
      → IsHonest bt md ct seen m
      → AreHeld bt md ct m
      → AreHeld bt md ct (run bt md ct cs m) ⊎ (replaces bt md ct cs ≡ true)
  unfolding run
  run-held seen [] m honest h = inl h
  run-held seen (k ∷ cs) m honest h = elim (Bool-cases (replaces bt md ct (k ∷ []))) [
    | inl y ↦ inr (replaces-cons bt md ct k cs y)
    | inr n ↦
        elim (run-held (k ∷ seen) cs (apply bt md ct k m) (apply-IsHonest bt md ct k seen m honest)
          (apply-held bt md ct seen k m honest n h)) [
            | inl s ↦ inl s
            | inr y ↦ inr (replaces_later bt md ct k cs y)
          ]
  ]

  -- A certificate that a batch has after any calls on a new certifier was given by one of these calls:
  -- its signature and the signatures that waited for the batch, all sent for it by calls up to this
  -- one and each counted, had a quorum of the validator set of the time. After any further calls, the
  -- certifier has this certificate for the batch; and so has the flow graph, unless one of all the
  -- calls changes the graph other than by adding a batch.
  pub certificate_stays :
      (shard_of : ℕ → ℕ) (validators : ValidatorSet md) (graph : FlowGraph bt)
      (cs ds : List (Call bt md)) (id c : ℕ)
      → get_certificate bt md ct id (run bt md ct cs (new bt md ct shard_of validators graph))
        ≡ some c
      → let m = new bt md ct shard_of validators graph in
        let m' = run bt md ct ds (run bt md ct cs m) in
        Witnessed id c [] m cs
        × (get_certificate bt md ct id m' ≡ some c)
        × ((Graph.get_certificate bt id m'.flow_graph ≡ some c)
            ⊎ (replaces bt md ct cs ≡ true)
            ⊎ (replaces bt md ct ds ≡ true))
  unfolding get_certificate new
  certificate_stays shard_of validators graph cs ds id c h =
      let m = new bt md ct shard_of validators graph in
      let m' = run bt md ct cs m in
      let honest = run-IsHonest [] cs m tt in
      let seen = seen_after [] cs in
      let last = run-kept id c seen ds m' honest h in
      (
        run-Witnessed id c [] cs m tt refl h,
        last,
        elim (run-held [] cs m tt (λ id c found. cc)) [
          | inr y ↦ inr (inl y)
          | inl s ↦ elim (run-held seen ds m' honest s) [
            | inr y ↦ inr (inr y)
            | inl s' ↦ inl (s' id c last)
          ]
        ],
      )
