-- ===== src/ValidatorActivation/Votes.antt =====
-- What makes a validator active in src/validator_activation.rs.
use silver_consensus.Base.{
  ℕ, ◌≤◌, ◌≡◌, refl, sym, ◌⊎◌, inl, inr, true, false, some, leb, ◌==◌, if◌then◌else◌, arith,
  Bool-cases, Option-cases, eq_of_test, leb→le, after_test, ap,
}
use silver_consensus.Base.Dict.{lookup, insert, lookup-insert}
use silver_consensus.Base.Outcome.{Result, Result-cases}
use silver_consensus.Core.{FloatApi}
use silver_consensus.ValidatorActivation.{
  is_active, ActivationRequestType, activation, deactivation, ActivationRequest, ActivationError,
  ValidatorActivationRecord, activate, deactivate, suspend, withdraw, is_cooling,
}
use silver_consensus.ValidatorActivation.Manager.{
  ValidatorActivationManager, entry, approve, carry_out, finalize_request, request_activation,
  request_deactivation, vote_on_request, with_record, advance_cycle, set_config, get_status,
  required_votes,
}
use silver_consensus.ValidatorActivation.Calls.{
  Call, ask, ask_off, vote, finalize, tick, configure, start, stop, suspension, removal, change,
  apply, written,
}

module _ (fl : FloatApi) where
  -- the call finalizes a request to activate the validator that has the votes
  pub record IsVotedIn (v : ℕ) (c : Call fl) (m : ValidatorActivationManager fl) : Type 0 where
    pub total_stake : ℕ
    pub now : ℕ
    pub request : ActivationRequest
    pub is_finalize : c ≡ finalize v total_stake now
    pub is_pending : lookup v m.pending_requests ≡ some request
    pub is_activation : request.request_type ≡ activation
    pub is_carried : required_votes fl activation total_stake m.config ≤ request.votes_in_favor

  -- the status of a validator, once another record is written
  pub get_status-insert :
      (v w : ℕ) (r : ValidatorActivationRecord) (m m' : ValidatorActivationManager fl)
      → m'.records ≡ insert w r m.records
      → get_status fl v m' ≡ (if v == w then r.status else get_status fl v m)
  unfolding get_status
  get_status-insert v w r m m' q = ground (arith, q, lookup-insert w v r m.records)

  suspend-idle :
      (r : ValidatorActivationRecord)
      → is_active r.status ≡ false
      → is_active (suspend r).1.status ≡ false
  unfolding suspend
  suspend-idle r h = ground (arith, h)

  withdraw-idle :
      (r : ValidatorActivationRecord)
      → is_active r.status ≡ false
      → is_active (withdraw r).1.status ≡ false
  unfolding withdraw
  withdraw-idle r h = refl

  deactivate-idle :
      (cooldown now : ℕ) (r : ValidatorActivationRecord)
      → is_active (deactivate cooldown now r).1.status ≡ false
  unfolding deactivate
  deactivate-idle cooldown now r = ground arith

  -- a change of one record that leaves an idle validator idle
  with_record-idle :
      (v w : ℕ)
      (f : ValidatorActivationRecord
        → Result ActivationError (Unit {0}) × ValidatorActivationRecord)
      (m : ValidatorActivationManager fl)
      → ((r : ValidatorActivationRecord)
          → is_active r.status ≡ false
          → is_active (f r).1.status ≡ false)
      → is_active (get_status fl v m) ≡ false
      → is_active (get_status fl v (with_record fl f w m)) ≡ false
  unfolding with_record get_status
  with_record-idle v w f m keeps h = elim (Option-cases (lookup w m.records)) [
    | inl e ↦ rw (e, with_record) h
    | inr (r, e) ↦
        ground (arith, e, h, lookup-insert w v (f r).1 m.records, keeps r, eq_of_test v w)
  ]

  -- an approved deactivation, or one of another validator, leaves an idle validator idle
  approve-idle :
      (v w now : ℕ) (kind : ActivationRequestType) (m : ValidatorActivationManager fl)
      → (kind ≡ deactivation) ⊎ ((v == w) ≡ false)
      → is_active (get_status fl v m) ≡ false
      → is_active (get_status fl v (approve fl w kind now m).1) ≡ false
  unfolding approve carry_out get_status
  approve-idle v w now activation m (inl x) h = cc
  approve-idle v w now activation m (inr n) h =
      let e = entry fl w m in
      elim (Result-cases (activate now e).0) [
        | inl (x, q) ↦
            rw (q, approve) (ground (arith, n, h, lookup-insert w v (activate now e).1 m.records))
        | inr (u, q) ↦
            rw (q, approve) (ground (arith, n, h, lookup-insert w v (activate now e).1 m.records))
      ]
  approve-idle v w now deactivation m k h = elim (Option-cases (lookup w m.records)) [
    | inl e ↦ rw (e, approve) h
    | inr (r, e) ↦
        let c = m.config.deactivation_cooldown_secs in
        let idle = deactivate-idle c now r in
        let found = lookup-insert w v (deactivate c now r).1 m.records in
        elim (Result-cases (deactivate c now r).0) [
          | inl (x, q) ↦ rw (e, q, approve) (ground (arith, h, found, idle))
          | inr (u, q) ↦ rw (e, q, approve) (ground (arith, h, found, idle))
        ]
  ]

  kind_cases : (k : ActivationRequestType) → (k ≡ activation) ⊎ (k ≡ deactivation)
  kind_cases activation = inl refl
  kind_cases deactivation = inr refl

  -- a request that does not activate the validator leaves it idle
  finalize-idle :
      (v w total now : ℕ) (m : ValidatorActivationManager fl)
      → ((q : ActivationRequest)
          → lookup w m.pending_requests ≡ some q
          → leb (required_votes fl q.request_type total m.config) q.votes_in_favor ≡ true
          → (q.request_type ≡ deactivation) ⊎ ((v == w) ≡ false))
      → is_active (get_status fl v m) ≡ false
      → is_active (get_status fl v (finalize_request fl w total now m).1) ≡ false
  unfolding finalize_request get_status
  finalize-idle v w total now m other h = elim (Option-cases (lookup w m.pending_requests)) [
    | inl e ↦ rw (e, finalize_request) h
    | inr (q, e) ↦
        rw (e, finalize_request)
          (after_test (λ n. is_active (get_status fl v n) ≡ false)
            (leb (required_votes fl q.request_type total m.config) q.votes_in_favor) _ _
            (λ a. approve-idle v w now q.request_type _ (other q e a) h) (λ a. h))
  ]

  -- a call that makes an idle validator active
  finalized :
      (v w total now : ℕ) (m : ValidatorActivationManager fl)
      → is_active (get_status fl v m) ≡ false
      → is_active (get_status fl v (finalize_request fl w total now m).1) ≡ true
      → IsVotedIn v (finalize w total now) m
  finalized v w total now m h a = elim (Bool-cases (v == w)) [
    | inr n ↦ ground (arith, a, finalize-idle v w total now m (λ q e b. inr n) h)
    | inl y ↦ elim (Option-cases (lookup w m.pending_requests)) [
      | inl e ↦ ground (arith, a, finalize-idle v w total now m (λ q f b. ground (arith, e, f)) h)
      | inr (q, e) ↦
          let same = eq_of_test v w y in
          elim (kind_cases q.request_type) [
            | inr k ↦
                ground (
                  arith,
                  a,
                  finalize-idle v w total now m (λ p f b. inl (ground (arith, e, f, k))) h,
                )
            | inl k ↦
                let needed = required_votes fl activation total m.config in
                elim (Bool-cases (leb needed q.votes_in_favor)) [
                  | inr b ↦ ground (
                    arith,
                    a,
                    finalize-idle v w total now m (λ p f c. ground (arith, e, f, k, b, c)) h,
                  )
                  | inl b ↦ record {
                    total_stake = total;
                    now = now;
                    request = q;
                    is_finalize = ap (λ x. finalize x total now) (sym same);
                    is_pending = rw same e;
                    is_activation = k;
                    is_carried = leb→le needed q.votes_in_favor b;
                  }
                ]
          ]
    ]
  ]

  -- a change of another record leaves the validator as it is
  other-idle :
      (v w : ℕ)
      (f : ValidatorActivationRecord
        → Result ActivationError (Unit {0}) × ValidatorActivationRecord)
      (m : ValidatorActivationManager fl)
      → (v == w) ≡ false
      → is_active (get_status fl v m) ≡ false
      → is_active (get_status fl v (with_record fl f w m)) ≡ false
  unfolding with_record get_status
  other-idle v w f m n h = elim (Option-cases (lookup w m.records)) [
    | inl e ↦ rw (e, with_record) h
    | inr (r, e) ↦ ground (arith, e, h, n, lookup-insert w v (f r).1 m.records)
  ]

  -- the call activates the validator's record through `get_record_mut`, past its cooldown
  pub record IsStarted (v : ℕ) (c : Call fl) (m : ValidatorActivationManager fl) : Type 0 where
    pub now : ℕ
    pub r : ValidatorActivationRecord
    pub is_start : c ≡ start v now
    pub is_known : lookup v m.records ≡ some r
    pub has_rested : is_cooling now r ≡ false

  started :
      (v w now : ℕ) (m : ValidatorActivationManager fl)
      → is_active (get_status fl v m) ≡ false
      → is_active (get_status fl v (with_record fl (activate now) w m)) ≡ true
      → IsStarted v (start w now) m
  unfolding with_record get_status
  started v w now m h a = elim (Bool-cases (v == w)) [
    | inr n ↦ ground (arith, a, other-idle v w (activate now) m n h)
    | inl y ↦
        let same = eq_of_test v w y in
        elim (Option-cases (lookup w m.records)) [
          | inl e ↦ ground (arith, e, h, a)
          | inr (r, e) ↦
              let found = lookup-insert w v (activate now r).1 m.records in
              let rested : is_cooling now r ≡ false =
                unfold activate in ground (arith, e, h, a, same, found) in
              record {
                now = now;
                r = r;
                is_start = ap (λ x. start x now) (sym same);
                is_known = rw same e;
                has_rested = rested;
              }
        ]
  ]

  changed :
      (v w : ℕ) (f : ValidatorActivationRecord → ValidatorActivationRecord)
      (m : ValidatorActivationManager fl)
      → is_active (get_status fl v m) ≡ false
      → is_active (get_status fl v (with_record fl (written f) w m)) ≡ true
      → v ≡ w
  changed v w f m h a = elim (Bool-cases (v == w)) [
    | inl y ↦ eq_of_test v w y
    | inr n ↦ ground (arith, a, other-idle v w (written f) m n h)
  ]

  -- A call makes a validator active that was not only in one of three ways: it finalizes a pending
  -- request to activate the validator that has at least the votes that the configuration asks for; it
  -- is `activate` on the validator's own record, which `get_record_mut` gives out, with no cooldown
  -- left; or it writes to the fields of that record.
  pub becomes_active :
      (v : ℕ) (c : Call fl) (m : ValidatorActivationManager fl)
      → is_active (get_status fl v m) ≡ false
      → is_active (get_status fl v (apply fl c m)) ≡ true
      → IsVotedIn v c m
        ⊎ IsStarted v c m
        ⊎ ((f : ValidatorActivationRecord → ValidatorActivationRecord) × (c ≡ change v f))
  unfolding apply
  becomes_active v (finalize w total now) m h a = inl (finalized v w total now m h a)
  becomes_active v (start w now) m h a = inr (inl (started v w now m h a))
  becomes_active v (change w f) m h a =
      inr (inr (f, ap (λ x. change x f) (sym (changed v w f m h a))))
  becomes_active v (stop w secs now) m h a =
      ground (
        arith,
        a,
        with_record-idle v w (deactivate secs now) m (λ r i. deactivate-idle secs now r) h,
      )
  becomes_active v (suspension w) m h a =
      ground (arith, a, with_record-idle v w suspend m suspend-idle h)
  becomes_active v (removal w) m h a =
      ground (arith, a, with_record-idle v w withdraw m withdraw-idle h)
  becomes_active v tick m h a = unfold advance_cycle in unfold get_status in ground (arith, h, a)
  becomes_active v (configure c) m h a =
      unfold set_config in unfold get_status in ground (arith, h, a)
  becomes_active v (ask w stake power now) m h a =
      unfold request_activation in unfold get_status in ground (arith, h, a)
  becomes_active v (ask_off w now) m h a =
      unfold request_deactivation in unfold get_status in ground (arith, h, a)
  becomes_active v (vote w in_favor power) m h a =
      unfold vote_on_request in unfold get_status in ground (arith, h, a)
