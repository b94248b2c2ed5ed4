-- ===== src/ValidatorActivation/Diagram.antt =====
-- How the operations of src/validator_activation.rs move a validator's status.
use silver_consensus.Base.{
  ℕ, ◌≡◌, refl, inl, inr, some, List, [], ◌∷◌, leb, ◌==◌, arith, Bool-cases, Option-cases,
  eq_of_test, after_test,
}
use silver_consensus.Base.Dict.{lookup, insert}
use silver_consensus.Base.Outcome.{Result, Result-cases}
use silver_consensus.Core.{FloatApi}
use silver_consensus.ValidatorActivation.{
  ActivationRequestType, activation, deactivation, ActivationError, ValidatorActivationRecord,
  new_record, activate, deactivate, suspend, withdraw,
}
use silver_consensus.ValidatorActivation.Manager.{
  ValidatorActivationManager, entry, approve, carry_out, finalize_request, request_activation,
  request_deactivation, vote_on_request, with_record, advance_cycle, set_config, get_status,
  required_votes,
}
use silver_consensus.ValidatorActivation.Calls.{
  Call, ask, ask_off, vote, finalize, tick, configure, start, stop, suspension, removal, change,
  apply, run, written,
}
use silver_consensus.ValidatorActivation.Votes.{get_status-insert}
use silver_consensus.ValidatorActivation.Edges.{
  voted_in, voted_out, started, stopped, rewritten, IsTrace, done, stay, move, Moves,
  activate-Activates, deactivate-Stops, carry_in, carry_out_of, suspend-Moves, withdraw-Moves,
}

module _ (fl : FloatApi) (v : ℕ) where
  -- the validator's status, after one record is written
  insert-Moves :
      (w : ℕ) (c : Call fl) (r : ValidatorActivationRecord) (m m' : ValidatorActivationManager fl)
      → m'.records ≡ insert w r m.records
      → Moves w c (get_status fl w m) r.status
      → Moves v c (get_status fl v m) (get_status fl v m')
  insert-Moves w c r m m' q s =
      let found = get_status-insert fl v w r m m' q in
      elim (Bool-cases (v == w)) [
        | inl y ↦ rw (found, y, eq_of_test v w y) s
        | inr n ↦ inl (ground (arith, found, n))
      ]

  same-Moves :
      (c : Call fl) (m m' : ValidatorActivationManager fl)
      → m'.records ≡ m.records
      → Moves v c (get_status fl v m) (get_status fl v m')
  unfolding get_status
  same-Moves c m m' q = inl (ground (arith, q))

  status_of_entry :
      (w : ℕ) (m : ValidatorActivationManager fl) → (entry fl w m).status ≡ get_status fl w m
  unfolding entry get_status new_record
  status_of_entry w m = ground arith

  status_found :
      (w : ℕ) (r : ValidatorActivationRecord) (m : ValidatorActivationManager fl)
      → lookup w m.records ≡ some r
      → r.status ≡ get_status fl w m
  unfolding get_status
  status_found w r m e = ground (arith, e)

  approve-Moves :
      (w total now : ℕ) (kind : ActivationRequestType) (m : ValidatorActivationManager fl)
      → Moves {fl = fl} v
          (finalize w total now)
          (get_status fl v m)
          (get_status fl v (approve fl w kind now m).1)
  unfolding approve carry_out
  approve-Moves w total now activation m =
      let call : Call fl = finalize w total now in
      let r = (activate now (entry fl w m)).1 in
      let moves =
        carry_in w call (get_status fl w m) r.status (λ i. voted_in i)
          (rw⁻¹ (status_of_entry w m) (activate-Activates now (entry fl w m))) in
      elim (Result-cases (activate now (entry fl w m)).0) [
        | inl (e, q) ↦ rw (q, approve) (insert-Moves w call r m _ refl moves)
        | inr (u, q) ↦ rw (q, approve) (insert-Moves w call r m _ refl moves)
      ]
  approve-Moves w total now deactivation m = elim (Option-cases (lookup w m.records)) [
    | inl e ↦ rw (e, approve) (same-Moves (finalize w total now) m _ refl)
    | inr (r, e) ↦
        let call : Call fl = finalize w total now in
        let secs = m.config.deactivation_cooldown_secs in
        let r' = (deactivate secs now r).1 in
        let moves =
          carry_out_of w call (get_status fl w m) r'.status voted_out
            (rw⁻¹ (status_found w r m e) (deactivate-Stops secs now r)) in
        elim (Result-cases (deactivate secs now r).0) [
          | inl (x, q) ↦ rw (e, q, approve) (insert-Moves w call r' m _ refl moves)
          | inr (u, q) ↦ rw (e, q, approve) (insert-Moves w call r' m _ refl moves)
        ]
  ]

  finalize-Moves :
      (w total now : ℕ) (m : ValidatorActivationManager fl)
      → Moves {fl = fl} v
          (finalize w total now)
          (get_status fl v m)
          (get_status fl v (finalize_request fl w total now m).1)
  unfolding finalize_request get_status
  finalize-Moves w total now m = elim (Option-cases (lookup w m.pending_requests)) [
    | inl e ↦ rw (e, finalize_request) (inl refl)
    | inr (q, e) ↦
        rw (e, finalize_request)
          (after_test
            (λ n. Moves {fl = fl} v (finalize w total now) (get_status fl v m) (get_status fl v n))
            (leb (required_votes fl q.request_type total m.config) q.votes_in_favor) _ _
            (λ a. approve-Moves w total now q.request_type _) (λ a. inl refl))
  ]

  with_record-Moves :
      (w : ℕ) (c : Call fl)
      (f : ValidatorActivationRecord
        → Result ActivationError (Unit {0}) × ValidatorActivationRecord)
      (m : ValidatorActivationManager fl)
      → ((r : ValidatorActivationRecord) → Moves w c r.status (f r).1.status)
      → Moves v c (get_status fl v m) (get_status fl v (with_record fl f w m))
  unfolding with_record
  with_record-Moves w c f m moves = elim (Option-cases (lookup w m.records)) [
    | inl e ↦ rw (e, with_record) (inl refl)
    | inr (r, e) ↦
        rw (e, with_record)
          (insert-Moves w c (f r).1 m _ refl (rw⁻¹ (status_found w r m e) (moves r)))
  ]

  apply-Moves :
      (c : Call fl) (m : ValidatorActivationManager fl)
      → Moves v c (get_status fl v m) (get_status fl v (apply fl c m))
  unfolding apply
  apply-Moves (finalize w total now) m = finalize-Moves w total now m
  apply-Moves (start w now) m = with_record-Moves w (start w now) (activate now) m (λ r.
      carry_in w (start w now) r.status (activate now r).1.status (λ i. started i)
        (activate-Activates now r))
  apply-Moves (stop w secs now) m =
      with_record-Moves w (stop w secs now) (deactivate secs now) m (λ r.
        carry_out_of w (stop w secs now) r.status (deactivate secs now r).1.status stopped
          (deactivate-Stops secs now r))
  apply-Moves (suspension w) m = with_record-Moves w (suspension w) suspend m (suspend-Moves w)
  apply-Moves (removal w) m = with_record-Moves w (removal w) withdraw m (withdraw-Moves w)
  apply-Moves (change w f) m = with_record-Moves w (change w f) (written f) m (λ r. inr rewritten)
  apply-Moves tick m = unfold advance_cycle in same-Moves tick m _ refl
  apply-Moves (configure c) m = unfold set_config in same-Moves (configure c) m _ refl
  apply-Moves (ask w stake power now) m =
      inl (unfold request_activation in unfold get_status in ground arith)
  apply-Moves (ask_off w now) m =
      inl (unfold request_deactivation in unfold get_status in ground arith)
  apply-Moves (vote w in_favor power) m =
      inl (unfold vote_on_request in unfold get_status in ground arith)

  -- Each call on the activation manager leaves the status of a validator, or takes it along one edge
  -- that is labelled with the call: a finalized vote or `activate` makes an idle validator active, a
  -- finalized vote or `deactivate` an active one deactivated, `suspend` suspends one that is not,
  -- `remove` removes any, and only a write to the field itself goes elsewhere.
  pub run_follows :
      (cs : List (Call fl)) (m : ValidatorActivationManager fl)
      → IsTrace v cs (get_status fl v m) (get_status fl v (run fl cs m))
  unfolding run
  run_follows [] m = done
  run_follows (c ∷ cs) m = elim (apply-Moves c m) [
    | inl e ↦ rw e (stay (run_follows cs (apply fl c m)))
    | inr s ↦ move s (run_follows cs (apply fl c m))
  ]
