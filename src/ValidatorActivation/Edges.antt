-- ===== src/ValidatorActivation/Edges.antt =====
-- The diagram of a validator's status, and the moves of its record, in src/validator_activation.rs.
use silver_consensus.Base.{
  ℕ, ◌≡◌, refl, ◌⊎◌, inl, inr, true, false, List, [], ◌∷◌, after_test, after_guard,
}
use silver_consensus.Core.{FloatApi}
use silver_consensus.ValidatorActivation.{
  ValidatorStatus, pending, active, deactivated, suspended, removed, is_active, is_suspended,
  ValidatorActivationRecord, activate, deactivate, set_active, is_cooling, suspend, withdraw,
}
use silver_consensus.ValidatorActivation.Calls.{
  Call, finalize, start, stop, suspension, removal, change,
}

-- The edges of a validator, each with the call that may take it: an idle status becomes active, an
-- active one deactivated, one that is not suspended suspended, any removed, and writes go anywhere.
pub data Edge {fl : FloatApi} : ℕ → Call fl → ValidatorStatus → ValidatorStatus → Type 0 where
  voted_in :
      {v total now : ℕ} {s : ValidatorStatus}
      → is_active s ≡ false
      → Edge v (finalize v total now) s active
  voted_out : {v total now : ℕ} → Edge v (finalize v total now) active deactivated
  started : {v now : ℕ} {s : ValidatorStatus} → is_active s ≡ false → Edge v (start v now) s active
  stopped : {v secs now : ℕ} → Edge v (stop v secs now) active deactivated
  held : {v : ℕ} {s : ValidatorStatus} → is_suspended s ≡ false → Edge v (suspension v) s suspended
  left : {v : ℕ} {s : ValidatorStatus} → Edge v (removal v) s removed
  rewritten :
      {v : ℕ} {f : ValidatorActivationRecord → ValidatorActivationRecord} {s t : ValidatorStatus}
      → Edge v (change v f) s t

-- a way from one status to another: each call stays, or takes one of its edges
pub data IsTrace {fl : FloatApi} (v : ℕ)
    : List (Call fl) → ValidatorStatus → ValidatorStatus → Type 0 where
  done : {s : ValidatorStatus} → IsTrace v [] s s
  stay :
      {c : Call fl} {cs : List (Call fl)} {s t : ValidatorStatus}
      → IsTrace v cs s t
      → IsTrace v (c ∷ cs) s t
  move :
      {c : Call fl} {cs : List (Call fl)} {s t u : ValidatorStatus}
      → Edge v c s t
      → IsTrace v cs t u
      → IsTrace v (c ∷ cs) s u

-- a status that stays, or that an idle status becomes
abbrev pub Activates : ValidatorStatus → ValidatorStatus → Type 0
Activates s t = (s ≡ t) ⊎ ((is_active s ≡ false) × (t ≡ active))

-- a status that stays, or that an active status becomes
abbrev pub Stops : ValidatorStatus → ValidatorStatus → Type 0
Stops s t = (s ≡ t) ⊎ ((s ≡ active) × (t ≡ deactivated))

active_of_test : (s : ValidatorStatus) → is_active s ≡ true → s ≡ active
active_of_test pending h = cc
active_of_test active h = refl
active_of_test deactivated h = cc
active_of_test suspended h = cc
active_of_test removed h = cc

pub activate-Activates :
    (now : ℕ) (r : ValidatorActivationRecord) → Activates r.status (activate now r).1.status
unfolding activate set_active
activate-Activates now r =
    let P : ValidatorActivationRecord → Type 0 = λ q. Activates r.status q.status in
    after_guard P (is_active r.status) _ _ (inl refl)
      (λ a. after_guard P (is_cooling now r) _ _ (inl refl) (λ k. inr (a, refl)))

pub deactivate-Stops :
    (cooldown now : ℕ) (r : ValidatorActivationRecord)
    → Stops r.status (deactivate cooldown now r).1.status
unfolding deactivate
deactivate-Stops cooldown now r =
    let P : ValidatorActivationRecord → Type 0 = λ q. Stops r.status q.status in
    after_test P (is_active r.status) _ _ (λ a. inr (active_of_test r.status a, refl))
      (λ a. inl refl)

-- no edge, or one
abbrev pub Moves : {fl : FloatApi} → ℕ → Call fl → ValidatorStatus → ValidatorStatus → Type 0
Moves v c s t = (s ≡ t) ⊎ Edge v c s t

-- an activation and a deactivation as edges of the call that they are for
pub carry_in :
    {fl : FloatApi} (v : ℕ) (c : Call fl) (s t : ValidatorStatus)
    → (is_active s ≡ false → Edge v c s active)
    → Activates s t
    → Moves v c s t
carry_in v c s t edge (inl e) = inl e
carry_in v c s t edge (inr (idle, e)) = inr (rw e (edge idle))

pub carry_out_of :
    {fl : FloatApi} (v : ℕ) (c : Call fl) (s t : ValidatorStatus)
    → Edge v c active deactivated
    → Stops s t
    → Moves v c s t
carry_out_of v c s t edge (inl e) = inl e
carry_out_of v c s t edge (inr (is, e)) = inr (rw (is, e) edge)

pub suspend-Moves :
    {fl : FloatApi} (v : ℕ) (r : ValidatorActivationRecord)
    → Moves {fl = fl} v (suspension v) r.status (suspend r).1.status
unfolding suspend
suspend-Moves {fl} v r =
    let P : ValidatorActivationRecord → Type 0 =
      λ q. Moves {fl = fl} v (suspension v) r.status q.status in
    after_guard P (is_suspended r.status) _ _ (inl refl) (λ a. inr (held a))

pub withdraw-Moves :
    {fl : FloatApi} (v : ℕ) (r : ValidatorActivationRecord)
    → Moves {fl = fl} v (removal v) r.status (withdraw r).1.status
unfolding withdraw
withdraw-Moves v r = inr left
