-- ===== src/Commission/Notice.antt =====
-- The history of the rate changes of a validator of src/commission.rs.
use silver_consensus.Base.{
  ℕ, ◌+◌, ◌≤◌, ◌<◌, ◌≡◌, refl, ◌⊎◌, inl, inr, true, none, some, List, [], ◌∷◌, ◌++◌, ◌==◌, arith,
  Bool-cases, Option-cases,
}
use silver_consensus.Base.Word.{add64_exact, u64_mod}
use silver_consensus.Commission.{
  CommissionRateChange, ValidatorCommissionInfo, commission_change_notice_period, new_change,
  new_info, is_effective, request_rate_change, apply_pending_change, cancel_pending_change, earn,
}

-- a call on a validator's entry, with the time that it reads
pub data Call : Type 0 where
  ask : ℕ → ℕ → Call
  process : ℕ → Call
  cancel : ℕ → Call
  collect : ℕ → ℕ → Call

module _ (commission_of : ℕ → ℕ → ℕ) where
  unfoldable pub apply : Call → ValidatorCommissionInfo → ValidatorCommissionInfo
  apply (ask rate now) i = (request_rate_change rate now i).1
  apply (process now) i = (apply_pending_change now i).1
  apply (cancel now) i = (cancel_pending_change i).1
  apply (collect rewards now) i = (earn commission_of rewards i).1

  unfoldable pub run : List Call → ValidatorCommissionInfo → ValidatorCommissionInfo
  run [] i = i
  run (c ∷ cs) i = run cs (apply c i)

unfoldable pub time : Call → ℕ
time (ask rate now) = now
time (process now) = now
time (cancel now) = now
time (collect rewards now) = now

-- calls from the time on, in order, whose notice ends within `u64`
unfoldable pub IsTimed : ℕ → List Call → Type 0
IsTimed t [] = Unit
IsTimed t (c ∷ cs) =
    (t ≤ time c) × (time c + commission_change_notice_period < u64_mod) × IsTimed (time c) cs

-- Each change starts from the rate that the one before left, from the first rate to the last, and
-- takes effect the notice period after it was asked for, which was not before the one before it took
-- effect.
unfoldable pub IsChain : ℕ → ℕ → List CommissionRateChange → ℕ → ℕ → Type 0
IsChain rate since [] last until = (rate ≡ last) × (since ≤ until)
IsChain rate since (c ∷ cs) last until =
    (c.old_rate ≡ rate)
    × (since ≤ c.requested_at)
    × (c.effective_at ≡ c.requested_at + commission_change_notice_period)
    × IsChain c.new_rate c.effective_at cs last until

IsChain-snoc :
    (rate since last until : ℕ) (cs : List CommissionRateChange) (c : CommissionRateChange)
    → c.old_rate ≡ last
    → until ≤ c.requested_at
    → c.effective_at ≡ c.requested_at + commission_change_notice_period
    → IsChain rate since cs last until
    → IsChain rate since (cs ++ c ∷ []) c.new_rate c.effective_at
unfolding IsChain
IsChain-snoc rate since last until [] c o u n h =
    (omega (arith, o, h.0), omega (arith, u, h.1), n, (refl, omega arith))
IsChain-snoc rate since last until (x ∷ cs) c o u n h =
    let (old, later, notice, rest) = h in
    (old, later, notice, IsChain-snoc x.new_rate x.effective_at last until cs c o u n rest)

IsChain-later :
    (rate since last until later : ℕ) (cs : List CommissionRateChange)
    → until ≤ later
    → IsChain rate since cs last until
    → IsChain rate since cs last later
unfolding IsChain
IsChain-later rate since last until later [] l h = (h.0, omega (arith, h.1, l))
IsChain-later rate since last until later (x ∷ cs) l h =
    let (old, after, notice, rest) = h in
    (old, after, notice, IsChain-later x.new_rate x.effective_at last until later cs l rest)

-- the pending change, if there is one, continues the chain
pub record IsNoticed (initial t : ℕ) (i : ValidatorCommissionInfo) : Type 0 where
  pub chain : IsChain initial 0 i.rate_history i.current_rate t
  pub waiting :
      (i.pending_change ≡ none)
      ⊎ ((c : CommissionRateChange) × (i.pending_change ≡ some c)
          × (c.old_rate ≡ i.current_rate)
          × (c.effective_at ≡ c.requested_at + commission_change_notice_period)
          × IsChain initial 0 i.rate_history i.current_rate c.requested_at)

wait-IsNoticed :
    (initial t now : ℕ) (i : ValidatorCommissionInfo)
    → t ≤ now
    → IsNoticed initial t i
    → IsNoticed initial now i
wait-IsNoticed initial t now i l s = record {
  chain = IsChain-later initial 0 i.current_rate t now i.rate_history l s.chain;
  waiting = s.waiting;
}

request-IsNoticed :
    (initial rate t now : ℕ) (i : ValidatorCommissionInfo)
    → t ≤ now
    → now + commission_change_notice_period < u64_mod
    → IsNoticed initial t i
    → IsNoticed initial now (request_rate_change rate now i).1
unfolding request_rate_change new_change
request-IsNoticed initial rate t now i l fits s =
    let later = wait-IsNoticed initial t now i l s in
    elim (Option-cases i.pending_change) [
      | inr (c, e) ↦ simp (e, request_rate_change) later
      | inl e ↦ elim (Bool-cases (rate == i.current_rate)) [
        | inl q ↦ simp (e, q, request_rate_change) later
        | inr q ↦
            simp (e, q, request_rate_change)
              record {
                chain = later.chain;
                waiting = inr (
                  new_change i.validator_id i.current_rate rate now,
                  refl,
                  refl,
                  add64_exact now commission_change_notice_period fits,
                  later.chain,
                );
              }
      ]
    ]

process-IsNoticed :
    (initial t now : ℕ) (i : ValidatorCommissionInfo)
    → t ≤ now
    → IsNoticed initial t i
    → IsNoticed initial now (apply_pending_change now i).1
unfolding apply_pending_change is_effective
process-IsNoticed initial t now i l s =
    let later = wait-IsNoticed initial t now i l s in
    elim s.waiting [
      | inl e ↦ simp (e, apply_pending_change) later
      | inr (c, e, old, notice, chain) ↦ elim (Bool-cases (is_effective now c)) [
        | inr q ↦ simp (e, q, apply_pending_change) later
        | inl q ↦
            simp (e, q, apply_pending_change)
              record {
                chain =
                    IsChain-later initial 0 c.new_rate c.effective_at now
                      (i.rate_history ++ record c { applied = true } ∷ []) (ground (arith, q))
                      (IsChain-snoc initial 0 i.current_rate c.requested_at i.rate_history
                        (record c { applied = true }) old (omega arith) notice chain);
                waiting = inl refl;
              }
      ]
    ]

cancel-IsNoticed :
    (initial t now : ℕ) (i : ValidatorCommissionInfo)
    → t ≤ now
    → IsNoticed initial t i
    → IsNoticed initial now (cancel_pending_change i).1
unfolding cancel_pending_change
cancel-IsNoticed initial t now i l s =
    let later = wait-IsNoticed initial t now i l s in
    elim s.waiting [
      | inl e ↦ simp (e, cancel_pending_change) later
      | inr (c, e, old, notice, chain) ↦
          simp (e, cancel_pending_change) record { chain = later.chain; waiting = inl refl }
    ]

earn-IsNoticed :
    (commission_of : ℕ → ℕ → ℕ) (initial t now rewards : ℕ) (i : ValidatorCommissionInfo)
    → t ≤ now
    → IsNoticed initial t i
    → IsNoticed initial now (earn commission_of rewards i).1
unfolding earn
earn-IsNoticed commission_of initial t now rewards i l s =
    let later = wait-IsNoticed initial t now i l s in
    record { chain = later.chain; waiting = later.waiting }

module _ (commission_of : ℕ → ℕ → ℕ) (initial : ℕ) where
  apply-IsNoticed :
      (c : Call) (t : ℕ) (i : ValidatorCommissionInfo)
      → t ≤ time c
      → time c + commission_change_notice_period < u64_mod
      → IsNoticed initial t i
      → IsNoticed initial (time c) (apply commission_of c i)
  unfolding apply time
  apply-IsNoticed (ask rate now) t i l fits s = request-IsNoticed initial rate t now i l fits s
  apply-IsNoticed (process now) t i l fits s = process-IsNoticed initial t now i l s
  apply-IsNoticed (cancel now) t i l fits s = cancel-IsNoticed initial t now i l s
  apply-IsNoticed (collect rewards now) t i l fits s =
      earn-IsNoticed commission_of initial t now rewards i l s

  run-IsNoticed :
      (cs : List Call) (t : ℕ) (i : ValidatorCommissionInfo)
      → IsTimed t cs
      → IsNoticed initial t i
      → (until : ℕ) × IsNoticed initial until (run commission_of cs i)
  unfolding run IsTimed
  run-IsNoticed [] t i timed s = (t, s)
  run-IsNoticed (c ∷ cs) t i timed s =
      let (later, fits, rest) = timed in
      run-IsNoticed cs (time c) (apply commission_of c i) rest (apply-IsNoticed c t i later fits s)

-- After calls on a new entry in the order of their times, whose notice ends within u64, the history
-- of its rate is a chain from the first rate to the current one: each change takes effect the notice
-- period after it was asked for, and was asked for no sooner than the change before took effect.
pub run-IsChain :
    (commission_of : ℕ → ℕ → ℕ) (validator_id initial : ℕ) (cs : List Call)
    → IsTimed 0 cs
    → let i = run commission_of cs (new_info validator_id initial) in
      (until : ℕ) × IsChain initial 0 i.rate_history i.current_rate until
unfolding new_info IsChain
run-IsChain commission_of validator_id initial cs timed =
    let start : IsNoticed initial 0 (new_info validator_id initial) = record {
      chain = (refl, omega arith);
      waiting = inl refl;
    } in
    let (until, s) =
      run-IsNoticed commission_of initial cs 0 (new_info validator_id initial) timed start in
    (until, s.chain)
