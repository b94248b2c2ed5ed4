-- ===== src/Commission.antt =====
-- `CommissionRate`, `CommissionRateChange`, `ValidatorCommissionInfo` and `CommissionManager` of
-- src/commission.rs. A rate is its basis points; `now` is in seconds; the float product that a
-- commission is, is an argument of the functions that compute one.
mod Notice
mod Examples
use silver_consensus.Base.{
  ℕ, Bool, true, false, Option, none, some, List, [], ◌∷◌, ◌++◌, ◌==◌, ltb, leb, if◌then◌else◌,
}
use silver_consensus.Base.Word.{add64, sub64}
use silver_consensus.Base.Dict.{Dict, lookup, contains_key, insert, remove}
use silver_consensus.Base.Outcome.{Result, ok, err}

abbrev pub min_commission_rate : ℕ
min_commission_rate = 500

abbrev pub max_commission_rate : ℕ
max_commission_rate = 2000

abbrev pub commission_change_notice_period : ℕ
commission_change_notice_period = 604800

pub data CommissionError : Type 0 where
  below_minimum above_maximum already_pending same_rate : CommissionError
  none_pending already_registered not_found : CommissionError

-- `CommissionRate::new`
unfoldable pub new_rate : ℕ → Result CommissionError ℕ
new_rate rate_bp =
    if ltb rate_bp min_commission_rate
    then err below_minimum
    else if ltb max_commission_rate rate_bp
    then err above_maximum
    else ok rate_bp

pub record CommissionRateChange : Type 0 where
  pub validator_id : ℕ
  pub old_rate : ℕ
  pub new_rate : ℕ
  pub requested_at : ℕ
  pub effective_at : ℕ
  pub applied : Bool

pub record ValidatorCommissionInfo : Type 0 where
  pub validator_id : ℕ
  pub current_rate : ℕ
  pub pending_change : Option CommissionRateChange
  pub rate_history : List CommissionRateChange
  pub total_commission_earned : ℕ

-- `CommissionRateChange::new`
unfoldable pub new_change : ℕ → ℕ → ℕ → ℕ → CommissionRateChange
new_change validator_id old_rate new_rate now = record {
  validator_id = validator_id;
  old_rate = old_rate;
  new_rate = new_rate;
  requested_at = now;
  effective_at = add64 now commission_change_notice_period;
  applied = false;
}

unfoldable pub is_effective : ℕ → CommissionRateChange → Bool
is_effective now c = leb c.effective_at now

unfoldable pub remaining_notice_period : ℕ → CommissionRateChange → ℕ
remaining_notice_period now c = if leb c.effective_at now then 0 else sub64 c.effective_at now

-- `ValidatorCommissionInfo::new`
unfoldable pub new_info : ℕ → ℕ → ValidatorCommissionInfo
new_info validator_id initial_rate = record {
  validator_id = validator_id;
  current_rate = initial_rate;
  pending_change = none;
  rate_history = [];
  total_commission_earned = 0;
}

unfoldable pub request_rate_change :
    ℕ
    → ℕ
    → ValidatorCommissionInfo
    → Result CommissionError CommissionRateChange × ValidatorCommissionInfo
request_rate_change rate now i = elim i.pending_change [
  | some _ ↦ (err already_pending, i)
  | none ↦
      let change = new_change i.validator_id i.current_rate rate now in
      if rate == i.current_rate
      then (err same_rate, i)
      else (ok change, record i { pending_change = some change })
]

unfoldable pub apply_pending_change :
    ℕ → ValidatorCommissionInfo → Option CommissionRateChange × ValidatorCommissionInfo
apply_pending_change now i = elim i.pending_change [
  | none ↦ (none, i)
  | some c ↦
      let change = record c { applied = true } in
      if is_effective now c
      then (
        some change,
        record i {
          pending_change = none;
          current_rate = c.new_rate;
          rate_history = i.rate_history ++ change ∷ [];
        },
      )
      else (none, i)
]

unfoldable pub cancel_pending_change :
    ValidatorCommissionInfo → Result CommissionError (Unit {0}) × ValidatorCommissionInfo
cancel_pending_change i = elim i.pending_change [
  | none ↦ (err none_pending, i)
  | some _ ↦ (ok tt, record i { pending_change = none })
]

-- `calculate_commission`, for the commission of a rate on rewards
unfoldable pub earn : (ℕ → ℕ → ℕ) → ℕ → ValidatorCommissionInfo → ℕ × ValidatorCommissionInfo
earn commission_of rewards i =
    let commission = commission_of i.current_rate rewards in
    (commission, record i { total_commission_earned = add64 i.total_commission_earned commission })

-- `CommissionManager`
abbrev pub CommissionManager : Type 0
CommissionManager = Dict ValidatorCommissionInfo

unfoldable pub register_validator :
    ℕ → ℕ → CommissionManager → Result CommissionError (Unit {0}) × CommissionManager
register_validator validator_id initial_rate m =
    if contains_key validator_id m
    then (err already_registered, m)
    else (ok tt, insert validator_id (new_info validator_id initial_rate) m)

unfoldable pub set_commission_rate :
    ℕ → ℕ → ℕ → CommissionManager → Result CommissionError CommissionRateChange × CommissionManager
set_commission_rate validator_id rate now m = elim (lookup validator_id m) [
  | none ↦ (err not_found, m)
  | some i ↦
      let (outcome, i') = request_rate_change rate now i in (outcome, insert validator_id i' m)
]

unfoldable pub cancel_rate_change :
    ℕ → CommissionManager → Result CommissionError (Unit {0}) × CommissionManager
cancel_rate_change validator_id m = elim (lookup validator_id m) [
  | none ↦ (err not_found, m)
  | some i ↦ let (outcome, i') = cancel_pending_change i in (outcome, insert validator_id i' m)
]

unfoldable pub process_pending_changes :
    ℕ → CommissionManager → List CommissionRateChange × CommissionManager
process_pending_changes now [] = ([], [])
process_pending_changes now ((k, i) ∷ m) =
    let (change, i') = apply_pending_change now i in
    let rest = process_pending_changes now m in
    (elim change [ none ↦ rest.0 | some c ↦ c ∷ rest.0 ], (k, i') ∷ rest.1)

unfoldable pub calculate_commission :
    (ℕ → ℕ → ℕ) → ℕ → ℕ → CommissionManager → Result CommissionError ℕ × CommissionManager
calculate_commission commission_of validator_id rewards m = elim (lookup validator_id m) [
  | none ↦ (err not_found, m)
  | some i ↦
      let (commission, i') = earn commission_of rewards i in
      (ok commission, insert validator_id i' m)
]

unfoldable pub get_commission_rate : ℕ → CommissionManager → Option ℕ
get_commission_rate validator_id m = elim (lookup validator_id m) [
  | none ↦ none
  | some i ↦ some i.current_rate
]

unfoldable pub get_pending_changes : CommissionManager → List CommissionRateChange
get_pending_changes [] = []
get_pending_changes ((k, i) ∷ m) =
    let rest = get_pending_changes m in elim i.pending_change [ none ↦ rest | some c ↦ c ∷ rest ]

unfoldable pub remove_validator :
    ℕ → CommissionManager → Result CommissionError (Unit {0}) × CommissionManager
remove_validator validator_id m =
    if contains_key validator_id m then (ok tt, remove validator_id m) else (err not_found, m)
