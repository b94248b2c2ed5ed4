-- ===== src/Slashing.antt =====
-- `SlashingConfig`, `JailRecord`, `SlashEvent` and `SlashingManager` of src/slashing.rs. Evidence is
-- only compared, so it is a number; `now` is `SystemTime::now()` in seconds.
mod History
mod Spacing
mod Steady
mod Evidence
mod Examples
use silver_consensus.Base.{
  ℕ, Bool, true, false, Option, none, some, List, [], ◌∷◌, ◌++◌, ◌/◌, not, ◌==◌, ltb, leb,
  if◌then◌else◌, keep, length,
}
use silver_consensus.Base.Word.{add64, sub64, mul64}
use silver_consensus.Base.Dict.{Dict, lookup, insert, remove}
use silver_consensus.Base.Outcome.{Result, ok, err}

pub record SlashingConfig : Type 0 where
  pub slash_double_signing : ℕ
  pub slash_downtime : ℕ
  pub jail_duration_secs : ℕ
  pub downtime_threshold : ℕ
  pub recovery_period : ℕ

abbrev pub default_config : SlashingConfig
default_config = record {
  slash_double_signing = 10;
  slash_downtime = 1;
  jail_duration_secs = 86400;
  downtime_threshold = 50;
  recovery_period = 100;
}

pub data JailReason : Type 0 where
  double_signing excessive_downtime manual : JailReason

pub record JailRecord : Type 0 where
  pub validator_id : ℕ
  pub jailed_at : ℕ
  pub jail_expires_at : ℕ
  pub reason : JailReason
  pub slash_amount : ℕ
  pub snapshots_missed : Option ℕ
  pub manually_lifted : Bool

pub record SlashEvent : Type 0 where
  pub validator_id : ℕ
  pub reason : JailReason
  pub slash_amount : ℕ
  pub timestamp : ℕ
  pub cycle : Option ℕ

pub record SlashingManager : Type 0 where
  pub config : SlashingConfig
  pub jailed_validators : Dict JailRecord
  pub slash_history : List SlashEvent
  pub double_signing_evidence : Dict ℕ

pub data SlashingError : Type 0 where
  already_slashed already_jailed zero_slash below_threshold not_jailed : SlashingError

-- `JailRecord::new`
unfoldable pub jail : ℕ → JailReason → ℕ → ℕ → ℕ → JailRecord
jail validator_id reason slash_amount jail_duration_secs now = record {
  validator_id = validator_id;
  jailed_at = now;
  jail_expires_at = add64 now jail_duration_secs;
  reason = reason;
  slash_amount = slash_amount;
  snapshots_missed = none;
  manually_lifted = false;
}

-- `JailRecord::is_jailed`
unfoldable pub holds : ℕ → JailRecord → Bool
holds now r = if r.manually_lifted then false else ltb now r.jail_expires_at

unfoldable pub remaining_jail_time : ℕ → JailRecord → ℕ
remaining_jail_time now r =
    if r.manually_lifted
    then 0
    else if leb r.jail_expires_at now
    then 0
    else sub64 r.jail_expires_at now

unfoldable pub new : SlashingConfig → SlashingManager
new config = record {
  config = config;
  jailed_validators = [];
  slash_history = [];
  double_signing_evidence = [];
}

unfoldable pub is_jailed : ℕ → ℕ → SlashingManager → Bool
is_jailed now validator_id m = elim (lookup validator_id m.jailed_validators) [
  | none ↦ false
  | some r ↦ holds now r
]

-- the event and the jail record that each of the three penalties writes
unfoldable pub penalize :
    ℕ → JailReason → ℕ → Option ℕ → Option ℕ → ℕ → SlashingManager → JailRecord × SlashingManager
penalize validator_id reason slash_amount missed cycle now m =
    let sentence = record (jail validator_id reason slash_amount m.config.jail_duration_secs now) {
      snapshots_missed = missed;
    } in
    let event : SlashEvent = record {
      validator_id = validator_id;
      reason = reason;
      slash_amount = slash_amount;
      timestamp = now;
      cycle = cycle;
    } in
    (
      sentence,
      record m {
        slash_history = m.slash_history ++ event ∷ [];
        jailed_validators = insert validator_id sentence m.jailed_validators;
      },
    )

-- whether this evidence against the validator is the one that is stored
unfoldable pub is_known : ℕ → ℕ → SlashingManager → Bool
is_known validator_id evidence m = elim (lookup validator_id m.double_signing_evidence) [
  | none ↦ false
  | some existing ↦ existing == evidence
]

-- the share of the stake, in percent
unfoldable pub share : ℕ → ℕ → ℕ
share stake percent = mul64 stake percent / 100

unfoldable pub slash_for_double_signing :
    ℕ → ℕ → ℕ → ℕ → SlashingManager → Result SlashingError (ℕ × JailRecord) × SlashingManager
slash_for_double_signing validator_id stake evidence now m =
    let slash_amount = share stake m.config.slash_double_signing in
    let known = record m {
      double_signing_evidence = insert validator_id evidence m.double_signing_evidence;
    } in
    let (sentence, m') = penalize validator_id double_signing slash_amount none none now known in
    if is_known validator_id evidence m
    then (err already_slashed, m)
    else if is_jailed now validator_id m
    then (err already_jailed, m)
    else if slash_amount == 0
    then (err zero_slash, m)
    else (ok (slash_amount, sentence), m')

unfoldable pub slash_for_downtime :
    ℕ → ℕ → ℕ → ℕ → ℕ → SlashingManager → Result SlashingError (ℕ × JailRecord) × SlashingManager
slash_for_downtime validator_id stake missed cycle now m =
    let slash_amount = share stake m.config.slash_downtime in
    let (sentence, m') =
      penalize validator_id excessive_downtime slash_amount (some missed) (some cycle) now m in
    if is_jailed now validator_id m
    then (err already_jailed, m)
    else if ltb missed m.config.downtime_threshold
    then (err below_threshold, m)
    else if slash_amount == 0
    then (err zero_slash, m)
    else (ok (slash_amount, sentence), m')

unfoldable pub jail_validator_manual :
    ℕ → ℕ → SlashingManager → Result SlashingError JailRecord × SlashingManager
jail_validator_manual validator_id now m =
    let (sentence, m') = penalize validator_id manual 0 none none now m in
    if is_jailed now validator_id m then (err already_jailed, m) else (ok sentence, m')

abbrev pub get_jail_record : ℕ → SlashingManager → Option JailRecord
get_jail_record validator_id m = lookup validator_id m.jailed_validators

unfoldable pub lift_jail : ℕ → SlashingManager → Result SlashingError (Unit {0}) × SlashingManager
lift_jail validator_id m = elim (lookup validator_id m.jailed_validators) [
  | none ↦ (err not_jailed, m)
  | some r ↦
      let lifted = record r { manually_lifted = true } in
      (ok tt, record m { jailed_validators = insert validator_id lifted m.jailed_validators })
]

unfoldable pub expired_keys : ℕ → Dict JailRecord → List ℕ
expired_keys now [] = []
expired_keys now ((k, r) ∷ d) =
    let rest = expired_keys now d in if holds now r then rest else k ∷ rest

unfoldable pub release : List ℕ → Dict JailRecord → Dict JailRecord
release [] d = d
release (k ∷ ks) d = release ks (remove k d)

unfoldable pub process_expired_jails : ℕ → SlashingManager → List ℕ × SlashingManager
process_expired_jails now m =
    let expired = expired_keys now m.jailed_validators in
    (expired, record m { jailed_validators = release expired m.jailed_validators })

unfoldable pub held_keys : ℕ → Dict JailRecord → List ℕ
held_keys now [] = []
held_keys now ((k, r) ∷ d) = let rest = held_keys now d in if holds now r then k ∷ rest else rest

unfoldable pub get_jailed_validators : ℕ → SlashingManager → List ℕ
get_jailed_validators now m = held_keys now m.jailed_validators

unfoldable pub get_validator_slash_history : ℕ → SlashingManager → List SlashEvent
get_validator_slash_history validator_id m =
    keep (λ (e : SlashEvent). e.validator_id == validator_id) m.slash_history

unfoldable pub sum_slashed : List SlashEvent → ℕ
sum_slashed [] = 0
sum_slashed (e ∷ es) = add64 e.slash_amount (sum_slashed es)

unfoldable pub get_total_slashed : ℕ → SlashingManager → ℕ
get_total_slashed validator_id m = sum_slashed (get_validator_slash_history validator_id m)

unfoldable pub set_config : SlashingConfig → SlashingManager → SlashingManager
set_config config m = record m { config = config }

unfoldable pub jailed_count : ℕ → SlashingManager → ℕ
jailed_count now m = length (held_keys now m.jailed_validators)

unfoldable pub slash_event_count : SlashingManager → ℕ
slash_event_count m = length m.slash_history
