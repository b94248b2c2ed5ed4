-- ===== src/Slashing/Examples.antt =====
-- Runs of the slashing manager of src/slashing.rs, and instances of its theorems.
use silver_consensus.Base.{ℕ, ◌≡◌, refl, true, false, List, [], ◌∷◌, All, ◌==◌}
use silver_consensus.Base.Word.{add64, sub64, mul64}
use silver_consensus.Base.Outcome.{ok, err}
use silver_consensus.Slashing.{
  SlashingManager, JailRecord, already_slashed, default_config, new, jail, holds, is_jailed,
  is_known, penalize, share, slash_for_double_signing, slash_for_downtime, jail_validator_manual,
  lift_jail, process_expired_jails, expired_keys, release, set_config, get_validator_slash_history,
  sum_slashed, get_total_slashed, double_signing, slash_event_count,
}
use silver_consensus.Slashing.History.{
  Call, sign_twice, be_down, expire, lift, apply, run, is_steady, time,
}
use silver_consensus.Slashing.Evidence.{is_quiet, evidence_refused, evidence_replayed}

-- validator 4 signs twice, is down while in jail and again after its jail
abbrev penalties : List Call
penalties =
    sign_twice 4 1000 77 10
    ∷ be_down 4 1000 60 2 500
    ∷ expire 90000
    ∷ be_down 4 1000 60 3 90000
    ∷ []

abbrev fresh : SlashingManager
fresh = new default_config

abbrev runs : Unit {0}
unfolding run apply new jail holds is_jailed is_known penalize share slash_for_double_signing
    slash_for_downtime jail_validator_manual lift_jail process_expired_jails expired_keys release
    set_config get_validator_slash_history sum_slashed get_total_slashed add64 sub64 mul64
    slash_event_count is_steady time is_quiet
runs = tt

slashed_in_all : get_total_slashed 4 (run penalties fresh) ≡ 110
slashed_in_all = unfold runs in refl

two_events : slash_event_count (run penalties fresh) ≡ 2
two_events = unfold runs in refl

abbrev between : List Call
between = expire 90000 ∷ sign_twice 5 1000 78 90000 ∷ lift 4 ∷ []

abbrev first : SlashingManager
first = (slash_for_double_signing 4 1000 77 10 fresh).1

abbrev second : SlashingManager
second = (slash_for_double_signing 4 1000 78 90000 first).1

abbrev sentence : ℕ → JailRecord
sentence now = jail 4 double_signing 100 86400 now

between-is_quiet : All (λ c. is_quiet 4 77 c ≡ true) between
between-is_quiet = unfold runs in (refl, (refl, (refl, tt)))

first_accepted : (slash_for_double_signing 4 1000 77 10 fresh).0 ≡ ok (100, sentence 10)
first_accepted = unfold runs in refl

second_accepted : (slash_for_double_signing 4 1000 78 90000 first).0 ≡ ok (100, sentence 90000)
second_accepted = unfold runs in refl

released : is_jailed 200000 4 second ≡ false
released = unfold runs in refl

some_share : (share 1000 second.config.slash_double_signing == 0) ≡ false
some_share = unfold runs in refl

evidence_refused_example :
    slash_for_double_signing 4 2000 77 95000 (run between first)
    ≡ (err already_slashed, run between first)
evidence_refused_example =
    evidence_refused 4 77 1000 2000 10 95000 fresh (100, sentence 10) between first_accepted
      between-is_quiet

evidence_replayed_example :
    (r : JailRecord) × ((slash_for_double_signing 4 1000 77 200000 second).0
      ≡ ok (share 1000 second.config.slash_double_signing, r))
evidence_replayed_example =
    evidence_replayed 4 77 78 1000 1000 1000 10 90000 200000 fresh (100, sentence 10)
      (100, sentence 90000) refl first_accepted second_accepted released some_share
