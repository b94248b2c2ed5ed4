-- ===== src/Slashing/History.antt =====
-- Histories of calls on the slashing manager of src/slashing.rs, and the events of one validator.
use silver_consensus.Base.{
  ℕ, ◌+◌, ◌≤◌, ◌<◌, ◌≡◌, refl, ◌⊎◌, inl, inr, Bool, true, false, some, List, [], ◌∷◌, ◌++◌,
  if◌then◌else◌, keep, IsDistinct, All, All-append, arith,
}
use silver_consensus.Base.Word.{u64_mod}
use silver_consensus.Base.Dict.{lookup, keys}
use silver_consensus.Slashing.{
  SlashingConfig, SlashingManager, SlashEvent, JailRecord, holds, is_jailed,
  slash_for_double_signing, slash_for_downtime, jail_validator_manual, lift_jail,
  process_expired_jails, set_config, get_validator_slash_history,
}

-- a call, with the time that it reads
pub data Call : Type 0 where
  sign_twice : ℕ → ℕ → ℕ → ℕ → Call
  be_down : ℕ → ℕ → ℕ → ℕ → ℕ → Call
  by_hand : ℕ → ℕ → Call
  expire : ℕ → Call
  lift : ℕ → Call
  configure : SlashingConfig → Call

unfoldable pub apply : Call → SlashingManager → SlashingManager
apply (sign_twice v stake evidence now) m = (slash_for_double_signing v stake evidence now m).1
apply (be_down v stake missed cycle now) m = (slash_for_downtime v stake missed cycle now m).1
apply (by_hand v now) m = (jail_validator_manual v now m).1
apply (expire now) m = (process_expired_jails now m).1
apply (lift v) m = (lift_jail v m).1
apply (configure config) m = set_config config m

unfoldable pub run : List Call → SlashingManager → SlashingManager
run [] m = m
run (c ∷ cs) m = run cs (apply c m)

-- the call lifts no jail and leaves the configuration
unfoldable pub is_steady : Call → Bool
is_steady (lift v) = false
is_steady (configure config) = false
is_steady _ = true

unfoldable pub time : Call → ℕ
time (sign_twice v stake evidence now) = now
time (be_down v stake missed cycle now) = now
time (by_hand v now) = now
time (expire now) = now
time (lift v) = 0
time (configure config) = 0

-- steady calls from the time on, in order, whose jails end within `u64`
unfoldable pub IsTimed : ℕ → ℕ → List Call → Type 0
IsTimed duration t [] = Unit
IsTimed duration t (c ∷ cs) =
    (is_steady c ≡ true)
    × (t ≤ time c)
    × (time c + duration < u64_mod)
    × IsTimed duration (time c) cs

-- each event is at least the duration before all that follow
unfoldable pub IsSpaced : ℕ → List SlashEvent → Type 0
IsSpaced duration [] = Unit
IsSpaced duration (e ∷ es) =
    All (λ (f : SlashEvent). e.timestamp + duration ≤ f.timestamp) es × IsSpaced duration es

-- the jails of the events are over by the time
abbrev pub Over : ℕ → ℕ → List SlashEvent → Type 0
Over duration t es = All (λ (e : SlashEvent). e.timestamp + duration ≤ t) es

-- The events of the validator are spaced, and their jails are over at the time, or the validator's
-- record holds until they are.
pub record IsServed (duration v t : ℕ) (m : SlashingManager) : Type 0 where
  pub once : IsDistinct (keys m.jailed_validators)
  pub same : m.config.jail_duration_secs ≡ duration
  pub spaced : IsSpaced duration (get_validator_slash_history v m)
  pub served :
      Over duration t (get_validator_slash_history v m)
      ⊎ ((r : JailRecord) × (lookup v m.jailed_validators ≡ some r)
          × (r.manually_lifted ≡ false)
          × Over duration r.jail_expires_at (get_validator_slash_history v m))

pub Over-mono :
    (duration t u : ℕ) (es : List SlashEvent) → t ≤ u → Over duration t es → Over duration u es
Over-mono duration t u [] l o = tt
Over-mono duration t u (e ∷ es) l o = (omega (arith, o.0, l), Over-mono duration t u es l o.1)

pub IsSpaced-snoc :
    (duration : ℕ) (es : List SlashEvent) (e : SlashEvent)
    → IsSpaced duration es
    → Over duration e.timestamp es
    → IsSpaced duration (es ++ e ∷ [])
unfolding IsSpaced
IsSpaced-snoc duration [] e s o = (tt, tt)
IsSpaced-snoc duration (f ∷ es) e s o = (
  All-append (λ (g : SlashEvent). f.timestamp + duration ≤ g.timestamp) es (e ∷ []) s.0 (o.0, tt),
  IsSpaced-snoc duration es e s.1 o.1,
)

pub keep-snoc {ℓ} :
    {A : Type ℓ} (p : A → Bool) (xs : List A) (a : A)
    → keep p (xs ++ a ∷ []) ≡ (if p a then keep p xs ++ a ∷ [] else keep p xs)
keep-snoc p [] a = refl
keep-snoc p (x ∷ xs) a = ground (arith, keep-snoc p xs a)

-- a validator that is not in jail has served its jails
pub not_jailed-Over :
    (duration v t now : ℕ) (m : SlashingManager)
    → t ≤ now
    → is_jailed now v m ≡ false
    → IsServed duration v t m
    → Over duration now (get_validator_slash_history v m)
unfolding is_jailed holds
not_jailed-Over duration v t now m l j s = elim s.served [
  | inl o ↦ Over-mono duration t now (get_validator_slash_history v m) l o
  | inr (r, e, f, o) ↦
      Over-mono duration r.jail_expires_at now (get_validator_slash_history v m)
        (ground (arith, j, e, f)) o
]
