-- ===== src/Auth/LoginRateLimit.antt =====
-- src/auth/login-rate-limit.service.ts. The time is an argument of each call, and a test of the source
-- on a past time, `attemptTime >= now - window`, is read as `now <= attemptTime + window`.
pub mod Lockout
use prop_chain_back_end.Base.{
  ℕ, ◌+◌, ◌-◌, ◌*◌, ◌/◌, Bool, true, false, ◌&&◌, ◌||◌, List, [], ◌∷◌, Option, none, some, String,
  if◌then◌else◌, is_some, ◌==◌, ltb, leb, str_eq,
}
use prop_chain_back_end.Table.{Table}

pub record LoginAttempt : Type 0 where
  pub id : ℕ
  pub email : String
  pub ip_address : Option String
  pub success : Bool
  pub locked_out : Bool
  pub attempt_time : ℕ
  pub unlock_at : Option ℕ

pub record LoginAttemptConfig : Type 0 where
  pub max_attempts : ℕ
  pub lockout_duration_minutes : ℕ

-- `readPositiveInt`: `parse` gives the value of `Number(raw)` where that is a natural number, and
-- `blank` tells whether the raw text is empty once trimmed.
abbrev pub read_positive_int : (String → Option ℕ) → (String → Bool) → Option String → ℕ → ℕ
read_positive_int parse blank none fallback = fallback
read_positive_int parse blank (some raw) fallback =
    if blank raw then fallback else (elim (parse raw) [
      | none ↦ fallback
      | some value ↦ if value == 0 then fallback else value
    ])

-- the constructor of the service
abbrev pub read_config :
    (String → Option ℕ) → (String → Bool) → Option String → Option String → LoginAttemptConfig
read_config parse blank max_raw minutes_raw = record {
  max_attempts = read_positive_int parse blank max_raw 5;
  lockout_duration_minutes = read_positive_int parse blank minutes_raw 30;
}

-- `unlockAt: { gt: now }`
abbrev pub is_after : Option ℕ → ℕ → Bool
is_after none now = false
is_after (some t) now = ltb now t

abbrev pub is_lock : String → ℕ → LoginAttempt → Bool
is_lock email now r = str_eq r.email email && (r.locked_out && is_after r.unlock_at now)

abbrev pub window : LoginAttemptConfig → ℕ
window config = config.lockout_duration_minutes * 60 * 1000

abbrev pub is_recent_failure : LoginAttemptConfig → String → ℕ → LoginAttempt → Bool
is_recent_failure config email now r =
    str_eq r.email email
    && (elim r.success [ true ↦ false | false ↦ leb now (r.attempt_time + window config) ])

abbrev pub unlocked : LoginAttempt → LoginAttempt
unlocked r = record r { locked_out = false; unlock_at = none }

pub record LockoutInfo : Type 0 where
  pub is_locked : Bool
  pub failed_attempts : ℕ
  pub unlock_at : Option ℕ
  pub remaining_lockout_minutes : Option ℕ

-- `orderBy: { attemptTime: 'desc' }`, and the first row
abbrev pub latest : List LoginAttempt → Option LoginAttempt
latest [] = none
latest (x ∷ xs) = elim (latest xs) [
  | none ↦ some x
  | some y ↦ if ltb x.attempt_time y.attempt_time then some y else some x
]

-- `lockedAttempt?.unlockAt`
abbrev pub lock_end : Option LoginAttempt → Option ℕ
lock_end none = none
lock_end (some r) = r.unlock_at

-- `Math.ceil(ms / (1000 * 60))`
abbrev pub minutes_until : ℕ → ℕ → ℕ
minutes_until now t = (t - now + 59999) / 60000

module _ (attempts : Table LoginAttempt (λ r. r.id)) (config : LoginAttemptConfig)
    (to_lower_case : String → String) where
  open attempts use {Rows}

  unfoldable pub is_account_locked : ℕ → String → Rows → Bool
  is_account_locked now email t =
      is_some (attempts.find_first (is_lock (to_lower_case email) now) t)

  unfoldable pub get_failed_attempts_count : ℕ → String → Rows → ℕ
  get_failed_attempts_count now email t =
      attempts.count_where (is_recent_failure config (to_lower_case email) now) t

  abbrev pub failed_attempt : ℕ → ℕ → String → Option String → Bool → LoginAttempt
  failed_attempt now id email ip_address should_lock = record {
    id = id;
    email = to_lower_case email;
    ip_address = ip_address;
    success = false;
    locked_out = should_lock;
    attempt_time = now;
    unlock_at = if should_lock then some (now + window config) else none;
  }

  unfoldable pub record_failed_attempt : ℕ → ℕ → String → Option String → Rows → Bool × Rows
  record_failed_attempt now id email ip_address t =
      let recent_failures =
        attempts.count_where (is_recent_failure config (to_lower_case email) now) t in
      let should_lock = leb config.max_attempts (recent_failures + 1) in
      (should_lock, attempts.create (failed_attempt now id email ip_address should_lock) t)

  unfoldable pub record_successful_attempt : ℕ → ℕ → String → Option String → Rows → Rows
  record_successful_attempt now id email ip_address t =
      attempts.create
        (record {
          id = id;
          email = to_lower_case email;
          ip_address = ip_address;
          success = true;
          locked_out = false;
          attempt_time = now;
          unlock_at = none;
        })
        t

  unfoldable pub unlock_account : ℕ → String → Rows → Rows
  unlock_account now email t = attempts.update_many (is_lock (to_lower_case email) now) unlocked t

  unfoldable pub get_lockout_info : ℕ → String → Rows → Option LockoutInfo
  get_lockout_info now email t =
      let normalized = to_lower_case email in
      let failed = get_failed_attempts_count now normalized t in
      let is_locked = is_account_locked now normalized t in
      let unlock_at = lock_end (latest (attempts.find_many (is_lock normalized now) t)) in
      if (elim is_locked [ true ↦ false | false ↦ failed == 0 ])
      then none
      else some (record {
        is_locked = is_locked;
        failed_attempts = failed;
        unlock_at = if is_locked then unlock_at else none;
        remaining_lockout_minutes =
            if is_locked
            then (elim unlock_at [ none ↦ none | some u ↦ some (minutes_until now u) ])
            else none;
      })

  -- `cleanupOldAttempts`, with days of 24 hours
  unfoldable pub cleanup_old_attempts : ℕ → ℕ → Rows → ℕ × Rows
  cleanup_old_attempts now older_than_days t =
      let is_old = λ (r : LoginAttempt). ltb (r.attempt_time + older_than_days * 86400000) now in
      (attempts.count_where is_old t, attempts.delete_many is_old t)
