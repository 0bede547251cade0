-- ===== src/Auth/LoginRateLimit/Lockout.antt =====
-- src/auth/login-rate-limit.service.ts: when an account is locked, and for how long.
use prop_chain_back_end.Base.{
  ℕ, ◌+◌, ◌*◌, ◌≡◌, ◌≤◌, ◌<◌, refl, ◌∙◌, inl, inr, Option-cases, true, false, not, ◌&&◌, List, [],
  ◌∷◌, Option, none, String, arith, ltb, leb, length, patch, str_eq, eq_iff, All,
}
use prop_chain_back_end.Table.{Table}
use prop_chain_back_end.Table.Laws.{
  count_where-update_many, count_where-create, count_where-delete_many, count_where-zero,
  count_where-congr, find_first-none, find_first-pos,
}
use prop_chain_back_end.Auth.LoginRateLimit.{
  LoginAttempt, LoginAttemptConfig, is_lock, window, is_recent_failure, unlocked, is_account_locked,
  get_failed_attempts_count, failed_attempt, record_failed_attempt, unlock_account,
  cleanup_old_attempts,
}

str_eq_refl : (s : String) → str_eq s s ≡ true
str_eq_refl s = (eq_iff s s).1 refl

module _ (attempts : Table LoginAttempt (λ r. r.id)) (config : LoginAttemptConfig)
    (to_lower_case : String → String) where
  open attempts use {Rows}

  -- An account is locked exactly when some lock of it has not run out.
  is_account_locked-count :
      (now : ℕ) (email : String) (t : Rows)
      → is_account_locked attempts config to_lower_case now email t
        ≡ ltb 0 (attempts.count_where (is_lock (to_lower_case email) now) t)
  unfolding is_account_locked
  is_account_locked-count now email t =
      elim (Option-cases (attempts.find_first (is_lock (to_lower_case email) now) t)) [
        | inl missing ↦
            ground (
              arith,
              missing,
              find_first-none attempts (is_lock (to_lower_case email) now) t missing,
            )
        | inr (r, found) ↦
            ground
              (arith, found, find_first-pos attempts (is_lock (to_lower_case email) now) t r found)
      ]

  -- Failed attempts at the given times, one after the other.
  abbrev pub fail_at : String → List (ℕ × ℕ) → Rows → Rows
  fail_at email [] t = t
  fail_at email ((now, id) ∷ calls) t =
      fail_at email calls
        (record_failed_attempt attempts config to_lower_case now id email none t).1

  get_failed_attempts_count-fail_at :
      (now : ℕ) (email : String) (calls : List (ℕ × ℕ)) (t : Rows)
      → All (λ (at, id). now ≤ at + window config) calls
      → length calls + get_failed_attempts_count attempts config to_lower_case now email t
        ≡ get_failed_attempts_count attempts config to_lower_case now email (fail_at email calls t)
  unfolding get_failed_attempts_count record_failed_attempt
  get_failed_attempts_count-fail_at now email [] t h = omega arith
  get_failed_attempts_count-fail_at now email ((at, id) ∷ calls) t (recent, h) =
      let row = failed_attempt attempts config to_lower_case at id email none (
        leb config.max_attempts
          (attempts.count_where (is_recent_failure config (to_lower_case email) at) t + 1)) in
      ground (
        arith,
        recent,
        str_eq_refl (to_lower_case email),
        get_failed_attempts_count-fail_at now email calls (attempts.create row t) h,
        count_where-create attempts (is_recent_failure config (to_lower_case email) now) row t,
      )

  -- An attempt that reaches the limit locks the account until the window after it ends.
  pub record_failed_attempt_at_limit :
      (now id later : ℕ) (email : String) (ip : Option String) (t : Rows)
      → config.max_attempts
        ≤ get_failed_attempts_count attempts config to_lower_case now email t + 1
      → later < now + window config
      → let (locks, t') = record_failed_attempt attempts config to_lower_case now id email ip t in
        (locks ≡ true) × (is_account_locked attempts config to_lower_case later email t' ≡ true)
  unfolding record_failed_attempt get_failed_attempts_count
  record_failed_attempt_at_limit now id later email ip t enough soon =
      let locked = failed_attempt attempts config to_lower_case now id email ip (
        leb config.max_attempts
          (attempts.count_where (is_recent_failure config (to_lower_case email) now) t + 1)) in
      (
        ground (arith, enough),
        ground (
          arith,
          enough,
          str_eq_refl (to_lower_case email),
          is_account_locked-count later email (attempts.create locked t),
          count_where-create attempts (is_lock (to_lower_case email) later) locked t,
        ),
      )

  -- When an account has failed as often as the limit allows within the window, the last of these
  -- attempts locks it, and the account is locked at each time before the window after that attempt
  -- ends, whatever the table held before.
  pub record_failed_attempt_locks :
      (now id later : ℕ) (email : String) (ip : Option String) (calls : List (ℕ × ℕ)) (t : Rows)
      → All (λ (at, id). now ≤ at + window config) calls
      → config.max_attempts ≤ length calls + 1
      → later < now + window config
      → let (locks, t') =
          record_failed_attempt attempts config to_lower_case now id email ip
            (fail_at email calls t) in
        (locks ≡ true) × (is_account_locked attempts config to_lower_case later email t' ≡ true)
  record_failed_attempt_locks now id later email ip calls t recent enough soon =
      record_failed_attempt_at_limit now id later email ip (fail_at email calls t)
        (omega (arith, get_failed_attempts_count-fail_at now email calls t recent)) soon

  -- An attempt below the limit neither locks the account nor ends a lock that it has.
  pub record_failed_attempt_below :
      (now later id : ℕ) (email : String) (ip : Option String) (t : Rows)
      → get_failed_attempts_count attempts config to_lower_case now email t + 1
        < config.max_attempts
      → let (locks, t') = record_failed_attempt attempts config to_lower_case now id email ip t in
        (locks ≡ false)
        × (is_account_locked attempts config to_lower_case later email t'
            ≡ is_account_locked attempts config to_lower_case later email t)
  unfolding record_failed_attempt get_failed_attempts_count
  record_failed_attempt_below now later id email ip t few =
      let row = failed_attempt attempts config to_lower_case now id email ip (
        leb config.max_attempts
          (attempts.count_where (is_recent_failure config (to_lower_case email) now) t + 1)) in
      (
        ground arith,
        ground (
          arith,
          is_account_locked-count later email t,
          is_account_locked-count later email (attempts.create row t),
          count_where-create attempts (is_lock (to_lower_case email) later) row t,
        ),
      )

  -- After unlockAccount the account is not locked, but its failures still count: where they had
  -- reached the limit, the next failure locks it again.
  pub unlock_account_lem :
      (now id : ℕ) (email : String) (ip : Option String) (t : Rows)
      → config.max_attempts ≤ get_failed_attempts_count attempts config to_lower_case now email t
      → let t' = unlock_account attempts config to_lower_case now email t in
        (is_account_locked attempts config to_lower_case now email t' ≡ false)
        × ((record_failed_attempt attempts config to_lower_case now id email ip t').0 ≡ true)
  unfolding unlock_account record_failed_attempt get_failed_attempts_count
  unlock_account_lem now id email ip t many =
      let lock = is_lock (to_lower_case email) now in
      let recent = is_recent_failure config (to_lower_case email) now in
      let t' = attempts.update_many lock unlocked t in
      (
        rw (
          is_account_locked-count now email t',
          count_where-update_many attempts lock lock unlocked t,
          count_where-zero attempts (λ r. lock (patch lock unlocked r)) t (λ r. ground arith),
        ),
        ground (
          arith,
          many,
          count_where-update_many attempts recent lock unlocked t,
          count_where-congr attempts (λ r. recent (patch lock unlocked r)) recent t
              (λ r. ground arith),
        ),
      )

  -- A cleanup that keeps at least the days that the window spans changes no count of failed
  -- attempts.
  pub cleanup_old_attempts-count :
      (now older_than_days : ℕ) (email : String) (t : Rows)
      → window config ≤ older_than_days * 86400000
      → get_failed_attempts_count attempts config to_lower_case now email
          (cleanup_old_attempts attempts config to_lower_case now older_than_days t).1
        ≡ get_failed_attempts_count attempts config to_lower_case now email t
  unfolding get_failed_attempts_count cleanup_old_attempts
  cleanup_old_attempts-count now older_than_days email t le =
      let recent = is_recent_failure config (to_lower_case email) now in
      let is_old = λ (r : LoginAttempt). ltb (r.attempt_time + older_than_days * 86400000) now in
      count_where-delete_many attempts recent is_old t
      ∙ count_where-congr attempts (λ r. not (is_old r) && recent r) recent t (λ r. ground arith)
