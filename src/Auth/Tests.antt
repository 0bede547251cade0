-- ===== src/Auth/Tests.antt =====
-- The theorems on the lockout and on the limits of requests, at one account and one key.
use prop_chain_back_end.Base.{
  ℕ, ◌+◌, ◌≡◌, refl, List, [], ◌∷◌, Option, none, some, String, true, if◌then◌else◌, ltb, str_eq,
  eq_iff, arith,
}
use prop_chain_back_end.Table.{Table}
use prop_chain_back_end.Table.InMemory.{in_memory}
use prop_chain_back_end.Auth.LoginRateLimit.{
  LoginAttempt, LoginAttemptConfig, record_failed_attempt, is_account_locked,
}
use prop_chain_back_end.Auth.LoginRateLimit.Lockout.{fail_at, record_failed_attempt_locks}
use prop_chain_back_end.Auth.RateLimit.{Cache, RateLimitRecord}
use prop_chain_back_end.Auth.RateLimit.Windows.{run_checks, KeepsRecords, run_checks_lem}

abbrev attempts : Table LoginAttempt (λ r. r.id)
attempts = in_memory LoginAttempt (λ r. r.id)

abbrev config : LoginAttemptConfig
config = record { max_attempts = 3; lockout_duration_minutes = 30 }

abbrev same : String → String
same s = s

abbrev two_failures : List (ℕ × ℕ)
two_failures = (1000, 1) ∷ (2000, 2) ∷ []

record_failed_attempt_locks_example :
    let (locks, t') =
      record_failed_attempt attempts config same 3000 3 "a@b.c" none
        (fail_at attempts config same "a@b.c" two_failures []) in
    (locks ≡ true) × (is_account_locked attempts config same 90000 "a@b.c" t' ≡ true)
record_failed_attempt_locks_example =
    record_failed_attempt_locks attempts config same 3000 3 90000 "a@b.c" none two_failures []
      (omega arith, (omega arith, tt)) (omega arith) (omega arith)

abbrev three_failures : attempts.Rows
three_failures = fail_at attempts config same "a@b.c" ((1000, 1) ∷ (2000, 2) ∷ (3000, 3) ∷ []) []

-- A cache as a function from keys to records, each with the end of its time to live.
abbrev entry_at : ℕ → Option (RateLimitRecord × ℕ) → Option RateLimitRecord
entry_at now none = none
entry_at now (some (r, end)) = if ltb now end then some r else none

abbrev cache : Cache
cache = record {
  State = String → Option (RateLimitRecord × ℕ);
  get = λ now key s. some (entry_at now (s key));
  set = λ now key r ttl s. some (λ k. if str_eq k key then some (r, now + ttl) else s k);
  del = λ key s k. if str_eq k key then none else s k;
}

cache-KeepsRecords : KeepsRecords cache
cache-KeepsRecords now key r ttl s = (_, refl, λ t soon. ground (arith, (eq_iff key key).1 refl))

run_checks_lem_example : (run_checks cache "k" 2 60 (100 ∷ 110 ∷ 120 ∷ []) (λ key. none)).0 ≡ 2
run_checks_lem_example =
    run_checks_lem cache cache-KeepsRecords "k" 2 60 100 (110 ∷ 120 ∷ []) (λ key. none) refl
      (omega arith, (omega arith, tt))
