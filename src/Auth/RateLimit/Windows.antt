-- ===== src/Auth/RateLimit/Windows.antt =====
-- src/auth/rate-limit.service.ts: how many requests a window lets through.
use prop_chain_back_end.Base.{
  ℕ, suc, ◌+◌, ◌-◌, ◌*◌, ◌≡◌, ◌≤◌, ◌<◌, min, false, List, [], ◌∷◌, none, some, String,
  if◌then◌else◌, arith, length, All,
}
use prop_chain_back_end.Auth.RateLimit.{
  RateLimitRecord, Cache, next_record, status_of, seconds, check_rate_limit,
}

-- the record of an open window, with one more request
abbrev pub one_more : ℕ → RateLimitRecord → RateLimitRecord
one_more window_ms r = record { count = r.count + 1; reset_at = r.reset_at; window_ms = window_ms }

-- The requests let through by the checks of one key at the given times, and the cache after them.
pub run_checks : (cache : Cache) → String → ℕ → ℕ → List ℕ → cache.State → ℕ × cache.State
run_checks cache key limit window_ms [] s = (0, s)
run_checks cache key limit window_ms (now ∷ times) s =
    let (status, s₁) = check_rate_limit cache now key limit window_ms s in
    let (admitted, s₂) = run_checks cache key limit window_ms times s₁ in
    (if status.is_exceeded then admitted else suc admitted, s₂)

-- What a cache that does not fail does with a record: it returns it until its time to live is over.
abbrev pub KeepsRecords : Cache → Type 0
KeepsRecords cache =
    (now : ℕ) (key : String) (r : RateLimitRecord) (ttl : ℕ) (s : cache.State)
    → (s' : cache.State) × (cache.set now key r ttl s ≡ some s')
      × ((t : ℕ) → t < now + ttl → cache.get t key s' ≡ some (some r))

module _ (cache : Cache) (keeps : KeepsRecords cache) (key : String) (limit window_ms : ℕ) where
  open cache use {State}

  -- Until its end the window has had so many requests.
  abbrev pub Holds : RateLimitRecord → State → Type 0
  Holds r s = (t : ℕ) → t < r.reset_at → cache.get t key s ≡ some (some r)

  -- A check inside an open window counts one more request, and keeps the end of the window.
  check_rate_limit-open :
      (now : ℕ) (r : RateLimitRecord) (s : State)
      → now < r.reset_at
      → Holds r s
      → let (status, s') = check_rate_limit cache now key limit window_ms s in
        let r' = one_more window_ms r in (status ≡ status_of now limit r') × Holds r' s'
  unfolding check_rate_limit
  check_rate_limit-open now r s open_now holds =
      let r' = one_more window_ms r in
      let (s', stored, kept) = keeps now key r' (r.reset_at - now) s in
      (ground (arith, holds now, stored), λ t soon. ground (arith, holds now, stored, kept t))

  -- The first check of a key opens a window.
  check_rate_limit-fresh :
      (now : ℕ) (s : State)
      → cache.get now key s ≡ some none
      → let (status, s') = check_rate_limit cache now key limit window_ms s in
        (status ≡ status_of now limit (next_record now window_ms none))
        × Holds (next_record now window_ms none) s'
  unfolding check_rate_limit
  check_rate_limit-fresh now s fresh =
      let r = next_record now window_ms none in
      let (s', stored, kept) = keeps now key r (now + window_ms - now) s in
      (ground (arith, stored), λ t soon. ground (arith, stored, kept t))

  -- An open window that has had n requests lets through those that the limit still allows, the first
  -- ones, however many follow.
  pub run_checks-open :
      (times : List ℕ) (r : RateLimitRecord) (s : State)
      → Holds r s
      → All (λ t. t < r.reset_at) times
      → (run_checks cache key limit window_ms times s).0 ≡ min (length times) (limit - r.count)
  unfolding run_checks
  run_checks-open [] r s holds inside = omega arith
  run_checks-open (now ∷ times) r s holds (soon, inside) =
      let r' = one_more window_ms r in
      let (status_is, holds') = check_rate_limit-open now r s soon holds in
      ground (
        arith,
        status_is,
        run_checks-open times r' (check_rate_limit cache now key limit window_ms s).1 holds' inside,
      )

  -- With a cache that keeps its records, the requests of one key within one window, the first
  -- included, are let through up to the limit and no further.
  pub run_checks_lem :
      (start : ℕ) (times : List ℕ) (s : State)
      → cache.get start key s ≡ some none
      → All (λ t. t < start + window_ms) times
      → (run_checks cache key limit window_ms (start ∷ times) s).0 ≡ min (suc (length times)) limit
  unfolding run_checks
  run_checks_lem start times s fresh inside =
      let (status_is, holds) = check_rate_limit-fresh start s fresh in
      ground (
        arith,
        status_is,
        run_checks-open times (next_record start window_ms none)
            (check_rate_limit cache start key limit window_ms s).1 holds inside,
      )

-- While the cache fails every request is let through, and nothing is counted.
pub check_rate_limit_fails_open :
    (cache : Cache) (now : ℕ) (key : String) (limit window_ms : ℕ) (s : cache.State)
    → cache.get now key s ≡ none
    → let (status, s') = check_rate_limit cache now key limit window_ms s in
      (status.is_exceeded ≡ false) × (s' ≡ s)
unfolding check_rate_limit
check_rate_limit_fails_open cache now key limit window_ms s fails = ground arith

-- A request that is refused is told to wait for the rest of the window, to the second.
pub retry_after_lem :
    (now limit : ℕ) (r : RateLimitRecord)
    → limit < r.count
    → now < r.reset_at
    → (wait : ℕ) × ((status_of now limit r).retry_after ≡ some wait)
      × (r.reset_at ≤ now + wait * 1000)
      × (now + wait * 1000 < r.reset_at + 1000)
retry_after_lem now limit r over soon =
    (seconds (r.reset_at - now), ground arith, omega arith, omega arith)
