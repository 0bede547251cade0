-- ===== src/Webhooks/TriggerLimit.antt =====
-- src/webhooks/webhooks.service.ts: `isRateLimited`, the limit on the triggers of one webhook.
use prop_chain_back_end.Base.{
  ℕ, ◌+◌, ◌≡◌, ◌≤◌, refl, List, [], ◌∷◌, if◌then◌else◌, arith, ltb, count, filter, length-filter,
  count-append, count_mono,
}
use prop_chain_back_end.Webhooks.{trigger_rate_limit_window_ms, rate_limit_step}

-- How many of the times lie in the window that ends at `now`.
abbrev pub in_window : ℕ → List ℕ → ℕ
in_window now times = count (λ t. ltb now (t + trigger_rate_limit_window_ms)) times

-- The triggers of one webhook: `Run max now stamps admitted` holds when calls whose times do not
-- decrease, the last one at `now`, left these timestamps and let these times through.
pub data Run (max : ℕ) : ℕ → List ℕ → List ℕ → Type 0 where
  start : Run max 0 [] []
  call :
      (before now : ℕ) (stamps admitted : List ℕ)
      → Run max before stamps admitted
      → before ≤ now
      → Run max now
          (rate_limit_step max now stamps).1
          (if (rate_limit_step max now stamps).0 then admitted else now ∷ admitted)

-- The filter of one call drops nothing that a later window holds.
filter-in_window :
    (now later : ℕ) (stamps : List ℕ)
    → now ≤ later
    → in_window later (filter (λ t. ltb now (t + trigger_rate_limit_window_ms)) stamps)
      ≡ in_window later stamps
filter-in_window now later [] le = refl
filter-in_window now later (t ∷ ts) le = ground (arith, filter-in_window now later ts le)

-- The timestamps kept tell the admitted calls of every later window.
Run-in_window :
    (max now : ℕ) (stamps admitted : List ℕ)
    → Run max now stamps admitted
    → (later : ℕ) → now ≤ later
    → in_window later stamps ≡ in_window later admitted
Run-in_window _ _ _ _ start later le = refl
Run-in_window max _ _ _ (call before now stamps admitted run after) later le = ground (
  arith,
  Run-in_window max before stamps admitted run later (omega arith),
  count-append (λ t. ltb later (t + trigger_rate_limit_window_ms))
      (filter (λ t. ltb now (t + trigger_rate_limit_window_ms)) stamps) (now ∷ []),
  filter-in_window now later stamps le,
)

-- In each window of a minute that ends with a call of isRateLimited, no more triggers of a webhook
-- are let through than the limit.
pub Run-limit :
    (max now : ℕ) (stamps admitted : List ℕ)
    → Run max now stamps admitted
    → in_window now admitted ≤ max
Run-limit max _ _ _ start = omega arith
Run-limit max _ _ _ (call before now stamps admitted run after) = ground (
  arith,
  Run-in_window max before stamps admitted run now after,
  Run-limit max before stamps admitted run,
  count_mono (λ t. ltb now (t + trigger_rate_limit_window_ms))
      (λ t. ltb before (t + trigger_rate_limit_window_ms)) admitted (λ t e. ground arith),
  length-filter (λ t. ltb now (t + trigger_rate_limit_window_ms)) stamps,
)
