-- ===== src/Auth/Retry.antt =====
-- src/auth/retry.util.ts, whose two functions stand in src/users/retry.util.ts and
-- src/properties/retry.util.ts as well: a call that is tried again with a growing delay. The outcomes of
-- the attempts are given by their number, and the jitter in thousandths of [0, 1).
use prop_chain_back_end.Base.{
  ℕ, zero, suc, ◌+◌, ◌-◌, ◌*◌, ◌/◌, ◌^◌, min, max, ◌≡◌, ◌≤◌, ◌<◌, refl, subst, inl, inr, ◌⊎◌, Bool,
  true, not, ◌||◌, List, [], ◌∷◌, if◌then◌else◌, arith, leb, length, All,
}

pub data Outcome (T E : Type 0) : Type 0 where
  returned : T → Outcome T E
  failed : E → Outcome T E

-- `Math.round(exponential * (0.5 + random() * 0.5))`
unfoldable pub backoff_delay_ms : ℕ → ℕ → ℕ → ℕ → ℕ
backoff_delay_ms retry base_delay_ms max_delay_ms random =
    let exponential = min max_delay_ms (base_delay_ms * 2 ^ (retry - 1)) in
    (exponential * (1000 + random) + 1000) / 2000

module _ {T E : Type 0} (call : ℕ → Outcome T E) (is_retryable : E → Bool)
    (attempts base_delay_ms max_delay_ms : ℕ) (random : ℕ → ℕ) where
  -- the loop from an attempt on, where `left` attempts may follow it: the outcome, the delays that
  -- were slept, and the number of calls
  unfoldable pub retry_from : ℕ → ℕ → Outcome T E × List ℕ × ℕ
  retry_from zero attempt = (call attempt, [], 1)
  retry_from (suc left) attempt =
      let (outcome, delays, calls) = retry_from left (attempt + 1) in
      elim (call attempt) [
        | returned t ↦ (returned t, [], 1)
        | failed e ↦ if leb attempts attempt || not (is_retryable e) then (failed e, [], 1) else (
          outcome,
          backoff_delay_ms attempt base_delay_ms max_delay_ms (random attempt) ∷ delays,
          suc calls,
        )
      ]

  -- `for (let attempt = 1; attempt <= Math.max(1, attempts); attempt++)`
  unfoldable pub retry_with_backoff : Outcome T E × List ℕ × ℕ
  retry_with_backoff = retry_from (max 1 attempts - 1) 1

times_mono : (e r k : ℕ) → r ≤ k → e * r ≤ e * k
times_mono zero r k le = omega arith
times_mono (suc e) r k le = omega (arith, le, times_mono e r k le)

-- A delay is at most the greatest that is allowed.
pub backoff_delay_ms_bound :
    (retry base_delay_ms max_delay_ms random : ℕ)
    → random < 1000
    → backoff_delay_ms retry base_delay_ms max_delay_ms random ≤ max_delay_ms
unfolding backoff_delay_ms
backoff_delay_ms_bound retry base_delay_ms max_delay_ms random below =
    let exponential = min max_delay_ms (base_delay_ms * 2 ^ (retry - 1)) in
    omega (arith, below, times_mono exponential random 999 (omega (arith, below)))

module _ {T E : Type 0} (call : ℕ → Outcome T E) (is_retryable : E → Bool)
    (attempts base_delay_ms max_delay_ms : ℕ) (random : ℕ → ℕ) where
  abbrev run_from : ℕ → ℕ → Outcome T E × List ℕ × ℕ
  run_from = retry_from call is_retryable attempts base_delay_ms max_delay_ms random

  Outcome-cases : (o : Outcome T E) → ((t : T) × (o ≡ returned t)) ⊎ ((e : E) × (o ≡ failed e))
  Outcome-cases (returned t) = inl (t, refl)
  Outcome-cases (failed e) = inr (e, refl)

  retry_from_bound :
      (left attempt : ℕ)
      → ((n : ℕ) → random n < 1000)
      → let (outcome, delays, calls) = run_from left attempt in
        (calls ≤ left + 1)
        × (length delays + 1 ≡ calls)
        × All (λ delay. delay ≤ max_delay_ms) delays
  unfolding retry_from
  retry_from_bound zero attempt below = (omega arith, refl, tt)
  retry_from_bound (suc left) attempt below =
      let (some_calls, counted, small) = retry_from_bound left (attempt + 1) below in
      let delay =
        backoff_delay_ms_bound attempt base_delay_ms max_delay_ms (random attempt)
          (below attempt) in
      elim (Outcome-cases (call attempt)) [
        | inl (t, e) ↦ ground (arith, e)
        | inr (error, e) ↦ ground (arith, e, some_calls, counted, small, delay)
      ]

  -- The loop ends after at least one and at most max(1, attempts) calls, with one delay between
  -- two calls and none above the greatest that is allowed, where the jitter is below 1.
  pub retry_with_backoff_bound :
      ((n : ℕ) → random n < 1000)
      → let (outcome, delays, calls) =
          retry_with_backoff call is_retryable attempts base_delay_ms max_delay_ms random in
        (calls ≤ max 1 attempts)
        × (length delays + 1 ≡ calls)
        × All (λ delay. delay ≤ max_delay_ms) delays
  unfolding retry_with_backoff
  retry_with_backoff_bound below =
      let (few, counted, small) = retry_from_bound (max 1 attempts - 1) 1 below in
      (omega (arith, few), counted, small)

  -- The attempts of a range fail in a way that may be tried again.
  abbrev pub FailsOver : ℕ → ℕ → Type 0
  FailsOver first end =
      (n : ℕ) → first ≤ n → n < end → (e : E) × (call n ≡ failed e) × (is_retryable e ≡ true)

  retry_from_returns :
      (skipped left attempt : ℕ) {t : T}
      → skipped ≤ left
      → attempt + left ≤ attempts
      → FailsOver attempt (attempt + skipped)
      → call (attempt + skipped) ≡ returned t
      → (run_from left attempt).0 ≡ returned t
  unfolding retry_from
  retry_from_returns zero zero attempt {t} le room fails found =
      subst (λ n. call n ≡ returned t) (omega arith) found
  retry_from_returns zero (suc left) attempt {t} le room fails found =
      let same : attempt + zero ≡ attempt = omega arith in
      let here = subst (λ n. call n ≡ returned t) same found in ground (arith, here)
  retry_from_returns (suc skipped) zero attempt le room fails found = ground (arith, le)
  retry_from_returns (suc skipped) (suc left) attempt {t} le room fails found =
      let (e, failing, again) = fails attempt (omega arith) (omega arith) in
      let later =
        retry_from_returns skipped left (attempt + 1) (omega (arith, le)) (omega (arith, room))
          (λ n from upto. fails n (omega (arith, from)) (omega (arith, upto)))
          (subst (λ n. call n ≡ returned t) (omega arith) found) in
      ground (arith, failing, again, room, later)

  -- Where one of the attempts that are allowed returns, and those before it fail in a way that may
  -- be tried again, its value is returned.
  pub retry_with_backoff_returns :
      (n : ℕ) {t : T}
      → 1 ≤ n
      → n ≤ attempts
      → FailsOver 1 n
      → call n ≡ returned t
      → (retry_with_backoff call is_retryable attempts base_delay_ms max_delay_ms random).0
        ≡ returned t
  unfolding retry_with_backoff
  retry_with_backoff_returns n {t} positive allowed fails found =
      retry_from_returns (n - 1) (max 1 attempts - 1) 1 (omega (arith, allowed))
        (omega (arith, positive, allowed))
        (λ k from upto. fails k from (omega (arith, upto, positive)))
        (subst (λ k. call k ≡ returned t) (omega (arith, positive)) found)
