-- ===== src/Auth/RateLimit.antt =====
-- src/auth/rate-limit.service.ts, with the limits of src/auth/rate-limit.config.ts. The time is an argument of
-- each call. The cache is an interface, since the service only calls it: each call may throw, which is
-- `none` here, and the service then lets the request through.
pub mod Windows
use prop_chain_back_end.Base.{
  ℕ, ◌+◌, ◌-◌, ◌*◌, ◌/◌, Bool, true, false, not, List, [], ◌∷◌, Option, none, some, String,
  if◌then◌else◌, is_some, ◌==◌, ltb, leb, str_eq,
}
use Prim.Native.String.{◌++◌}

pub record RateLimitRecord : Type 0 where
  pub count : ℕ
  pub reset_at : ℕ
  pub window_ms : ℕ

pub record Cache : Type 1 where
  pub State : Type 0
  pub get : (now : ℕ) → String → State → Option (Option RateLimitRecord)
  pub set : (now : ℕ) → String → RateLimitRecord → (ttl : ℕ) → State → Option State
  pub del : String → State → State

pub record RateLimitStatus : Type 0 where
  pub limit : ℕ
  pub remaining : ℕ
  pub reset : ℕ
  pub retry_after : Option ℕ
  pub is_exceeded : Bool

pub record RateLimitConfig : Type 0 where
  pub window_ms : ℕ
  pub max : ℕ

abbrev hour : ℕ
hour = 60 * 60 * 1000

abbrev quarter : ℕ
quarter = 15 * 60 * 1000

abbrev minute : ℕ
minute = 60 * 1000

-- ENDPOINT_RATE_LIMITS
abbrev pub endpoint_rate_limits : List (String × RateLimitConfig)
endpoint_rate_limits =
    ("POST /auth/register", record { window_ms = hour; max = 5 })
    ∷ ("POST /auth/login", record { window_ms = quarter; max = 5 })
    ∷ ("POST /auth/refresh", record { window_ms = hour; max = 20 })
    ∷ ("POST /auth/email/resend", record { window_ms = hour; max = 3 })
    ∷ ("POST /auth/request-password-reset", record { window_ms = hour; max = 3 })
    ∷ ("POST /users/email/resend", record { window_ms = hour; max = 5 })
    ∷ ("POST /users/email/verify", record { window_ms = quarter; max = 10 })
    ∷ ("GET /users", record { window_ms = minute; max = 100 })
    ∷ ("POST /users", record { window_ms = hour; max = 10 })
    ∷ ("GET /properties", record { window_ms = minute; max = 100 })
    ∷ ("POST /properties", record { window_ms = hour; max = 20 })
    ∷ ("GET /properties/search", record { window_ms = minute; max = 60 })
    ∷ ("GET /dashboard", record { window_ms = minute; max = 100 })
    ∷ ("POST /auth/api-keys", record { window_ms = hour; max = 10 })
    ∷ []

abbrev lookup : String → List (String × RateLimitConfig) → Option RateLimitConfig
lookup key [] = none
lookup key ((k, config) ∷ rest) = if str_eq k key then some config else lookup key rest

unfoldable pub get_endpoint_rate_limit : String → Option RateLimitConfig
get_endpoint_rate_limit endpoint = lookup endpoint endpoint_rate_limits

pub data UserTier : Type 0 where
  free premium enterprise api_key : UserTier

-- USER_TIER_RATE_LIMITS and `getUserTierRateLimit`
abbrev pub get_user_tier_rate_limit : UserTier → RateLimitConfig
get_user_tier_rate_limit free = record { window_ms = hour; max = 100 }
get_user_tier_rate_limit premium = record { window_ms = hour; max = 5000 }
get_user_tier_rate_limit enterprise = record { window_ms = hour; max = 50000 }
get_user_tier_rate_limit api_key = record { window_ms = hour; max = 10000 }

-- The record that a check stores: the window goes on while it is open, and starts again after it.
abbrev pub next_record : ℕ → ℕ → Option RateLimitRecord → RateLimitRecord
next_record now window_ms none = record {
  count = 1;
  reset_at = now + window_ms;
  window_ms = window_ms;
}
next_record now window_ms (some r) =
    if ltb now r.reset_at
    then record { count = r.count + 1; reset_at = r.reset_at; window_ms = window_ms }
    else record { count = 1; reset_at = now + window_ms; window_ms = window_ms }

-- `Math.ceil(ms / 1000)`
abbrev pub seconds : ℕ → ℕ
seconds ms = (ms + 999) / 1000

abbrev pub status_of : ℕ → ℕ → RateLimitRecord → RateLimitStatus
status_of now limit r = record {
  limit = limit;
  remaining = limit - r.count;
  reset = r.reset_at / 1000;
  retry_after = if ltb limit r.count then some (seconds (r.reset_at - now)) else none;
  is_exceeded = ltb limit r.count;
}

-- the answer when the cache is not available
abbrev pub fallback_status : ℕ → ℕ → ℕ → RateLimitStatus
fallback_status now limit window_ms = record {
  limit = limit;
  remaining = limit - 1;
  reset = (now + window_ms) / 1000;
  retry_after = none;
  is_exceeded = false;
}

module _ (cache : Cache) where
  open cache use {State}

  unfoldable pub check_rate_limit : ℕ → String → ℕ → ℕ → State → RateLimitStatus × State
  check_rate_limit now key limit window_ms s = elim (cache.get now key s) [
    | none ↦ (fallback_status now limit window_ms, s)
    | some found ↦
        elim (cache.set now key (next_record now window_ms found)
          ((next_record now window_ms found).reset_at - now) s) [
            | none ↦ (fallback_status now limit window_ms, s)
            | some s' ↦ (status_of now limit (next_record now window_ms found), s')
          ]
  ]

  unfoldable pub check_user_rate_limit : ℕ → String → UserTier → State → RateLimitStatus × State
  check_user_rate_limit now user_id tier s =
      let config = get_user_tier_rate_limit tier in
      check_rate_limit now ("rate-limit:user:" ++ user_id) config.max config.window_ms s

  unfoldable pub check_ip_rate_limit : ℕ → String → State → RateLimitStatus × State
  check_ip_rate_limit now ip s = check_rate_limit now ("rate-limit:ip:" ++ ip) 1000 quarter s

  unfoldable pub check_endpoint_rate_limit : ℕ → String → State → RateLimitStatus × State
  check_endpoint_rate_limit now endpoint s = elim (get_endpoint_rate_limit endpoint) [
    | none ↦
        (record { limit = 0; remaining = 0; reset = 0; retry_after = none; is_exceeded = false }, s)
    | some config ↦
        check_rate_limit now ("rate-limit:endpoint:" ++ endpoint) config.max config.window_ms s
  ]

  unfoldable pub check_api_key_rate_limit : ℕ → String → State → RateLimitStatus × State
  check_api_key_rate_limit now key s =
      let config = get_user_tier_rate_limit api_key in
      check_rate_limit now ("rate-limit:api-key:" ++ key) config.max config.window_ms s

  unfoldable pub check_scoped_rate_limit :
      ℕ → String → String → ℕ → ℕ → State → RateLimitStatus × State
  check_scoped_rate_limit now scope identifier max window_ms s =
      check_rate_limit now ("rate-limit:scope:" ++ scope ++ ":" ++ identifier) max window_ms s

  unfoldable pub check_user_ip_rate_limit : ℕ → String → String → State → RateLimitStatus × State
  check_user_ip_rate_limit now user_id ip s =
      check_rate_limit now ("rate-limit:user-ip:" ++ user_id ++ ":" ++ ip) 200 quarter s

  unfoldable pub reset_user_rate_limit : String → State → State
  reset_user_rate_limit user_id s = cache.del ("rate-limit:user:" ++ user_id) s

  -- `getUserRateLimitStats`: the statistics are those of one more check
  unfoldable pub get_user_rate_limit_stats : ℕ → String → State → RateLimitStatus × State
  get_user_rate_limit_stats now user_id s = check_user_rate_limit now user_id free s
