-- ===== src/Auth/ApiKeys.antt =====
-- src/auth/auth.service.ts and src/auth/api-key-analytics.service.ts: API keys, their quota and their
-- use. `getMonthlyUsage` and `recordUsage` take the start of the month and of the day as arguments.
pub mod Permissions
pub mod Quota
pub mod Validity
use prop_chain_back_end.Base.{
  ℕ, ◌+◌, Bool, true, false, not, ◌&&◌, ◌||◌, List, [], ◌∷◌, map, Option, none, some, String,
  if◌then◌else◌, is_some, Action, unauthorized, not_found, too_many_requests, pure, gets, or_throw,
  throw_if, modify, ◌>>=◌, ◌>>◌, ◌==◌, ltb, leb, str_eq, filter,
}
use prop_chain_back_end.Auth.Rows.{User, ApiKey, ApiKeyUsageDaily, Database, Store}
use prop_chain_back_end.Auth.Interfaces.{Crypto}
use prop_chain_back_end.Auth.Tokens.{find_user}

-- `new Set(…)`: the first of equal texts is kept
abbrev pub dedupe : List String → List String
dedupe [] = []
dedupe (x ∷ xs) = x ∷ filter (λ y. not (str_eq y x)) (dedupe xs)

unfoldable pub normalize_permissions : (String → String) → List String → List String
normalize_permissions trim permissions =
    dedupe (filter (λ p. not (str_eq p "")) (map trim permissions))

pub record CreateApiKeyDto : Type 0 where
  pub name : String
  pub permissions : List String
  pub monthly_quota : Option ℕ
  pub expires_at : Option ℕ

abbrev pub total : List ApiKeyUsageDaily → ℕ
total [] = 0
total (r ∷ rs) = r.request_count + total rs

-- a quota that is missing or 0 is none
abbrev pub quota_of : ApiKey → Option ℕ
quota_of key = elim key.monthly_quota [
  | none ↦ none
  | some quota ↦ if quota == 0 then none else some quota
]

-- `apiKey.expiresAt && apiKey.expiresAt < new Date()`
abbrev pub is_expired : ℕ → ApiKey → Bool
is_expired now key = elim key.expires_at [ none ↦ false | some t ↦ ltb t now ]

abbrev pub revoked_key : ℕ → ApiKey → ApiKey
revoked_key now key = record key { revoked_at = some now }

abbrev pub used_key : ℕ → ApiKey → ApiKey
used_key now key = record key { last_used_at = some now; usage_count = key.usage_count + 1 }

module _ (db : Database) (crypto : Crypto) where
  abbrev pub new_key : ℕ → ℕ → CreateApiKeyDto → String → ApiKey
  new_key id user_id dto value = record {
    id = id;
    user_id = user_id;
    name = dto.name;
    key_hash = crypto.sha256 value;
    permissions = normalize_permissions crypto.trim dto.permissions;
    usage_count = 0;
    monthly_quota = dto.monthly_quota;
    last_used_at = none;
    expires_at = dto.expires_at;
    revoked_at = none;
  }

  -- `value` is the random text of `generateApiKeyValue`
  unfoldable pub create_api_key : ℕ → ℕ → CreateApiKeyDto → String → Action (Store db) ApiKey
  create_api_key id user_id dto value = do
    modify
        (λ s. record s { api_keys = db.api_keys.create (new_key id user_id dto value) s.api_keys })
    pure (new_key id user_id dto value)

  abbrev pub find_key : ℕ → ℕ → Store db → Option ApiKey
  find_key id user_id s =
      db.api_keys.find_first (λ k. (k.id == id) && (k.user_id == user_id)) s.api_keys

  abbrev pub update_key : ℕ → (ApiKey → ApiKey) → Store db → Store db
  update_key id f s = record s { api_keys = db.api_keys.update id f s.api_keys }

  -- what `rotateApiKey` gives `createApiKey`
  abbrev pub rotated_dto : ApiKey → CreateApiKeyDto
  rotated_dto key = record {
    name = key.name;
    permissions = key.permissions;
    monthly_quota = none;
    expires_at = key.expires_at;
  }

  unfoldable pub rotate_api_key : ℕ → ℕ → ℕ → ℕ → String → Action (Store db) ApiKey
  rotate_api_key now new_id user_id id value = do
    found ← gets (find_key id user_id)
    key ← or_throw found (not_found "API key not found")
    modify (update_key key.id (revoked_key now))
    create_api_key new_id user_id (rotated_dto key) value

  unfoldable pub revoke_api_key : ℕ → ℕ → ℕ → Action (Store db) (Unit {0})
  revoke_api_key now user_id id = do
    found ← gets (find_key id user_id)
    key ← or_throw found (not_found "API key not found")
    modify (update_key key.id (revoked_key now))

  abbrev pub permitted : List String → ApiKey → ApiKey
  permitted permissions key = record key {
    permissions = normalize_permissions crypto.trim permissions;
  }

  unfoldable pub update_api_key_permissions : ℕ → ℕ → List String → Action (Store db) ApiKey
  update_api_key_permissions user_id id permissions = do
    found ← gets (find_key id user_id)
    key ← or_throw found (not_found "API key not found")
    modify (update_key key.id (permitted permissions))
    pure (permitted permissions key)

  unfoldable pub get_api_key_usage : ℕ → ℕ → Action (Store db) ApiKey
  get_api_key_usage user_id id = do
    found ← gets (find_key id user_id)
    or_throw found (not_found "API key not found")

  unfoldable pub get_monthly_usage : ℕ → ℕ → Store db → ℕ
  get_monthly_usage start_of_month id s =
      total (db.usage.find_many (λ u. (u.api_key_id == id) && leb start_of_month u.date) s.usage)

  abbrev pub exceeds_quota : ℕ → ℕ → ApiKey → Store db → Bool
  exceeds_quota start_of_month id key s = elim (quota_of key) [
    | none ↦ false
    | some quota ↦ leb quota (get_monthly_usage start_of_month id s)
  ]

  unfoldable pub check_quota : ℕ → ℕ → Action (Store db) (Unit {0})
  check_quota start_of_month id = do
    exceeded ← gets (λ s. elim (db.api_keys.find_unique id s.api_keys) [
      | none ↦ false
      | some key ↦ exceeds_quota start_of_month id key s
    ])
    throw_if exceeded (too_many_requests "Monthly API key quota exceeded")

  abbrev pub counted : ApiKeyUsageDaily → ApiKeyUsageDaily
  counted usage = record usage { request_count = usage.request_count + 1 }

  -- the upsert; the warnings of `recordUsage` are logged only
  unfoldable pub record_usage : ℕ → ℕ → ℕ → Store db → Store db
  record_usage today usage_id id s = record s {
    usage = elim (db.usage.find_first (λ u. (u.api_key_id == id) && (u.date == today)) s.usage) [
      | some found ↦ db.usage.update found.id counted s.usage
      | none ↦
          db.usage.create
            (record { id = usage_id; api_key_id = id; date = today; request_count = 1 }) s.usage
    ];
  }

  abbrev pub find_by_value : String → Store db → Option ApiKey
  find_by_value value s =
      db.api_keys.find_first (λ k. str_eq k.key_hash (crypto.sha256 value)) s.api_keys

  -- the foreign key gives every key a user; a key without one is answered as one that is missing
  unfoldable pub validate_api_key : ℕ → ℕ → ℕ → ℕ → String → Action (Store db) (ApiKey × User)
  validate_api_key now today start_of_month usage_id value = do
    found ← gets (find_by_value value)
    key ← or_throw found (unauthorized "Invalid API key")
    throw_if (is_some key.revoked_at || is_expired now key) (unauthorized "Invalid API key")
    owner ← gets (find_user db key.user_id)
    user ← or_throw owner (unauthorized "Invalid API key")
    throw_if user.is_blocked (unauthorized "User account is blocked")
    check_quota start_of_month key.id
    modify (update_key key.id (used_key now))
    modify (record_usage today usage_id key.id)
    pure (key, user)
