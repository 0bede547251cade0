-- ===== src/Auth/ApiKeys/Validity.antt =====
-- src/auth/auth.service.ts: which API keys are accepted, and what rotating one does.
use prop_chain_back_end.Base.{
  ℕ, ◌≡◌, ◌≢◌, refl, inl, inr, Option-cases, Bool-cases, Bool, false, none, some, String, arith, ok,
  err, unauthorized, str_eq, eq_iff,
}
use prop_chain_back_end.Table.First.{find_first-create, find_first-update}
use prop_chain_back_end.Auth.Rows.{User, ApiKey, Database, Store}
use prop_chain_back_end.Auth.Interfaces.{Crypto}
use prop_chain_back_end.Auth.Tokens.{find_user}
use prop_chain_back_end.Auth.ApiKeys.{
  quota_of, is_expired, revoked_key, new_key, create_api_key, find_key, rotated_dto, rotate_api_key,
  check_quota, find_by_value, validate_api_key,
}

module _ (db : Database) (crypto : Crypto) where
  abbrev pub has_value : String → ApiKey → Bool
  has_value value key = str_eq key.key_hash (crypto.sha256 value)

  -- A key that is accepted is not revoked, has not expired, and belongs to a user who is not
  -- blocked.
  pub validate_api_key_ok :
      (now today start usage_id : ℕ) (value : String) (s : Store db) {key : ApiKey} {user : User}
      → (validate_api_key db crypto now today start usage_id value s).0 ≡ ok (key, user)
      → (find_by_value db crypto value s ≡ some key)
        × (key.revoked_at ≡ none)
        × (is_expired now key ≡ false)
        × (find_user db key.user_id s ≡ some user)
        × (user.is_blocked ≡ false)
  unfolding validate_api_key check_quota
  validate_api_key_ok now today start usage_id value s {key} {user} done =
      elim (Option-cases (find_by_value db crypto value s)) [
        | inl missing ↦ ground (arith, missing, done)
        | inr (k, found) ↦ elim (Option-cases (find_user db k.user_id s)) [
          | inl missing ↦ ground (arith, found, missing, done)
          | inr (u, owner) ↦ (
            ground (arith, found, owner, done),
            ground (arith, found, owner, done),
            ground (arith, found, owner, done),
            ground (arith, found, owner, done),
            ground (arith, found, owner, done),
          )
        ]
      ]

  -- A rotated key is refused by a request that follows, at whatever time, and the key that takes
  -- its place is found by its value, where the two values have different hashes.
  pub rotate_api_key_lem :
      (now later today start usage_id new_id id user_id : ℕ) (old value : String) (s : Store db)
      {key : ApiKey}
      → find_key db crypto id user_id s ≡ some key
      → find_by_value db crypto old s ≡ some key
      → crypto.sha256 value ≢ crypto.sha256 old
      → let (answer, s') = rotate_api_key db crypto now new_id user_id id value s in
        ((validate_api_key db crypto later today start usage_id old s').0
          ≡ err (unauthorized "Invalid API key"))
        × (find_by_value db crypto value s'
            ≡ some (new_key db crypto new_id user_id (rotated_dto db crypto key) value))
  unfolding rotate_api_key create_api_key validate_api_key
  rotate_api_key_lem now later today start usage_id new_id id user_id old value s {key} found
        by_value differs =
      let made = new_key db crypto new_id user_id (rotated_dto db crypto key) value in
      let rest = db.api_keys.update key.id (revoked_key now) s.api_keys in
      let revoked =
        find_first-update db.api_keys (has_value old) key.id (revoked_key now) s.api_keys
          (λ r. refl) in
      elim (Bool-cases (has_value old made)) [
        | inl same ↦ elim (differs ((eq_iff made.key_hash (crypto.sha256 old)).0 same)) [ ]
        | inr other ↦ (
          ground (
            arith,
            found,
            by_value,
            other,
            revoked,
            find_first-create db.api_keys (has_value old) made rest,
          ),
          ground (
            arith,
            found,
            (eq_iff made.key_hash made.key_hash).1 refl,
            find_first-create db.api_keys (has_value value) made rest,
          ),
        )
      ]

  -- The key that rotation makes has no quota, whatever the quota of the one it replaces.
  pub rotate_api_key_quota :
      (now new_id id user_id : ℕ) (value : String) (s : Store db) {key : ApiKey}
      → (rotate_api_key db crypto now new_id user_id id value s).0 ≡ ok key
      → quota_of key ≡ none
  unfolding rotate_api_key create_api_key
  rotate_api_key_quota now new_id id user_id value s {key} done =
      elim (Option-cases (find_key db crypto id user_id s)) [
        | inl missing ↦ ground (arith, missing, done)
        | inr (k, found) ↦ ground (arith, found, done)
      ]
