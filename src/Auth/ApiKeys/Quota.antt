-- ===== src/Auth/ApiKeys/Quota.antt =====
-- src/auth/auth.service.ts: the monthly quota of an API key, over any number of requests with it.
use prop_chain_back_end.Base.{
  ℕ, suc, ◌+◌, ◌≡◌, ◌≤◌, ◌<◌, max, refl, inl, inr, ◌⊎◌, Option-cases, Bool-cases, Bool, true, false,
  ◌&&◌, ◌||◌, List, [], ◌∷◌, some, String, if◌then◌else◌, is_some, arith, Result, ok, err, map,
  filter, find, patch, All, ◌==◌, leb, str_eq,
}
use prop_chain_back_end.Table.First.{find_first-update}
use prop_chain_back_end.Table.Laws.{find_unique-update_self}
use prop_chain_back_end.Auth.Rows.{User, ApiKey, ApiKeyUsageDaily, Database, Store}
use prop_chain_back_end.Auth.Interfaces.{Crypto}
use prop_chain_back_end.Auth.Tokens.{find_user}
use prop_chain_back_end.Auth.ApiKeys.{
  total, is_expired, used_key, update_key, counted, get_monthly_usage, check_quota, record_usage,
  find_by_value, validate_api_key,
}

abbrev pub is_ok : {A : Type 0} → Result A → Bool
is_ok (ok a) = true
is_ok (err e) = false

module _ (db : Database) (crypto : Crypto) where
  -- Counting a request on some of the rows makes the total no smaller,
  total-counted :
      (p q : ApiKeyUsageDaily → Bool) (xs : List ApiKeyUsageDaily)
      → ((r : ApiKeyUsageDaily) → p (counted db crypto r) ≡ p r)
      → total (filter p xs) ≤ total (filter p (map (patch q (counted db crypto)) xs))
  total-counted p q [] h = omega arith
  total-counted p q (x ∷ xs) h = ground (arith, h x, total-counted p q xs h)

  -- and greater where a row that is counted is among the added ones.
  total-counted_found :
      (p p' q : ApiKeyUsageDaily → Bool) (xs : List ApiKeyUsageDaily) {row : ApiKeyUsageDaily}
      → ((r : ApiKeyUsageDaily) → p (counted db crypto r) ≡ p r)
      → ((r : ApiKeyUsageDaily) → p' r ≡ true → p r ≡ true)
      → find p' xs ≡ some row
      → q row ≡ true
      → suc (total (filter p xs)) ≤ total (filter p (map (patch q (counted db crypto)) xs))
  total-counted_found p p' q [] h sub found hit = ground (arith, found)
  total-counted_found p p' q (x ∷ xs) h sub found hit = elim (Bool-cases (p' x)) [
    | inl here ↦ ground (arith, here, found, hit, h x, sub x here, total-counted p q xs h)
    | inr later ↦
        let rest = total-counted_found p p' q xs h sub (ground (arith, later, found)) hit in
        ground (arith, h x, rest)
  ]

  -- A request that is recorded counts in the month, where its day is one of it.
  pub record_usage-get_monthly_usage :
      (start today usage_id id : ℕ) (s : Store db)
      → start ≤ today
      → suc (get_monthly_usage db crypto start id s)
        ≤ get_monthly_usage db crypto start id (record_usage db crypto today usage_id id s)
  unfolding get_monthly_usage record_usage
  record_usage-get_monthly_usage start today usage_id id s in_month =
      let in_it : (ApiKeyUsageDaily → Bool) = λ u. (u.api_key_id == id) && leb start u.date in
      let today_of : (ApiKeyUsageDaily → Bool) = λ u. (u.api_key_id == id) && (u.date == today) in
      let rows = db.usage.contents s.usage in
      let before = db.usage.find_many_law in_it s.usage in
      elim (Option-cases (db.usage.find_first today_of s.usage)) [
        | inl missing ↦
            let row : ApiKeyUsageDaily = record {
              id = usage_id;
              api_key_id = id;
              date = today;
              request_count = 1;
            } in
            ground (
              arith,
              missing,
              in_month,
              before,
              db.usage.find_many_law in_it (db.usage.create row s.usage),
              db.usage.create_law row s.usage,
            )
        | inr (row, found) ↦
            let hit : (ApiKeyUsageDaily → Bool) = λ r. r.id == row.id in
            let grown =
              total-counted_found in_it today_of hit rows {row = row} (λ r. refl)
                (λ r e. ground (arith, e))
                (ground (arith, found, db.usage.find_first_law today_of s.usage)) (ground arith) in
            ground (
              arith,
              found,
              before,
              grown,
              db.usage.find_many_law in_it (db.usage.update row.id (counted db crypto) s.usage),
              db.usage.update_law row.id (counted db crypto) s.usage,
            )
      ]

-- A request with the key: its time, its day, and the id of a new row of the usage.
pub record Request : Type 0 where
  pub now : ℕ
  pub today : ℕ
  pub usage_id : ℕ

module _ (db : Database) (crypto : Crypto) (value : String) (start : ℕ) where
  abbrev pub call : Request → Store db → Result (ApiKey × User) × Store db
  call r s = validate_api_key db crypto r.now r.today start r.usage_id value s

  -- The requests one after the other; the answer is how many are accepted.
  unfoldable pub run_requests : List Request → Store db → ℕ × Store db
  run_requests [] s = (0, s)
  run_requests (r ∷ rs) s =
      let (answer, s') = call r s in
      let (accepted, s'') = run_requests rs s' in
      (if is_ok answer then suc accepted else accepted, s'')

  abbrev pub usage : ℕ → Store db → ℕ
  usage id s = get_monthly_usage db crypto start id s

  -- The value finds the key, as its id does, and the key has the quota.
  abbrev pub HasQuota : ApiKey → ℕ → Store db → Type 0
  HasQuota key quota s =
      (find_by_value db crypto value s ≡ some key)
      × (db.api_keys.find_unique key.id s.api_keys ≡ some key)
      × (key.monthly_quota ≡ some quota)

  abbrev accepted_state : Request → ApiKey → Store db → Store db
  accepted_state r key s =
      record_usage db crypto r.today r.usage_id key.id
        (update_key db crypto key.id (used_key r.now) s)

  -- A request is refused and changes nothing, or it is accepted below the quota and recorded.
  call-cases :
      (r : Request) (s : Store db) (key : ApiKey) (quota : ℕ)
      → 0 < quota
      → HasQuota key quota s
      → ((is_ok (call r s).0 ≡ false) × ((call r s).1 ≡ s))
        ⊎ ((is_ok (call r s).0 ≡ true)
            × (usage key.id s < quota)
            × ((call r s).1 ≡ accepted_state r key s))
  unfolding validate_api_key check_quota
  call-cases r s key quota positive (found, by_id, limit) =
      elim (Option-cases (find_user db key.user_id s)) [
        | inl missing ↦ inl (ground (arith, found, missing), ground (arith, found, missing))
        | inr (user, owner) ↦
            elim (Bool-cases (is_some key.revoked_at || is_expired r.now key || user.is_blocked)) [
              | inl barred ↦
                  inl (ground (arith, found, owner, barred), ground (arith, found, owner, barred))
              | inr free ↦ elim (Bool-cases (leb quota (usage key.id s))) [
                | inl full ↦ inl (
                  ground (arith, found, owner, free, by_id, limit, positive, full),
                  ground (arith, found, owner, free, by_id, limit, positive, full),
                )
                | inr below ↦ inr (
                  ground (arith, found, owner, free, by_id, limit, positive, below),
                  ground (arith, below),
                  ground (arith, found, owner, free, by_id, limit, positive, below),
                )
              ]
            ]
      ]

  accepted-HasQuota :
      (r : Request) (s : Store db) (key : ApiKey) (quota : ℕ)
      → HasQuota key quota s
      → HasQuota (used_key r.now key) quota (accepted_state r key s)
  unfolding record_usage
  accepted-HasQuota r s key quota (found, by_id, limit) = (
    ground (
      arith,
      found,
      find_first-update db.api_keys (λ k. str_eq k.key_hash (crypto.sha256 value)) key.id
          (used_key r.now) s.api_keys (λ k. refl),
    ),
    find_unique-update_self db.api_keys key.id (used_key r.now) s.api_keys (λ k. refl) by_id,
    limit,
  )

  accepted-usage :
      (r : Request) (s : Store db) (key : ApiKey)
      → start ≤ r.today
      → suc (usage key.id s) ≤ usage key.id (accepted_state r key s)
  unfolding get_monthly_usage
  accepted-usage r s key in_month =
      record_usage-get_monthly_usage db crypto start r.today r.usage_id key.id
        (update_key db crypto key.id (used_key r.now) s) in_month

  -- A key with a quota is good for no more requests in a month than the quota, and those of the
  -- month that were made before count: over any requests with it, on days of the month, the
  -- accepted ones and the earlier ones together are at most the quota, or the earlier ones where
  -- these are more already, and each accepted one is counted: the usage of the month grows by at
  -- least as many.
  pub run_requests-quota :
      (rs : List Request) (key : ApiKey) (quota : ℕ) (s : Store db)
      → 0 < quota
      → HasQuota key quota s
      → All (λ r. start ≤ r.today) rs
      → let (accepted, s') = run_requests rs s in
        (accepted + usage key.id s ≤ max quota (usage key.id s))
        × (accepted + usage key.id s ≤ usage key.id s')
  unfolding run_requests
  run_requests-quota [] key quota s positive has in_month = (omega arith, omega arith)
  run_requests-quota (r ∷ rs) key quota s positive has (today, others) =
      elim (call-cases r s key quota positive has) [
        | inl (refused, same) ↦
            let (bound, counts) = run_requests-quota rs key quota s positive has others in
            (ground (arith, refused, same, bound), ground (arith, refused, same, counts))
        | inr (accepted, below, next) ↦
            let s' = accepted_state r key s in
            let grown = accepted-usage r s key today in
            let (bound, counts) =
              run_requests-quota rs (used_key r.now key) quota s' positive
                (accepted-HasQuota r s key quota has) others in
            (
              ground (arith, accepted, below, next, grown, bound),
              ground (arith, accepted, next, grown, counts),
            )
      ]
