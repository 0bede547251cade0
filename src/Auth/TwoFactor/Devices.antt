-- ===== src/Auth/TwoFactor/Devices.antt =====
-- src/auth/two-factor.service.ts: when a device may skip the second factor.
use prop_chain_back_end.Base.{
  ℕ, ◌+◌, ◌≡◌, refl, inl, inr, Option-cases, true, false, ◌&&◌, Option, some, String, if◌then◌else◌,
  or_else, arith, ok, ◌==◌, ltb, str_eq, eq_iff,
}
use prop_chain_back_end.Table.First.{find_first-create, find_first-update_many}
use prop_chain_back_end.Auth.Rows.{User, TrustedDevice, Database, Store}
use prop_chain_back_end.Auth.Interfaces.{Crypto}
use prop_chain_back_end.Auth.Tokens.{find_user}
use prop_chain_back_end.Auth.TwoFactor.{
  normalized, is_of, revoked_device, find_device, is_trusted_device, trusted_device,
  remember_device, revoke_all_devices, disable_two_factor,
}

module _ (db : Database) (crypto : Crypto) where
  -- A device that is remembered is trusted until its time to live has passed, and by no other user:
  -- where its token is not blank and carries no space around it.
  pub remember_device-is_trusted_device :
      (ttl_ms now later id owner user_id : ℕ) (token : String) (user_agent ip : Option String)
      (s : Store db)
      → normalized crypto (some token) ≡ some token
      → let s' = remember_device db crypto ttl_ms now id owner token user_agent ip s in
        (is_trusted_device db crypto later user_id (some token) s').0
        ≡ ((owner == user_id) && ltb later (now + ttl_ms))
  unfolding remember_device is_trusted_device
  remember_device-is_trusted_device ttl_ms now later id owner user_id token user_agent ip s kept =
      let row = trusted_device db crypto ttl_ms now id owner token user_agent ip in
      ground (
        arith,
        kept,
        (eq_iff (crypto.sha256 token) (crypto.sha256 token)).1 refl,
        find_first-create db.trusted_devices
            (λ (d : TrustedDevice). str_eq d.token_hash (crypto.sha256 token)) row
            s.trusted_devices,
      )

  -- After revokeAllDevices no token is trusted for the user at any time, and the tokens of other
  -- users are trusted as before.
  pub revoke_all_devices-is_trusted_device :
      (now later user_id other : ℕ) (token : Option String) (s : Store db)
      → let s' = revoke_all_devices db crypto now user_id s in
        (is_trusted_device db crypto later other token s').0
        ≡ (if user_id == other then false else (is_trusted_device db crypto later other token s).0)
  unfolding revoke_all_devices is_trusted_device
  revoke_all_devices-is_trusted_device now later user_id other token s =
      elim (Option-cases (normalized crypto token)) [
        | inl blank ↦ ground (arith, blank)
        | inr (text, e) ↦
            let first =
              find_first-update_many db.trusted_devices
                (λ (d : TrustedDevice). str_eq d.token_hash (crypto.sha256 text)) (is_of user_id)
                (revoked_device now) s.trusted_devices (λ r. refl) in
            elim (Option-cases (find_device db crypto (crypto.sha256 text) s)) [
              | inl missing ↦ ground (arith, e, first, missing)
              | inr (device, found) ↦ ground (arith, e, first, found)
            ]
      ]

  -- Where disableTwoFactor succeeds, no token is trusted for the user afterwards, and the password
  -- was the user's.
  pub disable_two_factor-is_trusted_device :
      (now later user_id : ℕ) (password : String) (token : Option String) (s : Store db)
      {user : User}
      → find_user db user_id s ≡ some user
      → user.id ≡ user_id
      → (disable_two_factor db crypto now user_id password s).0 ≡ ok tt
      → (crypto.compare_password password (or_else user.password "") ≡ true)
        × ((is_trusted_device db crypto later user_id token
              (disable_two_factor db crypto now user_id password s).1).0
            ≡ false)
  unfolding disable_two_factor revoke_all_devices is_trusted_device
  disable_two_factor-is_trusted_device now later user_id password token s {user} found same done =
      let none_left = revoke_all_devices-is_trusted_device now later user.id user_id token s in
      (ground (arith, found, done), ground (arith, found, done, same, none_left))
