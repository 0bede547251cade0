-- ===== src/Auth/Login/Preflight.antt =====
-- src/auth/auth.service.ts: the CAPTCHA that a login asks for once enough attempts have failed.
use prop_chain_back_end.Base.{
  ℕ, ◌≡◌, ◌≢◌, ◌<◌, ◌≤◌, inl, inr, ◌⊎◌, leb, eq_iff, Option-cases, Bool-cases, true, Option, none,
  some, String, arith, ok,
}
use prop_chain_back_end.Auth.Rows.{Database, Store}
use prop_chain_back_end.Auth.Interfaces.{Crypto, Config, FraudHooks}
use prop_chain_back_end.Auth.Login.{
  LoginDto, LoginIds, Captcha, RecaptchaVerifyResponse, accepts, failures, check_captcha,
  verify_captcha, preflight_checks,
}

module _ (db : Database) (crypto : Crypto) (config : Config) (fraud : FraudHooks db) where
  -- A CAPTCHA was solved: the service answers success, with a score of a half or more where it gives
  -- one; or the configuration bypasses the service.
  abbrev pub IsSolved : Captcha → Type 0
  IsSolved captcha =
      (captcha.bypass ≡ true)
      ⊎ ((response : RecaptchaVerifyResponse) × (captcha.has_secret ≡ true)
          × (captcha.response ≡ some response)
          × (response.success ≡ true)
          × ((response.score ≡ none)
              ⊎ ((score : ℕ) × (response.score ≡ some score) × (50 ≤ score))))

  -- The failed attempts for the email are fewer than ask for a CAPTCHA, or one was given and solved.
  abbrev pub PassedCaptcha : ℕ → LoginDto → Captcha → Store db → Type 0
  PassedCaptcha now dto captcha s =
      (failures db crypto config fraud now dto.email s < config.captcha_threshold)
      ⊎ ((token : String) × (dto.captcha_token ≡ some token) × (token ≢ "") × IsSolved captcha)

  accepts-IsSolved :
      (captcha : Captcha) (response : RecaptchaVerifyResponse)
      → captcha.has_secret ≡ true
      → captcha.response ≡ some response
      → accepts response ≡ true
      → IsSolved captcha
  accepts-IsSolved captcha response has answered human = elim (Option-cases response.score) [
    | inl e ↦ inr (response, has, answered, ground (arith, e, human), inl e)
    | inr (score, e) ↦ inr (
      response,
      has,
      answered,
      ground (arith, e, human),
      inr (score, e, ground (arith, e, human)),
    )
  ]

  check_captcha-IsSolved :
      (now : ℕ) (ids : LoginIds) (dto : LoginDto) (captcha : Captcha) (ip : Option String)
      (s : Store db)
      → (check_captcha db crypto config fraud now ids dto captcha ip s).0 ≡ ok tt
      → IsSolved captcha
  unfolding verify_captcha
  check_captcha-IsSolved now ids dto captcha ip s done = elim (Bool-cases captcha.bypass) [
    | inl bypassed ↦ inl bypassed
    | inr asked ↦ elim (Option-cases captcha.response) [
      | inl silent ↦ ground (arith, silent, asked, done)
      | inr (response, answered) ↦
          accepts-IsSolved captcha response (ground (arith, answered, asked, done)) answered
            (ground (arith, answered, asked, done))
    ]
  ]

  -- Checks that pass had their CAPTCHA, where they asked for one.
  pub preflight_checks-PassedCaptcha :
      (now : ℕ) (ids : LoginIds) (dto : LoginDto) (captcha : Captcha) (ip : Option String)
      (s : Store db)
      → (preflight_checks db crypto config fraud now ids dto captcha ip s).0 ≡ ok tt
      → PassedCaptcha now dto captcha s
  unfolding preflight_checks
  preflight_checks-PassedCaptcha now ids dto captcha ip s done =
      elim (Bool-cases
        (leb config.captcha_threshold (failures db crypto config fraud now dto.email s))) [
          | inr few ↦ inl (ground (arith, few))
          | inl many ↦
              let solved =
                check_captcha-IsSolved now ids dto captcha ip s (ground (arith, many, done)) in
              elim (Option-cases dto.captcha_token) [
                | inl missing ↦ ground (arith, many, missing, done)
                | inr (token, given) ↦ inr (
                  token,
                  given,
                  λ e. ground (arith, many, given, done, (eq_iff token "").1 e),
                  solved,
                )
              ]
        ]
