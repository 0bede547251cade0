-- ===== src/Fraud/Single.antt =====
-- src/fraud/fraud.service.ts: how many open alerts a subject has, and when its user is blocked.
use prop_chain_back_end.Base.{
  ℕ, suc, ◌+◌, ◌%◌, max, ◌≡◌, ◌≤◌, refl, ◌∙◌, ap, inl, inr, Option-cases, Bool, true, false, not,
  ◌&&◌, ◌||◌, List, [], ◌∷◌, Option, none, some, String, if◌then◌else◌, arith, ◌==◌, count, patch,
  sort_desc, count-sort_desc, count-filter,
}
use prop_chain_back_end.Table.Laws.{
  find_unique-update_self, count_where-create, count_where-update, count_where-congr,
}
use prop_chain_back_end.Auth.Rows.{User, Database, Store}
use prop_chain_back_end.Auth.Tokens.{find_user}
use prop_chain_back_end.Fraud.{
  AlertPayload, matches, is_open_alert, is_increase, detected_again, new_alert, blocked, marked,
  first_of, logs, owner_of, creation_entry, find_open_alert, block_user_for_fraud,
  deliver_notifications, block_if, is_of_system, update_alert, create_alert, create_or_update_alert,
}
use prop_chain_back_end.Fraud.Rows.{FraudAlert}

first_of-none : {A : Type 0} (p : A → Bool) (xs : List A) → first_of xs ≡ none → count p xs ≡ 0
first_of-none p [] e = refl
first_of-none p (x ∷ xs) e = ground (arith, e)

first_of-some : {A : Type 0} (xs : List A) (x : A) → first_of xs ≡ some x → 1 ≤ count (λ y. true) xs
first_of-some [] x e = ground (arith, e)
first_of-some (y ∷ ys) x e = omega arith

if_same :
    {A : Type 0} (p : A → Bool) (b : Bool) (x y : A) → p y ≡ p x → p (if b then y else x) ≡ p x
if_same p true x y e = e
if_same p false x y e = refl

matches_refl : (a : Option ℕ) → matches a a ≡ true
matches_refl none = refl
matches_refl (some x) = ground arith

is_open_alert-new :
    (now id : ℕ) (payload : AlertPayload) → is_open_alert payload (new_alert now id payload) ≡ true
is_open_alert-new now id payload = ground (
  arith,
  matches_refl payload.user_id,
  matches_refl payload.property_id,
  matches_refl payload.transaction_id,
  matches_refl payload.session_id,
)

module _ (db : Database) where
  abbrev pub open_alerts : AlertPayload → Store db → ℕ
  open_alerts payload s = db.alerts.count_where (is_open_alert payload) s.alerts

  find_open_alert-none :
      (payload : AlertPayload) (s : Store db)
      → find_open_alert db payload s ≡ none
      → open_alerts payload s ≡ 0
  unfolding find_open_alert
  find_open_alert-none payload s e =
      let p = is_open_alert payload in
      let rows = db.alerts.find_many p s.alerts in
      let at = λ (a : FraudAlert). a.last_detected_at in
      omega (
        arith,
        first_of-none (λ y. true) (sort_desc at rows) e,
        count-sort_desc (λ y. true) at rows,
        ap (λ l. count (λ y. true) l) (db.alerts.find_many_law p s.alerts),
        count-filter (λ y. true) p (db.alerts.contents s.alerts),
        db.alerts.count_where_law (λ a. p a && true) s.alerts,
        count_where-congr db.alerts (λ a. p a && true) p s.alerts (λ a. ground arith),
      )

  find_open_alert-some :
      (payload : AlertPayload) (s : Store db) (alert : FraudAlert)
      → find_open_alert db payload s ≡ some alert
      → 1 ≤ open_alerts payload s
  unfolding find_open_alert
  find_open_alert-some payload s alert e =
      let p = is_open_alert payload in
      let rows = db.alerts.find_many p s.alerts in
      let at = λ (a : FraudAlert). a.last_detected_at in
      omega (
        arith,
        first_of-some (sort_desc at rows) alert e,
        count-sort_desc (λ y. true) at rows,
        ap (λ l. count (λ y. true) l) (db.alerts.find_many_law p s.alerts),
        count-filter (λ y. true) p (db.alerts.contents s.alerts),
        db.alerts.count_where_law (λ a. p a && true) s.alerts,
        count_where-congr db.alerts (λ a. p a && true) p s.alerts (λ a. ground arith),
      )

  open_alerts-update :
      (payload : AlertPayload) (id : ℕ) (f : FraudAlert → FraudAlert) (t : db.alerts.Rows)
      → ((a : FraudAlert) → is_open_alert payload (f a) ≡ is_open_alert payload a)
      → db.alerts.count_where (is_open_alert payload) (db.alerts.update id f t)
        ≡ db.alerts.count_where (is_open_alert payload) t
  open_alerts-update payload id f t same =
      count_where-update db.alerts (is_open_alert payload) id f t
      ∙ count_where-congr db.alerts
          (λ a. is_open_alert payload (patch (λ (r : FraudAlert). r.id == id) f a))
          (is_open_alert payload) t
          (λ a. if_same (is_open_alert payload) (a.id == id) a (f a) (same a))

module _ (db : Database) (has_recipients : Bool) (is_system : ℕ → Bool) where
  open_alerts-block_if :
      (allowed : Bool) (payload key : AlertPayload) (alert_id : ℕ) (reason : String) (s : Store db)
      → open_alerts db key (block_if db has_recipients is_system allowed payload alert_id reason s)
        ≡ open_alerts db key s
  unfolding block_user_for_fraud
  open_alerts-block_if allowed payload key alert_id reason s = elim (Option-cases payload.user_id) [
    | inl nobody ↦ ground (arith, nobody)
    | inr (id, e) ↦
        ground (arith, e, open_alerts-update db key alert_id marked s.alerts (λ a. refl))
  ]

  open_alerts-update_alert :
      (now : ℕ) (payload : AlertPayload) (alert : FraudAlert) (s : Store db)
      → open_alerts db payload (update_alert db has_recipients is_system now payload alert s)
        ≡ open_alerts db payload s
  unfolding update_alert deliver_notifications
  open_alerts-update_alert now payload alert s =
      let updated = record s {
        alerts = db.alerts.update alert.id (detected_again now payload) s.alerts;
      } in
      let told =
        if is_increase payload alert || ((alert.occurrence_count + 1) % 5 == 0)
        then deliver_notifications db has_recipients payload alert.id none updated
        else updated in
      ground (
        arith,
        open_alerts-block_if
            (not alert.auto_blocked && not (is_of_system db has_recipients is_system alert)) payload
            payload alert.id "Automatically blocked after repeated fraud detections." told,
        open_alerts-update db payload alert.id (detected_again now payload) s.alerts (λ a. refl),
      )

  open_alerts-create_alert :
      (now id : ℕ) (payload : AlertPayload) (s : Store db)
      → open_alerts db payload (create_alert db has_recipients is_system now id payload s)
        ≡ suc (open_alerts db payload s)
  unfolding create_alert deliver_notifications
  open_alerts-create_alert now id payload s =
      let created = record s { alerts = db.alerts.create (new_alert now id payload) s.alerts } in
      let logged = logs db (creation_entry db has_recipients is_system payload.user_id) created in
      let told =
        deliver_notifications db has_recipients payload id
          (owner_of db has_recipients is_system payload s) logged in
      open_alerts-block_if true payload payload id
        "Automatically blocked by the fraud detection engine." told
      ∙ count_where-create db.alerts (is_open_alert payload) (new_alert now id payload) s.alerts
      ∙ ap (λ b. if b then suc (open_alerts db payload s) else open_alerts db payload s)
          (is_open_alert-new now id payload)

  -- A detection leaves its subject with as many open alerts of its pattern as before, or with one
  -- where there was none.
  pub create_or_update_alert_single :
      (now id : ℕ) (payload : AlertPayload) (s : Store db)
      → open_alerts db payload (create_or_update_alert db has_recipients is_system now id payload s)
        ≡ max 1 (open_alerts db payload s)
  unfolding create_or_update_alert
  create_or_update_alert_single now id payload s =
      elim (Option-cases (find_open_alert db payload s)) [
        | inl none_open ↦ ground (
          arith,
          none_open,
          find_open_alert-none db payload s none_open,
          open_alerts-create_alert now id payload s,
        )
        | inr (alert, found) ↦ ground (
          arith,
          found,
          find_open_alert-some db payload s alert found,
          open_alerts-update_alert now payload alert s,
        )
      ]

  -- An automatic block that comes with a new alert blocks the user, and changes nothing else of the
  -- user's row.
  pub create_or_update_alert_blocks :
      (now id user_id : ℕ) (payload : AlertPayload) (s : Store db) {user : User}
      → payload.user_id ≡ some user_id
      → payload.auto_block_user ≡ true
      → find_open_alert db payload s ≡ none
      → find_user db user_id s ≡ some user
      → find_user db user_id (create_or_update_alert db has_recipients is_system now id payload s)
        ≡ some (blocked user)
  unfolding create_or_update_alert create_alert deliver_notifications block_user_for_fraud
  create_or_update_alert_blocks now id user_id payload s of_user blocks fresh found =
      let stored = find_unique-update_self db.users user_id blocked s.users (λ r. refl) found in
      ground (arith, of_user, blocks, fresh, found, stored)
