-- ===== src/Webhooks/Endpoints.antt =====
-- src/webhooks/webhooks.service.ts: who may change a webhook, and the URLs that are stored.
use prop_chain_back_end.Base.{
  ℕ, ◌≡◌, inl, inr, Option-cases, Result-cases, Bool, true, false, not, ◌&&◌, Option, none, some,
  String, Result, ok, err, not_found, arith, ◌==◌, patch,
}
use prop_chain_back_end.Table.Laws.{
  count_where-update, count_where-create, count_where-delete_many, count_where_mono,
  count_where-zero, count_where-congr,
}
use prop_chain_back_end.Webhooks.{
  Webhook, DeliveryLog, Database, Store, CreateWebhookDto, UpdateWebhookDto, Response, new_webhook,
  given, updated_row, find_one, create, update, rotate_secret, remove, replay, verify_challenge,
}

module _ (db : Database) (validate_webhook_url : String → Result (Unit {0})) (has_queue : Bool)
    (trigger_max : ℕ) where
  open db use {webhooks, deliveries}

  -- A webhook that is not found under the user is neither updated, rotated, removed, replayed nor
  -- verified: each call answers not found and changes nothing.
  pub find_one_owner :
      (respond : Webhook → DeliveryLog → Response) (now id user_id delivery_id : ℕ)
      (dto : UpdateWebhookDto) (secret challenge : String) (answer : Option String) (s : Store db)
      → webhooks.find_first (λ w. (w.id == id) && (w.user_id == user_id)) s.webhooks ≡ none
      → (update db validate_webhook_url has_queue trigger_max id user_id dto s
          ≡ (err (not_found "Webhook not found"), s))
        × (rotate_secret db validate_webhook_url has_queue trigger_max id user_id secret s
            ≡ (err (not_found "Webhook not found"), s))
        × (remove db validate_webhook_url has_queue trigger_max id user_id s
            ≡ (err (not_found "Webhook not found"), s))
        × (replay db validate_webhook_url has_queue trigger_max respond now id user_id delivery_id s
            ≡ (err (not_found "Webhook not found"), s))
        × (verify_challenge db validate_webhook_url has_queue trigger_max id user_id challenge
              answer s
            ≡ (err (not_found "Webhook not found"), s))
  unfolding update rotate_secret remove replay verify_challenge find_one
  find_one_owner respond now id user_id delivery_id dto secret challenge answer s missing =
      (ground arith, ground arith, ground arith, ground arith, ground arith)

  -- An URL that the check refuses.
  abbrev pub is_refused : String → Bool
  is_refused url = elim (validate_webhook_url url) [ ok _ ↦ false | err _ ↦ true ]

  unfoldable pub AllPermitted : Store db → Type 0
  AllPermitted s = webhooks.count_where (λ w. is_refused w.url) s.webhooks ≡ 0

  create-AllPermitted :
      (user_id : ℕ) (secret : String) (dto : CreateWebhookDto) (s : Store db)
      → AllPermitted s
      → AllPermitted (create db validate_webhook_url has_queue trigger_max user_id secret dto s).1
  unfolding create AllPermitted
  create-AllPermitted user_id secret dto s h = elim (Result-cases (validate_webhook_url dto.url)) [
    | inr (e, refusal) ↦ ground arith
    | inl (u, permitted) ↦ ground (
      arith,
      count_where-create webhooks (λ w. is_refused w.url) (new_webhook s.next_id user_id secret dto)
          s.webhooks,
    )
  ]

  updated_row-AllPermitted :
      (id : ℕ) (change : UpdateWebhookDto) (s : Store db)
      → ((w : Webhook) → is_refused (updated_row change w).url ≡ true → is_refused w.url ≡ true)
      → AllPermitted s
      → AllPermitted (record s { webhooks = webhooks.update id (updated_row change) s.webhooks })
  unfolding AllPermitted
  updated_row-AllPermitted id change s weaker h = omega (
    arith,
    h,
    count_where-update webhooks (λ w. is_refused w.url) id (updated_row change) s.webhooks,
    count_where_mono webhooks (λ w. is_refused (patch (λ r. r.id == id) (updated_row change) w).url)
        (λ w. is_refused w.url) s.webhooks (λ w e. ground (arith, weaker w)),
  )

  update-AllPermitted :
      (id user_id : ℕ) (change : UpdateWebhookDto) (s : Store db)
      → AllPermitted s
      → AllPermitted (update db validate_webhook_url has_queue trigger_max id user_id change s).1
  unfolding update find_one
  update-AllPermitted id user_id change s h = elim (Option-cases (given change.url)) [
    | inl none_given ↦ ground (arith, updated_row-AllPermitted id change s (λ w e. ground arith) h)
    | inr (url, url_given) ↦ elim (Result-cases (validate_webhook_url url)) [
      | inr (e, refusal) ↦ ground arith
      | inl (u, permitted) ↦
          ground (arith, updated_row-AllPermitted id change s (λ w e. ground arith) h)
    ]
  ]

  -- Where the check refuses no stored URL, it refuses none after the creation of a webhook and
  -- none after the update of one, whatever URL these are given.
  pub create_update-AllPermitted :
      (user_id id : ℕ) (secret : String) (dto : CreateWebhookDto) (change : UpdateWebhookDto)
      (s : Store db)
      → AllPermitted s
      → AllPermitted (create db validate_webhook_url has_queue trigger_max user_id secret dto s).1
        × AllPermitted (update db validate_webhook_url has_queue trigger_max id user_id change s).1
  create_update-AllPermitted user_id id secret dto change s h =
      (create-AllPermitted user_id secret dto s h, update-AllPermitted id user_id change s h)

  -- Removing a webhook of its user removes its deliveries with it, and no other webhook.
  pub remove_lem :
      (id user_id : ℕ) (s : Store db) {w : Webhook}
      → webhooks.find_first (λ w. (w.id == id) && (w.user_id == user_id)) s.webhooks ≡ some w
      → let s' = (remove db validate_webhook_url has_queue trigger_max id user_id s).1 in
        (webhooks.count_where (λ r. r.id == id) s'.webhooks ≡ 0)
        × (deliveries.count_where (λ d. d.webhook_id == id) s'.deliveries ≡ 0)
        × (webhooks.count_where (λ r. not (r.id == id)) s'.webhooks
            ≡ webhooks.count_where (λ r. not (r.id == id)) s.webhooks)
  unfolding remove find_one
  remove_lem id user_id s found =
      let own = λ (r : Webhook). r.id == id in
      let mine = λ (d : DeliveryLog). d.webhook_id == id in
      (
        ground (
          arith,
          count_where-delete_many webhooks own own s.webhooks,
          count_where-zero webhooks (λ r. not (own r) && own r) s.webhooks (λ r. ground arith),
        ),
        ground (
          arith,
          count_where-delete_many deliveries mine mine s.deliveries,
          count_where-zero deliveries (λ r. not (mine r) && mine r) s.deliveries
              (λ r. ground arith),
        ),
        ground (
          arith,
          count_where-delete_many webhooks (λ r. not (own r)) own s.webhooks,
          count_where-congr webhooks (λ r. not (own r) && not (own r)) (λ r. not (own r)) s.webhooks
              (λ r. ground arith),
        ),
      )
