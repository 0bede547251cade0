-- ===== src/Webhooks/Delivery.antt =====
-- src/webhooks/webhooks.service.ts: the life of one delivery, and the job that retries deliveries.
use prop_chain_back_end.Base.{
  ℕ, ◌+◌, ◌≡◌, ◌⊎◌, refl, ◌∙◌, ap, inl, inr, Option-cases, Result-cases, Bool, false, not, ◌&&◌,
  List, [], ◌∷◌, Option, none, some, String, if◌then◌else◌, is_some, Result, ok, arith, ◌==◌, ltb,
  count, length, patch, count-filter,
}
use prop_chain_back_end.Table.Laws.{
  find_unique-update_self, find_unique-key, count_where-update, count_where-create,
  count_where_mono,
}
use prop_chain_back_end.Webhooks.{
  DeliveryStatus, pending, failed, retrying, Webhook, DeliveryLog, Database, Store, Response,
  accepted, refused, max_attempts, is_active, is_retrying, new_delivery, blocked_row, success_row,
  failure_row, is_due, write_delivery, delivery_for, deliver_webhook, retry_job, retry_one,
  retry_all, retry_failed_deliveries,
}

-- A delivery that waits to be sent again without a time for it, or with no attempt left.
abbrev pub is_stuck : DeliveryLog → Bool
is_stuck d = is_retrying d.status && not (is_some d.next_retry_at && ltb d.attempts max_attempts)

-- the status after so many failed attempts
abbrev pub status_at : ℕ → DeliveryStatus
status_at attempts =
    if attempts == 0 then pending else if ltb attempts max_attempts then retrying else failed

Response-cases :
    (r : Response)
    → ((code : ℕ) × (r ≡ accepted code)) ⊎ ((message : String) × (r ≡ refused message))
Response-cases (accepted code) = inl (code, refl)
Response-cases (refused message) = inr (message, refl)

module _ (db : Database) (validate_webhook_url : String → Result (Unit {0})) (has_queue : Bool)
    (trigger_max : ℕ) where
  open db use {webhooks, deliveries}

  -- No delivery is stuck.
  unfoldable pub NoneStuck : Store db → Type 0
  NoneStuck s = deliveries.count_where is_stuck s.deliveries ≡ 0

  write_delivery-NoneStuck :
      (id : ℕ) (f : DeliveryLog → DeliveryLog) (s : Store db)
      → ((d : DeliveryLog) → is_stuck (f d) ≡ false)
      → NoneStuck s
      → NoneStuck (write_delivery db id f s)
  unfolding NoneStuck
  write_delivery-NoneStuck id f s sound h = omega (
    arith,
    h,
    count_where-update deliveries is_stuck id f s.deliveries,
    count_where_mono deliveries (λ d. is_stuck (patch (λ r. r.id == id) f d)) is_stuck s.deliveries
        (λ d e. ground (arith, sound d)),
  )

  delivery_for-NoneStuck :
      (now : ℕ) (w : Webhook) (event payload : String) (existing : Option ℕ) (s : Store db)
      → NoneStuck s
      → NoneStuck
          (delivery_for db validate_webhook_url has_queue trigger_max now w event payload existing
            s).1
  unfolding NoneStuck
  delivery_for-NoneStuck now w event payload none s h = ground (
    arith,
    count_where-create deliveries is_stuck (new_delivery now s.next_id w event payload)
        s.deliveries,
  )
  delivery_for-NoneStuck now w event payload (some id) s h =
      elim (Option-cases (deliveries.find_unique id s.deliveries)) [
        | inl missing ↦ ground (
          arith,
          count_where-create deliveries is_stuck (new_delivery now s.next_id w event payload)
              s.deliveries,
        )
        | inr (d, found) ↦ ground arith
      ]

  -- Where no delivery waits to be sent again without a time for it or with no attempt left, none
  -- does after deliverWebhook, whatever the endpoint answers and whatever the check of the URL
  -- says.
  pub deliver_webhook-NoneStuck :
      (respond : Webhook → DeliveryLog → Response) (now : ℕ) (w : Webhook) (event payload : String)
      (existing : Option ℕ) (s : Store db)
      → NoneStuck s
      → NoneStuck
          (deliver_webhook db validate_webhook_url has_queue trigger_max respond now w event payload
            existing s).1
  unfolding deliver_webhook
  deliver_webhook-NoneStuck respond now w event payload existing s h =
      let (d, s') =
        delivery_for db validate_webhook_url has_queue trigger_max now w event payload existing s in
      let h' = delivery_for-NoneStuck now w event payload existing s h in
      elim (Result-cases (validate_webhook_url w.url)) [
        | inr (e, blocked) ↦ ground (
          arith,
          write_delivery-NoneStuck d.id (blocked_row "Blocked by SSRF validation") s' (λ x. refl)
              h',
        )
        | inl (u, permitted) ↦ elim (Response-cases (respond w d)) [
          | inl (code, sent) ↦
              ground (arith, write_delivery-NoneStuck d.id (success_row now code) s' (λ x. refl) h')
          | inr (message, sent) ↦ ground (
            arith,
            write_delivery-NoneStuck d.id (failure_row now message) s' (λ x. ground arith) h',
          )
        ]
      ]

  -- Deliveries of one log at the given times.
  abbrev pub deliver_at :
      (Webhook → DeliveryLog → Response) → Webhook → ℕ → List ℕ → Store db → Store db
  deliver_at respond w id [] s = s
  deliver_at respond w id (now ∷ times) s =
      deliver_at respond w id times
        (deliver_webhook db validate_webhook_url has_queue trigger_max respond now w "" "" (some id)
          s).1

  module _ (respond : Webhook → DeliveryLog → Response) (w : Webhook) (message : String)
      (permitted : validate_webhook_url w.url ≡ ok tt)
      (failing : (d : DeliveryLog) → respond w d ≡ refused message) where
    deliver_webhook_fails :
        (now id : ℕ) (s : Store db) {d : DeliveryLog}
        → deliveries.find_unique id s.deliveries ≡ some d
        → (deliver_webhook db validate_webhook_url has_queue trigger_max respond now w "" ""
            (some id)
            s).1
          ≡ write_delivery db id (failure_row now message) s
    unfolding deliver_webhook
    deliver_webhook_fails now id s {d} found =
        ground (arith, failing d, permitted, find_unique-key deliveries id s.deliveries found)

    -- A new delivery, or one that has only failed so far, whose permitted endpoint keeps failing
    -- waits to be sent again after each of the first four attempts and has failed from the fifth
    -- on; every attempt is counted, those after the fifth too.
    pub deliver_at_fails :
        (id : ℕ) (times : List ℕ) (s : Store db) (d : DeliveryLog)
        → deliveries.find_unique id s.deliveries ≡ some d
        → d.status ≡ status_at d.attempts
        → (d' : DeliveryLog) × (deliveries.find_unique id
              (deliver_at respond w id times s).deliveries
            ≡ some d')
          × (d'.attempts ≡ d.attempts + length times)
          × (d'.status ≡ status_at (d.attempts + length times))
    deliver_at_fails id [] s d found follows = (d, found, omega arith, ground (arith, follows))
    deliver_at_fails id (now ∷ times) s d found follows =
        let (d', kept, attempted, moved) =
          deliver_at_fails id times (write_delivery db id (failure_row now message) s)
            (failure_row now message d)
            (find_unique-update_self deliveries id (failure_row now message) s.deliveries
              (λ r. refl) found)
            (ground arith) in
        (
          d',
          ap (λ x. deliveries.find_unique id (deliver_at respond w id times x).deliveries)
                (deliver_webhook_fails now id s found)
              ∙ kept,
          omega (arith, attempted),
          ground (arith, moved),
        )

  -- The id of a webhook that is active, as the job finds it.
  abbrev pub is_live : Store db → DeliveryLog → Bool
  is_live s d = elim (webhooks.find_unique d.webhook_id s.webhooks) [
    | none ↦ false
    | some w ↦ is_active w.status
  ]

  abbrev pub waiting : Store db → ℕ
  waiting s = length s.jobs + length s.tasks

  waiting-retry_all :
      (ds : List DeliveryLog) (s : Store db)
      → waiting (retry_all db validate_webhook_url has_queue trigger_max ds s)
        ≡ count (is_live s) ds + waiting s
  unfolding retry_all retry_one
  waiting-retry_all [] s = omega arith
  waiting-retry_all (d ∷ ds) s =
      let ih = λ (x : Store db). waiting-retry_all ds x in
      let job = retry_job db validate_webhook_url has_queue trigger_max d in
      elim (Option-cases (webhooks.find_unique d.webhook_id s.webhooks)) [
        | inl missing ↦ ground (arith, ih s)
        | inr (w, found) ↦ ground (
          arith,
          ih s,
          ih (record s { jobs = job ∷ s.jobs }),
          ih (record s { tasks = job ∷ s.tasks }),
        )
      ]

  -- retryFailedDeliveries queues one job, or one task, for each delivery that is due and whose
  -- webhook is active, and none for any other.
  pub retry_failed_deliveries_lem :
      (now : ℕ) (s : Store db)
      → waiting (retry_failed_deliveries db validate_webhook_url has_queue trigger_max now s)
        ≡ deliveries.count_where (λ d. is_due now d && is_live s d) s.deliveries + waiting s
  unfolding retry_failed_deliveries
  retry_failed_deliveries_lem now s =
      waiting-retry_all (deliveries.find_many (is_due now) s.deliveries) s
      ∙ ap (λ n. n + waiting s)
          (rw (deliveries.find_many_law (is_due now) s.deliveries, deliveries.count_where_law)
            (count-filter (is_live s) (is_due now) (deliveries.contents s.deliveries)))
