-- ===== src/Webhooks.antt =====
-- src/webhooks/webhooks.service.ts. The time is an argument of each call; the row ids that the database
-- generates are counted up from `next_id`. The check of an URL, the answer of an endpoint to a request
-- and the random secrets are arguments.
mod Rows
mod Tests
pub mod UrlValidator
pub mod TriggerLimit
pub mod Delivery
pub mod Endpoints
use prop_chain_back_end.Base.{
  ℕ, suc, ◌+◌, ◌-◌, ◌*◌, min, Bool, true, false, not, ◌&&◌, List, [], ◌∷◌, ◌++◌, map, Option, none,
  some, String, if◌then◌else◌, or_else, is_some, Action, Result, ok, err, not_found, bad_request,
  pure, gets, from_result, or_throw, throw_if, modify, ◌>>=◌, ◌>>◌, ◌==◌, ltb, leb, str_eq, any,
  filter, length,
}
pub use Rows.*

module _ (db : Database) (validate_webhook_url : String → Result (Unit {0})) (has_queue : Bool)
    (trigger_rate_limit_max : ℕ) where
  open db use {webhooks, deliveries}

  unfoldable pub is_rate_limited : ℕ → ℕ → Store db → Bool × Store db
  is_rate_limited now webhook_id s =
      let (limited, stamps) =
        rate_limit_step trigger_rate_limit_max now (s.timestamps webhook_id) in
      (
        limited,
        record s { timestamps = λ id. if id == webhook_id then stamps else s.timestamps id },
      )

  unfoldable pub find_one : ℕ → ℕ → Action (Store db) Webhook
  find_one id user_id = do
    found ← gets (λ s. webhooks.find_first (λ w. (w.id == id) && (w.user_id == user_id)) s.webhooks)
    or_throw found (not_found "Webhook not found")

  unfoldable pub create : ℕ → String → CreateWebhookDto → Action (Store db) ℕ
  create user_id secret dto = do
    from_result (validate_webhook_url dto.url)
    id ← gets (λ s. s.next_id)
    modify (λ s. record s {
      next_id = suc id;
      webhooks = webhooks.create (new_webhook id user_id secret dto) s.webhooks;
    })
    pure id

  abbrev pub check_url : Option String → Result (Unit {0})
  check_url none = ok tt
  check_url (some url) = validate_webhook_url url

  unfoldable pub update : ℕ → ℕ → UpdateWebhookDto → Action (Store db) (Unit {0})
  update id user_id dto = do
    find_one id user_id
    from_result (check_url (given dto.url))
    modify (λ s. record s { webhooks = webhooks.update id (updated_row dto) s.webhooks })

  unfoldable pub rotate_secret : ℕ → ℕ → String → Action (Store db) String
  rotate_secret id user_id new_secret = do
    w ← find_one id user_id
    modify (λ s. record s {
      webhooks = webhooks.update w.id (λ r. record r { secret = new_secret }) s.webhooks;
    })
    modify (λ s. record s { audit = id ∷ s.audit })
    pure new_secret

  unfoldable pub remove : ℕ → ℕ → Action (Store db) (Unit {0})
  remove id user_id = do
    find_one id user_id
    modify (λ s. record s {
      webhooks = webhooks.delete_many (λ w. w.id == id) s.webhooks;
      deliveries = deliveries.delete_many (λ d. d.webhook_id == id) s.deliveries;
    })

  -- a new delivery of a webhook, and its job
  abbrev pub enqueue : ℕ → Webhook → String → String → Store db → Store db
  enqueue now w event_type payload s = record s {
    deliveries = deliveries.create (new_delivery now s.next_id w event_type payload) s.deliveries;
    jobs =
        record {
          delivery_id = some s.next_id;
          webhook_id = w.id;
          event_type = event_type;
          payload = payload;
        }
        ∷ s.jobs;
    next_id = suc s.next_id;
  }

  -- one round of the loop of `trigger`
  unfoldable pub trigger_one : ℕ → Webhook → String → String → Store db → Store db
  trigger_one now w event_type payload s =
      let (limited, s') = is_rate_limited now w.id s in
      if limited then s' else if has_queue then enqueue now w event_type payload s' else record s' {
        tasks =
            record {
              delivery_id = none;
              webhook_id = w.id;
              event_type = event_type;
              payload = payload;
            }
            ∷ s'.tasks;
      }

  unfoldable pub trigger_all : ℕ → List Webhook → String → String → Store db → Store db
  trigger_all now [] event_type payload s = s
  trigger_all now (w ∷ ws) event_type payload s =
      trigger_all now ws event_type payload (trigger_one now w event_type payload s)

  unfoldable pub trigger : ℕ → String → String → Store db → Store db
  unfolding trigger_all
  trigger now event_type payload s =
      trigger_all now
        (webhooks.find_many (λ w. is_active w.status && has_event event_type w.events) s.webhooks)
        event_type payload s

  -- the log that `deliverWebhook` writes to: the one of that id, or a new one
  abbrev pub delivery_for :
      ℕ → Webhook → String → String → Option ℕ → Store db → DeliveryLog × Store db
  delivery_for now w event_type payload existing s =
      let fresh = new_delivery now s.next_id w event_type payload in
      let added = record s {
        deliveries = deliveries.create fresh s.deliveries;
        next_id = suc s.next_id;
      } in
      elim existing [
        | none ↦ (fresh, added)
        | some id ↦ elim (deliveries.find_unique id s.deliveries) [
          | none ↦ (fresh, added)
          | some d ↦ (d, s)
        ]
      ]

  -- `deliverWebhook`; the answer is true when the failure is thrown again, so that the queue retries
  unfoldable pub deliver_webhook :
      (Webhook → DeliveryLog → Response)
      → ℕ
      → Webhook
      → String
      → String
      → Option ℕ
      → Store db
      → Bool × Store db
  deliver_webhook respond now w event_type payload existing s =
      let (d, s') = delivery_for now w event_type payload existing s in
      elim (validate_webhook_url w.url) [
        | err e ↦ (false, write_delivery db d.id (blocked_row "Blocked by SSRF validation") s')
        | ok _ ↦ elim (respond w d) [
          | accepted code ↦ (false, write_delivery db d.id (success_row now code) s')
          | refused message ↦ (
            is_some existing && ltb (d.attempts + 1) max_attempts,
            write_delivery db d.id (failure_row now message) s',
          )
        ]
      ]

  unfoldable pub process_delivery_job :
      (Webhook → DeliveryLog → Response) → ℕ → Job → Store db → Bool × Store db
  process_delivery_job respond now job s = elim (webhooks.find_unique job.webhook_id s.webhooks) [
    | none ↦ (false, s)
    | some w ↦
        if is_active w.status
        then deliver_webhook respond now w job.event_type job.payload job.delivery_id s
        else (false, s)
  ]

  unfoldable pub replay :
      (Webhook → DeliveryLog → Response) → ℕ → ℕ → ℕ → ℕ → Action (Store db) (Unit {0})
  replay respond now webhook_id user_id delivery_id = do
    w ← find_one webhook_id user_id
    found ← gets (λ s.
        deliveries.find_first (λ d. (d.id == delivery_id) && (d.webhook_id == webhook_id))
          s.deliveries)
    d ← or_throw found (not_found "Webhook delivery not found")
    throw_if (not (is_active w.status))
        (bad_request "Cannot replay a delivery for an inactive webhook")
    modify (λ s.
        if has_queue
        then enqueue now w d.event_type d.payload s
        else (deliver_webhook respond now w d.event_type d.payload none s).1)

  abbrev pub retry_job : DeliveryLog → Job
  retry_job d = record {
    delivery_id = some d.id;
    webhook_id = d.webhook_id;
    event_type = d.event_type;
    payload = d.payload;
  }

  -- one round of the loop of `retryFailedDeliveries`
  unfoldable pub retry_one : DeliveryLog → Store db → Store db
  retry_one d s = elim (webhooks.find_unique d.webhook_id s.webhooks) [
    | none ↦ s
    | some w ↦
        if is_active w.status
        then (if has_queue
            then record s { jobs = retry_job d ∷ s.jobs }
            else record s { tasks = retry_job d ∷ s.tasks })
        else s
  ]

  unfoldable pub retry_all : List DeliveryLog → Store db → Store db
  retry_all [] s = s
  retry_all (d ∷ ds) s = retry_all ds (retry_one d s)

  unfoldable pub retry_failed_deliveries : ℕ → Store db → Store db
  unfolding retry_all
  retry_failed_deliveries now s = retry_all (deliveries.find_many (is_due now) s.deliveries) s

  unfoldable pub prune_old_delivery_logs : ℕ → ℕ → Store db → ℕ × Store db
  prune_old_delivery_logs now retention_days s =
      let is_old =
        λ (d : DeliveryLog). ltb (d.created_at + retention_days * 24 * 60 * 60 * 1000) now in
      (
        deliveries.count_where is_old s.deliveries,
        record s { deliveries = deliveries.delete_many is_old s.deliveries },
      )

  -- `verifyChallenge`; `answer` is the challenge that the endpoint sends back, where it does
  unfoldable pub verify_challenge : ℕ → ℕ → String → Option String → Action (Store db) Bool
  verify_challenge webhook_id user_id challenge answer = do
    w ← find_one webhook_id user_id
    from_result (validate_webhook_url w.url)
    let verified = is_some answer && str_eq (or_else answer "") challenge
    modify (λ s.
        if verified
        then record s {
          webhooks = webhooks.update webhook_id (λ r. record r { status = active }) s.webhooks;
        }
        else s)
    pure verified
