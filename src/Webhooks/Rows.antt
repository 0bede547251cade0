-- ===== src/Webhooks/Rows.antt =====
-- src/webhooks/webhooks.service.ts: the rows, and what the operations write to one of them. A payload is
-- the text of its JSON.
use prop_chain_back_end.Base.{
  ℕ, zero, suc, ◌+◌, ◌-◌, min, Bool, true, false, ◌&&◌, List, [], ◌∷◌, ◌++◌, Option, none, some,
  String, if◌then◌else◌, or_else, ltb, leb, str_eq, any, filter, length,
}
use prop_chain_back_end.Table.{Table}

pub data WebhookStatus : Type 0 where
  active inactive : WebhookStatus

pub data DeliveryStatus : Type 0 where
  pending success failed retrying : DeliveryStatus

pub record Webhook : Type 0 where
  pub id : ℕ
  pub user_id : ℕ
  pub url : String
  pub secret : String
  pub events : List String
  pub description : Option String
  pub status : WebhookStatus

pub record DeliveryLog : Type 0 where
  pub id : ℕ
  pub webhook_id : ℕ
  pub event_type : String
  pub payload : String
  pub status : DeliveryStatus
  pub response_code : Option ℕ
  pub attempts : ℕ
  pub next_retry_at : Option ℕ
  pub error : Option String
  pub delivered_at : Option ℕ
  pub created_at : ℕ

-- a job of the queue, or a task of `setImmediate`
pub record Job : Type 0 where
  pub delivery_id : Option ℕ
  pub webhook_id : ℕ
  pub event_type : String
  pub payload : String

pub record Database : Type 1 where
  pub webhooks : Table Webhook (λ r. r.id)
  pub deliveries : Table DeliveryLog (λ r. r.id)

-- `timestamps` is the map `webhookTriggerTimestamps`; `audit` lists the ids of the webhooks whose secret
-- was rotated; `jobs` and `tasks` are newest first.
pub record Store (db : Database) : Type 0 where
  pub webhooks : db.webhooks.Rows
  pub deliveries : db.deliveries.Rows
  pub timestamps : ℕ → List ℕ
  pub jobs : List Job
  pub tasks : List Job
  pub audit : List ℕ
  pub next_id : ℕ

pub record CreateWebhookDto : Type 0 where
  pub url : String
  pub event_types : List String
  pub description : Option String

pub record UpdateWebhookDto : Type 0 where
  pub url : Option String
  pub event_types : Option (List String)
  pub description : Option String
  pub is_active : Option Bool

-- how an endpoint answers a delivery: `response.ok` with its code, or an error with its message
pub data Response : Type 0 where
  accepted : ℕ → Response
  refused : String → Response

abbrev pub max_attempts : ℕ
max_attempts = 5

abbrev pub trigger_rate_limit_window_ms : ℕ
trigger_rate_limit_window_ms = 60000

abbrev pub is_active : WebhookStatus → Bool
is_active active = true
is_active inactive = false

abbrev pub is_retrying : DeliveryStatus → Bool
is_retrying retrying = true
is_retrying _ = false

-- RETRY_DELAYS_MS
abbrev pub retry_delay_at : ℕ → ℕ
retry_delay_at zero = 1000
retry_delay_at (suc zero) = 5000
retry_delay_at (suc (suc zero)) = 15000
retry_delay_at (suc (suc (suc zero))) = 60000
retry_delay_at (suc (suc (suc (suc _)))) = 300000

abbrev pub get_retry_delay : ℕ → ℕ
get_retry_delay next_attempt = retry_delay_at (min (next_attempt - 1) 4)

-- `isRateLimited`, on the timestamps of one webhook: the answer, and the timestamps after it
abbrev pub rate_limit_step : (max : ℕ) → (now : ℕ) → List ℕ → Bool × List ℕ
rate_limit_step max now stamps =
    let recent = filter (λ t. ltb now (t + trigger_rate_limit_window_ms)) stamps in
    if leb max (length recent) then (true, stamps) else (false, recent ++ (now ∷ []))

abbrev pub has_event : String → List String → Bool
has_event event events = any (λ e. str_eq e event) events

abbrev pub new_delivery : ℕ → ℕ → Webhook → String → String → DeliveryLog
new_delivery now id w event_type payload = record {
  id = id;
  webhook_id = w.id;
  event_type = event_type;
  payload = payload;
  status = pending;
  response_code = none;
  attempts = 0;
  next_retry_at = none;
  error = none;
  delivered_at = none;
  created_at = now;
}

abbrev pub new_webhook : ℕ → ℕ → String → CreateWebhookDto → Webhook
new_webhook id user_id secret dto = record {
  id = id;
  user_id = user_id;
  url = dto.url;
  secret = secret;
  events = dto.event_types;
  description = dto.description;
  status = active;
}

-- What `deliverWebhook` writes to the log: when the URL is not permitted,
abbrev pub blocked_row : String → DeliveryLog → DeliveryLog
blocked_row message d = record d {
  status = failed;
  error = some message;
  attempts = d.attempts + 1;
}

-- when the endpoint accepts the delivery,
abbrev pub success_row : ℕ → ℕ → DeliveryLog → DeliveryLog
success_row now code d = record d {
  status = success;
  response_code = some code;
  attempts = d.attempts + 1;
  delivered_at = some now;
  next_retry_at = none;
}

-- and when it does not.
abbrev pub failure_row : ℕ → String → DeliveryLog → DeliveryLog
failure_row now message d = record d {
  status = if ltb (d.attempts + 1) max_attempts then retrying else failed;
  attempts = d.attempts + 1;
  error = some message;
  next_retry_at =
      if ltb (d.attempts + 1) max_attempts
      then some (now + get_retry_delay (d.attempts + 1))
      else none;
}

-- A text that is given and not empty, as `if (dto.url)` asks.
abbrev pub given : Option String → Option String
given none = none
given (some text) = if str_eq text "" then none else some text

abbrev pub updated_row : UpdateWebhookDto → Webhook → Webhook
updated_row dto w = record w {
  url = or_else (given dto.url) w.url;
  events = or_else dto.event_types w.events;
  description = elim dto.description [ none ↦ w.description | some text ↦ some text ];
  status = elim dto.is_active [ none ↦ w.status | some flag ↦ if flag then active else inactive ];
}

-- `where: { status: 'RETRYING', nextRetryAt: { lte: now }, attempts: { lt: MAX_ATTEMPTS } }`
abbrev pub is_due : ℕ → DeliveryLog → Bool
is_due now d =
    is_retrying d.status
    && ((elim d.next_retry_at [ none ↦ false | some t ↦ leb t now ]) && ltb d.attempts max_attempts)

abbrev pub write_delivery : (db : Database) → ℕ → (DeliveryLog → DeliveryLog) → Store db → Store db
write_delivery db id f s = record s { deliveries = db.deliveries.update id f s.deliveries }
