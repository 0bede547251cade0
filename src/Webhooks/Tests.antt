-- ===== src/Webhooks/Tests.antt =====
-- The theorems on webhooks, at one webhook with one delivery.
use prop_chain_back_end.Base.{
  ◌≡◌, ◌≤◌, refl, [], ◌∷◌, none, some, String, true, false, Result, ok, str_eq, arith, any,
  if◌then◌else◌,
}
use prop_chain_back_end.Table.InMemory.{in_memory}
use prop_chain_back_end.Webhooks.{
  WebhookStatus, DeliveryStatus, Webhook, DeliveryLog, Database, Store, UpdateWebhookDto,
  CreateWebhookDto, Response, deliver_webhook, update, create,
}
use prop_chain_back_end.Webhooks.TriggerLimit.{Run, in_window, Run-limit}
use prop_chain_back_end.Webhooks.Delivery.{NoneStuck, deliver_webhook-NoneStuck}
use prop_chain_back_end.Webhooks.Endpoints.{AllPermitted, create_update-AllPermitted}
use prop_chain_back_end.Webhooks.UrlValidator.{
  Url, Platform, Env, is_private_or_blocked_parts, is_private_or_blocked_ip,
  is_private_or_blocked_ipv4, is_private_or_blocked_ipv6, validate_webhook_url,
}
use prop_chain_back_end.Webhooks.UrlValidator.Ranges.{
  address, in_range, blocked_ranges, is_private_or_blocked_parts-ranges,
}
use prop_chain_back_end.Webhooks.UrlValidator.Permitted.{
  IsPublicHost, validate_webhook_url-IsPublicHost,
}

abbrev db : Database
db = record {
  webhooks = in_memory Webhook (λ r. r.id);
  deliveries = in_memory DeliveryLog (λ r. r.id);
}

abbrev hook : Webhook
hook = record {
  id = 1;
  user_id = 5;
  url = "https://example.org";
  secret = "s";
  events = "sale" ∷ [];
  description = none;
  status = WebhookStatus.active;
}

abbrev delivery : DeliveryLog
delivery = record {
  id = 2;
  webhook_id = 1;
  event_type = "sale";
  payload = "{}";
  status = DeliveryStatus.pending;
  response_code = none;
  attempts = 0;
  next_retry_at = none;
  error = none;
  delivered_at = none;
  created_at = 0;
}

abbrev store : Store db
store = record {
  webhooks = hook ∷ [];
  deliveries = delivery ∷ [];
  timestamps = λ id. [];
  jobs = [];
  tasks = [];
  audit = [];
  next_id = 10;
}

-- a store whose delivery waits for its second attempt
abbrev waiting_store : Store db
waiting_store = record store {
  deliveries =
      record delivery { status = DeliveryStatus.retrying; attempts = 1; next_retry_at = some 1000 }
      ∷ [];
}

abbrev permit : String → Result (Unit {0})
permit url = ok tt

abbrev refuse_all : Webhook → DeliveryLog → Response
refuse_all w d = Response.refused "HTTP 500"

Run-limit_example : in_window 20 (10 ∷ []) ≤ 1
Run-limit_example =
    Run-limit 1 20 (10 ∷ []) (10 ∷ []) (
      Run.call 10 20 (10 ∷ []) (10 ∷ []) (Run.call 0 10 [] [] Run.start (omega arith))
        (omega arith))

store-NoneStuck : NoneStuck db permit true 60 store
unfolding NoneStuck
store-NoneStuck = refl

deliver_webhook-NoneStuck_example :
    NoneStuck db permit true 60
      (deliver_webhook db permit true 60 refuse_all 100 hook "sale" "{}" (some 2) store).1
deliver_webhook-NoneStuck_example =
    deliver_webhook-NoneStuck db permit true 60 refuse_all 100 hook "sale" "{}" (some 2) store
      store-NoneStuck

abbrev change : UpdateWebhookDto
change = record {
  url = some "https://example.net";
  event_types = none;
  description = none;
  is_active = some false;
}

store-AllPermitted : AllPermitted db permit true 60 store
unfolding AllPermitted
store-AllPermitted = refl

abbrev second : CreateWebhookDto
second = record { url = "https://example.com"; event_types = []; description = none }

create_update-AllPermitted_example :
    AllPermitted db permit true 60 (create db permit true 60 5 "u" second store).1
    × AllPermitted db permit true 60 (update db permit true 60 1 5 change store).1
create_update-AllPermitted_example =
    create_update-AllPermitted db permit true 60 5 1 "u" second change store store-AllPermitted

is_private_or_blocked_parts-ranges_example :
    is_private_or_blocked_parts (some 172 ∷ some 31 ∷ some 0 ∷ some 9 ∷ [])
    ≡ any (in_range (address 172 31 0 9)) blocked_ranges
is_private_or_blocked_parts-ranges_example =
    is_private_or_blocked_parts-ranges 172 31 0 9 (omega arith) (omega arith) (omega arith)
      (omega arith)

-- A platform with one site, at a public address.
abbrev platform : Platform
platform = record {
  parse_url = λ url. some (record { protocol = "https:"; hostname = "example.org" });
  lookup = λ host. some ("93.184.216.34" ∷ []);
  ip_version = λ host. if str_eq host "93.184.216.34" then 4 else 0;
  to_lower_case = λ s. s;
  trim = λ s. s;
  ends_with = λ s t. false;
  parse_octets = λ s. some 93 ∷ some 184 ∷ some 216 ∷ some 34 ∷ [];
  substring_from = λ s n. s;
  is_loopback_form = λ s. false;
  is_unspecified_form = λ s. false;
}

abbrev production : Env
production = record { is_local_env = false; allowlist = [] }

validate_webhook_url-IsPublicHost_example :
    (parsed : Url) × (platform.parse_url "https://example.org" ≡ some parsed)
    × (str_eq parsed.protocol "https:" ≡ true)
    × IsPublicHost platform production parsed.hostname
unfolding validate_webhook_url is_private_or_blocked_ip is_private_or_blocked_parts
    is_private_or_blocked_ipv4
validate_webhook_url-IsPublicHost_example =
    validate_webhook_url-IsPublicHost platform production "https://example.org" refl refl

-- A platform where the multicast address ff02::1 and a mapped loopback address, written in
-- hexadecimal, are hosts.
abbrev ipv6_platform : Platform
ipv6_platform = record platform {
  ip_version = λ host. if str_eq host "7f00:1" then 0 else 6;
  substring_from = λ s n. "7f00:1";
}

multicast_permitted : is_private_or_blocked_ip ipv6_platform "ff02::1" ≡ false
unfolding is_private_or_blocked_ip is_private_or_blocked_ipv6
multicast_permitted = refl

mapped_loopback_permitted : is_private_or_blocked_ip ipv6_platform "::ffff:7f00:1" ≡ false
unfolding is_private_or_blocked_ip is_private_or_blocked_ipv6
mapped_loopback_permitted = refl
