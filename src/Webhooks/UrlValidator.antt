-- ===== src/Webhooks/UrlValidator.antt =====
-- src/webhooks/url-validator.util.ts. What the source takes from the platform is a record of
-- functions: the parser of URLs, the resolver of names, the tests of addresses and the two regular
-- expressions on IPv6 addresses.
pub mod Ranges
pub mod Permitted
use prop_chain_back_end.Base.{
  ℕ, Bool, true, false, not, ◌&&◌, ◌||◌, List, [], ◌∷◌, Option, none, some, String, if◌then◌else◌,
  or_else, Result, ok, err, bad_request, ◌==◌, ltb, leb, str_eq, any,
}
use text.Mathlib.Text.{starts_with}

pub record Url : Type 0 where
  pub protocol : String
  pub hostname : String

-- `new URL`, `dns.promises.lookup` (`none` when it rejects), `net.isIP`, `toLowerCase`, `trim`,
-- `endsWith`, `split('.')` with `parseInt` (`none` for what is no octet's number), and the patterns.
pub record Platform : Type 0 where
  pub parse_url : String → Option Url
  pub lookup : String → Option (List String)
  pub ip_version : String → ℕ
  pub to_lower_case : String → String
  pub trim : String → String
  pub ends_with : String → String → Bool
  pub parse_octets : String → List (Option ℕ)
  pub substring_from : String → ℕ → String
  pub is_loopback_form : String → Bool
  pub is_unspecified_form : String → Bool

-- `process.env.NODE_ENV` is development, test or not set; and the allowlist, split and trimmed.
pub record Env : Type 0 where
  pub is_local_env : Bool
  pub allowlist : List String

-- The tests on the four octets.
abbrev pub is_blocked_octets : ℕ → ℕ → ℕ → Bool
is_blocked_octets a b c =
    if a == 0
    then true
    else if a == 10
    then true
    else if (a == 100) && (leb 64 b && leb b 127)
    then true
    else if a == 127
    then true
    else if (a == 169) && (b == 254)
    then true
    else if (a == 172) && (leb 16 b && leb b 31)
    then true
    else if (a == 192) && ((b == 0) && (c == 0))
    then true
    else if (a == 192) && ((b == 0) && (c == 2))
    then true
    else if (a == 192) && (b == 168)
    then true
    else if (a == 198) && ((b == 18) || (b == 19))
    then true
    else if (a == 198) && ((b == 51) && (c == 100))
    then true
    else if (a == 203) && ((b == 0) && (c == 113))
    then true
    else leb 224 a

-- `isPrivateOrBlockedIPv4`, on the parts that the address splits into
unfoldable pub is_private_or_blocked_parts : List (Option ℕ) → Bool
is_private_or_blocked_parts (some a ∷ some b ∷ some c ∷ some d ∷ []) =
    (ltb 255 a || (ltb 255 b || (ltb 255 c || ltb 255 d))) || is_blocked_octets a b c
is_private_or_blocked_parts _ = true

abbrev pub blocked_hostnames : List String
blocked_hostnames = "localhost" ∷ "metadata.google.internal" ∷ "metadata" ∷ "instance-data" ∷ []

abbrev pub includes_text : List String → String → Bool
includes_text xs x = any (λ y. str_eq y x) xs

module _ (platform : Platform) where
  open platform use {
    parse_url, lookup, ip_version, to_lower_case, trim, ends_with, parse_octets, substring_from,
    is_loopback_form, is_unspecified_form,
  }

  unfoldable pub is_private_or_blocked_ipv4 : String → Bool
  is_private_or_blocked_ipv4 ip = is_private_or_blocked_parts (parse_octets ip)

  unfoldable pub is_private_or_blocked_ipv6 : String → Bool
  is_private_or_blocked_ipv6 ip =
      let normalized = trim (to_lower_case ip) in
      let v4_part = substring_from normalized 7 in
      if str_eq normalized "::1"
        || str_eq normalized "::"
        || is_loopback_form normalized
        || is_unspecified_form normalized
      then true
      else if starts_with normalized "::ffff:" && (ip_version v4_part == 4)
      then is_private_or_blocked_ipv4 v4_part
      else if starts_with normalized "fc" || starts_with normalized "fd"
      then true
      else if starts_with normalized "fe8"
          || starts_with normalized "fe9"
          || starts_with normalized "fea"
          || starts_with normalized "feb"
      then true
      else starts_with normalized "2001:db8:" || starts_with normalized "100:"

  unfoldable pub is_private_or_blocked_ip : String → Bool
  is_private_or_blocked_ip ip =
      if ip_version ip == 4
      then is_private_or_blocked_ipv4 ip
      else if ip_version ip == 6
      then is_private_or_blocked_ipv6 ip
      else true

  -- the loop over the resolved addresses
  abbrev pub check_addresses : Env → List String → Result (Unit {0})
  check_addresses env [] = ok tt
  check_addresses env (address ∷ rest) =
      if env.is_local_env && includes_text env.allowlist (to_lower_case address)
      then check_addresses env rest
      else if is_private_or_blocked_ip address
      then err (bad_request "Webhook hostname resolves to restricted IP")
      else check_addresses env rest

  abbrev pub check_resolved : Env → Option (List String) → Result (Unit {0})
  check_resolved env none = err (bad_request "DNS resolution failed for webhook host")
  check_resolved env (some []) = err (bad_request "Unable to resolve webhook hostname")
  check_resolved env (some (address ∷ rest)) = check_addresses env (address ∷ rest)

  -- What follows the checks of the protocol. The second look at the allowlist, for an address that is
  -- written out, is left out: the first has returned by then.
  abbrev pub check_hostname : Env → String → Result (Unit {0})
  check_hostname env hostname =
      if env.is_local_env && includes_text env.allowlist hostname
      then ok tt
      else if includes_text blocked_hostnames hostname
          || ends_with hostname ".local"
          || ends_with hostname ".internal"
      then err (bad_request "Webhook URL host is not permitted")
      else if ip_version hostname == 0
      then check_resolved env (lookup hostname)
      else if is_private_or_blocked_ip hostname
      then err (bad_request "Webhook URL targets a private, internal, or cloud-metadata IP")
      else ok tt

  unfoldable pub validate_webhook_url : Env → String → Result (Unit {0})
  validate_webhook_url env raw_url = elim (parse_url raw_url) [
    | none ↦ err (bad_request "Invalid webhook URL format")
    | some parsed ↦
        if not (str_eq parsed.protocol "http:") && not (str_eq parsed.protocol "https:")
        then err (bad_request "Webhook URL protocol must be http: or https:")
        else if not env.is_local_env && not (str_eq parsed.protocol "https:")
        then err (bad_request "Webhook URL must use HTTPS in production and staging environments")
        else check_hostname env (to_lower_case parsed.hostname)
  ]
