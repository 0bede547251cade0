-- ===== src/Webhooks/UrlValidator/Permitted.antt =====
-- src/webhooks/url-validator.util.ts: what an URL that passes the check is known to meet.
use text.Mathlib.Text.{starts_with}
use prop_chain_back_end.Base.{
  ℕ, ◌<◌, ◌∙◌, sym, Bool, ◌&&◌, any, eq_iff, ◌≡◌, ◌≢◌, ◌⊎◌, inl, inr, refl, true, false, List, [],
  ◌∷◌, Option, none, some, String, ok, arith, ◌==◌, str_eq, All, Option-cases, Bool-cases,
}
use prop_chain_back_end.Webhooks.UrlValidator.{
  Url, Platform, Env, is_private_or_blocked_parts, is_private_or_blocked_ipv4,
  is_private_or_blocked_ipv6, is_private_or_blocked_ip, check_addresses, check_resolved,
  check_hostname, validate_webhook_url,
}
use prop_chain_back_end.Webhooks.UrlValidator.Ranges.{
  address, in_range, blocked_ranges, is_private_or_blocked_parts-ranges,
}

module _ (platform : Platform) (env : Env) where
  open platform use {
    parse_url, lookup, ip_version, to_lower_case, trim, parse_octets, substring_from,
    is_loopback_form, is_unspecified_form,
  }

  -- Four octets, whose number lies in none of the blocked ranges.
  abbrev pub IsPublicIpv4 : String → Type 0
  IsPublicIpv4 ip =
      (a : ℕ) × (b : ℕ) × (c : ℕ) × (d : ℕ) × (parse_octets ip
        ≡ some a ∷ some b ∷ some c ∷ some d ∷ [])
      × ((a < 256) × (b < 256) × (c < 256) × (d < 256))
      × (any (in_range (address a b c d)) blocked_ranges ≡ false)

  -- The address, lowered and trimmed, has none of the blocked prefixes: those of the unique local,
  -- the link-local, the documentation and the discard addresses.
  abbrev pub blocked_prefixes : List String
  blocked_prefixes = "fc" ∷ "fd" ∷ "fe8" ∷ "fe9" ∷ "fea" ∷ "feb" ∷ "2001:db8:" ∷ "100:" ∷ []

  -- An IPv4 address in dotted form behind the prefix of the mapped ones.
  abbrev pub is_mapped : String → Bool
  is_mapped text = starts_with text "::ffff:" && (ip_version (substring_from text 7) == 4)

  abbrev pub IsPublicText : String → Type 0
  IsPublicText text =
      ((text ≢ "::1")
        × (text ≢ "::")
        × (is_loopback_form text ≡ false)
        × (is_unspecified_form text ≡ false))
      × (((is_mapped text ≡ true) × IsPublicIpv4 (substring_from text 7))
          ⊎ ((is_mapped text ≡ false)
              × (any (λ prefix. starts_with text prefix) blocked_prefixes ≡ false)))

  -- An IPv4 address outside the blocked ranges, or an IPv6 address that is neither the loopback nor
  -- the unspecified one and has no blocked prefix; a mapped one in dotted form goes by its IPv4
  -- address.
  abbrev pub IsPublic : String → Type 0
  IsPublic ip =
      ((ip_version ip ≡ 4) × IsPublicIpv4 ip)
      ⊎ ((ip_version ip ≡ 6) × IsPublicText (trim (to_lower_case ip)))

  parts-IsPublicIpv4 :
      (ip : String) (parts : List (Option ℕ))
      → parse_octets ip ≡ parts
      → is_private_or_blocked_parts parts ≡ false
      → IsPublicIpv4 ip
  unfolding is_private_or_blocked_parts
  parts-IsPublicIpv4 ip (some a ∷ some b ∷ some c ∷ some d ∷ []) e free =
      let octets : ((a < 256) × (b < 256) × (c < 256) × (d < 256)) =
        (ground (arith, free), ground (arith, free), ground (arith, free), ground (arith, free)) in
      let ranges = is_private_or_blocked_parts-ranges a b c d octets.0 octets.1 octets.2 octets.3 in
      (a, b, c, d, e, octets, sym ranges ∙ free)
  parts-IsPublicIpv4 ip _ e free = ground (arith, free)

  ipv4-IsPublicIpv4 :
      (ip : String) → is_private_or_blocked_ipv4 platform ip ≡ false → IsPublicIpv4 ip
  unfolding is_private_or_blocked_ipv4
  ipv4-IsPublicIpv4 ip free = parts-IsPublicIpv4 ip (parse_octets ip) refl free

  ipv6-IsPublicText :
      (ip : String)
      → is_private_or_blocked_ipv6 platform ip ≡ false
      → IsPublicText (trim (to_lower_case ip))
  unfolding is_private_or_blocked_ipv6
  ipv6-IsPublicText ip free =
      let text = trim (to_lower_case ip) in
      (
        (
          λ e. ground (arith, free, (eq_iff text "::1").1 e),
          λ e. ground (arith, free, (eq_iff text "::").1 e),
          ground (arith, free),
          ground (arith, free),
        ),
        elim (Bool-cases (is_mapped text)) [
          | inl mapped ↦
              inl (mapped, ipv4-IsPublicIpv4 (substring_from text 7) (ground (arith, free, mapped)))
          | inr unmapped ↦ inr (unmapped, ground (arith, free, unmapped))
        ],
      )

  ip-IsPublic : (ip : String) → is_private_or_blocked_ip platform ip ≡ false → IsPublic ip
  unfolding is_private_or_blocked_ip
  ip-IsPublic ip free = elim (Bool-cases (ip_version ip == 4)) [
    | inl is_4 ↦ inl (ground (arith, is_4), ipv4-IsPublicIpv4 ip (ground (arith, is_4, free)))
    | inr not_4 ↦ elim (Bool-cases (ip_version ip == 6)) [
      | inl is_6 ↦
          inr (ground (arith, is_6), ipv6-IsPublicText ip (ground (arith, not_4, is_6, free)))
      | inr not_6 ↦ ground (arith, not_4, not_6, free)
    ]
  ]

  check_addresses-IsPublic :
      (addresses : List String)
      → env.is_local_env ≡ false
      → check_addresses platform env addresses ≡ ok tt
      → All IsPublic addresses
  check_addresses-IsPublic [] remote e = tt
  check_addresses-IsPublic (x ∷ xs) remote e =
      (ip-IsPublic x (ground arith), check_addresses-IsPublic xs remote (ground arith))

  -- What the host of a permitted URL is: a public address, or a name that resolves to public
  -- addresses alone, and to at least one.
  abbrev pub IsPublicHost : String → Type 0
  IsPublicHost host =
      IsPublic host
      ⊎ ((first : String) × (rest : List String) × (lookup host ≡ some (first ∷ rest))
          × All IsPublic (first ∷ rest))

  check_resolved-IsPublic :
      (found : Option (List String))
      → env.is_local_env ≡ false
      → check_resolved platform env found ≡ ok tt
      → (first : String) × (rest : List String) × (found ≡ some (first ∷ rest))
        × All IsPublic (first ∷ rest)
  check_resolved-IsPublic none remote e = cc
  check_resolved-IsPublic (some []) remote e = cc
  check_resolved-IsPublic (some (x ∷ xs)) remote e =
      (x, xs, refl, check_addresses-IsPublic (x ∷ xs) remote e)

  check_resolved_of :
      (host : String)
      → env.is_local_env ≡ false
      → check_hostname platform env host ≡ ok tt
      → (ip_version host == 0) ≡ true
      → check_resolved platform env (lookup host) ≡ ok tt
  check_resolved_of host remote e is_name = ground arith

  check_hostname-IsPublicHost :
      (host : String)
      → env.is_local_env ≡ false
      → check_hostname platform env host ≡ ok tt
      → IsPublicHost host
  check_hostname-IsPublicHost host remote e = elim (Bool-cases (ip_version host == 0)) [
    | inl is_name ↦
        let resolved = check_resolved_of host remote e is_name in
        inr (check_resolved-IsPublic (lookup host) remote resolved)
    | inr is_literal ↦ inl (ip-IsPublic host (ground arith))
  ]

  -- Outside of development and test, a URL that validateWebhookUrl accepts has the protocol HTTPS,
  -- and its host is a public address or a name that resolves to at least one address and to public
  -- addresses alone, whatever the allowlist holds. An IPv4 address is public when its number lies
  -- in none of the fourteen blocked ranges. An IPv6 address is public when it is neither the
  -- loopback nor the unspecified one, and either is a mapped IPv4 address in dotted form whose
  -- IPv4 address is public, or is no such one and starts with none of the blocked prefixes (fc,
  -- fd, fe8 to feb, 2001:db8: and 100:).
  pub validate_webhook_url-IsPublicHost :
      (raw_url : String)
      → env.is_local_env ≡ false
      → validate_webhook_url platform env raw_url ≡ ok tt
      → (parsed : Url) × (parse_url raw_url ≡ some parsed)
        × (str_eq parsed.protocol "https:" ≡ true)
        × IsPublicHost (to_lower_case parsed.hostname)
  unfolding validate_webhook_url
  validate_webhook_url-IsPublicHost raw_url remote e = elim (Option-cases (parse_url raw_url)) [
    | inl invalid ↦ cc
    | inr (parsed, is_parsed) ↦ (
      parsed,
      is_parsed,
      ground arith,
      check_hostname-IsPublicHost (to_lower_case parsed.hostname) remote (ground arith),
    )
  ]
