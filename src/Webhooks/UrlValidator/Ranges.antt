-- ===== src/Webhooks/UrlValidator/Ranges.antt =====
-- src/webhooks/url-validator.util.ts: the blocked IPv4 addresses, as ranges of 32-bit numbers.
use prop_chain_back_end.Base.{
  ℕ, ◌+◌, ◌*◌, ◌/◌, ◌≡◌, ◌<◌, Bool, false, ◌&&◌, ◌||◌, List, [], ◌∷◌, some, arith, ◌==◌, ltb, leb,
  any,
}
use prop_chain_back_end.Webhooks.UrlValidator.{is_private_or_blocked_parts}

abbrev pub address : ℕ → ℕ → ℕ → ℕ → ℕ
address a b c d = a * 16777216 + b * 65536 + c * 256 + d

-- The range of the addresses that start with the bits of `net`: `size` is two to the number of the
-- other bits.
pub record Range : Type 0 where
  pub net : ℕ
  pub size : ℕ

abbrev pub in_range : ℕ → Range → Bool
in_range x r = x / r.size == r.net / r.size

-- The ranges that the source's comments name, each with its prefix length.
abbrev pub blocked_ranges : List Range
blocked_ranges =
    record { net = address 0 0 0 0; size = 16777216 }
    ∷ record { net = address 10 0 0 0; size = 16777216 }
    ∷ record { net = address 100 64 0 0; size = 4194304 }
    ∷ record { net = address 127 0 0 0; size = 16777216 }
    ∷ record { net = address 169 254 0 0; size = 65536 }
    ∷ record { net = address 172 16 0 0; size = 1048576 }
    ∷ record { net = address 192 0 0 0; size = 256 }
    ∷ record { net = address 192 0 2 0; size = 256 }
    ∷ record { net = address 192 168 0 0; size = 65536 }
    ∷ record { net = address 198 18 0 0; size = 131072 }
    ∷ record { net = address 198 51 100 0; size = 256 }
    ∷ record { net = address 203 0 113 0; size = 256 }
    ∷ record { net = address 224 0 0 0; size = 268435456 }
    ∷ record { net = address 240 0 0 0; size = 268435456 }
    ∷ []

module _ (a b c d : ℕ) (ha : a < 256) (hb : b < 256) (hc : c < 256) (hd : d < 256) where
  by_8 : address a b c d / 16777216 ≡ a
  by_8 = omega arith

  by_10 : address a b c d / 4194304 ≡ a * 4 + b / 64
  by_10 = omega arith

  by_16 : address a b c d / 65536 ≡ a * 256 + b
  by_16 = omega arith

  by_12 : address a b c d / 1048576 ≡ a * 16 + b / 16
  by_12 = omega arith

  by_24 : address a b c d / 256 ≡ a * 65536 + b * 256 + c
  by_24 = omega arith

  by_15 : address a b c d / 131072 ≡ a * 128 + b / 2
  by_15 = omega arith

  by_4 : address a b c d / 268435456 ≡ a / 16
  by_4 = omega arith

  in_100_64 : (a * 4 + b / 64 == 401) ≡ ((a == 100) && (leb 64 b && leb b 127))
  in_100_64 = ground arith

  in_169_254 : (a * 256 + b == 43518) ≡ ((a == 169) && (b == 254))
  in_169_254 = ground arith

  in_172_16 : (a * 16 + b / 16 == 2753) ≡ ((a == 172) && (leb 16 b && leb b 31))
  in_172_16 = ground arith

  in_192_0_0 : (a * 65536 + b * 256 + c == 12582912) ≡ ((a == 192) && ((b == 0) && (c == 0)))
  in_192_0_0 = ground arith

  in_192_0_2 : (a * 65536 + b * 256 + c == 12582914) ≡ ((a == 192) && ((b == 0) && (c == 2)))
  in_192_0_2 = ground arith

  in_192_168 : (a * 256 + b == 49320) ≡ ((a == 192) && (b == 168))
  in_192_168 = ground arith

  in_198_18 : (a * 128 + b / 2 == 25353) ≡ ((a == 198) && ((b == 18) || (b == 19)))
  in_198_18 = ground arith

  in_198_51 : (a * 65536 + b * 256 + c == 12989284) ≡ ((a == 198) && ((b == 51) && (c == 100)))
  in_198_51 = ground arith

  in_203_0 : (a * 65536 + b * 256 + c == 13303921) ≡ ((a == 203) && ((b == 0) && (c == 113)))
  in_203_0 = ground arith

  in_224 : ((a / 16 == 14) || (a / 16 == 15)) ≡ leb 224 a
  in_224 = ground arith

  is_octets : (ltb 255 a || (ltb 255 b || (ltb 255 c || ltb 255 d))) ≡ false
  is_octets = ground arith

  -- An IPv4 address with octets below 256 is blocked exactly when, as a 32-bit number, it lies in
  -- one of the fourteen ranges that the comments name by their prefixes.
  pub is_private_or_blocked_parts-ranges :
      is_private_or_blocked_parts (some a ∷ some b ∷ some c ∷ some d ∷ [])
      ≡ any (in_range (address a b c d)) blocked_ranges
  unfolding is_private_or_blocked_parts
  is_private_or_blocked_parts-ranges =
      rw (by_8, by_10, by_16, by_12, by_24, by_15, by_4)
        (ground (
          arith, is_octets, in_100_64, in_169_254, in_172_16, in_192_0_0, in_192_0_2, in_192_168,
          in_198_18, in_198_51, in_203_0, in_224,
        ))
