-- ===== src/Webhook/Address/Ranges.antt =====
-- The addresses that are refused, as ranges of 32-bit numbers.
use form_respondent_role.Prelude.{refl, ◌/◌, ◌%◌, ℕ, ◌+◌, ◌*◌, ◌<◌, true, ◌≡◌, ◌⊎◌, ◌↔◌, arith}
use form_respondent_role.Webhook.Address.{
  v4, v6, is_safe_ip, to_ipv4, is_safe_v4, is_loopback, is_unspecified, is_private, is_link_local,
  is_multicast,
}

abbrev pub address : (a b c d : ℕ) → ℕ
address a b c d = ((a * 256 + b) * 256 + c) * 256 + d

abbrev pub IsOutside : (first last n : ℕ) → Type 0
IsOutside first last n = (n < first) ⊎ (last < n)

same_octets :
    (a b c d : ℕ)
    → a < 256
    → b < 256
    → c < 256
    → d < 256
    → is_safe_v4
        ((a * 256 + b) / 256)
        ((a * 256 + b) % 256)
        ((c * 256 + d) / 256)
        ((c * 256 + d) % 256)
      ≡ is_safe_v4 a b c d
same_octets a b c d p q r s =
    let first : (a * 256 + b) / 256 ≡ a = omega arith in
    let second : (a * 256 + b) % 256 ≡ b = omega arith in
    let third : (c * 256 + d) / 256 ≡ c = omega arith in
    let fourth : (c * 256 + d) % 256 ≡ d = omega arith in rw (first, second, third, fourth) refl

-- The ranges 10.0.0.0/8, 127.0.0.0/8, 169.254.0.0/16, 172.16.0.0/12, 192.168.0.0/16 and
-- 224.0.0.0/4, beside 0.0.0.0.
abbrev pub IsUnlisted : ℕ → Type 0
IsUnlisted n =
    (0 < n)
    × IsOutside 167772160 184549375 n
    × IsOutside 2130706432 2147483647 n
    × IsOutside 2851995648 2852061183 n
    × IsOutside 2886729728 2887778303 n
    × IsOutside 3232235520 3232301055 n
    × IsOutside 3758096384 4026531839 n

is_safe_v4-IsUnlisted :
    (a b c d : ℕ)
    → a < 256
    → b < 256
    → c < 256
    → d < 256
    → (is_safe_v4 a b c d ≡ true) ↔ IsUnlisted (address a b c d)
unfolding is_safe_v4 is_loopback is_unspecified is_private is_link_local is_multicast
is_safe_v4-IsUnlisted a b c d p q r s = ground arith

-- An IPv4 address of four octets is let through exactly when it is not 0.0.0.0 and its 32-bit
-- number is in none of the ranges 10.0.0.0/8, 127.0.0.0/8, 169.254.0.0/16, 172.16.0.0/12,
-- 192.168.0.0/16 and 224.0.0.0/4; and an IPv4-mapped IPv6 address, with its octets in pairs,
-- exactly when that IPv4 address is.
pub is_safe_ip_iff :
    (a b c d : ℕ)
    → a < 256
    → b < 256
    → c < 256
    → d < 256
    → ((is_safe_ip (v4 a b c d) ≡ true) ↔ IsUnlisted (address a b c d))
      × ((is_safe_ip (v6 0 0 0 0 0 65535 (a * 256 + b) (c * 256 + d)) ≡ true)
          ↔ IsUnlisted (address a b c d))
unfolding is_safe_ip to_ipv4
is_safe_ip_iff a b c d p q r s = (
  is_safe_v4-IsUnlisted a b c d p q r s,
  rw (same_octets a b c d p q r s) (is_safe_v4-IsUnlisted a b c d p q r s),
)
