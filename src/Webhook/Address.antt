-- ===== src/Webhook/Address.antt =====
-- services/webhook.rs: which addresses a webhook may have.
pub mod Ranges
use form_respondent_role.Prelude.{
  ℕ, ◌/◌, ◌%◌, String, Bool, true, false, not, ◌&&◌, ◌||◌, List, [], ◌∷◌, Option, none, some,
  map_or, and_then, all, leb, ◌==◌, str_eq, if◌then◌else◌,
}
use form_respondent_role.Text.{to_ascii_lowercase, ends_with, strip_prefix, strip_last}

-- The four octets, and the eight segments.
pub data IpAddr : Type 0 where
  v4 : (a b c d : ℕ) → IpAddr
  v6 : (a b c d e f g h : ℕ) → IpAddr

-- `reqwest::Url::parse`, with the scheme and `host_str`, and the parsing of an `IpAddr`.
pub record UrlHost : Type 0 where
  pub parse_url : String → Option (String × Option String)
  pub parse_ip : String → Option IpAddr

-- The tests of `Ipv4Addr`.
unfoldable pub is_loopback : ℕ → Bool
is_loopback a = a == 127

unfoldable pub is_unspecified : (a b c d : ℕ) → Bool
is_unspecified a b c d = a == 0 && (b == 0 && (c == 0 && d == 0))

unfoldable pub is_private : (a b : ℕ) → Bool
is_private a b = a == 10 || (a == 172 && (leb 16 b && leb b 31) || a == 192 && b == 168)

unfoldable pub is_link_local : (a b : ℕ) → Bool
is_link_local a b = a == 169 && b == 254

unfoldable pub is_multicast : ℕ → Bool
is_multicast a = leb 224 a && leb a 239

unfoldable pub is_safe_v4 : (a b c d : ℕ) → Bool
unfolding is_loopback is_unspecified is_private is_link_local is_multicast
is_safe_v4 a b c d =
    not (is_loopback a || is_unspecified a b c d)
    && not (is_private a b || (is_link_local a b || is_multicast a))

-- `Ipv6Addr::to_ipv4`, of a compatible or a mapped address.
unfoldable pub to_ipv4 : IpAddr → Option (ℕ × ℕ × ℕ × ℕ)
to_ipv4 (v4 a b c d) = none
to_ipv4 (v6 a b c d e f g h) =
    if a == 0 && (b == 0 && (c == 0 && (d == 0 && (e == 0 && (f == 0 || f == 65535)))))
    then some (g / 256, g % 256, h / 256, h % 256)
    else none

-- `::` and `::1`.
abbrev is_local_v6 : (a b c d e f g h : ℕ) → Bool
is_local_v6 a b c d e f g h =
    a == 0 && (b == 0 && (c == 0 && (d == 0 && (e == 0 && (f == 0 && (g == 0 && leb h 1))))))

-- The ranges fc00::/7, fe80::/10 and ff00::/8.
abbrev is_reserved_v6 : ℕ → Bool
is_reserved_v6 a = a / 512 == 126 || (a / 64 == 1018 || a / 256 == 255)

abbrev embedded_safe : Option (ℕ × ℕ × ℕ × ℕ) → Bool
unfolding is_safe_v4
embedded_safe none = true
embedded_safe (some (a, b, c, d)) = is_safe_v4 a b c d

unfoldable pub is_safe_ip : IpAddr → Bool
unfolding is_safe_v4 to_ipv4 embedded_safe
is_safe_ip (v4 a b c d) = is_safe_v4 a b c d
is_safe_ip (v6 a b c d e f g h) =
    not (is_local_v6 a b c d e f g h)
    && (not (is_reserved_v6 a) && embedded_safe (to_ipv4 (v6 a b c d e f g h)))

-- The brackets of an IPv6 literal.
abbrev unbracketed : String → String
unfolding strip_prefix strip_last
unbracketed host = map_or host (λ s. s) (and_then (strip_prefix "[" host) (strip_last b']'))

abbrev safe_host : UrlHost → String → Bool
unfolding ends_with is_safe_ip unbracketed
safe_host u host =
    if str_eq host "localhost" || ends_with host ".localhost"
    then false
    else map_or true is_safe_ip (u.parse_ip (unbracketed host))

unfoldable pub is_safe_url : UrlHost → String → Bool
unfolding to_ascii_lowercase safe_host
is_safe_url u url =
    map_or false
      (λ (parsed : String × Option String).
        if not (str_eq parsed.0 "https")
        then false
        else map_or false (λ host. safe_host u (to_ascii_lowercase host)) parsed.1)
      (u.parse_url url)
