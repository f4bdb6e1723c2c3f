-- ===== src/Admission/Tests.antt =====
-- Addresses of requests, and the theorems at concrete inputs.
use codex_pooler.Prelude.{
  ℕ, ◌-◌, ◌/◌, ◌^◌, ◌≡◌, ◌↔◌, refl, true, false, some, [], ◌∷◌, ◌++◌, map, arith, any, ◌==◌,
  if◌then◌else◌,
}
use codex_pooler.Admission.{
  Text, Request, Policy, has_dot, hex_value, hex_groups, join_values, zeros, groups_value,
  same_network, ip_value, matches, matches_rule, client_ip, firewall_allowed, split_on,
}
use codex_pooler.Admission.Prefixes.{same_network_iff}
use codex_pooler.Admission.Mapped.{hex_groups-unmap}
use codex_pooler.Admission.Clients.{client_ip_appended}

abbrev is_ip : Text → ℕ
is_ip t = if any (λ c. c == 58) t then 6 else if has_dot t then 4 else 0

abbrev same : Text → Text
same t = t

-- "10.0.0.1", "10.0.0.0/8", "9.9.9.9", "1.1.1.1" and "::ffff:10.0.0.1".
abbrev proxy : Text
proxy = 49 ∷ 48 ∷ 46 ∷ 48 ∷ 46 ∷ 48 ∷ 46 ∷ 49 ∷ []

abbrev proxies : Text
proxies = 49 ∷ 48 ∷ 46 ∷ 48 ∷ 46 ∷ 48 ∷ 46 ∷ 48 ∷ 47 ∷ 56 ∷ []

abbrev caller : Text
caller = 57 ∷ 46 ∷ 57 ∷ 46 ∷ 57 ∷ 46 ∷ 57 ∷ []

abbrev claimed : Text
claimed = 49 ∷ 46 ∷ 49 ∷ 46 ∷ 49 ∷ 46 ∷ 49 ∷ []

abbrev mapped_proxy : Text
mapped_proxy = 58 ∷ 58 ∷ 102 ∷ 102 ∷ 102 ∷ 102 ∷ 58 ∷ proxy

abbrev policy : Policy
policy = record { firewall_allowlist = caller ∷ []; trusted_proxies = proxies ∷ [] }

abbrev request : Request
request = record { remote_address = proxy; forwarded_for = claimed ++ 44 ∷ caller; real_ip = [] }

runs :
    (ip_value is_ip same same mapped_proxy ≡ some (record { bits = 32; value = 167772161 }))
    × (matches is_ip same same mapped_proxy (proxies ∷ []) ≡ true)
    × (matches is_ip same same caller (proxies ∷ []) ≡ false)
    × (firewall_allowed is_ip same same request policy ≡ true)
unfolding split_on matches_rule same_network firewall_allowed
runs = (refl, refl, refl, refl)

same_network_iff_example :
    (same_network 32 8 167772161 167772160 ≡ true)
    ↔ (167772161 / 2 ^ (32 - 8) ≡ 167772160 / 2 ^ (32 - 8))
same_network_iff_example =
    same_network_iff 32 8 167772161 167772160 (omega arith) (omega arith) (omega arith)

hex_groups-unmap_example :
    (join_values 65536 0 (map hex_value (hex_groups 167772161)) ≡ 167772161)
    × (groups_value (zeros 5 ++ (102 ∷ 102 ∷ 102 ∷ 102 ∷ []) ∷ hex_groups 167772161)
        ≡ some (record { bits = 32; value = 167772161 }))
hex_groups-unmap_example = hex_groups-unmap 167772161 (omega arith)

proxy_trusted : matches is_ip same same proxy (proxies ∷ []) ≡ true
unfolding split_on matches_rule same_network
proxy_trusted = refl

caller_untrusted : matches is_ip same same caller (proxies ∷ []) ≡ false
unfolding split_on matches_rule same_network
caller_untrusted = refl

client_ip_appended_example : client_ip is_ip same same request policy ≡ some caller
client_ip_appended_example =
    client_ip_appended is_ip same same request policy proxy claimed caller caller refl proxy_trusted
      refl refl refl caller_untrusted
