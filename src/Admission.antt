-- ===== src/Admission.antt =====
-- node/src/admission.js: which address a request comes from, and whether the firewall lets it in. A
-- text is the list of its code points; values are natural numbers, as in the source's big integers.
pub mod Prefixes
pub mod Mapped
pub mod Clients
mod Tests
use codex_pooler.Prelude.{
  ℕ, zero, suc, ◌+◌, ◌-◌, ◌*◌, ◌/◌, ◌%◌, ◌^◌, Bool, true, false, not, ◌&&◌, ◌||◌, Option, none,
  some, List, [], ◌∷◌, ◌++◌, leb, ltb, ◌==◌, if◌then◌else◌, any, all, length, take, drop, map,
  first_some,
}

abbrev pub Text : Type 0
Text = List ℕ

-- `text.split(c)`.
unfoldable pub split_on : ℕ → Text → List Text
split_on c [] = [] ∷ []
split_on c (x ∷ xs) =
    let rest = split_on c xs in
    if x == c then [] ∷ rest else elim rest [ [] ↦ (x ∷ []) ∷ [] | p ∷ ps ↦ (x ∷ p) ∷ ps ]

-- The text before the first "::", and the text behind it.
abbrev pub before_double : Text → Text
before_double [] = []
before_double (x ∷ []) = x ∷ []
before_double (x ∷ y ∷ r) =
    let rest = x ∷ before_double (y ∷ r) in if x == 58 && y == 58 then [] else rest

abbrev pub after_double : Text → Text
after_double [] = []
after_double (x ∷ []) = []
after_double (x ∷ y ∷ r) = let rest = after_double (y ∷ r) in if x == 58 && y == 58 then r else rest

abbrev pub digits_value : ℕ → (ℕ → ℕ) → ℕ → Text → ℕ
digits_value base digit v [] = v
digits_value base digit v (c ∷ cs) = digits_value base digit (v * base + digit c) cs

abbrev pub decimal_value : Text → ℕ
decimal_value t = digits_value 10 (λ c. c - 48) 0 t

abbrev pub hex_digit : ℕ → ℕ
hex_digit c = if leb c 57 then c - 48 else c - 87

abbrev pub hex_value : Text → ℕ
hex_value t = digits_value 16 hex_digit 0 t

abbrev pub join_values : ℕ → ℕ → List ℕ → ℕ
join_values base v [] = v
join_values base v (x ∷ xs) = join_values base (v * base + x) xs

abbrev pub v4_value : Text → ℕ
v4_value ip = join_values 256 0 (map decimal_value (split_on 46 ip))

-- `value.toString(16).padStart(n, '0')` of a number of at most that many digits.
abbrev pub to_hex_digit : ℕ → ℕ
to_hex_digit d = if ltb d 10 then d + 48 else d + 87

abbrev pub padded_hex : ℕ → ℕ → Text
padded_hex zero v = []
padded_hex (suc n) v = padded_hex n (v / 16) ++ to_hex_digit (v % 16) ∷ []

-- Four by four digits.
abbrev pub hex_groups : ℕ → List Text
hex_groups v = take 4 (padded_hex 8 v) ∷ drop 4 (padded_hex 8 v) ∷ []

abbrev pub has_dot : Text → Bool
has_dot part = any (λ c. c == 46) part

abbrev pub expand_v4 : List Text → List Text
expand_v4 [] = []
expand_v4 (part ∷ parts) =
    (if has_dot part then hex_groups (v4_value part) else part ∷ []) ++ expand_v4 parts

abbrev pub parts_of : Text → List Text
parts_of [] = []
parts_of (c ∷ cs) = split_on 58 (c ∷ cs)

abbrev pub zeros : ℕ → List Text
zeros zero = []
zeros (suc n) = (48 ∷ []) ∷ zeros n

-- The bits of an address and its value.
pub record IpValue : Type 0 where
  pub bits : ℕ
  pub value : ℕ

-- An IPv4 address inside of IPv6 is an IPv4 address.
abbrev pub unmap : ℕ → IpValue
unmap v =
    if v / 2 ^ 32 == 65535
    then record { bits = 32; value = v % 2 ^ 32 }
    else record { bits = 128; value = v }

abbrev pub v6_groups : Text → List Text
v6_groups ip =
    let left = expand_v4 (parts_of (before_double ip)) in
    let right = expand_v4 (parts_of (before_double (after_double ip))) in
    left ++ zeros (8 - length left - length right) ++ right

abbrev pub groups_value : List Text → Option IpValue
groups_value groups =
    if length groups == 8 then some (unmap (join_values 65536 0 (map hex_value groups))) else none

-- `value & mask` on a number of bits.
unfoldable pub bit_and_width : ℕ → ℕ → ℕ → ℕ
bit_and_width zero a b = 0
bit_and_width (suc n) a b = 2 * bit_and_width n (a / 2) (b / 2) + (a % 2) * (b % 2)

abbrev pub prefix_mask : ℕ → ℕ → ℕ
prefix_mask bits p = if p == 0 then 0 else (2 ^ p - 1) * 2 ^ (bits - p)

unfoldable pub same_network : ℕ → ℕ → ℕ → ℕ → Bool
unfolding bit_and_width
same_network bits p target base =
    bit_and_width bits target (prefix_mask bits p) == bit_and_width bits base (prefix_mask bits p)

abbrev pub is_digits : Text → Bool
is_digits [] = false
is_digits (c ∷ cs) = all (λ d. leb 48 d && leb d 57) (c ∷ cs)

abbrev pub matches_prefix : IpValue → IpValue → Option Text → Bool
matches_prefix target base none = target.value == base.value
matches_prefix target base (some p) =
    if not (is_digits p)
    then false
    else if ltb target.bits (decimal_value p)
    then false
    else same_network target.bits (decimal_value p) target.value base.value

abbrev pub matches_values : Option IpValue → Option IpValue → Option Text → Bool
matches_values none base p = false
matches_values (some target) none p = false
matches_values (some target) (some base) p =
    if target.bits == base.bits then matches_prefix target base p else false

pub record Request : Type 0 where
  pub remote_address : Text
  pub forwarded_for : Text
  pub real_ip : Text

pub record Policy : Type 0 where
  pub firewall_allowlist : List Text
  pub trusted_proxies : List Text

abbrev pub find_text : (Text → Bool) → List Text → Option Text
find_text p [] = none
find_text p (t ∷ ts) = if p t then some t else find_text p ts

abbrev pub reverse_onto : List Text → List Text → List Text
reverse_onto acc [] = acc
reverse_onto acc (t ∷ ts) = reverse_onto (t ∷ acc) ts

abbrev pub present : List (Option Text) → List Text
present [] = []
present (none ∷ ts) = present ts
present ((some t) ∷ ts) = t ∷ present ts

-- Parameters: `isIP`, which gives 4, 6 or 0, `trim` and `toLowerCase` of the platform. An IPv6 address
-- with a zone (`fe80::1%eth0`) passes `isIP`, and the source then throws in `BigInt`; that error is
-- left out, and `hex_value` reads on.
module _ (is_ip : Text → ℕ) (trim to_lower : Text → Text) where
  abbrev pub ip_value : Text → Option IpValue
  ip_value ip =
      if is_ip ip == 4
      then some (record { bits = 32; value = v4_value ip })
      else if not (is_ip ip == 6)
      then none
      else groups_value (v6_groups (to_lower ip))

  abbrev pub matches_parts : Text → List Text → Bool
  matches_parts ip [] = false
  matches_parts ip (network ∷ []) = matches_values (ip_value ip) (ip_value network) none
  matches_parts ip (network ∷ p ∷ []) = matches_values (ip_value ip) (ip_value network) (some p)
  matches_parts ip (network ∷ p ∷ extra ∷ rest) = false

  pub matches_rule : Text → Text → Bool
  unfolding split_on same_network
  matches_rule ip rule = matches_parts ip (split_on 47 (trim rule))

  abbrev pub matches : Text → List Text → Bool
  matches ip rules = any (matches_rule ip) rules

  abbrev pub address : Text → Option Text
  address value = if is_ip (trim value) == 0 then none else some (trim value)

  -- The forwarded addresses, the last first.
  unfoldable pub forwarded_addresses : Text → List Text
  unfolding split_on
  forwarded_addresses header = reverse_onto [] (present (map address (split_on 44 header)))

  abbrev pub client_behind : Request → Policy → Text → Option Text
  client_behind req policy peer =
      if not (matches peer policy.trusted_proxies)
      then some peer
      else first_some
          (find_text (λ ip. not (matches ip policy.trusted_proxies))
            (forwarded_addresses req.forwarded_for))
          (first_some (address req.real_ip) (some peer))

  abbrev pub client_of_peer : Request → Policy → Option Text → Option Text
  client_of_peer req policy none = none
  client_of_peer req policy (some peer) = client_behind req policy peer

  unfoldable pub client_ip : Request → Policy → Option Text
  unfolding forwarded_addresses
  client_ip req policy = client_of_peer req policy (address req.remote_address)

  abbrev pub matches_client : Option Text → List Text → Bool
  matches_client none rules = false
  matches_client (some ip) rules = matches ip rules

  unfoldable pub firewall_allowed : Request → Policy → Bool
  unfolding client_ip
  firewall_allowed req policy = elim policy.firewall_allowlist [
    | [] ↦ true
    | rule ∷ rules ↦ matches_client (client_ip req policy) (rule ∷ rules)
  ]
