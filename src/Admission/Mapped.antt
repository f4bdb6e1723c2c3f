-- ===== src/Admission/Mapped.antt =====
-- An IPv4 address in the dotted form at the end of an IPv6 address is printed in hexadecimal and read
-- again.
use native.Mathlib.Nat.{pow-suc}
use codex_pooler.Prelude.{
  ℕ, zero, suc, ◌+◌, ◌*◌, ◌/◌, ◌%◌, ◌^◌, ◌<◌, ◌≡◌, refl, ap, ◌∙◌, some, List, [], ◌∷◌, ◌++◌, map,
  arith,
}
use codex_pooler.Admission.{
  to_hex_digit, hex_digit, hex_value, digits_value, padded_hex, hex_groups, join_values, unmap,
  zeros, groups_value,
}

hex_digit-to_hex_digit : (d : ℕ) → d < 16 → hex_digit (to_hex_digit d) ≡ d
hex_digit-to_hex_digit d h = ground arith

digits_value-append :
    (v : ℕ) (a : List ℕ) (c : ℕ)
    → digits_value 16 hex_digit v (a ++ c ∷ []) ≡ digits_value 16 hex_digit v a * 16 + hex_digit c
digits_value-append v [] c = refl
digits_value-append v (d ∷ a) c = digits_value-append (v * 16 + hex_digit d) a c

-- Printing and reading again.
hex_value-padded_hex : (n v : ℕ) → v < 16 ^ n → hex_value (padded_hex n v) ≡ v
hex_value-padded_hex zero v h = omega (arith, h)
hex_value-padded_hex (suc n) v h =
    digits_value-append 0 (padded_hex n (v / 16)) (to_hex_digit (v % 16))
    ∙ omega (
      arith,
      hex_value-padded_hex n (v / 16) (omega (arith, h, pow-suc 16 n)),
      hex_digit-to_hex_digit (v % 16) (omega arith),
    )

-- The low four digits of any number.
hex_value-low_group : (v : ℕ) → hex_value (padded_hex 4 v) ≡ v % 65536
hex_value-low_group v = omega (
  arith,
  hex_digit-to_hex_digit (v % 16) (omega arith),
  hex_digit-to_hex_digit (v / 16 % 16) (omega arith),
  hex_digit-to_hex_digit (v / 16 / 16 % 16) (omega arith),
  hex_digit-to_hex_digit (v / 16 / 16 / 16 % 16) (omega arith),
)

high_group : (v : ℕ) → v < 2 ^ 32 → hex_value (padded_hex 4 (v / 16 / 16 / 16 / 16)) ≡ v / 65536
high_group v h = hex_value-padded_hex 4 (v / 16 / 16 / 16 / 16) (omega (arith, h)) ∙ omega arith

unmap_mapped : (v : ℕ) → v < 2 ^ 32 → unmap (65535 * 2 ^ 32 + v) ≡ record { bits = 32; value = v }
unmap_mapped v h =
    let top : (65535 * 2 ^ 32 + v) / 2 ^ 32 ≡ 65535 = omega (arith, h) in
    let low : (65535 * 2 ^ 32 + v) % 2 ^ 32 ≡ v = omega (arith, h) in rw (top, low) refl

-- The two groups of four hexadecimal digits that an IPv4 address is turned into read back as its value,
-- and an IPv6 address that is an IPv4 address behind ::ffff: counts as that IPv4 address.
pub hex_groups-unmap :
    (v : ℕ)
    → v < 2 ^ 32
    → (join_values 65536 0 (map hex_value (hex_groups v)) ≡ v)
      × (groups_value (zeros 5 ++ (102 ∷ 102 ∷ 102 ∷ 102 ∷ []) ∷ hex_groups v)
          ≡ some (record { bits = 32; value = v }))
hex_groups-unmap v h =
    let joined : v / 65536 * 65536 + v % 65536 ≡ v = omega arith in
    let groups : map hex_value (hex_groups v) ≡ v / 65536 ∷ v % 65536 ∷ [] =
      rw (high_group v h, hex_value-low_group v) refl in
    let behind =
      λ (xs : List ℕ). some (unmap (join_values 65536 0 (0 ∷ 0 ∷ 0 ∷ 0 ∷ 0 ∷ 65535 ∷ xs))) in
    let value : (65535 * 65536 + v / 65536) * 65536 + v % 65536 ≡ 65535 * 2 ^ 32 + v =
      omega (arith, joined) in
    (
      ap (join_values 65536 0) groups ∙ omega (arith, joined),
      ap behind groups ∙ ap (λ t. some (unmap t)) value ∙ ap some (unmap_mapped v h),
    )
