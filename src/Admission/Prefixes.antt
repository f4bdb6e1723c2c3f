-- ===== src/Admission/Prefixes.antt =====
-- A rule with a prefix compares the leading bits of two addresses.
use native.Mathlib.Nat.{two-pow-succ, div-div-eq-div-mul, mul_assoc, mul_comm}
use codex_pooler.Prelude.{
  ℕ, zero, suc, ◌+◌, ◌-◌, ◌*◌, ◌/◌, ◌%◌, ◌^◌, ◌≤◌, ◌<◌, ◌≡◌, ◌↔◌, refl, sym, ap, ◌∙◌, subst, true,
  arith, ◌==◌, ==_iff, Bool-cases, inl, inr,
}
use codex_pooler.Admission.{bit_and_width, prefix_mask, same_network}

pow_positive : (p : ℕ) → 1 ≤ 2 ^ p
pow_positive zero = omega arith
pow_positive (suc p) = omega (arith, two-pow-succ p, pow_positive p)

-- The law of one more bit, for a mask whose lowest bit is known.
bit_and_odd :
    (n a b : ℕ) → bit_and_width (suc n) a (2 * b + 1) ≡ 2 * bit_and_width n (a / 2) b + a % 2
unfolding bit_and_width
bit_and_odd n a b =
    let half : (2 * b + 1) / 2 ≡ b = omega arith in
    let low : (2 * b + 1) % 2 ≡ 1 = omega arith in rw (half, low) (omega arith)

bit_and_even : (n a b : ℕ) → bit_and_width (suc n) a (2 * b) ≡ 2 * bit_and_width n (a / 2) b
unfolding bit_and_width
bit_and_even n a b =
    let half : (2 * b) / 2 ≡ b = omega arith in
    let low : (2 * b) % 2 ≡ 0 = omega arith in rw (half, low) (omega arith)

-- A mask of ones keeps a number that fits.
bit_and_ones : (p a : ℕ) → a < 2 ^ p → bit_and_width p a (2 ^ p - 1) ≡ a
unfolding bit_and_width
bit_and_ones zero a h = omega (arith, h)
bit_and_ones (suc p) a h =
    let mask : 2 ^ suc p - 1 ≡ 2 * (2 ^ p - 1) + 1 =
      omega (arith, two-pow-succ p, pow_positive p) in
    ap (bit_and_width (suc p) a) mask
    ∙ bit_and_odd p a (2 ^ p - 1)
    ∙ omega (arith, bit_and_ones p (a / 2) (omega (arith, h, two-pow-succ p)))

pow_suc_times : (m x : ℕ) → x * 2 ^ suc m ≡ 2 * (x * 2 ^ m)
pow_suc_times m x =
    ap (λ t. x * t) (omega (arith, two-pow-succ m))
    ∙ sym (mul_assoc x (2 ^ m) 2)
    ∙ mul_comm (x * 2 ^ m) 2

-- A mask of ones before zeros keeps the leading bits.
bit_and_leading :
    (m p n a : ℕ)
    → n ≡ m + p
    → a < 2 ^ p * 2 ^ m
    → bit_and_width n a ((2 ^ p - 1) * 2 ^ m) ≡ a / 2 ^ m * 2 ^ m
bit_and_leading zero p n a e h =
    let same : n ≡ p = omega (arith, e) in
    let mask : (2 ^ p - 1) * 1 ≡ 2 ^ p - 1 = omega arith in
    let whole : a / 1 * 1 ≡ a = omega arith in
    ap (λ k. bit_and_width k a ((2 ^ p - 1) * 1)) same
    ∙ ap (bit_and_width p a) mask
    ∙ bit_and_ones p a (omega (arith, h))
    ∙ sym whole
bit_and_leading (suc m) p zero a e h = absurd (omega (arith, e))
bit_and_leading (suc m) p (suc n) a e h =
    let halves : a / 2 / 2 ^ m ≡ a / 2 ^ suc m =
      div-div-eq-div-mul a 2 (2 ^ m) ∙ ap (λ t. a / t) (omega (arith, two-pow-succ m)) in
    let small : a / 2 < 2 ^ p * 2 ^ m = omega (arith, h, pow_suc_times m (2 ^ p)) in
    ap (bit_and_width (suc n) a) (pow_suc_times m (2 ^ p - 1))
    ∙ bit_and_even n a ((2 ^ p - 1) * 2 ^ m)
    ∙ ap (λ t. 2 * t)
        (bit_and_leading m p n (a / 2) (omega (arith, e)) small ∙ ap (λ t. t * 2 ^ m) halves)
    ∙ sym (pow_suc_times m (a / 2 ^ suc m))

times_pow_injective : (m x y : ℕ) → x * 2 ^ m ≡ y * 2 ^ m → x ≡ y
times_pow_injective zero x y h = omega (arith, h)
times_pow_injective (suc m) x y h =
    times_pow_injective m x y (omega (arith, h, pow_suc_times m x, pow_suc_times m y))

pow_split : (m p n : ℕ) → n ≡ m + p → 2 ^ n ≡ 2 ^ p * 2 ^ m
pow_split zero p n e = let same : n ≡ p = omega (arith, e) in ap (λ k. 2 ^ k) same ∙ omega arith
pow_split (suc m) p zero e = absurd (omega (arith, e))
pow_split (suc m) p (suc n) e =
    omega (arith, two-pow-succ n, pow_split m p n (omega (arith, e)), pow_suc_times m (2 ^ p))

prefix_mask_lem : (bits p : ℕ) → prefix_mask bits p ≡ (2 ^ p - 1) * 2 ^ (bits - p)
prefix_mask_lem bits p = elim (Bool-cases (p == 0)) [
  | inl e ↦
      let none : p ≡ 0 = (==_iff p 0).0 e in
      rw e (subst (λ q. 0 ≡ (2 ^ q - 1) * 2 ^ (bits - q)) (sym none) (omega arith))
  | inr e ↦ rw e refl
]

masked :
    (bits p x : ℕ)
    → p ≤ bits
    → x < 2 ^ bits
    → bit_and_width bits x (prefix_mask bits p) ≡ x / 2 ^ (bits - p) * 2 ^ (bits - p)
masked bits p x h small =
    let whole : bits ≡ (bits - p) + p = omega (arith, h) in
    ap (bit_and_width bits x) (prefix_mask_lem bits p)
    ∙ bit_and_leading (bits - p) p bits x whole
        (omega (arith, small, pow_split (bits - p) p bits whole))

-- Two addresses of the same width are in the same network of a prefix exactly when their numbers
-- without the bits behind the prefix are the same.
pub same_network_iff :
    (bits p x y : ℕ)
    → p ≤ bits
    → x < 2 ^ bits
    → y < 2 ^ bits
    → (same_network bits p x y ≡ true) ↔ (x / 2 ^ (bits - p) ≡ y / 2 ^ (bits - p))
unfolding same_network
same_network_iff bits p x y h small_x small_y =
    let mx = masked bits p x h small_x in
    let my = masked bits p y h small_y in
    let left = bit_and_width bits x (prefix_mask bits p) in
    let right = bit_and_width bits y (prefix_mask bits p) in
    (
      λ e.
          times_pow_injective (bits - p) (x / 2 ^ (bits - p)) (y / 2 ^ (bits - p))
            (sym mx ∙ (==_iff left right).0 e ∙ my),
      λ e. (==_iff left right).1 (mx ∙ ap (λ t. t * 2 ^ (bits - p)) e ∙ sym my),
    )
