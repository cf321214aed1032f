-- ===== src/Carrier/Comparison.antt =====
-- The comparison without early exit is equality.
use steganographer.Common.{
  ℕ, zero, suc, ◌+◌, ◌/◌, ◌≤◌, ◌≡◌, ◌↔◌, refl, sym, ap, ap₂, ◌∙◌, List, [], ◌∷◌, true, ==_refl,
  arith, length, bit_or, bit_xor,
}
use steganographer.Common.Bits.{
  bit_or_digit, bit_or-zero, bit_xor_self, bit_xor_cancel, zero-bit_xor,
}
use steganographer.Carrier.{difference, constant_time_eq}

bit_or-eq-zero_fuel : (k a b : ℕ) → a ≤ k → b ≤ k → bit_or a b ≡ 0 → (a ≡ 0) × (b ≡ 0)
bit_or-eq-zero_fuel zero a b p q h = (omega arith, omega arith)
bit_or-eq-zero_fuel (suc k) a b p q h =
    let digit = bit_or_digit a b in
    let (ha, hb) =
      bit_or-eq-zero_fuel k (a / 2) (b / 2) (omega arith) (omega arith) (omega (arith, digit, h)) in
    (omega (arith, digit, h, ha), omega (arith, digit, h, hb))

bit_or-eq-zero : (a b : ℕ) → bit_or a b ≡ 0 → (a ≡ 0) × (b ≡ 0)
bit_or-eq-zero a b h = bit_or-eq-zero_fuel (a + b) a b (omega arith) (omega arith) h

bit_xor-eq-zero : (a b : ℕ) → bit_xor a b ≡ 0 → a ≡ b
bit_xor-eq-zero a b h = sym (bit_xor_cancel a b) ∙ ap (λ (t : ℕ). bit_xor t b) h ∙ zero-bit_xor b

-- No difference is found only between equal strings, and only from none before.
difference-eq-zero :
    (diff : ℕ) (xs ys : List ℕ)
    → length xs ≡ length ys
    → difference diff xs ys ≡ 0
    → (diff ≡ 0) × (xs ≡ ys)
unfolding difference
difference-eq-zero diff [] [] e h = (h, refl)
difference-eq-zero diff [] (y ∷ ys) e h = absurd (omega arith)
difference-eq-zero diff (x ∷ xs) [] e h = absurd (omega arith)
difference-eq-zero diff (x ∷ xs) (y ∷ ys) e h =
    let (now, rest) = difference-eq-zero (bit_or diff (bit_xor x y)) xs ys (omega arith) h in
    let (before, here) = bit_or-eq-zero diff (bit_xor x y) now in
    (before, ap₂ ◌∷◌ (bit_xor-eq-zero x y here) rest)

difference_self : (xs : List ℕ) → difference 0 xs xs ≡ 0
unfolding difference
difference_self [] = refl
difference_self (x ∷ xs) =
    ap (λ (t : ℕ). difference (bit_or 0 t) xs xs) (bit_xor_self x)
    ∙ ap (λ (t : ℕ). difference t xs xs) (bit_or-zero 0)
    ∙ difference_self xs

-- `constant_time_eq` accepts two byte strings exactly if they are equal.
pub constant_time_eq_iff : (xs ys : List ℕ) → (constant_time_eq xs ys ≡ true) ↔ (xs ≡ ys)
unfolding constant_time_eq
constant_time_eq_iff xs ys = (
  λ h.
      let long : length xs ≡ length ys = ground arith in
      let none_found : difference 0 xs ys ≡ 0 = ground arith in
      (difference-eq-zero 0 xs ys long none_found).1,
  λ e.
      let same : constant_time_eq xs xs ≡ true =
        rw (==_refl (length xs), difference_self xs) refl in
      ap (constant_time_eq xs) (sym e) ∙ same,
)
