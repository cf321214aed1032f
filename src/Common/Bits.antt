-- ===== src/Common/Bits.antt =====
-- `&`, `|` and `^` on machine words at every width, from the equation for the lowest binary digit.
use Prim.Native.Nat.{digits, bitwise, differ, bit_and-bitwise, bit_or-bitwise, bit_xor-bitwise}
use Prim.Native.Nat.{ℕ, zero, suc, ◌+◌, ◌-◌, ◌*◌, ◌/◌, ◌%◌, ◌^◌, ◌≤◌, ◌<◌, min, max}
use Prim.Native.Nat.{bit_and, bit_or, bit_xor}
use mathlib.Core.Path.{◌≡◌, refl, sym, ap, ◌∙◌}
use native.Mathlib.Omega.{arith}
use native.Mathlib.Nat.{pow-suc, one-le-pow, mod-lt, div-add-mod'}

module _ (z : ℕ → ℕ) (f : ℕ → ℕ → ℕ) where
  -- More fuel than the left number has digits changes nothing.
  fuel_irrelevant : (k l a b : ℕ) → a ≤ k → a ≤ l → digits z f k a b ≡ digits z f l a b
  fuel_irrelevant zero zero a b p q = refl
  fuel_irrelevant zero (suc l) zero b p q = refl
  fuel_irrelevant zero (suc l) (suc a) b p q = absurd (omega arith)
  fuel_irrelevant (suc k) zero zero b p q = refl
  fuel_irrelevant (suc k) zero (suc a) b p q = absurd (omega arith)
  fuel_irrelevant (suc k) (suc l) zero b p q = refl
  fuel_irrelevant (suc k) (suc l) (suc a) b p q =
      ap (λ (t : ℕ). t * 2 + f (suc a % 2) (b % 2))
        (fuel_irrelevant k l (suc a / 2) (b / 2) (omega arith) (omega arith))

  lowest_digit :
      (a b : ℕ)
      → bitwise z f (suc a) b ≡ bitwise z f (suc a / 2) (b / 2) * 2 + f (suc a % 2) (b % 2)
  lowest_digit a b =
      ap (λ (t : ℕ). t * 2 + f (suc a % 2) (b % 2))
        (fuel_irrelevant a (suc a / 2) (suc a / 2) (b / 2) (omega arith) (omega arith))

pub bit_and_digit : (a b : ℕ) → bit_and a b ≡ bit_and (a / 2) (b / 2) * 2 + min (a % 2) (b % 2)
bit_and_digit zero b = simp bit_and-bitwise (omega arith)
bit_and_digit (suc a) b = simp bit_and-bitwise (lowest_digit (λ t. 0) min a b)

pub bit_or_digit : (a b : ℕ) → bit_or a b ≡ bit_or (a / 2) (b / 2) * 2 + max (a % 2) (b % 2)
bit_or_digit zero b = simp bit_or-bitwise (omega arith)
bit_or_digit (suc a) b = simp bit_or-bitwise (lowest_digit (λ t. t) max a b)

differ_lem : (a b : ℕ) → a < 2 → b < 2 → differ a b ≡ (a + b) % 2
differ_lem zero b p q = omega arith
differ_lem (suc zero) zero p q = refl
differ_lem (suc zero) (suc zero) p q = refl
differ_lem (suc zero) (suc (suc b)) p q = absurd (omega arith)
differ_lem (suc (suc a)) b p q = absurd (omega arith)

pub bit_xor_digit : (a b : ℕ) → bit_xor a b ≡ bit_xor (a / 2) (b / 2) * 2 + (a % 2 + b % 2) % 2
bit_xor_digit zero b = simp bit_xor-bitwise (omega arith)
bit_xor_digit (suc a) b = omega (
  arith,
  bit_xor-bitwise (suc a) b,
  bit_xor-bitwise (suc a / 2) (b / 2),
  lowest_digit (λ t. t) differ a b,
  differ_lem (suc a % 2) (b % 2) (omega arith) (omega arith),
)

pub zero-bit_xor : (b : ℕ) → bit_xor 0 b ≡ b
zero-bit_xor b = bit_xor-bitwise 0 b

-- The laws go from the halves to the numbers, with fuel above every number.
bit_xor_comm_fuel : (k a b : ℕ) → a ≤ k → b ≤ k → bit_xor a b ≡ bit_xor b a
bit_xor_comm_fuel zero a b p q =
    let ea : a ≡ 0 = omega arith in let eb : b ≡ 0 = omega arith in rw (ea, eb)
bit_xor_comm_fuel (suc k) a b p q = omega (
  arith,
  bit_xor_digit a b,
  bit_xor_digit b a,
  bit_xor_comm_fuel k (a / 2) (b / 2) (omega arith) (omega arith),
)

pub bit_xor_comm : (a b : ℕ) → bit_xor a b ≡ bit_xor b a
bit_xor_comm a b = bit_xor_comm_fuel (a + b) a b (omega arith) (omega arith)

pub bit_xor-zero : (a : ℕ) → bit_xor a 0 ≡ a
bit_xor-zero a = bit_xor_comm a 0 ∙ zero-bit_xor a

bit_xor_halves : (a b : ℕ) → bit_xor a b / 2 ≡ bit_xor (a / 2) (b / 2)
bit_xor_halves a b = omega (arith, bit_xor_digit a b)

bit_xor_parity : (a b : ℕ) → bit_xor a b % 2 ≡ (a % 2 + b % 2) % 2
bit_xor_parity a b = omega (arith, bit_xor_digit a b)

bit_xor_assoc_fuel :
    (k a b c : ℕ) → a ≤ k → b ≤ k → c ≤ k → bit_xor (bit_xor a b) c ≡ bit_xor a (bit_xor b c)
bit_xor_assoc_fuel zero a b c p q r =
    let ea : a ≡ 0 = omega arith in
    let eb : b ≡ 0 = omega arith in let ec : c ≡ 0 = omega arith in rw (ea, eb, ec)
bit_xor_assoc_fuel (suc k) a b c p q r =
    let left : bit_xor (bit_xor a b) c
        ≡ bit_xor (bit_xor (a / 2) (b / 2)) (c / 2) * 2 + ((a % 2 + b % 2) % 2 + c % 2) % 2 =
      bit_xor_digit (bit_xor a b) c ∙ (rw (bit_xor_halves a b, bit_xor_parity a b)) in
    let right : bit_xor a (bit_xor b c)
        ≡ bit_xor (a / 2) (bit_xor (b / 2) (c / 2)) * 2 + (a % 2 + (b % 2 + c % 2) % 2) % 2 =
      bit_xor_digit a (bit_xor b c) ∙ (rw (bit_xor_halves b c, bit_xor_parity b c)) in
    omega (
      arith,
      left,
      right,
      bit_xor_assoc_fuel k (a / 2) (b / 2) (c / 2) (omega arith) (omega arith) (omega arith),
    )

pub bit_xor_assoc : (a b c : ℕ) → bit_xor (bit_xor a b) c ≡ bit_xor a (bit_xor b c)
bit_xor_assoc a b c = bit_xor_assoc_fuel (a + b + c) a b c (omega arith) (omega arith) (omega arith)

bit_xor_self_fuel : (k a : ℕ) → a ≤ k → bit_xor a a ≡ 0
bit_xor_self_fuel zero a p = let ea : a ≡ 0 = omega arith in rw ea
bit_xor_self_fuel (suc k) a p =
    omega (arith, bit_xor_digit a a, bit_xor_self_fuel k (a / 2) (omega arith))

pub bit_xor_self : (a : ℕ) → bit_xor a a ≡ 0
bit_xor_self a = bit_xor_self_fuel a a (omega arith)

-- Flipping the same bits twice restores the number.
pub bit_xor_cancel : (a b : ℕ) → bit_xor (bit_xor a b) b ≡ a
bit_xor_cancel a b = bit_xor_assoc a b b ∙ ap (bit_xor a) (bit_xor_self b) ∙ bit_xor-zero a

pub bit_xor-lt : (k a b : ℕ) → a < 2 ^ k → b < 2 ^ k → bit_xor a b < 2 ^ k
bit_xor-lt zero a b p q =
    let ea : a ≡ 0 = omega arith in let eb : b ≡ 0 = omega arith in rw (ea, eb) (omega arith)
bit_xor-lt (suc k) a b p q = omega (
  arith,
  pow-suc 2 k,
  bit_xor_digit a b,
  bit_xor-lt k (a / 2) (b / 2) (omega (arith, pow-suc 2 k)) (omega (arith, pow-suc 2 k)),
)

-- A mask of `k` ones keeps the remainder by `2 ^ k`.
bit_and-zero_fuel : (k a : ℕ) → a ≤ k → bit_and a 0 ≡ 0
bit_and-zero_fuel zero a p = let ea : a ≡ 0 = omega arith in rw ea
bit_and-zero_fuel (suc k) a p =
    omega (arith, bit_and_digit a 0, bit_and-zero_fuel k (a / 2) (omega arith))

pub bit_and-zero : (a : ℕ) → bit_and a 0 ≡ 0
bit_and-zero a = bit_and-zero_fuel a a (omega arith)

bit_or-zero_fuel : (k a : ℕ) → a ≤ k → bit_or a 0 ≡ a
bit_or-zero_fuel zero a p = let ea : a ≡ 0 = omega arith in rw ea
bit_or-zero_fuel (suc k) a p =
    omega (arith, bit_or_digit a 0, bit_or-zero_fuel k (a / 2) (omega arith))

bit_and_masked : (k q r : ℕ) → r < 2 ^ k → bit_and (q * 2 ^ k + r) (2 ^ k - 1) ≡ r
bit_and_masked zero q r p = rw bit_and-zero (omega arith)
bit_and_masked (suc k) q r p =
    let shifted : q * 2 ^ suc k ≡ 2 * (q * 2 ^ k) =
      omega (arith, ap (λ (t : ℕ). q * t) (pow-suc 2 k)) in
    let halves : (q * 2 ^ suc k + r) / 2 ≡ q * 2 ^ k + r / 2 = omega arith in
    let ones : (2 ^ suc k - 1) / 2 ≡ 2 ^ k - 1 =
      omega (arith, pow-suc 2 k, one-le-pow k 2 (omega arith)) in
    let digit : bit_and (q * 2 ^ suc k + r) (2 ^ suc k - 1)
        ≡ bit_and (q * 2 ^ k + r / 2) (2 ^ k - 1) * 2
          + min ((q * 2 ^ suc k + r) % 2) ((2 ^ suc k - 1) % 2) =
      rw (← halves, ← ones) (bit_and_digit (q * 2 ^ suc k + r) (2 ^ suc k - 1)) in
    omega (
      arith,
      pow-suc 2 k,
      one-le-pow k 2 (omega arith),
      digit,
      bit_and_masked k q (r / 2) (omega (arith, pow-suc 2 k)),
    )

pub bit_and_mask : (k a : ℕ) → bit_and a (2 ^ k - 1) ≡ a % 2 ^ k
bit_and_mask k a =
    let pos : 0 < 2 ^ k = one-le-pow k 2 (omega arith) in
    let whole : a / 2 ^ k * 2 ^ k + a % 2 ^ k ≡ a = div-add-mod' a (2 ^ k) in
    ap (λ (t : ℕ). bit_and t (2 ^ k - 1)) (sym whole)
    ∙ bit_and_masked k (a / 2 ^ k) (a % 2 ^ k) (mod-lt a pos)

-- `|` of a field shifted by `k` and a number of `k` bits is their sum.
pub bit_or_fields : (k q r : ℕ) → r < 2 ^ k → bit_or (q * 2 ^ k) r ≡ q * 2 ^ k + r
bit_or_fields zero q r p =
    let er : r ≡ 0 = omega arith in
    rw er (bit_or-zero_fuel (q * 2 ^ 0) (q * 2 ^ 0) (omega arith) ∙ (omega arith))
bit_or_fields (suc k) q r p =
    let shifted : q * 2 ^ suc k ≡ 2 * (q * 2 ^ k) =
      omega (arith, ap (λ (t : ℕ). q * t) (pow-suc 2 k)) in
    let halves : q * 2 ^ suc k / 2 ≡ q * 2 ^ k = omega arith in
    let digit : bit_or (q * 2 ^ suc k) r
        ≡ bit_or (q * 2 ^ k) (r / 2) * 2 + max (q * 2 ^ suc k % 2) (r % 2) =
      rw (← halves) (bit_or_digit (q * 2 ^ suc k) r) in
    omega (arith, digit, bit_or_fields k q (r / 2) (omega (arith, pow-suc 2 k)))

bit_or_comm_fuel : (k a b : ℕ) → a ≤ k → b ≤ k → bit_or a b ≡ bit_or b a
bit_or_comm_fuel zero a b p q =
    let ea : a ≡ 0 = omega arith in let eb : b ≡ 0 = omega arith in rw (ea, eb)
bit_or_comm_fuel (suc k) a b p q = omega (
  arith,
  bit_or_digit a b,
  bit_or_digit b a,
  bit_or_comm_fuel k (a / 2) (b / 2) (omega arith) (omega arith),
)

pub bit_or_comm : (a b : ℕ) → bit_or a b ≡ bit_or b a
bit_or_comm a b = bit_or_comm_fuel (a + b) a b (omega arith) (omega arith)

pub bit_or-zero : (a : ℕ) → bit_or a 0 ≡ a
bit_or-zero a = bit_or-zero_fuel a a (omega arith)

-- A mask of the single bit `k`.
pub bit_and_single : (k q r : ℕ) → r < 2 ^ k → bit_and (q * 2 ^ k + r) (2 ^ k) ≡ q % 2 * 2 ^ k
bit_and_single zero q r p =
    let whole : q * 2 ^ 0 + r ≡ q = omega arith in
    ap (λ (t : ℕ). bit_and t 1) whole ∙ (omega (arith, bit_and_digit q 1, bit_and-zero (q / 2)))
bit_and_single (suc k) q r p =
    let shifted : q * 2 ^ suc k ≡ 2 * (q * 2 ^ k) =
      omega (arith, ap (λ (t : ℕ). q * t) (pow-suc 2 k)) in
    let halves : (q * 2 ^ suc k + r) / 2 ≡ q * 2 ^ k + r / 2 = omega arith in
    let half : 2 ^ suc k / 2 ≡ 2 ^ k = omega (arith, pow-suc 2 k) in
    let digit : bit_and (q * 2 ^ suc k + r) (2 ^ suc k)
        ≡ bit_and (q * 2 ^ k + r / 2) (2 ^ k) * 2 + min ((q * 2 ^ suc k + r) % 2) (2 ^ suc k % 2) =
      rw (← halves, ← half) (bit_and_digit (q * 2 ^ suc k + r) (2 ^ suc k)) in
    omega (
      arith,
      pow-suc 2 k,
      digit,
      ap (λ (t : ℕ). q % 2 * t) (pow-suc 2 k),
      bit_and_single k q (r / 2) (omega (arith, pow-suc 2 k)),
    )
