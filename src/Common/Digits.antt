-- ===== src/Common/Digits.antt =====
-- Binary digits of machine words: what `|`, `&` and shifts do to each, and equality digit by digit.
use steganographer.Common.Bits.{bit_and_digit, bit_or_digit, bit_and_mask}
use Prim.Native.Nat.{ℕ, zero, suc, ◌-◌, ◌*◌, ◌/◌, ◌%◌, ◌^◌, ◌≤◌, ◌<◌, max}
use Prim.Native.Nat.{bit_and, bit_or}
use mathlib.Core.Path.{◌≡◌, refl, sym, ap, ◌∙◌}
use mathlib.Core.Logic.{◌≢◌}
use native.Mathlib.Omega.{arith}
use native.Mathlib.Nat.{pow-suc, one-le-pow, div-div-eq-div-mul, mul-div_cancel}

-- Digit `t`: `(x >> t) & 1`.
abbrev pub digit : ℕ → ℕ → ℕ
digit x t = x / 2 ^ t % 2

pub digit-suc : (x t : ℕ) → digit x (suc t) ≡ digit (x / 2) t
digit-suc x t =
    let split : x / 2 ^ suc t ≡ x / 2 / 2 ^ t =
      ap (λ (d : ℕ). x / d) (omega (arith, pow-suc 2 t)) ∙ sym (div-div-eq-div-mul x 2 (2 ^ t)) in
    ap (λ (d : ℕ). d % 2) split

bit_or-halves : (a b : ℕ) → bit_or a b / 2 ≡ bit_or (a / 2) (b / 2)
bit_or-halves a b = omega (arith, bit_or_digit a b)

pub digit-bit_or : (a b t : ℕ) → digit (bit_or a b) t ≡ max (digit a t) (digit b t)
digit-bit_or a b zero = omega (arith, bit_or_digit a b)
digit-bit_or a b (suc t) = omega (
  arith,
  digit-suc (bit_or a b) t,
  digit-suc a t,
  digit-suc b t,
  ap (λ (x : ℕ). digit x t) (bit_or-halves a b),
  digit-bit_or (a / 2) (b / 2) t,
)

pub bit_or-lt : (k a b : ℕ) → a < 2 ^ k → b < 2 ^ k → bit_or a b < 2 ^ k
bit_or-lt zero a b p q =
    let ea : a ≡ 0 = omega arith in let eb : b ≡ 0 = omega arith in rw (ea, eb) (omega arith)
bit_or-lt (suc k) a b p q = omega (
  arith,
  pow-suc 2 k,
  bit_or_digit a b,
  bit_or-lt k (a / 2) (b / 2) (omega (arith, pow-suc 2 k)) (omega (arith, pow-suc 2 k)),
)

-- The digits of a number shifted by `k`.
pub digit_below : (q k s : ℕ) → s < k → digit (q * 2 ^ k) s ≡ 0
digit_below q zero s h = absurd (omega arith)
digit_below q (suc k) zero h = omega (arith, ap (λ (t : ℕ). q * t) (pow-suc 2 k))
digit_below q (suc k) (suc s) h =
    let half : q * 2 ^ suc k / 2 ≡ q * 2 ^ k = omega (arith, ap (λ (t : ℕ). q * t) (pow-suc 2 k)) in
    digit-suc (q * 2 ^ suc k) s ∙ ap (λ (x : ℕ). digit x s) half ∙ digit_below q k s (omega arith)

pub digit_at : (b k : ℕ) → b < 2 → digit (b * 2 ^ k) k ≡ b
digit_at b k h =
    let whole : b * 2 ^ k / 2 ^ k ≡ b = mul-div_cancel b (one-le-pow k 2 (omega arith)) in
    ap (λ (x : ℕ). x % 2) whole ∙ omega arith

pub digit_above : (x k s : ℕ) → x < 2 ^ k → k ≤ s → digit x s ≡ 0
digit_above x zero zero p h = omega arith
digit_above x zero (suc s) p h = digit-suc x s ∙ digit_above (x / 2) 0 s (omega arith) (omega arith)
digit_above x (suc k) zero p h = absurd (omega arith)
digit_above x (suc k) (suc s) p h =
    digit-suc x s ∙ digit_above (x / 2) k s (omega (arith, pow-suc 2 k)) (omega arith)

-- A digit `b` shifted to place `k`, at every place.
pub digit_other : (b k s : ℕ) → b < 2 → k ≢ s → digit (b * 2 ^ k) s ≡ 0
digit_other b zero zero h n = absurd (n refl)
digit_other b zero (suc s) h n = digit_above (b * 2 ^ 0) 1 (suc s) (omega arith) (omega arith)
digit_other b (suc k) zero h n = digit_below b (suc k) 0 (omega arith)
digit_other b (suc k) (suc s) h n =
    let half : b * 2 ^ suc k / 2 ≡ b * 2 ^ k = omega (arith, ap (λ (t : ℕ). b * t) (pow-suc 2 k)) in
    digit-suc (b * 2 ^ suc k) s
    ∙ ap (λ (x : ℕ). digit x s) half
    ∙ digit_other b k s h (λ e. n (ap suc e))

-- Words of `n` digits with the same digits are equal.
pub digit_ext :
    (n a b : ℕ) → a < 2 ^ n → b < 2 ^ n → ((s : ℕ) → s < n → digit a s ≡ digit b s) → a ≡ b
digit_ext zero a b p q h = omega arith
digit_ext (suc n) a b p q h = omega (
  arith,
  h 0 (omega arith),
  digit_ext n (a / 2) (b / 2) (omega (arith, pow-suc 2 n)) (omega (arith, pow-suc 2 n))
      (λ s w. sym (digit-suc a s) ∙ h (suc s) (omega arith) ∙ digit-suc b s),
)

-- `&` with the mask `!((1 << k) - 1)` of `m + k` bits clears the low `k` bits.
pub clears : (m k x : ℕ) → bit_and x ((2 ^ m - 1) * 2 ^ k) ≡ x / 2 ^ k % 2 ^ m * 2 ^ k
clears m zero x =
    let plain : (2 ^ m - 1) * 2 ^ 0 ≡ 2 ^ m - 1 = omega arith in
    let whole : x / 2 ^ 0 ≡ x = omega arith in
    ap (bit_and x) plain ∙ bit_and_mask m x ∙ (rw whole (omega arith))
clears m (suc k) x =
    let half : (2 ^ m - 1) * 2 ^ suc k / 2 ≡ (2 ^ m - 1) * 2 ^ k =
      omega (arith, ap (λ (t : ℕ). (2 ^ m - 1) * t) (pow-suc 2 k)) in
    let even : (2 ^ m - 1) * 2 ^ suc k % 2 ≡ 0 =
      omega (arith, ap (λ (t : ℕ). (2 ^ m - 1) * t) (pow-suc 2 k)) in
    let split : x / 2 ^ suc k ≡ x / 2 / 2 ^ k =
      ap (λ (d : ℕ). x / d) (omega (arith, pow-suc 2 k)) ∙ sym (div-div-eq-div-mul x 2 (2 ^ k)) in
    omega (
      arith,
      bit_and_digit x ((2 ^ m - 1) * 2 ^ suc k),
      ap (bit_and (x / 2)) half,
      even,
      clears m k (x / 2),
      ap (λ (t : ℕ). t % 2 ^ m * 2 ^ suc k) split,
      ap (λ (t : ℕ). x / 2 / 2 ^ k % 2 ^ m * t) (pow-suc 2 k),
    )
