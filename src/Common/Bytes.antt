-- ===== src/Common/Bytes.antt =====
-- Fixed-width integers as bytes: `to_be_bytes`, `from_be_bytes` and the little-endian pair.
use Prim.Native.Nat.{ℕ, zero, suc, ◌+◌, ◌*◌, ◌/◌, ◌%◌, ◌^◌, ◌<◌}
use mathlib.Core.Path.{◌≡◌, refl, sym, ap, ap₂, ◌∙◌}
use mathlib.Core.List.{List, [], ◌∷◌}
use native.Mathlib.Omega.{arith}
use native.Mathlib.Nat.{
  pow-suc, one-le-pow, mod-lt, mod-eq_of_lt, div-add-mod', mul-add-mod_self_right,
}
use native.Mathlib.Nat.{add-mul-div_right, div-eq_of_lt, add_comm}
use steganographer.Common.Lists.{length, All}

abbrev pub IsByte : ℕ → Type 0
IsByte b = b < 256

-- `v.to_le_bytes()` of a `w`-byte integer, lowest byte first.
unfoldable pub to_le_bytes : ℕ → ℕ → List ℕ
to_le_bytes zero v = []
to_le_bytes (suc w) v = (v % 256) ∷ to_le_bytes w (v / 256)

unfoldable pub from_le_bytes : List ℕ → ℕ
from_le_bytes [] = 0
from_le_bytes (b ∷ bs) = b + 256 * from_le_bytes bs

-- `v.to_be_bytes()` of a `w`-byte integer, highest byte first.
unfoldable pub to_be_bytes : ℕ → ℕ → List ℕ
to_be_bytes zero v = []
to_be_bytes (suc w) v = (v / 256 ^ w % 256) ∷ to_be_bytes w v

be_from : ℕ → List ℕ → ℕ
be_from acc [] = acc
be_from acc (b ∷ bs) = be_from (acc * 256 + b) bs

unfoldable pub from_be_bytes : List ℕ → ℕ
unfolding be_from
from_be_bytes bs = be_from 0 bs

pub length-to_le_bytes : (w v : ℕ) → length (to_le_bytes w v) ≡ w
unfolding to_le_bytes
length-to_le_bytes zero v = refl
length-to_le_bytes (suc w) v = ap suc (length-to_le_bytes w (v / 256))

pub length-to_be_bytes : (w v : ℕ) → length (to_be_bytes w v) ≡ w
unfolding to_be_bytes
length-to_be_bytes zero v = refl
length-to_be_bytes (suc w) v = ap suc (length-to_be_bytes w v)

pub to_le_bytes-IsByte : (w v : ℕ) → All IsByte (to_le_bytes w v)
unfolding to_le_bytes
to_le_bytes-IsByte zero v = tt
to_le_bytes-IsByte (suc w) v = (omega arith, to_le_bytes-IsByte w (v / 256))

pub to_be_bytes-IsByte : (w v : ℕ) → All IsByte (to_be_bytes w v)
unfolding to_be_bytes
to_be_bytes-IsByte zero v = tt
to_be_bytes-IsByte (suc w) v = (omega arith, to_be_bytes-IsByte w v)

pub from_le_bytes-to_le_bytes : (w v : ℕ) → v < 256 ^ w → from_le_bytes (to_le_bytes w v) ≡ v
unfolding to_le_bytes from_le_bytes
from_le_bytes-to_le_bytes zero v h = omega arith
from_le_bytes-to_le_bytes (suc w) v h =
    omega (arith, from_le_bytes-to_le_bytes w (v / 256) (omega (arith, pow-suc 256 w)))

-- The remainder by `256 * p` splits into a digit above `p` and the remainder by `p`.
mod-digit : (v p : ℕ) → 0 < p → v % (p * 256) ≡ v / p % 256 * p + v % p
mod-digit v p h =
    let d : ℕ = v / p % 256 in
    let low : v % p < p = mod-lt v h in
    let below : d * p + v % p < p * 256 = grind arith in
    let whole : v / p / 256 * (p * 256) + (d * p + v % p) ≡ v =
      omega (arith, div-add-mod' v p, ap (λ (t : ℕ). t * p) (div-add-mod' (v / p) 256)) in
    ap (λ (t : ℕ). t % (p * 256)) (sym whole)
    ∙ mul-add-mod_self_right (v / p / 256) (p * 256) (d * p + v % p)
    ∙ mod-eq_of_lt below

be_from-to_be_bytes : (w acc v : ℕ) → be_from acc (to_be_bytes w v) ≡ acc * 256 ^ w + v % 256 ^ w
unfolding to_be_bytes be_from
be_from-to_be_bytes zero acc v = omega arith
be_from-to_be_bytes (suc w) acc v =
    be_from-to_be_bytes w (acc * 256 + v / 256 ^ w % 256) v
    ∙ omega (
      arith,
      pow-suc 256 w,
      ap (λ (t : ℕ). acc * t) (pow-suc 256 w),
      ap (λ (t : ℕ). v % t) (pow-suc 256 w),
      mod-digit v (256 ^ w) (one-le-pow w 256 (omega arith)),
    )

pub from_be_bytes-to_be_bytes : (w v : ℕ) → v < 256 ^ w → from_be_bytes (to_be_bytes w v) ≡ v
unfolding from_be_bytes
from_be_bytes-to_be_bytes w v h = be_from-to_be_bytes w 0 v ∙ (omega (arith, mod-eq_of_lt h))

be_from_lem : (bs : List ℕ) (acc : ℕ) → be_from acc bs ≡ acc * 256 ^ length bs + be_from 0 bs
unfolding be_from
be_from_lem [] acc = omega arith
be_from_lem (b ∷ bs) acc = omega (
  arith,
  be_from_lem bs (acc * 256 + b),
  be_from_lem bs (0 * 256 + b),
  ap (λ (t : ℕ). acc * t) (pow-suc 256 (length bs)),
)

-- The value of a big-endian number, digit by digit.
pub from_be_bytes-cons :
    (b : ℕ) (bs : List ℕ) → from_be_bytes (b ∷ bs) ≡ b * 256 ^ length bs + from_be_bytes bs
unfolding from_be_bytes be_from
from_be_bytes-cons b bs = be_from_lem bs (0 * 256 + b) ∙ (omega arith)

digit_bound : (b r p : ℕ) → b < 256 → r < p → b * p + r < 256 * p
digit_bound b r p h k = grind arith

pub from_be_bytes-lt : (bs : List ℕ) → All IsByte bs → from_be_bytes bs < 256 ^ length bs
from_be_bytes-lt [] h = unfold from_be_bytes be_from in omega arith
from_be_bytes-lt (b ∷ bs) (hb, hs) = omega (
  arith,
  pow-suc 256 (length bs),
  from_be_bytes-cons b bs,
  digit_bound b (from_be_bytes bs) (256 ^ length bs) hb (from_be_bytes-lt bs hs),
)

-- Leading zeros do not change a big-endian number.
pub from_be_bytes-zero : (bs : List ℕ) → from_be_bytes (0 ∷ bs) ≡ from_be_bytes bs
from_be_bytes-zero bs = from_be_bytes-cons 0 bs ∙ (omega arith)

to_be_bytes_high : (w k r : ℕ) → to_be_bytes w (k * 256 ^ w + r) ≡ to_be_bytes w r
unfolding to_be_bytes
to_be_bytes_high zero k r = refl
to_be_bytes_high (suc w) k r =
    let pos : 0 < 256 ^ w = one-le-pow w 256 (omega arith) in
    let regroup : k * 256 ^ suc w + r ≡ r + k * 256 * 256 ^ w =
      omega (arith, ap (λ (t : ℕ). k * t) (pow-suc 256 w)) in
    let same : k * 256 ^ suc w + r ≡ k * 256 * 256 ^ w + r =
      omega (arith, ap (λ (t : ℕ). k * t) (pow-suc 256 w)) in
    let top : (k * 256 ^ suc w + r) / 256 ^ w % 256 ≡ r / 256 ^ w % 256 =
      ap (λ (t : ℕ). t / 256 ^ w % 256) regroup
      ∙ ap (λ (t : ℕ). t % 256) (add-mul-div_right r (k * 256) pos)
      ∙ (omega arith) in
    ap₂ ◌∷◌ top (ap (to_be_bytes w) same ∙ to_be_bytes_high w (k * 256) r)

pub to_be_bytes-from_be_bytes :
    (bs : List ℕ) → All IsByte bs → to_be_bytes (length bs) (from_be_bytes bs) ≡ bs
unfolding to_be_bytes
to_be_bytes-from_be_bytes [] h = refl
to_be_bytes-from_be_bytes (b ∷ bs) (hb, hs) =
    let p : ℕ = 256 ^ length bs in
    let r : ℕ = from_be_bytes bs in
    let pos : 0 < p = one-le-pow (length bs) 256 (omega arith) in
    let below : r < p = from_be_bytes-lt bs hs in
    let top : from_be_bytes (b ∷ bs) / p % 256 ≡ b =
      ap (λ (t : ℕ). t / p % 256) (from_be_bytes-cons b bs ∙ add_comm (b * p) r)
      ∙ ap (λ (t : ℕ). t % 256) (add-mul-div_right r b pos)
      ∙ ap (λ (t : ℕ). (t + b) % 256) (div-eq_of_lt below)
      ∙ (omega arith) in
    ap₂ ◌∷◌ top (
      ap (to_be_bytes (length bs)) (from_be_bytes-cons b bs)
      ∙ to_be_bytes_high (length bs) b r
      ∙ to_be_bytes-from_be_bytes bs hs)
