-- ===== src/Placement/Bounds.antt =====
-- The permutation that `try_new` builds has a Feistel domain that holds every slot.
use steganographer.Common.{
  ℕ, zero, suc, ◌-◌, ◌/◌, ◌%◌, ◌^◌, ◌<◌, ◌≤◌, ◌≡◌, inl, inr, leb, ◌==◌, arith, List, Bool-cases, ok,
}
use native.Mathlib.Nat.{pow-suc, pow-le-pow_right}
use steganographer.Placement.{KeyedPermutation, bit_length, ceil_log2, even_bits, try_new}

bit_length-le : (width value : ℕ) → bit_length width value ≤ width
unfolding bit_length
bit_length-le zero value = omega arith
bit_length-le (suc width) value = ground (arith, bit_length-le width (value / 2))

-- A number of `width` bits is below the power of its bit length.
below_bit_length : (width value : ℕ) → value < 2 ^ width → value < 2 ^ bit_length width value
unfolding bit_length
below_bit_length zero value h = h
below_bit_length (suc width) value h =
    let half = below_bit_length width (value / 2) (omega (arith, pow-suc 2 width)) in
    elim (Bool-cases (value == 0)) [
      | inl e ↦ rw e (ground arith)
      | inr e ↦ rw e (omega (arith, half, pow-suc 2 (bit_length width (value / 2))))
    ]

ceil_log2-le : (len : ℕ) → ceil_log2 len ≤ 64
unfolding ceil_log2
ceil_log2-le len = ground (arith, bit_length-le 64 (len - 1))

le-ceil_log2 : (len : ℕ) → len ≤ 2 ^ 64 → len ≤ 2 ^ ceil_log2 len
unfolding ceil_log2
le-ceil_log2 len h = elim (Bool-cases (leb len 1)) [
  | inl e ↦ rw e (ground arith)
  | inr e ↦
      let big : 1 < len = ground arith in
      rw e (omega (arith, below_bit_length 64 (len - 1) (omega arith)))
]

even_bits_lem :
    (len : ℕ) → (even_bits len % 2 ≡ 0) × ((even_bits len ≤ 64) × (ceil_log2 len ≤ even_bits len))
unfolding even_bits
even_bits_lem len = let cap = ceil_log2-le len in (ground arith, (ground arith, ground arith))

-- Every permutation that `try_new` accepts, for a length that a `u64` holds, has an even number of
-- bits, at most 64, and a domain of at least `len` slots; and its length is positive.
pub try_new-bits :
    (len : ℕ) (key label : List ℕ) (p : KeyedPermutation)
    → len < 2 ^ 64
    → try_new len key label ≡ ok p
    → ((0 < p.len) × (p.len ≤ 2 ^ p.bits)) × ((p.bits % 2 ≡ 0) × (p.bits ≤ 64))
unfolding try_new
try_new-bits len key label p h e =
    let (even, (small, reach)) = even_bits_lem len in
    let log = le-ceil_log2 len (omega arith) in
    let wide = pow-le-pow_right {n = 2} (omega arith) reach in
    let fits : len ≤ 2 ^ even_bits len = omega arith in ground arith
