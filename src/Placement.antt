-- ===== src/Placement.antt =====
-- steganographer-core/src/placement.rs: the keyed Feistel permutation of carrier slots, with cycle
-- walking, and the interleaved schedule. Keyed BLAKE3 is third-party code and a parameter.
pub mod Inverse
pub mod Pigeonhole
pub mod Walk
pub mod Bounds
pub mod Interleaved
use steganographer.Common.{
  ℕ, zero, suc, ◌+◌, ◌-◌, ◌*◌, ◌/◌, ◌%◌, ◌^◌, max, List, [], ◌∷◌, ◌++◌, Option, some, none, Bool,
  true, false, ltb, leb, ◌==◌, not, ◌&&◌, ◌||◌, if◌then◌else◌, length, get_or, take, replicate,
  bit_and, bit_or, bit_xor, Result, ok, err, ensure, ◌>>=◌, ◌>>◌,
}
use steganographer.Common.Bytes.{to_le_bytes, from_le_bytes}

pub data PlacementError : Type 0 where
  zero_length invalid_label : PlacementError

pub record KeyedPermutation : Type 0 where
  pub key : List ℕ
  pub label : List ℕ
  pub len : ℕ
  pub bits : ℕ

-- The number of bits of `value`: `64 - value.leading_zeros()` on 64 bits.
unfoldable pub bit_length : ℕ → ℕ → ℕ
bit_length zero value = 0
bit_length (suc width) value = if value == 0 then 0 else suc (bit_length width (value / 2))

unfoldable pub ceil_log2 : ℕ → ℕ
ceil_log2 value = if leb value 1 then 1 else bit_length 64 (value - 1)

-- `max(2)`, rounded up to an even number.
unfoldable pub even_bits : ℕ → ℕ
even_bits len = let bits = max (ceil_log2 len) 2 in if bits % 2 == 0 then bits else bits + 1

unfoldable pub last_byte : List ℕ → ℕ → ℕ
last_byte [] d = d
last_byte (b ∷ bs) d = last_byte bs b

-- `KeyedPermutation::try_new`
unfoldable pub try_new : ℕ → List ℕ → List ℕ → Result PlacementError KeyedPermutation
try_new len key label = do
  ensure (ltb 0 len) zero_length
  ensure (not (length label == 0) && (leb (length label) 16 && not (last_byte label 0 == 0)))
      invalid_label
  ok (record {
    key = key;
    label = label ++ replicate (16 - length label) 0;
    len = len;
    bits = even_bits len;
  })

-- The halves of a Feistel state.
pub record Halves : Type 0 where
  pub left : ℕ
  pub right : ℕ

module _ (keyed_blake3 : List ℕ → List ℕ → List ℕ) where
  unfoldable pub round_fn : List ℕ → List ℕ → ℕ → ℕ → ℕ
  round_fn key label round right =
      from_le_bytes (take 8 (keyed_blake3 key (label ++ (round ∷ to_le_bytes 8 right))))

  module _ (bits : ℕ) (key label : List ℕ) where
    -- `(1u64 << half) - 1`
    unfoldable pub half_mask : ℕ
    half_mask = 2 ^ (bits / 2) - 1

    -- One round of `feistel`.
    unfoldable pub feistel_round : ℕ → Halves → Halves
    feistel_round round h = record {
      left = h.right;
      right =
          bit_and (bit_xor h.left (bit_and (round_fn key label round h.right) half_mask)) half_mask;
    }

    -- One round of `feistel_inverse`.
    unfoldable pub feistel_unround : ℕ → Halves → Halves
    feistel_unround round h = record {
      left =
          bit_and (bit_xor h.right (bit_and (round_fn key label round h.left) half_mask)) half_mask;
      right = h.left;
    }

    -- The rounds from `round` on, `count` of them.
    unfoldable pub feistel_rounds : ℕ → ℕ → Halves → Halves
    feistel_rounds zero round h = h
    feistel_rounds (suc count) round h = feistel_rounds count (round + 1) (feistel_round round h)

    -- The same rounds in the opposite order.
    unfoldable pub feistel_unrounds : ℕ → ℕ → Halves → Halves
    feistel_unrounds zero round h = h
    feistel_unrounds (suc count) round h =
        feistel_unround round (feistel_unrounds count (round + 1) h)

    unfoldable pub split_halves : ℕ → Halves
    split_halves x = record {
      left = bit_and (x / 2 ^ (bits / 2)) half_mask;
      right = bit_and x half_mask;
    }

    -- `((left << half) | right) & domain_mask`; `u64::MAX` is the mask of 64 bits.
    unfoldable pub join_halves : Halves → ℕ
    join_halves h = bit_and (bit_or (h.left * 2 ^ (bits / 2) % 2 ^ 64) h.right) (2 ^ bits - 1)

    -- `ROUNDS` is eight.
    unfoldable pub feistel : ℕ → ℕ
    feistel x = join_halves (feistel_rounds 8 0 (split_halves x))

    unfoldable pub feistel_inverse : ℕ → ℕ
    feistel_inverse y = join_halves (feistel_unrounds 8 0 (split_halves y))

-- The loop of `permute` and `inverse_permute`: `step` is applied until the result is below `len`.
unfoldable pub cycle_walk : (ℕ → ℕ) → ℕ → ℕ → ℕ → Option ℕ
cycle_walk step len zero y = none
cycle_walk step len (suc fuel) y =
    let rest = cycle_walk step len fuel (step y) in if ltb (step y) len then some (step y) else rest

module _ (keyed_blake3 : List ℕ → List ℕ → List ℕ) (p : KeyedPermutation) where
  -- A cycle of the permutation has at most as many slots as its domain.
  unfoldable pub permute : ℕ → Option ℕ
  permute i = cycle_walk (feistel keyed_blake3 p.bits p.key p.label) p.len (2 ^ p.bits) i

  unfoldable pub inverse_permute : ℕ → Option ℕ
  inverse_permute y =
      cycle_walk (feistel_inverse keyed_blake3 p.bits p.key p.label) p.len (2 ^ p.bits) y
