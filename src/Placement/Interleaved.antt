-- ===== src/Placement/Interleaved.antt =====
-- `InterleavedSchedule` of steganographer-core/src/placement.rs: an affine map of the slots whose
-- stride has no common divisor with their number. Keyed BLAKE3 is a parameter.
pub mod Coprime
use steganographer.Common.{
  ℕ, zero, suc, ◌+◌, ◌-◌, ◌*◌, ◌%◌, List, [], ◌∷◌, ◌++◌, Option, some, none, Bool, true, false,
  ◌==◌, if◌then◌else◌, length, take,
}
use steganographer.Common.Bytes.{to_le_bytes, from_le_bytes}

-- `interleaved-stride`
abbrev pub stride_context : List ℕ
stride_context =
    105 ∷ 110 ∷ 116 ∷ 101 ∷ 114 ∷ 108 ∷ 101 ∷ 97 ∷ 118 ∷ 101 ∷ 100 ∷ 45 ∷ 115 ∷ 116 ∷ 114 ∷ 105
    ∷ 100 ∷ 101 ∷ []

-- `interleaved-phase`
abbrev pub phase_context : List ℕ
phase_context =
    105 ∷ 110 ∷ 116 ∷ 101 ∷ 114 ∷ 108 ∷ 101 ∷ 97 ∷ 118 ∷ 101 ∷ 100 ∷ 45 ∷ 112 ∷ 104 ∷ 97 ∷ 115 ∷ 101
    ∷ []

-- `gcd`; the second argument falls in every call, so one more than it is enough fuel.
unfoldable pub gcd_fuel : ℕ → ℕ → ℕ → ℕ
gcd_fuel zero a b = a
gcd_fuel (suc fuel) a b = let rest = gcd_fuel fuel b (a % b) in if b == 0 then a else rest

unfoldable pub gcd : ℕ → ℕ → ℕ
gcd a b = gcd_fuel (b + 1) a b

pub record InterleavedSchedule : Type 0 where
  pub len : ℕ
  pub stride : ℕ
  pub phase : ℕ

-- The next candidate of the search for a stride.
unfoldable pub next_stride : ℕ → ℕ → ℕ
next_stride domain stride = if stride + 1 == domain then 1 else stride + 1

-- `while gcd(stride, domain) != 1`; `none` is no result within the fuel.
unfoldable pub coprime_stride : ℕ → ℕ → ℕ → Option ℕ
coprime_stride domain zero stride = none
coprime_stride domain (suc fuel) stride =
    let rest = coprime_stride domain fuel (next_stride domain stride) in
    if gcd stride domain == 1 then some stride else rest

module _ (keyed_blake3 : List ℕ → List ℕ → List ℕ) where
  unfoldable pub derive_u64 : List ℕ → List ℕ → List ℕ → ℕ
  derive_u64 key label context =
      from_le_bytes (take 8 (keyed_blake3 key (to_le_bytes 8 (length label) ++ (label ++ context))))

  -- The first candidate, in `1..domain` for a domain above one.
  unfoldable pub first_stride : ℕ → List ℕ → List ℕ → ℕ
  first_stride domain key label =
      if domain == 1 then 1 else 1 + derive_u64 key label stride_context % (domain - 1)

  -- `InterleavedSchedule::new`; every candidate is met within `len` rounds.
  unfoldable pub new_schedule : ℕ → List ℕ → List ℕ → Option InterleavedSchedule
  new_schedule len key label =
      if len == 0
      then some (record { len = 0; stride = 1; phase = 0 })
      else elim (coprime_stride len len (first_stride len key label)) [
        | none ↦ none
        | some stride ↦ some (record {
          len = len;
          stride = stride;
          phase = if len == 1 then 0 else derive_u64 key label phase_context % len;
        })
      ]

unfoldable pub slot : InterleavedSchedule → ℕ → ℕ
slot s logical = if s.len == 0 then 0 else (logical * s.stride + s.phase) % s.len
