-- ===== src/Carrier.antt =====
-- steganographer-core/src/carrier.rs: carrier descriptors, capacities, and the comparison of
-- recognition tags.
pub mod Capacity
pub mod Comparison
pub mod Spatial
pub mod Embed
use steganographer.Common.{
  ℕ, ◌+◌, ◌-◌, ◌*◌, ◌/◌, ◌%◌, List, [], ◌∷◌, Bool, true, false, leb, ◌==◌, not, ◌&&◌, if◌then◌else◌,
  length, bit_or, bit_xor, Result, ok, err, ensure, ◌>>=◌, ◌>>◌,
}
use steganographer.Packet.Types.{PacketError, usize_max}

pub data CarrierKind : Type 0 where
  rgb8 byte_stream pcm_s16_le pcm_s24_le pcm_s32_le rgba8 : CarrierKind

pub record CarrierDescriptor : Type 0 where
  pub kind : CarrierKind
  pub unit_count : ℕ

unfoldable pub unit_stride : CarrierKind → ℕ
unit_stride pcm_s32_le = 4
unit_stride rgba8 = 4
unit_stride pcm_s24_le = 3
unit_stride pcm_s16_le = 2
unit_stride rgb8 = 1
unit_stride byte_stream = 1

pub record CapacityReport : Type 0 where
  pub usable_units : ℕ
  pub available_bits : ℕ
  pub max_packet_bytes : ℕ

-- The arguments of `insufficient_capacity` are the needed and the available bits, the needed and
-- the available units, and the bits of a unit.
pub data CarrierError : Type 0 where
  invalid_bits : ℕ → CarrierError
  capacity_overflow : CarrierError
  insufficient_capacity : ℕ → ℕ → ℕ → ℕ → ℕ → CarrierError
  descriptor_mismatch : CarrierError
  unaligned_carrier : ℕ → ℕ → CarrierError
  no_packet : CarrierError
  packet_error : PacketError → CarrierError

-- `EmbeddingConfig::new`; a configuration is its `bits_per_unit`.
unfoldable pub new_config : ℕ → Result CarrierError ℕ
new_config bits_per_unit = do
  ensure (leb 1 bits_per_unit && leb bits_per_unit 4) (invalid_bits bits_per_unit)
  ok bits_per_unit

-- `CapacityReport::fits`
unfoldable pub fits : CapacityReport → ℕ → Bool
fits report packet_len = leb packet_len report.max_packet_bytes

-- `usize::div_ceil`, for a positive divisor.
abbrev pub div_ceil : ℕ → ℕ → ℕ
div_ceil a b = (a + (b - 1)) / b

-- `KeyedLsbKeys::tag_units`
unfoldable pub tag_units : ℕ → ℕ
tag_units bits = div_ceil 64 bits

unfoldable pub ensure_aligned : ℕ → ℕ → Result CarrierError (Unit {0})
ensure_aligned byte_len stride = ensure (byte_len % stride == 0) (unaligned_carrier stride byte_len)

-- The report over a number of usable units.
unfoldable pub report_of : ℕ → ℕ → Result CarrierError CapacityReport
report_of usable_units bits = do
  ensure (leb (usable_units * bits) usize_max) capacity_overflow
  ok (record {
    usable_units = usable_units;
    available_bits = usable_units * bits;
    max_packet_bytes = usable_units * bits / 8;
  })

unfoldable pub sequential_capacity : CarrierDescriptor → ℕ → Result CarrierError CapacityReport
sequential_capacity carrier bits_per_unit = do
  bits ← new_config bits_per_unit
  report_of carrier.unit_count bits

unfoldable pub keyed_capacity : CarrierDescriptor → ℕ → Result CarrierError CapacityReport
keyed_capacity carrier bits_per_unit = do
  bits ← new_config bits_per_unit
  report_of (carrier.unit_count - tag_units bits) bits

-- `diff |= x ^ y` over the pairs.
unfoldable pub difference : ℕ → List ℕ → List ℕ → ℕ
difference diff [] bs = diff
difference diff (a ∷ rest) [] = diff
difference diff (a ∷ rest) (b ∷ bs) = difference (bit_or diff (bit_xor a b)) rest bs

unfoldable pub constant_time_eq : List ℕ → List ℕ → Bool
constant_time_eq a b = if length a == length b then difference 0 a b == 0 else false
