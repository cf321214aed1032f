-- ===== src/Carrier/Spatial.antt =====
-- The bit kernel of steganographer-core/src/carrier.rs: `packet_bit`, the loops that write a
-- packet's bits into the low bits of carrier units, and the loops that read them back.
pub mod Write
pub mod Units
pub mod Read
pub mod RoundTrip
pub mod Sequential
pub mod Observed
use steganographer.Common.{
  ℕ, zero, suc, ◌+◌, ◌-◌, ◌*◌, ◌/◌, ◌%◌, ◌^◌, min, List, Bool, true, false, ltb, leb, if◌then◌else◌,
  length, get_or, set, replicate, bit_and, bit_or, Result, ok, err, ensure, ◌>>=◌, ◌>>◌,
}
use steganographer.Packet.Types.{usize_max}
use steganographer.Carrier.{CarrierError, capacity_overflow, insufficient_capacity, div_ceil}

unfoldable pub packet_bit : List ℕ → ℕ → ℕ
packet_bit packet bit_index = get_or packet (bit_index / 8) 0 / 2 ^ (7 - bit_index % 8) % 2

-- The variables `bit_index` and `low_bits` of the writing loops.
pub record Gather : Type 0 where
  pub bit_index : ℕ
  pub low_bits : ℕ

-- One round of `for shift in (0..bits).rev()` when writing.
unfoldable pub gather_step : List ℕ → ℕ → ℕ → Gather → Gather
gather_step packet needed_bits shift g =
    if ltb g.bit_index needed_bits
    then record {
      bit_index = g.bit_index + 1;
      low_bits = bit_or g.low_bits (packet_bit packet g.bit_index * 2 ^ shift);
    }
    else g

-- The rounds of the shifts below `count`, from the highest.
unfoldable pub gather : List ℕ → ℕ → ℕ → Gather → Gather
gather packet needed_bits zero g = g
gather packet needed_bits (suc shift) g =
    gather packet needed_bits shift (gather_step packet needed_bits shift g)

-- `(unit & mask) | low_bits` on bytes, for `mask = !((1 << bits) - 1)`.
unfoldable pub merge_unit : ℕ → ℕ → ℕ → ℕ
merge_unit bits unit low_bits = bit_or (bit_and unit (255 - (2 ^ bits - 1))) low_bits

module _ (data_bytes : List ℕ) (needed_bits bits : ℕ) where
  -- `remaining` rounds of the loop over `logical_unit`; `physical` is the byte of a logical unit.
  unfoldable pub write_units : (physical : ℕ → ℕ) → ℕ → ℕ → ℕ → List ℕ → List ℕ
  write_units physical zero logical_unit bit_index carrier = carrier
  write_units physical (suc remaining) logical_unit bit_index carrier =
      let g = gather data_bytes needed_bits bits (record { bit_index = bit_index; low_bits = 0 }) in
      let at = physical logical_unit in
      write_units physical remaining (logical_unit + 1) g.bit_index
        (set carrier at (merge_unit bits (get_or carrier at 0) g.low_bits))

  -- The loop of `write_bits_sequential`, which ends early once every bit is written.
  unfoldable pub write_until_done : ℕ → ℕ → ℕ → ℕ → List ℕ → List ℕ
  write_until_done stride zero unit_index bit_index carrier = carrier
  write_until_done stride (suc remaining) unit_index bit_index carrier =
      let g = gather data_bytes needed_bits bits (record { bit_index = bit_index; low_bits = 0 }) in
      let at = unit_index * stride in
      let rest =
        write_until_done stride remaining (unit_index + 1) g.bit_index
          (set carrier at (merge_unit bits (get_or carrier at 0) g.low_bits)) in
      if leb needed_bits bit_index then carrier else rest

unfoldable pub write_bits_sequential : List ℕ → ℕ → List ℕ → ℕ → List ℕ
write_bits_sequential carrier stride data_bytes bits =
    write_until_done data_bytes (length data_bytes * 8) bits stride (length carrier / stride) 0 0
      carrier

-- The variables `bit_index` and `output` of the reading loops.
pub record Scatter : Type 0 where
  pub bit_index : ℕ
  pub output : List ℕ

-- One round of `for shift in (0..bits).rev()` when reading; after the `break` nothing changes.
unfoldable pub scatter_step : ℕ → ℕ → ℕ → Scatter → Scatter
scatter_step unit bit_count shift r =
    if ltb r.bit_index bit_count
    then record {
      bit_index = r.bit_index + 1;
      output = set r.output (r.bit_index / 8) (
          bit_or (get_or r.output (r.bit_index / 8) 0)
            (unit / 2 ^ shift % 2 * 2 ^ (7 - r.bit_index % 8)));
    }
    else r

unfoldable pub scatter : ℕ → ℕ → ℕ → Scatter → Scatter
scatter unit bit_count zero r = r
scatter unit bit_count (suc shift) r =
    scatter unit bit_count shift (scatter_step unit bit_count shift r)

-- `remaining` rounds of the loop over the units that are read.
unfoldable pub read_units : List ℕ → (ℕ → ℕ) → ℕ → ℕ → ℕ → ℕ → Scatter → Scatter
read_units carrier physical bits bit_count zero unit_index r = r
read_units carrier physical bits bit_count (suc remaining) unit_index r =
    read_units carrier physical bits bit_count remaining (unit_index + 1)
      (scatter (get_or carrier (physical unit_index) 0) bit_count bits r)

abbrev pub saturating_mul : ℕ → ℕ → ℕ
saturating_mul a b = min (a * b) usize_max

-- Both reading functions, over `total_units` units that `physical` finds.
unfoldable pub read_from : List ℕ → (ℕ → ℕ) → ℕ → ℕ → ℕ → Result CarrierError (List ℕ)
read_from carrier physical total_units byte_count bits = do
  ensure (leb (byte_count * 8) usize_max) capacity_overflow
  let required_units = div_ceil (byte_count * 8) bits
  ensure (leb required_units total_units) (
      insufficient_capacity (byte_count * 8) (saturating_mul total_units bits) required_units
        total_units bits)
  let start : Scatter = record { bit_index = 0; output = replicate byte_count 0 }
  ok (read_units carrier physical bits (byte_count * 8) required_units 0 start).output

unfoldable pub extract_bytes : List ℕ → ℕ → ℕ → ℕ → Result CarrierError (List ℕ)
extract_bytes carrier stride byte_count bits_per_unit =
    read_from carrier (λ unit_index. unit_index * stride) (length carrier / stride) byte_count
      bits_per_unit

unfoldable pub read_bytes_at : List ℕ → ℕ → ℕ → (ℕ → ℕ) → ℕ → ℕ → ℕ → Result CarrierError (List ℕ)
read_bytes_at carrier stride offset slot total_units byte_count bits =
    read_from carrier (λ logical_unit. (offset + slot logical_unit) * stride) total_units byte_count
      bits
