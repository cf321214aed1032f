-- ===== src/Carrier/Embed/Keyed.antt =====
-- The keyed and the interleaved carrier kernels of carrier.rs: `embed_keyed_lsb`,
-- `extract_keyed_lsb`, `embed_keyed_interleaved_lsb` and `extract_keyed_interleaved_lsb`. The two
-- pairs differ in the schedule of slots and the placement, so both are one function of these here.
pub mod Schedules
pub mod RoundTrip
pub mod Placed
pub mod Extraction
pub mod Absent
use steganographer.Common.{
  ℕ, ◌+◌, ◌-◌, ◌*◌, ◌/◌, List, [], ◌∷◌, ◌++◌, Option, some, none, Bool, true, false, leb, ◌==◌, not,
  length, take, Result, ok, err, ensure, ◌>>=◌, ◌>>◌, min,
}
use steganographer.Common.Bytes.{to_le_bytes}
use steganographer.Packet.Types.{
  DecodeLimits, GenericPacket, Locator, usize_max, locator_size, placement_keyed,
}
use steganographer.Packet.Locator
use steganographer.Packet.Locator.{packet_len}
use steganographer.Packet.Generic.{Digests, decode}
use steganographer.Kdf.{derive_locator_key, derive_placement_key}
use steganographer.Placement.{try_new, permute}
use steganographer.Placement.Interleaved.{new_schedule, slot}
use steganographer.Carrier.{
  CarrierError, new_config, div_ceil, tag_units, constant_time_eq, capacity_overflow,
  insufficient_capacity, descriptor_mismatch, no_packet,
}
use steganographer.Carrier.Spatial.{
  write_units, write_bits_sequential, extract_bytes, read_bytes_at, saturating_mul,
}
use steganographer.Carrier.Embed.{
  Embedded, ExtractReport, from_packet, declares, validate_embed_descriptor, placement_label,
  placement_interleaved_label, placement_interleaved, recognition_context,
}

pub record KeyedLsbKeys : Type 0 where
  pub locator_key : List ℕ
  pub placement_key : List ℕ

-- `KeyedLsbKeys::new`
unfoldable pub new_keys : (List ℕ → List ℕ → List ℕ) → List ℕ → KeyedLsbKeys
new_keys derive_key embedding_key = record {
  locator_key = derive_locator_key derive_key embedding_key;
  placement_key = derive_placement_key derive_key embedding_key;
}

module _ (digests : Digests) (keyed_blake3 : List ℕ → List ℕ → List ℕ) (keys : KeyedLsbKeys) where
  unfoldable pub recognition_tag : ℕ → ℕ → List ℕ
  recognition_tag unit_count bits = take 8 (
      keyed_blake3 keys.locator_key
        (recognition_context ++ (to_le_bytes 8 unit_count ++ (bits ∷ []))))

  -- `KeyedPermutation::new` and `permute`. Neither alternative to the slot is taken on the positive
  -- lengths that the kernels use: the code would panic or not return.
  unfoldable pub keyed_slot : ℕ → ℕ → ℕ
  keyed_slot body_units logical = elim (try_new body_units keys.placement_key placement_label) [
    | err e ↦ 0
    | ok p ↦ elim (permute keyed_blake3 p logical) [ none ↦ 0 | some y ↦ y ]
  ]

  -- `InterleavedSchedule::new` and `slot`, likewise.
  unfoldable pub interleaved_slot : ℕ → ℕ → ℕ
  interleaved_slot body_units logical =
      elim (new_schedule keyed_blake3 body_units keys.placement_key placement_interleaved_label) [
        | none ↦ 0
        | some s ↦ slot s logical
      ]

  -- The kernels over a schedule, which gives the slots of every number of body units.
  module _ (schedule : ℕ → ℕ → ℕ) (placement : ℕ) where
    unfoldable pub embed_scheduled : List ℕ → ℕ → List ℕ → ℕ → Result CarrierError Embedded
    embed_scheduled carrier stride packet bits_per_unit = do
      bits ← new_config bits_per_unit
      validate_embed_descriptor digests packet bits placement false none
      let unit_count = length carrier / stride
      ensure (leb (tag_units bits) unit_count) (
          insufficient_capacity 64 (saturating_mul unit_count bits) (tag_units bits) unit_count
            bits)
      let body_units = unit_count - tag_units bits
      ensure (not (body_units == 0)) (
          insufficient_capacity (64 + bits) (saturating_mul unit_count bits) (tag_units bits + 1)
            unit_count bits)
      let needed_bits = length packet * 8
      ensure (leb needed_bits usize_max) capacity_overflow
      let needed_units = div_ceil needed_bits bits
      ensure (leb needed_units body_units) (
          insufficient_capacity needed_bits (saturating_mul body_units bits) needed_units body_units
            bits)
      ok (record {
        carrier =
            write_units packet needed_bits bits
              (λ logical_unit. (tag_units bits + schedule body_units logical_unit) * stride)
              needed_units 0 0
              (write_bits_sequential carrier stride (recognition_tag unit_count bits) bits);
        report = record {
          packet_bytes = length packet;
          modified_units = tag_units bits + needed_units;
          remaining_capacity_bytes = saturating_mul body_units bits / 8 - length packet;
        };
      })

    unfoldable pub extract_scheduled :
        List ℕ → ℕ → ℕ → DecodeLimits → Result CarrierError ExtractReport
    extract_scheduled carrier stride bits_per_unit limits = do
      bits ← new_config bits_per_unit
      let unit_count = length carrier / stride
      ensure (leb (tag_units bits) unit_count) no_packet
      observed ← extract_bytes carrier stride 8 bits
      ensure (constant_time_eq observed (recognition_tag unit_count bits)) no_packet
      let body_units = unit_count - tag_units bits
      ensure (not (body_units == 0)) no_packet
      locator_bytes ←
          read_bytes_at carrier stride (tag_units bits) (schedule body_units) body_units
            locator_size bits
      locator ← from_packet (Locator.from_bytes locator_bytes limits)
      len ← from_packet (packet_len locator)
      ensure (leb (len * 8) usize_max) capacity_overflow
      let needed_units = div_ceil (len * 8) bits
      ensure (leb needed_units body_units) (
          insufficient_capacity (saturating_mul len 8) (saturating_mul body_units bits) needed_units
            body_units bits)
      packet_bytes ←
          read_bytes_at carrier stride (tag_units bits) (schedule body_units) body_units len bits
      packet ← from_packet (decode digests packet_bytes limits)
      ensure (declares packet.envelope placement bits false) descriptor_mismatch
      ok (record {
        packet = packet;
        consumed_units = tag_units bits + needed_units;
        bits_per_unit = bits;
      })

  unfoldable pub embed_keyed_lsb : List ℕ → ℕ → List ℕ → ℕ → Result CarrierError Embedded
  embed_keyed_lsb = embed_scheduled keyed_slot placement_keyed

  unfoldable pub extract_keyed_lsb :
      List ℕ → ℕ → ℕ → DecodeLimits → Result CarrierError ExtractReport
  extract_keyed_lsb = extract_scheduled keyed_slot placement_keyed

  unfoldable pub embed_keyed_interleaved_lsb :
      List ℕ → ℕ → List ℕ → ℕ → Result CarrierError Embedded
  embed_keyed_interleaved_lsb = embed_scheduled interleaved_slot placement_interleaved

  unfoldable pub extract_keyed_interleaved_lsb :
      List ℕ → ℕ → ℕ → DecodeLimits → Result CarrierError ExtractReport
  extract_keyed_interleaved_lsb = extract_scheduled interleaved_slot placement_interleaved
