-- ===== src/Carrier/Embed.antt =====
-- Embedding and extraction of a packet in steganographer-core/src/carrier.rs: sequential, keyed and
-- interleaved. Keyed BLAKE3 and the packet digests are third-party code and parameters.
pub mod Carriers
pub mod Locate
pub mod Sequential
pub mod Keyed
use steganographer.Common.{
  ℕ, zero, suc, ◌+◌, ◌-◌, ◌*◌, ◌/◌, List, [], ◌∷◌, ◌++◌, Option, some, none, Bool, true, false, ltb,
  leb, ◌==◌, not, ◌&&◌, if◌then◌else◌, length, take, bytes_eq, bit_and, Result, ok, err, ensure,
  ◌>>=◌, ◌>>◌,
}
use steganographer.Common.Bytes.{to_le_bytes}
use steganographer.Packet.Types.{
  PacketResult, DecodeLimits, AlgorithmDescriptor, PacketEnvelope, Locator, GenericPacket,
  usize_max, locator_size, placement_sequential, placement_keyed, kernel_spatial_lsb,
  flag_keyed_locator,
}
use steganographer.Packet.Locator
use steganographer.Packet.Locator.{packet_len}
use steganographer.Packet.Generic.{Digests, decode, validate_encoded_packet}
use steganographer.Kdf.{derive_locator_key, derive_placement_key}
use steganographer.Placement.{try_new, permute}
use steganographer.Placement.Interleaved.{new_schedule, slot}
use steganographer.Carrier.{
  CarrierDescriptor, CarrierError, CapacityReport, new_config, fits, div_ceil, tag_units,
  sequential_capacity, constant_time_eq, rgb8, pcm_s16_le, capacity_overflow, insufficient_capacity,
  descriptor_mismatch, no_packet, packet_error,
}
use steganographer.Carrier.Spatial.{
  Gather, write_units, write_bits_sequential, extract_bytes, read_bytes_at, saturating_mul,
}

-- `steganographer-p`
abbrev pub placement_label : List ℕ
placement_label =
    115 ∷ 116 ∷ 101 ∷ 103 ∷ 97 ∷ 110 ∷ 111 ∷ 103 ∷ 114 ∷ 97 ∷ 112 ∷ 104 ∷ 101 ∷ 114 ∷ 45 ∷ 112 ∷ []

-- `steganographer-recognition-v1`
abbrev pub recognition_context : List ℕ
recognition_context =
    115 ∷ 116 ∷ 101 ∷ 103 ∷ 97 ∷ 110 ∷ 111 ∷ 103 ∷ 114 ∷ 97 ∷ 112 ∷ 104 ∷ 101 ∷ 114 ∷ 45 ∷ 114 ∷ 101
    ∷ 99 ∷ 111 ∷ 103 ∷ 110 ∷ 105 ∷ 116 ∷ 105 ∷ 111 ∷ 110 ∷ 45 ∷ 118 ∷ 49 ∷ []

-- `steganographer-placement-interleaved-v1`
abbrev pub placement_interleaved_label : List ℕ
placement_interleaved_label =
    115 ∷ 116 ∷ 101 ∷ 103 ∷ 97 ∷ 110 ∷ 111 ∷ 103 ∷ 114 ∷ 97 ∷ 112 ∷ 104 ∷ 101 ∷ 114 ∷ 45 ∷ 112 ∷ 108
    ∷ 97 ∷ 99 ∷ 101 ∷ 109 ∷ 101 ∷ 110 ∷ 116 ∷ 45 ∷ 105 ∷ 110 ∷ 116 ∷ 101 ∷ 114 ∷ 108 ∷ 101 ∷ 97
    ∷ 118 ∷ 101 ∷ 100 ∷ 45 ∷ 118 ∷ 49 ∷ []

abbrev pub placement_interleaved : ℕ
placement_interleaved = 3

pub record EmbedReport : Type 0 where
  pub packet_bytes : ℕ
  pub modified_units : ℕ
  pub remaining_capacity_bytes : ℕ

-- What an embedding leaves: the carrier, which the code changes in place, and the report.
pub record Embedded : Type 0 where
  pub carrier : List ℕ
  pub report : EmbedReport

pub record ExtractReport : Type 0 where
  pub packet : GenericPacket
  pub consumed_units : ℕ
  pub bits_per_unit : ℕ

-- `?` on a packet error.
abbrev pub from_packet : {A : Type 0} → PacketResult A → Result CarrierError A
from_packet (ok a) = ok a
from_packet (err e) = err (packet_error e)

unfoldable pub descriptor_from_stride : ℕ → ℕ → CarrierDescriptor
descriptor_from_stride stride unit_count =
    if stride == 2
    then record { kind = pcm_s16_le; unit_count = unit_count }
    else record { kind = rgb8; unit_count = unit_count }

-- The placement and the kernel that an envelope has to declare.
unfoldable pub declares : PacketEnvelope → ℕ → ℕ → Bool → Bool
declares envelope placement bits no_parameters =
    envelope.placement.algorithm == placement
    && (envelope.placement.version == 1
        && ((if no_parameters then length envelope.placement.parameters == 0 else true)
            && (envelope.kernel.algorithm == kernel_spatial_lsb
                && (envelope.kernel.version == 1
                    && bytes_eq envelope.kernel.parameters (bits ∷ [])))))

-- Whether the keyed locator flag is as expected.
unfoldable pub flag_ok : Option Bool → ℕ → Bool
flag_ok none flags = true
flag_ok (some true) flags = not (bit_and flags flag_keyed_locator == 0)
flag_ok (some false) flags = bit_and flags flag_keyed_locator == 0

module _ (digests : Digests) where
  unfoldable pub validate_embed_descriptor :
      List ℕ → ℕ → ℕ → Bool → Option Bool → Result CarrierError (Unit {0})
  validate_embed_descriptor packet bits placement no_parameters keyed_locator_flag = do
    (locator, envelope) ← from_packet (validate_encoded_packet digests packet)
    ensure
        (declares envelope placement bits no_parameters && flag_ok keyed_locator_flag locator.flags)
        descriptor_mismatch

  unfoldable pub embed_sequential_lsb : List ℕ → ℕ → List ℕ → ℕ → Result CarrierError Embedded
  embed_sequential_lsb carrier stride packet bits = do
    validate_embed_descriptor packet bits placement_sequential true (some false)
    capacity ← sequential_capacity (descriptor_from_stride stride (length carrier / stride)) bits
    let needed_bits = length packet * 8
    ensure (leb needed_bits usize_max) capacity_overflow
    ensure (leb needed_bits capacity.available_bits) (
        insufficient_capacity needed_bits capacity.available_bits (div_ceil needed_bits bits)
          capacity.usable_units bits)
    ok (record {
      carrier = write_bits_sequential carrier stride packet bits;
      report = record {
        packet_bytes = length packet;
        modified_units = div_ceil needed_bits bits;
        remaining_capacity_bytes = capacity.max_packet_bytes - length packet;
      };
    })

  unfoldable pub extract_sequential_lsb :
      List ℕ → ℕ → ℕ → DecodeLimits → Result CarrierError ExtractReport
  extract_sequential_lsb carrier stride bits limits = do
    capacity ← sequential_capacity (descriptor_from_stride stride (length carrier / stride)) bits
    ensure (leb locator_size capacity.max_packet_bytes) (
        insufficient_capacity (locator_size * 8) capacity.available_bits
          (div_ceil (locator_size * 8) bits) capacity.usable_units bits)
    locator_bytes ← extract_bytes carrier stride locator_size bits
    locator ← from_packet (Locator.from_bytes locator_bytes limits)
    len ← from_packet (packet_len locator)
    ensure (fits capacity len) (
        if leb (len * 8) usize_max
        then insufficient_capacity (len * 8) capacity.available_bits (div_ceil (len * 8) bits)
            capacity.usable_units bits
        else capacity_overflow)
    packet_bytes ← extract_bytes carrier stride len bits
    packet ← from_packet (decode digests packet_bytes limits)
    ensure (declares packet.envelope placement_sequential bits true) descriptor_mismatch
    ok (record { packet = packet; consumed_units = div_ceil (len * 8) bits; bits_per_unit = bits })
