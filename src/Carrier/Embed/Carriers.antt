-- ===== src/Carrier/Embed/Carriers.antt =====
-- The carrier types of carrier.rs: `capacity`, `embed_packet` and `extract_packet` of `SpatialLsb`,
-- `AudioSpatialLsb` and the keyed carriers over bytes and over 16-bit samples.
use steganographer.Common.{ℕ, List, length, Result, ◌>>◌}
use steganographer.Packet.Types.{DecodeLimits}
use steganographer.Packet.Generic.{Digests}
use steganographer.Carrier.{
  CarrierDescriptor, CarrierError, CapacityReport, ensure_aligned, sequential_capacity,
  keyed_capacity,
}
use steganographer.Carrier.Embed.{
  Embedded, ExtractReport, embed_sequential_lsb, extract_sequential_lsb,
}
use steganographer.Carrier.Embed.Keyed.{
  KeyedLsbKeys, embed_keyed_lsb, extract_keyed_lsb, embed_keyed_interleaved_lsb,
  extract_keyed_interleaved_lsb,
}

-- The trait objects: what a carrier type offers, as `CarrierEmbedder` and `CarrierExtractor`.
pub record Carrier : Type 0 where
  pub capacity : CarrierDescriptor → ℕ → Result CarrierError CapacityReport
  pub embed_packet : List ℕ → List ℕ → ℕ → Result CarrierError Embedded
  pub extract_packet : List ℕ → ℕ → DecodeLimits → Result CarrierError ExtractReport

module _ (digests : Digests) where
  unfoldable pub spatial_lsb : Carrier
  spatial_lsb = record {
    capacity = sequential_capacity;
    embed_packet = λ carrier packet bits. embed_sequential_lsb digests carrier 1 packet bits;
    extract_packet = λ carrier bits limits. extract_sequential_lsb digests carrier 1 bits limits;
  }

  unfoldable pub audio_spatial_lsb : Carrier
  audio_spatial_lsb = record {
    capacity = sequential_capacity;
    embed_packet = λ carrier packet bits.
        ensure_aligned (length carrier) 2 >> embed_sequential_lsb digests carrier 2 packet bits;
    extract_packet = λ carrier bits limits.
        ensure_aligned (length carrier) 2 >> extract_sequential_lsb digests carrier 2 bits limits;
  }

  module _ (keyed_blake3 : List ℕ → List ℕ → List ℕ) (keys : KeyedLsbKeys) where
    unfoldable pub keyed_spatial_lsb : Carrier
    keyed_spatial_lsb = record {
      capacity = keyed_capacity;
      embed_packet =
          λ carrier packet bits. embed_keyed_lsb digests keyed_blake3 keys carrier 1 packet bits;
      extract_packet =
          λ carrier bits limits. extract_keyed_lsb digests keyed_blake3 keys carrier 1 bits limits;
    }

    unfoldable pub keyed_audio_spatial_lsb : Carrier
    keyed_audio_spatial_lsb = record {
      capacity = keyed_capacity;
      embed_packet = λ carrier packet bits.
          ensure_aligned (length carrier) 2
          >> embed_keyed_lsb digests keyed_blake3 keys carrier 2 packet bits;
      extract_packet = λ carrier bits limits.
          ensure_aligned (length carrier) 2
          >> extract_keyed_lsb digests keyed_blake3 keys carrier 2 bits limits;
    }

    unfoldable pub keyed_interleaved_spatial_lsb : Carrier
    keyed_interleaved_spatial_lsb = record {
      capacity = keyed_capacity;
      embed_packet = λ carrier packet bits.
          embed_keyed_interleaved_lsb digests keyed_blake3 keys carrier 1 packet bits;
      extract_packet = λ carrier bits limits.
          extract_keyed_interleaved_lsb digests keyed_blake3 keys carrier 1 bits limits;
    }

    unfoldable pub keyed_interleaved_audio_spatial_lsb : Carrier
    keyed_interleaved_audio_spatial_lsb = record {
      capacity = keyed_capacity;
      embed_packet = λ carrier packet bits.
          ensure_aligned (length carrier) 2
          >> embed_keyed_interleaved_lsb digests keyed_blake3 keys carrier 2 packet bits;
      extract_packet = λ carrier bits limits.
          ensure_aligned (length carrier) 2
          >> extract_keyed_interleaved_lsb digests keyed_blake3 keys carrier 2 bits limits;
    }
