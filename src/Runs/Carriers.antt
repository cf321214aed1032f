-- ===== src/Runs/Carriers.antt =====
-- The carrier kernels at concrete inputs: a packet of 136 bytes in 650 samples, two bits in each.
use steganographer.Common.{
  ℕ, ◌+◌, ◌*◌, ◌/◌, ◌^◌, ◌≡◌, ◌<◌, ◌↔◌, refl, List, [], ◌∷◌, some, arith, length, replicate,
  bytes_eq, All, ok, err, get_or,
}
use steganographer.Common.Bytes.{IsByte, to_le_bytes, from_le_bytes}
use steganographer.Carrier.{new_config, report_of, sequential_capacity, tag_units, no_packet}
use steganographer.Carrier.Spatial.{packet_bit, write_units, write_bits_sequential, extract_bytes}
use steganographer.Carrier.Spatial.Sequential.{
  extract_bytes-write_bits_sequential, write_bits_sequential_upper, write_bits_sequential_rest,
}
use steganographer.Carrier.Embed.{
  Embedded, declares, flag_ok, validate_embed_descriptor, descriptor_from_stride,
  embed_sequential_lsb, extract_sequential_lsb,
}
use steganographer.Carrier.Embed.Sequential.{extract_sequential_lsb-embed_sequential_lsb}
use steganographer.Carrier.Embed.Keyed.{
  KeyedLsbKeys, recognition_tag, keyed_slot, interleaved_slot, embed_scheduled, embed_keyed_lsb,
  extract_keyed_lsb, embed_keyed_interleaved_lsb, extract_keyed_interleaved_lsb,
}
use steganographer.Carrier.Embed.Keyed.Extraction.{
  IsDigest, extract_keyed_lsb-embed_keyed_lsb,
  extract_keyed_interleaved_lsb-embed_keyed_interleaved_lsb,
}
use steganographer.Carrier.Embed.Keyed.Absent.{HoldsTag, extract_keyed_lsb_no_packet_iff}
use steganographer.Placement.Interleaved.{
  InterleavedSchedule, new_schedule, coprime_stride, slot, gcd, gcd_fuel, first_stride, next_stride,
  derive_u64,
}
use steganographer.Placement.Interleaved.Coprime.{new_schedule-ends, slot_injective}
use steganographer.Runs.Embed.{
  digests, Placed, limits, packet, packet_bytes, packet_read, length-packet_bytes, packet_whole,
  packet_bytes-IsByte, packet_valid,
}

abbrev samples : List ℕ
samples = replicate 1300 90

abbrev keyed_blake3 : List ℕ → List ℕ → List ℕ
keyed_blake3 key input = replicate 32 5

abbrev keys : KeyedLsbKeys
keys = record { locator_key = replicate 32 1; placement_key = replicate 32 2 }

samples-IsByte : All IsByte samples
samples-IsByte = ground arith

in_order_out : Embedded
in_order_out = record {
  carrier = write_bits_sequential samples 2 (packet_bytes Placed.in_order) 2;
  report = record { packet_bytes = 136; modified_units = 544; remaining_capacity_bytes = 26 };
}

in_order_embedded :
    embed_sequential_lsb digests samples 2 (packet_bytes Placed.in_order) 2 ≡ ok in_order_out
unfolding in_order_out embed_sequential_lsb validate_embed_descriptor declares flag_ok bytes_eq
    packet sequential_capacity new_config report_of descriptor_from_stride
in_order_embedded = rw (packet_valid Placed.in_order, length-packet_bytes Placed.in_order) refl

extract_sequential_lsb-embed_sequential_lsb_example :
    extract_sequential_lsb digests in_order_out.carrier 2 2 limits
    ≡ ok (record {
      packet = packet Placed.in_order;
      consumed_units = in_order_out.report.modified_units;
      bits_per_unit = 2;
    })
extract_sequential_lsb-embed_sequential_lsb_example =
    extract_sequential_lsb-embed_sequential_lsb digests samples 2 (packet_bytes Placed.in_order) 2
      limits in_order_out (packet Placed.in_order) samples-IsByte
      (packet_bytes-IsByte Placed.in_order) (omega arith) in_order_embedded
      (packet_read Placed.in_order) (packet_whole Placed.in_order)

abbrev keyed_out : Placed → (ℕ → ℕ → ℕ) → Embedded
keyed_out w schedule = record {
  carrier =
      write_units (packet_bytes w) 1088 2 (λ u. (32 + schedule 618 u) * 2) 544 0 0
        (write_bits_sequential samples 2 (recognition_tag digests keyed_blake3 keys 650 2) 2);
  report = record { packet_bytes = 136; modified_units = 576; remaining_capacity_bytes = 18 };
}

abbrev permuted_out : Embedded
permuted_out = keyed_out Placed.keyed (keyed_slot digests keyed_blake3 keys)

keyed_embedded :
    embed_keyed_lsb digests keyed_blake3 keys samples 2 (packet_bytes Placed.keyed) 2
    ≡ ok permuted_out
unfolding embed_keyed_lsb embed_scheduled validate_embed_descriptor declares flag_ok bytes_eq packet
    new_config tag_units
keyed_embedded = rw (packet_valid Placed.keyed, length-packet_bytes Placed.keyed) refl

keyed_blake3-IsDigest : IsDigest keyed_blake3
keyed_blake3-IsDigest key input = (refl, ground arith)

extract_keyed_lsb-embed_keyed_lsb_example :
    extract_keyed_lsb digests keyed_blake3 keys permuted_out.carrier 2 2 limits
    ≡ ok (record {
      packet = packet Placed.keyed;
      consumed_units = permuted_out.report.modified_units;
      bits_per_unit = 2;
    })
extract_keyed_lsb-embed_keyed_lsb_example =
    extract_keyed_lsb-embed_keyed_lsb digests keyed_blake3 keys keyed_blake3-IsDigest samples 2
      (packet_bytes Placed.keyed) 2 limits permuted_out (packet Placed.keyed) samples-IsByte
      (packet_bytes-IsByte Placed.keyed) (omega arith) (omega arith) keyed_embedded
      (packet_read Placed.keyed) (packet_whole Placed.keyed)

abbrev spread_out : Embedded
spread_out = keyed_out Placed.interleaved (interleaved_slot digests keyed_blake3 keys)

interleaved_embedded :
    embed_keyed_interleaved_lsb digests keyed_blake3 keys samples 2
      (packet_bytes Placed.interleaved)
      2
    ≡ ok spread_out
unfolding embed_keyed_interleaved_lsb embed_scheduled validate_embed_descriptor declares flag_ok
    bytes_eq packet new_config tag_units
interleaved_embedded =
    rw (packet_valid Placed.interleaved, length-packet_bytes Placed.interleaved) refl

extract_keyed_interleaved_lsb-embed_keyed_interleaved_lsb_example :
    extract_keyed_interleaved_lsb digests keyed_blake3 keys spread_out.carrier 2 2 limits
    ≡ ok (record {
      packet = packet Placed.interleaved;
      consumed_units = spread_out.report.modified_units;
      bits_per_unit = 2;
    })
extract_keyed_interleaved_lsb-embed_keyed_interleaved_lsb_example =
    extract_keyed_interleaved_lsb-embed_keyed_interleaved_lsb digests keyed_blake3 keys
      keyed_blake3-IsDigest samples 2 (packet_bytes Placed.interleaved) 2 limits spread_out
      (packet Placed.interleaved) samples-IsByte (packet_bytes-IsByte Placed.interleaved)
      (omega arith) (omega arith) interleaved_embedded (packet_read Placed.interleaved)
      (packet_whole Placed.interleaved)

-- Forty blank samples hold no tag.
extract_keyed_lsb_no_packet_iff_example :
    ((extract_keyed_lsb digests keyed_blake3 keys (replicate 40 0) 1 2 limits ≡ err no_packet)
      ↔ (¬ HoldsTag digests keyed_blake3 keys (replicate 40 0) 1 2))
    × ((extract_keyed_interleaved_lsb digests keyed_blake3 keys (replicate 40 0) 1 2 limits
          ≡ err no_packet)
        ↔ (¬ HoldsTag digests keyed_blake3 keys (replicate 40 0) 1 2))
extract_keyed_lsb_no_packet_iff_example =
    extract_keyed_lsb_no_packet_iff digests keyed_blake3 keys (replicate 40 0) 1 2 limits
      keyed_blake3-IsDigest (unfold new_config in refl) (omega arith)

-- The last unit of the tag would hold an odd bit of the byte five.
blank_HoldsTag : ¬ HoldsTag digests keyed_blake3 keys (replicate 40 0) 1 2
unfolding recognition_tag packet_bit
blank_HoldsTag (room, carries) = absurd (ground (arith, carries 3 0 (omega arith) (omega arith)))

blank_extraction :
    extract_keyed_lsb digests keyed_blake3 keys (replicate 40 0) 1 2 limits ≡ err no_packet
blank_extraction = extract_keyed_lsb_no_packet_iff_example.0.1 blank_HoldsTag

extract_bytes-write_bits_sequential_example :
    extract_bytes (write_bits_sequential (replicate 20 90) 2 (201 ∷ 7 ∷ []) 3) 2 2 3
    ≡ ok (201 ∷ 7 ∷ [])
extract_bytes-write_bits_sequential_example =
    extract_bytes-write_bits_sequential (replicate 20 90) 2 (201 ∷ 7 ∷ []) 3 (omega arith)
      (omega arith) (omega arith) (omega arith) (ground arith) 2 (ground arith) (omega arith)
      (omega arith)

write_bits_sequential_upper_example :
    (length (write_bits_sequential (replicate 20 90) 2 (201 ∷ 7 ∷ []) 3) ≡ 20)
    × ((get_or (write_bits_sequential (replicate 20 90) 2 (201 ∷ 7 ∷ []) 3) 4 0 / 2 ^ 3 ≡ 11)
        × (get_or (write_bits_sequential (replicate 20 90) 2 (201 ∷ 7 ∷ []) 3) 4 0 < 256))
write_bits_sequential_upper_example =
    write_bits_sequential_upper (replicate 20 90) 2 (201 ∷ 7 ∷ []) 3 (omega arith) (omega arith)
      (omega arith) (omega arith) (ground arith) 4

write_bits_sequential_rest_example :
    get_or (write_bits_sequential (replicate 20 90) 2 (201 ∷ 7 ∷ []) 3) 5 0 ≡ 90
write_bits_sequential_rest_example =
    write_bits_sequential_rest (replicate 20 90) 2 (201 ∷ 7 ∷ []) 3 (omega arith) (omega arith)
      (omega arith) (omega arith) 2 0 (omega arith)

new_schedule-ends_example :
    (s : InterleavedSchedule) × ((new_schedule keyed_blake3 618 (replicate 32 2) (1 ∷ []) ≡ some s)
      × ((s.len ≡ 618) × (gcd s.stride 618 ≡ 1)))
new_schedule-ends_example =
    new_schedule-ends keyed_blake3 618 (replicate 32 2) (1 ∷ []) (omega arith)

-- The schedule of five slots whose stride and phase the constant hash gives.
small_built :
    new_schedule keyed_blake3 5 (replicate 32 2) (1 ∷ [])
    ≡ some (record { len = 5; stride = 2; phase = 0 })
unfolding new_schedule coprime_stride first_stride gcd gcd_fuel next_stride derive_u64 from_le_bytes
    to_le_bytes
small_built = refl

slot_injective_example : ◌≡◌ {A = ℕ} 3 3 × (slot (record { len = 5; stride = 2; phase = 0 }) 3 < 5)
slot_injective_example =
    slot_injective keyed_blake3 5 (replicate 32 2) (1 ∷ [])
      (record { len = 5; stride = 2; phase = 0 }) 3 3 (omega arith) small_built (omega arith)
      (omega arith) refl
