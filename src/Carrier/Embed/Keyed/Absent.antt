-- ===== src/Carrier/Embed/Keyed/Absent.antt =====
-- When the keyed extractions of carrier.rs report that a carrier holds no packet.
use steganographer.Common.{
  ok-Avoids, >>=-Avoids, >>-Avoids, ensure-Avoids, ℕ, ◌+◌, ◌-◌, ◌*◌, ◌/◌, ◌<◌, ◌≤◌, ◌≡◌, ◌↔◌, inl,
  inr, Bool-cases, refl, sym, ap, ◌∙◌, List, length, arith, Bool, Result, ok, err, ensure, ◌>>=◌,
  ◌>>◌, leb, ◌==◌, true, false,
}
use mathlib.Core.Path.{subst}
use steganographer.Packet.Types.{
  DecodeLimits, GenericPacket, Locator, PacketResult, usize_max, locator_size, placement_keyed,
}
use steganographer.Packet.Locator.{from_bytes, packet_len}
use steganographer.Packet.Generic.{Digests, decode}
use steganographer.Carrier.{
  CarrierError, div_ceil, new_config, tag_units, constant_time_eq, no_packet,
}
use steganographer.Carrier.{capacity_overflow, insufficient_capacity, descriptor_mismatch}
use steganographer.Carrier.Comparison.{constant_time_eq_iff}
use steganographer.Carrier.Spatial.{saturating_mul, extract_bytes, read_bytes_at, read_from}
use steganographer.Carrier.Spatial.Read.{Carries, read_from-Carries}
use steganographer.Carrier.Spatial.Observed.{read_from-total}
use steganographer.Carrier.Embed.{declares, ExtractReport, from_packet, placement_interleaved}
use steganographer.Carrier.Embed.Keyed.{
  KeyedLsbKeys, recognition_tag, keyed_slot, interleaved_slot, extract_scheduled, extract_keyed_lsb,
  extract_keyed_interleaved_lsb,
}
use steganographer.Carrier.Embed.Keyed.Extraction.{IsDigest, tag_parts}

-- The report of a missing packet.
abbrev Reports : {A : Type 0} → Result CarrierError A → Type 0
Reports step = step ≡ err no_packet

insufficient-Reports :
    (b : Bool) (needed available units total bits : ℕ)
    → ¬ Reports (ensure b (insufficient_capacity needed available units total bits))
insufficient-Reports b needed available units total bits = ensure-Avoids no_packet b _ (λ q. cc)

from_packet-Reports : {A : Type 0} (r : PacketResult A) → ¬ Reports (from_packet r)
from_packet-Reports (ok a) = λ q. cc
from_packet-Reports (err e) = λ q. cc

read_from-Reports :
    (carrier : List ℕ) (physical : ℕ → ℕ) (units n bits : ℕ)
    → ¬ Reports (read_from carrier physical units n bits)
unfolding read_from
read_from-Reports carrier physical units n bits = λ q. ground (arith, q)

read_bytes_at-Reports :
    (carrier : List ℕ) (stride offset : ℕ) (slot : ℕ → ℕ) (total n bits : ℕ)
    → ¬ Reports (read_bytes_at carrier stride offset slot total n bits)
unfolding read_bytes_at
read_bytes_at-Reports carrier stride offset slot total n bits =
    read_from-Reports carrier (λ l. (offset + slot l) * stride) total n bits

-- The carrier has more units than the tag of the keys takes, and the first of them hold its bits.
abbrev pub HoldsTag : Digests → (List ℕ → List ℕ → List ℕ) → KeyedLsbKeys → List ℕ → ℕ → ℕ → Type 0
HoldsTag digests keyed_blake3 keys carrier stride bits =
    (tag_units bits < length carrier / stride)
    × Carries carrier (λ u. u * stride) bits
        (recognition_tag digests keyed_blake3 keys (length carrier / stride) bits)

module _ (digests : Digests) (keyed_blake3 : List ℕ → List ℕ → List ℕ) (keys : KeyedLsbKeys)
    (digest : IsDigest keyed_blake3) (carrier : List ℕ) (stride bits : ℕ) (limits : DecodeLimits)
    (configured : new_config bits ≡ ok bits) where
  positive : 0 < bits
  unfolding new_config
  positive = ground (arith, configured)

  abbrev units : ℕ
  units = length carrier / stride

  abbrev tag : List ℕ
  tag = recognition_tag digests keyed_blake3 keys units bits

  module _ (schedule : ℕ → ℕ → ℕ) (placement : ℕ) where
    abbrev extracted : Result CarrierError ExtractReport
    extracted =
        extract_scheduled digests keyed_blake3 keys schedule placement carrier stride bits limits

    absent : ¬ HoldsTag digests keyed_blake3 keys carrier stride bits → Reports extracted
    unfolding extract_scheduled extract_bytes
    absent none_there = elim (Bool-cases (leb (tag_units bits) units)) [
      | inr e ↦ rw (configured, e) refl
      | inl e ↦
          let (bytes, (size, (read, carries))) =
            read_from-total carrier (λ u. u * stride) bits positive units 8 (omega arith)
              (unfold tag_units in ground (arith, e)) in
          elim (Bool-cases (constant_time_eq bytes tag)) [
            | inr q ↦ rw (configured, e, read, q) refl
            | inl q ↦
                let same : bytes ≡ tag = (constant_time_eq_iff bytes tag).0 q in
                elim (Bool-cases ((units - tag_units bits) == 0)) [
                  | inl z ↦ rw (configured, e, read, q, z) refl
                  | inr nz ↦ absurd (
                      none_there (
                        ground (arith, e, nz),
                        subst (λ t. Carries carrier (λ u. u * stride) bits t) same carries,
                      ))
                ]
          ]
    ]

    -- The steps of the extraction behind the tag.
    abbrev body_units : ℕ
    body_units = units - tag_units bits

    abbrev read : ℕ → Result CarrierError (List ℕ)
    read n = read_bytes_at carrier stride (tag_units bits) (schedule body_units) body_units n bits

    abbrev needed_units : ℕ → ℕ
    needed_units len = div_ceil (len * 8) bits

    abbrev after_decode : ℕ → GenericPacket → Result CarrierError ExtractReport
    after_decode len packet =
        ensure (declares packet.envelope placement bits false) descriptor_mismatch
        >> ok (record {
          packet = packet;
          consumed_units = tag_units bits + needed_units len;
          bits_per_unit = bits;
        })

    abbrev after_bytes : ℕ → List ℕ → Result CarrierError ExtractReport
    after_bytes len bytes = from_packet (decode digests bytes limits) >>= after_decode len

    abbrev after_len : ℕ → Result CarrierError ExtractReport
    after_len len =
        ensure (leb (len * 8) usize_max) capacity_overflow
        >> (ensure (leb (needed_units len) body_units) (
              insufficient_capacity (saturating_mul len 8) (saturating_mul body_units bits)
                (needed_units len) body_units bits)
            >> (read len >>= after_bytes len))

    abbrev after_locator : Locator → Result CarrierError ExtractReport
    after_locator l = from_packet (packet_len l) >>= after_len

    abbrev after_tag : Result CarrierError ExtractReport
    after_tag =
        read locator_size >>= λ bytes. from_packet (from_bytes bytes limits) >>= after_locator

    read-Reports : (n : ℕ) → ¬ Reports (read n)
    read-Reports n =
        read_bytes_at-Reports carrier stride (tag_units bits) (schedule body_units) body_units n
          bits

    after_decode-Reports : (len : ℕ) (packet : GenericPacket) → ¬ Reports (after_decode len packet)
    after_decode-Reports len packet =
        >>-Avoids no_packet
          (ensure (declares packet.envelope placement bits false) descriptor_mismatch) (ok _)
          (ensure-Avoids no_packet (declares packet.envelope placement bits false)
            descriptor_mismatch (λ q. cc))
          (ok-Avoids no_packet _)

    after_bytes-Reports : (len : ℕ) (bytes : List ℕ) → ¬ Reports (after_bytes len bytes)
    after_bytes-Reports len bytes =
        >>=-Avoids no_packet (from_packet (decode digests bytes limits)) (after_decode len)
          (from_packet-Reports (decode digests bytes limits)) (after_decode-Reports len)

    after_len-Reports : (len : ℕ) → ¬ Reports (after_len len)
    after_len-Reports len =
        >>-Avoids no_packet (ensure (leb (len * 8) usize_max) capacity_overflow) _
          (ensure-Avoids no_packet (leb (len * 8) usize_max) capacity_overflow (λ q. cc))
          (>>-Avoids no_packet
            (ensure (leb (needed_units len) body_units) (
              insufficient_capacity (saturating_mul len 8) (saturating_mul body_units bits)
                (needed_units len) body_units bits))
            _
            (insufficient-Reports (leb (needed_units len) body_units) (saturating_mul len 8)
              (saturating_mul body_units bits) (needed_units len) body_units bits)
            (>>=-Avoids no_packet (read len) (after_bytes len) (read-Reports len)
              (after_bytes-Reports len)))

    after_locator-Reports : (l : Locator) → ¬ Reports (after_locator l)
    after_locator-Reports l =
        >>=-Avoids no_packet (from_packet (packet_len l)) after_len
          (from_packet-Reports (packet_len l)) after_len-Reports

    after_tag-Reports : ¬ Reports after_tag
    after_tag-Reports =
        >>=-Avoids no_packet (read locator_size) _ (read-Reports locator_size) (λ bytes.
          >>=-Avoids no_packet (from_packet (from_bytes bytes limits)) after_locator
            (from_packet-Reports (from_bytes bytes limits)) after_locator-Reports)

    present : HoldsTag digests keyed_blake3 keys carrier stride bits → ¬ Reports extracted
    unfolding extract_scheduled
    present (room, carries) =
        let (tag_length, tag_bytes) = tag_parts digests keyed_blake3 keys digest units bits in
        let enough : leb (tag_units bits) units ≡ true = ground (arith, room) in
        let some_body : (units - tag_units bits == 0) ≡ false = ground (arith, room) in
        let needed : div_ceil (length tag * 8) bits ≤ units =
          rw tag_length (unfold tag_units in omega (arith, room)) in
        let found : extract_bytes carrier stride 8 bits ≡ ok tag =
          unfold extract_bytes in
          ap (λ (n : ℕ). read_from carrier (λ u. u * stride) units n bits) (sym tag_length)
          ∙ read_from-Carries carrier (λ u. u * stride) units bits tag positive tag_bytes
              (omega (arith, tag_length)) needed carries in
        let agrees : constant_time_eq tag tag ≡ true = (constant_time_eq_iff tag tag).1 refl in
        rw (configured, enough, found, agrees, some_body) after_tag-Reports

    extract_scheduled_no_packet_iff :
        Reports extracted ↔ (¬ HoldsTag digests keyed_blake3 keys carrier stride bits)
    extract_scheduled_no_packet_iff = (λ reports holds. present holds reports, absent)

-- Keyed BLAKE3 gives 32 bytes. With valid bits and a positive stride, the keyed and the interleaved
-- extraction report `NoPacket` exactly for the carriers that do not both have more units than the
-- recognition tag takes and hold the tag of the keys, bit by bit, in their first units.
pub extract_keyed_lsb_no_packet_iff :
    (digests : Digests) (keyed_blake3 : List ℕ → List ℕ → List ℕ) (keys : KeyedLsbKeys)
    (carrier : List ℕ) (stride bits : ℕ) (limits : DecodeLimits) (digest : IsDigest keyed_blake3)
    (configured : new_config bits ≡ ok bits)
    → 0 < stride
    → ((extract_keyed_lsb digests keyed_blake3 keys carrier stride bits limits ≡ err no_packet)
        ↔ (¬ HoldsTag digests keyed_blake3 keys carrier stride bits))
      × ((extract_keyed_interleaved_lsb digests keyed_blake3 keys carrier stride bits limits
            ≡ err no_packet)
          ↔ (¬ HoldsTag digests keyed_blake3 keys carrier stride bits))
unfolding extract_keyed_lsb extract_keyed_interleaved_lsb
extract_keyed_lsb_no_packet_iff digests keyed_blake3 keys carrier stride bits limits digest
      configured pos =
    let iff =
      extract_scheduled_no_packet_iff digests keyed_blake3 keys digest carrier stride bits limits
        configured in
    (
      iff (keyed_slot digests keyed_blake3 keys) placement_keyed,
      iff (interleaved_slot digests keyed_blake3 keys) placement_interleaved,
    )
