-- ===== src/Carrier/Embed/Keyed/Extraction.antt =====
-- The keyed and the interleaved kernels of carrier.rs find the packet that they have embedded.
use steganographer.Common.{
  ℕ, ◌-◌, ◌*◌, ◌/◌, ◌^◌, ◌<◌, ◌≤◌, ◌≡◌, refl, sym, ap, ◌∙◌, List, length, take, take_all,
  length-take, arith, All, All-take, ok, leb, ◌==◌, true, false,
}
use steganographer.Common.Bytes.{IsByte}
use native.Mathlib.Nat.{div-le_self}
use steganographer.Packet.Types.{
  DecodeLimits, GenericPacket, PacketEnvelope, usize_max, placement_keyed,
}
use steganographer.Packet.Locator.{from_bytes, packet_len}
use steganographer.Packet.Locator.RoundTrip.{from_bytes-Accepts}
use steganographer.Packet.Generic.{Digests, decode}
use steganographer.Carrier.{div_ceil, tag_units, constant_time_eq}
use steganographer.Carrier.Comparison.{constant_time_eq_iff}
use steganographer.Carrier.Spatial.{extract_bytes, read_bytes_at}
use steganographer.Carrier.Embed.{Embedded, declares, placement_interleaved}
use steganographer.Carrier.Embed.Locate.{
  from_bytes-take, decode-parts, validate_encoded_packet-decode,
}
use steganographer.Carrier.Embed.Keyed.{
  KeyedLsbKeys, recognition_tag, keyed_slot, interleaved_slot, embed_scheduled, extract_scheduled,
  embed_keyed_lsb, extract_keyed_lsb, embed_keyed_interleaved_lsb, extract_keyed_interleaved_lsb,
}
use steganographer.Carrier.Embed.Keyed.Schedules.{
  IsSchedule, keyed_slot-IsSchedule, interleaved_slot-IsSchedule,
}
use steganographer.Carrier.Embed.Keyed.Placed.{embed_scheduled-Placed, le→leb, pos→nonzero}
use steganographer.Carrier.Embed.Keyed.RoundTrip.{
  read_bytes_at-full, extract_bytes-full, length-full,
}

-- Keyed BLAKE3 gives 32 bytes.
abbrev pub IsDigest : (List ℕ → List ℕ → List ℕ) → Type 0
IsDigest keyed_blake3 =
    (key input : List ℕ)
    → (length (keyed_blake3 key input) ≡ 32) × All IsByte (keyed_blake3 key input)

module _ (digests : Digests) (keyed_blake3 : List ℕ → List ℕ → List ℕ) (keys : KeyedLsbKeys)
    (digest : IsDigest keyed_blake3) where
  pub tag_parts :
      (n bits : ℕ)
      → (length (recognition_tag digests keyed_blake3 keys n bits) ≡ 8)
        × All IsByte (recognition_tag digests keyed_blake3 keys n bits)
  unfolding recognition_tag
  tag_parts n bits =
      let (long, bytes) = digest keys.locator_key _ in
      (
        length-take 8 (keyed_blake3 keys.locator_key _) ∙ omega (arith, long),
        All-take IsByte 8 _ bytes,
      )

  module _ (schedule : ℕ → ℕ → ℕ) (placement : ℕ)
      (is_schedule : (n : ℕ) → 0 < n → n < 2 ^ 64 → IsSchedule n (schedule n)) (carrier : List ℕ)
      (stride : ℕ) (packet : List ℕ) (bits : ℕ) (limits : DecodeLimits) (out : Embedded)
      (p : GenericPacket) (bytes : All IsByte carrier) (packet_bytes : All IsByte packet)
      (pos : 0 < stride) (addressable : length carrier < 2 ^ 64)
      (h : embed_scheduled digests keyed_blake3 keys schedule placement carrier stride packet bits
        ≡ ok out)
      (d : decode digests packet limits ≡ ok p)
      (whole : packet_len p.locator ≡ ok (length packet)) where
    extract_scheduled-embed_scheduled :
        extract_scheduled digests keyed_blake3 keys schedule placement out.carrier stride bits
          limits
        ≡ ok (record {
          packet = p;
          consumed_units = out.report.modified_units;
          bits_per_unit = bits;
        })
    unfolding extract_scheduled
    extract_scheduled-embed_scheduled =
        let w =
          embed_scheduled-Placed digests keyed_blake3 keys schedule placement carrier stride packet
            bits out h in
        let n = length carrier / stride in
        let body = n - tag_units bits in
        let tag = recognition_tag digests keyed_blake3 keys n bits in
        let (tag_length, tag_bytes) = tag_parts n bits in
        let slots =
          is_schedule body w.body
            (omega (arith, addressable, div-le_self (length carrier) stride)) in
        let size : length out.carrier / stride ≡ n =
          ap (λ (c : List ℕ). length c / stride) w.written
          ∙ ap (λ (t : ℕ). t / stride)
              (length-full carrier stride bits tag packet (schedule body) bytes pos w.positive
                w.small tag_bytes tag_length w.tag_room slots w.room) in
        let observed : extract_bytes out.carrier stride 8 bits ≡ ok tag =
          ap (λ (c : List ℕ). extract_bytes c stride 8 bits) w.written
          ∙ extract_bytes-full carrier stride bits tag packet (schedule body) bytes pos w.positive
              w.small tag_bytes tag_length w.tag_room slots w.room in
        let reads = λ (k : ℕ) (q : k ≤ length packet).
          ap (λ (c : List ℕ). read_bytes_at c stride (tag_units bits) (schedule body) body k bits)
            w.written
          ∙ read_bytes_at-full carrier stride bits tag packet (schedule body) bytes pos w.positive
              w.small tag_bytes tag_length w.tag_room slots w.room k packet_bytes w.counted q in
        let (located, _) = decode-parts digests packet limits p d in
        let long = (from_bytes-Accepts packet limits p.locator located).long in
        let (_, same) =
          validate_encoded_packet-decode digests packet limits p w.locator w.envelope d
            w.validated in
        let first = reads 32 long in
        let locator : from_bytes (take 32 packet) limits ≡ ok p.locator =
          from_bytes-take packet limits long ∙ located in
        let all : read_bytes_at out.carrier stride (tag_units bits) (schedule body) body
              (length packet) bits
            ≡ ok packet =
          reads (length packet) (omega arith) ∙ ap ok (take_all packet) in
        let declared : declares p.envelope placement bits false ≡ true =
          ap (λ (e : PacketEnvelope). declares e placement bits false) (sym same) ∙ w.declared in
        let tag_room : leb (tag_units bits) n ≡ true = le→leb _ _ w.tag_room in
        let agrees : constant_time_eq tag tag ≡ true = (constant_time_eq_iff tag tag).1 refl in
        let some_body : (body == 0) ≡ false = pos→nonzero body w.body in
        let counted : leb (length packet * 8) usize_max ≡ true = le→leb _ _ w.counted in
        let room : leb (div_ceil (length packet * 8) bits) body ≡ true = le→leb _ _ w.room in
        rw
          (
            w.configured, size, tag_room, observed, agrees, some_body, first, locator, whole,
            counted, room, all, d, declared, w.modified,
          )
          refl

  -- Keyed BLAKE3 gives 32 bytes. For a carrier and a packet of bytes, a carrier length that a `u64`
  -- holds and a positive stride: if `embed_keyed_lsb` succeeds on a packet that `decode` accepts under
  -- the limits and that is as long as its locator says, then `extract_keyed_lsb` with the same keys
  -- and bits finds that packet in the embedded carrier, in as many units as the embedding has
  -- reported.
  pub extract_keyed_lsb-embed_keyed_lsb :
      (carrier : List ℕ) (stride : ℕ) (packet : List ℕ) (bits : ℕ) (limits : DecodeLimits)
      (out : Embedded) (p : GenericPacket)
      → All IsByte carrier
      → All IsByte packet
      → 0 < stride
      → length carrier < 2 ^ 64
      → embed_keyed_lsb digests keyed_blake3 keys carrier stride packet bits ≡ ok out
      → decode digests packet limits ≡ ok p
      → packet_len p.locator ≡ ok (length packet)
      → extract_keyed_lsb digests keyed_blake3 keys out.carrier stride bits limits
        ≡ ok (record {
          packet = p;
          consumed_units = out.report.modified_units;
          bits_per_unit = bits;
        })
  unfolding embed_keyed_lsb extract_keyed_lsb
  extract_keyed_lsb-embed_keyed_lsb carrier stride packet bits limits out p bytes packet_bytes pos
        addressable h d whole =
      extract_scheduled-embed_scheduled (keyed_slot digests keyed_blake3 keys) placement_keyed
        (λ n. keyed_slot-IsSchedule digests keyed_blake3 keys n) carrier stride packet bits limits
        out p bytes packet_bytes pos addressable h d whole

  -- Keyed BLAKE3 gives 32 bytes. For a carrier and a packet of bytes, a carrier length that a `u64`
  -- holds and a positive stride: if `embed_keyed_interleaved_lsb` succeeds on a packet that `decode`
  -- accepts under the limits and that is as long as its locator says, then
  -- `extract_keyed_interleaved_lsb` with the same keys and bits finds that packet in the embedded
  -- carrier, in as many units as the embedding has reported.
  pub extract_keyed_interleaved_lsb-embed_keyed_interleaved_lsb :
      (carrier : List ℕ) (stride : ℕ) (packet : List ℕ) (bits : ℕ) (limits : DecodeLimits)
      (out : Embedded) (p : GenericPacket)
      → All IsByte carrier
      → All IsByte packet
      → 0 < stride
      → length carrier < 2 ^ 64
      → embed_keyed_interleaved_lsb digests keyed_blake3 keys carrier stride packet bits ≡ ok out
      → decode digests packet limits ≡ ok p
      → packet_len p.locator ≡ ok (length packet)
      → extract_keyed_interleaved_lsb digests keyed_blake3 keys out.carrier stride bits limits
        ≡ ok (record {
          packet = p;
          consumed_units = out.report.modified_units;
          bits_per_unit = bits;
        })
  unfolding embed_keyed_interleaved_lsb extract_keyed_interleaved_lsb
  extract_keyed_interleaved_lsb-embed_keyed_interleaved_lsb carrier stride packet bits limits out p
        bytes packet_bytes pos addressable h d whole =
      extract_scheduled-embed_scheduled (interleaved_slot digests keyed_blake3 keys)
        placement_interleaved
        (λ n above below. interleaved_slot-IsSchedule digests keyed_blake3 keys n above) carrier
        stride packet bits limits out p bytes packet_bytes pos addressable h d whole
