-- ===== src/Carrier/Embed/Sequential.antt =====
-- `extract_sequential_lsb` after `embed_sequential_lsb` of carrier.rs.
use steganographer.Common.{
  ℕ, ◌-◌, ◌*◌, ◌/◌, ◌<◌, ◌≤◌, ◌≡◌, refl, sym, ap, ◌∙◌, List, length, take, take_all, arith, All, ok,
  >>=-eq-ok, ◌>>◌, ensure, leb, true, false, some,
}
use steganographer.Common.Bytes.{IsByte}
use steganographer.Packet.Types.{
  DecodeLimits, GenericPacket, PacketEnvelope, Locator, usize_max, locator_size,
  placement_sequential,
}
use steganographer.Packet.Locator.{from_bytes, packet_len}
use steganographer.Packet.Locator.RoundTrip.{from_bytes-Accepts}
use steganographer.Packet.Generic.{Digests, decode, validate_encoded_packet}
use steganographer.Carrier.{
  CarrierDescriptor, CapacityReport, div_ceil, new_config, report_of, sequential_capacity, fits,
  capacity_overflow, insufficient_capacity,
}
use steganographer.Carrier.Spatial.{write_bits_sequential, extract_bytes}
use steganographer.Carrier.Spatial.Read.{div_ceil-le}
use steganographer.Carrier.Spatial.Sequential.{
  length-write_bits_sequential, extract_bytes-write_bits_sequential,
}
use steganographer.Carrier.Embed.Locate.{
  from_bytes-take, decode-parts, validate_encoded_packet-decode,
}
use steganographer.Carrier.Embed.{
  Embedded, from_packet, descriptor_from_stride, declares, validate_embed_descriptor,
  embed_sequential_lsb, extract_sequential_lsb,
}

-- A capacity that fits the units.
abbrev capacity_of : ℕ → ℕ → CapacityReport
capacity_of units bits = record {
  usable_units = units;
  available_bits = units * bits;
  max_packet_bytes = units * bits / 8;
}

sequential_capacity-parts :
    (carrier : CarrierDescriptor) (bits : ℕ) (cap : CapacityReport)
    → sequential_capacity carrier bits ≡ ok cap
    → (1 ≤ bits) × ((bits ≤ 4) × (capacity_of carrier.unit_count bits ≡ cap))
unfolding sequential_capacity new_config report_of
sequential_capacity-parts carrier bits cap h = (ground arith, (ground arith, ground arith))

descriptor_units : (stride units : ℕ) → (descriptor_from_stride stride units).unit_count ≡ units
unfolding descriptor_from_stride
descriptor_units stride units = ground arith

-- What a successful embedding has checked and written.
record Written (digests : Digests) (carrier : List ℕ) (stride : ℕ) (packet : List ℕ) (bits : ℕ)
    (out : Embedded) : Type 0 where
  locator : Locator
  envelope : PacketEnvelope
  validated : validate_encoded_packet digests packet ≡ ok (locator, envelope)
  declared : declares envelope placement_sequential bits true ≡ true
  capacity :
      sequential_capacity (descriptor_from_stride stride (length carrier / stride)) bits
      ≡ ok (capacity_of (length carrier / stride) bits)
  positive : 1 ≤ bits
  small : bits ≤ 4
  counted : length packet * 8 ≤ usize_max
  room : length packet * 8 ≤ length carrier / stride * bits
  written : out.carrier ≡ write_bits_sequential carrier stride packet bits
  modified : out.report.modified_units ≡ div_ceil (length packet * 8) bits

-- The checks of the capacity, and the result.
after_capacity :
    (carrier : List ℕ) (stride : ℕ) (packet : List ℕ) (bits : ℕ) (cap : CapacityReport)
    (out : Embedded)
    → (ensure (leb (length packet * 8) usize_max) capacity_overflow
        >> (ensure (leb (length packet * 8) cap.available_bits) (
              insufficient_capacity
                (length packet * 8)
                cap.available_bits
                (div_ceil (length packet * 8) bits)
                cap.usable_units
                bits)
            >> ok (record {
              carrier = write_bits_sequential carrier stride packet bits;
              report = record {
                packet_bytes = length packet;
                modified_units = div_ceil (length packet * 8) bits;
                remaining_capacity_bytes = cap.max_packet_bytes - length packet;
              };
            })))
      ≡ ok out
    → (length packet * 8 ≤ usize_max)
      × ((length packet * 8 ≤ cap.available_bits)
          × ((out.carrier ≡ write_bits_sequential carrier stride packet bits)
              × (out.report.modified_units ≡ div_ceil (length packet * 8) bits)))
after_capacity carrier stride packet bits cap out h =
    (ground arith, (ground arith, (ground arith, ground arith)))

embed-Written :
    (digests : Digests) (carrier : List ℕ) (stride : ℕ) (packet : List ℕ) (bits : ℕ)
    (out : Embedded)
    → embed_sequential_lsb digests carrier stride packet bits ≡ ok out
    → Written digests carrier stride packet bits out
unfolding embed_sequential_lsb validate_embed_descriptor
embed-Written digests carrier stride packet bits out h =
    let (_, h1, h2) =
      >>=-eq-ok
        (validate_embed_descriptor digests packet bits placement_sequential true (some false)) _
        h in
    let (le, v1, v2) = >>=-eq-ok (from_packet (validate_encoded_packet digests packet)) _ h1 in
    let units = length carrier / stride in
    let (cap, h3, h4) =
      >>=-eq-ok (sequential_capacity (descriptor_from_stride stride units) bits) _ h2 in
    let (positive, (small, same)) =
      sequential_capacity-parts (descriptor_from_stride stride units) bits cap h3 in
    let here : capacity_of units bits ≡ cap =
      ap (λ (u : ℕ). capacity_of u bits) (sym (descriptor_units stride units)) ∙ same in
    let (counted, (room, (written, modified))) =
      after_capacity carrier stride packet bits cap out h4 in
    record {
      locator = le.0;
      envelope = le.1;
      validated = ground arith;
      declared = ground arith;
      capacity = h3 ∙ ap ok (sym here);
      positive = positive;
      small = small;
      counted = counted;
      room = omega (arith, room, ap (λ (c : CapacityReport). c.available_bits) here);
      written = written;
      modified = modified;
    }

-- For a carrier and a packet of bytes and a positive stride: if `embed_sequential_lsb` succeeds on a
-- packet that `decode` accepts under the limits and that is as long as its locator says, then
-- `extract_sequential_lsb` with the same bits finds that packet in the embedded carrier, in as many
-- units as the embedding has reported.
pub extract_sequential_lsb-embed_sequential_lsb :
    (digests : Digests) (carrier : List ℕ) (stride : ℕ) (packet : List ℕ) (bits : ℕ)
    (limits : DecodeLimits) (out : Embedded) (p : GenericPacket)
    → All IsByte carrier
    → All IsByte packet
    → 0 < stride
    → embed_sequential_lsb digests carrier stride packet bits ≡ ok out
    → decode digests packet limits ≡ ok p
    → packet_len p.locator ≡ ok (length packet)
    → extract_sequential_lsb digests out.carrier stride bits limits
      ≡ ok (record { packet = p; consumed_units = out.report.modified_units; bits_per_unit = bits })
unfolding extract_sequential_lsb fits
extract_sequential_lsb-embed_sequential_lsb digests carrier stride packet bits limits out p bytes
      packet_bytes pos h d whole =
    let w = embed-Written digests carrier stride packet bits out h in
    let units = length carrier / stride in
    let fit : div_ceil (length packet * 8) bits ≤ units =
      div_ceil-le (length packet * 8) units bits w.positive w.room in
    let (located, _) = decode-parts digests packet limits p d in
    let long : 32 ≤ length packet = (from_bytes-Accepts packet limits p.locator located).long in
    let (_, same) =
      validate_encoded_packet-decode digests packet limits p w.locator w.envelope d w.validated in
    let size : length out.carrier ≡ length carrier =
      ap length w.written
      ∙ length-write_bits_sequential carrier stride packet bits w.positive w.small pos fit in
    let cap : sequential_capacity (descriptor_from_stride stride (length out.carrier / stride)) bits
        ≡ ok (capacity_of units bits) =
      rw size w.capacity in
    let reads = λ (n : ℕ) (q : n ≤ length packet).
      ap (λ (c : List ℕ). extract_bytes c stride n bits) w.written
      ∙ extract_bytes-write_bits_sequential carrier stride packet bits w.positive w.small pos fit
          bytes n packet_bytes w.counted q in
    let first = reads 32 long in
    let locator : from_bytes (take 32 packet) limits ≡ ok p.locator =
      from_bytes-take packet limits long ∙ located in
    let all : extract_bytes out.carrier stride (length packet) bits ≡ ok packet =
      reads (length packet) (omega arith) ∙ ap ok (take_all packet) in
    let room = w.room in
    let enough : leb locator_size (units * bits / 8) ≡ true = ground arith in
    let fits_all : leb (length packet) (units * bits / 8) ≡ true = ground arith in
    let declared : declares p.envelope placement_sequential bits true ≡ true =
      ap (λ (e : PacketEnvelope). declares e placement_sequential bits true) (sym same)
      ∙ w.declared in
    rw (cap, enough, first, locator, whole, fits_all, all, d, declared, w.modified) refl
