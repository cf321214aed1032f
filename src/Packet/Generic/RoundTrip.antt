-- ===== src/Packet/Generic/RoundTrip.antt =====
-- What `GenericPacket::encode` writes, `GenericPacket::decode` reads back.
use steganographer.Common.{
  ℕ, ◌+◌, ◌-◌, ◌^◌, ◌<◌, ◌≤◌, ◌≡◌, sym, ap, ap₂, ◌∙◌, List, [], ◌++◌, true, leb, ◌==◌, ==_iff, ◌&&◌,
  arith, length, length-append, take, drop, slice, take-append, drop-append, drop-drop,
  append_assoc, append-nil, ok, ensure, >>-eq-ok, >>=-eq-ok, ensure-eq-ok,
}
use steganographer.Packet.Types.{
  DecodeLimits, GenericPacket, PacketEnvelope, Locator, check_limit, usize_max, locator_size,
  protocol_major, protocol_minor, unsupported_version, invalid_field, Reason,
}
use steganographer.Packet.Crc.{crc32c}
use steganographer.Packet.Locator.{
  to_bytes, from_bytes, validate_flags, validate_lengths, packet_len,
}
use steganographer.Packet.Locator.RoundTrip.{IsLocator, from_bytes-to_bytes_fields, length-to_bytes}
use steganographer.Packet.Envelope.Encode
use steganographer.Packet.Envelope.Decode
use steganographer.Packet.Envelope.RoundTrip.{IsEnvelope, decode-encode}
use steganographer.Packet.Generic.{
  Digests, validate_flag_transform_consistency, decode_packet_envelope, validate_untransformed_body,
  describes, encode, decode_body, decode,
}

-- What a successful `encode` has checked and done.
record Encoded (digests : Digests) (packet : GenericPacket) (limits : DecodeLimits) (bs : List ℕ)
    : Type 0 where
  flags : validate_flags packet.locator.flags ≡ ok tt
  consistent :
      validate_flag_transform_consistency packet.locator.flags packet.envelope.transforms ≡ ok tt
  envelope : List ℕ
  encoded : Encode.encode packet.envelope limits ≡ ok envelope
  lengths : validate_lengths (length envelope) (length packet.body) limits ≡ ok tt
  described : describes digests packet.locator envelope packet.body ≡ true
  body_valid : validate_untransformed_body digests packet.envelope packet.body ≡ ok tt
  written : to_bytes packet.locator ++ (envelope ++ packet.body) ≡ bs

encode-Encoded :
    (digests : Digests) (packet : GenericPacket) (limits : DecodeLimits) (bs : List ℕ)
    → encode digests packet limits ≡ ok bs
    → Encoded digests packet limits bs
unfolding encode
encode-Encoded digests packet limits bs h =
    let (_, h1) =
      >>-eq-ok
        (ensure
          (packet.locator.protocol_major == protocol_major
            && leb packet.locator.protocol_minor protocol_minor)
          (unsupported_version packet.locator.protocol_major packet.locator.protocol_minor))
        _ h in
    let (flags, h2) = >>-eq-ok (validate_flags packet.locator.flags) _ h1 in
    let (consistent, h3) =
      >>-eq-ok (validate_flag_transform_consistency packet.locator.flags packet.envelope.transforms)
        _ h2 in
    let (envelope, encoded, h4) = >>=-eq-ok (Encode.encode packet.envelope limits) _ h3 in
    let (lengths, h5) =
      >>-eq-ok (validate_lengths (length envelope) (length packet.body) limits) _ h4 in
    let (described, h6) =
      >>-eq-ok
        (ensure (describes digests packet.locator envelope packet.body)
          (invalid_field 0 Reason.locator_mismatch))
        _ h5 in
    let (body_valid, h7) =
      >>-eq-ok (validate_untransformed_body digests packet.envelope packet.body) _ h6 in
    let (len, _, same) = >>=-eq-ok (packet_len packet.locator) _ h7 in
    record {
      flags = flags;
      consistent = consistent;
      envelope = envelope;
      encoded = encoded;
      lengths = lengths;
      described = ensure-eq-ok _ _ described;
      body_valid = body_valid;
      written = ground arith;
    }

pub packet_len_lem :
    (l : Locator) (limits : DecodeLimits)
    → l.encoded_body_len < 2 ^ 64
    → validate_lengths l.envelope_len l.encoded_body_len limits ≡ ok tt
    → packet_len l ≡ ok (32 + l.envelope_len + l.encoded_body_len)
unfolding packet_len validate_lengths check_limit
packet_len_lem l limits w h = ground arith

take_exactly : (n : ℕ) (xs ys : List ℕ) → n ≡ length xs → take n (xs ++ ys) ≡ xs
take_exactly n xs ys h = rw h (take-append xs ys)

drop_exactly : (n : ℕ) (xs ys : List ℕ) → n ≡ length xs → drop n (xs ++ ys) ≡ ys
drop_exactly n xs ys h = rw h (drop-append xs ys)

-- A packet's three parts in the input, behind one another.
module _ (l : Locator) (envelope body rest : List ℕ) (wl : length (to_bytes l) ≡ 32) where
  abbrev whole : List ℕ
  whole = to_bytes l ++ (envelope ++ (body ++ rest))

  slice_envelope :
      l.envelope_len ≡ length envelope
      → slice whole locator_size (locator_size + l.envelope_len) ≡ envelope
  slice_envelope h =
      ap (take (locator_size + l.envelope_len - locator_size))
        (drop_exactly 32 (to_bytes l) (envelope ++ (body ++ rest)) (sym wl))
      ∙ take_exactly (locator_size + l.envelope_len - locator_size) envelope (body ++ rest)
          (omega (arith, h))

  slice_body :
      l.envelope_len ≡ length envelope
      → l.encoded_body_len ≡ length body
      → slice whole (locator_size + l.envelope_len) (32 + l.envelope_len + l.encoded_body_len)
        ≡ body
  slice_body h k =
      ap (take (32 + l.envelope_len + l.encoded_body_len - (locator_size + l.envelope_len))) (
        sym (drop-drop 32 l.envelope_len whole)
        ∙ ap (drop l.envelope_len)
            (drop_exactly 32 (to_bytes l) (envelope ++ (body ++ rest)) (sym wl))
        ∙ drop_exactly l.envelope_len envelope (body ++ rest) h)
      ∙ take_exactly (32 + l.envelope_len + l.encoded_body_len - (locator_size + l.envelope_len))
          body rest (omega (arith, k))

  length-whole :
      l.envelope_len ≡ length envelope
      → l.encoded_body_len ≡ length body
      → 32 + l.envelope_len + l.encoded_body_len ≤ length whole
  length-whole h k = omega (
    arith,
    wl,
    length-append (to_bytes l) (envelope ++ (body ++ rest)),
    length-append envelope (body ++ rest),
    length-append body rest,
  )

abbrev Described : Locator → List ℕ → List ℕ → Type 0
Described l envelope body =
    (l.envelope_len ≡ length envelope)
    × ((l.encoded_body_len ≡ length body) × (l.envelope_crc32c ≡ crc32c envelope))

split_description :
    (digests : Digests) (l : Locator) (envelope body : List ℕ)
    → describes digests l envelope body ≡ true
    → Described l envelope body
unfolding describes
split_description digests l envelope body h = (ground arith, (ground arith, ground arith))

decode_packet_envelope-parts :
    (l : Locator) (e : PacketEnvelope) (limits : DecodeLimits) (envelope body rest : List ℕ)
    (size : length (to_bytes l) ≡ 32)
    → Described l envelope body
    → packet_len l ≡ ok (32 + l.envelope_len + l.encoded_body_len)
    → Decode.decode envelope limits ≡ ok e
    → validate_flag_transform_consistency l.flags e.transforms ≡ ok tt
    → decode_packet_envelope (whole l envelope body rest size) l limits ≡ ok e
unfolding decode_packet_envelope
decode_packet_envelope-parts l e limits envelope body rest size said len decoded consistent =
    let long : leb (32 + l.envelope_len + l.encoded_body_len)
          (length (whole l envelope body rest size))
        ≡ true =
      ground (arith, length-whole l envelope body rest size said.0 said.1.0) in
    let checksum : (crc32c envelope == l.envelope_crc32c) ≡ true =
      (==_iff (crc32c envelope) l.envelope_crc32c).1 (sym (said.1.1)) in
    rw (len, long, slice_envelope l envelope body rest size said.0, checksum, decoded, consistent)

decode_parts :
    (digests : Digests) (packet : GenericPacket) (limits : DecodeLimits) (envelope rest : List ℕ)
    (size : length (to_bytes packet.locator) ≡ 32)
    → Described packet.locator envelope packet.body
    → packet_len packet.locator
      ≡ ok (32 + packet.locator.envelope_len + packet.locator.encoded_body_len)
    → from_bytes (whole packet.locator envelope packet.body rest size) limits ≡ ok packet.locator
    → Decode.decode envelope limits ≡ ok packet.envelope
    → validate_flag_transform_consistency packet.locator.flags packet.envelope.transforms ≡ ok tt
    → validate_untransformed_body digests packet.envelope packet.body ≡ ok tt
    → decode digests (whole packet.locator envelope packet.body rest size) limits ≡ ok packet
unfolding decode decode_body
decode_parts digests packet limits envelope rest size said len located decoded consistent valid =
    rw (
      located,
      decode_packet_envelope-parts packet.locator packet.envelope limits envelope packet.body rest
          size said len decoded consistent,
      len,
      slice_body packet.locator envelope packet.body rest size said.0 said.1.0,
      valid,
    )

-- A packet that `encode` accepts is read back by `decode` under the same limits from its bytes,
-- whatever follows them, if its locator and envelope have the widths of their Rust types and the
-- limit on the envelope's length is a `usize`.
pub decode_packet-encode_packet :
    (digests : Digests) (packet : GenericPacket) (limits : DecodeLimits) (bs rest : List ℕ)
    → IsLocator packet.locator
    → IsEnvelope packet.envelope
    → limits.max_envelope_len ≤ usize_max
    → encode digests packet limits ≡ ok bs
    → decode digests (bs ++ rest) limits ≡ ok packet
decode_packet-encode_packet digests packet limits bs rest wl we hm h =
    let enc = encode-Encoded digests packet limits bs h in
    let l = packet.locator in
    let envelope : List ℕ = enc.envelope in
    let body = packet.body in
    let said = split_description digests l envelope body enc.described in
    let size : length (to_bytes l) ≡ 32 =
      ap length (sym (append-nil (to_bytes l))) ∙ length-to_bytes l limits [] wl in
    let lengths : validate_lengths l.envelope_len l.encoded_body_len limits ≡ ok tt =
      ap₂ (λ (a b : ℕ). validate_lengths a b limits) said.0 said.1.0 ∙ enc.lengths in
    let len = packet_len_lem l limits wl.body_width lengths in
    let input = whole l envelope body rest size in
    let whole_input : bs ++ rest ≡ input =
      ap (λ t. t ++ rest) (sym enc.written)
      ∙ append_assoc (to_bytes l) (envelope ++ body) rest
      ∙ ap (λ t. to_bytes l ++ t) (append_assoc envelope body rest) in
    ap (λ t. decode digests t limits) whole_input
    ∙ decode_parts digests packet limits envelope rest size said len
        (from_bytes-to_bytes_fields l limits (envelope ++ (body ++ rest)) wl enc.flags lengths)
        (decode-encode limits packet.envelope envelope we hm enc.encoded) enc.consistent
        enc.body_valid
