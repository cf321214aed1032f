-- ===== src/Runs/Embed.antt =====
-- Packets that are embedded into carriers, and found there. Constant digests of thirty-two bytes
-- stand for the third-party hashes.
use steganographer.Common.{
  ℕ, ◌^◌, ◌≡◌, refl, sym, ap, ◌∙◌, append-nil, List, [], ◌∷◌, ◌++◌, none, arith, length,
  length-append, All-append, ◌<◌, replicate, any, bytes_eq, ==_refl, All, ok, err,
}
use steganographer.Common.Bytes.{IsByte, to_be_bytes}
use steganographer.Packet.Types.{
  DecodeLimits, PacketResult, check_limit, PayloadKind, blake3, PacketEnvelope, GenericPacket,
}
use steganographer.Packet.Wire.{push_tlv, encode_descriptor, tlv}
use steganographer.Packet.Envelope.{
  validate_envelope, has_zero_transform, check_extensions, check_unknown, kind_code, digest_code,
}
use steganographer.Packet.Crc.{crc32c, crc32c-lt}
use steganographer.Packet.Locator
use steganographer.Packet.Locator.{validate_flags, validate_lengths, packet_len}
use steganographer.Packet.Locator.RoundTrip.{IsLocator}
use steganographer.Packet.Integer.{strip, encode_minimal_u64}
use steganographer.Packet.Envelope.Encode
use steganographer.Packet.Envelope.RoundTrip.{IsEnvelope}
use steganographer.Packet.Generic
use steganographer.Packet.Generic.{Digests}
use steganographer.Packet.Generic.RoundTrip.{decode_packet-encode_packet}
use steganographer.Carrier.Embed.Locate.{validate_encoded_packet_own}

abbrev pub digests : Digests
digests = record {
  blake3_digest = λ bytes. replicate 32 7;
  sha256_digest = λ bytes. replicate 32 7;
  sha3_256_digest = λ bytes. replicate 32 7;
}

pub data Placed : Type 0 where
  in_order keyed interleaved : Placed

abbrev number : Placed → ℕ
number in_order = 1
number keyed = 2
number interleaved = 3

-- An envelope for two bits a unit.
abbrev envelope : Placed → PacketEnvelope
envelope w = record {
  packet_id = replicate 16 1;
  payload_kind = PayloadKind.text;
  original_len = 2;
  content_digest = record { algorithm = blake3; bytes = replicate 32 7 };
  transforms = [];
  placement = record { algorithm = number w; version = 1; parameters = [] };
  kernel = record { algorithm = 1; version = 1; parameters = 2 ∷ [] };
  created_version = (1, 0);
  mime_type = none;
  filename = none;
  created_at_unix = none;
  parent_id = none;
  unknown_fields = [];
  extensions = [];
}

abbrev bytes_or : PacketResult (List ℕ) → List ℕ
bytes_or (ok bs) = bs
bytes_or (err e) = []

-- The limits of a packet of 136 bytes.
abbrev pub limits : DecodeLimits
limits = record {
  max_envelope_len = 136;
  max_body_len = 136;
  max_packet_len = 136;
  max_field_len = 136;
  max_fields = 136;
  max_transforms = 136;
  max_extensions = 136;
  max_filename_len = 136;
  max_mime_len = 136;
  max_original_len = 18446744073709551615;
  max_nesting_depth = 0;
  max_aggregate_nested_bytes = 136;
}

pub envelope_bytes : Placed → List ℕ
envelope_bytes w = bytes_or (Encode.encode (envelope w) limits)

envelope_encoded : (w : Placed) → Encode.encode (envelope w) limits ≡ ok (envelope_bytes w)
unfolding envelope_bytes Encode.encode validate_envelope has_zero_transform any check_extensions
    check_unknown push_tlv encode_minimal_u64 strip to_be_bytes kind_code digest_code
    encode_descriptor Encode.lower_unknown Encode.upper_unknown Encode.sort_by_id tlv
envelope_encoded in_order = refl
envelope_encoded keyed = refl
envelope_encoded interleaved = refl

envelope_length : (w : Placed) → length (envelope_bytes w) ≡ 102
unfolding envelope_bytes Encode.encode validate_envelope has_zero_transform any check_extensions
    check_unknown push_tlv encode_minimal_u64 strip to_be_bytes kind_code digest_code
    encode_descriptor Encode.lower_unknown Encode.upper_unknown Encode.sort_by_id tlv
envelope_length in_order = refl
envelope_length keyed = refl
envelope_length interleaved = refl

envelope_plain : (w : Placed) → All IsByte (envelope_bytes w)
unfolding envelope_bytes Encode.encode validate_envelope has_zero_transform any check_extensions
    check_unknown push_tlv encode_minimal_u64 strip to_be_bytes kind_code digest_code
    encode_descriptor Encode.lower_unknown Encode.upper_unknown Encode.sort_by_id tlv
envelope_plain in_order = ground arith
envelope_plain keyed = ground arith
envelope_plain interleaved = ground arith

unfoldable pub packet : Placed → GenericPacket
packet w = record {
  locator = record {
    protocol_major = 1;
    protocol_minor = 0;
    flags = 0;
    envelope_len = 102;
    encoded_body_len = 2;
    envelope_crc32c = crc32c (envelope_bytes w);
    nonce = replicate 8 3;
  };
  envelope = envelope w;
  body = b'h' ∷ b'i' ∷ [];
}

pub packet_bytes : Placed → List ℕ
packet_bytes w = Locator.to_bytes (packet w).locator ++ (envelope_bytes w ++ (packet w).body)

packet_encoded : (w : Placed) → Generic.encode digests (packet w) limits ≡ ok (packet_bytes w)
unfolding packet packet_bytes Generic.encode Generic.describes validate_flags validate_lengths
    check_limit Generic.validate_flag_transform_consistency Generic.check_flag any
    Generic.has_algorithm Generic.validate_untransformed_body Generic.verify_digest
    Generic.digest_with bytes_eq packet_len
packet_encoded w =
    rw (envelope_encoded w, envelope_length w, ==_refl (crc32c (envelope_bytes w))) refl

packet-IsLocator : (w : Placed) → IsLocator (packet w).locator
unfolding packet
packet-IsLocator w = record {
  major = refl;
  minor = refl;
  flags_width = omega arith;
  envelope_width = omega arith;
  body_width = omega arith;
  crc_width = crc32c-lt (envelope_bytes w);
  nonce_width = refl;
}

packet-IsEnvelope : (w : Placed) → IsEnvelope (packet w).envelope
unfolding packet
packet-IsEnvelope w = record {
  packet_id_length = refl;
  original_width = omega arith;
  transform_widths = tt;
  placement_width = number-lt w;
  kernel_width = omega arith;
  mime_text = tt;
  filename_text = tt;
  created_at_width = tt;
  parent_id_length = tt;
}
  where
    number-lt : (w : Placed) → number w < 2 ^ 16
    number-lt in_order = omega arith
    number-lt keyed = omega arith
    number-lt interleaved = omega arith

pub packet_read : (w : Placed) → Generic.decode digests (packet_bytes w) limits ≡ ok (packet w)
packet_read w =
    ap (λ b. Generic.decode digests b limits) (sym (append-nil (packet_bytes w)))
    ∙ decode_packet-encode_packet digests (packet w) limits (packet_bytes w) [] (packet-IsLocator w)
        (packet-IsEnvelope w) (omega arith) (packet_encoded w)

pub length-packet_bytes : (w : Placed) → length (packet_bytes w) ≡ 136
unfolding packet packet_bytes Locator.to_bytes to_be_bytes
length-packet_bytes w =
    length-append (Locator.to_bytes (packet w).locator) (envelope_bytes w ++ (packet w).body)
    ∙ omega (arith, length-append (envelope_bytes w) (packet w).body, envelope_length w)

pub packet_whole : (w : Placed) → packet_len (packet w).locator ≡ ok (length (packet_bytes w))
unfolding packet packet_len
packet_whole w = rw (length-packet_bytes w) refl

pub packet_bytes-IsByte : (w : Placed) → All IsByte (packet_bytes w)
unfolding packet packet_bytes Locator.to_bytes to_be_bytes
packet_bytes-IsByte w =
    All-append IsByte (Locator.to_bytes (packet w).locator) (envelope_bytes w ++ (packet w).body)
      (ground arith)
      (All-append IsByte (envelope_bytes w) (packet w).body (envelope_plain w) (ground arith))

own : (w : Placed) → Generic.own_limits (packet_bytes w) ≡ limits
unfolding Generic.own_limits
own w = rw (length-packet_bytes w) refl

pub packet_valid :
    (w : Placed)
    → Generic.validate_encoded_packet digests (packet_bytes w)
      ≡ ok ((packet w).locator, (packet w).envelope)
packet_valid w =
    validate_encoded_packet_own digests (packet_bytes w) (packet w)
      (ap (Generic.decode digests (packet_bytes w)) (own w) ∙ packet_read w)
