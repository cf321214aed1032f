-- ===== src/Runs/Packet.antt =====
-- Packets, envelopes, locators and minimal integers at concrete inputs. A constant digest of
-- thirty-two bytes stands for the third-party hashes.
use steganographer.Common.{
  sym, ap, ◌∙◌, append-nil, ℕ, ◌+◌, ◌≡◌, ◌≢◌, refl, List, [], ◌∷◌, ◌++◌, some, none, true, arith,
  length, replicate, take, bytes_eq, ==_refl, any, All, ok, err,
}
use steganographer.Common.Bytes.{IsByte, to_be_bytes, from_be_bytes}
use steganographer.Packet.Types.{
  AlgorithmDescriptor, DecodeLimits, PacketResult, check_limit, default_limits, Locator,
  PayloadKind, blake3, PacketEnvelope, GenericPacket, out_of_fuel,
}
use steganographer.Packet.Wire.{push_tlv, encode_descriptor, tlv, is_utf8}
use steganographer.Packet.Envelope.{
  validate_envelope, has_zero_transform, check_extensions, check_unknown, kind_code,
}
use steganographer.Packet.Crc.{crc32c, crc32c-lt}
use steganographer.Packet.Locator
use steganographer.Packet.Locator.{validate_flags, validate_lengths, packet_len}
use steganographer.Packet.Locator.RoundTrip.{IsLocator, from_bytes-new, to_bytes-from_bytes}
use steganographer.Packet.Integer.{strip, encode_minimal_u64, decode_minimal_u64}
use steganographer.Packet.Integer.RoundTrip.{
  decode_minimal_u64-encode_minimal_u64, encode_minimal_u64-decode_minimal_u64,
}
use steganographer.Packet.Envelope.Encode
use steganographer.Packet.Envelope.Decode
use steganographer.Packet.Envelope.RoundTrip.{IsEnvelope, decode-encode}
use steganographer.Packet.Envelope.Ends.{decode-ends}
use steganographer.Packet.Generic
use steganographer.Packet.Generic.{Digests}
use steganographer.Packet.Generic.RoundTrip.{decode_packet-encode_packet}
use steganographer.Packet.Generic.Limits.{decode-limits_agree}
use steganographer.Packet.Generic.Fresh.{encode-new_untransformed}

abbrev bytes_or : PacketResult (List ℕ) → List ℕ
bytes_or (ok bs) = bs
bytes_or (err e) = []

abbrev digests : Digests
digests = record {
  blake3_digest = λ bytes. replicate 32 7;
  sha256_digest = λ bytes. replicate 32 7;
  sha3_256_digest = λ bytes. replicate 32 7;
}

abbrev envelope : PacketEnvelope
envelope = record {
  packet_id = replicate 16 1;
  payload_kind = PayloadKind.text;
  original_len = 2;
  content_digest = record { algorithm = blake3; bytes = replicate 32 7 };
  transforms = [];
  placement = record { algorithm = 1; version = 1; parameters = [] };
  kernel = record { algorithm = 1; version = 1; parameters = 2 ∷ [] };
  created_version = (1, 0);
  mime_type = some (b't' ∷ b'/' ∷ b'p' ∷ []);
  filename = none;
  created_at_unix = some 300;
  parent_id = none;
  unknown_fields = record { id = 9; value = 5 ∷ [] } ∷ [];
  extensions = record { id = 128; value = [] } ∷ [];
}

envelope_bytes : List ℕ
envelope_bytes = bytes_or (Encode.encode envelope default_limits)

envelope_encoded : Encode.encode envelope default_limits ≡ ok envelope_bytes
unfolding envelope_bytes Encode.encode validate_envelope has_zero_transform any check_extensions
    check_unknown push_tlv encode_minimal_u64 strip to_be_bytes kind_code encode_descriptor
    Encode.lower_unknown Encode.upper_unknown Encode.sort_by_id tlv
envelope_encoded = refl

envelope-IsEnvelope : IsEnvelope envelope
envelope-IsEnvelope = record {
  packet_id_length = refl;
  original_width = omega arith;
  transform_widths = tt;
  placement_width = omega arith;
  kernel_width = omega arith;
  mime_text = unfold is_utf8 in refl;
  filename_text = tt;
  created_at_width = omega arith;
  parent_id_length = tt;
}

decode-encode_example : Decode.decode envelope_bytes default_limits ≡ ok envelope
decode-encode_example =
    decode-encode default_limits envelope envelope_bytes envelope-IsEnvelope (omega arith)
      envelope_encoded

decode_minimal_u64-encode_minimal_u64_example :
    decode_minimal_u64 (encode_minimal_u64 70000) 3 ≡ ok 70000
decode_minimal_u64-encode_minimal_u64_example =
    decode_minimal_u64-encode_minimal_u64 70000 3 (omega arith)

abbrev nonce : List ℕ
nonce = replicate 8 3

abbrev locator : Locator
locator = record {
  protocol_major = 1;
  protocol_minor = 0;
  flags = 0;
  envelope_len = 10;
  encoded_body_len = 20;
  envelope_crc32c = 99;
  nonce = nonce;
}

from_bytes-new_example :
    Locator.from_bytes (Locator.to_bytes locator ++ (4 ∷ [])) default_limits ≡ ok locator
from_bytes-new_example =
    from_bytes-new 0 10 20 99 nonce (4 ∷ []) default_limits locator (omega arith) (omega arith) refl
      (unfold Locator.new validate_flags validate_lengths check_limit in refl)

locator_bytes : All IsByte (Locator.to_bytes locator)
unfolding Locator.to_bytes to_be_bytes
locator_bytes = ground arith

locator_read : Locator.from_bytes (Locator.to_bytes locator) default_limits ≡ ok locator
unfolding Locator.to_bytes Locator.from_bytes to_be_bytes from_be_bytes bytes_eq validate_flags
    validate_lengths check_limit
locator_read = refl

to_bytes-from_bytes_example : Locator.to_bytes locator ≡ take 32 (Locator.to_bytes locator)
to_bytes-from_bytes_example =
    to_bytes-from_bytes (Locator.to_bytes locator) default_limits locator locator_bytes locator_read

encode_minimal_u64-decode_minimal_u64_example : encode_minimal_u64 258 ≡ 1 ∷ 2 ∷ []
encode_minimal_u64-decode_minimal_u64_example =
    encode_minimal_u64-decode_minimal_u64 (1 ∷ 2 ∷ []) 3 258 (omega arith, (omega arith, tt))
      (unfold decode_minimal_u64 from_be_bytes in refl)

-- A packet of two body bytes, with the locator that describes it.
packet : GenericPacket
packet = record {
  locator = record {
    protocol_major = 1;
    protocol_minor = 0;
    flags = 0;
    envelope_len = length envelope_bytes;
    encoded_body_len = 2;
    envelope_crc32c = crc32c envelope_bytes;
    nonce = nonce;
  };
  envelope = envelope;
  body = b'h' ∷ b'i' ∷ [];
}

packet_bytes : List ℕ
packet_bytes = Locator.to_bytes packet.locator ++ (envelope_bytes ++ packet.body)

packet_described : Generic.describes digests packet.locator envelope_bytes packet.body ≡ true
unfolding packet Generic.describes
packet_described = rw (==_refl (length envelope_bytes), ==_refl (crc32c envelope_bytes)) refl

packet_lengths :
    validate_lengths (length envelope_bytes) (length packet.body) default_limits ≡ ok tt
unfolding packet validate_lengths check_limit envelope_bytes Encode.encode validate_envelope
    has_zero_transform any check_extensions check_unknown push_tlv encode_minimal_u64 strip
    to_be_bytes kind_code encode_descriptor Encode.lower_unknown Encode.upper_unknown
    Encode.sort_by_id tlv
packet_lengths = refl

packet_length : packet_len packet.locator ≡ ok (32 + length envelope_bytes + 2)
unfolding packet packet_len envelope_bytes Encode.encode validate_envelope has_zero_transform any
    check_extensions check_unknown push_tlv encode_minimal_u64 strip to_be_bytes kind_code
    encode_descriptor Encode.lower_unknown Encode.upper_unknown Encode.sort_by_id tlv
packet_length = refl

packet_flags :
    (validate_flags packet.locator.flags ≡ ok tt)
    × (Generic.validate_flag_transform_consistency packet.locator.flags packet.envelope.transforms
        ≡ ok tt)
unfolding packet validate_flags Generic.validate_flag_transform_consistency Generic.check_flag any
    Generic.has_algorithm
packet_flags = (refl, refl)

packet_body : Generic.validate_untransformed_body digests packet.envelope packet.body ≡ ok tt
unfolding packet Generic.validate_untransformed_body Generic.verify_digest Generic.digest_with
    bytes_eq
packet_body = refl

packet_envelope : Encode.encode packet.envelope default_limits ≡ ok envelope_bytes
unfolding packet
packet_envelope = envelope_encoded

packet_version : (packet.locator.protocol_major ≡ 1) × (packet.locator.protocol_minor ≡ 0)
unfolding packet
packet_version = (refl, refl)

packet_encoded : Generic.encode digests packet default_limits ≡ ok packet_bytes
unfolding packet_bytes Generic.encode
packet_encoded = rw (
  packet_version.0, packet_version.1, packet_flags.0, packet_flags.1, packet_envelope,
  packet_lengths, packet_described, packet_body, packet_length,
)

packet-IsLocator : IsLocator packet.locator
unfolding packet envelope_bytes Encode.encode validate_envelope has_zero_transform any
    check_extensions check_unknown push_tlv encode_minimal_u64 strip to_be_bytes kind_code
    encode_descriptor Encode.lower_unknown Encode.upper_unknown Encode.sort_by_id tlv
packet-IsLocator = record {
  major = refl;
  minor = refl;
  flags_width = omega arith;
  envelope_width = omega arith;
  body_width = omega arith;
  crc_width = crc32c-lt envelope_bytes;
  nonce_width = refl;
}

packet_valid : IsEnvelope packet.envelope
unfolding packet
packet_valid = envelope-IsEnvelope

packet_read : Generic.decode digests packet_bytes default_limits ≡ ok packet
packet_read =
    ap (λ b. Generic.decode digests b default_limits) (sym (append-nil packet_bytes))
    ∙ decode_packet-encode_packet digests packet default_limits packet_bytes [] packet-IsLocator
        packet_valid (omega arith) packet_encoded

-- Other limits, which the packet keeps as well.
abbrev strict_limits : DecodeLimits
strict_limits = record default_limits { max_fields = 20; max_body_len = 16; max_field_len = 64 }

strict_envelope : Encode.encode packet.envelope strict_limits ≡ ok envelope_bytes
unfolding packet envelope_bytes Encode.encode validate_envelope has_zero_transform any
    check_extensions check_unknown push_tlv encode_minimal_u64 strip to_be_bytes kind_code
    encode_descriptor Encode.lower_unknown Encode.upper_unknown Encode.sort_by_id tlv
strict_envelope = refl

strict_lengths : validate_lengths (length envelope_bytes) (length packet.body) strict_limits ≡ ok tt
unfolding packet validate_lengths check_limit envelope_bytes Encode.encode validate_envelope
    has_zero_transform any check_extensions check_unknown push_tlv encode_minimal_u64 strip
    to_be_bytes kind_code encode_descriptor Encode.lower_unknown Encode.upper_unknown
    Encode.sort_by_id tlv
strict_lengths = refl

strict_encoded : Generic.encode digests packet strict_limits ≡ ok packet_bytes
unfolding packet_bytes Generic.encode
strict_encoded = rw (
  packet_version.0, packet_version.1, packet_flags.0, packet_flags.1, strict_envelope,
  strict_lengths, packet_described, packet_body, packet_length,
)

strict_read : Generic.decode digests packet_bytes strict_limits ≡ ok packet
strict_read =
    ap (λ b. Generic.decode digests b strict_limits) (sym (append-nil packet_bytes))
    ∙ decode_packet-encode_packet digests packet strict_limits packet_bytes [] packet-IsLocator
        packet_valid (omega arith) strict_encoded

decode-limits_agree_example : packet ≡ packet
decode-limits_agree_example =
    decode-limits_agree digests packet_bytes default_limits strict_limits packet packet packet_read
      strict_read

decode-ends_example : Decode.decode (replicate 20 7) default_limits ≢ err out_of_fuel
decode-ends_example = decode-ends (replicate 20 7) default_limits

abbrev spatial : AlgorithmDescriptor
spatial = record { algorithm = 1; version = 1; parameters = 2 ∷ [] }

abbrev greeting : List ℕ
greeting = b'h' ∷ b'i' ∷ []

fresh_bytes : List ℕ
fresh_bytes = bytes_or (
    Encode.encode
      (Generic.for_payload digests (replicate 16 1) PayloadKind.text greeting spatial spatial)
      default_limits)

fresh : GenericPacket
fresh = record {
  locator = record {
    protocol_major = 1;
    protocol_minor = 0;
    flags = 0;
    envelope_len = length fresh_bytes;
    encoded_body_len = 2;
    envelope_crc32c = crc32c fresh_bytes;
    nonce = nonce;
  };
  envelope = Generic.for_payload digests (replicate 16 1) PayloadKind.text greeting spatial spatial;
  body = greeting;
}

fresh_made :
    Generic.new_untransformed digests greeting
      (replicate 16 1)
      nonce
      PayloadKind.text
      spatial
      spatial
      default_limits
    ≡ ok fresh
unfolding fresh fresh_bytes Generic.new_untransformed Generic.for_payload Generic.content_blake3
    Locator.new validate_flags validate_lengths check_limit Encode.encode validate_envelope
    has_zero_transform any check_extensions check_unknown push_tlv encode_minimal_u64 strip
    to_be_bytes kind_code encode_descriptor Encode.lower_unknown Encode.upper_unknown
    Encode.sort_by_id tlv
fresh_made = refl

encode-new_untransformed_example :
    (bs : List ℕ) × ((Generic.encode digests fresh default_limits ≡ ok bs)
      × ((Generic.decode digests (bs ++ []) default_limits ≡ ok fresh) × (fresh.body ≡ greeting)))
encode-new_untransformed_example =
    encode-new_untransformed digests greeting (replicate 16 1) nonce PayloadKind.text spatial
      spatial default_limits fresh [] refl refl (omega arith) (omega arith) (omega arith)
      (omega arith) fresh_made

decode_packet-encode_packet_example :
    Generic.decode digests (packet_bytes ++ (1 ∷ [])) default_limits ≡ ok packet
unfolding packet
decode_packet-encode_packet_example =
    decode_packet-encode_packet digests packet default_limits packet_bytes (1 ∷ []) packet-IsLocator
      envelope-IsEnvelope (omega arith) packet_encoded
