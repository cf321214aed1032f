-- ===== src/Packet/Generic.antt =====
-- `GenericPacket` of packet.rs: the locator, the envelope and the body as one byte string. The
-- digests are third-party code and a parameter.
pub mod RoundTrip
pub mod Fresh
pub mod Safety
pub mod Limits
pub mod Flags
use steganographer.Common.{
  ℕ, ◌+◌, ◌-◌, List, [], ◌∷◌, ◌++◌, Option, some, none, Bool, true, false, ltb, leb, ◌==◌, not,
  ◌&&◌, ◌||◌, if◌then◌else◌, length, get_or, drop, take, slice, any, bytes_eq, bit_and, ok, err,
  ensure, ◌>>=◌, ◌>>◌,
}
use steganographer.Packet.Types.{
  PacketResult, What, Reason, DecodeLimits, PayloadKind, DigestAlgorithm, ContentDigest,
  TransformDescriptor, AlgorithmDescriptor, PacketEnvelope, Locator, GenericPacket, check_limit,
  truncated, envelope_checksum, body_length_mismatch, digest_mismatch, missing_transform_for_flag,
  missing_flag_for_transform, unsupported_version, invalid_field, nesting_depth_exceeded,
  flag_encrypted, flag_payload_signed, flag_compressed, flag_error_corrected, locator_size,
  protocol_major, protocol_minor, packet_magic, usize_max, to_usize, blake3, sha256, sha3_256,
}
use steganographer.Packet.Crc.{crc32c}
use steganographer.Packet.Locator
use steganographer.Packet.Locator.{validate_flags, validate_lengths, packet_len}
use steganographer.Packet.Envelope.Encode
use steganographer.Packet.Envelope.Decode

-- The numbers of the transforms that have a flag.
abbrev pub transform_aead : ℕ
transform_aead = 1

abbrev pub transform_ecc : ℕ
transform_ecc = 2

abbrev pub transform_compress : ℕ
transform_compress = 3

abbrev pub transform_payload_sign : ℕ
transform_payload_sign = 4

-- The third-party digests.
pub record Digests : Type 0 where
  pub blake3_digest : List ℕ → List ℕ
  pub sha256_digest : List ℕ → List ℕ
  pub sha3_256_digest : List ℕ → List ℕ

unfoldable pub has_algorithm : ℕ → TransformDescriptor → Bool
has_algorithm algorithm t = t.algorithm == algorithm

-- One round of the loop of `validate_flag_transform_consistency`.
unfoldable pub check_flag : ℕ → List TransformDescriptor → ℕ → ℕ → PacketResult (Unit {0})
check_flag flags transforms flag algorithm = do
  ensure (not (not (bit_and flags flag == 0) && not (any (has_algorithm algorithm) transforms)))
      (missing_transform_for_flag flag)
  ensure (not (any (has_algorithm algorithm) transforms && bit_and flags flag == 0))
      (missing_flag_for_transform algorithm flag)

unfoldable pub validate_flag_transform_consistency :
    ℕ → List TransformDescriptor → PacketResult (Unit {0})
validate_flag_transform_consistency flags transforms = do
  check_flag flags transforms flag_encrypted transform_aead
  check_flag flags transforms flag_payload_signed transform_payload_sign
  check_flag flags transforms flag_compressed transform_compress
  check_flag flags transforms flag_error_corrected transform_ecc

-- `looks_like_packet`
unfoldable pub looks_like_packet : List ℕ → Bool
looks_like_packet bytes = leb locator_size (length bytes) && bytes_eq (take 4 bytes) packet_magic

unfoldable pub check_nesting : ℕ → ℕ → DecodeLimits → PacketResult (Unit {0})
check_nesting depth aggregate_bytes limits = do
  ensure (leb depth limits.max_nesting_depth)
      (nesting_depth_exceeded depth limits.max_nesting_depth)
  aggregate ← to_usize aggregate_bytes
  check_limit What.aggregate_nested_bytes aggregate limits.max_aggregate_nested_bytes

-- `decode_packet_envelope`
unfoldable pub decode_packet_envelope :
    List ℕ → Locator → DecodeLimits → PacketResult PacketEnvelope
decode_packet_envelope input locator limits = do
  len ← packet_len locator
  ensure (leb len (length input)) (truncated len (length input))
  let envelope_bytes = slice input locator_size (locator_size + locator.envelope_len)
  ensure (crc32c envelope_bytes == locator.envelope_crc32c) envelope_checksum
  envelope ← Decode.decode envelope_bytes limits
  validate_flag_transform_consistency locator.flags envelope.transforms
  ok envelope

-- The limits of `validate_encoded_packet`: the input's own length.
unfoldable pub own_limits : List ℕ → DecodeLimits
own_limits input = record {
  max_envelope_len = length input;
  max_body_len = length input;
  max_packet_len = length input;
  max_field_len = length input;
  max_fields = length input;
  max_transforms = length input;
  max_extensions = length input;
  max_filename_len = length input;
  max_mime_len = length input;
  max_original_len = usize_max;
  max_nesting_depth = 0;
  max_aggregate_nested_bytes = length input;
}

module _ (digests : Digests) where
  -- `ContentDigest::blake3`
  unfoldable pub content_blake3 : List ℕ → ContentDigest
  content_blake3 payload = record { algorithm = blake3; bytes = digests.blake3_digest payload }

  unfoldable pub digest_with : DigestAlgorithm → List ℕ → List ℕ
  digest_with blake3 payload = digests.blake3_digest payload
  digest_with sha256 payload = digests.sha256_digest payload
  digest_with sha3_256 payload = digests.sha3_256_digest payload

  -- `ContentDigest::verify`
  unfoldable pub verify_digest : ContentDigest → List ℕ → Bool
  verify_digest d payload = bytes_eq d.bytes (digest_with d.algorithm payload)

  unfoldable pub validate_untransformed_body : PacketEnvelope → List ℕ → PacketResult (Unit {0})
  validate_untransformed_body envelope body =
      if not (length envelope.transforms == 0) then ok tt else do
        ensure (envelope.original_len == length body) body_length_mismatch
        ensure (verify_digest envelope.content_digest body) digest_mismatch

  -- `PacketEnvelope::for_payload`
  unfoldable pub for_payload :
      List ℕ → PayloadKind → List ℕ → AlgorithmDescriptor → AlgorithmDescriptor → PacketEnvelope
  for_payload packet_id payload_kind payload placement kernel = record {
    packet_id = packet_id;
    payload_kind = payload_kind;
    original_len = length payload;
    content_digest = content_blake3 payload;
    transforms = [];
    placement = placement;
    kernel = kernel;
    created_version = (protocol_major, protocol_minor);
    mime_type = none;
    filename = none;
    created_at_unix = none;
    parent_id = none;
    unknown_fields = [];
    extensions = [];
  }

  unfoldable pub new_untransformed :
      List ℕ
      → List ℕ
      → List ℕ
      → PayloadKind
      → AlgorithmDescriptor
      → AlgorithmDescriptor
      → DecodeLimits
      → PacketResult GenericPacket
  new_untransformed payload packet_id nonce payload_kind placement kernel limits = do
    check_limit What.body (length payload) limits.max_body_len
    let envelope = for_payload packet_id payload_kind payload placement kernel
    envelope_bytes ← Encode.encode envelope limits
    locator ←
        Locator.new 0 (length envelope_bytes) (length payload) (crc32c envelope_bytes) nonce limits
    ok (record { locator = locator; envelope = envelope; body = payload })

  -- The locator describes the envelope's bytes and the body.
  unfoldable pub describes : Locator → List ℕ → List ℕ → Bool
  describes locator envelope body =
      locator.envelope_len == length envelope
      && (locator.encoded_body_len == length body && locator.envelope_crc32c == crc32c envelope)

  unfoldable pub encode : GenericPacket → DecodeLimits → PacketResult (List ℕ)
  encode packet limits = do
    ensure
        (packet.locator.protocol_major == protocol_major
          && leb packet.locator.protocol_minor protocol_minor)
        (unsupported_version packet.locator.protocol_major packet.locator.protocol_minor)
    validate_flags packet.locator.flags
    validate_flag_transform_consistency packet.locator.flags packet.envelope.transforms
    envelope ← Encode.encode packet.envelope limits
    validate_lengths (length envelope) (length packet.body) limits
    ensure (describes packet.locator envelope packet.body) (invalid_field 0 Reason.locator_mismatch)
    validate_untransformed_body packet.envelope packet.body
    len ← packet_len packet.locator
    ok (Locator.to_bytes packet.locator ++ (envelope ++ packet.body))

  -- `decode_body`
  unfoldable pub decode_body : List ℕ → Locator → PacketEnvelope → PacketResult GenericPacket
  decode_body input locator envelope = do
    len ← packet_len locator
    let body = slice input (locator_size + locator.envelope_len) len
    validate_untransformed_body envelope body
    ok (record { locator = locator; envelope = envelope; body = body })

  unfoldable pub decode : List ℕ → DecodeLimits → PacketResult GenericPacket
  decode input limits = do
    locator ← Locator.from_bytes input limits
    envelope ← decode_packet_envelope input locator limits
    decode_body input locator envelope

  unfoldable pub validate_encoded_packet : List ℕ → PacketResult (Locator × PacketEnvelope)
  validate_encoded_packet input = do
    locator ← Locator.from_bytes input (own_limits input)
    envelope ← decode_packet_envelope input locator (own_limits input)
    len ← packet_len locator
    validate_untransformed_body envelope (slice input (locator_size + locator.envelope_len) len)
    ok (locator, envelope)
