-- ===== src/Packet/Envelope.antt =====
-- `PacketEnvelope`: the codes of its enumerations and `validate_envelope`.
pub mod Encode
pub mod Decode
pub mod RoundTrip
pub mod Accepted
pub mod Ends
use steganographer.Common.{
  ℕ, zero, suc, ◌+◌, ◌-◌, ◌<◌, List, [], ◌∷◌, Option, some, none, Bool, true, false, ltb, leb, ◌==◌,
  not, ◌&&◌, ◌||◌, if◌then◌else◌, length, any, ok, err, ensure, ◌>>=◌, ◌>>◌,
}
use steganographer.Packet.Types.{
  PacketResult, What, Reason, DecodeLimits, PayloadKind, DigestAlgorithm, TransformDescriptor,
  ExtensionField, PacketEnvelope, invalid_field, unsupported_version, noncanonical_order,
  check_limit, to_usize, protocol_major, protocol_minor, field_payload_kind, field_content_digest,
  field_transform, field_placement, field_kernel, field_created_version, field_mime_type,
  field_parent_id, first_extension_field, field_id_mask,
}

-- `payload_kind as u16`
unfoldable pub kind_code : PayloadKind → ℕ
kind_code PayloadKind.bytes = 1
kind_code PayloadKind.text = 2
kind_code PayloadKind.file = 3
kind_code PayloadKind.frame_attestation = 4
kind_code PayloadKind.manifest = 5

-- `PayloadKind::try_from`
unfoldable pub kind_from : ℕ → PacketResult PayloadKind
kind_from value =
    if value == 1
    then ok PayloadKind.bytes
    else if value == 2
    then ok PayloadKind.text
    else if value == 3
    then ok PayloadKind.file
    else if value == 4
    then ok PayloadKind.frame_attestation
    else if value == 5
    then ok PayloadKind.manifest
    else err (invalid_field field_payload_kind Reason.unknown_payload_kind)

-- `algorithm as u8`
unfoldable pub digest_code : DigestAlgorithm → ℕ
digest_code DigestAlgorithm.blake3 = 1
digest_code DigestAlgorithm.sha256 = 2
digest_code DigestAlgorithm.sha3_256 = 3

-- `DigestAlgorithm::try_from`
unfoldable pub digest_from : ℕ → PacketResult DigestAlgorithm
digest_from value =
    if value == 1
    then ok DigestAlgorithm.blake3
    else if value == 2
    then ok DigestAlgorithm.sha256
    else if value == 3
    then ok DigestAlgorithm.sha3_256
    else err (invalid_field field_content_digest Reason.unknown_digest_algorithm)

-- The loop of `validate_envelope` over the extensions: in the registry, in order, not too long.
unfoldable pub check_extensions : DecodeLimits → ℕ → List ExtensionField → PacketResult (Unit {0})
check_extensions limits previous [] = ok tt
check_extensions limits previous (f ∷ fs) = do
  ensure (leb first_extension_field f.id && leb f.id field_id_mask)
      (invalid_field f.id Reason.extension_registry)
  ensure (leb previous f.id) (noncanonical_order f.id)
  check_limit What.envelope_field (length f.value) limits.max_field_len
  check_extensions limits f.id fs

-- `in_lower_gap || in_upper_gap`
abbrev pub in_gap : ℕ → Bool
in_gap id =
    (leb (field_created_version + 1) id && ltb id field_mime_type)
    || (leb (field_parent_id + 1) id && ltb id first_extension_field)

-- Its loop over the preserved unknown fields: in a reserved gap, strictly ascending, not too long.
unfoldable pub check_unknown : DecodeLimits → ℕ → List ExtensionField → PacketResult (Unit {0})
check_unknown limits previous [] = ok tt
check_unknown limits previous (f ∷ fs) = do
  ensure (in_gap f.id) (invalid_field f.id Reason.unknown_field_registry)
  ensure (ltb previous f.id) (noncanonical_order f.id)
  check_limit What.envelope_field (length f.value) limits.max_field_len
  check_unknown limits f.id fs

abbrev pub check_optional : What → Option (List ℕ) → ℕ → PacketResult (Unit {0})
check_optional what none maximum = ok tt
check_optional what (some value) maximum = check_limit what (length value) maximum

unfoldable pub has_zero_transform : List TransformDescriptor → Bool
has_zero_transform = any (λ t. t.algorithm == 0)

unfoldable pub validate_envelope : PacketEnvelope → DecodeLimits → PacketResult (Unit {0})
unfolding check_limit
validate_envelope e limits = do
  let (major, minor) = e.created_version
  ensure (major == protocol_major && leb minor protocol_minor) (unsupported_version major minor)
  ensure (length e.content_digest.bytes == 32)
      (invalid_field field_content_digest Reason.digest_length)
  original_len ← to_usize e.original_len
  check_limit What.original_length original_len limits.max_original_len
  check_limit What.transform_count (length e.transforms) limits.max_transforms
  check_limit What.extension_count (length e.extensions) limits.max_extensions
  ensure (not (e.placement.algorithm == 0 || e.kernel.algorithm == 0)) (
      invalid_field (if e.placement.algorithm == 0 then field_placement else field_kernel)
        Reason.algorithm_zero)
  ensure (not (has_zero_transform e.transforms))
      (invalid_field field_transform Reason.algorithm_zero)
  check_optional What.filename e.filename limits.max_filename_len
  check_optional What.mime_type e.mime_type limits.max_mime_len
  check_extensions limits 0 e.extensions
  check_limit What.unknown_field_count (length e.unknown_fields) limits.max_extensions
  check_unknown limits 0 e.unknown_fields
