-- ===== src/Packet/Types.antt =====
-- The data of steganographer-core/src/packet.rs: registry constants, limits, errors and records.
-- A `u8`, `u16`, `u32`, `u64` or `usize` is a natural number; byte strings are lists of numbers.
-- `usize` is that of the 64-bit targets.
use steganographer.Common.{ℕ, ◌+◌, ◌-◌, ◌*◌, ◌^◌, List, [], ◌∷◌, Option, none, some, Bool, leb, ltb}
use steganographer.Common.{if◌then◌else◌, Result, ok, err, ensure}

abbrev pub usize_max : ℕ
usize_max = 2 ^ 64 - 1

-- The bytes of "STG3".
abbrev pub packet_magic : List ℕ
packet_magic = b'S' ∷ b'T' ∷ b'G' ∷ b'3' ∷ []

abbrev pub protocol_major : ℕ
protocol_major = 1

abbrev pub protocol_minor : ℕ
protocol_minor = 0

abbrev pub locator_size : ℕ
locator_size = 32

abbrev pub placement_sequential : ℕ
placement_sequential = 1

abbrev pub placement_keyed : ℕ
placement_keyed = 2

abbrev pub kernel_spatial_lsb : ℕ
kernel_spatial_lsb = 1

abbrev pub flag_compressed : ℕ
flag_compressed = 1

abbrev pub flag_encrypted : ℕ
flag_encrypted = 2

abbrev pub flag_error_corrected : ℕ
flag_error_corrected = 4

abbrev pub flag_keyed_locator : ℕ
flag_keyed_locator = 8

abbrev pub flag_payload_signed : ℕ
flag_payload_signed = 16

abbrev pub known_flags : ℕ
known_flags = 31

abbrev pub field_critical : ℕ
field_critical = 2 ^ 15

-- `!FIELD_CRITICAL` on 16 bits.
abbrev pub field_id_mask : ℕ
field_id_mask = 2 ^ 15 - 1

abbrev pub tlv_header_size : ℕ
tlv_header_size = 6

-- Identifiers of the envelope's fields.
abbrev pub field_packet_id : ℕ
field_packet_id = 1

abbrev pub field_payload_kind : ℕ
field_payload_kind = 2

abbrev pub field_original_length : ℕ
field_original_length = 3

abbrev pub field_content_digest : ℕ
field_content_digest = 4

abbrev pub field_transform : ℕ
field_transform = 5

abbrev pub field_placement : ℕ
field_placement = 6

abbrev pub field_kernel : ℕ
field_kernel = 7

abbrev pub field_created_version : ℕ
field_created_version = 8

abbrev pub field_mime_type : ℕ
field_mime_type = 16

abbrev pub field_filename : ℕ
field_filename = 17

abbrev pub field_created_at : ℕ
field_created_at = 18

abbrev pub field_parent_id : ℕ
field_parent_id = 19

abbrev pub field_ots_digest : ℕ
field_ots_digest = 128

abbrev pub field_ots_method : ℕ
field_ots_method = 129

abbrev pub field_ots_timestamp_hex : ℕ
field_ots_timestamp_hex = 130

abbrev pub first_extension_field : ℕ
first_extension_field = 128

-- Resource limits checked before packet or field allocation.
pub record DecodeLimits : Type 0 where
  pub max_envelope_len : ℕ
  pub max_body_len : ℕ
  pub max_packet_len : ℕ
  pub max_field_len : ℕ
  pub max_fields : ℕ
  pub max_transforms : ℕ
  pub max_extensions : ℕ
  pub max_filename_len : ℕ
  pub max_mime_len : ℕ
  pub max_original_len : ℕ
  pub max_nesting_depth : ℕ
  pub max_aggregate_nested_bytes : ℕ

-- `DecodeLimits::default()`
abbrev pub default_limits : DecodeLimits
default_limits = record {
  max_envelope_len = 16 * 1024;
  max_body_len = 16 * 1024 * 1024;
  max_packet_len = 16 * 1024 * 1024 + 16 * 1024 + locator_size;
  max_field_len = 8 * 1024;
  max_fields = 128;
  max_transforms = 16;
  max_extensions = 64;
  max_filename_len = 255;
  max_mime_len = 127;
  max_original_len = 16 * 1024 * 1024;
  max_nesting_depth = 3;
  max_aggregate_nested_bytes = 64 * 1024 * 1024;
}

-- The `what` texts of `LimitExceeded`.
pub data What : Type 0 where
  envelope body packet envelope_field_count envelope_field : What
  transform_count extension_count unknown_field_count : What
  mime_type filename original_length aggregate_nested_bytes : What

-- The `reason` texts of `InvalidField`.
pub data Reason : Type 0 where
  unknown_payload_kind payload_kind_range unknown_digest_algorithm digest_length : Reason
  packet_id_length parent_id_length created_version_length noncanonical_critical_bit : Reason
  algorithm_zero extension_registry unknown_field_registry field_id_range : Reason
  short_descriptor not_minimal locator_mismatch : Reason
  parent_mismatch nested_length : Reason

-- The variants that the framing code raises. `Transform` comes from the transform pipeline,
-- `LegacyLength` and `LegacyPayload` from the legacy codec, `NestingCycle` from the nested decoder.
pub data PacketError : Type 0 where
  truncated : ℕ → ℕ → PacketError
  invalid_magic : PacketError
  unsupported_version : ℕ → ℕ → PacketError
  unknown_flags : ℕ → PacketError
  limit_exceeded : What → ℕ → ℕ → PacketError
  missing_transform_for_flag : ℕ → PacketError
  missing_flag_for_transform : ℕ → ℕ → PacketError
  nesting_depth_exceeded : ℕ → ℕ → PacketError
  length_overflow envelope_checksum : PacketError
  noncanonical_order duplicate_field missing_field unknown_critical_field : ℕ → PacketError
  invalid_field : ℕ → Reason → PacketError
  invalid_utf8 : ℕ → PacketError
  body_length_mismatch digest_mismatch : PacketError
  -- Rust has no such value: the model's loop over the envelope ran out of fuel.
  out_of_fuel : PacketError

abbrev pub PacketResult : Type 0 → Type 0
PacketResult A = Result PacketError A

abbrev pub ok_or : {A : Type 0} → Option A → PacketError → PacketResult A
ok_or none e = err e
ok_or (some a) e = ok a

-- `usize::checked_add`
abbrev pub checked_add : ℕ → ℕ → Option ℕ
checked_add a b = if leb (a + b) usize_max then some (a + b) else none

-- `usize::try_from` on a `u64`
abbrev pub to_usize : ℕ → PacketResult ℕ
to_usize v = if leb v usize_max then ok v else err length_overflow

-- `u32::try_from`
abbrev pub to_u32 : ℕ → PacketResult ℕ
to_u32 v = if ltb v 0x1_0000_0000 then ok v else err length_overflow

unfoldable pub check_limit : What → ℕ → ℕ → PacketResult (Unit {0})
check_limit what actual maximum = ensure (leb actual maximum) (limit_exceeded what actual maximum)

pub record Locator : Type 0 where
  pub protocol_major : ℕ
  pub protocol_minor : ℕ
  pub flags : ℕ
  pub envelope_len : ℕ
  pub encoded_body_len : ℕ
  pub envelope_crc32c : ℕ
  pub nonce : List ℕ

pub data PayloadKind : Type 0 where
  bytes text file frame_attestation manifest : PayloadKind

pub data DigestAlgorithm : Type 0 where
  blake3 sha256 sha3_256 : DigestAlgorithm

pub record ContentDigest : Type 0 where
  pub algorithm : DigestAlgorithm
  pub bytes : List ℕ

pub record AlgorithmDescriptor : Type 0 where
  pub algorithm : ℕ
  pub version : ℕ
  pub parameters : List ℕ

pub record TransformDescriptor : Type 0 where
  pub algorithm : ℕ
  pub version : ℕ
  pub critical : Bool
  pub parameters : List ℕ

pub record ExtensionField : Type 0 where
  pub id : ℕ
  pub value : List ℕ

-- A `String` is its UTF-8 bytes.
pub record PacketEnvelope : Type 0 where
  pub packet_id : List ℕ
  pub payload_kind : PayloadKind
  pub original_len : ℕ
  pub content_digest : ContentDigest
  pub transforms : List TransformDescriptor
  pub placement : AlgorithmDescriptor
  pub kernel : AlgorithmDescriptor
  pub created_version : ℕ × ℕ
  pub mime_type : Option (List ℕ)
  pub filename : Option (List ℕ)
  pub created_at_unix : Option ℕ
  pub parent_id : Option (List ℕ)
  pub unknown_fields : List ExtensionField
  pub extensions : List ExtensionField

pub record GenericPacket : Type 0 where
  pub locator : Locator
  pub envelope : PacketEnvelope
  pub body : List ℕ
