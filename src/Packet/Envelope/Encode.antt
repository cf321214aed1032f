-- ===== src/Packet/Envelope/Encode.antt =====
-- `PacketEnvelope::encode`: the fields in canonical order, each pushed as a TLV.
use steganographer.Common.{
  ℕ, List, [], ◌∷◌, ◌++◌, map, Option, some, none, Bool, true, false, ltb, leb, if◌then◌else◌,
  length, ok, ◌>>=◌, ◌>>◌,
}
use steganographer.Packet.Types.{
  PacketResult, What, DecodeLimits, TransformDescriptor, ExtensionField, PacketEnvelope, ok_or,
  checked_add, check_limit, length_overflow, field_packet_id, field_payload_kind,
  field_original_length, field_content_digest, field_transform, field_placement, field_kernel,
  field_created_version, field_mime_type, field_filename, field_created_at, field_parent_id,
}
use steganographer.Packet.Integer.{encode_minimal_u64}
use steganographer.Packet.Wire.{push_tlv, encode_algorithm, encode_descriptor}
use steganographer.Packet.Envelope.{kind_code, digest_code, validate_envelope}

-- The arguments of one `push_tlv`.
pub record Field : Type 0 where
  pub id : ℕ
  pub critical : Bool
  pub value : List ℕ

abbrev pub transform_field : TransformDescriptor → Field
transform_field t = record {
  id = field_transform;
  critical = t.critical;
  value = encode_algorithm t.algorithm t.version t.parameters;
}

abbrev pub extension_field : ExtensionField → Field
extension_field f = record { id = f.id; critical = false; value = f.value }

abbrev pub optional_field : ℕ → Option (List ℕ) → List Field
optional_field id none = []
optional_field id (some value) = record { id = id; critical = false; value = value } ∷ []

abbrev pub created_at_value : Option ℕ → Option (List ℕ)
created_at_value none = none
created_at_value (some t) = some (encode_minimal_u64 t)

-- The unknown fields with `id < FIELD_MIME_TYPE`, and those with `id > FIELD_PARENT_ID`.
unfoldable pub lower_unknown : List ExtensionField → List ExtensionField
lower_unknown [] = []
lower_unknown (f ∷ fs) = if ltb f.id field_mime_type then f ∷ lower_unknown fs else lower_unknown fs

unfoldable pub upper_unknown : List ExtensionField → List ExtensionField
upper_unknown [] = []
upper_unknown (f ∷ fs) = if ltb field_parent_id f.id then f ∷ upper_unknown fs else upper_unknown fs

-- `sort_by_key(|field| field.id)`, which is stable.
unfoldable pub insert_by_id : ExtensionField → List ExtensionField → List ExtensionField
insert_by_id f [] = f ∷ []
insert_by_id f (g ∷ gs) = if leb f.id g.id then f ∷ g ∷ gs else g ∷ insert_by_id f gs

unfoldable pub sort_by_id : List ExtensionField → List ExtensionField
unfolding insert_by_id
sort_by_id [] = []
sort_by_id (f ∷ fs) = insert_by_id f (sort_by_id fs)

-- The fields that precede the preserved unknown ones.
abbrev pub required_fields : PacketEnvelope → List Field
required_fields e =
    record { id = field_packet_id; critical = true; value = e.packet_id }
    ∷ record {
      id = field_payload_kind;
      critical = true;
      value = encode_minimal_u64 (kind_code e.payload_kind);
    }
    ∷ record {
      id = field_original_length;
      critical = true;
      value = encode_minimal_u64 e.original_len;
    }
    ∷ record {
      id = field_content_digest;
      critical = true;
      value = digest_code e.content_digest.algorithm ∷ e.content_digest.bytes;
    }
    ∷ []

abbrev pub descriptor_fields : PacketEnvelope → List Field
descriptor_fields e =
    record { id = field_placement; critical = true; value = encode_descriptor e.placement }
    ∷ record { id = field_kernel; critical = true; value = encode_descriptor e.kernel }
    ∷ record {
      id = field_created_version;
      critical = true;
      value = e.created_version.0 ∷ e.created_version.1 ∷ [];
    }
    ∷ []

abbrev pub optional_fields : PacketEnvelope → List Field
optional_fields e =
    optional_field field_mime_type e.mime_type
    ++ (optional_field field_filename e.filename
        ++ (optional_field field_created_at (created_at_value e.created_at_unix)
            ++ optional_field field_parent_id e.parent_id))

-- Every `push_tlv` of `encode`, in its order.
unfoldable pub fields : PacketEnvelope → List Field
fields e =
    required_fields e
    ++ (map transform_field e.transforms
        ++ (descriptor_fields e
            ++ (map extension_field (lower_unknown e.unknown_fields)
                ++ (optional_fields e
                    ++ (map extension_field (upper_unknown e.unknown_fields)
                        ++ map extension_field (sort_by_id e.extensions))))))

-- The calls of `push_tlv`, each on the output of the one before; the first error ends them.
unfoldable pub push_fields : List ℕ → List Field → DecodeLimits → PacketResult (List ℕ)
push_fields output [] limits = ok output
push_fields output (f ∷ fs) limits = do
  output' ← push_tlv output f.id f.critical f.value limits
  push_fields output' fs limits

abbrev count_some : {A : Type 0} → Option A → ℕ
count_some none = 0
count_some (some a) = 1

abbrev add_all : ℕ → List ℕ → Option ℕ
add_all count [] = some count
add_all count (n ∷ ns) = elim (checked_add count n) [ none ↦ none | some c ↦ add_all c ns ]

-- `field_count`, a chain of `checked_add`.
unfoldable pub field_count : PacketEnvelope → Option ℕ
field_count e = add_all 7 (
    length e.transforms
    ∷ length e.extensions
    ∷ length e.unknown_fields
    ∷ count_some e.mime_type
    ∷ count_some e.filename
    ∷ count_some e.created_at_unix
    ∷ count_some e.parent_id
    ∷ [])

unfoldable pub encode : PacketEnvelope → DecodeLimits → PacketResult (List ℕ)
unfolding push_fields fields field_count
encode e limits = do
  validate_envelope e limits
  count ← ok_or (field_count e) length_overflow
  check_limit What.envelope_field_count count limits.max_fields
  output ← push_fields [] (fields e) limits
  check_limit What.envelope (length output) limits.max_envelope_len
  ok output
