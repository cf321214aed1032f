-- ===== src/Packet/Envelope/Decode.antt =====
-- `PacketEnvelope::decode`: the loop over the TLV fields, the field handlers, the final checks.
use steganographer.Common.{
  ℕ, zero, suc, ◌+◌, List, [], ◌∷◌, ◌++◌, Option, some, none, Bool, true, false, ltb, leb, ◌==◌,
  not, ◌&&◌, ◌||◌, if◌then◌else◌, length, get_or, drop, take, slice, bit_and, ok, err, ensure,
  ◌>>=◌, ◌>>◌,
}
use steganographer.Common.Bytes.{from_be_bytes}
use steganographer.Packet.Types.{
  PacketResult, What, Reason, DecodeLimits, PayloadKind, ContentDigest, TransformDescriptor,
  AlgorithmDescriptor, ExtensionField, PacketEnvelope, ok_or, checked_add, check_limit, truncated,
  noncanonical_order, invalid_field, missing_field, unknown_critical_field, length_overflow,
  out_of_fuel, field_critical, field_id_mask, tlv_header_size, first_extension_field,
  field_packet_id, field_payload_kind, field_original_length, field_content_digest, field_transform,
  field_placement, field_kernel, field_created_version, field_mime_type, field_filename,
  field_created_at, field_parent_id,
}
use steganographer.Packet.Integer.{decode_minimal_u64}
use steganographer.Packet.Wire.{set_once, decode_descriptor, decode_text}
use steganographer.Packet.Envelope.{kind_from, digest_from, validate_envelope}

-- The local variables of `decode` that collect the fields.
pub record Partial : Type 0 where
  pub packet_id : Option (List ℕ)
  pub payload_kind : Option PayloadKind
  pub original_len : Option ℕ
  pub content_digest : Option ContentDigest
  pub transforms : List TransformDescriptor
  pub placement : Option AlgorithmDescriptor
  pub kernel : Option AlgorithmDescriptor
  pub created_version : Option (ℕ × ℕ)
  pub mime_type : Option (List ℕ)
  pub filename : Option (List ℕ)
  pub created_at_unix : Option ℕ
  pub parent_id : Option (List ℕ)
  pub unknown_fields : List ExtensionField
  pub extensions : List ExtensionField

abbrev pub empty : Partial
empty = record {
  packet_id = none;
  payload_kind = none;
  original_len = none;
  content_digest = none;
  transforms = [];
  placement = none;
  kernel = none;
  created_version = none;
  mime_type = none;
  filename = none;
  created_at_unix = none;
  parent_id = none;
  unknown_fields = [];
  extensions = [];
}

-- `canonical_critical`
unfoldable pub canonical_critical : ℕ → Option Bool
canonical_critical id =
    if id == field_packet_id
      || (id == field_payload_kind
          || (id == field_original_length
              || (id == field_content_digest
                  || (id == field_placement
                      || (id == field_kernel || id == field_created_version)))))
    then some true
    else if id == field_mime_type
        || (id == field_filename || (id == field_created_at || id == field_parent_id))
    then some false
    else none

abbrev pub bool_eq : Bool → Bool → Bool
bool_eq true b = b
bool_eq false b = not b

-- `!canonical_critical.is_some_and(|expected| critical != expected)`
unfoldable pub critical_ok : ℕ → Bool → Bool
unfolding canonical_critical
critical_ok id critical = elim (canonical_critical id) [
  | none ↦ true
  | some expected ↦ bool_eq critical expected
]

-- `value.try_into()` to an array of sixteen bytes.
abbrev pub identifier : ℕ → Reason → List ℕ → PacketResult (List ℕ)
identifier id reason value = do ensure (length value == 16) (invalid_field id reason); ok value

-- `u16::try_from(value)`, then `PayloadKind::try_from`.
unfoldable pub decode_kind : List ℕ → ℕ → PacketResult PayloadKind
decode_kind value id = do
  v ← decode_minimal_u64 value id
  ensure (ltb v 0x1_0000) (invalid_field id Reason.payload_kind_range)
  kind_from v

unfoldable pub decode_digest : List ℕ → ℕ → PacketResult ContentDigest
decode_digest value id = do
  ensure (length value == 33) (invalid_field id Reason.digest_length)
  algorithm ← digest_from (get_or value 0 0)
  ok (record { algorithm = algorithm; bytes = drop 1 value })

-- The handlers of the field identifiers, one for each arm of `match field_id`.
module _ (limits : DecodeLimits) (critical : Bool) (id : ℕ) (value : List ℕ) (p : Partial) where
  unfoldable pub on_packet_id : PacketResult Partial
  on_packet_id = do
    set_once p.packet_id id
    v ← identifier id Reason.packet_id_length value
    ok (record p { packet_id = some v })

  unfoldable pub on_payload_kind : PacketResult Partial
  on_payload_kind = do
    set_once p.payload_kind id
    v ← decode_kind value id
    ok (record p { payload_kind = some v })

  unfoldable pub on_original_length : PacketResult Partial
  on_original_length = do
    set_once p.original_len id
    v ← decode_minimal_u64 value id
    ok (record p { original_len = some v })

  unfoldable pub on_content_digest : PacketResult Partial
  on_content_digest = do
    set_once p.content_digest id
    v ← decode_digest value id
    ok (record p { content_digest = some v })

  unfoldable pub on_transform : PacketResult Partial
  on_transform = do
    check_limit What.transform_count (length p.transforms + 1) limits.max_transforms
    d ← decode_descriptor value id
    ok (record p {
      transforms =
          p.transforms
          ++ (record {
            algorithm = d.algorithm;
            version = d.version;
            critical = critical;
            parameters = d.parameters;
          }
              ∷ []);
    })

  unfoldable pub on_placement : PacketResult Partial
  on_placement = do
    set_once p.placement id
    v ← decode_descriptor value id
    ok (record p { placement = some v })

  unfoldable pub on_kernel : PacketResult Partial
  on_kernel = do
    set_once p.kernel id
    v ← decode_descriptor value id
    ok (record p { kernel = some v })

  unfoldable pub on_created_version : PacketResult Partial
  on_created_version = do
    set_once p.created_version id
    ensure (length value == 2) (invalid_field id Reason.created_version_length)
    ok (record p { created_version = some (get_or value 0 0, get_or value 1 0) })

  unfoldable pub on_mime_type : PacketResult Partial
  on_mime_type = do
    set_once p.mime_type id
    check_limit What.mime_type (length value) limits.max_mime_len
    v ← decode_text value id
    ok (record p { mime_type = some v })

  unfoldable pub on_filename : PacketResult Partial
  on_filename = do
    set_once p.filename id
    check_limit What.filename (length value) limits.max_filename_len
    v ← decode_text value id
    ok (record p { filename = some v })

  unfoldable pub on_created_at : PacketResult Partial
  on_created_at = do
    set_once p.created_at_unix id
    v ← decode_minimal_u64 value id
    ok (record p { created_at_unix = some v })

  unfoldable pub on_parent_id : PacketResult Partial
  on_parent_id = do
    set_once p.parent_id id
    v ← identifier id Reason.parent_id_length value
    ok (record p { parent_id = some v })

  unfoldable pub on_extension : PacketResult Partial
  on_extension = do
    check_limit What.extension_count (length p.extensions + 1) limits.max_extensions
    ok (record p { extensions = p.extensions ++ (record { id = id; value = value } ∷ []) })

  unfoldable pub on_unknown : PacketResult Partial
  on_unknown = do
    check_limit What.unknown_field_count (length p.unknown_fields + 1) limits.max_extensions
    ok (record p { unknown_fields = p.unknown_fields ++ (record { id = id; value = value } ∷ []) })

  -- `match field_id`
  unfoldable pub decode_field : PacketResult Partial
  decode_field =
      if id == field_packet_id
      then on_packet_id
      else if id == field_payload_kind
      then on_payload_kind
      else if id == field_original_length
      then on_original_length
      else if id == field_content_digest
      then on_content_digest
      else if id == field_transform
      then on_transform
      else if id == field_placement
      then on_placement
      else if id == field_kernel
      then on_kernel
      else if id == field_created_version
      then on_created_version
      else if id == field_mime_type
      then on_mime_type
      else if id == field_filename
      then on_filename
      else if id == field_created_at
      then on_created_at
      else if id == field_parent_id
      then on_parent_id
      else if leb first_extension_field id && not critical
      then on_extension
      else if critical
      then err (unknown_critical_field id)
      else on_unknown

-- The header of the field that begins at the cursor: `raw_id`, split, and `length`.
pub record Header : Type 0 where
  pub critical : Bool
  pub id : ℕ
  pub len : ℕ

abbrev pub raw_id : List ℕ → ℕ
raw_id rest = from_be_bytes (take 2 rest)

unfoldable pub read_header : List ℕ → Header
read_header rest = record {
  critical = not (bit_and (raw_id rest) field_critical == 0);
  id = bit_and (raw_id rest) field_id_mask;
  len = from_be_bytes (slice rest 2 6);
}

-- The checks between the header and the field's value; the result is `end`.
unfoldable pub check_header : DecodeLimits → ℕ → ℕ → ℕ → Header → PacketResult ℕ
check_header limits total cursor previous h = do
  ensure (not (h.id == 0 || ltb h.id previous)) (noncanonical_order h.id)
  check_limit What.envelope_field h.len limits.max_field_len
  end ← ok_or (checked_add (cursor + tlv_header_size) h.len) length_overflow
  ensure (leb end total) (truncated end total)
  ok end

-- A round from the header on; `body` is the input behind the header, and `next` goes on with the
-- loop at the new cursor, field count and `previous_id`.
unfoldable pub round :
    DecodeLimits
    → ℕ
    → (ℕ → ℕ → ℕ → List ℕ → Partial → PacketResult Partial)
    → ℕ
    → ℕ
    → ℕ
    → Header
    → List ℕ
    → Partial
    → PacketResult Partial
round limits total next cursor count previous h body p = do
  end ← check_header limits total cursor previous h
  ensure (critical_ok h.id h.critical) (invalid_field h.id Reason.noncanonical_critical_bit)
  p' ← decode_field limits h.critical h.id (take h.len body) p
  next end (count + 1) h.id (drop h.len body) p'

-- The loop `while cursor < input.len()`. `rest` is `input[cursor..]` and `total` is `input.len()`;
-- a round reads a header at least, so `total` rounds are enough.
unfoldable pub decode_loop :
    DecodeLimits → ℕ → ℕ → ℕ → ℕ → ℕ → List ℕ → Partial → PacketResult Partial
decode_loop limits total fuel cursor count previous [] p = ok p
decode_loop limits total zero cursor count previous (b ∷ bs) p = err out_of_fuel
decode_loop limits total (suc fuel) cursor count previous (b ∷ bs) p = do
  let rest = b ∷ bs
  check_limit What.envelope_field_count (count + 1) limits.max_fields
  ensure (leb tlv_header_size (length rest)) (truncated (cursor + tlv_header_size) total)
  round limits total (decode_loop limits total fuel) cursor count previous (read_header rest)
      (drop tlv_header_size rest) p

abbrev required : {A : Type 0} → Option A → ℕ → PacketResult A
required slot id = ok_or slot (missing_field id)

-- The construction of the envelope, with a missing field reported in the order of the struct.
unfoldable pub finish : Partial → PacketResult PacketEnvelope
finish p = do
  packet_id ← required p.packet_id field_packet_id
  payload_kind ← required p.payload_kind field_payload_kind
  original_len ← required p.original_len field_original_length
  content_digest ← required p.content_digest field_content_digest
  placement ← required p.placement field_placement
  kernel ← required p.kernel field_kernel
  created_version ← required p.created_version field_created_version
  ok (record {
    packet_id = packet_id;
    payload_kind = payload_kind;
    original_len = original_len;
    content_digest = content_digest;
    transforms = p.transforms;
    placement = placement;
    kernel = kernel;
    created_version = created_version;
    mime_type = p.mime_type;
    filename = p.filename;
    created_at_unix = p.created_at_unix;
    parent_id = p.parent_id;
    unknown_fields = p.unknown_fields;
    extensions = p.extensions;
  })

unfoldable pub decode : List ℕ → DecodeLimits → PacketResult PacketEnvelope
unfolding decode_loop finish
decode input limits = do
  check_limit What.envelope (length input) limits.max_envelope_len
  p ← decode_loop limits (length input) (length input) 0 0 0 input empty
  envelope ← finish p
  validate_envelope envelope limits
  ok envelope
