-- ===== src/Packet/Envelope/RoundTrip.antt =====
-- What `PacketEnvelope::encode` writes, `PacketEnvelope::decode` reads back.
mod Loop
pub mod Handlers
mod Fold
mod Order
mod Checks
use steganographer.Common.{
  ℕ, zero, suc, ◌+◌, ◌<◌, ◌≤◌, ◌≡◌, refl, sym, ap, ap₂, ◌∙◌, List, [], ◌∷◌, ◌++◌, map, append-nil,
  Option, some, none, true, leb, arith, length, length-append, ok, ◌>>=◌, >>-eq-ok, >>=-eq-ok,
}
use steganographer.Packet.Types.{
  PacketResult, What, DecodeLimits, PacketEnvelope, ok_or, check_limit, usize_max, length_overflow,
}
use steganographer.Packet.Envelope.{validate_envelope}
use steganographer.Packet.Envelope.Encode.{
  Field, fields, push_fields, field_count, encode, lower_unknown, upper_unknown, sort_by_id,
  extension_field, transform_field, required_fields, descriptor_fields, optional_fields,
}
use steganographer.Packet.Envelope.Decode.{Partial, empty, decode_loop, finish, decode}
use Loop.{length-tlv, wire, decode_fields, decode_loop-wire}
use Fold.{
  fold_required, fold_transforms, fold_descriptors, fold_unknown, fold_optional, fold_extensions,
}
use Order.{
  AreExtensions, AreUnknown, check_extensions-AreExtensions, check_unknown-AreUnknown,
  fields-Sorted,
}
use Checks.{
  Valid, validate_envelope-Valid, Pushed, push_fields-Pushed, FitsAll-intro, length-fields,
}
pub use Fold.{IsEnvelope}

-- The slots after every field of `e` is read.
collected : PacketEnvelope → Partial
collected e = record {
  packet_id = some e.packet_id;
  payload_kind = some e.payload_kind;
  original_len = some e.original_len;
  content_digest = some e.content_digest;
  transforms = e.transforms;
  placement = some e.placement;
  kernel = some e.kernel;
  created_version = some e.created_version;
  mime_type = e.mime_type;
  filename = e.filename;
  created_at_unix = e.created_at_unix;
  parent_id = e.parent_id;
  unknown_fields = lower_unknown e.unknown_fields ++ upper_unknown e.unknown_fields;
  extensions = sort_by_id e.extensions;
}

-- The slots after each group of fields.
abbrev after_required : PacketEnvelope → Partial
after_required e = record empty {
  packet_id = some e.packet_id;
  payload_kind = some e.payload_kind;
  original_len = some e.original_len;
  content_digest = some e.content_digest;
}

abbrev after_transforms : PacketEnvelope → Partial
after_transforms e = record (after_required e) { transforms = e.transforms }

abbrev after_descriptors : PacketEnvelope → Partial
after_descriptors e = record (after_transforms e) {
  placement = some e.placement;
  kernel = some e.kernel;
  created_version = some e.created_version;
}

abbrev after_lower : PacketEnvelope → Partial
after_lower e = record (after_descriptors e) { unknown_fields = lower_unknown e.unknown_fields }

abbrev after_optional : PacketEnvelope → Partial
after_optional e = record (after_lower e) {
  mime_type = e.mime_type;
  filename = e.filename;
  created_at_unix = e.created_at_unix;
  parent_id = e.parent_id;
}

abbrev after_upper : PacketEnvelope → Partial
after_upper e = record (after_optional e) {
  unknown_fields = lower_unknown e.unknown_fields ++ upper_unknown e.unknown_fields;
}

-- What a successful `encode` has checked and done.
record Encoded (limits : DecodeLimits) (e : PacketEnvelope) (bs : List ℕ) : Type 0 where
  validated : validate_envelope e limits ≡ ok tt
  count : ℕ
  counted : field_count e ≡ some count
  count_bound : count ≤ limits.max_fields
  pushed : push_fields [] (fields e) limits ≡ ok bs
  size_bound : length bs ≤ limits.max_envelope_len

encode-Encoded :
    (limits : DecodeLimits) (e : PacketEnvelope) (bs : List ℕ)
    → encode e limits ≡ ok bs
    → Encoded limits e bs
unfolding encode
encode-Encoded limits e bs h =
    let (validated, h1) = >>-eq-ok (validate_envelope e limits) _ h in
    let (count, counted, h2) = >>=-eq-ok (ok_or (field_count e) length_overflow) _ h1 in
    let (bound, h3) =
      >>-eq-ok (check_limit What.envelope_field_count count limits.max_fields) _ h2 in
    let (out, pushed, h4) = >>=-eq-ok (push_fields [] (fields e) limits) _ h3 in
    let (size, same) =
      >>-eq-ok (check_limit What.envelope (length out) limits.max_envelope_len) (ok out) h4 in
    record {
      validated = validated;
      count = count;
      counted = ground arith;
      count_bound = unfold check_limit in ground arith;
      pushed = pushed ∙ same;
      size_bound = unfold check_limit in ground arith;
    }

module _ (limits : DecodeLimits) (e : PacketEnvelope) (w : IsEnvelope e) (v : Valid limits e) where
  known : AreUnknown 0 e.unknown_fields
  known = check_unknown-AreUnknown limits 0 e.unknown_fields v.unknown

  registered : AreExtensions limits 0 e.extensions
  registered = check_extensions-AreExtensions limits 0 e.extensions v.extensions

  sizes :
      length (lower_unknown e.unknown_fields) + length (upper_unknown e.unknown_fields)
      ≤ limits.max_extensions
  sizes = omega (
    arith,
    length-append (lower_unknown e.unknown_fields) (upper_unknown e.unknown_fields),
    ap length known.split,
    v.unknown_count,
  )

  decode_fields-fields : decode_fields limits (fields e) empty ≡ ok (collected e)
  unfolding fields collected
  decode_fields-fields =
      fold_required limits e w _ empty refl refl refl refl v.digest_length
      ∙ fold_transforms limits e.transforms _ (after_required e) w.transform_widths
          (omega (arith, v.transform_count))
      ∙ fold_descriptors limits e w _ (after_transforms e) refl refl refl
      ∙ fold_unknown limits (lower_unknown e.unknown_fields) _ (after_descriptors e)
          known.lower_gaps (omega (arith, sizes))
      ∙ fold_optional limits e w _ (after_lower e) refl refl refl refl v.mime_length
          v.filename_length
      ∙ fold_unknown limits (upper_unknown e.unknown_fields) _ (after_optional e) known.upper_gaps
          (omega (arith, sizes))
      ∙ ap (λ l. decode_fields limits l (after_upper e))
          (sym (append-nil (map extension_field (sort_by_id e.extensions))))
      ∙ fold_extensions limits (sort_by_id e.extensions) [] (after_upper e)
          (rw registered.unmoved registered.registry)
          (rw registered.unmoved (omega (arith, v.extension_count)))
      ∙ unfold decode_fields in refl

  finish-collected : finish (collected e) ≡ ok e
  unfolding finish collected
  finish-collected = rw (known.split, registered.unmoved)

length-wire : (fs : List Field) → length fs ≤ length (wire fs)
unfolding wire
length-wire [] = omega arith
length-wire (f ∷ fs) = omega (arith, length-tlv f (wire fs), length-wire fs)

-- The steps of `decode`, where the loop and the final construction are known.
decode-steps :
    (limits : DecodeLimits) (e : PacketEnvelope) (bs : List ℕ) (p : Partial)
    → length bs ≤ limits.max_envelope_len
    → decode_loop limits (length bs) (length bs) 0 0 0 bs empty ≡ ok p
    → finish p ≡ ok e
    → validate_envelope e limits ≡ ok tt
    → decode bs limits ≡ ok e
unfolding decode
decode-steps limits e bs p hs hl hf hv =
    let size : check_limit What.envelope (length bs) limits.max_envelope_len ≡ ok tt =
      unfold check_limit in ground arith in
    rw (size, hl, hf, hv)

-- An envelope that `encode` accepts is read back by `decode` under the same limits: the same
-- record, for every envelope whose fields have the widths and lengths of their Rust types. The
-- limit on the envelope's length must be a `usize`.
pub decode-encode :
    (limits : DecodeLimits) (e : PacketEnvelope) (bs : List ℕ)
    → IsEnvelope e
    → limits.max_envelope_len ≤ usize_max
    → encode e limits ≡ ok bs
    → decode bs limits ≡ ok e
decode-encode limits e bs w hm h =
    let enc = encode-Encoded limits e bs h in
    let v = validate_envelope-Valid limits e enc.validated in
    let (pushed, wired) = push_fields-Pushed limits (fields e) [] bs enc.pushed in
    let split = (known limits e w v).split in
    let unmoved = (registered limits e w v).unmoved in
    let fits =
      FitsAll-intro limits 0 (fields e)
        (fields-Sorted limits e (registered limits e w v) (known limits e w v)) pushed in
    let count = length-fields e enc.count enc.counted split unmoved in
    let size = ap length wired in
    let bound = enc.size_bound in
    let some_fields = enc.count_bound in
    let looped : decode_loop limits (length bs) (length bs) 0 0 0 bs empty
        ≡ decode_fields limits (fields e) empty =
      ap (λ b. decode_loop limits (length bs) (length bs) 0 0 0 b empty) wired
      ∙ decode_loop-wire limits (length bs) (fields e) (length bs) 0 0 0 empty fits
          (omega (arith, length-wire (fields e))) (omega arith) (omega arith) (omega arith) in
    decode-steps limits e bs (collected e) bound (looped ∙ decode_fields-fields limits e w v)
      (finish-collected limits e w v) enc.validated
