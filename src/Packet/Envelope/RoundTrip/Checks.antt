-- ===== src/Packet/Envelope/RoundTrip/Checks.antt =====
-- What `validate_envelope` and the pushes of `encode` establish when they succeed.
use steganographer.Common.{
  ℕ, suc, ◌+◌, ◌^◌, ◌<◌, ◌≤◌, ◌≡◌, refl, sym, ap, ◌∙◌, List, [], ◌∷◌, ◌++◌, map, Option, some, none,
  arith, length, All, ok, length-append, >>=-eq-ok, append_assoc, append-nil,
}
use steganographer.Packet.Types.{DecodeLimits, PacketEnvelope, check_limit}
use steganographer.Packet.Wire.{push_tlv}
use steganographer.Packet.Envelope.{check_extensions, check_unknown, validate_envelope}
use steganographer.Packet.Envelope.Encode.{
  Field, optional_field, created_at_value, lower_unknown, upper_unknown, sort_by_id, fields,
  push_fields, field_count,
}
use steganographer.Packet.Envelope.RoundTrip.Loop.{bytes_of, wire, FitsAll}
use steganographer.Packet.Envelope.RoundTrip.Handlers.{AtMost}
use steganographer.Packet.Envelope.RoundTrip.Order.{Sorted}

pub record Valid (limits : DecodeLimits) (e : PacketEnvelope) : Type 0 where
  pub digest_length : length e.content_digest.bytes ≡ 32
  pub transform_count : length e.transforms ≤ limits.max_transforms
  pub extension_count : length e.extensions ≤ limits.max_extensions
  pub filename_length : AtMost e.filename limits.max_filename_len
  pub mime_length : AtMost e.mime_type limits.max_mime_len
  pub extensions : check_extensions limits 0 e.extensions ≡ ok tt
  pub unknown_count : length e.unknown_fields ≤ limits.max_extensions
  pub unknown : check_unknown limits 0 e.unknown_fields ≡ ok tt

pub validate_envelope-Valid :
    (limits : DecodeLimits) (e : PacketEnvelope)
    → validate_envelope e limits ≡ ok tt
    → Valid limits e
unfolding validate_envelope
validate_envelope-Valid limits e h = ground arith

-- What a successful `push_tlv` says of its field.
pub record Pushed (limits : DecodeLimits) (f : Field) : Type 0 where
  pub positive : 0 < f.id
  pub in_range : f.id < 2 ^ 15
  pub short : length f.value < 2 ^ 32
  pub bounded : length f.value ≤ limits.max_field_len

push_tlv-Pushed :
    (limits : DecodeLimits) (out : List ℕ) (f : Field) (bs : List ℕ)
    → push_tlv out f.id f.critical f.value limits ≡ ok bs
    → Pushed limits f × (bs ≡ out ++ bytes_of f)
unfolding push_tlv check_limit
push_tlv-Pushed limits out f bs h = (ground arith, ground arith)

-- The pushes append the bytes of all fields.
pub push_fields-Pushed :
    (limits : DecodeLimits) (fs : List Field) (out bs : List ℕ)
    → push_fields out fs limits ≡ ok bs
    → All (Pushed limits) fs × (bs ≡ out ++ wire fs)
unfolding push_fields wire
push_fields-Pushed limits [] out bs h = (tt, ground (arith, append-nil out))
push_fields-Pushed limits (f ∷ fs) out bs h =
    let (mid, first, more) = >>=-eq-ok (push_tlv out f.id f.critical f.value limits) _ h in
    let (pushed, here) = push_tlv-Pushed limits out f mid first in
    let (later, there) = push_fields-Pushed limits fs mid bs more in
    ((pushed, later), there ∙ ap (λ t. t ++ wire fs) here ∙ append_assoc out (bytes_of f) (wire fs))

pub FitsAll-intro :
    (limits : DecodeLimits) (previous : ℕ) (fs : List Field)
    → Sorted previous fs
    → All (Pushed limits) fs
    → FitsAll limits previous fs
FitsAll-intro limits previous [] s p = tt
FitsAll-intro limits previous (f ∷ fs) (ord, crit, more) (pushed, rest) = (
  record {
    positive = pushed.positive;
    in_range = pushed.in_range;
    ordered = ord;
    short = pushed.short;
    bounded = pushed.bounded;
    canonical = crit;
  },
  FitsAll-intro limits f.id fs more rest,
)

abbrev pub size_of : {A : Type 0} → Option A → ℕ
size_of none = 0
size_of (some a) = 1

length-optional_field : (id : ℕ) (o : Option (List ℕ)) → length (optional_field id o) ≡ size_of o
length-optional_field id none = refl
length-optional_field id (some v) = refl

size_of-created_at_value : (o : Option ℕ) → size_of (created_at_value o) ≡ size_of o
size_of-created_at_value none = refl
size_of-created_at_value (some v) = refl

-- `field_count` is the number of fields, where it does not overflow.
field_count-eq-some :
    (e : PacketEnvelope) (c : ℕ)
    → field_count e ≡ some c
    → c
      ≡ 7
        + length e.transforms
        + length e.extensions
        + length e.unknown_fields
        + size_of e.mime_type
        + size_of e.filename
        + size_of e.created_at_unix
        + size_of e.parent_id
unfolding field_count
field_count-eq-some e c h = ground arith

length-map : {A : Type 0} (f : A → Field) (xs : List A) → length (map f xs) ≡ length xs
length-map f [] = refl
length-map f (x ∷ xs) = ap suc (length-map f xs)

pub length-fields :
    (e : PacketEnvelope) (c : ℕ)
    → field_count e ≡ some c
    → lower_unknown e.unknown_fields ++ upper_unknown e.unknown_fields ≡ e.unknown_fields
    → sort_by_id e.extensions ≡ e.extensions
    → length (fields e) ≡ c
length-fields e c hc split unmoved =
    count ∙ (omega (arith, parts, halves, field_count-eq-some e c hc))
  where
    halves :
        length (lower_unknown e.unknown_fields) + length (upper_unknown e.unknown_fields)
        ≡ length e.unknown_fields
    halves = sym (length-append _ _) ∙ ap length split

    parts : length (sort_by_id e.extensions) ≡ length e.extensions
    parts = ap length unmoved

    count :
        length (fields e)
        ≡ 4
          + (length e.transforms
              + (3
                  + (length (lower_unknown e.unknown_fields)
                      + (size_of e.mime_type
                          + (size_of e.filename + (size_of e.created_at_unix + size_of e.parent_id))
                          + (length (upper_unknown e.unknown_fields)
                              + length (sort_by_id e.extensions))))))
    count =
        unfold fields in
        simp (length-append, length-map, length-optional_field, size_of-created_at_value)
          (omega arith)
