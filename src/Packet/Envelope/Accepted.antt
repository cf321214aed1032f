-- ===== src/Packet/Envelope/Accepted.antt =====
-- The envelopes that `validate_envelope` of packet.rs lets through, described by numbers and lengths.
use steganographer.Common.{
  ℕ, ◌^◌, ◌<◌, ◌≤◌, ◌≡◌, ◌⊎◌, inl, inr, List, [], ◌∷◌, false, ◌==◌, arith, length, any, All, ok,
  Bool-cases,
}
use steganographer.Packet.Types.{
  DecodeLimits, TransformDescriptor, ExtensionField, PacketEnvelope, check_limit,
}
use steganographer.Packet.Envelope.{
  check_extensions, check_unknown, has_zero_transform, validate_envelope,
}
use steganographer.Packet.Envelope.RoundTrip.Handlers.{AtMost}

-- The fields' identifiers do not fall, from a first bound on.
abbrev pub Ascending : ℕ → List ExtensionField → Type 0
Ascending previous [] = Unit {0}
Ascending previous (f ∷ fs) = (previous ≤ f.id) × Ascending f.id fs

-- They rise, above a first bound.
abbrev pub Rising : ℕ → List ExtensionField → Type 0
Rising previous [] = Unit {0}
Rising previous (f ∷ fs) = (previous < f.id) × Rising f.id fs

-- The identifiers of extensions, and those reserved for later minor versions.
abbrev pub InRegistry : ExtensionField → Type 0
InRegistry f = (128 ≤ f.id) × (f.id < 2 ^ 15)

abbrev pub InGap : ExtensionField → Type 0
InGap f = ((9 ≤ f.id) × (f.id ≤ 15)) ⊎ ((20 ≤ f.id) × (f.id ≤ 127))

-- An envelope of version one with every count and length within the limits, nonzero algorithm
-- numbers, and its extension and preserved fields in their ranges and in order.
pub record Bounded (limits : DecodeLimits) (e : PacketEnvelope) : Type 0 where
  pub major : e.created_version.0 ≡ 1
  pub minor : e.created_version.1 ≡ 0
  pub digest_length : length e.content_digest.bytes ≡ 32
  pub original_bound : e.original_len ≤ limits.max_original_len
  pub transform_count : length e.transforms ≤ limits.max_transforms
  pub extension_count : length e.extensions ≤ limits.max_extensions
  pub unknown_count : length e.unknown_fields ≤ limits.max_extensions
  pub placement_named : 0 < e.placement.algorithm
  pub kernel_named : 0 < e.kernel.algorithm
  pub transforms_named : All (λ t. 0 < t.algorithm) e.transforms
  pub filename_length : AtMost e.filename limits.max_filename_len
  pub mime_length : AtMost e.mime_type limits.max_mime_len
  pub extensions_registered : All InRegistry e.extensions
  pub extensions_short : All (λ f. length f.value ≤ limits.max_field_len) e.extensions
  pub extensions_ordered : Ascending 0 e.extensions
  pub unknown_reserved : All InGap e.unknown_fields
  pub unknown_short : All (λ f. length f.value ≤ limits.max_field_len) e.unknown_fields
  pub unknown_ordered : Rising 0 e.unknown_fields

transforms-named :
    (ts : List TransformDescriptor) → has_zero_transform ts ≡ false → All (λ t. 0 < t.algorithm) ts
unfolding has_zero_transform any
transforms-named [] h = tt
transforms-named (t ∷ ts) h = elim (Bool-cases (t.algorithm == 0)) [
  | inl e ↦ absurd (ground (arith, h, e))
  | inr e ↦ (ground (arith, e), transforms-named ts (ground (arith, h, e)))
]

check_extensions-ok :
    (limits : DecodeLimits) (previous : ℕ) (fs : List ExtensionField)
    → check_extensions limits previous fs ≡ ok tt
    → All InRegistry fs
      × (All (λ f. length f.value ≤ limits.max_field_len) fs × Ascending previous fs)
unfolding check_extensions check_limit
check_extensions-ok limits previous [] h = (tt, (tt, tt))
check_extensions-ok limits previous (f ∷ fs) h =
    let (registered, (short, ordered)) = check_extensions-ok limits f.id fs (ground (arith, h)) in
    (((ground arith, ground arith), registered), ((ground arith, short), (ground arith, ordered)))

check_unknown-ok :
    (limits : DecodeLimits) (previous : ℕ) (fs : List ExtensionField)
    → check_unknown limits previous fs ≡ ok tt
    → All InGap fs × (All (λ f. length f.value ≤ limits.max_field_len) fs × Rising previous fs)
unfolding check_unknown check_limit
check_unknown-ok limits previous [] h = (tt, (tt, tt))
check_unknown-ok limits previous (f ∷ fs) h =
    let (reserved, (short, ordered)) = check_unknown-ok limits f.id fs (ground (arith, h)) in
    ((ground arith, reserved), ((ground arith, short), (ground arith, ordered)))

pub validate_envelope-Bounded :
    (limits : DecodeLimits) (e : PacketEnvelope)
    → validate_envelope e limits ≡ ok tt
    → Bounded limits e
unfolding validate_envelope check_limit
validate_envelope-Bounded limits e h =
    let (registered, (short, ordered)) = check_extensions-ok limits 0 e.extensions (ground arith) in
    let (reserved, (short', ordered')) =
      check_unknown-ok limits 0 e.unknown_fields (ground arith) in
    record {
      major = ground arith;
      minor = ground arith;
      digest_length = ground arith;
      original_bound = ground arith;
      transform_count = ground arith;
      extension_count = ground arith;
      unknown_count = ground arith;
      placement_named = ground arith;
      kernel_named = ground arith;
      transforms_named = transforms-named e.transforms (ground arith);
      filename_length = ground arith;
      mime_length = ground arith;
      extensions_registered = registered;
      extensions_short = short;
      extensions_ordered = ordered;
      unknown_reserved = reserved;
      unknown_short = short';
      unknown_ordered = ordered';
    }
