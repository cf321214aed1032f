-- ===== src/Packet/Envelope/RoundTrip/Handlers.antt =====
-- Each handler of `decode` on the field that `encode` writes for its slot.
use steganographer.Common.{
  ℕ, suc, ◌+◌, ◌^◌, ◌<◌, ◌≤◌, ◌≡◌, refl, ◌∙◌, List, [], ◌∷◌, ◌++◌, Option, some, none, true, false,
  ltb, leb, arith, length, ok,
}
use steganographer.Common.Bytes.{to_be_bytes, from_be_bytes-to_be_bytes}
use steganographer.Packet.Types.{
  DecodeLimits, PayloadKind, ContentDigest, DigestAlgorithm, TransformDescriptor,
  AlgorithmDescriptor, ExtensionField, check_limit,
}
use steganographer.Packet.Integer.{encode_minimal_u64}
use steganographer.Packet.Integer.RoundTrip.{decode_minimal_u64-encode_minimal_u64}
use steganographer.Packet.Wire.{
  set_once, encode_algorithm, encode_descriptor, decode_descriptor, decode_text, is_utf8,
}
use steganographer.Packet.Envelope.{kind_code, kind_from, digest_code, digest_from, in_gap}
use steganographer.Packet.Envelope.Decode.{
  Partial, decode_field, decode_kind, decode_digest, on_packet_id, on_payload_kind,
  on_original_length, on_content_digest, on_transform, on_placement, on_kernel, on_created_version,
  on_mime_type, on_filename, on_created_at, on_parent_id, on_extension, on_unknown,
}

kind_from-kind_code : (k : PayloadKind) → kind_from (kind_code k) ≡ ok k
unfolding kind_from kind_code
kind_from-kind_code PayloadKind.bytes = refl
kind_from-kind_code PayloadKind.text = refl
kind_from-kind_code PayloadKind.file = refl
kind_from-kind_code PayloadKind.frame_attestation = refl
kind_from-kind_code PayloadKind.manifest = refl

kind_code-lt : (k : PayloadKind) → kind_code k < 6
unfolding kind_code
kind_code-lt PayloadKind.bytes = omega arith
kind_code-lt k = omega arith

digest_from-digest_code : (a : DigestAlgorithm) → digest_from (digest_code a) ≡ ok a
unfolding digest_from digest_code
digest_from-digest_code DigestAlgorithm.blake3 = refl
digest_from-digest_code DigestAlgorithm.sha256 = refl
digest_from-digest_code DigestAlgorithm.sha3_256 = refl

decode_kind-kind_code :
    (k : PayloadKind) (id : ℕ) → decode_kind (encode_minimal_u64 (kind_code k)) id ≡ ok k
unfolding decode_kind
decode_kind-kind_code k id =
    let small : ltb (kind_code k) 0x1_0000 ≡ true = ground (arith, kind_code-lt k) in
    rw
      (
        decode_minimal_u64-encode_minimal_u64 (kind_code k) id (omega (arith, kind_code-lt k)),
        small,
      )
      (kind_from-kind_code k)

decode_digest_lem :
    (d : ContentDigest) (id : ℕ)
    → length d.bytes ≡ 32
    → decode_digest (digest_code d.algorithm ∷ d.bytes) id ≡ ok d
unfolding decode_digest
decode_digest_lem d id h = rw (h, digest_from-digest_code d.algorithm)

decode_descriptor-encode_algorithm :
    (d : AlgorithmDescriptor) (id : ℕ)
    → d.algorithm < 2 ^ 16
    → decode_descriptor (encode_algorithm d.algorithm d.version d.parameters) id ≡ ok d
unfolding decode_descriptor encode_algorithm to_be_bytes
decode_descriptor-encode_algorithm d id h =
    let long : leb 3 (suc (suc (suc (length d.parameters)))) ≡ true = ground arith in
    rw (long, from_be_bytes-to_be_bytes 2 d.algorithm h)

-- A text slot holds UTF-8, as a `String` does.
abbrev pub IsText : Option (List ℕ) → Type 0
IsText none = Unit
IsText (some v) = is_utf8 v ≡ true

abbrev pub AtMost : Option (List ℕ) → ℕ → Type 0
AtMost none m = Unit
AtMost (some v) m = length v ≤ m

abbrev pub IsIdentifier : Option (List ℕ) → Type 0
IsIdentifier none = Unit
IsIdentifier (some v) = length v ≡ 16

abbrev pub IsTime : Option ℕ → Type 0
IsTime none = Unit
IsTime (some t) = t < 2 ^ 64

module _ (limits : DecodeLimits) (p : Partial) where
  pub packet_id_step :
      (v : List ℕ)
      → p.packet_id ≡ none
      → length v ≡ 16
      → decode_field limits true 1 v p ≡ ok (record p { packet_id = some v })
  unfolding decode_field on_packet_id set_once
  packet_id_step v e h = rw (e, h)

  pub payload_kind_step :
      (k : PayloadKind)
      → p.payload_kind ≡ none
      → decode_field limits true 2 (encode_minimal_u64 (kind_code k)) p
        ≡ ok (record p { payload_kind = some k })
  unfolding decode_field on_payload_kind set_once
  payload_kind_step k e = rw (e, decode_kind-kind_code k 2)

  pub original_length_step :
      (n : ℕ)
      → p.original_len ≡ none
      → n < 2 ^ 64
      → decode_field limits true 3 (encode_minimal_u64 n) p
        ≡ ok (record p { original_len = some n })
  unfolding decode_field on_original_length set_once
  original_length_step n e h = rw (e, decode_minimal_u64-encode_minimal_u64 n 3 h)

  pub content_digest_step :
      (d : ContentDigest)
      → p.content_digest ≡ none
      → length d.bytes ≡ 32
      → decode_field limits true 4 (digest_code d.algorithm ∷ d.bytes) p
        ≡ ok (record p { content_digest = some d })
  unfolding decode_field on_content_digest set_once
  content_digest_step d e h = rw (e, decode_digest_lem d 4 h)

  pub placement_step :
      (d : AlgorithmDescriptor)
      → p.placement ≡ none
      → d.algorithm < 2 ^ 16
      → decode_field limits true 6 (encode_descriptor d) p ≡ ok (record p { placement = some d })
  unfolding decode_field on_placement set_once encode_descriptor
  placement_step d e h = rw (e, decode_descriptor-encode_algorithm d 6 h)

  pub kernel_step :
      (d : AlgorithmDescriptor)
      → p.kernel ≡ none
      → d.algorithm < 2 ^ 16
      → decode_field limits true 7 (encode_descriptor d) p ≡ ok (record p { kernel = some d })
  unfolding decode_field on_kernel set_once encode_descriptor
  kernel_step d e h = rw (e, decode_descriptor-encode_algorithm d 7 h)

  pub created_version_step :
      (v : ℕ × ℕ)
      → p.created_version ≡ none
      → decode_field limits true 8 (v.0 ∷ v.1 ∷ []) p ≡ ok (record p { created_version = some v })
  unfolding decode_field on_created_version set_once
  created_version_step v e = rw (e)

  pub mime_type_step :
      (v : List ℕ)
      → p.mime_type ≡ none
      → is_utf8 v ≡ true
      → length v ≤ limits.max_mime_len
      → decode_field limits false 16 v p ≡ ok (record p { mime_type = some v })
  unfolding decode_field on_mime_type set_once decode_text check_limit
  mime_type_step v e t h =
      let short : leb (length v) limits.max_mime_len ≡ true = ground arith in rw (e, short, t)

  pub filename_step :
      (v : List ℕ)
      → p.filename ≡ none
      → is_utf8 v ≡ true
      → length v ≤ limits.max_filename_len
      → decode_field limits false 17 v p ≡ ok (record p { filename = some v })
  unfolding decode_field on_filename set_once decode_text check_limit
  filename_step v e t h =
      let short : leb (length v) limits.max_filename_len ≡ true = ground arith in rw (e, short, t)

  pub created_at_step :
      (n : ℕ)
      → p.created_at_unix ≡ none
      → n < 2 ^ 64
      → decode_field limits false 18 (encode_minimal_u64 n) p
        ≡ ok (record p { created_at_unix = some n })
  unfolding decode_field on_created_at set_once
  created_at_step n e h = rw (e, decode_minimal_u64-encode_minimal_u64 n 18 h)

  pub parent_id_step :
      (v : List ℕ)
      → p.parent_id ≡ none
      → length v ≡ 16
      → decode_field limits false 19 v p ≡ ok (record p { parent_id = some v })
  unfolding decode_field on_parent_id set_once
  parent_id_step v e h = rw (e, h)

  pub transform_step :
      (t : TransformDescriptor)
      → t.algorithm < 2 ^ 16
      → length p.transforms + 1 ≤ limits.max_transforms
      → decode_field limits t.critical 5 (encode_algorithm t.algorithm t.version t.parameters) p
        ≡ ok (record p { transforms = p.transforms ++ (t ∷ []) })
  unfolding decode_field on_transform check_limit
  transform_step t h hc =
      let room : leb (length p.transforms + 1) limits.max_transforms ≡ true = ground arith in
      let d : AlgorithmDescriptor = record {
        algorithm = t.algorithm;
        version = t.version;
        parameters = t.parameters;
      } in
      rw (room, decode_descriptor-encode_algorithm d 5 h)

  pub extension_step :
      (f : ExtensionField)
      → 128 ≤ f.id
      → length p.extensions + 1 ≤ limits.max_extensions
      → decode_field limits false f.id f.value p
        ≡ ok (record p { extensions = p.extensions ++ (f ∷ []) })
  extension_step f h hc = dispatch ∙ accepted
    where
      dispatch : decode_field limits false f.id f.value p ≡ on_extension limits false f.id f.value p
      dispatch = unfold decode_field in ground arith

      accepted :
          on_extension limits false f.id f.value p
          ≡ ok (record p { extensions = p.extensions ++ (f ∷ []) })
      accepted =
          let room : leb (length p.extensions + 1) limits.max_extensions ≡ true = ground arith in
          unfold on_extension check_limit in rw room

  pub unknown_step :
      (f : ExtensionField)
      → in_gap f.id ≡ true
      → length p.unknown_fields + 1 ≤ limits.max_extensions
      → decode_field limits false f.id f.value p
        ≡ ok (record p { unknown_fields = p.unknown_fields ++ (f ∷ []) })
  unknown_step f h hc = dispatch ∙ accepted
    where
      dispatch : decode_field limits false f.id f.value p ≡ on_unknown limits false f.id f.value p
      dispatch = unfold decode_field in ground arith

      accepted :
          on_unknown limits false f.id f.value p
          ≡ ok (record p { unknown_fields = p.unknown_fields ++ (f ∷ []) })
      accepted =
          let room : leb (length p.unknown_fields + 1) limits.max_extensions ≡ true =
            ground arith in
          unfold on_unknown check_limit in rw room
