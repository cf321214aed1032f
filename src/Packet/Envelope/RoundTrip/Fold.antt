-- ===== src/Packet/Envelope/RoundTrip/Fold.antt =====
-- The handlers folded over each group of fields of `encode`.
use steganographer.Common.{
  ℕ, ◌+◌, ◌^◌, ◌<◌, ◌≤◌, ◌≡◌, sym, ap, ◌∙◌, List, [], ◌∷◌, ◌++◌, map, append-nil, append_assoc,
  Option, some, none, true, arith, length, All, ok, ◌>>=◌, length-append,
}
use steganographer.Packet.Types.{DecodeLimits, TransformDescriptor, ExtensionField, PacketEnvelope}
use steganographer.Packet.Envelope.{in_gap}
use steganographer.Packet.Envelope.Encode.{
  Field, transform_field, extension_field, optional_field, created_at_value, required_fields,
  descriptor_fields, optional_fields,
}
use steganographer.Packet.Envelope.Decode.{Partial, decode_field}
use steganographer.Packet.Envelope.RoundTrip.Loop.{decode_fields}
use steganographer.Packet.Envelope.RoundTrip.Handlers.{
  IsText, AtMost, IsIdentifier, IsTime, packet_id_step, payload_kind_step, original_length_step,
  content_digest_step, placement_step, kernel_step, created_version_step, mime_type_step,
  filename_step, created_at_step, parent_id_step, transform_step, extension_step, unknown_step,
}

module _ (limits : DecodeLimits) where
  fold_cons :
      (f : Field) (fs : List Field) (p p' : Partial)
      → decode_field limits f.critical f.id f.value p ≡ ok p'
      → decode_fields limits (f ∷ fs) p ≡ decode_fields limits fs p'
  unfolding decode_fields
  fold_cons f fs p p' h = ap (λ r. r >>= λ q. decode_fields limits fs q) h

  pub fold_transforms :
      (ts : List TransformDescriptor) (rest : List Field) (p : Partial)
      → All (λ (t : TransformDescriptor). t.algorithm < 2 ^ 16) ts
      → length p.transforms + length ts ≤ limits.max_transforms
      → decode_fields limits (map transform_field ts ++ rest) p
        ≡ decode_fields limits rest (record p { transforms = p.transforms ++ ts })
  fold_transforms [] rest p h hc =
      ap (λ t. decode_fields limits rest (record p { transforms = t }))
        (sym (append-nil p.transforms))
  fold_transforms (t ∷ ts) rest p (ht, hs) hc =
      let p' : Partial = record p { transforms = p.transforms ++ (t ∷ []) } in
      fold_cons (transform_field t) (map transform_field ts ++ rest) p p'
        (transform_step limits p t ht (omega arith))
      ∙ fold_transforms ts rest p' hs (omega (arith, length-append p.transforms (t ∷ [])))
      ∙ ap (λ l. decode_fields limits rest (record p { transforms = l }))
          (append_assoc p.transforms (t ∷ []) ts)

  pub fold_extensions :
      (xs : List ExtensionField) (rest : List Field) (p : Partial)
      → All (λ (f : ExtensionField). 128 ≤ f.id) xs
      → length p.extensions + length xs ≤ limits.max_extensions
      → decode_fields limits (map extension_field xs ++ rest) p
        ≡ decode_fields limits rest (record p { extensions = p.extensions ++ xs })
  fold_extensions [] rest p h hc =
      ap (λ t. decode_fields limits rest (record p { extensions = t }))
        (sym (append-nil p.extensions))
  fold_extensions (f ∷ fs) rest p (hf, hs) hc =
      let p' : Partial = record p { extensions = p.extensions ++ (f ∷ []) } in
      fold_cons (extension_field f) (map extension_field fs ++ rest) p p'
        (extension_step limits p f hf (omega arith))
      ∙ fold_extensions fs rest p' hs (omega (arith, length-append p.extensions (f ∷ [])))
      ∙ ap (λ l. decode_fields limits rest (record p { extensions = l }))
          (append_assoc p.extensions (f ∷ []) fs)

  pub fold_unknown :
      (xs : List ExtensionField) (rest : List Field) (p : Partial)
      → All (λ (f : ExtensionField). in_gap f.id ≡ true) xs
      → length p.unknown_fields + length xs ≤ limits.max_extensions
      → decode_fields limits (map extension_field xs ++ rest) p
        ≡ decode_fields limits rest (record p { unknown_fields = p.unknown_fields ++ xs })
  fold_unknown [] rest p h hc =
      ap (λ t. decode_fields limits rest (record p { unknown_fields = t }))
        (sym (append-nil p.unknown_fields))
  fold_unknown (f ∷ fs) rest p (hf, hs) hc =
      let p' : Partial = record p { unknown_fields = p.unknown_fields ++ (f ∷ []) } in
      fold_cons (extension_field f) (map extension_field fs ++ rest) p p'
        (unknown_step limits p f hf (omega arith))
      ∙ fold_unknown fs rest p' hs (omega (arith, length-append p.unknown_fields (f ∷ [])))
      ∙ ap (λ l. decode_fields limits rest (record p { unknown_fields = l }))
          (append_assoc p.unknown_fields (f ∷ []) fs)

  fold_mime :
      (o : Option (List ℕ)) (rest : List Field) (p : Partial)
      → p.mime_type ≡ none
      → IsText o
      → AtMost o limits.max_mime_len
      → decode_fields limits (optional_field 16 o ++ rest) p
        ≡ decode_fields limits rest (record p { mime_type = o })
  fold_mime none rest p e t h = ap (λ o. decode_fields limits rest (record p { mime_type = o })) e
  fold_mime (some v) rest p e t h = fold_cons _ rest p _ (mime_type_step limits p v e t h)

  fold_filename :
      (o : Option (List ℕ)) (rest : List Field) (p : Partial)
      → p.filename ≡ none
      → IsText o
      → AtMost o limits.max_filename_len
      → decode_fields limits (optional_field 17 o ++ rest) p
        ≡ decode_fields limits rest (record p { filename = o })
  fold_filename none rest p e t h =
      ap (λ o. decode_fields limits rest (record p { filename = o })) e
  fold_filename (some v) rest p e t h = fold_cons _ rest p _ (filename_step limits p v e t h)

  fold_created_at :
      (o : Option ℕ) (rest : List Field) (p : Partial)
      → p.created_at_unix ≡ none
      → IsTime o
      → decode_fields limits (optional_field 18 (created_at_value o) ++ rest) p
        ≡ decode_fields limits rest (record p { created_at_unix = o })
  fold_created_at none rest p e t =
      ap (λ o. decode_fields limits rest (record p { created_at_unix = o })) e
  fold_created_at (some v) rest p e t = fold_cons _ rest p _ (created_at_step limits p v e t)

  fold_parent :
      (o : Option (List ℕ)) (rest : List Field) (p : Partial)
      → p.parent_id ≡ none
      → IsIdentifier o
      → decode_fields limits (optional_field 19 o ++ rest) p
        ≡ decode_fields limits rest (record p { parent_id = o })
  fold_parent none rest p e t = ap (λ o. decode_fields limits rest (record p { parent_id = o })) e
  fold_parent (some v) rest p e t = fold_cons _ rest p _ (parent_id_step limits p v e t)

regroup : (a b c d r : List Field) → (a ++ (b ++ (c ++ d))) ++ r ≡ a ++ (b ++ (c ++ (d ++ r)))
regroup a b c d r = simp append_assoc

-- What Rust's types say of an envelope: array lengths, integer widths, text in UTF-8.
pub record IsEnvelope (e : PacketEnvelope) : Type 0 where
  pub packet_id_length : length e.packet_id ≡ 16
  pub original_width : e.original_len < 2 ^ 64
  pub transform_widths : All (λ (t : TransformDescriptor). t.algorithm < 2 ^ 16) e.transforms
  pub placement_width : e.placement.algorithm < 2 ^ 16
  pub kernel_width : e.kernel.algorithm < 2 ^ 16
  pub mime_text : IsText e.mime_type
  pub filename_text : IsText e.filename
  pub created_at_width : IsTime e.created_at_unix
  pub parent_id_length : IsIdentifier e.parent_id

module _ (limits : DecodeLimits) (e : PacketEnvelope) (w : IsEnvelope e) where
  pub fold_required :
      (rest : List Field) (p : Partial)
      → p.packet_id ≡ none
      → p.payload_kind ≡ none
      → p.original_len ≡ none
      → p.content_digest ≡ none
      → length e.content_digest.bytes ≡ 32
      → decode_fields limits (required_fields e ++ rest) p
        ≡ decode_fields limits rest (record p {
          packet_id = some e.packet_id;
          payload_kind = some e.payload_kind;
          original_len = some e.original_len;
          content_digest = some e.content_digest;
        })
  fold_required rest p a b c d hd =
      fold_cons limits _ _ p _ (packet_id_step limits p e.packet_id a w.packet_id_length)
      ∙ fold_cons limits _ _ _ _ (payload_kind_step limits _ e.payload_kind b)
      ∙ fold_cons limits _ _ _ _ (original_length_step limits _ e.original_len c w.original_width)
      ∙ fold_cons limits _ _ _ _ (content_digest_step limits _ e.content_digest d hd)

  pub fold_descriptors :
      (rest : List Field) (p : Partial)
      → p.placement ≡ none
      → p.kernel ≡ none
      → p.created_version ≡ none
      → decode_fields limits (descriptor_fields e ++ rest) p
        ≡ decode_fields limits rest (record p {
          placement = some e.placement;
          kernel = some e.kernel;
          created_version = some e.created_version;
        })
  fold_descriptors rest p a b c =
      fold_cons limits _ _ p _ (placement_step limits p e.placement a w.placement_width)
      ∙ fold_cons limits _ _ _ _ (kernel_step limits _ e.kernel b w.kernel_width)
      ∙ fold_cons limits _ _ _ _ (created_version_step limits _ e.created_version c)

  pub fold_optional :
      (rest : List Field) (p : Partial)
      → p.mime_type ≡ none
      → p.filename ≡ none
      → p.created_at_unix ≡ none
      → p.parent_id ≡ none
      → AtMost e.mime_type limits.max_mime_len
      → AtMost e.filename limits.max_filename_len
      → decode_fields limits (optional_fields e ++ rest) p
        ≡ decode_fields limits rest (record p {
          mime_type = e.mime_type;
          filename = e.filename;
          created_at_unix = e.created_at_unix;
          parent_id = e.parent_id;
        })
  fold_optional rest p a b c d hm hf =
      ap (λ l. decode_fields limits l p)
        (regroup (optional_field 16 e.mime_type) (optional_field 17 e.filename)
          (optional_field 18 (created_at_value e.created_at_unix)) (optional_field 19 e.parent_id)
          rest)
      ∙ fold_mime limits e.mime_type _ p a w.mime_text hm
      ∙ fold_filename limits e.filename _ _ b w.filename_text hf
      ∙ fold_created_at limits e.created_at_unix _ _ c w.created_at_width
      ∙ fold_parent limits e.parent_id rest _ d w.parent_id_length
