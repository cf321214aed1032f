-- ===== src/Packet/Envelope/Ends.antt =====
-- `PacketEnvelope::decode` of packet.rs ends: the loop over the fields of an envelope has rounds
-- enough, and no other step of the decoder runs out of them.
use steganographer.Common.{
  ℕ, zero, suc, ◌+◌, ◌≤◌, ◌≢◌, List, [], ◌∷◌, Bool, true, false, not, ◌&&◌, ◌==◌, leb, arith,
  if◌then◌else◌, length, take, drop, length-drop, ok, err, Avoids, ok-Avoids, err-Avoids,
  >>=-Avoids, >>-Avoids, ensure-Avoids,
}
use steganographer.Packet.Types.{
  PacketResult, What, Reason, DecodeLimits, PacketEnvelope, ExtensionField, check_limit,
  out_of_fuel, truncated, invalid_field, unknown_critical_field, limit_exceeded, tlv_header_size,
  field_packet_id, field_payload_kind, field_original_length, field_content_digest, field_transform,
  field_placement, field_kernel, field_created_version, field_mime_type, field_filename,
  field_created_at, field_parent_id, first_extension_field,
}
use steganographer.Packet.Integer.{decode_minimal_u64}
use steganographer.Packet.Wire.{set_once, decode_descriptor, decode_text}
use steganographer.Packet.Envelope.{
  kind_from, digest_from, validate_envelope, check_extensions, check_unknown,
}
use steganographer.Packet.Envelope.Decode.{
  Partial, Header, decode_kind, decode_digest, critical_ok, on_packet_id, on_payload_kind,
  on_original_length, on_content_digest, on_transform, on_placement, on_kernel, on_created_version,
  on_mime_type, on_filename, on_created_at, on_parent_id, on_extension, on_unknown, decode_field,
  check_header, read_header, round, decode_loop, finish, decode, empty,
}

-- No handler reports that the loop has run out of rounds.
module _ (limits : DecodeLimits) (critical : Bool) (id : ℕ) (value : List ℕ) (p : Partial) where
  on_packet_id-Avoids : Avoids out_of_fuel (on_packet_id limits critical id value p)
  unfolding on_packet_id set_once
  on_packet_id-Avoids = λ q. ground (arith, q)

  on_payload_kind-Avoids : Avoids out_of_fuel (on_payload_kind limits critical id value p)
  unfolding on_payload_kind set_once decode_kind decode_minimal_u64 kind_from
  on_payload_kind-Avoids = λ q. ground (arith, q)

  on_original_length-Avoids : Avoids out_of_fuel (on_original_length limits critical id value p)
  unfolding on_original_length set_once decode_minimal_u64
  on_original_length-Avoids = λ q. ground (arith, q)

  on_content_digest-Avoids : Avoids out_of_fuel (on_content_digest limits critical id value p)
  unfolding on_content_digest set_once decode_digest digest_from
  on_content_digest-Avoids = λ q. ground (arith, q)

  on_transform-Avoids : Avoids out_of_fuel (on_transform limits critical id value p)
  unfolding on_transform check_limit decode_descriptor
  on_transform-Avoids = λ q. ground (arith, q)

  on_placement-Avoids : Avoids out_of_fuel (on_placement limits critical id value p)
  unfolding on_placement set_once decode_descriptor
  on_placement-Avoids = λ q. ground (arith, q)

  on_kernel-Avoids : Avoids out_of_fuel (on_kernel limits critical id value p)
  unfolding on_kernel set_once decode_descriptor
  on_kernel-Avoids = λ q. ground (arith, q)

  on_created_version-Avoids : Avoids out_of_fuel (on_created_version limits critical id value p)
  unfolding on_created_version set_once
  on_created_version-Avoids = λ q. ground (arith, q)

  on_mime_type-Avoids : Avoids out_of_fuel (on_mime_type limits critical id value p)
  unfolding on_mime_type set_once check_limit decode_text
  on_mime_type-Avoids = λ q. ground (arith, q)

  on_filename-Avoids : Avoids out_of_fuel (on_filename limits critical id value p)
  unfolding on_filename set_once check_limit decode_text
  on_filename-Avoids = λ q. ground (arith, q)

  on_created_at-Avoids : Avoids out_of_fuel (on_created_at limits critical id value p)
  unfolding on_created_at set_once decode_minimal_u64
  on_created_at-Avoids = λ q. ground (arith, q)

  on_parent_id-Avoids : Avoids out_of_fuel (on_parent_id limits critical id value p)
  unfolding on_parent_id set_once
  on_parent_id-Avoids = λ q. ground (arith, q)

  on_extension-Avoids : Avoids out_of_fuel (on_extension limits critical id value p)
  unfolding on_extension check_limit
  on_extension-Avoids = λ q. ground (arith, q)

  on_unknown-Avoids : Avoids out_of_fuel (on_unknown limits critical id value p)
  unfolding on_unknown check_limit
  on_unknown-Avoids = λ q. ground (arith, q)

  if-Avoids :
      (b : Bool) (x y : PacketResult Partial)
      → Avoids out_of_fuel x
      → Avoids out_of_fuel y
      → Avoids out_of_fuel (if b then x else y)
  if-Avoids true x y h k = h
  if-Avoids false x y h k = k

  decode_field-Avoids : Avoids out_of_fuel (decode_field limits critical id value p)
  unfolding decode_field
  decode_field-Avoids = if-Avoids (id == field_packet_id) _ _ on_packet_id-Avoids (
      if-Avoids (id == field_payload_kind) _ _ on_payload_kind-Avoids (
        if-Avoids (id == field_original_length) _ _ on_original_length-Avoids (
          if-Avoids (id == field_content_digest) _ _ on_content_digest-Avoids (
            if-Avoids (id == field_transform) _ _ on_transform-Avoids (
              if-Avoids (id == field_placement) _ _ on_placement-Avoids (
                if-Avoids (id == field_kernel) _ _ on_kernel-Avoids (
                  if-Avoids (id == field_created_version) _ _ on_created_version-Avoids (
                    if-Avoids (id == field_mime_type) _ _ on_mime_type-Avoids (
                      if-Avoids (id == field_filename) _ _ on_filename-Avoids (
                        if-Avoids (id == field_created_at) _ _ on_created_at-Avoids (
                          if-Avoids (id == field_parent_id) _ _ on_parent_id-Avoids (
                            if-Avoids (leb first_extension_field id && not critical) _ _
                              on_extension-Avoids
                              (if-Avoids critical _ _
                                (err-Avoids out_of_fuel (unknown_critical_field id) (λ q. cc))
                                on_unknown-Avoids)))))))))))))

check_limit-Avoids :
    (what : What) (actual maximum : ℕ) → Avoids out_of_fuel (check_limit what actual maximum)
unfolding check_limit
check_limit-Avoids what actual maximum =
    ensure-Avoids out_of_fuel (leb actual maximum) (limit_exceeded what actual maximum) (λ q. cc)

check_header-Avoids :
    (limits : DecodeLimits) (total cursor previous : ℕ) (h : Header)
    → Avoids out_of_fuel (check_header limits total cursor previous h)
unfolding check_header check_limit
check_header-Avoids limits total cursor previous h = λ q. ground (arith, q)

finish-Avoids : (p : Partial) → Avoids out_of_fuel (finish p)
unfolding finish
finish-Avoids p = λ q. ground (arith, q)

check_extensions-Avoids :
    (limits : DecodeLimits) (previous : ℕ) (fs : List ExtensionField)
    → Avoids out_of_fuel (check_extensions limits previous fs)
unfolding check_extensions check_limit
check_extensions-Avoids limits previous [] = λ q. cc
check_extensions-Avoids limits previous (f ∷ fs) =
    λ q. ground (arith, q, check_extensions-Avoids limits f.id fs)

check_unknown-Avoids :
    (limits : DecodeLimits) (previous : ℕ) (fs : List ExtensionField)
    → Avoids out_of_fuel (check_unknown limits previous fs)
unfolding check_unknown check_limit
check_unknown-Avoids limits previous [] = λ q. cc
check_unknown-Avoids limits previous (f ∷ fs) =
    λ q. ground (arith, q, check_unknown-Avoids limits f.id fs)

validate_envelope-Avoids :
    (e : PacketEnvelope) (limits : DecodeLimits) → Avoids out_of_fuel (validate_envelope e limits)
unfolding validate_envelope check_limit
validate_envelope-Avoids e limits = λ q. ground (
  arith,
  q,
  check_extensions-Avoids limits 0 e.extensions,
  check_unknown-Avoids limits 0 e.unknown_fields,
)

-- Rounds enough are left for the bytes that are left.
decode_loop-Avoids :
    (limits : DecodeLimits) (total fuel cursor count previous : ℕ) (rest : List ℕ) (p : Partial)
    → length rest ≤ fuel
    → Avoids out_of_fuel (decode_loop limits total fuel cursor count previous rest p)
unfolding decode_loop round
decode_loop-Avoids limits total fuel cursor count previous [] p h = λ q. cc
decode_loop-Avoids limits total zero cursor count previous (b ∷ bs) p h = absurd (omega arith)
decode_loop-Avoids limits total (suc fuel) cursor count previous (b ∷ bs) p h =
    let rest = b ∷ bs in
    let head = read_header rest in
    let body = drop tlv_header_size rest in
    >>-Avoids out_of_fuel _ _
      (check_limit-Avoids What.envelope_field_count (count + 1) limits.max_fields)
      (>>-Avoids out_of_fuel _ _
        (ensure-Avoids out_of_fuel (leb tlv_header_size (length rest))
          (truncated (cursor + tlv_header_size) total) (λ q. cc))
        (>>=-Avoids out_of_fuel (check_header limits total cursor previous head) _
          (check_header-Avoids limits total cursor previous head)
          (λ end.
            >>-Avoids out_of_fuel _ _
              (ensure-Avoids out_of_fuel (critical_ok head.id head.critical)
                (invalid_field head.id Reason.noncanonical_critical_bit) (λ q. cc))
              (>>=-Avoids out_of_fuel
                (decode_field limits head.critical head.id (take head.len body) p) _
                (decode_field-Avoids limits head.critical head.id (take head.len body) p)
                (λ p'.
                  decode_loop-Avoids limits total fuel end (count + 1) head.id (drop head.len body)
                    p'
                    (omega
                      (arith, h, length-drop head.len body, length-drop tlv_header_size rest)))))))

-- `PacketEnvelope::decode` never runs out of the rounds that its loop is given: on every input and
-- under all limits, its result is an envelope or one of the errors of the code.
pub decode-ends : (input : List ℕ) (limits : DecodeLimits) → decode input limits ≢ err out_of_fuel
unfolding decode
decode-ends input limits =
    >>-Avoids out_of_fuel _ _
      (check_limit-Avoids What.envelope (length input) limits.max_envelope_len)
      (>>=-Avoids out_of_fuel (decode_loop limits (length input) (length input) 0 0 0 input empty) _
        (decode_loop-Avoids limits (length input) (length input) 0 0 0 input empty (omega arith))
        (λ p. >>=-Avoids out_of_fuel (finish p) _ (finish-Avoids p) (λ e.
          >>-Avoids out_of_fuel (validate_envelope e limits) (ok e)
            (validate_envelope-Avoids e limits) (ok-Avoids out_of_fuel e))))
