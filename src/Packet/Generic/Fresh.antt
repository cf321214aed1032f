-- ===== src/Packet/Generic/Fresh.antt =====
-- The packets that `GenericPacket::new_untransformed` makes can be encoded and read back.
use steganographer.Common.{
  ℕ, ◌^◌, ◌<◌, ◌≤◌, ◌≡◌, refl, sym, ap, ap₂, ◌∙◌, List, [], ◌++◌, true, ==_refl, arith, length,
  bytes_eq_refl, any, ok, >>-eq-ok, >>=-eq-ok,
}
use steganographer.Common.Bytes.{to_be_bytes}
use steganographer.Packet.Types.{
  PacketResult, What, DecodeLimits, PayloadKind, AlgorithmDescriptor, PacketEnvelope, Locator,
  GenericPacket, check_limit, usize_max,
}
use steganographer.Packet.Crc.{crc32c, crc32c-lt}
use steganographer.Packet.Locator.{new, to_bytes, validate_flags, validate_lengths, packet_len}
use steganographer.Packet.Locator.RoundTrip.{new-IsLocator}
use steganographer.Packet.Envelope.Encode
use steganographer.Packet.Envelope.RoundTrip.{IsEnvelope}
use steganographer.Packet.Generic.{
  Digests, validate_flag_transform_consistency, check_flag, has_algorithm,
  validate_untransformed_body, verify_digest, digest_with, content_blake3, for_payload,
  new_untransformed, describes, encode, decode,
}
use steganographer.Packet.Generic.RoundTrip.{packet_len_lem, decode_packet-encode_packet}

-- What `Locator::new` puts into the locator.
record Made (flags envelope_len body_len crc : ℕ) (l : Locator) : Type 0 where
  major : l.protocol_major ≡ 1
  minor : l.protocol_minor ≡ 0
  flags_kept : l.flags ≡ flags
  envelope_kept : l.envelope_len ≡ envelope_len
  body_kept : l.encoded_body_len ≡ body_len
  crc_kept : l.envelope_crc32c ≡ crc

new-Made :
    (flags envelope_len body_len crc : ℕ) (nonce : List ℕ) (limits : DecodeLimits) (l : Locator)
    → new flags envelope_len body_len crc nonce limits ≡ ok l
    → Made flags envelope_len body_len crc l
unfolding new
new-Made flags envelope_len body_len crc nonce limits l h = ground arith

-- A fresh packet has no transforms and no flags.
fresh_flags : (validate_flags 0 ≡ ok tt) × (validate_flag_transform_consistency 0 [] ≡ ok tt)
unfolding validate_flags validate_flag_transform_consistency check_flag has_algorithm any
fresh_flags = (refl, refl)

fresh_body :
    (digests : Digests) (packet_id payload : List ℕ) (kind : PayloadKind)
    (placement kernel : AlgorithmDescriptor)
    → validate_untransformed_body digests
        (for_payload digests packet_id kind payload placement kernel)
        payload
      ≡ ok tt
unfolding validate_untransformed_body for_payload verify_digest digest_with content_blake3
fresh_body digests packet_id payload kind placement kernel =
    rw (==_refl (length payload), bytes_eq_refl (digests.blake3_digest payload))

fresh_described :
    (digests : Digests) (l : Locator) (envelope body : List ℕ)
    → Made 0 (length envelope) (length body) (crc32c envelope) l
    → describes digests l envelope body ≡ true
unfolding describes
fresh_described digests l envelope body m = rw (
  m.envelope_kept,
  m.body_kept,
  m.crc_kept,
  ==_refl (length envelope),
  ==_refl (length body),
  ==_refl (crc32c envelope),
)

module _ (digests : Digests) (payload packet_id nonce : List ℕ) (kind : PayloadKind)
    (placement kernel : AlgorithmDescriptor) (limits : DecodeLimits) where
  abbrev fresh_envelope : PacketEnvelope
  fresh_envelope = for_payload digests packet_id kind payload placement kernel

  encode-fresh :
      (envelope : List ℕ) (l : Locator)
      → Encode.encode fresh_envelope limits ≡ ok envelope
      → new 0 (length envelope) (length payload) (crc32c envelope) nonce limits ≡ ok l
      → length nonce ≡ 8
      → encode digests (record { locator = l; envelope = fresh_envelope; body = payload }) limits
        ≡ ok (to_bytes l ++ (envelope ++ payload))
  unfolding encode describes to_bytes packet_len to_be_bytes
  encode-fresh envelope l he hl hn =
      let m = new-Made 0 (length envelope) (length payload) (crc32c envelope) nonce limits l hl in
      let (w, _, lengths) =
        new-IsLocator 0 (length envelope) (length payload) (crc32c envelope) nonce limits l
          (omega arith) (crc32c-lt envelope) hn hl in
      let bounds : validate_lengths (length envelope) (length payload) limits ≡ ok tt =
        ap₂ (λ (a b : ℕ). validate_lengths a b limits) (sym m.envelope_kept) (sym m.body_kept)
        ∙ lengths in
      let plain : validate_flag_transform_consistency 0 fresh_envelope.transforms ≡ ok tt =
        unfold for_payload in fresh_flags.1 in
      rw (
        m.major,
        m.minor,
        m.flags_kept,
        fresh_flags.0,
        plain,
        he,
        bounds,
        fresh_described digests l envelope payload m,
        fresh_body digests packet_id payload kind placement kernel,
        packet_len_lem l limits w.body_width lengths,
      )

  fresh-IsEnvelope :
      length packet_id ≡ 16
      → length payload ≤ usize_max
      → placement.algorithm < 2 ^ 16
      → kernel.algorithm < 2 ^ 16
      → IsEnvelope fresh_envelope
  unfolding for_payload
  fresh-IsEnvelope hi hp ha hk = record {
    packet_id_length = hi;
    original_width = omega arith;
    transform_widths = tt;
    placement_width = ha;
    kernel_width = hk;
    mime_text = tt;
    filename_text = tt;
    created_at_width = tt;
    parent_id_length = tt;
  }

  -- Every packet that `new_untransformed` makes can be encoded under the same limits, and the
  -- bytes, whatever follows them, are decoded to the packet, whose body is the payload: for a
  -- payload whose length is a `usize`, a 16-byte identifier, an 8-byte nonce, 16-bit placement and
  -- kernel numbers, and a limit on the envelope's length that is a `usize`.
  pub encode-new_untransformed :
      (packet : GenericPacket) (rest : List ℕ)
      → length packet_id ≡ 16
      → length nonce ≡ 8
      → length payload ≤ usize_max
      → placement.algorithm < 2 ^ 16
      → kernel.algorithm < 2 ^ 16
      → limits.max_envelope_len ≤ usize_max
      → new_untransformed digests payload packet_id nonce kind placement kernel limits ≡ ok packet
      → (bs : List ℕ) × ((encode digests packet limits ≡ ok bs)
          × ((decode digests (bs ++ rest) limits ≡ ok packet) × (packet.body ≡ payload)))
  unfolding new_untransformed
  encode-new_untransformed packet rest hi hn hp ha hk hm h =
      let (_, h1) = >>-eq-ok (check_limit What.body (length payload) limits.max_body_len) _ h in
      let (envelope, he, h2) = >>=-eq-ok (Encode.encode fresh_envelope limits) _ h1 in
      let (l, hl, made) =
        >>=-eq-ok (new 0 (length envelope) (length payload) (crc32c envelope) nonce limits) _ h2 in
      let bytes = to_bytes l ++ (envelope ++ payload) in
      let fresh : GenericPacket = record {
        locator = l;
        envelope = fresh_envelope;
        body = payload;
      } in
      let written : encode digests fresh limits ≡ ok bytes = encode-fresh envelope l he hl hn in
      let (w, _, _) =
        new-IsLocator 0 (length envelope) (length payload) (crc32c envelope) nonce limits l
          (omega arith) (crc32c-lt envelope) hn hl in
      let same : fresh ≡ packet = ok-injective made in
      let read : decode digests (bytes ++ rest) limits ≡ ok fresh =
        decode_packet-encode_packet digests fresh limits bytes rest w (fresh-IsEnvelope hi hp ha hk)
          hm written in
      (
        bytes,
        (
          ap (λ p. encode digests p limits) (sym same) ∙ written,
          (read ∙ ap ok same, ap (λ p. p.body) (sym same)),
        ),
      )
    where
      ok-injective :
          {x y : GenericPacket} → ◌≡◌ {A = PacketResult GenericPacket} (ok x) (ok y) → x ≡ y
      ok-injective e = cc
