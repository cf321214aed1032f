-- ===== src/Carrier/Embed/Locate.antt =====
-- Before the packet, extraction in carrier.rs reads the bytes of its locator: they decode to the
-- packet's locator, and the envelope under it is the one that embedding has validated.
use steganographer.Common.{
  ℕ, zero, suc, ◌+◌, ◌≤◌, ◌≡◌, refl, sym, ap, ◌∙◌, List, [], ◌∷◌, length, take, drop, slice,
  get_or-take, length-take, arith, ok, >>=-eq-ok, >>-eq-ok, ensure, ◌>>◌, leb, bytes_eq, true,
}
use steganographer.Packet.Types.{
  DecodeLimits, GenericPacket, PacketEnvelope, Locator, PacketResult, locator_size, packet_magic,
  invalid_magic,
}
use steganographer.Packet.Locator.{read_fields, check_fields, from_bytes, packet_len}
use steganographer.Packet.Generic.{
  Digests, decode_packet_envelope, validate_untransformed_body, validate_encoded_packet,
  decode_body, decode, own_limits,
}
use steganographer.Packet.Generic.Limits.{locator-Agree, packet_envelope-Agree}

module _ {ℓ} {A : Type ℓ} where
  take-take : (m n : ℕ) (xs : List A) → m ≤ n → take m (take n xs) ≡ take m xs
  take-take zero n xs h = refl
  take-take (suc m) zero xs h = absurd (omega arith)
  take-take (suc m) (suc n) [] h = refl
  take-take (suc m) (suc n) (x ∷ xs) h = ap (λ t. x ∷ t) (take-take m n xs (omega arith))

  slice-take :
      (n lo m : ℕ) (xs : List A) → lo + m ≤ n → take m (drop lo (take n xs)) ≡ take m (drop lo xs)
  slice-take n zero m xs h = take-take m n xs (omega arith)
  slice-take zero (suc lo) m xs h = absurd (omega arith)
  slice-take (suc n) (suc lo) m [] h = refl
  slice-take (suc n) (suc lo) m (x ∷ xs) h = slice-take n lo m xs (omega arith)

read_fields-take : (packet : List ℕ) → read_fields (take 32 packet) ≡ read_fields packet
unfolding read_fields
read_fields-take packet =
    rw
      (
        get_or-take 32 4 packet 0 (omega arith),
        get_or-take 32 5 packet 0 (omega arith),
        slice-take 32 6 2 packet (omega arith),
        slice-take 32 8 4 packet (omega arith),
        slice-take 32 12 8 packet (omega arith),
        slice-take 32 20 4 packet (omega arith),
        slice-take 32 24 8 packet (omega arith),
      )
      refl

-- The locator is read from the first 32 bytes.
pub from_bytes-take :
    (packet : List ℕ) (limits : DecodeLimits)
    → 32 ≤ length packet
    → from_bytes (take 32 packet) limits ≡ from_bytes packet limits
unfolding from_bytes
from_bytes-take packet limits h =
    let short : leb locator_size (length (take 32 packet)) ≡ true =
      ground (arith, length-take 32 packet) in
    let long : leb locator_size (length packet) ≡ true = ground arith in
    rw (short, long, take-take 4 32 packet (omega arith))
      (ap
        (λ (f : Locator).
          ensure (bytes_eq (take 4 packet) packet_magic) invalid_magic >> check_fields f limits)
        (read_fields-take packet))

-- What a successful `decode` has read.
pub decode-parts :
    (digests : Digests) (input : List ℕ) (limits : DecodeLimits) (p : GenericPacket)
    → decode digests input limits ≡ ok p
    → (from_bytes input limits ≡ ok p.locator)
      × (decode_packet_envelope input p.locator limits ≡ ok p.envelope)
unfolding decode decode_body
decode-parts digests input limits p h = ground arith

-- A packet that `decode` accepts and `validate_encoded_packet` too has one locator and envelope.
pub validate_encoded_packet-decode :
    (digests : Digests) (input : List ℕ) (limits : DecodeLimits) (p : GenericPacket) (l : Locator)
    (e : PacketEnvelope)
    → decode digests input limits ≡ ok p
    → validate_encoded_packet digests input ≡ ok (l, e)
    → (l ≡ p.locator) × (e ≡ p.envelope)
unfolding validate_encoded_packet
validate_encoded_packet-decode digests input limits p l e h v =
    let (located, enveloped) = decode-parts digests input limits p h in
    let own = own_limits input in
    let (l', v1, v2) = >>=-eq-ok (from_bytes input own) _ v in
    let (e', v3, v4) = >>=-eq-ok (decode_packet_envelope input l' own) _ v2 in
    let (len, v5, v6) = >>=-eq-ok (packet_len l') _ v4 in
    let (_, v7) =
      >>-eq-ok
        (validate_untransformed_body digests e' (slice input (locator_size + l'.envelope_len) len))
        (ok (l', e')) v6 in
    let (same_l, same_e) = pair-injective l' l e' e v7 in
    let one : l' ≡ p.locator = locator-Agree own limits input l' p.locator v1 located in
    let enveloped' : decode_packet_envelope input l' limits ≡ ok p.envelope =
      ap (λ (t : Locator). decode_packet_envelope input t limits) one ∙ enveloped in
    (
      sym same_l ∙ one,
      sym same_e ∙ packet_envelope-Agree own limits input l' e' p.envelope v3 enveloped',
    )
  where
    pair-injective :
        (x y : Locator) (u v : PacketEnvelope)
        → ◌≡◌ {A = PacketResult (Locator × PacketEnvelope)} (ok (x, u)) (ok (y, v))
        → (x ≡ y) × (u ≡ v)
    pair-injective x y u v q = (cc, cc)

-- A packet that `decode` accepts under the limits of its own length is valid for embedding.
pub validate_encoded_packet_own :
    (digests : Digests) (input : List ℕ) (p : GenericPacket)
    → decode digests input (own_limits input) ≡ ok p
    → validate_encoded_packet digests input ≡ ok (p.locator, p.envelope)
unfolding decode decode_body validate_encoded_packet
validate_encoded_packet_own digests input p h = ground arith
