-- ===== src/Packet/Generic/Limits.antt =====
-- The decode limits refuse packets; they never change what is decoded.
use steganographer.Common.{
  ℕ, zero, suc, ◌+◌, ◌≡◌, ap, arith, List, [], ◌∷◌, Bool, ok, ensure, ◌>>=◌, >>-eq-ok, >>=-eq-ok,
  length, drop, take, slice, leb,
}
use steganographer.Packet.Types.{
  PacketResult, DecodeLimits, PacketEnvelope, Locator, GenericPacket, What, Reason, check_limit,
  locator_size, tlv_header_size, truncated, invalid_field,
}
use steganographer.Packet.Envelope.{validate_envelope}
use steganographer.Packet.Locator
use steganographer.Packet.Locator.{packet_len, check_fields, read_fields}
use steganographer.Packet.Envelope.Decode
use steganographer.Packet.Envelope.Decode.{
  Partial, Header, on_packet_id, on_payload_kind, on_original_length, on_content_digest,
  on_transform, on_placement, on_kernel, on_created_version, on_mime_type, on_filename,
  on_created_at, on_parent_id, on_extension, on_unknown, decode_field, empty, read_header,
  critical_ok, check_header, round, decode_loop, finish,
}
use steganographer.Packet.Generic.{Digests, decode_packet_envelope, decode_body, decode}

-- Two computations that give the same value whenever both succeed.
abbrev pub Agree : {A : Type 0} → PacketResult A → PacketResult A → Type 0
Agree {A = A} r s = (a b : A) → r ≡ ok a → s ≡ ok b → a ≡ b

-- A packet's envelope is what its envelope bytes decode to.
pub decode_packet_envelope-decode :
    (input : List ℕ) (locator : Locator) (limits : DecodeLimits) (e : PacketEnvelope)
    → decode_packet_envelope input locator limits ≡ ok e
    → Decode.decode (slice input locator_size (locator_size + locator.envelope_len)) limits ≡ ok e
unfolding decode_packet_envelope
decode_packet_envelope-decode input locator limits e h = ground arith

module _ (l m : DecodeLimits) where
  packet_id-Agree :
      (critical : Bool) (id : ℕ) (value : List ℕ) (p : Partial)
      → Agree (on_packet_id l critical id value p) (on_packet_id m critical id value p)
  unfolding on_packet_id
  packet_id-Agree critical id value p a b h k = ground arith

  payload_kind-Agree :
      (critical : Bool) (id : ℕ) (value : List ℕ) (p : Partial)
      → Agree (on_payload_kind l critical id value p) (on_payload_kind m critical id value p)
  unfolding on_payload_kind
  payload_kind-Agree critical id value p a b h k = ground arith

  original_length-Agree :
      (critical : Bool) (id : ℕ) (value : List ℕ) (p : Partial)
      → Agree (on_original_length l critical id value p) (on_original_length m critical id value p)
  unfolding on_original_length
  original_length-Agree critical id value p a b h k = ground arith

  content_digest-Agree :
      (critical : Bool) (id : ℕ) (value : List ℕ) (p : Partial)
      → Agree (on_content_digest l critical id value p) (on_content_digest m critical id value p)
  unfolding on_content_digest
  content_digest-Agree critical id value p a b h k = ground arith

  transform-Agree :
      (critical : Bool) (id : ℕ) (value : List ℕ) (p : Partial)
      → Agree (on_transform l critical id value p) (on_transform m critical id value p)
  unfolding on_transform
  transform-Agree critical id value p a b h k = ground arith

  placement-Agree :
      (critical : Bool) (id : ℕ) (value : List ℕ) (p : Partial)
      → Agree (on_placement l critical id value p) (on_placement m critical id value p)
  unfolding on_placement
  placement-Agree critical id value p a b h k = ground arith

  kernel-Agree :
      (critical : Bool) (id : ℕ) (value : List ℕ) (p : Partial)
      → Agree (on_kernel l critical id value p) (on_kernel m critical id value p)
  unfolding on_kernel
  kernel-Agree critical id value p a b h k = ground arith

  created_version-Agree :
      (critical : Bool) (id : ℕ) (value : List ℕ) (p : Partial)
      → Agree (on_created_version l critical id value p) (on_created_version m critical id value p)
  unfolding on_created_version
  created_version-Agree critical id value p a b h k = ground arith

  mime_type-Agree :
      (critical : Bool) (id : ℕ) (value : List ℕ) (p : Partial)
      → Agree (on_mime_type l critical id value p) (on_mime_type m critical id value p)
  unfolding on_mime_type
  mime_type-Agree critical id value p a b h k = ground arith

  filename-Agree :
      (critical : Bool) (id : ℕ) (value : List ℕ) (p : Partial)
      → Agree (on_filename l critical id value p) (on_filename m critical id value p)
  unfolding on_filename
  filename-Agree critical id value p a b h k = ground arith

  created_at-Agree :
      (critical : Bool) (id : ℕ) (value : List ℕ) (p : Partial)
      → Agree (on_created_at l critical id value p) (on_created_at m critical id value p)
  unfolding on_created_at
  created_at-Agree critical id value p a b h k = ground arith

  parent_id-Agree :
      (critical : Bool) (id : ℕ) (value : List ℕ) (p : Partial)
      → Agree (on_parent_id l critical id value p) (on_parent_id m critical id value p)
  unfolding on_parent_id
  parent_id-Agree critical id value p a b h k = ground arith

  extension-Agree :
      (critical : Bool) (id : ℕ) (value : List ℕ) (p : Partial)
      → Agree (on_extension l critical id value p) (on_extension m critical id value p)
  unfolding on_extension
  extension-Agree critical id value p a b h k = ground arith

  unknown-Agree :
      (critical : Bool) (id : ℕ) (value : List ℕ) (p : Partial)
      → Agree (on_unknown l critical id value p) (on_unknown m critical id value p)
  unfolding on_unknown
  unknown-Agree critical id value p a b h k = ground arith

  field-Agree :
      (critical : Bool) (id : ℕ) (value : List ℕ) (p : Partial)
      → Agree (decode_field l critical id value p) (decode_field m critical id value p)
  unfolding decode_field
  field-Agree critical id value p a b h k = ground (
    arith,
    packet_id-Agree critical id value p a b,
    payload_kind-Agree critical id value p a b,
    original_length-Agree critical id value p a b,
    content_digest-Agree critical id value p a b,
    transform-Agree critical id value p a b,
    placement-Agree critical id value p a b,
    kernel-Agree critical id value p a b,
    created_version-Agree critical id value p a b,
    mime_type-Agree critical id value p a b,
    filename-Agree critical id value p a b,
    created_at-Agree critical id value p a b,
    parent_id-Agree critical id value p a b,
    extension-Agree critical id value p a b,
    unknown-Agree critical id value p a b,
  )

  header-Agree :
      (total cursor previous : ℕ) (h : Header)
      → Agree (check_header l total cursor previous h) (check_header m total cursor previous h)
  unfolding check_header
  header-Agree total cursor previous h a b u v = ground arith

  round-Agree :
      (total : ℕ) (next next' : ℕ → ℕ → ℕ → List ℕ → Partial → PacketResult Partial)
      → ((end count previous : ℕ) (rest : List ℕ) (p : Partial)
          → Agree (next end count previous rest p) (next' end count previous rest p))
      → (cursor count previous : ℕ) (h : Header) (body : List ℕ) (p : Partial)
      → Agree
          (round l total next cursor count previous h body p)
          (round m total next' cursor count previous h body p)
  unfolding round
  round-Agree total next next' agree cursor count previous h body p a b u v =
      let (e, u1, u2) = >>=-eq-ok (check_header l total cursor previous h) _ u in
      let (e', v1, v2) = >>=-eq-ok (check_header m total cursor previous h) _ v in
      let (_, u3) =
        >>-eq-ok
          (ensure (critical_ok h.id h.critical)
            (invalid_field h.id Reason.noncanonical_critical_bit))
          _ u2 in
      let (_, v3) =
        >>-eq-ok
          (ensure (critical_ok h.id h.critical)
            (invalid_field h.id Reason.noncanonical_critical_bit))
          _ v2 in
      let (q, u4, u5) = >>=-eq-ok (decode_field l h.critical h.id (take h.len body) p) _ u3 in
      let (q', v4, v5) = >>=-eq-ok (decode_field m h.critical h.id (take h.len body) p) _ v3 in
      let same_end : e ≡ e' = header-Agree total cursor previous h e e' u1 v1 in
      let same_fields : q ≡ q' = field-Agree h.critical h.id (take h.len body) p q q' u4 v4 in
      agree e (count + 1) h.id (drop h.len body) q a b u5 (rw (same_end, same_fields) v5)

  loop-Agree :
      (total fuel cursor count previous : ℕ) (rest : List ℕ) (p : Partial)
      → Agree
          (decode_loop l total fuel cursor count previous rest p)
          (decode_loop m total fuel cursor count previous rest p)
  unfolding decode_loop
  loop-Agree total zero cursor count previous [] p a b h k = cc
  loop-Agree total (suc fuel) cursor count previous [] p a b h k = cc
  loop-Agree total zero cursor count previous (x ∷ xs) p a b h k = cc
  loop-Agree total (suc fuel) cursor count previous (x ∷ xs) p a b h k =
      let (_, h1) = >>-eq-ok (check_limit What.envelope_field_count (count + 1) l.max_fields) _ h in
      let (_, k1) = >>-eq-ok (check_limit What.envelope_field_count (count + 1) m.max_fields) _ k in
      let long =
        ensure (leb tlv_header_size (length (x ∷ xs)))
          (truncated (cursor + tlv_header_size) total) in
      let (_, h2) = >>-eq-ok long _ h1 in
      let (_, k2) = >>-eq-ok long _ k1 in
      round-Agree total (decode_loop l total fuel) (decode_loop m total fuel)
        (loop-Agree total fuel) cursor count previous (read_header (x ∷ xs))
        (drop tlv_header_size (x ∷ xs)) p a b h2 k2

  envelope-Agree : (input : List ℕ) → Agree (Decode.decode input l) (Decode.decode input m)
  unfolding Decode.decode
  envelope-Agree input a b h k =
      let (_, h1) = >>-eq-ok (check_limit What.envelope (length input) l.max_envelope_len) _ h in
      let (_, k1) = >>-eq-ok (check_limit What.envelope (length input) m.max_envelope_len) _ k in
      let (p, h2, h3) =
        >>=-eq-ok (decode_loop l (length input) (length input) 0 0 0 input empty) _ h1 in
      let (q, k2, k3) =
        >>=-eq-ok (decode_loop m (length input) (length input) 0 0 0 input empty) _ k1 in
      let same : p ≡ q = loop-Agree (length input) (length input) 0 0 0 input empty p q h2 k2 in
      let (e, h4, h5) = >>=-eq-ok (finish p) _ h3 in
      let (e', k4, k5) = >>=-eq-ok (finish q) _ k3 in
      let (_, h6) = >>-eq-ok (validate_envelope e l) (ok e) h5 in
      let (_, k6) = >>-eq-ok (validate_envelope e' m) (ok e') k5 in
      let again : finish p ≡ finish q = ap finish same in cc

  pub locator-Agree :
      (input : List ℕ) → Agree (Locator.from_bytes input l) (Locator.from_bytes input m)
  unfolding Locator.from_bytes check_fields
  locator-Agree input a b h k = ground arith

  pub packet_envelope-Agree :
      (input : List ℕ) (locator : Locator)
      → Agree (decode_packet_envelope input locator l) (decode_packet_envelope input locator m)
  packet_envelope-Agree input locator a b h k =
      envelope-Agree (slice input locator_size (locator_size + locator.envelope_len)) a b
        (decode_packet_envelope-decode input locator l a h)
        (decode_packet_envelope-decode input locator m b k)

-- Under two sets of limits, `decode` of the same bytes gives the same packet whenever both
-- accept the bytes.
pub decode-limits_agree :
    (digests : Digests) (input : List ℕ) (l m : DecodeLimits) (p q : GenericPacket)
    → decode digests input l ≡ ok p
    → decode digests input m ≡ ok q
    → p ≡ q
unfolding decode
decode-limits_agree digests input l m p q h k =
    let (x, h1, h2) = >>=-eq-ok (Locator.from_bytes input l) _ h in
    let (y, k1, k2) = >>=-eq-ok (Locator.from_bytes input m) _ k in
    let same : x ≡ y = locator-Agree l m input x y h1 k1 in
    let shared : (decode_packet_envelope input x m >>= decode_body digests input x) ≡ ok q =
      rw same k2 in
    let (e, h3, h4) =
      >>=-eq-ok (decode_packet_envelope input x l) (decode_body digests input x) h2 in
    let (f, k3, k4) =
      >>=-eq-ok (decode_packet_envelope input x m) (decode_body digests input x) shared in
    let agree : e ≡ f = packet_envelope-Agree l m input x e f h3 k3 in
    let again : decode_body digests input x e ≡ decode_body digests input x f =
      ap (decode_body digests input x) agree in
    cc
