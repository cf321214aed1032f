-- ===== src/Carrier/Embed/Keyed/Placed.antt =====
-- What an embedding of the keyed and the interleaved kernels of carrier.rs has checked and written.
use steganographer.Common.{
  ℕ, ◌+◌, ◌-◌, ◌*◌, ◌/◌, ◌<◌, ◌≤◌, ◌≡◌, refl, sym, ap, ◌∙◌, List, length, arith, ok, err, Result,
  >>=-eq-ok, >>-eq-ok, ensure, leb, not, ◌&&◌, Bool, ◌==◌, true, false, none, ◌>>◌,
}
use steganographer.Packet.Types.{PacketEnvelope, Locator, PacketResult, usize_max}
use steganographer.Packet.Generic.{Digests, validate_encoded_packet}
use steganographer.Carrier.{
  CarrierError, div_ceil, new_config, tag_units, capacity_overflow, insufficient_capacity,
}
use steganographer.Carrier.Spatial.{write_units, write_bits_sequential, saturating_mul}
use steganographer.Carrier.Embed.{
  Embedded, from_packet, declares, flag_ok, validate_embed_descriptor,
}
use steganographer.Carrier.Embed.Keyed.{KeyedLsbKeys, recognition_tag, embed_scheduled}

new_config-parts : (bits b : ℕ) → new_config bits ≡ ok b → (bits ≡ b) × ((1 ≤ bits) × (bits ≤ 4))
unfolding new_config
new_config-parts bits b h = (ground arith, (ground arith, ground arith))

from_packet-ok : {A : Type 0} (r : PacketResult A) (a : A) → from_packet r ≡ ok a → r ≡ ok a
from_packet-ok (ok x) a h = ground arith
from_packet-ok (err e) a h = cc

and_ensured : (a : Bool) (e : CarrierError) → ensure (a && true) e ≡ ok tt → a ≡ true
and_ensured true e h = refl
and_ensured false e h = cc

pub le→leb : (a b : ℕ) → a ≤ b → leb a b ≡ true
le→leb a b h = ground arith

pub pos→nonzero : (a : ℕ) → 0 < a → (a == 0) ≡ false
pos→nonzero a h = ground arith

leb_ensured : (a b : ℕ) (e : CarrierError) → ensure (leb a b) e ≡ ok tt → a ≤ b
leb_ensured a b e h = ground arith

nonzero_ensured : (a : ℕ) (e : CarrierError) → ensure (not (a == 0)) e ≡ ok tt → 0 < a
nonzero_ensured a e h = ground arith

module _ (digests : Digests) (keyed_blake3 : List ℕ → List ℕ → List ℕ) (keys : KeyedLsbKeys)
    (schedule : ℕ → ℕ → ℕ) (placement : ℕ) (carrier : List ℕ) (stride : ℕ) (packet : List ℕ)
    (bits : ℕ) (out : Embedded) where
  abbrev pub units : ℕ
  units = length carrier / stride

  abbrev pub tag : List ℕ
  tag = recognition_tag digests keyed_blake3 keys units bits

  abbrev pub embedded : List ℕ
  embedded =
      write_units packet (length packet * 8) bits
        (λ u. (tag_units bits + schedule (units - tag_units bits) u) * stride)
        (div_ceil (length packet * 8) bits) 0 0 (write_bits_sequential carrier stride tag bits)

  -- What a successful embedding has checked and written.
  pub record Placed : Type 0 where
    pub locator : Locator
    pub envelope : PacketEnvelope
    pub validated : validate_encoded_packet digests packet ≡ ok (locator, envelope)
    pub declared : declares envelope placement bits false ≡ true
    pub configured : new_config bits ≡ ok bits
    pub positive : 1 ≤ bits
    pub small : bits ≤ 4
    pub tag_room : tag_units bits ≤ units
    pub body : 0 < units - tag_units bits
    pub counted : length packet * 8 ≤ usize_max
    pub room : div_ceil (length packet * 8) bits ≤ units - tag_units bits
    pub written : out.carrier ≡ embedded
    pub modified : out.report.modified_units ≡ tag_units bits + div_ceil (length packet * 8) bits

  abbrev after_descriptor : Result CarrierError Embedded
  after_descriptor =
      ensure (leb (tag_units bits) units)
        (insufficient_capacity 64 (saturating_mul units bits) (tag_units bits) units bits)
      >> (ensure (not (units - tag_units bits == 0)) (
            insufficient_capacity (64 + bits) (saturating_mul units bits) (tag_units bits + 1) units
              bits)
          >> (ensure (leb (length packet * 8) usize_max) capacity_overflow
              >> (ensure (leb (div_ceil (length packet * 8) bits) (units - tag_units bits)) (
                    insufficient_capacity (length packet * 8)
                      (saturating_mul (units - tag_units bits) bits)
                      (div_ceil (length packet * 8) bits) (units - tag_units bits) bits)
                  >> ok (record {
                    carrier = embedded;
                    report = record {
                      packet_bytes = length packet;
                      modified_units = tag_units bits + div_ceil (length packet * 8) bits;
                      remaining_capacity_bytes =
                          saturating_mul (units - tag_units bits) bits / 8 - length packet;
                    };
                  }))))

  after_descriptor-parts :
      after_descriptor ≡ ok out
      → (tag_units bits ≤ units)
        × ((0 < units - tag_units bits)
            × ((length packet * 8 ≤ usize_max)
                × ((div_ceil (length packet * 8) bits ≤ units - tag_units bits)
                    × ((out.carrier ≡ embedded)
                        × (out.report.modified_units
                            ≡ tag_units bits + div_ceil (length packet * 8) bits)))))
  after_descriptor-parts h =
      let (c1, h1) = >>-eq-ok (ensure (leb (tag_units bits) units) _) _ h in
      let (c2, h2) = >>-eq-ok (ensure (not (units - tag_units bits == 0)) _) _ h1 in
      let (c3, h3) = >>-eq-ok (ensure (leb (length packet * 8) usize_max) _) _ h2 in
      let (c4, h4) =
        >>-eq-ok (ensure (leb (div_ceil (length packet * 8) bits) (units - tag_units bits)) _) _
          h3 in
      (
        leb_ensured _ _ _ c1,
        (
          nonzero_ensured _ _ c2,
          (leb_ensured _ _ _ c3, (leb_ensured _ _ _ c4, (ground arith, ground arith))),
        ),
      )

  pub embed_scheduled-Placed :
      embed_scheduled digests keyed_blake3 keys schedule placement carrier stride packet bits
        ≡ ok out
      → Placed
  unfolding embed_scheduled validate_embed_descriptor flag_ok
  embed_scheduled-Placed h =
      let (b, h1, _) = >>=-eq-ok (new_config bits) _ h in
      let (same, (positive, small)) = new_config-parts bits b h1 in
      let configured : new_config bits ≡ ok bits = h1 ∙ ap ok (sym same) in
      let h2 : (validate_embed_descriptor digests packet bits placement false none
            >> after_descriptor)
          ≡ ok out =
        rw configured at h in
      let (h3, h4) =
        >>-eq-ok (validate_embed_descriptor digests packet bits placement false none)
          after_descriptor h2 in
      let (le, v1, v2) = >>=-eq-ok (from_packet (validate_encoded_packet digests packet)) _ h3 in
      let (tag_room, (body, (counted, (room, (written, modified))))) = after_descriptor-parts h4 in
      record {
        locator = le.0;
        envelope = le.1;
        validated = from_packet-ok _ _ v1;
        declared = and_ensured (declares le.1 placement bits false) _ v2;
        configured = configured;
        positive = positive;
        small = small;
        tag_room = tag_room;
        body = body;
        counted = counted;
        room = room;
        written = written;
        modified = modified;
      }
