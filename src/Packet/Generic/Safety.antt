-- ===== src/Packet/Generic/Safety.antt =====
-- What holds of a packet that `GenericPacket::decode` of packet.rs accepts.
use steganographer.Common.{◌/◌, ◌%◌, ◌^◌, ◌≤◌, ◌≡◌, true, length}
use steganographer.Packet.Types.{DecodeLimits, Locator, GenericPacket}
use steganographer.Packet.Envelope.Accepted.{Bounded}
use steganographer.Packet.Generic.Flags.{Agrees}
use steganographer.Packet.Envelope.Decode
use steganographer.Packet.Generic.{Digests, verify_digest}

-- What `decode` has established of the packet it returns.
pub record Sound (digests : Digests) (limits : DecodeLimits) (p : GenericPacket) : Type 0 where
  pub envelope_bounded : Bounded limits p.envelope
  pub flags_known : p.locator.flags / 2 ^ 5 % 2 ^ 11 ≡ 0
  pub flags_agree : Agrees p.locator.flags p.envelope.transforms
  pub body_length : length p.body ≡ p.locator.encoded_body_len
  pub body_bound : length p.body ≤ limits.max_body_len
  pub untransformed :
      length p.envelope.transforms ≡ 0
      → (p.envelope.original_len ≡ length p.body)
        × (verify_digest digests p.envelope.content_digest p.body ≡ true)
