-- ===== src/Packet/Locator.antt =====
-- `Locator::new`, `to_bytes`, `from_bytes` and `packet_len` of packet.rs, with their checks.
pub mod RoundTrip
use steganographer.Common.{ℕ, ◌+◌, ◌<◌, ◌≡◌, List, [], ◌∷◌, ◌++◌, Option, some, none, Bool, bit_and}
use steganographer.Common.{
  ltb, leb, ◌==◌, not, ◌&&◌, ◌||◌, if◌then◌else◌, length, get_or, take, slice, bytes_eq,
}
use steganographer.Common.{Result, ok, err, ensure, ◌>>=◌, ◌>>◌}
use steganographer.Common.Bytes.{to_be_bytes, from_be_bytes}
use steganographer.Packet.Types.{
  PacketResult, PacketError, DecodeLimits, Locator, What, ok_or, checked_add, to_usize, to_u32,
  check_limit, packet_magic, protocol_major, protocol_minor, locator_size, known_flags, truncated,
  invalid_magic, unsupported_version, unknown_flags, length_overflow,
}

-- `flags & !KNOWN_FLAGS` on 16 bits.
abbrev pub unknown_bits : ℕ → ℕ
unknown_bits flags = bit_and flags 0xffe0

unfoldable pub validate_flags : ℕ → PacketResult (Unit {0})
validate_flags flags = ensure (unknown_bits flags == 0) (unknown_flags (unknown_bits flags))

-- `LOCATOR_SIZE.checked_add(envelope_len).and_then(|length| length.checked_add(body_len))`
abbrev pub checked_packet_len : ℕ → ℕ → Option ℕ
checked_packet_len envelope_len body_len = elim (checked_add locator_size envelope_len) [
  | none ↦ none
  | some l ↦ checked_add l body_len
]

unfoldable pub validate_lengths : ℕ → ℕ → DecodeLimits → PacketResult (Unit {0})
validate_lengths envelope_len body_len limits = do
  check_limit What.envelope envelope_len limits.max_envelope_len
  check_limit What.body body_len limits.max_body_len
  packet_len ← ok_or (checked_packet_len envelope_len body_len) length_overflow
  check_limit What.packet packet_len limits.max_packet_len

-- `u64::try_from` of a `usize`
abbrev pub to_u64 : ℕ → PacketResult ℕ
to_u64 v = to_usize v

unfoldable pub new : ℕ → ℕ → ℕ → ℕ → List ℕ → DecodeLimits → PacketResult Locator
new flags envelope_len encoded_body_len envelope_crc32c nonce limits = do
  validate_flags flags
  validate_lengths envelope_len encoded_body_len limits
  envelope_len' ← to_u32 envelope_len
  body_len ← to_u64 encoded_body_len
  ok (record {
    protocol_major = protocol_major;
    protocol_minor = protocol_minor;
    flags = flags;
    envelope_len = envelope_len';
    encoded_body_len = body_len;
    envelope_crc32c = envelope_crc32c;
    nonce = nonce;
  })

unfoldable pub to_bytes : Locator → List ℕ
to_bytes l =
    packet_magic
    ++ (l.protocol_major
        ∷ l.protocol_minor
        ∷ (to_be_bytes 2 l.flags
            ++ (to_be_bytes 4 l.envelope_len
                ++ (to_be_bytes 8 l.encoded_body_len
                    ++ (to_be_bytes 4 l.envelope_crc32c ++ l.nonce)))))

-- The 32 bytes of a locator, field by field.
unfoldable pub read_fields : List ℕ → Locator
read_fields input = record {
  protocol_major = get_or input 4 0;
  protocol_minor = get_or input 5 0;
  flags = from_be_bytes (slice input 6 8);
  envelope_len = from_be_bytes (slice input 8 12);
  encoded_body_len = from_be_bytes (slice input 12 20);
  envelope_crc32c = from_be_bytes (slice input 20 24);
  nonce = slice input 24 32;
}

-- What `from_bytes` asks of the fields, in its order.
unfoldable pub check_fields : Locator → DecodeLimits → PacketResult Locator
check_fields l limits = do
  ensure (l.protocol_major == protocol_major && leb l.protocol_minor protocol_minor)
      (unsupported_version l.protocol_major l.protocol_minor)
  validate_flags l.flags
  body_len ← to_usize l.encoded_body_len
  validate_lengths l.envelope_len body_len limits
  ok l

unfoldable pub from_bytes : List ℕ → DecodeLimits → PacketResult Locator
unfolding read_fields check_fields
from_bytes input limits = do
  ensure (leb locator_size (length input)) (truncated locator_size (length input))
  ensure (bytes_eq (take 4 input) packet_magic) invalid_magic
  check_fields (read_fields input) limits

unfoldable pub packet_len : Locator → PacketResult ℕ
packet_len l = do
  body_len ← to_usize l.encoded_body_len
  ok_or (checked_packet_len l.envelope_len body_len) length_overflow
