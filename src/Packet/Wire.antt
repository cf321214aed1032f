-- ===== src/Packet/Wire.antt =====
-- The pieces of an envelope's wire form: TLV fields, algorithm descriptors, UTF-8 text.
use steganographer.Common.{
  ℕ, ◌-◌, List, [], ◌∷◌, ◌++◌, Option, some, none, Bool, false, ltb, leb, ◌==◌, not, ◌&&◌, ◌||◌,
  if◌then◌else◌, length, get_or, drop, take, bit_or, ok, err, ensure, ◌>>=◌, ◌>>◌,
}
use steganographer.Common.Bytes.{to_be_bytes, from_be_bytes}
use steganographer.Packet.Types.{
  PacketResult, What, Reason, DecodeLimits, AlgorithmDescriptor, invalid_field, invalid_utf8,
  check_limit, to_u32, duplicate_field, field_id_mask, field_critical,
}

-- `set_once`: a singleton field may not be given twice.
unfoldable pub set_once : {A : Type 0} → Option A → ℕ → PacketResult (Unit {0})
set_once none field_id = ok tt
set_once (some a) field_id = err (duplicate_field field_id)

abbrev pub wire_id : ℕ → Bool → ℕ
wire_id field_id critical = bit_or field_id (if critical then field_critical else 0)

-- The bytes of one field: identifier, length, value.
unfoldable pub tlv : ℕ → Bool → List ℕ → List ℕ
tlv field_id critical value =
    to_be_bytes 2 (wire_id field_id critical) ++ (to_be_bytes 4 (length value) ++ value)

unfoldable pub push_tlv : List ℕ → ℕ → Bool → List ℕ → DecodeLimits → PacketResult (List ℕ)
push_tlv output field_id critical value limits = do
  ensure (not (field_id == 0 || ltb field_id_mask field_id))
      (invalid_field field_id Reason.field_id_range)
  check_limit What.envelope_field (length value) limits.max_field_len
  len ← to_u32 (length value)
  ok (output ++ tlv field_id critical value)

-- `encode_algorithm`
unfoldable pub encode_algorithm : ℕ → ℕ → List ℕ → List ℕ
encode_algorithm algorithm version parameters = to_be_bytes 2 algorithm ++ (version ∷ parameters)

unfoldable pub encode_descriptor : AlgorithmDescriptor → List ℕ
unfolding encode_algorithm
encode_descriptor d = encode_algorithm d.algorithm d.version d.parameters

unfoldable pub decode_descriptor : List ℕ → ℕ → PacketResult AlgorithmDescriptor
decode_descriptor value field_id = do
  ensure (leb 3 (length value)) (invalid_field field_id Reason.short_descriptor)
  ok (record {
    algorithm = from_be_bytes (take 2 value);
    version = get_or value 2 0;
    parameters = drop 3 value;
  })

-- A UTF-8 decoder between two bytes: how many continuation bytes are due, and the range of the next.
pub record Utf8 : Type 0 where
  pub due : ℕ
  pub lo : ℕ
  pub hi : ℕ

between : ℕ → ℕ → ℕ → Bool
between lo hi b = leb lo b && leb b hi

abbrev due : ℕ → ℕ → ℕ → Option Utf8
due n lo hi = some (record { due = n; lo = lo; hi = hi })

-- The well-formed first bytes of Unicode's table 3-7, which `str::from_utf8` accepts.
utf8_first : ℕ → Option Utf8
unfolding between
utf8_first b =
    if ltb b 0x80
    then due 0 0x80 0xbf
    else if between 0xc2 0xdf b
    then due 1 0x80 0xbf
    else if b == 0xe0
    then due 2 0xa0 0xbf
    else if b == 0xed
    then due 2 0x80 0x9f
    else if between 0xe1 0xef b
    then due 2 0x80 0xbf
    else if b == 0xf0
    then due 3 0x90 0xbf
    else if between 0xf1 0xf3 b
    then due 3 0x80 0xbf
    else if b == 0xf4
    then due 3 0x80 0x8f
    else none

utf8_step : Utf8 → ℕ → Option Utf8
unfolding between utf8_first
utf8_step s b =
    if s.due == 0
    then utf8_first b
    else if between s.lo s.hi b
    then due (s.due - 1) 0x80 0xbf
    else none

utf8_run : Utf8 → List ℕ → Bool
utf8_run s [] = s.due == 0
utf8_run s (b ∷ bs) = elim (utf8_step s b) [ none ↦ false | some s' ↦ utf8_run s' bs ]

-- `std::str::from_utf8` succeeds.
unfoldable pub is_utf8 : List ℕ → Bool
unfolding utf8_step utf8_run
is_utf8 bytes = utf8_run (record { due = 0; lo = 0x80; hi = 0xbf }) bytes

unfoldable pub decode_text : List ℕ → ℕ → PacketResult (List ℕ)
decode_text value field_id = do ensure (is_utf8 value) (invalid_utf8 field_id); ok value
