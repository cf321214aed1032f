-- ===== src/Packet/Integer.antt =====
-- `encode_minimal_u64` and `decode_minimal_u64`: big-endian integers with no leading zero byte.
pub mod RoundTrip
use steganographer.Common.{
  ℕ, suc, ◌+◌, ◌-◌, List, [], ◌∷◌, ◌++◌, Option, some, none, Bool, ltb, ◌==◌, not, ◌&&◌, ◌||◌,
  if◌then◌else◌, length, get_or, drop, replicate, ok, err, ensure, ◌>>=◌, ◌>>◌,
}
use steganographer.Common.Bytes.{to_be_bytes, from_be_bytes}
use steganographer.Packet.Types.{PacketResult, Reason, invalid_field}

-- `bytes.iter().position(|&byte| byte != 0)`
unfoldable pub position_nonzero : List ℕ → Option ℕ
position_nonzero [] = none
position_nonzero (b ∷ bs) =
    if b == 0 then elim (position_nonzero bs) [ none ↦ none | some i ↦ some (suc i) ] else some 0

-- `bytes[first..]`, where `first` is that position, or that of the last byte.
unfoldable pub strip : List ℕ → List ℕ
unfolding position_nonzero
strip bytes = drop (elim (position_nonzero bytes) [ none ↦ length bytes - 1 | some i ↦ i ]) bytes

unfoldable pub encode_minimal_u64 : ℕ → List ℕ
encode_minimal_u64 value = strip (to_be_bytes 8 value)

-- The guard of `decode_minimal_u64`, negated.
abbrev pub is_minimal : List ℕ → Bool
is_minimal value =
    not (
      length value == 0
      || (ltb 8 (length value) || (ltb 1 (length value) && get_or value 0 0 == 0)))

unfoldable pub decode_minimal_u64 : List ℕ → ℕ → PacketResult ℕ
decode_minimal_u64 value field_id = do
  ensure (is_minimal value) (invalid_field field_id Reason.not_minimal)
  ok (from_be_bytes (replicate (8 - length value) 0 ++ value))
