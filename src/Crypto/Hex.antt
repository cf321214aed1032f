-- ===== src/Crypto/Hex.antt =====
-- Hexadecimal text: what `encode_hex` writes, `decode_hex` and `decode_hex_array` read back.
use steganographer.Common.{
  ℕ, ◌*◌, ◌/◌, ◌%◌, ◌<◌, ◌≡◌, refl, ap₂, List, [], ◌∷◌, some, true, ◌==◌, arith, length, All, ok,
}
use steganographer.Common.Bits.{bit_or_fields}
use steganographer.Common.Bytes.{IsByte}
use steganographer.Crypto.{
  hex_nibble, hex_nibbles, join_nibbles, hex_digit, encode_hex, decode_hex, decode_hex_array,
}

hex_nibble-hex_digit : (n : ℕ) → n < 16 → hex_nibble (hex_digit n) ≡ some n
unfolding hex_nibble hex_digit
hex_nibble-hex_digit n h = ground arith

-- The nibbles of bytes, high before low.
nibbles_of : List ℕ → List ℕ
nibbles_of [] = []
nibbles_of (b ∷ bs) = (b / 16) ∷ (b % 16) ∷ nibbles_of bs

hex_nibbles-encode_hex :
    (bs : List ℕ) → All IsByte bs → hex_nibbles (encode_hex bs) ≡ some (nibbles_of bs)
unfolding hex_nibbles encode_hex nibbles_of
hex_nibbles-encode_hex [] h = refl
hex_nibbles-encode_hex (b ∷ bs) (hb, hs) = rw (
  hex_nibble-hex_digit (b / 16) (omega arith),
  hex_nibble-hex_digit (b % 16) (omega arith),
  hex_nibbles-encode_hex bs hs,
)

join_nibbles-nibbles_of : (bs : List ℕ) → join_nibbles (nibbles_of bs) ≡ bs
unfolding join_nibbles nibbles_of
join_nibbles-nibbles_of [] = refl
join_nibbles-nibbles_of (b ∷ bs) =
    ap₂ ◌∷◌ (omega (arith, bit_or_fields 4 (b / 16) (b % 16) (omega arith)))
      (join_nibbles-nibbles_of bs)

length-encode_hex : (bs : List ℕ) → length (encode_hex bs) ≡ 2 * length bs
unfolding encode_hex
length-encode_hex [] = omega arith
length-encode_hex (b ∷ bs) = omega (arith, length-encode_hex bs)

-- Every byte string is read back from its hexadecimal text, by both decoders.
pub decode_hex-encode_hex :
    (bs : List ℕ)
    → All IsByte bs
    → (decode_hex (encode_hex bs) ≡ ok bs) × (decode_hex_array (length bs) (encode_hex bs) ≡ ok bs)
unfolding decode_hex decode_hex_array
decode_hex-encode_hex bs h =
    let even : (length (encode_hex bs) % 2 == 0) ≡ true =
      rw (length-encode_hex bs) (ground arith) in
    let half : (length (encode_hex bs) / 2 == length bs) ≡ true =
      rw (length-encode_hex bs) (ground arith) in
    (
      rw (even, hex_nibbles-encode_hex bs h, join_nibbles-nibbles_of bs),
      rw (even, half, hex_nibbles-encode_hex bs h, join_nibbles-nibbles_of bs),
    )
