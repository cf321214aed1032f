-- ===== src/Packet/Crc.antt =====
-- `crc32c`: the Castagnoli checksum of the envelope.
use steganographer.Common.{
  ℕ, zero, suc, ◌-◌, ◌/◌, ◌%◌, ◌^◌, ◌<◌, ◌≡◌, refl, List, [], ◌∷◌, bit_and, bit_xor, arith,
}

abbrev pub polynomial : ℕ
polynomial = 0x82f6_3b78

-- One round of the inner loop; `0u32.wrapping_sub(crc & 1)` is all ones or zero.
crc_bit : ℕ → ℕ
crc_bit crc = bit_xor (crc / 2) (bit_and polynomial ((2 ^ 32 - bit_and crc 1) % 2 ^ 32))

crc_bits : ℕ → ℕ → ℕ
crc_bits zero crc = crc
crc_bits (suc n) crc = crc_bits n (crc_bit crc)

crc_bytes : ℕ → List ℕ → ℕ
crc_bytes crc [] = crc
crc_bytes crc (byte ∷ input) = crc_bytes (crc_bits 8 (bit_xor crc byte)) input

-- `!0` and `!crc` on 32 bits.
unfoldable pub crc32c : List ℕ → ℕ
unfolding crc_bit crc_bits crc_bytes
crc32c input = 0xffff_ffff - crc_bytes 0xffff_ffff input

pub crc32c-lt : (input : List ℕ) → crc32c input < 2 ^ 32
unfolding crc32c
crc32c-lt input = omega arith

-- The check value of the Castagnoli polynomial, on the digits 1 to 9.
crc32c_check_value :
    crc32c (b'1' ∷ b'2' ∷ b'3' ∷ b'4' ∷ b'5' ∷ b'6' ∷ b'7' ∷ b'8' ∷ b'9' ∷ []) ≡ 0xe306_9283
unfolding crc32c
crc32c_check_value = refl
