-- ===== src/Runs/Media.antt =====
-- Hash chains, signatures, placement and sharing on small inputs. A constant or simple function
-- stands for each third-party primitive.
use steganographer.Common.{
  ◌↔◌, ◌-◌, ◌*◌, ℕ, ◌^◌, ◌<◌, ◌≤◌, ◌≡◌, refl, List, [], ◌∷◌, ◌++◌, Option, some, true, arith,
  replicate, take, ok, ◌%◌, bytes_eq,
}
use steganographer.Common.Bytes.{to_le_bytes}
use steganographer.Crypto.{
  Primitives, Signer, SignaturePayload, sha256, sign_frame, verify, from_bytes, to_bytes,
  has_valid_magic, decode_hex, decode_hex_array, encode_hex, hex_nibbles, hex_nibble, join_nibbles,
}
use steganographer.Crypto.Payload.{IsPayload, from_bytes-to_bytes}
use steganographer.Crypto.Hex.{decode_hex-encode_hex}
use steganographer.Crypto.Binding.{verify-sign_frame, frame_parts-injective}
use steganographer.HashChain.{
  HashChain, MerkleRoot, empty_chain, with_segment_size, build_root, add_frames, verify_chain,
  merkle_loop, consecutive,
}
use steganographer.HashChain.Verify.{verify_chain-build_root, merkle_loop-enough}
use steganographer.Placement.{
  KeyedPermutation, bit_length, ceil_log2, even_bits, last_byte, try_new, feistel, feistel_inverse,
  permute, inverse_permute,
}
use steganographer.Placement.Inverse.{feistel_inverse-feistel}
use steganographer.Placement.Walk.{inverse_permute-permute}
use steganographer.Placement.Bounds.{try_new-bits}
use steganographer.Video.{
  VideoFrame, VideoFormat, bytes_per_pixel, validate_packed_layout, offset_of, byte_offset,
}
use steganographer.Video.Offsets.{byte_offset-lt-length, byte_offset-injective}
use steganographer.Carrier.{
  CarrierKind, CarrierDescriptor, div_ceil, tag_units, new_config, report_of, fits,
  sequential_capacity, keyed_capacity, constant_time_eq,
}
use steganographer.Carrier.Capacity.{sequential_capacity-fits, keyed_capacity-fits}
use steganographer.Carrier.Comparison.{constant_time_eq_iff}
use steganographer.MultiFrame.{
  Shard, xor_into, xor_all, mask_shards, check_group, first_shard, split_payload_bytes, split,
  reconstruct, reconstruct_payload_bytes,
}
use steganographer.MultiFrame.Sharing.{
  reconstruct_payload_bytes-split_payload_bytes, reconstruct-split,
}

-- A digest of thirty-two bytes.
abbrev short_digest : List ℕ → List ℕ
short_digest bytes = take 32 (bytes ++ replicate 32 0)

abbrev primitives : Primitives
primitives = record {
  blake3_hash = short_digest;
  sha256_hash = short_digest;
  sha3_256_hash = short_digest;
  ed25519_verifying_key = λ key. key;
  ed25519_sign = λ key message. replicate 64 7;
  ed25519_verify_strict = λ key message signature. true;
}

abbrev signer : Signer
signer = record { signing_key = replicate 32 1; hash_algorithm = sha256 }

verify-sign_frame_example :
    verify primitives
      (record { verifying_key = replicate 32 1; hash_algorithm = sha256 })
      (sign_frame primitives signer 5 (1 ∷ 2 ∷ []) (some (9 ∷ [])))
      (1 ∷ 2 ∷ [])
      (some (9 ∷ []))
    ≡ true
verify-sign_frame_example =
    verify-sign_frame primitives (λ key message. refl) signer 5 (1 ∷ 2 ∷ []) (some (9 ∷ []))

abbrev frame_index : ℕ
frame_index = 5

abbrev video : List ℕ
video = 1 ∷ 2 ∷ []

abbrev audio : Option (List ℕ)
audio = some (9 ∷ [])

frame_parts-injective_example : (frame_index ≡ frame_index) × ((video ≡ video) × (audio ≡ audio))
frame_parts-injective_example =
    frame_parts-injective frame_index frame_index video video audio audio (omega arith)
      (omega arith) (omega arith) (omega arith) (omega arith) (omega arith) refl

abbrev signed : SignaturePayload
signed = record { frame_index = 300; hash = replicate 32 3; signature = replicate 64 4 }

signed-IsPayload : IsPayload signed
signed-IsPayload = record { index_range = omega arith; hash_length = refl; signature_length = refl }

from_bytes-to_bytes_example :
    (from_bytes (to_bytes signed) ≡ ok signed) × (has_valid_magic (to_bytes signed) ≡ true)
from_bytes-to_bytes_example = from_bytes-to_bytes signed signed-IsPayload

decode_hex-encode_hex_example :
    (decode_hex (encode_hex (0 ∷ 171 ∷ 255 ∷ [])) ≡ ok (0 ∷ 171 ∷ 255 ∷ []))
    × (decode_hex_array 3 (encode_hex (0 ∷ 171 ∷ 255 ∷ [])) ≡ ok (0 ∷ 171 ∷ 255 ∷ []))
decode_hex-encode_hex_example =
    decode_hex-encode_hex (0 ∷ 171 ∷ 255 ∷ []) (omega arith, (omega arith, (omega arith, tt)))

-- The upper case is read as well.
decode_hex_upper : decode_hex (b'A' ∷ b'f' ∷ []) ≡ ok (175 ∷ [])
unfolding decode_hex hex_nibbles hex_nibble join_nibbles
decode_hex_upper = refl

abbrev chain : HashChain
chain = empty_chain 2

chain_made : with_segment_size 2 ≡ some chain
unfolding with_segment_size
chain_made = refl

abbrev second : List (ℕ × List ℕ)
second = (8, 6 ∷ []) ∷ []

verify_chain-build_root_example :
    (root : MerkleRoot) × (((build_root short_digest
          (add_frames short_digest chain ((7, 5 ∷ []) ∷ second))).1
        ≡ some root)
      × (verify_chain short_digest root ((7, 5 ∷ []) ∷ second) chain.prev_hash ≡ true))
unfolding empty_chain
verify_chain-build_root_example =
    verify_chain-build_root short_digest chain (7, 5 ∷ []) second refl refl (omega arith)
      (unfold consecutive in refl) (omega arith) (unfold bytes_eq in refl)

merkle_loop-enough_example :
    (root : List ℕ) × (merkle_loop short_digest 3 ((1 ∷ []) ∷ (2 ∷ []) ∷ (3 ∷ []) ∷ []) ≡ some root)
merkle_loop-enough_example =
    merkle_loop-enough short_digest 3 ((1 ∷ []) ∷ (2 ∷ []) ∷ (3 ∷ []) ∷ []) (omega arith)

abbrev keyed_digest : List ℕ → List ℕ → List ℕ
keyed_digest key bytes = short_digest (key ++ bytes)

abbrev label : List ℕ
label = b's' ∷ []

feistel_inverse-feistel_example :
    (feistel_inverse keyed_digest 4 (3 ∷ []) label (feistel keyed_digest 4 (3 ∷ []) label 9) ≡ 9)
    × ((feistel keyed_digest 4 (3 ∷ []) label (feistel_inverse keyed_digest 4 (3 ∷ []) label 9) ≡ 9)
        × ((feistel keyed_digest 4 (3 ∷ []) label 9 < 2 ^ 4)
            × (feistel_inverse keyed_digest 4 (3 ∷ []) label 9 < 2 ^ 4)))
feistel_inverse-feistel_example =
    feistel_inverse-feistel keyed_digest 4 (3 ∷ []) label 9 refl (omega arith) (omega arith)

abbrev permutation : KeyedPermutation
permutation = record { key = 3 ∷ []; label = label ++ replicate 15 0; len = 10; bits = 4 }

inverse_permute-permute_example :
    (y : ℕ) × ((permute keyed_digest permutation 6 ≡ some y)
      × ((y < 10) × (inverse_permute keyed_digest permutation y ≡ some 6)))
inverse_permute-permute_example =
    inverse_permute-permute keyed_digest permutation 6 refl (omega arith) (omega arith)
      (omega arith)

try_new-bits_example : ((0 < 10) × (10 ≤ 2 ^ 4)) × ((4 % 2 ≡ 0) × (4 ≤ 64))
unfolding try_new even_bits ceil_log2 bit_length last_byte
try_new-bits_example = try_new-bits 10 (3 ∷ []) label permutation (omega arith) refl

abbrev masks : List (List ℕ)
masks = (1 ∷ 2 ∷ []) ∷ (255 ∷ 0 ∷ []) ∷ []

abbrev shards : List Shard
shards = first_shard 40 3 (254 ∷ 11 ∷ []) ∷ mask_shards 40 3 1 masks

reconstruct_payload_bytes-split_payload_bytes_example :
    reconstruct_payload_bytes shards ≡ ok (0 ∷ 9 ∷ [])
unfolding split_payload_bytes check_group xor_all xor_into
reconstruct_payload_bytes-split_payload_bytes_example =
    reconstruct_payload_bytes-split_payload_bytes masks (0 ∷ 9 ∷ []) 3 40 shards refl
      (refl, (refl, tt)) refl

abbrev signature_masks : List (List ℕ)
signature_masks = replicate 109 77 ∷ []

abbrev signature_shards : List Shard
signature_shards =
    first_shard 40 2 (xor_into (to_bytes signed) (xor_all (replicate 109 0) signature_masks))
    ∷ mask_shards 40 2 1 signature_masks

reconstruct-split_example : reconstruct signature_shards ≡ ok signed
unfolding split check_group to_bytes to_le_bytes
reconstruct-split_example =
    reconstruct-split signature_masks signed 2 40 signature_shards signed-IsPayload refl (refl, tt)
      refl

-- Two rows of two BGRA pixels, with one byte of padding behind each row.
abbrev frame : VideoFrame
frame = record {
  width = 2;
  height = 2;
  stride = 9;
  format = VideoFormat.bgra8;
  pixels = replicate 18 0;
  frame_index = 0;
}

byte_offset-lt-length_example :
    (offset : ℕ) × ((byte_offset frame 10 ≡ some offset) × (offset < 18))
unfolding validate_packed_layout bytes_per_pixel
byte_offset-lt-length_example = byte_offset-lt-length frame 4 10 refl (omega arith)

logical : ℕ
logical = 10

byte_offset-injective_example : logical ≡ 10
unfolding validate_packed_layout bytes_per_pixel logical
byte_offset-injective_example = byte_offset-injective frame 4 logical 10 refl refl

byte_offset_known : byte_offset frame 10 ≡ some 14
unfolding byte_offset offset_of bytes_per_pixel
byte_offset_known = refl

abbrev carrier : CarrierDescriptor
carrier = record { kind = CarrierKind.rgb8; unit_count = 100 }

sequential_capacity-fits_example : div_ceil (25 * 8) 2 ≤ 100
unfolding sequential_capacity new_config report_of fits
sequential_capacity-fits_example =
    sequential_capacity-fits carrier 2 25
      (record { usable_units = 100; available_bits = 200; max_packet_bytes = 25 }) refl refl

keyed_capacity-fits_example : div_ceil (17 * 8) 2 ≤ 100 - tag_units 2
unfolding keyed_capacity new_config report_of fits tag_units
keyed_capacity-fits_example =
    keyed_capacity-fits carrier 2 17
      (record { usable_units = 68; available_bits = 136; max_packet_bytes = 17 }) refl refl

constant_time_eq_iff_example : (constant_time_eq video (1 ∷ 3 ∷ []) ≡ true) ↔ (video ≡ (1 ∷ 3 ∷ []))
constant_time_eq_iff_example = constant_time_eq_iff video (1 ∷ 3 ∷ [])
