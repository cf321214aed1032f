-- ===== src/Crypto.antt =====
-- steganographer-core/src/crypto.rs: the signed payload, frame hashing, signing and verification,
-- hexadecimal text. BLAKE3, SHA-256, SHA-3 and Ed25519 are third-party code and parameters here.
pub mod Payload
pub mod Hex
pub mod Binding
use steganographer.Common.{
  ℕ, ◌+◌, ◌-◌, ◌*◌, ◌/◌, ◌%◌, List, [], ◌∷◌, ◌++◌, Option, some, none, Bool, true, false, leb, ◌==◌,
  not, ◌&&◌, if◌then◌else◌, length, get_or, take, slice, bytes_eq, bit_or, Result, ok, err, ensure,
  ◌>>=◌, ◌>>◌,
}
use steganographer.Common.Bytes.{to_le_bytes, from_le_bytes}

-- The bytes of "STEG".
abbrev pub magic : List ℕ
magic = b'S' ∷ b'T' ∷ b'E' ∷ b'G' ∷ []

abbrev pub format_version : ℕ
format_version = 4

-- `SignaturePayload::SERIALIZED_SIZE`
abbrev pub serialized_size : ℕ
serialized_size = 4 + 1 + 8 + 32 + 64

pub data CryptoError : Type 0 where
  invalid_magic_header unsupported_payload_version : CryptoError
  odd_hex_length invalid_hex_character hex_array_length : CryptoError

-- A signature is its sixty-four bytes.
pub record SignaturePayload : Type 0 where
  pub frame_index : ℕ
  pub hash : List ℕ
  pub signature : List ℕ

unfoldable pub to_bytes : SignaturePayload → List ℕ
to_bytes p =
    magic ++ ((format_version ∷ []) ++ (to_le_bytes 8 p.frame_index ++ (p.hash ++ p.signature)))

-- The argument is an array of `serialized_size` bytes.
unfoldable pub from_bytes : List ℕ → Result CryptoError SignaturePayload
from_bytes buf = do
  ensure (bytes_eq (take 4 buf) magic) invalid_magic_header
  ensure (get_or buf 4 0 == format_version) unsupported_payload_version
  ok (record {
    frame_index = from_le_bytes (slice buf 5 13);
    hash = slice buf 13 45;
    signature = slice buf 45 109;
  })

unfoldable pub has_valid_magic : List ℕ → Bool
has_valid_magic buf =
    leb 5 (length buf) && (bytes_eq (take 4 buf) magic && get_or buf 4 0 == format_version)

pub data HashAlgorithm : Type 0 where
  blake3 sha256 sha3_256 : HashAlgorithm

-- `u8::from(audio_bytes.is_some())`
abbrev pub audio_present : Option (List ℕ) → ℕ
audio_present none = 0
audio_present (some audio) = 1

-- `audio_bytes.unwrap_or_default()`
abbrev pub audio_or_default : Option (List ℕ) → List ℕ
audio_or_default none = []
audio_or_default (some audio) = audio

-- The bytes of "steganographer-frame-v4\0".
abbrev pub frame_domain : List ℕ
frame_domain =
    b's' ∷ b't' ∷ b'e' ∷ b'g' ∷ b'a' ∷ b'n' ∷ b'o' ∷ b'g' ∷ b'r' ∷ b'a' ∷ b'p' ∷ b'h' ∷ b'e' ∷ b'r'
    ∷ b'-' ∷ b'f' ∷ b'r' ∷ b'a' ∷ b'm' ∷ b'e' ∷ b'-' ∷ b'v' ∷ b'4' ∷ 0 ∷ []

-- The bytes of "\0end".
abbrev pub frame_end : List ℕ
frame_end = 0 ∷ b'e' ∷ b'n' ∷ b'd' ∷ []

-- The concatenation of `parts`, which every hasher is updated with.
unfoldable pub frame_parts : ℕ → List ℕ → Option (List ℕ) → List ℕ
frame_parts frame_index video_bytes audio_bytes =
    frame_domain
    ++ (to_le_bytes 8 frame_index
        ++ (to_le_bytes 8 (length video_bytes)
            ++ (video_bytes
                ++ ((audio_present audio_bytes ∷ [])
                    ++ (to_le_bytes 8 (length (audio_or_default audio_bytes))
                        ++ (audio_or_default audio_bytes ++ frame_end))))))

-- The third-party primitives.
pub record Primitives : Type 0 where
  pub blake3_hash : List ℕ → List ℕ
  pub sha256_hash : List ℕ → List ℕ
  pub sha3_256_hash : List ℕ → List ℕ
  pub ed25519_verifying_key : List ℕ → List ℕ
  pub ed25519_sign : List ℕ → List ℕ → List ℕ
  pub ed25519_verify_strict : List ℕ → List ℕ → List ℕ → Bool

-- A `Signer`: its signing key and hash algorithm.
pub record Signer : Type 0 where
  pub signing_key : List ℕ
  pub hash_algorithm : HashAlgorithm

pub record Verifier : Type 0 where
  pub verifying_key : List ℕ
  pub hash_algorithm : HashAlgorithm

module _ (prim : Primitives) where
  -- `HashAlgorithm::hash`
  unfoldable pub hash : HashAlgorithm → ℕ → List ℕ → Option (List ℕ) → List ℕ
  hash blake3 frame_index video audio = prim.blake3_hash (frame_parts frame_index video audio)
  hash sha256 frame_index video audio = prim.sha256_hash (frame_parts frame_index video audio)
  hash sha3_256 frame_index video audio = prim.sha3_256_hash (frame_parts frame_index video audio)

  unfoldable pub sign_frame : Signer → ℕ → List ℕ → Option (List ℕ) → SignaturePayload
  sign_frame signer frame_index video audio = record {
    frame_index = frame_index;
    hash = hash signer.hash_algorithm frame_index video audio;
    signature =
        prim.ed25519_sign signer.signing_key (hash signer.hash_algorithm frame_index video audio);
  }

  unfoldable pub verify : Verifier → SignaturePayload → List ℕ → Option (List ℕ) → Bool
  verify verifier payload video audio =
      if bytes_eq (hash verifier.hash_algorithm payload.frame_index video audio) payload.hash
      then prim.ed25519_verify_strict verifier.verifying_key
          (hash verifier.hash_algorithm payload.frame_index video audio) payload.signature
      else false

unfoldable pub hex_nibble : ℕ → Option ℕ
hex_nibble byte =
    if leb b'0' byte && leb byte b'9'
    then some (byte - b'0')
    else if leb b'a' byte && leb byte b'f'
    then some (byte - b'a' + 10)
    else if leb b'A' byte && leb byte b'F'
    then some (byte - b'A' + 10)
    else none

abbrev cons_some : Option ℕ → Option (List ℕ) → Option (List ℕ)
cons_some none ns = none
cons_some (some n) none = none
cons_some (some n) (some ns) = some (n ∷ ns)

-- The nibbles of the text, where every byte is a digit.
unfoldable pub hex_nibbles : List ℕ → Option (List ℕ)
hex_nibbles [] = some []
hex_nibbles (b ∷ bs) = cons_some (hex_nibble b) (hex_nibbles bs)

-- `(high << 4) | low` for each pair.
unfoldable pub join_nibbles : List ℕ → List ℕ
join_nibbles [] = []
join_nibbles (h ∷ []) = []
join_nibbles (h ∷ l ∷ rest) = bit_or (h * 16) l ∷ join_nibbles rest

abbrev hex_digits : Option (List ℕ) → Result CryptoError (List ℕ)
hex_digits none = err invalid_hex_character
hex_digits (some ns) = ok (join_nibbles ns)

unfoldable pub decode_hex : List ℕ → Result CryptoError (List ℕ)
decode_hex hex = do ensure (length hex % 2 == 0) odd_hex_length; hex_digits (hex_nibbles hex)

unfoldable pub decode_hex_array : ℕ → List ℕ → Result CryptoError (List ℕ)
decode_hex_array n hex = do
  ensure (length hex % 2 == 0 && length hex / 2 == n) hex_array_length
  hex_digits (hex_nibbles hex)

-- `DIGITS[n]`
unfoldable pub hex_digit : ℕ → ℕ
hex_digit n = if leb n 9 then b'0' + n else b'a' + (n - 10)

unfoldable pub encode_hex : List ℕ → List ℕ
encode_hex [] = []
encode_hex (b ∷ bs) = hex_digit (b / 16) ∷ hex_digit (b % 16) ∷ encode_hex bs
