-- ===== src/Packet/Ots.antt =====
-- The OpenTimestamps view of an envelope's extension fields (steganographer-core/src/packet.rs,
-- `OtsMetadata`).
pub mod RoundTrip
use steganographer.Common.{
  ℕ, ◌/◌, ◌%◌, List, [], ◌∷◌, ◌++◌, Bool, true, false, ◌==◌, ◌&&◌, if◌then◌else◌, length, Option,
  none, some,
}
use steganographer.Common.Bytes.{to_be_bytes, from_be_bytes}
use steganographer.Crypto.{hex_digit}
use steganographer.Packet.Types.{
  ExtensionField, field_ots_digest, field_ots_method, field_ots_timestamp_hex,
}

pub record OtsMetadata : Type 0 where
  pub digest : Option (List ℕ)
  pub digest_hex : Option (List ℕ)
  pub method_tag : Option ℕ
  pub timestamp : Option ℕ

-- `OtsMetadata::default`
abbrev pub default_metadata : OtsMetadata
default_metadata = record { digest = none; digest_hex = none; method_tag = none; timestamp = none }

unfoldable pub is_present : OtsMetadata → Bool
is_present meta = elim (meta.digest) [ some digest ↦ true | none ↦ false ]

unfoldable pub hex_encode_ots : List ℕ → List ℕ
hex_encode_ots [] = []
hex_encode_ots (b ∷ bs) = hex_digit (b / 16) ∷ hex_digit (b % 16) ∷ hex_encode_ots bs

-- The assignments of `OtsMetadata::from_extensions`.
abbrev pub with_digest : OtsMetadata → List ℕ → OtsMetadata
with_digest meta bytes = record {
  digest = some bytes;
  digest_hex = some (hex_encode_ots bytes);
  method_tag = meta.method_tag;
  timestamp = meta.timestamp;
}

abbrev pub with_method_tag : OtsMetadata → ℕ → OtsMetadata
with_method_tag meta tag = record {
  digest = meta.digest;
  digest_hex = meta.digest_hex;
  method_tag = some tag;
  timestamp = meta.timestamp;
}

abbrev pub with_timestamp : OtsMetadata → ℕ → OtsMetadata
with_timestamp meta seconds = record {
  digest = meta.digest;
  digest_hex = meta.digest_hex;
  method_tag = meta.method_tag;
  timestamp = some seconds;
}

-- `meta.method_tag = Some(ext.value[0])`, for a value of one byte.
abbrev pub first_byte_tag : OtsMetadata → List ℕ → OtsMetadata
first_byte_tag meta [] = meta
first_byte_tag meta (tag ∷ more) = with_method_tag meta tag

-- A round of the loop of `OtsMetadata::from_extensions`.
unfoldable pub read_extension : OtsMetadata → ExtensionField → OtsMetadata
read_extension meta ext =
    if ext.id == field_ots_digest && length (ext.value) == 32
    then with_digest meta (ext.value)
    else if ext.id == field_ots_method && length (ext.value) == 1
    then first_byte_tag meta (ext.value)
    else if ext.id == field_ots_timestamp_hex && length (ext.value) == 8
    then with_timestamp meta (from_be_bytes (ext.value))
    else meta

unfoldable pub read_extensions : OtsMetadata → List ExtensionField → OtsMetadata
read_extensions meta [] = meta
read_extensions meta (ext ∷ extensions) = read_extensions (read_extension meta ext) extensions

-- `OtsMetadata::from_extensions`
unfoldable pub from_extensions : List ExtensionField → OtsMetadata
from_extensions extensions = read_extensions default_metadata extensions

-- The field that `OtsMetadata::to_extensions` pushes for a digest, a method and a timestamp.
unfoldable pub digest_fields : Option (List ℕ) → List ExtensionField
digest_fields none = []
digest_fields (some digest) = record { id = field_ots_digest; value = digest } ∷ []

unfoldable pub method_fields : Option ℕ → List ExtensionField
method_fields none = []
method_fields (some tag) = record { id = field_ots_method; value = tag ∷ [] } ∷ []

unfoldable pub timestamp_fields : Option ℕ → List ExtensionField
timestamp_fields none = []
timestamp_fields (some seconds) =
    record { id = field_ots_timestamp_hex; value = to_be_bytes 8 seconds } ∷ []

-- `OtsMetadata::to_extensions`
unfoldable pub to_extensions : OtsMetadata → List ExtensionField
to_extensions meta =
    digest_fields (meta.digest)
    ++ (method_fields (meta.method_tag) ++ timestamp_fields (meta.timestamp))
