-- ===== src/Packet/Ots/RoundTrip.antt =====
-- The OpenTimestamps fields of packet.rs: what `to_extensions` writes behind other extensions,
-- `from_extensions` reads back.
use steganographer.Common.{
  ℕ, ◌^◌, ◌<◌, ◌≡◌, ◌≢◌, refl, sym, ap, ◌∙◌, List, [], ◌∷◌, ◌++◌, length, Option, none, some, arith,
  All,
}
use steganographer.Common.Bytes.{to_be_bytes, from_be_bytes-to_be_bytes}
use steganographer.Packet.Types.{ExtensionField}
use steganographer.Packet.Ots.{
  OtsMetadata, default_metadata, hex_encode_ots, with_digest, with_method_tag, with_timestamp,
  read_extension, read_extensions, from_extensions, digest_fields, method_fields, timestamp_fields,
  to_extensions,
}

-- What the value holds if there is one.
abbrev pub Holding : {A : Type 0} → (A → Type 0) → Option A → Type 0
Holding P none = Unit {0}
Holding P (some a) = P a

abbrev pub hex_of : Option (List ℕ) → Option (List ℕ)
hex_of none = none
hex_of (some digest) = some (hex_encode_ots digest)

-- The widths of the fields' Rust types, and a display form that is the digest's.
pub record IsOts (m : OtsMetadata) : Type 0 where
  pub digest_length : Holding (λ digest. length digest ≡ 32) (m.digest)
  pub timestamp_range : Holding (λ seconds. seconds < 2 ^ 64) (m.timestamp)
  pub display : m.digest_hex ≡ hex_of (m.digest)

-- An extension of another kind.
abbrev pub IsOther : ExtensionField → Type 0
IsOther ext = (ext.id ≢ 128) × ((ext.id ≢ 129) × (ext.id ≢ 130))

read_extension_other :
    (meta : OtsMetadata) (ext : ExtensionField) → IsOther ext → read_extension meta ext ≡ meta
unfolding read_extension
read_extension_other meta ext other = ground (arith, other)

read_extensions_others :
    (meta : OtsMetadata) (others rest : List ExtensionField)
    → All IsOther others
    → read_extensions meta (others ++ rest) ≡ read_extensions meta rest
unfolding read_extensions
read_extensions_others meta [] rest h = refl
read_extensions_others meta (ext ∷ others) rest (other, h) =
    ap (λ m. read_extensions m (others ++ rest)) (read_extension_other meta ext other)
    ∙ read_extensions_others meta others rest h

given_digest : OtsMetadata → Option (List ℕ) → OtsMetadata
given_digest meta none = meta
given_digest meta (some digest) = with_digest meta digest

given_method : OtsMetadata → Option ℕ → OtsMetadata
given_method meta none = meta
given_method meta (some tag) = with_method_tag meta tag

given_timestamp : OtsMetadata → Option ℕ → OtsMetadata
given_timestamp meta none = meta
given_timestamp meta (some seconds) = with_timestamp meta seconds

read_digest_fields :
    (meta : OtsMetadata) (digest : Option (List ℕ)) (rest : List ExtensionField)
    → Holding (λ d. length d ≡ 32) digest
    → read_extensions meta (digest_fields digest ++ rest)
      ≡ read_extensions (given_digest meta digest) rest
unfolding read_extensions read_extension digest_fields given_digest
read_digest_fields meta none rest h = refl
read_digest_fields meta (some d) rest h = rw h refl

read_method_fields :
    (meta : OtsMetadata) (tag : Option ℕ) (rest : List ExtensionField)
    → read_extensions meta (method_fields tag ++ rest)
      ≡ read_extensions (given_method meta tag) rest
unfolding read_extensions read_extension method_fields given_method
read_method_fields meta none rest = refl
read_method_fields meta (some t) rest = refl

read_timestamp_fields :
    (meta : OtsMetadata) (seconds : Option ℕ)
    → Holding (λ s. s < 2 ^ 64) seconds
    → read_extensions meta (timestamp_fields seconds) ≡ given_timestamp meta seconds
unfolding read_extensions read_extension timestamp_fields given_timestamp to_be_bytes
read_timestamp_fields meta none h = refl
read_timestamp_fields meta (some s) h = ap (with_timestamp meta) (from_be_bytes-to_be_bytes 8 s h)

given_all :
    (digest : Option (List ℕ)) (tag seconds : Option ℕ)
    → given_timestamp (given_method (given_digest default_metadata digest) tag) seconds ≡ record {
      digest = digest;
      digest_hex = hex_of digest;
      method_tag = tag;
      timestamp = seconds;
    }
unfolding given_digest given_method given_timestamp
given_all none none none = refl
given_all none none (some s) = refl
given_all none (some t) none = refl
given_all none (some t) (some s) = refl
given_all (some d) none none = refl
given_all (some d) none (some s) = refl
given_all (some d) (some t) none = refl
given_all (some d) (some t) (some s) = refl

-- Metadata whose fields have the widths of their Rust types and whose display form is the digest's
-- hexadecimal text is read back by `OtsMetadata::from_extensions` from the fields that
-- `OtsMetadata::to_extensions` makes of it, behind any extensions with other identifiers.
pub from_extensions-to_extensions :
    (m : OtsMetadata) (others : List ExtensionField)
    → IsOts m
    → All IsOther others
    → from_extensions (others ++ to_extensions m) ≡ m
unfolding from_extensions to_extensions
from_extensions-to_extensions m others w h =
    let tail = method_fields (m.method_tag) ++ timestamp_fields (m.timestamp) in
    let dated = given_digest default_metadata (m.digest) in
    let tagged = given_method dated (m.method_tag) in
    read_extensions_others default_metadata others (to_extensions m) h
    ∙ read_digest_fields default_metadata (m.digest) tail (w.digest_length)
    ∙ read_method_fields dated (m.method_tag) (timestamp_fields (m.timestamp))
    ∙ read_timestamp_fields tagged (m.timestamp) (w.timestamp_range)
    ∙ given_all (m.digest) (m.method_tag) (m.timestamp)
    ∙ (λ i. record {
      digest = m.digest;
      digest_hex = sym (w.display) i;
      method_tag = m.method_tag;
      timestamp = m.timestamp;
    })
