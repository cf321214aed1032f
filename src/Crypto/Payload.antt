-- ===== src/Crypto/Payload.antt =====
-- The wire form of the signed payload of crypto.rs: what `to_bytes` writes, `from_bytes` reads back.
use steganographer.Common.{
  ℕ, ◌^◌, ◌<◌, ◌≡◌, refl, sym, ap, ◌∙◌, List, ◌++◌, true, leb, arith, length, take, drop,
  take-append, drop-append, take_all, bytes_eq, ok,
}
use steganographer.Common.Bytes.{to_le_bytes, from_le_bytes-to_le_bytes}
use steganographer.Crypto.{SignaturePayload, to_bytes, from_bytes, has_valid_magic}

-- The widths of the fields' Rust types.
pub record IsPayload (p : SignaturePayload) : Type 0 where
  pub index_range : p.frame_index < 2 ^ 64
  pub hash_length : length p.hash ≡ 32
  pub signature_length : length p.signature ≡ 64

at_length : {A : Type 0} (n : ℕ) (xs ys : List A) → length xs ≡ n → take n (xs ++ ys) ≡ xs
at_length n xs ys h = rw (← h) (take-append xs ys)

past_length : {A : Type 0} (n : ℕ) (xs ys : List A) → length xs ≡ n → drop n (xs ++ ys) ≡ ys
past_length n xs ys h = rw (← h) (drop-append xs ys)

-- Every payload whose fields have the widths of their Rust types is read back from its bytes, and
-- its bytes carry the magic header that `has_valid_magic` looks for.
pub from_bytes-to_bytes :
    (p : SignaturePayload)
    → IsPayload p
    → (from_bytes (to_bytes p) ≡ ok p) × (has_valid_magic (to_bytes p) ≡ true)
unfolding from_bytes to_bytes has_valid_magic bytes_eq to_le_bytes
from_bytes-to_bytes p w =
    let long : leb 5 (length (to_bytes p)) ≡ true = ground arith in
    (
      λ i. ok (record {
        frame_index = from_le_bytes-to_le_bytes 8 p.frame_index (omega (arith, w.index_range)) i;
        hash = at_length 32 p.hash p.signature w.hash_length i;
        signature =
            (ap (take 64) (past_length 32 p.hash p.signature w.hash_length)
                ∙ ap (λ n. take n p.signature) (sym w.signature_length)
                ∙ take_all p.signature)
              i;
      }),
      rw long refl,
    )
