-- ===== src/MultiFrame.antt =====
-- steganographer-core/src/multi_frame.rs: n-of-n XOR sharing of payload bytes and of signatures.
-- The masks that `OsRng` draws are an argument.
pub mod Sharing
use steganographer.Common.{
  ℕ, zero, suc, ◌+◌, ◌-◌, ◌^◌, List, [], ◌∷◌, ◌++◌, map, Bool, true, false, ltb, leb, ◌==◌, not,
  ◌&&◌, ◌||◌, if◌then◌else◌, length, get_or, set, replicate, bit_xor, Result, ok, err, ensure,
  ◌>>=◌, ◌>>◌,
}
use steganographer.Crypto.{CryptoError, SignaturePayload, to_bytes, from_bytes, serialized_size}

pub data ShardError : Type 0 where
  too_few_shards too_many_shards frame_index_overflow empty_payload no_shards : ShardError
  wrong_shard_count invalid_group_size empty_shard inconsistent_total : ShardError
  inconsistent_length index_out_of_range duplicate_index : ShardError
  payload_error : CryptoError → ShardError

-- `SignatureShard` and `GenericPayloadShard`, which differ in the type of `content` only.
pub record Shard : Type 0 where
  pub frame_index : ℕ
  pub shard_index : ℕ
  pub total_shards : ℕ
  pub content : List ℕ

-- `*byte ^= m` over `zip`.
unfoldable pub xor_into : List ℕ → List ℕ → List ℕ
xor_into [] ms = []
xor_into (b ∷ bs) [] = b ∷ bs
xor_into (b ∷ bs) (m ∷ ms) = bit_xor b m ∷ xor_into bs ms

unfoldable pub xor_all : List ℕ → List (List ℕ) → List ℕ
xor_all acc [] = acc
xor_all acc (m ∷ ms) = xor_all (xor_into acc m) ms

-- The shards that carry the masks, from shard index `i` on.
unfoldable pub mask_shards : ℕ → ℕ → ℕ → List (List ℕ) → List Shard
mask_shards base n i [] = []
mask_shards base n i (m ∷ ms) =
    record { frame_index = base + i; shard_index = i; total_shards = n; content = m }
    ∷ mask_shards base n (i + 1) ms

-- The checks on the group that both `split` functions begin with.
unfoldable pub check_group : ℕ → ℕ → Result ShardError (Unit {0})
check_group n base = do
  ensure (not (ltb n 2)) too_few_shards
  ensure (not (ltb 8 n)) too_many_shards
  ensure (ltb (base + (n - 1)) (2 ^ 64)) frame_index_overflow

abbrev pub first_shard : ℕ → ℕ → List ℕ → Shard
first_shard base n content = record {
  frame_index = base;
  shard_index = 0;
  total_shards = n;
  content = content;
}

-- `masks` are the `n - 1` masks as long as the payload.
unfoldable pub split_payload_bytes : List (List ℕ) → List ℕ → ℕ → ℕ → Result ShardError (List Shard)
split_payload_bytes masks bytes n base = do
  check_group n base
  ensure (not (length bytes == 0)) empty_payload
  ok (first_shard base n (xor_all bytes masks) ∷ mask_shards base n 1 masks)

-- `split`
unfoldable pub split : List (List ℕ) → SignaturePayload → ℕ → ℕ → Result ShardError (List Shard)
split masks payload n base = do
  check_group n base
  ok (
      first_shard base n (xor_into (to_bytes payload) (xor_all (replicate serialized_size 0) masks))
      ∷ mask_shards base n 1 masks)

-- `seen[idx]` after the bounds check.
abbrev pub seen_at : List Bool → ℕ → Bool
seen_at seen i = get_or seen i false

-- The loop over the shards. `same_length` is the length test of the generic form.
unfoldable pub check_shards :
    (List ℕ → Bool) → ℕ → List Bool → List Shard → Result ShardError (Unit {0})
check_shards same_length total seen [] = ok tt
check_shards same_length total seen (s ∷ ss) = do
  let rest = check_shards same_length total (set seen s.shard_index true) ss
  ensure (s.total_shards == total) inconsistent_total
  ensure (same_length s.content) inconsistent_length
  ensure (ltb s.shard_index total) index_out_of_range
  ensure (not (seen_at seen s.shard_index)) duplicate_index
  rest

-- `sort_by_key(|shard| shard.shard_index)`, which is stable.
unfoldable pub insert_shard : Shard → List Shard → List Shard
insert_shard s [] = s ∷ []
insert_shard s (t ∷ ts) =
    if leb s.shard_index t.shard_index then s ∷ t ∷ ts else t ∷ insert_shard s ts

unfoldable pub sort_shards : List Shard → List Shard
unfolding insert_shard
sort_shards [] = []
sort_shards (s ∷ ss) = insert_shard s (sort_shards ss)

abbrev pub content_of : Shard → List ℕ
content_of s = s.content

abbrev pub first_total : List Shard → ℕ
first_total [] = 0
first_total (s ∷ ss) = s.total_shards

abbrev pub first_length : List Shard → ℕ
first_length [] = 0
first_length (s ∷ ss) = length s.content

-- The tests on the whole group, before the loop.
unfoldable pub check_count : List Shard → Result ShardError (Unit {0})
check_count shards = do
  ensure (not (length shards == 0)) no_shards
  ensure (length shards == first_total shards) wrong_shard_count
  ensure (leb 2 (first_total shards) && leb (first_total shards) 8) invalid_group_size

unfoldable pub reconstruct_payload_bytes : List Shard → Result ShardError (List ℕ)
reconstruct_payload_bytes shards = do
  check_count shards
  ensure (not (first_length shards == 0)) empty_shard
  check_shards (λ content. length content == first_length shards) (first_total shards)
      (replicate 8 false) shards
  ok (xor_all (replicate (first_length shards) 0) (map content_of (sort_shards shards)))

abbrev pub map_payload_error :
    Result CryptoError SignaturePayload → Result ShardError SignaturePayload
map_payload_error (ok p) = ok p
map_payload_error (err e) = err (payload_error e)

-- `reconstruct`; the length of a `SignatureShard`'s array is fixed.
unfoldable pub reconstruct : List Shard → Result ShardError SignaturePayload
reconstruct shards = do
  check_count shards
  check_shards (λ content. true) (first_total shards) (replicate 8 false) shards
  map_payload_error
      (from_bytes (xor_all (replicate serialized_size 0) (map content_of (sort_shards shards))))
