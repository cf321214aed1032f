-- ===== src/MultiFrame/Sharing.antt =====
-- All shards together give back what was split.
use steganographer.Common.{
  ℕ, zero, suc, ◌+◌, ◌<◌, ◌≤◌, ◌≡◌, refl, sym, ap, ap₂, ◌∙◌, List, [], ◌∷◌, map, Bool, true, false,
  ltb, leb, ◌==◌, not, arith, length, length-set, length-append, get_or-set_ne, set, replicate, All,
  bit_xor, ok, ensure, >>-eq-ok,
}
use steganographer.Common.Bits.{bit_xor_comm, bit_xor_assoc, bit_xor_cancel, zero-bit_xor}
use steganographer.Common.Bytes.{to_le_bytes}
use steganographer.Crypto.{SignaturePayload, to_bytes, serialized_size}
use steganographer.Crypto.Payload.{IsPayload, from_bytes-to_bytes}
use steganographer.MultiFrame.{
  Shard, ShardError, xor_into, xor_all, mask_shards, check_group, split_payload_bytes, split,
  check_shards, insert_shard, sort_shards, first_shard, content_of, check_count,
  reconstruct_payload_bytes, reconstruct, seen_at,
}

length-xor_into : (bs ms : List ℕ) → length (xor_into bs ms) ≡ length bs
unfolding xor_into
length-xor_into [] ms = refl
length-xor_into (b ∷ bs) [] = refl
length-xor_into (b ∷ bs) (m ∷ ms) = ap suc (length-xor_into bs ms)

length-xor_all : (bs : List ℕ) (ms : List (List ℕ)) → length (xor_all bs ms) ≡ length bs
unfolding xor_all
length-xor_all bs [] = refl
length-xor_all bs (m ∷ ms) = length-xor_all (xor_into bs m) ms ∙ length-xor_into bs m

xor_into_cancel : (bs ms : List ℕ) → xor_into (xor_into bs ms) ms ≡ bs
unfolding xor_into
xor_into_cancel [] ms = refl
xor_into_cancel (b ∷ bs) [] = refl
xor_into_cancel (b ∷ bs) (m ∷ ms) = ap₂ ◌∷◌ (bit_xor_cancel b m) (xor_into_cancel bs ms)

xor_into_swap : (bs xs ys : List ℕ) → xor_into (xor_into bs xs) ys ≡ xor_into (xor_into bs ys) xs
unfolding xor_into
xor_into_swap [] xs ys = refl
xor_into_swap (b ∷ bs) [] [] = refl
xor_into_swap (b ∷ bs) [] (y ∷ ys) = refl
xor_into_swap (b ∷ bs) (x ∷ xs) [] = refl
xor_into_swap (b ∷ bs) (x ∷ xs) (y ∷ ys) =
    ap₂ ◌∷◌ (bit_xor_assoc b x y ∙ ap (bit_xor b) (bit_xor_comm x y) ∙ sym (bit_xor_assoc b y x))
      (xor_into_swap bs xs ys)

xor_all_swap :
    (bs m : List ℕ) (ms : List (List ℕ)) → xor_into (xor_all bs ms) m ≡ xor_all (xor_into bs m) ms
unfolding xor_all
xor_all_swap bs m [] = refl
xor_all_swap bs m (k ∷ ms) =
    xor_all_swap (xor_into bs k) m ms ∙ ap (λ t. xor_all t ms) (xor_into_swap bs k m)

-- The same masks twice change nothing.
xor_all_cancel : (bs : List ℕ) (ms : List (List ℕ)) → xor_all (xor_all bs ms) ms ≡ bs
unfolding xor_all
xor_all_cancel bs [] = refl
xor_all_cancel bs (m ∷ ms) =
    ap (λ t. xor_all t ms)
      (xor_all_swap (xor_into bs m) m ms ∙ ap (λ t. xor_all t ms) (xor_into_cancel bs m))
    ∙ xor_all_cancel bs ms

zeros-xor_into : (bs : List ℕ) → xor_into (replicate (length bs) 0) bs ≡ bs
unfolding xor_into
zeros-xor_into [] = refl
zeros-xor_into (b ∷ bs) = ap₂ ◌∷◌ (zero-bit_xor b) (zeros-xor_into bs)

xor_into-zeros : (bs : List ℕ) → xor_into bs (replicate (length bs) 0) ≡ bs
unfolding xor_into
xor_into-zeros [] = refl
xor_into-zeros (b ∷ bs) = ap₂ ◌∷◌ (bit_xor_comm b 0 ∙ zero-bit_xor b) (xor_into-zeros bs)

xor_into_assoc :
    (ls bs cs : List ℕ)
    → length ls ≡ length bs
    → xor_into ls (xor_into bs cs) ≡ xor_into (xor_into ls bs) cs
unfolding xor_into
xor_into_assoc [] [] cs h = refl
xor_into_assoc [] (b ∷ bs) cs h = absurd (omega arith)
xor_into_assoc (a ∷ ls) [] cs h = absurd (omega arith)
xor_into_assoc (a ∷ ls) (b ∷ bs) [] h = refl
xor_into_assoc (a ∷ ls) (b ∷ bs) (c ∷ cs) h =
    ap₂ ◌∷◌ (sym (bit_xor_assoc a b c)) (xor_into_assoc ls bs cs (omega arith))

-- `split` adds the sum of the masks where `split_payload_bytes` adds one mask after the other.
xor_into-xor_all :
    (ls bs : List ℕ) (ms : List (List ℕ))
    → length ls ≡ length bs
    → xor_into ls (xor_all bs ms) ≡ xor_all (xor_into ls bs) ms
unfolding xor_all
xor_into-xor_all ls bs [] h = refl
xor_into-xor_all ls bs (m ∷ ms) h =
    xor_into-xor_all ls (xor_into bs m) ms (h ∙ sym (length-xor_into bs m))
    ∙ ap (λ t. xor_all t ms) (xor_into_assoc ls bs m h)

-- The shards come out of `split` in the order of their indices.
insert_shard-mask_shards :
    (s : Shard) (base n i : ℕ) (ms : List (List ℕ))
    → s.shard_index ≤ i
    → insert_shard s (mask_shards base n i ms) ≡ s ∷ mask_shards base n i ms
unfolding insert_shard mask_shards
insert_shard-mask_shards s base n i [] h = refl
insert_shard-mask_shards s base n i (m ∷ ms) h =
    let first : leb s.shard_index i ≡ true = ground arith in rw first

sort_shards-mask_shards :
    (base n i : ℕ) (ms : List (List ℕ))
    → sort_shards (mask_shards base n i ms) ≡ mask_shards base n i ms
unfolding sort_shards mask_shards
sort_shards-mask_shards base n i [] = refl
sort_shards-mask_shards base n i (m ∷ ms) =
    let s : Shard = record {
      frame_index = base + i;
      shard_index = i;
      total_shards = n;
      content = m;
    } in
    ap (insert_shard s) (sort_shards-mask_shards base n (i + 1) ms)
    ∙ insert_shard-mask_shards s base n (i + 1) ms (omega arith)

content_of-mask_shards :
    (base n i : ℕ) (ms : List (List ℕ)) → map content_of (mask_shards base n i ms) ≡ ms
unfolding mask_shards
content_of-mask_shards base n i [] = refl
content_of-mask_shards base n i (m ∷ ms) =
    ap (λ t. m ∷ t) (content_of-mask_shards base n (i + 1) ms)

length-mask_shards :
    (base n i : ℕ) (ms : List (List ℕ)) → length (mask_shards base n i ms) ≡ length ms
unfolding mask_shards
length-mask_shards base n i [] = refl
length-mask_shards base n i (m ∷ ms) = ap suc (length-mask_shards base n (i + 1) ms)

abbrev Passes : (List ℕ → Bool) → List ℕ → Type 0
Passes test content = test content ≡ true

check_shards-mask_shards :
    (test : List ℕ → Bool) (base n : ℕ) (ms : List (List ℕ)) (i : ℕ) (seen : List Bool)
    → All (Passes test) ms
    → i + length ms ≤ n
    → n ≤ length seen
    → ((j : ℕ) → i ≤ j → seen_at seen j ≡ false)
    → check_shards test n seen (mask_shards base n i ms) ≡ ok tt
unfolding check_shards mask_shards
check_shards-mask_shards test base n [] i seen t h w free = refl
check_shards-mask_shards test base n (m ∷ ms) i seen (t, ts) h w free =
    let total : (n == n) ≡ true = ground arith in
    let bound : ltb i n ≡ true = ground arith in
    let rest =
      check_shards-mask_shards test base n ms (i + 1) (set seen i true) ts (omega arith)
        (omega (arith, length-set seen i true))
        (λ j p.
          get_or-set_ne seen i j true false (λ e. absurd (omega arith)) ∙ free j (omega arith)) in
    rw (total, t, bound, free i (omega arith), rest)

-- The loop accepts the first shard and the shards of the masks.
check_shards-split :
    (test : List ℕ → Bool) (base n : ℕ) (content : List ℕ) (ms : List (List ℕ))
    → test content ≡ true
    → All (Passes test) ms
    → length ms + 1 ≡ n
    → n ≤ 8
    → check_shards test n (replicate 8 false) (first_shard base n content ∷ mask_shards base n 1 ms)
      ≡ ok tt
unfolding check_shards
check_shards-split test base n content ms t ts h small =
    let total : (n == n) ≡ true = ground arith in
    let bound : ltb 0 n ≡ true = ground arith in
    let rest =
      check_shards-mask_shards test base n ms 1 (set (replicate 8 false) 0 true) ts (omega arith)
        (omega arith) blank in
    rw (total, t, bound, rest)
  where
    blank : (j : ℕ) → 1 ≤ j → seen_at (set (replicate 8 false) 0 true) j ≡ false
    blank zero p = absurd (omega arith)
    blank (suc zero) p = refl
    blank (suc (suc zero)) p = refl
    blank (suc (suc (suc zero))) p = refl
    blank (suc (suc (suc (suc zero)))) p = refl
    blank (suc (suc (suc (suc (suc zero))))) p = refl
    blank (suc (suc (suc (suc (suc (suc zero)))))) p = refl
    blank (suc (suc (suc (suc (suc (suc (suc zero))))))) p = refl
    blank (suc (suc (suc (suc (suc (suc (suc (suc j)))))))) p = refl

check_count-split :
    (base n : ℕ) (content : List ℕ) (ms : List (List ℕ))
    → length ms + 1 ≡ n
    → 2 ≤ n
    → n ≤ 8
    → check_count (first_shard base n content ∷ mask_shards base n 1 ms) ≡ ok tt
unfolding check_count
check_count-split base n content ms h low high = ground (arith, length-mask_shards base n 1 ms)

-- The contents in sorted order are those in the order of `split`.
sorted_contents :
    (base n : ℕ) (content : List ℕ) (ms : List (List ℕ))
    → map content_of (sort_shards (first_shard base n content ∷ mask_shards base n 1 ms))
      ≡ content ∷ ms
unfolding sort_shards
sorted_contents base n content ms =
    ap (λ t. map content_of (insert_shard (first_shard base n content) t))
      (sort_shards-mask_shards base n 1 ms)
    ∙ ap (map content_of)
        (insert_shard-mask_shards (first_shard base n content) base n 1 ms (omega arith))
    ∙ ap (λ t. content ∷ t) (content_of-mask_shards base n 1 ms)

check_group-bounds : (n base : ℕ) → check_group n base ≡ ok tt → (2 ≤ n) × (n ≤ 8)
unfolding check_group
check_group-bounds n base h = (ground arith, ground arith)

abbrev pub SameLength : List ℕ → List ℕ → Type 0
SameLength bytes mask = length mask ≡ length bytes

widths_agree :
    (n : ℕ) (bytes : List ℕ) (ms : List (List ℕ))
    → length bytes ≡ n
    → All (SameLength bytes) ms
    → All (Passes (λ content. length content == n)) ms
widths_agree n bytes [] e h = tt
widths_agree n bytes (m ∷ ms) e (h, hs) = (ground arith, widths_agree n bytes ms e hs)

generic_shards :
    (masks : List (List ℕ)) (bytes : List ℕ) (n base : ℕ)
    → length masks + 1 ≡ n
    → All (SameLength bytes) masks
    → 2 ≤ n
    → n ≤ 8
    → 0 < length bytes
    → reconstruct_payload_bytes
        (first_shard base n (xor_all bytes masks) ∷ mask_shards base n 1 masks)
      ≡ ok bytes
unfolding reconstruct_payload_bytes
generic_shards masks bytes n base count widths low high filled =
    let shared = xor_all bytes masks in
    let size = length-xor_all bytes masks in
    let long : (length shared == 0) ≡ false = ground arith in
    let same : (length shared == length shared) ≡ true = ground arith in
    let summed : xor_all (xor_into (replicate (length shared) 0) shared) masks ≡ bytes =
      ap (λ t. xor_all t masks) (zeros-xor_into shared) ∙ xor_all_cancel bytes masks in
    let total : xor_all (replicate (length shared) 0)
          (map content_of (sort_shards (first_shard base n shared ∷ mask_shards base n 1 masks)))
        ≡ bytes =
      ap (xor_all (replicate (length shared) 0)) (sorted_contents base n shared masks)
      ∙ (unfold xor_all in summed) in
    rw (
      check_count-split base n shared masks count low high,
      long,
      check_shards-split (λ content. length content == length shared) base n shared masks same
          (widths_agree (length shared) bytes masks (sym size) widths) count high,
      total,
    )

-- The shards that `split_payload_bytes` makes of a payload, with one mask fewer than shards and
-- every mask as long as the payload, are accepted by `reconstruct_payload_bytes`, and give the
-- payload back.
pub reconstruct_payload_bytes-split_payload_bytes :
    (masks : List (List ℕ)) (bytes : List ℕ) (n base : ℕ) (shards : List Shard)
    → length masks + 1 ≡ n
    → All (SameLength bytes) masks
    → split_payload_bytes masks bytes n base ≡ ok shards
    → reconstruct_payload_bytes shards ≡ ok bytes
unfolding split_payload_bytes
reconstruct_payload_bytes-split_payload_bytes masks bytes n base shards count widths h =
    let (group, h1) = >>-eq-ok (check_group n base) _ h in
    let (low, high) = check_group-bounds n base group in
    let (filled, made) =
      >>-eq-ok (ensure (not (length bytes == 0)) ShardError.empty_payload) _ h1 in
    let whole = generic_shards masks bytes n base count widths low high (ground arith) in cc

zeros-length :
    (masks : List (List ℕ)) → length (xor_all (replicate serialized_size 0) masks) ≡ serialized_size
zeros-length masks = length-xor_all (replicate serialized_size 0) masks

widths_ignored :
    (bytes : List ℕ) (ms : List (List ℕ))
    → All (SameLength bytes) ms
    → All (Passes (λ content. true)) ms
widths_ignored bytes [] h = tt
widths_ignored bytes (m ∷ ms) (h, hs) = (refl, widths_ignored bytes ms hs)

length-to_bytes : (p : SignaturePayload) → IsPayload p → length (to_bytes p) ≡ serialized_size
unfolding to_bytes to_le_bytes
length-to_bytes p w =
    omega (arith, length-append p.hash p.signature, w.hash_length, w.signature_length)

signature_shards :
    (masks : List (List ℕ)) (p : SignaturePayload) (n base : ℕ)
    → IsPayload p
    → length masks + 1 ≡ n
    → 2 ≤ n
    → n ≤ 8
    → All (Passes (λ content. true)) masks
    → reconstruct (
        first_shard base n (xor_into (to_bytes p) (xor_all (replicate serialized_size 0) masks))
        ∷ mask_shards base n 1 masks)
      ≡ ok p
unfolding reconstruct
signature_shards masks p n base w count low high widths =
    let bytes = to_bytes p in
    let size = length-to_bytes p w in
    let shared = xor_into bytes (xor_all (replicate serialized_size 0) masks) in
    let plain : xor_into bytes (replicate serialized_size 0) ≡ bytes =
      ap (λ k. xor_into bytes (replicate k 0)) (sym size) ∙ xor_into-zeros bytes in
    let masked : shared ≡ xor_all bytes masks =
      xor_into-xor_all bytes (replicate serialized_size 0) masks size
      ∙ ap (λ t. xor_all t masks) plain in
    let size' : serialized_size ≡ length shared = sym (length-xor_into bytes _ ∙ size) in
    let blank : xor_into (replicate serialized_size 0) shared ≡ shared =
      ap (λ k. xor_into (replicate k 0) shared) size' ∙ zeros-xor_into shared in
    let summed : xor_all (xor_into (replicate serialized_size 0) shared) masks ≡ bytes =
      ap (λ t. xor_all t masks) (blank ∙ masked) ∙ xor_all_cancel bytes masks in
    let total : xor_all (replicate serialized_size 0)
          (map content_of (sort_shards (first_shard base n shared ∷ mask_shards base n 1 masks)))
        ≡ bytes =
      ap (xor_all (replicate serialized_size 0)) (sorted_contents base n shared masks)
      ∙ (unfold xor_all in summed) in
    rw (
      check_count-split base n shared masks count low high,
      check_shards-split (λ content. true) base n shared masks refl widths count high,
      total,
      (from_bytes-to_bytes p w).0,
    )

-- The shards that `split` makes of a signature payload, with one mask fewer than shards and every
-- mask as long as the payload's bytes, are accepted by `reconstruct` and give the payload back, if
-- the payload's fields have the widths of their Rust types.
pub reconstruct-split :
    (masks : List (List ℕ)) (p : SignaturePayload) (n base : ℕ) (shards : List Shard)
    → IsPayload p
    → length masks + 1 ≡ n
    → All (SameLength (to_bytes p)) masks
    → split masks p n base ≡ ok shards
    → reconstruct shards ≡ ok p
unfolding split
reconstruct-split masks p n base shards w count widths h =
    let (group, made) = >>-eq-ok (check_group n base) _ h in
    let (low, high) = check_group-bounds n base group in
    let whole =
      signature_shards masks p n base w count low high (widths_ignored (to_bytes p) masks widths) in
    cc
