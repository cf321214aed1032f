-- ===== src/Packet/Integer/RoundTrip.antt =====
-- Minimal integers: every `u64` has exactly one encoding.
use steganographer.Common.{
  ℕ, zero, suc, ◌-◌, ◌/◌, ◌%◌, ◌^◌, ◌<◌, ◌≤◌, ◌≡◌, refl, sym, ap, ◌∙◌, List, [], ◌∷◌, ◌++◌, some,
  none, true, inl, inr, ◌≢◌, arith, length, drop, replicate, ok, All, length-append,
  length-replicate, Option-cases, >>-eq-ok, ensure-eq-ok,
}
use steganographer.Common.Bytes.{
  IsByte, to_be_bytes, from_be_bytes, length-to_be_bytes, from_be_bytes-to_be_bytes,
  to_be_bytes-from_be_bytes, from_be_bytes-zero,
}
use steganographer.Packet.Integer.{
  position_nonzero, strip, encode_minimal_u64, is_minimal, decode_minimal_u64,
}

-- `strip` drops `first` bytes, and one more in front of a longer number.
first : List ℕ → ℕ
first bytes = elim (position_nonzero bytes) [ none ↦ length bytes - 1 | some i ↦ i ]

first-zero : (b : ℕ) (bs : List ℕ) → first (0 ∷ b ∷ bs) ≡ suc (first (b ∷ bs))
unfolding first
first-zero b bs = elim (Option-cases (position_nonzero (b ∷ bs))) [
  | inl e ↦ rw (first, unfold_zero, e) (omega arith)
  | inr (i, e) ↦ rw (first, unfold_zero, e)
]
  where
    unfold_zero :
        position_nonzero (0 ∷ b ∷ bs)
        ≡ elim (position_nonzero (b ∷ bs)) [ none ↦ none | some i ↦ some (suc i) ]
    unfold_zero = unfold position_nonzero in refl

strip-zero : (b : ℕ) (bs : List ℕ) → strip (0 ∷ b ∷ bs) ≡ strip (b ∷ bs)
strip-zero b bs =
    strip_first (0 ∷ b ∷ bs)
    ∙ ap (λ (k : ℕ). drop k (0 ∷ b ∷ bs)) (first-zero b bs)
    ∙ sym (strip_first (b ∷ bs))
  where
    strip_first : (bytes : List ℕ) → strip bytes ≡ drop (first bytes) bytes
    strip_first bytes = unfold strip first in refl

strip-nonzero : (b : ℕ) (bs : List ℕ) → b ≢ 0 → strip (b ∷ bs) ≡ b ∷ bs
unfolding strip position_nonzero
strip-nonzero b bs h = ground arith

from_be_bytes-strip : (bs : List ℕ) → from_be_bytes (strip bs) ≡ from_be_bytes bs
from_be_bytes-strip [] = unfold strip in refl
from_be_bytes-strip (b ∷ []) = unfold strip position_nonzero in ground arith
from_be_bytes-strip (zero ∷ b ∷ bs) =
    ap from_be_bytes (strip-zero b bs)
    ∙ from_be_bytes-strip (b ∷ bs)
    ∙ sym (from_be_bytes-zero (b ∷ bs))
from_be_bytes-strip (suc a ∷ b ∷ bs) =
    ap from_be_bytes (strip-nonzero (suc a) (b ∷ bs) (omega arith))

-- A stripped number is not empty, not longer, and minimal.
strip-is_minimal : (b : ℕ) (bs : List ℕ) → length bs ≤ 7 → is_minimal (strip (b ∷ bs)) ≡ true
strip-is_minimal b [] h = unfold strip position_nonzero in ground arith
strip-is_minimal zero (b ∷ bs) h = rw strip-zero (strip-is_minimal b bs (omega arith))
strip-is_minimal (suc a) (b ∷ bs) h =
    rw (strip-nonzero (suc a) (b ∷ bs) (omega arith)) (ground arith)

from_be_bytes_padded :
    (k : ℕ) (bs : List ℕ) → from_be_bytes (replicate k 0 ++ bs) ≡ from_be_bytes bs
from_be_bytes_padded zero bs = refl
from_be_bytes_padded (suc k) bs =
    from_be_bytes-zero (replicate k 0 ++ bs) ∙ from_be_bytes_padded k bs

-- Every `u64` is read back from its encoding.
pub decode_minimal_u64-encode_minimal_u64 :
    (v field_id : ℕ) → v < 2 ^ 64 → decode_minimal_u64 (encode_minimal_u64 v) field_id ≡ ok v
unfolding decode_minimal_u64 encode_minimal_u64 to_be_bytes
decode_minimal_u64-encode_minimal_u64 v field_id h =
    let minimal : is_minimal (strip (to_be_bytes 8 v)) ≡ true =
      strip-is_minimal (v / 256 ^ 7 % 256) (to_be_bytes 7 v)
        (omega (arith, length-to_be_bytes 7 v)) in
    let value : from_be_bytes
          (replicate (8 - length (strip (to_be_bytes 8 v))) 0 ++ strip (to_be_bytes 8 v))
        ≡ v =
      from_be_bytes_padded _ _
      ∙ from_be_bytes-strip (to_be_bytes 8 v)
      ∙ from_be_bytes-to_be_bytes 8 v h in
    rw (minimal, value)

strip_padded :
    (k b : ℕ) (bs : List ℕ)
    → is_minimal (b ∷ bs) ≡ true
    → strip (replicate k 0 ++ (b ∷ bs)) ≡ b ∷ bs
strip_padded zero b [] h = unfold strip position_nonzero in ground arith
strip_padded zero zero (c ∷ bs) h = ground arith
strip_padded zero (suc a) (c ∷ bs) h = strip-nonzero (suc a) (c ∷ bs) (omega arith)
strip_padded (suc zero) b bs h = strip-zero b bs ∙ strip_padded zero b bs h
strip_padded (suc (suc k)) b bs h =
    strip-zero 0 (replicate k 0 ++ (b ∷ bs)) ∙ strip_padded (suc k) b bs h

padded_form :
    (value : List ℕ)
    → All IsByte value
    → length value ≤ 8
    → to_be_bytes 8 (from_be_bytes (replicate (8 - length value) 0 ++ value))
      ≡ replicate (8 - length value) 0 ++ value
padded_form value hb h =
    let padded : List ℕ = replicate (8 - length value) 0 ++ value in
    let eight : length padded ≡ 8 = omega (
      arith,
      length-append (replicate (8 - length value) 0) value,
      length-replicate {A = ℕ} (8 - length value) 0,
    ) in
    ap (λ (w : ℕ). to_be_bytes w (from_be_bytes padded)) (sym eight)
    ∙ to_be_bytes-from_be_bytes padded (padded_bytes (8 - length value))
  where
    padded_bytes : (k : ℕ) → All IsByte (replicate k 0 ++ value)
    padded_bytes zero = hb
    padded_bytes (suc k) = (omega arith, padded_bytes k)

-- Every byte string that `decode_minimal_u64` accepts is the encoding of the number it stands for.
pub encode_minimal_u64-decode_minimal_u64 :
    (value : List ℕ) (field_id v : ℕ)
    → All IsByte value
    → decode_minimal_u64 value field_id ≡ ok v
    → encode_minimal_u64 v ≡ value
unfolding decode_minimal_u64 encode_minimal_u64
encode_minimal_u64-decode_minimal_u64 [] field_id v hb h = cc
encode_minimal_u64-decode_minimal_u64 (b ∷ bs) field_id v hb h =
    let (guard, result) = >>-eq-ok _ _ h in
    let minimal : is_minimal (b ∷ bs) ≡ true = ensure-eq-ok (is_minimal (b ∷ bs)) _ guard in
    let short : length (b ∷ bs) ≤ 8 = ground arith in
    let number : v ≡ from_be_bytes (replicate (8 - length (b ∷ bs)) 0 ++ (b ∷ bs)) = cc in
    ap (λ (t : ℕ). strip (to_be_bytes 8 t)) number
    ∙ ap strip (padded_form (b ∷ bs) hb short)
    ∙ strip_padded (8 - length (b ∷ bs)) b bs minimal
