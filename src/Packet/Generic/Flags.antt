-- ===== src/Packet/Generic/Flags.antt =====
-- The flags of an accepted locator in packet.rs, digit by digit, and the transforms they stand for.
use steganographer.Common.{
  ℕ, ◌*◌, ◌/◌, ◌%◌, ◌^◌, ◌<◌, ◌≡◌, ◌↔◌, ◌⊎◌, inl, inr, refl, ap, ◌∙◌, List, [], ◌∷◌, true, ◌==◌,
  arith, any, bit_and, ok, Bool-cases, ==_iff, >>-eq-ok,
}
use steganographer.Common.Digits.{digit, clears}
use native.Mathlib.Nat.{mod-lt, one-le-pow}
use steganographer.Packet.Types.{TransformDescriptor}
use steganographer.Packet.Locator.{validate_flags}
use steganographer.Packet.Generic.{
  has_algorithm, check_flag, validate_flag_transform_consistency, transform_aead, transform_ecc,
  transform_compress, transform_payload_sign,
}

-- A transform with the algorithm's number stands in the list.
abbrev pub Uses : ℕ → List TransformDescriptor → Type 0
Uses algorithm [] = ⊥
Uses algorithm (t ∷ ts) = (t.algorithm ≡ algorithm) ⊎ Uses algorithm ts

-- A binary digit of the flags is set exactly if a transform with the algorithm's number is there.
abbrev pub Announces : ℕ → List TransformDescriptor → ℕ → ℕ → Type 0
Announces flags transforms place algorithm = (digit flags place ≡ 1) ↔ Uses algorithm transforms

any-Uses :
    (algorithm : ℕ) (ts : List TransformDescriptor)
    → (any (has_algorithm algorithm) ts ≡ true) ↔ Uses algorithm ts
unfolding any has_algorithm
any-Uses algorithm [] = (λ h. absurd cc, λ h. absurd h)
any-Uses algorithm (t ∷ ts) = elim (Bool-cases (t.algorithm == algorithm)) [
  | inl e ↦ (λ h. inl ((==_iff t.algorithm algorithm).0 e), λ h. rw (any, e) refl)
  | inr e ↦ (
    λ h. inr ((any-Uses algorithm ts).0 (ground (arith, h, e))),
    λ h. elim h [
      | inl same ↦ absurd (ground (arith, same, ==_iff t.algorithm algorithm, e))
      | inr there ↦ rw (any, e) ((any-Uses algorithm ts).1 there)
    ],
  )
]

bit_and_place : (flags place : ℕ) → bit_and flags (2 ^ place) ≡ digit flags place * 2 ^ place
bit_and_place flags place = ap (bit_and flags) (omega arith) ∙ clears 1 place flags ∙ omega arith

check_flag-Announces :
    (flags : ℕ) (ts : List TransformDescriptor) (place algorithm : ℕ)
    → check_flag flags ts (2 ^ place) algorithm ≡ ok tt
    → Announces flags ts place algorithm
unfolding check_flag
check_flag-Announces flags ts place algorithm h =
    let (there, back) = any-Uses algorithm ts in
    let masked = bit_and_place flags place in
    let small : digit flags place < 2 = mod-lt (flags / 2 ^ place) {m = 2} (omega arith) in
    let positive = one-le-pow place 2 (omega arith) in
    elim (Bool-cases (any (has_algorithm algorithm) ts)) [
      | inl used ↦ (
        λ d. there used,
        λ u. elim (Bool-cases (digit flags place == 0)) [
          | inl e ↦
              let clear : digit flags place ≡ 0 = (==_iff (digit flags place) 0).0 e in
              let bit : bit_and flags (2 ^ place) ≡ 0 =
                masked ∙ ap (λ (d : ℕ). d * 2 ^ place) clear ∙ omega arith in
              absurd (ground (arith, h, used, bit))
          | inr e ↦ ground (arith, small, e)
        ],
      )
      | inr unused ↦ (
        λ d.
            let bit : bit_and flags (2 ^ place) ≡ 2 ^ place =
              masked ∙ ap (λ (d : ℕ). d * 2 ^ place) d ∙ omega arith in
            absurd (ground (arith, h, unused, bit, positive)),
        λ u. let used = back u in absurd cc,
      )
    ]

-- The flags that stand for transforms.
pub record Agrees (flags : ℕ) (transforms : List TransformDescriptor) : Type 0 where
  pub compressed : Announces flags transforms 0 transform_compress
  pub encrypted : Announces flags transforms 1 transform_aead
  pub error_corrected : Announces flags transforms 2 transform_ecc
  pub payload_signed : Announces flags transforms 4 transform_payload_sign

pub validate_flag_transform_consistency-Agrees :
    (flags : ℕ) (ts : List TransformDescriptor)
    → validate_flag_transform_consistency flags ts ≡ ok tt
    → Agrees flags ts
unfolding validate_flag_transform_consistency
validate_flag_transform_consistency-Agrees flags ts h =
    let (encrypted, h1) = >>-eq-ok (check_flag flags ts 2 transform_aead) _ h in
    let (signed, h2) = >>-eq-ok (check_flag flags ts 16 transform_payload_sign) _ h1 in
    let (compressed, corrected) = >>-eq-ok (check_flag flags ts 1 transform_compress) _ h2 in
    record {
      compressed = check_flag-Announces flags ts 0 transform_compress compressed;
      encrypted = check_flag-Announces flags ts 1 transform_aead encrypted;
      error_corrected = check_flag-Announces flags ts 2 transform_ecc corrected;
      payload_signed = check_flag-Announces flags ts 4 transform_payload_sign signed;
    }

-- No flag bit above the five known ones is set.
pub validate_flags-known : (flags : ℕ) → validate_flags flags ≡ ok tt → flags / 2 ^ 5 % 2 ^ 11 ≡ 0
unfolding validate_flags
validate_flags-known flags h = ground (arith, clears 11 5 flags)
