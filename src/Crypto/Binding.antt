-- ===== src/Crypto/Binding.antt =====
-- The verifier of crypto.rs accepts what its signer signs, and the hashed bytes determine the frame.
use steganographer.Common.{
  ℕ, ◌^◌, ◌<◌, ◌≡◌, refl, sym, ap, ap₂, ◌∙◌, List, [], ◌∷◌, ◌++◌, Option, some, none, true, arith,
  length, take, drop, take-append, drop-append, bytes_eq_refl,
}
use steganographer.Common.Bytes.{
  to_le_bytes, from_le_bytes, from_le_bytes-to_le_bytes, length-to_le_bytes,
}
use steganographer.Crypto.{
  Primitives, Signer, hash, sign_frame, verify, frame_parts, audio_present, audio_or_default,
  frame_domain,
}

-- A verifier with the signer's public key and hash algorithm accepts what the signer signed, for
-- every frame, if Ed25519 verifies its own signatures.
pub verify-sign_frame :
    (prim : Primitives)
    → ((key message : List ℕ)
        → prim.ed25519_verify_strict
            (prim.ed25519_verifying_key key)
            message
            (prim.ed25519_sign key message)
          ≡ true)
    → (signer : Signer) (frame_index : ℕ) (video : List ℕ) (audio : Option (List ℕ))
    → verify prim
        (record {
          verifying_key = prim.ed25519_verifying_key signer.signing_key;
          hash_algorithm = signer.hash_algorithm;
        })
        (sign_frame prim signer frame_index video audio)
        video
        audio
      ≡ true
unfolding verify sign_frame
verify-sign_frame prim ed signer frame_index video audio = rw (
  bytes_eq_refl (hash prim signer.hash_algorithm frame_index video audio),
  ed signer.signing_key (hash prim signer.hash_algorithm frame_index video audio),
)

-- Equal concatenations with equally long first parts have equal parts.
append_split :
    {A : Type 0} (xs xs' ys ys' : List A)
    → length xs ≡ length xs'
    → xs ++ ys ≡ xs' ++ ys'
    → (xs ≡ xs') × (ys ≡ ys')
append_split xs xs' ys ys' h e = (
  sym (take-append xs ys) ∙ ap₂ take h e ∙ take-append xs' ys',
  sym (drop-append xs ys) ∙ ap₂ drop h e ∙ drop-append xs' ys',
)

word_split :
    (w v v' : ℕ) (ys ys' : List ℕ)
    → v < 256 ^ w
    → v' < 256 ^ w
    → to_le_bytes w v ++ ys ≡ to_le_bytes w v' ++ ys'
    → (v ≡ v') × (ys ≡ ys')
word_split w v v' ys ys' h h' e =
    let (words, rest) =
      append_split (to_le_bytes w v) (to_le_bytes w v') ys ys'
        (length-to_le_bytes w v ∙ sym (length-to_le_bytes w v')) e in
    (
      sym (from_le_bytes-to_le_bytes w v h)
          ∙ ap from_le_bytes words
          ∙ from_le_bytes-to_le_bytes w v' h',
      rest,
    )

audio-injective :
    (a a' : Option (List ℕ))
    → audio_present a ≡ audio_present a'
    → audio_or_default a ≡ audio_or_default a'
    → a ≡ a'
audio-injective none none p d = refl
audio-injective none (some a') p d = absurd (omega arith)
audio-injective (some a) none p d = absurd (omega arith)
audio-injective (some a) (some a') p d = ap some d

-- The bytes that are hashed determine the frame's index, its video bytes and its audio bytes,
-- absent audio and empty audio apart, where the index and the lengths are 64-bit numbers.
pub frame_parts-injective :
    (i i' : ℕ) (v v' : List ℕ) (a a' : Option (List ℕ))
    → i < 256 ^ 8
    → i' < 256 ^ 8
    → length v < 256 ^ 8
    → length v' < 256 ^ 8
    → length (audio_or_default a) < 256 ^ 8
    → length (audio_or_default a') < 256 ^ 8
    → frame_parts i v a ≡ frame_parts i' v' a'
    → (i ≡ i') × ((v ≡ v') × (a ≡ a'))
unfolding frame_parts
frame_parts-injective i i' v v' a a' hi hi' hv hv' ha ha' e =
    let (_, e1) = append_split frame_domain frame_domain _ _ refl e in
    let (index, e2) = word_split 8 i i' _ _ hi hi' e1 in
    let (video_len, e3) = word_split 8 (length v) (length v') _ _ hv hv' e2 in
    let (video, e4) = append_split v v' _ _ video_len e3 in
    let (present, e5) = append_split (audio_present a ∷ []) (audio_present a' ∷ []) _ _ refl e4 in
    let (audio_len, e6) =
      word_split 8 (length (audio_or_default a)) (length (audio_or_default a')) _ _ ha ha' e5 in
    let (audio, _) = append_split (audio_or_default a) (audio_or_default a') _ _ audio_len e6 in
    (index, (video, audio-injective a a' (ap first present) audio))
  where
    first : List ℕ → ℕ
    first [] = 0
    first (x ∷ xs) = x
