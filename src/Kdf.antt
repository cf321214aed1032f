-- ===== src/Kdf.antt =====
-- steganographer-core/src/kdf.rs: the subkeys that are derived from a master secret. BLAKE3's
-- `derive_key` mode is third-party code and a parameter, a function of the context and the input.
use steganographer.Common.{ℕ, List, [], ◌∷◌, ◌++◌, ◌==◌, if◌then◌else◌}
use steganographer.Common.Bytes.{to_le_bytes}

-- `steganographer-signing-v1`
abbrev pub signing_context : List ℕ
signing_context =
    115 ∷ 116 ∷ 101 ∷ 103 ∷ 97 ∷ 110 ∷ 111 ∷ 103 ∷ 114 ∷ 97 ∷ 112 ∷ 104 ∷ 101 ∷ 114 ∷ 45 ∷ 115 ∷ 105
    ∷ 103 ∷ 110 ∷ 105 ∷ 110 ∷ 103 ∷ 45 ∷ 118 ∷ 49 ∷ []

-- `steganographer-encryption-v1`
abbrev pub encryption_context : List ℕ
encryption_context =
    115 ∷ 116 ∷ 101 ∷ 103 ∷ 97 ∷ 110 ∷ 111 ∷ 103 ∷ 114 ∷ 97 ∷ 112 ∷ 104 ∷ 101 ∷ 114 ∷ 45 ∷ 101 ∷ 110
    ∷ 99 ∷ 114 ∷ 121 ∷ 112 ∷ 116 ∷ 105 ∷ 111 ∷ 110 ∷ 45 ∷ 118 ∷ 49 ∷ []

-- `steganographer-embedding-v1`
abbrev pub embedding_context : List ℕ
embedding_context =
    115 ∷ 116 ∷ 101 ∷ 103 ∷ 97 ∷ 110 ∷ 111 ∷ 103 ∷ 114 ∷ 97 ∷ 112 ∷ 104 ∷ 101 ∷ 114 ∷ 45 ∷ 101 ∷ 109
    ∷ 98 ∷ 101 ∷ 100 ∷ 100 ∷ 105 ∷ 110 ∷ 103 ∷ 45 ∷ 118 ∷ 49 ∷ []

-- `steganographer-locator-v1`
abbrev pub locator_context : List ℕ
locator_context =
    115 ∷ 116 ∷ 101 ∷ 103 ∷ 97 ∷ 110 ∷ 111 ∷ 103 ∷ 114 ∷ 97 ∷ 112 ∷ 104 ∷ 101 ∷ 114 ∷ 45 ∷ 108 ∷ 111
    ∷ 99 ∷ 97 ∷ 116 ∷ 111 ∷ 114 ∷ 45 ∷ 118 ∷ 49 ∷ []

-- `steganographer-placement-v1`
abbrev pub placement_context : List ℕ
placement_context =
    115 ∷ 116 ∷ 101 ∷ 103 ∷ 97 ∷ 110 ∷ 111 ∷ 103 ∷ 114 ∷ 97 ∷ 112 ∷ 104 ∷ 101 ∷ 114 ∷ 45 ∷ 112 ∷ 108
    ∷ 97 ∷ 99 ∷ 101 ∷ 109 ∷ 101 ∷ 110 ∷ 116 ∷ 45 ∷ 118 ∷ 49 ∷ []

-- `steganographer-frame-placement-v1`
abbrev pub frame_placement_context : List ℕ
frame_placement_context =
    115 ∷ 116 ∷ 101 ∷ 103 ∷ 97 ∷ 110 ∷ 111 ∷ 103 ∷ 114 ∷ 97 ∷ 112 ∷ 104 ∷ 101 ∷ 114 ∷ 45 ∷ 102 ∷ 114
    ∷ 97 ∷ 109 ∷ 101 ∷ 45 ∷ 112 ∷ 108 ∷ 97 ∷ 99 ∷ 101 ∷ 109 ∷ 101 ∷ 110 ∷ 116 ∷ 45 ∷ 118 ∷ 49 ∷ []

-- `steganographer-session-signing-v1`
abbrev pub session_signing_context : List ℕ
session_signing_context =
    115 ∷ 116 ∷ 101 ∷ 103 ∷ 97 ∷ 110 ∷ 111 ∷ 103 ∷ 114 ∷ 97 ∷ 112 ∷ 104 ∷ 101 ∷ 114 ∷ 45 ∷ 115 ∷ 101
    ∷ 115 ∷ 115 ∷ 105 ∷ 111 ∷ 110 ∷ 45 ∷ 115 ∷ 105 ∷ 103 ∷ 110 ∷ 105 ∷ 110 ∷ 103 ∷ 45 ∷ 118 ∷ 49
    ∷ []

-- `steganographer-session-encryption-v1`
abbrev pub session_encryption_context : List ℕ
session_encryption_context =
    115 ∷ 116 ∷ 101 ∷ 103 ∷ 97 ∷ 110 ∷ 111 ∷ 103 ∷ 114 ∷ 97 ∷ 112 ∷ 104 ∷ 101 ∷ 114 ∷ 45 ∷ 115 ∷ 101
    ∷ 115 ∷ 115 ∷ 105 ∷ 111 ∷ 110 ∷ 45 ∷ 101 ∷ 110 ∷ 99 ∷ 114 ∷ 121 ∷ 112 ∷ 116 ∷ 105 ∷ 111 ∷ 110
    ∷ 45 ∷ 118 ∷ 49 ∷ []

pub record DerivedKeys : Type 0 where
  pub signing_key : List ℕ
  pub encryption_key : List ℕ
  pub embedding_key : List ℕ

module _ (derive_key : List ℕ → List ℕ → List ℕ) where
  unfoldable pub derive_secret : List ℕ → List ℕ → List ℕ
  derive_secret context master = derive_key context master

  unfoldable pub derive_indexed : List ℕ → List ℕ → ℕ → List ℕ
  derive_indexed context master index = derive_key context (master ++ to_le_bytes 8 index)

  unfoldable pub derive_signing_key : List ℕ → List ℕ
  derive_signing_key master = derive_secret signing_context master

  unfoldable pub derive_encryption_key : List ℕ → List ℕ
  derive_encryption_key master = derive_secret encryption_context master

  unfoldable pub derive_embedding_key : List ℕ → List ℕ
  derive_embedding_key master = derive_secret embedding_context master

  unfoldable pub derive_locator_key : List ℕ → List ℕ
  derive_locator_key embedding_key = derive_secret locator_context embedding_key

  unfoldable pub derive_placement_key : List ℕ → List ℕ
  derive_placement_key embedding_key = derive_secret placement_context embedding_key

  unfoldable pub derive_frame_embedding_key : List ℕ → ℕ → List ℕ
  derive_frame_embedding_key embedding_key frame_index =
      if frame_index == 0
      then embedding_key
      else derive_indexed frame_placement_context embedding_key frame_index

  unfoldable pub derive_all : List ℕ → DerivedKeys
  derive_all master = record {
    signing_key = derive_signing_key master;
    encryption_key = derive_encryption_key master;
    embedding_key = derive_embedding_key master;
  }

  unfoldable pub derive_session_signing_key : List ℕ → ℕ → List ℕ
  derive_session_signing_key master session_counter =
      derive_indexed session_signing_context master session_counter

  unfoldable pub derive_session_encryption_key : List ℕ → ℕ → List ℕ
  derive_session_encryption_key master session_counter =
      derive_indexed session_encryption_context master session_counter
