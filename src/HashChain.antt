-- ===== src/HashChain.antt =====
-- steganographer-core/src/hash_chain.rs: the chained frame hashes and the Merkle root of a segment.
-- BLAKE3 is third-party code and a parameter.
pub mod Verify
use steganographer.Common.{
  ℕ, zero, suc, ◌+◌, ◌*◌, ◌%◌, ◌^◌, List, [], ◌∷◌, ◌++◌, map, Option, some, none, Bool, true, false,
  ltb, leb, ◌==◌, not, ◌&&◌, ◌||◌, if◌then◌else◌, length, get_or, replicate, bytes_eq,
}
use steganographer.Common.Bytes.{to_le_bytes}

-- `[0u8; 32]`
abbrev pub zero_hash : List ℕ
zero_hash = replicate 32 0

pub record SegmentMeta : Type 0 where
  pub start_frame : ℕ
  pub frame_count : ℕ
  pub segment_index : ℕ

pub record MerkleRoot : Type 0 where
  pub root_hash : List ℕ
  pub segment : SegmentMeta
  pub last_frame_hash : List ℕ

pub record HashChain : Type 0 where
  pub segment_size : ℕ
  pub segment_hashes : List (List ℕ)
  pub segment_indices : List ℕ
  pub completed_roots : List MerkleRoot
  pub prev_hash : List ℕ
  pub total_frames : ℕ
  pub segment_index : ℕ

-- The chain that `HashChain::with_segment_size` constructs.
unfoldable pub empty_chain : ℕ → HashChain
empty_chain segment_size = record {
  segment_size = segment_size;
  segment_hashes = [];
  segment_indices = [];
  completed_roots = [];
  prev_hash = zero_hash;
  total_frames = 0;
  segment_index = 0;
}

-- `HashChain::with_segment_size`; there is no chain where its assertion fails.
unfoldable pub with_segment_size : ℕ → Option HashChain
with_segment_size segment_size =
    if ltb 0 segment_size then some (empty_chain segment_size) else none

unfoldable pub last : {A : Type 0} → List A → Option A
last [] = none
last (x ∷ []) = some x
last (x ∷ y ∷ ys) = last (y ∷ ys)

abbrev pub last_or : {A : Type 0} → Option A → A → A
last_or none d = d
last_or (some a) d = a

-- `frame_index + 1`, where it is a `u64`.
abbrev pub follows : ℕ → ℕ → Bool
follows a b = ltb (a + 1) (2 ^ 64) && a + 1 == b

-- No `windows(2)` pair breaks the order.
unfoldable pub consecutive : List (ℕ × List ℕ) → Bool
consecutive [] = true
consecutive (f ∷ []) = true
consecutive (f ∷ g ∷ fs) = follows (f.0) (g.0) && consecutive (g ∷ fs)

abbrev pub first_index : List (ℕ × List ℕ) → ℕ
first_index [] = 0
first_index (f ∷ fs) = f.0

abbrev pub same : Bool → Bool → Bool
same true b = b
same false b = not b

module _ (blake3 : List ℕ → List ℕ) where
  unfoldable pub frame_hash : ℕ → List ℕ → List ℕ → List ℕ
  frame_hash frame_index prev_hash content =
      blake3 (to_le_bytes 8 frame_index ++ (prev_hash ++ content))

  -- A level of the tree above `level`; an odd last node is paired with itself.
  unfoldable pub next_level : List (List ℕ) → List (List ℕ)
  next_level [] = []
  next_level (a ∷ []) = blake3 (a ++ a) ∷ []
  next_level (a ∷ b ∷ rest) = blake3 (a ++ b) ∷ next_level rest

  -- The loop `while level.len() > 1`. A level has fewer nodes than the one below it.
  unfoldable pub merkle_loop : ℕ → List (List ℕ) → Option (List ℕ)
  merkle_loop fuel [] = some zero_hash
  merkle_loop fuel (a ∷ []) = some a
  merkle_loop zero (a ∷ b ∷ rest) = none
  merkle_loop (suc fuel) (a ∷ b ∷ rest) = merkle_loop fuel (next_level (a ∷ b ∷ rest))

  unfoldable pub compute_merkle_root : List (List ℕ) → List ℕ
  compute_merkle_root leaves = last_or (merkle_loop (length leaves) leaves) zero_hash

  -- The root over the hashes `hs` and the indices `is` of the current segment.
  unfoldable pub segment_root : HashChain → List (List ℕ) → List ℕ → MerkleRoot
  segment_root chain hs is = record {
    root_hash = compute_merkle_root hs;
    segment = record {
      start_frame = get_or is 0 0;
      frame_count = length hs;
      segment_index = chain.segment_index;
    };
    last_frame_hash = last_or (last hs) zero_hash;
  }

  unfoldable pub finalize_segment : HashChain → HashChain
  finalize_segment chain = if length chain.segment_hashes == 0 then chain else record chain {
    completed_roots =
        chain.completed_roots
        ++ (segment_root chain chain.segment_hashes chain.segment_indices ∷ []);
    segment_hashes = [];
    segment_indices = [];
    segment_index = chain.segment_index + 1;
  }

  -- The pushes of `add_frame`, before the test whether the segment is full.
  unfoldable pub push_frame : HashChain → ℕ → List ℕ → HashChain
  push_frame chain frame_index content = record chain {
    segment_hashes = chain.segment_hashes ++ (frame_hash frame_index chain.prev_hash content ∷ []);
    segment_indices = chain.segment_indices ++ (frame_index ∷ []);
    prev_hash = frame_hash frame_index chain.prev_hash content;
    total_frames = chain.total_frames + 1;
  }

  -- The end of `add_frame`.
  unfoldable pub finalize_full : HashChain → HashChain
  finalize_full chain =
      if leb chain.segment_size (length chain.segment_hashes) then finalize_segment chain else chain

  -- `add_frame`: the new chain and the frame's hash.
  unfoldable pub add_frame : HashChain → ℕ → List ℕ → HashChain × List ℕ
  add_frame chain frame_index content = (
    finalize_full (push_frame chain frame_index content),
    frame_hash frame_index chain.prev_hash content,
  )

  -- `build_root`: the new chain and the result.
  unfoldable pub build_root : HashChain → HashChain × Option MerkleRoot
  build_root chain = let done = finalize_segment chain in (done, last done.completed_roots)

  -- The hashes of a run of frames behind `prev_hash`.
  unfoldable pub chain_hashes : List ℕ → List (ℕ × List ℕ) → List (List ℕ)
  chain_hashes prev [] = []
  chain_hashes prev (f ∷ fs) =
      frame_hash (f.0) prev (f.1) ∷ chain_hashes (frame_hash (f.0) prev (f.1)) fs

  -- The tests that reject a segment before anything is hashed.
  unfoldable pub well_framed : MerkleRoot → List (ℕ × List ℕ) → List ℕ → Bool
  well_framed root frames previous_hash =
      not (length frames == 0)
      && (length frames == root.segment.frame_count
          && (first_index frames == root.segment.start_frame
              && (same (root.segment.segment_index == 0) (bytes_eq previous_hash zero_hash)
                  && (leb root.segment.segment_index root.segment.start_frame
                      && consecutive frames))))

  -- The tests on the recomputed hashes.
  unfoldable pub matches : MerkleRoot → List (List ℕ) → Bool
  matches root hashes =
      length hashes == root.segment.frame_count
      && (elim (last hashes) [ none ↦ false | some h ↦ bytes_eq h root.last_frame_hash ]
          && bytes_eq (compute_merkle_root hashes) root.root_hash)

  unfoldable pub verify_chain : MerkleRoot → List (ℕ × List ℕ) → List ℕ → Bool
  verify_chain root frames previous_hash =
      if well_framed root frames previous_hash
      then matches root (chain_hashes previous_hash frames)
      else false

  -- `add_frame` over a run of frames.
  unfoldable pub add_frames : HashChain → List (ℕ × List ℕ) → HashChain
  add_frames chain [] = chain
  add_frames chain (f ∷ fs) = add_frames (add_frame chain (f.0) (f.1)).0 fs
