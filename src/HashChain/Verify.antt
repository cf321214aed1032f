-- ===== src/HashChain/Verify.antt =====
-- The Merkle loop of hash_chain.rs ends, and which roots that a chain builds `verify_chain` accepts.
use steganographer.Common.{
  ℕ, zero, suc, ◌+◌, ◌<◌, ◌≤◌, ◌≡◌, refl, sym, ap, ap₂, ◌∙◌, List, [], ◌∷◌, ◌++◌, map, append-nil,
  append_assoc, some, none, true, false, leb, ◌==◌, ◌&&◌, arith, length, length-append, bytes_eq,
  bytes_eq_refl, ==_refl, Bool-cases, inl, inr,
}
use steganographer.HashChain.{
  HashChain, MerkleRoot, last, last_or, zero_hash, consecutive, frame_hash, next_level, merkle_loop,
  compute_merkle_root, segment_root, finalize_segment, push_frame, finalize_full, add_frame,
  build_root, chain_hashes, well_framed, verify_chain, matches, same, add_frames,
}

abbrev index_of : (ℕ × List ℕ) → ℕ
index_of f = f.0

last-append : {A : Type 0} (xs : List A) (x : A) → last (xs ++ (x ∷ [])) ≡ some x
unfolding last
last-append [] x = refl
last-append (y ∷ []) x = refl
last-append (y ∷ z ∷ zs) x = last-append (z ∷ zs) x

last-cons : {A : Type 0} (x : A) (xs : List A) → (y : A) × (last (x ∷ xs) ≡ some y)
unfolding last
last-cons x [] = (x, refl)
last-cons x (y ∷ ys) = last-cons y ys

module _ (blake3 : List ℕ → List ℕ) where
  length-next_level :
      (level : List (List ℕ))
      → length (next_level blake3 level) + length (next_level blake3 level) ≤ length level + 1
  unfolding next_level
  length-next_level [] = omega arith
  length-next_level (a ∷ []) = omega arith
  length-next_level (a ∷ b ∷ rest) = omega (arith, length-next_level rest)

  -- The loop of `compute_merkle_root` gives a root whenever it may take as many rounds as there are
  -- leaves, or more.
  pub merkle_loop-enough :
      (fuel : ℕ) (level : List (List ℕ))
      → length level ≤ fuel
      → (root : List ℕ) × (merkle_loop blake3 fuel level ≡ some root)
  unfolding merkle_loop
  merkle_loop-enough fuel [] h = (zero_hash, refl)
  merkle_loop-enough fuel (a ∷ []) h = (a, refl)
  merkle_loop-enough zero (a ∷ b ∷ rest) h = absurd (omega arith)
  merkle_loop-enough (suc fuel) (a ∷ b ∷ rest) h =
      merkle_loop-enough fuel (next_level blake3 (a ∷ b ∷ rest))
        (omega (arith, length-next_level (a ∷ b ∷ rest)))

  -- The chain's last root, where the segment in progress is finalized with at least one frame.
  finalized :
      (chain : HashChain)
      → 0 < length chain.segment_hashes
      → (build_root blake3 chain).1
        ≡ some (segment_root blake3 chain chain.segment_hashes chain.segment_indices)
  unfolding build_root finalize_segment
  finalized chain h =
      let some_frames : (length chain.segment_hashes == 0) ≡ false = ground arith in
      rw some_frames (last-append chain.completed_roots _)

  -- A full segment is finalized by `add_frame`, and `build_root` has nothing left to do.
  finalized_twice :
      (chain : HashChain)
      → 0 < length chain.segment_hashes
      → (build_root blake3 (finalize_segment blake3 chain)).1
        ≡ some (segment_root blake3 chain chain.segment_hashes chain.segment_indices)
  unfolding build_root finalize_segment
  finalized_twice chain h =
      let some_frames : (length chain.segment_hashes == 0) ≡ false = ground arith in
      rw some_frames (last-append chain.completed_roots _)

  add_frame-open :
      (chain : HashChain) (index : ℕ) (content : List ℕ)
      → length chain.segment_hashes + 1 < chain.segment_size
      → (add_frame blake3 chain index content).0 ≡ push_frame blake3 chain index content
  unfolding add_frame finalize_full push_frame
  add_frame-open chain index content h =
      let hash = frame_hash blake3 index chain.prev_hash content in
      let below : leb chain.segment_size (length (chain.segment_hashes ++ (hash ∷ []))) ≡ false =
        ground (arith, length-append chain.segment_hashes (hash ∷ [])) in
      rw below

  add_frame-full :
      (chain : HashChain) (index : ℕ) (content : List ℕ)
      → chain.segment_size ≤ length chain.segment_hashes + 1
      → (add_frame blake3 chain index content).0
        ≡ finalize_segment blake3 (push_frame blake3 chain index content)
  unfolding add_frame finalize_full push_frame
  add_frame-full chain index content h =
      let hash = frame_hash blake3 index chain.prev_hash content in
      let reached : leb chain.segment_size (length (chain.segment_hashes ++ (hash ∷ []))) ≡ true =
        ground (arith, length-append chain.segment_hashes (hash ∷ [])) in
      rw reached

  abbrev expected_root : HashChain → List (ℕ × List ℕ) → MerkleRoot
  expected_root chain fs =
      segment_root blake3 chain (chain.segment_hashes ++ chain_hashes blake3 chain.prev_hash fs)
        (chain.segment_indices ++ map index_of fs)

  -- Pushing the first frame moves it from the run into the chain.
  expected_root-push_frame :
      (chain : HashChain) (f : ℕ × List ℕ) (fs : List (ℕ × List ℕ))
      → expected_root (push_frame blake3 chain (f.0) (f.1)) fs ≡ expected_root chain (f ∷ fs)
  unfolding push_frame chain_hashes segment_root
  expected_root-push_frame chain f fs =
      let hash = frame_hash blake3 (f.0) chain.prev_hash (f.1) in
      ap₂ (λ hs is. segment_root blake3 chain hs is)
        (append_assoc chain.segment_hashes (hash ∷ []) (chain_hashes blake3 hash fs))
        (append_assoc chain.segment_indices (f.0 ∷ []) (map index_of fs))

  pushed_length :
      (chain : HashChain) (f : ℕ × List ℕ)
      → length (push_frame blake3 chain (f.0) (f.1)).segment_hashes
        ≡ length chain.segment_hashes + 1
  unfolding push_frame
  pushed_length chain f = length-append chain.segment_hashes _

  built :
      (chain : HashChain) (fs : List (ℕ × List ℕ))
      → 0 < length chain.segment_hashes + length fs
      → length chain.segment_hashes + length fs ≤ chain.segment_size
      → (build_root blake3 (add_frames blake3 chain fs)).1 ≡ some (expected_root chain fs)
  unfolding add_frames chain_hashes push_frame
  built chain [] p q =
      finalized chain (omega arith)
      ∙ ap₂ (λ hs is. some (segment_root blake3 chain hs is))
          (sym (append-nil chain.segment_hashes)) (sym (append-nil chain.segment_indices))
  built chain (f ∷ []) p q =
      let pushed = push_frame blake3 chain (f.0) (f.1) in
      let count = pushed_length chain f in
      let moved : segment_root blake3 pushed pushed.segment_hashes pushed.segment_indices
          ≡ expected_root chain (f ∷ []) =
        ap₂ (λ hs is. segment_root blake3 pushed hs is) (sym (append-nil pushed.segment_hashes))
          (sym (append-nil pushed.segment_indices))
        ∙ expected_root-push_frame chain f [] in
      elim (Bool-cases (leb chain.segment_size (length chain.segment_hashes + 1))) [
        | inl full ↦
            ap (λ c. (build_root blake3 c).1) (add_frame-full chain (f.0) (f.1) (ground (arith)))
            ∙ finalized_twice pushed (omega arith)
            ∙ ap some moved
        | inr below ↦
            ap (λ c. (build_root blake3 c).1) (add_frame-open chain (f.0) (f.1) (ground (arith)))
            ∙ finalized pushed (omega arith)
            ∙ ap some moved
      ]
  built chain (f ∷ g ∷ fs) p q =
      ap (λ c. (build_root blake3 (add_frames blake3 c (g ∷ fs))).1)
        (add_frame-open chain (f.0) (f.1) (omega arith))
      ∙ built (push_frame blake3 chain (f.0) (f.1)) (g ∷ fs) (omega arith)
          (omega (arith, pushed_length chain f))
      ∙ ap some (expected_root-push_frame chain f (g ∷ fs))

  length-chain_hashes :
      (prev : List ℕ) (fs : List (ℕ × List ℕ)) → length (chain_hashes blake3 prev fs) ≡ length fs
  unfolding chain_hashes
  length-chain_hashes prev [] = refl
  length-chain_hashes prev (f ∷ fs) =
      ap suc (length-chain_hashes (frame_hash blake3 (f.0) prev (f.1)) fs)

  -- The recomputed hashes match the root over them.
  matches-segment_root :
      (chain : HashChain) (h : List ℕ) (hs : List (List ℕ)) (is : List ℕ)
      → matches blake3 (segment_root blake3 chain (h ∷ hs) is) (h ∷ hs) ≡ true
  unfolding matches segment_root
  matches-segment_root chain h hs is =
      let (top, found) = last-cons h hs in
      let kept : bytes_eq top (last_or (last (h ∷ hs)) zero_hash) ≡ true =
        rw found (bytes_eq_refl top) in
      ap
        (λ o.
          (suc (length hs) == suc (length hs))
          && (elim o [ none ↦ false | some x ↦ bytes_eq x (last_or (last (h ∷ hs)) zero_hash) ]
              && bytes_eq (compute_merkle_root blake3 (h ∷ hs))
                  (compute_merkle_root blake3 (h ∷ hs))))
        found
      ∙ rw (==_refl (suc (length hs)), kept, bytes_eq_refl (compute_merkle_root blake3 (h ∷ hs)))

  -- The frames `f ∷ fs`, added to a chain between two segments and no more than a segment holds,
  -- give a root that `verify_chain` accepts for these frames behind the chain's previous hash, if
  -- the frame indices are consecutive 64-bit numbers, the segment's index is at most the first of
  -- them, and the previous hash is zero exactly for segment zero.
  pub verify_chain-build_root :
      (chain : HashChain) (f : ℕ × List ℕ) (fs : List (ℕ × List ℕ))
      → chain.segment_hashes ≡ []
      → chain.segment_indices ≡ []
      → length (f ∷ fs) ≤ chain.segment_size
      → consecutive (f ∷ fs) ≡ true
      → chain.segment_index ≤ f.0
      → same (chain.segment_index == 0) (bytes_eq chain.prev_hash zero_hash) ≡ true
      → (root : MerkleRoot) × (((build_root blake3 (add_frames blake3 chain (f ∷ fs))).1
            ≡ some root)
          × (verify_chain blake3 root (f ∷ fs) chain.prev_hash ≡ true))
  unfolding chain_hashes
  verify_chain-build_root chain f fs hh hi hs hc hx hp =
      let hashes = chain_hashes blake3 chain.prev_hash (f ∷ fs) in
      let indices = map index_of (f ∷ fs) in
      let root = segment_root blake3 chain hashes indices in
      let bounded = ap length hh in
      let here : expected_root chain (f ∷ fs) ≡ root =
        ap₂ (λ xs ys. segment_root blake3 chain (xs ++ hashes) (ys ++ indices)) hh hi in
      let framed : well_framed blake3 root (f ∷ fs) chain.prev_hash ≡ true =
        unfold well_framed segment_root in
        ground (arith, length-chain_hashes chain.prev_hash (f ∷ fs), hc, hp) in
      (
        root,
        (
          built chain (f ∷ fs) (omega arith) (omega arith) ∙ ap some here,
          unfold verify_chain in rw framed (matches-segment_root chain _ _ indices),
        ),
      )
