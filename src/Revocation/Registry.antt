-- ===== src/Revocation/Registry.antt =====
-- A sorted registry of revocation.rs is a set: an insertion adds its key and no other, and the lookup
-- asks for membership or the compromised key.
use steganographer.Common.{
  ℕ, zero, suc, ◌-◌, ◌<◌, ◌≤◌, ◌≡◌, ◌≢◌, ◌↔◌, refl, sym, ap, ◌∙◌, ◌⊎◌, inl, inr, List, [], ◌∷◌,
  length, get_or, ltb, ◌==◌, ◌||◌, true, false, Bool-cases, arith, ==_iff, bytes_eq_refl,
  bytes_eq→eq, Bool,
}
use steganographer.Revocation.{
  before, compare_keys, Search, match_at, missing_at, binary_search, insert_at, insert,
  insert_found, is_match, is_revoked, is_known_compromised_key, compromised_key,
}
use steganographer.Revocation.BinarySearch.{
  at, IsSorted, Tells, compare_keys_refl, binary_search-Tells,
}

module _ {A : Type 0} where
  insert_at_below :
      (i j : ℕ) (a d : A) (xs : List A)
      → j < i
      → i ≤ length xs
      → get_or (insert_at i a xs) j d ≡ get_or xs j d
  unfolding insert_at
  insert_at_below zero j a d xs h k = absurd (omega arith)
  insert_at_below (suc i) j a d [] h k = absurd (omega arith)
  insert_at_below (suc i) zero a d (x ∷ xs) h k = refl
  insert_at_below (suc i) (suc j) a d (x ∷ xs) h k =
      insert_at_below i j a d xs (omega arith) (omega arith)

  insert_at_here :
      (i : ℕ) (a d : A) (xs : List A) → i ≤ length xs → get_or (insert_at i a xs) i d ≡ a
  unfolding insert_at
  insert_at_here zero a d xs k = refl
  insert_at_here (suc i) a d [] k = absurd (omega arith)
  insert_at_here (suc i) a d (x ∷ xs) k = insert_at_here i a d xs (omega arith)

  insert_at_above :
      (i j : ℕ) (a d : A) (xs : List A)
      → i ≤ j
      → i ≤ length xs
      → get_or (insert_at i a xs) (suc j) d ≡ get_or xs j d
  unfolding insert_at
  insert_at_above zero j a d xs h k = refl
  insert_at_above (suc i) j a d [] h k = absurd (omega arith)
  insert_at_above (suc i) zero a d (x ∷ xs) h k = absurd (omega arith)
  insert_at_above (suc i) (suc j) a d (x ∷ xs) h k =
      insert_at_above i j a d xs (omega arith) (omega arith)

  length-insert_at :
      (i : ℕ) (a : A) (xs : List A) → i ≤ length xs → length (insert_at i a xs) ≡ suc (length xs)
  unfolding insert_at
  length-insert_at zero a xs k = refl
  length-insert_at (suc i) a [] k = absurd (omega arith)
  length-insert_at (suc i) a (x ∷ xs) k = ap suc (length-insert_at i a xs (omega arith))

-- The key stands in the registry.
abbrev pub Holds : List (List ℕ) → List ℕ → Type 0
Holds keys key = (i : ℕ) × ((i < length keys) × (at keys i ≡ key))

module _ (keys : List (List ℕ)) (key : List ℕ) (i : ℕ) (tells : Tells keys key (missing_at i)) where
  abbrev larger : List (List ℕ)
  larger = insert_at i key keys

  -- Where an element of the larger registry comes from.
  origin :
      (j : ℕ)
      → j < length larger
      → ((j < i) × (at larger j ≡ at keys j))
        ⊎ (((j ≡ i) × (at larger j ≡ key))
            ⊎ ((k : ℕ) × ((j ≡ suc k)
                  × ((i ≤ k) × ((k < length keys) × (at larger j ≡ at keys k))))))
  origin j h = elim (Bool-cases (ltb j i)) [
    | inl b ↦
        let below : j < i = ground arith in
        inl (below, insert_at_below i j key [] keys below (tells.0))
    | inr b ↦ elim (Bool-cases (j == i)) [
      | inl e ↦
          let same_place : j ≡ i = (==_iff j i).0 e in
          inr (inl (same_place, rw same_place (insert_at_here i key [] keys (tells.0))))
      | inr e ↦
          let size = length-insert_at i key keys (tells.0) in
          let over : i < j = ground arith in
          let back : j ≡ suc (j - 1) = omega arith in
          inr (
            inr (
              j - 1,
              (
                back,
                (
                  omega arith,
                  (
                    omega (arith, size, h),
                    ap (λ n. at larger n) back
                        ∙ insert_at_above i (j - 1) key [] keys (omega arith) (tells.0),
                  ),
                ),
              ),
            ))
    ]
  ]

  insert_at-IsSorted : IsSorted keys → IsSorted larger
  insert_at-IsSorted sorted j k h w = elim (origin k w) [
    | inl (below, there) ↦
        let start = insert_at_below i j key [] keys (omega (arith, h, below)) (tells.0) in
        rw (there, start) (sorted j k h (omega (arith, below, tells.0)))
    | inr (inl (here, there)) ↦
        let before_it : j < i = omega (arith, h, here) in
        let start = insert_at_below i j key [] keys before_it (tells.0) in
        rw (there, start) (tells.1.0 j before_it)
    | inr (inr (m, (further, (from, (inside, there))))) ↦ elim (origin j (omega (arith, h, w))) [
      | inl (below, start) ↦ rw (there, start) (sorted j m (omega (arith, below, from)) inside)
      | inr (inl (here, start)) ↦ rw (there, start) (tells.1.1 m from inside)
      | inr (inr (n, (after_it, (from', (inside', start))))) ↦
          rw (there, start) (sorted n m (omega (arith, after_it, further, h)) inside)
    ]
  ]

  at_key : at larger i ≡ key
  at_key = insert_at_here i key [] keys (tells.0)

  larger_size : length larger ≡ suc (length keys)
  larger_size = length-insert_at i key keys (tells.0)

  insert_at-Holds : (query : List ℕ) → Holds larger query → (query ≡ key) ⊎ Holds keys query
  insert_at-Holds query (j, (inside, found)) = elim (origin j inside) [
    | inl (below, e) ↦ inr (j, (omega (arith, below, tells.0), sym e ∙ found))
    | inr (inl (here, e)) ↦ inl (sym found ∙ e)
    | inr (inr (m, (further, (from, (inside', e))))) ↦ inr (m, (inside', sym e ∙ found))
  ]

  Holds-insert_at : (query : List ℕ) → (query ≡ key) ⊎ Holds keys query → Holds larger query
  Holds-insert_at query (inl e) = (i, (omega (arith, larger_size, tells.0), at_key ∙ sym e))
  Holds-insert_at query (inr (j, (inside, found))) = elim (Bool-cases (ltb j i)) [
    | inl b ↦
        let below : j < i = ground arith in
        (
          j,
          (
            omega (arith, larger_size, inside),
            insert_at_below i j key [] keys below (tells.0) ∙ found,
          ),
        )
    | inr b ↦
        let from : i ≤ j = ground arith in
        (
          suc j,
          (
            omega (arith, larger_size, inside),
            insert_at_above i j key [] keys from (tells.0) ∙ found,
          ),
        )
  ]

  not_below_itself : compare_keys key key ≢ before
  not_below_itself h = let equal = compare_keys_refl key in cc

  missing-Holds : ¬ Holds keys key
  missing-Holds (j, (inside, found)) = elim (Bool-cases (ltb j i)) [
    | inl b ↦
        let below : j < i = ground arith in
        not_below_itself (ap (λ x. compare_keys x key) (sym found) ∙ tells.1.0 j below)
    | inr b ↦
        let from : i ≤ j = ground arith in
        not_below_itself (ap (λ x. compare_keys key x) (sym found) ∙ tells.1.1 j from inside)
  ]

-- What an insertion promises of the registry before and after it and of its answer.
abbrev pub Inserts : List (List ℕ) → List ℕ → List (List ℕ) × Bool → Type 0
Inserts keys key result =
    IsSorted (result.0)
    × (((result.1 ≡ true) ↔ (¬ Holds keys key))
        × ((query : List ℕ) → Holds (result.0) query ↔ ((query ≡ key) ⊎ Holds keys query)))

insert_found-Inserts :
    (keys : List (List ℕ)) (key : List ℕ) (found : Search)
    → IsSorted keys
    → Tells keys key found
    → Inserts keys key (insert_found keys key found)
unfolding insert_found
insert_found-Inserts keys key (match_at i) sorted (inside, there) = (
  sorted,
  (
    (λ q. absurd cc, λ none. absurd (none (i, (inside, there)))),
    λ query. (λ h. inr h, λ h. elim h [ inl e ↦ (i, (inside, there ∙ sym e)) | inr h ↦ h ]),
  ),
)
insert_found-Inserts keys key (missing_at i) sorted tells = (
  insert_at-IsSorted keys key i tells sorted,
  (
    (λ q. missing-Holds keys key i tells, λ none. refl),
    λ query. (insert_at-Holds keys key i tells query, Holds-insert_at keys key i tells query),
  ),
)

-- `RevocationList::insert` on a registry in strictly ascending order leaves one in strictly ascending
-- order that holds the new key and the keys held before and no other, and it answers `true` exactly
-- when the key was not held before.
pub insert-Inserts :
    (keys : List (List ℕ)) (key : List ℕ) → IsSorted keys → Inserts keys key (insert keys key)
unfolding insert
insert-Inserts keys key sorted =
    insert_found-Inserts keys key (binary_search keys key) sorted
      (binary_search-Tells keys key sorted)

is_match-Holds :
    (keys : List (List ℕ)) (key : List ℕ) (found : Search)
    → Tells keys key found
    → (is_match found ≡ true) ↔ Holds keys key
is_match-Holds keys key (match_at i) tells = (λ q. (i, tells), λ h. refl)
is_match-Holds keys key (missing_at i) tells =
    (λ q. absurd cc, λ h. absurd (missing-Holds keys key i tells h))

is_known_compromised_key_iff :
    (key : List ℕ) → (is_known_compromised_key key ≡ true) ↔ (key ≡ compromised_key)
unfolding is_known_compromised_key
is_known_compromised_key_iff key =
    (bytes_eq→eq key compromised_key, λ e. rw e (bytes_eq_refl compromised_key))

||_iff :
    {P Q : Type 0} → (a b : Bool) → (a ≡ true) ↔ P → (b ≡ true) ↔ Q → ((a || b) ≡ true) ↔ (P ⊎ Q)
||_iff true b p q = (λ h. inl (p.0 refl), λ h. refl)
||_iff false b p q =
    (λ h. inr (q.0 h), λ h. elim h [ inl x ↦ let bad = p.1 x in absurd cc | inr y ↦ q.1 y ])

-- `RevocationList::is_revoked` on a registry in strictly ascending order answers `true` exactly for the
-- documented compromised key and the keys the registry holds.
pub is_revoked_iff :
    (keys : List (List ℕ)) (query : List ℕ)
    → IsSorted keys
    → (is_revoked keys query ≡ true) ↔ ((query ≡ compromised_key) ⊎ Holds keys query)
unfolding is_revoked
is_revoked_iff keys query sorted =
    ||_iff (is_known_compromised_key query) (is_match (binary_search keys query))
      (is_known_compromised_key_iff query)
      (is_match-Holds keys query (binary_search keys query) (binary_search-Tells keys query sorted))
