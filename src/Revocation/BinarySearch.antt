-- ===== src/Revocation/BinarySearch.antt =====
-- The comparison of revocation.rs is an order, and the binary search in a sorted registry of keys
-- finds the key or the place where it belongs.
use steganographer.Common.{
  ℕ, zero, suc, ◌+◌, ◌-◌, ◌/◌, ◌<◌, ◌≤◌, ◌≡◌, ◌≢◌, refl, ◌⊎◌, inl, inr, List, [], ◌∷◌, length,
  get_or, leb, ◌==◌, Bool-cases, arith, ==_iff,
}
use steganographer.Revocation.{
  Order, before, same, after, compare_keys, Search, match_at, missing_at, narrow, settle,
  binary_search,
}

compare_keys-same : (a b : List ℕ) → compare_keys a b ≡ same → a ≡ b
unfolding compare_keys
compare_keys-same [] [] h = refl
compare_keys-same [] (y ∷ ys) h = cc
compare_keys-same (x ∷ xs) [] h = cc
compare_keys-same (x ∷ xs) (y ∷ ys) h = ground (arith, compare_keys-same xs ys)

pub compare_keys_refl : (a : List ℕ) → compare_keys a a ≡ same
unfolding compare_keys
compare_keys_refl [] = refl
compare_keys_refl (x ∷ xs) = ground (arith, compare_keys_refl xs)

compare_keys_flip : (a b : List ℕ) → compare_keys a b ≡ after → compare_keys b a ≡ before
unfolding compare_keys
compare_keys_flip [] [] h = cc
compare_keys_flip [] (y ∷ ys) h = cc
compare_keys_flip (x ∷ xs) [] h = refl
compare_keys_flip (x ∷ xs) (y ∷ ys) h = ground (arith, compare_keys_flip xs ys)

pub compare_keys_trans :
    (a b c : List ℕ)
    → compare_keys a b ≡ before
    → compare_keys b c ≡ before
    → compare_keys a c ≡ before
unfolding compare_keys
compare_keys_trans [] [] c h k = cc
compare_keys_trans [] (y ∷ ys) [] h k = cc
compare_keys_trans [] (y ∷ ys) (z ∷ zs) h k = refl
compare_keys_trans (x ∷ xs) [] c h k = cc
compare_keys_trans (x ∷ xs) (y ∷ ys) [] h k = cc
compare_keys_trans (x ∷ xs) (y ∷ ys) (z ∷ zs) h k = ground (arith, compare_keys_trans xs ys zs)

Order-cases : (o : Order) → (o ≡ before) ⊎ ((o ≡ same) ⊎ (o ≡ after))
Order-cases before = inl refl
Order-cases same = inr (inl refl)
Order-cases after = inr (inr refl)

abbrev pub at : List (List ℕ) → ℕ → List ℕ
at keys i = get_or keys i []

-- A registry in strictly ascending order.
abbrev pub IsSorted : List (List ℕ) → Type 0
IsSorted keys = (i j : ℕ) → i < j → j < length keys → compare_keys (at keys i) (at keys j) ≡ before

-- What a search tells.
abbrev pub Tells : List (List ℕ) → List ℕ → Search → Type 0
Tells keys key (match_at i) = (i < length keys) × (at keys i ≡ key)
Tells keys key (missing_at i) =
    (i ≤ length keys)
    × (((j : ℕ) → j < i → compare_keys (at keys j) key ≡ before)
        × ((j : ℕ) → i ≤ j → j < length keys → compare_keys key (at keys j) ≡ before))

module _ (keys : List (List ℕ)) (key : List ℕ) (sorted : IsSorted keys) where
  -- What holds of the loop's variables: the key is not below the base, unless that is the first
  -- index, and all keys behind the range are above it.
  abbrev Around : ℕ → ℕ → Type 0
  Around size base =
      ((base ≡ 0) ⊎ (compare_keys (at keys base) key ≢ after))
      × ((j : ℕ) → base + size ≤ j → j < length keys → compare_keys key (at keys j) ≡ before)

  narrow-Around :
      (fuel size base : ℕ)
      → size ≤ fuel
      → 0 < size
      → base + size ≤ length keys
      → Around size base
      → (narrow keys key fuel size base < length keys) × Around 1 (narrow keys key fuel size base)
  unfolding narrow
  narrow-Around zero size base enough pos fits a = absurd (omega arith)
  narrow-Around (suc fuel) size base enough pos fits (low, high) = elim (Bool-cases (leb size 1)) [
    | inl e ↦
        let last : size ≡ 1 = ground arith in
        rw e (omega (arith, fits), (low, λ j p q. high j (omega (arith, last)) q))
    | inr e ↦
        let big : 1 < size = ground arith in
        let half = size / 2 in
        let mid = base + half in
        elim (Order-cases (compare_keys (at keys mid) key)) [
          | inl c ↦
              rw (e, c)
                (narrow-Around fuel (size - half) mid (omega arith) (omega arith) (omega arith)
                  (inr (λ q. absurd (ground (arith, q, c))), λ j p q. high j (omega arith) q))
          | inr (inl c) ↦
              rw (e, c)
                (narrow-Around fuel (size - half) mid (omega arith) (omega arith) (omega arith)
                  (inr (λ q. absurd (ground (arith, q, c))), λ j p q. high j (omega arith) q))
          | inr (inr c) ↦
              let above = compare_keys_flip (at keys mid) key c in
              rw (e, c)
                (narrow-Around fuel (size - half) base (omega arith) (omega arith) (omega arith) (
                  low,
                  λ j p q. elim (Bool-cases (mid == j)) [
                    | inl here ↦
                        let same_place : mid ≡ j = (==_iff mid j).0 here in rw (← same_place) above
                    | inr there ↦
                        let further : mid < j = ground arith in
                        compare_keys_trans key (at keys mid) (at keys j) above
                          (sorted mid j further q)
                  ],
                ))
        ]
  ]

  settle_value :
      (base : ℕ) (o : Order)
      → compare_keys (at keys base) key ≡ o
      → settle keys key base
        ≡ elim o [ same ↦ match_at base | before ↦ missing_at (base + 1) | after ↦ missing_at base ]
  unfolding settle
  settle_value base before c = rw (settle, c) refl
  settle_value base same c = rw (settle, c) refl
  settle_value base after c = rw (settle, c) refl

  settle-Tells :
      (base : ℕ) → base < length keys → Around 1 base → Tells keys key (settle keys key base)
  settle-Tells base inside (low, high) = elim (Order-cases (compare_keys (at keys base) key)) [
    | inl c ↦ rw (settle_value base before c) (
      omega arith,
      (
        λ j p. elim (Bool-cases (j == base)) [
          | inl here ↦ let here' : j ≡ base = (==_iff j base).0 here in rw here' c
          | inr there ↦
              compare_keys_trans (at keys j) (at keys base) key
                (sorted j base (ground arith) inside) c
        ],
        λ j p q. high j (omega arith) q,
      ),
    )
    | inr (inl c) ↦ rw (settle_value base same c) (inside, compare_keys-same (at keys base) key c)
    | inr (inr c) ↦
        let first : base ≡ 0 = elim low [ inl z ↦ z | inr n ↦ absurd (n c) ] in
        let above = compare_keys_flip (at keys base) key c in
        rw (settle_value base after c) (
          omega arith,
          (
            λ j p. absurd (omega (arith, first)),
            λ j p q. elim (Bool-cases (j == base)) [
              | inl here ↦ let here' : j ≡ base = (==_iff j base).0 here in rw here' above
              | inr there ↦ high j (ground arith) q
            ],
          ),
        )
  ]

  -- In a sorted registry, `binary_search_by` finds the key where it stands, or the index that has the
  -- smaller keys before it and the greater ones from it on.
  pub binary_search-Tells : Tells keys key (binary_search keys key)
  unfolding binary_search
  binary_search-Tells = elim (Bool-cases (length keys == 0)) [
    | inl e ↦
        let none_there : length keys ≡ 0 = (==_iff (length keys) 0).0 e in
        rw e
          (omega arith, (λ j p. absurd (omega arith), λ j p q. absurd (omega (arith, none_there))))
    | inr e ↦
        let some_there : 0 < length keys = ground arith in
        let (inside, around) =
          narrow-Around (length keys) (length keys) 0 (omega arith) some_there (omega arith)
            (inl refl, λ j p q. absurd (omega arith)) in
        rw e (settle-Tells (narrow keys key (length keys) (length keys) 0) inside around)
  ]
