-- ===== src/Placement/Pigeonhole.antt =====
-- Among more values than there are numbers below a bound, two are equal.
use steganographer.Common.{
  ℕ, zero, suc, ◌<◌, ◌≤◌, ◌≡◌, ◌≢◌, ap, ◌⊎◌, inl, inr, ◌==◌, if◌then◌else◌, arith, Bool-cases,
  ==_iff,
}

search_value :
    (h : ℕ → ℕ) (t n : ℕ) → ((j : ℕ) × ((j < n) × (h j ≡ t))) ⊎ ((j : ℕ) → j < n → h j ≢ t)
search_value h t zero = inr (λ j p. absurd (omega arith))
search_value h t (suc n) =
    let earlier = search_value h t n in
    elim (Bool-cases (h n == t)) [
      | inl e ↦ inl (n, (omega arith, (==_iff (h n) t).0 e))
      | inr e ↦ elim earlier [
        | inl found ↦ inl (found.0, (omega (arith, found.1.0), found.1.1))
        | inr none_of ↦ inr (λ j p q. elim (Bool-cases (j == n)) [
          | inl same ↦ ground (arith, ap h ((==_iff j n).0 same))
          | inr other ↦ none_of j (ground arith) q
        ])
      ]
    ]

-- The values below `suc n`, with the value `n` replaced by the last one.
abbrev squeeze : (ℕ → ℕ) → ℕ → ℕ → ℕ
squeeze h n j = if h j == n then h (suc n) else h j

squeeze-injective :
    (a b l n : ℕ) → a ≢ l → b ≢ l → (if a == n then l else a) ≡ (if b == n then l else b) → a ≡ b
squeeze-injective a b l n p q e = ground arith

pub pigeonhole :
    (n : ℕ) (h : ℕ → ℕ)
    → ((i : ℕ) → i ≤ n → h i < n)
    → (i : ℕ) × ((j : ℕ) × ((i < j) × ((j ≤ n) × (h i ≡ h j))))
pigeonhole zero h below = absurd (omega (arith, below 0 (omega arith)))
pigeonhole (suc n) h below = elim (search_value h (h (suc n)) (suc n)) [
  | inl found ↦ (found.0, (suc n, (found.1.0, (omega arith, found.1.1))))
  | inr fresh ↦
      let (i, (j, (less, (bound, same)))) = pigeonhole n (squeeze h n) (λ i p.
        let b = below i (omega arith) in
        let l = below (suc n) (omega arith) in
        let f = fresh i (omega arith) in
        elim (Bool-cases (h i == n)) [
          | inl e ↦ rw e (ground arith)
          | inr e ↦ rw e (ground arith)
        ]) in
      let fi = fresh i (omega (arith, less, bound)) in
      let fj = fresh j (omega (arith, bound)) in
      (
        i,
        (j, (less, (omega (arith, bound), squeeze-injective (h i) (h j) (h (suc n)) n fi fj same))),
      )
]
