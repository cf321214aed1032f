-- ===== src/Placement/Walk.antt =====
-- Cycle walking ends, and the inverse walk leads back.
use steganographer.Common.{
  ℕ, zero, suc, ◌+◌, ◌-◌, ◌%◌, ◌^◌, ◌<◌, ◌≤◌, ◌≡◌, refl, sym, ap, ◌∙◌, ◌⊎◌, inl, inr, true, false,
  ltb, arith, List, some, Bool-cases,
}
use native.Mathlib.Nat.{zero-add, suc-add, add-zero}
use steganographer.Placement.{
  KeyedPermutation, feistel, feistel_inverse, cycle_walk, permute, inverse_permute,
}
use steganographer.Placement.Pigeonhole.{pigeonhole}
use steganographer.Placement.Inverse.{feistel_inverse-feistel}

iterate : (ℕ → ℕ) → ℕ → ℕ → ℕ
iterate f zero x = x
iterate f (suc k) x = iterate f k (f x)

iterate-suc : (f : ℕ → ℕ) (k x : ℕ) → iterate f (suc k) x ≡ f (iterate f k x)
unfolding iterate
iterate-suc f zero x = refl
iterate-suc f (suc k) x = iterate-suc f k (f x)

-- The walk stops at the first result below `len`.
cycle_walk-hit :
    (f : ℕ → ℕ) (len fuel k y : ℕ)
    → k < fuel
    → ((j : ℕ) → j < k → len ≤ iterate f (suc j) y)
    → iterate f (suc k) y < len
    → cycle_walk f len fuel y ≡ some (iterate f (suc k) y)
unfolding cycle_walk iterate
cycle_walk-hit f len zero k y h above below = absurd (omega arith)
cycle_walk-hit f len (suc fuel) zero y h above below =
    let here : ltb (f y) len ≡ true = ground arith in rw here
cycle_walk-hit f len (suc fuel) (suc k) y h above below =
    let past = above 0 (omega arith) in
    let here : ltb (f y) len ≡ false = ground arith in
    let later =
      cycle_walk-hit f len fuel k (f y) (omega arith) (λ j p. above (suc j) (omega arith)) below in
    rw here later

-- Among the first `n` steps, the first one that is below `len`, if there is one.
first_below :
    (f : ℕ → ℕ) (len y n : ℕ)
    → ((k : ℕ) × ((k < n)
          × (((j : ℕ) → j < k → len ≤ iterate f (suc j) y) × (iterate f (suc k) y < len))))
      ⊎ ((j : ℕ) → j < n → len ≤ iterate f (suc j) y)
first_below f len y zero = inr (λ j p. absurd (omega arith))
first_below f len y (suc n) = elim (first_below f len y n) [
  | inl found ↦ inl (found.0, (omega (arith, found.1.0), found.1.1))
  | inr above ↦ elim (Bool-cases (ltb (iterate f (suc n) y) len)) [
    | inl e ↦ inl (n, (omega arith, (above, ground arith)))
    | inr e ↦ inr (λ j p. elim (Bool-cases (ltb j n)) [
      | inl less ↦ above j (ground arith)
      | inr last ↦
          let same : j ≡ n = ground arith in
          let far : len ≤ iterate f (suc n) y = ground arith in rw same far
    ])
  ]
]

-- A map of the numbers below `n` with an inverse.
module _ (n : ℕ) (f g : ℕ → ℕ) (f-lt : (x : ℕ) → x < n → f x < n)
    (g-f : (x : ℕ) → x < n → g (f x) ≡ x) where
  iterate-lt : (k x : ℕ) → x < n → iterate f k x < n
  unfolding iterate
  iterate-lt zero x h = h
  iterate-lt (suc k) x h = iterate-lt k (f x) (f-lt x h)

  -- Steps back undo the last steps.
  iterate_back : (j m x : ℕ) → x < n → iterate g j (iterate f (j + m) x) ≡ iterate f m x
  unfolding iterate
  iterate_back zero m x h = ap (λ (t : ℕ). iterate f t x) (zero-add m)
  iterate_back (suc j) m x h =
      let shift : iterate f (suc j + m) x ≡ f (iterate f (j + m) x) =
        ap (λ (t : ℕ). iterate f t x) (suc-add j m) ∙ iterate-suc f (j + m) x in
      let undone : g (iterate f (suc j + m) x) ≡ iterate f (j + m) x =
        ap g shift ∙ g-f (iterate f (j + m) x) (iterate-lt (j + m) x h) in
      let before = iterate_back j m x h in ap (iterate g j) undone ∙ before

  -- Some iterate of `x` comes back to `x` within `n` steps.
  iterate-returns : (x : ℕ) → x < n → (k : ℕ) × ((k < n) × (iterate f (suc k) x ≡ x))
  iterate-returns x h =
      let (i, (j, (less, (bound, same)))) =
        pigeonhole n (λ k. iterate f k x) (λ k p. iterate-lt k x h) in
      let gap : i + suc (j - suc i) ≡ j = omega (arith, less) in
      let round : iterate f (suc (j - suc i)) x ≡ x =
        sym (iterate_back i (suc (j - suc i)) x h)
        ∙ ap (λ (t : ℕ). iterate g i (iterate f t x)) gap
        ∙ ap (iterate g i) (sym same)
        ∙ ap (λ (t : ℕ). iterate g i (iterate f t x)) (sym (add-zero i))
        ∙ iterate_back i 0 x h
        ∙ (unfold iterate in refl) in
      (j - suc i, (omega (arith, less, bound), round))

  -- The walk from a number below `len` ends below `len`, and the walk back from there returns.
  walks :
      (len x : ℕ)
      → x < len
      → len ≤ n
      → (y : ℕ) × ((cycle_walk f len n x ≡ some y) × ((y < len) × (cycle_walk g len n y ≡ some x)))
  walks len x h hl = elim (first_below f len x n) [
    | inl (k, (bound, (above, below))) ↦
        let start : iterate g (suc k) (iterate f (suc k) x) ≡ x =
          ap (λ (t : ℕ). iterate g (suc k) (iterate f t x)) (sym (add-zero (suc k)))
          ∙ iterate_back (suc k) 0 x (omega arith)
          ∙ (unfold iterate in refl) in
        let high : (j : ℕ) → j < k → len ≤ iterate g (suc j) (iterate f (suc k) x) = λ j p.
          let split : suc j + suc (k - suc j) ≡ suc k = omega arith in
          let at : iterate g (suc j) (iterate f (suc k) x) ≡ iterate f (suc (k - suc j)) x =
            ap (λ (t : ℕ). iterate g (suc j) (iterate f t x)) (sym split)
            ∙ iterate_back (suc j) (suc (k - suc j)) x (omega arith) in
          rw at (above (k - suc j) (omega arith)) in
        (
          iterate f (suc k) x,
          (
            cycle_walk-hit f len n k x bound above below,
            (
              below,
              cycle_walk-hit g len n k (iterate f (suc k) x) bound high (rw start h)
                  ∙ ap some start,
            ),
          ),
        )
    | inr above ↦
        let (k, (bound, round)) = iterate-returns x (omega arith) in
        absurd (omega (arith, above k bound, round))
  ]

-- For an even number of bits of at most 64 and a length within the domain, `permute` ends on every
-- logical slot, within as many steps as the domain has elements, with a physical slot below the
-- length, and `inverse_permute` maps that slot back.
pub inverse_permute-permute :
    (keyed_blake3 : List ℕ → List ℕ → List ℕ) (p : KeyedPermutation) (i : ℕ)
    → p.bits % 2 ≡ 0
    → p.bits ≤ 64
    → p.len ≤ 2 ^ p.bits
    → i < p.len
    → (y : ℕ) × ((permute keyed_blake3 p i ≡ some y)
        × ((y < p.len) × (inverse_permute keyed_blake3 p y ≡ some i)))
unfolding permute inverse_permute
inverse_permute-permute keyed_blake3 p i even small fits h =
    let laws = λ (x : ℕ). feistel_inverse-feistel keyed_blake3 p.bits p.key p.label x even small in
    walks (2 ^ p.bits) (feistel keyed_blake3 p.bits p.key p.label)
      (feistel_inverse keyed_blake3 p.bits p.key p.label) (λ x w. (laws x w).1.1.0)
      (λ x w. (laws x w).0) p.len i h fits
