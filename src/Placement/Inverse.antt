-- ===== src/Placement/Inverse.antt =====
-- The two directions of the Feistel network undo each other.
use steganographer.Common.{
  ℕ, zero, suc, ◌+◌, ◌-◌, ◌*◌, ◌/◌, ◌%◌, ◌^◌, ◌<◌, ◌≤◌, ◌≡◌, refl, sym, ap, ap₂, ◌∙◌, List, arith,
  bit_and, bit_or, bit_xor,
}
use native.Mathlib.Nat.{
  pow-suc, pow-le-pow_right, mod-lt, mod-eq_of_lt, one-le-pow, div-add-mod', add-mul-div_right,
  mul-add-mod_self_right, div-eq_of_lt, div-lt_iff_lt-mul,
}
use steganographer.Common.Bits.{bit_and_mask, bit_or_fields, bit_xor_cancel, bit_xor-lt}
use steganographer.Placement.{
  Halves, round_fn, half_mask, feistel_round, feistel_unround, feistel_rounds, feistel_unrounds,
  split_halves, join_halves, feistel, feistel_inverse,
}

-- Both halves are numbers of `half` bits.
pub record IsHalves (half : ℕ) (h : Halves) : Type 0 where
  pub left_range : h.left < 2 ^ half
  pub right_range : h.right < 2 ^ half

masked_id : (half a : ℕ) → a < 2 ^ half → bit_and a (2 ^ half - 1) ≡ a
masked_id half a h = bit_and_mask half a ∙ mod-eq_of_lt h

masked-lt : (half a : ℕ) → bit_and a (2 ^ half - 1) < 2 ^ half
masked-lt half a = rw (bit_and_mask half a) (mod-lt a (one-le-pow half 2 (omega arith)))

pow_double : (k : ℕ) → 2 ^ (k + k) ≡ 2 ^ k * 2 ^ k
pow_double zero = refl
pow_double (suc k) =
    let square : 2 ^ k * 2 * (2 ^ k * 2) ≡ 4 * (2 ^ k * 2 ^ k) = grind arith in
    let outer : 2 ^ suc k * 2 ^ suc k ≡ 2 ^ k * 2 * (2 ^ k * 2) =
      ap (λ (t : ℕ). t * t) (pow-suc 2 k) in
    let twice : suc k + suc k ≡ suc (suc (k + k)) = omega arith in
    let inner : 2 ^ (suc k + suc k) ≡ 4 * 2 ^ (k + k) =
      ap (λ (t : ℕ). 2 ^ t) twice ∙ (omega (arith, pow-suc 2 (suc (k + k)), pow-suc 2 (k + k))) in
    omega (arith, square, outer, inner, pow_double k)

square_bound : (p l r : ℕ) → l < p → r < p → l * p + r < p * p
square_bound p l r h k = grind arith

quotient_bound : (p x : ℕ) → 0 < p → x < p * p → x / p < p
quotient_bound p x pos h = (div-lt_iff_lt-mul {k = p} {x = x} {y = p} pos).1 h

-- A masked `^` of the same bits is undone by the same step.
xor_twice :
    (half a f : ℕ)
    → a < 2 ^ half
    → bit_and
        (bit_xor
          (bit_and (bit_xor a (bit_and f (2 ^ half - 1))) (2 ^ half - 1))
          (bit_and f (2 ^ half - 1)))
        (2 ^ half - 1)
      ≡ a
xor_twice half a f h =
    let m = bit_and f (2 ^ half - 1) in
    ap (λ (t : ℕ). bit_and (bit_xor t m) (2 ^ half - 1))
      (masked_id half (bit_xor a m) (bit_xor-lt half a m h (masked-lt half f)))
    ∙ ap (λ (t : ℕ). bit_and t (2 ^ half - 1)) (bit_xor_cancel a m)
    ∙ masked_id half a h

module _ (keyed_blake3 : List ℕ → List ℕ → List ℕ) (bits : ℕ) (key label : List ℕ) where
  feistel_unround-feistel_round :
      (round : ℕ) (h : Halves)
      → IsHalves (bits / 2) h
      → feistel_unround keyed_blake3 bits key label round
          (feistel_round keyed_blake3 bits key label round h)
        ≡ h
  unfolding feistel_round feistel_unround half_mask
  feistel_unround-feistel_round round h w = λ i. record {
    left =
        xor_twice (bits / 2) h.left (round_fn keyed_blake3 key label round h.right) w.left_range i;
    right = h.right;
  }

  feistel_round-feistel_unround :
      (round : ℕ) (h : Halves)
      → IsHalves (bits / 2) h
      → feistel_round keyed_blake3 bits key label round
          (feistel_unround keyed_blake3 bits key label round h)
        ≡ h
  unfolding feistel_round feistel_unround half_mask
  feistel_round-feistel_unround round h w = λ i. record {
    left = h.left;
    right =
        xor_twice (bits / 2) h.right (round_fn keyed_blake3 key label round h.left) w.right_range i;
  }

  feistel_round-IsHalves :
      (round : ℕ) (h : Halves)
      → IsHalves (bits / 2) h
      → IsHalves (bits / 2) (feistel_round keyed_blake3 bits key label round h)
  unfolding feistel_round half_mask
  feistel_round-IsHalves round h w = record {
    left_range = w.right_range;
    right_range = masked-lt (bits / 2) _;
  }

  feistel_unround-IsHalves :
      (round : ℕ) (h : Halves)
      → IsHalves (bits / 2) h
      → IsHalves (bits / 2) (feistel_unround keyed_blake3 bits key label round h)
  unfolding feistel_unround half_mask
  feistel_unround-IsHalves round h w = record {
    left_range = masked-lt (bits / 2) _;
    right_range = w.left_range;
  }

  feistel_rounds-IsHalves :
      (count round : ℕ) (h : Halves)
      → IsHalves (bits / 2) h
      → IsHalves (bits / 2) (feistel_rounds keyed_blake3 bits key label count round h)
  unfolding feistel_rounds
  feistel_rounds-IsHalves zero round h w = w
  feistel_rounds-IsHalves (suc count) round h w =
      feistel_rounds-IsHalves count (round + 1) _ (feistel_round-IsHalves round h w)

  feistel_unrounds-IsHalves :
      (count round : ℕ) (h : Halves)
      → IsHalves (bits / 2) h
      → IsHalves (bits / 2) (feistel_unrounds keyed_blake3 bits key label count round h)
  unfolding feistel_unrounds
  feistel_unrounds-IsHalves zero round h w = w
  feistel_unrounds-IsHalves (suc count) round h w =
      feistel_unround-IsHalves round _ (feistel_unrounds-IsHalves count (round + 1) h w)

  feistel_unrounds-feistel_rounds :
      (count round : ℕ) (h : Halves)
      → IsHalves (bits / 2) h
      → feistel_unrounds keyed_blake3 bits key label count round
          (feistel_rounds keyed_blake3 bits key label count round h)
        ≡ h
  unfolding feistel_rounds feistel_unrounds
  feistel_unrounds-feistel_rounds zero round h w = refl
  feistel_unrounds-feistel_rounds (suc count) round h w =
      ap (feistel_unround keyed_blake3 bits key label round)
        (feistel_unrounds-feistel_rounds count (round + 1) _ (feistel_round-IsHalves round h w))
      ∙ feistel_unround-feistel_round round h w

  feistel_rounds-feistel_unrounds :
      (count round : ℕ) (h : Halves)
      → IsHalves (bits / 2) h
      → feistel_rounds keyed_blake3 bits key label count round
          (feistel_unrounds keyed_blake3 bits key label count round h)
        ≡ h
  unfolding feistel_rounds feistel_unrounds
  feistel_rounds-feistel_unrounds zero round h w = refl
  feistel_rounds-feistel_unrounds (suc count) round h w =
      ap (feistel_rounds keyed_blake3 bits key label count (round + 1))
        (feistel_round-feistel_unround round _ (feistel_unrounds-IsHalves count (round + 1) h w))
      ∙ feistel_rounds-feistel_unrounds count (round + 1) h w

  split_halves-IsHalves : (x : ℕ) → IsHalves (bits / 2) (split_halves keyed_blake3 bits key label x)
  unfolding split_halves half_mask
  split_halves-IsHalves x = record {
    left_range = masked-lt (bits / 2) _;
    right_range = masked-lt (bits / 2) x;
  }

  -- On halves, joining needs neither mask nor wrap-around.
  join_halves_lem :
      (h : Halves)
      → bits % 2 ≡ 0
      → bits ≤ 64
      → IsHalves (bits / 2) h
      → join_halves keyed_blake3 bits key label h ≡ h.left * 2 ^ (bits / 2) + h.right
  unfolding join_halves
  join_halves_lem h even small w =
      let half = bits / 2 in
      let width : half + half ≡ bits = omega arith in
      let square : 2 ^ bits ≡ 2 ^ half * 2 ^ half =
        ap (λ (t : ℕ). 2 ^ t) (sym width) ∙ pow_double half in
      let whole : h.left * 2 ^ half + h.right < 2 ^ half * 2 ^ half =
        square_bound (2 ^ half) h.left h.right w.left_range w.right_range in
      let word : 2 ^ bits ≤ 2 ^ 64 = pow-le-pow_right {n = 2} (omega arith) small in
      let shifted : h.left * 2 ^ half % 2 ^ 64 ≡ h.left * 2 ^ half =
        mod-eq_of_lt (omega (arith, square, whole, word)) in
      ap (λ (t : ℕ). bit_and (bit_or t h.right) (2 ^ bits - 1)) shifted
      ∙ ap (λ (t : ℕ). bit_and t (2 ^ bits - 1)) (bit_or_fields half h.left h.right w.right_range)
      ∙ masked_id bits (h.left * 2 ^ half + h.right) (omega (arith, square, whole))

  split_halves-join_halves :
      (h : Halves)
      → bits % 2 ≡ 0
      → bits ≤ 64
      → IsHalves (bits / 2) h
      → split_halves keyed_blake3 bits key label (join_halves keyed_blake3 bits key label h) ≡ h
  unfolding split_halves half_mask
  split_halves-join_halves h even small w =
      let half = bits / 2 in
      let joined = join_halves_lem h even small w in
      let pos : 0 < 2 ^ half = one-le-pow half 2 (omega arith) in
      let swapped : h.left * 2 ^ half + h.right ≡ h.right + h.left * 2 ^ half = omega arith in
      let high : (h.left * 2 ^ half + h.right) / 2 ^ half ≡ h.left =
        ap (λ (t : ℕ). t / 2 ^ half) swapped
        ∙ add-mul-div_right h.right h.left pos
        ∙ (omega (arith, div-eq_of_lt w.right_range)) in
      let low : (h.left * 2 ^ half + h.right) % 2 ^ half ≡ h.right =
        mul-add-mod_self_right h.left (2 ^ half) h.right ∙ mod-eq_of_lt w.right_range in
      λ i. record {
        left =
            (ap (λ (t : ℕ). bit_and (t / 2 ^ half) (2 ^ half - 1)) joined
                ∙ ap (λ (t : ℕ). bit_and t (2 ^ half - 1)) high
                ∙ masked_id half h.left w.left_range)
              i;
        right =
            (ap (λ (t : ℕ). bit_and t (2 ^ half - 1)) joined
                ∙ bit_and_mask half (h.left * 2 ^ half + h.right)
                ∙ low)
              i;
      }

  join_halves-split_halves :
      (x : ℕ)
      → bits % 2 ≡ 0
      → bits ≤ 64
      → x < 2 ^ bits
      → join_halves keyed_blake3 bits key label (split_halves keyed_blake3 bits key label x) ≡ x
  unfolding split_halves half_mask
  join_halves-split_halves x even small range =
      let half = bits / 2 in
      let p : ℕ = 2 ^ half in
      let width : half + half ≡ bits = omega arith in
      let square : 2 ^ bits ≡ p * p = ap (λ (t : ℕ). 2 ^ t) (sym width) ∙ pow_double half in
      let pos : 0 < p = one-le-pow half 2 (omega arith) in
      let top : x / p < p = quotient_bound p x pos (omega (arith, square)) in
      join_halves_lem (split_halves keyed_blake3 bits key label x) even small
        (split_halves-IsHalves x)
      ∙ ap₂ (λ (a b : ℕ). a * p + b) (masked_id half (x / p) top) (bit_and_mask half x)
      ∙ div-add-mod' x p

  join_halves-lt :
      (h : Halves)
      → bits % 2 ≡ 0
      → bits ≤ 64
      → IsHalves (bits / 2) h
      → join_halves keyed_blake3 bits key label h < 2 ^ bits
  unfolding join_halves
  join_halves-lt h even small w = masked-lt bits _

  -- On numbers of `bits` bits, for an even `bits` of at most 64, the network and its inverse undo
  -- each other in both orders, and both stay within `bits` bits.
  pub feistel_inverse-feistel :
      (x : ℕ)
      → bits % 2 ≡ 0
      → bits ≤ 64
      → x < 2 ^ bits
      → (feistel_inverse keyed_blake3 bits key label (feistel keyed_blake3 bits key label x) ≡ x)
        × ((feistel keyed_blake3 bits key label (feistel_inverse keyed_blake3 bits key label x) ≡ x)
            × ((feistel keyed_blake3 bits key label x < 2 ^ bits)
                × (feistel_inverse keyed_blake3 bits key label x < 2 ^ bits)))
  unfolding feistel feistel_inverse
  feistel_inverse-feistel x even small range =
      let start = split_halves keyed_blake3 bits key label x in
      let ws = split_halves-IsHalves x in
      let forth = feistel_rounds keyed_blake3 bits key label 8 0 start in
      let back = feistel_unrounds keyed_blake3 bits key label 8 0 start in
      let wf = feistel_rounds-IsHalves 8 0 start ws in
      let wb = feistel_unrounds-IsHalves 8 0 start ws in
      (
        ap
              (λ h.
                join_halves keyed_blake3 bits key label
                  (feistel_unrounds keyed_blake3 bits key label 8 0 h))
              (split_halves-join_halves forth even small wf)
            ∙ ap (join_halves keyed_blake3 bits key label)
                (feistel_unrounds-feistel_rounds 8 0 start ws)
            ∙ join_halves-split_halves x even small range,
        (
          ap
                (λ h.
                  join_halves keyed_blake3 bits key label
                    (feistel_rounds keyed_blake3 bits key label 8 0 h))
                (split_halves-join_halves back even small wb)
              ∙ ap (join_halves keyed_blake3 bits key label)
                  (feistel_rounds-feistel_unrounds 8 0 start ws)
              ∙ join_halves-split_halves x even small range,
          (join_halves-lt forth even small wf, join_halves-lt back even small wb),
        ),
      )
