-- ===== src/Carrier/Spatial/Write.antt =====
-- What the writing loops of carrier.rs leave in every unit.
use steganographer.Common.{
  ℕ, zero, suc, ◌+◌, ◌-◌, ◌*◌, ◌^◌, ◌<◌, ◌≤◌, min, ◌≡◌, refl, sym, ap, ◌∙◌, ◌≢◌, inl, inr, List,
  ltb, if◌then◌else◌, ltb→lt, le→ltb_false, Bool-cases, arith,
}
use steganographer.Common.Digits.{digit, digit-bit_or, digit_at, digit_other, bit_or-lt}
use native.Mathlib.Nat.{mod-lt, one-le-pow, pow-suc, pow-le-pow_right, mul-le-mul_right}
use steganographer.Carrier.Spatial.{packet_bit, Gather, gather_step, gather}

-- The bit that a loop places for bit index `i`.
abbrev pub placed : List ℕ → ℕ → ℕ → ℕ
placed packet needed i = if ltb i needed then packet_bit packet i else 0

pub packet_bit-lt : (packet : List ℕ) (i : ℕ) → packet_bit packet i < 2
unfolding packet_bit
packet_bit-lt packet i = mod-lt _ {m = 2} (omega arith)

pub placed_none : (packet : List ℕ) (needed i : ℕ) → needed ≤ i → placed packet needed i ≡ 0
placed_none packet needed i h = rw (le→ltb_false i needed h)

pub bit_shifted-lt : (b shift m : ℕ) → b < 2 → shift < m → b * 2 ^ shift < 2 ^ m
bit_shifted-lt b shift m h p = omega (
  arith,
  pow-le-pow_right {n = 2} (omega arith) {i = suc shift} {j = m} p,
  pow-suc 2 shift,
  one-le-pow shift 2 (omega arith),
  mul-le-mul_right {m = b} {n = 1} (2 ^ shift) (omega (arith, h)),
)

module _ (packet : List ℕ) (needed : ℕ) where
  step_other :
      (shift s : ℕ) (g : Gather)
      → shift ≢ s
      → digit (gather_step packet needed shift g).low_bits s ≡ digit g.low_bits s
  unfolding gather_step
  step_other shift s g n = elim (Bool-cases (ltb g.bit_index needed)) [
    | inl e ↦ rw e (
        omega (
          arith,
          digit-bit_or g.low_bits (packet_bit packet g.bit_index * 2 ^ shift) s,
          digit_other (packet_bit packet g.bit_index) shift s (packet_bit-lt packet g.bit_index) n,
        ))
    | inr e ↦ rw e
  ]

  step_same :
      (shift : ℕ) (g : Gather)
      → digit g.low_bits shift ≡ 0
      → digit (gather_step packet needed shift g).low_bits shift ≡ placed packet needed g.bit_index
  unfolding gather_step
  step_same shift g z = elim (Bool-cases (ltb g.bit_index needed)) [
    | inl e ↦ rw e (
        omega (
          arith,
          z,
          digit-bit_or g.low_bits (packet_bit packet g.bit_index * 2 ^ shift) shift,
          digit_at (packet_bit packet g.bit_index) shift (packet_bit-lt packet g.bit_index),
        ))
    | inr e ↦ rw e z
  ]

  step-bit_index :
      (shift : ℕ) (g : Gather)
      → g.bit_index ≤ needed
      → (gather_step packet needed shift g).bit_index ≡ min (g.bit_index + 1) needed
  unfolding gather_step
  step-bit_index shift g h = elim (Bool-cases (ltb g.bit_index needed)) [
    | inl e ↦ rw e (ground arith)
    | inr e ↦ rw e (ground arith)
  ]

  pub gather-bit_index :
      (n : ℕ) (g : Gather)
      → g.bit_index ≤ needed
      → (gather packet needed n g).bit_index ≡ min (g.bit_index + n) needed
  unfolding gather
  gather-bit_index zero g h = omega arith
  gather-bit_index (suc shift) g h = omega (
    arith,
    step-bit_index shift g h,
    gather-bit_index shift (gather_step packet needed shift g)
        (omega (arith, step-bit_index shift g h)),
  )

  gather_above :
      (n s : ℕ) (g : Gather)
      → n ≤ s
      → digit (gather packet needed n g).low_bits s ≡ digit g.low_bits s
  unfolding gather
  gather_above zero s g h = refl
  gather_above (suc shift) s g h =
      gather_above shift s (gather_step packet needed shift g) (omega arith)
      ∙ step_other shift s g (λ e. absurd (omega (arith, e)))

  -- The digits of the low bits, for bits that start at `g.bit_index`.
  pub gather-digit :
      (n s : ℕ) (g : Gather)
      → g.bit_index ≤ needed
      → ((t : ℕ) → t < n → digit g.low_bits t ≡ 0)
      → s < n
      → digit (gather packet needed n g).low_bits s
        ≡ placed packet needed (g.bit_index + (n - 1 - s))
  unfolding gather
  gather-digit zero s g h z w = absurd (omega arith)
  gather-digit (suc shift) s g h z w = elim (Bool-cases (ltb s shift)) [
    | inl e ↦
        let less : s < shift = ground arith in
        let next = gather_step packet needed shift g in
        let moved = step-bit_index shift g h in
        let later =
          gather-digit shift s next (omega (arith, moved))
            (λ t p. step_other shift t g (λ q. absurd (omega (arith, q))) ∙ z t (omega arith))
            less in
        elim (Bool-cases (ltb g.bit_index needed)) [
          | inl more ↦
              let index : next.bit_index + (shift - 1 - s) ≡ g.bit_index + (suc shift - 1 - s) =
                omega (arith, moved, ltb→lt g.bit_index needed more, less) in
              later ∙ ap (placed packet needed) index
          | inr over ↦
              let full : g.bit_index ≡ needed = ground arith in
              later
              ∙ placed_none packet needed _ (omega (arith, moved, full))
              ∙ sym (placed_none packet needed _ (omega (arith, full)))
        ]
    | inr e ↦
        let same : s ≡ shift = ground arith in
        let index : g.bit_index + (suc shift - 1 - s) ≡ g.bit_index = omega (arith, same) in
        gather_above shift s (gather_step packet needed shift g) (omega (arith, same))
        ∙ (rw same (step_same shift g (z shift (omega arith))))
        ∙ ap (placed packet needed) (sym index)
  ]

  pub gather-lt :
      (m n : ℕ) (g : Gather)
      → n ≤ m
      → g.low_bits < 2 ^ m
      → (gather packet needed n g).low_bits < 2 ^ m
  unfolding gather gather_step
  gather-lt m zero g h p = p
  gather-lt m (suc shift) g h p =
      gather-lt m shift (gather_step packet needed shift g) (omega arith)
        (elim (Bool-cases (ltb g.bit_index needed)) [
          | inl e ↦ rw e (
              bit_or-lt m g.low_bits _ p
                (bit_shifted-lt _ shift m (packet_bit-lt packet g.bit_index) h))
          | inr e ↦ rw e p
        ])
