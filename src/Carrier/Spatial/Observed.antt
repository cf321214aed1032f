-- ===== src/Carrier/Spatial/Observed.antt =====
-- The bits of the units of a carrier of carrier.rs, taken together as bytes: what its reading loops
-- find in any carrier.
use steganographer.Common.{
  ℕ, zero, suc, ◌+◌, ◌-◌, ◌*◌, ◌/◌, ◌%◌, ◌^◌, ◌<◌, ◌≤◌, ◌≡◌, refl, sym, ap, ap₂, ◌∙◌, inl, inr,
  List, [], ◌∷◌, length, get_or, ltb, arith, All, ok, Bool-cases,
}
use steganographer.Common.Bytes.{IsByte}
use steganographer.Common.Digits.{digit}
use native.Mathlib.Nat.{
  mod-lt, mod-eq_of_lt, div-eq_of_lt, add-mul-div_right, mul-add-mod_self_right, add_comm,
}
use steganographer.Packet.Types.{usize_max}
use steganographer.Carrier.{div_ceil}
use steganographer.Carrier.Spatial.{packet_bit, read_from}
use steganographer.Carrier.Spatial.Read.{Carries, read_from-Carries}

module _ (f : ℕ → ℕ) (small : (k : ℕ) → f k < 2) where
  abbrev packed_byte : ℕ → ℕ
  packed_byte at =
      f (at + 0) * 128
      + f (at + 1) * 64
      + f (at + 2) * 32
      + f (at + 3) * 16
      + f (at + 4) * 8
      + f (at + 5) * 4
      + f (at + 6) * 2
      + f (at + 7)

  packed_byte-IsByte : (at : ℕ) → packed_byte at < 256
  packed_byte-IsByte at = omega (
    arith,
    small at,
    small (at + 1),
    small (at + 2),
    small (at + 3),
    small (at + 4),
    small (at + 5),
    small (at + 6),
    small (at + 7),
  )

  packed_byte-digit_of :
      (at j : ℕ)
      → f (at + 0) < 2
      → f (at + 1) < 2
      → f (at + 2) < 2
      → f (at + 3) < 2
      → f (at + 4) < 2
      → f (at + 5) < 2
      → f (at + 6) < 2
      → f (at + 7) < 2
      → j < 8
      → packed_byte at / 2 ^ (7 - j) % 2 ≡ f (at + j)
  packed_byte-digit_of at zero h0 h1 h2 h3 h4 h5 h6 h7 h = omega arith
  packed_byte-digit_of at (suc zero) h0 h1 h2 h3 h4 h5 h6 h7 h = omega arith
  packed_byte-digit_of at (suc (suc zero)) h0 h1 h2 h3 h4 h5 h6 h7 h = omega arith
  packed_byte-digit_of at (suc (suc (suc zero))) h0 h1 h2 h3 h4 h5 h6 h7 h = omega arith
  packed_byte-digit_of at (suc (suc (suc (suc zero)))) h0 h1 h2 h3 h4 h5 h6 h7 h = omega arith
  packed_byte-digit_of at (suc (suc (suc (suc (suc zero))))) h0 h1 h2 h3 h4 h5 h6 h7 h = omega arith
  packed_byte-digit_of at (suc (suc (suc (suc (suc (suc zero)))))) h0 h1 h2 h3 h4 h5 h6 h7 h =
      omega arith
  packed_byte-digit_of at (suc (suc (suc (suc (suc (suc (suc zero))))))) h0 h1 h2 h3 h4 h5 h6 h7 h =
      omega arith
  packed_byte-digit_of at (suc (suc (suc (suc (suc (suc (suc (suc j)))))))) h0 h1 h2 h3 h4 h5 h6 h7
        h =
      absurd (omega arith)

  -- Bit `j` of the byte, from the highest.
  packed_byte-digit : (at j : ℕ) → j < 8 → packed_byte at / 2 ^ (7 - j) % 2 ≡ f (at + j)
  packed_byte-digit at j =
      packed_byte-digit_of at j (small (at + 0)) (small (at + 1)) (small (at + 2)) (small (at + 3))
        (small (at + 4)) (small (at + 5)) (small (at + 6)) (small (at + 7))

  packed : ℕ → ℕ → List ℕ
  packed zero at = []
  packed (suc n) at = packed_byte at ∷ packed n (at + 8)

  length-packed : (n at : ℕ) → length (packed n at) ≡ n
  unfolding packed
  length-packed zero at = refl
  length-packed (suc n) at = ap suc (length-packed n (at + 8))

  packed-IsByte : (n at : ℕ) → All IsByte (packed n at)
  unfolding packed
  packed-IsByte zero at = tt
  packed-IsByte (suc n) at = (packed_byte-IsByte at, packed-IsByte n (at + 8))

  packet_bit-packed : (n at k : ℕ) → k < n * 8 → packet_bit (packed n at) k ≡ f (at + k)
  unfolding packed packet_bit
  packet_bit-packed zero at k h = absurd (omega arith)
  packet_bit-packed (suc n) at k h = elim (Bool-cases (ltb k 8)) [
    | inl e ↦
        let first : k / 8 ≡ 0 = ground arith in
        let place : k % 8 ≡ k = ground arith in
        rw (first, place) (packed_byte-digit at k (ground arith))
    | inr e ↦
        let later : k / 8 ≡ suc ((k - 8) / 8) = ground arith in
        let place : k % 8 ≡ (k - 8) % 8 = ground arith in
        let shift : at + 8 + (k - 8) ≡ at + k = ground arith in
        rw (later, place) (packet_bit-packed n (at + 8) (k - 8) (ground arith) ∙ ap f shift)
  ]

module _ (carrier : List ℕ) (physical : ℕ → ℕ) (bits : ℕ) (pos : 0 < bits) where
  -- Bit `k` of what the units hold.
  abbrev unit_bit : ℕ → ℕ
  unit_bit k = digit (get_or carrier (physical (k / bits)) 0) (bits - 1 - k % bits)

  unit_bit-lt : (k : ℕ) → unit_bit k < 2
  unit_bit-lt k =
      mod-lt (get_or carrier (physical (k / bits)) 0 / 2 ^ (bits - 1 - k % bits)) {m = 2}
        (omega arith)

  unit_bit_lem :
      (u s : ℕ)
      → s < bits
      → unit_bit (u * bits + (bits - 1 - s)) ≡ digit (get_or carrier (physical u) 0) s
  unit_bit_lem u s h =
      let r = bits - 1 - s in
      let less : r < bits = omega arith in
      let unit : (u * bits + r) / bits ≡ u =
        ap (λ (t : ℕ). t / bits) (add_comm (u * bits) r)
        ∙ add-mul-div_right r u pos
        ∙ (omega (arith, div-eq_of_lt less)) in
      let place : (u * bits + r) % bits ≡ r = mul-add-mod_self_right u bits r ∙ mod-eq_of_lt less in
      let shift : bits - 1 - (u * bits + r) % bits ≡ s = omega (arith, place, h) in
      ap₂ (λ (v t : ℕ). digit (get_or carrier (physical v) 0) t) unit shift

  abbrev observed : ℕ → List ℕ
  observed n = packed unit_bit unit_bit-lt n 0

  observed-Carries : (n : ℕ) → Carries carrier physical bits (observed n)
  observed-Carries n u s h w =
      sym (unit_bit_lem u s h)
      ∙ ap unit_bit (omega arith)
      ∙ sym (
          packet_bit-packed unit_bit unit_bit-lt n 0 (u * bits + (bits - 1 - s))
            (omega (arith, w, length-packed unit_bit unit_bit-lt n 0)))

  -- Reading `n` bytes from units enough succeeds with bytes that the units hold.
  pub read_from-total :
      (units n : ℕ)
      → n * 8 ≤ usize_max
      → div_ceil (n * 8) bits ≤ units
      → (bytes : List ℕ) × ((length bytes ≡ n)
          × ((read_from carrier physical units n bits ≡ ok bytes)
              × Carries carrier physical bits bytes))
  read_from-total units n small room =
      let size = length-packed unit_bit unit_bit-lt n 0 in
      (
        observed n,
        (
          size,
          (
            ap (λ (t : ℕ). read_from carrier physical units t bits) (sym size)
                ∙ read_from-Carries carrier physical units bits (observed n) pos
                    (packed-IsByte unit_bit unit_bit-lt n 0) (omega (arith, size, small))
                    (rw size room) (observed-Carries n),
            observed-Carries n,
          ),
        ),
      )
