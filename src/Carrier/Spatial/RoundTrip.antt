-- ===== src/Carrier/Spatial/RoundTrip.antt =====
-- The kernels of carrier.rs read back what they write, at every stride and through every schedule
-- of slots that gives no slot twice.
use steganographer.Common.{
  ℕ, zero, suc, ◌+◌, ◌-◌, ◌*◌, ◌<◌, ◌≤◌, min, ◌≡◌, refl, sym, ap, ◌∙◌, inl, inr, List, length,
  get_or, take, leb, ltb, true, false, Bool-cases, arith, All, ok,
}
use steganographer.Common.Bytes.{IsByte}
use steganographer.Common.Digits.{digit}
use native.Mathlib.Nat.{mul-le-mul_right, div-mul-le_self, suc-mul}
use steganographer.Packet.Types.{usize_max}
use steganographer.Carrier.{div_ceil}
use steganographer.Carrier.Spatial.{write_units, write_until_done, read_from}
use steganographer.Carrier.Spatial.Units.{
  digit-merge_unit, low_of, low_of-lt, digit-low_of, write_units_at, start_next,
}
use steganographer.Carrier.Spatial.Read.{
  Carries, read_from-Carries_prefix, get_or-byte, le-div_ceil, placed_some,
}

-- A unit with a bit of the packet is among the units that are written.
pub within-div_ceil :
    (u s bits needed : ℕ) → s < bits → u * bits + (bits - 1 - s) < needed → u < div_ceil needed bits
within-div_ceil u s bits needed h w = elim (Bool-cases (ltb u (div_ceil needed bits))) [
  | inl e ↦ ground arith
  | inr e ↦
      let over : div_ceil needed bits ≤ u = ground arith in
      absurd (omega (arith, w, le-div_ceil needed bits (omega arith), mul-le-mul_right bits over))
]

module _ (packet : List ℕ) (bits : ℕ) (physical : ℕ → ℕ) (total : ℕ) (small : bits ≤ 4)
    (injective : (u v : ℕ) → u < total → v < total → physical u ≡ physical v → u ≡ v)
    (carrier : List ℕ) (bytes : All IsByte carrier)
    (inside : (u : ℕ) → u < total → physical u < length carrier)
    (fits : div_ceil (length packet * 8) bits ≤ total) where
  pub write_units-Carries :
      Carries
        (write_units packet
          (length packet * 8)
          bits
          physical
          (div_ceil (length packet * 8) bits)
          0
          0
          carrier)
        physical
        bits
        packet
  write_units-Carries u s h w =
      let needed = length packet * 8 in
      let low = within-div_ceil u s bits needed h w in
      let zero_index : 0 ≡ min (0 * bits) needed = omega arith in
      let value =
        write_units_at packet needed bits physical total injective (div_ceil needed bits) 0 u
          carrier (omega arith) inside (omega arith) (omega (arith, low)) in
      ap
        (λ (t : ℕ).
          digit
            (get_or (write_units packet needed bits physical (div_ceil needed bits) 0 t carrier)
              (physical u) 0)
            s)
        zero_index
      ∙ ap (λ (t : ℕ). digit t s) value
      ∙ digit-merge_unit bits (get_or carrier (physical u) 0) (low_of packet needed bits physical u)
          small (get_or-byte carrier bytes (physical u)) (low_of-lt packet needed bits physical u) s
          h
      ∙ digit-low_of packet needed bits physical u s h
      ∙ sym (placed_some packet needed _ w)

  -- Reading the units back in the same order gives the packet, and its first bytes alone.
  pub read_from-write_units :
      (n : ℕ)
      → 0 < bits
      → All IsByte packet
      → length packet * 8 ≤ usize_max
      → n ≤ length packet
      → read_from
          (write_units packet
            (length packet * 8)
            bits
            physical
            (div_ceil (length packet * 8) bits)
            0
            0
            carrier)
          physical
          total
          n
          bits
        ≡ ok (take n packet)
  read_from-write_units n pos packet_bytes fits_usize h =
      read_from-Carries_prefix _ physical total bits n packet pos packet_bytes fits_usize
        (omega (arith, le-div_ceil (length packet * 8) bits pos, mul-le-mul_right bits fits)) h
        write_units-Carries

module _ (packet : List ℕ) (needed bits stride : ℕ) (pos : 0 < bits) where
  unfinished : (u : ℕ) → u < div_ceil needed bits → u * bits < needed
  unfinished u h = omega (
    arith,
    pos,
    mul-le-mul_right {m = suc u} {n = div_ceil needed bits} bits h,
    div-mul-le_self (needed + (bits - 1)) bits,
    suc-mul u bits,
  )

  -- The loop that ends early writes the units that the needed bits fill.
  pub write_until_done-write_units :
      (n remaining u : ℕ) (carrier : List ℕ)
      → u + n ≡ div_ceil needed bits
      → n ≤ remaining
      → write_until_done packet needed bits stride remaining u (min (u * bits) needed) carrier
        ≡ write_units packet needed bits (λ i. i * stride) n u (min (u * bits) needed) carrier
  unfolding write_until_done write_units
  write_until_done-write_units zero zero u carrier e h = refl
  write_until_done-write_units zero (suc remaining) u carrier e h =
      let last : u ≡ div_ceil needed bits = omega (arith, e) in
      let over : needed ≤ min (u * bits) needed =
        omega (arith, le-div_ceil needed bits pos, ap (λ (t : ℕ). t * bits) last) in
      let done : leb needed (min (u * bits) needed) ≡ true = ground arith in rw done
  write_until_done-write_units (suc n) zero u carrier e h = absurd (omega arith)
  write_until_done-write_units (suc n) (suc remaining) u carrier e h =
      let more : min (u * bits) needed < needed = omega (arith, unfinished u (omega (arith, e))) in
      let go_on : leb needed (min (u * bits) needed) ≡ false = ground arith in
      rw (go_on, start_next packet needed bits (λ i. i * stride) u)
        (write_until_done-write_units n remaining (u + 1) _ (omega (arith, e)) (omega arith))
