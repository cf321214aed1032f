-- ===== src/Carrier/Spatial/Units.antt =====
-- A written unit of carrier.rs: its upper bits are the carrier's and its low bits the packet's; and
-- the units that a writing loop leaves alone.
use steganographer.Common.{
  ℕ, zero, suc, ◌+◌, ◌-◌, ◌*◌, ◌/◌, ◌%◌, ◌^◌, ◌<◌, ◌≤◌, min, ◌≡◌, refl, sym, ap, ◌∙◌, ◌≢◌, ◌⊎◌, inl,
  inr, List, [], ◌∷◌, length, get_or, set, length-set, get_or-set_self, get_or-set_ne, leb, ◌==◌,
  ==_iff, Bool-cases, arith, bit_and, bit_or,
}
use steganographer.Common.Bits.{bit_or_fields}
use steganographer.Common.Digits.{digit, digit-bit_or, digit_below, bit_or-lt, clears}
use native.Mathlib.Nat.{
  one-le-pow, mul-add-div_right, zero-div, div-eq_of_lt, div-mul-le_self, pow-le-pow_right, add-mul,
}
use steganographer.Carrier.Spatial.{Gather, gather, merge_unit, write_units}
use steganographer.Carrier.Spatial.Write.{
  placed, placed_none, gather-bit_index, gather-digit, gather-lt,
}

bit_and_clear :
    (k unit : ℕ) → k ≤ 4 → unit < 256 → bit_and unit (255 - (2 ^ k - 1)) ≡ unit / 2 ^ k * 2 ^ k
bit_and_clear zero unit h p = omega (arith, clears 8 0 unit)
bit_and_clear (suc zero) unit h p = omega (arith, clears 7 1 unit)
bit_and_clear (suc (suc zero)) unit h p = omega (arith, clears 6 2 unit)
bit_and_clear (suc (suc (suc zero))) unit h p = omega (arith, clears 5 3 unit)
bit_and_clear (suc (suc (suc (suc zero)))) unit h p = omega (arith, clears 4 4 unit)
bit_and_clear (suc (suc (suc (suc (suc k))))) unit h p = absurd (omega arith)

module _ (bits unit low : ℕ) (small : bits ≤ 4) (unit_byte : unit < 256)
    (low-lt : low < 2 ^ bits) where
  merge_unit-eq : merge_unit bits unit low ≡ unit / 2 ^ bits * 2 ^ bits + low
  unfolding merge_unit
  merge_unit-eq =
      ap (λ (t : ℕ). bit_or t low) (bit_and_clear bits unit small unit_byte)
      ∙ bit_or_fields bits (unit / 2 ^ bits) low low-lt

  pub merge_unit_upper : merge_unit bits unit low / 2 ^ bits ≡ unit / 2 ^ bits
  merge_unit_upper =
      ap (λ (t : ℕ). t / 2 ^ bits) merge_unit-eq
      ∙ mul-add-div_right (one-le-pow bits 2 (omega arith)) (unit / 2 ^ bits) low
      ∙ ap (λ (t : ℕ). unit / 2 ^ bits + t) (div-eq_of_lt low-lt)
      ∙ omega arith

  pub digit-merge_unit : (s : ℕ) → s < bits → digit (merge_unit bits unit low) s ≡ digit low s
  unfolding merge_unit
  digit-merge_unit s h = omega (
    arith,
    digit-bit_or (bit_and unit (255 - (2 ^ bits - 1))) low s,
    ap (λ (t : ℕ). digit t s) (bit_and_clear bits unit small unit_byte),
    digit_below (unit / 2 ^ bits) bits s h,
  )

  pub merge_unit-lt : merge_unit bits unit low < 256
  unfolding merge_unit
  merge_unit-lt =
      bit_or-lt 8 (bit_and unit (255 - (2 ^ bits - 1))) low
        (omega (arith, bit_and_clear bits unit small unit_byte, div-mul-le_self unit (2 ^ bits)))
        (omega (arith, pow-le-pow_right {n = 2} (omega arith) {i = bits} {j = 4} small))

-- A write changes nothing or the one element that is read.
pub get_or-set_cases :
    (xs : List ℕ) (i v p : ℕ)
    → (get_or (set xs i v) p 0 ≡ get_or xs p 0) ⊎ ((i ≡ p) × (get_or (set xs i v) p 0 ≡ v))
get_or-set_cases [] i v p = inl refl
get_or-set_cases (x ∷ xs) zero v zero = inr (refl, refl)
get_or-set_cases (x ∷ xs) zero v (suc p) = inl refl
get_or-set_cases (x ∷ xs) (suc i) v zero = inl refl
get_or-set_cases (x ∷ xs) (suc i) v (suc p) = elim (get_or-set_cases xs i v p) [
  | inl same ↦ inl same
  | inr (e, written) ↦ inr (ap suc e, written)
]

module _ (packet : List ℕ) (needed bits : ℕ) (physical : ℕ → ℕ) where
  abbrev pub start : ℕ → Gather
  start u = record { bit_index = min (u * bits) needed; low_bits = 0 }

  -- The low bits of the logical unit `u`.
  unfoldable pub low_of : ℕ → ℕ
  low_of u = (gather packet needed bits (start u)).low_bits

  pub length-write_units :
      (n l b : ℕ) (carrier : List ℕ)
      → length (write_units packet needed bits physical n l b carrier) ≡ length carrier
  unfolding write_units
  length-write_units zero l b carrier = refl
  length-write_units (suc n) l b carrier =
      length-write_units n (l + 1) _ _ ∙ length-set carrier (physical l) _

  pub write_units_other :
      (n l b p : ℕ) (carrier : List ℕ)
      → ((u : ℕ) → l ≤ u → u < l + n → physical u ≢ p)
      → get_or (write_units packet needed bits physical n l b carrier) p 0 ≡ get_or carrier p 0
  unfolding write_units
  write_units_other zero l b p carrier away = refl
  write_units_other (suc n) l b p carrier away =
      write_units_other n (l + 1) _ p _ (λ u lo hi. away u (omega arith) (omega arith))
      ∙ get_or-set_ne carrier (physical l) p _ 0 (away l (omega arith) (omega arith))

  pub start_next :
      (l : ℕ) → (gather packet needed bits (start l)).bit_index ≡ min ((l + 1) * bits) needed
  start_next l = omega (
    arith,
    gather-bit_index packet needed bits (start l) (omega arith),
    ap (λ (t : ℕ). t) (add-mul l 1 bits),
  )

  module _ (total : ℕ)
      (injective : (u v : ℕ) → u < total → v < total → physical u ≡ physical v → u ≡ v) where
    -- Every unit in the range is merged once, from the carrier that the loop starts on.
    pub write_units_at :
        (n l u : ℕ) (carrier : List ℕ)
        → l + n ≤ total
        → ((v : ℕ) → v < total → physical v < length carrier)
        → l ≤ u
        → u < l + n
        → get_or
            (write_units packet needed bits physical n l (min (l * bits) needed) carrier)
            (physical u)
            0
          ≡ merge_unit bits (get_or carrier (physical u) 0) (low_of u)
    unfolding write_units low_of
    write_units_at zero l u carrier fits inside lo hi = absurd (omega arith)
    write_units_at (suc n) l u carrier fits inside lo hi =
        let written = set carrier (physical l) (
          merge_unit bits (get_or carrier (physical l) 0)
            (gather packet needed bits (start l)).low_bits) in
        let next : write_units packet needed bits physical (suc n) l (min (l * bits) needed) carrier
            ≡ write_units packet needed bits physical n (l + 1) (min ((l + 1) * bits) needed)
                written =
          ap (λ (t : ℕ). write_units packet needed bits physical n (l + 1) t written)
            (start_next l) in
        elim (Bool-cases (l == u)) [
          | inl e ↦
              let same : l ≡ u = (==_iff l u).0 e in
              rw (← same) (
                ap (λ (c : List ℕ). get_or c (physical l) 0) next
                ∙ write_units_other n (l + 1) _ (physical l) written
                    (λ v a b q. absurd (omega (arith, injective v l (omega arith) (omega arith) q)))
                ∙ get_or-set_self carrier (physical l) _ 0 (inside l (omega arith)))
          | inr e ↦
              let differs : l ≢ u = λ q. absurd (ground (arith, ==_iff l u)) in
              ap (λ (c : List ℕ). get_or c (physical u) 0) next
              ∙ write_units_at n (l + 1) u written (omega arith)
                  (λ v a.
                    rw
                      (length-set carrier (physical l) (
                        merge_unit bits (get_or carrier (physical l) 0)
                          (gather packet needed bits (start l)).low_bits))
                      (inside v a))
                  (ground arith) (omega arith)
              ∙ ap (λ (t : ℕ). merge_unit bits t (low_of u))
                  (get_or-set_ne carrier (physical l) (physical u) _ 0
                    (λ q. absurd (differs (injective l u (omega arith) (omega arith) q))))
        ]

  zero-digit : (s : ℕ) → digit 0 s ≡ 0
  zero-digit s = ap (λ (t : ℕ). t % 2) (zero-div (2 ^ s))

  -- Digit `s` of the low bits of unit `u` is the packet's bit that the loops assign to it.
  pub digit-low_of :
      (u s : ℕ) → s < bits → digit (low_of u) s ≡ placed packet needed (u * bits + (bits - 1 - s))
  unfolding low_of
  digit-low_of u s h =
      gather-digit packet needed bits s (start u) (omega arith) (λ t p. zero-digit t) h
      ∙ elim (Bool-cases (leb (u * bits) needed)) [
        | inl e ↦
            let whole : min (u * bits) needed ≡ u * bits = ground arith in
            ap (λ (t : ℕ). placed packet needed (t + (bits - 1 - s))) whole
        | inr e ↦
            let over : needed ≤ u * bits = ground arith in
            placed_none packet needed _ (omega (arith, over))
            ∙ sym (placed_none packet needed _ (omega (arith, over)))
      ]

  pub low_of-lt : (u : ℕ) → low_of u < 2 ^ bits
  unfolding low_of
  low_of-lt u =
      gather-lt packet needed bits bits (start u) (omega arith) (one-le-pow bits 2 (omega arith))

  -- A writing loop keeps the upper bits of every byte, and bytes bytes.
  pub write_units_upper :
      (n l : ℕ) (carrier : List ℕ)
      → bits ≤ 4
      → ((p : ℕ) → get_or carrier p 0 < 256)
      → (p : ℕ)
      → (get_or (write_units packet needed bits physical n l (min (l * bits) needed) carrier) p 0
            / 2 ^ bits
          ≡ get_or carrier p 0 / 2 ^ bits)
        × (get_or (write_units packet needed bits physical n l (min (l * bits) needed) carrier) p 0
            < 256)
  unfolding write_units
  write_units_upper zero l carrier small bytes p = (refl, bytes p)
  write_units_upper (suc n) l carrier small bytes p =
      let at = physical l in
      let low = (gather packet needed bits (start l)).low_bits in
      let low_small : low < 2 ^ bits =
        gather-lt packet needed bits bits (start l) (omega arith)
          (one-le-pow bits 2 (omega arith)) in
      let v = merge_unit bits (get_or carrier at 0) low in
      let written = set carrier at v in
      let next : write_units packet needed bits physical (suc n) l (min (l * bits) needed) carrier
          ≡ write_units packet needed bits physical n (l + 1) (min ((l + 1) * bits) needed)
              written =
        ap (λ (t : ℕ). write_units packet needed bits physical n (l + 1) t written)
          (start_next l) in
      let step : (q : ℕ)
          → (get_or written q 0 / 2 ^ bits ≡ get_or carrier q 0 / 2 ^ bits)
            × (get_or written q 0 < 256) =
        λ q. elim (get_or-set_cases carrier at v q) [
          | inl same ↦ (ap (λ (t : ℕ). t / 2 ^ bits) same, omega (arith, same, bytes q))
          | inr (e, now) ↦ (
            ap (λ (t : ℕ). t / 2 ^ bits) now
                ∙ merge_unit_upper bits (get_or carrier at 0) low small (bytes at) low_small
                ∙ ap (λ (t : ℕ). get_or carrier t 0 / 2 ^ bits) e,
            omega (
              arith,
              now,
              merge_unit-lt bits (get_or carrier at 0) low small (bytes at) low_small,
            ),
          )
        ] in
      let (upper, byte) = write_units_upper n (l + 1) written small (λ q. (step q).1) p in
      rw next (upper ∙ (step p).0, byte)
