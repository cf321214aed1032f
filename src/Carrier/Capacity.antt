-- ===== src/Carrier/Capacity.antt =====
-- A packet that fits the reported capacity needs no more carrier units than there are.
use steganographer.Common.{
  ℕ, ◌+◌, ◌-◌, ◌*◌, ◌/◌, ◌<◌, ◌≤◌, ◌≡◌, sym, ap, ◌∙◌, true, arith, ok, >>=-eq-ok,
}
use native.Mathlib.Nat.{div-lt_iff_lt-mul}
use steganographer.Carrier.{
  CarrierDescriptor, CapacityReport, new_config, fits, div_ceil, tag_units, report_of,
  sequential_capacity, keyed_capacity,
}

ceil-le : (n units bits : ℕ) → 1 ≤ bits → n ≤ units * bits / 8 → div_ceil (n * 8) bits ≤ units
ceil-le n units bits low h =
    let whole : (units + 1) * bits ≡ units * bits + bits = grind arith in
    let below : n * 8 + (bits - 1) < (units + 1) * bits = omega (arith, whole) in
    let quotient : (n * 8 + (bits - 1)) / bits < units + 1 =
      (div-lt_iff_lt-mul {k = bits} {x = n * 8 + (bits - 1)} {y = units + 1} low).1 below in
    omega (arith, quotient)

report_of-fits :
    (units bits n : ℕ) (r : CapacityReport)
    → 1 ≤ bits
    → report_of units bits ≡ ok r
    → fits r n ≡ true
    → (r.usable_units ≡ units) × (div_ceil (n * 8) bits ≤ units)
unfolding report_of fits
report_of-fits units bits n r low h f =
    let bound : n ≤ units * bits / 8 = ground arith in
    (ground arith, ceil-le n units bits low bound)

config-bits : (bits out : ℕ) → new_config bits ≡ ok out → (out ≡ bits) × (1 ≤ bits)
unfolding new_config
config-bits bits out h = (ground arith, ground arith)

-- A packet that fits the report of `sequential_capacity` needs no more units than the carrier has.
pub sequential_capacity-fits :
    (carrier : CarrierDescriptor) (bits n : ℕ) (r : CapacityReport)
    → sequential_capacity carrier bits ≡ ok r
    → fits r n ≡ true
    → div_ceil (n * 8) bits ≤ carrier.unit_count
unfolding sequential_capacity
sequential_capacity-fits carrier bits n r h f =
    let (out, made, h1) = >>=-eq-ok (new_config bits) (λ b. report_of carrier.unit_count b) h in
    let (same, low) = config-bits bits out made in
    let h2 : report_of carrier.unit_count bits ≡ ok r =
      ap (report_of carrier.unit_count) (sym same) ∙ h1 in
    (report_of-fits carrier.unit_count bits n r low h2 f).1

-- A packet that fits the report of `keyed_capacity` needs no more units than the carrier has behind
-- the recognition tag.
pub keyed_capacity-fits :
    (carrier : CarrierDescriptor) (bits n : ℕ) (r : CapacityReport)
    → keyed_capacity carrier bits ≡ ok r
    → fits r n ≡ true
    → div_ceil (n * 8) bits ≤ carrier.unit_count - tag_units bits
unfolding keyed_capacity
keyed_capacity-fits carrier bits n r h f =
    let (out, made, h1) =
      >>=-eq-ok (new_config bits) (λ b. report_of (carrier.unit_count - tag_units b) b) h in
    let (same, low) = config-bits bits out made in
    let h2 : report_of (carrier.unit_count - tag_units bits) bits ≡ ok r =
      ap (λ (b : ℕ). report_of (carrier.unit_count - tag_units b) b) (sym same) ∙ h1 in
    (report_of-fits (carrier.unit_count - tag_units bits) bits n r low h2 f).1
