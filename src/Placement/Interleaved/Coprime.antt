-- ===== src/Placement/Interleaved/Coprime.antt =====
-- The search for a stride of placement.rs ends, and the slots of an interleaved schedule differ.
use steganographer.Common.{
  ℕ, zero, suc, ◌+◌, ◌-◌, ◌*◌, ◌/◌, ◌%◌, ◌<◌, ◌≤◌, ◌≡◌, refl, sym, ap, ◌∙◌, ◌⊎◌, inl, inr, List,
  some, false, leb, ◌==◌, ==_iff, Bool-cases, arith, if◌then◌else◌,
}
use Prim.Native.Nat.{◌∣◌}
use native.Mathlib.Nat.{
  dvd-mul_left_of_dvd, dvd-add_iff_right, dvd-mul_right, dvd-mul_left, dvd-sub, le_of_dvd, mod-lt,
  div-add-mod', add-mul, mul_assoc, mul-le-mul_right, mul-sub, mul_comm, mod-eq_of_lt,
}
use steganographer.Placement.Interleaved.{
  InterleavedSchedule, gcd_fuel, gcd, next_stride, coprime_stride, first_stride, new_schedule, slot,
  derive_u64, stride_context, phase_context,
}

-- A number that divides two products by `k` divides that of the greatest common divisor.
dvd-gcd_fuel : (d k fuel a b : ℕ) → b < fuel → d ∣ a * k → d ∣ b * k → d ∣ gcd_fuel fuel a b * k
unfolding gcd_fuel
dvd-gcd_fuel d k zero a b h p q = absurd (omega arith)
dvd-gcd_fuel d k (suc fuel) a b h p q = elim (Bool-cases (b == 0)) [
  | inl e ↦ rw e p
  | inr e ↦
      let pos : 0 < b = ground arith in
      let split : a * k ≡ a / b * (b * k) + a % b * k =
        ap (λ (t : ℕ). t * k) (sym (div-add-mod' a b))
        ∙ add-mul (a / b * b) (a % b) k
        ∙ ap (λ (t : ℕ). t + a % b * k) (mul_assoc (a / b) b k) in
      let rest : d ∣ a % b * k =
        (dvd-add_iff_right d (dvd-mul_left_of_dvd d q (a / b))).1 (rw (← split) p) in
      let less = mod-lt a {m = b} pos in rw e (dvd-gcd_fuel d k fuel b (a % b) (omega arith) q rest)
]

-- The greatest common divisor of one and anything is one.
gcd-one : (n : ℕ) → gcd 1 n ≡ 1
unfolding gcd gcd_fuel
gcd-one zero = refl
gcd-one (suc zero) = refl
gcd-one (suc (suc n)) =
    let outer : (suc (suc n) == 0) ≡ false = ground arith in
    let fuel : suc (suc n) + 1 ≡ suc (suc (suc n)) = omega arith in
    let one : 1 % suc (suc n) ≡ 1 = mod-eq_of_lt {n = 1} {m = suc (suc n)} (omega arith) in
    let none_left : suc (suc n) % 1 ≡ 0 = omega arith in rw (fuel, outer, one, none_left) refl

module _ (n : ℕ) where
  -- Numbers with the same remainder differ by a multiple.
  dvd-difference : (x y : ℕ) → x ≤ y → x % n ≡ y % n → n ∣ y - x
  dvd-difference x y h e =
      let far : y - x ≡ y / n * n - x / n * n =
        omega (arith, div-add-mod' x n, div-add-mod' y n, e) in
      rw far (dvd-sub n (dvd-mul_left n (y / n)) (dvd-mul_left n (x / n)))

-- A stride with no common divisor with `n` maps different slots apart.
affine_injective :
    (n stride phase i j : ℕ)
    → gcd stride n ≡ 1
    → i ≤ j
    → j < n
    → (i * stride + phase) % n ≡ (j * stride + phase) % n
    → i ≡ j
unfolding gcd
affine_injective n stride phase i j coprime h less e =
    let more = mul-le-mul_right stride h in
    let gap : j * stride + phase - (i * stride + phase) ≡ stride * (j - i) =
      omega (arith, more, mul-sub stride j i, mul_comm stride j, mul_comm stride i) in
    let product : n ∣ stride * (j - i) =
      rw (← gap)
        (dvd-difference n (i * stride + phase) (j * stride + phase) (omega (arith, more)) e) in
    let divides : n ∣ 1 * (j - i) =
      rw (← coprime)
        (dvd-gcd_fuel n (j - i) (n + 1) stride n (omega arith) product (dvd-mul_right n (j - i))) in
    elim (Bool-cases (j - i == 0)) [
      | inl z ↦ ground arith
      | inr z ↦
          let pos : 0 < 1 * (j - i) = ground arith in
          absurd (omega (arith, less, le_of_dvd pos divides))
    ]

next_in_range :
    (domain fuel stride : ℕ)
    → stride < domain
    → domain < stride + suc fuel
    → ((next_stride domain stride ≡ 1) × (0 < fuel))
      ⊎ ((next_stride domain stride < domain) × (domain < next_stride domain stride + fuel))
unfolding next_stride
next_in_range domain fuel stride less enough = elim (Bool-cases (stride + 1 == domain)) [
  | inl e ↦ inl (rw e refl, ground arith)
  | inr e ↦ inr (rw e (ground arith), rw e (ground arith))
]

first_in_range :
    (keyed_blake3 : List ℕ → List ℕ → List ℕ) (len : ℕ) (key label : List ℕ)
    → 0 < len
    → ((first_stride keyed_blake3 len key label ≡ 1) × (0 < len))
      ⊎ ((first_stride keyed_blake3 len key label < len)
          × (len < first_stride keyed_blake3 len key label + len))
unfolding first_stride
first_in_range keyed_blake3 len key label pos = elim (Bool-cases (len == 1)) [
  | inl e ↦ inl (rw e refl, pos)
  | inr e ↦
      let big : 0 < len - 1 = ground arith in
      let less = mod-lt (derive_u64 keyed_blake3 key label stride_context) {m = len - 1} big in
      inr (rw e (omega (arith, less)), rw e (omega (arith, less)))
]

-- From the candidate one, or from one below the domain with a round for each that follows, the
-- search ends.
coprime_stride-ends :
    (domain fuel stride : ℕ)
    → ((stride ≡ 1) × (0 < fuel)) ⊎ ((stride < domain) × (domain < stride + fuel))
    → (s : ℕ) × ((coprime_stride domain fuel stride ≡ some s) × (gcd s domain ≡ 1))
unfolding coprime_stride
coprime_stride-ends domain zero stride (inl (one, pos)) = absurd (omega arith)
coprime_stride-ends domain zero stride (inr (less, enough)) = absurd (omega arith)
coprime_stride-ends domain (suc fuel) stride (inl (one, pos)) =
    let at_one : gcd stride domain ≡ 1 = ap (λ (t : ℕ). gcd t domain) one ∙ gcd-one domain in
    (stride, (rw at_one refl, at_one))
coprime_stride-ends domain (suc fuel) stride (inr (less, enough)) =
    elim (Bool-cases (gcd stride domain == 1)) [
      | inl e ↦ (stride, (rw e refl, (==_iff (gcd stride domain) 1).0 e))
      | inr e ↦
          let next = next_stride domain stride in
          let bounds : ((next ≡ 1) × (0 < fuel)) ⊎ ((next < domain) × (domain < next + fuel)) =
            next_in_range domain fuel stride less enough in
          let (s, (found, coprime)) = coprime_stride-ends domain fuel next bounds in
          (s, (rw e found, coprime))
    ]

-- For a positive length, the search of `new` ends within its fuel, for every key and label, with a
-- schedule of that length whose stride has no common divisor with it.
pub new_schedule-ends :
    (keyed_blake3 : List ℕ → List ℕ → List ℕ) (len : ℕ) (key label : List ℕ)
    → 0 < len
    → (s : InterleavedSchedule) × ((new_schedule keyed_blake3 len key label ≡ some s)
        × ((s.len ≡ len) × (gcd s.stride len ≡ 1)))
unfolding new_schedule first_stride
new_schedule-ends keyed_blake3 len key label pos =
    let raw = derive_u64 keyed_blake3 key label stride_context in
    let bounds : ((first_stride keyed_blake3 len key label ≡ 1) × (0 < len))
        ⊎ ((first_stride keyed_blake3 len key label < len)
            × (len < first_stride keyed_blake3 len key label + len)) =
      first_in_range keyed_blake3 len key label pos in
    let (s, (found, coprime)) =
      coprime_stride-ends len len (first_stride keyed_blake3 len key label) bounds in
    let some_len : (len == 0) ≡ false = ground arith in
    (
      record {
        len = len;
        stride = s;
        phase = if len == 1 then 0 else derive_u64 keyed_blake3 key label phase_context % len;
      },
      (rw (some_len, found) refl, (refl, coprime)),
    )

slot_value :
    (s : InterleavedSchedule) (len k : ℕ)
    → 0 < len
    → s.len ≡ len
    → slot s k ≡ (k * s.stride + s.phase) % len
unfolding slot
slot_value s len k pos long =
    let nonzero : (s.len == 0) ≡ false = ground arith in
    rw nonzero (ap (λ (t : ℕ). (k * s.stride + s.phase) % t) long)

-- Two logical positions below the length of a schedule that `new` builds have different slots, and
-- a slot is below the length.
pub slot_injective :
    (keyed_blake3 : List ℕ → List ℕ → List ℕ) (len : ℕ) (key label : List ℕ)
    (s : InterleavedSchedule) (i j : ℕ)
    → 0 < len
    → new_schedule keyed_blake3 len key label ≡ some s
    → i < len
    → j < len
    → slot s i ≡ slot s j
    → (i ≡ j) × (slot s i < len)
slot_injective keyed_blake3 len key label s i j pos built hi hj e =
    let (t, (built', (size, coprime))) = new_schedule-ends keyed_blake3 len key label pos in
    let same : t ≡ s = cc in
    let long : s.len ≡ len = ap (λ (u : InterleavedSchedule). u.len) (sym same) ∙ size in
    let prime : gcd s.stride len ≡ 1 =
      ap (λ (u : InterleavedSchedule). gcd u.stride len) (sym same) ∙ coprime in
    let value = λ (k : ℕ). slot_value s len k pos long in
    let values : (i * s.stride + s.phase) % len ≡ (j * s.stride + s.phase) % len =
      sym (value i) ∙ e ∙ value j in
    (
      elim (Bool-cases (leb i j)) [
        | inl q ↦ affine_injective len s.stride s.phase i j prime (ground arith) hj values
        | inr q ↦
            sym (affine_injective len s.stride s.phase j i prime (ground arith) hi (sym values))
      ],
      omega (arith, value i, mod-lt (i * s.stride + s.phase) {m = len} pos),
    )
