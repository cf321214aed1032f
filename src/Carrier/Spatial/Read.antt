-- ===== src/Carrier/Spatial/Read.antt =====
-- The reading loops of carrier.rs rebuild the bytes whose bits the units hold.
use steganographer.Common.{
  ℕ, zero, suc, ◌+◌, ◌-◌, ◌*◌, ◌/◌, ◌%◌, ◌^◌, ◌<◌, ◌≤◌, min, ◌≡◌, refl, sym, ap, ◌∙◌, ◌≢◌, inl, inr,
  List, [], ◌∷◌, length, get_or, set, replicate, length-set, get_or-set_self, get_or-set_ne,
  get_or_ext, length-replicate, take, length-take, get_or-take, All-take, true, ltb, ◌==◌, ==_iff,
  lt→ltb, leb, Bool, ok, Bool-cases, arith, bit_or, All, if◌then◌else◌,
}
use steganographer.Common.Bytes.{IsByte}
use steganographer.Common.Digits.{digit, digit-bit_or, digit_at, digit_other, digit_ext, bit_or-lt}
use native.Mathlib.Nat.{mod-lt, add-mul, zero-div, zero-add, lt-div-mul-add, div-lt_iff_lt-mul}
use steganographer.Carrier.Spatial.{
  packet_bit, Scatter, scatter_step, scatter, read_units, read_from,
}
use steganographer.Carrier.{div_ceil}
use steganographer.Packet.Types.{usize_max}
use steganographer.Carrier.Spatial.Write.{placed, placed_none, bit_shifted-lt}

pub placed_some :
    (packet : List ℕ) (needed i : ℕ) → i < needed → packet_bit packet i ≡ placed packet needed i
placed_some packet needed i h = rw (lt→ltb i needed h)

-- `output` holds the first `index` bits of the packet and zeros after them.
record Holds (packet : List ℕ) (index : ℕ) (output : List ℕ) : Type 0 where
  same_length : length output ≡ length packet
  bounded : (i : ℕ) → get_or output i 0 < 256
  filled : (k : ℕ) → k < length packet * 8 → packet_bit output k ≡ placed packet index k

pub get_or-byte : (xs : List ℕ) → All IsByte xs → (i : ℕ) → get_or xs i 0 < 256
get_or-byte [] h i = omega arith
get_or-byte (x ∷ xs) h zero = h.0
get_or-byte (x ∷ xs) h (suc i) = get_or-byte xs h.1 i

-- Byte strings of one length with the same bits are equal.
packet_bit_ext :
    (xs ys : List ℕ)
    → ((i : ℕ) → get_or xs i 0 < 256)
    → ((i : ℕ) → get_or ys i 0 < 256)
    → length xs ≡ length ys
    → ((k : ℕ) → k < length ys * 8 → packet_bit xs k ≡ packet_bit ys k)
    → xs ≡ ys
unfolding packet_bit
packet_bit_ext xs ys bx by e h = get_or_ext 0 xs ys e (λ i w.
    digit_ext 8 (get_or xs i 0) (get_or ys i 0) (bx i) (by i) (λ s v.
      let byte : (i * 8 + (7 - s)) / 8 ≡ i = omega arith in
      let place : 7 - (i * 8 + (7 - s)) % 8 ≡ s = omega arith in
      let at : (zs : List ℕ) → packet_bit zs (i * 8 + (7 - s)) ≡ digit (get_or zs i 0) s =
        λ zs. rw (byte, place) in
      sym (at xs) ∙ h (i * 8 + (7 - s)) (omega (arith, w, v, e)) ∙ at ys))

-- `output[i / 8] |= b << (7 - i % 8)` sets bit `i` where it was zero.
module _ (output : List ℕ) (i b : ℕ) (small : b < 2) (inside : i / 8 < length output) where
  abbrev marked : List ℕ
  marked = set output (i / 8) (bit_or (get_or output (i / 8) 0) (b * 2 ^ (7 - i % 8)))

  marked_same : packet_bit output i ≡ 0 → packet_bit marked i ≡ b
  unfolding packet_bit
  marked_same z =
      ap (λ (t : ℕ). digit t (7 - i % 8)) (get_or-set_self output (i / 8) _ 0 inside)
      ∙ omega (
        arith,
        z,
        small,
        digit-bit_or (get_or output (i / 8) 0) (b * 2 ^ (7 - i % 8)) (7 - i % 8),
        digit_at b (7 - i % 8) small,
      )

  marked_other : (k : ℕ) → k ≢ i → packet_bit marked k ≡ packet_bit output k
  unfolding packet_bit
  marked_other k n = elim (Bool-cases (k / 8 == i / 8)) [
    | inl e ↦
        let same : k / 8 ≡ i / 8 = (==_iff (k / 8) (i / 8)).0 e in
        let apart : (7 - i % 8) ≢ (7 - k % 8) = λ q. n (omega (arith, q, same)) in
        rw same (
          ap (λ (t : ℕ). digit t (7 - k % 8)) (get_or-set_self output (i / 8) _ 0 inside)
          ∙ omega (
            arith,
            digit-bit_or (get_or output (i / 8) 0) (b * 2 ^ (7 - i % 8)) (7 - k % 8),
            digit_other b (7 - i % 8) (7 - k % 8) small apart,
          ))
    | inr e ↦
        let apart : i / 8 ≢ k / 8 = λ q. absurd (ground (arith, q, ==_iff (k / 8) (i / 8))) in
        ap (λ (t : ℕ). digit t (7 - k % 8)) (get_or-set_ne output (i / 8) (k / 8) _ 0 apart)
  ]

  marked_byte : ((j : ℕ) → get_or output j 0 < 256) → (j : ℕ) → get_or marked j 0 < 256
  marked_byte h j = elim (Bool-cases (i / 8 == j)) [
    | inl e ↦
        let same : i / 8 ≡ j = (==_iff (i / 8) j).0 e in
        rw (← same, get_or-set_self output (i / 8) _ 0 inside)
          (bit_or-lt 8 _ _ (h (i / 8)) (bit_shifted-lt b (7 - i % 8) 8 small (omega arith)))
    | inr e ↦
        let apart : i / 8 ≢ j = λ q. absurd (ground (arith, q, ==_iff (i / 8) j)) in
        rw
          (get_or-set_ne output (i / 8) j (bit_or (get_or output (i / 8) 0) (b * 2 ^ (7 - i % 8))) 0
            apart)
          (h j)
  ]

module _ (packet : List ℕ) where
  abbrev total : ℕ
  total = length packet * 8

  step-index :
      (unit shift : ℕ) (r : Scatter)
      → r.bit_index ≤ total
      → (scatter_step unit total shift r).bit_index ≡ min (r.bit_index + 1) total
  unfolding scatter_step
  step-index unit shift r h = elim (Bool-cases (ltb r.bit_index total)) [
    | inl e ↦ rw e (ground arith)
    | inr e ↦ rw e (ground arith)
  ]

  -- A round appends the packet's next bit, if the unit's digit is that bit.
  step-Holds :
      (unit shift : ℕ) (r : Scatter)
      → r.bit_index ≤ total
      → (r.bit_index < total → digit unit shift ≡ packet_bit packet r.bit_index)
      → Holds packet r.bit_index r.output
      → Holds packet (min (r.bit_index + 1) total) (scatter_step unit total shift r).output
  unfolding scatter_step
  step-Holds unit shift r h next held = elim (Bool-cases (ltb r.bit_index total)) [
    | inl e ↦
        let less : r.bit_index < total = ground arith in
        let grown : min (r.bit_index + 1) total ≡ r.bit_index + 1 = omega (arith, less) in
        let inside : r.bit_index / 8 < length r.output = omega (arith, held.same_length, less) in
        let small : digit unit shift < 2 = mod-lt (unit / 2 ^ shift) {m = 2} (omega arith) in
        rw (e, grown)
          (record {
            same_length = length-set r.output (r.bit_index / 8) _ ∙ held.same_length;
            bounded = marked_byte r.output r.bit_index (digit unit shift) small inside held.bounded;
            filled = λ k w. elim (Bool-cases (k == r.bit_index)) [
              | inl same ↦
                  let here : k ≡ r.bit_index = (==_iff k r.bit_index).0 same in
                  rw here (
                    marked_same r.output r.bit_index (digit unit shift) small inside (
                      held.filled r.bit_index less
                      ∙ placed_none packet r.bit_index r.bit_index (omega arith))
                    ∙ next less
                    ∙ placed_some packet (r.bit_index + 1) r.bit_index (omega arith))
              | inr differs ↦
                  let apart : k ≢ r.bit_index =
                    λ q. absurd (ground (arith, q, ==_iff k r.bit_index)) in
                  marked_other r.output r.bit_index (digit unit shift) small inside k apart
                  ∙ held.filled k w
                  ∙ ap (λ (t : Bool). if t then packet_bit packet k else 0) (ground (arith, apart))
            ];
          })
    | inr e ↦
        let full : min (r.bit_index + 1) total ≡ r.bit_index = ground arith in rw (e, full) held
  ]

  module _ (unit base bits : ℕ)
      (bits_match : (s : ℕ)
        → s < bits
        → base + (bits - 1 - s) < total
        → digit unit s ≡ packet_bit packet (base + (bits - 1 - s))) where
    scatter-Holds :
        (n : ℕ) (r : Scatter)
        → n ≤ bits
        → r.bit_index ≡ min (base + (bits - n)) total
        → Holds packet r.bit_index r.output
        → ((scatter unit total n r).bit_index ≡ min (base + bits) total)
          × Holds packet (min (base + bits) total) (scatter unit total n r).output
    unfolding scatter
    scatter-Holds zero r h i held =
        let whole : r.bit_index ≡ min (base + bits) total = omega (arith, i) in
        (whole, rw (← whole) held)
    scatter-Holds (suc shift) r h i held =
        let moved = step-index unit shift r (omega (arith, i)) in
        let later : (scatter_step unit total shift r).bit_index
            ≡ min (base + (bits - shift)) total =
          omega (arith, i, moved, h) in
        let next : r.bit_index < total → digit unit shift ≡ packet_bit packet r.bit_index = λ less.
          let at : base + (bits - 1 - shift) ≡ r.bit_index = omega (arith, i, less, h) in
          bits_match shift (omega arith) (omega (arith, at, less)) ∙ ap (packet_bit packet) at in
        let one = step-Holds unit shift r (omega (arith, i)) next held in
        scatter-Holds shift (scatter_step unit total shift r) (omega arith) later (rw moved one)

  module _ (carrier : List ℕ) (physical : ℕ → ℕ) (bits : ℕ)
      (bits_match : (u s : ℕ)
        → s < bits
        → u * bits + (bits - 1 - s) < total
        → digit (get_or carrier (physical u) 0) s
          ≡ packet_bit packet (u * bits + (bits - 1 - s))) where
    read_units-Holds :
        (n l : ℕ) (r : Scatter)
        → r.bit_index ≡ min (l * bits) total
        → Holds packet r.bit_index r.output
        → Holds packet
            (min ((l + n) * bits) total)
            (read_units carrier physical bits total n l r).output
    unfolding read_units
    read_units-Holds zero l r i held =
        let whole : r.bit_index ≡ min ((l + 0) * bits) total =
          i ∙ ap (λ (t : ℕ). min (t * bits) total) (omega arith) in
        rw (← whole) held
    read_units-Holds (suc n) l r i held =
        let (index, one) =
          scatter-Holds (get_or carrier (physical l) 0) (l * bits) bits (bits_match l) bits r
            (omega arith) (i ∙ ap (λ (t : ℕ). min t total) (omega arith)) held in
        let more : l * bits + bits ≡ (l + 1) * bits = omega (arith, add-mul l 1 bits) in
        let shift : l + 1 + n ≡ l + suc n = omega arith in
        rw (← shift)
          (read_units-Holds n (l + 1) _ (index ∙ ap (λ (t : ℕ). min t total) more) (rw index one))

get_or-replicate : (n i : ℕ) → ◌≡◌ {A = ℕ} (get_or (replicate n 0) i 0) 0
get_or-replicate zero i = refl
get_or-replicate (suc n) zero = refl
get_or-replicate (suc n) (suc i) = get_or-replicate n i

zeros-Holds : (packet : List ℕ) → Holds packet 0 (replicate (length packet) 0)
unfolding packet_bit
zeros-Holds packet = record {
  same_length = length-replicate (length packet) 0;
  bounded = λ i. omega (arith, get_or-replicate (length packet) i);
  filled = λ k w.
      ap (λ (t : ℕ). digit t (7 - k % 8)) (get_or-replicate (length packet) (k / 8))
      ∙ ap (λ (t : ℕ). t % 2) (zero-div (2 ^ (7 - k % 8)))
      ∙ sym (placed_none packet 0 k (omega arith));
}

pub le-div_ceil : (a b : ℕ) → 0 < b → a ≤ div_ceil a b * b
le-div_ceil a b h = omega (arith, lt-div-mul-add {a = a + (b - 1)} {b = b} h)

-- The units of the carrier hold the packet's bits, the highest digit of a unit first.
abbrev pub Carries : List ℕ → (ℕ → ℕ) → ℕ → List ℕ → Type 0
Carries carrier physical bits packet =
    (u s : ℕ)
    → s < bits
    → u * bits + (bits - 1 - s) < length packet * 8
    → digit (get_or carrier (physical u) 0) s ≡ packet_bit packet (u * bits + (bits - 1 - s))

pub div_ceil-le :
    (needed units bits : ℕ) → 0 < bits → needed ≤ units * bits → div_ceil needed bits ≤ units
div_ceil-le needed units bits pos h =
    let less =
      (div-lt_iff_lt-mul {k = bits} {x = needed + (bits - 1)} {y = units + 1} pos).1
        (omega (arith, h, pos, add-mul units 1 bits)) in
    omega (arith, less)

packet_bit-take :
    (n k : ℕ) (packet : List ℕ) → k < n * 8 → packet_bit (take n packet) k ≡ packet_bit packet k
unfolding packet_bit
packet_bit-take n k packet h =
    ap (λ (t : ℕ). digit t (7 - k % 8)) (get_or-take n (k / 8) packet 0 (omega arith))

-- The units that hold a packet hold its first bytes.
pub Carries-take :
    (carrier : List ℕ) (physical : ℕ → ℕ) (bits n : ℕ) (packet : List ℕ)
    → Carries carrier physical bits packet
    → Carries carrier physical bits (take n packet)
Carries-take carrier physical bits n packet carries u s h w =
    carries u s h (omega (arith, w, length-take n packet))
    ∙ sym (packet_bit-take n _ packet (omega (arith, w, length-take n packet)))

pub read_from-Carries :
    (carrier : List ℕ) (physical : ℕ → ℕ) (units bits : ℕ) (packet : List ℕ)
    → 0 < bits
    → All IsByte packet
    → length packet * 8 ≤ usize_max
    → div_ceil (length packet * 8) bits ≤ units
    → Carries carrier physical bits packet
    → read_from carrier physical units (length packet) bits ≡ ok packet
unfolding read_from
read_from-Carries carrier physical units bits packet pos bytes small fits carries =
    let start : Scatter = record { bit_index = 0; output = replicate (length packet) 0 } in
    let count = div_ceil (length packet * 8) bits in
    let held =
      read_units-Holds packet carrier physical bits carries count 0 start (omega arith)
        (zeros-Holds packet) in
    let full : min ((0 + count) * bits) (length packet * 8) ≡ length packet * 8 = omega (
      arith,
      le-div_ceil (length packet * 8) bits pos,
      ap (λ (t : ℕ). t * bits) (zero-add count),
    ) in
    let same : (read_units carrier physical bits (length packet * 8) count 0 start).output
        ≡ packet =
      packet_bit_ext _ packet held.bounded (get_or-byte packet bytes) held.same_length (λ k w.
        held.filled k w
        ∙ ap (λ (t : ℕ). placed packet t k) full
        ∙ sym (placed_some packet _ k w)) in
    let small_test : leb (length packet * 8) usize_max ≡ true = ground arith in
    let fits_test : leb count units ≡ true = ground arith in rw (small_test, fits_test) (ap ok same)

-- The first `n` bytes, read back.
pub read_from-Carries_prefix :
    (carrier : List ℕ) (physical : ℕ → ℕ) (units bits n : ℕ) (packet : List ℕ)
    → 0 < bits
    → All IsByte packet
    → length packet * 8 ≤ usize_max
    → length packet * 8 ≤ units * bits
    → n ≤ length packet
    → Carries carrier physical bits packet
    → read_from carrier physical units n bits ≡ ok (take n packet)
read_from-Carries_prefix carrier physical units bits n packet pos bytes small room h carries =
    let size : length (take n packet) ≡ n = omega (arith, length-take n packet, h) in
    ap (λ (t : ℕ). read_from carrier physical units t bits) (sym size)
    ∙ read_from-Carries carrier physical units bits (take n packet) pos
        (All-take IsByte n packet bytes) (omega (arith, size, small, h))
        (div_ceil-le (length (take n packet) * 8) units bits pos (omega (arith, size, room, h)))
        (Carries-take carrier physical bits n packet carries)
