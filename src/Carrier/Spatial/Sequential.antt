-- ===== src/Carrier/Spatial/Sequential.antt =====
-- `write_bits_sequential` and `extract_bytes` of carrier.rs, at every stride.
use steganographer.Common.{
  ℕ, suc, ◌+◌, ◌*◌, ◌/◌, ◌%◌, ◌^◌, ◌<◌, ◌≤◌, min, ◌≡◌, ap, ◌∙◌, List, length, take, get_or, arith,
  All, ok,
}
use steganographer.Common.Bytes.{IsByte}
use native.Mathlib.Nat.{
  le_of_mul-le-mul_right, mul-le-mul_right, div-mul-le_self, suc-mul, mul-add-mod_self_right,
  mod-eq_of_lt, mul-mod_left,
}
use steganographer.Packet.Types.{usize_max}
use steganographer.Carrier.{div_ceil}
use steganographer.Carrier.Spatial.{
  write_units, write_until_done, write_bits_sequential, extract_bytes,
}
use steganographer.Carrier.Spatial.Units.{write_units_other, write_units_upper, length-write_units}
use steganographer.Carrier.Spatial.Read.{get_or-byte}
use steganographer.Carrier.Spatial.RoundTrip.{write_until_done-write_units, read_from-write_units}

module _ (stride : ℕ) (pos_stride : 0 < stride) where
  pub unit_injective : (u v : ℕ) → u * stride ≡ v * stride → u ≡ v
  unit_injective u v e =
      let one : u ≤ v = le_of_mul-le-mul_right {k = stride} (omega (arith, e)) pos_stride in
      let two : v ≤ u = le_of_mul-le-mul_right {k = stride} (omega (arith, e)) pos_stride in
      omega (arith, one, two)

  pub unit_inside : (u n : ℕ) → u < n / stride → u * stride < n
  unit_inside u n h = omega (
    arith,
    pos_stride,
    suc-mul u stride,
    mul-le-mul_right {m = suc u} {n = n / stride} stride h,
    div-mul-le_self n stride,
  )

module _ (carrier : List ℕ) (stride : ℕ) (packet : List ℕ) (bits : ℕ) (pos : 0 < bits)
    (small : bits ≤ 4) (pos_stride : 0 < stride)
    (fits : div_ceil (length packet * 8) bits ≤ length carrier / stride) where
  -- A carrier with room for the packet is written as by the keyed loop, unit by unit.
  pub write_bits_sequential-write_units :
      write_bits_sequential carrier stride packet bits
      ≡ write_units packet
          (length packet * 8)
          bits
          (λ i. i * stride)
          (div_ceil (length packet * 8) bits)
          0
          0
          carrier
  unfolding write_bits_sequential
  write_bits_sequential-write_units = from_index 0 (omega arith)
    where
      from_index :
          (b : ℕ)
          → b ≡ min (0 * bits) (length packet * 8)
          → write_until_done packet
              (length packet * 8)
              bits
              stride
              (length carrier / stride)
              0
              b
              carrier
            ≡ write_units packet
                (length packet * 8)
                bits
                (λ i. i * stride)
                (div_ceil (length packet * 8) bits)
                0
                b
                carrier
      from_index b e = rw e (
          write_until_done-write_units packet (length packet * 8) bits stride pos
            (div_ceil (length packet * 8) bits) (length carrier / stride) 0 carrier (omega arith)
            fits)

  pub length-write_bits_sequential :
      length (write_bits_sequential carrier stride packet bits) ≡ length carrier
  length-write_bits_sequential =
      ap length write_bits_sequential-write_units
      ∙ length-write_units packet (length packet * 8) bits (λ i. i * stride) _ 0 0 carrier

  module _ (bytes : All IsByte carrier) where
    -- For 1 to 4 bits a unit, a positive stride, a carrier of bytes with enough units, and bytes
    -- whose bits a `usize` counts, `extract_bytes` of `n` bytes, no more than there are, gives the
    -- first `n` bytes back after `write_bits_sequential`.
    pub extract_bytes-write_bits_sequential :
        (n : ℕ)
        → All IsByte packet
        → length packet * 8 ≤ usize_max
        → n ≤ length packet
        → extract_bytes (write_bits_sequential carrier stride packet bits) stride n bits
          ≡ ok (take n packet)
    unfolding extract_bytes
    extract_bytes-write_bits_sequential n packet_bytes fits_usize h =
        rw (length-write_bits_sequential, write_bits_sequential-write_units)
          (read_from-write_units packet bits (λ i. i * stride) (length carrier / stride) small
            (λ u v a b e. unit_injective stride pos_stride u v e) carrier bytes
            (λ u a. unit_inside stride pos_stride u (length carrier) a) fits n pos packet_bytes
            fits_usize h)

    -- For 1 to 4 bits a unit, a positive stride and a carrier of bytes with enough units, the write
    -- keeps the carrier's length and, in every byte, the bits above the `bits` lowest; and it leaves
    -- bytes.
    pub write_bits_sequential_upper :
        (p : ℕ)
        → (length (write_bits_sequential carrier stride packet bits) ≡ length carrier)
          × ((get_or (write_bits_sequential carrier stride packet bits) p 0 / 2 ^ bits
                ≡ get_or carrier p 0 / 2 ^ bits)
              × (get_or (write_bits_sequential carrier stride packet bits) p 0 < 256))
    write_bits_sequential_upper p = (
      length-write_bits_sequential,
      rw write_bits_sequential-write_units (from_index 0 (omega arith)),
    )
      where
        from_index :
            (b : ℕ)
            → b ≡ min (0 * bits) (length packet * 8)
            → (get_or
                    (write_units packet
                      (length packet * 8)
                      bits
                      (λ i. i * stride)
                      (div_ceil (length packet * 8) bits)
                      0
                      b
                      carrier)
                    p
                    0
                  / 2 ^ bits
                ≡ get_or carrier p 0 / 2 ^ bits)
              × (get_or
                    (write_units packet
                      (length packet * 8)
                      bits
                      (λ i. i * stride)
                      (div_ceil (length packet * 8) bits)
                      0
                      b
                      carrier)
                    p
                    0
                  < 256)
        from_index b e = rw e (
            write_units_upper packet (length packet * 8) bits (λ i. i * stride)
              (div_ceil (length packet * 8) bits) 0 carrier small (get_or-byte carrier bytes) p)

  -- For 1 to 4 bits a unit, a positive stride and a carrier with enough units, every byte that is
  -- not the first of its unit keeps its value, such as the high byte of a 16-bit sample.
  pub write_bits_sequential_rest :
      (u r : ℕ)
      → suc r < stride
      → get_or (write_bits_sequential carrier stride packet bits) (u * stride + suc r) 0
        ≡ get_or carrier (u * stride + suc r) 0
  write_bits_sequential_rest u r h = rw write_bits_sequential-write_units (
      write_units_other packet (length packet * 8) bits (λ i. i * stride) _ 0 0 (u * stride + suc r)
        carrier
        (λ v lo hi q. absurd (
          omega (
            arith,
            h,
            ap (λ (t : ℕ). t % stride) q,
            mul-mod_left v stride,
            mul-add-mod_self_right u stride (suc r),
            mod-eq_of_lt {n = suc r} {m = stride} h,
          ))))
