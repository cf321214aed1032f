-- ===== src/Carrier/Embed/Keyed/RoundTrip.antt =====
-- Extraction after embedding for the keyed and the interleaved kernels of carrier.rs.
use steganographer.Common.{
  ℕ, suc, ◌+◌, ◌-◌, ◌*◌, ◌/◌, ◌<◌, ◌≤◌, ◌≡◌, sym, ap, ◌∙◌, List, [], ◌∷◌, length, take, get_or,
  arith, All, ok,
}
use steganographer.Common.Bytes.{IsByte}
use steganographer.Common.Digits.{digit}
use steganographer.Packet.Types.{usize_max}
use steganographer.Carrier.{div_ceil, tag_units}
use steganographer.Carrier.Spatial.{
  write_units, write_bits_sequential, extract_bytes, read_bytes_at, read_from,
}
use steganographer.Carrier.Spatial.Units.{write_units_other, length-write_units}
use steganographer.Carrier.Spatial.Read.{Carries, read_from-Carries}
use steganographer.Carrier.Spatial.RoundTrip.{
  within-div_ceil, write_units-Carries, read_from-write_units,
}
use steganographer.Carrier.Spatial.Sequential.{
  write_bits_sequential_upper, write_bits_sequential-write_units, length-write_bits_sequential,
  unit_injective, unit_inside,
}
use steganographer.Carrier.Embed.Keyed.Schedules.{IsSchedule}

bytes_from_get : (xs : List ℕ) → ((i : ℕ) → get_or xs i 0 < 256) → All IsByte xs
bytes_from_get [] h = tt
bytes_from_get (x ∷ xs) h = (h 0, bytes_from_get xs (λ i. h (suc i)))

-- The carrier with the tag, and then the packet over the schedule `f` of the body units.
module _ (carrier : List ℕ) (stride bits : ℕ) (tag packet : List ℕ) (f : ℕ → ℕ)
    (bytes : All IsByte carrier) (pos_stride : 0 < stride) (pos : 0 < bits) (small : bits ≤ 4)
    (tag_bytes : All IsByte tag) (tag_length : length tag ≡ 8)
    (tag_room : tag_units bits ≤ length carrier / stride)
    (schedule : IsSchedule (length carrier / stride - tag_units bits) f)
    (room : div_ceil (length packet * 8) bits ≤ length carrier / stride - tag_units bits) where
  abbrev pub tagged : List ℕ
  tagged = write_bits_sequential carrier stride tag bits

  abbrev pub place : ℕ → ℕ
  place u = (tag_units bits + f u) * stride

  abbrev pub full : List ℕ
  full =
      write_units packet (length packet * 8) bits place (div_ceil (length packet * 8) bits) 0 0
        tagged

  tag_units_lem : tag_units bits ≡ div_ceil (length tag * 8) bits
  unfolding tag_units
  tag_units_lem = ap (λ (t : ℕ). div_ceil (t * 8) bits) (sym tag_length)

  tag_fits : div_ceil (length tag * 8) bits ≤ length carrier / stride
  unfolding tag_units
  tag_fits = rw tag_length tag_room

  pub length-full : length full ≡ length carrier
  length-full =
      length-write_units packet (length packet * 8) bits place _ 0 0 tagged
      ∙ length-write_bits_sequential carrier stride tag bits pos small pos_stride tag_fits

  place_injective :
      (u v : ℕ)
      → u < length carrier / stride - tag_units bits
      → v < length carrier / stride - tag_units bits
      → place u ≡ place v
      → u ≡ v
  place_injective u v hu hv e =
      let same = unit_injective stride pos_stride (tag_units bits + f u) (tag_units bits + f v) e in
      schedule.injective u v hu hv (omega (arith, same))

  place_inside : (u : ℕ) → u < length carrier / stride - tag_units bits → place u < length tagged
  place_inside u h =
      let near = schedule.in_range u h in
      rw (length-write_bits_sequential carrier stride tag bits pos small pos_stride tag_fits) (
        unit_inside stride pos_stride (tag_units bits + f u) (length carrier) (omega (arith, near)))

  tagged_bytes : All IsByte tagged
  tagged_bytes = bytes_from_get tagged (λ i.
      (write_bits_sequential_upper carrier stride tag bits pos small pos_stride tag_fits bytes
        i).1.1)

  -- The packet's bytes are read back through the schedule.
  pub read_bytes_at-full :
      (n : ℕ)
      → All IsByte packet
      → length packet * 8 ≤ usize_max
      → n ≤ length packet
      → read_bytes_at full stride
          (tag_units bits)
          f
          (length carrier / stride - tag_units bits)
          n
          bits
        ≡ ok (take n packet)
  unfolding read_bytes_at
  read_bytes_at-full n packet_bytes counted h =
      read_from-write_units packet bits place (length carrier / stride - tag_units bits) small
        place_injective tagged tagged_bytes place_inside room n pos packet_bytes counted h

  -- The packet leaves the tag's units alone, so the tag is read back.
  pub extract_bytes-full : extract_bytes full stride 8 bits ≡ ok tag
  unfolding extract_bytes
  extract_bytes-full = rw length-full (
      ap (λ (t : ℕ). read_from full (λ i. i * stride) (length carrier / stride) t bits)
        (sym tag_length)
      ∙ read_from-Carries full (λ i. i * stride) (length carrier / stride) bits tag pos tag_bytes
          (omega (arith, tag_length)) tag_fits tag_kept)
    where
      tag_written : Carries tagged (λ i. i * stride) bits tag
      tag_written =
          rw
            (write_bits_sequential-write_units carrier stride tag bits pos small pos_stride
              tag_fits)
            (write_units-Carries tag bits (λ i. i * stride) (length carrier / stride) small
              (λ u v a b e. unit_injective stride pos_stride u v e) carrier bytes
              (λ u a. unit_inside stride pos_stride u (length carrier) a) tag_fits)

      tag_kept : Carries full (λ i. i * stride) bits tag
      tag_kept u s h w =
          let low = within-div_ceil u s bits (length tag * 8) h w in
          let first : u < tag_units bits = omega (arith, low, tag_units_lem) in
          ap (λ (t : ℕ). digit t s)
            (write_units_other packet (length packet * 8) bits place _ 0 0 (u * stride) tagged
              (λ v lo hi e. absurd (
                omega (arith, first, unit_injective stride pos_stride (tag_units bits + f v) u e))))
          ∙ tag_written u s h w
