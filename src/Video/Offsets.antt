-- ===== src/Video/Offsets.antt =====
-- Every color byte of a validated frame has a place of its own inside the buffer.
use steganographer.Common.{
  ℕ, ◌+◌, ◌-◌, ◌*◌, ◌/◌, ◌%◌, ◌<◌, ◌≤◌, ◌≡◌, refl, sym, ap, ap₂, ◌∙◌, arith, length, ok, some,
}
use native.Mathlib.Nat.{
  mod-lt, mod-eq_of_lt, div-eq_of_lt, div-add-mod', add-mul-div_right, mul-add-mod_self_right,
  mul-le-mul_right, div-lt_iff_lt-mul, add_comm,
}
use steganographer.Video.{
  VideoFrame, bytes_per_pixel, validate_packed_layout, offset_of, byte_offset,
}

-- What a successful validation has established.
record Layout (frame : VideoFrame) (bpp : ℕ) : Type 0 where
  wide : 3 ≤ bpp
  columns : 0 < frame.width
  rows : 0 < frame.height
  row_fits : frame.width * bpp ≤ frame.stride
  inside : (frame.height - 1) * frame.stride + frame.width * bpp ≤ length frame.pixels

validate_packed_layout-Layout :
    (frame : VideoFrame) (bpp : ℕ) → validate_packed_layout frame ≡ ok bpp → Layout frame bpp
unfolding validate_packed_layout bytes_per_pixel
validate_packed_layout-Layout frame bpp h = record {
  wide = ground arith;
  columns = ground arith;
  rows = ground arith;
  row_fits = ground arith;
  inside = ground arith;
}

-- A number is split by a divisor into a quotient and a remainder again.
quotient_of : (q d r : ℕ) → r < d → (q * d + r) / d ≡ q
quotient_of q d r h =
    ap (λ (t : ℕ). t / d) (add_comm (q * d) r)
    ∙ add-mul-div_right r q (omega arith)
    ∙ (omega (arith, div-eq_of_lt h))

remainder_of : (q d r : ℕ) → r < d → (q * d + r) % d ≡ r
remainder_of q d r h = mul-add-mod_self_right q d r ∙ mod-eq_of_lt h

-- A pixel before the end of a row, and a byte before the end of a pixel.
within_row : (c w bpp b : ℕ) → c < w → b < 3 → 3 ≤ bpp → c * bpp + b < w * bpp
within_row c w bpp b h k l =
    let step : (c + 1) * bpp ≤ w * bpp = mul-le-mul_right bpp (omega arith) in grind arith

module _ (frame : VideoFrame) (bpp : ℕ) (l : Layout frame bpp) where
  abbrev row_units : ℕ
  row_units = frame.width * 3

  abbrev in_row : ℕ → ℕ
  in_row logical = logical % row_units / 3 * bpp + logical % row_units % 3

  in_row-lt : (logical : ℕ) → in_row logical < frame.width * bpp
  in_row-lt logical =
      let column = mod-lt logical {m = frame.width * 3} (omega (arith, l.columns)) in
      let pixel : logical % row_units / 3 < frame.width =
        (div-lt_iff_lt-mul {k = 3} {x = logical % row_units} {y = frame.width} (omega arith)).1
          column in
      within_row (logical % row_units / 3) frame.width bpp (logical % row_units % 3) pixel
        (omega arith) l.wide

  in_row-stride : (logical : ℕ) → in_row logical < frame.stride
  in_row-stride logical = omega (arith, in_row-lt logical, l.row_fits)

  -- The row, the pixel and the color of an offset are those of its logical byte.
  row_of :
      (logical : ℕ)
      → (logical / row_units * frame.stride + in_row logical) / frame.stride ≡ logical / row_units
  row_of logical =
      quotient_of (logical / row_units) frame.stride (in_row logical) (in_row-stride logical)

  rest_of :
      (logical : ℕ)
      → (logical / row_units * frame.stride + in_row logical) % frame.stride ≡ in_row logical
  rest_of logical =
      remainder_of (logical / row_units) frame.stride (in_row logical) (in_row-stride logical)

  color-lt : (logical : ℕ) → logical % row_units % 3 < bpp
  color-lt logical = omega (arith, l.wide)

  column_of :
      (logical logical' : ℕ)
      → in_row logical ≡ in_row logical'
      → logical % row_units ≡ logical' % row_units
  column_of logical logical' h =
      let pixel : logical % row_units / 3 ≡ logical' % row_units / 3 =
        sym (quotient_of (logical % row_units / 3) bpp (logical % row_units % 3) (color-lt logical))
        ∙ ap (λ (t : ℕ). t / bpp) h
        ∙ quotient_of (logical' % row_units / 3) bpp (logical' % row_units % 3)
            (color-lt logical') in
      let color : logical % row_units % 3 ≡ logical' % row_units % 3 =
        sym
          (remainder_of (logical % row_units / 3) bpp (logical % row_units % 3) (color-lt logical))
        ∙ ap (λ (t : ℕ). t % bpp) h
        ∙ remainder_of (logical' % row_units / 3) bpp (logical' % row_units % 3)
            (color-lt logical') in
      omega (arith, pixel, color)

  offset_lem :
      (logical : ℕ)
      → offset_of frame bpp logical ≡ logical / row_units * frame.stride + in_row logical
  unfolding offset_of
  offset_lem logical = omega arith

  offset-lt :
      (logical : ℕ)
      → logical < frame.width * frame.height * 3
      → offset_of frame bpp logical < length frame.pixels
  offset-lt logical h =
      let total : frame.height * row_units ≡ frame.width * frame.height * 3 = grind arith in
      let row : logical / row_units < frame.height =
        (div-lt_iff_lt-mul {k = frame.width * 3} {x = logical} {y = frame.height}
            (omega (arith, l.columns))).1
          (omega (arith, total)) in
      let above : logical / row_units * frame.stride ≤ (frame.height - 1) * frame.stride =
        mul-le-mul_right frame.stride (omega (arith, row)) in
      omega (arith, offset_lem logical, above, in_row-lt logical, l.inside)

  offset-injective :
      (logical logical' : ℕ)
      → offset_of frame bpp logical ≡ offset_of frame bpp logical'
      → logical ≡ logical'
  offset-injective logical logical' h =
      let same : logical / row_units * frame.stride + in_row logical
          ≡ logical' / row_units * frame.stride + in_row logical' =
        sym (offset_lem logical) ∙ h ∙ offset_lem logical' in
      let row : logical / row_units ≡ logical' / row_units =
        sym (row_of logical) ∙ ap (λ (t : ℕ). t / frame.stride) same ∙ row_of logical' in
      let rest : in_row logical ≡ in_row logical' =
        sym (rest_of logical) ∙ ap (λ (t : ℕ). t % frame.stride) same ∙ rest_of logical' in
      sym (div-add-mod' logical row_units)
      ∙ ap₂ (λ (a b : ℕ). a * row_units + b) row (column_of logical logical' rest)
      ∙ div-add-mod' logical' row_units

-- A validated frame has a packed format, and offsets.
byte_offset-some :
    (frame : VideoFrame) (bpp logical : ℕ)
    → validate_packed_layout frame ≡ ok bpp
    → byte_offset frame logical ≡ some (offset_of frame bpp logical)
unfolding validate_packed_layout byte_offset
byte_offset-some frame bpp logical h =
    let format : bytes_per_pixel frame.format ≡ some bpp = ground arith in
    rw (byte_offset, format) refl

-- In a frame that `validate_packed_layout` accepts, every color byte of a pixel has an offset, which
-- is inside the buffer.
pub byte_offset-lt-length :
    (frame : VideoFrame) (bpp logical : ℕ)
    → validate_packed_layout frame ≡ ok bpp
    → logical < frame.width * frame.height * 3
    → (offset : ℕ) × ((byte_offset frame logical ≡ some offset) × (offset < length frame.pixels))
byte_offset-lt-length frame bpp logical h inside = (
  offset_of frame bpp logical,
  (
    byte_offset-some frame bpp logical h,
    offset-lt frame bpp (validate_packed_layout-Layout frame bpp h) logical inside,
  ),
)

-- In a frame that `validate_packed_layout` accepts, two color bytes with the same offset are the same
-- color byte.
pub byte_offset-injective :
    (frame : VideoFrame) (bpp logical logical' : ℕ)
    → validate_packed_layout frame ≡ ok bpp
    → byte_offset frame logical ≡ byte_offset frame logical'
    → logical ≡ logical'
byte_offset-injective frame bpp logical logical' h same =
    offset-injective frame bpp (validate_packed_layout-Layout frame bpp h) logical logical' (
      let one = byte_offset-some frame bpp logical h in
      let two = byte_offset-some frame bpp logical' h in cc)
