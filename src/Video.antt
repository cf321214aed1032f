-- ===== src/Video.antt =====
-- steganographer-core/src/video.rs and the slot map of lsb_video.rs: the layout of a packed frame,
-- and where the color bytes of its pixels stand in the buffer.
pub mod Offsets
use steganographer.Common.{
  ℕ, ◌+◌, ◌-◌, ◌*◌, ◌/◌, ◌%◌, List, Option, some, none, ltb, leb, ◌&&◌, if◌then◌else◌, length,
  Result, ok, err, ensure, ◌>>=◌, ◌>>◌,
}
use steganographer.Packet.Types.{usize_max}

pub data VideoFormat : Type 0 where
  rgb8 bgra8 yuv420 : VideoFormat

unfoldable pub bytes_per_pixel : VideoFormat → Option ℕ
bytes_per_pixel rgb8 = some 3
bytes_per_pixel bgra8 = some 4
bytes_per_pixel yuv420 = none

pub record VideoFrame : Type 0 where
  pub width : ℕ
  pub height : ℕ
  pub stride : ℕ
  pub format : VideoFormat
  pub pixels : List ℕ
  pub frame_index : ℕ

pub data VideoError : Type 0 where
  planar empty_dimensions row_overflow short_stride extent_overflow truncated_data
        capacity_overflow :
      VideoError

-- `checked_mul` and `checked_add` with their error.
abbrev pub checked : ℕ → VideoError → Result VideoError ℕ
checked value failure = if leb value usize_max then ok value else err failure

abbrev pub packed : Option ℕ → Result VideoError ℕ
packed none = err planar
packed (some bpp) = ok bpp

unfoldable pub validate_packed_layout : VideoFrame → Result VideoError ℕ
validate_packed_layout frame = do
  bpp ← packed (bytes_per_pixel frame.format)
  ensure (ltb 0 frame.width && ltb 0 frame.height) empty_dimensions
  row_bytes ← checked (frame.width * bpp) row_overflow
  ensure (leb row_bytes frame.stride) short_stride
  offset ← checked ((frame.height - 1) * frame.stride) extent_overflow
  extent ← checked (offset + row_bytes) extent_overflow
  ensure (leb extent (length frame.pixels)) truncated_data
  ok bpp

-- The arithmetic of `LsbVideo::byte_offset`.
unfoldable pub offset_of : VideoFrame → ℕ → ℕ → ℕ
offset_of frame bpp logical =
    let row_units = frame.width * 3 in
    let row = logical / row_units in
    let column = logical % row_units in row * frame.stride + column / 3 * bpp + column % 3

-- `LsbVideo::byte_offset`; there is none where the code panics, on a planar format.
unfoldable pub byte_offset : VideoFrame → ℕ → Option ℕ
byte_offset frame logical = elim (bytes_per_pixel frame.format) [
  | none ↦ none
  | some bpp ↦ some (offset_of frame bpp logical)
]
