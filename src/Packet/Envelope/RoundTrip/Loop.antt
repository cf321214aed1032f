-- ===== src/Packet/Envelope/RoundTrip/Loop.antt =====
-- The loop of `decode` over the TLV fields that `push_tlv` wrote is a fold of the field handlers.
use steganographer.Common.{
  ℕ, zero, suc, ◌+◌, ◌*◌, ◌^◌, ◌<◌, ◌≤◌, ◌≡◌, refl, ap, ◌∙◌, List, [], ◌∷◌, ◌++◌, Bool, true, false,
  arith, not, ◌==◌, leb, length, length-append, drop, take-append, drop-append, ok, ◌>>=◌, bit_and,
}
use mathlib.Core.Path.{fun_ext}
use steganographer.Common.Bits.{
  bit_or_comm, bit_or-zero, bit_or_fields, bit_and_mask, bit_and_single,
}
use steganographer.Common.Bytes.{to_be_bytes, from_be_bytes-to_be_bytes}
use steganographer.Packet.Types.{
  PacketResult, DecodeLimits, check_limit, usize_max, field_critical, field_id_mask,
}
use steganographer.Packet.Wire.{tlv, wire_id}
use steganographer.Packet.Envelope.Encode.{Field}
use steganographer.Packet.Envelope.Decode.{
  Partial, Header, read_header, check_header, round, decode_loop, decode_field, critical_ok,
}

wire_id_lem : (id : ℕ) → id < 2 ^ 15 → wire_id id true ≡ 1 * 2 ^ 15 + id
wire_id_lem id h = bit_or_comm id (2 ^ 15) ∙ bit_or_fields 15 1 id h

wire_id-lt : (id : ℕ) (critical : Bool) → id < 2 ^ 15 → wire_id id critical < 2 ^ 16
wire_id-lt id true h = omega (arith, wire_id_lem id h)
wire_id-lt id false h = omega (arith, bit_or-zero id)

-- The identifier and the critical bit come apart again.
wire_id_mask :
    (id : ℕ) (critical : Bool) → id < 2 ^ 15 → bit_and (wire_id id critical) field_id_mask ≡ id
wire_id_mask id true h = omega (arith, bit_and_mask 15 (wire_id id true), wire_id_lem id h)
wire_id_mask id false h = omega (arith, bit_and_mask 15 (wire_id id false), bit_or-zero id)

wire_id_critical :
    (id : ℕ) (critical : Bool)
    → id < 2 ^ 15
    → not (bit_and (wire_id id critical) field_critical == 0) ≡ critical
wire_id_critical id true h =
    let e : bit_and (wire_id id true) field_critical ≡ 2 ^ 15 =
      ap (λ (t : ℕ). bit_and t (2 ^ 15)) (wire_id_lem id h) ∙ bit_and_single 15 1 id h in
    rw e
wire_id_critical id false h =
    let e : bit_and (wire_id id false) field_critical ≡ 0 =
      let plain : wire_id id false ≡ 0 * 2 ^ 15 + id = omega (arith, bit_or-zero id) in
      ap (λ (t : ℕ). bit_and t (2 ^ 15)) plain ∙ bit_and_single 15 0 id h in
    rw e

-- What a field needs to be accepted behind a field with the identifier `previous`.
pub record Fits (limits : DecodeLimits) (previous : ℕ) (f : Field) : Type 0 where
  pub positive : 0 < f.id
  pub in_range : f.id < 2 ^ 15
  pub ordered : previous ≤ f.id
  pub short : length f.value < 2 ^ 32
  pub bounded : length f.value ≤ limits.max_field_len
  pub canonical : critical_ok f.id f.critical ≡ true

abbrev header_of : Field → Header
header_of f = record { critical = f.critical; id = f.id; len = length f.value }

abbrev pub bytes_of : Field → List ℕ
bytes_of f = tlv f.id f.critical f.value

read_header-tlv :
    (f : Field) (rest : List ℕ)
    → f.id < 2 ^ 15
    → length f.value < 2 ^ 32
    → read_header (bytes_of f ++ rest) ≡ header_of f
unfolding read_header tlv to_be_bytes
read_header-tlv f rest hi hl =
    let raw =
      from_be_bytes-to_be_bytes 2 (wire_id f.id f.critical) (wire_id-lt f.id f.critical hi) in
    λ i. record {
      critical =
          (ap (λ (t : ℕ). not (bit_and t field_critical == 0)) raw
              ∙ wire_id_critical f.id f.critical hi)
            i;
      id = (ap (λ (t : ℕ). bit_and t field_id_mask) raw ∙ wire_id_mask f.id f.critical hi) i;
      len = from_be_bytes-to_be_bytes 4 (length f.value) hl i;
    }

check_header_lem :
    (limits : DecodeLimits) (total cursor previous : ℕ) (f : Field)
    → Fits limits previous f
    → cursor + 6 + length f.value ≤ total
    → total ≤ usize_max
    → check_header limits total cursor previous (header_of f) ≡ ok (cursor + 6 + length f.value)
unfolding check_header check_limit
check_header_lem limits total cursor previous f w ht hm = ground arith

pub length-tlv :
    (f : Field) (rest : List ℕ) → length (bytes_of f ++ rest) ≡ 6 + length f.value + length rest
unfolding tlv to_be_bytes
length-tlv f rest = omega (arith, length-append f.value rest)

drop-tlv : (f : Field) (rest : List ℕ) → drop 6 (bytes_of f ++ rest) ≡ f.value ++ rest
unfolding tlv to_be_bytes
drop-tlv f rest = refl

enter_round :
    (limits : DecodeLimits) (total fuel cursor count previous : ℕ) (input : List ℕ) (p : Partial)
    → 6 ≤ length input
    → count + 1 ≤ limits.max_fields
    → decode_loop limits total (suc fuel) cursor count previous input p
      ≡ round limits total
          (decode_loop limits total fuel)
          cursor
          count
          previous
          (read_header input)
          (drop 6 input)
          p
unfolding decode_loop check_limit
enter_round limits total fuel cursor count previous [] p h hc = absurd (omega arith)
enter_round limits total fuel cursor count previous (b ∷ bs) p h hc =
    let counted : leb (count + 1) limits.max_fields ≡ true = ground arith in
    let long : leb 6 (suc (length bs)) ≡ true = ground arith in rw (counted, long)

round-header_of :
    (limits : DecodeLimits) (total : ℕ) (next : ℕ → ℕ → ℕ → List ℕ → Partial → PacketResult Partial)
    (cursor count previous : ℕ) (f : Field) (rest : List ℕ) (p : Partial)
    → Fits limits previous f
    → cursor + 6 + length f.value ≤ total
    → total ≤ usize_max
    → round limits total next cursor count previous (header_of f) (f.value ++ rest) p ≡ (
        decode_field limits f.critical f.id f.value p >>= λ p'.
        next (cursor + 6 + length f.value) (count + 1) f.id rest p')
unfolding round
round-header_of limits total next cursor count previous f rest p w ht hm = rw (
  check_header_lem limits total cursor previous f w ht hm,
  w.canonical,
  take-append f.value rest,
  drop-append f.value rest,
)

-- One round of the loop on a field that fits: the handler runs, and the loop goes on behind it.
decode_loop-tlv :
    (limits : DecodeLimits) (total fuel cursor count previous : ℕ) (f : Field) (rest : List ℕ)
    (p : Partial)
    → Fits limits previous f
    → cursor + 6 + length f.value ≤ total
    → total ≤ usize_max
    → count + 1 ≤ limits.max_fields
    → decode_loop limits total (suc fuel) cursor count previous (bytes_of f ++ rest) p ≡ (
        decode_field limits f.critical f.id f.value p >>= λ p'.
        decode_loop limits total fuel (cursor + 6 + length f.value) (count + 1) f.id rest p')
decode_loop-tlv limits total fuel cursor count previous f rest p w ht hm hc =
    enter_round limits total fuel cursor count previous (bytes_of f ++ rest) p
      (omega (arith, length-tlv f rest)) hc
    ∙ ap
        (λ h.
          round limits total (decode_loop limits total fuel) cursor count previous h
            (drop 6 (bytes_of f ++ rest)) p)
        (read_header-tlv f rest w.in_range w.short)
    ∙ ap
        (λ t.
          round limits total (decode_loop limits total fuel) cursor count previous (header_of f) t
            p)
        (drop-tlv f rest)
    ∙ round-header_of limits total (decode_loop limits total fuel) cursor count previous f rest p w
        ht hm

-- The fold of the handlers over a list of fields.
unfoldable pub decode_fields : DecodeLimits → List Field → Partial → PacketResult Partial
decode_fields limits [] p = ok p
decode_fields limits (f ∷ fs) p =
    decode_field limits f.critical f.id f.value p >>= λ p'. decode_fields limits fs p'

-- The bytes of a list of fields.
unfoldable pub wire : List Field → List ℕ
wire [] = []
wire (f ∷ fs) = bytes_of f ++ wire fs

-- Every field fits behind the one before it.
abbrev pub FitsAll : DecodeLimits → ℕ → List Field → Type 0
FitsAll limits previous [] = Unit
FitsAll limits previous (f ∷ fs) = Fits limits previous f × FitsAll limits f.id fs

pub decode_loop-wire :
    (limits : DecodeLimits) (total : ℕ) (fs : List Field) (fuel cursor count previous : ℕ)
    (p : Partial)
    → FitsAll limits previous fs
    → length fs ≤ fuel
    → count + length fs ≤ limits.max_fields
    → cursor + length (wire fs) ≤ total
    → total ≤ usize_max
    → decode_loop limits total fuel cursor count previous (wire fs) p ≡ decode_fields limits fs p
unfolding wire decode_fields
decode_loop-wire limits total [] fuel cursor count previous p w hf hc ht hm =
    unfold decode_loop in refl
decode_loop-wire limits total (f ∷ fs) zero cursor count previous p w hf hc ht hm =
    absurd (omega arith)
decode_loop-wire limits total (f ∷ fs) (suc fuel) cursor count previous p (wf, ws) hf hc ht hm =
    let size : length (wire (f ∷ fs)) ≡ 6 + length f.value + length (wire fs) =
      length-tlv f (wire fs) in
    decode_loop-tlv limits total fuel cursor count previous f (wire fs) p wf (omega arith) hm
      (omega arith)
    ∙ ap (λ k. decode_field limits f.critical f.id f.value p >>= k)
        (fun_ext λ p'.
          decode_loop-wire limits total fs fuel (cursor + 6 + length f.value) (count + 1) f.id p' ws
            (omega arith) (omega arith) (omega arith) hm)
