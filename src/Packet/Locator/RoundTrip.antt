-- ===== src/Packet/Locator/RoundTrip.antt =====
-- The 32 bytes of a locator and the locator determine one another.
use steganographer.Common.{ℕ, ◌+◌, ◌^◌, ◌<◌, ◌≤◌, ◌≡◌, refl, List, ◌++◌, arith, ap, ◌∙◌, sym}
use steganographer.Common.{
  length, length-append, take, drop, take_split, drop-drop, take-one, All-take, All-drop,
  length-take, length-drop, take-append, All, bytes_eq, ok, true, leb, >>-eq-ok, ensure-eq-ok,
  bytes_eq→eq,
}
use steganographer.Common.Bytes.{
  IsByte, to_be_bytes, from_be_bytes, from_be_bytes-to_be_bytes, to_be_bytes-from_be_bytes,
}
use steganographer.Packet.Types.{DecodeLimits, Locator, packet_magic}
use steganographer.Packet.Locator.{
  validate_flags, validate_lengths, new, to_bytes, from_bytes, read_fields, check_fields,
}

-- Each field has its width on the wire, and the version is one that this code writes.
pub record IsLocator (l : Locator) : Type 0 where
  pub major : l.protocol_major ≡ 1
  pub minor : l.protocol_minor ≡ 0
  pub flags_width : l.flags < 2 ^ 16
  pub envelope_width : l.envelope_len < 2 ^ 32
  pub body_width : l.encoded_body_len < 2 ^ 64
  pub crc_width : l.envelope_crc32c < 2 ^ 32
  pub nonce_width : length l.nonce ≡ 8

take-append_len : (n : ℕ) (xs ys : List ℕ) → length xs ≡ n → take n (xs ++ ys) ≡ xs
take-append_len n xs ys e = ap (λ (k : ℕ). take k (xs ++ ys)) (sym e) ∙ take-append xs ys

-- Past the length and the magic the fields decide.
enter :
    (input : List ℕ) (limits : DecodeLimits)
    → 32 ≤ length input
    → bytes_eq (take 4 input) packet_magic ≡ true
    → from_bytes input limits ≡ check_fields (read_fields input) limits
unfolding from_bytes
enter input limits h m = let long : leb 32 (length input) ≡ true = ground arith in rw (long, m)

module _ (l : Locator) (limits : DecodeLimits) (rest : List ℕ) (w : IsLocator l) where
  read_fields-to_bytes : read_fields (to_bytes l ++ rest) ≡ l
  unfolding read_fields to_bytes to_be_bytes
  read_fields-to_bytes = λ i. record {
    protocol_major = l.protocol_major;
    protocol_minor = l.protocol_minor;
    flags = from_be_bytes-to_be_bytes 2 l.flags w.flags_width i;
    envelope_len = from_be_bytes-to_be_bytes 4 l.envelope_len w.envelope_width i;
    encoded_body_len = from_be_bytes-to_be_bytes 8 l.encoded_body_len w.body_width i;
    envelope_crc32c = from_be_bytes-to_be_bytes 4 l.envelope_crc32c w.crc_width i;
    nonce = take-append_len 8 l.nonce rest w.nonce_width i;
  }

  check_fields-IsLocator :
      validate_flags l.flags ≡ ok tt
      → validate_lengths l.envelope_len l.encoded_body_len limits ≡ ok tt
      → check_fields l limits ≡ ok l
  unfolding check_fields
  check_fields-IsLocator hf hl = ground arith

  pub length-to_bytes : length (to_bytes l ++ rest) ≡ 32 + length rest
  unfolding to_bytes to_be_bytes
  length-to_bytes = omega (arith, length-append l.nonce rest, w.nonce_width)

  magic-to_bytes : bytes_eq (take 4 (to_bytes l ++ rest)) packet_magic ≡ true
  unfolding to_bytes bytes_eq
  magic-to_bytes = refl

  pub from_bytes-to_bytes_fields :
      validate_flags l.flags ≡ ok tt
      → validate_lengths l.envelope_len l.encoded_body_len limits ≡ ok tt
      → from_bytes (to_bytes l ++ rest) limits ≡ ok l
  from_bytes-to_bytes_fields hf hl =
      enter (to_bytes l ++ rest) limits (omega (arith, length-to_bytes)) magic-to_bytes
      ∙ ap (λ t. check_fields t limits) read_fields-to_bytes
      ∙ check_fields-IsLocator hf hl

-- What an accepted locator is made of.
pub record Accepts (input : List ℕ) (limits : DecodeLimits) (l : Locator) : Type 0 where
  pub long : 32 ≤ length input
  pub magic : take 4 input ≡ packet_magic
  pub fields : read_fields input ≡ l
  pub major : l.protocol_major ≡ 1
  pub minor : l.protocol_minor ≡ 0
  pub known : validate_flags l.flags ≡ ok tt
  pub bounded : validate_lengths l.envelope_len l.encoded_body_len limits ≡ ok tt

check_fields-eq-ok :
    (l l' : Locator) (limits : DecodeLimits)
    → check_fields l limits ≡ ok l'
    → (l ≡ l')
      × (l.protocol_major ≡ 1)
      × (l.protocol_minor ≡ 0)
      × (validate_flags l.flags ≡ ok tt)
      × (validate_lengths l.envelope_len l.encoded_body_len limits ≡ ok tt)
unfolding check_fields
check_fields-eq-ok l l' limits h = ground arith

pub from_bytes-Accepts :
    (input : List ℕ) (limits : DecodeLimits) (l : Locator)
    → from_bytes input limits ≡ ok l
    → Accepts input limits l
unfolding from_bytes
from_bytes-Accepts input limits l h =
    let (long, h1) = >>-eq-ok _ _ h in
    let (magic, h2) = >>-eq-ok _ _ h1 in
    let (same, major, minor, known, bounded) = check_fields-eq-ok _ _ limits h2 in
    record {
      long = ground (arith, ensure-eq-ok (leb 32 (length input)) _ long);
      magic = bytes_eq→eq _ _ (ensure-eq-ok _ _ magic);
      fields = same;
      major = ap (λ t. t.protocol_major) (sym same) ∙ major;
      minor = ap (λ t. t.protocol_minor) (sym same) ∙ minor;
      known = ap (λ t. validate_flags t.flags) (sym same) ∙ known;
      bounded =
          ap (λ t. validate_lengths t.envelope_len t.encoded_body_len limits) (sym same) ∙ bounded;
    }

pub new-IsLocator :
    (flags envelope_len body_len crc : ℕ) (nonce : List ℕ) (limits : DecodeLimits) (l : Locator)
    → flags < 2 ^ 16
    → crc < 2 ^ 32
    → length nonce ≡ 8
    → new flags envelope_len body_len crc nonce limits ≡ ok l
    → IsLocator l
      × (validate_flags l.flags ≡ ok tt)
      × (validate_lengths l.envelope_len l.encoded_body_len limits ≡ ok tt)
unfolding new
new-IsLocator flags envelope_len body_len crc nonce limits l hf hc hn h = ground arith

-- A locator that `new` accepts is read back from its bytes, whatever follows them, by
-- `from_bytes` under the same limits, for 16-bit flags, a 32-bit checksum and an 8-byte nonce.
pub from_bytes-new :
    (flags envelope_len body_len crc : ℕ) (nonce rest : List ℕ) (limits : DecodeLimits)
    (l : Locator)
    → flags < 2 ^ 16
    → crc < 2 ^ 32
    → length nonce ≡ 8
    → new flags envelope_len body_len crc nonce limits ≡ ok l
    → from_bytes (to_bytes l ++ rest) limits ≡ ok l
from_bytes-new flags envelope_len body_len crc nonce rest limits l hf hc hn h =
    let (w, known, bounded) =
      new-IsLocator flags envelope_len body_len crc nonce limits l hf hc hn h in
    from_bytes-to_bytes_fields l limits rest w known bounded

wire_field :
    (w lo : ℕ) (input : List ℕ)
    → All IsByte input
    → lo + w ≤ length input
    → to_be_bytes w (from_be_bytes (take w (drop lo input))) ≡ take w (drop lo input)
wire_field w lo input hb h =
    let n : length (take w (drop lo input)) ≡ w =
      omega (arith, length-take w (drop lo input), length-drop lo input) in
    ap (λ (k : ℕ). to_be_bytes k (from_be_bytes (take w (drop lo input)))) (sym n)
    ∙ to_be_bytes-from_be_bytes _ (All-take IsByte w _ (All-drop IsByte lo input hb))

-- `rest` is what stands behind position `lo + w`.
cut :
    (w lo m : ℕ) (input : List ℕ)
    → take (w + m) (drop lo input) ≡ take w (drop lo input) ++ take m (drop (lo + w) input)
cut w lo m input =
    take_split w m (drop lo input)
    ∙ ap (λ t. take w (drop lo input) ++ take m t) (drop-drop lo w input)

to_bytes-read_fields :
    (input : List ℕ)
    → All IsByte input
    → 32 ≤ length input
    → take 4 input ≡ packet_magic
    → to_bytes (read_fields input) ≡ take 32 input
unfolding to_bytes read_fields
to_bytes-read_fields input hb h m = rw (
  wire_field 2 6 input hb (omega arith),
  wire_field 4 8 input hb (omega arith),
  wire_field 8 12 input hb (omega arith),
  wire_field 4 20 input hb (omega arith),
  cut 4 0 28 input,
  m,
  cut 1 4 27 input,
  take-one 0 4 input (omega arith),
  cut 1 5 26 input,
  take-one 0 5 input (omega arith),
  cut 2 6 24 input,
  cut 4 8 20 input,
  cut 8 12 12 input,
  cut 4 20 8 input,
)

-- Every input that `from_bytes` accepts begins with exactly the bytes that `to_bytes` writes for
-- the locator it returns: the 32-byte form is canonical.
pub to_bytes-from_bytes :
    (input : List ℕ) (limits : DecodeLimits) (l : Locator)
    → All IsByte input
    → from_bytes input limits ≡ ok l
    → to_bytes l ≡ take 32 input
to_bytes-from_bytes input limits l hb h =
    let a : Accepts input limits l = from_bytes-Accepts input limits l h in
    ap to_bytes (sym a.fields) ∙ to_bytes-read_fields input hb a.long a.magic
