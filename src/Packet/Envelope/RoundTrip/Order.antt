-- ===== src/Packet/Envelope/RoundTrip/Order.antt =====
-- `validate_envelope` orders the fields: identifiers ascend and critical bits are canonical.
use steganographer.Common.{
  ℕ, ◌<◌, ◌≤◌, ◌≡◌, refl, ap, ◌∙◌, List, [], ◌∷◌, ◌++◌, map, Option, some, none, true, false, ltb,
  arith, ◌⊎◌, inl, inr, All, ok,
}
use steganographer.Packet.Types.{
  DecodeLimits, TransformDescriptor, ExtensionField, PacketEnvelope, check_limit,
}
use steganographer.Packet.Envelope.{in_gap, check_extensions, check_unknown}
use steganographer.Packet.Envelope.Encode.{
  Field, transform_field, extension_field, optional_field, created_at_value, required_fields,
  descriptor_fields, optional_fields, lower_unknown, upper_unknown, insert_by_id, sort_by_id,
  fields,
}
use steganographer.Packet.Envelope.Decode.{critical_ok}

abbrev pub Sorted : ℕ → List Field → Type 0
Sorted previous [] = Unit
Sorted previous (f ∷ fs) = (previous ≤ f.id) × (critical_ok f.id f.critical ≡ true) × Sorted f.id fs

abbrev UpTo : ℕ → List Field → Type 0
UpTo m = All (λ (f : Field). f.id ≤ m)

Sorted-weaken : (a b : ℕ) (fs : List Field) → a ≤ b → Sorted b fs → Sorted a fs
Sorted-weaken a b [] h s = tt
Sorted-weaken a b (f ∷ fs) h (p, q, r) = (omega arith, q, r)

Sorted-append :
    (previous m : ℕ) (xs ys : List Field)
    → previous ≤ m
    → Sorted previous xs
    → UpTo m xs
    → Sorted m ys
    → Sorted previous (xs ++ ys)
Sorted-append previous m [] ys h s u t = Sorted-weaken previous m ys h t
Sorted-append previous m (f ∷ fs) ys h (p, q, r) (uf, us) t =
    (p, q, Sorted-append f.id m fs ys uf r us t)

-- The extensions of a valid envelope.
pub record AreExtensions (limits : DecodeLimits) (previous : ℕ) (fs : List ExtensionField)
    : Type 0 where
  pub sorted : Sorted previous (map extension_field fs)
  pub registry : All (λ (f : ExtensionField). 128 ≤ f.id) fs
  pub unmoved : sort_by_id fs ≡ fs

extension_checks :
    (limits : DecodeLimits) (previous : ℕ) (f : ExtensionField) (fs : List ExtensionField)
    → check_extensions limits previous (f ∷ fs) ≡ ok tt
    → (128 ≤ f.id) × (previous ≤ f.id) × (check_extensions limits f.id fs ≡ ok tt)
unfolding check_extensions check_limit
extension_checks limits previous f fs h = ground arith

extension_critical : (id : ℕ) → 128 ≤ id → critical_ok id false ≡ true
unfolding critical_ok
extension_critical id h = ground arith

gap_critical : (id : ℕ) → in_gap id ≡ true → critical_ok id false ≡ true
unfolding critical_ok
gap_critical id h = ground arith

insert_front :
    (f : ExtensionField) (fs : List ExtensionField)
    → Sorted f.id (map extension_field fs)
    → insert_by_id f fs ≡ f ∷ fs
unfolding insert_by_id
insert_front f [] s = refl
insert_front f (g ∷ gs) s = ground arith

pub check_extensions-AreExtensions :
    (limits : DecodeLimits) (previous : ℕ) (fs : List ExtensionField)
    → check_extensions limits previous fs ≡ ok tt
    → AreExtensions limits previous fs
unfolding sort_by_id
check_extensions-AreExtensions limits previous [] h = record {
  sorted = tt;
  registry = tt;
  unmoved = refl;
}
check_extensions-AreExtensions limits previous (f ∷ fs) h =
    let (reg, ord, more) = extension_checks limits previous f fs h in
    let rest : AreExtensions limits f.id fs = check_extensions-AreExtensions limits f.id fs more in
    record {
      sorted = (ord, extension_critical f.id reg, rest.sorted);
      registry = (reg, rest.registry);
      unmoved = ap (insert_by_id f) rest.unmoved ∙ insert_front f fs rest.sorted;
    }

-- The preserved unknown fields of a valid envelope: the two gaps follow one another.
pub record Splits (previous : ℕ) (lower upper fs : List ExtensionField) : Type 0 where
  pub lower_sorted : Sorted previous (map extension_field lower)
  pub lower_below : UpTo 15 (map extension_field lower)
  pub upper_sorted : Sorted 19 (map extension_field upper)
  pub upper_below : UpTo 127 (map extension_field upper)
  pub lower_gaps : All (λ (f : ExtensionField). in_gap f.id ≡ true) lower
  pub upper_gaps : All (λ (f : ExtensionField). in_gap f.id ≡ true) upper
  pub split : lower ++ upper ≡ fs

abbrev pub AreUnknown : ℕ → List ExtensionField → Type 0
AreUnknown previous fs = Splits previous (lower_unknown fs) (upper_unknown fs) fs

unknown_checks :
    (limits : DecodeLimits) (previous : ℕ) (f : ExtensionField) (fs : List ExtensionField)
    → check_unknown limits previous (f ∷ fs) ≡ ok tt
    → (in_gap f.id ≡ true) × (previous < f.id) × (check_unknown limits f.id fs ≡ ok tt)
unfolding check_unknown check_limit
unknown_checks limits previous f fs h = ground arith

gap_sides : (id : ℕ) → in_gap id ≡ true → ((8 < id) × (id < 16)) ⊎ ((19 < id) × (id < 128))
gap_sides id h = ground arith

-- Behind an identifier of the upper gap there is no lower one.
upper_only :
    (limits : DecodeLimits) (previous : ℕ) (fs : List ExtensionField)
    → 19 ≤ previous
    → check_unknown limits previous fs ≡ ok tt
    → (lower_unknown fs ≡ [])
      × (upper_unknown fs ≡ fs)
      × Sorted previous (map extension_field fs)
      × UpTo 127 (map extension_field fs)
      × All (λ (f : ExtensionField). in_gap f.id ≡ true) fs
unfolding lower_unknown upper_unknown
upper_only limits previous [] h c = (refl, refl, tt, tt, tt)
upper_only limits previous (f ∷ fs) h c =
    let (gap, ord, more) = unknown_checks limits previous f fs c in
    let (a, b, s, u, g) = upper_only limits f.id fs (omega arith) more in
    let not_lower : ltb f.id 16 ≡ false = ground arith in
    let is_upper : ltb 19 f.id ≡ true = ground arith in
    (
      rw not_lower a,
      rw is_upper (ap (λ l. f ∷ l) b),
      (omega arith, gap_critical f.id gap, s),
      (ground (arith, gap_sides f.id gap), u),
      (gap, g),
    )

pub check_unknown-AreUnknown :
    (limits : DecodeLimits) (previous : ℕ) (fs : List ExtensionField)
    → check_unknown limits previous fs ≡ ok tt
    → AreUnknown previous fs
unfolding lower_unknown upper_unknown
check_unknown-AreUnknown limits previous [] h = record {
  lower_sorted = tt;
  lower_below = tt;
  upper_sorted = tt;
  upper_below = tt;
  lower_gaps = tt;
  upper_gaps = tt;
  split = refl;
}
check_unknown-AreUnknown limits previous (f ∷ fs) h =
    let (gap, ord, more) = unknown_checks limits previous f fs h in
    let rest : AreUnknown f.id fs = check_unknown-AreUnknown limits f.id fs more in
    elim (gap_sides f.id gap) [
      | inl (lo, hi) ↦
          let is_lower : ltb f.id 16 ≡ true = ground arith in
          let not_upper : ltb 19 f.id ≡ false = ground arith in
          rw (is_lower, not_upper)
            (record {
              lower_sorted = (omega arith, gap_critical f.id gap, rest.lower_sorted);
              lower_below = (omega arith, rest.lower_below);
              upper_sorted = rest.upper_sorted;
              upper_below = rest.upper_below;
              lower_gaps = (gap, rest.lower_gaps);
              upper_gaps = rest.upper_gaps;
              split = ap (λ l. f ∷ l) rest.split;
            })
      | inr (lo, hi) ↦
          let (a, b, s, u, g) = upper_only limits f.id fs (omega arith) more in
          let not_lower : ltb f.id 16 ≡ false = ground arith in
          let is_upper : ltb 19 f.id ≡ true = ground arith in
          rw (not_lower, is_upper, a, b)
            (record {
              lower_sorted = tt;
              lower_below = tt;
              upper_sorted = (omega arith, gap_critical f.id gap, s);
              upper_below = (omega arith, u);
              lower_gaps = tt;
              upper_gaps = (gap, g);
              split = refl;
            })
    ]

Sorted-transforms :
    (previous : ℕ) (ts : List TransformDescriptor)
    → previous ≤ 5
    → Sorted previous (map transform_field ts) × UpTo 5 (map transform_field ts)
unfolding critical_ok
Sorted-transforms previous [] h = (tt, tt)
Sorted-transforms previous (t ∷ ts) h =
    let (s, u) = Sorted-transforms 5 ts (omega arith) in ((h, refl, s), (omega arith, u))

Sorted-optional :
    (previous id : ℕ) (o : Option (List ℕ))
    → previous ≤ id
    → critical_ok id false ≡ true
    → Sorted previous (optional_field id o) × UpTo id (optional_field id o)
Sorted-optional previous id none h c = (tt, tt)
Sorted-optional previous id (some v) h c = ((h, c, tt), (omega arith, tt))

UpTo-weaken : (a b : ℕ) (fs : List Field) → a ≤ b → UpTo a fs → UpTo b fs
UpTo-weaken a b [] h u = tt
UpTo-weaken a b (f ∷ fs) h (uf, us) = (omega arith, UpTo-weaken a b fs h us)

UpTo-append : (m : ℕ) (xs ys : List Field) → UpTo m xs → UpTo m ys → UpTo m (xs ++ ys)
UpTo-append m [] ys p q = q
UpTo-append m (f ∷ fs) ys (pf, ps) q = (pf, UpTo-append m fs ys ps q)

Sorted-optional_fields :
    (e : PacketEnvelope) → Sorted 15 (optional_fields e) × UpTo 19 (optional_fields e)
unfolding critical_ok
Sorted-optional_fields e =
    let (s16, u16) = Sorted-optional 15 16 e.mime_type (omega arith) refl in
    let (s17, u17) = Sorted-optional 16 17 e.filename (omega arith) refl in
    let (s18, u18) =
      Sorted-optional 17 18 (created_at_value e.created_at_unix) (omega arith) refl in
    let (s19, u19) = Sorted-optional 18 19 e.parent_id (omega arith) refl in
    (
      Sorted-append 15 16 _ _ (omega arith) s16 u16 (
          Sorted-append 16 17 _ _ (omega arith) s17 u17
            (Sorted-append 17 18 _ _ (omega arith) s18 u18 s19)),
      UpTo-append 19 _ _ (UpTo-weaken 16 19 _ (omega arith) u16) (
          UpTo-append 19 _ _ (UpTo-weaken 17 19 _ (omega arith) u17)
            (UpTo-append 19 _ _ (UpTo-weaken 18 19 _ (omega arith) u18) u19)),
    )

raise_extensions :
    (fs : List ExtensionField)
    → Sorted 0 (map extension_field fs)
    → All (λ (f : ExtensionField). 128 ≤ f.id) fs
    → Sorted 127 (map extension_field fs)
raise_extensions [] s r = tt
raise_extensions (f ∷ fs) (p, q, s) (r, rs) = (omega arith, q, s)

raise_lower :
    (fs : List ExtensionField)
    → Sorted 0 (map extension_field fs)
    → All (λ (f : ExtensionField). in_gap f.id ≡ true) fs
    → Sorted 8 (map extension_field fs)
raise_lower [] s r = tt
raise_lower (f ∷ fs) (p, q, s) (r, rs) = (ground (arith, gap_sides f.id r), q, s)

-- The fields of a valid envelope ascend, with canonical critical bits.
pub fields-Sorted :
    (limits : DecodeLimits) (e : PacketEnvelope)
    → AreExtensions limits 0 e.extensions
    → AreUnknown 0 e.unknown_fields
    → Sorted 0 (fields e)
unfolding fields critical_ok
fields-Sorted limits e x u =
    let (st, ut) = Sorted-transforms 4 e.transforms (omega arith) in
    let (so, uo) = Sorted-optional_fields e in
    let low = raise_lower (lower_unknown e.unknown_fields) u.lower_sorted u.lower_gaps in
    let ext : Sorted 127 (map extension_field (sort_by_id e.extensions)) =
      rw x.unmoved (raise_extensions e.extensions x.sorted x.registry) in
    Sorted-append 0 4 (required_fields e) _ (omega arith)
      (omega arith, refl, (omega arith, refl, (omega arith, refl, (omega arith, refl, tt))))
      (omega arith)
      (Sorted-append 4 5 _ _ (omega arith) st ut (
        Sorted-append 5 8 (descriptor_fields e) _ (omega arith)
          (omega arith, refl, (omega arith, refl, (omega arith, refl, tt))) (omega arith)
          (Sorted-append 8 15 _ _ (omega arith) low u.lower_below (
            Sorted-append 15 19 _ _ (omega arith) so uo
              (Sorted-append 19 127 _ _ (omega arith) u.upper_sorted u.upper_below ext)))))
