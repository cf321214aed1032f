-- ===== src/Carrier/Embed/Keyed/Schedules.antt =====
-- The two schedules of the keyed kernels of carrier.rs give every body unit one slot.
use steganographer.Common.{
  ℕ, ◌^◌, ◌<◌, ◌≡◌, refl, sym, ap, ◌∙◌, List, Option, some, ok, arith, inl, inr, Result-cases,
}
use steganographer.Packet.Generic.{Digests}
use steganographer.Placement.{KeyedPermutation, try_new, last_byte, permute, inverse_permute}
use steganographer.Placement.Bounds.{try_new-bits}
use steganographer.Placement.Walk.{inverse_permute-permute}
use steganographer.Placement.Interleaved.{InterleavedSchedule, new_schedule, slot}
use steganographer.Placement.Interleaved.Coprime.{new_schedule-ends, slot_injective}
use steganographer.Carrier.Embed.{placement_label, placement_interleaved_label}
use steganographer.Carrier.Embed.Keyed.{KeyedLsbKeys, keyed_slot, interleaved_slot}

-- A schedule of `n` slots is a one-to-one map of the numbers below `n`.
pub record IsSchedule (n : ℕ) (f : ℕ → ℕ) : Type 0 where
  pub in_range : (i : ℕ) → i < n → f i < n
  pub injective : (i j : ℕ) → i < n → j < n → f i ≡ f j → i ≡ j

module _ (digests : Digests) (keyed_blake3 : List ℕ → List ℕ → List ℕ) (keys : KeyedLsbKeys) (n : ℕ)
    (pos : 0 < n) where
  built :
      (p : KeyedPermutation) × ((try_new n keys.placement_key placement_label ≡ ok p) × (p.len ≡ n))
  unfolding try_new last_byte
  built = elim (Result-cases (try_new n keys.placement_key placement_label)) [
    | inl (p, e) ↦ (p, (e, ground arith))
    | inr (x, e) ↦ absurd (ground arith)
  ]

  keyed_slot-eq :
      (p : KeyedPermutation) (i y : ℕ)
      → try_new n keys.placement_key placement_label ≡ ok p
      → permute keyed_blake3 p i ≡ some y
      → keyed_slot digests keyed_blake3 keys n i ≡ y
  unfolding keyed_slot
  keyed_slot-eq p i y made walked = rw (keyed_slot, made, walked) refl

  interleaved_slot-eq :
      (s : InterleavedSchedule) (i : ℕ)
      → new_schedule keyed_blake3 n keys.placement_key placement_interleaved_label ≡ some s
      → interleaved_slot digests keyed_blake3 keys n i ≡ slot s i
  unfolding interleaved_slot
  interleaved_slot-eq s i made = rw (interleaved_slot, made) refl

  -- For a positive length that a `u64` holds, the slots of the keyed permutation are a schedule: none
  -- of its walks fails to end.
  pub keyed_slot-IsSchedule : n < 2 ^ 64 → IsSchedule n (keyed_slot digests keyed_blake3 keys n)
  keyed_slot-IsSchedule small =
      let (p, (made, len)) = built in
      let ((_, wide), (even, narrow)) =
        try_new-bits n keys.placement_key placement_label p small made in
      let walk = λ (i : ℕ) (h : i < n).
        inverse_permute-permute keyed_blake3 p i even narrow wide (omega (arith, h, len)) in
      let value = λ (i : ℕ) (h : i < n). keyed_slot-eq p i (walk i h).0 made (walk i h).1.0 in
      record {
        in_range = λ i h. omega (arith, value i h, (walk i h).1.1.0, len);
        injective = λ i j hi hj e.
            let same : (walk i hi).0 ≡ (walk j hj).0 = sym (value i hi) ∙ e ∙ value j hj in
            some-injective i j (
              sym (walk i hi).1.1.1 ∙ ap (inverse_permute keyed_blake3 p) same ∙ (walk j hj).1.1.1);
      }
    where
      some-injective : (a b : ℕ) → ◌≡◌ {A = Option ℕ} (some a) (some b) → a ≡ b
      some-injective a b q = cc

  -- For a positive length, the slots of the interleaved schedule are a schedule.
  pub interleaved_slot-IsSchedule : IsSchedule n (interleaved_slot digests keyed_blake3 keys n)
  interleaved_slot-IsSchedule =
      let (s, (made, _)) =
        new_schedule-ends keyed_blake3 n keys.placement_key placement_interleaved_label pos in
      let parts = slot_injective keyed_blake3 n keys.placement_key placement_interleaved_label s in
      let value = λ (i : ℕ). interleaved_slot-eq s i made in
      record {
        in_range = λ i h. omega (arith, value i, (parts i i pos made h h refl).1);
        injective = λ i j hi hj e. (parts i j pos made hi hj (sym (value i) ∙ e ∙ value j)).0;
      }
