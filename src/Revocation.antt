-- ===== src/Revocation.antt =====
-- steganographer-core/src/revocation.rs: the registry of revoked keys, a sorted list of 32-byte keys,
-- and the documented compromise that no registry can lift.
pub mod BinarySearch
pub mod Registry
use steganographer.Common.{
  take, drop, get_or, ◌-◌, ◌/◌, leb, not, ℕ, zero, suc, ◌+◌, List, [], ◌∷◌, ◌++◌, Bool, true, false,
  ltb, ◌==◌, ◌||◌, if◌then◌else◌, length, bytes_eq, Result, ok, err,
}

-- `COMPROMISED_KEY`
abbrev pub compromised_key : List ℕ
compromised_key =
    0xd2 ∷ 0xa0 ∷ 0x5f ∷ 0x7c ∷ 0x69 ∷ 0x24 ∷ 0x9d ∷ 0xbf ∷ 0xba ∷ 0x54 ∷ 0x08 ∷ 0xdd ∷ 0x8c ∷ 0x35
    ∷ 0x55 ∷ 0x13 ∷ 0x17 ∷ 0xb0 ∷ 0x4b ∷ 0xfc ∷ 0xc6 ∷ 0xf7 ∷ 0x93 ∷ 0xc5 ∷ 0xe7 ∷ 0x62 ∷ 0x21
    ∷ 0x77 ∷ 0x8c ∷ 0x61 ∷ 0xd5 ∷ 0x52 ∷ []

unfoldable pub is_known_compromised_key : List ℕ → Bool
is_known_compromised_key public_key = bytes_eq public_key compromised_key

pub data RevokedKey : Type 0 where
  revoked_key : RevokedKey

unfoldable pub check_known_revocations : List ℕ → Result RevokedKey (Unit {0})
check_known_revocations public_key =
    if is_known_compromised_key public_key then err revoked_key else ok tt

-- `Ord` on byte arrays: the first difference decides.
pub data Order : Type 0 where
  before same after : Order

unfoldable pub compare_keys : List ℕ → List ℕ → Order
compare_keys [] [] = same
compare_keys [] (b ∷ bs) = before
compare_keys (a ∷ as_) [] = after
compare_keys (a ∷ as_) (b ∷ bs) =
    let rest = compare_keys as_ bs in if ltb a b then before else if ltb b a then after else rest

-- The result of a search: the index of a match, or the index at which the key belongs.
pub data Search : Type 0 where
  match_at missing_at : ℕ → Search

-- The loop of the standard library's `binary_search_by`, `while size > 1`: a round replaces `size` by
-- at most its upper half, so `size` rounds are enough.
unfoldable pub narrow : List (List ℕ) → List ℕ → ℕ → ℕ → ℕ → ℕ
narrow keys key zero size base = base
narrow keys key (suc fuel) size base =
    let half = size / 2 in
    let mid = base + half in
    let next : ℕ = elim (compare_keys (get_or keys mid []) key) [ after ↦ base | _ ↦ mid ] in
    let rest = narrow keys key fuel (size - half) next in if leb size 1 then base else rest

-- What follows the loop, at its last `base`.
unfoldable pub settle : List (List ℕ) → List ℕ → ℕ → Search
settle keys key base = elim (compare_keys (get_or keys base []) key) [
  | same ↦ match_at base
  | before ↦ missing_at (base + 1)
  | after ↦ missing_at base
]

-- `self.keys.binary_search_by(|key| key.0.cmp(public_key))`
unfoldable pub binary_search : List (List ℕ) → List ℕ → Search
binary_search keys key =
    if length keys == 0
    then missing_at 0
    else settle keys key (narrow keys key (length keys) (length keys) 0)

-- `Vec::insert`
unfoldable pub insert_at : {A : Type 0} → ℕ → A → List A → List A
insert_at index a xs = take index xs ++ (a ∷ drop index xs)

-- The arms of `RevocationList::insert`: the registry after it, and whether the key is newly recorded.
unfoldable pub insert_found : List (List ℕ) → List ℕ → Search → List (List ℕ) × Bool
insert_found keys public_key (match_at index) = (keys, false)
insert_found keys public_key (missing_at index) = (insert_at index public_key keys, true)

-- `RevocationList::insert`
unfoldable pub insert : List (List ℕ) → List ℕ → List (List ℕ) × Bool
insert keys public_key = insert_found keys public_key (binary_search keys public_key)

-- `Result::is_ok`
abbrev pub is_match : Search → Bool
is_match (match_at index) = true
is_match (missing_at index) = false

-- `RevocationList::is_revoked`
unfoldable pub is_revoked : List (List ℕ) → List ℕ → Bool
is_revoked keys public_key =
    is_known_compromised_key public_key || is_match (binary_search keys public_key)
