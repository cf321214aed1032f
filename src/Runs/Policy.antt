-- ===== src/Runs/Policy.antt =====
-- The registry of revoked keys on small inputs.
use steganographer.Common.{
  ℕ, zero, suc, ◌≡◌, ◌↔◌, ◌⊎◌, refl, List, [], ◌∷◌, true, false, replicate, arith,
}
use steganographer.Revocation.{
  compare_keys, insert, insert_found, insert_at, binary_search, narrow, settle, is_revoked,
  compromised_key,
}
use steganographer.Revocation.BinarySearch.{IsSorted}
use steganographer.Revocation.Registry.{Holds, Inserts, insert-Inserts, is_revoked_iff}

abbrev key_of : ℕ → List ℕ
key_of n = replicate 32 n

abbrev registry : List (List ℕ)
registry = key_of 1 ∷ key_of 3 ∷ []

registry-IsSorted : IsSorted registry
unfolding compare_keys replicate
registry-IsSorted zero zero h w = absurd (omega arith)
registry-IsSorted zero (suc zero) h w = refl
registry-IsSorted zero (suc (suc j)) h w = absurd (omega arith)
registry-IsSorted (suc i) zero h w = absurd (omega arith)
registry-IsSorted (suc i) (suc zero) h w = absurd (omega arith)
registry-IsSorted (suc i) (suc (suc j)) h w = absurd (omega arith)

insert_run : insert registry (key_of 2) ≡ (key_of 1 ∷ key_of 2 ∷ key_of 3 ∷ [], true)
unfolding insert insert_found insert_at binary_search narrow settle compare_keys replicate
insert_run = refl

insert_held : insert registry (key_of 3) ≡ (registry, false)
unfolding insert insert_found insert_at binary_search narrow settle compare_keys replicate
insert_held = refl

insert-Inserts_example : Inserts registry (key_of 2) (insert registry (key_of 2))
insert-Inserts_example = insert-Inserts registry (key_of 2) registry-IsSorted

is_revoked_iff_example :
    (is_revoked registry (key_of 3) ≡ true)
    ↔ ((key_of 3 ≡ compromised_key) ⊎ Holds registry (key_of 3))
is_revoked_iff_example = is_revoked_iff registry (key_of 3) registry-IsSorted
