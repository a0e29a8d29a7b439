-- ===== src/Versioning/Laws.antt =====
-- Compatibility is an order on the versions of one major number.
use dart_odbc_fast.Prelude.{Bool, true, false, ◌≡◌, refl, ◌⊎◌, arith}
use dart_odbc_fast.Versioning.{
  abi_is_compatible_with, abi_is_breaking_change, api_is_compatible_with, api_is_breaking_change,
  v1, v2, protocol_is_compatible_with, protocol_is_breaking_change,
}

-- A relation that chains, and of which one direction holds between any two versions without a
-- breaking change, and neither with one.
abbrev pub IsVersionOrder {ℓ} : {V : Type ℓ} → (V → V → Bool) → (V → V → Bool) → Type ℓ
IsVersionOrder compatible breaking =
    ((u v w : _) → compatible u v ≡ true → compatible v w ≡ true → compatible u w ≡ true)
    × ((u v : _)
        → ((breaking u v ≡ false) × ((compatible u v ≡ true) ⊎ (compatible v u ≡ true)))
          ⊎ ((breaking u v ≡ true) × (compatible u v ≡ false) × (compatible v u ≡ false)))

-- For each of the three version types, compatibility is transitive; two versions without a breaking
-- change between them are compatible one way or the other, and with a breaking change neither way.
versions_lem :
    IsVersionOrder abi_is_compatible_with abi_is_breaking_change
    × IsVersionOrder api_is_compatible_with api_is_breaking_change
    × IsVersionOrder protocol_is_compatible_with protocol_is_breaking_change
unfolding abi_is_compatible_with abi_is_breaking_change api_is_compatible_with
    api_is_breaking_change protocol_is_compatible_with protocol_is_breaking_change
versions_lem = (
  (λ u v w h h'. ground arith, λ u v. ground arith),
  (λ u v w h h'. ground arith, λ u v. ground arith),
  (λ u v w h h'. ground arith, λ u v. ground arith),
)

v2_breaks_v1 : protocol_is_breaking_change v2 v1 ≡ true
unfolding protocol_is_breaking_change
v2_breaks_v1 = refl
