-- ===== src/Base/Keyed.antt =====
-- Go's maps with string keys, as association lists. The order of entries is not observed.
use mathlib.Core.Path.{◌≡◌, refl}
use mathlib.Core.Option.{Option, none, some}
use mathlib.Core.List.{List, [], ◌∷◌}
use native.Mathlib.Omega.{arith}
use how.Base.Tests.{Bytes, bytes_eq, bytes_eq_iff, if◌then◌else◌}

abbrev pub Keyed {ℓ} : Type ℓ → Type ℓ
Keyed V = List (Bytes × V)

module _ {ℓ} {V : Type ℓ} where
  -- `v, ok := m[k]`
  unfoldable pub lookup : Bytes → Keyed V → Option V
  lookup k [] = none
  lookup k ((j, v) ∷ m) = if bytes_eq j k then some v else lookup k m

  -- `delete(m, k)`
  unfoldable pub delete : Bytes → Keyed V → Keyed V
  delete k [] = []
  delete k ((j, v) ∷ m) = let rest = delete k m in if bytes_eq j k then rest else (j, v) ∷ rest

  -- `m[k] = v`
  unfoldable pub insert : Bytes → V → Keyed V → Keyed V
  insert k v m = (k, v) ∷ delete k m

  pub lookup-delete :
      (k j : Bytes) (m : Keyed V)
      → lookup j (delete k m) ≡ (if bytes_eq k j then none else lookup j m)
  unfolding lookup delete
  lookup-delete k j [] = ground arith
  lookup-delete k j ((i, v) ∷ m) =
      ground (arith, lookup-delete k j m, bytes_eq_iff i k, bytes_eq_iff i j, bytes_eq_iff k j)

  pub lookup-insert :
      (k j : Bytes) (v : V) (m : Keyed V)
      → lookup j (insert k v m) ≡ (if bytes_eq k j then some v else lookup j m)
  unfolding lookup insert
  lookup-insert k j v m = ground (arith, lookup-delete k j m)

pub lookup-empty {ℓ} : {V : Type ℓ} (k : Bytes) → lookup {V = V} k [] ≡ none
unfolding lookup
lookup-empty k = refl
