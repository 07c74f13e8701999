-- ===== src/Prelude/Maps.antt =====
-- Go's maps: an association list with one entry for a key. The order of the entries is the order in
-- which `range` visits them here; Go leaves that order open.
use mathlib.Core.Path.{◌≡◌, refl}
use mathlib.Core.Option.{Option, none, some}
use mathlib.Core.List.{List, [], ◌∷◌}
use native.Mathlib.Omega.{arith}
use openrport.Prelude.Tests.{if◌then◌else◌, HasEq, ◌==◌}

module _ {ℓ} {K : Type ℓ} ⦃e : HasEq K⦄ where
  module _ {κ} {V : Type κ} where
    -- entries[key], with `none` for a missing key
    unfoldable pub lookup : K → List (K × V) → Option V
    lookup key [] = none
    lookup key ((other, value) ∷ entries) = if other == key then some value else lookup key entries

    -- entries[key] = value
    unfoldable pub insert : K → V → List (K × V) → List (K × V)
    insert key value [] = (key, value) ∷ []
    insert key value ((other, old) ∷ entries) =
        if other == key then (other, value) ∷ entries else (other, old) ∷ insert key value entries

    -- delete(entries, key)
    unfoldable pub delete : K → List (K × V) → List (K × V)
    delete key [] = []
    delete key ((other, old) ∷ entries) =
        let rest = delete key entries in if other == key then rest else (other, old) ∷ rest

    pub lookup-insert :
        (key other : K) (value : V) (entries : List (K × V))
        → lookup other (insert key value entries)
          ≡ (if key == other then some value else lookup other entries)
    unfolding lookup insert
    lookup-insert key other value [] = refl
    lookup-insert key other value ((first, old) ∷ entries) = ground (
      arith,
      e.equal_iff first key,
      e.equal_iff first other,
      e.equal_iff key other,
      lookup-insert key other value entries,
    )

    pub lookup-delete :
        (key other : K) (entries : List (K × V))
        → lookup other (delete key entries) ≡ (if key == other then none else lookup other entries)
    unfolding lookup delete
    lookup-delete key other [] = ground arith
    lookup-delete key other ((first, old) ∷ entries) = ground (
      arith,
      e.equal_iff first key,
      e.equal_iff first other,
      e.equal_iff key other,
      lookup-delete key other entries,
    )
