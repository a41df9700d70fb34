-- ===== src/Common/Dict.antt =====
-- A Go map as an association list over keys with an equality test.
use fylane.Common.Tests.{HasEq, ◌==◌, if◌then◌else◌, Bool-cases}
use mathlib.Core.Path.{◌≡◌, refl}
use mathlib.Core.Bool.{Bool, false}
use mathlib.Core.Option.{Option, none, some}
use mathlib.Core.List.{List, [], ◌∷◌}
use Prim.Native.Nat.{◌≤◌}
use fylane.Common.Lists.{length}
use native.Mathlib.Omega.{arith}

abbrev pub Dict {ℓ κ} : Type ℓ → Type κ → Type (ℓ ⊔ κ)
Dict K V = List (K × V)

module _ {ℓ κ} {K : Type ℓ} {V : Type κ} ⦃e : HasEq K⦄ where
  -- v, ok := m[k]
  unfoldable pub lookup : K → Dict K V → Option V
  lookup k [] = none
  lookup k ((at, here) ∷ below) = if at == k then some here else lookup k below

  -- m[k] = v
  unfoldable pub insert : K → V → Dict K V → Dict K V
  insert k v [] = (k, v) ∷ []
  insert k v ((at, here) ∷ below) =
      if at == k then (k, v) ∷ below else (at, here) ∷ insert k v below

  -- delete(m, k)
  unfoldable pub delete : K → Dict K V → Dict K V
  delete k [] = []
  delete k ((j, w) ∷ m) = let rest = delete k m in if j == k then rest else (j, w) ∷ rest

  -- A range loop that deletes the entries of which p holds.
  unfoldable pub delete_where : (K → V → Bool) → Dict K V → Dict K V
  delete_where p [] = []
  delete_where p ((j, w) ∷ m) = let rest = delete_where p m in if p j w then rest else (j, w) ∷ rest

  pub lookup-insert :
      (k j : K) (v : V) (m : Dict K V)
      → lookup j (insert k v m) ≡ (if k == j then some v else lookup j m)
  unfolding lookup insert
  lookup-insert k j v [] = refl
  lookup-insert k j v ((at, here) ∷ below) =
      ground (arith, e.same_iff at k, e.same_iff at j, e.same_iff k j, lookup-insert k j v below)

  pub lookup-delete :
      (k j : K) (m : Dict K V) → lookup j (delete k m) ≡ (if k == j then none else lookup j m)
  unfolding lookup delete
  lookup-delete k j [] = ground arith
  lookup-delete k j ((i, w) ∷ m) =
      ground (arith, e.same_iff k j, e.same_iff i k, e.same_iff i j, lookup-delete k j m)

  -- An entry that is not swept is still found.
  pub lookup-delete_where :
      (p : K → V → Bool) (k : K) (v : V) (m : Dict K V)
      → lookup k m ≡ some v
      → p k v ≡ false
      → lookup k (delete_where p m) ≡ some v
  unfolding lookup delete_where
  lookup-delete_where p k v [] h q = cc
  lookup-delete_where p k v ((i, w) ∷ m) h q =
      ground (arith, e.same_iff i k, lookup-delete_where p k v m)

  -- What is found after a sweep was not to be swept.
  pub delete_where_kept :
      (p : K → V → Bool) (k : K) (v : V) (m : Dict K V)
      → lookup k (delete_where p m) ≡ some v
      → p k v ≡ false
  unfolding lookup delete_where
  delete_where_kept p k v [] h = cc
  delete_where_kept p k v ((i, w) ∷ m) h =
      ground (arith, e.same_iff i k, delete_where_kept p k v m, Bool-cases (p i w))

  -- An entry found after a deletion was there before, under another key.
  pub lookup_of_delete :
      (k j : K) (v : V) (m : Dict K V) → lookup j (delete k m) ≡ some v → lookup j m ≡ some v
  lookup_of_delete k j v m h = ground (arith, lookup-delete k j m)

  pub length-delete-le : (k : K) (m : Dict K V) → length (delete k m) ≤ length m
  unfolding delete
  length-delete-le k [] = omega arith
  length-delete-le k ((j, w) ∷ m) = ground (arith, length-delete-le k m)
