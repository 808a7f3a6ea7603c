-- ===== src/Prelude/Assoc.antt =====
-- `HashMap` and `BTreeMap` as association lists, at most one entry to a key.
use Prim.Native.Nat.{◌+◌}
use mathlib.Core.Path.{◌≡◌, refl}
use mathlib.Core.Bool.{Bool, true, false}
use mathlib.Core.List.{List, [], ◌∷◌}
use mathlib.Core.Option.{Option, none, some}
use native.Mathlib.Omega.{arith}
use causalmesh.Prelude.Tests.{if◌then◌else◌}
use causalmesh.Prelude.Equality.{PartialEq, ◌==◌}
use causalmesh.Prelude.Lists.{length}

abbrev pub Assoc {ℓ} : Type ℓ → Type ℓ → Type ℓ
Assoc K V = List (K × V)

module _ {ℓ} {K V : Type ℓ} ⦃e : PartialEq K⦄ where
  abbrev pub lookup : K → Assoc K V → Option V
  lookup k [] = none
  lookup k ((j, v) ∷ m) = if j == k then some v else lookup k m

  abbrev pub remove : K → Assoc K V → Assoc K V
  remove k [] = []
  remove k ((j, w) ∷ m) = if j == k then m else (j, w) ∷ remove k m

  -- `retain` by a test on the key alone
  abbrev pub retain_keys : (K → Bool) → Assoc K V → Assoc K V
  retain_keys p [] = []
  retain_keys p ((j, w) ∷ m) = let rest = retain_keys p m in if p j then (j, w) ∷ rest else rest

  abbrev pub insert : K → V → Assoc K V → Assoc K V
  insert k v [] = (k, v) ∷ []
  insert k v ((j, w) ∷ m) = if j == k then (k, v) ∷ m else (j, w) ∷ insert k v m

  abbrev pub contains_key : K → Assoc K V → Bool
  contains_key k m = elim (lookup k m) [ none ↦ false | some _ ↦ true ]

  abbrev pub IsUnique : Assoc K V → Type ℓ
  IsUnique [] = Unit
  IsUnique ((k, v) ∷ m) = (lookup k m ≡ none) × IsUnique m

  pub lookup-insert :
      (k j : K) (v : V) (m : Assoc K V)
      → lookup j (insert k v m) ≡ (if k == j then some v else lookup j m)
  lookup-insert k j v [] = refl
  lookup-insert k j v ((i, w) ∷ m) =
      ground (arith, e.eq_iff k j, e.eq_iff i k, e.eq_iff i j, lookup-insert k j v m)

  pub lookup-remove :
      (k j : K) (m : Assoc K V)
      → IsUnique m
      → lookup j (remove k m) ≡ (if k == j then none else lookup j m)
  lookup-remove k j [] u = ground arith
  lookup-remove k j ((i, w) ∷ m) u =
      ground (arith, e.eq_iff k j, e.eq_iff i k, e.eq_iff i j, lookup-remove k j m u.1, u.0)

  pub lookup-retain_keys :
      (p : K → Bool) (j : K) (m : Assoc K V)
      → lookup j (retain_keys p m) ≡ (if p j then lookup j m else none)
  lookup-retain_keys p j [] = ground arith
  lookup-retain_keys p j ((i, w) ∷ m) = ground (arith, e.eq_iff i j, lookup-retain_keys p j m)

  pub insert-IsUnique : (k : K) (v : V) (m : Assoc K V) → IsUnique m → IsUnique (insert k v m)
  insert-IsUnique k v [] u = ground arith
  insert-IsUnique k v ((i, w) ∷ m) u =
      ground (arith, e.eq_iff i k, e.eq_iff k i, insert-IsUnique k v m u.1, lookup-insert k i v m)

  pub remove-IsUnique : (k : K) (m : Assoc K V) → IsUnique m → IsUnique (remove k m)
  remove-IsUnique k [] u = u
  remove-IsUnique k ((i, w) ∷ m) u =
      ground (arith, remove-IsUnique k m u.1, lookup-remove k i m u.1)

  pub retain_keys-IsUnique :
      (p : K → Bool) (m : Assoc K V) → IsUnique m → IsUnique (retain_keys p m)
  retain_keys-IsUnique p [] u = u
  retain_keys-IsUnique p ((i, w) ∷ m) u =
      ground (arith, retain_keys-IsUnique p m u.1, lookup-retain_keys p i m)

  pub length-insert :
      (k : K) (v : V) (m : Assoc K V)
      → length (insert k v m) ≡ (if contains_key k m then length m else length m + 1)
  length-insert k v [] = omega arith
  length-insert k v ((i, w) ∷ m) = ground (arith, length-insert k v m)
