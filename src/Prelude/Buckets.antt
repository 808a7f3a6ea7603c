-- ===== src/Prelude/Buckets.antt =====
-- Maps from a key to the list of node ids filed under it: `entry(key).or_default().push(id)`,
-- and the removal of ids from one bucket or from all.
use Prim.Native.Nat.{ℕ}
use mathlib.Core.Path.{◌≡◌, refl}
use mathlib.Core.Bool.{◌&&◌, ◌||◌, not}
use mathlib.Core.List.{List, [], ◌∷◌, ◌++◌}
use mathlib.Core.Option.{Option, none, some}
use native.Mathlib.Omega.{arith}
use causalmesh.Prelude.Tests.{if◌then◌else◌}
use causalmesh.Prelude.Equality.{PartialEq, ◌==◌, nat_eq}
use causalmesh.Prelude.Lists.{retain, contains, contains-append, contains-retain}
use causalmesh.Prelude.Assoc.{
  Assoc, lookup, insert, remove, IsUnique, lookup-insert, lookup-remove, insert-IsUnique,
  remove-IsUnique,
}

abbrev or_empty : Option (List ℕ) → List ℕ
or_empty none = []
or_empty (some ids) = ids

-- the ids that are not stale
abbrev pub fresh : List ℕ → List ℕ → List ℕ
fresh stale = retain (λ id. not (contains id stale))

module _ {K : Type 0} ⦃e : PartialEq K⦄ where
  abbrev pub bucket : K → Assoc K (List ℕ) → List ℕ
  bucket k m = or_empty (lookup k m)

  abbrev pub push_at : K → ℕ → Assoc K (List ℕ) → Assoc K (List ℕ)
  push_at k id m = insert k (bucket k m ++ id ∷ []) m

  -- one push for each key
  abbrev pub push_all : List K → ℕ → Assoc K (List ℕ) → Assoc K (List ℕ)
  push_all [] id m = m
  push_all (k ∷ ks) id m = push_all ks id (push_at k id m)

  -- A bucket that is left empty goes.
  unfoldable pub retain_bucket : List ℕ → K → Assoc K (List ℕ) → Assoc K (List ℕ)
  retain_bucket stale k m = elim (lookup k m) [
    | none ↦ m
    | some ids ↦ elim (fresh stale ids) [ [] ↦ remove k m | id ∷ kept ↦ insert k (id ∷ kept) m ]
  ]

  unfoldable pub retain_buckets : List ℕ → List K → Assoc K (List ℕ) → Assoc K (List ℕ)
  retain_buckets stale [] m = m
  retain_buckets stale (k ∷ ks) m = retain_buckets stale ks (retain_bucket stale k m)

  -- `map.retain(|_, ids| { ids.retain(…); !ids.is_empty() })`
  unfoldable pub retain_ids : List ℕ → Assoc K (List ℕ) → Assoc K (List ℕ)
  retain_ids stale [] = []
  retain_ids stale ((k, ids) ∷ m) =
      let rest = retain_ids stale m in
      elim (fresh stale ids) [ [] ↦ rest | id ∷ kept ↦ (k, id ∷ kept) ∷ rest ]

  pub bucket-push_at :
      (k j : K) (id : ℕ) (m : Assoc K (List ℕ))
      → bucket j (push_at k id m) ≡ (if k == j then bucket k m ++ id ∷ [] else bucket j m)
  bucket-push_at k j id m = ground (arith, lookup-insert k j (bucket k m ++ id ∷ []) m)

  pub contains-push_all :
      (ks : List K) (j : K) (id i : ℕ) (m : Assoc K (List ℕ))
      → contains i (bucket j (push_all ks id m))
        ≡ (contains i (bucket j m) || (id == i && contains j ks))
  contains-push_all [] j id i m = ground arith
  contains-push_all (k ∷ ks) j id i m = ground (
    arith,
    contains-push_all ks j id i (push_at k id m),
    bucket-push_at k j id m,
    contains-append i (bucket k m) (id ∷ []),
    e.eq_iff k j,
  )

  pub push_all-IsUnique :
      (ks : List K) (id : ℕ) (m : Assoc K (List ℕ)) → IsUnique m → IsUnique (push_all ks id m)
  push_all-IsUnique [] id m u = u
  push_all-IsUnique (k ∷ ks) id m u =
      push_all-IsUnique ks id (push_at k id m) (insert-IsUnique k (bucket k m ++ id ∷ []) m u)

  pub bucket-retain_bucket :
      (stale : List ℕ) (k j : K) (m : Assoc K (List ℕ))
      → IsUnique m
      → bucket j (retain_bucket stale k m)
        ≡ (if k == j then fresh stale (bucket j m) else bucket j m)
  unfolding retain_bucket
  bucket-retain_bucket stale k j m u =
      ground
        (arith, e.eq_iff k j, lookup-remove k j m u, lookup-insert k j (fresh stale (bucket k m)) m)

  pub retain_bucket-IsUnique :
      (stale : List ℕ) (k : K) (m : Assoc K (List ℕ))
      → IsUnique m
      → IsUnique (retain_bucket stale k m)
  unfolding retain_bucket
  retain_bucket-IsUnique stale k m u =
      ground (arith, remove-IsUnique k m u, insert-IsUnique k (fresh stale (bucket k m)) m u)

  pub retain_buckets-IsUnique :
      (stale : List ℕ) (ks : List K) (m : Assoc K (List ℕ))
      → IsUnique m
      → IsUnique (retain_buckets stale ks m)
  unfolding retain_buckets
  retain_buckets-IsUnique stale [] m u = u
  retain_buckets-IsUnique stale (k ∷ ks) m u =
      retain_buckets-IsUnique stale ks (retain_bucket stale k m)
        (retain_bucket-IsUnique stale k m u)

  pub contains-retain_buckets :
      (stale : List ℕ) (ks : List K) (j : K) (i : ℕ) (m : Assoc K (List ℕ))
      → IsUnique m
      → contains i (bucket j (retain_buckets stale ks m))
        ≡ (contains i (bucket j m) && not (contains j ks && contains i stale))
  unfolding retain_buckets
  contains-retain_buckets stale [] j i m u = ground arith
  contains-retain_buckets stale (k ∷ ks) j i m u = ground (
    arith,
    contains-retain_buckets stale ks j i (retain_bucket stale k m)
        (retain_bucket-IsUnique stale k m u),
    bucket-retain_bucket stale k j m u,
    contains-retain (λ id. not (contains id stale)) i (bucket j m),
  )

  pub lookup-retain_ids-none :
      (stale : List ℕ) (j : K) (m : Assoc K (List ℕ))
      → lookup j m ≡ none
      → lookup j (retain_ids stale m) ≡ none
  unfolding retain_ids
  lookup-retain_ids-none stale j [] h = refl
  lookup-retain_ids-none stale j ((k, ids) ∷ m) h = ground (arith, lookup-retain_ids-none stale j m)

  pub bucket-retain_ids :
      (stale : List ℕ) (j : K) (m : Assoc K (List ℕ))
      → IsUnique m
      → bucket j (retain_ids stale m) ≡ fresh stale (bucket j m)
  unfolding retain_ids
  bucket-retain_ids stale j [] u = refl
  bucket-retain_ids stale j ((k, ids) ∷ m) u =
      ground (
        arith,
        e.eq_iff k j,
        bucket-retain_ids stale j m u.1,
        lookup-retain_ids-none stale j m,
        u.0,
      )

  pub retain_ids-IsUnique :
      (stale : List ℕ) (m : Assoc K (List ℕ)) → IsUnique m → IsUnique (retain_ids stale m)
  unfolding retain_ids
  retain_ids-IsUnique stale [] u = u
  retain_ids-IsUnique stale ((k, ids) ∷ m) u =
      ground (arith, retain_ids-IsUnique stale m u.1, lookup-retain_ids-none stale k m u.0)
