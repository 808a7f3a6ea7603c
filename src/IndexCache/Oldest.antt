-- ===== src/IndexCache/Oldest.antt =====
-- The selection of the rows that were used first, and the deletion of keys from a table.
use mathlib.Core.Path.{subst}
use causalmesh.Prelude.{
  ℕ, zero, suc, ◌+◌, ◌≤◌, false, none, some, List, [], ◌∷◌, length, nat_eq, list_eq, list_beq_iff,
  Option-cases, ◌≡◌, refl, sym, ◌∙◌, ◌⊎◌, inl, inr, arith,
}
use causalmesh.Prelude.Assoc.{Assoc, lookup, remove, IsUnique, lookup-remove, remove-IsUnique}
use causalmesh.IndexCache.{Bytes, before, oldest, oldest_first, delete}

abbrev pub Stamps : Type 0
Stamps = Assoc Bytes (ℕ × ℕ)

module _ {V : Type 0} where
  lookup-delete-removed :
      (j k : Bytes) (rows : Assoc Bytes V) (v : V)
      → lookup j (remove k rows) ≡ some v
      → IsUnique rows
      → lookup j rows ≡ some v
  lookup-delete-removed j k rows v e u = ground (arith, lookup-remove k j rows u)

  pub delete-IsUnique :
      (keys : List Bytes) (rows : Assoc Bytes V) → IsUnique rows → IsUnique (delete keys rows)
  delete-IsUnique [] rows u = u
  delete-IsUnique (k ∷ keys) rows u =
      delete-IsUnique keys (remove k rows) (remove-IsUnique k rows u)

  -- A row that is left was there.
  pub lookup-delete :
      (j : Bytes) (keys : List Bytes) (rows : Assoc Bytes V) (v : V)
      → IsUnique rows
      → lookup j (delete keys rows) ≡ some v
      → lookup j rows ≡ some v
  lookup-delete j [] rows v u e = e
  lookup-delete j (k ∷ keys) rows v u e =
      lookup-delete-removed j k rows v
        (lookup-delete j keys (remove k rows) v (remove-IsUnique k rows u) e) u

  length-remove : (k : Bytes) (rows : Assoc Bytes V) → length (remove k rows) ≤ length rows
  length-remove k [] = omega arith
  length-remove k ((j, v) ∷ rows) = ground (arith, length-remove k rows)

  length-remove-found :
      (k : Bytes) (rows : Assoc Bytes V) (v : V)
      → lookup k rows ≡ some v
      → length (remove k rows) + 1 ≡ length rows
  length-remove-found k [] v e = ground arith
  length-remove-found k ((j, w) ∷ rows) v e = ground (arith, length-remove-found k rows v)

  pub length-delete :
      (keys : List Bytes) (rows : Assoc Bytes V) → length (delete keys rows) ≤ length rows
  length-delete [] rows = omega arith
  length-delete (k ∷ keys) rows =
      omega (arith, length-delete keys (remove k rows), length-remove k rows)

pub oldest-none : (rows : Stamps) → oldest rows ≡ none → rows ≡ []
oldest-none [] e = refl
oldest-none ((k, s) ∷ rows) e = ground arith

-- No row is before the oldest.
before-oldest :
    (rows : Stamps) (k j : Bytes) (s t : ℕ × ℕ)
    → oldest rows ≡ some (k, s)
    → lookup j rows ≡ some t
    → before t s ≡ false
before-oldest [] k j s t e f = ground arith
before-oldest ((i, r) ∷ rows) k j s t e f = elim (Option-cases (oldest rows)) [
  | inl n ↦ ground (arith, oldest-none rows n)
  | inr ((m, u), o) ↦ ground (arith, before-oldest rows m j u t o)
]

pub lookup-oldest :
    (rows : Stamps) (k : Bytes) (s : ℕ × ℕ)
    → IsUnique rows
    → oldest rows ≡ some (k, s)
    → lookup k rows ≡ some s
lookup-oldest [] k s u e = ground arith
lookup-oldest ((i, r) ∷ rows) k s u e = elim (Option-cases (oldest rows)) [
  | inl n ↦ ground (arith, list_beq_iff i k)
  | inr ((m, w), o) ↦ ground (arith, lookup-oldest rows m w u.1 o, list_beq_iff i k)
]

-- `rest` is what is left of `rows` when the first of them have gone: nothing new, and no row that
-- has gone is after one that is left.
pub record IsLeft (rows rest : Stamps) : Type 0 where
  pub kept : (j : Bytes) (t : ℕ × ℕ) → lookup j rest ≡ some t → lookup j rows ≡ some t
  pub first :
      (k j : Bytes) (s t : ℕ × ℕ)
      → lookup k rows ≡ some s
      → lookup k rest ≡ none
      → lookup j rest ≡ some t
      → before t s ≡ false

pub IsLeft-refl : (rows : Stamps) → IsLeft rows rows
IsLeft-refl rows = record { kept = λ j t e. e; first = λ k j s t e n f. ground arith }

pub IsLeft-trans : (a b c : Stamps) → IsLeft a b → IsLeft b c → IsLeft a c
IsLeft-trans a b c p q = record {
  kept = λ j t e. p.kept j t (q.kept j t e);
  first = λ k j s t e n f. elim (Option-cases (lookup k b)) [
    | inl gone ↦ p.first k j s t e gone (q.kept j t f)
    | inr (s', there) ↦ ground (arith, p.kept k s' there, q.first k j s' t there n f)
  ];
}

remove-IsLeft :
    (rows : Stamps) (k : Bytes) (s : ℕ × ℕ)
    → IsUnique rows
    → oldest rows ≡ some (k, s)
    → IsLeft rows (remove k rows)
remove-IsLeft rows k s u o = record {
  kept = λ j t e. lookup-delete-removed j k rows t e u;
  first = λ i j r t e n f. ground (
    arith,
    lookup-remove k i rows u,
    list_beq_iff k i,
    lookup-oldest rows k s u o,
    before-oldest rows k j s t o (lookup-delete-removed j k rows t f u),
  );
}

pub oldest_first-none : (n : ℕ) (rows : Stamps) → oldest rows ≡ none → oldest_first n rows ≡ []
oldest_first-none zero rows o = refl
oldest_first-none (suc n) rows o = ground arith

pub oldest_first-some :
    (n : ℕ) (rows : Stamps) (k : Bytes) (s : ℕ × ℕ)
    → oldest rows ≡ some (k, s)
    → oldest_first (suc n) rows ≡ k ∷ oldest_first n (remove k rows)
oldest_first-some n rows k s o = ground arith

pub oldest_first-IsLeft :
    (n : ℕ) (rows : Stamps) → IsUnique rows → IsLeft rows (delete (oldest_first n rows) rows)
oldest_first-IsLeft zero rows u = IsLeft-refl rows
oldest_first-IsLeft (suc n) rows u = elim (Option-cases (oldest rows)) [
  | inl o ↦
      subst (λ keys. IsLeft rows (delete keys rows)) (sym (oldest_first-none (suc n) rows o))
        (IsLeft-refl rows)
  | inr ((k, s), o) ↦
      subst (λ keys. IsLeft rows (delete keys rows)) (sym (oldest_first-some n rows k s o))
        (IsLeft-trans rows (remove k rows) (delete (oldest_first n (remove k rows)) (remove k rows))
          (remove-IsLeft rows k s u o)
          (oldest_first-IsLeft n (remove k rows) (remove-IsUnique k rows u)))
]

-- The selection has as many keys as its deletion takes rows.
pub length-oldest_first :
    (n : ℕ) (rows : Stamps)
    → IsUnique rows
    → length (delete (oldest_first n rows) rows) + length (oldest_first n rows) ≡ length rows
length-oldest_first zero rows u = ground arith
length-oldest_first (suc n) rows u = elim (Option-cases (oldest rows)) [
  | inl o ↦
      subst (λ keys. length (delete keys rows) + length keys ≡ length rows)
        (sym (oldest_first-none (suc n) rows o)) (ground arith)
  | inr ((k, s), o) ↦
      subst (λ keys. length (delete keys rows) + length keys ≡ length rows)
        (sym (oldest_first-some n rows k s o))
        (ground (
          arith,
          length-oldest_first n (remove k rows) (remove-IsUnique k rows u),
          length-remove-found k rows s (lookup-oldest rows k s u o),
        ))
]

pub oldest_first-empty : (n : ℕ) (rows : Stamps) → 1 ≤ n → oldest_first n rows ≡ [] → rows ≡ []
oldest_first-empty zero rows l e = ground arith
oldest_first-empty (suc n) [] l e = refl
oldest_first-empty (suc n) (row ∷ rows) l e = elim (Option-cases (oldest (row ∷ rows))) [
  | inl o ↦ oldest-none (row ∷ rows) o
  | inr ((k, s), o) ↦ ground (arith, oldest_first-some n (row ∷ rows) k s o)
]

-- A deleted row is gone, and any other is as it was.
pub lookup-delete-cases :
    {V : Type 0} (k : Bytes) (keys : List Bytes) (rows : Assoc Bytes V)
    → IsUnique rows
    → (lookup k (delete keys rows) ≡ none) ⊎ (lookup k (delete keys rows) ≡ lookup k rows)
lookup-delete-cases k keys rows u = elim (Option-cases (lookup k (delete keys rows))) [
  | inl e ↦ inl e
  | inr (v, e) ↦ inr (e ∙ sym (lookup-delete k keys rows v u e))
]
