-- ===== src/IndexCache/Eviction.antt =====
-- The eviction loop of the index cache: what it leaves.
use mathlib.Core.Path.{subst}
use causalmesh.Prelude.{
  ℕ, zero, suc, ◌+◌, ◌≤◌, none, List, [], ◌∷◌, length, nat_eq, list_eq, ◌≡◌, refl, sym, ap, ◌∙◌,
  ◌⊎◌, inl, inr, arith,
}
use causalmesh.Prelude.Assoc.{Assoc, lookup, remove, IsUnique}
use causalmesh.IndexCache.{
  Bytes, Database, PersistentIndexCache, Sqlite, Answers, oldest_first, stamps, access_stamp,
  payload_stamp, delete, delete_round, evict_round, evict, rows_of, eviction_batch,
  eviction_batch_rows, eviction_target, enforce_quota,
}
use causalmesh.IndexCache.Oldest.{
  Stamps, length-oldest_first, oldest_first-empty, delete-IsUnique, length-delete,
}

module _ {V : Type 0} (stamp : V → ℕ × ℕ) where
  stamps-remove :
      (k : Bytes) (rows : Assoc Bytes V)
      → stamps stamp (remove k rows) ≡ remove k (stamps stamp rows)
  stamps-remove k [] = refl
  stamps-remove k ((j, row) ∷ rows) = ground (arith, stamps-remove k rows)

  stamps-delete :
      (keys : List Bytes) (rows : Assoc Bytes V)
      → stamps stamp (delete keys rows) ≡ delete keys (stamps stamp rows)
  stamps-delete [] rows = refl
  stamps-delete (k ∷ keys) rows =
      stamps-delete keys (remove k rows) ∙ ap (delete keys) (stamps-remove k rows)

  lookup-stamps :
      (k : Bytes) (rows : Assoc Bytes V)
      → lookup k rows ≡ none
      → lookup k (stamps stamp rows) ≡ none
  lookup-stamps k [] e = refl
  lookup-stamps k ((j, row) ∷ rows) e = ground (arith, lookup-stamps k rows)

  stamps-IsUnique : (rows : Assoc Bytes V) → IsUnique rows → IsUnique (stamps stamp rows)
  stamps-IsUnique [] u = u
  stamps-IsUnique ((k, row) ∷ rows) u = (lookup-stamps k rows u.0, stamps-IsUnique rows u.1)

  length-stamps : (rows : Assoc Bytes V) → length (stamps stamp rows) ≡ length rows
  length-stamps [] = refl
  length-stamps ((k, row) ∷ rows) = ap suc (length-stamps rows)

  -- What the selected keys take from the table that they were selected from.
  length-delete-oldest :
      (n : ℕ) (rows : Assoc Bytes V)
      → IsUnique rows
      → length (delete (oldest_first n (stamps stamp rows)) rows)
          + length (oldest_first n (stamps stamp rows))
        ≡ length rows
  length-delete-oldest n rows u = omega (
    arith,
    length-oldest_first n (stamps stamp rows) (stamps-IsUnique rows u),
    ap length (stamps-delete (oldest_first n (stamps stamp rows)) rows),
    length-stamps rows,
    length-stamps (delete (oldest_first n (stamps stamp rows)) rows),
  )

abbrev pub access_of : Database → Stamps
access_of db = stamps access_stamp db.access

-- Both tables have one row to a key.
abbrev pub AreUnique : Database → Type 0
AreUnique db = IsUnique db.payloads × IsUnique db.access

delete_round-AreUnique :
    (db : Database) (keys : List Bytes) → AreUnique db → AreUnique (delete_round db keys).0
unfolding delete_round
delete_round-AreUnique db [] u = (
  delete-IsUnique (oldest_first eviction_batch_rows (stamps payload_stamp db.payloads)) db.payloads
      u.0,
  u.1,
)
delete_round-AreUnique db (k ∷ keys) u =
    (delete-IsUnique (k ∷ keys) db.payloads u.0, delete-IsUnique (k ∷ keys) db.access u.1)

-- A round takes from the rows at least as many as it says.
rows_of-delete_round :
    (db : Database) (keys : List Bytes)
    → AreUnique db
    → length (delete keys db.access) + length keys ≡ length db.access
    → rows_of (delete_round db keys).0 + (delete_round db keys).1 ≤ rows_of db
unfolding delete_round
rows_of-delete_round db [] u e =
    omega (arith, length-delete-oldest payload_stamp eviction_batch_rows db.payloads u.0)
rows_of-delete_round db (k ∷ keys) u e = omega (arith, e, length-delete (k ∷ keys) db.payloads)

pub evict_round-AreUnique :
    (s : Sqlite) (target : ℕ) (db : Database) → AreUnique db → AreUnique (evict_round s target db).0
evict_round-AreUnique s target db u =
    delete_round-AreUnique db
      (oldest_first (eviction_batch (s.live_bytes db) target (length db.access)) (access_of db)) u

pub rows_of-evict_round :
    (s : Sqlite) (target : ℕ) (db : Database)
    → AreUnique db
    → rows_of (evict_round s target db).0 + (evict_round s target db).1 ≤ rows_of db
rows_of-evict_round s target db u =
    let batch = eviction_batch (s.live_bytes db) target (length db.access) in
    rows_of-delete_round db (oldest_first batch (access_of db)) u
      (length-delete-oldest access_stamp batch db.access u.1)

pub length-zero {ℓ} : {A : Type ℓ} (xs : List A) → length xs ≡ 0 → xs ≡ []
length-zero [] e = refl
length-zero (x ∷ xs) e = ground arith

-- Without a key to delete there is no access row left.
pub no_access :
    (s : Sqlite) (target : ℕ) (db : Database)
    → oldest_first (eviction_batch (s.live_bytes db) target (length db.access)) (access_of db) ≡ []
    → length db.access ≡ 0
no_access s target db none_left = omega (
  arith,
  length-stamps access_stamp db.access,
  ap length (
      oldest_first-empty (eviction_batch (s.live_bytes db) target (length db.access)) (access_of db)
        (ground arith) none_left),
)

-- A round that deletes nothing finds nothing.
delete_round-zero :
    (db : Database) (keys : List Bytes)
    → (keys ≡ [] → length db.access ≡ 0)
    → (delete_round db keys).1 ≡ 0
    → rows_of db ≡ 0
unfolding delete_round
delete_round-zero db [] l e =
    let rows = stamps payload_stamp db.payloads in
    omega (
      arith,
      l refl,
      length-stamps payload_stamp db.payloads,
      ap length (
          oldest_first-empty eviction_batch_rows rows (omega arith)
            (length-zero (oldest_first eviction_batch_rows rows) e)),
    )
delete_round-zero db (k ∷ keys) l e = ground arith

-- The loop stops at a round, or goes on from what that leaves.
evict-cases :
    (s : Sqlite) (a : Answers) (fuel n target : ℕ) (db : Database) (evicted : ℕ)
    → ((evict s a (suc fuel) n target db evicted).0 ≡ db)
      ⊎ (evict s a (suc fuel) n target db evicted
          ≡ evict s a fuel
              (n + 1)
              target
              (evict_round s target db).0
              (evicted + (evict_round s target db).1))
unfolding evict
evict-cases s a fuel n target db evicted = ground arith

enforce_quota-cases :
    (s : Sqlite) (a : Answers) (cache : PersistentIndexCache)
    → let run =
        evict s a
          (suc (rows_of cache.database))
          0
          (eviction_target cache.max_size_bytes)
          cache.database
          0 in
      (((enforce_quota s a cache).0.database ≡ cache.database)
        × (s.size_bytes cache.database ≤ cache.max_size_bytes))
      ⊎ ((enforce_quota s a cache).0.database ≡ run.0)
unfolding enforce_quota
enforce_quota-cases s a cache = ground arith

-- What every round keeps, the enforcement of the quota keeps.
module _ (P : Database → Type 0) (s : Sqlite)
    (round : (target : ℕ) (db : Database) → P db → P (evict_round s target db).0) where
  evict-keeps :
      (a : Answers) (fuel n target : ℕ) (db : Database) (evicted : ℕ)
      → P db
      → P (evict s a fuel n target db evicted).0
  unfolding evict
  evict-keeps a zero n target db evicted i = i
  evict-keeps a (suc fuel) n target db evicted i =
      let (smaller, removed) = evict_round s target db in
      elim (evict-cases s a fuel n target db evicted) [
        | inl same ↦ subst P (sym same) i
        | inr next ↦
            subst (λ r. P r.0) (sym next)
              (evict-keeps a fuel (n + 1) target smaller (evicted + removed) (round target db i))
      ]

  pub enforce_quota-keeps :
      (a : Answers) (cache : PersistentIndexCache)
      → P cache.database
      → P (enforce_quota s a cache).0.database
  enforce_quota-keeps a cache i = elim (enforce_quota-cases s a cache) [
    | inl (same, within) ↦ subst P (sym same) i
    | inr ran ↦ subst P (sym ran) (
        evict-keeps a (suc (rows_of cache.database)) 0 (eviction_target cache.max_size_bytes)
          cache.database 0 i)
  ]

pub evict_round-zero :
    (s : Sqlite) (target : ℕ) (db : Database) → (evict_round s target db).1 ≡ 0 → rows_of db ≡ 0
evict_round-zero s target db e =
    delete_round-zero db
      (oldest_first (eviction_batch (s.live_bytes db) target (length db.access)) (access_of db))
      (no_access s target db) e
