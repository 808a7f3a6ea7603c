-- ===== src/IndexCache/Batches.antt =====
-- The ways in which a batch of the index cache comes out.
use causalmesh.Prelude.{
  ℕ, ◌+◌, Bool, true, Option, none, some, List, [], length, ◌||◌, ◌&&◌, ltb, nat_eq, list_eq,
  Bool-cases, Option-cases, ◌≡◌, refl, inl, inr, arith,
}
use causalmesh.Prelude.Text.{is_nil}
use causalmesh.Prelude.Results.{Result, ok, err}
use causalmesh.IndexCache.{
  Bytes, Database, PersistentIndexCache, Sqlite, Answers, QuotaOutcome, IndexCacheError, counted,
  put_batch, write_batch, quota_check_min_writes, write_entries, touch_entries, enforce_quota,
}

-- A batch that commits has made both of its passes.
pub write_batch-some :
    (s : Sqlite) (a : Answers) (entries : List (Bytes × Bytes)) (touched : List Bytes)
    (db db' : Database)
    → write_batch s a entries touched db ≡ some db'
    → (written : Database) × (write_entries s a 1 entries db ≡ some written)
      × (touch_entries a (1 + length entries) touched written ≡ some db')
unfolding write_batch
write_batch-some s a entries touched db db' e =
    elim (Option-cases (write_entries s a 1 entries db)) [
      | inl none_written ↦ ground (arith)
      | inr (written, w) ↦
          elim (Option-cases (touch_entries a (1 + length entries) touched written)) [
            | inl none_flushed ↦ ground (arith)
            | inr (flushed, f) ↦ (written, w, ground arith)
          ]
    ]

-- A batch that commits, before the quota is looked at.
abbrev pub committed : Database → PersistentIndexCache → PersistentIndexCache
committed db cache = record cache { touched = []; database = db }

abbrev pub looks_at_quota : Sqlite → List (Bytes × Bytes) → Database → ℕ → Bool
looks_at_quota s entries db limit =
    ltb quota_check_min_writes (length entries) || ltb limit (s.size_bytes db)

-- What a batch leaves: the database as it was, or the written one, perhaps within its quota.
pub data Left (s : Sqlite) (a : Answers) (entries : List (Bytes × Bytes))
    (cache : PersistentIndexCache) (rest : Database) : Type 0 where
  idle : entries ≡ [] → rest ≡ cache.database → Left s a entries cache rest
  failed :
      write_batch s a entries cache.touched cache.database ≡ none
      → rest ≡ cache.database
      → Left s a entries cache rest
  plain :
      (db : Database)
      → write_batch s a entries cache.touched cache.database ≡ some db
      → rest ≡ db
      → Left s a entries cache rest
  trimmed :
      (db : Database)
      → write_batch s a entries cache.touched cache.database ≡ some db
      → looks_at_quota s entries db cache.max_size_bytes ≡ true
      → rest ≡ (enforce_quota s a (committed db cache)).0.database
      → Left s a entries cache rest

counted-database :
    (outcome : Option (Result IndexCacheError QuotaOutcome)) (cache : PersistentIndexCache)
    → (counted outcome cache).database ≡ cache.database
counted-database none cache = refl
counted-database (some (ok done)) cache = refl
counted-database (some (err e)) cache = refl

pub put_batch-Left :
    (s : Sqlite) (a : Answers) (entries : List (Bytes × Bytes)) (cache : PersistentIndexCache)
    → Left s a entries cache (put_batch s a entries cache).database
unfolding put_batch
put_batch-Left s a entries cache = elim (Bool-cases (is_nil entries && is_nil cache.touched)) [
  | inl nothing ↦ idle (ground arith) (rw nothing refl)
  | inr something ↦ elim (Option-cases (write_batch s a entries cache.touched cache.database)) [
    | inl e ↦ failed e (rw (something, e) refl)
    | inr (db, e) ↦ elim (Bool-cases (looks_at_quota s entries db cache.max_size_bytes)) [
      | inl over ↦ trimmed db e over (
          rw (something, e, over)
            (counted-database (enforce_quota s a (committed db cache)).1
              (enforce_quota s a (committed db cache)).0))
      | inr within ↦ plain db e (rw (something, e, within) refl)
    ]
  ]
]
