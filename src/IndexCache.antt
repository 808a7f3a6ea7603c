-- ===== src/IndexCache.antt =====
-- The persistent index cache (crates/mesh-core/src/index_cache.rs): blobs by key in one table of a
-- database and their access times in another. The tables are association lists; `Sqlite` holds
-- what the database measures and the row number that it gives to an insertion, and `Answers` the
-- clock of a call and the statements that fail in it.
pub mod Oldest
pub mod Eviction
pub mod Ending
pub mod Batches
pub mod Pairing
pub mod Contents
pub mod Tests
use Prim.Native.Nat.{◌/◌, min}
use causalmesh.Prelude.{
  ℕ, zero, suc, ◌+◌, ◌-◌, ◌*◌, max, Bool, true, false, ◌&&◌, ◌||◌, Option, none, some, List, [],
  ◌∷◌, ◌++◌, length, ltb, leb, ◌==◌, if◌then◌else◌, nat_eq, list_eq,
}
use causalmesh.Prelude.Assoc.{Assoc, lookup, insert, remove}
use causalmesh.Prelude.Text.{is_nil}
use causalmesh.Prelude.Results.{Result, ok, err}

-- a cache key or a blob, as its bytes
abbrev pub Bytes : Type 0
Bytes = List ℕ

-- a row of `file_index_cache`
pub record PayloadRow : Type 0 where
  pub rowid : ℕ
  pub payload : Bytes
  pub updated_at : ℕ

-- a row of `file_index_access`
pub record AccessRow : Type 0 where
  pub last_accessed_at : ℕ
  pub payload_rowid : ℕ

pub record Database : Type 0 where
  pub payloads : Assoc Bytes PayloadRow
  pub access : Assoc Bytes AccessRow

pub record PersistentIndexCache : Type 0 where
  pub touched : List Bytes
  pub database : Database
  pub max_size_bytes : ℕ
  pub hits : ℕ
  pub misses : ℕ
  pub errors : ℕ
  pub evicted : ℕ

-- Bytes of the pages that hold data, of the files, and of the files once the free pages have been
-- released; the row number of the next insertion.
pub record Sqlite : Type 0 where
  pub live_bytes : Database → ℕ
  pub size_bytes : Database → ℕ
  pub released_bytes : Database → ℕ
  pub next_rowid : Assoc Bytes PayloadRow → ℕ

-- Which statements of a batch fail, counted from its beginning, which rounds of an eviction, and
-- whether the vacuum behind them does.
pub record Answers : Type 0 where
  pub now : ℕ
  pub batch_fails : ℕ → Bool
  pub round_fails : ℕ → Bool
  pub vacuum_fails : Bool

pub record QuotaOutcome : Type 0 where
  pub size_before : ℕ
  pub size_after : ℕ
  pub evicted : ℕ

pub data IndexCacheError : Type 0 where
  sqlite : IndexCacheError

abbrev pub quota_check_min_writes : ℕ
quota_check_min_writes = 100

abbrev pub eviction_batch_rows : ℕ
eviction_batch_rows = 1000

abbrev pub eviction_target_percent : ℕ
eviction_target_percent = 80

-- `get`, when the statement succeeds or fails
unfoldable pub get : Bool → Bytes → PersistentIndexCache → PersistentIndexCache × Option Bytes
get fails key cache =
    if fails
    then (record cache { misses = cache.misses + 1; errors = cache.errors + 1 }, none)
    else elim (lookup key cache.database.payloads) [
      | some row ↦ (
        record cache { hits = cache.hits + 1; touched = cache.touched ++ (key ∷ []) },
        some row.payload,
      )
      | none ↦ (record cache { misses = cache.misses + 1 }, none)
    ]

-- an entry in both tables
abbrev pub write_entry : Sqlite → ℕ → Bytes × Bytes → Database → Database
write_entry s now (key, payload) db =
    let rowid = s.next_rowid db.payloads in
    record {
      payloads =
          insert key (record { rowid = rowid; payload = payload; updated_at = now }) db.payloads;
      access = insert key (record { last_accessed_at = now; payload_rowid = rowid }) db.access;
    }

-- the loop over the entries, from a statement on; `none` once one fails
abbrev pub write_entries : Sqlite → Answers → ℕ → List (Bytes × Bytes) → Database → Option Database
write_entries s a n [] db = some db
write_entries s a n (entry ∷ entries) db =
    let rest = write_entries s a (n + 1) entries (write_entry s a.now entry db) in
    if a.batch_fails n then none else rest

-- `UPDATE`: a key without an access row stays without one.
abbrev pub touch_row : ℕ → Bytes → Option AccessRow → Database → Database
touch_row now key none db = db
touch_row now key (some row) db = record db {
  access = insert key (record row { last_accessed_at = now }) db.access;
}

abbrev pub touch_entry : ℕ → Bytes → Database → Database
touch_entry now key db = touch_row now key (lookup key db.access) db

abbrev pub touch_entries : Answers → ℕ → List Bytes → Database → Option Database
touch_entries a n [] db = some db
touch_entries a n (key ∷ keys) db =
    let rest = touch_entries a (n + 1) keys (touch_entry a.now key db) in
    if a.batch_fails n then none else rest

-- The transaction, from its opening to the commit.
unfoldable pub write_batch :
    Sqlite → Answers → List (Bytes × Bytes) → List Bytes → Database → Option Database
write_batch s a entries touched db =
    if a.batch_fails 0 then none else elim (write_entries s a 1 entries db) [
      | none ↦ none
      | some written ↦ elim (touch_entries a (1 + length entries) touched written) [
        | none ↦ none
        | some flushed ↦
            if a.batch_fails (1 + length entries + length touched) then none else some flushed
      ]
    ]

abbrev div_ceil : ℕ → ℕ → ℕ
div_ceil n d = (n + (d - 1)) / d

-- `eviction_batch`: about as many entries as the excess needs
abbrev pub eviction_batch : ℕ → ℕ → ℕ → ℕ
eviction_batch live target entries =
    let per_entry = max (live / max entries 1) 1 in
    min (max (div_ceil (live - target) per_entry) 1) eviction_batch_rows

-- the order of `ORDER BY` two columns
abbrev pub before : ℕ × ℕ → ℕ × ℕ → Bool
before (a, b) (c, d) = ltb a c || (a == c && ltb b d)

-- the first row in the order of its stamps
abbrev pub oldest : Assoc Bytes (ℕ × ℕ) → Option (Bytes × (ℕ × ℕ))
oldest [] = none
oldest ((key, stamp) ∷ rows) = elim (oldest rows) [
  | none ↦ some (key, stamp)
  | some (other, least) ↦ if before least stamp then some (other, least) else some (key, stamp)
]

-- `SELECT … ORDER BY … LIMIT n`
abbrev pub oldest_first : ℕ → Assoc Bytes (ℕ × ℕ) → List Bytes
oldest_first zero rows = []
oldest_first (suc n) rows = elim (oldest rows) [
  | none ↦ []
  | some (key, stamp) ↦ key ∷ oldest_first n (remove key rows)
]

abbrev pub stamps : {V : Type 0} → (V → ℕ × ℕ) → Assoc Bytes V → Assoc Bytes (ℕ × ℕ)
stamps stamp [] = []
stamps stamp ((key, row) ∷ rows) = (key, stamp row) ∷ stamps stamp rows

abbrev pub access_stamp : AccessRow → ℕ × ℕ
access_stamp row = (row.last_accessed_at, row.payload_rowid)

abbrev pub payload_stamp : PayloadRow → ℕ × ℕ
payload_stamp row = (row.updated_at, row.rowid)

-- `DELETE` of the rows of some keys
abbrev pub delete : {V : Type 0} → List Bytes → Assoc Bytes V → Assoc Bytes V
delete [] rows = rows
delete (key ∷ keys) rows = delete keys (remove key rows)

-- The deletion of one transaction, and its number of rows: the entries of the keys or, when there
-- are none because no access row is left, the oldest payloads.
unfoldable pub delete_round : Database → List Bytes → Database × ℕ
delete_round db [] =
    let keys = oldest_first eviction_batch_rows (stamps payload_stamp db.payloads) in
    (record db { payloads = delete keys db.payloads }, length keys)
delete_round db (key ∷ keys) = (
  record { payloads = delete (key ∷ keys) db.payloads; access = delete (key ∷ keys) db.access },
  length (key ∷ keys),
)

abbrev pub evict_round : Sqlite → ℕ → Database → Database × ℕ
evict_round s target db =
    let batch = eviction_batch (s.live_bytes db) target (length db.access) in
    delete_round db (oldest_first batch (stamps access_stamp db.access))

-- The loop, on fuel from a round on; `none` when the fuel runs out. A failed round is rolled back.
unfoldable pub evict :
    Sqlite → Answers → ℕ → ℕ → ℕ → Database → ℕ → Database × Option (Result IndexCacheError ℕ)
evict s a zero n target db evicted = (db, none)
evict s a (suc fuel) n target db evicted =
    let (smaller, removed) = evict_round s target db in
    let rest = evict s a fuel (n + 1) target smaller (evicted + removed) in
    if a.round_fails n
    then (db, some (err sqlite))
    else if leb (s.live_bytes db) target || removed == 0
    then (db, some (ok evicted))
    else rest

-- A round deletes a row at least, so fuel of one more than the rows is enough.
abbrev pub rows_of : Database → ℕ
rows_of db = length db.access + length db.payloads

abbrev pub eviction_target : ℕ → ℕ
eviction_target max_size_bytes = max_size_bytes / 100 * eviction_target_percent

unfoldable pub enforce_quota :
    Sqlite
    → Answers
    → PersistentIndexCache
    → PersistentIndexCache × Option (Result IndexCacheError QuotaOutcome)
enforce_quota s a cache =
    let size = s.size_bytes cache.database in
    if leb size cache.max_size_bytes
    then (cache, some (ok (record { size_before = size; size_after = size; evicted = 0 })))
    else (let (db, outcome) =
          evict s a (suc (rows_of cache.database)) 0 (eviction_target cache.max_size_bytes)
            cache.database 0 in
        elim outcome [
          | none ↦ (record cache { database = db }, none)
          | some (err e) ↦ (record cache { database = db }, some (err e))
          | some (ok evicted) ↦
              if a.vacuum_fails then (record cache { database = db }, some (err sqlite)) else (
                record cache { database = db; evicted = cache.evicted + evicted },
                some (
                    ok (record {
                      size_before = size;
                      size_after = s.released_bytes db;
                      evicted = evicted;
                    })),
              )
        ])

-- `record_error`
abbrev count_error : PersistentIndexCache → PersistentIndexCache
count_error cache = record cache { errors = cache.errors + 1 }

-- A failed enforcement is counted.
abbrev pub counted :
    Option (Result IndexCacheError QuotaOutcome) → PersistentIndexCache → PersistentIndexCache
counted none cache = cache
counted (some (ok done)) cache = cache
counted (some (err e)) cache = count_error cache

abbrev pub enforce_or_count : Sqlite → Answers → PersistentIndexCache → PersistentIndexCache
enforce_or_count s a cache =
    let (enforced, outcome) = enforce_quota s a cache in counted outcome enforced

unfoldable pub put_batch :
    Sqlite → Answers → List (Bytes × Bytes) → PersistentIndexCache → PersistentIndexCache
put_batch s a entries cache =
    if is_nil entries && is_nil cache.touched
    then cache
    else elim (write_batch s a entries cache.touched cache.database) [
      | none ↦ count_error (record cache { touched = [] })
      | some db ↦
          let written = record cache { touched = []; database = db } in
          if ltb quota_check_min_writes (length entries)
            || ltb cache.max_size_bytes (s.size_bytes db)
          then enforce_or_count s a written
          else written
    ]
