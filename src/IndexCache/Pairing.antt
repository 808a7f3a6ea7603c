-- ===== src/IndexCache/Pairing.antt =====
-- The two tables of the index cache over any sequence of calls.
use mathlib.Core.Path.{subst}
use causalmesh.Prelude.{
  ℕ, ◌+◌, Bool, Option, none, some, List, [], ◌∷◌, length, nat_eq, list_eq, list_beq_iff, ◌≡◌, refl,
  sym, ap, arith,
}
use causalmesh.Prelude.Assoc.{
  lookup, remove, lookup-remove, lookup-insert, insert-IsUnique, remove-IsUnique,
}
use causalmesh.IndexCache.{
  Bytes, PayloadRow, AccessRow, Database, PersistentIndexCache, Sqlite, Answers, get, put_batch,
  write_batch, write_entry, write_entries, touch_row, touch_entry, touch_entries, delete,
  delete_round, evict_round, oldest_first, eviction_batch, eviction_batch_rows, stamps,
  payload_stamp,
}
use causalmesh.IndexCache.Batches.{
  idle, failed, plain, trimmed, committed, write_batch-some, put_batch-Left,
}
use causalmesh.IndexCache.Oldest.{lookup-delete-cases, delete-IsUnique}
use causalmesh.IndexCache.Eviction.{
  AreUnique, access_of, no_access, length-zero, enforce_quota-keeps,
}

abbrev payload_rowid : Option PayloadRow → Option ℕ
payload_rowid none = none
payload_rowid (some row) = some row.rowid

abbrev access_rowid : Option AccessRow → Option ℕ
access_rowid none = none
access_rowid (some row) = some row.payload_rowid

-- One row to a key in each table, and the access row of a key names the payload that it has.
pub record IsPaired (db : Database) : Type 0 where
  pub unique : AreUnique db
  pub paired :
      (k : Bytes) → payload_rowid (lookup k db.payloads) ≡ access_rowid (lookup k db.access)

write_entry-IsPaired :
    (s : Sqlite) (now : ℕ) (entry : Bytes × Bytes) (db : Database)
    → IsPaired db
    → IsPaired (write_entry s now entry db)
write_entry-IsPaired s now (key, payload) db i =
    let rowid = s.next_rowid db.payloads in
    let row : PayloadRow = record { rowid = rowid; payload = payload; updated_at = now } in
    let use_row : AccessRow = record { last_accessed_at = now; payload_rowid = rowid } in
    record {
      unique = (
        insert-IsUnique key row db.payloads i.unique.0,
        insert-IsUnique key use_row db.access i.unique.1,
      );
      paired = λ k. ground (
        arith,
        lookup-insert key k row db.payloads,
        lookup-insert key k use_row db.access,
        i.paired k,
      );
    }

touch_row-IsPaired :
    (now : ℕ) (key : Bytes) (found : Option AccessRow) (db : Database)
    → lookup key db.access ≡ found
    → IsPaired db
    → IsPaired (touch_row now key found db)
touch_row-IsPaired now key none db e i = i
touch_row-IsPaired now key (some row) db e i =
    let use_row : AccessRow = record row { last_accessed_at = now } in
    record {
      unique = (i.unique.0, insert-IsUnique key use_row db.access i.unique.1);
      paired = λ k.
          ground (arith, lookup-insert key k use_row db.access, i.paired k, e, list_beq_iff key k);
    }

write_entries-IsPaired :
    (s : Sqlite) (a : Answers) (n : ℕ) (entries : List (Bytes × Bytes)) (db db' : Database)
    → IsPaired db
    → write_entries s a n entries db ≡ some db'
    → IsPaired db'
write_entries-IsPaired s a n [] db db' i e = subst IsPaired (ground arith) i
write_entries-IsPaired s a n (entry ∷ entries) db db' i e =
    write_entries-IsPaired s a (n + 1) entries (write_entry s a.now entry db) db'
      (write_entry-IsPaired s a.now entry db i) (ground arith)

touch_entries-IsPaired :
    (a : Answers) (n : ℕ) (keys : List Bytes) (db db' : Database)
    → IsPaired db
    → touch_entries a n keys db ≡ some db'
    → IsPaired db'
touch_entries-IsPaired a n [] db db' i e = subst IsPaired (ground arith) i
touch_entries-IsPaired a n (key ∷ keys) db db' i e =
    touch_entries-IsPaired a (n + 1) keys (touch_entry a.now key db) db'
      (touch_row-IsPaired a.now key (lookup key db.access) db refl i) (ground arith)

pub write_batch-IsPaired :
    (s : Sqlite) (a : Answers) (entries : List (Bytes × Bytes)) (touched : List Bytes)
    (db db' : Database)
    → IsPaired db
    → write_batch s a entries touched db ≡ some db'
    → IsPaired db'
write_batch-IsPaired s a entries touched db db' i e =
    let (written, w, f) = write_batch-some s a entries touched db db' e in
    touch_entries-IsPaired a (1 + length entries) touched written db'
      (write_entries-IsPaired s a 1 entries db written i w) f

delete-IsPaired :
    (keys : List Bytes) (db : Database)
    → IsPaired db
    → IsPaired (record { payloads = delete keys db.payloads; access = delete keys db.access })
delete-IsPaired [] db i = i
delete-IsPaired (key ∷ keys) db i =
    delete-IsPaired keys
      (record { payloads = remove key db.payloads; access = remove key db.access })
      (record {
        unique =
            (remove-IsUnique key db.payloads i.unique.0, remove-IsUnique key db.access i.unique.1);
        paired = λ k. ground (
          arith,
          lookup-remove key k db.payloads i.unique.0,
          lookup-remove key k db.access i.unique.1,
          i.paired k,
        );
      })

delete_round-IsPaired :
    (db : Database) (keys : List Bytes)
    → (keys ≡ [] → db.access ≡ [])
    → IsPaired db
    → IsPaired (delete_round db keys).0
unfolding delete_round
delete_round-IsPaired db [] empty i =
    let keys = oldest_first eviction_batch_rows (stamps payload_stamp db.payloads) in
    record {
      unique = (delete-IsUnique keys db.payloads i.unique.0, i.unique.1);
      paired = λ k. ground (
        arith,
        i.paired k,
        ap (lookup k) (empty refl),
        lookup-delete-cases k keys db.payloads i.unique.0,
      );
    }
delete_round-IsPaired db (key ∷ keys) empty i = delete-IsPaired (key ∷ keys) db i

evict_round-IsPaired :
    (s : Sqlite) (target : ℕ) (db : Database) → IsPaired db → IsPaired (evict_round s target db).0
evict_round-IsPaired s target db i =
    delete_round-IsPaired db
      (oldest_first (eviction_batch (s.live_bytes db) target (length db.access)) (access_of db))
      (λ e. length-zero db.access (no_access s target db e)) i

-- A call: a lookup, which fails or not, or a batch.
pub data Call : Type 0 where
  get_call : Bool → Bytes → Call
  put_call : Answers → List (Bytes × Bytes) → Call

pub run : Sqlite → List Call → PersistentIndexCache → PersistentIndexCache
run s [] cache = cache
run s (get_call fails key ∷ calls) cache = run s calls (get fails key cache).0
run s (put_call a entries ∷ calls) cache = run s calls (put_batch s a entries cache)

get-database :
    (fails : Bool) (key : Bytes) (cache : PersistentIndexCache)
    → (get fails key cache).0.database ≡ cache.database
unfolding get
get-database fails key cache = ground arith

put_batch-IsPaired :
    (s : Sqlite) (a : Answers) (entries : List (Bytes × Bytes)) (cache : PersistentIndexCache)
    → IsPaired cache.database
    → IsPaired (put_batch s a entries cache).database
put_batch-IsPaired s a entries cache i = elim (put_batch-Left s a entries cache) [
  | idle e same ↦ subst IsPaired (sym same) i
  | failed e same ↦ subst IsPaired (sym same) i
  | plain db e same ↦
      subst IsPaired (sym same)
        (write_batch-IsPaired s a entries cache.touched cache.database db i e)
  | trimmed db e over same ↦ subst IsPaired (sym same) (
      enforce_quota-keeps IsPaired s (evict_round-IsPaired s) a (committed db cache)
        (write_batch-IsPaired s a entries cache.touched cache.database db i e))
]

-- Over any calls, those that fail included, each table keeps one row to a key, and a key has an
-- access row exactly if it has a payload, which that row names.
pub run-IsPaired :
    (s : Sqlite) (calls : List Call) (cache : PersistentIndexCache)
    → IsPaired cache.database
    → IsPaired (run s calls cache).database
unfolding run
run-IsPaired s [] cache i = i
run-IsPaired s (get_call fails key ∷ calls) cache i =
    run-IsPaired s calls (get fails key cache).0
      (subst IsPaired (sym (get-database fails key cache)) i)
run-IsPaired s (put_call a entries ∷ calls) cache i =
    run-IsPaired s calls (put_batch s a entries cache) (put_batch-IsPaired s a entries cache i)
