-- ===== src/IndexCache/Contents.antt =====
-- What a lookup finds in the index cache after a batch.
use causalmesh.Prelude.{
  ℕ, ◌+◌, true, false, Option, none, some, List, [], ◌∷◌, length, if◌then◌else◌, ◌==◌, nat_eq,
  list_eq, ◌≡◌, refl, sym, ap, ◌∙◌, ◌⊎◌, inl, inr, arith,
}
use causalmesh.Prelude.Assoc.{lookup, lookup-insert}
use causalmesh.IndexCache.{
  Bytes, PayloadRow, AccessRow, Database, PersistentIndexCache, Sqlite, Answers, get, put_batch,
  write_batch, write_entry, write_entries, touch_row, touch_entry, touch_entries, enforce_quota,
  delete, delete_round, evict_round, oldest_first, eviction_batch, eviction_batch_rows, stamps,
  payload_stamp,
}
use causalmesh.IndexCache.Pairing.{IsPaired, write_batch-IsPaired}
use causalmesh.IndexCache.Batches.{
  idle, failed, plain, trimmed, committed, looks_at_quota, write_batch-some, put_batch-Left,
}
use causalmesh.IndexCache.Oldest.{lookup-delete-cases}
use causalmesh.IndexCache.Eviction.{
  AreUnique, evict_round-AreUnique, access_of, enforce_quota-keeps,
}

abbrev payload_of : Option PayloadRow → Option Bytes
payload_of none = none
payload_of (some row) = some row.payload

get-payload_of :
    (k : Bytes) (cache : PersistentIndexCache)
    → (get false k cache).1 ≡ payload_of (lookup k cache.database.payloads)
unfolding get
get-payload_of k cache = ground arith

-- The last of the entries under a key, or else what was there.
abbrev pub latest : Bytes → List (Bytes × Bytes) → Option Bytes → Option Bytes
latest k [] old = old
latest k ((key, payload) ∷ entries) old = latest k entries (if key == k then some payload else old)

entry-payload_of :
    (s : Sqlite) (now : ℕ) (key payload k : Bytes) (db : Database)
    → payload_of (lookup k (write_entry s now (key, payload) db).payloads)
      ≡ (if key == k then some payload else payload_of (lookup k db.payloads))
entry-payload_of s now key payload k db =
    let row : PayloadRow = record {
      rowid = s.next_rowid db.payloads;
      payload = payload;
      updated_at = now;
    } in
    ground (arith, lookup-insert key k row db.payloads)

touch_row-payloads :
    (now : ℕ) (key : Bytes) (found : Option AccessRow) (db : Database)
    → (touch_row now key found db).payloads ≡ db.payloads
touch_row-payloads now key none db = refl
touch_row-payloads now key (some row) db = refl

write_entries-latest :
    (s : Sqlite) (a : Answers) (k : Bytes) (n : ℕ) (entries : List (Bytes × Bytes))
    (db db' : Database)
    → write_entries s a n entries db ≡ some db'
    → payload_of (lookup k db'.payloads) ≡ latest k entries (payload_of (lookup k db.payloads))
write_entries-latest s a k n [] db db' e =
    let same : db' ≡ db = ground arith in
    ap (λ (d : Database). payload_of (lookup k d.payloads)) same
write_entries-latest s a k n ((key, payload) ∷ entries) db db' e =
    write_entries-latest s a k (n + 1) entries (write_entry s a.now (key, payload) db) db'
      (ground arith)
    ∙ ap (latest k entries) (entry-payload_of s a.now key payload k db)

touch_entries-payloads :
    (a : Answers) (n : ℕ) (keys : List Bytes) (db db' : Database)
    → touch_entries a n keys db ≡ some db'
    → db'.payloads ≡ db.payloads
touch_entries-payloads a n [] db db' e = ground arith
touch_entries-payloads a n (key ∷ keys) db db' e =
    touch_entries-payloads a (n + 1) keys (touch_entry a.now key db) db' (ground arith)
    ∙ touch_row-payloads a.now key (lookup key db.access) db

write_batch-latest :
    (s : Sqlite) (a : Answers) (k : Bytes) (entries : List (Bytes × Bytes)) (touched : List Bytes)
    (db db' : Database)
    → write_batch s a entries touched db ≡ some db'
    → payload_of (lookup k db'.payloads) ≡ latest k entries (payload_of (lookup k db.payloads))
write_batch-latest s a k entries touched db db' e =
    let (written, w, f) = write_batch-some s a entries touched db db' e in
    ap (λ rows. payload_of (lookup k rows))
      (touch_entries-payloads a (1 + length entries) touched written db' f)
    ∙ write_entries-latest s a k 1 entries db written w

delete_round-payloads :
    (db : Database) (keys : List Bytes)
    → (gone : List Bytes) × ((delete_round db keys).0.payloads ≡ delete gone db.payloads)
unfolding delete_round
delete_round-payloads db [] =
    (oldest_first eviction_batch_rows (stamps payload_stamp db.payloads), refl)
delete_round-payloads db (key ∷ keys) = (key ∷ keys, refl)

-- A payload that was evicted, or is as it was.
abbrev IsGoneOr : Bytes → Database → Database → Type 0
IsGoneOr k old db = (lookup k db.payloads ≡ none) ⊎ (lookup k db.payloads ≡ lookup k old.payloads)

evict_round-IsGoneOr :
    (s : Sqlite) (k : Bytes) (old : Database) (target : ℕ) (db : Database)
    → AreUnique db × IsGoneOr k old db
    → AreUnique (evict_round s target db).0 × IsGoneOr k old (evict_round s target db).0
evict_round-IsGoneOr s k old target db i =
    let (gone, e) =
      delete_round-payloads db (
        oldest_first (eviction_batch (s.live_bytes db) target (length db.access)) (access_of db)) in
    (
      evict_round-AreUnique s target db i.0,
      ground (arith, i.1, ap (lookup k) e, lookup-delete-cases k gone db.payloads i.0.0),
    )

enforce_quota-IsGoneOr :
    (s : Sqlite) (a : Answers) (k : Bytes) (cache : PersistentIndexCache)
    → AreUnique cache.database
    → IsGoneOr k cache.database (enforce_quota s a cache).0.database
enforce_quota-IsGoneOr s a k cache u =
    (enforce_quota-keeps (λ db. AreUnique db × IsGoneOr k cache.database db) s
      (evict_round-IsGoneOr s k cache.database) a cache (u, inr refl)).1

-- What a lookup finds after a batch: what it found before, if the batch did not commit; the last
-- payload of the batch under the key, or else what it found before; or nothing, if the batch made
-- the cache look at its quota.
pub get-put_batch :
    (s : Sqlite) (a : Answers) (k : Bytes) (entries : List (Bytes × Bytes))
    (cache : PersistentIndexCache)
    → IsPaired cache.database
    → ((write_batch s a entries cache.touched cache.database ≡ none)
        × ((get false k (put_batch s a entries cache)).1 ≡ (get false k cache).1))
      ⊎ ((get false k (put_batch s a entries cache)).1 ≡ latest k entries (get false k cache).1)
      ⊎ (((get false k (put_batch s a entries cache)).1 ≡ none)
          × ((db : Database) × (write_batch s a entries cache.touched cache.database ≡ some db)
              × (looks_at_quota s entries db cache.max_size_bytes ≡ true)))
get-put_batch s a k entries cache i =
    let now_found = get-payload_of k (put_batch s a entries cache) in
    let old_found = get-payload_of k cache in
    let value : Database → Option Bytes = λ db. payload_of (lookup k db.payloads) in
    elim (put_batch-Left s a entries cache) [
      | idle e same ↦ inr (
          inl (
            now_found
            ∙ ap value same
            ∙ sym old_found
            ∙ ap (λ es. latest k es (get false k cache).1) (sym e)))
      | failed e same ↦ inl (e, now_found ∙ ap value same ∙ sym old_found)
      | plain db e same ↦ inr (
          inl (
            now_found
            ∙ ap value same
            ∙ write_batch-latest s a k entries cache.touched cache.database db e
            ∙ ap (latest k entries) (sym old_found)))
      | trimmed db e over same ↦
          elim (enforce_quota-IsGoneOr s a k (committed db cache)
            (write_batch-IsPaired s a entries cache.touched cache.database db i e).unique) [
              | inl gone ↦ inr (inr (now_found ∙ ap value same ∙ ap payload_of gone, (db, e, over)))
              | inr there ↦ inr (
                  inl (
                    now_found
                    ∙ ap value same
                    ∙ ap payload_of there
                    ∙ write_batch-latest s a k entries cache.touched cache.database db e
                    ∙ ap (latest k entries) (sym old_found)))
            ]
    ]
