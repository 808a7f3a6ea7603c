-- ===== src/IndexCache/Tests.antt =====
-- The index cache at concrete calls, in a database that counts a byte to a row.
use causalmesh.Prelude.{ℕ, suc, ◌*◌, ◌≤◌, true, false, none, some, [], ◌∷◌, length, ◌≡◌, ◌⊎◌, refl}
use causalmesh.Prelude.Results.{ok}
use causalmesh.IndexCache.{
  Bytes, Database, PersistentIndexCache, Sqlite, Answers, QuotaOutcome, get, put_batch, write_batch,
  enforce_quota, eviction_target,
}
use causalmesh.IndexCache.Eviction.{AreUnique}
use causalmesh.IndexCache.Ending.{IsDone, enforce_quota-IsDone}
use causalmesh.IndexCache.Batches.{looks_at_quota}
use causalmesh.IndexCache.Pairing.{get_call, put_call, run, IsPaired, run-IsPaired}
use causalmesh.IndexCache.Contents.{latest, get-put_batch}

abbrev engine : Sqlite
engine = record {
  live_bytes = λ db. 100 * length db.payloads;
  size_bytes = λ db. 100 * length db.payloads;
  released_bytes = λ db. 100 * length db.payloads;
  next_rowid = λ rows. suc (length rows);
}

abbrev fine : ℕ → Answers
fine now = record {
  now = now;
  batch_fails = λ n. false;
  round_fails = λ n. false;
  vacuum_fails = false;
}

abbrev torn : Answers
torn = record { now = 7; batch_fails = λ n. true; round_fails = λ n. true; vacuum_fails = true }

abbrev a_key : Bytes
a_key = 1 ∷ []

abbrev b_key : Bytes
b_key = 2 ∷ []

abbrev fresh : PersistentIndexCache
fresh = record {
  touched = [];
  database = record { payloads = []; access = [] };
  max_size_bytes = 100;
  hits = 0;
  misses = 0;
  errors = 0;
  evicted = 0;
}

-- two rows, over a quota of one
abbrev full : PersistentIndexCache
full = record fresh {
  database = record {
    payloads =
        (a_key, record { rowid = 1; payload = []; updated_at = 5 })
        ∷ (b_key, record { rowid = 2; payload = []; updated_at = 5 })
        ∷ [];
    access =
        (a_key, record { last_accessed_at = 9; payload_rowid = 1 })
        ∷ (b_key, record { last_accessed_at = 5; payload_rowid = 2 })
        ∷ [];
  };
}

fresh-IsPaired : IsPaired fresh.database
fresh-IsPaired = record { unique = (tt, tt); paired = λ k. refl }

run-IsPaired_example :
    IsPaired
      (run engine
        (put_call (fine 5) ((a_key, []) ∷ (b_key, 3 ∷ []) ∷ [])
          ∷ get_call false a_key
          ∷ put_call torn []
          ∷ [])
        fresh).database
run-IsPaired_example =
    run-IsPaired engine
      (put_call (fine 5) ((a_key, []) ∷ (b_key, 3 ∷ []) ∷ [])
        ∷ get_call false a_key
        ∷ put_call torn []
        ∷ [])
      fresh fresh-IsPaired

full-AreUnique : AreUnique full.database
full-AreUnique = ((refl, (refl, tt)), (refl, (refl, tt)))

enforce_quota-IsDone_example :
    ((outcome : QuotaOutcome) × ((enforce_quota engine (fine 9) full).1 ≡ some (ok outcome)))
    × ((200 ≤ 100)
        ⊎ IsDone engine (eviction_target 100) (enforce_quota engine (fine 9) full).0.database)
enforce_quota-IsDone_example =
    enforce_quota-IsDone engine (fine 9) full (λ n. refl) refl full-AreUnique

get-put_batch_example :
    ((write_batch engine (fine 5) ((a_key, 4 ∷ []) ∷ []) [] fresh.database ≡ none)
      × ((get false a_key (put_batch engine (fine 5) ((a_key, 4 ∷ []) ∷ []) fresh)).1
          ≡ (get false a_key fresh).1))
    ⊎ ((get false a_key (put_batch engine (fine 5) ((a_key, 4 ∷ []) ∷ []) fresh)).1
        ≡ latest a_key ((a_key, 4 ∷ []) ∷ []) (get false a_key fresh).1)
    ⊎ (((get false a_key (put_batch engine (fine 5) ((a_key, 4 ∷ []) ∷ []) fresh)).1 ≡ none)
        × ((db : Database) × (write_batch engine (fine 5) ((a_key, 4 ∷ []) ∷ []) [] fresh.database
              ≡ some db)
            × (looks_at_quota engine ((a_key, 4 ∷ []) ∷ []) db 100 ≡ true)))
get-put_batch_example =
    get-put_batch engine (fine 5) a_key ((a_key, 4 ∷ []) ∷ []) fresh fresh-IsPaired
