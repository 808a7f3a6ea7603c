-- ===== src/IndexCache/Ending.antt =====
-- The end of the eviction loop of the index cache.
use mathlib.Core.Path.{subst}
use causalmesh.Prelude.{
  ℕ, zero, suc, ◌+◌, ◌≤◌, ◌<◌, false, some, leb, nat_eq, list_eq, Bool-cases, ◌≡◌, refl, sym, ◌⊎◌,
  inl, inr, arith,
}
use causalmesh.Prelude.Results.{ok}
use causalmesh.IndexCache.{
  Database, PersistentIndexCache, Sqlite, Answers, QuotaOutcome, evict_round, evict, rows_of,
  eviction_target, enforce_quota,
}
use causalmesh.IndexCache.Eviction.{
  AreUnique, evict_round-AreUnique, rows_of-evict_round, evict_round-zero,
}

-- Where a loop has come to its end: within the target, or with nothing left to delete.
abbrev pub IsDone : Sqlite → ℕ → Database → Type 0
IsDone s target db = (s.live_bytes db ≤ target) ⊎ (rows_of db ≡ 0)

evict-stops :
    (s : Sqlite) (a : Answers) (fuel n target : ℕ) (db : Database) (evicted : ℕ)
    → ((n : ℕ) → a.round_fails n ≡ false)
    → ((evict s a (suc fuel) n target db evicted ≡ (db, some (ok evicted))) × IsDone s target db)
      ⊎ ((evict s a (suc fuel) n target db evicted
            ≡ evict s a fuel
                (n + 1)
                target
                (evict_round s target db).0
                (evicted + (evict_round s target db).1))
          × (1 ≤ (evict_round s target db).1))
unfolding evict
evict-stops s a fuel n target db evicted up = ground (arith, up n, evict_round-zero s target db)

evict-IsDone :
    (s : Sqlite) (a : Answers) (fuel n target : ℕ) (db : Database) (evicted : ℕ)
    → ((n : ℕ) → a.round_fails n ≡ false)
    → AreUnique db
    → rows_of db < fuel
    → ((total : ℕ) × ((evict s a fuel n target db evicted).1 ≡ some (ok total)))
      × IsDone s target (evict s a fuel n target db evicted).0
evict-IsDone s a zero n target db evicted up u l = ground arith
evict-IsDone s a (suc fuel) n target db evicted up u l =
    elim (evict-stops s a fuel n target db evicted up) [
      | inl (stop, done) ↦
          subst (λ r. ((total : ℕ) × (r.1 ≡ some (ok total))) × IsDone s target r.0) (sym stop)
            ((evicted, refl), done)
      | inr (next, some_gone) ↦
          subst (λ r. ((total : ℕ) × (r.1 ≡ some (ok total))) × IsDone s target r.0) (sym next)
            (evict-IsDone s a fuel (n + 1) target (evict_round s target db).0
              (evicted + (evict_round s target db).1) up (evict_round-AreUnique s target db u)
              (omega (arith, rows_of-evict_round s target db u)))
    ]

-- Where neither a transaction nor the vacuum fails, the enforcement of the quota ends with an outcome: it found the
-- files within the quota, or it leaves live data of at most the target or no row at all.
pub enforce_quota-IsDone :
    (s : Sqlite) (a : Answers) (cache : PersistentIndexCache)
    → ((n : ℕ) → a.round_fails n ≡ false)
    → a.vacuum_fails ≡ false
    → AreUnique cache.database
    → ((outcome : QuotaOutcome) × ((enforce_quota s a cache).1 ≡ some (ok outcome)))
      × ((s.size_bytes cache.database ≤ cache.max_size_bytes)
          ⊎ IsDone s (eviction_target cache.max_size_bytes) (enforce_quota s a cache).0.database)
unfolding enforce_quota evict
enforce_quota-IsDone s a cache up kept u =
    let run =
      evict-IsDone s a (suc (rows_of cache.database)) 0 (eviction_target cache.max_size_bytes)
        cache.database 0 up u (omega arith) in
    let ((total, e), done) = run in
    elim (Bool-cases (leb (s.size_bytes cache.database) cache.max_size_bytes)) [
      | inl within ↦ rw within ((_, refl), inl (ground arith))
      | inr over ↦ rw (over, e, kept) ((_, refl), inr done)
    ]
