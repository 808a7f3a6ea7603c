-- ===== src/SearchCache/Coherence.antt =====
-- What crates/mesh-core/src/search_cache.rs serves after any history of calls, and its bound.
use causalmesh.Prelude.{
  ℕ, ◌≤◌, leb, if◌then◌else◌, none, false, ◌≡◌, refl, some, List, [], ◌∷◌, length, arith,
}
use causalmesh.Prelude.Assoc.{lookup, lookup-insert, length-insert}
use causalmesh.SearchCache.{
  SearchCache, SearchCacheKey, CachedSearch, key_eq, key_beq_iff, get, insert, max_entries,
}
use causalmesh.SearchCache.History.{Call, get_call, insert_call, run, latest, newest}

record Tracks (c : SearchCache) (h : List Call) : Type 0 where
  alive : c.poisoned ≡ false
  generation : c.inner.generation ≡ newest h
  bounded : length c.inner.entries ≤ max_entries
  held :
      (k : SearchCacheKey) (v : CachedSearch)
      → lookup k c.inner.entries ≡ some v
      → latest c.inner.generation k h ≡ some v

Tracks-get :
    (g : ℕ) (k : SearchCacheKey) (c : SearchCache) (h : List Call)
    → Tracks c h
    → Tracks (get g k c).0 (get_call g k ∷ h)
unfolding get latest newest
Tracks-get g k c h t = record {
  alive = ground (arith, t.alive);
  generation = ground arith;
  bounded = ground arith;
  held = λ j v. ground (arith, t.held j v);
}

Tracks-insert :
    (g : ℕ) (k : SearchCacheKey) (w : CachedSearch) (c : SearchCache) (h : List Call)
    → Tracks c h
    → Tracks (insert g k w c) (insert_call g k w ∷ h)
unfolding insert latest newest
Tracks-insert g k w c h t = record {
  alive = ground (arith, t.alive);
  generation = ground arith;
  bounded = ground (arith, length-insert k w c.inner.entries);
  held = λ j v. ground (arith, t.held j v, lookup-insert k j w c.inner.entries, key_beq_iff k j);
}

run-Tracks : (h : List Call) → Tracks (run h) h
unfolding run newest
run-Tracks [] = record {
  alive = refl;
  generation = refl;
  bounded = omega arith;
  held = λ k v p. ground arith;
}
run-Tracks (get_call g k ∷ h) = Tracks-get g k (run h) h (run-Tracks h)
run-Tracks (insert_call g k w ∷ h) = Tracks-insert g k w (run h) h (run-Tracks h)

-- After any history of calls from the empty cache, a page that `get` returns is the one last
-- inserted for that key at exactly the generation asked for, and that generation is the newest
-- that any call has named.
pub get-run_coherent :
    (h : List Call) (g : ℕ) (k : SearchCacheKey) (v : CachedSearch)
    → (get g k (run h)).1 ≡ some v
    → (latest g k h ≡ some v) × (g ≡ newest h)
unfolding get
get-run_coherent h g k v p = let t = run-Tracks h in ground (arith, t.held k v, t.generation)

-- After any history of calls from the empty cache, it holds at most 256 pages.
length-run-le : (h : List Call) → length (run h).inner.entries ≤ max_entries
length-run-le h = (run-Tracks h).bounded

-- After any history, a page inserted at a generation that is not older than every earlier call's
-- is what `get` then returns for it; of one inserted at an older generation `get` returns nothing.
pub get-insert-run :
    (h : List Call) (g : ℕ) (k : SearchCacheKey) (v : CachedSearch)
    → (get g k (insert g k v (run h))).1 ≡ (if leb (newest h) g then some v else none)
unfolding get insert
get-insert-run h g k v =
    let t = run-Tracks h in
    ground (
      arith,
      t.generation,
      t.alive,
      lookup-insert k k v (run h).inner.entries,
      lookup-insert k k v [],
      key_beq_iff k k,
    )
