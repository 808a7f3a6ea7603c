-- ===== src/SearchCache/History.antt =====
-- Histories of calls of crates/mesh-core/src/search_cache.rs, and what an unbounded cache that
-- forgets nothing would hold after them.
use causalmesh.Prelude.{
  ℕ, ◌&&◌, Option, none, some, List, [], ◌∷◌, if◌then◌else◌, nat_beq, ◌==◌, max,
}
use causalmesh.SearchCache.{SearchCache, SearchCacheKey, CachedSearch, key_eq, empty, get, insert}

pub data Call : Type 0 where
  get_call : ℕ → SearchCacheKey → Call
  insert_call : ℕ → SearchCacheKey → CachedSearch → Call

unfoldable pub step : Call → SearchCache → SearchCache
step (get_call g k) cache = (get g k cache).0
step (insert_call g k v) cache = insert g k v cache

-- The cache after a history, whose newest call stands first.
unfoldable pub run : List Call → SearchCache
unfolding step
run [] = empty
run (call ∷ older) = step call (run older)

-- The page last inserted for the key at exactly this generation.
unfoldable pub latest : ℕ → SearchCacheKey → List Call → Option CachedSearch
latest g k [] = none
latest g k (get_call _ _ ∷ older) = latest g k older
latest g k (insert_call h j v ∷ older) = if nat_beq h g && j == k then some v else latest g k older

-- The newest generation that any call has named.
unfoldable pub newest : List Call → ℕ
newest [] = 0
newest (get_call g _ ∷ older) = max g (newest older)
newest (insert_call g _ _ ∷ older) = max g (newest older)
