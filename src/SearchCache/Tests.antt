-- ===== src/SearchCache/Tests.antt =====
-- The result cache at concrete calls.
use causalmesh.Prelude.{◌≡◌, refl, true, false, none, some, List, [], ◌∷◌, leb, if◌then◌else◌}
use causalmesh.Prelude.Text.{text}
use causalmesh.SearchCache.{SearchCacheKey, CachedSearch, key_eq, get, insert}
use causalmesh.SearchCache.History.{Call, get_call, insert_call, run, latest, newest}
use causalmesh.SearchCache.Coherence.{get-run_coherent, get-insert-run}

abbrev key : SearchCacheKey
key = record {
  query = text "orders";
  scope = [];
  raw_scope = text ".";
  include_body = false;
  fuzzy = true;
  include_tests = false;
  limit = 20;
  offset = 0;
}

abbrev page : CachedSearch
page = record { page = text "two hits"; files_accessed = []; file_stamps = [] }

abbrev history : List Call
history = get_call 3 key ∷ insert_call 2 key page ∷ insert_call 3 key page ∷ get_call 1 key ∷ []

get-run_coherent_example : (latest 3 key history ≡ some page) × (3 ≡ newest history)
unfolding get run insert
get-run_coherent_example = get-run_coherent history 3 key page refl

get-insert-run_example :
    (get 2 key (insert 2 key page (run history))).1
    ≡ (if leb (newest history) 2 then some page else none)
get-insert-run_example = get-insert-run history 2 key page
