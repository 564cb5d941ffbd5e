-- ===== src/Tests/LruCache.antt =====
-- c++11/LRUCache.cpp with the capacity 2, as in its `test`.
use learning_cpp.Prelude.{◌≡◌, refl, none, some, List, [], ◌∷◌}
use learning_cpp.LruCache.{LruCache, new_cache}
use learning_cpp.LruCache.Refines.{entries, put_entry, get_entry, lookup, without, drop_last}
use learning_cpp.LruCache.Runs.{Call, run, run_entries, run-new_cache}

abbrev calls : List Call
calls =
    Call.puts 1 1
    ∷ Call.puts 2 2
    ∷ Call.gets 1
    ∷ Call.puts 3 3
    ∷ Call.gets 2
    ∷ Call.puts 4 4
    ∷ Call.gets 1
    ∷ Call.gets 3
    ∷ Call.gets 4
    ∷ []

run_entries-calls : (run_entries 2 calls []).0 ≡ some 1 ∷ none ∷ none ∷ some 3 ∷ some 4 ∷ []
unfolding run_entries put_entry get_entry lookup without drop_last
run_entries-calls = refl

run-new_cache_example :
    (c : LruCache) × ((run calls (new_cache 2) ≡ some ((run_entries 2 calls []).0, c))
      × (entries c ≡ (run_entries 2 calls []).1))
run-new_cache_example = run-new_cache 2 calls
