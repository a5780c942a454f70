-- ===== src/Tests/Caches.antt =====
-- The cache of offset tables with one entry and two keys.
use fast_gdb.Base.{◌≡◌, refl, List, [], ◌∷◌, some, arith}
use fast_gdb.Base.Int.{pos}
use fast_gdb.TablxCache.{
  TablxCacheKey, same_key, TablxCacheValue, TablxCache, empty_cache, put, insert, make_room,
}
use fast_gdb.TablxCache.Entries.{Entry, lookup}
use fast_gdb.TablxCache.Without.{Models}
use fast_gdb.TablxCache.Refines.{GetOf, PutsTo, get-Models, put-Models}

abbrev first_key : TablxCacheKey
first_key = record { device = 1; inode = 2; file_size = 3; mtime = pos 4; mtime_nsec = pos 5 }

abbrev second_key : TablxCacheKey
second_key = record { device = 1; inode = 2; file_size = 3; mtime = pos 4; mtime_nsec = pos 6 }

abbrev first_value : TablxCacheValue
first_value = record { offsets = 40 ∷ 80 ∷ []; feature_count = 2 }

abbrev one_entry : List Entry
one_entry = (first_key, first_value) ∷ []

abbrev one_cache : TablxCache
one_cache = insert empty_cache first_key first_value

one_cache-Models : Models one_cache one_entry
unfolding insert
one_cache-Models = record {
  order = refl;
  entries = λ k. refl;
  counted = refl;
  bytes = refl;
  distinct = (refl, tt);
  few = omega arith;
  small = (omega arith, tt);
}

get-Models_example :
    GetOf one_cache one_entry one_cache-Models first_key (lookup one_entry first_key)
get-Models_example = get-Models one_cache one_entry one_cache-Models first_key

put-Models_example :
    PutsTo one_cache one_entry second_key (7 ∷ []) 1 (put one_cache second_key (7 ∷ []) 1)
put-Models_example = put-Models one_cache one_entry second_key (7 ∷ []) 1 one_cache-Models

put_puts_in_front :
    put one_cache second_key (7 ∷ []) 1
    ≡ some (insert one_cache second_key (record { offsets = 7 ∷ []; feature_count = 1 }))
unfolding put insert same_key make_room
put_puts_in_front = refl
