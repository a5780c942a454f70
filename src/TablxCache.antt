-- ===== src/TablxCache.antt =====
-- reader/format/gdb_tablx_cache.h and .cpp of src/edgar/explorgdb: the cache of offset tables in a process. Each
-- function is what a method does under the mutex.
pub mod Entries
pub mod Without
pub mod Loop
pub mod Refines
use fast_gdb.Base.{
  ℕ, zero, suc, ◌+◌, ◌-◌, ◌*◌, ◌/◌, ◌%◌, ◌^◌, Bool, true, false, ◌&&◌, ◌||◌, List, [], ◌∷◌, Option,
  none, some, ltb, leb, ◌==◌, if◌then◌else◌, length,
}
use fast_gdb.Base.Int.{ℤ, pos, negsuc}

abbrev pub int_eq : ℤ → ℤ → Bool
int_eq (pos a) (pos b) = a == b
int_eq (pos a) (negsuc b) = false
int_eq (negsuc a) (pos b) = false
int_eq (negsuc a) (negsuc b) = a == b

pub record TablxCacheKey : Type 0 where
  pub device : ℕ
  pub inode : ℕ
  pub file_size : ℕ
  pub mtime : ℤ
  pub mtime_nsec : ℤ

-- `operator==`
unfoldable pub same_key : TablxCacheKey → TablxCacheKey → Bool
same_key k other =
    k.device == other.device
    && k.inode == other.inode
    && k.file_size == other.file_size
    && int_eq k.mtime other.mtime
    && int_eq k.mtime_nsec other.mtime_nsec

pub record TablxCacheValue : Type 0 where
  pub offsets : List ℕ
  pub feature_count : ℕ

abbrev pub max_entries : ℕ
max_entries = 16

abbrev pub max_bytes : ℕ
max_bytes = 256 * 1024 * 1024

-- `cache_.find`, with `cache_.size()`. The iterator of an entry into `lru_list_` is the place of its key there.
pub record TablxCache : Type 0 where
  pub lru_list_ : List TablxCacheKey
  pub find : TablxCacheKey → Option TablxCacheValue
  pub count : ℕ
  pub cached_bytes_ : ℕ

abbrev pub empty_cache : TablxCache
empty_cache = record { lru_list_ = []; find = λ _. none; count = 0; cached_bytes_ = 0 }

abbrev pub value_size : TablxCacheValue → ℕ
value_size v = length v.offsets * 8

unfoldable pub remove_key : TablxCacheKey → List TablxCacheKey → List TablxCacheKey
remove_key key [] = []
remove_key key (k ∷ ks) = let rest = remove_key key ks in if same_key key k then ks else k ∷ rest

-- `lru_list_.splice(lru_list_.begin(), lru_list_, it)`
abbrev pub to_front : TablxCacheKey → List TablxCacheKey → List TablxCacheKey
to_front key keys = key ∷ remove_key key keys

abbrev pub assign :
    (TablxCacheKey → Option TablxCacheValue)
    → TablxCacheKey
    → Option TablxCacheValue
    → TablxCacheKey
    → Option TablxCacheValue
assign m key v k = if same_key key k then v else m k

unfoldable pub get : TablxCache → TablxCacheKey → Option TablxCacheValue × TablxCache
get c key = elim (c.find key) [
  | none ↦ (none, c)
  | some v ↦ (some v, record c { lru_list_ = to_front key c.lru_list_ })
]

-- `lru_list_.back()` with the list that `pop_back` leaves; of an empty list they are undefined.
unfoldable pub pop_back : List TablxCacheKey → Option (TablxCacheKey × List TablxCacheKey)
pop_back [] = none
pop_back (k ∷ ks) = elim (pop_back ks) [
  | none ↦ some (k, [])
  | some (last, rest) ↦ some (last, k ∷ rest)
]

-- One round: the oldest entry goes.
unfoldable pub evict_oldest : TablxCache → Option TablxCache
evict_oldest c = elim (pop_back c.lru_list_) [
  | none ↦ none
  | some (oldest, keys) ↦ some (elim (c.find oldest) [
    | none ↦ record c { lru_list_ = keys }
    | some v ↦ record {
      lru_list_ = keys;
      find = assign c.find oldest none;
      count = c.count - 1;
      cached_bytes_ = (c.cached_bytes_ + 2 ^ 64 - value_size v) % 2 ^ 64;
    }
  ])
]

abbrev pub is_over : TablxCache → ℕ → Bool
is_over c value_bytes =
    ltb 0 c.count && (leb max_entries c.count || ltb (max_bytes - value_bytes) c.cached_bytes_)

-- The loop, with as many rounds as fuel; `none` where the rounds run out, or a round is undefined.
unfoldable pub make_room : ℕ → ℕ → TablxCache → Option TablxCache
make_room zero value_bytes c = if is_over c value_bytes then none else some c
make_room (suc fuel) value_bytes c =
    let next : Option TablxCache = elim (evict_oldest c) [
      | none ↦ none
      | some c' ↦ make_room fuel value_bytes c'
    ] in
    if is_over c value_bytes then next else some c

unfoldable pub replace : TablxCache → TablxCacheKey → TablxCacheValue → TablxCacheValue → TablxCache
replace c key old value = record {
  lru_list_ = to_front key c.lru_list_;
  find = assign c.find key (some value);
  count = c.count;
  cached_bytes_ =
      ((c.cached_bytes_ + 2 ^ 64 - value_size old) % 2 ^ 64 + value_size value) % 2 ^ 64;
}

unfoldable pub insert : TablxCache → TablxCacheKey → TablxCacheValue → TablxCache
insert c key value = record {
  lru_list_ = key ∷ c.lru_list_;
  find = assign c.find key (some value);
  count = c.count + 1;
  cached_bytes_ = (c.cached_bytes_ + value_size value) % 2 ^ 64;
}

-- The loop removes a key in each round, so the length of the list is fuel enough.
unfoldable pub put : TablxCache → TablxCacheKey → List ℕ → ℕ → Option TablxCache
put c key offsets feature_count =
    let value : TablxCacheValue = record { offsets = offsets; feature_count = feature_count } in
    if ltb (max_bytes / 8) (length offsets) then some c else elim (c.find key) [
      | some old ↦ some (replace c key old value)
      | none ↦ elim (make_room (length c.lru_list_) (value_size value) c) [
        | none ↦ none
        | some c' ↦ some (insert c' key value)
      ]
    ]

abbrev pub clear : TablxCache → TablxCache
clear c = record { lru_list_ = []; find = λ _. none; count = 0; cached_bytes_ = 0 }

abbrev pub size : TablxCache → ℕ
size c = c.count
