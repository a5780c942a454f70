-- ===== src/TablxCache/Entries.antt =====
-- The contract of the cache: entries, the last used first.
use fast_gdb.Base.{
  ℕ, ◌+◌, ◌≡◌, inl, inr, refl, ap, subst, Bool, true, false, ◌&&◌, List, [], ◌∷◌, Option, none,
  some, arith, ◌==◌, Bool-cases, if◌then◌else◌,
}
use fast_gdb.Base.Int.{ℤ, pos, negsuc}
use fast_gdb.TablxCache.{int_eq, TablxCacheKey, same_key, TablxCacheValue, value_size}

abbrev pub Entry : Type 0
Entry = TablxCacheKey × TablxCacheValue

abbrev pub keys : List Entry → List TablxCacheKey
keys [] = []
keys ((k, v) ∷ es) = k ∷ keys es

abbrev pub total : List Entry → ℕ
total [] = 0
total ((k, v) ∷ es) = value_size v + total es

abbrev pub lookup : List Entry → TablxCacheKey → Option TablxCacheValue
lookup [] key = none
lookup ((k, v) ∷ es) key = if same_key k key then some v else lookup es key

unfoldable pub without : TablxCacheKey → List Entry → List Entry
without key [] = []
without key ((k, v) ∷ es) =
    let rest = without key es in if same_key key k then es else (k, v) ∷ rest

-- No key twice.
abbrev pub IsDistinct : List Entry → Type 0
IsDistinct [] = Unit
IsDistinct ((k, v) ∷ es) = (lookup es k ≡ none) × IsDistinct es

int_eq-≡ : (a b : ℤ) → int_eq a b ≡ true → a ≡ b
int_eq-≡ (pos a) (pos b) h = ap pos (ground arith)
int_eq-≡ (pos a) (negsuc b) h = cc
int_eq-≡ (negsuc a) (pos b) h = cc
int_eq-≡ (negsuc a) (negsuc b) h = ap negsuc (ground arith)

int_eq_refl : (a : ℤ) → int_eq a a ≡ true
int_eq_refl (pos a) = ground arith
int_eq_refl (negsuc a) = ground arith

all_five :
    (a b c d e : Bool)
    → (a && b && c && d && e) ≡ true
    → (a ≡ true) × (b ≡ true) × (c ≡ true) × (d ≡ true) × (e ≡ true)
all_five true true true true true h = (refl, refl, refl, refl, refl)
all_five true true true true false h = cc
all_five true true true false e h = cc
all_five true true false d e h = cc
all_five true false c d e h = cc
all_five false b c d e h = cc

nat_eq : (a b : ℕ) → (a == b) ≡ true → a ≡ b
nat_eq a b h = ground arith

nat_refl : (a : ℕ) → (a == a) ≡ true
nat_refl a = ground arith

pub same_key_refl : (k : TablxCacheKey) → same_key k k ≡ true
unfolding same_key
same_key_refl k =
    rw
      (
        nat_refl k.device,
        nat_refl k.inode,
        nat_refl k.file_size,
        int_eq_refl k.mtime,
        int_eq_refl k.mtime_nsec,
      )
      refl

key_path :
    (k k' : TablxCacheKey)
    → k.device ≡ k'.device
    → k.inode ≡ k'.inode
    → k.file_size ≡ k'.file_size
    → k.mtime ≡ k'.mtime
    → k.mtime_nsec ≡ k'.mtime_nsec
    → k ≡ k'
key_path k k' a b c d e = cc

pub same_key-≡ : (k k' : TablxCacheKey) → same_key k k' ≡ true → k ≡ k'
unfolding same_key
same_key-≡ k k' h =
    let (a, b, c, d, e) =
      all_five (k.device == k'.device) (k.inode == k'.inode) (k.file_size == k'.file_size)
        (int_eq k.mtime k'.mtime) (int_eq k.mtime_nsec k'.mtime_nsec) h in
    key_path k k' (nat_eq k.device k'.device a) (nat_eq k.inode k'.inode b)
      (nat_eq k.file_size k'.file_size c) (int_eq-≡ k.mtime k'.mtime d)
      (int_eq-≡ k.mtime_nsec k'.mtime_nsec e)

pub same_key-sym : (k k' : TablxCacheKey) → same_key k k' ≡ true → same_key k' k ≡ true
same_key-sym k k' h = subst (λ t. same_key t k ≡ true) (same_key-≡ k k' h) (same_key_refl k)

pub same_key-sym_false : (k k' : TablxCacheKey) → same_key k k' ≡ false → same_key k' k ≡ false
same_key-sym_false k k' h = elim (Bool-cases (same_key k' k)) [
  | inl e ↦ let e' = same_key-sym k' k e in cc
  | inr e ↦ e
]

pub lookup-same :
    (es : List Entry) (k k' : TablxCacheKey) → same_key k k' ≡ true → lookup es k ≡ lookup es k'
lookup-same es k k' h = ap (lookup es) (same_key-≡ k k' h)
