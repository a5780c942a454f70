-- ===== src/AttributeIndex/Safe.antt =====
-- That `query_direct` stays inside the file and comes to an end.
use fast_gdb.Base.{
  ℕ, zero, suc, ◌+◌, ◌-◌, ◌*◌, ◌≤◌, ◌<◌, ◌≡◌, ◌⊎◌, refl, sym, ◌∙◌, Bool, true, false, ◌||◌, List,
  [], ◌∷◌, Option, none, some, ltb, ◌==◌, arith, if◌then◌else◌, length, take, drop, get_or, set,
  Bool-cases, inl, inr, All, All-append,
}
use native.Mathlib.Nat.{mul-le-mul_right}
use fast_gdb.BinaryReader.Bounds.{le_value}
use fast_gdb.Where.{Doubles}
use fast_gdb.Where.Row.{order_matches}
use fast_gdb.AttributeIndex.{BPlusTreeTrailer, page_size, trailer_size, max_per_page}
use fast_gdb.Base.Options.{none_some, unsome}
use fast_gdb.AttributeIndex.Direct.{
  Answer, refused, thrown, undefined, out_of_fuel, answered, refuse_if, ◌>>=◌, ◌>>◌, bytes_at,
  read_u32, page_offset_for, Query, compare_stored, decode_numeric, leaf_loop, descend, scan_loop,
  replicate,
}

-- An answer that is refused, or is a value of which `P` holds.
abbrev pub Ensures {ℓ} : {A : Type ℓ} → (A → Type 0) → Answer A → Type 0
Ensures P refused = Unit
Ensures P thrown = ⊥
Ensures P undefined = ⊥
Ensures P out_of_fuel = ⊥
Ensures P (answered a) = P a

pub Ensures->>= {ℓ κ} :
    {A : Type ℓ} {B : Type κ} (P : A → Type 0) (Q : B → Type 0) (m : Answer A) (f : A → Answer B)
    → Ensures P m
    → ((a : A) → P a → Ensures Q (f a))
    → Ensures Q (m >>= f)
Ensures->>= P Q refused f h k = tt
Ensures->>= P Q thrown f h k = elim h [ ]
Ensures->>= P Q undefined f h k = elim h [ ]
Ensures->>= P Q out_of_fuel f h k = elim h [ ]
Ensures->>= P Q (answered a) f h k = k a h

pub Ensures-map {ℓ} :
    {A : Type ℓ} (P Q : A → Type 0) (m : Answer A)
    → Ensures P m
    → ((a : A) → P a → Q a)
    → Ensures Q m
Ensures-map P Q refused h k = tt
Ensures-map P Q thrown h k = elim h [ ]
Ensures-map P Q undefined h k = elim h [ ]
Ensures-map P Q out_of_fuel h k = elim h [ ]
Ensures-map P Q (answered a) h k = k a h

pub Ensures-refuse_if {ℓ} :
    {B : Type ℓ} (Q : B → Type 0) (b : Bool) (m : Answer B)
    → (b ≡ false → Ensures Q m)
    → Ensures Q (refuse_if b >> m)
unfolding refuse_if
Ensures-refuse_if Q true m k = tt
Ensures-refuse_if Q false m k = k refl

pub Ensures-some {ℓ} :
    {A : Type 0} {B : Type ℓ} (Q : B → Type 0) (o : Option A) (f : A → Answer B)
    → ((a : A) → o ≡ some a → Ensures Q (f a))
    → Ensures Q (elim o as (λ _. Answer B) [ none ↦ refused | some a ↦ f a ])
Ensures-some Q none f k = tt
Ensures-some Q (some a) f k = k a refl

abbrev pub Any {ℓ} : {A : Type ℓ} → A → Type 0
Any _ = Unit

pub read_u32-Ensures :
    (file : List ℕ) (at : ℕ) → at + 4 ≤ length file → Ensures Any (read_u32 file at)
unfolding read_u32 bytes_at
read_u32-Ensures file at h =
    let inside : ltb (length file) (at + 4) ≡ false = ground arith in rw inside tt

pub bytes_at-Ensures :
    (file : List ℕ) (at n : ℕ) → at + n ≤ length file → Ensures Any (bytes_at file at n)
unfolding bytes_at
bytes_at-Ensures file at n h =
    let inside : ltb (length file) (at + n) ≡ false = ground arith in rw inside tt

pub read_u32_lem :
    (file : List ℕ) (at : ℕ)
    → at + 4 ≤ length file
    → read_u32 file at ≡ answered (le_value (take 4 (drop at file)))
unfolding read_u32 bytes_at
read_u32_lem file at h =
    let inside : ltb (length file) (at + 4) ≡ false = ground arith in rw inside refl

pub bytes_at_lem :
    (file : List ℕ) (at n : ℕ)
    → at + n ≤ length file
    → bytes_at file at n ≡ answered (take n (drop at file))
unfolding bytes_at
bytes_at_lem file at n h =
    let inside : ltb (length file) (at + n) ≡ false = ground arith in rw inside refl

-- The pages are whole in the file, and the entries of a page are inside it.
pub record Fits (file : List ℕ) (t : BPlusTreeTrailer) (page_count : ℕ) : Type 0 where
  pub pages : page_count * page_size + trailer_size ≤ length file
  pub entries :
      12 + max_per_page t.value_size * 4 + max_per_page t.value_size * t.value_size ≤ page_size

pub page_offset_for_lem :
    (page_id page_count page : ℕ)
    → page_offset_for page_id page_count ≡ some page
    → (0 < page_id)
      × (page_id ≤ page_count)
      × (page ≡ (page_id - 1) * page_size)
      × (page + page_size ≤ page_count * page_size)
unfolding page_offset_for
page_offset_for_lem page_id page_count page e =
    elim (Bool-cases (page_id == 0 || ltb page_count page_id)) [
      | inl b ↦ none_some (rw b at e)
      | inr b ↦
          let offset : (page_id - 1) * page_size ≡ page = unsome (rw b at e) in
          (ground arith, ground arith, sym offset, ground (arith, offset))
    ]

pub Option-cases : {A : Type 0} (o : Option A) → (o ≡ none) ⊎ ((a : A) × (o ≡ some a))
Option-cases none = inl refl
Option-cases (some a) = inr (a, refl)

-- A page is visited: `free` counts the pages that are not.
abbrev pub free : List Bool → ℕ
free [] = 0
free (b ∷ bs) = if b then free bs else suc (free bs)

pub free-set :
    (visited : List Bool) (i : ℕ)
    → get_or visited i true ≡ false
    → suc (free (set visited i true)) ≡ free visited
free-set [] i h = absurd (cc)
free-set (b ∷ visited) zero h = ground arith
free-set (b ∷ visited) (suc i) h = let rest = free-set visited i h in ground arith

pub free_some : (visited : List Bool) (i : ℕ) → get_or visited i true ≡ false → 0 < free visited
free_some visited i h = omega (arith, free-set visited i h)

pub get_or-set :
    (visited : List Bool) (i : ℕ)
    → 0 < i
    → get_or (set visited i true) 0 true ≡ get_or visited 0 true
get_or-set [] i h = refl
get_or-set (b ∷ visited) zero h = absurd (omega arith)
get_or-set (b ∷ visited) (suc i) h = refl

pub free-replicate : (n : ℕ) → free (replicate n false) ≡ n
free-replicate zero = refl
free-replicate (suc n) = omega (arith, free-replicate n)

-- What the pages visited leave: page 0 is not one of them, and `fuel` are enough for the others.
pub record Visits (visited : List Bool) (fuel : ℕ) : Type 0 where
  pub outside : get_or visited 0 true ≡ false
  pub enough : free visited ≤ fuel

pub Visits-set :
    (visited : List Bool) (fuel page_id : ℕ)
    → 0 < page_id
    → get_or visited page_id true ≡ false
    → Visits visited (suc fuel)
    → Visits (set visited page_id true) fuel
Visits-set visited fuel page_id p g v = record {
  outside = get_or-set visited page_id p ∙ v.outside;
  enough = omega (arith, free-set visited page_id g, v.enough);
}

pub Visits-suc : (visited : List Bool) (fuel : ℕ) → Visits visited fuel → Visits visited (suc fuel)
Visits-suc visited fuel v = record { outside = v.outside; enough = omega (arith, v.enough) }

-- A number below the bound of a query that has one.
abbrev pub Below : (D : Doubles) (nan : D.Double) → Query D nan → ℕ → Type 0
Below D nan q fid = 0 < q.max_fid_count → fid < q.max_fid_count

module _ (D : Doubles) (nan : D.Double) (file : List ℕ) (t : BPlusTreeTrailer) (page_count : ℕ)
    (w : Fits file t page_count) where
  pub value_inside :
      (page rounds index : ℕ)
      → page + page_size ≤ length file
      → suc (rounds + index) ≤ max_per_page t.value_size
      → page + (12 + max_per_page t.value_size * 4) + index * t.value_size + t.value_size
        ≤ length file
  value_inside page rounds index p h =
      let below : suc index ≤ max_per_page t.value_size = omega arith in
      omega (arith, w.entries, mul-le-mul_right t.value_size below)

  compare_stored-Ensures :
      (q : Query D nan) (value_bytes : List ℕ) (fid : ℕ)
      → Ensures (λ _. Unit) (compare_stored D nan t q value_bytes fid)
  unfolding compare_stored
  compare_stored-Ensures q value_bytes fid = elim (Bool-cases q.is_text) [
    | inl e ↦ rw e tt
    | inr e ↦ elim (Option-cases (decode_numeric D nan value_bytes t.value_size)) [
      | inl d ↦ rw (e, d) tt
      | inr (v, d) ↦ rw (e, d) tt
    ]
  ]

  leaf_loop-Ensures :
      (q : Query D nan) (page rounds index : ℕ)
      → page + page_size ≤ length file
      → rounds + index ≤ max_per_page t.value_size
      → Ensures (λ fids. All (Below D nan q) fids) (leaf_loop D nan file t q page rounds index)
  unfolding leaf_loop
  leaf_loop-Ensures q page zero index p h = tt
  leaf_loop-Ensures q page (suc rounds) index p h =
      Ensures->>= Any _ (read_u32 file (page + 12 + index * 4)) _
        (read_u32-Ensures file (page + 12 + index * 4) (omega (arith, w.entries)))
        (λ fid _. Ensures-refuse_if _ _ _ (λ g.
          Ensures->>= Any _ (bytes_at file _ _) _
            (bytes_at-Ensures file _ _ (value_inside page rounds index p (omega arith)))
            (λ value_bytes _.
              Ensures->>= Any _ (compare_stored D nan t q value_bytes fid) _
                (compare_stored-Ensures q value_bytes fid)
                (λ comparison _.
                  Ensures->>= (λ fids. All (Below D nan q) fids) _
                    (leaf_loop D nan file t q page rounds (index + 1)) _
                    (leaf_loop-Ensures q page rounds (index + 1) p (omega arith))
                    (λ candidates below. elim (Bool-cases (order_matches comparison q.op)) [
                      | inl m ↦ rw m ((λ bounded. ground arith), below)
                      | inr m ↦ rw m below
                    ])))))

  pub descend-Ensures :
      (levels page_id : ℕ) (visited : List Bool) (fuel : ℕ)
      → Visits visited fuel
      → Ensures (λ leaf. Visits leaf.1 fuel) (descend file t page_count levels page_id visited)
  unfolding descend
  descend-Ensures zero page_id visited fuel v = v
  descend-Ensures (suc levels) page_id visited fuel v =
      Ensures-some (λ leaf. Visits leaf.1 fuel) (page_offset_for page_id page_count) _
        (λ page e.
          let (p, k, o, inside) = page_offset_for_lem page_id page_count page e in
          Ensures-refuse_if _ _ _ (λ g.
            Ensures->>= Any _ (read_u32 file (page + 4)) _
              (read_u32-Ensures file (page + 4) (omega (arith, w.pages)))
              (λ entry_count _. Ensures-refuse_if _ _ _ (λ _.
                Ensures->>= Any _ (read_u32 file (page + 8)) _
                  (read_u32-Ensures file (page + 8) (omega (arith, w.pages)))
                  (λ first_child _. Ensures-refuse_if _ _ _ (λ _.
                    descend-Ensures levels first_child (set visited page_id true) fuel
                      (Visits-set visited fuel page_id p g (Visits-suc visited fuel v))))))))

  pub scan_loop-Ensures :
      (q : Query D nan) (fuel page_id : ℕ) (visited : List Bool) (seen : ℕ)
      → Visits visited fuel
      → Ensures
          (λ found. All (Below D nan q) found.0)
          (scan_loop D nan file t q page_count fuel page_id visited seen)
  unfolding scan_loop
  scan_loop-Ensures q zero page_id visited seen v =
      absurd (omega (arith, free_some visited 0 v.outside, v.enough))
  scan_loop-Ensures q (suc fuel) page_id visited seen v = elim (Bool-cases (page_id == 0)) [
    | inl z ↦ rw (Ensures, z) tt
    | inr z ↦ rw z (
        Ensures-some (λ found. All (Below D nan q) found.0) (page_offset_for page_id page_count) _
          (λ page e.
            let (p, k, o, inside) = page_offset_for_lem page_id page_count page e in
            Ensures-refuse_if _ _ _ (λ g.
              Ensures->>= Any _ (read_u32 file page) _
                (read_u32-Ensures file page (omega (arith, w.pages)))
                (λ next_page_id _.
                  Ensures->>= Any _ (read_u32 file (page + 4)) _
                    (read_u32-Ensures file (page + 4) (omega (arith, w.pages)))
                    (λ entry_count _. Ensures-refuse_if _ _ _ (λ fits. Ensures-refuse_if _ _ _ (λ _.
                      Ensures->>= (λ fids. All (Below D nan q) fids) _
                        (leaf_loop D nan file t q page entry_count 0) _
                        (leaf_loop-Ensures q page entry_count 0 (omega (arith, w.pages))
                          (ground arith))
                        (λ here below.
                          Ensures->>= (λ found. All (Below D nan q) found.0) _
                            (scan_loop D nan file t q page_count fuel next_page_id
                              (set visited page_id true) (seen + entry_count))
                            _
                            (scan_loop-Ensures q fuel next_page_id (set visited page_id true)
                              (seen + entry_count) (Visits-set visited fuel page_id p g v))
                            (λ more others.
                              All-append (Below D nan q) here more.0 below others)))))))))
  ]
