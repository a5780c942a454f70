-- ===== src/Rows/Best.antt =====
-- Which of the layouts of a row the scan chooses.
use fast_gdb.Base.{
  ℕ, zero, suc, ◌*◌, ◌≤◌, ◌<◌, ◌≡◌, ◌⊎◌, inl, inr, sym, subst, true, false, List, Option, none,
  some, arith, length, take, drop, ltb, leb, refl, Bool-cases, if◌then◌else◌,
}
use fast_gdb.Fields.{FieldDescriptor, FieldRef}
use fast_gdb.Rows.{
  layout_fields, all_zero, Best, is_exact, keep_better, try_layout, present_loop, max_present,
  try_bitmap, bitmap_bytes_loop,
}
use native.Mathlib.Decide.{dec_lt, dec_le, ℕ_discrete}

-- A layout was accepted, with at most `m` bytes left over.
abbrev pub AtMost : Best → ℕ → Type 0
AtMost none m = ⊥
AtMost (some (padding, refs)) m = padding ≤ m

is_exact-AtMost : (best : Best) (m : ℕ) → is_exact best ≡ true → AtMost best m
is_exact-AtMost none m h = cc
is_exact-AtMost (some (padding, refs)) m h = ground arith

-- The layout is kept, or what was there before is as good.
pub keep_better-cases :
    (best : Best) (refs : List FieldRef) (rest : List ℕ)
    → all_zero rest ≡ true
    → ((keep_better best (some (refs, rest)) ≡ best) × AtMost best (length rest))
      ⊎ ((keep_better best (some (refs, rest)) ≡ some (length rest, refs))
          × ((m : ℕ) → AtMost best m → length rest ≤ m))
unfolding keep_better
keep_better-cases none refs rest z = inr (rw z refl, λ m h. absurd h)
keep_better-cases (some (b, r)) refs rest z = elim (dec_le b (length rest)) [
  | yes p ↦ let e : leb b (length rest) ≡ true = ground arith in inl (rw (z, e) refl, p)
  | no p ↦
      let e : leb b (length rest) ≡ false = ground arith in inr (rw (z, e) refl, λ m h. omega arith)
]

pub keep_better-padded :
    (best : Best) (refs : List FieldRef) (rest : List ℕ)
    → all_zero rest ≡ false
    → keep_better best (some (refs, rest)) ≡ best
unfolding keep_better
keep_better-padded best refs rest z = rw z refl

keep_better-AtMost :
    (best : Best) (o : Option (List FieldRef × List ℕ)) (m : ℕ)
    → AtMost best m
    → AtMost (keep_better best o) m
unfolding keep_better
keep_better-AtMost best none m h = h
keep_better-AtMost best (some (refs, rest)) m h = elim (Bool-cases (all_zero rest)) [
  | inl z ↦ elim (keep_better-cases best refs rest z) [
    | inl (e, _) ↦ subst (λ t. AtMost t m) (sym e) h
    | inr (e, low) ↦ subst (λ t. AtMost t m) (sym e) (low m h)
  ]
  | inr z ↦ subst (λ t. AtMost t m) (sym (keep_better-padded best refs rest z)) h
]

keep_better-covers :
    (best : Best) (refs : List FieldRef) (rest : List ℕ)
    → all_zero rest ≡ true
    → AtMost (keep_better best (some (refs, rest))) (length rest)
keep_better-covers best refs rest z = elim (keep_better-cases best refs rest z) [
  | inl (e, h) ↦ subst (λ t. AtMost t (length rest)) (sym e) h
  | inr (e, _) ↦ subst (λ t. AtMost t (length rest)) (sym e) (omega arith)
]

pub fits-cases : (a b : ℕ) → ((leb a b ≡ true) × (a ≤ b)) ⊎ ((leb a b ≡ false) × (b < a))
fits-cases a b = elim (dec_le a b) [
  | yes p ↦ inl (ground arith, p)
  | no p ↦ inr (ground arith, omega arith)
]

module _ (fields : List FieldDescriptor) (nullable_count fid : ℕ) (row : List ℕ) where
  -- The fields that a layout reads: `bitmap_bytes` bytes of bitmap of which `present_bits` bits count, the fields
  -- behind them, and zeros up to the end of the row.
  pub record Reads (bitmap_bytes present_bits : ℕ) (refs : List FieldRef) (rest : List ℕ)
      : Type 0 where
    pub layout :
        layout_fields present_bits (take bitmap_bytes row) fid fields 0 (drop bitmap_bytes row)
        ≡ some (refs, rest)
    pub zeros : all_zero rest ≡ true
    pub inside : bitmap_bytes ≤ length row
    pub counted : present_bits ≤ nullable_count
    pub in_bitmap : present_bits ≤ bitmap_bytes * 8

  abbrev try : ℕ → ℕ → Best → Best
  try = try_layout fields nullable_count fid row

  abbrev down : ℕ → ℕ → Best → Best
  down = present_loop fields nullable_count fid row

  try-AtMost : (k n m : ℕ) (best : Best) → AtMost best m → AtMost (try k n best) m
  unfolding try_layout
  try-AtMost k n m best h = keep_better-AtMost best _ m h

  try-covers :
      (k n : ℕ) (best : Best) (refs : List FieldRef) (rest : List ℕ)
      → Reads k n refs rest
      → AtMost (try k n best) (length rest)
  unfolding try_layout
  try-covers k n best refs rest r =
      subst (λ t. AtMost (keep_better best t) (length rest)) (sym r.layout)
        (keep_better-covers best refs rest r.zeros)

  -- A loop that stops at an exact layout.
  stop_early : (b b' : Best) (m : ℕ) → AtMost b' m → AtMost (if is_exact b then b else b') m
  stop_early b b' m h = elim (Bool-cases (is_exact b)) [
    | inl e ↦ rw e (is_exact-AtMost b m e)
    | inr e ↦ rw e h
  ]

  present_loop-AtMost : (k n m : ℕ) (best : Best) → AtMost best m → AtMost (down k n best) m
  unfolding present_loop
  present_loop-AtMost k zero m best h = try-AtMost k zero m best h
  present_loop-AtMost k (suc n) m best h =
      stop_early (try k (suc n) best) _ m
        (present_loop-AtMost k n m (try k (suc n) best) (try-AtMost k (suc n) m best h))

  present_loop-covers :
      (k n present : ℕ) (best : Best) (refs : List FieldRef) (rest : List ℕ)
      → Reads k present refs rest
      → present ≤ n
      → AtMost (down k n best) (length rest)
  unfolding present_loop
  present_loop-covers k zero present best refs rest r h =
      let e : present ≡ 0 = omega arith in
      subst (λ t. AtMost (try k t best) (length rest)) e (try-covers k present best refs rest r)
  present_loop-covers k (suc n) present best refs rest r h =
      stop_early (try k (suc n) best) _ (length rest) (elim (ℕ_discrete present (suc n)) [
        | yes e ↦ present_loop-AtMost k n (length rest) (try k (suc n) best) (
            subst (λ t. AtMost (try k t best) (length rest)) e
              (try-covers k present best refs rest r))
        | no e ↦ present_loop-covers k n present (try k (suc n) best) refs rest r (omega arith)
      ])

  abbrev at_bytes : ℕ → Best → Best
  at_bytes = try_bitmap fields nullable_count fid row

  abbrev from_bytes : ℕ → Best → Best
  from_bytes = bitmap_bytes_loop fields nullable_count fid row

  pub max_present-bounds :
      (k : ℕ)
      → (max_present fields nullable_count fid row k ≤ nullable_count)
        × (max_present fields nullable_count fid row k ≤ k * 8)
        × ((n : ℕ)
            → n ≤ nullable_count
            → n ≤ k * 8
            → n ≤ max_present fields nullable_count fid row k)
  max_present-bounds k = elim (dec_lt (k * 8) nullable_count) [
    | yes p ↦
        let e : ltb (k * 8) nullable_count ≡ true = ground arith in
        rw e (omega arith, omega arith, λ n a b. b)
    | no p ↦
        let e : ltb (k * 8) nullable_count ≡ false = ground arith in
        rw e (omega arith, omega arith, λ n a b. a)
  ]

  try_bitmap-AtMost : (k m : ℕ) (best : Best) → AtMost best m → AtMost (at_bytes k best) m
  try_bitmap-AtMost k m best h = elim (fits-cases k (length row)) [
    | inl (e, _) ↦
        rw e (present_loop-AtMost k (max_present fields nullable_count fid row k) m best h)
    | inr (e, _) ↦ rw e h
  ]

  try_bitmap-covers :
      (k n : ℕ) (best : Best) (refs : List FieldRef) (rest : List ℕ)
      → Reads k n refs rest
      → AtMost (at_bytes k best) (length rest)
  try_bitmap-covers k n best refs rest r =
      let e : leb k (length row) ≡ true = ground (arith, r.inside) in
      rw e (
        present_loop-covers k (max_present fields nullable_count fid row k) n best refs rest r
          ((max_present-bounds k).2 n r.counted r.in_bitmap))

  bitmap_bytes_loop-AtMost : (k m : ℕ) (best : Best) → AtMost best m → AtMost (from_bytes k best) m
  unfolding bitmap_bytes_loop
  bitmap_bytes_loop-AtMost zero m best h = try_bitmap-AtMost 0 m best h
  bitmap_bytes_loop-AtMost (suc k) m best h =
      stop_early (at_bytes (suc k) best) _ m
        (bitmap_bytes_loop-AtMost k m (at_bytes (suc k) best) (try_bitmap-AtMost (suc k) m best h))

  pub bitmap_bytes_loop-covers :
      (k bytes n : ℕ) (best : Best) (refs : List FieldRef) (rest : List ℕ)
      → Reads bytes n refs rest
      → bytes ≤ k
      → AtMost (from_bytes k best) (length rest)
  unfolding bitmap_bytes_loop
  bitmap_bytes_loop-covers zero bytes n best refs rest r h =
      let e : bytes ≡ 0 = omega arith in
      subst (λ t. AtMost (at_bytes t best) (length rest)) e
        (try_bitmap-covers bytes n best refs rest r)
  bitmap_bytes_loop-covers (suc k) bytes n best refs rest r h =
      stop_early (at_bytes (suc k) best) _ (length rest) (elim (ℕ_discrete bytes (suc k)) [
        | yes e ↦ bitmap_bytes_loop-AtMost k (length rest) (at_bytes (suc k) best) (
            subst (λ t. AtMost (at_bytes t best) (length rest)) e
              (try_bitmap-covers bytes n best refs rest r))
        | no e ↦
            bitmap_bytes_loop-covers k bytes n (at_bytes (suc k) best) refs rest r (omega arith)
      ])
