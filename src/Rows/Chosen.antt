-- ===== src/Rows/Chosen.antt =====
-- `parse_row_refs` against its contract: the layout with the fewest bytes left over.
use fast_gdb.Base.{
  ℕ, zero, suc, ◌+◌, ◌*◌, ◌/◌, ◌≤◌, ◌<◌, ◌≡◌, inl, inr, sym, subst, false, List, Option, none, some,
  arith, length, take, drop, ◌==◌, refl, Bool-cases, if◌then◌else◌,
}
use fast_gdb.Fields.{FieldDescriptor, FieldRef}
use fast_gdb.Rows.{
  layout_fields, all_zero, Best, is_exact, keep_better, try_layout, present_loop, max_present,
  try_bitmap, bitmap_bytes_loop, parse_row_refs,
}
use fast_gdb.Rows.Best.{
  AtMost, Reads, keep_better-cases, keep_better-padded, fits-cases, max_present-bounds,
  bitmap_bytes_loop-covers,
}

module _ (fields : List FieldDescriptor) (nullable_count fid : ℕ) (row : List ℕ) where
  abbrev ReadsRow : ℕ → ℕ → List FieldRef → List ℕ → Type 0
  ReadsRow = Reads fields nullable_count fid row

  -- The layout kept is one that was tried.
  abbrev IsFrom : ℕ → Best → Type 0
  IsFrom k none = Unit
  IsFrom k (some (padding, refs)) =
      (bytes : ℕ) × (n : ℕ) × (rest : List ℕ) × (bytes ≤ k)
      × ReadsRow bytes n refs rest
      × (padding ≡ length rest)

  either_IsFrom :
      (limit : ℕ) (b b' : Best)
      → IsFrom limit b
      → IsFrom limit b'
      → IsFrom limit (if is_exact b then b else b')
  either_IsFrom limit b b' h h' = elim (Bool-cases (is_exact b)) [
    | inl e ↦ rw e h
    | inr e ↦ rw e h'
  ]

  keep_better-IsFrom :
      (limit k n : ℕ) (best : Best)
      → (o : Option (List FieldRef × List ℕ))
      → layout_fields n (take k row) fid fields 0 (drop k row) ≡ o
      → k ≤ limit
      → k ≤ length row
      → n ≤ nullable_count
      → n ≤ k * 8
      → IsFrom limit best
      → IsFrom limit (keep_better best o)
  unfolding keep_better
  keep_better-IsFrom limit k n best none l a b c d h = h
  keep_better-IsFrom limit k n best (some (refs, rest)) l a b c d h =
      elim (Bool-cases (all_zero rest)) [
        | inr z ↦ subst (IsFrom limit) (sym (keep_better-padded best refs rest z)) h
        | inl z ↦ elim (keep_better-cases best refs rest z) [
          | inl (e, _) ↦ subst (IsFrom limit) (sym e) h
          | inr (e, _) ↦ subst (IsFrom limit) (sym e) (
            k,
            n,
            rest,
            a,
            record { layout = l; zeros = z; inside = b; counted = c; in_bitmap = d },
            refl,
          )
        ]
      ]

  try_layout-IsFrom :
      (limit k n : ℕ) (best : Best)
      → k ≤ limit
      → k ≤ length row
      → n ≤ nullable_count
      → n ≤ k * 8
      → IsFrom limit best
      → IsFrom limit (try_layout fields nullable_count fid row k n best)
  unfolding try_layout
  try_layout-IsFrom limit k n best a b c d h = keep_better-IsFrom limit k n best _ refl a b c d h

  present_loop-IsFrom :
      (limit k n : ℕ) (best : Best)
      → k ≤ limit
      → k ≤ length row
      → n ≤ nullable_count
      → n ≤ k * 8
      → IsFrom limit best
      → IsFrom limit (present_loop fields nullable_count fid row k n best)
  unfolding present_loop
  present_loop-IsFrom limit k zero best a b c d h = try_layout-IsFrom limit k 0 best a b c d h
  present_loop-IsFrom limit k (suc n) best a b c d h =
      let h' = try_layout-IsFrom limit k (suc n) best a b c d h in
      either_IsFrom limit _ _ h'
        (present_loop-IsFrom limit k n _ a b (omega arith) (omega arith) h')

  try_bitmap-IsFrom :
      (limit k : ℕ) (best : Best)
      → k ≤ limit
      → IsFrom limit best
      → IsFrom limit (try_bitmap fields nullable_count fid row k best)
  try_bitmap-IsFrom limit k best a h = elim (fits-cases k (length row)) [
    | inl (e, b) ↦
        let (c, d, _) = max_present-bounds fields nullable_count fid row k in
        rw e
          (present_loop-IsFrom limit k (max_present fields nullable_count fid row k) best a b c d h)
    | inr (e, _) ↦ rw e h
  ]

  bitmap_bytes_loop-IsFrom :
      (limit k : ℕ) (best : Best)
      → k ≤ limit
      → IsFrom limit best
      → IsFrom limit (bitmap_bytes_loop fields nullable_count fid row k best)
  unfolding bitmap_bytes_loop
  bitmap_bytes_loop-IsFrom limit zero best a h = try_bitmap-IsFrom limit 0 best a h
  bitmap_bytes_loop-IsFrom limit (suc k) best a h =
      let h' = try_bitmap-IsFrom limit (suc k) best a h in
      either_IsFrom limit _ _ h' (bitmap_bytes_loop-IsFrom limit k _ (omega arith) h')

  -- The contract: the fields of a layout of the row with the fewest bytes left over, or that no layout reads it.
  abbrev pub IsChosen : Option (List FieldRef) → Type 0
  IsChosen none =
      (bytes n : ℕ) (refs : List FieldRef) (rest : List ℕ)
      → bytes ≤ (nullable_count + 7) / 8
      → ¬ ReadsRow bytes n refs rest
  IsChosen (some refs) =
      (bytes : ℕ) × (n : ℕ) × (rest : List ℕ) × (bytes ≤ (nullable_count + 7) / 8)
      × ReadsRow bytes n refs rest
      × ((bytes' n' : ℕ) (refs' : List FieldRef) (rest' : List ℕ)
          → bytes' ≤ (nullable_count + 7) / 8
          → ReadsRow bytes' n' refs' rest'
          → length rest ≤ length rest')

  best-IsChosen :
      (best : Best)
      → IsFrom ((nullable_count + 7) / 8) best
      → ((bytes n : ℕ) (refs : List FieldRef) (rest : List ℕ)
          → bytes ≤ (nullable_count + 7) / 8
          → ReadsRow bytes n refs rest
          → AtMost best (length rest))
      → IsChosen (elim best [ none ↦ none | some (padding, refs) ↦ some refs ])
  best-IsChosen none h low = λ bytes n refs rest b r. low bytes n refs rest b r
  best-IsChosen (some (padding, refs)) (bytes, n, rest, b, r, e) low = (
    bytes,
    n,
    rest,
    b,
    r,
    λ bytes' n' refs' rest' b' r'. omega (arith, low bytes' n' refs' rest' b' r', e),
  )

  -- For a row that is not empty, `parse_row_refs` returns the fields of a layout of the row, which has a bitmap of
  -- at most as many bytes as the nullable fields need and only zeros behind the fields, such that no such layout
  -- leaves fewer bytes over; it fails exactly where there is no such layout.
  pub parse_row_refs-IsChosen :
      0 < length row → IsChosen (parse_row_refs fields nullable_count fid row)
  unfolding parse_row_refs
  parse_row_refs-IsChosen n =
      let filled : (length row == 0) ≡ false = ground arith in
      let limit : ℕ = (nullable_count + 7) / 8 in
      rw filled (
        best-IsChosen (bitmap_bytes_loop fields nullable_count fid row limit none)
          (bitmap_bytes_loop-IsFrom limit limit none (omega arith) tt)
          (λ bytes n refs rest b r.
            bitmap_bytes_loop-covers fields nullable_count fid row limit bytes n none refs rest r
              b))
