-- ===== src/Tablx/Rows.antt =====
-- The loop of `parse` over the entries, and the rows that it finds valid.
use fast_gdb.Base.{
  ℕ, zero, suc, ◌+◌, ◌*◌, ◌%◌, ◌^◌, ◌≤◌, ◌<◌, ◌≡◌, ◌⊎◌, Bool, true, false, not, ◌||◌, refl, sym, ap,
  ap₂, subst, ◌∙◌, List, [], ◌∷◌, ◌++◌, arith, ltb, ◌==◌, if◌then◌else◌, get_or, Bool-cases, inl,
  inr,
}
use mathlib.Core.List.{append_assoc, append-nil}
use fast_gdb.BinaryReader.{ok, Reader, size}
use fast_gdb.BinaryReader.Bounds.{IsValid}
use fast_gdb.Tablx.{GdbTablxParser, read_offset, entry_loop, get_offset}
use fast_gdb.Tablx.Offset.{value_at, entry_value, read_offset-entry_value, six_entry}

-- The values of `n` entries from row `i` on.
unfoldable pub entries : Reader → ℕ → ℕ → ℕ → List ℕ
entries r width i zero = []
entries r width i (suc n) = entry_value r (i * width) width ∷ entries r width (i + 1) n

-- The rows with an offset, where the first is row `i`.
unfoldable pub rows_from : ℕ → List ℕ → List ℕ
rows_from i [] = []
rows_from i (v ∷ vs) = let rest = rows_from (i + 1) vs in if v == 0 then rest else i ∷ rest

abbrev pub contains_row : ℕ → List ℕ → Bool
contains_row fid [] = false
contains_row fid (i ∷ is) = i == fid || contains_row fid is

rows_before : (i fid : ℕ) (vs : List ℕ) → fid < i → contains_row fid (rows_from i vs) ≡ false
unfolding rows_from
rows_before i fid [] h = refl
rows_before i fid (v ∷ vs) h =
    let rest = rows_before (i + 1) fid vs (omega arith) in
    elim (Bool-cases (v == 0)) [ inl e ↦ rw e rest | inr e ↦ rw e (ground arith) ]

rows_from-get_or :
    (i k : ℕ) (vs : List ℕ) → contains_row (i + k) (rows_from i vs) ≡ not (get_or vs k 0 == 0)
unfolding rows_from
rows_from-get_or i k [] = refl
rows_from-get_or i zero (v ∷ vs) =
    let rest = rows_before (i + 1) (i + 0) vs (omega arith) in
    elim (Bool-cases (v == 0)) [ inl e ↦ ground arith | inr e ↦ ground arith ]
rows_from-get_or i (suc k) (v ∷ vs) =
    let rest = rows_from-get_or (i + 1) k vs in
    let next : i + 1 + k ≡ i + suc k = omega arith in
    elim (Bool-cases (v == 0)) [ inl e ↦ ground arith | inr e ↦ ground arith ]

-- The room that the loop needs, split at its first entry.
room-first : (p i n w s : ℕ) → p + (i + suc n) * w ≤ s → p + (i * w + w) ≤ s
room-first p i n w s h = omega arith

room-rest : (p i n w s : ℕ) → p + (i + suc n) * w ≤ s → p + (i + 1 + n) * w ≤ s
room-rest p i n w s h = let e : i + 1 + n ≡ i + suc n = omega arith in rw e h

module _ (r : Reader) (width : ℕ) (v : IsValid r)
    (w : (width ≡ 4) ⊎ (width ≡ 5) ⊎ (width ≡ 6)) where
  entry_loop_lem :
      (n i : ℕ) (offsets valid : List ℕ)
      → i + n ≤ 2 ^ 32
      → r.pos_ + (i + n) * width ≤ size r
      → entry_loop width n i offsets valid r
        ≡ (ok (offsets ++ entries r width i n, valid ++ rows_from i (entries r width i n)), r)
  unfolding entry_loop entries rows_from
  entry_loop_lem zero i offsets valid small h = rw (append-nil offsets, append-nil valid) refl
  entry_loop_lem (suc n) i offsets valid small h =
      let e : ℕ = entry_value r (i * width) width in
      let rest : List ℕ = entries r width (i + 1) n in
      let run : read_offset (i * width) width r ≡ (ok e, r) =
        read_offset-entry_value r (i * width) width v w (room-first r.pos_ i n width (size r) h) in
      let low : i % 2 ^ 32 ≡ i = omega arith in
      let more = λ (o : List ℕ) (u : List ℕ).
        entry_loop_lem n (i + 1) o u (omega arith) (room-rest r.pos_ i n width (size r) h) in
      elim (Bool-cases (e == 0)) [
        | inl z ↦
            rw (run, z)
              (more (offsets ++ (e ∷ [])) valid
                ∙ ap (λ t. (ok (t, valid ++ rows_from (i + 1) rest), r))
                    (append_assoc offsets (e ∷ []) rest))
        | inr z ↦
            rw (run, z, low)
              (more (offsets ++ (e ∷ [])) (valid ++ (i ∷ []))
                ∙ ap₂ (λ t u. (ok (t, u), r)) (append_assoc offsets (e ∷ []) rest)
                    (append_assoc valid (i ∷ []) (rows_from (i + 1) rest)))
      ]

entries-get_or :
    (r : Reader) (width i n k : ℕ)
    → get_or (entries r width i n) k 0
      ≡ (if ltb k n then entry_value r ((i + k) * width) width else 0)
unfolding entries
entries-get_or r width i zero k = ground arith
entries-get_or r width i (suc n) zero =
    let z : i + 0 ≡ i = omega arith in
    let in_range : ltb 0 (suc n) ≡ true = ground arith in rw (in_range, z) refl
entries-get_or r width i (suc n) (suc k) =
    let rest = entries-get_or r width (i + 1) n k in
    let next : i + 1 + k ≡ i + suc k = omega arith in
    let same : ltb (suc k) (suc n) ≡ ltb k n = ground arith in rw (same, sym next) rest

-- The state of a parser whose loop over `n` entries gave these offsets and valid rows.
abbrev pub with_rows : GdbTablxParser → List ℕ → List ℕ → GdbTablxParser
with_rows p offsets valid = record p { offsets = offsets; valid_offsets = valid }

-- The offset as it is read, which for six bytes is without the fifth.
get_offset-entry_value :
    (r : Reader) (width n fid : ℕ) (p : GdbTablxParser)
    → IsValid r
    → (width ≡ 4) ⊎ (width ≡ 5) ⊎ (width ≡ 6)
    → n ≤ 2 ^ 32
    → r.pos_ + n * width ≤ size r
    → (offsets : List ℕ) × (valid : List ℕ) × (entry_loop width n 0 [] [] r
        ≡ (ok (offsets, valid), r))
      × (get_offset (with_rows p offsets valid) fid
          ≡ (if ltb fid n then entry_value r (fid * width) width else 0))
      × (contains_row fid valid ≡ not (get_offset (with_rows p offsets valid) fid == 0))
unfolding get_offset
get_offset-entry_value r width n fid p v w small h =
    let all : List ℕ = entries r width 0 n in
    let start : 0 + n ≡ n = omega arith in
    let here : 0 + fid ≡ fid = omega arith in
    (
      all,
      rows_from 0 all,
      entry_loop_lem r width v w n 0 [] [] (omega arith) (rw start h),
      subst (λ k. get_or all fid 0 ≡ (if ltb fid n then entry_value r (k * width) width else 0))
          here (entries-get_or r width 0 n fid),
      subst (λ k. contains_row k (rows_from 0 all) ≡ not (get_or all fid 0 == 0)) here
          (rows_from-get_or 0 fid all),
    )

-- The value of an entry is what is read, where its fifth byte, if it has six, is 0.
entry_value-value_at :
    (r : Reader) (width n fid : ℕ)
    → IsValid r
    → (width ≡ 4) ⊎ (width ≡ 5) ⊎ (width ≡ 6)
    → r.pos_ + n * width ≤ size r
    → (width ≡ 6 → fid < n → value_at r (fid * width + 4) 1 ≡ 0)
    → (if ltb fid n then entry_value r (fid * width) width else 0)
      ≡ (if ltb fid n then value_at r (fid * width) width else 0)
entry_value-value_at r width n fid v w h fifth = elim (Bool-cases (ltb fid n)) [
  | inr out ↦ rw out
  | inl within ↦
      let below : fid < n = ground arith in
      rw within (elim w [
        | inl e ↦ rw e refl
        | inr (inl e) ↦ rw e refl
        | inr (inr e) ↦
            let last : r.pos_ + n * 6 ≤ size r = rw e at h in
            let zero_byte : value_at r (fid * 6 + 4) 1 ≡ 0 = rw e at (fifth e below) in
            rw e (six_entry r (fid * 6) v (omega arith) zero_byte)
      ])
]

-- For a width of 4, 5 or 6 bytes, a valid reader with `n` entries behind the cursor, 2 ^ 32 at most, and a row whose
-- entry, if it has six bytes, has 0 as its fifth: the loop of `parse` over the `n` entries returns; with what it returns
-- in the parser, `get_offset` gives the little-endian value of the row's entry, or 0 for a row from `n` on, and the row is
-- one of the valid ones exactly where that value is not 0.
pub entry_loop-get_offset :
    (r : Reader) (width n fid : ℕ) (p : GdbTablxParser)
    → IsValid r
    → (width ≡ 4) ⊎ (width ≡ 5) ⊎ (width ≡ 6)
    → n ≤ 2 ^ 32
    → r.pos_ + n * width ≤ size r
    → (width ≡ 6 → fid < n → value_at r (fid * width + 4) 1 ≡ 0)
    → (offsets : List ℕ) × (valid : List ℕ) × (entry_loop width n 0 [] [] r
        ≡ (ok (offsets, valid), r))
      × (get_offset (with_rows p offsets valid) fid
          ≡ (if ltb fid n then value_at r (fid * width) width else 0))
      × (contains_row fid valid
          ≡ not ((if ltb fid n then value_at r (fid * width) width else 0) == 0))
entry_loop-get_offset r width n fid p v w small h fifth =
    let (offsets, valid, run, offset, row) = get_offset-entry_value r width n fid p v w small h in
    let same = entry_value-value_at r width n fid v w h fifth in
    let exact = offset ∙ same in (offsets, valid, run, exact, row ∙ ap (λ o. not (o == 0)) exact)
