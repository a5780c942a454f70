-- ===== src/AttributeIndex/Leaf.antt =====
-- A page as `query_direct` reads it and as `parse` reads it.
use fast_gdb.Base.{
  ℕ, zero, suc, ◌+◌, ◌-◌, ◌*◌, ◌/◌, ◌^◌, ◌≤◌, ◌<◌, ◌≡◌, refl, ap, sym, ◌∙◌, subst, Bool, true,
  false, List, [], ◌∷◌, some, ◌==◌, arith, if◌then◌else◌, length, length-drop, length-take, take,
  drop, Bool-cases, inl, inr, All, All-drop, All-take, drop-drop, take-drop-take,
}
use native.Mathlib.Nat.{mul-le-mul_right, suc-mul, zero-mul}
use fast_gdb.BinaryReader
use fast_gdb.BinaryReader.{ok}
use fast_gdb.BinaryReader.Bounds.{IsByte, le_value}
use fast_gdb.Where.{Doubles}
use fast_gdb.Where.Row.{Order, order_matches, compare_bytes}
use fast_gdb.AttributeIndex.{
  BPlusTreeTrailer, AttributeIndexEntry, page_size, max_per_page, decode_value, compare_doubles,
}
use fast_gdb.AttributeIndex.Direct.{
  answered, bytes_at, read_u32, Query, compare_stored, decode_numeric, leaf_loop,
  truncate_index_string,
}
use fast_gdb.AttributeIndex.Pages.{page_reader, parse_leaf_page, parse_nonleaf_page}
use fast_gdb.AttributeIndex.Parse.{matching, some_fid_zero, answer_of}
use fast_gdb.AttributeIndex.Safe.{
  Ensures, Ensures->>=, Ensures-refuse_if, Fits, bytes_at_lem, read_u32_lem, value_inside,
  Option-cases,
}
use fast_gdb.AttributeIndex.Reading.{
  u32_in, u32s_in, entries_in, read_u32_in, parse_leaf_page_in, parse_nonleaf_page_in,
}

-- Bytes inside a page, read in the file.
pub in_page :
    (file : List ℕ) (page k n : ℕ)
    → k + n ≤ page_size
    → take n (drop k (take page_size (drop page file))) ≡ take n (drop (page + k) file)
in_page file page k n h =
    take-drop-take n k page_size (drop page file) h ∙ ap (take n) (drop-drop k page file)

first_number :
    (b : List ℕ) (n at : ℕ) → 0 < n → u32s_in b n at ≡ u32_in b at ∷ u32s_in b (n - 1) (at + 4)
first_number b zero at h = absurd (omega arith)
first_number b (suc n) at h = let e : suc n - 1 ≡ n = omega arith in rw e refl

pub read_u32-Is :
    (file : List ℕ) (at : ℕ)
    → at + 4 ≤ length file
    → Ensures (λ v. v ≡ u32_in file at) (read_u32 file at)
read_u32-Is file at h = rw (read_u32_lem file at h) refl

bytes_at-Is :
    (file : List ℕ) (at n : ℕ)
    → at + n ≤ length file
    → Ensures (λ v. v ≡ take n (drop at file)) (bytes_at file at n)
bytes_at-Is file at n h = rw (bytes_at_lem file at n h) refl

module _ (D : Doubles) (nan : D.Double) where
  open D use {Double}

  decode_numeric-decode_value :
      (bytes : List ℕ) (value_size fid : ℕ) {v : Double}
      → decode_numeric D nan bytes value_size ≡ some v
      → (decode_value D nan bytes value_size false fid).numeric_value ≡ v
  unfolding decode_numeric decode_value
  decode_numeric-decode_value bytes value_size fid e = ground arith

  -- How an entry compares with the value that is asked for.
  abbrev pub compare_entry : BPlusTreeTrailer → Query D nan → AttributeIndexEntry Double → Order
  compare_entry t q entry =
      if q.is_text
      then compare_bytes entry.string_value (truncate_index_string q.text (t.value_size / 2))
      else compare_doubles D nan entry.numeric_value q.number

  compare_stored-Is :
      (t : BPlusTreeTrailer) (q : Query D nan) (value_bytes : List ℕ) (fid : ℕ)
      → t.is_string ≡ q.is_text
      → Ensures
          (λ o. o ≡ compare_entry t q (decode_value D nan value_bytes t.value_size t.is_string fid))
          (compare_stored D nan t q value_bytes fid)
  unfolding compare_stored
  compare_stored-Is t q value_bytes fid k = elim (Bool-cases q.is_text) [
    | inl e ↦ rw (k, e) refl
    | inr e ↦ elim (Option-cases (decode_numeric D nan value_bytes t.value_size)) [
      | inl d ↦ rw (k, e, d) tt
      | inr (v, d) ↦
          rw (k, e, d)
            (ap (λ n. compare_doubles D nan n q.number)
              (sym (decode_numeric-decode_value value_bytes t.value_size fid d)))
    ]
  ]

  -- The entries of a leaf, read in the file.
  abbrev pub leaf_entries :
      List ℕ → BPlusTreeTrailer → ℕ → ℕ → ℕ → List (AttributeIndexEntry Double)
  leaf_entries file t page zero index = []
  leaf_entries file t page (suc rounds) index =
      decode_value D nan
        (take t.value_size
          (drop (page + (12 + max_per_page t.value_size * 4) + index * t.value_size) file))
        t.value_size t.is_string (u32_in file (page + 12 + index * 4))
      ∷ leaf_entries file t page rounds (index + 1)

  -- The candidates of entries, none of which has the number 0.
  pub record Matches (t : BPlusTreeTrailer) (q : Query D nan)
      (entries : List (AttributeIndexEntry Double)) (candidates : List ℕ) : Type 0 where
    pub chosen : candidates ≡ matching D nan (compare_entry t q) q.op entries
    pub numbered : some_fid_zero D nan entries ≡ false

  decode_value_fid :
      (bytes : List ℕ) (value_size : ℕ) (is_string : Bool) (fid : ℕ)
      → (decode_value D nan bytes value_size is_string fid).fid ≡ fid
  unfolding decode_value
  decode_value_fid bytes value_size true fid = refl
  decode_value_fid bytes value_size false fid = refl

  Matches-cons :
      (t : BPlusTreeTrailer) (q : Query D nan) (entry : AttributeIndexEntry Double)
      (entries : List (AttributeIndexEntry Double)) (candidates : List ℕ) (fid : ℕ)
      (comparison : Order)
      → comparison ≡ compare_entry t q entry
      → entry.fid ≡ fid
      → (fid == 0) ≡ false
      → Matches t q entries candidates
      → Matches t q
          (entry ∷ entries)
          (if order_matches comparison q.op then (fid - 1) ∷ candidates else candidates)
  Matches-cons t q entry entries candidates fid comparison c f n m = record {
    chosen = rw (c, m.chosen, f) refl;
    numbered = rw (f, n) m.numbered;
  }

  pub length-leaf_entries :
      (file : List ℕ) (t : BPlusTreeTrailer) (page rounds index : ℕ)
      → length (leaf_entries file t page rounds index) ≡ rounds
  length-leaf_entries file t page zero index = refl
  length-leaf_entries file t page (suc rounds) index =
      ap suc (length-leaf_entries file t page rounds (index + 1))

  module _ (file : List ℕ) (t : BPlusTreeTrailer) (page_count : ℕ) (w : Fits file t page_count)
      (q : Query D nan) (k : t.is_string ≡ q.is_text) where
    pub leaf_loop-Matches :
        (page rounds index : ℕ)
        → page + page_size ≤ length file
        → rounds + index ≤ max_per_page t.value_size
        → Ensures
            (λ fids. Matches t q (leaf_entries file t page rounds index) fids)
            (leaf_loop D nan file t q page rounds index)
    unfolding leaf_loop
    leaf_loop-Matches page zero index p h = record { chosen = refl; numbered = refl }
    leaf_loop-Matches page (suc rounds) index p h =
        Ensures->>= _ _ (read_u32 file (page + 12 + index * 4)) _
          (read_u32-Is file (page + 12 + index * 4) (omega (arith, w.entries)))
          (λ fid f. Ensures-refuse_if _ _ _ (λ g.
            Ensures->>= _ _ (bytes_at file _ _) _
              (bytes_at-Is file _ _
                (value_inside D nan file t page_count w page rounds index p (omega arith)))
              (λ value_bytes v.
                Ensures->>= _ _ (compare_stored D nan t q value_bytes fid) _
                  (compare_stored-Is t q value_bytes fid k)
                  (λ comparison c.
                    Ensures->>= _ _ (leaf_loop D nan file t q page rounds (index + 1)) _
                      (leaf_loop-Matches page rounds (index + 1) p (omega arith))
                      (λ candidates rest.
                        let value = take t.value_size (
                          drop (page + (12 + max_per_page t.value_size * 4) + index * t.value_size)
                            file) in
                        let number = u32_in file (page + 12 + index * 4) in
                        Matches-cons t q (decode_value D nan value t.value_size t.is_string number)
                          _ candidates fid comparison
                          (subst
                            (λ b.
                              comparison
                              ≡ compare_entry t q
                                  (decode_value D nan b t.value_size t.is_string number))
                            v
                            (subst
                              (λ n.
                                comparison
                                ≡ compare_entry t q
                                    (decode_value D nan value_bytes t.value_size t.is_string n))
                              f c))
                          (decode_value_fid value t.value_size t.is_string number ∙ sym f)
                          (ground arith) rest)))))

    module _ (octets : All IsByte file) (page : ℕ) (inside : page + page_size ≤ length file) where
      abbrev page_bytes : List ℕ
      page_bytes = take page_size (drop page file)

      length-page_bytes : length page_bytes ≡ page_size
      length-page_bytes =
          omega (arith, length-take page_size (drop page file), length-drop page file, inside)

      octets-page_bytes : All IsByte page_bytes
      octets-page_bytes =
          All-take IsByte page_size (drop page file) (All-drop IsByte page file octets)

      small-page_bytes : length page_bytes < 2 ^ 63
      small-page_bytes = omega (arith, length-page_bytes)

      u32_in-page : (n : ℕ) → n + 4 ≤ page_size → u32_in page_bytes n ≡ u32_in file (page + n)
      u32_in-page n h = ap le_value (in_page file page n 4 h)

      entries_in-leaf_entries :
          (rounds index : ℕ)
          → rounds + index ≤ max_per_page t.value_size
          → entries_in D nan page_bytes t
              (u32s_in page_bytes rounds (12 + index * 4))
              (12 + max_per_page t.value_size * 4 + index * t.value_size)
            ≡ leaf_entries file t page rounds index
      entries_in-leaf_entries zero index h = refl
      entries_in-leaf_entries (suc rounds) index h =
          let vs = t.value_size in
          let at = 12 + max_per_page vs * 4 + index * vs in
          let step : index + 1 ≡ suc index = omega arith in
          let below : suc index ≤ max_per_page vs = omega arith in
          let more = suc-mul index vs in
          let value : take vs (drop at page_bytes)
              ≡ take vs (drop (page + (12 + max_per_page vs * 4) + index * vs) file) =
            in_page file page at vs (omega (arith, w.entries, mul-le-mul_right vs below, more))
            ∙ ap (λ n. take vs (drop n file)) (omega arith) in
          let number : u32_in page_bytes (12 + index * 4) ≡ u32_in file (page + 12 + index * 4) =
            u32_in-page (12 + index * 4) (omega (arith, w.entries))
            ∙ ap (u32_in file) (omega arith) in
          let numbers : 12 + index * 4 + 4 ≡ 12 + (index + 1) * 4 = omega arith in
          let values : at + vs ≡ 12 + max_per_page vs * 4 + (index + 1) * vs =
            omega (arith, more, ap (λ n. n * vs) step) in
          rw (value, number, numbers, values)
            (ap
              (λ es.
                decode_value D nan
                  (take vs (drop (page + (12 + max_per_page vs * 4) + index * vs) file)) vs
                  t.is_string (u32_in file (page + 12 + index * 4))
                ∷ es)
              (entries_in-leaf_entries rounds (index + 1) (omega arith)))

      pub read_u32-page :
          answer_of (BinaryReader.read_u32 (page_reader file page)).0 ≡ answered (u32_in file page)
      read_u32-page =
          ap (λ r. answer_of r.0)
            (read_u32_in page_bytes octets-page_bytes small-page_bytes 0
              (omega (arith, length-page_bytes)))
          ∙ ap answered (u32_in-page 0 (omega arith) ∙ ap (u32_in file) (omega arith))

      pub parse_leaf_page-leaf_entries :
          (max_per_page t.value_size == 0) ≡ false
          → u32_in file (page + 4) ≤ max_per_page t.value_size
          → answer_of (parse_leaf_page D nan t (page_reader file page)).0
            ≡ answered (leaf_entries file t page (u32_in file (page + 4)) 0)
      parse_leaf_page-leaf_entries c few =
          let count = u32_in-page 4 (omega arith) in
          ap answer_of (
            parse_leaf_page_in D nan page_bytes octets-page_bytes small-page_bytes t
              (omega (arith, length-page_bytes, w.entries)) c (rw count few))
          ∙ ap answered (
              ap
                (λ n.
                  entries_in D nan page_bytes t (u32s_in page_bytes n 12)
                    (12 + max_per_page t.value_size * 4))
                count
              ∙ ap
                  (λ n.
                    entries_in D nan page_bytes t (u32s_in page_bytes (u32_in file (page + 4)) 12)
                      n)
                  (omega (arith, zero-mul t.value_size))
              ∙ entries_in-leaf_entries (u32_in file (page + 4)) 0 (omega arith))

      pub parse_nonleaf_page-children :
          (max_per_page t.value_size == 0) ≡ false
          → u32_in file (page + 4) ≤ max_per_page t.value_size
          → 0 < u32_in file (page + 4)
          → (rest : List ℕ) × (answer_of (parse_nonleaf_page t (page_reader file page)).0
              ≡ answered (u32_in file (page + 8) ∷ rest))
      parse_nonleaf_page-children c few some_children =
          let count = u32_in-page 4 (omega arith) in
          (
            u32s_in page_bytes (u32_in page_bytes 4 - 1) 12,
            ap answer_of (
                  parse_nonleaf_page_in page_bytes octets-page_bytes small-page_bytes t
                    (omega (arith, length-page_bytes, w.entries)) c (rw count few))
                ∙ ap answered (
                    first_number page_bytes (u32_in page_bytes 4) 8 (rw count some_children)
                    ∙ ap (λ n. n ∷ u32s_in page_bytes (u32_in page_bytes 4 - 1) 12)
                        (u32_in-page 8 (omega arith))),
          )
