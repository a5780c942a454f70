-- ===== src/AttributeIndex/Same.antt =====
-- A whole file: the direct query against `parse` with the query over its entries.
use fast_gdb.Base.{
  ℕ, zero, suc, ◌+◌, ◌-◌, ◌/◌, ◌%◌, ◌^◌, ◌≤◌, ◌<◌, ◌≡◌, refl, ap, sym, ◌∙◌, subst, Bool, true,
  false, not, ◌||◌, List, [], some, ltb, ◌==◌, arith, if◌then◌else◌, length, Bool-cases, inl, inr,
  All,
}
use fast_gdb.BinaryReader.Bounds.{IsByte}
use fast_gdb.Where.{Doubles}
use fast_gdb.Where.Compile.{sort_unique}
use fast_gdb.AttributeIndex.{
  BPlusTreeTrailer, AttributeIndexEntry, page_size, trailer_size, max_per_page,
}
use fast_gdb.AttributeIndex.Direct.{
  Answer, refused, thrown, undefined, out_of_fuel, answered, refuse_if, Query, descend, scan_loop,
  query_tree, query_file, query_direct, trailer_of, replicate, truncate_index_string,
}
use fast_gdb.AttributeIndex.Parse.{
  matching, some_fid_zero, page_offset_in, leaf_chain, traverse_tree, parse_file, parse,
  query_double, query_string, caught,
}
use fast_gdb.AttributeIndex.Safe.{
  Ensures, Any, Ensures->>=, Ensures-refuse_if, Ensures-map, Fits, Option-cases, free-replicate,
  Visits, free,
}
use fast_gdb.AttributeIndex.Ends.{trailer_of-Ensures, entries_fit, replicate_first}
use fast_gdb.AttributeIndex.Leaf.{compare_entry}
use fast_gdb.AttributeIndex.Agree.{Chain, scan_loop-Chain, scan_loop_stuck}
use fast_gdb.AttributeIndex.Down.{descend-Reached}

Ensures_self : {A : Type 0} (m : Answer A) → Ensures Any m → Ensures (λ a. m ≡ answered a) m
Ensures_self refused h = tt
Ensures_self thrown h = elim h [ ]
Ensures_self undefined h = elim h [ ]
Ensures_self out_of_fuel h = elim h [ ]
Ensures_self (answered a) h = refl

module _ (D : Doubles) (nan : D.Double) where
  open D use {Double}

  traverse_tree-leaf_chain :
      (file : List ℕ) (t : BPlusTreeTrailer) (remaining page_id : ℕ)
      → traverse_tree D nan file t (suc remaining) page_id 1
        ≡ leaf_chain D nan file t remaining page_id
  unfolding traverse_tree leaf_chain
  traverse_tree-leaf_chain file t zero page_id =
      elim (Option-cases (page_offset_in page_id (length file))) [
        | inl e ↦ rw (traverse_tree, leaf_chain, e) refl
        | inr (page, e) ↦ rw (traverse_tree, e) refl
      ]
  traverse_tree-leaf_chain file t (suc remaining) page_id =
      elim (Option-cases (page_offset_in page_id (length file))) [
        | inl e ↦ rw (traverse_tree, leaf_chain, e) refl
        | inr (page, e) ↦ rw (traverse_tree, e) refl
      ]

  -- The query over the entries that `parse` keeps: `query_string` for a text cut to what the index holds of it, and
  -- `query_double` for a number.
  abbrev pub query_entries :
      BPlusTreeTrailer → Query D nan → List (AttributeIndexEntry Double) → List ℕ
  query_entries t q entries =
      if q.is_text
      then query_string D nan entries (truncate_index_string q.text (t.value_size / 2)) q.op
      else query_double D nan entries q.number q.op

  query_entries_lem :
      (t : BPlusTreeTrailer) (q : Query D nan) (entries : List (AttributeIndexEntry Double))
      → sort_unique (matching D nan (compare_entry D nan t q) q.op entries)
        ≡ query_entries t q entries
  unfolding query_string query_double
  query_entries_lem t q entries = elim (Bool-cases q.is_text) [
    | inl e ↦ rw e refl
    | inr e ↦ rw e refl
  ]

  -- The entries that `traverse_tree` gives, and the answer over them.
  record Parsed (file : List ℕ) (t : BPlusTreeTrailer) (q : Query D nan) (page_count : ℕ)
      (fids : List ℕ) : Type 0 where
    entries : List (AttributeIndexEntry Double)
    parsed : traverse_tree D nan file t page_count 1 t.tree_depth ≡ answered entries
    same : fids ≡ query_entries t q entries
    numbered : some_fid_zero D nan entries ≡ false
    counted : length entries ≡ t.total_value_count
    deep : (page_count == 0 || ltb page_count t.tree_depth) ≡ false

  module _ (file : List ℕ) (octets : All IsByte file) (small : length file < 2 ^ 63)
      (t : BPlusTreeTrailer) (page_count : ℕ) (w : Fits file t page_count)
      (c : (max_per_page t.value_size == 0) ≡ false) (q : Query D nan)
      (k : t.is_string ≡ q.is_text) where
    scan_loop-tree :
        (left fuel page_id : ℕ) (visited : List Bool)
        → (page_id == 0) ≡ false
        → Visits visited fuel
        → free visited ≤ left + 1
        → Ensures
            (Chain D nan file octets small t page_count w c q k
              (traverse_tree D nan file t left page_id 1)
              0)
            (scan_loop D nan file t q page_count fuel page_id visited 0)
    scan_loop-tree zero fuel page_id visited z v f =
        Ensures-map (λ _. ⊥) _ (scan_loop D nan file t q page_count fuel page_id visited 0)
          (scan_loop_stuck D nan file octets small t page_count w c q k fuel page_id visited 0 z v
            (omega arith))
          (λ _ no. absurd no)
    scan_loop-tree (suc left) fuel page_id visited z v f =
        rw (traverse_tree-leaf_chain file t left page_id) (
          scan_loop-Chain D nan file octets small t page_count w c q k fuel left page_id visited 0 z
            v (omega arith))

  query_tree-Parsed :
      (file : List ℕ) (octets : All IsByte file) (small : length file < 2 ^ 63)
      (t : BPlusTreeTrailer) (q : Query D nan) (page_count : ℕ)
      → Fits file t page_count
      → t.is_string ≡ q.is_text
      → (t.tree_depth == 0) ≡ false
      → Ensures (Parsed file t q page_count) (query_tree D nan file t q page_count)
  unfolding query_tree
  query_tree-Parsed file octets small t q page_count w k depth =
      let start : Visits (replicate (page_count + 1) false) (page_count + 1) = record {
        outside = replicate_first page_count;
        enough = omega (arith, free-replicate (page_count + 1));
      } in
      let levels : suc (t.tree_depth - 1) ≡ t.tree_depth = ground arith in
      Ensures-refuse_if _ _ _ (λ a. Ensures-refuse_if _ _ _ (λ c. Ensures-refuse_if _ _ _ (λ b.
        Ensures->>= _ _
          (descend file t page_count (t.tree_depth - 1) 1 (replicate (page_count + 1) false)) _
          (descend-Reached D nan file octets small t page_count w c q k (t.tree_depth - 1) 1
            page_count (page_count + 1) _ refl start
            (omega (arith, free-replicate (page_count + 1))))
          (λ leaf r.
            Ensures->>= _ _ (scan_loop D nan file t q page_count (page_count + 1) leaf.0 leaf.1 0) _
              (scan_loop-tree file octets small t page_count w c q k r.left (page_count + 1) leaf.0
                leaf.1 r.outer r.visits r.allowed)
              (λ found chain. Ensures-refuse_if _ _ _ (λ total. record {
                entries = chain.entries;
                parsed =
                    ap (λ n. traverse_tree D nan file t page_count 1 n) (sym levels)
                    ∙ r.same
                    ∙ chain.parsed;
                same = ap sort_unique chain.matches.chosen ∙ query_entries_lem t q chain.entries;
                numbered = chain.matches.numbered;
                counted = ground (arith, chain.counted);
                deep = a;
              }))))))

  -- What `parse` keeps of a file, and the answer over it.
  record Agreed (file : List ℕ) (q : Query D nan) (fids : List ℕ) : Type 0 where
    trailer : BPlusTreeTrailer
    entries : List (AttributeIndexEntry Double)
    parsed : parse_file D nan file ≡ answered (trailer, entries)
    same : fids ≡ query_entries trailer q entries

  parse_file-empty :
      (file : List ℕ) (t : BPlusTreeTrailer)
      → ltb (2 ^ 63 - 1) (length file) ≡ false
      → ltb (length file) trailer_size ≡ false
      → not ((length file - trailer_size) % page_size == 0) ≡ false
      → trailer_of file ≡ answered t
      → (t.tree_depth == 0) ≡ true
      → not (t.total_value_count == 0) ≡ false
      → parse_file D nan file ≡ answered (t, [])
  unfolding parse_file refuse_if
  parse_file-empty file t a b d e z y = rw (a, b, d, e, z, y) refl

  parse_file-tree :
      (file : List ℕ) (t : BPlusTreeTrailer) (q : Query D nan)
      → length file < 2 ^ 43
      → (fids : List ℕ) → ltb (2 ^ 63 - 1) (length file) ≡ false
      → ltb (length file) trailer_size ≡ false
      → not ((length file - trailer_size) % page_size == 0) ≡ false
      → trailer_of file ≡ answered t
      → (t.tree_depth == 0) ≡ false
      → (p : Parsed file t q ((length file - trailer_size) / page_size) fids)
      → parse_file D nan file ≡ answered (t, p.entries)
  unfolding parse_file refuse_if
  parse_file-tree file t q small fids a b d e z p =
      let whole : ltb (2 ^ 31 - 1) t.tree_depth ≡ false = ground (arith, p.deep) in
      let all_there : not (length p.entries == t.total_value_count) ≡ false =
        ground (arith, p.counted) in
      rw (a, b, d, e, z, p.deep, whole, p.parsed, all_there, p.numbered) refl

  query_file-Agreed :
      (file : List ℕ) (q : Query D nan)
      → All IsByte file
      → length file < 2 ^ 43
      → ((t : BPlusTreeTrailer) → trailer_of file ≡ answered t → t.is_string ≡ q.is_text)
      → Ensures (Agreed file q) (query_file D nan file q)
  unfolding query_file
  query_file-Agreed file q octets small kinds = Ensures-refuse_if _ _ _ (λ a.
      Ensures-refuse_if _ _ _ (λ b. Ensures-refuse_if _ _ _ (λ d.
        Ensures->>= _ _ (trailer_of file) _
          (Ensures_self (trailer_of file)
            (trailer_of-Ensures file octets (omega arith) (ground arith)))
          (λ t e. Ensures-refuse_if _ _ _ (λ _. elim (Bool-cases (t.tree_depth == 0)) [
            | inl z ↦ rw z (
                Ensures-refuse_if _ _ _ (λ y. record {
                  trailer = t;
                  entries = [];
                  parsed = parse_file-empty file t a b d e z y;
                  same = query_entries_lem t q [];
                }))
            | inr z ↦ rw z (
                Ensures-map (Parsed file t q ((length file - trailer_size) / page_size)) _
                  (query_tree D nan file t q _)
                  (query_tree-Parsed file octets (omega arith) t q _
                    (record { pages = ground arith; entries = entries_fit t.value_size })
                    (kinds t e) z)
                  (λ fids p. record {
                    trailer = t;
                    entries = p.entries;
                    parsed = parse_file-tree file t q small fids a b d e z p;
                    same = p.same;
                  }))
          ])))))

  -- Where a query is answered, on a file of bytes that holds less than 8 TiB and whose index is of the kind that the query
  -- is of: `parse` returns true on the file, and the answer is that of `query_double` or `query_string` over the entries
  -- that `parse` keeps, the text of a query being cut to what the index holds of one.
  pub query_direct-query_entries :
      (file : List ℕ) (q : Query D nan) (fids : List ℕ)
      → All IsByte file
      → length file < 2 ^ 43
      → ((t : BPlusTreeTrailer) → trailer_of file ≡ answered t → t.is_string ≡ q.is_text)
      → query_direct D nan (some file) q ≡ answered fids
      → (t : BPlusTreeTrailer) × (entries : List (AttributeIndexEntry Double)) × (parse D nan
            (some file)
          ≡ answered (t, entries))
        × (fids ≡ query_entries t q entries)
  unfolding query_direct parse
  query_direct-query_entries file q fids octets small kinds e =
      let agreed =
        subst (λ m. Ensures (Agreed file q) m) e (query_file-Agreed file q octets small kinds) in
      (agreed.trailer, agreed.entries, ap (caught D nan) agreed.parsed, agreed.same)
