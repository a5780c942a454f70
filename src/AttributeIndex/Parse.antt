-- ===== src/AttributeIndex/Parse.antt =====
-- `parse`, which keeps every entry of the leaf chain, and the queries over the entries kept.
use fast_gdb.Base.{
  ℕ, zero, suc, ◌-◌, ◌*◌, ◌/◌, ◌%◌, ◌^◌, Bool, false, not, ◌||◌, List, [], ◌∷◌, ◌++◌, Option, none,
  some, ltb, ◌==◌, if◌then◌else◌, length,
}
use fast_gdb.BinaryReader
use fast_gdb.BinaryReader.{Outcome, ok, out_of_range, length_error, Reader}
use fast_gdb.Where.{Doubles, AttrOp}
use fast_gdb.Where.Row.{Order, order_matches, compare_bytes}
use fast_gdb.Where.Compile.{sort_unique}
use fast_gdb.AttributeIndex.{
  BPlusTreeTrailer, AttributeIndexEntry, page_size, trailer_size, compare_doubles,
}
use fast_gdb.AttributeIndex.Direct.{
  Answer, refused, thrown, undefined, out_of_fuel, answered, refuse_if, ◌>>=◌, ◌>>◌, trailer_of,
}
use fast_gdb.AttributeIndex.Pages.{page_reader, parse_leaf_page, parse_nonleaf_page}

-- The `page_offset_for` of this file: the page is whole in the file.
unfoldable pub page_offset_in : ℕ → ℕ → Option ℕ
page_offset_in page_id file_size =
    let page_offset = (page_id - 1) * page_size in
    if page_id == 0
    then none
    else if ltb (2 ^ 64 - 1) page_offset
    then none
    else if ltb file_size page_offset || ltb (file_size - page_offset) page_size
    then none
    else some page_offset

-- What a method over a reader gives its caller.
abbrev pub answer_of : {A : Type 0} → Outcome A → Answer A
answer_of (ok a) = answered a
answer_of out_of_range = thrown
answer_of length_error = thrown
answer_of BinaryReader.undefined = undefined
answer_of BinaryReader.out_of_fuel = out_of_fuel

module _ (D : Doubles) (nan : D.Double) where
  open D use {Double}

  -- The leaf chain from `page_id` on, with `remaining` pages allowed behind it.
  unfoldable pub leaf_chain :
      List ℕ → BPlusTreeTrailer → ℕ → ℕ → Answer (List (AttributeIndexEntry Double))
  unfolding parse_leaf_page
  leaf_chain file t zero page_id = elim (page_offset_in page_id (length file)) [
    | none ↦ refused
    | some offset ↦ do
      next_page_id ← answer_of (BinaryReader.read_u32 (page_reader file offset)).0
      here ← answer_of (parse_leaf_page D nan t (page_reader file offset)).0
      refuse_if (not (next_page_id == 0))
      answered here
  ]
  leaf_chain file t (suc remaining) page_id = elim (page_offset_in page_id (length file)) [
    | none ↦ refused
    | some offset ↦ do
      next_page_id ← answer_of (BinaryReader.read_u32 (page_reader file offset)).0
      here ← answer_of (parse_leaf_page D nan t (page_reader file offset)).0
      more ← (if next_page_id == 0 then answered [] else leaf_chain file t remaining next_page_id)
      answered (here ++ more)
  ]

  unfoldable pub traverse_tree :
      List ℕ → BPlusTreeTrailer → ℕ → ℕ → ℕ → Answer (List (AttributeIndexEntry Double))
  unfolding leaf_chain parse_nonleaf_page
  traverse_tree file t zero page_id depth = refused
  traverse_tree file t (suc remaining) page_id depth = elim (page_offset_in page_id (length file)) [
    | none ↦ refused
    | some offset ↦
        (let deeper = (do
          child_ids ← answer_of (parse_nonleaf_page t (page_reader file offset)).0
          elim child_ids [
            | [] ↦ refused
            | child_id ∷ _ ↦ traverse_tree file t remaining child_id (depth - 1)
          ]) in
          if depth == 0
          then refused
          else if depth == 1
          then leaf_chain file t remaining page_id
          else deeper)
  ]

  -- The conversion to int, where 0 stands for a negative number.
  abbrev pub as_int : ℕ → ℕ
  as_int depth = if ltb (2 ^ 31 - 1) depth then 0 else depth

  abbrev pub some_fid_zero : List (AttributeIndexEntry Double) → Bool
  some_fid_zero [] = false
  some_fid_zero (entry ∷ entries) = entry.fid == 0 || some_fid_zero entries

  -- `parse` on a file that is read: the trailer and the entries, where it returns true. An exception is caught.
  unfoldable pub parse_file : List ℕ → Answer (BPlusTreeTrailer × List (AttributeIndexEntry Double))
  unfolding traverse_tree
  parse_file file =
      let page_bytes = length file - trailer_size in
      let page_count = page_bytes / page_size in
      do
        refuse_if (ltb (2 ^ 63 - 1) (length file))
        refuse_if (ltb (length file) trailer_size)
        refuse_if (not (page_bytes % page_size == 0))
        t ← trailer_of file
        (if t.tree_depth == 0
            then (do refuse_if (not (t.total_value_count == 0)); answered (t, []))
            else (do
              refuse_if (page_count == 0 || ltb page_count t.tree_depth)
              entries ← traverse_tree file t page_count 1 (as_int t.tree_depth)
              refuse_if (not (length entries == t.total_value_count))
              refuse_if (some_fid_zero entries)
              answered (t, entries)))

  abbrev pub caught : {A : Type 0} → Answer A → Answer A
  caught thrown = refused
  caught a = a

  unfoldable pub parse :
      Option (List ℕ) → Answer (BPlusTreeTrailer × List (AttributeIndexEntry Double))
  unfolding parse_file
  parse none = refused
  parse (some file) = caught (parse_file file)

  -- The numbers of the entries that match, before they are sorted.
  abbrev pub matching :
      (AttributeIndexEntry Double → Order) → AttrOp → List (AttributeIndexEntry Double) → List ℕ
  matching compare op [] = []
  matching compare op (entry ∷ entries) =
      if order_matches (compare entry) op
      then (entry.fid - 1) ∷ matching compare op entries
      else matching compare op entries

  unfoldable pub query_double : List (AttributeIndexEntry Double) → Double → AttrOp → List ℕ
  unfolding sort_unique
  query_double entries value op =
      sort_unique (matching (λ entry. compare_doubles D nan entry.numeric_value value) op entries)

  unfoldable pub query_string : List (AttributeIndexEntry Double) → List ℕ → AttrOp → List ℕ
  unfolding sort_unique compare_bytes
  query_string entries value op =
      sort_unique (matching (λ entry. compare_bytes entry.string_value value) op entries)
