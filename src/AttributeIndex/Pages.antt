-- ===== src/AttributeIndex/Pages.antt =====
-- The pages of the tree as `parse` reads them, through a reader over one page.
use fast_gdb.Base.{
  ℕ, zero, suc, ◌+◌, ◌*◌, ◌||◌, List, [], ◌∷◌, ltb, ◌==◌, if◌then◌else◌, take, drop,
}
use fast_gdb.BinaryReader.{out_of_range, Reader, M, return, fail, read_u8, read_u32, seek, ◌>>=◌}
use fast_gdb.Where.{Doubles}
use fast_gdb.AttributeIndex.{
  BPlusTreeTrailer, AttributeIndexEntry, page_size, max_per_page, decode_value,
}

-- `count` reads, one behind the other.
unfoldable pub read_times : {A : Type 0} → ℕ → M A → M (List A)
read_times zero m = return []
read_times (suc n) m = m >>= λ a. read_times n m >>= λ rest. return (a ∷ rest)

abbrev pub page_reader : List ℕ → ℕ → Reader
page_reader file page_offset = record { bytes = take page_size (drop page_offset file); pos_ = 0 }

unfoldable pub parse_nonleaf_page : BPlusTreeTrailer → M (List ℕ)
unfolding read_times seek
parse_nonleaf_page t = read_u32 >>= λ next_page_id. read_u32 >>= λ subpage_count.
    if max_per_page t.value_size == 0 || ltb (max_per_page t.value_size) subpage_count
    then fail out_of_range
    else read_times subpage_count read_u32 >>= λ page_ids.
        seek (12 + max_per_page t.value_size * 4) >>= λ _.
        read_times subpage_count (read_times t.value_size read_u8) >>= λ _. return page_ids

module _ (D : Doubles) (nan : D.Double) where
  open D use {Double}

  -- The values of the entries, whose numbers are `fids`.
  unfoldable pub values_loop : BPlusTreeTrailer → List ℕ → M (List (AttributeIndexEntry Double))
  unfolding decode_value read_times
  values_loop t [] = return []
  values_loop t (fid ∷ fids) = read_times t.value_size read_u8 >>= λ value_bytes.
      values_loop t fids >>= λ entries.
      return (decode_value D nan value_bytes t.value_size t.is_string fid ∷ entries)

  unfoldable pub parse_leaf_page : BPlusTreeTrailer → M (List (AttributeIndexEntry Double))
  unfolding values_loop read_times seek
  parse_leaf_page t = read_u32 >>= λ next_page_id. read_u32 >>= λ feature_count.
      read_u32 >>= λ unknown.
      if max_per_page t.value_size == 0 || ltb (max_per_page t.value_size) feature_count
      then fail out_of_range
      else read_times feature_count read_u32 >>= λ fids.
          seek (12 + max_per_page t.value_size * 4) >>= λ _. values_loop t fids
