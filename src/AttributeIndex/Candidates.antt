-- ===== src/AttributeIndex/Candidates.antt =====
-- `query_direct` of gdb_attribute_index_query.cpp on an index of texts, as the query engine asks it for the candidates of = and >=.
use fast_gdb.Base.{
  ℕ, zero, suc, ◌-◌, ◌/◌, ◌^◌, ◌<◌, ◌≡◌, ◌⊎◌, ap, ap₂, sym, ◌∙◌, true, List, [], ◌∷◌, some, arith,
  get_elem?, length, Bool-cases, inl, inr, All,
}
use fast_gdb.BinaryReader.Bounds.{IsByte}
use fast_gdb.Where.{Doubles, AttrOp, eq_op, ge_op}
use fast_gdb.Where.Fids.Sorted.{holds}
use fast_gdb.Base.Options.{unsome}
use fast_gdb.Where.Compile.Fields.{holds-sort_unique}
use fast_gdb.Where.Row.{Order, order_matches, compare_bytes}
use fast_gdb.AttributeIndex.{BPlusTreeTrailer, AttributeIndexEntry, decode_characters}
use fast_gdb.AttributeIndex.Direct.{
  answered, Query, query_direct, trailer_of, truncate_index_string,
}
use fast_gdb.AttributeIndex.Keys.{text_of, stored}
use fast_gdb.AttributeIndex.Parse.{matching, parse, query_string}
use fast_gdb.AttributeIndex.Same.{query_entries, query_direct-query_entries}
use fast_gdb.AttributeIndex.Superset.{IsPlain, order_matches-index}

module _ (D : Doubles) (nan : D.Double) where
  open D use {Double}

  holds-matching :
      (compare : AttributeIndexEntry Double → Order) (op : AttrOp)
      (entries : List (AttributeIndexEntry Double)) (i : ℕ) (entry : AttributeIndexEntry Double)
      → get_elem? entries i ≡ some entry
      → order_matches (compare entry) op ≡ true
      → holds (entry.fid - 1) (matching D nan compare op entries) ≡ true
  holds-matching compare op [] i entry e m = cc
  holds-matching compare op (x ∷ entries) zero entry e m =
      let first : x ≡ entry = unsome e in
      let chosen : order_matches (compare x) op ≡ true = rw first m in
      rw (chosen, first) (ground arith)
  holds-matching compare op (x ∷ entries) (suc i) entry e m =
      let later = holds-matching compare op entries i entry e m in
      elim (Bool-cases (order_matches (compare x) op)) [
        | inl chosen ↦ rw chosen (ground (arith, later))
        | inr other ↦ rw other later
      ]

  holds-query_string :
      (t : BPlusTreeTrailer) (entries : List (AttributeIndexEntry Double)) (q : Query D nan) (i : ℕ)
      (entry : AttributeIndexEntry Double)
      → q.is_text ≡ true
      → get_elem? entries i ≡ some entry
      → order_matches
          (compare_bytes entry.string_value (truncate_index_string q.text (t.value_size / 2)))
          q.op
        ≡ true
      → holds (entry.fid - 1) (query_entries D nan t q entries) ≡ true
  unfolding query_string
  holds-query_string t entries q i entry k e m =
      let value : List ℕ = truncate_index_string q.text (t.value_size / 2) in
      rw k (
        holds-sort_unique (entry.fid - 1)
          (matching D nan (λ x. compare_bytes x.string_value value) q.op entries)
        ∙ holds-matching (λ x. compare_bytes x.string_value value) q.op entries i entry e m)

  -- For a file of bytes that holds less than 8 TiB, an index of texts in it that `parse` accepts, and a query for a text
  -- by = or >=, the operators for which the query engine asks an index about one, that `query_direct` answers: an entry
  -- that `parse` keeps for a row, and that stores the row's text, has its row number among those that are answered, where
  -- the row's whole text satisfies the comparison with the whole text of the query, and both are of characters from
  -- U+0020 to U+FFFF.
  pub query_direct-order_matches :
      (file : List ℕ) (q : Query D nan) (fids : List ℕ) (t : BPlusTreeTrailer)
      (entries : List (AttributeIndexEntry Double)) (i : ℕ) (entry : AttributeIndexEntry Double)
      (us vs : List ℕ)
      → All IsByte file
      → length file < 2 ^ 43
      → trailer_of file ≡ answered t
      → t.is_string ≡ true
      → parse D nan (some file) ≡ answered (t, entries)
      → query_direct D nan (some file) q ≡ answered fids
      → q.is_text ≡ true
      → q.text ≡ text_of vs
      → (q.op ≡ eq_op) ⊎ (q.op ≡ ge_op)
      → All IsPlain us
      → All IsPlain vs
      → get_elem? entries i ≡ some entry
      → entry.string_value ≡ decode_characters (t.value_size / 2) (stored (t.value_size / 2) us)
      → order_matches (compare_bytes (text_of us) (text_of vs)) q.op ≡ true
      → holds (entry.fid - 1) fids ≡ true
  query_direct-order_matches file q fids t entries i entry us vs octets small at kind parsed run k
        words o plain plain' e text m =
      let kinds = λ (x : BPlusTreeTrailer) (h : trailer_of file ≡ answered x).
        let same_trailer : t ≡ x = cc in
        ap (λ (y : BPlusTreeTrailer). y.is_string) (sym same_trailer) ∙ kind ∙ sym k in
      let (t', entries', parsed', same) =
        query_direct-query_entries D nan file q fids octets small kinds run in
      let one : t ≡ t' = cc in
      let all : entries ≡ entries' = cc in
      let answer : fids ≡ query_entries D nan t q entries =
        same ∙ sym (ap₂ (λ b es. query_entries D nan b q es) one all) in
      let found = order_matches-index (t.value_size / 2) us vs q.op o plain plain' m in
      rw answer (holds-query_string t entries q i entry k e (rw (text, words) found))
