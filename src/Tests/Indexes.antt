-- ===== src/Tests/Indexes.antt =====
-- An index of one leaf with two numbers, and queries of it.
use fast_gdb.Base.{
  inr, ℕ, true, zero, suc, ◌≡◌, ◌⊎◌, refl, ap, subst, sym, Bool, false, List, [], ◌∷◌, some, length,
  All, All-append, arith,
}
use fast_gdb.Base.Options.{unsome}
use fast_gdb.Base.Int.{ℤ, pos}
use fast_gdb.BinaryReader.Bounds.{IsByte}
use fast_gdb.BinaryReader.{read_u8, read_u32}
use fast_gdb.Where.{ge_op}
use fast_gdb.AttributeIndex.{decode_characters, AttributeIndexEntry, BPlusTreeTrailer}
use fast_gdb.Where.Row.{order_matches, compare_bytes}
use fast_gdb.AttributeIndex.Candidates.{query_direct-order_matches}
use fast_gdb.Where.Fids.Sorted.{holds}
use fast_gdb.AttributeIndex.Keys.{
  string_index_key_supported, text_of, stored, decode_characters-truncate_index_string,
}
use fast_gdb.AttributeIndex.Direct.{
  truncate_loop, truncate_index_string, Answer, answered, refused, Query, query_direct, trailer_of,
  refuse_if, page_offset_for,
}
use fast_gdb.AttributeIndex.Parse.{parse, page_offset_in}
use fast_gdb.AttributeIndex.Ends.{SortedBelow, query_direct-SortedBelow}
use fast_gdb.AttributeIndex.Same.{query_entries, query_direct-query_entries}
use fast_gdb.Tests.Clauses.{ints}

abbrev zeros : ℕ → List ℕ → List ℕ
zeros zero bytes = bytes
zeros (suc n) bytes = 0 ∷ zeros n bytes

-- Rows 3 and 1, with the values 7 and 9.
abbrev trailer_bytes : List ℕ
trailer_bytes = 4 ∷ 0x40 ∷ 1 ∷ 0 ∷ 0 ∷ 0 ∷ 1 ∷ 0 ∷ 0 ∷ 0 ∷ 2 ∷ 0 ∷ 0 ∷ 0 ∷ zeros 8 []

abbrev value_bytes : List ℕ
value_bytes = 7 ∷ 0 ∷ 0 ∷ 0 ∷ 9 ∷ 0 ∷ 0 ∷ 0 ∷ zeros 2036 trailer_bytes

abbrev first_leaf : List ℕ
first_leaf = 3 ∷ 0 ∷ 0 ∷ 0 ∷ 1 ∷ 0 ∷ 0 ∷ 0 ∷ zeros 2032 value_bytes

abbrev index_file : List ℕ
index_file = zeros 4 (2 ∷ zeros 7 first_leaf)

length-index_file : length index_file ≡ 4118
length-index_file = refl

-- The rows of values 9 and above, of a table with ten rows.
abbrev from_nine : Query ints (pos 0)
from_nine = record { number = pos 9; text = []; is_text = false; op = ge_op; max_fid_count = 10 }

from_nine_run : query_direct ints (pos 0) (some index_file) from_nine ≡ answered (0 ∷ [])
unfolding query_direct read_u8 read_u32 refuse_if page_offset_for
from_nine_run = refl

zeros-IsByte : (n : ℕ) (bytes : List ℕ) → All IsByte bytes → All IsByte (zeros n bytes)
zeros-IsByte zero bytes h = h
zeros-IsByte (suc n) bytes h = (omega arith, zeros-IsByte n bytes h)

index_file-IsByte : All IsByte index_file
index_file-IsByte =
    let trailer : All IsByte trailer_bytes = (
      omega arith,
      (
        omega arith,
        (
          omega arith,
          (
            omega arith,
            (
              omega arith,
              (
                omega arith,
                (
                  omega arith,
                  (
                    omega arith,
                    (
                      omega arith,
                      (
                        omega arith,
                        (
                          omega arith,
                          (omega arith, (omega arith, (omega arith, zeros-IsByte 8 [] tt))),
                        ),
                      ),
                    ),
                  ),
                ),
              ),
            ),
          ),
        ),
      ),
    ) in
    let values : All IsByte value_bytes = (
      omega arith,
      (
        omega arith,
        (
          omega arith,
          (
            omega arith,
            (
              omega arith,
              (omega arith, (omega arith, (omega arith, zeros-IsByte 2036 trailer_bytes trailer))),
            ),
          ),
        ),
      ),
    ) in
    let fids : All IsByte first_leaf = (
      omega arith,
      (
        omega arith,
        (
          omega arith,
          (
            omega arith,
            (
              omega arith,
              (omega arith, (omega arith, (omega arith, zeros-IsByte 2032 value_bytes values))),
            ),
          ),
        ),
      ),
    ) in
    zeros-IsByte 4 (2 ∷ zeros 7 first_leaf) (omega arith, zeros-IsByte 7 first_leaf fids)

abbrev kind_of : Answer BPlusTreeTrailer → Bool
kind_of (answered t) = t.is_string
kind_of _ = false

number_index : (t : BPlusTreeTrailer) → trailer_of index_file ≡ answered t → t.is_string ≡ false
unfolding trailer_of read_u8 read_u32
number_index t e = sym (ap kind_of e)

query_direct-SortedBelow_example :
    (query_direct ints (pos 0) (some index_file) from_nine ≡ refused)
    ⊎ ((fids : List ℕ) × (query_direct ints (pos 0) (some index_file) from_nine ≡ answered fids)
        × SortedBelow ints (pos 0) from_nine fids)
query_direct-SortedBelow_example =
    query_direct-SortedBelow ints (pos 0) (some index_file) from_nine
      (λ bytes e. subst (λ b. All IsByte b) (unsome e) index_file-IsByte)

query_direct-query_entries_example :
    (t : BPlusTreeTrailer) × (entries : List (AttributeIndexEntry ℤ)) × (parse ints
        (pos 0)
        (some index_file)
      ≡ answered (t, entries))
    × (0 ∷ [] ≡ query_entries ints (pos 0) t from_nine entries)
query_direct-query_entries_example =
    query_direct-query_entries ints (pos 0) index_file from_nine (0 ∷ []) index_file-IsByte
      (omega (arith, length-index_file)) number_index from_nine_run

-- A, é and €, a space, B.
abbrev five_characters : List ℕ
five_characters = 65 ∷ 233 ∷ 8364 ∷ 32 ∷ 66 ∷ []

decode_characters-truncate_index_string_example :
    (string_index_key_supported (text_of five_characters) ≡ true)
    × (decode_characters 8 (stored 8 five_characters)
        ≡ truncate_index_string (text_of five_characters) 8)
decode_characters-truncate_index_string_example =
    decode_characters-truncate_index_string five_characters 8 (
      (omega arith, omega arith),
      (
        (omega arith, omega arith),
        (
          (omega arith, omega arith),
          ((omega arith, omega arith), ((omega arith, omega arith), tt)),
        ),
      ),
    )

-- An index of texts of three characters, with "a b" in row 3.
abbrev text_trailer : List ℕ
text_trailer = 6 ∷ 0x20 ∷ 1 ∷ 0 ∷ 0 ∷ 0 ∷ 1 ∷ 0 ∷ 0 ∷ 0 ∷ 1 ∷ 0 ∷ 0 ∷ 0 ∷ zeros 8 []

abbrev one_text : List ℕ
one_text = 97 ∷ 0 ∷ 32 ∷ 0 ∷ 98 ∷ 0 ∷ zeros 2446 text_trailer

abbrev text_file : List ℕ
text_file = zeros 4 (1 ∷ zeros 7 (3 ∷ zeros 1631 one_text))

length-text_file : length text_file ≡ 4118
length-text_file = refl

text_file-IsByte : All IsByte text_file
text_file-IsByte =
    let fids : List ℕ = 3 ∷ zeros 1631 one_text in
    let texts : All IsByte one_text =
      All-append IsByte (97 ∷ 0 ∷ 32 ∷ 0 ∷ 98 ∷ 0 ∷ []) (zeros 2446 text_trailer) (omega arith)
        (zeros-IsByte 2446 text_trailer (omega arith)) in
    let rows : All IsByte fids = (omega arith, zeros-IsByte 1631 one_text texts) in
    zeros-IsByte 4 (1 ∷ zeros 7 fids) (omega arith, zeros-IsByte 7 fids rows)

abbrev text_index : BPlusTreeTrailer
text_index = record {
  value_size = 6;
  is_string = true;
  is_numeric = false;
  magic1 = 1;
  tree_depth = 1;
  total_value_count = 1;
}

text_index_trailer : trailer_of text_file ≡ answered text_index
unfolding trailer_of read_u8 read_u32
text_index_trailer = refl

abbrev text_entry : AttributeIndexEntry ℤ
text_entry = record { fid = 3; numeric_value = pos 0; string_value = 97 ∷ [] }

text_index_parsed : parse ints (pos 0) (some text_file) ≡ answered (text_index, text_entry ∷ [])
unfolding parse read_u8 read_u32 refuse_if trailer_of page_offset_in
text_index_parsed = refl

-- >= "a".
abbrev from_a : Query ints (pos 0)
from_a = record { number = pos 0; text = 97 ∷ []; is_text = true; op = ge_op; max_fid_count = 10 }

from_a_run : query_direct ints (pos 0) (some text_file) from_a ≡ answered (2 ∷ [])
unfolding query_direct read_u8 read_u32 refuse_if page_offset_for
from_a_run = refl

abbrev with_space : List ℕ
with_space = 97 ∷ 32 ∷ 98 ∷ []

text_entry_stored : text_entry.string_value ≡ decode_characters 3 (stored 3 with_space)
unfolding decode_characters
text_entry_stored = refl

above_a : order_matches (compare_bytes (text_of with_space) (text_of (97 ∷ []))) ge_op ≡ true
unfolding compare_bytes
above_a = refl

query_direct-order_matches_example : holds 2 (2 ∷ []) ≡ true
query_direct-order_matches_example =
    query_direct-order_matches ints (pos 0) text_file from_a (2 ∷ []) text_index (text_entry ∷ []) 0
      text_entry with_space (97 ∷ []) text_file-IsByte (omega (arith, length-text_file))
      text_index_trailer refl text_index_parsed from_a_run refl refl (inr refl)
      ((omega arith, omega arith), ((omega arith, omega arith), ((omega arith, omega arith), tt)))
      ((omega arith, omega arith), tt) refl text_entry_stored above_a

-- A space is above a tab, but the entry of "a b" is cut to "a" and compares below "a" with a tab.
abbrev with_tab : List ℕ
with_tab = 97 ∷ 9 ∷ []

above_tab : order_matches (compare_bytes (text_of with_space) (text_of with_tab)) ge_op ≡ true
unfolding compare_bytes
above_tab = refl

missed_behind_tab :
    order_matches
      (compare_bytes
        (decode_characters 8 (stored 8 with_space))
        (truncate_index_string (text_of with_tab) 8))
      ge_op
    ≡ false
unfolding compare_bytes decode_characters truncate_loop
missed_behind_tab = refl
