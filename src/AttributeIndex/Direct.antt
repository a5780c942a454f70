-- ===== src/AttributeIndex/Direct.antt =====
-- `query_direct`: the leaf chain read from the file, with the numbers that match.
use fast_gdb.Base.{
  ℕ, zero, suc, ◌+◌, ◌-◌, ◌*◌, ◌/◌, ◌%◌, ◌^◌, bit_and, Bool, true, false, not, ◌&&◌, ◌||◌, List, [],
  ◌∷◌, ◌++◌, Option, none, some, ltb, ◌==◌, if◌then◌else◌, length, take, drop, get_or, set,
}
use fast_gdb.Base.Int.{pos, signed}
use fast_gdb.BinaryReader.{Outcome, ok, out_of_range, length_error}
use fast_gdb.BinaryReader
use fast_gdb.BinaryReader.Bounds.{le_value}
use fast_gdb.Where.{Doubles, AttrOp}
use fast_gdb.Where.Row.{Order, order_matches, compare_bytes}
use fast_gdb.Where.Compile.{sort_unique}
use fast_gdb.AttributeIndex.{
  BPlusTreeTrailer, page_size, trailer_size, max_per_page, parse_trailer, trailer_reader,
  decode_value, compare_doubles,
}

-- `refused` is the return of false. The other three are an exception, a read outside the file, and a loop of the
-- model that ran out of rounds.
pub data Answer {ℓ} (A : Type ℓ) : Type ℓ where
  refused thrown undefined out_of_fuel : Answer A
  answered : A → Answer A

infixl 5 ◌>>=◌ ◌>>◌
abbrev pub ◌>>=◌ {ℓ κ} : {A : Type ℓ} {B : Type κ} → Answer A → (A → Answer B) → Answer B
refused >>= f = refused
thrown >>= f = thrown
undefined >>= f = undefined
out_of_fuel >>= f = out_of_fuel
answered a >>= f = f a

abbrev pub ◌>>◌ {ℓ} : {B : Type ℓ} → Answer (Unit {0}) → Answer B → Answer B
m >> k = m >>= λ _. k

-- `if (bad) return false;`
unfoldable pub refuse_if : Bool → Answer (Unit {0})
refuse_if bad = if bad then refused else answered tt

-- `count` bytes of the file from `at` on.
unfoldable pub bytes_at : List ℕ → ℕ → ℕ → Answer (List ℕ)
bytes_at file at count =
    if ltb (length file) (at + count) then undefined else answered (take count (drop at file))

unfoldable pub read_u32 : List ℕ → ℕ → Answer ℕ
unfolding bytes_at le_value
read_u32 file at = do bytes ← bytes_at file at 4; answered (le_value bytes)

-- The offset of a page, by its number from 1 on.
unfoldable pub page_offset_for : ℕ → ℕ → Option ℕ
page_offset_for page_id page_count =
    if page_id == 0 || ltb page_count page_id then none else some ((page_id - 1) * page_size)

abbrev pub utf8_sequence_bytes : ℕ → ℕ
utf8_sequence_bytes lead =
    if bit_and lead 0x80 == 0
    then 1
    else if bit_and lead 0xe0 == 0xc0
    then 2
    else if bit_and lead 0xf0 == 0xe0
    then 3
    else if bit_and lead 0xf8 == 0xf0
    then 4
    else 0

-- The text that is compared: at most `units` characters, up to a space. A character has a byte at least, so that
-- a round for each byte is enough.
unfoldable pub truncate_loop : ℕ → ℕ → List ℕ → List ℕ
truncate_loop zero units value = []
truncate_loop (suc fuel) zero value = []
truncate_loop (suc fuel) (suc units) [] = []
truncate_loop (suc fuel) (suc units) (lead ∷ value) =
    let bytes = utf8_sequence_bytes lead in
    let rest = truncate_loop fuel units (drop bytes (lead ∷ value)) in
    if lead == 0x20
    then []
    else if bytes == 0 || ltb (length (lead ∷ value)) bytes
    then []
    else take bytes (lead ∷ value) ++ rest

abbrev pub truncate_index_string : List ℕ → ℕ → List ℕ
truncate_index_string value max_utf16_units = truncate_loop (length value) max_utf16_units value

abbrev pub replicate : ℕ → Bool → List Bool
replicate zero b = []
replicate (suc n) b = b ∷ replicate n b

-- `parse_trailer` on what the file ends with: the trailer, where its first number is 1.
abbrev pub checked_trailer : Outcome BPlusTreeTrailer → Answer BPlusTreeTrailer
checked_trailer (ok t) = if not (t.magic1 == 1) || t.value_size == 0 then refused else answered t
checked_trailer BinaryReader.undefined = undefined
checked_trailer BinaryReader.out_of_fuel = out_of_fuel
checked_trailer out_of_range = thrown
checked_trailer length_error = thrown

unfoldable pub trailer_of : List ℕ → Answer BPlusTreeTrailer
unfolding parse_trailer
trailer_of file = checked_trailer (parse_trailer (trailer_reader file)).0

-- From the root down to the first leaf: `levels` inner pages are left.
unfoldable pub descend : List ℕ → BPlusTreeTrailer → ℕ → ℕ → ℕ → List Bool → Answer (ℕ × List Bool)
unfolding read_u32
descend file t page_count zero page_id visited = answered (page_id, visited)
descend file t page_count (suc levels) page_id visited = elim (page_offset_for page_id page_count) [
  | none ↦ refused
  | some page ↦ do
    refuse_if (get_or visited page_id true)
    entry_count ← read_u32 file (page + 4)
    refuse_if (entry_count == 0 || ltb (max_per_page t.value_size) entry_count)
    first_child ← read_u32 file (page + 8)
    refuse_if (first_child == 0)
    descend file t page_count levels first_child (set visited page_id true)
]

module _ (D : Doubles) (nan : D.Double) where
  open D use {Double, from_int, from_f64}

  pub record Query : Type 0 where
    pub number : Double
    pub text : List ℕ
    pub is_text : Bool
    pub op : AttrOp
    pub max_fid_count : ℕ

  unfoldable pub decode_numeric : List ℕ → ℕ → Option Double
  unfolding le_value
  decode_numeric bytes value_size =
      if value_size == 2
      then some (from_int (pos (le_value (take 2 bytes))))
      else if value_size == 4
      then some (from_int (signed 31 (le_value (take 4 bytes))))
      else if value_size == 8
      then some (from_f64 (take 8 bytes))
      else none

  -- How a stored value compares with the one asked for.
  unfoldable pub compare_stored : BPlusTreeTrailer → Query → List ℕ → ℕ → Answer Order
  unfolding decode_numeric decode_value compare_bytes truncate_loop
  compare_stored t q value_bytes stored_fid =
      if q.is_text
      then answered (
          compare_bytes (decode_value D nan value_bytes t.value_size true stored_fid).string_value
            (truncate_index_string q.text (t.value_size / 2)))
      else elim (decode_numeric value_bytes t.value_size) [
        | none ↦ refused
        | some indexed ↦ answered (compare_doubles D nan indexed q.number)
      ]

  -- The loop over the entries of a leaf at `page`: `rounds` of them are left, from `index` on.
  unfoldable pub leaf_loop : List ℕ → BPlusTreeTrailer → Query → ℕ → ℕ → ℕ → Answer (List ℕ)
  unfolding compare_stored read_u32 bytes_at
  leaf_loop file t q page zero index = answered []
  leaf_loop file t q page (suc rounds) index =
      let values_offset = 12 + max_per_page t.value_size * 4 in
      do
        stored_fid ← read_u32 file (page + 12 + index * 4)
        refuse_if
            (stored_fid == 0 || (not (q.max_fid_count == 0) && ltb q.max_fid_count stored_fid))
        value_bytes ← bytes_at file (page + values_offset + index * t.value_size) t.value_size
        comparison ← compare_stored t q value_bytes stored_fid
        candidates ← leaf_loop file t q page rounds (index + 1)
        answered
            (if order_matches comparison q.op then (stored_fid - 1) ∷ candidates else candidates)

  -- The leaf chain from `page_id` on, with the entries seen before it: the candidates and the entries seen.
  unfoldable pub scan_loop :
      List ℕ → BPlusTreeTrailer → Query → ℕ → ℕ → ℕ → List Bool → ℕ → Answer (List ℕ × ℕ)
  unfolding leaf_loop read_u32
  scan_loop file t q page_count zero page_id visited seen =
      if page_id == 0 then answered ([], seen) else out_of_fuel
  scan_loop file t q page_count (suc fuel) page_id visited seen =
      if page_id == 0 then answered ([], seen) else elim (page_offset_for page_id page_count) [
        | none ↦ refused
        | some page ↦ do
          refuse_if (get_or visited page_id true)
          next_page_id ← read_u32 file page
          entry_count ← read_u32 file (page + 4)
          refuse_if (ltb (max_per_page t.value_size) entry_count)
          refuse_if (ltb t.total_value_count seen || ltb (t.total_value_count - seen) entry_count)
          here ← leaf_loop file t q page entry_count 0
          more ←
              scan_loop file t q page_count fuel next_page_id (set visited page_id true)
                (seen + entry_count)
          answered (here ++ more.0, more.1)
      ]

  -- The tree of a file that has one.
  unfoldable pub query_tree : List ℕ → BPlusTreeTrailer → Query → ℕ → Answer (List ℕ)
  unfolding descend scan_loop sort_unique
  query_tree file t q page_count =
      let values_offset = 12 + max_per_page t.value_size * 4 in
      do
        refuse_if (page_count == 0 || ltb page_count t.tree_depth)
        refuse_if (max_per_page t.value_size == 0)
        refuse_if (ltb page_size values_offset || ltb (page_size - values_offset) t.value_size)
        leaf ← descend file t page_count (t.tree_depth - 1) 1 (replicate (page_count + 1) false)
        found ← scan_loop file t q page_count (page_count + 1) leaf.0 leaf.1 0
        refuse_if (not (found.1 == t.total_value_count))
        answered (sort_unique found.0)

  -- `query_direct` on a file that is read.
  unfoldable pub query_file : List ℕ → Query → Answer (List ℕ)
  unfolding query_tree trailer_of
  query_file file q =
      let page_bytes = length file - trailer_size in
      do
        refuse_if (ltb (2 ^ 63 - 1) (length file))
        refuse_if (ltb (length file) trailer_size)
        refuse_if (not (page_bytes % page_size == 0))
        t ← trailer_of file
        refuse_if ((q.is_text && not t.is_string) || (not q.is_text && not t.is_numeric))
        (if t.tree_depth == 0
            then (do refuse_if (not (t.total_value_count == 0)); answered [])
            else query_tree file t q (page_bytes / page_size))

  -- `none` is a file that cannot be opened or read.
  unfoldable pub query_direct : Option (List ℕ) → Query → Answer (List ℕ)
  unfolding query_file
  query_direct none q = refused
  query_direct (some file) q = query_file file q
