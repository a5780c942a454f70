-- ===== src/AttributeIndex.antt =====
-- reader/index/gdb_attribute_index.h and .cpp and gdb_attribute_index_query.cpp of src/edgar/explorgdb: the reader of an
-- .atx file, a B+ tree of the values of one field with the numbers of their rows. A file is the list of its bytes. An
-- address in it is the distance from its start, and a read behind its end is `undefined`.
pub mod Direct
pub mod Pages
pub mod Parse
pub mod Safe
pub mod Reading
pub mod Ends
pub mod Leaf
pub mod Agree
pub mod Down
pub mod Same
pub mod Keys
pub mod Superset
pub mod Candidates
use fast_gdb.Base.{
  ℕ, zero, suc, ◌+◌, ◌-◌, ◌*◌, ◌/◌, ◌%◌, ◌^◌, bit_and, bit_or, Bool, true, false, not, ◌&&◌, ◌||◌,
  List, [], ◌∷◌, ◌++◌, Option, none, some, ltb, leb, ◌==◌, if◌then◌else◌, length, take, drop,
}
use fast_gdb.Base.Int.{pos, signed}
use fast_gdb.BinaryReader.{Outcome, M, Reader, ok, ◌>>=◌, return, read_u8, read_u32}
use fast_gdb.BinaryReader.Bounds.{le_value}
use fast_gdb.Where.{Doubles, AttrOp}
use fast_gdb.Where.Row.{Order, below, same, above}

pub record BPlusTreeTrailer : Type 0 where
  pub value_size : ℕ
  pub is_string : Bool
  pub is_numeric : Bool
  pub magic1 : ℕ
  pub tree_depth : ℕ
  pub total_value_count : ℕ

pub record AttributeIndexEntry (D : Type 0) : Type 0 where
  pub fid : ℕ
  pub numeric_value : D
  pub string_value : List ℕ

abbrev pub page_size : ℕ
page_size = 4096

abbrev pub trailer_size : ℕ
trailer_size = 22

abbrev pub max_per_page : ℕ → ℕ
max_per_page value_size = (page_size - 12) / (4 + value_size)

-- `parse_trailer`, over the last bytes of the file.
unfoldable pub parse_trailer : M BPlusTreeTrailer
parse_trailer = do
  value_size ← read_u8
  flags ← read_u8
  magic1 ← read_u32
  tree_depth ← read_u32
  total_value_count ← read_u32
  return (record {
    value_size = value_size;
    is_string = not (bit_and flags 0x20 == 0);
    is_numeric = not (bit_and flags 0x40 == 0);
    magic1 = magic1;
    tree_depth = tree_depth;
    total_value_count = total_value_count;
  })

abbrev pub trailer_reader : List ℕ → Reader
trailer_reader file = record { bytes = drop (length file - trailer_size) file; pos_ = 0 }

-- The bytes of a character of sixteen bits.
abbrev pub character_bytes : ℕ → List ℕ
character_bytes character =
    if ltb character 0x80
    then character ∷ []
    else if ltb character 0x800
    then bit_or 0xC0 (character / 2 ^ 6) ∷ bit_or 0x80 (bit_and character 0x3F) ∷ []
    else bit_or 0xE0 (character / 2 ^ 12)
      ∷ bit_or 0x80 (bit_and (character / 2 ^ 6) 0x3F)
      ∷ bit_or 0x80 (bit_and character 0x3F)
      ∷ []

-- The characters up to the first zero or space; `n` of them are left, and the bytes are there.
unfoldable pub decode_characters : ℕ → List ℕ → List ℕ
decode_characters zero bytes = []
decode_characters (suc n) [] = []
decode_characters (suc n) (low ∷ []) = []
decode_characters (suc n) (low ∷ high ∷ bytes) =
    let character = bit_or low (high * 2 ^ 8) in
    let rest = decode_characters n bytes in
    if character == 0 || character == 0x20 then [] else character_bytes character ++ rest

-- `nan` is what std::nan gives.
module _ (D : Doubles) (nan : D.Double) where
  open D use {Double, less, from_int, from_f64, zero_double}

  unfoldable pub decode_value : List ℕ → ℕ → Bool → ℕ → AttributeIndexEntry Double
  unfolding decode_characters le_value
  decode_value bytes value_size is_string fid =
      let number =
        if value_size == 2
        then from_int (pos (le_value (take 2 bytes)))
        else if value_size == 4
        then from_int (signed 31 (le_value (take 4 bytes)))
        else if value_size == 8
        then from_f64 (take 8 bytes)
        else zero_double in
      if is_string
      then record {
        fid = fid;
        numeric_value = nan;
        string_value = decode_characters (value_size / 2) bytes;
      }
      else record { fid = fid; numeric_value = number; string_value = [] }

  abbrev pub compare_doubles : Double → Double → Order
  compare_doubles indexed value =
      if less indexed value then below else if less value indexed then above else same
