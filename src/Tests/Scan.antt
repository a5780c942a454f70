-- ===== src/Tests/Scan.antt =====
-- Rows of a table of three fields.
use fast_gdb.Base.{ℕ, ◌≡◌, refl, true, false, List, [], ◌∷◌, ◌++◌, some, arith, drop}
use fast_gdb.BinaryReader.{Reader, read_varuint}
use fast_gdb.BinaryReader.Bounds.{IsValid}
use fast_gdb.Fields.{FieldDescriptor, FieldRef, int32, string, object_id}
use fast_gdb.Rows.{
  read_varuint_checked, checked_loop, field_ref, parse_row_refs, set_fixed_field_ref,
  fixed_physical_width, set_counted_field_ref, layout_fields, keep_better, try_layout, present_loop,
  bitmap_bytes_loop, null_ref, ref_of,
}
use fast_gdb.Rows.Checked.{Agrees, read_varuint_checked-read_varuint}
use fast_gdb.Rows.RoundTrip.{
  Stores, no_fields, absent, present, required, implicit, fixed, counted, Marks, AreBytes,
  parse_row_refs-Stores,
}
use fast_gdb.Rows.Chosen.{IsChosen, parse_row_refs-IsChosen}
use fast_gdb.Rows.Skip.{SkipsTo, field_ref-skip_field_value}
use fast_gdb.Varint.{encode_varuint}

abbrev length_buffer : Reader
length_buffer = record { bytes = 9 ∷ 0xac ∷ 2 ∷ 7 ∷ []; pos_ = 1 }

length_buffer-IsValid : IsValid length_buffer
length_buffer-IsValid = record {
  inside = omega arith;
  allocated = omega arith;
  octets = omega arith;
}

read_varuint_checked-read_varuint_example :
    Agrees length_buffer.bytes
      (read_varuint_checked (drop length_buffer.pos_ length_buffer.bytes))
      (read_varuint length_buffer)
read_varuint_checked-read_varuint_example =
    read_varuint_checked-read_varuint length_buffer length_buffer-IsValid

abbrev id_field : FieldDescriptor
id_field = record { name = 105 ∷ []; type = object_id; flag = 0 }

abbrev count_field : FieldDescriptor
count_field = record { name = 99 ∷ []; type = int32; flag = 1 }

abbrev width_field : FieldDescriptor
width_field = record { name = 119 ∷ []; type = int32; flag = 5 }

abbrev name_field : FieldDescriptor
name_field = record { name = 110 ∷ []; type = string; flag = 0 }

abbrev four_fields : List FieldDescriptor
four_fields = id_field ∷ count_field ∷ width_field ∷ name_field ∷ []

abbrev four_raw : List ℕ
four_raw = [] ++ ((7 ∷ 0 ∷ 0 ∷ 0 ∷ []) ++ ((encode_varuint 2 ++ (97 ∷ 98 ∷ [])) ++ []))

abbrev four_refs : List FieldRef
four_refs =
    ref_of 4 object_id []
    ∷ null_ref 4 int32
    ∷ ref_of 4 int32 (7 ∷ 0 ∷ 0 ∷ 0 ∷ [])
    ∷ ref_of 4 string (97 ∷ 98 ∷ [])
    ∷ []

four_Stores : Stores 4 four_fields (true ∷ false ∷ []) four_raw four_refs
unfolding fixed_physical_width
four_Stores = required id_field _ _ _ _ _ _ refl implicit (
    absent count_field _ _ _ _ refl (
      present width_field _ _ _ _ _ _ refl (fixed int32 (7 ∷ 0 ∷ 0 ∷ 0 ∷ []) refl refl)
        (required name_field _ _ _ _ _ _ refl (counted string (97 ∷ 98 ∷ []) refl refl) no_fields)))

four_Marks : Marks (1 ∷ []) 0 (true ∷ false ∷ [])
four_Marks = ((1, refl, refl), ((1, refl, refl), tt))

four_AreBytes : AreBytes four_raw
unfolding encode_varuint
four_AreBytes = (omega arith, omega arith)

parse_row_refs-Stores_example :
    parse_row_refs four_fields 2 4 ((1 ∷ []) ++ four_raw) ≡ some four_refs
parse_row_refs-Stores_example =
    parse_row_refs-Stores four_fields 4 (true ∷ false ∷ []) (1 ∷ []) four_raw four_refs four_Stores
      four_Marks four_AreBytes refl (omega arith)

-- The same row and three zeros behind it. With one bit present the second number counts as null, its first byte as
-- the length of the text, and two zeros are left instead of three.
abbrev padded_row : List ℕ
padded_row = 1 ∷ 7 ∷ 0 ∷ 0 ∷ 0 ∷ 2 ∷ 97 ∷ 98 ∷ 0 ∷ 0 ∷ 0 ∷ []

abbrev misread_refs : List FieldRef
misread_refs =
    ref_of 4 object_id []
    ∷ null_ref 4 int32
    ∷ null_ref 4 int32
    ∷ ref_of 4 string (0 ∷ 0 ∷ 0 ∷ 2 ∷ 97 ∷ 98 ∷ 0 ∷ [])
    ∷ []

padded_row_misread : parse_row_refs four_fields 2 4 padded_row ≡ some misread_refs
unfolding parse_row_refs bitmap_bytes_loop present_loop try_layout keep_better layout_fields
    field_ref set_fixed_field_ref set_counted_field_ref fixed_physical_width read_varuint_checked
    checked_loop
padded_row_misread = refl

parse_row_refs-IsChosen_example :
    IsChosen four_fields 2 4 padded_row (parse_row_refs four_fields 2 4 padded_row)
parse_row_refs-IsChosen_example = parse_row_refs-IsChosen four_fields 2 4 padded_row (omega arith)

abbrev text_buffer : Reader
text_buffer = record { bytes = 2 ∷ 97 ∷ 98 ∷ 5 ∷ []; pos_ = 0 }

text_buffer-IsValid : IsValid text_buffer
text_buffer-IsValid = record { inside = omega arith; allocated = omega arith; octets = omega arith }

text_read :
    field_ref 4 string (2 ∷ 97 ∷ 98 ∷ 5 ∷ []) ≡ some (ref_of 4 string (97 ∷ 98 ∷ []), 5 ∷ [])
unfolding field_ref set_counted_field_ref read_varuint_checked checked_loop fixed_physical_width
text_read = refl

field_ref-skip_field_value_example : SkipsTo text_buffer string (5 ∷ [])
field_ref-skip_field_value_example =
    field_ref-skip_field_value text_buffer text_buffer-IsValid 4 string
      (ref_of 4 string (97 ∷ 98 ∷ [])) (5 ∷ []) text_read
