-- ===== src/Rows.antt =====
-- reader/format/field_layout.h and gdb_table_field_scan.cpp of src/edgar/explorgdb: the layout of the fields in a
-- row, and the scan of rows that leaves their bytes where they are. A pointer into a row, with the end of the row,
-- is the list of the bytes between them.
pub mod Checked
pub mod RoundTrip
pub mod Best
pub mod Chosen
pub mod Skip
use fast_gdb.Base.{
  ℕ, zero, suc, ◌+◌, ◌-◌, ◌*◌, ◌/◌, ◌%◌, ◌^◌, bit_and, bit_or, Bool, true, false, not, ◌&&◌, ◌||◌,
  List, [], ◌∷◌, ◌++◌, Option, none, some, ltb, leb, ◌==◌, if◌then◌else◌, length, get_elem?, take,
  drop,
}
use fast_gdb.Base.Int.{ℤ, signed}
use fast_gdb.Base.Options.{◌>>=◌}
use fast_gdb.Fields.{
  FieldType, FieldDescriptor, FieldRef, int16, int32, float32, float64, string, date_time,
  object_id, geometry, binary, raster, uuid_1, uuid_2, xml, int64, date, time,
  date_time_with_offset,
}

unfoldable pub fixed_physical_width : FieldType → ℕ
fixed_physical_width int16 = 2
fixed_physical_width int32 = 4
fixed_physical_width float32 = 4
fixed_physical_width int64 = 8
fixed_physical_width float64 = 8
fixed_physical_width date_time = 8
fixed_physical_width date = 8
fixed_physical_width time = 8
fixed_physical_width date_time_with_offset = 10
fixed_physical_width uuid_1 = 16
fixed_physical_width uuid_2 = 16
fixed_physical_width _ = 0

-- The types whose content follows its length.
abbrev pub is_counted : FieldType → Bool
is_counted string = true
is_counted xml = true
is_counted binary = true
is_counted raster = true
is_counted geometry = true
is_counted _ = false

-- `read_varuint_checked`: the number, and the bytes behind it.
unfoldable pub checked_loop : ℕ → ℕ → List ℕ → Option (ℕ × List ℕ)
checked_loop shift value [] = none
checked_loop shift value (byte ∷ rest) =
    let value' = bit_or value (bit_and byte 0x7f * 2 ^ shift % 2 ^ 64) in
    let more = checked_loop (shift + 7) value' rest in
    if not (leb shift 63)
    then none
    else if bit_and byte 0x80 == 0
    then some (value', rest)
    else more

unfoldable pub read_varuint_checked : List ℕ → Option (ℕ × List ℕ)
read_varuint_checked text = checked_loop 0 0 text

abbrev pub is_object_id : FieldType → Bool
is_object_id object_id = true
is_object_id _ = false

abbrev pub is_raster : FieldType → Bool
is_raster raster = true
is_raster _ = false

-- `static_cast<int32_t>(fid + 1)`
abbrev pub implicit_of : ℕ → ℤ
implicit_of fid = signed 31 ((fid + 1) % 2 ^ 32)

abbrev pub null_ref : ℕ → FieldType → FieldRef
null_ref fid type = record {
  type = type;
  bytes = [];
  is_null = true;
  implicit_value = implicit_of fid;
}

abbrev pub ref_of : ℕ → FieldType → List ℕ → FieldRef
ref_of fid type bytes = record {
  type = type;
  bytes = bytes;
  is_null = false;
  implicit_value = implicit_of fid;
}

-- `set_fixed_field_ref`: the bytes of the field, and those behind it.
unfoldable pub set_fixed_field_ref : FieldType → List ℕ → Option (List ℕ × List ℕ)
set_fixed_field_ref type cursor =
    let width = fixed_physical_width type in
    if is_object_id type
    then some ([], cursor)
    else if width == 0 || ltb (length cursor) width
    then none
    else some (take width cursor, drop width cursor)

-- A field with its length in front.
unfoldable pub set_counted_field_ref : List ℕ → Option (List ℕ × List ℕ)
set_counted_field_ref cursor = do
  (size, rest) ← read_varuint_checked cursor
  if ltb (length rest) size then none else some (take size rest, drop size rest)

abbrev pub is_nullable : FieldDescriptor → Bool
is_nullable f = f.flag % 2 == 1

-- The bit of a nullable field; beyond the bitmap and beyond the bits present it counts as set.
abbrev pub null_bit : ℕ → List ℕ → ℕ → Bool
null_bit present_bits bitmap bit =
    leb present_bits bit
    || elim (get_elem? bitmap (bit / 8)) [ none ↦ true | some byte ↦ byte / 2 ^ (bit % 8) % 2 == 1 ]

-- One field that is not null.
unfoldable pub field_ref : ℕ → FieldType → List ℕ → Option (FieldRef × List ℕ)
field_ref fid type cursor =
    if is_object_id type || not (fixed_physical_width type == 0)
    then (do (bytes, rest) ← set_fixed_field_ref type cursor; some (ref_of fid type bytes, rest))
    else if is_counted type
    then (do
      (bytes, rest) ← set_counted_field_ref cursor
      some (if is_raster type then null_ref fid type else ref_of fid type bytes, rest))
    else none

-- The loop over the fields of one layout: `bit` is the next bit of the bitmap.
unfoldable pub layout_fields :
    ℕ → List ℕ → ℕ → List FieldDescriptor → ℕ → List ℕ → Option (List FieldRef × List ℕ)
layout_fields present_bits bitmap fid [] bit cursor = some ([], cursor)
layout_fields present_bits bitmap fid (f ∷ fs) bit cursor =
    let nullable = is_nullable f in
    let next_bit = if nullable then bit + 1 else bit in
    let is_null = nullable && null_bit present_bits bitmap bit in
    let skipped = (do
      (refs, rest) ← layout_fields present_bits bitmap fid fs next_bit cursor
      some (null_ref fid f.type ∷ refs, rest)) in
    let taken = (do
      (ref, behind) ← field_ref fid f.type cursor
      (refs, rest) ← layout_fields present_bits bitmap fid fs next_bit behind
      some (ref ∷ refs, rest)) in
    if is_null then skipped else taken

abbrev pub all_zero : List ℕ → Bool
all_zero [] = true
all_zero (b ∷ bs) = b == 0 && all_zero bs

-- `best_padding` with `output`, once a layout is accepted.
abbrev pub Best : Type 0
Best = Option (ℕ × List FieldRef)

abbrev pub is_exact : Best → Bool
is_exact none = false
is_exact (some (padding, refs)) = padding == 0

abbrev pub no_better : Best → ℕ → Bool
no_better none padding = false
no_better (some (best, refs)) padding = leb best padding

-- What is kept of a layout that was tried.
unfoldable pub keep_better : Best → Option (List FieldRef × List ℕ) → Best
keep_better best none = best
keep_better best (some (refs, rest)) =
    if not (all_zero rest) || no_better best (length rest) then best else some (length rest, refs)

module _ (fields : List FieldDescriptor) (nullable_count fid : ℕ) (row : List ℕ) where
  -- One layout.
  unfoldable pub try_layout : ℕ → ℕ → Best → Best
  try_layout bitmap_bytes present_bits best =
      keep_better best
        (layout_fields present_bits (take bitmap_bytes row) fid fields 0 (drop bitmap_bytes row))

  -- The loop over `present_bits`, downwards.
  unfoldable pub present_loop : ℕ → ℕ → Best → Best
  present_loop bitmap_bytes zero best = try_layout bitmap_bytes zero best
  present_loop bitmap_bytes (suc present) best =
      let best' = try_layout bitmap_bytes (suc present) best in
      let next = present_loop bitmap_bytes present best' in if is_exact best' then best' else next

  abbrev pub max_present : ℕ → ℕ
  max_present bitmap_bytes =
      if ltb (bitmap_bytes * 8) nullable_count then bitmap_bytes * 8 else nullable_count

  abbrev pub try_bitmap : ℕ → Best → Best
  try_bitmap bitmap_bytes best =
      if leb bitmap_bytes (length row)
      then present_loop bitmap_bytes (max_present bitmap_bytes) best
      else best

  -- The loop over the lengths of the bitmap, downwards.
  unfoldable pub bitmap_bytes_loop : ℕ → Best → Best
  bitmap_bytes_loop zero best = try_bitmap zero best
  bitmap_bytes_loop (suc bitmap_bytes) best =
      let best' = try_bitmap (suc bitmap_bytes) best in
      let next = bitmap_bytes_loop bitmap_bytes best' in if is_exact best' then best' else next

  abbrev pub null_refs : List FieldDescriptor → List FieldRef
  null_refs [] = []
  null_refs (f ∷ fs) = null_ref fid f.type ∷ null_refs fs

  -- `none` is `false`.
  unfoldable pub parse_row_refs : Option (List FieldRef)
  parse_row_refs =
      if length row == 0
      then some (null_refs fields)
      else elim (bitmap_bytes_loop ((nullable_count + 7) / 8) none) [
        | none ↦ none
        | some (padding, refs) ↦ some refs
      ]
