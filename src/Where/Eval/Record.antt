-- ===== src/Where/Eval/Record.antt =====
-- The value of one field as reader/format/gdb_table_record.cpp decodes it: `read_fixed_field_value`, and what
-- `parse_record_without_geometry` does with a field that is not null.
use fast_gdb.Base.{
  ℕ, zero, suc, ◌+◌, ◌/◌, ◌%◌, ◌^◌, not, ◌||◌, List, [], ◌∷◌, ◌++◌, Option, none, some, ltb, ◌==◌,
  if◌then◌else◌, take, drop,
}
use fast_gdb.Base.Int.{signed}
use fast_gdb.BinaryReader.{
  ok, M, ◌>>=◌, ◌>>◌, return, read_u8, read_i16, read_i32, read_i64, read_f32, read_f64, read_bytes,
  read_varuint, skip, can_read,
}
use fast_gdb.Fields.{
  FieldType, int16, int32, float32, float64, string, date_time, geometry, binary, raster, uuid_1,
  uuid_2, xml, int64, date, time, date_time_with_offset,
}
use fast_gdb.Rows.{fixed_physical_width, is_object_id}
use fast_gdb.Where.{Doubles}
use fast_gdb.Where.Row.{
  FieldValue, null_value, int32_value, int64_value, double_value, date_time_offset, text_value,
  blob_value,
}

-- `%02x` of each byte.
abbrev pub hex_digit : ℕ → ℕ
hex_digit n = if ltb n 10 then b'0' + n else 87 + n

abbrev pub hex : List ℕ → List ℕ
hex [] = []
hex (b ∷ bs) = hex_digit (b / 16) ∷ hex_digit (b % 16) ∷ hex bs

-- `std::reverse`.
abbrev pub reversed : List ℕ → List ℕ
reversed [] = []
reversed (b ∷ bs) = reversed bs ++ (b ∷ [])

unfoldable pub uuid_text : List ℕ → List ℕ
uuid_text bytes =
    hex (reversed (take 4 bytes))
    ++ (b'-' ∷ hex (reversed (take 2 (drop 4 bytes))))
    ++ (b'-' ∷ hex (reversed (take 2 (drop 6 bytes))))
    ++ (b'-' ∷ hex (take 2 (drop 8 bytes)))
    ++ (b'-' ∷ hex (take 6 (drop 10 bytes)))

-- The loop over the bytes of a text.
unfoldable pub read_text : ℕ → M (List ℕ)
unfolding read_u8
read_text zero = return []
read_text (suc n) = do byte ← read_u8; rest ← read_text n; return (byte ∷ rest)

module _ (D : Doubles) where
  open D use {Double, from_f32, from_f64}

  -- The switch of `read_fixed_field_value`; `none` where it returns false.
  unfoldable pub fixed_value : FieldType → M (Option (FieldValue Double))
  unfolding uuid_text
  fixed_value int16 = read_i16 >>= λ n. return (some (int32_value n))
  fixed_value int32 = read_i32 >>= λ n. return (some (int32_value n))
  fixed_value int64 = read_i64 >>= λ n. return (some (int64_value n))
  fixed_value float32 = read_f32 from_f32 >>= λ x. return (some (double_value x))
  fixed_value float64 = read_f64 from_f64 >>= λ x. return (some (double_value x))
  fixed_value date_time = read_f64 from_f64 >>= λ x. return (some (double_value x))
  fixed_value date = read_f64 from_f64 >>= λ x. return (some (double_value x))
  fixed_value time = read_f64 from_f64 >>= λ x. return (some (double_value x))
  fixed_value date_time_with_offset =
      read_f64 from_f64 >>= λ x. read_i16 >>= λ n. return (some (date_time_offset x n))
  fixed_value uuid_1 = read_bytes 16 >>= λ bytes. return (some (text_value (uuid_text bytes)))
  fixed_value uuid_2 = read_bytes 16 >>= λ bytes. return (some (text_value (uuid_text bytes)))
  fixed_value _ = return none

  unfoldable pub read_fixed_field_value : FieldType → ℕ → M (Option (FieldValue Double))
  unfolding fixed_value fixed_physical_width
  read_fixed_field_value type implicit_object_id r =
      let width = fixed_physical_width type in
      if is_object_id type
      then (ok (some (int32_value (signed 31 implicit_object_id))), r)
      else if width == 0 || not (can_read r width)
      then (ok none, r)
      else fixed_value type r

  -- A length, and what is read of as many bytes.
  abbrev pub counted_value : (ℕ → M (Option (FieldValue Double))) → M (Option (FieldValue Double))
  counted_value read =
      read_varuint >>= λ length r. if not (can_read r length) then (ok none, r) else read length r

  unfoldable pub read_counted : FieldType → M (Option (FieldValue Double))
  unfolding read_text
  read_counted string =
      counted_value (λ length. read_text length >>= λ text. return (some (text_value text)))
  read_counted xml =
      counted_value (λ length. read_text length >>= λ text. return (some (text_value text)))
  read_counted binary =
      counted_value (λ length. read_bytes length >>= λ bytes. return (some (blob_value bytes)))
  read_counted raster = counted_value (λ length. skip length >> return (some null_value))
  read_counted geometry = counted_value (λ length. skip length >> return (some (text_value [])))
  read_counted _ = return none

  -- One field that is not null; `none` where the layout is not valid.
  unfoldable pub read_field_value : ℕ → FieldType → M (Option (FieldValue Double))
  unfolding read_fixed_field_value read_counted
  read_field_value fid type =
      if is_object_id type || not (fixed_physical_width type == 0)
      then read_fixed_field_value type ((fid + 1) % 2 ^ 32)
      else read_counted type
