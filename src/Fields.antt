-- ===== src/Fields.antt =====
-- common/explorgdb_types.h of src/edgar/explorgdb: the fields of a table, and a field of a row in a mapped file.
-- `data` with `byte_len` is the list of the bytes that it points at.
use fast_gdb.Base.{ℕ, Bool, List}
use fast_gdb.Base.Int.{ℤ}

pub data FieldType : Type 0 where
  int16 int32 float32 float64 string date_time object_id geometry binary raster : FieldType
  uuid_1 uuid_2 xml int64 date time date_time_with_offset : FieldType

-- The name, the type and the flags of a field; what the other fields say of it is read by no part here.
pub record FieldDescriptor : Type 0 where
  pub name : List ℕ
  pub type : FieldType
  pub flag : ℕ

pub record FieldRef : Type 0 where
  pub type : FieldType
  pub bytes : List ℕ
  pub is_null : Bool
  pub implicit_value : ℤ
