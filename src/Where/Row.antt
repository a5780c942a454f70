-- ===== src/Where/Row.antt =====
-- The two forms of a row: `FieldRef`, the bytes of a field in a mapped file, and `FieldValue`, a field as it is
-- decoded; and how `evaluate_literal` reads either. `data` with `byte_len` is the list of the bytes.
use fast_gdb.Base.{
  ℕ, Bool, true, false, not, ◌||◌, List, [], ◌∷◌, Option, none, some, ltb, if◌then◌else◌, length,
  take, drop,
}
use fast_gdb.Base.Int.{ℤ, pos, signed}
use fast_gdb.BinaryReader.Bounds.{le_value}
use fast_gdb.Where.{
  Doubles, AttrOp, eq_op, ne_op, lt_op, le_op, gt_op, ge_op, Literal, string_value, numeric_value,
}
use fast_gdb.Fields.{
  FieldRef, FieldType, int16, int32, float32, float64, string, date_time, object_id, uuid_1, uuid_2,
  xml, int64, date, time, date_time_with_offset,
}

pub data FieldValue (D : Type 0) : Type 0 where
  null_value : FieldValue D
  int32_value int64_value : ℤ → FieldValue D
  double_value : D → FieldValue D
  date_time_offset : D → ℤ → FieldValue D
  text_value blob_value : List ℕ → FieldValue D

abbrev pub is_numeric_field : FieldType → Bool
is_numeric_field int16 = true
is_numeric_field int32 = true
is_numeric_field int64 = true
is_numeric_field float32 = true
is_numeric_field float64 = true
is_numeric_field date_time = true
is_numeric_field date = true
is_numeric_field time = true
is_numeric_field date_time_with_offset = true
is_numeric_field object_id = true
is_numeric_field _ = false

abbrev pub is_string_field : FieldType → Bool
is_string_field string = true
is_string_field xml = true
is_string_field uuid_1 = true
is_string_field uuid_2 = true
is_string_field _ = false

-- The methods of `FieldRef`.
abbrev pub too_short : FieldRef → ℕ → Bool
too_short v n = v.is_null || ltb (length v.bytes) n

unfoldable pub as_i16 : FieldRef → ℤ
as_i16 v = if too_short v 2 then pos 0 else signed 15 (le_value (take 2 v.bytes))

unfoldable pub as_i32 : FieldRef → ℤ
as_i32 v = if too_short v 4 then v.implicit_value else signed 31 (le_value (take 4 v.bytes))

unfoldable pub as_i64 : FieldRef → ℤ
as_i64 v = if too_short v 8 then v.implicit_value else signed 63 (le_value (take 8 v.bytes))

unfoldable pub as_datetime_offset_minutes : FieldRef → ℤ
as_datetime_offset_minutes v =
    if too_short v 10 then pos 0 else signed 15 (le_value (take 2 (drop 8 v.bytes)))

abbrev pub as_string_view : FieldRef → List ℕ
as_string_view v = if v.is_null then [] else v.bytes

-- `std::string_view::compare` on bytes: below, equal or above.
pub data Order : Type 0 where
  below same above : Order

unfoldable pub compare_bytes : List ℕ → List ℕ → Order
compare_bytes [] [] = same
compare_bytes [] (y ∷ ys) = below
compare_bytes (x ∷ xs) [] = above
compare_bytes (x ∷ xs) (y ∷ ys) =
    let rest = compare_bytes xs ys in if ltb x y then below else if ltb y x then above else rest

abbrev pub order_matches : Order → AttrOp → Bool
order_matches same eq_op = true
order_matches same le_op = true
order_matches same ge_op = true
order_matches same _ = false
order_matches below ne_op = true
order_matches below lt_op = true
order_matches below le_op = true
order_matches below _ = false
order_matches above ne_op = true
order_matches above gt_op = true
order_matches above ge_op = true
order_matches above _ = false

unfoldable pub compare_string : List ℕ → List ℕ → AttrOp → Bool
unfolding compare_bytes
compare_string left right op = order_matches (compare_bytes left right) op

abbrev pub is_ne : AttrOp → Bool
is_ne ne_op = true
is_ne _ = false

abbrev pub is_some_and {ℓ} : {A : Type ℓ} → Option A → (A → Bool) → Bool
is_some_and none p = false
is_some_and (some a) p = p a

module _ (D : Doubles) where
  open D use {Double, equal, less, less_eq, from_int, from_f32, from_f64, zero_double}

  unfoldable pub compare_numeric : Double → Double → AttrOp → Bool
  compare_numeric left right eq_op = equal left right
  compare_numeric left right ne_op = not (equal left right)
  compare_numeric left right lt_op = less left right
  compare_numeric left right le_op = less_eq left right
  compare_numeric left right gt_op = less right left
  compare_numeric left right ge_op = less_eq right left

  unfoldable pub as_f32 : FieldRef → Double
  as_f32 v = if too_short v 4 then zero_double else from_f32 (take 4 v.bytes)

  unfoldable pub as_f64 : FieldRef → Double
  as_f64 v = if too_short v 8 then zero_double else from_f64 (take 8 v.bytes)

  -- By the type of a field that is not null.
  abbrev pub numeric_of_type : FieldType → FieldRef → Option Double
  numeric_of_type int16 v = some (from_int (as_i16 v))
  numeric_of_type int32 v = some (from_int (as_i32 v))
  numeric_of_type object_id v = some (from_int (as_i32 v))
  numeric_of_type int64 v = some (from_int (as_i64 v))
  numeric_of_type float32 v = some (as_f32 v)
  numeric_of_type float64 v = some (as_f64 v)
  numeric_of_type date_time v = some (as_f64 v)
  numeric_of_type date v = some (as_f64 v)
  numeric_of_type time v = some (as_f64 v)
  numeric_of_type date_time_with_offset v = some (as_f64 v)
  numeric_of_type _ v = none

  unfoldable pub field_ref_as_double : FieldRef → Option Double
  field_ref_as_double v = if v.is_null then none else numeric_of_type v.type v

  unfoldable pub field_ref_as_string : FieldRef → Option (List ℕ)
  field_ref_as_string v =
      if v.is_null || not (is_string_field v.type) then none else some (as_string_view v)

  unfoldable pub field_value_as_double : FieldValue Double → Option Double
  field_value_as_double (int32_value n) = some (from_int n)
  field_value_as_double (int64_value n) = some (from_int n)
  field_value_as_double (double_value x) = some x
  field_value_as_double (date_time_offset x minutes) = some x
  field_value_as_double _ = none

  unfoldable pub field_value_as_string : FieldValue Double → Option (List ℕ)
  field_value_as_string (text_value s) = some s
  field_value_as_string _ = none

  -- The two overloads of `evaluate_literal`.
  unfoldable pub evaluate_ref : FieldRef → Literal Double → AttrOp → Bool
  evaluate_ref v (string_value s) op =
      if v.is_null
      then is_ne op
      else is_some_and (field_ref_as_string v) (λ actual. compare_string actual s op)
  evaluate_ref v (numeric_value x) op =
      if v.is_null
      then is_ne op
      else is_some_and (field_ref_as_double v) (λ actual. compare_numeric actual x op)

  abbrev pub is_null_value : FieldValue Double → Bool
  is_null_value null_value = true
  is_null_value _ = false

  unfoldable pub evaluate_value : FieldValue Double → Literal Double → AttrOp → Bool
  evaluate_value v (string_value s) op =
      if is_null_value v
      then is_ne op
      else is_some_and (field_value_as_string v) (λ actual. compare_string actual s op)
  evaluate_value v (numeric_value x) op =
      if is_null_value v
      then is_ne op
      else is_some_and (field_value_as_double v) (λ actual. compare_numeric actual x op)
