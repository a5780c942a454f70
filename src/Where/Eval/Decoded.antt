-- ===== src/Where/Eval/Decoded.antt =====
-- The decoder of a field of fixed width in a record against the scan.
use fast_gdb.Base.{
  ℕ, zero, suc, ◌+◌, ◌≤◌, ◌≡◌, refl, ap, ◌∙◌, subst, Bool, true, false, List, [], ◌∷◌, some, arith,
  length, take, drop, ltb, ◌==◌, Bool-cases, inl, inr, length-drop, take-drop-take, drop-drop,
}
use fast_gdb.BinaryReader.{ok, Reader, size, can_read}
use fast_gdb.BinaryReader.Bounds.{IsValid}
use fast_gdb.BinaryReader.Moves.{skip-read_bytes-can_read}
use fast_gdb.BinaryReader.Signed.{
  next_bytes, read_i16-moved, read_i32-moved, read_i64-moved, read_f32-moved, read_f64-moved,
}
use fast_gdb.BinaryReader.Varuint.{moved}
use fast_gdb.Fields.{
  FieldType, FieldRef, int16, int32, float32, float64, string, date_time, object_id, geometry,
  binary, raster, uuid_1, uuid_2, xml, int64, date, time, date_time_with_offset,
}
use fast_gdb.Base.Options.{none_some, unsome}
use fast_gdb.Rows.{fixed_physical_width, ref_of, is_object_id, field_ref, set_fixed_field_ref}
use fast_gdb.Where.{Doubles}
use fast_gdb.Where.Eval.Agree.{decoded}
use fast_gdb.Where.Eval.Record.{fixed_value, read_fixed_field_value, read_field_value}
use fast_gdb.Where.Row.{as_i16, as_i32, as_i64, as_f32, as_f64, as_datetime_offset_minutes}

length-take_within : (n : ℕ) (xs : List ℕ) → n ≤ length xs → length (take n xs) ≡ n
length-take_within zero xs h = refl
length-take_within (suc n) [] h = absurd (omega arith)
length-take_within (suc n) (x ∷ xs) h = ap suc (length-take_within n xs (omega arith))

take_twice : (n : ℕ) (xs : List ℕ) → take n (take n xs) ≡ take n xs
take_twice zero xs = refl
take_twice (suc n) [] = refl
take_twice (suc n) (x ∷ xs) = ap (λ ys. x ∷ ys) (take_twice n xs)

-- The numeric types but for the number of the row.
abbrev pub is_stored_number : FieldType → Bool
is_stored_number int16 = true
is_stored_number int32 = true
is_stored_number int64 = true
is_stored_number float32 = true
is_stored_number float64 = true
is_stored_number date_time = true
is_stored_number date = true
is_stored_number time = true
is_stored_number date_time_with_offset = true
is_stored_number _ = false

stored_number :
    (type : FieldType)
    → is_stored_number type ≡ true
    → ((fixed_physical_width type == 0) ≡ false) × (is_object_id type ≡ false)
unfolding fixed_physical_width
stored_number int16 k = (refl, refl)
stored_number int32 k = (refl, refl)
stored_number int64 k = (refl, refl)
stored_number float32 k = (refl, refl)
stored_number float64 k = (refl, refl)
stored_number date_time k = (refl, refl)
stored_number date k = (refl, refl)
stored_number time k = (refl, refl)
stored_number date_time_with_offset k = (refl, refl)
stored_number string k = cc
stored_number xml k = cc
stored_number geometry k = cc
stored_number binary k = cc
stored_number raster k = cc
stored_number uuid_1 k = cc
stored_number uuid_2 k = cc
stored_number object_id k = cc

module _ (D : Doubles) (fid : ℕ) (r : Reader) (v : IsValid r) where
  open D use {Double, from_f32, from_f64}

  next_bytes_long : (n : ℕ) → r.pos_ + n ≤ size r → ltb (length (next_bytes n r)) n ≡ false
  next_bytes_long n h =
      let all : n ≤ length (drop r.pos_ r.bytes) = omega (arith, length-drop r.pos_ r.bytes) in
      let e = length-take_within n (drop r.pos_ r.bytes) all in ground (arith, e)

  IsValid-moved : (n : ℕ) → r.pos_ + n ≤ size r → IsValid (moved r n)
  IsValid-moved n h = record { inside = h; allocated = v.allocated; octets = v.octets }

  next_bytes_ten :
      r.pos_ + 10 ≤ size r
      → (ltb (length (next_bytes 10 r)) 8 ≡ false)
        × (ltb (length (next_bytes 10 r)) 10 ≡ false)
        × (take 8 (next_bytes 10 r) ≡ next_bytes 8 r)
        × (take 2 (drop 8 (next_bytes 10 r)) ≡ next_bytes 2 (moved r 8))
  next_bytes_ten h =
      let all : 10 ≤ length (drop r.pos_ r.bytes) = omega (arith, length-drop r.pos_ r.bytes) in
      let ten = length-take_within 10 (drop r.pos_ r.bytes) all in
      (
        ground (arith, ten),
        ground (arith, ten),
        take-drop-take 8 0 10 (drop r.pos_ r.bytes) (omega arith),
        take-drop-take 2 8 10 (drop r.pos_ r.bytes) (omega arith)
            ∙ ap (take 2) (drop-drop 8 r.pos_ r.bytes),
      )

  fixed_value-decoded :
      (type : FieldType)
      → is_stored_number type ≡ true
      → r.pos_ + fixed_physical_width type ≤ size r
      → fixed_value D type r ≡ (
        ok (decoded D type (ref_of fid type (next_bytes (fixed_physical_width type) r))),
        moved r (fixed_physical_width type),
      )
  unfolding fixed_value fixed_physical_width as_i16 as_i32 as_i64 as_f32 as_f64
      as_datetime_offset_minutes
  fixed_value-decoded int16 k h =
      rw (read_i16-moved r v h, next_bytes_long 2 h, take_twice 2 (drop r.pos_ r.bytes)) refl
  fixed_value-decoded int32 k h =
      rw (read_i32-moved r v h, next_bytes_long 4 h, take_twice 4 (drop r.pos_ r.bytes)) refl
  fixed_value-decoded int64 k h =
      rw (read_i64-moved r v h, next_bytes_long 8 h, take_twice 8 (drop r.pos_ r.bytes)) refl
  fixed_value-decoded float32 k h =
      rw (read_f32-moved r v from_f32 h, next_bytes_long 4 h, take_twice 4 (drop r.pos_ r.bytes))
        refl
  fixed_value-decoded float64 k h =
      rw (read_f64-moved r v from_f64 h, next_bytes_long 8 h, take_twice 8 (drop r.pos_ r.bytes))
        refl
  fixed_value-decoded date_time k h =
      rw (read_f64-moved r v from_f64 h, next_bytes_long 8 h, take_twice 8 (drop r.pos_ r.bytes))
        refl
  fixed_value-decoded date k h =
      rw (read_f64-moved r v from_f64 h, next_bytes_long 8 h, take_twice 8 (drop r.pos_ r.bytes))
        refl
  fixed_value-decoded time k h =
      rw (read_f64-moved r v from_f64 h, next_bytes_long 8 h, take_twice 8 (drop r.pos_ r.bytes))
        refl
  fixed_value-decoded date_time_with_offset k h =
      let (eight, ten, front, back) = next_bytes_ten h in
      let whole : r.pos_ + 8 + 2 ≡ r.pos_ + 10 = omega arith in
      let v' = IsValid-moved 8 (omega arith) in
      rw
        (
          read_f64-moved r v from_f64 (omega arith),
          read_i16-moved (moved r 8) v' (omega arith),
          eight,
          ten,
          front,
          back,
          whole,
        )
        refl
  fixed_value-decoded string k h = cc
  fixed_value-decoded xml k h = cc
  fixed_value-decoded geometry k h = cc
  fixed_value-decoded binary k h = cc
  fixed_value-decoded raster k h = cc
  fixed_value-decoded uuid_1 k h = cc
  fixed_value-decoded uuid_2 k h = cc
  fixed_value-decoded object_id k h = cc

  can_read-within : (n : ℕ) → r.pos_ + n ≤ size r → can_read r n ≡ true
  can_read-within n h =
      (skip-read_bytes-can_read r n v (omega (arith, v.allocated))).2 ∙ ground arith

  through :
      (type : FieldType)
      → is_object_id type ≡ false
      → (fixed_physical_width type == 0) ≡ false
      → can_read r (fixed_physical_width type) ≡ true
      → read_field_value D fid type r ≡ fixed_value D type r
  unfolding read_field_value read_fixed_field_value
  through type other wide enough = rw (other, wide) (rw (other, wide, enough) refl)

  -- A field of fixed width.
  pub read_number-decoded :
      (type : FieldType) (ref : FieldRef) (rest : List ℕ)
      → is_stored_number type ≡ true
      → field_ref fid type (drop r.pos_ r.bytes) ≡ some (ref, rest)
      → (ref.is_null ≡ false)
        × (read_field_value D fid type r
            ≡ (ok (decoded D ref.type ref), moved r (fixed_physical_width type)))
  unfolding field_ref set_fixed_field_ref
  read_number-decoded type ref rest k h =
      let (wide, other) = stored_number type k in
      let width = fixed_physical_width type in
      elim (Bool-cases (ltb (length (drop r.pos_ r.bytes)) width)) [
        | inl short ↦ none_some (rw (other, wide, short) at h)
        | inr enough ↦
            let e : (ref_of fid type (next_bytes width r), drop width (drop r.pos_ r.bytes))
                ≡ (ref, rest) =
              unsome (rw (other, wide, enough) at h) in
            let same : ref_of fid type (next_bytes width r) ≡ ref = ap (λ t. t.0) e in
            let left : width ≤ length (drop r.pos_ r.bytes) = ground arith in
            let fits : r.pos_ + width ≤ size r =
              omega (arith, length-drop r.pos_ r.bytes, v.inside) in
            subst
              (λ (x : FieldRef).
                (x.is_null ≡ false)
                × (read_field_value D fid type r ≡ (ok (decoded D x.type x), moved r width)))
              same
              (
                refl,
                through type other wide (can_read-within width fits)
                    ∙ fixed_value-decoded type k fits,
              )
      ]
