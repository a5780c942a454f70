-- ===== src/Where/Eval/Agree.antt =====
-- The two forms of one row give the same answer.
use fast_gdb.Base.{
  ℕ, zero, suc, ◌≡◌, refl, ◌∙◌, sym, ap, ap₂, Bool, true, false, not, ◌&&◌, ◌||◌, List, [], ◌∷◌,
  Option, none, if◌then◌else◌, some, get_elem?, inl, inr, ◌⊎◌, subst,
}
use fast_gdb.Base.Options.{unsome}
use fast_gdb.Where.{
  Doubles, AttrOp, eq_op, Literal, string_value, numeric_value, Expr, comparison, in_list, and_expr,
  or_expr,
}
use fast_gdb.Fields.{
  FieldType, int16, int32, float32, float64, string, date_time, object_id, xml, int64, date, time,
  date_time_with_offset, geometry, binary, raster, uuid_1, uuid_2,
}
use fast_gdb.Where.Row.{
  FieldValue, null_value, int32_value, int64_value, double_value, date_time_offset, text_value,
  as_i16, as_i32, as_i64, as_f32, as_f64, as_string_view, as_datetime_offset_minutes, evaluate_ref,
  evaluate_value, is_some_and, is_null_value, is_string_field, numeric_of_type, compare_string,
  compare_numeric, field_ref_as_double, field_ref_as_string, field_value_as_double,
  field_value_as_string,
}
use fast_gdb.Fields.{FieldRef}
use fast_gdb.Where.Eval.{any_field_literal, any_value_literal, evaluate_fields, evaluate_record}

if_false : {A : Type 0} (b : Bool) (x y : A) → b ≡ false → (if b then x else y) ≡ y
if_false b x y h = rw h refl

or_false :
    {A : Type 0} (b c : Bool) (x y : A)
    → b ≡ false
    → (if b || c then x else y) ≡ (if c then x else y)
or_false b c x y h = rw h refl

module _ (D : Doubles) where
  open D use {Double}

  -- The decoded value of a field, by its type; a UUID, whose decoded text is another one than its bytes, a
  -- geometry, a blob and a raster have none.
  abbrev pub decoded : FieldType → FieldRef → Option (FieldValue Double)
  decoded int16 v = some (int32_value (as_i16 v))
  decoded int32 v = some (int32_value (as_i32 v))
  decoded object_id v = some (int32_value (as_i32 v))
  decoded int64 v = some (int64_value (as_i64 v))
  decoded float32 v = some (double_value (as_f32 D v))
  decoded float64 v = some (double_value (as_f64 D v))
  decoded date_time v = some (double_value (as_f64 D v))
  decoded date v = some (double_value (as_f64 D v))
  decoded time v = some (double_value (as_f64 D v))
  decoded date_time_with_offset v =
      some (date_time_offset (as_f64 D v) (as_datetime_offset_minutes v))
  decoded string v = some (text_value (as_string_view v))
  decoded xml v = some (text_value (as_string_view v))
  decoded _ v = none

  abbrev pub Decodes : FieldRef → FieldValue Double → Type 0
  Decodes v w =
      (v.is_null ≡ true) × (w ≡ null_value) ⊎ (v.is_null ≡ false) × (decoded v.type v ≡ some w)

  abbrev pub DecodesRow : List FieldRef → List (FieldValue Double) → Type 0
  DecodesRow [] [] = Unit {0}
  DecodesRow (v ∷ vs) (w ∷ ws) = Decodes v w × DecodesRow vs ws
  DecodesRow _ _ = ⊥

  -- What either form reads as, by the type.
  abbrev SameReads : FieldType → FieldRef → FieldValue Double → Type 0
  SameReads type v w =
      (numeric_of_type D type v ≡ field_value_as_double D w)
      × ((if not (is_string_field type) then none else some (as_string_view v))
          ≡ field_value_as_string D w)
      × (is_null_value D w ≡ false)

  decoded-SameReads :
      (type : FieldType) (v : FieldRef) (w : FieldValue Double)
      → decoded type v ≡ some w
      → SameReads type v w
  unfolding field_value_as_double field_value_as_string
  decoded-SameReads int16 v w h = subst (SameReads int16 v) (unsome h) (refl, refl, refl)
  decoded-SameReads int32 v w h = subst (SameReads int32 v) (unsome h) (refl, refl, refl)
  decoded-SameReads float32 v w h = subst (SameReads float32 v) (unsome h) (refl, refl, refl)
  decoded-SameReads float64 v w h = subst (SameReads float64 v) (unsome h) (refl, refl, refl)
  decoded-SameReads string v w h = subst (SameReads string v) (unsome h) (refl, refl, refl)
  decoded-SameReads date_time v w h = subst (SameReads date_time v) (unsome h) (refl, refl, refl)
  decoded-SameReads object_id v w h = subst (SameReads object_id v) (unsome h) (refl, refl, refl)
  decoded-SameReads xml v w h = subst (SameReads xml v) (unsome h) (refl, refl, refl)
  decoded-SameReads int64 v w h = subst (SameReads int64 v) (unsome h) (refl, refl, refl)
  decoded-SameReads date v w h = subst (SameReads date v) (unsome h) (refl, refl, refl)
  decoded-SameReads time v w h = subst (SameReads time v) (unsome h) (refl, refl, refl)
  decoded-SameReads date_time_with_offset v w h =
      subst (SameReads date_time_with_offset v) (unsome h) (refl, refl, refl)
  decoded-SameReads geometry v w h = cc
  decoded-SameReads binary v w h = cc
  decoded-SameReads raster v w h = cc
  decoded-SameReads uuid_1 v w h = cc
  decoded-SameReads uuid_2 v w h = cc

  literal_same :
      (v : FieldRef) (w : FieldValue Double) (l : Literal Double) (op : AttrOp)
      → Decodes v w
      → evaluate_ref D v l op ≡ evaluate_value D w l op
  unfolding evaluate_ref evaluate_value field_ref_as_double field_ref_as_string
  literal_same v w (string_value s) op (inl (n, e)) = rw (n, e) refl
  literal_same v w (numeric_value x) op (inl (n, e)) = rw (n, e) refl
  literal_same v w (string_value s) op (inr (n, e)) =
      let (_, text, no_null) = decoded-SameReads v.type v w e in
      if_false v.is_null _ _ n
      ∙ ap (λ r. is_some_and r (λ actual. compare_string actual s op))
          (or_false v.is_null _ _ _ n ∙ text)
      ∙ sym (if_false (is_null_value D w) _ _ no_null)
  literal_same v w (numeric_value x) op (inr (n, e)) =
      let (numeric, _, no_null) = decoded-SameReads v.type v w e in
      if_false v.is_null _ _ n
      ∙ ap (λ r. is_some_and r (λ actual. compare_numeric D actual x op))
          (if_false v.is_null _ _ n ∙ numeric)
      ∙ sym (if_false (is_null_value D w) _ _ no_null)

  any_same :
      (v : FieldRef) (w : FieldValue Double) (ls : List (Literal Double))
      → Decodes v w
      → any_field_literal D v ls ≡ any_value_literal D w ls
  any_same v w [] d = refl
  any_same v w (l ∷ ls) d = ap₂ (λ a b. a || b) (literal_same v w l eq_op d) (any_same v w ls d)

  -- A field of the row, or none in either.
  field_same :
      (vs : List FieldRef) (ws : List (FieldValue Double)) (i : ℕ) (test : FieldRef → Bool)
      (test' : FieldValue Double → Bool)
      → DecodesRow vs ws
      → ((v : FieldRef) (w : FieldValue Double) → Decodes v w → test v ≡ test' w)
      → is_some_and (get_elem? vs i) test ≡ is_some_and (get_elem? ws i) test'
  field_same [] [] i test test' d h = refl
  field_same [] (w ∷ ws) i test test' d h = absurd d
  field_same (v ∷ vs) [] i test test' d h = absurd d
  field_same (v ∷ vs) (w ∷ ws) zero test test' (d, ds) h = h v w d
  field_same (v ∷ vs) (w ∷ ws) (suc i) test test' (d, ds) h = field_same vs ws i test test' ds h

  -- The two overloads of `evaluate_expr` on a row whose fields decode to the values.
  pub evaluate_fields-DecodesRow :
      (vs : List FieldRef) (ws : List (FieldValue Double)) (e : Expr Double)
      → DecodesRow vs ws
      → evaluate_fields D vs e ≡ evaluate_record D ws e
  unfolding evaluate_fields evaluate_record
  evaluate_fields-DecodesRow vs ws (comparison f op l) d =
      field_same vs ws f.field_index _ _ d (λ v w. literal_same v w l op)
  evaluate_fields-DecodesRow vs ws (in_list f ls) d =
      field_same vs ws f.field_index _ _ d (λ v w. any_same v w ls)
  evaluate_fields-DecodesRow vs ws (and_expr l r) d =
      ap₂ (λ a b. a && b) (evaluate_fields-DecodesRow vs ws l d)
        (evaluate_fields-DecodesRow vs ws r d)
  evaluate_fields-DecodesRow vs ws (or_expr l r) d =
      ap₂ (λ a b. a || b) (evaluate_fields-DecodesRow vs ws l d)
        (evaluate_fields-DecodesRow vs ws r d)
