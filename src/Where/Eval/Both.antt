-- ===== src/Where/Eval/Both.antt =====
-- The two overloads of `evaluate_expr` on a row that the scan and the decoder of records read from the same bytes.
use fast_gdb.Base.{ℕ, ◌≡◌, refl, Bool, true, false, List, [], ◌∷◌, some, drop, ◌⊎◌, inl, inr}
use fast_gdb.BinaryReader.{ok, Reader}
use fast_gdb.BinaryReader.Bounds.{IsValid}
use fast_gdb.Fields.{
  FieldType, FieldRef, int16, int32, float32, float64, string, date_time, object_id, geometry,
  binary, raster, uuid_1, uuid_2, xml, int64, date, time, date_time_with_offset,
}
use fast_gdb.Rows.{field_ref}
use fast_gdb.Where.{Doubles, Expr}
use fast_gdb.Where.Eval.{evaluate_fields, evaluate_record}
use fast_gdb.Where.Eval.Agree.{decoded, Decodes, DecodesRow, evaluate_fields-DecodesRow}
use fast_gdb.Where.Eval.Counted.{read_string-decoded, read_xml-decoded, read_object_id-decoded}
use fast_gdb.Where.Eval.Decoded.{read_number-decoded}
use fast_gdb.Where.Eval.Record.{read_field_value}
use fast_gdb.Where.Row.{FieldValue, null_value}

-- Every type but UUID, geometry, blob and raster.
abbrev pub reads_alike : FieldType → Bool
reads_alike geometry = false
reads_alike binary = false
reads_alike raster = false
reads_alike uuid_1 = false
reads_alike uuid_2 = false
reads_alike _ = true

module _ (D : Doubles) (fid : ℕ) where
  open D use {Double}

  -- A field that is null in both forms, or that `field_ref` and `read_field_value` read from the same place of row `fid`.
  abbrev pub ReadAlike : FieldRef → FieldValue Double → Type 0
  ReadAlike v w =
      (v.is_null ≡ true) × (w ≡ null_value)
      ⊎ ((type : FieldType) × (r : Reader) × (r' : Reader) × (rest : List ℕ) × (reads_alike type
            ≡ true)
          × IsValid r
          × (field_ref fid type (drop r.pos_ r.bytes) ≡ some (v, rest))
          × (read_field_value D fid type r ≡ (ok (some w), r')))

  abbrev pub ReadAlikeRow : List FieldRef → List (FieldValue Double) → Type 0
  ReadAlikeRow [] [] = Unit {0}
  ReadAlikeRow (v ∷ vs) (w ∷ ws) = ReadAlike v w × ReadAlikeRow vs ws
  ReadAlikeRow _ _ = ⊥

  -- What the decoder gives where the scan gives `v`.
  abbrev DecodesTo : FieldType → Reader → FieldRef → Type 0
  DecodesTo type r v =
      (v.is_null ≡ false)
      × (r' : Reader) × (read_field_value D fid type r ≡ (ok (decoded D v.type v), r'))

  module _ (r : Reader) (valid : IsValid r) (v : FieldRef) (rest : List ℕ) where
    field_ref-DecodesTo :
        (type : FieldType)
        → reads_alike type ≡ true
        → field_ref fid type (drop r.pos_ r.bytes) ≡ some (v, rest)
        → DecodesTo type r v
    field_ref-DecodesTo string k h = read_string-decoded D fid r valid v rest h
    field_ref-DecodesTo xml k h = read_xml-decoded D fid r valid v rest h
    field_ref-DecodesTo object_id k h =
        let (present, run) = read_object_id-decoded D fid r valid v rest h in (present, r, run)
    field_ref-DecodesTo int16 k h =
        let (present, run) = read_number-decoded D fid r valid int16 v rest refl h in
        (present, _, run)
    field_ref-DecodesTo int32 k h =
        let (present, run) = read_number-decoded D fid r valid int32 v rest refl h in
        (present, _, run)
    field_ref-DecodesTo int64 k h =
        let (present, run) = read_number-decoded D fid r valid int64 v rest refl h in
        (present, _, run)
    field_ref-DecodesTo float32 k h =
        let (present, run) = read_number-decoded D fid r valid float32 v rest refl h in
        (present, _, run)
    field_ref-DecodesTo float64 k h =
        let (present, run) = read_number-decoded D fid r valid float64 v rest refl h in
        (present, _, run)
    field_ref-DecodesTo date_time k h =
        let (present, run) = read_number-decoded D fid r valid date_time v rest refl h in
        (present, _, run)
    field_ref-DecodesTo date k h =
        let (present, run) = read_number-decoded D fid r valid date v rest refl h in
        (present, _, run)
    field_ref-DecodesTo time k h =
        let (present, run) = read_number-decoded D fid r valid time v rest refl h in
        (present, _, run)
    field_ref-DecodesTo date_time_with_offset k h =
        let (present, run) =
          read_number-decoded D fid r valid date_time_with_offset v rest refl h in
        (present, _, run)
    field_ref-DecodesTo geometry k h = cc
    field_ref-DecodesTo binary k h = cc
    field_ref-DecodesTo raster k h = cc
    field_ref-DecodesTo uuid_1 k h = cc
    field_ref-DecodesTo uuid_2 k h = cc

  ReadAlike-Decodes : (v : FieldRef) (w : FieldValue Double) → ReadAlike v w → Decodes D v w
  ReadAlike-Decodes v w (inl h) = inl h
  ReadAlike-Decodes v w (inr (type, r, r', rest, alike, valid, scanned, run)) =
      let (present, s, run') = field_ref-DecodesTo r valid v rest type alike scanned in
      let e : decoded D v.type v ≡ some w = cc in inr (present, e)

  ReadAlikeRow-DecodesRow :
      (vs : List FieldRef) (ws : List (FieldValue Double)) → ReadAlikeRow vs ws → DecodesRow D vs ws
  ReadAlikeRow-DecodesRow [] [] h = tt
  ReadAlikeRow-DecodesRow [] (w ∷ ws) h = absurd h
  ReadAlikeRow-DecodesRow (v ∷ vs) [] h = absurd h
  ReadAlikeRow-DecodesRow (v ∷ vs) (w ∷ ws) (h, hs) =
      (ReadAlike-Decodes v w h, ReadAlikeRow-DecodesRow vs ws hs)

  -- For the fields of a row in a file and the values of a record, as many, where each pair is null in both or is what
  -- the scan (`field_ref`) and the decoder of records (`read_field_value`) read at one place in a valid reader, of a type
  -- other than UUID, geometry, blob and raster: the overload of `evaluate_expr` for fields and that for decoded values
  -- give the same answer, for every expression.
  pub evaluate_fields-evaluate_record :
      (vs : List FieldRef) (ws : List (FieldValue Double)) (e : Expr Double)
      → ReadAlikeRow vs ws
      → evaluate_fields D vs e ≡ evaluate_record D ws e
  evaluate_fields-evaluate_record vs ws e h =
      evaluate_fields-DecodesRow D vs ws e (ReadAlikeRow-DecodesRow vs ws h)
