-- ===== src/Tests/Clauses.antt =====
-- WHERE clauses over a table of two fields, with integers for the doubles.
use fast_gdb.Base.{
  ℕ, suc, ◌+◌, ◌*◌, ◌-◌, ◌≡◌, refl, Bool, true, false, not, ◌&&◌, List, [], ◌∷◌, some, arith, inr,
  ltb, if◌then◌else◌, get_elem?, drop, ◌≤◌,
}
use fast_gdb.Base.Int.{ℤ, pos, negsuc}
use fast_gdb.Base.Chars.{isdigit}
use fast_gdb.Where.{Doubles, lt_op, numeric_value, comparison}
use fast_gdb.Base.Keys.{key_eq}
use fast_gdb.Where.Lexer.{tokenize, tokenize_loop, round, take_word, word_kind}
use fast_gdb.Where.Parser.{
  parse, parse_or, or_loop, parse_and, and_loop, parse_primary, parse_predicate, parse_comparison,
  parse_literal, parse_numeric_literal,
}
use fast_gdb.Where.Bind.{bind_fields, index_fields, emplace, find}
use fast_gdb.Fields.{FieldDescriptor, int32, string}
use fast_gdb.BinaryReader.Bounds.{IsValid, le_value}
use fast_gdb.Where.Row.{FieldValue, as_i32, int32_value, text_value, is_some_and, evaluate_ref}
use fast_gdb.Fields.{FieldRef}
use fast_gdb.Where.Eval.{evaluate_fields, evaluate_record}
use fast_gdb.Where.Compile.{
  CompiledWhereImpl, IndexableWherePredicate, valid, compile_where, compile_tokens, compile_root,
  sort_unique, insert_unique, indexable_root, evaluate_where_fields, literal_fits,
}
use fast_gdb.Where.Compile.Total.{Outcomes, compile_where-Outcomes}
use fast_gdb.Where.Compile.Fields.{leaves, IsBound}
use fast_gdb.Where.Compile.Meaning.{compile_where-IsBound, compile_where-indexable}
use fast_gdb.Where.Eval.Both.{ReadAlikeRow, evaluate_fields-evaluate_record}
use fast_gdb.Where.Eval.Counted.{read_string-decoded}
use fast_gdb.Where.Eval.Decoded.{read_number-decoded}
use fast_gdb.Rows.{
  field_ref, set_fixed_field_ref, set_counted_field_ref, fixed_physical_width, read_varuint_checked,
  checked_loop,
}
use fast_gdb.BinaryReader.{Reader}
use fast_gdb.Where.Fids.{intersect_sorted_fids}
use fast_gdb.Where.Fids.Sorted.{IsStrictFrom, holds, intersect_sorted_fids-holds}

-- The digits at the front of a text.
abbrev count_digits : List ℕ → ℕ
count_digits [] = 0
count_digits (c ∷ cs) = let more = suc (count_digits cs) in if isdigit c then more else 0

abbrev read_digits : ℕ → List ℕ → ℕ
read_digits n [] = n
read_digits n (c ∷ cs) =
    let more = read_digits (n * 10 + (c - 48)) cs in if isdigit c then more else n

abbrev int_less : ℤ → ℤ → Bool
int_less (pos a) (pos b) = ltb a b
int_less (pos a) (negsuc b) = false
int_less (negsuc a) (pos b) = true
int_less (negsuc a) (negsuc b) = ltb b a

abbrev pub ints : Doubles
ints = record {
  Double = ℤ;
  equal = λ a b. not (int_less a b) && not (int_less b a);
  less = int_less;
  less_eq = λ a b. not (int_less b a);
  from_int = λ a. a;
  from_f32 = λ bytes. pos 0;
  from_f64 = λ bytes. pos 0;
  zero_double = pos 0;
  strtod = λ text. (count_digits text, pos (read_digits 0 text));
  isfinite = λ a. true;
}

abbrev table : List FieldDescriptor
table =
    record { name = b'A' ∷ []; type = int32; flag = 0 }
    ∷ record { name = b'b' ∷ []; type = string; flag = 0 }
    ∷ []

-- a<7
abbrev below_seven : List ℕ
below_seven = b'a' ∷ b'<' ∷ b'7' ∷ []

abbrev predicate : IndexableWherePredicate ℤ
predicate = record {
  field_index = 0;
  field_name = b'A' ∷ [];
  op = lt_op;
  value = numeric_value (pos 7);
}

abbrev clause : CompiledWhereImpl ℤ
clause = record {
  root =
      comparison (record { field_name = b'a' ∷ []; field_index = 0 }) lt_op (numeric_value (pos 7));
  referenced_fields = 0 ∷ [];
  indexable = some predicate;
}

compiles : compile_where ints below_seven table ≡ valid clause
unfolding compile_where tokenize tokenize_loop round take_word word_kind key_eq compile_tokens parse
    parse_or or_loop parse_and and_loop parse_primary parse_predicate parse_comparison parse_literal
    parse_numeric_literal compile_root bind_fields index_fields emplace find sort_unique
    insert_unique indexable_root
compiles = refl

compile_where-Outcomes_example :
    Outcomes ints table below_seven (compile_where ints below_seven table)
compile_where-Outcomes_example = compile_where-Outcomes ints table below_seven

compile_where-IsBound_example :
    IsBound table clause.root
    × IsStrictFrom 0 clause.referenced_fields
    × ((n : ℕ) → holds n clause.referenced_fields ≡ holds n (leaves clause.root))
compile_where-IsBound_example = compile_where-IsBound ints table below_seven clause compiles

-- Row 5, "x", as it stands in a file and decoded.
abbrev row : List FieldRef
row =
    record { type = int32; bytes = 5 ∷ 0 ∷ 0 ∷ 0 ∷ []; is_null = false; implicit_value = pos 1 }
    ∷ record { type = string; bytes = b'x' ∷ []; is_null = false; implicit_value = pos 1 }
    ∷ []

compile_where-indexable_example :
    ((d : FieldDescriptor) × (get_elem? table 0 ≡ some d)
      × (literal_fits predicate.value d.type ≡ true))
    × (evaluate_where_fields ints (valid clause) (some row)
        ≡ is_some_and (get_elem? row 0) (λ v. evaluate_ref ints v predicate.value predicate.op))
compile_where-indexable_example =
    compile_where-indexable ints table below_seven clause predicate row compiles refl

-- The bytes of the row.
abbrev stored_row : List ℕ
stored_row = 5 ∷ 0 ∷ 0 ∷ 0 ∷ 1 ∷ b'x' ∷ []

abbrev at_byte : ℕ → Reader
at_byte n = record { bytes = stored_row; pos_ = n }

abbrev values : List (FieldValue ℤ)
values = int32_value (pos 5) ∷ text_value (b'x' ∷ []) ∷ []

stored_row-IsValid : (n : ℕ) → n ≤ 6 → IsValid (at_byte n)
stored_row-IsValid n h = record {
  inside = h;
  allocated = omega arith;
  octets =
      (omega arith, (omega arith, (omega arith, (omega arith, (omega arith, (omega arith, tt))))));
}

number_scanned :
    field_ref 0 int32 (drop 0 stored_row)
    ≡ some (
      record { type = int32; bytes = 5 ∷ 0 ∷ 0 ∷ 0 ∷ []; is_null = false; implicit_value = pos 1 },
      1 ∷ b'x' ∷ [],
    )
unfolding field_ref set_fixed_field_ref fixed_physical_width
number_scanned = refl

text_scanned :
    field_ref 0 string (drop 4 stored_row)
    ≡ some
        (record { type = string; bytes = b'x' ∷ []; is_null = false; implicit_value = pos 1 }, [])
unfolding field_ref set_counted_field_ref fixed_physical_width read_varuint_checked checked_loop
text_scanned = refl

row-ReadAlike : ReadAlikeRow ints 0 row values
unfolding as_i32 le_value
row-ReadAlike =
    let first = stored_row-IsValid 0 (omega arith) in
    let second = stored_row-IsValid 4 (omega arith) in
    let (_, number) = read_number-decoded ints 0 (at_byte 0) first int32 _ _ refl number_scanned in
    let (_, behind, text) = read_string-decoded ints 0 (at_byte 4) second _ _ text_scanned in
    (
      inr (int32, at_byte 0, _, _, refl, first, number_scanned, number),
      (inr (string, at_byte 4, behind, _, refl, second, text_scanned, text), tt),
    )

evaluate_fields-evaluate_record_example :
    evaluate_fields ints row clause.root ≡ evaluate_record ints values clause.root
evaluate_fields-evaluate_record_example =
    evaluate_fields-evaluate_record ints 0 row values clause.root row-ReadAlike

intersect_sorted_fids-holds_example :
    (out : List ℕ) × (intersect_sorted_fids (1 ∷ 1 ∷ 4 ∷ []) (1 ∷ 2 ∷ 4 ∷ 4 ∷ []) ≡ some out)
    × IsStrictFrom 0 out
    × ((n : ℕ) → holds n out ≡ (holds n (1 ∷ 1 ∷ 4 ∷ []) && holds n (1 ∷ 2 ∷ 4 ∷ 4 ∷ [])))
intersect_sorted_fids-holds_example =
    intersect_sorted_fids-holds (1 ∷ 1 ∷ 4 ∷ []) (1 ∷ 2 ∷ 4 ∷ 4 ∷ []) (omega arith) (omega arith)
