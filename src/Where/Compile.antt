-- ===== src/Where/Compile.antt =====
-- `compile_where` and `evaluate_where`. The compiled clause is the record of `CompiledWhereImpl`, or an error;
-- `none` of the model is the end of the fuel of `tokenize`, and `Parsed` has the other outcomes of the parser.
pub mod Total
pub mod Fields
pub mod Meaning
use fast_gdb.Base.{
  ℕ, zero, suc, ◌+◌, Bool, true, false, not, ◌&&◌, ◌||◌, List, [], ◌∷◌, ◌++◌, Option, none, some,
  ltb, leb, ◌==◌, if◌then◌else◌, length, get_elem?,
}
use fast_gdb.Where.{
  Doubles, Token, AttrOp, Literal, string_value, numeric_value, FieldUse, Expr, comparison, in_list,
  and_expr, or_expr,
}
use fast_gdb.Where.Lexer.{tokenize}
use fast_gdb.Where.Parser.{Parsed, parsed, null, undefined, out_of_fuel, parse}
use fast_gdb.Where.Bind.{Indexes, index_fields, bind_fields}
use fast_gdb.Fields.{FieldType, FieldDescriptor}
use fast_gdb.Where.Row.{FieldValue, is_numeric_field, is_string_field}
use fast_gdb.Fields.{FieldRef}
use fast_gdb.Where.Eval.{evaluate_fields, evaluate_record}

pub record IndexableWherePredicate (D : Type 0) : Type 0 where
  pub field_index : ℕ
  pub field_name : List ℕ
  pub op : AttrOp
  pub value : Literal D

pub record CompiledWhereImpl (D : Type 0) : Type 0 where
  pub root : Expr D
  pub referenced_fields : List ℕ
  pub indexable : Option (IndexableWherePredicate D)

pub data Compiled (D : Type 0) : Type 0 where
  valid : CompiledWhereImpl D → Compiled D
  empty_clause unsupported_clause unknown_field : Compiled D
  clause_undefined clause_out_of_fuel : Compiled D

-- `std::sort` with `std::unique`: the insertion of each number where it is not yet there.
unfoldable pub insert_unique : ℕ → List ℕ → List ℕ
insert_unique n [] = n ∷ []
insert_unique n (m ∷ ms) =
    let later = m ∷ insert_unique n ms in
    if ltb n m then n ∷ m ∷ ms else if n == m then m ∷ ms else later

unfoldable pub sort_unique : List ℕ → List ℕ
unfolding insert_unique
sort_unique [] = []
sort_unique (n ∷ ns) = insert_unique n (sort_unique ns)

abbrev pub literal_fits : {D : Type 0} → Literal D → FieldType → Bool
literal_fits (string_value s) type = is_string_field type
literal_fits (numeric_value x) type = is_numeric_field type

module _ (D : Doubles) where
  open D use {Double}

  -- The predicate that a single comparison may hand to an index.
  unfoldable pub indexable_root :
      List FieldDescriptor → Expr Double → Option (IndexableWherePredicate Double)
  indexable_root fields (comparison f op literal) = elim (get_elem? fields f.field_index) [
    | none ↦ none
    | some descriptor ↦
        if literal_fits literal descriptor.type
        then some (record {
          field_index = f.field_index;
          field_name = descriptor.name;
          op = op;
          value = literal;
        })
        else none
  ]
  indexable_root fields _ = none

  unfoldable pub compile_root : List FieldDescriptor → Expr Double → Compiled Double
  unfolding bind_fields index_fields sort_unique indexable_root
  compile_root fields root = elim (bind_fields (index_fields 0 [] fields) root []) [
    | none ↦ unknown_field
    | some (bound, referenced) ↦ valid (record {
      root = bound;
      referenced_fields = sort_unique referenced;
      indexable = indexable_root fields bound;
    })
  ]

  unfoldable pub compile_tokens : List FieldDescriptor → List Token → Compiled Double
  unfolding parse compile_root
  compile_tokens fields [] = unsupported_clause
  compile_tokens fields (t ∷ ts) = elim (parse D (t ∷ ts)) [
    | null ↦ unsupported_clause
    | parsed root rest ↦ compile_root fields root
    | undefined ↦ clause_undefined
    | out_of_fuel ↦ clause_out_of_fuel
  ]

  unfoldable pub compile_where : List ℕ → List FieldDescriptor → Compiled Double
  unfolding tokenize compile_tokens
  compile_where [] fields = empty_clause
  compile_where (c ∷ cs) fields = elim (tokenize D (c ∷ cs)) [
    | none ↦ clause_out_of_fuel
    | some tokens ↦ compile_tokens fields tokens
  ]

  -- `none` is the null pointer.
  unfoldable pub evaluate_where_fields : Compiled Double → Option (List FieldRef) → Bool
  evaluate_where_fields (valid c) (some fields) = evaluate_fields D fields c.root
  evaluate_where_fields _ _ = false

  unfoldable pub evaluate_where_record : Compiled Double → List (FieldValue Double) → Bool
  evaluate_where_record (valid c) values = evaluate_record D values c.root
  evaluate_where_record _ values = false

  unfoldable pub referenced_field_indexes : Compiled Double → List ℕ
  referenced_field_indexes (valid c) = c.referenced_fields
  referenced_field_indexes _ = []

  unfoldable pub indexable_predicate : Compiled Double → Option (IndexableWherePredicate Double)
  indexable_predicate (valid c) = c.indexable
  indexable_predicate _ = none
