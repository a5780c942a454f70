-- ===== src/Where/Eval.antt =====
-- The two overloads of `evaluate_expr`: on the fields of a row in the file, and on a decoded row. An array comes with its
-- count, as a list.
pub mod Agree
pub mod Record
pub mod Counted
pub mod Decoded
pub mod Both
use fast_gdb.Base.{ℕ, Bool, false, true, ◌&&◌, ◌||◌, List, [], ◌∷◌, Option, none, some, get_elem?}
use fast_gdb.Where.{
  Doubles, FieldUse, AttrOp, eq_op, Literal, Expr, comparison, in_list, and_expr, or_expr,
}
use fast_gdb.Where.Row.{FieldValue, is_some_and, evaluate_ref, evaluate_value}
use fast_gdb.Fields.{FieldRef}

module _ (D : Doubles) where
  open D use {Double}

  -- The loop over the literals of IN, of the first overload.
  abbrev pub any_field_literal : FieldRef → List (Literal Double) → Bool
  any_field_literal v [] = false
  any_field_literal v (l ∷ ls) = evaluate_ref D v l eq_op || any_field_literal v ls

  unfoldable pub evaluate_fields : List FieldRef → Expr Double → Bool
  evaluate_fields fields (and_expr l r) = evaluate_fields fields l && evaluate_fields fields r
  evaluate_fields fields (or_expr l r) = evaluate_fields fields l || evaluate_fields fields r
  evaluate_fields fields (comparison f op literal) =
      is_some_and (get_elem? fields f.field_index) (λ v. evaluate_ref D v literal op)
  evaluate_fields fields (in_list f literals) =
      is_some_and (get_elem? fields f.field_index) (λ v. any_field_literal v literals)

  -- The same loop of the second.
  abbrev pub any_value_literal : FieldValue Double → List (Literal Double) → Bool
  any_value_literal v [] = false
  any_value_literal v (l ∷ ls) = evaluate_value D v l eq_op || any_value_literal v ls

  unfoldable pub evaluate_record : List (FieldValue Double) → Expr Double → Bool
  evaluate_record values (and_expr l r) = evaluate_record values l && evaluate_record values r
  evaluate_record values (or_expr l r) = evaluate_record values l || evaluate_record values r
  evaluate_record values (comparison f op literal) =
      is_some_and (get_elem? values f.field_index) (λ v. evaluate_value D v literal op)
  evaluate_record values (in_list f literals) =
      is_some_and (get_elem? values f.field_index) (λ v. any_value_literal v literals)
