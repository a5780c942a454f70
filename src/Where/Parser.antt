-- ===== src/Where/Parser.antt =====
-- `Parser`, by recursive descent. Its state is the list of tokens from `current()` on; a parse is an
-- expression with the tokens that are left, the null pointer, or `undefined`, a read behind the last token.
pub mod Grammar
pub mod Ensures
pub mod Sound
pub mod Whole
use fast_gdb.Base.{
  ℕ, zero, suc, ◌+◌, ◌*◌, Bool, true, false, not, List, [], ◌∷◌, ◌++◌, Option, none, some, ◌==◌,
  if◌then◌else◌, length,
}
use fast_gdb.Where.{
  Doubles, TokenKind, identifier, number, string, lparen, rparen, comma, op_eq, op_ne, op_lt, op_le,
  op_gt, op_ge, keyword_and, keyword_or, keyword_in, end_kind, kind_eq, Token, AttrOp, eq_op, ne_op,
  lt_op, le_op, gt_op, ge_op, Literal, string_value, numeric_value, Expr, comparison, in_list,
  and_expr, or_expr, unbound,
}

pub data Parsed (A : Type 0) : Type 0 where
  parsed : A → List Token → Parsed A
  null undefined out_of_fuel : Parsed A

abbrev pub and_then : {A B : Type 0} → Parsed A → (A → List Token → Parsed B) → Parsed B
and_then (parsed a rest) k = k a rest
and_then null k = null
and_then undefined k = undefined
and_then out_of_fuel k = out_of_fuel

-- `match(kind)` with what to do in either case.
abbrev pub on_kind :
    {A : Type 0} → TokenKind → List Token → (List Token → Parsed A) → Parsed A → Parsed A
on_kind kind [] yes_case no_case = undefined
on_kind kind (t ∷ ts) yes_case no_case = if kind_eq t.kind kind then yes_case ts else no_case

abbrev pub attr_op : TokenKind → Option AttrOp
attr_op op_eq = some eq_op
attr_op op_ne = some ne_op
attr_op op_lt = some lt_op
attr_op op_le = some le_op
attr_op op_gt = some gt_op
attr_op op_ge = some ge_op
attr_op _ = none

module _ (D : Doubles) where
  open D use {Double, strtod, isfinite}

  -- `*end == '\0'` where the text was taken whole, as the token of a number holds no NUL.
  unfoldable pub parse_numeric_literal : List ℕ → Option Double
  parse_numeric_literal text =
      let (consumed, value) = strtod text in
      if consumed == 0
      then none
      else if not (consumed == length text)
      then none
      else if isfinite value
      then some value
      else none

  unfoldable pub parse_literal : List Token → Parsed (Literal Double)
  unfolding parse_numeric_literal
  parse_literal [] = undefined
  parse_literal (t ∷ ts) =
      if kind_eq t.kind string
      then parsed (string_value t.text) ts
      else if kind_eq t.kind number
      then elim (parse_numeric_literal t.text) [
        | none ↦ null
        | some value ↦ parsed (numeric_value value) ts
      ]
      else null

  -- The loop over the values of IN, with those so far.
  unfoldable pub parse_values :
      ℕ → List (Literal Double) → List Token → Parsed (List (Literal Double))
  unfolding parse_literal
  parse_values zero values ts = out_of_fuel
  parse_values (suc fuel) values ts = and_then (parse_literal ts) λ literal rest.
      let values' = values ++ (literal ∷ []) in
      on_kind comma rest (λ more. parse_values fuel values' more) (parsed values' rest)

  -- The list behind IN, of one value or more.
  unfoldable pub parse_in : ℕ → List ℕ → List Token → Parsed (Expr Double)
  unfolding parse_values
  parse_in fuel name ts =
      on_kind lparen ts
        (λ ts'.
          and_then (parse_values fuel [] ts')
            λ values rest. on_kind rparen rest (parsed (in_list (unbound name) values)) null)
        null

  unfoldable pub parse_comparison : List ℕ → List Token → Parsed (Expr Double)
  unfolding parse_literal
  parse_comparison name [] = undefined
  parse_comparison name (t ∷ ts) = elim (attr_op t.kind) [
    | none ↦ null
    | some op ↦ and_then (parse_literal ts) λ literal. parsed (comparison (unbound name) op literal)
  ]

  unfoldable pub parse_predicate : ℕ → List Token → Parsed (Expr Double)
  unfolding parse_in parse_comparison
  parse_predicate fuel [] = undefined
  parse_predicate fuel (t ∷ ts) =
      if not (kind_eq t.kind identifier)
      then null
      else on_kind keyword_in ts (parse_in fuel t.text) (parse_comparison t.text ts)

  -- Each call costs a unit of fuel. The two loops have the expression so far.
  unfoldable mutual
    pub parse_or : ℕ → List Token → Parsed (Expr Double)
    parse_or zero ts = out_of_fuel
    parse_or (suc fuel) ts = and_then (parse_and fuel ts) (or_loop fuel)

    pub or_loop : ℕ → Expr Double → List Token → Parsed (Expr Double)
    or_loop zero left ts = out_of_fuel
    or_loop (suc fuel) left ts =
        on_kind keyword_or ts
          (λ ts'. and_then (parse_and fuel ts') λ right. or_loop fuel (or_expr left right))
          (parsed left ts)

    pub parse_and : ℕ → List Token → Parsed (Expr Double)
    parse_and zero ts = out_of_fuel
    parse_and (suc fuel) ts = and_then (parse_primary fuel ts) (and_loop fuel)

    pub and_loop : ℕ → Expr Double → List Token → Parsed (Expr Double)
    and_loop zero left ts = out_of_fuel
    and_loop (suc fuel) left ts =
        on_kind keyword_and ts
          (λ ts'. and_then (parse_primary fuel ts') λ right. and_loop fuel (and_expr left right))
          (parsed left ts)

    pub parse_primary : ℕ → List Token → Parsed (Expr Double)
    parse_primary zero ts = out_of_fuel
    parse_primary (suc fuel) ts =
        on_kind lparen ts
          (λ ts'.
            and_then (parse_or fuel ts')
              λ expression rest. on_kind rparen rest (parsed expression) null)
          (parse_predicate fuel ts)

  unfoldable pub parse : List Token → Parsed (Expr Double)
  unfolding parse_or
  parse ts =
      and_then (parse_or (3 * length ts + 3) ts)
        λ expression rest. on_kind end_kind rest (λ _. parsed expression rest) null
