-- ===== src/Where.antt =====
-- reader/query/query_where_internal.h and .cpp of src/edgar/explorgdb: the WHERE clauses that a query may
-- carry. A text is the list of its bytes; a `double` and what the C library does with it are a parameter.
pub mod Lexer
pub mod Parser
pub mod Bind
pub mod Row
pub mod Eval
pub mod Compile
pub mod Fids
use fast_gdb.Base.{ℕ, true, false, [], ◌∷◌, ◌||◌, ◌-◌, ◌^◌, Bool, List, Option, ◌==◌}
use fast_gdb.Base.Int.{ℤ}

-- The type `double`: comparison, conversion from an integer, and the value of 4 or 8 bytes of memory;
-- `strtod` gives the count of bytes that it takes from the front of a text, and their value.
pub record Doubles : Type 1 where
  pub Double : Type 0
  pub equal : Double → Double → Bool
  pub less : Double → Double → Bool
  pub less_eq : Double → Double → Bool
  pub from_int : ℤ → Double
  pub from_f32 : List ℕ → Double
  pub from_f64 : List ℕ → Double
  pub zero_double : Double
  pub strtod : List ℕ → ℕ × Double
  pub isfinite : Double → Bool

pub data TokenKind : Type 0 where
  identifier number string lparen rparen comma op_eq op_ne op_lt op_le op_gt op_ge : TokenKind
  keyword_and keyword_or keyword_in end_kind : TokenKind

abbrev pub kind_rank : TokenKind → ℕ
kind_rank identifier = 0
kind_rank number = 1
kind_rank string = 2
kind_rank lparen = 3
kind_rank rparen = 4
kind_rank comma = 5
kind_rank op_eq = 6
kind_rank op_ne = 7
kind_rank op_lt = 8
kind_rank op_le = 9
kind_rank op_gt = 10
kind_rank op_ge = 11
kind_rank keyword_and = 12
kind_rank keyword_or = 13
kind_rank keyword_in = 14
kind_rank end_kind = 15

abbrev pub kind_eq : TokenKind → TokenKind → Bool
kind_eq a b = kind_rank a == kind_rank b

pub record Token : Type 0 where
  pub kind : TokenKind
  pub text : List ℕ

abbrev pub token : TokenKind → List ℕ → Token
token kind text = record { kind = kind; text = text }

-- The token of the end is among these, so that reads stop at it.
abbrev pub has_end : List Token → Bool
has_end [] = false
has_end (t ∷ ts) = kind_eq t.kind end_kind || has_end ts

pub data AttrOp : Type 0 where
  eq_op lt_op le_op gt_op ge_op ne_op : AttrOp

-- `is_string` is the constructor.
pub data Literal (D : Type 0) : Type 0 where
  string_value : List ℕ → Literal D
  numeric_value : D → Literal D

-- The field of a leaf: its name, and its index once it is bound.
pub record FieldUse : Type 0 where
  pub field_name : List ℕ
  pub field_index : ℕ

abbrev pub unbound : List ℕ → FieldUse
unbound name = record { field_name = name; field_index = 2 ^ 64 - 1 }

pub data Expr (D : Type 0) : Type 0 where
  comparison : FieldUse → AttrOp → Literal D → Expr D
  in_list : FieldUse → List (Literal D) → Expr D
  and_expr : Expr D → Expr D → Expr D
  or_expr : Expr D → Expr D → Expr D
