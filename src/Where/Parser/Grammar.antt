-- ===== src/Where/Parser/Grammar.antt =====
-- The grammar of WHERE clauses, apart from the parser: which tokens are written for an expression. AND binds
-- tighter than OR, and both group to the left.
use fast_gdb.Base.{◌≡◌, true, List, [], ◌∷◌, ◌++◌, some}
use fast_gdb.Where.{
  Doubles, TokenKind, identifier, number, string, lparen, rparen, comma, keyword_and, keyword_or,
  keyword_in, kind_eq, Token, AttrOp, Literal, string_value, numeric_value, Expr, comparison,
  in_list, and_expr, or_expr, unbound,
}
use fast_gdb.Where.Parser.{attr_op, parse_numeric_literal}

abbrev pub Is : Token → TokenKind → Type 0
Is t kind = kind_eq t.kind kind ≡ true

pub data Level : Type 0 where
  or_level and_level primary_level : Level

module _ (D : Doubles) where
  open D use {Double}

  pub data LiteralText : Token → Literal Double → Type 0 where
    quoted : {t : Token} → Is t string → LiteralText t (string_value t.text)
    numeral :
        {t : Token} {x : Double}
        → Is t number
        → parse_numeric_literal D t.text ≡ some x
        → LiteralText t (numeric_value x)

  -- One value or more, with commas between them.
  pub data ValuesText : List Token → List (Literal Double) → Type 0 where
    last : {t : Token} {l : Literal Double} → LiteralText t l → ValuesText (t ∷ []) (l ∷ [])
    more :
        {t c : Token} {ts : List Token} {l : Literal Double} {ls : List (Literal Double)}
        → LiteralText t l
        → Is c comma
        → ValuesText ts ls
        → ValuesText (t ∷ c ∷ ts) (l ∷ ls)

  pub data Written : Level → List Token → Expr Double → Type 0 where
    compared :
        {name op literal : Token} {o : AttrOp} {l : Literal Double}
        → Is name identifier
        → attr_op op.kind ≡ some o
        → LiteralText literal l
        → Written primary_level (name ∷ op ∷ literal ∷ []) (comparison (unbound name.text) o l)
    listed :
        {whole : List Token} (name word open_paren close_paren : Token) (ts : List Token)
        {ls : List (Literal Double)}
        → Is name identifier
        → Is word keyword_in
        → Is open_paren lparen
        → ValuesText ts ls
        → Is close_paren rparen
        → whole ≡ name ∷ word ∷ open_paren ∷ (ts ++ (close_paren ∷ []))
        → Written primary_level whole (in_list (unbound name.text) ls)
    parenthesised :
        {whole : List Token} (open_paren close_paren : Token) (ts : List Token) {e : Expr Double}
        → Is open_paren lparen
        → Written or_level ts e
        → Is close_paren rparen
        → whole ≡ open_paren ∷ (ts ++ (close_paren ∷ []))
        → Written primary_level whole e
    one_primary :
        {ts : List Token} {e : Expr Double} → Written primary_level ts e → Written and_level ts e
    conjunction :
        {whole : List Token} (word : Token) (ls rs : List Token) {l r : Expr Double}
        → Written and_level ls l
        → Is word keyword_and
        → Written primary_level rs r
        → whole ≡ ls ++ (word ∷ rs)
        → Written and_level whole (and_expr l r)
    one_and : {ts : List Token} {e : Expr Double} → Written and_level ts e → Written or_level ts e
    disjunction :
        {whole : List Token} (word : Token) (ls rs : List Token) {l r : Expr Double}
        → Written or_level ls l
        → Is word keyword_or
        → Written and_level rs r
        → whole ≡ ls ++ (word ∷ rs)
        → Written or_level whole (or_expr l r)
