-- ===== src/Where/Parser/Sound.antt =====
-- The parser ends, reads no token behind the last, and returns an expression only for tokens that are written for
-- it by the grammar.
use fast_gdb.Base.{
  ℕ, zero, suc, ◌+◌, ◌<◌, ◌≡◌, refl, sym, ap, subst, ◌∙◌, true, false, List, [], ◌∷◌, ◌++◌, some,
  arith, length, Bool-cases, Option-cases, inl, inr,
}
use mathlib.Core.List.{append_assoc}
use fast_gdb.Where.{
  Doubles, TokenKind, identifier, number, string, lparen, rparen, comma, keyword_in, end_kind,
  kind_eq, Token, has_end, AttrOp, Literal, Expr, in_list, unbound,
}
use fast_gdb.Where.Parser.{
  attr_op, parse_numeric_literal, parse_literal, parse_values, parse_in, parse_comparison,
  parse_predicate,
}
use fast_gdb.Where.Parser.Grammar.{
  Is, LiteralText, quoted, numeral, ValuesText, last, more, Level, primary_level, Written, compared,
  listed,
}
use fast_gdb.Where.Parser.Ensures.{
  Ensures, holds, rejected, Ensures-and_then, Ensures-on_kind, Ensures-mono,
}

-- What was read off the front of `ts` is not empty, has no end in it, and is written for the value.
abbrev pub Reads : {A : Type 0} → (List Token → A → Type 0) → List Token → A → List Token → Type 0
Reads W ts a rest =
    (has_end rest ≡ true)
    × (length rest < length ts)
    × (used : List Token) × (ts ≡ used ++ rest)
    × W used a

op-end_kind : (k : TokenKind) (o : AttrOp) → attr_op k ≡ some o → kind_eq k end_kind ≡ false
op-end_kind end_kind o h = cc
op-end_kind _ o h = ground arith

-- The text between two brackets, with what follows.
pub bracketed :
    {ts inner rest left : List Token} {open_paren close_paren : Token} (used : List Token)
    → ts ≡ open_paren ∷ inner
    → inner ≡ used ++ rest
    → rest ≡ close_paren ∷ left
    → ts ≡ (open_paren ∷ (used ++ (close_paren ∷ []))) ++ left
bracketed {left} {open_paren} {close_paren} used p split q =
    p
    ∙ ap (λ us. open_paren ∷ us)
        (split ∙ ap (λ us. used ++ us) q ∙ sym (append_assoc used (close_paren ∷ []) left))

module _ (D : Doubles) where
  open D use {Double}

  abbrev OneLiteral : List Token → Literal Double → Type 0
  OneLiteral used l = (t : Token) × (used ≡ t ∷ []) × LiteralText D t l

  literal_Reads :
      (t : Token) (ts : List Token)
      → has_end (t ∷ ts) ≡ true
      → Ensures (Reads OneLiteral (t ∷ ts)) (parse_literal D (t ∷ ts))
  unfolding parse_literal
  literal_Reads t ts h = elim (Bool-cases (kind_eq t.kind string)) [
    | inl e ↦ rw e (holds (ground arith, omega arith, t ∷ [], refl, (t, refl, quoted e)))
    | inr e ↦ elim (Bool-cases (kind_eq t.kind number)) [
      | inl e' ↦ elim (Option-cases (parse_numeric_literal D t.text)) [
        | inl n ↦ rw (e, e', n) rejected
        | inr (x, p) ↦
            rw (e, e', p) (holds (ground arith, omega arith, t ∷ [], refl, (t, refl, numeral e' p)))
      ]
      | inr e' ↦ rw (e, e') rejected
    ]
  ]

  literal_any :
      (ts : List Token) → has_end ts ≡ true → Ensures (Reads OneLiteral ts) (parse_literal D ts)
  literal_any [] h = cc
  literal_any (t ∷ ts) h = literal_Reads t ts h

  -- The values behind those read before.
  abbrev NewValues : List (Literal Double) → List Token → List (Literal Double) → Type 0
  NewValues before used values =
      (new : List (Literal Double)) × (values ≡ before ++ new) × ValuesText D used new

  values_last :
      (before : List (Literal Double)) (ts rest : List Token) (l : Literal Double)
      → Reads OneLiteral ts l rest
      → Reads (NewValues before) ts (before ++ (l ∷ [])) rest
  values_last before ts rest l (h, lt, used, e, (t, e', w)) =
      (h, lt, t ∷ [], e ∙ ap (λ us. us ++ rest) e', (l ∷ [], refl, last w))

  values_more :
      (before vs : List (Literal Double)) (ts rest left : List Token) (c : Token)
      (l : Literal Double)
      → Reads OneLiteral ts l rest
      → Is c comma
      → (behind : List Token) → rest ≡ c ∷ behind
      → Reads (NewValues (before ++ (l ∷ []))) behind vs left
      → Reads (NewValues before) ts vs left
  values_more before vs ts rest left c l (h, lt, used, e, (t, e', w)) comma_here behind e''
        (h', lt', used', p, (new, q, w')) =
      (
        h',
        omega (arith, ap length e''),
        t ∷ c ∷ used',
        e ∙ ap (λ us. us ++ rest) e' ∙ ap (λ r. t ∷ r) (e'' ∙ ap (λ b. c ∷ b) p),
        (l ∷ new, q ∙ append_assoc before (l ∷ []) new, more w comma_here w'),
      )

  values_Reads :
      (fuel : ℕ) (before : List (Literal Double)) (ts : List Token)
      → length ts < fuel
      → has_end ts ≡ true
      → Ensures (Reads (NewValues before) ts) (parse_values D fuel before ts)
  unfolding parse_values
  values_Reads zero before ts h e = absurd (omega arith)
  values_Reads (suc fuel) before ts h e = Ensures-and_then (literal_any ts e) λ l rest r.
      Ensures-on_kind comma rest refl r.0
        (λ c behind p k h'.
          Ensures-mono
            (values_Reads fuel (before ++ (l ∷ [])) behind (omega (arith, ap length p, r.1)) h')
            λ vs left. values_more before vs ts rest left c l r k behind p)
        (holds (values_last before ts rest l r))

  -- The tokens of an expression, at a level of the grammar.
  abbrev pub At : Level → List Token → Expr Double → Type 0
  At level used e = Written D level used e

  in_Reads :
      (fuel : ℕ) (name word : Token) (ts : List Token)
      → length ts < fuel
      → has_end ts ≡ true
      → Is name identifier
      → Is word keyword_in
      → Ensures (Reads (At primary_level) (name ∷ word ∷ ts)) (parse_in D fuel name.text ts)
  unfolding parse_in
  in_Reads fuel name word ts h e n w =
      Ensures-on_kind lparen ts refl e
        (λ open_paren inner p k e'.
          Ensures-and_then (values_Reads fuel [] inner (omega (arith, ap length p)) e')
            λ values rest r.
              Ensures-on_kind rparen rest refl r.0
                (λ close_paren left q k' e''.
                  let (_, lt, used, split, (new, same, text)) = r in
                  holds (
                    e'',
                    omega (arith, ap length p, ap length q),
                    name ∷ word ∷ open_paren ∷ (used ++ (close_paren ∷ [])),
                    ap (λ us. name ∷ word ∷ us) (bracketed used p split q),
                    subst
                        (λ vs.
                          Written D primary_level
                            (name ∷ word ∷ open_paren ∷ (used ++ (close_paren ∷ [])))
                            (in_list (unbound name.text) vs))
                        (sym same)
                        (listed name word open_paren close_paren used n w k text k' refl),
                  ))
                rejected)
        rejected

  comparison_Reads :
      (name op : Token) (ts : List Token)
      → has_end ts ≡ true
      → Is name identifier
      → (o : AttrOp) → attr_op op.kind ≡ some o
      → Ensures (Reads (At primary_level) (name ∷ op ∷ ts)) (parse_comparison D name.text (op ∷ ts))
  unfolding parse_comparison
  comparison_Reads name op ts e n o p =
      rw (p, parse_comparison)
        (Ensures-and_then (literal_any ts e) λ l rest r.
          let (h, lt, used, split, (t, one, text)) = r in
          holds (
            h,
            omega arith,
            name ∷ op ∷ t ∷ [],
            ap (λ us. name ∷ op ∷ us) (split ∙ ap (λ us. us ++ rest) one),
            compared n p text,
          ))

  -- An operator is not the end.
  op_has_end :
      (op : Token) (ts : List Token) (o : AttrOp)
      → has_end (op ∷ ts) ≡ true
      → attr_op op.kind ≡ some o
      → has_end ts ≡ true
  op_has_end op ts o h p = let no_end = op-end_kind op.kind o p in ground arith

  compare_Reads :
      (name : Token) (ts : List Token)
      → has_end ts ≡ true
      → Is name identifier
      → Ensures (Reads (At primary_level) (name ∷ ts)) (parse_comparison D name.text ts)
  unfolding parse_comparison
  compare_Reads name [] h n = cc
  compare_Reads name (op ∷ ts) h n = elim (Option-cases (attr_op op.kind)) [
    | inl e ↦ rw (e, parse_comparison) rejected
    | inr (o, e) ↦ comparison_Reads name op ts (op_has_end op ts o h e) n o e
  ]

  pub predicate_Reads :
      (fuel : ℕ) (ts : List Token)
      → length ts < fuel + 2
      → has_end ts ≡ true
      → Ensures (Reads (At primary_level) ts) (parse_predicate D fuel ts)
  unfolding parse_predicate
  predicate_Reads fuel [] h e = cc
  predicate_Reads fuel (name ∷ ts) h e = elim (Bool-cases (kind_eq name.kind identifier)) [
    | inr n ↦ rw n rejected
    | inl n ↦ rw n (
        Ensures-on_kind keyword_in ts refl (ground arith)
          (λ word rest p k h'.
            subst
              (λ us.
                Ensures (Reads (At primary_level) (name ∷ us)) (parse_in D fuel name.text rest))
              (sym p) (in_Reads fuel name word rest (omega (arith, ap length p)) h' n k))
          (compare_Reads name ts (ground arith) n))
  ]
