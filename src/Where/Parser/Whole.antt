-- ===== src/Where/Parser/Whole.antt =====
-- The levels of the parser, and the parse of a whole clause.
use fast_gdb.Base.{
  ℕ, zero, suc, ◌+◌, ◌*◌, ◌≤◌, ◌≡◌, refl, sym, ap, subst, ◌∙◌, true, List, [], ◌∷◌, ◌++◌, arith,
  length, Bool-cases, inl, inr, ◌⊎◌,
}
use mathlib.Core.List.{append_assoc, append-nil}
use fast_gdb.Where.{
  Doubles, lparen, rparen, keyword_and, keyword_or, end_kind, kind_eq, Token, has_end, Expr,
  and_expr, or_expr,
}
use fast_gdb.Where.Parser.{
  Parsed, parsed, null, and_then, on_kind, parse_or, or_loop, parse_and, and_loop, parse_primary,
  parse,
}
use fast_gdb.Where.Parser.Grammar.{
  Level, or_level, and_level, primary_level, Written, parenthesised, one_primary, conjunction,
  one_and, disjunction,
}
use fast_gdb.Where.Parser.Ensures.{
  Ensures, holds, rejected, Ensures-and_then, Ensures-on_kind, Ensures-mono,
}
use fast_gdb.Where.Parser.Sound.{Reads, At, bracketed, predicate_Reads}

module _ (D : Doubles) where
  open D use {Double}

  -- What a loop makes of the expression that it starts from.
  abbrev Extends : Level → Expr Double → List Token → Expr Double → List Token → Type 0
  Extends level left ts e rest =
      (has_end rest ≡ true)
      × (length rest ≤ length ts)
      × (used : List Token) × (ts ≡ used ++ rest)
      × ((before : List Token) → Written D level before left → Written D level (before ++ used) e)

  stop_Extends :
      (level : Level) (left : Expr Double) (ts : List Token)
      → has_end ts ≡ true
      → Extends level left ts left ts
  stop_Extends level left ts h = (
    h,
    omega arith,
    [],
    refl,
    λ before w. subst (λ us. Written D level us left) (sym (append-nil before)) w,
  )

  -- The loop behind a first part.
  first_Reads :
      (part level : Level) (ts rest left : List Token) (l e : Expr Double)
      → ((used : List Token) → Written D part used l → Written D level used l)
      → Reads (At D part) ts l rest
      → Extends level l rest e left
      → Reads (At D level) ts e left
  first_Reads part level ts rest left l e up (_, lt, used, split, w) (h, le, used', split', grow) =
      (
        h,
        omega arith,
        used ++ used',
        split ∙ ap (λ us. used ++ us) split' ∙ sym (append_assoc used used' left),
        grow used (up used w),
      )

  -- A further part, behind the word that joins it.
  join_Extends :
      (part level : Level) (ts behind rest left : List Token) (word : Token)
      (l r both e : Expr Double)
      → ts ≡ word ∷ behind
      → ((before used : List Token)
          → Written D level before l
          → Written D part used r
          → Written D level (before ++ (word ∷ used)) both)
      → Reads (At D part) behind r rest
      → Extends level both rest e left
      → Extends level l ts e left
  join_Extends part level ts behind rest left word l r both e p join (_, lt, used, split, w)
        (h, le, used', split', grow) =
      (
        h,
        omega (arith, ap length p),
        word ∷ (used ++ used'),
        p
            ∙ ap (λ us. word ∷ us)
                (split ∙ ap (λ us. used ++ us) split' ∙ sym (append_assoc used used' left)),
        λ before v.
            subst (λ us. Written D level us e) (append_assoc before (word ∷ used) used')
              (grow (before ++ (word ∷ used)) (join before used v w)),
      )

  mutual
    unfolding parse_or

    or_Reads :
        (fuel : ℕ) (ts : List Token)
        → 3 * length ts + 3 ≤ fuel
        → has_end ts ≡ true
        → Ensures (Reads (At D or_level) ts) (parse_or D fuel ts)
    or_Reads zero ts h e = absurd (omega arith)
    or_Reads (suc fuel) ts h e = Ensures-and_then (and_Reads fuel ts (omega arith) e) λ l rest r.
        Ensures-mono (or_loop-Extends fuel l rest (omega (arith, r.1)) r.0)
          λ e' left. first_Reads and_level or_level ts rest left l e' (λ used w. one_and w) r

    or_loop-Extends :
        (fuel : ℕ) (left : Expr Double) (ts : List Token)
        → 3 * length ts + 2 ≤ fuel
        → has_end ts ≡ true
        → Ensures (Extends or_level left ts) (or_loop D fuel left ts)
    or_loop-Extends zero left ts h e = absurd (omega arith)
    or_loop-Extends (suc fuel) left ts h e =
        Ensures-on_kind keyword_or ts refl e
          (λ word behind p k h'.
            Ensures-and_then (and_Reads fuel behind (omega (arith, ap length p)) h') λ right rest r.
              Ensures-mono
                (or_loop-Extends fuel (or_expr left right) rest (omega (arith, ap length p, r.1))
                  r.0)
                λ e' after.
                  join_Extends and_level or_level ts behind rest after word left right
                    (or_expr left right) e' p
                    (λ before used v w. disjunction word before used v k w refl) r)
          (holds (stop_Extends or_level left ts e))

    and_Reads :
        (fuel : ℕ) (ts : List Token)
        → 3 * length ts + 2 ≤ fuel
        → has_end ts ≡ true
        → Ensures (Reads (At D and_level) ts) (parse_and D fuel ts)
    and_Reads zero ts h e = absurd (omega arith)
    and_Reads (suc fuel) ts h e =
        Ensures-and_then (primary_Reads fuel ts (omega arith) e) λ l rest r.
          Ensures-mono (and_loop-Extends fuel l rest (omega (arith, r.1)) r.0) λ e' left.
            first_Reads primary_level and_level ts rest left l e' (λ used w. one_primary w) r

    and_loop-Extends :
        (fuel : ℕ) (left : Expr Double) (ts : List Token)
        → 3 * length ts + 1 ≤ fuel
        → has_end ts ≡ true
        → Ensures (Extends and_level left ts) (and_loop D fuel left ts)
    and_loop-Extends zero left ts h e = absurd (omega arith)
    and_loop-Extends (suc fuel) left ts h e =
        Ensures-on_kind keyword_and ts refl e
          (λ word behind p k h'.
            Ensures-and_then (primary_Reads fuel behind (omega (arith, ap length p)) h')
              λ right rest r.
                Ensures-mono
                  (and_loop-Extends fuel (and_expr left right) rest
                    (omega (arith, ap length p, r.1)) r.0)
                  λ e' after.
                    join_Extends primary_level and_level ts behind rest after word left right
                      (and_expr left right) e' p
                      (λ before used v w. conjunction word before used v k w refl) r)
          (holds (stop_Extends and_level left ts e))

    primary_Reads :
        (fuel : ℕ) (ts : List Token)
        → 3 * length ts + 1 ≤ fuel
        → has_end ts ≡ true
        → Ensures (Reads (At D primary_level) ts) (parse_primary D fuel ts)
    primary_Reads zero ts h e = absurd (omega arith)
    primary_Reads (suc fuel) ts h e =
        Ensures-on_kind lparen ts refl e
          (λ open_paren inner p k h'.
            Ensures-and_then (or_Reads fuel inner (omega (arith, ap length p)) h') λ e' rest r.
              Ensures-on_kind rparen rest refl r.0
                (λ close_paren left q k' h''.
                  let (_, lt, used, split, w) = r in
                  holds (
                    h'',
                    omega (arith, ap length p, ap length q),
                    open_paren ∷ (used ++ (close_paren ∷ [])),
                    bracketed used p split q,
                    parenthesised open_paren close_paren used k w k' refl,
                  ))
                rejected)
          (predicate_Reads D fuel ts (omega arith) e)

  -- A clause: the text of the expression, then the end.
  abbrev pub Clause : List Token → Expr Double → Type 0
  Clause ts e =
      (used : List Token) × (stop : Token) × (behind : List Token) × (ts ≡ used ++ (stop ∷ behind))
      × (kind_eq stop.kind end_kind ≡ true)
      × Written D or_level used e

  abbrev IsClause : List Token → Parsed (Expr Double) → Type 0
  IsClause ts r =
      (r ≡ null) ⊎ ((e : Expr Double) × (rest : List Token) × (r ≡ parsed e rest) × Clause ts e)

  end_IsClause :
      (ts rest : List Token) (e : Expr Double)
      → Reads (At D or_level) ts e rest
      → IsClause ts (on_kind end_kind rest (λ _. parsed e rest) null)
  end_IsClause ts [] e (h, _, used, split, w) = cc
  end_IsClause ts (t ∷ rest) e (h, _, used, split, w) =
      elim (Bool-cases (kind_eq t.kind end_kind)) [
        | inl k ↦ rw k (inr (e, t ∷ rest, refl, (used, t, rest, split, k, w)))
        | inr k ↦ rw k (inl refl)
      ]

  whole_IsClause :
      (ts : List Token) {r : Parsed (Expr Double)}
      → Ensures (Reads (At D or_level) ts) r
      → IsClause ts (and_then r λ e rest. on_kind end_kind rest (λ _. parsed e rest) null)
  whole_IsClause ts (holds {a} {rest} r) = end_IsClause ts rest a r
  whole_IsClause ts rejected = inl refl

  -- On tokens that have an end among them, `parse` reads none behind the last and stays within its fuel; it
  -- returns the null pointer, or an expression for which the grammar writes the tokens before an end.
  pub parse-Clause :
      (ts : List Token)
      → has_end ts ≡ true
      → (parse D ts ≡ null)
        ⊎ ((e : Expr Double) × (rest : List Token) × (parse D ts ≡ parsed e rest) × Clause ts e)
  unfolding parse
  parse-Clause ts h = whole_IsClause ts (or_Reads (3 * length ts + 3) ts (omega arith) h)
