-- ===== src/Where/Compile/Total.antt =====
-- `compile_where` ends for every text, and what it compiles is an expression of the grammar with its fields bound.
use fast_gdb.Base.{ℕ, ◌≡◌, refl, sym, subst, true, List, [], ◌∷◌, some, inl, inr, ◌⊎◌, Option-cases}
use fast_gdb.Where.{Doubles, Token, Expr, has_end}
use fast_gdb.Where.Lexer.{tokenize}
use fast_gdb.Where.Lexer.Total.{tokenize_total}
use fast_gdb.Where.Parser.Whole.{Clause, parse-Clause}
use fast_gdb.Where.Bind.{bind_fields, index_fields}
use fast_gdb.Fields.{FieldDescriptor}
use fast_gdb.Where.Compile.{
  Compiled, CompiledWhereImpl, valid, empty_clause, unsupported_clause, unknown_field, compile_root,
  compile_tokens, compile_where, sort_unique, indexable_root,
}

module _ (D : Doubles) (fields : List FieldDescriptor) where
  open D use {Double}

  -- The root of a compiled clause: the expression that the grammar has for the tokens, with its fields bound.
  abbrev pub IsCompiled : List ℕ → CompiledWhereImpl Double → Type 0
  IsCompiled text c =
      (tokens : List Token) × (parsed_root : Expr Double) × (referenced : List ℕ) × (tokenize D text
        ≡ some tokens)
      × Clause D tokens parsed_root
      × (bind_fields (index_fields 0 [] fields) parsed_root [] ≡ some (c.root, referenced))
      × (c.referenced_fields ≡ sort_unique referenced)
      × (c.indexable ≡ indexable_root D fields c.root)

  abbrev pub Outcomes : List ℕ → Compiled Double → Type 0
  Outcomes text r =
      (r ≡ empty_clause)
      ⊎ (r ≡ unsupported_clause)
      ⊎ (r ≡ unknown_field)
      ⊎ (c : CompiledWhereImpl Double) × (r ≡ valid c) × IsCompiled text c

  root_Outcomes :
      (text : List ℕ) (tokens : List Token) (e : Expr Double)
      → tokenize D text ≡ some tokens
      → Clause D tokens e
      → Outcomes text (compile_root D fields e)
  unfolding compile_root
  root_Outcomes text tokens e t w =
      elim (Option-cases (bind_fields (index_fields 0 [] fields) e [])) [
        | inl n ↦ inr (inr (inl (rw (n, compile_root) refl)))
        | inr ((bound, referenced), b) ↦
            let c : CompiledWhereImpl Double = record {
              root = bound;
              referenced_fields = sort_unique referenced;
              indexable = indexable_root D fields bound;
            } in
            inr (
              inr
                (inr (c, rw (b, compile_root) refl, (tokens, e, referenced, t, w, b, refl, refl))))
      ]

  tokens_Outcomes :
      (text : List ℕ) (tokens : List Token)
      → tokenize D text ≡ some tokens
      → (tokens ≡ []) ⊎ (has_end tokens ≡ true)
      → Outcomes text (compile_tokens D fields tokens)
  unfolding compile_tokens
  tokens_Outcomes text [] t h = inr (inl refl)
  tokens_Outcomes text (x ∷ xs) t (inl n) = cc
  tokens_Outcomes text (x ∷ xs) t (inr h) = elim (parse-Clause D (x ∷ xs) h) [
    | inl n ↦ inr (inl (rw (n, compile_tokens) refl))
    | inr (e, rest, p, w) ↦
        let run : compile_tokens D fields (x ∷ xs) ≡ compile_root D fields e =
          rw (p, compile_tokens) refl in
        subst (Outcomes text) (sym run) (root_Outcomes text (x ∷ xs) e t w)
  ]

  -- `compile_where` ends for every text and table, with no read behind the last token. It returns one of its three
  -- errors, or a compiled clause: the root is an expression for which the grammar, in which AND binds tighter than
  -- OR and both group to the left, writes the tokens of the text, with its fields bound; the list of referenced
  -- fields is that of the bound fields, sorted without repetition, and the predicate for an index is that of the root.
  pub compile_where-Outcomes : (text : List ℕ) → Outcomes text (compile_where D text fields)
  unfolding compile_where
  compile_where-Outcomes [] = inl refl
  compile_where-Outcomes (c ∷ cs) =
      let (tokens, t, h) = tokenize_total D (c ∷ cs) in
      let run : compile_where D (c ∷ cs) fields ≡ compile_tokens D fields tokens =
        rw (t, compile_where) refl in
      subst (Outcomes (c ∷ cs)) (sym run) (tokens_Outcomes (c ∷ cs) tokens t h)
