-- ===== src/Where/Compile/Meaning.antt =====
-- What a compiled clause promises: its fields, and its predicate for an index.
use fast_gdb.Base.{
  ℕ, ◌≡◌, refl, sym, ap, subst, ◌∙◌, true, List, [], some, inl, inr, get_elem?, Option-cases,
  Bool-cases,
}
use fast_gdb.Base.Options.{unsome, none_some}
use fast_gdb.Where.{
  Doubles, FieldUse, AttrOp, Literal, Expr, comparison, in_list, and_expr, or_expr,
}
use fast_gdb.Where.Bind.{index_fields}
use fast_gdb.Fields.{FieldDescriptor}
use fast_gdb.Where.Row.{is_some_and, evaluate_ref}
use fast_gdb.Fields.{FieldRef}
use fast_gdb.Where.Eval.{evaluate_fields}
use fast_gdb.Where.Fids.Sorted.{IsStrictFrom, holds}
use fast_gdb.Where.Compile.{
  CompiledWhereImpl, IndexableWherePredicate, valid, compile_where, indexable_root, literal_fits,
  evaluate_where_fields,
}
use fast_gdb.Where.Compile.Total.{IsCompiled, compile_where-Outcomes}
use fast_gdb.Where.Compile.Fields.{
  leaves, IsBound, bind_fields-Binds, all-Named, sort_unique-IsStrictFrom, holds-sort_unique,
}

unvalid : {A : Type 0} {a b : CompiledWhereImpl A} → valid a ≡ valid b → a ≡ b
unvalid h = cc

module _ (D : Doubles) (fields : List FieldDescriptor) where
  open D use {Double}

  -- The comparison that a predicate stands for.
  abbrev StandsFor : Expr Double → IndexableWherePredicate Double → Type 0
  StandsFor e p =
      (f : FieldUse) × (d : FieldDescriptor) × (e ≡ comparison f p.op p.value)
      × (f.field_index ≡ p.field_index)
      × (get_elem? fields p.field_index ≡ some d)
      × (literal_fits p.value d.type ≡ true)

  fitting :
      (f : FieldUse) (op : AttrOp) (l : Literal Double) (d : FieldDescriptor)
      (p : IndexableWherePredicate Double)
      → get_elem? fields f.field_index ≡ some d
      → indexable_root D fields (comparison f op l) ≡ some p
      → StandsFor (comparison f op l) p
  unfolding indexable_root
  fitting f op l d p e h = elim (Bool-cases (literal_fits l d.type)) [
    | inr n ↦ none_some (sym (rw (e, indexable_root, n) refl) ∙ h)
    | inl y ↦
        let q : IndexableWherePredicate Double = record {
          field_index = f.field_index;
          field_name = d.name;
          op = op;
          value = l;
        } in
        let run : indexable_root D fields (comparison f op l) ≡ some q =
          rw (e, indexable_root, y) refl in
        subst (StandsFor (comparison f op l)) (unsome (sym run ∙ h)) (f, d, refl, refl, e, y)
  ]

  root-StandsFor :
      (e : Expr Double) (p : IndexableWherePredicate Double)
      → indexable_root D fields e ≡ some p
      → StandsFor e p
  unfolding indexable_root
  root-StandsFor (comparison f op l) p h = elim (Option-cases (get_elem? fields f.field_index)) [
    | inl n ↦ none_some (sym (rw (n, indexable_root) refl) ∙ h)
    | inr (d, e) ↦ fitting f op l d p e h
  ]
  root-StandsFor (in_list f ls) p h = cc
  root-StandsFor (and_expr l r) p h = cc
  root-StandsFor (or_expr l r) p h = cc

module _ (D : Doubles) (fields : List FieldDescriptor) (text : List ℕ)
    (c : CompiledWhereImpl D.Double) where
  compiled : compile_where D text fields ≡ valid c → IsCompiled D fields text c
  compiled h = elim (compile_where-Outcomes D fields text) [
    | inl e ↦ cc
    | inr (inl e) ↦ cc
    | inr (inr (inl e)) ↦ cc
    | inr (inr (inr (c', e, w))) ↦ subst (IsCompiled D fields text) (unvalid (sym e ∙ h)) w
  ]

  -- In a compiled clause every leaf of the root has the index of a field of the table whose name is that of
  -- the leaf up to the case of letters; the referenced fields are strictly ascending, and are exactly the
  -- indexes of the leaves.
  pub compile_where-IsBound :
      compile_where D text fields ≡ valid c
      → IsBound fields c.root
        × IsStrictFrom 0 c.referenced_fields
        × ((n : ℕ) → holds n c.referenced_fields ≡ holds n (leaves c.root))
  compile_where-IsBound h =
      let (tokens, e, referenced, t, w, b, r, i) = compiled h in
      let (bound, p) =
        bind_fields-Binds fields (index_fields 0 [] fields) (all-Named fields) e []
          (c.root, referenced) b in
      (
        bound,
        subst (IsStrictFrom 0) (sym r) (sort_unique-IsStrictFrom referenced),
        λ n. ap (holds n) r ∙ holds-sort_unique n referenced ∙ ap (holds n) p,
      )

  comparison_answer :
      (p : IndexableWherePredicate D.Double) (row : List FieldRef)
      → StandsFor D fields c.root p
      → evaluate_where_fields D (valid c) (some row)
        ≡ is_some_and (get_elem? row p.field_index) (λ v. evaluate_ref D v p.value p.op)
  unfolding evaluate_where_fields evaluate_fields
  comparison_answer p row (f, d, e, i, _, _) =
      ap (evaluate_fields D row) e
      ∙ ap (λ n. is_some_and (get_elem? row n) (λ v. evaluate_ref D v p.value p.op)) i

  -- Where a compiled clause has a predicate for an index, its literal is of the kind of the field that it
  -- names, and the clause holds for a row exactly where that field is there and passes the comparison.
  pub compile_where-indexable :
      (p : IndexableWherePredicate D.Double) (row : List FieldRef)
      → compile_where D text fields ≡ valid c
      → c.indexable ≡ some p
      → ((d : FieldDescriptor) × (get_elem? fields p.field_index ≡ some d)
          × (literal_fits p.value d.type ≡ true))
        × (evaluate_where_fields D (valid c) (some row)
            ≡ is_some_and (get_elem? row p.field_index) (λ v. evaluate_ref D v p.value p.op))
  compile_where-indexable p row h e =
      let (_, _, _, _, _, _, _, root) = compiled h in
      let w = root-StandsFor D fields c.root p (sym root ∙ e) in
      let (f, d, _, _, at, fits) = w in ((d, at, fits), comparison_answer p row w)
