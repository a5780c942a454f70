-- ===== src/Where/Bind.antt =====
-- `bind_fields`: the index of each field that an expression names, and the list of those it names.
use fast_gdb.Base.{ℕ, ◌+◌, List, [], ◌∷◌, ◌++◌, Option, none, some, if◌then◌else◌}
use fast_gdb.Base.Chars.{lower_copy}
use fast_gdb.Base.Keys.{key_eq}
use fast_gdb.Base.Options.{◌>>=◌}
use fast_gdb.Fields.{FieldDescriptor}
use fast_gdb.Where.{FieldUse, Expr, comparison, in_list, and_expr, or_expr}

-- `std::unordered_map<std::string, size_t>`, a name and its index in each entry.
abbrev pub Indexes : Type 0
Indexes = List (List ℕ × ℕ)

unfoldable pub find : Indexes → List ℕ → Option ℕ
find [] name = none
find ((key, index) ∷ rest) name = if key_eq key name then some index else find rest name

-- `emplace`, which keeps an entry that is there.
unfoldable pub emplace : Indexes → List ℕ → ℕ → Indexes
unfolding find
emplace indexes name index = elim (find indexes name) [
  | some _ ↦ indexes
  | none ↦ indexes ++ ((name, index) ∷ [])
]

unfoldable pub index_fields : ℕ → Indexes → List FieldDescriptor → Indexes
unfolding emplace
index_fields index indexes [] = indexes
index_fields index indexes (f ∷ fs) =
    index_fields (index + 1) (emplace indexes (lower_copy f.name) index) fs

module _ {D : Type 0} where
  -- A leaf: the use bound, and its index pushed on `referenced`.
  abbrev pub bind_leaf :
      Indexes → FieldUse → (FieldUse → Expr D) → List ℕ → Option (Expr D × List ℕ)
  bind_leaf indexes use' build referenced = elim (find indexes (lower_copy use'.field_name)) [
    | none ↦ none
    | some index ↦ some (build (record use' { field_index = index }), referenced ++ (index ∷ []))
  ]

  -- The expression bound, with what it refers to; `none` is `false`.
  unfoldable pub bind_fields : Indexes → Expr D → List ℕ → Option (Expr D × List ℕ)
  unfolding find
  bind_fields indexes (comparison f op literal) referenced =
      bind_leaf indexes f (λ f'. comparison f' op literal) referenced
  bind_fields indexes (in_list f literals) referenced =
      bind_leaf indexes f (λ f'. in_list f' literals) referenced
  bind_fields indexes (and_expr l r) referenced = do
    (l', referenced') ← bind_fields indexes l referenced
    (r', referenced'') ← bind_fields indexes r referenced'
    some (and_expr l' r', referenced'')
  bind_fields indexes (or_expr l r) referenced = do
    (l', referenced') ← bind_fields indexes l referenced
    (r', referenced'') ← bind_fields indexes r referenced'
    some (or_expr l' r', referenced'')
