-- ===== src/Where/Compile/Fields.antt =====
-- What binding gives: every leaf has the index of a field of its name, and the list of referenced fields holds
-- exactly the indexes of the leaves.
use fast_gdb.Base.{
  ℕ, zero, suc, ◌+◌, ◌≤◌, ◌≡◌, refl, sym, ap, subst, ◌∙◌, true, ◌||◌, List, [], ◌∷◌, ◌++◌, Option,
  none, some, arith, inl, inr, ◌⊎◌, get_elem?, Option-cases, Bool-cases, ltb→lt, ltb, ◌==◌,
  if◌then◌else◌,
}
use mathlib.Core.List.{append_assoc}
use fast_gdb.Base.Chars.{lower_copy}
use fast_gdb.Base.Keys.{key_eq, eq_of_key_eq}
use fast_gdb.Base.Options.{unsome, none_some, >>=-eq-some}
use fast_gdb.Where.{FieldUse, Expr, comparison, in_list, and_expr, or_expr}
use fast_gdb.Where.Bind.{Indexes, find, emplace, index_fields, bind_leaf, bind_fields}
use fast_gdb.Fields.{FieldDescriptor}
use fast_gdb.Where.Fids.Sorted.{IsStrictFrom, holds}
use fast_gdb.Where.Compile.{insert_unique, sort_unique}

-- A field that is called so, up to the case of letters.
abbrev pub Names : List FieldDescriptor → List ℕ → ℕ → Type 0
Names fields name i =
    (f : FieldDescriptor) × (get_elem? fields i ≡ some f) × (lower_copy f.name ≡ lower_copy name)

-- The entries of the map name the fields at their indexes.
abbrev pub Named : List FieldDescriptor → Indexes → Type 0
Named fields indexes =
    (key : List ℕ) (i : ℕ)
    → find indexes key ≡ some i
    → (f : FieldDescriptor) × (get_elem? fields i ≡ some f) × (lower_copy f.name ≡ key)

abbrev or_else : Option ℕ → Option ℕ → Option ℕ
or_else none b = b
or_else (some a) b = some a

find-append :
    (indexes : Indexes) (name key : List ℕ) (i : ℕ)
    → find (indexes ++ ((name, i) ∷ [])) key
      ≡ or_else (find indexes key) (if key_eq name key then some i else none)
unfolding find
find-append [] name key i = refl
find-append ((k, n) ∷ rest) name key i = ground (arith, find-append rest name key i)

appended :
    (indexes : Indexes) (name key : List ℕ) (i j : ℕ)
    → find (indexes ++ ((name, i) ∷ [])) key ≡ some j
    → (find indexes key ≡ some j) ⊎ (key_eq name key ≡ true) × (i ≡ j)
appended indexes name key i j h = ground (arith, find-append indexes name key i)

next_index : (i k : ℕ) → i + 1 + k ≡ i + suc k
next_index i k = omega arith

index_zero : (i : ℕ) → i + 0 ≡ i
index_zero i = omega arith

zero_index : (k : ℕ) → 0 + k ≡ k
zero_index k = omega arith

module _ (fields : List FieldDescriptor) where
  none_found : Named fields []
  unfolding find
  none_found key i h = cc

  emplace-Named :
      (indexes : Indexes) (f : FieldDescriptor) (i : ℕ)
      → get_elem? fields i ≡ some f
      → Named fields indexes
      → Named fields (emplace indexes (lower_copy f.name) i)
  unfolding emplace
  emplace-Named indexes f i e h key j p = elim (Option-cases (find indexes (lower_copy f.name))) [
    | inr (k, old) ↦ h key j (sym (ap (λ m. find m key) (rw (old, emplace) refl)) ∙ p)
    | inl new ↦
        elim (appended indexes (lower_copy f.name) key i j
          (sym (ap (λ m. find m key) (rw (new, emplace) refl)) ∙ p)) [
            | inl q ↦ h key j q
            | inr (same, q) ↦ (
              f,
              subst (λ n. get_elem? fields n ≡ some f) q e,
              eq_of_key_eq (lower_copy f.name) key same,
            )
          ]
  ]

  index_fields-Named :
      (fs : List FieldDescriptor) (i : ℕ) (indexes : Indexes)
      → ((k : ℕ) → get_elem? fields (i + k) ≡ get_elem? fs k)
      → Named fields indexes
      → Named fields (index_fields i indexes fs)
  unfolding index_fields
  index_fields-Named [] i indexes at h = h
  index_fields-Named (f ∷ fs) i indexes at h =
      index_fields-Named fs (i + 1) (emplace indexes (lower_copy f.name) i)
        (λ k. ap (get_elem? fields) (next_index i k) ∙ at (suc k))
        (emplace-Named indexes f i (sym (ap (get_elem? fields) (index_zero i)) ∙ at zero) h)

  pub all-Named : Named fields (index_fields 0 [] fields)
  all-Named = index_fields-Named fields 0 [] (λ k. ap (get_elem? fields) (zero_index k)) none_found

abbrev pub leaves : {D : Type 0} → Expr D → List ℕ
leaves (comparison f op l) = f.field_index ∷ []
leaves (in_list f ls) = f.field_index ∷ []
leaves (and_expr l r) = leaves l ++ leaves r
leaves (or_expr l r) = leaves l ++ leaves r

abbrev pub IsBound : {D : Type 0} → List FieldDescriptor → Expr D → Type 0
IsBound fields (comparison f op l) = Names fields f.field_name f.field_index
IsBound fields (in_list f ls) = Names fields f.field_name f.field_index
IsBound fields (and_expr l r) = IsBound fields l × IsBound fields r
IsBound fields (or_expr l r) = IsBound fields l × IsBound fields r

module _ {D : Type 0} (fields : List FieldDescriptor) (indexes : Indexes)
    (named : Named fields indexes) where
  abbrev pub Binds : List ℕ → Expr D → List ℕ → Type 0
  Binds referenced e referenced' = IsBound fields e × (referenced' ≡ referenced ++ leaves e)

  leaf_Names :
      (f : FieldUse) (build : FieldUse → Expr D) (referenced referenced' : List ℕ) (e : Expr D)
      → bind_leaf indexes f build referenced ≡ some (e, referenced')
      → (i : ℕ) × (build (record f { field_index = i }) ≡ e)
        × (referenced ++ (i ∷ []) ≡ referenced')
        × Names fields f.field_name i
  leaf_Names f build referenced referenced' e h =
      elim (Option-cases (find indexes (lower_copy f.field_name))) [
        | inl n ↦ none_some (sym (rw (n, bind_leaf) refl) ∙ h)
        | inr (i, p) ↦
            let bound : Expr D × List ℕ =
              (build (record f { field_index = i }), referenced ++ (i ∷ [])) in
            let run : bind_leaf indexes f build referenced ≡ some bound = rw (p, bind_leaf) refl in
            let q : bound ≡ (e, referenced') = unsome (sym run ∙ h) in
            (i, ap (λ x. x.0) q, ap (λ x. x.1) q, named (lower_copy f.field_name) i p)
      ]

  join :
      (referenced middle referenced' : List ℕ) (l r : Expr D)
      → Binds referenced l middle
      → Binds middle r referenced'
      → (IsBound fields l × IsBound fields r) × (referenced' ≡ referenced ++ (leaves l ++ leaves r))
  join referenced middle referenced' l r (bl, el) (br, er) =
      ((bl, br), er ∙ ap (λ us. us ++ leaves r) el ∙ append_assoc referenced (leaves l) (leaves r))

  pub bind_fields-Binds :
      (e : Expr D) (referenced : List ℕ) (out : Expr D × List ℕ)
      → bind_fields indexes e referenced ≡ some out
      → Binds referenced out.0 out.1
  unfolding bind_fields
  bind_fields-Binds (comparison f op l) referenced (e', referenced') h =
      let (i, p, q, names) = leaf_Names f (λ f'. comparison f' op l) referenced referenced' e' h in
      subst (λ x. Binds referenced x referenced') p (names, sym q)
  bind_fields-Binds (in_list f ls) referenced (e', referenced') h =
      let (i, p, q, names) = leaf_Names f (λ f'. in_list f' ls) referenced referenced' e' h in
      subst (λ x. Binds referenced x referenced') p (names, sym q)
  bind_fields-Binds (and_expr l r) referenced out h =
      let (left, pl, h') = >>=-eq-some (bind_fields indexes l referenced) _ h in
      let (right, pr, h'') = >>=-eq-some (bind_fields indexes r left.1) _ h' in
      subst (λ x. Binds referenced x.0 x.1) (unsome h'')
        (join referenced left.1 right.1 left.0 right.0 (bind_fields-Binds l referenced left pl)
          (bind_fields-Binds r left.1 right pr))
  bind_fields-Binds (or_expr l r) referenced out h =
      let (left, pl, h') = >>=-eq-some (bind_fields indexes l referenced) _ h in
      let (right, pr, h'') = >>=-eq-some (bind_fields indexes r left.1) _ h' in
      subst (λ x. Binds referenced x.0 x.1) (unsome h'')
        (join referenced left.1 right.1 left.0 right.0 (bind_fields-Binds l referenced left pl)
          (bind_fields-Binds r left.1 right pr))

insert_unique-IsStrictFrom :
    (low n : ℕ) (xs : List ℕ)
    → low ≤ n
    → IsStrictFrom low xs
    → IsStrictFrom low (insert_unique n xs)
unfolding insert_unique
insert_unique-IsStrictFrom low n [] h s = (h, tt)
insert_unique-IsStrictFrom low n (m ∷ ms) h (le, s) = elim (Bool-cases (ltb n m)) [
  | inl e ↦ rw e (h, (omega (arith, ltb→lt n m e), s))
  | inr e ↦ elim (Bool-cases (n == m)) [
    | inl e' ↦ rw (e, e') (le, s)
    | inr e' ↦ rw (e, e') (le, insert_unique-IsStrictFrom (m + 1) n ms (ground arith) s)
  ]
]

holds-insert_unique :
    (n k : ℕ) (xs : List ℕ) → holds k (insert_unique n xs) ≡ (n == k || holds k xs)
unfolding insert_unique
holds-insert_unique n k [] = refl
holds-insert_unique n k (m ∷ ms) = ground (arith, holds-insert_unique n k ms)

pub sort_unique-IsStrictFrom : (xs : List ℕ) → IsStrictFrom 0 (sort_unique xs)
unfolding sort_unique
sort_unique-IsStrictFrom [] = tt
sort_unique-IsStrictFrom (n ∷ ns) =
    insert_unique-IsStrictFrom 0 n (sort_unique ns) (omega arith) (sort_unique-IsStrictFrom ns)

pub holds-sort_unique : (k : ℕ) (xs : List ℕ) → holds k (sort_unique xs) ≡ holds k xs
unfolding sort_unique
holds-sort_unique k [] = refl
holds-sort_unique k (n ∷ ns) =
    holds-insert_unique n k (sort_unique ns) ∙ ap (λ b. n == k || b) (holds-sort_unique k ns)
