-- ===== src/Rows/Skip.antt =====
-- `skip_field_value` of field_layout.h, which steps over a field that is not null with the cursor, against the scan.
use fast_gdb.Base.{
  ℕ, zero, suc, ◌+◌, ◌-◌, ◌≤◌, ◌≡◌, inl, inr, refl, sym, subst, ap, ◌∙◌, Bool, true, false, not,
  List, [], ◌∷◌, some, arith, length, length-drop, drop, ltb, leb, ◌==◌, Bool-cases, if◌then◌else◌,
}
use fast_gdb.Base.Options.{>>=-eq-some, none_some, unsome}
use fast_gdb.BinaryReader.{ok, Reader, size, M, ◌>>=◌, ◌>>◌, return, read_varuint, skip, can_read}
use fast_gdb.BinaryReader.Bounds.{IsValid}
use fast_gdb.BinaryReader.Varuint.{moved}
use fast_gdb.BinaryReader.Moves.{skip-read_bytes-can_read}
use fast_gdb.Fields.{FieldType, FieldRef, object_id}
use fast_gdb.Rows.{
  fixed_physical_width, is_counted, is_object_id, read_varuint_checked, set_fixed_field_ref,
  set_counted_field_ref, field_ref,
}
use fast_gdb.Rows.Checked.{read_varuint_checked-read_varuint, Agrees-some}

-- `false` where fewer bytes are left.
abbrev pub skip_when_left : ℕ → M Bool
skip_when_left n r = if not (can_read r n) then (ok false, r) else (skip n >> return true) r

unfoldable pub skip_field_value : FieldType → M Bool
skip_field_value type =
    let width = fixed_physical_width type in
    if not (width == 0)
    then skip_when_left width
    else if is_object_id type
    then return true
    else if is_counted type
    then (read_varuint >>= λ length. skip_when_left length)
    else return false

drop_nil : (n : ℕ) → drop {A = ℕ} n [] ≡ []
drop_nil zero = refl
drop_nil (suc n) = refl

drop-drop : (n m : ℕ) (xs : List ℕ) → drop m (drop n xs) ≡ drop (n + m) xs
drop-drop zero m xs = ap (λ k. drop k xs) (omega arith)
drop-drop (suc n) m [] = drop_nil m ∙ sym (drop_nil (suc n + m))
drop-drop (suc n) m (x ∷ xs) =
    let next : suc (n + m) ≡ suc n + m = omega arith in
    drop-drop n m xs ∙ ap (λ k. drop k (x ∷ xs)) next

skip_when_left-moved :
    (r : Reader) (n : ℕ)
    → IsValid r
    → n ≤ size r - r.pos_
    → (skip_when_left n r ≡ (ok true, moved r n))
skip_when_left-moved r n v h =
    let (e, _, c) = skip-read_bytes-can_read r n v (omega (arith, v.allocated)) in
    let fits : leb (r.pos_ + n) (size r) ≡ true = ground (arith, v.inside) in
    let inside : ltb (size r) (r.pos_ + n) ≡ false = ground (arith, v.inside) in
    rw (c, fits, e, inside) refl

not_ltb→le : (a b : ℕ) → ltb b a ≡ false → a ≤ b
not_ltb→le a b h = ground arith

-- What a step leaves.
abbrev pub SkipsTo : Reader → FieldType → List ℕ → Type 0
SkipsTo r type rest =
    (p : ℕ) × (skip_field_value type r ≡ (ok true, record { bytes = r.bytes; pos_ = p }))
    × (drop p r.bytes ≡ rest)

module _ (r : Reader) (v : IsValid r) (fid : ℕ) where
  skips_nothing :
      (type : FieldType) → is_object_id type ≡ true → SkipsTo r type (drop r.pos_ r.bytes)
  unfolding skip_field_value fixed_physical_width
  skips_nothing object_id h = (r.pos_, refl, refl)
  skips_nothing _ h = cc

  skips_width :
      (type : FieldType)
      → (fixed_physical_width type == 0) ≡ false
      → fixed_physical_width type ≤ length (drop r.pos_ r.bytes)
      → SkipsTo r type (drop (fixed_physical_width type) (drop r.pos_ r.bytes))
  unfolding skip_field_value
  skips_width type w h =
      let width : ℕ = fixed_physical_width type in
      (
        r.pos_ + width,
        rw w (skip_when_left-moved r width v (omega (arith, length-drop r.pos_ r.bytes))),
        sym (drop-drop r.pos_ width r.bytes),
      )

  skips_counted :
      (type : FieldType) (size_ : ℕ) (rest : List ℕ)
      → (fixed_physical_width type == 0) ≡ true
      → is_object_id type ≡ false
      → is_counted type ≡ true
      → read_varuint_checked (drop r.pos_ r.bytes) ≡ some (size_, rest)
      → size_ ≤ length rest
      → SkipsTo r type (drop size_ rest)
  unfolding skip_field_value
  skips_counted type size_ rest w o c e h =
      let (p, e', at, i) = Agrees-some size_ rest (read_varuint_checked-read_varuint r v) e in
      let r' : Reader = record { bytes = r.bytes; pos_ = p } in
      let v' : IsValid r' = record { inside = i; allocated = v.allocated; octets = v.octets } in
      let left : length rest ≡ length r.bytes - p = ap length (sym at) ∙ length-drop p r.bytes in
      (
        p + size_,
        rw (w, o, c, e') (skip_when_left-moved r' size_ v' (omega arith)),
        sym (drop-drop p size_ r.bytes) ∙ ap (drop size_) at,
      )

  set_object_id-skips :
      (type : FieldType) (bytes rest : List ℕ)
      → is_object_id type ≡ true
      → set_fixed_field_ref type (drop r.pos_ r.bytes) ≡ some (bytes, rest)
      → SkipsTo r type rest
  unfolding set_fixed_field_ref
  set_object_id-skips type bytes rest o h =
      subst (SkipsTo r type) (ap (λ t. t.1) (unsome (rw o at h))) (skips_nothing type o)

  set_fixed-skips :
      (type : FieldType) (bytes rest : List ℕ)
      → is_object_id type ≡ false
      → set_fixed_field_ref type (drop r.pos_ r.bytes) ≡ some (bytes, rest)
      → SkipsTo r type rest
  unfolding set_fixed_field_ref
  set_fixed-skips type bytes rest o h = elim (Bool-cases (fixed_physical_width type == 0)) [
    | inl w ↦ none_some (rw (o, w) at h)
    | inr w ↦ elim (Bool-cases (ltb (length (drop r.pos_ r.bytes)) (fixed_physical_width type))) [
      | inl short ↦ none_some (rw (o, w, short) at h)
      | inr fits ↦
          subst (SkipsTo r type) (ap (λ t. t.1) (unsome (rw (o, w, fits) at h)))
            (skips_width type w (not_ltb→le (fixed_physical_width type) _ fits))
    ]
  ]

  set_counted-skips :
      (type : FieldType) (bytes rest : List ℕ)
      → (fixed_physical_width type == 0) ≡ true
      → is_object_id type ≡ false
      → is_counted type ≡ true
      → set_counted_field_ref (drop r.pos_ r.bytes) ≡ some (bytes, rest)
      → SkipsTo r type rest
  unfolding set_counted_field_ref
  set_counted-skips type bytes rest w o c h =
      let ((n, behind), e, e') = >>=-eq-some (read_varuint_checked (drop r.pos_ r.bytes)) _ h in
      elim (Bool-cases (ltb (length behind) n)) [
        | inl short ↦ none_some (rw short at e')
        | inr fits ↦
            subst (SkipsTo r type) (ap (λ t. t.1) (unsome (rw fits at e')))
              (skips_counted type n behind w o c e (not_ltb→le n (length behind) fits))
      ]

  -- Where the scan reads a field that is not null from the bytes at the cursor of a valid reader,
  -- `skip_field_value` returns true with the cursor at the bytes behind that field.
  pub field_ref-skip_field_value :
      (type : FieldType) (ref : FieldRef) (rest : List ℕ)
      → field_ref fid type (drop r.pos_ r.bytes) ≡ some (ref, rest)
      → SkipsTo r type rest
  unfolding field_ref
  field_ref-skip_field_value type ref rest h = elim (Bool-cases (is_object_id type)) [
    | inl o ↦
        let ((bytes, rest'), e, e') =
          >>=-eq-some (set_fixed_field_ref type (drop r.pos_ r.bytes)) _ (rw o at h) in
        subst (SkipsTo r type) (ap (λ t. t.1) (unsome e'))
          (set_object_id-skips type bytes rest' o e)
    | inr o ↦ elim (Bool-cases (fixed_physical_width type == 0)) [
      | inr w ↦
          let ((bytes, rest'), e, e') =
            >>=-eq-some (set_fixed_field_ref type (drop r.pos_ r.bytes)) _ (rw (o, w) at h) in
          subst (SkipsTo r type) (ap (λ t. t.1) (unsome e')) (set_fixed-skips type bytes rest' o e)
      | inl w ↦ elim (Bool-cases (is_counted type)) [
        | inr c ↦ none_some (rw (o, w, c) at h)
        | inl c ↦
            let ((bytes, rest'), e, e') =
              >>=-eq-some (set_counted_field_ref (drop r.pos_ r.bytes)) _ (rw (o, w, c) at h) in
            subst (SkipsTo r type) (ap (λ t. t.1) (unsome e'))
              (set_counted-skips type bytes rest' w o c e)
      ]
    ]
  ]
