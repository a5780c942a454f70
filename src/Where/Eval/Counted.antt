-- ===== src/Where/Eval/Counted.antt =====
-- The decoder of a text in a record, and of the number of the row, against the scan.
use fast_gdb.Base.{
  ℕ, zero, suc, ◌+◌, ◌-◌, ◌≤◌, ◌≡◌, refl, sym, ap, ◌∙◌, subst, true, false, List, [], ◌∷◌, some,
  arith, length, take, drop, ltb, leb, Bool-cases, inl, inr, length-drop,
}
use fast_gdb.BinaryReader.{ok, Reader, ◌>>=◌, return}
use fast_gdb.BinaryReader.Bounds.{IsValid}
use fast_gdb.BinaryReader.Moves.{skip-read_bytes-can_read}
use fast_gdb.BinaryReader.Varuint.{moved, Rest, read_u8_next}
use fast_gdb.Fields.{FieldRef, string, object_id, xml}
use fast_gdb.Base.Options.{>>=-eq-some, none_some, unsome}
use fast_gdb.Rows.{
  fixed_physical_width, ref_of, field_ref, set_fixed_field_ref, set_counted_field_ref,
  read_varuint_checked,
}
use fast_gdb.Rows.Checked.{read_varuint_checked-read_varuint, Agrees-some}
use fast_gdb.Where.{Doubles}
use fast_gdb.Where.Eval.Agree.{decoded}
use fast_gdb.Where.Eval.Record.{
  read_fixed_field_value, read_field_value, read_text, read_counted, counted_value,
}
use fast_gdb.Where.Row.{as_i32, text_value}

read_text-Rest :
    (n : ℕ) (xs : List ℕ) (r : Reader)
    → IsValid r
    → Rest r xs
    → n ≤ length xs
    → read_text n r ≡ (ok (take n xs), moved r n)
unfolding read_text
read_text-Rest zero xs r v e h = let here : r.pos_ + 0 ≡ r.pos_ = omega arith in rw here refl
read_text-Rest (suc n) [] r v e h = absurd (omega arith)
read_text-Rest (suc n) (x ∷ xs) r v e h =
    let (run, _, behind, v') = read_u8_next r v x xs e in
    let later = read_text-Rest n xs (moved r 1) v' behind (omega arith) in
    let there : r.pos_ + 1 + n ≡ r.pos_ + suc n = omega arith in rw (run, later, there) refl

module _ (D : Doubles) (fid : ℕ) (r : Reader) (v : IsValid r) where
  open D use {Double}

  -- A field with its length in front.
  counted_text :
      (bytes rest : List ℕ)
      → set_counted_field_ref (drop r.pos_ r.bytes) ≡ some (bytes, rest)
      → (r' : Reader) × (counted_value D
            (λ length. read_text length >>= λ text. return (some (text_value text)))
            r
          ≡ (ok (some (text_value bytes)), r'))
  unfolding set_counted_field_ref
  counted_text bytes rest h =
      let ((n, behind), e, e') = >>=-eq-some (read_varuint_checked (drop r.pos_ r.bytes)) _ h in
      let (p, run, at, i) = Agrees-some n behind (read_varuint_checked-read_varuint r v) e in
      let r' : Reader = record { bytes = r.bytes; pos_ = p } in
      let v' : IsValid r' = record { inside = i; allocated = v.allocated; octets = v.octets } in
      elim (Bool-cases (ltb (length behind) n)) [
        | inl short ↦ none_some (rw short at e')
        | inr enough ↦
            let q : (take n behind, drop n behind) ≡ (bytes, rest) = unsome (rw enough at e') in
            let same : take n behind ≡ bytes = ap (λ t. t.0) q in
            let long : n ≤ length behind = ground (arith, enough) in
            let left : length behind ≡ length r.bytes - p =
              ap length (sym at) ∙ length-drop p r.bytes in
            let here = (skip-read_bytes-can_read r' n v' (omega (arith, v.allocated))).2 in
            let fits : leb (p + n) (length r.bytes) ≡ true = ground arith in
            let text = read_text-Rest n behind r' v' at long in
            (moved r' n, rw (run, here, fits, text, same) refl)
      ]

  pub read_string-decoded :
      (ref : FieldRef) (rest : List ℕ)
      → field_ref fid string (drop r.pos_ r.bytes) ≡ some (ref, rest)
      → (ref.is_null ≡ false)
        × (r' : Reader) × (read_field_value D fid string r ≡ (ok (decoded D ref.type ref), r'))
  unfolding field_ref fixed_physical_width read_field_value read_counted
  read_string-decoded ref rest h =
      let ((bytes, rest'), e, e') = >>=-eq-some (set_counted_field_ref (drop r.pos_ r.bytes)) _ h in
      let same : ref_of fid string bytes ≡ ref = ap (λ t. t.0) (unsome e') in
      let (r', run) = counted_text bytes rest' e in
      subst
        (λ (x : FieldRef).
          (x.is_null ≡ false)
          × (s : Reader) × (read_field_value D fid string r ≡ (ok (decoded D x.type x), s)))
        same (refl, r', run)

  pub read_xml-decoded :
      (ref : FieldRef) (rest : List ℕ)
      → field_ref fid xml (drop r.pos_ r.bytes) ≡ some (ref, rest)
      → (ref.is_null ≡ false)
        × (r' : Reader) × (read_field_value D fid xml r ≡ (ok (decoded D ref.type ref), r'))
  unfolding field_ref fixed_physical_width read_field_value read_counted
  read_xml-decoded ref rest h =
      let ((bytes, rest'), e, e') = >>=-eq-some (set_counted_field_ref (drop r.pos_ r.bytes)) _ h in
      let same : ref_of fid xml bytes ≡ ref = ap (λ t. t.0) (unsome e') in
      let (r', run) = counted_text bytes rest' e in
      subst
        (λ (x : FieldRef).
          (x.is_null ≡ false)
          × (s : Reader) × (read_field_value D fid xml r ≡ (ok (decoded D x.type x), s)))
        same (refl, r', run)

  -- The number of the row stands in no byte of it.
  pub read_object_id-decoded :
      (ref : FieldRef) (rest : List ℕ)
      → field_ref fid object_id (drop r.pos_ r.bytes) ≡ some (ref, rest)
      → (ref.is_null ≡ false)
        × (read_field_value D fid object_id r ≡ (ok (decoded D ref.type ref), r))
  unfolding field_ref set_fixed_field_ref fixed_physical_width read_field_value
      read_fixed_field_value as_i32
  read_object_id-decoded ref rest h =
      let e : (ref_of fid object_id [], drop r.pos_ r.bytes) ≡ (ref, rest) = unsome h in
      let same : ref_of fid object_id [] ≡ ref = ap (λ t. t.0) e in
      subst
        (λ (x : FieldRef).
          (x.is_null ≡ false) × (read_field_value D fid object_id r ≡ (ok (decoded D x.type x), r)))
        same (refl, refl)
