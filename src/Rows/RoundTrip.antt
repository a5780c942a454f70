-- ===== src/Rows/RoundTrip.antt =====
-- A row as a writer of the format lays it out, and what the scan reads of it.
use fast_gdb.Base.{
  ℕ, zero, suc, ◌+◌, ◌*◌, ◌/◌, ◌%◌, ◌^◌, ◌≤◌, ◌<◌, ◌≡◌, ap, ap₂, ◌∙◌, Bool, true, false, List, [],
  ◌∷◌, ◌++◌, none, some, arith, length, get_elem?, take, drop, ltb, leb, ◌==◌, refl, sym, All,
  length-append, take-append_length, drop-append_length,
}
use fast_gdb.BinaryReader.{Reader}
use fast_gdb.BinaryReader.Bounds.{IsByte, IsValid}
use fast_gdb.Fields.{
  FieldType, FieldDescriptor, FieldRef, int16, int32, float32, float64, string, date_time,
  object_id, geometry, binary, raster, uuid_1, uuid_2, xml, int64, date, time,
  date_time_with_offset,
}
use fast_gdb.Rows.{
  fixed_physical_width, is_counted, read_varuint_checked, is_object_id, is_raster, null_ref, ref_of,
  set_fixed_field_ref, set_counted_field_ref, is_nullable, null_bit, field_ref, layout_fields,
  keep_better, try_layout, present_loop, try_bitmap, bitmap_bytes_loop, parse_row_refs,
}
use fast_gdb.Rows.Checked.{read_varuint_checked-read_varuint, Agrees-ok}
use mathlib.Core.List.{append_assoc}
use fast_gdb.Varint.{encode_varuint}
use fast_gdb.Varint.RoundTrip.{framed, read_varuint-encode_varuint}

module _ (fid : ℕ) where
  -- What a field that is not null takes of the row: nothing, its width, or its length and that many bytes.
  pub data Holds : FieldType → List ℕ → FieldRef → Type 0 where
    implicit : Holds object_id [] (ref_of fid object_id [])
    fixed :
        (type : FieldType) (content : List ℕ)
        → (fixed_physical_width type == 0) ≡ false
        → length content ≡ fixed_physical_width type
        → Holds type content (ref_of fid type content)
    counted :
        (type : FieldType) (content : List ℕ)
        → is_counted type ≡ true
        → is_raster type ≡ false
        → Holds type (encode_varuint (length content) ++ content) (ref_of fid type content)
    -- the content of a raster is passed over
    passed :
        (content : List ℕ)
        → Holds raster (encode_varuint (length content) ++ content) (null_ref fid raster)

  -- The fields, the null bits of those that are nullable, the bytes behind the bitmap, and what they are.
  pub data Stores : List FieldDescriptor → List Bool → List ℕ → List FieldRef → Type 0 where
    no_fields : Stores [] [] [] []
    absent :
        (f : FieldDescriptor) (fs : List FieldDescriptor) (bits : List Bool) (raw : List ℕ)
        (refs : List FieldRef)
        → is_nullable f ≡ true
        → Stores fs bits raw refs
        → Stores (f ∷ fs) (true ∷ bits) raw (null_ref fid f.type ∷ refs)
    present :
        (f : FieldDescriptor) (fs : List FieldDescriptor) (bits : List Bool) (raw raws : List ℕ)
        (ref : FieldRef) (refs : List FieldRef)
        → is_nullable f ≡ true
        → Holds f.type raw ref
        → Stores fs bits raws refs
        → Stores (f ∷ fs) (false ∷ bits) (raw ++ raws) (ref ∷ refs)
    required :
        (f : FieldDescriptor) (fs : List FieldDescriptor) (bits : List Bool) (raw raws : List ℕ)
        (ref : FieldRef) (refs : List FieldRef)
        → is_nullable f ≡ false
        → Holds f.type raw ref
        → Stores fs bits raws refs
        → Stores (f ∷ fs) bits (raw ++ raws) (ref ∷ refs)

-- The bits from position `k` of a bitmap on.
abbrev pub Marks : List ℕ → ℕ → List Bool → Type 0
Marks bitmap k [] = Unit
Marks bitmap k (b ∷ bits) =
    ((byte : ℕ) × (get_elem? bitmap (k / 8) ≡ some byte) × ((byte / 2 ^ (k % 8) % 2 == 1) ≡ b))
    × Marks bitmap (k + 1) bits

counted_plain :
    (type : FieldType)
    → is_counted type ≡ true
    → (fixed_physical_width type ≡ 0) × (is_object_id type ≡ false)
unfolding fixed_physical_width
counted_plain int16 h = cc
counted_plain int32 h = cc
counted_plain float32 h = cc
counted_plain float64 h = cc
counted_plain string h = (refl, refl)
counted_plain date_time h = cc
counted_plain object_id h = cc
counted_plain geometry h = (refl, refl)
counted_plain binary h = (refl, refl)
counted_plain raster h = (refl, refl)
counted_plain uuid_1 h = cc
counted_plain uuid_2 h = cc
counted_plain xml h = (refl, refl)
counted_plain int64 h = cc
counted_plain date h = cc
counted_plain time h = cc
counted_plain date_time_with_offset h = cc

-- Bytes of a buffer that can be allocated.
abbrev pub AreBytes : List ℕ → Type 0
AreBytes xs = All IsByte xs × (length xs < 2 ^ 63)

All-behind : (xs ys : List ℕ) → All IsByte (xs ++ ys) → All IsByte ys
All-behind [] ys h = h
All-behind (x ∷ xs) ys h = All-behind xs ys h.1

AreBytes-behind : (xs ys : List ℕ) → AreBytes (xs ++ ys) → AreBytes ys
AreBytes-behind xs ys (h, n) = (All-behind xs ys h, omega (arith, length-append xs ys))

read_varuint_checked-encode_varuint :
    (n : ℕ) (tail : List ℕ)
    → n < 2 ^ 64
    → AreBytes (encode_varuint n ++ tail)
    → read_varuint_checked (encode_varuint n ++ tail) ≡ some (n, tail)
read_varuint_checked-encode_varuint n tail h (octets, short) =
    let r : Reader = framed [] (encode_varuint n) tail in
    let v : IsValid r = record { inside = omega arith; allocated = short; octets = octets } in
    Agrees-ok n _ (read_varuint_checked-read_varuint r v)
      (read_varuint-encode_varuint [] tail n h v)
    ∙ ap (λ t. some (n, drop t (encode_varuint n ++ tail))) (omega arith)
    ∙ ap (λ t. some (n, t)) (drop-append_length (encode_varuint n) tail)

ltb-append : (xs ys : List ℕ) → ltb (length (xs ++ ys)) (length xs) ≡ false
ltb-append xs ys = ground (arith, length-append xs ys)

set_counted_field_ref-encode_varuint :
    (content tail : List ℕ)
    → AreBytes ((encode_varuint (length content) ++ content) ++ tail)
    → set_counted_field_ref ((encode_varuint (length content) ++ content) ++ tail)
      ≡ some (content, tail)
unfolding set_counted_field_ref
set_counted_field_ref-encode_varuint content tail v =
    let count : List ℕ = encode_varuint (length content) in
    let split : (count ++ content) ++ tail ≡ count ++ (content ++ tail) =
      append_assoc count content tail in
    let v' : AreBytes (count ++ (content ++ tail)) = rw split at v in
    let behind : AreBytes (content ++ tail) = AreBytes-behind count (content ++ tail) v' in
    let small : length content < 2 ^ 64 = omega (arith, behind.1, length-append content tail) in
    rw
      (
        split,
        read_varuint_checked-encode_varuint (length content) (content ++ tail) small v',
        ltb-append content tail,
        take-append_length content tail,
        drop-append_length content tail,
      )
      refl

set_fixed_field_ref-content :
    (type : FieldType) (content tail : List ℕ)
    → is_object_id type ≡ false
    → (fixed_physical_width type == 0) ≡ false
    → length content ≡ fixed_physical_width type
    → set_fixed_field_ref type (content ++ tail) ≡ some (content, tail)
unfolding set_fixed_field_ref
set_fixed_field_ref-content type content tail o w e =
    rw
      (
        o,
        w,
        sym e,
        ltb-append content tail,
        take-append_length content tail,
        drop-append_length content tail,
      )
      refl

fixed_plain :
    (type : FieldType) → (fixed_physical_width type == 0) ≡ false → is_object_id type ≡ false
unfolding fixed_physical_width
fixed_plain object_id h = cc
fixed_plain int16 h = refl
fixed_plain int32 h = refl
fixed_plain float32 h = refl
fixed_plain float64 h = refl
fixed_plain string h = refl
fixed_plain date_time h = refl
fixed_plain geometry h = refl
fixed_plain binary h = refl
fixed_plain raster h = refl
fixed_plain uuid_1 h = refl
fixed_plain uuid_2 h = refl
fixed_plain xml h = refl
fixed_plain int64 h = refl
fixed_plain date h = refl
fixed_plain time h = refl
fixed_plain date_time_with_offset h = refl

field_ref-object_id :
    (fid : ℕ) (cursor : List ℕ)
    → field_ref fid object_id cursor ≡ some (ref_of fid object_id [], cursor)
unfolding field_ref set_fixed_field_ref
field_ref-object_id fid cursor = refl

field_ref-Holds :
    (fid : ℕ) (type : FieldType) (raw tail : List ℕ) (ref : FieldRef)
    → Holds fid type raw ref
    → AreBytes (raw ++ tail)
    → field_ref fid type (raw ++ tail) ≡ some (ref, tail)
unfolding field_ref fixed_physical_width
field_ref-Holds fid _ _ tail _ implicit v = field_ref-object_id fid tail
field_ref-Holds fid _ _ tail _ (fixed type content w e) v =
    rw
      (
        fixed_plain type w,
        w,
        set_fixed_field_ref-content type content tail (fixed_plain type w) w e,
      )
      refl
field_ref-Holds fid _ _ tail _ (counted type content c n) v =
    let (w, o) = counted_plain type c in
    rw (o, w, c, set_counted_field_ref-encode_varuint content tail v, n) refl
field_ref-Holds fid _ _ tail _ (passed content) v =
    rw (set_counted_field_ref-encode_varuint content tail v) refl

null_bit-Marks :
    (n : ℕ) (bitmap : List ℕ) (bit : ℕ) (b : Bool) (bits : List Bool)
    → bit < n
    → Marks bitmap bit (b ∷ bits)
    → null_bit n bitmap bit ≡ b
null_bit-Marks n bitmap bit b bits h ((byte, e, w), _) =
    let early : leb n bit ≡ false = ground arith in rw (early, e) w

layout_fields-Stores :
    (n : ℕ) (bitmap : List ℕ) (fid bit : ℕ) (fs : List FieldDescriptor) (bits : List Bool)
    (raw : List ℕ) (refs : List FieldRef)
    → Stores fid fs bits raw refs
    → Marks bitmap bit bits
    → bit + length bits ≤ n
    → AreBytes raw
    → layout_fields n bitmap fid fs bit raw ≡ some (refs, [])
unfolding layout_fields
layout_fields-Stores n bitmap fid bit _ _ _ _ no_fields m h v = refl
layout_fields-Stores n bitmap fid bit _ _ _ _ (absent f fs bits raw refs e s) m h v =
    rw
      (
        e,
        null_bit-Marks n bitmap bit true bits (omega arith) m,
        layout_fields-Stores n bitmap fid (bit + 1) fs bits raw refs s m.1 (omega arith) v,
      )
      refl
layout_fields-Stores n bitmap fid bit _ _ _ _ (present f fs bits raw raws ref refs e c s) m h v =
    rw
      (
        e,
        null_bit-Marks n bitmap bit false bits (omega arith) m,
        field_ref-Holds fid f.type raw raws ref c v,
        layout_fields-Stores n bitmap fid (bit + 1) fs bits raws refs s m.1 (omega arith)
            (AreBytes-behind raw raws v),
      )
      refl
layout_fields-Stores n bitmap fid bit _ _ _ _ (required f fs bits raw raws ref refs e c s) m h v =
    rw
      (
        e,
        field_ref-Holds fid f.type raw raws ref c v,
        layout_fields-Stores n bitmap fid bit fs bits raws refs s m h (AreBytes-behind raw raws v),
      )
      refl

module _ (fields : List FieldDescriptor) (fid : ℕ) (bits : List Bool) (bitmap raw : List ℕ)
    (refs : List FieldRef) (s : Stores fid fields bits raw refs) (m : Marks bitmap 0 bits)
    (v : AreBytes raw) where
  try_layout-Stores :
      try_layout fields (length bits) fid (bitmap ++ raw) (length bitmap) (length bits) none
      ≡ some (0, refs)
  unfolding try_layout keep_better
  try_layout-Stores =
      let split : layout_fields (length bits) (take (length bitmap) (bitmap ++ raw)) fid fields 0
            (drop (length bitmap) (bitmap ++ raw))
          ≡ some (refs, []) =
        ap₂ (λ b c. layout_fields (length bits) b fid fields 0 c) (take-append_length bitmap raw)
          (drop-append_length bitmap raw)
        ∙ layout_fields-Stores (length bits) bitmap fid 0 fields bits raw refs s m (omega arith)
            v in
      rw (try_layout, split) refl

  first_layout :
      (k n : ℕ)
      → k ≡ length bitmap
      → n ≡ length bits
      → try_layout fields (length bits) fid (bitmap ++ raw) k n none ≡ some (0, refs)
  first_layout k n e e' =
      ap₂ (λ k n. try_layout fields (length bits) fid (bitmap ++ raw) k n none) e e'
      ∙ try_layout-Stores

  present_loop-first :
      (k n : ℕ)
      → k ≡ length bitmap
      → n ≡ length bits
      → present_loop fields (length bits) fid (bitmap ++ raw) k n none ≡ some (0, refs)
  unfolding present_loop
  present_loop-first k zero e e' = first_layout k 0 e e'
  present_loop-first k (suc n) e e' = rw (first_layout k (suc n) e e') refl

  try_bitmap-first :
      (k : ℕ)
      → k ≡ length bitmap
      → k ≡ (length bits + 7) / 8
      → try_bitmap fields (length bits) fid (bitmap ++ raw) k none ≡ some (0, refs)
  try_bitmap-first k e e' =
      let fits : leb k (length (bitmap ++ raw)) ≡ true = ground (arith, length-append bitmap raw) in
      let all : ltb (k * 8) (length bits) ≡ false = ground arith in
      rw (fits, all) (present_loop-first k (length bits) e refl)

  bitmap_bytes_loop-first :
      (k : ℕ)
      → k ≡ length bitmap
      → k ≡ (length bits + 7) / 8
      → bitmap_bytes_loop fields (length bits) fid (bitmap ++ raw) k none ≡ some (0, refs)
  unfolding bitmap_bytes_loop
  bitmap_bytes_loop-first zero e e' = try_bitmap-first 0 e e'
  bitmap_bytes_loop-first (suc k) e e' = rw (try_bitmap-first (suc k) e e') refl

  -- For a row of bytes that is not empty and that holds a bitmap of the least number of bytes for the nullable
  -- fields, whose bits say which of them are null, and behind it every other field as the format stores it, with
  -- nothing left over: `parse_row_refs` returns exactly those fields, null where the bit is set, with the bytes of
  -- each of the others but rasters, which are null.
  pub parse_row_refs-Stores :
      length bitmap ≡ (length bits + 7) / 8
      → 0 < length (bitmap ++ raw)
      → parse_row_refs fields (length bits) fid (bitmap ++ raw) ≡ some refs
  unfolding parse_row_refs
  parse_row_refs-Stores e n =
      let filled : (length (bitmap ++ raw) == 0) ≡ false = ground arith in
      rw (filled, bitmap_bytes_loop-first ((length bits + 7) / 8) (sym e) refl) refl
