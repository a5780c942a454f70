-- ===== src/AttributeIndex/Superset.antt =====
-- The comparison of texts cut to keys that an index makes, in `query_direct` and `query_string`, against that of the whole texts.
use fast_gdb.Base.{
  ℕ, zero, suc, ◌+◌, ◌/◌, ◌%◌, ◌^◌, ◌≤◌, ◌<◌, ◌≡◌, ◌⊎◌, refl, ap, ap₂, sym, ◌∙◌, subst, true, false,
  List, [], ◌∷◌, ◌++◌, ltb, ◌==◌, arith, if◌then◌else◌, length, Bool-cases, inl, inr, All,
}
use native.Mathlib.Decide.{dec_lt}
use fast_gdb.Where.{AttrOp, eq_op, ge_op}
use fast_gdb.Where.Row.{Order, below, same, above, order_matches, compare_bytes}
use fast_gdb.AttributeIndex.{character_bytes, decode_characters}
use fast_gdb.AttributeIndex.Direct.{truncate_loop, truncate_index_string}
use fast_gdb.AttributeIndex.Keys.{
  text_of, stored, IsCharacter, truncate_step, length-text_of,
  decode_characters-truncate_index_string, character_bytes-utf8_bytes,
}
use fast_gdb.Utf16.RoundTrip.{one_byte, two_bytes, three_bytes}

-- The characters up to the first space, `n` of them at most.
abbrev pub cut : ℕ → List ℕ → List ℕ
cut zero us = []
cut (suc n) [] = []
cut (suc n) (u ∷ us) = let rest = cut n us in if u == 0x20 then [] else u ∷ rest

-- Texts in the order of their characters.
abbrev pub compare_characters : List ℕ → List ℕ → Order
compare_characters [] [] = same
compare_characters [] (v ∷ vs) = below
compare_characters (u ∷ us) [] = above
compare_characters (u ∷ us) (v ∷ vs) =
    let rest = compare_characters us vs in
    if ltb u v then below else if ltb v u then above else rest

-- The bytes of a character, by its length.
data Shape (u : ℕ) : List ℕ → Type 0 where
  one : u < 0x80 → Shape u (u ∷ [])
  two : 0x80 ≤ u → u < 0x800 → Shape u ((192 + u / 64) ∷ (128 + u % 64) ∷ [])
  three :
      0x800 ≤ u
      → u < 2 ^ 16
      → Shape u ((224 + u / 4096) ∷ (128 + u / 64 % 64) ∷ (128 + u % 64) ∷ [])

character_bytes-Shape : (u : ℕ) → IsCharacter u → Shape u (character_bytes u)
character_bytes-Shape u (p, q) = elim (dec_lt u 0x80) [
  | yes h ↦ subst (Shape u) (sym (character_bytes-utf8_bytes u ∙ one_byte u h)) (one h)
  | no h ↦ elim (dec_lt u 0x800) [
    | yes h' ↦
        subst (Shape u) (sym (character_bytes-utf8_bytes u ∙ two_bytes u (omega arith) h'))
          (two (omega arith) h')
    | no h' ↦
        subst (Shape u) (sym (character_bytes-utf8_bytes u ∙ three_bytes u (omega arith) q))
          (three (omega arith) q)
  ]
]

compare_bytes-Shape :
    (u v : ℕ) (xs ys us vs : List ℕ)
    → Shape u xs
    → Shape v ys
    → compare_bytes (xs ++ us) (ys ++ vs)
      ≡ (if ltb u v then below else if ltb v u then above else compare_bytes us vs)
unfolding compare_bytes
compare_bytes-Shape u v _ _ us vs (one p) (one q) = refl
compare_bytes-Shape u v _ _ us vs (one p) (two a b) = ground arith
compare_bytes-Shape u v _ _ us vs (one p) (three a b) = ground arith
compare_bytes-Shape u v _ _ us vs (two c d) (one q) = ground arith
compare_bytes-Shape u v _ _ us vs (two c d) (two a b) = ground arith
compare_bytes-Shape u v _ _ us vs (two c d) (three a b) = ground arith
compare_bytes-Shape u v _ _ us vs (three c d) (one q) = ground arith
compare_bytes-Shape u v _ _ us vs (three c d) (two a b) = ground arith
compare_bytes-Shape u v _ _ us vs (three c d) (three a b) = ground arith

Shape_some : (u : ℕ) (xs us : List ℕ) → Shape u xs → (x : ℕ) × (ys : List ℕ) × (xs ++ us ≡ x ∷ ys)
Shape_some u _ us (one p) = (_, _, refl)
Shape_some u _ us (two a b) = (_, _, refl)
Shape_some u _ us (three a b) = (_, _, refl)

empty_below :
    (v : ℕ) (vs : List ℕ) → IsCharacter v → compare_bytes [] (character_bytes v ++ vs) ≡ below
unfolding compare_bytes
empty_below v vs h = let (x, ys, e) = Shape_some v _ vs (character_bytes-Shape v h) in rw e refl

empty_above :
    (u : ℕ) (us : List ℕ) → IsCharacter u → compare_bytes (character_bytes u ++ us) [] ≡ above
unfolding compare_bytes
empty_above u us h = let (x, ys, e) = Shape_some u _ us (character_bytes-Shape u h) in rw e refl

cut_text :
    (u : ℕ) (us : List ℕ)
    → (if u == 0x20 then [] else character_bytes u ++ text_of us)
      ≡ text_of (if u == 0x20 then [] else u ∷ us)
cut_text u us = elim (Bool-cases (u == 0x20)) [ inl e ↦ rw e refl | inr e ↦ rw e refl ]

compare_bytes-text_of :
    (us vs : List ℕ)
    → All IsCharacter us
    → All IsCharacter vs
    → compare_bytes (text_of us) (text_of vs) ≡ compare_characters us vs
unfolding compare_bytes
compare_bytes-text_of [] [] h k = refl
compare_bytes-text_of [] (v ∷ vs) h k = empty_below v (text_of vs) k.0
compare_bytes-text_of (u ∷ us) [] h k = empty_above u (text_of us) h.0
compare_bytes-text_of (u ∷ us) (v ∷ vs) (h, hs) (k, ks) =
    compare_bytes-Shape u v _ _ (text_of us) (text_of vs) (character_bytes-Shape u h)
      (character_bytes-Shape v k)
    ∙ ap (λ rest. if ltb u v then below else if ltb v u then above else rest)
        (compare_bytes-text_of us vs hs ks)

All-cut : (n : ℕ) (us : List ℕ) → All IsCharacter us → All IsCharacter (cut n us)
All-cut zero us h = tt
All-cut (suc n) [] h = tt
All-cut (suc n) (u ∷ us) h = elim (Bool-cases (u == 0x20)) [
  | inl e ↦ rw e tt
  | inr e ↦ rw e (h.0, All-cut n us h.1)
]

text_of-cut :
    (n : ℕ) (us : List ℕ) (fuel : ℕ)
    → All IsCharacter us
    → length (text_of us) ≤ fuel
    → truncate_loop fuel n (text_of us) ≡ text_of (cut n us)
unfolding truncate_loop
text_of-cut zero us zero h f = refl
text_of-cut zero us (suc fuel) h f = refl
text_of-cut (suc n) [] zero h f = refl
text_of-cut (suc n) [] (suc fuel) h f = refl
text_of-cut (suc n) (u ∷ us) zero h f = absurd (omega (arith, f, length-text_of u us h.0))
text_of-cut (suc n) (u ∷ us) (suc fuel) (h, hs) f =
    truncate_step u (text_of us) h fuel n
    ∙ ap (λ rest. if u == 0x20 then [] else character_bytes u ++ rest)
        (text_of-cut n us fuel hs (omega (arith, f, length-text_of u us h)))
    ∙ cut_text u (cut n us)

-- No control characters.
abbrev pub IsPlain : ℕ → Type 0
IsPlain u = (0x20 ≤ u) × (u < 2 ^ 16)

ge-cut :
    (n : ℕ) (us vs : List ℕ)
    → All IsPlain us
    → All IsPlain vs
    → order_matches (compare_characters us vs) ge_op ≡ true
    → order_matches (compare_characters (cut n us) (cut n vs)) ge_op ≡ true
ge-cut zero us vs h k e = refl
ge-cut (suc n) [] [] h k e = refl
ge-cut (suc n) [] (v ∷ vs) h k e = cc
ge-cut (suc n) (u ∷ us) [] h k e = ground arith
ge-cut (suc n) (u ∷ us) (v ∷ vs) (h, hs) (k, ks) e = elim (Bool-cases (ltb u v)) [
  | inl l ↦ absurd (let no : false ≡ true = rw l at e in cc)
  | inr l ↦ elim (Bool-cases (ltb v u)) [
    | inl g ↦ ground arith
    | inr g ↦
        let rest = ge-cut n us vs hs ks (rw (l, g) at e) in
        let equal : u ≡ v = ground arith in ground (arith, rest)
  ]
]

eq-cut :
    (n : ℕ) (us vs : List ℕ)
    → order_matches (compare_characters us vs) eq_op ≡ true
    → order_matches (compare_characters (cut n us) (cut n vs)) eq_op ≡ true
eq-cut zero us vs e = refl
eq-cut (suc n) [] [] e = refl
eq-cut (suc n) [] (v ∷ vs) e = cc
eq-cut (suc n) (u ∷ us) [] e = cc
eq-cut (suc n) (u ∷ us) (v ∷ vs) e = elim (Bool-cases (ltb u v)) [
  | inl l ↦ absurd (let no : false ≡ true = rw l at e in cc)
  | inr l ↦ elim (Bool-cases (ltb v u)) [
    | inl g ↦ absurd (let no : false ≡ true = rw (l, g) at e in cc)
    | inr g ↦
        let rest = eq-cut n us vs (rw (l, g) at e) in
        let equal : u ≡ v = ground arith in ground (arith, rest)
  ]
]

All-IsCharacter : (us : List ℕ) → All IsPlain us → All IsCharacter us
All-IsCharacter [] h = tt
All-IsCharacter (u ∷ us) ((p, q), hs) = ((omega arith, q), All-IsCharacter us hs)

stored_text :
    (n : ℕ) (us : List ℕ) → All IsPlain us → decode_characters n (stored n us) ≡ text_of (cut n us)
stored_text n us h =
    let chars = All-IsCharacter us h in
    let (_, e) = decode_characters-truncate_index_string us n chars in
    e ∙ text_of-cut n us (length (text_of us)) chars (omega arith)

index_order :
    (n : ℕ) (us vs : List ℕ)
    → All IsPlain us
    → All IsPlain vs
    → compare_bytes (decode_characters n (stored n us)) (truncate_index_string (text_of vs) n)
      ≡ compare_characters (cut n us) (cut n vs)
index_order n us vs h k =
    let hs = All-IsCharacter us h in
    let ks = All-IsCharacter vs k in
    ap₂ compare_bytes (stored_text n us h) (text_of-cut n vs (length (text_of vs)) ks (omega arith))
    ∙ compare_bytes-text_of (cut n us) (cut n vs) (All-cut n us hs) (All-cut n vs ks)

-- For = and >=, the operators for which the query engine asks an index about a text, and texts of characters from U+0020
-- to U+FFFF: where the text of a row satisfies the comparison with the text of the query, the entry that stores the row's
-- text in `n` characters satisfies the comparison that the index makes, so that the row is a candidate.
pub order_matches-index :
    (n : ℕ) (us vs : List ℕ) (op : AttrOp)
    → (op ≡ eq_op) ⊎ (op ≡ ge_op)
    → All IsPlain us
    → All IsPlain vs
    → order_matches (compare_bytes (text_of us) (text_of vs)) op ≡ true
    → order_matches
        (compare_bytes (decode_characters n (stored n us)) (truncate_index_string (text_of vs) n))
        op
      ≡ true
order_matches-index n us vs op o h k e =
    let whole : order_matches (compare_characters us vs) op ≡ true =
      rw⁻¹ (compare_bytes-text_of us vs (All-IsCharacter us h) (All-IsCharacter vs k)) e in
    rw (index_order n us vs h k) (elim o [
      | inl i ↦ rw i (eq-cut n us vs (rw i at whole))
      | inr i ↦ rw i (ge-cut n us vs h k (rw i at whole))
    ])
