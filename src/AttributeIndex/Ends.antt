-- ===== src/AttributeIndex/Ends.antt =====
-- That `query_direct` comes to an end on every file, inside it.
use fast_gdb.Base.{
  ℕ, suc, ◌+◌, ◌-◌, ◌*◌, ◌^◌, ◌≤◌, ◌<◌, ◌≡◌, ◌⊎◌, refl, ap, true, false, not, ◌||◌, List, [], ◌∷◌,
  Option, none, some, ltb, ◌==◌, arith, if◌then◌else◌, length, length-drop, drop, get_or,
  Bool-cases, inl, inr, All, All-drop,
}
use native.Mathlib.Nat.{div-mul-le_self, mul-add}
use fast_gdb.BinaryReader.Bounds.{IsByte}
use fast_gdb.Where.{Doubles}
use fast_gdb.AttributeIndex.{BPlusTreeTrailer, page_size, trailer_size, max_per_page}
use fast_gdb.AttributeIndex.Direct.{
  Answer, refused, answered, thrown, undefined, out_of_fuel, Query, descend, scan_loop, query_tree,
  query_file, query_direct, replicate, trailer_of, checked_trailer,
}
use fast_gdb.Where.Compile.{insert_unique, sort_unique}
use fast_gdb.Where.Compile.Fields.{sort_unique-IsStrictFrom}
use fast_gdb.Where.Fids.Sorted.{IsStrictFrom}
use fast_gdb.AttributeIndex.Safe.{
  Below, Ensures, Any, Ensures->>=, Ensures-refuse_if, Fits, Visits, descend-Ensures,
  scan_loop-Ensures, free-replicate,
}
use fast_gdb.AttributeIndex.Reading.{trailer_in, parse_trailer_in}

pub entries_fit :
    (value_size : ℕ)
    → 12 + max_per_page value_size * 4 + max_per_page value_size * value_size ≤ page_size
entries_fit value_size = omega (
  arith,
  div-mul-le_self (page_size - 12) (4 + value_size),
  mul-add (max_per_page value_size) 4 value_size,
)

pub trailer_of_lem :
    (file : List ℕ)
    → All IsByte file
    → length file < 2 ^ 63
    → trailer_size ≤ length file
    → let t = trailer_in (drop (length file - trailer_size) file) in
      trailer_of file ≡ (if not (t.magic1 == 1) || t.value_size == 0 then refused else answered t)
unfolding trailer_of
trailer_of_lem file octets allocated long = ap checked_trailer (
    parse_trailer_in (drop (length file - trailer_size) file)
      (All-drop IsByte (length file - trailer_size) file octets)
      (omega (arith, length-drop (length file - trailer_size) file))
      (omega (arith, length-drop (length file - trailer_size) file)))

pub trailer_of-Ensures :
    (file : List ℕ)
    → All IsByte file
    → length file < 2 ^ 63
    → trailer_size ≤ length file
    → Ensures Any (trailer_of file)
trailer_of-Ensures file octets allocated long =
    let t = trailer_in (drop (length file - trailer_size) file) in
    rw (trailer_of_lem file octets allocated long)
      (elim (Bool-cases (not (t.magic1 == 1) || t.value_size == 0)) [
        | inl e ↦ rw e tt
        | inr e ↦ rw e tt
      ])

pub replicate_first : (n : ℕ) → get_or (replicate (n + 1) false) 0 true ≡ false
replicate_first n = let e : n + 1 ≡ suc n = omega arith in rw e refl

All-insert_unique :
    (P : ℕ → Type 0) (n : ℕ) (xs : List ℕ) → P n → All P xs → All P (insert_unique n xs)
unfolding insert_unique
All-insert_unique P n [] p h = (p, tt)
All-insert_unique P n (m ∷ ms) p h = elim (Bool-cases (ltb n m)) [
  | inl e ↦ rw e (p, h)
  | inr e ↦ elim (Bool-cases (n == m)) [
    | inl e' ↦ rw (e, e') h
    | inr e' ↦ rw (e, e') (h.0, All-insert_unique P n ms p h.1)
  ]
]

All-sort_unique : (P : ℕ → Type 0) (xs : List ℕ) → All P xs → All P (sort_unique xs)
unfolding sort_unique
All-sort_unique P [] h = tt
All-sort_unique P (n ∷ ns) h = All-insert_unique P n (sort_unique ns) h.0 (All-sort_unique P ns h.1)

ended :
    {A : Type 0} (P : A → Type 0) (m : Answer A)
    → Ensures P m
    → (m ≡ refused) ⊎ ((a : A) × (m ≡ answered a) × P a)
ended P refused h = inl refl
ended P (answered a) h = inr (a, refl, h)
ended P thrown h = elim h [ ]
ended P undefined h = elim h [ ]
ended P out_of_fuel h = elim h [ ]

module _ (D : Doubles) (nan : D.Double) where
  -- Numbers in ascending order, below the bound.
  abbrev pub SortedBelow : Query D nan → List ℕ → Type 0
  SortedBelow q fids = IsStrictFrom 0 fids × All (Below D nan q) fids

  query_tree-Ensures :
      (file : List ℕ) (t : BPlusTreeTrailer) (q : Query D nan) (page_count : ℕ)
      → Fits file t page_count
      → Ensures (SortedBelow q) (query_tree D nan file t q page_count)
  unfolding query_tree
  query_tree-Ensures file t q page_count w =
      let start : Visits (replicate (page_count + 1) false) (page_count + 1) = record {
        outside = replicate_first page_count;
        enough = omega (arith, free-replicate (page_count + 1));
      } in
      Ensures-refuse_if _ _ _ (λ _. Ensures-refuse_if _ _ _ (λ _. Ensures-refuse_if _ _ _ (λ _.
        Ensures->>= (λ leaf. Visits leaf.1 (page_count + 1)) _
          (descend file t page_count (t.tree_depth - 1) 1 (replicate (page_count + 1) false)) _
          (descend-Ensures D nan file t page_count w (t.tree_depth - 1) 1 _ (page_count + 1) start)
          (λ leaf v.
            Ensures->>= (λ found. All (Below D nan q) found.0) _
              (scan_loop D nan file t q page_count (page_count + 1) leaf.0 leaf.1 0) _
              (scan_loop-Ensures D nan file t page_count w q (page_count + 1) leaf.0 leaf.1 0 v)
              (λ found below. Ensures-refuse_if _ _ _ (λ _. (
                sort_unique-IsStrictFrom found.0,
                All-sort_unique (Below D nan q) found.0 below,
              )))))))

  query_file-Ensures :
      (file : List ℕ) (q : Query D nan)
      → All IsByte file
      → Ensures (SortedBelow q) (query_file D nan file q)
  unfolding query_file
  query_file-Ensures file q octets = Ensures-refuse_if _ _ _ (λ a. Ensures-refuse_if _ _ _ (λ b.
      Ensures-refuse_if _ _ _ (λ c.
        Ensures->>= Any _ (trailer_of file) _
          (trailer_of-Ensures file octets (ground arith) (ground arith))
          (λ t _. Ensures-refuse_if _ _ _ (λ _. elim (Bool-cases (t.tree_depth == 0)) [
            | inl e ↦ rw e (Ensures-refuse_if _ _ _ (λ _. (tt, tt)))
            | inr e ↦ rw e (
                query_tree-Ensures file t q _
                  (record { pages = ground arith; entries = entries_fit t.value_size }))
          ])))))

  -- A query of any file of bytes, or of none, comes to an end without a read outside the file: it is refused, or answered
  -- with numbers in strictly ascending order, each below the bound where the bound is not 0.
  pub query_direct-SortedBelow :
      (file : Option (List ℕ)) (q : Query D nan)
      → ((bytes : List ℕ) → file ≡ some bytes → All IsByte bytes)
      → (query_direct D nan file q ≡ refused)
        ⊎ ((fids : List ℕ) × (query_direct D nan file q ≡ answered fids) × SortedBelow q fids)
  unfolding query_direct
  query_direct-SortedBelow none q octets = inl refl
  query_direct-SortedBelow (some bytes) q octets =
      ended (SortedBelow q) _ (query_file-Ensures bytes q (octets bytes refl))
