-- ===== src/AttributeIndex/Agree.antt =====
-- That the direct query gives what a query over the parsed entries gives.
use fast_gdb.Base.{
  ℕ, zero, suc, ◌+◌, ◌-◌, ◌*◌, ◌^◌, ◌≤◌, ◌<◌, ◌≡◌, refl, ap, ap₂, sym, ◌∙◌, subst, Bool, true,
  false, not, ◌||◌, List, [], ◌∷◌, ◌++◌, some, ltb, ◌==◌, arith, if◌then◌else◌, length,
  length-append, set, Bool-cases, inl, inr, All,
}
use mathlib.Core.List.{append-nil}
use fast_gdb.BinaryReader.Bounds.{IsByte}
use fast_gdb.Where.{Doubles}
use fast_gdb.Where.Row.{order_matches}
use fast_gdb.AttributeIndex.{BPlusTreeTrailer, AttributeIndexEntry, page_size, max_per_page}
use fast_gdb.AttributeIndex.Direct.{
  Answer, answered, refuse_if, ◌>>=◌, ◌>>◌, read_u32, page_offset_for, Query, leaf_loop, scan_loop,
}
use fast_gdb.AttributeIndex.Parse.{matching, some_fid_zero, page_offset_in, leaf_chain}
use fast_gdb.AttributeIndex.Safe.{
  Ensures, Ensures->>=, Ensures-refuse_if, Ensures-some, Fits, page_offset_for_lem, free, free-set,
  free_some, get_or-set, Visits, Visits-set,
}
use fast_gdb.AttributeIndex.Reading.{u32_in}
use fast_gdb.AttributeIndex.Leaf.{
  read_u32-Is, compare_entry, leaf_entries, length-leaf_entries, Matches, leaf_loop-Matches,
  read_u32-page, parse_leaf_page-leaf_entries,
}

module _ (D : Doubles) (nan : D.Double) where
  open D use {Double}

  matching-append :
      (t : BPlusTreeTrailer) (q : Query D nan) (xs ys : List (AttributeIndexEntry Double))
      → matching D nan (compare_entry D nan t q) q.op (xs ++ ys)
        ≡ matching D nan (compare_entry D nan t q) q.op xs
          ++ matching D nan (compare_entry D nan t q) q.op ys
  matching-append t q [] ys = refl
  matching-append t q (x ∷ xs) ys =
      elim (Bool-cases (order_matches (compare_entry D nan t q x) q.op)) [
        | inl e ↦ rw e (ap (λ fids. (x.fid - 1) ∷ fids) (matching-append t q xs ys))
        | inr e ↦ rw e (matching-append t q xs ys)
      ]

  some_fid_zero-append :
      (xs ys : List (AttributeIndexEntry Double))
      → some_fid_zero D nan xs ≡ false
      → some_fid_zero D nan ys ≡ false
      → some_fid_zero D nan (xs ++ ys) ≡ false
  some_fid_zero-append [] ys a b = b
  some_fid_zero-append (x ∷ xs) ys a b = elim (Bool-cases (x.fid == 0)) [
    | inl e ↦ absurd (let f : true ≡ false = rw e at a in cc)
    | inr e ↦ rw e (some_fid_zero-append xs ys (rw e at a) b)
  ]

  Matches-append :
      (t : BPlusTreeTrailer) (q : Query D nan) (xs ys : List (AttributeIndexEntry Double))
      (cs ds : List ℕ)
      → Matches D nan t q xs cs
      → Matches D nan t q ys ds
      → Matches D nan t q (xs ++ ys) (cs ++ ds)
  Matches-append t q xs ys cs ds a b = record {
    chosen = ap₂ (λ x y. x ++ y) a.chosen b.chosen ∙ sym (matching-append t q xs ys);
    numbered = some_fid_zero-append xs ys a.numbered b.numbered;
  }

  module _ (file : List ℕ) (octets : All IsByte file) (small : length file < 2 ^ 63)
      (t : BPlusTreeTrailer) (page_count : ℕ) (w : Fits file t page_count)
      (c : (max_per_page t.value_size == 0) ≡ false) (q : Query D nan)
      (k : t.is_string ≡ q.is_text) where
    pub page_offset_in_lem :
        (page_id page : ℕ)
        → page_offset_for page_id page_count ≡ some page
        → page_offset_in page_id (length file) ≡ some page
    unfolding page_offset_in
    page_offset_in_lem page_id page e =
        let (p, n, o, inside) = page_offset_for_lem page_id page_count page e in
        let positive : (page_id == 0) ≡ false = ground arith in
        let fits : ltb (2 ^ 64 - 1) ((page_id - 1) * page_size) ≡ false = ground (arith, w.pages) in
        let whole : (ltb (length file) ((page_id - 1) * page_size)
              || ltb (length file - (page_id - 1) * page_size) page_size)
            ≡ false =
          ground (arith, w.pages) in
        rw (positive, fits, whole, o) refl

    -- What the leaf chain from a page on gives: the candidates and the count of the entries that `parse` keeps of it.
    pub record Chain (tree : Answer (List (AttributeIndexEntry Double))) (seen : ℕ)
        (found : List ℕ × ℕ) : Type 0 where
      pub entries : List (AttributeIndexEntry Double)
      pub parsed : tree ≡ answered entries
      pub matches : Matches D nan t q entries found.0
      pub counted : found.1 ≡ seen + length entries

    scan_loop-end :
        (fuel : ℕ) (visited : List Bool) (seen : ℕ)
        → scan_loop D nan file t q page_count fuel 0 visited seen ≡ answered ([], seen)
    unfolding scan_loop
    scan_loop-end zero visited seen = refl
    scan_loop-end (suc fuel) visited seen = refl

    -- Where no other page is left, the scan is refused.
    pub scan_loop_stuck :
        (fuel page_id : ℕ) (visited : List Bool) (seen : ℕ)
        → (page_id == 0) ≡ false
        → Visits visited fuel
        → free visited ≤ 1
        → Ensures (λ _. ⊥) (scan_loop D nan file t q page_count fuel page_id visited seen)
    unfolding scan_loop
    scan_loop_stuck zero page_id visited seen z v f =
        absurd (omega (arith, free_some visited 0 v.outside, v.enough))
    scan_loop_stuck (suc fuel) page_id visited seen z v f = rw z (
        Ensures-some (λ _. ⊥) (page_offset_for page_id page_count) _
          (λ page e. Ensures-refuse_if _ _ _ (λ g. absurd (
            omega (
              arith,
              free-set visited page_id g,
              f,
              free_some (set visited page_id true) 0
                  (get_or-set visited page_id (ground arith) ∙ v.outside),
            )))))

    -- One leaf, and the chain behind it.
    leaf_chain_page :
        (remaining page_id page : ℕ)
        → page_offset_for page_id page_count ≡ some page
        → u32_in file (page + 4) ≤ max_per_page t.value_size
        → leaf_chain D nan file t remaining page_id
          ≡ elim remaining as (λ _. Answer (List (AttributeIndexEntry Double))) [
            | zero ↦
                refuse_if (not (u32_in file page == 0))
                >> answered (leaf_entries D nan file t page (u32_in file (page + 4)) 0)
            | suc r ↦
                (if u32_in file page == 0
                  then answered []
                  else leaf_chain D nan file t r (u32_in file page))
                >>= λ more.
                    answered (leaf_entries D nan file t page (u32_in file (page + 4)) 0 ++ more)
          ]
    unfolding leaf_chain
    leaf_chain_page zero page_id page e few =
        let (p, n, o, inside) = page_offset_for_lem page_id page_count page e in
        let whole : page + page_size ≤ length file = omega (arith, w.pages) in
        rw
          (
            leaf_chain,
            page_offset_in_lem page_id page e,
            read_u32-page D nan file t page_count w q k octets page whole,
            parse_leaf_page-leaf_entries D nan file t page_count w q k octets page whole c few,
          )
          refl
    leaf_chain_page (suc r) page_id page e few =
        let (p, n, o, inside) = page_offset_for_lem page_id page_count page e in
        let whole : page + page_size ≤ length file = omega (arith, w.pages) in
        rw
          (
            leaf_chain,
            page_offset_in_lem page_id page e,
            read_u32-page D nan file t page_count w q k octets page whole,
            parse_leaf_page-leaf_entries D nan file t page_count w q k octets page whole c few,
          )
          refl

    module _ (page_id page next count : ℕ) (e : page_offset_for page_id page_count ≡ some page)
        (n : next ≡ u32_in file page) (m : count ≡ u32_in file (page + 4))
        (few : count ≤ max_per_page t.value_size) (visited : List Bool) (fuel seen : ℕ)
        (v : Visits visited fuel) (here : List ℕ)
        (mine : Matches D nan t q (leaf_entries D nan file t page count 0) here) where
      abbrev mine_entries : List (AttributeIndexEntry Double)
      mine_entries = leaf_entries D nan file t page count 0

      last_page :
          (remaining : ℕ)
          → (next == 0) ≡ true
          → Chain (leaf_chain D nan file t remaining page_id) seen (here ++ [], seen + count)
      unfolding refuse_if
      last_page zero z = record {
        entries = mine_entries;
        parsed = leaf_chain_page zero page_id page e (rw⁻¹ m few) ∙ rw⁻¹ (n, m) (rw z refl);
        matches = subst (λ cs. Matches D nan t q mine_entries cs) (sym (append-nil here)) mine;
        counted = ap (λ k. seen + k) (sym (length-leaf_entries D nan file t page count 0));
      }
      last_page (suc r) z = record {
        entries = mine_entries ++ [];
        parsed = leaf_chain_page (suc r) page_id page e (rw⁻¹ m few) ∙ rw⁻¹ (n, m) (rw z refl);
        matches =
            Matches-append t q mine_entries [] here [] mine
              (record { chosen = refl; numbered = refl });
        counted =
            omega
              (arith, length-append mine_entries [], length-leaf_entries D nan file t page count 0);
      }

      further :
          (remaining : ℕ)
          → (next == 0) ≡ false
          → free visited ≤ remaining + 1
          → ((r : ℕ)
              → remaining ≡ suc r
              → (next == 0) ≡ false
              → Ensures
                  (Chain (leaf_chain D nan file t r next) (seen + count))
                  (scan_loop D nan file t q page_count fuel next visited (seen + count)))
          → Ensures (Chain (leaf_chain D nan file t remaining page_id) seen) (
              scan_loop D nan file t q page_count fuel next visited (seen + count) >>= λ more.
              answered (here ++ more.0, more.1))
      further zero z f rec =
          Ensures->>= (λ _. ⊥) _
            (scan_loop D nan file t q page_count fuel next visited (seen + count)) _
            (scan_loop_stuck fuel next visited (seen + count) z v (omega arith))
            (λ more no. absurd no)
      further (suc r) z f rec =
          Ensures->>= (Chain (leaf_chain D nan file t r next) (seen + count)) _
            (scan_loop D nan file t q page_count fuel next visited (seen + count)) _ (rec r refl z)
            (λ more chain. record {
              entries = mine_entries ++ chain.entries;
              parsed =
                  leaf_chain_page (suc r) page_id page e (rw⁻¹ m few)
                  ∙ rw⁻¹ (n, m) (rw (z, chain.parsed) refl);
              matches =
                  Matches-append t q mine_entries chain.entries here more.0 mine chain.matches;
              counted = omega (
                arith,
                chain.counted,
                length-append mine_entries chain.entries,
                length-leaf_entries D nan file t page count 0,
              );
            })

      behind :
          (remaining : ℕ)
          → free visited ≤ remaining + 1
          → ((r : ℕ)
              → remaining ≡ suc r
              → (next == 0) ≡ false
              → Ensures
                  (Chain (leaf_chain D nan file t r next) (seen + count))
                  (scan_loop D nan file t q page_count fuel next visited (seen + count)))
          → Ensures (Chain (leaf_chain D nan file t remaining page_id) seen) (
              scan_loop D nan file t q page_count fuel next visited (seen + count) >>= λ more.
              answered (here ++ more.0, more.1))
      behind remaining f rec = elim (Bool-cases (next == 0)) [
        | inl z ↦
            let ended : next ≡ 0 = ground arith in
            let stop : scan_loop D nan file t q page_count fuel next visited (seen + count)
                ≡ answered ([], seen + count) =
              ap (λ p. scan_loop D nan file t q page_count fuel p visited (seen + count)) ended
              ∙ scan_loop-end fuel visited (seen + count) in
            rw stop (last_page remaining z)
        | inr z ↦ further remaining z f rec
      ]

    pub scan_loop-Chain :
        (fuel remaining page_id : ℕ) (visited : List Bool) (seen : ℕ)
        → (page_id == 0) ≡ false
        → Visits visited fuel
        → free visited ≤ remaining + 2
        → Ensures
            (Chain (leaf_chain D nan file t remaining page_id) seen)
            (scan_loop D nan file t q page_count fuel page_id visited seen)
    unfolding scan_loop
    scan_loop-Chain zero remaining page_id visited seen z v f =
        absurd (omega (arith, free_some visited 0 v.outside, v.enough))
    scan_loop-Chain (suc fuel) remaining page_id visited seen z v f = rw z (
        Ensures-some _ (page_offset_for page_id page_count) _ (λ page e.
          let (p, k', o, inside) = page_offset_for_lem page_id page_count page e in
          Ensures-refuse_if _ _ _ (λ g.
            Ensures->>= _ _ (read_u32 file page) _ (read_u32-Is file page (omega (arith, w.pages)))
              (λ next n.
                Ensures->>= _ _ (read_u32 file (page + 4)) _
                  (read_u32-Is file (page + 4) (omega (arith, w.pages)))
                  (λ count m. Ensures-refuse_if _ _ _ (λ few. Ensures-refuse_if _ _ _ (λ _.
                    Ensures->>= _ _ (leaf_loop D nan file t q page count 0) _
                      (leaf_loop-Matches D nan file t page_count w q k page count 0
                        (omega (arith, w.pages)) (ground arith))
                      (λ here mine.
                        behind page_id page next count e n m (ground arith)
                          (set visited page_id true) fuel seen
                          (Visits-set visited fuel page_id p g v) here mine remaining
                          (omega (arith, free-set visited page_id g))
                          (λ r j z'.
                            scan_loop-Chain fuel r next (set visited page_id true) (seen + count) z'
                              (Visits-set visited fuel page_id p g v)
                              (omega (arith, free-set visited page_id g, j)))))))))))
