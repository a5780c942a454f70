-- ===== src/AttributeIndex/Down.antt =====
-- The way from the root to the first leaf, in both readings of the tree.
use fast_gdb.Base.{
  ℕ, zero, suc, ◌+◌, ◌-◌, ◌^◌, ◌≤◌, ◌<◌, ◌≡◌, refl, ap, sym, ◌∙◌, Bool, true, false, List, some,
  ◌==◌, arith, length, get_or, set, All,
}
use fast_gdb.BinaryReader.Bounds.{IsByte}
use fast_gdb.Where.{Doubles}
use fast_gdb.AttributeIndex.{BPlusTreeTrailer, max_per_page}
use fast_gdb.AttributeIndex.Direct.{read_u32, page_offset_for, Query, descend}
use fast_gdb.AttributeIndex.Parse.{traverse_tree}
use fast_gdb.AttributeIndex.Safe.{
  Ensures, Ensures->>=, Ensures-refuse_if, Ensures-some, Fits, page_offset_for_lem, free, free-set,
  free_some, get_or-set, Visits, Visits-set, Visits-suc, Ensures-map,
}
use fast_gdb.AttributeIndex.Reading.{u32_in}
use fast_gdb.AttributeIndex.Leaf.{read_u32-Is, parse_nonleaf_page-children}
use fast_gdb.AttributeIndex.Agree.{page_offset_in_lem}

module _ (D : Doubles) (nan : D.Double) where
  open D use {Double}

  module _ (file : List ℕ) (octets : All IsByte file) (small : length file < 2 ^ 63)
      (t : BPlusTreeTrailer) (page_count : ℕ) (w : Fits file t page_count)
      (c : (max_per_page t.value_size == 0) ≡ false) (q : Query D nan)
      (k : t.is_string ≡ q.is_text) where
    -- The way down, as `traverse_tree` takes it: `budget` pages may be visited, and the page reached is not 0.
    pub record Reached (levels page_id budget fuel : ℕ) (leaf : ℕ × List Bool) : Type 0 where
      pub left : ℕ
      pub same :
          traverse_tree D nan file t budget page_id (suc levels)
          ≡ traverse_tree D nan file t left leaf.0 1
      pub outer : (leaf.0 == 0) ≡ false
      pub visits : Visits leaf.1 fuel
      pub allowed : free leaf.1 ≤ left + 1

    traverse_tree_down :
        (budget levels page_id page : ℕ)
        → page_offset_for page_id page_count ≡ some page
        → u32_in file (page + 4) ≤ max_per_page t.value_size
        → 0 < u32_in file (page + 4)
        → traverse_tree D nan file t (suc budget) page_id (suc (suc levels))
          ≡ traverse_tree D nan file t budget (u32_in file (page + 8)) (suc levels)
    unfolding traverse_tree
    traverse_tree_down budget levels page_id page e few some_children =
        let (p, n, o, inside) = page_offset_for_lem page_id page_count page e in
        let (rest, children) =
          parse_nonleaf_page-children D nan file t page_count w q k octets page
            (omega (arith, w.pages)) c few some_children in
        let not_0 : (suc (suc levels) == 0) ≡ false = ground arith in
        let not_1 : (suc (suc levels) == 1) ≡ false = ground arith in
        let above : suc (suc levels) - 1 ≡ suc levels = omega arith in
        rw
          (
            traverse_tree,
            page_offset_in_lem D nan file octets small t page_count w c q k page_id page e,
            not_0,
            not_1,
            children,
            above,
          )
          refl

    two_free :
        (page_id : ℕ) (visited : List Bool)
        → 0 < page_id
        → get_or visited page_id true ≡ false
        → get_or visited 0 true ≡ false
        → 2 ≤ free visited
    two_free page_id visited p g o = omega (
      arith,
      free-set visited page_id g,
      free_some (set visited page_id true) 0 (get_or-set visited page_id p ∙ o),
    )

    pub descend-Reached :
        (levels page_id budget fuel : ℕ) (visited : List Bool)
        → (page_id == 0) ≡ false
        → Visits visited fuel
        → free visited ≤ budget + 1
        → Ensures
            (Reached levels page_id budget fuel)
            (descend file t page_count levels page_id visited)
    unfolding descend
    descend-Reached zero page_id budget fuel visited z v f = record {
      left = budget;
      same = refl;
      outer = z;
      visits = v;
      allowed = f;
    }
    descend-Reached (suc levels) page_id budget fuel visited z v f =
        Ensures-some _ (page_offset_for page_id page_count) _ (λ page e.
          let (p, k', o, inside) = page_offset_for_lem page_id page_count page e in
          Ensures-refuse_if _ _ _ (λ g.
            Ensures->>= _ _ (read_u32 file (page + 4)) _
              (read_u32-Is file (page + 4) (omega (arith, w.pages)))
              (λ count m. Ensures-refuse_if _ _ _ (λ some_few.
                Ensures->>= _ _ (read_u32 file (page + 8)) _
                  (read_u32-Is file (page + 8) (omega (arith, w.pages)))
                  (λ child n. Ensures-refuse_if _ _ _ (λ y.
                    let all_free = two_free page_id visited p g v.outside in
                    let budget_left : budget ≡ suc (budget - 1) = omega (arith, all_free, f) in
                    let down : traverse_tree D nan file t budget page_id (suc (suc levels))
                        ≡ traverse_tree D nan file t (budget - 1) child (suc levels) =
                      ap (λ b. traverse_tree D nan file t b page_id (suc (suc levels))) budget_left
                      ∙ traverse_tree_down (budget - 1) levels page_id page e (ground (arith, m))
                          (ground (arith, m))
                      ∙ ap (λ i. traverse_tree D nan file t (budget - 1) i (suc levels)) (sym n) in
                    Ensures-map (Reached levels child (budget - 1) fuel) _
                      (descend file t page_count levels child (set visited page_id true))
                      (descend-Reached levels child (budget - 1) fuel (set visited page_id true) y
                        (Visits-set visited fuel page_id p g (Visits-suc visited fuel v))
                        (omega (arith, free-set visited page_id g, f)))
                      (λ leaf r. record {
                        left = r.left;
                        same = down ∙ r.same;
                        outer = r.outer;
                        visits = r.visits;
                        allowed = r.allowed;
                      })))))))
