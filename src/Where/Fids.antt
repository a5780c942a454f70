-- ===== src/Where/Fids.antt =====
-- `intersect_sorted_fids`. The inner loops skip the numbers that are equal to the one before.
pub mod Sorted
use fast_gdb.Base.{
  ℕ, zero, suc, ◌+◌, List, [], ◌∷◌, ◌++◌, Option, none, some, ltb, ◌==◌, if◌then◌else◌, length,
}

-- `do ++index; while (index < size && xs[index] == value);`, on the rest behind the first number.
unfoldable pub skip_equal : ℕ → List ℕ → List ℕ
skip_equal value [] = []
skip_equal value (x ∷ xs) = let rest = skip_equal value xs in if x == value then rest else x ∷ xs

unfoldable pub intersect_loop : ℕ → List ℕ → List ℕ → List ℕ → Option (List ℕ)
unfolding skip_equal
intersect_loop zero result left right = none
intersect_loop (suc fuel) result [] right = some result
intersect_loop (suc fuel) result (l ∷ ls) [] = some result
intersect_loop (suc fuel) result (l ∷ ls) (r ∷ rs) =
    let drop_left = intersect_loop fuel result (skip_equal l ls) (r ∷ rs) in
    let drop_right = intersect_loop fuel result (l ∷ ls) (skip_equal r rs) in
    let drop_both = intersect_loop fuel (result ++ (l ∷ [])) (skip_equal l ls) (skip_equal r rs) in
    if ltb l r then drop_left else if ltb r l then drop_right else drop_both

-- Each round shortens a list; `none` is the model's end of fuel.
unfoldable pub intersect_sorted_fids : List ℕ → List ℕ → Option (List ℕ)
unfolding intersect_loop
intersect_sorted_fids left right = intersect_loop (length left + length right + 1) [] left right
