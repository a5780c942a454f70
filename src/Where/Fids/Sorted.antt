-- ===== src/Where/Fids/Sorted.antt =====
-- The intersection of two ascending lists: it is found, strictly ascending, and holds what both hold.
use fast_gdb.Base.{
  ℕ, zero, suc, ◌+◌, ◌≤◌, ◌<◌, ◌≡◌, refl, sym, ap, ◌∙◌, Bool, false, ◌||◌, ◌&&◌, List, [], ◌∷◌,
  ◌++◌, some, arith, ltb, ◌==◌, length, ltb→lt, Bool-cases, ==_iff, subst, inl, inr,
}
use mathlib.Core.List.{append-nil, append_assoc}
use fast_gdb.Where.Fids.{skip_equal, intersect_loop, intersect_sorted_fids}

-- Ascending, with equal neighbours allowed, and strictly ascending; behind a first bound.
abbrev pub IsAscendingFrom : ℕ → List ℕ → Type 0
IsAscendingFrom low [] = Unit {0}
IsAscendingFrom low (x ∷ xs) = (low ≤ x) × IsAscendingFrom x xs

abbrev pub IsStrictFrom : ℕ → List ℕ → Type 0
IsStrictFrom low [] = Unit {0}
IsStrictFrom low (x ∷ xs) = (low ≤ x) × IsStrictFrom (x + 1) xs

abbrev pub holds : ℕ → List ℕ → Bool
holds n [] = false
holds n (x ∷ xs) = x == n || holds n xs

length-skip_equal : (value : ℕ) (xs : List ℕ) → length (skip_equal value xs) ≤ length xs
unfolding skip_equal
length-skip_equal value [] = omega arith
length-skip_equal value (x ∷ xs) = ground (arith, length-skip_equal value xs)

-- What is left stands above the number that was skipped.
skip_equal-IsAscendingFrom :
    (value : ℕ) (xs : List ℕ)
    → IsAscendingFrom value xs
    → IsAscendingFrom (value + 1) (skip_equal value xs)
unfolding skip_equal
skip_equal-IsAscendingFrom value [] h = tt
skip_equal-IsAscendingFrom value (x ∷ xs) (h, t) = elim (Bool-cases (x == value)) [
  | inl e ↦
      let same : x ≡ value = (==_iff x value).0 e in
      rw e (skip_equal-IsAscendingFrom value xs (subst (λ v. IsAscendingFrom v xs) same t))
  | inr e ↦ rw e (ground arith, t)
]

holds-skip_equal :
    (value n : ℕ) (xs : List ℕ) → holds n (value ∷ skip_equal value xs) ≡ holds n (value ∷ xs)
unfolding skip_equal
holds-skip_equal value n [] = refl
holds-skip_equal value n (x ∷ xs) = ground (arith, holds-skip_equal value n xs)

holds_below : (low n : ℕ) (xs : List ℕ) → n < low → IsAscendingFrom low xs → holds n xs ≡ false
holds_below low n [] h s = refl
holds_below low n (x ∷ xs) h (le, s) = ground (arith, holds_below x n xs)

pub IsStrictFrom-le :
    (low high : ℕ) (xs : List ℕ) → low ≤ high → IsStrictFrom high xs → IsStrictFrom low xs
IsStrictFrom-le low high [] h s = tt
IsStrictFrom-le low high (x ∷ xs) h (le, s) = (omega arith, s)

-- What the loop adds to `result`, where both lists stand at `low` or above.
abbrev Intersects : ℕ → List ℕ → List ℕ → List ℕ → Type 0
Intersects low left right out =
    IsStrictFrom low out × ((n : ℕ) → holds n out ≡ (holds n left && holds n right))

abbrev Found : ℕ → ℕ → List ℕ → List ℕ → List ℕ → Type 0
Found fuel low result left right =
    (out : List ℕ) × (intersect_loop fuel result left right ≡ some (result ++ out))
    × Intersects low left right out

-- The three cases of a round, from what the next round finds.
module _ (low l r : ℕ) (ls rs out : List ℕ) (first : low ≤ l) (second : low ≤ r) where
  both_Intersects :
      l ≡ r
      → Intersects (l + 1) (skip_equal l ls) (skip_equal r rs) out
      → Intersects low (l ∷ ls) (r ∷ rs) (l ∷ out)
  both_Intersects e (strict, mem) = (
    (first, strict),
    λ n. rw (sym (holds-skip_equal l n ls), sym (holds-skip_equal r n rs)) (ground (arith, mem n)),
  )

  left_Intersects :
      l < r
      → IsAscendingFrom r rs
      → Intersects (l + 1) (skip_equal l ls) (r ∷ rs) out
      → Intersects low (l ∷ ls) (r ∷ rs) out
  left_Intersects h s (strict, mem) = (
    IsStrictFrom-le low (l + 1) out (omega arith) strict,
    λ n. rw (sym (holds-skip_equal l n ls)) (ground (arith, mem n, holds_below r n rs)),
  )

  right_Intersects :
      r < l
      → IsAscendingFrom l ls
      → Intersects (r + 1) (l ∷ ls) (skip_equal r rs) out
      → Intersects low (l ∷ ls) (r ∷ rs) out
  right_Intersects h s (strict, mem) = (
    IsStrictFrom-le low (r + 1) out (omega arith) strict,
    λ n. rw (sym (holds-skip_equal r n rs)) (ground (arith, mem n, holds_below l n ls)),
  )

nothing :
    (low fuel : ℕ) (result left right : List ℕ)
    → intersect_loop fuel result left right ≡ some result
    → ((n : ℕ) → (holds n left && holds n right) ≡ false)
    → Found fuel low result left right
nothing low fuel result left right e none_held =
    ([], rw (append-nil result) e, (tt, λ n. sym (none_held n)))

loop-Found :
    (fuel low : ℕ) (result left right : List ℕ)
    → length left + length right < fuel
    → IsAscendingFrom low left
    → IsAscendingFrom low right
    → Found fuel low result left right
unfolding intersect_loop
loop-Found zero low result left right h sl sr = absurd (omega arith)
loop-Found (suc fuel) low result [] right h sl sr =
    nothing low (suc fuel) result [] right refl (λ n. refl)
loop-Found (suc fuel) low result (l ∷ ls) [] h sl sr =
    nothing low (suc fuel) result (l ∷ ls) [] refl (λ n. ground arith)
loop-Found (suc fuel) low result (l ∷ ls) (r ∷ rs) h (hl, sl) (hr, sr) =
    let shorter_left = length-skip_equal l ls in
    let shorter_right = length-skip_equal r rs in
    let above_left = skip_equal-IsAscendingFrom l ls sl in
    let above_right = skip_equal-IsAscendingFrom r rs sr in
    elim (Bool-cases (ltb l r)) [
      | inl e ↦
          let lt : l < r = ltb→lt l r e in
          let (out, run, ok) =
            loop-Found fuel (l + 1) result (skip_equal l ls) (r ∷ rs) (omega arith) above_left
              (omega arith, sr) in
          (out, rw e run, left_Intersects low l r ls rs out hl hr lt sr ok)
      | inr e ↦ elim (Bool-cases (ltb r l)) [
        | inl e' ↦
            let lt : r < l = ltb→lt r l e' in
            let (out, run, ok) =
              loop-Found fuel (r + 1) result (l ∷ ls) (skip_equal r rs) (omega arith)
                (omega arith, sl) above_right in
            (out, rw (e, e') run, right_Intersects low l r ls rs out hl hr lt sl ok)
        | inr e' ↦
            let same : l ≡ r = ground arith in
            let (out, run, ok) =
              loop-Found fuel (l + 1) (result ++ (l ∷ [])) (skip_equal l ls) (skip_equal r rs)
                (omega arith) above_left
                (subst (λ v. IsAscendingFrom (v + 1) (skip_equal r rs)) (sym same) above_right) in
            (
              l ∷ out,
              rw (e, e') (run ∙ ap some (append_assoc result (l ∷ []) out)),
              both_Intersects low l r ls rs out hl hr same ok,
            )
      ]
    ]

-- For two ascending lists, which may repeat a number, `intersect_sorted_fids` ends and returns a strictly
-- ascending list that holds exactly the numbers that both hold.
pub intersect_sorted_fids-holds :
    (left right : List ℕ)
    → IsAscendingFrom 0 left
    → IsAscendingFrom 0 right
    → (out : List ℕ) × (intersect_sorted_fids left right ≡ some out)
      × IsStrictFrom 0 out
      × ((n : ℕ) → holds n out ≡ (holds n left && holds n right))
unfolding intersect_sorted_fids
intersect_sorted_fids-holds left right sl sr =
    let (out, run, (strict, mem)) =
      loop-Found (length left + length right + 1) 0 [] left right (omega arith) sl sr in
    (out, run, strict, mem)
