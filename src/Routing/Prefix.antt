-- ===== src/Routing/Prefix.antt =====
-- `starts_with` and `bytes_eq` against concatenation and equality of lists.
use fast_gdb.Base.{
  zero, suc, sym, length-append, ℕ, true, List, [], ◌∷◌, ◌++◌, ◌≡◌, refl, ap, ap₂, ◌∙◌, arith,
  length, take, drop,
}
use fast_gdb.Routing.{bytes_eq, starts_with}

pub bytes_eq→path : (xs ys : List ℕ) → bytes_eq xs ys ≡ true → xs ≡ ys
bytes_eq→path [] [] h = refl
bytes_eq→path [] (y ∷ ys) h = ground arith
bytes_eq→path (x ∷ xs) [] h = ground arith
bytes_eq→path (x ∷ xs) (y ∷ ys) h =
    let e : x ≡ y = ground arith in
    let rest : bytes_eq xs ys ≡ true = ground arith in
    ap₂ (λ a as'. a ∷ as') e (bytes_eq→path xs ys rest)

pub bytes_eq-same : (xs : List ℕ) → bytes_eq xs xs ≡ true
bytes_eq-same [] = refl
bytes_eq-same (x ∷ xs) = ground (arith, bytes_eq-same xs)

pub take-drop : (n : ℕ) (xs : List ℕ) → take n xs ++ drop n xs ≡ xs
take-drop zero xs = refl
take-drop (suc n) [] = refl
take-drop (suc n) (x ∷ xs) = ap (λ ys. x ∷ ys) (take-drop n xs)

pub starts_with→append :
    (value prefix : List ℕ)
    → starts_with value prefix ≡ true
    → value ≡ prefix ++ drop (length prefix) value
unfolding starts_with
starts_with→append value prefix h =
    let e : bytes_eq (take (length prefix) value) prefix ≡ true = ground arith in
    sym (take-drop (length prefix) value)
    ∙ ap (λ ys. ys ++ drop (length prefix) value)
        (bytes_eq→path (take (length prefix) value) prefix e)

take-append_length : (xs ys : List ℕ) → take (length xs) (xs ++ ys) ≡ xs
take-append_length [] ys = refl
take-append_length (x ∷ xs) ys = ap (λ zs. x ∷ zs) (take-append_length xs ys)

pub starts_with-append : (prefix rest : List ℕ) → starts_with (prefix ++ rest) prefix ≡ true
unfolding starts_with
starts_with-append prefix rest =
    ground (arith, length-append prefix rest, take-append_length prefix rest, bytes_eq-same prefix)
