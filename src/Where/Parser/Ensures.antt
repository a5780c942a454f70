-- ===== src/Where/Parser/Ensures.antt =====
-- Postconditions on a parse: it reads no token behind the last, stays within its fuel, and where it
-- returns an expression, `P` holds of that and of the tokens left.
use fast_gdb.Base.{◌≡◌, refl, true, false, List, [], ◌∷◌, arith, Bool-cases, inl, inr}
use fast_gdb.Where.{TokenKind, end_kind, kind_eq, Token, has_end}
use fast_gdb.Where.Parser.{Parsed, parsed, null, and_then, on_kind}

pub data Ensures {A : Type 0} (P : A → List Token → Type 0) : Parsed A → Type 0 where
  holds : {a : A} {rest : List Token} → P a rest → Ensures P (parsed a rest)
  rejected : Ensures P null

module _ {A B : Type 0} {P : A → List Token → Type 0} {Q : B → List Token → Type 0} where
  pub Ensures-and_then :
      {r : Parsed A} {k : A → List Token → Parsed B}
      → Ensures P r
      → ((a : A) (rest : List Token) → P a rest → Ensures Q (k a rest))
      → Ensures Q (and_then r k)
  Ensures-and_then (holds {a} {rest} h) k = k a rest h
  Ensures-and_then rejected k = rejected

module _ {A : Type 0} {P : A → List Token → Type 0} (kind : TokenKind) where
  -- A token that is not the end is taken only where there is one behind it.
  pub Ensures-on_kind :
      {yes_case : List Token → Parsed A} {no_case : Parsed A} (ts : List Token)
      → kind_eq end_kind kind ≡ false
      → has_end ts ≡ true
      → ((t : Token) (rest : List Token)
          → ts ≡ t ∷ rest
          → kind_eq t.kind kind ≡ true
          → has_end rest ≡ true
          → Ensures P (yes_case rest))
      → Ensures P no_case
      → Ensures P (on_kind kind ts yes_case no_case)
  Ensures-on_kind [] n h y z = cc
  Ensures-on_kind (t ∷ ts) n h y z = elim (Bool-cases (kind_eq t.kind kind)) [
    | inl e ↦ rw e (y t ts refl e (ground arith))
    | inr e ↦ rw e z
  ]

module _ {A : Type 0} {P Q : A → List Token → Type 0} where
  pub Ensures-mono :
      {r : Parsed A}
      → Ensures P r
      → ((a : A) (rest : List Token) → P a rest → Q a rest)
      → Ensures Q r
  Ensures-mono (holds {a} {rest} h) f = holds (f a rest h)
  Ensures-mono rejected f = rejected
