-- ===== src/Where/Lexer/Total.antt =====
-- `tokenize` ends: each round of its loop shortens the text. What it returns has the end token last.
use fast_gdb.Base.{
  ℕ, zero, suc, ◌+◌, ◌≤◌, ◌<◌, ◌≡◌, refl, Bool, true, false, List, [], ◌∷◌, ◌++◌, Option, some,
  arith, ◌⊎◌, inl, inr, length, Bool-cases, if◌then◌else◌, ◌==◌, length-drop,
}
use fast_gdb.Where.{
  Doubles, Token, token, has_end, end_kind, TokenKind, op_ne, op_ge, op_le, op_eq, op_gt, op_lt,
  lparen, rparen, comma,
}
use fast_gdb.Where.Lexer.{
  Round, blank, found, refused, read_quoted, take_word, one, two, quoted_round, word_round,
  number_round, round, tokenize_loop, tokenize,
}

-- The text that a round leaves has at most `n` bytes.
abbrev Leaves : ℕ → Round → Type 0
Leaves n (blank rest) = length rest ≤ n
Leaves n (found t rest) = length rest ≤ n
Leaves n refused = Unit {0}

quoted-Leaves :
    (n : ℕ) (value text : List ℕ)
    → length text ≤ n
    → Leaves n (quoted_round (read_quoted value text))
unfolding read_quoted
quoted-Leaves n value [] h = tt
quoted-Leaves n value (c ∷ []) h = elim (Bool-cases (c == b'\'')) [
  | inl e ↦ rw e (omega arith)
  | inr e ↦ rw e tt
]
quoted-Leaves n value (c ∷ d ∷ ds) h = elim (Bool-cases (c == b'\'')) [
  | inr e ↦ rw e (quoted-Leaves n (value ++ (c ∷ [])) (d ∷ ds) (omega arith))
  | inl e ↦ elim (Bool-cases (d == b'\'')) [
    | inl e' ↦ rw (e, e') (quoted-Leaves n (value ++ (b'\'' ∷ [])) ds (omega arith))
    | inr e' ↦ rw (e, e') (omega arith)
  ]
]

length-take_word : (text : List ℕ) → length (take_word text).1 ≤ length text
unfolding take_word
length-take_word [] = omega arith
length-take_word (c ∷ cs) = ground (arith, length-take_word cs)

word-Leaves : (c : ℕ) (cs : List ℕ) → Leaves (length cs) (word_round c cs)
word-Leaves c cs = length-take_word cs

two-Leaves : (kind : TokenKind) (c : ℕ) (cs : List ℕ) → Leaves (length cs) (two kind c cs)
two-Leaves kind c [] = tt
two-Leaves kind c (d ∷ ds) = omega arith

-- The same, as a family that shows its round.
data LeavesRound (n : ℕ) : Round → Type 0 where
  leaves : {r : Round} → Leaves n r → LeavesRound n r

LeavesRound-Leaves : (n : ℕ) (r : Round) → LeavesRound n r → Leaves n r
LeavesRound-Leaves n r (leaves h) = h

either :
    {n : ℕ} (b : Bool) (x : Round) {y : Round}
    → Leaves n x
    → LeavesRound n y
    → LeavesRound n (if b then x else y)
either true x h k = leaves h
either false x h k = k

has_end-append : (ts : List Token) → has_end (ts ++ (token end_kind [] ∷ [])) ≡ true
has_end-append [] = refl
has_end-append (t ∷ ts) = ground (arith, has_end-append ts)

module _ (D : Doubles) where
  number-Leaves : (c : ℕ) (cs : List ℕ) → Leaves (length cs) (number_round D (c ∷ cs))
  number-Leaves c cs = elim (Bool-cases ((D.strtod (c ∷ cs)).0 == 0)) [
    | inl e ↦ rw e tt
    | inr e ↦ rw e (ground (arith, length-drop (D.strtod (c ∷ cs)).0 (c ∷ cs)))
  ]

  round_from :
      (c : ℕ) (cs : List ℕ) → length cs ≤ length cs → LeavesRound (length cs) (round D c cs)
  unfolding round
  round_from c cs same = either _ (blank cs) same (
      either _ (one lparen c cs) same (
        either _ (one rparen c cs) same (
          either _ (one comma c cs) same (
            either _ (quoted_round (read_quoted [] cs)) (quoted-Leaves (length cs) [] cs same) (
              either _ (two op_ne c cs) (two-Leaves op_ne c cs) (
                either _ (two op_ge c cs) (two-Leaves op_ge c cs) (
                  either _ (two op_le c cs) (two-Leaves op_le c cs) (
                    either _ (one op_eq c cs) same (
                      either _ (one op_gt c cs) same (
                        either _ (one op_lt c cs) same (
                          either _ (word_round c cs) (word-Leaves c cs) (
                            either _ (number_round D (c ∷ cs)) (number-Leaves c cs)
                              (leaves {r = refused} tt)))))))))))))

  round-Leaves : (c : ℕ) (cs : List ℕ) → Leaves (length cs) (round D c cs)
  unfolding round
  round-Leaves c cs =
      let same : length cs ≤ length cs = omega arith in
      LeavesRound-Leaves (length cs) (round D c cs) (round_from c cs same)

  abbrev HasOutcome : Option (List Token) → Type 0
  HasOutcome r = (out : List Token) × (r ≡ some out) × ((out ≡ []) ⊎ (has_end out ≡ true))

  -- One round, from what the rest of the loop does.
  round_HasOutcome :
      (fuel : ℕ) (tokens : List Token) (r : Round) (n : ℕ)
      → Leaves n r
      → n < fuel
      → ((ts : List Token) (text : List ℕ)
          → length text < fuel
          → HasOutcome (tokenize_loop D fuel ts text))
      → HasOutcome (elim r [
        | blank rest ↦ tokenize_loop D fuel tokens rest
        | found t rest ↦ tokenize_loop D fuel (tokens ++ (t ∷ [])) rest
        | refused ↦ some []
      ])
  round_HasOutcome fuel tokens (blank rest) n l h go = go tokens rest (omega arith)
  round_HasOutcome fuel tokens (found t rest) n l h go = go (tokens ++ (t ∷ [])) rest (omega arith)
  round_HasOutcome fuel tokens refused n l h go = ([], refl, inl refl)

  loop_HasOutcome :
      (fuel : ℕ) (tokens : List Token) (text : List ℕ)
      → length text < fuel
      → HasOutcome (tokenize_loop D fuel tokens text)
  unfolding tokenize_loop
  loop_HasOutcome zero tokens text h = absurd (omega arith)
  loop_HasOutcome (suc fuel) tokens [] h =
      (tokens ++ (token end_kind [] ∷ []), refl, inr (has_end-append tokens))
  loop_HasOutcome (suc fuel) tokens (c ∷ cs) h =
      round_HasOutcome fuel tokens (round D c cs) (length cs) (round-Leaves c cs) (omega arith)
        (λ ts text k. loop_HasOutcome fuel ts text k)

  -- `tokenize` ends for every text: in a refusal, the empty list, or in tokens with the end among them.
  pub tokenize_total :
      (text : List ℕ)
      → (tokens : List Token) × (tokenize D text ≡ some tokens)
        × ((tokens ≡ []) ⊎ (has_end tokens ≡ true))
  unfolding tokenize
  tokenize_total text = loop_HasOutcome (length text + 1) [] text (omega arith)
