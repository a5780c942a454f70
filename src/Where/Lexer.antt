-- ===== src/Where/Lexer.antt =====
-- `tokenize`: a loop over the text, a token at a time. The empty list of tokens is the refusal.
pub mod Total
use fast_gdb.Base.{
  ℕ, zero, suc, ◌+◌, Bool, true, false, not, ◌&&◌, ◌||◌, List, [], ◌∷◌, ◌++◌, Option, none, some,
  ◌==◌, if◌then◌else◌, length, take, drop,
}
use fast_gdb.Base.Chars.{isalnum, isalpha, isdigit, isspace, lower_copy}
use fast_gdb.Base.Keys.{key_eq}
use fast_gdb.Where.{
  Doubles, TokenKind, identifier, number, string, lparen, rparen, comma, op_eq, op_ne, op_lt, op_le,
  op_gt, op_ge, keyword_and, keyword_or, keyword_in, end_kind, Token, token,
}

-- One round of the loop: blank space, a token, or the refusal; with the text that is left.
pub data Round : Type 0 where
  blank : List ℕ → Round
  found : Token → List ℕ → Round
  refused : Round

-- The loop inside a string literal, behind its opening quote.
unfoldable pub read_quoted : List ℕ → List ℕ → Option (List ℕ × List ℕ)
read_quoted value [] = none
read_quoted value (c ∷ []) = if not (c == b'\'') then none else some (value, [])
read_quoted value (c ∷ d ∷ ds) =
    let plain = read_quoted (value ++ (c ∷ [])) (d ∷ ds) in
    let doubled = read_quoted (value ++ (b'\'' ∷ [])) ds in
    if not (c == b'\'') then plain else (if d == b'\'' then doubled else some (value, d ∷ ds))

-- The loop over an identifier, behind its first byte: the rest of the word, and the rest of the text.
unfoldable pub take_word : List ℕ → List ℕ × List ℕ
take_word [] = ([], [])
take_word (c ∷ cs) =
    let more : List ℕ × List ℕ = (c ∷ (take_word cs).0, (take_word cs).1) in
    if not (isalnum c) && not (c == b'_') then ([], c ∷ cs) else more

abbrev pub word_and : List ℕ
word_and = b'a' ∷ b'n' ∷ b'd' ∷ []

abbrev pub word_or : List ℕ
word_or = b'o' ∷ b'r' ∷ []

abbrev pub word_in : List ℕ
word_in = b'i' ∷ b'n' ∷ []

unfoldable pub word_kind : List ℕ → TokenKind
word_kind word =
    let lowered = lower_copy word in
    if key_eq lowered word_and
    then keyword_and
    else if key_eq lowered word_or
    then keyword_or
    else if key_eq lowered word_in
    then keyword_in
    else identifier

-- A token of one byte, and one of two.
abbrev pub one : TokenKind → ℕ → List ℕ → Round
one kind c cs = found (token kind (c ∷ [])) cs

abbrev pub is_two : ℕ → ℕ → ℕ → List ℕ → Bool
is_two a b c [] = false
is_two a b c (d ∷ ds) = c == a && d == b

abbrev pub two : TokenKind → ℕ → List ℕ → Round
two kind c [] = refused
two kind c (d ∷ ds) = found (token kind (c ∷ d ∷ [])) ds

abbrev pub quoted_round : Option (List ℕ × List ℕ) → Round
quoted_round none = refused
quoted_round (some (value, rest)) = found (token string value) rest

abbrev pub word_round : ℕ → List ℕ → Round
word_round c cs =
    let (word, rest) = take_word cs in found (token (word_kind (c ∷ word)) (c ∷ word)) rest

module _ (D : Doubles) where
  abbrev pub number_round : List ℕ → Round
  number_round text =
      let consumed = (D.strtod text).0 in
      if consumed == 0
      then refused
      else found (token number (take consumed text)) (drop consumed text)

  unfoldable pub round : ℕ → List ℕ → Round
  round c cs =
      if isspace c
      then blank cs
      else if c == b'('
      then one lparen c cs
      else if c == b')'
      then one rparen c cs
      else if c == b','
      then one comma c cs
      else if c == b'\''
      then quoted_round (read_quoted [] cs)
      else if is_two b'!' b'=' c cs
      then two op_ne c cs
      else if is_two b'>' b'=' c cs
      then two op_ge c cs
      else if is_two b'<' b'=' c cs
      then two op_le c cs
      else if c == b'='
      then one op_eq c cs
      else if c == b'>'
      then one op_gt c cs
      else if c == b'<'
      then one op_lt c cs
      else if isalpha c || c == b'_'
      then word_round c cs
      else if isdigit c || c == b'-' || c == b'+'
      then number_round (c ∷ cs)
      else refused

  -- The loop, with the tokens so far; `none` is the model's end of fuel.
  unfoldable pub tokenize_loop : ℕ → List Token → List ℕ → Option (List Token)
  unfolding round
  tokenize_loop zero tokens text = none
  tokenize_loop (suc fuel) tokens [] = some (tokens ++ (token end_kind [] ∷ []))
  tokenize_loop (suc fuel) tokens (c ∷ cs) = elim (round c cs) [
    | blank rest ↦ tokenize_loop fuel tokens rest
    | found t rest ↦ tokenize_loop fuel (tokens ++ (t ∷ [])) rest
    | refused ↦ some []
  ]

  -- Each round takes a byte or more.
  unfoldable pub tokenize : List ℕ → Option (List Token)
  unfolding tokenize_loop
  tokenize text = tokenize_loop (length text + 1) [] text
