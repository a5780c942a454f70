-- ===== src/AttributeIndex/Keys.antt =====
-- The texts of an index: how an entry holds one, and how the text of a query is cut to compare with it. The first three
-- definitions are of reader/query/query_engine_combined.cpp, which asks the index only about texts that pass them.
use fast_gdb.Base.{
  ℕ, zero, suc, ◌+◌, ◌-◌, ◌*◌, ◌/◌, ◌%◌, ◌^◌, bit_and, bit_or, ◌≤◌, ◌<◌, ◌≡◌, refl, ap, sym, ◌∙◌,
  Bool, true, false, not, ◌||◌, List, [], ◌∷◌, ◌++◌, ltb, ◌==◌, arith, if◌then◌else◌, length,
  length-append, take, drop, take-append_length, drop-append_length, All,
}
use fast_gdb.Base.Bits.{bit_and_0xe0, bit_and_0xf0, bit_and_0x80, bit_and_0xc0, bit_or_shifted}
use native.Mathlib.Decide.{dec_lt}
use fast_gdb.AttributeIndex.{character_bytes, decode_characters}
use fast_gdb.AttributeIndex.Direct.{utf8_sequence_bytes, truncate_loop, truncate_index_string}
use fast_gdb.Utf16.{utf8_bytes}
use fast_gdb.Utf16.RoundTrip.{one_byte, two_bytes, three_bytes}

-- The bytes that continue a character: `count` of them.
abbrev pub all_continue : ℕ → List ℕ → Bool
all_continue zero bytes = true
all_continue (suc count) [] = true
all_continue (suc count) (b ∷ bytes) =
    let rest = all_continue count bytes in if bit_and b 0xc0 == 0x80 then rest else false

-- A character has a byte at least, so that a round for each byte is enough.
unfoldable pub key_loop : ℕ → List ℕ → Bool
key_loop fuel [] = true
key_loop zero (lead ∷ value) = true
key_loop (suc fuel) (lead ∷ value) =
    let bytes = utf8_sequence_bytes lead in
    let rest = key_loop fuel (drop bytes (lead ∷ value)) in
    if bytes == 0 || bytes == 4 || ltb (length (lead ∷ value)) bytes
    then false
    else if not (all_continue (bytes - 1) value)
    then false
    else rest

unfoldable pub string_index_key_supported : List ℕ → Bool
unfolding key_loop
string_index_key_supported value = key_loop (length value) value

-- A text of characters of sixteen bits, and the bytes that an entry of `n` characters holds of it: filled up with spaces.
abbrev pub text_of : List ℕ → List ℕ
text_of [] = []
text_of (u ∷ us) = character_bytes u ++ text_of us

abbrev pub stored : ℕ → List ℕ → List ℕ
stored zero us = []
stored (suc n) [] = 0x20 ∷ 0 ∷ stored n []
stored (suc n) (u ∷ us) = u % 256 ∷ u / 256 ∷ stored n us

abbrev pub IsCharacter : ℕ → Type 0
IsCharacter u = (0 < u) × (u < 2 ^ 16)

-- What the loops find at the bytes of a character.
record Leads (u : ℕ) (rest : List ℕ) : Type 0 where
  lead : ℕ
  behind : List ℕ
  bytes : character_bytes u ≡ lead ∷ behind
  size : utf8_sequence_bytes lead ≡ length (lead ∷ behind)
  basic : length (lead ∷ behind) ≤ 3
  space : (lead == 0x20) ≡ (u == 0x20)
  continued : all_continue (length behind) (behind ++ rest) ≡ true

pub character_bytes-utf8_bytes : (u : ℕ) → character_bytes u ≡ utf8_bytes u
unfolding utf8_bytes
character_bytes-utf8_bytes u = refl

two_bytes-Leads : (u : ℕ) (rest : List ℕ) → 0x80 ≤ u → u < 0x800 → Leads u rest
two_bytes-Leads u rest l h =
    let lead : ℕ = 192 + u / 64 in
    let next : ℕ = 128 + u % 64 in
    let high : (bit_and lead 0x80 == 0) ≡ false = ground (arith, bit_and_0x80 lead) in
    let two : (bit_and lead 0xe0 == 0xc0) ≡ true = ground (arith, bit_and_0xe0 lead) in
    let goes_on : (bit_and next 0xc0 == 0x80) ≡ true = ground (arith, bit_and_0xc0 next) in
    record {
      lead = lead;
      behind = next ∷ [];
      bytes = character_bytes-utf8_bytes u ∙ two_bytes u l h;
      size = rw (high, two) refl;
      basic = omega arith;
      space = ground arith;
      continued = rw goes_on refl;
    }

three_bytes-Leads : (u : ℕ) (rest : List ℕ) → 0x800 ≤ u → u < 2 ^ 16 → Leads u rest
three_bytes-Leads u rest l h =
    let lead : ℕ = 224 + u / 4096 in
    let next : ℕ = 128 + u / 64 % 64 in
    let last : ℕ = 128 + u % 64 in
    let high : (bit_and lead 0x80 == 0) ≡ false = ground (arith, bit_and_0x80 lead) in
    let two : (bit_and lead 0xe0 == 0xc0) ≡ false = ground (arith, bit_and_0xe0 lead) in
    let three : (bit_and lead 0xf0 == 0xe0) ≡ true = ground (arith, bit_and_0xf0 lead) in
    let goes_on : (bit_and next 0xc0 == 0x80) ≡ true = ground (arith, bit_and_0xc0 next) in
    let and_on : (bit_and last 0xc0 == 0x80) ≡ true = ground (arith, bit_and_0xc0 last) in
    record {
      lead = lead;
      behind = next ∷ last ∷ [];
      bytes = character_bytes-utf8_bytes u ∙ three_bytes u l h;
      size = rw (high, two, three) refl;
      basic = omega arith;
      space = ground arith;
      continued = rw (goes_on, and_on) refl;
    }

character_bytes-Leads : (u : ℕ) (rest : List ℕ) → IsCharacter u → Leads u rest
character_bytes-Leads u rest (p, q) = elim (dec_lt u 0x80) [
  | yes h ↦ record {
    lead = u;
    behind = [];
    bytes = character_bytes-utf8_bytes u ∙ one_byte u h;
    size = let m : (bit_and u 0x80 == 0) ≡ true = ground (arith, bit_and_0x80 u) in rw m refl;
    basic = omega arith;
    space = refl;
    continued = refl;
  }
  | no h ↦ elim (dec_lt u 0x800) [
    | yes h' ↦ two_bytes-Leads u rest (omega arith) h'
    | no h' ↦ three_bytes-Leads u rest (omega arith) q
  ]
]

module _ (u : ℕ) (text : List ℕ) (h : IsCharacter u) where
  pub truncate_step :
      (fuel n : ℕ)
      → truncate_loop (suc fuel) (suc n) (character_bytes u ++ text)
        ≡ (if u == 0x20 then [] else character_bytes u ++ truncate_loop fuel n text)
  unfolding truncate_loop
  truncate_step fuel n =
      let L = character_bytes-Leads u text h in
      let some_bytes : (length (L.lead ∷ L.behind) == 0) ≡ false = ground arith in
      let there : ltb (length (L.lead ∷ (L.behind ++ text))) (length (L.lead ∷ L.behind)) ≡ false =
        ground (arith, length-append L.behind text) in
      let taken : take (length L.behind) (L.behind ++ text) ≡ L.behind =
        take-append_length L.behind text in
      let dropped : drop (length (L.lead ∷ L.behind)) (L.lead ∷ (L.behind ++ text)) ≡ text =
        drop-append_length (L.lead ∷ L.behind) text in
      rw (L.bytes, truncate_loop, L.space, L.size, some_bytes, there, taken, dropped) refl

  key_step : (fuel : ℕ) → key_loop (suc fuel) (character_bytes u ++ text) ≡ key_loop fuel text
  unfolding key_loop
  key_step fuel =
      let L = character_bytes-Leads u text h in
      let some_bytes : (length (L.lead ∷ L.behind) == 0) ≡ false = ground arith in
      let not_four : (length (L.lead ∷ L.behind) == 4) ≡ false = ground (arith, L.basic) in
      let there : ltb (length (L.lead ∷ (L.behind ++ text))) (length (L.lead ∷ L.behind)) ≡ false =
        ground (arith, length-append L.behind text) in
      let behind : length (L.lead ∷ L.behind) - 1 ≡ length L.behind = omega arith in
      let dropped : drop (length (L.lead ∷ L.behind)) (L.lead ∷ (L.behind ++ text)) ≡ text =
        drop-append_length (L.lead ∷ L.behind) text in
      rw (L.bytes, key_loop, L.size, some_bytes, not_four, there, behind, L.continued, dropped) refl

  decode_step :
      (n : ℕ) (bytes : List ℕ)
      → decode_characters (suc n) (u % 256 ∷ u / 256 ∷ bytes)
        ≡ (if u == 0x20 then [] else character_bytes u ++ decode_characters n bytes)
  unfolding decode_characters
  decode_step n bytes =
      let whole : bit_or (u % 256) (u / 256 * 2 ^ 8) ≡ u =
        bit_or_shifted 8 (u % 256) (u / 256) (omega arith) ∙ omega arith in
      let positive : (u == 0) ≡ false = ground (arith, h.0) in rw (whole, positive) refl

pub length-text_of :
    (u : ℕ) (us : List ℕ) → IsCharacter u → suc (length (text_of us)) ≤ length (text_of (u ∷ us))
length-text_of u us h =
    let L = character_bytes-Leads u [] h in
    rw (L.bytes) (omega (arith, length-append L.behind (text_of us)))

decode_characters-truncate_loop :
    (us : List ℕ) (n fuel : ℕ)
    → All IsCharacter us
    → length (text_of us) ≤ fuel
    → decode_characters n (stored n us) ≡ truncate_loop fuel n (text_of us)
unfolding decode_characters truncate_loop
decode_characters-truncate_loop us zero zero h f = refl
decode_characters-truncate_loop us zero (suc fuel) h f = refl
decode_characters-truncate_loop [] (suc n) zero h f = refl
decode_characters-truncate_loop [] (suc n) (suc fuel) h f = refl
decode_characters-truncate_loop (u ∷ us) (suc n) zero h f =
    absurd (omega (arith, f, length-text_of u us h.0))
decode_characters-truncate_loop (u ∷ us) (suc n) (suc fuel) (h, hs) f =
    decode_step u (text_of us) h n (stored n us)
    ∙ ap (λ rest. if u == 0x20 then [] else character_bytes u ++ rest)
        (decode_characters-truncate_loop us n fuel hs (omega (arith, f, length-text_of u us h)))
    ∙ sym (truncate_step u (text_of us) h fuel n)

key_loop-text_of :
    (us : List ℕ) (fuel : ℕ)
    → All IsCharacter us
    → length (text_of us) ≤ fuel
    → key_loop fuel (text_of us) ≡ true
unfolding key_loop
key_loop-text_of [] zero h f = refl
key_loop-text_of [] (suc fuel) h f = refl
key_loop-text_of (u ∷ us) zero h f = absurd (omega (arith, f, length-text_of u us h.0))
key_loop-text_of (u ∷ us) (suc fuel) (h, hs) f =
    key_step u (text_of us) h fuel
    ∙ key_loop-text_of us fuel hs (omega (arith, f, length-text_of u us h))

-- A text of characters from U+0001 to U+FFFF, each one UTF-16 unit, is a key that the index is asked about; and an entry
-- of `n` characters that stores the text, cut to `n` characters or filled up with spaces, is decoded to just what the
-- text of a query is cut to.
pub decode_characters-truncate_index_string :
    (us : List ℕ) (n : ℕ)
    → All IsCharacter us
    → (string_index_key_supported (text_of us) ≡ true)
      × (decode_characters n (stored n us) ≡ truncate_index_string (text_of us) n)
unfolding string_index_key_supported
decode_characters-truncate_index_string us n h = (
  key_loop-text_of us (length (text_of us)) h (omega arith),
  decode_characters-truncate_loop us n (length (text_of us)) h (omega arith),
)
