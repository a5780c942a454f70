-- ===== src/Utf16/RoundTrip.antt =====
-- A name read from UTF-16 and written back.
use fast_gdb.Base.{
  ℕ, zero, suc, ◌+◌, ◌*◌, ◌/◌, ◌%◌, ◌^◌, ◌≤◌, ◌<◌, ◌≡◌, refl, ap, ap₂, ◌∙◌, bit_and, bit_or, true,
  false, List, [], ◌∷◌, ◌++◌, some, arith, ltb, leb, ◌==◌, if◌then◌else◌, length, length-append,
  drop, All, inl, inr, Bool-cases,
}
use fast_gdb.Base.Bits.{
  shifted_bit_or, bit_or_shifted, bit_and_0x0f, bit_and_0x1f, bit_and_0x3f, bit_and_0xe0,
  bit_and_0xf0,
}
use fast_gdb.Base.Int.{pos}
use fast_gdb.Utf16.{
  code_unit, utf8_bytes, utf16le_loop, utf16le_to_utf8, converted, ran_undefined, next_codepoint,
  units_loop, utf8_to_utf16,
}
use native.Mathlib.Decide.{dec_lt}

head_byte : (x : ℕ) → x < 32 → bit_or 0xc0 x ≡ 192 + x
head_byte x h = shifted_bit_or 5 x 6 h

wide_head_byte : (x : ℕ) → x < 16 → bit_or 0xe0 x ≡ 224 + x
wide_head_byte x h = shifted_bit_or 5 x 7 (omega arith)

tail_byte : (x : ℕ) → bit_or 0x80 (bit_and x 0x3f) ≡ 128 + x % 64
tail_byte x = rw (bit_and_0x3f x) (shifted_bit_or 7 (x % 64) 1 (omega arith))

pub one_byte : (u : ℕ) → u < 0x80 → utf8_bytes u ≡ u ∷ []
unfolding utf8_bytes
one_byte u h = let e : ltb u 0x80 ≡ true = ground arith in rw e refl

pub two_bytes : (u : ℕ) → 0x80 ≤ u → u < 0x800 → utf8_bytes u ≡ (192 + u / 64) ∷ (128 + u % 64) ∷ []
unfolding utf8_bytes
two_bytes u l h =
    let e : ltb u 0x80 ≡ false = ground arith in
    let e' : ltb u 0x800 ≡ true = ground arith in
    rw (e, e') (ap₂ (λ a b. a ∷ b ∷ []) (head_byte (u / 64) (omega arith)) (tail_byte u))

pub three_bytes :
    (u : ℕ)
    → 0x800 ≤ u
    → u < 0x10000
    → utf8_bytes u ≡ (224 + u / 4096) ∷ (128 + u / 64 % 64) ∷ (128 + u % 64) ∷ []
unfolding utf8_bytes
three_bytes u l h =
    let e : ltb u 0x80 ≡ false = ground arith in
    let e' : ltb u 0x800 ≡ false = ground arith in
    rw (e, e')
      (ap₂ (λ a t. a ∷ t) (wide_head_byte (u / 4096) (omega arith))
        (ap₂ (λ a b. a ∷ b ∷ []) (tail_byte (u / 64)) (tail_byte u)))

next_one : (u : ℕ) (text : List ℕ) → u < 0x80 → next_codepoint u text ≡ (some u, 0)
unfolding next_codepoint
next_one u text h = let e : ltb u 0x80 ≡ true = ground arith in rw e refl

next_two :
    (x y : ℕ) (text : List ℕ)
    → x < 32
    → y < 64
    → next_codepoint (192 + x) ((128 + y) ∷ text) ≡ (some (x * 64 + y), 1)
unfolding next_codepoint
next_two x y text h h' =
    let e : ltb (192 + x) 0x80 ≡ false = ground arith in
    let m : (bit_and (192 + x) 0xe0 == 0xc0) ≡ true = ground (arith, bit_and_0xe0 (192 + x)) in
    let a : bit_and (192 + x) 0x1f ≡ x = omega (arith, bit_and_0x1f (192 + x)) in
    let b : bit_and (128 + y) 0x3f ≡ y = omega (arith, bit_and_0x3f (128 + y)) in
    rw (e, m, a, b, shifted_bit_or 6 y x h') refl

next_three :
    (x y z : ℕ) (text : List ℕ)
    → x < 16
    → y < 64
    → z < 64
    → next_codepoint (224 + x) ((128 + y) ∷ (128 + z) ∷ text) ≡ (some (x * 4096 + y * 64 + z), 2)
unfolding next_codepoint
next_three x y z text h h' h'' =
    let e : ltb (224 + x) 0x80 ≡ false = ground arith in
    let m : (bit_and (224 + x) 0xe0 == 0xc0) ≡ false = ground (arith, bit_and_0xe0 (224 + x)) in
    let n : (bit_and (224 + x) 0xf0 == 0xe0) ≡ true = ground (arith, bit_and_0xf0 (224 + x)) in
    let a : bit_and (224 + x) 0x0f ≡ x = omega (arith, bit_and_0x0f (224 + x)) in
    let b : bit_and (128 + y) 0x3f ≡ y = omega (arith, bit_and_0x3f (128 + y)) in
    let c : bit_and (128 + z) 0x3f ≡ z = omega (arith, bit_and_0x3f (128 + z)) in
    let join : bit_or (x * 2 ^ 12) (y * 2 ^ 6) ≡ (x * 64 + y) * 2 ^ 6 =
      omega (arith, shifted_bit_or 12 (y * 2 ^ 6) x (omega arith)) in
    rw (e, m, n, a, b, c, join, shifted_bit_or 6 z (x * 64 + y) h'')
      (ap (λ t. (some t, 2)) (omega arith))

-- One round of the loop, by what the round finds.
round_finds :
    (fuel c u taken : ℕ) (str : List ℕ)
    → next_codepoint c str ≡ (some u, taken)
    → u < 0x10000
    → units_loop (suc fuel) (c ∷ str) ≡ u ∷ units_loop fuel (drop taken str)
unfolding units_loop
round_finds fuel c u taken str e h =
    let basic : leb u 0xffff ≡ true = ground arith in rw (e, basic) refl

unit_round :
    (fuel u : ℕ) (text : List ℕ)
    → u < 0x10000
    → units_loop (suc fuel) (utf8_bytes u ++ text) ≡ u ∷ units_loop fuel text
unit_round fuel u text h = elim (dec_lt u 0x80) [
  | yes p ↦ rw (one_byte u p) (round_finds fuel u u 0 text (next_one u text p) h)
  | no p ↦ elim (dec_lt u 0x800) [
    | yes q ↦
        let x : ℕ = u / 64 in
        let y : ℕ = u % 64 in
        let found = next_two x y text (omega arith) (omega arith) in
        rw (two_bytes u (omega arith) q) (
          round_finds fuel (192 + x) (x * 64 + y) 1 ((128 + y) ∷ text) found (omega arith)
          ∙ ap (λ t. t ∷ units_loop fuel text) (omega arith))
    | no q ↦
        let x : ℕ = u / 4096 in
        let y : ℕ = u / 64 % 64 in
        let z : ℕ = u % 64 in
        let found = next_three x y z text (omega arith) (omega arith) (omega arith) in
        rw (three_bytes u (omega arith) h) (
          round_finds fuel (224 + x) (x * 4096 + y * 64 + z) 2 ((128 + y) ∷ (128 + z) ∷ text) found
            (omega arith)
          ∙ ap (λ t. t ∷ units_loop fuel text) (omega arith))
  ]
]

-- Code units as bytes, the low byte first.
abbrev pub unit_bytes : List ℕ → List ℕ
unit_bytes [] = []
unit_bytes (u ∷ us) = u % 256 ∷ u / 256 ∷ unit_bytes us

-- The code units before the first that is zero.
abbrev pub until_nul : List ℕ → List ℕ
until_nul [] = []
until_nul (u ∷ us) = let rest = until_nul us in if u == 0 then [] else u ∷ rest

abbrev pub IsUnit : ℕ → Type 0
IsUnit u = u < 2 ^ 16

code_unit-bytes : (u : ℕ) → IsUnit u → code_unit (u % 256) (u / 256) ≡ u
unfolding code_unit
code_unit-bytes u h = rw (bit_or_shifted 8 (u % 256) (u / 256) (omega arith)) (omega arith)

utf8_bytes-some : (u : ℕ) → IsUnit u → 1 ≤ length (utf8_bytes u)
utf8_bytes-some u h = elim (dec_lt u 0x80) [
  | yes p ↦ rw (one_byte u p) (omega arith)
  | no p ↦ elim (dec_lt u 0x800) [
    | yes q ↦ rw (two_bytes u (omega arith) q) (omega arith)
    | no q ↦ rw (three_bytes u (omega arith) h) (omega arith)
  ]
]

unit_read :
    (u fuel : ℕ) (text us : List ℕ)
    → IsUnit u
    → ((fuel' : ℕ) → length text ≤ fuel' → units_loop fuel' text ≡ us)
    → length (utf8_bytes u ++ text) ≤ fuel
    → units_loop fuel (utf8_bytes u ++ text) ≡ u ∷ us
unit_read u zero text us h rest n =
    absurd (omega (arith, utf8_bytes-some u h, length-append (utf8_bytes u) text))
unit_read u (suc fuel) text us h rest n =
    unit_round fuel u text h
    ∙ ap (λ t. u ∷ t)
        (rest fuel (omega (arith, utf8_bytes-some u h, length-append (utf8_bytes u) text)))

nothing_left : (fuel : ℕ) → units_loop fuel [] ≡ []
unfolding units_loop
nothing_left zero = refl
nothing_left (suc fuel) = refl

units_read :
    (us tail : List ℕ)
    → All IsUnit us
    → (text : List ℕ) × (utf16le_loop (unit_bytes us ++ tail) (length us) ≡ some text)
      × ((fuel : ℕ) → length text ≤ fuel → units_loop fuel text ≡ until_nul us)
unfolding utf16le_loop
units_read [] tail h = ([], refl, λ fuel n. nothing_left fuel)
units_read (u ∷ us) tail h = elim (Bool-cases (u == 0)) [
  | inl e ↦ rw (code_unit-bytes u h.0, e) ([], refl, λ fuel n. nothing_left fuel)
  | inr e ↦
      let (text, run, read) = units_read us tail h.1 in
      rw (code_unit-bytes u h.0, e, run)
        (utf8_bytes u ++ text, refl, λ fuel n. unit_read u fuel text (until_nul us) h.0 read n)
]

-- For at most 715827882 code units of sixteen bits, surrogates among them, stored with the low byte first and any bytes
-- behind them, `utf16le_to_utf8` over their number returns a string, from which `utf8_to_utf16` returns the code units
-- before the first zero.
pub utf8_to_utf16-utf16le_to_utf8 :
    (us tail : List ℕ)
    → All IsUnit us
    → length us ≤ 715827882
    → (text : List ℕ) × (utf16le_to_utf8 (unit_bytes us ++ tail) (pos (length us)) ≡ converted text)
      × (utf8_to_utf16 text ≡ until_nul us)
unfolding utf8_to_utf16 utf16le_to_utf8
utf8_to_utf16-utf16le_to_utf8 us tail h n =
    let (text, run, read) = units_read us tail h in
    let fits : leb (2 ^ 31) (length us * 3) ≡ false = ground arith in
    (text, rw (fits, run), read (length text) (omega arith))

-- From one more on, the product with three overflows.
utf16le_to_utf8_wide :
    (source : List ℕ) (n : ℕ) → 715827883 ≤ n → utf16le_to_utf8 source (pos n) ≡ ran_undefined
unfolding utf16le_to_utf8
utf16le_to_utf8_wide source n h = let wide : leb (2 ^ 31) (n * 3) ≡ true = ground arith in rw wide
