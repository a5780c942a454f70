-- ===== src/Utf16.antt =====
-- common/utf16.h and utf16.cpp of src/edgar/explorgdb: names between UTF-16 in files and UTF-8 in memory.
pub mod RoundTrip
use fast_gdb.Base.{
  ℕ, zero, suc, ◌+◌, ◌*◌, ◌/◌, ◌%◌, ◌^◌, bit_and, bit_or, Bool, List, [], ◌∷◌, ◌++◌, Option, none,
  some, ltb, leb, ◌==◌, if◌then◌else◌, length, get_elem?, drop,
}
use fast_gdb.Base.Int.{ℤ, pos, negsuc}
use fast_gdb.Base.Options.{◌>>=◌}

-- `data[i * 2] | data[i * 2 + 1] << 8`, as uint16_t.
unfoldable pub code_unit : ℕ → ℕ → ℕ
code_unit low high = bit_or low (high * 2 ^ 8) % 2 ^ 16

-- The bytes of one code unit.
unfoldable pub utf8_bytes : ℕ → List ℕ
utf8_bytes c =
    if ltb c 0x80
    then c ∷ []
    else if ltb c 0x800
    then bit_or 0xc0 (c / 2 ^ 6) ∷ bit_or 0x80 (bit_and c 0x3f) ∷ []
    else bit_or 0xe0 (c / 2 ^ 12)
      ∷ bit_or 0x80 (bit_and (c / 2 ^ 6) 0x3f)
      ∷ bit_or 0x80 (bit_and c 0x3f)
      ∷ []

-- The loop, with `rounds` left; it counts down where the source counts up. `none` is a read behind the data.
unfoldable pub utf16le_loop : List ℕ → ℕ → Option (List ℕ)
utf16le_loop source zero = some []
utf16le_loop [] (suc rounds) = none
utf16le_loop (low ∷ []) (suc rounds) = none
utf16le_loop (low ∷ high ∷ source) (suc rounds) =
    let c = code_unit low high in
    let rest = utf16le_loop source rounds in
    if c == 0 then some [] else (do text ← rest; some (utf8_bytes c ++ text))

-- A string, std::length_error, or undefined behaviour.
pub data Converted : Type 0 where
  converted : List ℕ → Converted
  threw_length_error ran_undefined : Converted

abbrev pub of_loop : Option (List ℕ) → Converted
of_loop none = ran_undefined
of_loop (some out) = converted out

-- `out.reserve(char_count * 3)`: the product is of type int, and a negative one is no size of a string.
unfoldable pub utf16le_to_utf8 : List ℕ → ℤ → Converted
unfolding utf16le_loop
utf16le_to_utf8 source (pos n) =
    if leb (2 ^ 31) (n * 3) then ran_undefined else of_loop (utf16le_loop source n)
utf16le_to_utf8 source (negsuc n) =
    if ltb (2 ^ 31) (suc n * 3) then ran_undefined else threw_length_error

-- The six low bits of the byte at `i`, or nothing behind the end.
abbrev pub tail_bits : List ℕ → ℕ → ℕ → ℕ
tail_bits str i codepoint = elim (get_elem? str i) [
  | none ↦ codepoint
  | some b ↦ bit_or codepoint (bit_and b 0x3f)
]

abbrev pub tail_bits_6 : List ℕ → ℕ → ℕ → ℕ
tail_bits_6 str i codepoint = elim (get_elem? str i) [
  | none ↦ codepoint
  | some b ↦ bit_or codepoint (bit_and b 0x3f * 2 ^ 6)
]

-- One round at a byte with the bytes behind it: the code point, and how many bytes of `str` it takes beyond the first.
unfoldable pub next_codepoint : ℕ → List ℕ → Option ℕ × ℕ
next_codepoint c str =
    if ltb c 0x80
    then (some c, 0)
    else if bit_and c 0xe0 == 0xc0
    then (some (tail_bits str 0 (bit_and c 0x1f * 2 ^ 6)), 1)
    else if bit_and c 0xf0 == 0xe0
    then (some (tail_bits str 1 (tail_bits_6 str 0 (bit_and c 0x0f * 2 ^ 12))), 2)
    else (none, 0)

abbrev pub keep_basic : Option ℕ → List ℕ → List ℕ
keep_basic none out = out
keep_basic (some codepoint) out = if leb codepoint 0xffff then codepoint ∷ out else out

-- A round takes a byte at least, so the length of the string is fuel enough.
unfoldable pub units_loop : ℕ → List ℕ → List ℕ
units_loop zero str = []
units_loop (suc fuel) [] = []
units_loop (suc fuel) (c ∷ str) =
    let (codepoint, taken) = next_codepoint c str in
    keep_basic codepoint (units_loop fuel (drop taken str))

unfoldable pub utf8_to_utf16 : List ℕ → List ℕ
utf8_to_utf16 str = units_loop (length str) str
