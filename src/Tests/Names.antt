-- ===== src/Tests/Names.antt =====
-- Names in UTF-16.
use fast_gdb.Base.{ℕ, ◌≡◌, refl, List, [], ◌∷◌, ◌++◌, arith, length}
use fast_gdb.Base.Int.{pos, negsuc}
use fast_gdb.Utf16.{
  code_unit, utf8_bytes, utf16le_to_utf8, converted, threw_length_error, next_codepoint, units_loop,
  utf8_to_utf16,
}
use fast_gdb.Utf16.RoundTrip.{unit_bytes, until_nul, utf8_to_utf16-utf16le_to_utf8}

-- A letter, an accented letter, a Chinese character, a zero and a letter.
abbrev five_units : List ℕ
five_units = 97 ∷ 233 ∷ 0x4e2d ∷ 0 ∷ 98 ∷ []

utf8_to_utf16-utf16le_to_utf8_example :
    (text : List ℕ) × (utf16le_to_utf8 (unit_bytes five_units ++ (7 ∷ [])) (pos (length five_units))
      ≡ converted text)
    × (utf8_to_utf16 text ≡ until_nul five_units)
utf8_to_utf16-utf16le_to_utf8_example =
    utf8_to_utf16-utf16le_to_utf8 five_units (7 ∷ []) (omega arith) (omega arith)

five_units_read :
    utf16le_to_utf8 (unit_bytes five_units) (pos 5)
    ≡ converted (97 ∷ 0xc3 ∷ 0xa9 ∷ 0xe4 ∷ 0xb8 ∷ 0xad ∷ [])
unfolding utf16le_to_utf8 utf8_bytes code_unit
five_units_read = refl

-- A negative count.
negative_count : utf16le_to_utf8 (unit_bytes five_units) (negsuc 0) ≡ threw_length_error
unfolding utf16le_to_utf8
negative_count = refl

-- A character of four bytes is dropped, each of its later bytes as well.
wide_character_dropped : utf8_to_utf16 (97 ∷ 0xf0 ∷ 0x9f ∷ 0x98 ∷ 0x80 ∷ []) ≡ 97 ∷ []
unfolding utf8_to_utf16 units_loop next_codepoint
wide_character_dropped = refl

-- A string that ends in the middle of a character.
cut_character : utf8_to_utf16 (0xe4 ∷ 0xb8 ∷ []) ≡ 0x4e00 ∷ []
unfolding utf8_to_utf16 units_loop next_codepoint
cut_character = refl
