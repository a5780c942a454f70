-- ===== src/BinaryReader/Text.antt =====
-- `read_utf16`: names in files, and what a count does that is too large or negative.
use fast_gdb.Base.{
  ℕ, ◌+◌, ◌-◌, ◌*◌, ◌^◌, ◌≤◌, ◌<◌, ◌≡◌, ap, true, false, List, [], ◌∷◌, ◌++◌, arith, All, length,
  length-append, length-drop, drop, leb,
}
use fast_gdb.Base.Int.{ℤ, pos}
use fast_gdb.BinaryReader.{
  ok, out_of_range, undefined, Reader, size, decoded, advance, read_utf16, ◌>>=◌,
}
use fast_gdb.BinaryReader.Bounds.{IsValid, ensure_past, ensure_within, pos_within}
use fast_gdb.BinaryReader.Varuint.{moved}
use fast_gdb.Utf16.{utf16le_to_utf8, converted, utf8_to_utf16}
use fast_gdb.Utf16.RoundTrip.{unit_bytes, until_nul, IsUnit, utf8_to_utf16-utf16le_to_utf8}

length-unit_bytes : (us : List ℕ) → length (unit_bytes us) ≡ length us * 2
length-unit_bytes [] = omega arith
length-unit_bytes (u ∷ us) = omega (arith, length-unit_bytes us)

module _ (r : Reader) (v : IsValid r) where
  -- For a valid reader and a count below 2 ^ 30, where fewer bytes are left than two for each, the cursor stays and
  -- std::out_of_range is thrown.
  read_utf16_past :
      (n : ℕ) → n < 2 ^ 30 → size r < r.pos_ + n * 2 → read_utf16 (pos n) r ≡ (out_of_range, r)
  unfolding read_utf16
  read_utf16_past n h past =
      let small : leb (2 ^ 30) n ≡ false = ground arith in
      rw (small, ensure_past r (n * 2) v (omega arith) past)

  decodes :
      (n : ℤ) (bytes text : List ℕ)
      → drop r.pos_ r.bytes ≡ bytes
      → utf16le_to_utf8 bytes n ≡ converted text
      → decoded n r ≡ (ok text, r)
  unfolding decoded
  decodes n bytes text e run = rw (decoded, e, run)

  -- For a valid reader with code units of sixteen bits at its cursor, 715827882 at most and stored with the low byte
  -- first, `read_utf16` of their number returns a string and moves behind them; `utf8_to_utf16` of the string is the
  -- code units before the first zero.
  pub read_utf16-utf8_to_utf16 :
      (us tail : List ℕ)
      → All IsUnit us
      → length us ≤ 715827882
      → drop r.pos_ r.bytes ≡ unit_bytes us ++ tail
      → (text : List ℕ) × (read_utf16 (pos (length us)) r ≡ (ok text, moved r (length us * 2)))
        × (utf8_to_utf16 text ≡ until_nul us)
  unfolding read_utf16
  read_utf16-utf8_to_utf16 us tail h n e =
      let small : leb (2 ^ 30) (length us) ≡ false = ground arith in
      let left : size r - r.pos_ ≡ length us * 2 + length tail = omega (
        arith,
        length-drop r.pos_ r.bytes,
        ap length e,
        length-append (unit_bytes us) tail,
        length-unit_bytes us,
      ) in
      let fits : r.pos_ + length us * 2 ≤ size r = omega (arith, v.inside) in
      let (text, run, back) = utf8_to_utf16-utf16le_to_utf8 us tail h n in
      (
        text,
        rw (
          small,
          ensure_within r (length us * 2) v fits,
          ◌>>=◌,
          decodes (pos (length us)) _ text e run,
          advance,
          pos_within r (length us * 2) v fits,
        ),
        back,
      )

-- A count of 2 ^ 30 or more overflows an int.
read_utf16_wide : (r : Reader) (n : ℕ) → 2 ^ 30 ≤ n → read_utf16 (pos n) r ≡ (undefined, r)
unfolding read_utf16
read_utf16_wide r n h = let wide : leb (2 ^ 30) n ≡ true = ground arith in rw wide
