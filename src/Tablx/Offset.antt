-- ===== src/Tablx/Offset.antt =====
-- `read_offset` against the little-endian value of the entry.
use fast_gdb.Base.{
  refl, ℕ, suc, ◌+◌, ◌*◌, ◌%◌, ◌^◌, ◌≤◌, ◌<◌, ◌≡◌, ◌↔◌, ◌⊎◌, inl, inr, sym, ◌==◌, if◌then◌else◌, ap,
  ◌∙◌, bit_or, some, arith, get_elem?, take, drop,
}
use fast_gdb.Base.Bits.{bit_or_shifted}
use fast_gdb.BinaryReader.{Outcome, ok, Reader, size}
use fast_gdb.BinaryReader.Bounds.{
  IsValid, ByteAt, byte_at_lem, le_value, or_four_bytes, le_value-get,
}
use fast_gdb.Tablx.{read_offset, four_bytes}

-- The value of the `k` bytes at `start` behind the cursor.
abbrev pub value_at : Reader → ℕ → ℕ → ℕ
value_at r start k = le_value (take k (drop (r.pos_ + start) r.bytes))

value_step :
    (r : Reader) (start next n : ℕ) {b : ℕ}
    → next ≡ start + 1
    → get_elem? r.bytes (r.pos_ + start) ≡ some b
    → value_at r start (suc n) ≡ b + 256 * value_at r next n
value_step r start next n p e = rw p (le_value-get r start n e)

none_value : (r : Reader) (n : ℕ) → value_at r n 0 ≡ 0
unfolding le_value
none_value r n = refl

module _ (r : Reader) (start : ℕ) where
  four_value :
      {b0 b1 b2 b3 : ℕ}
      → get_elem? r.bytes (r.pos_ + start) ≡ some b0
      → get_elem? r.bytes (r.pos_ + (start + 1)) ≡ some b1
      → get_elem? r.bytes (r.pos_ + (start + 2)) ≡ some b2
      → get_elem? r.bytes (r.pos_ + (start + 3)) ≡ some b3
      → (n : ℕ)
      → value_at r start (suc (suc (suc (suc n))))
        ≡ b0 + b1 * 2 ^ 8 + b2 * 2 ^ 16 + b3 * 2 ^ 24 + value_at r (start + 4) n * 2 ^ 32
  four_value {b0} {b1} {b2} {b3} e0 e1 e2 e3 n =
      let p0 : value_at r start (suc (suc (suc (suc n))))
          ≡ b0 + 256 * value_at r (start + 1) (suc (suc (suc n))) =
        value_step r start (start + 1) (suc (suc (suc n))) refl e0 in
      let p1 : value_at r (start + 1) (suc (suc (suc n)))
          ≡ b1 + 256 * value_at r (start + 2) (suc (suc n)) =
        value_step r (start + 1) (start + 2) (suc (suc n)) (omega arith) e1 in
      let p2 : value_at r (start + 2) (suc (suc n)) ≡ b2 + 256 * value_at r (start + 3) (suc n) =
        value_step r (start + 2) (start + 3) (suc n) (omega arith) e2 in
      let p3 : value_at r (start + 3) (suc n) ≡ b3 + 256 * value_at r (start + 4) n =
        value_step r (start + 3) (start + 4) n (omega arith) e3 in
      omega arith

  four_bytes_lem :
      ByteAt r start
      → ByteAt r (start + 1)
      → ByteAt r (start + 2)
      → ByteAt r (start + 3)
      → four_bytes start r ≡ (ok (value_at r start 4), r)
  four_bytes_lem (b0, h0, e0, at0) (b1, h1, e1, at1) (b2, h2, e2, at2) (b3, h3, e3, at3) =
      let p : value_at r start 4
          ≡ b0 + b1 * 2 ^ 8 + b2 * 2 ^ 16 + b3 * 2 ^ 24 + value_at r (start + 4) 0 * 2 ^ 32 =
        four_value e0 e1 e2 e3 0 in
      rw (at0, at1, at2, at3)
        (ap (λ t. (ok t, r))
          (omega (arith, or_four_bytes b0 b1 b2 b3 h0 h1 h2, none_value r (start + 4))))

four_at :
    (r : Reader) (start : ℕ)
    → IsValid r
    → r.pos_ + (start + 4) ≤ size r
    → four_bytes start r ≡ (ok (value_at r start 4), r)
four_at r start v h =
    four_bytes_lem r start (byte_at_lem r start v (omega arith))
      (byte_at_lem r (start + 1) v (omega arith)) (byte_at_lem r (start + 2) v (omega arith))
      (byte_at_lem r (start + 3) v (omega arith))

-- The value that an entry of six bytes is read as: the byte at 4 is lost.
abbrev pub six_value : Reader → ℕ → ℕ
six_value r start = value_at r start 4 + value_at r (start + 5) 1 * 2 ^ 40

module _ (r : Reader) (start : ℕ) (v : IsValid r) where
  offset_five :
      r.pos_ + (start + 5) ≤ size r
      → ByteAt r start
      → read_offset start 5 r ≡ (ok (value_at r start 5), r)
  unfolding read_offset
  offset_five h (b0, h0, e0, at0) =
      let p : value_at r start 5 ≡ b0 + 256 * value_at r (start + 1) 4 =
        value_step r start (start + 1) 4 refl e0 in
      rw (at0, four_at r (start + 1) v (omega arith))
        (ap (λ t. (ok t, r)) (bit_or_shifted 8 b0 (value_at r (start + 1) 4) h0 ∙ omega arith))

  -- The bytes 0 to 3, all of the bytes 0 to 4, and those at 4 and 5.
  module _ (h : r.pos_ + (start + 6) ≤ size r) where
    low_four :
        ByteAt r start
        → ByteAt r (start + 1)
        → ByteAt r (start + 2)
        → ByteAt r (start + 3)
        → (n : ℕ)
        → (value_at r start 4 < 2 ^ 32)
          × (value_at r start (suc (suc (suc (suc n))))
              ≡ value_at r start 4 + value_at r (start + 4) n * 2 ^ 32)
    low_four (b0, h0, e0, _) (b1, h1, e1, _) (b2, h2, e2, _) (b3, h3, e3, _) n =
        let p = four_value r start e0 e1 e2 e3 n in
        let q : value_at r start 4 ≡ _ = four_value r start e0 e1 e2 e3 0 in
        let z = none_value r (start + 4) in (omega arith, omega arith)

    parts :
        (n : ℕ)
        → (value_at r start 4 < 2 ^ 32)
          × (value_at r start (suc (suc (suc (suc n))))
              ≡ value_at r start 4 + value_at r (start + 4) n * 2 ^ 32)
    parts n =
        low_four (byte_at_lem r start v (omega arith)) (byte_at_lem r (start + 1) v (omega arith))
          (byte_at_lem r (start + 2) v (omega arith)) (byte_at_lem r (start + 3) v (omega arith)) n

    offset_six :
        ByteAt r start → ByteAt r (start + 5) → read_offset start 6 r ≡ (ok (six_value r start), r)
    unfolding read_offset
    offset_six (b0, h0, e0, at0) (b5, h5, e5, at5) =
        let mid : ℕ = value_at r (start + 1) 4 in
        let whole : value_at r start 5 ≡ b0 + 256 * mid =
          value_step r start (start + 1) 4 refl e0 in
        let high : value_at r (start + 5) 1 ≡ b5 + 256 * value_at r (start + 6) 0 =
          value_step r (start + 5) (start + 6) 0 (omega arith) e5 in
        let z : value_at r (start + 6) 0 ≡ 0 = none_value r (start + 6) in
        let (small, split) = parts 1 in
        let shift : mid * 2 ^ 8 % 2 ^ 32 ≡ mid % 2 ^ 24 * 2 ^ 8 = omega arith in
        let low : bit_or b0 (mid % 2 ^ 24 * 2 ^ 8) ≡ value_at r start 4 =
          bit_or_shifted 8 b0 (mid % 2 ^ 24) h0 ∙ omega arith in
        rw (at0, four_at r (start + 1) v (omega arith), at5, shift, low)
          (ap (λ t. (ok t, r))
            (bit_or_shifted 40 (value_at r start 4) b5 (omega arith) ∙ omega arith))

    six_parts :
        ByteAt r (start + 4)
        → value_at r start 6 ≡ six_value r start + value_at r (start + 4) 1 * 2 ^ 32
    six_parts (b4, h4, e4, _) =
        let (_, all) = parts 2 in
        let two : value_at r (start + 4) 2 ≡ b4 + 256 * value_at r (start + 5) 1 =
          value_step r (start + 4) (start + 5) 1 (omega arith) e4 in
        let one : value_at r (start + 4) 1 ≡ b4 + 256 * value_at r (start + 5) 0 =
          value_step r (start + 4) (start + 5) 0 (omega arith) e4 in
        let z : value_at r (start + 5) 0 ≡ 0 = none_value r (start + 5) in omega arith

-- What an entry of `width` bytes is read as.
abbrev pub entry_value : Reader → ℕ → ℕ → ℕ
entry_value r start width = if width == 6 then six_value r start else value_at r start width

-- An entry of 4 or 5 bytes that lies inside the buffer is read as the little-endian value of its bytes,
-- and one of 6 bytes as that of its bytes without the fifth; the cursor stays where it is.
pub read_offset-entry_value :
    (r : Reader) (start width : ℕ)
    → IsValid r
    → (width ≡ 4) ⊎ (width ≡ 5) ⊎ (width ≡ 6)
    → r.pos_ + (start + width) ≤ size r
    → read_offset start width r ≡ (ok (entry_value r start width), r)
unfolding read_offset
read_offset-entry_value r start width v (inl e) h = rw e (four_at r start v (omega arith))
read_offset-entry_value r start width v (inr (inl e)) h =
    rw e (offset_five r start v (omega arith) (byte_at_lem r start v (omega arith)))
read_offset-entry_value r start width v (inr (inr e)) h = rw e (
    offset_six r start v (omega arith) (byte_at_lem r start v (omega arith))
      (byte_at_lem r (start + 5) v (omega arith)))

-- Six bytes with 0 as the fifth.
pub six_entry :
    (r : Reader) (start : ℕ)
    → IsValid r
    → r.pos_ + (start + 6) ≤ size r
    → value_at r (start + 4) 1 ≡ 0
    → six_value r start ≡ value_at r start 6
six_entry r start v h zero_byte =
    let parts = six_parts r start v h (byte_at_lem r (start + 4) v (omega arith)) in omega arith

abbrev value_of : Outcome ℕ × Reader → ℕ
value_of (ok n, r) = n
value_of (_, r) = 0

-- An entry of 6 bytes that lies inside the buffer is read as its little-endian value exactly where its fifth byte
-- is 0.
read_offset-fifth_byte :
    (r : Reader) (start : ℕ)
    → IsValid r
    → r.pos_ + (start + 6) ≤ size r
    → (read_offset start 6 r ≡ (ok (value_at r start 6), r)) ↔ (value_at r (start + 4) 1 ≡ 0)
read_offset-fifth_byte r start v h =
    let run = read_offset-entry_value r start 6 v (inr (inr refl)) h in
    let parts = six_parts r start v h (byte_at_lem r (start + 4) v (omega arith)) in
    (
      (λ e.
          let p : value_at r start 6 ≡ six_value r start = ap value_of (sym e ∙ run) in
          omega arith),
      (λ e. run ∙ ap (λ t. (ok t, r)) (omega arith)),
    )
