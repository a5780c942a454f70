-- ===== src/BinaryReader/Signed.antt =====
-- `read_i16`, `read_i32` and `read_i64`, `read_f32` and `read_f64` where enough bytes are left.
use fast_gdb.Base.{ℕ, ◌+◌, ◌≤◌, ◌≡◌, ◌∙◌, refl, List, ltb, take, drop, not_lt→ltb, false}
use fast_gdb.Base.Int.{signed}
use fast_gdb.BinaryReader.{
  ok, Reader, size, read_i16, read_i32, read_i64, read_f32, read_f64, read_u8,
}
use fast_gdb.BinaryReader.Bounds.{IsValid, le_read, le_value, reads-le_read}
use fast_gdb.BinaryReader.Floats.{reads-float_within}
use fast_gdb.BinaryReader.Varuint.{moved}

-- The next `n` bytes.
abbrev pub next_bytes : ℕ → Reader → List ℕ
next_bytes n r = take n (drop r.pos_ r.bytes)

module _ (r : Reader) (v : IsValid r) where
  le_read-moved :
      (k : ℕ) → r.pos_ + k ≤ size r → le_read k r ≡ (ok (le_value (next_bytes k r)), moved r k)
  unfolding le_read
  le_read-moved k h =
      let fits : ltb (size r) (r.pos_ + k) ≡ false = not_lt→ltb (size r) (r.pos_ + k) h in
      rw fits refl

  pub read_i16-moved :
      r.pos_ + 2 ≤ size r → read_i16 r ≡ (ok (signed 15 (le_value (next_bytes 2 r))), moved r 2)
  unfolding read_i16
  read_i16-moved h = rw ((reads-le_read r v).1, le_read-moved 2 h) refl

  pub read_i32-moved :
      r.pos_ + 4 ≤ size r → read_i32 r ≡ (ok (signed 31 (le_value (next_bytes 4 r))), moved r 4)
  unfolding read_i32
  read_i32-moved h = rw ((reads-le_read r v).2, le_read-moved 4 h) refl

  pub read_i64-moved :
      r.pos_ + 8 ≤ size r → read_i64 r ≡ (ok (signed 63 (le_value (next_bytes 8 r))), moved r 8)
  unfolding read_i64
  read_i64-moved h = rw ((reads-le_read r v).5, le_read-moved 8 h) refl

  pub read_u8-moved : r.pos_ + 1 ≤ size r → read_u8 r ≡ (ok (le_value (next_bytes 1 r)), moved r 1)
  read_u8-moved h = (reads-le_read r v).0 ∙ le_read-moved 1 h

  pub read_f32-moved :
      {F : Type 0} (of_bytes : List ℕ → F)
      → r.pos_ + 4 ≤ size r
      → read_f32 of_bytes r ≡ (ok (of_bytes (next_bytes 4 r)), moved r 4)
  read_f32-moved of_bytes h =
      let fits : ltb (size r) (r.pos_ + 4) ≡ false = not_lt→ltb (size r) (r.pos_ + 4) h in
      (reads-float_within of_bytes r v.inside v.allocated).0 ∙ rw fits refl

  pub read_f64-moved :
      {F : Type 0} (of_bytes : List ℕ → F)
      → r.pos_ + 8 ≤ size r
      → read_f64 of_bytes r ≡ (ok (of_bytes (next_bytes 8 r)), moved r 8)
  read_f64-moved of_bytes h =
      let fits : ltb (size r) (r.pos_ + 8) ≡ false = not_lt→ltb (size r) (r.pos_ + 8) h in
      (reads-float_within of_bytes r v.inside v.allocated).1 ∙ rw fits refl
