-- ===== src/BinaryReader/Floats.antt =====
-- `read_f32` and `read_f64`: the bytes that are handed on, and where too few are left.
use fast_gdb.Base.{
  ℕ, ◌+◌, ◌%◌, ◌^◌, ◌≤◌, ◌<◌, ◌≡◌, List, arith, ltb, if◌then◌else◌, take, drop, Bool-cases, inl,
  inr,
}
use fast_gdb.BinaryReader.{
  Outcome, ok, out_of_range, Reader, size, ◌>>=◌, advance, copied, read_f32, read_f64,
}

abbrev pub float_within : {F : Type 0} → (List ℕ → F) → ℕ → Reader → Outcome F × Reader
float_within of_bytes n r =
    if ltb (size r) (r.pos_ + n)
    then (out_of_range, r)
    else (ok (of_bytes (take n (drop r.pos_ r.bytes))), record r { pos_ = r.pos_ + n })

module _ {F : Type 0} (of_bytes : List ℕ → F) (r : Reader) (inside : r.pos_ ≤ size r)
    (allocated : size r < 2 ^ 63) where
  -- With the cursor inside a buffer of fewer than 2 ^ 63 bytes, the two reads move behind four and eight bytes and
  -- return what these mean, or throw with the cursor unmoved where fewer are left.
  pub reads-float_within :
      (read_f32 of_bytes r ≡ float_within of_bytes 4 r)
      × (read_f64 of_bytes r ≡ float_within of_bytes 8 r)
  unfolding read_f32 read_f64
  reads-float_within =
      let e : (r.pos_ + 4) % 2 ^ 64 ≡ r.pos_ + 4 = omega arith in
      let e' : (r.pos_ + 8) % 2 ^ 64 ≡ r.pos_ + 8 = omega arith in
      (
        elim (Bool-cases (ltb (size r) (r.pos_ + 4))) [
          | inl past ↦ rw (e, past)
          | inr fits ↦ rw (e, fits, ◌>>=◌, copied, fits, advance, e)
        ],
        elim (Bool-cases (ltb (size r) (r.pos_ + 8))) [
          | inl past ↦ rw (e', past)
          | inr fits ↦ rw (e', fits, ◌>>=◌, copied, fits, advance, e')
        ],
      )
