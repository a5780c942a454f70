-- ===== src/Varint/Double.antt =====
-- `write_f64_le` against `read_f64`.
use fast_gdb.Base.{
  ℕ, zero, suc, ◌/◌, ◌%◌, ◌^◌, ◌≤◌, ◌<◌, ◌≡◌, refl, ◌∙◌, List, [], ◌∷◌, ◌++◌, arith, length,
  length-append, length-drop, drop, ltb, false,
}
use fast_gdb.Base.Bits.{bit_and_0xff}
use fast_gdb.BinaryReader.{ok, Reader, read_f64}
use fast_gdb.BinaryReader.Floats.{reads-float_within}
use fast_gdb.Varint.{f64_loop, write_f64_le}
use fast_gdb.Varint.Buffer.{set-append_length, length_snoc}
use mathlib.Core.List.{append_assoc}

-- The low `n` bytes of a pattern, the lowest first.
abbrev pub le_bytes : ℕ → ℕ → List ℕ
le_bytes zero bits = []
le_bytes (suc n) bits = bits % 256 ∷ le_bytes n (bits / 256)

f64_loop-le_bytes :
    (n : ℕ) (out rest : List ℕ) (bits : ℕ)
    → n ≤ length rest
    → f64_loop n (length out) (out ++ rest) bits ≡ out ++ (le_bytes n bits ++ drop n rest)
unfolding f64_loop
f64_loop-le_bytes zero out rest bits h = refl
f64_loop-le_bytes (suc n) out [] bits h = absurd (omega arith)
f64_loop-le_bytes (suc n) out (x ∷ rest) bits h =
    let b : ℕ = bits % 256 in
    rw (bit_and_0xff, set-append_length out x b rest, length_snoc out b)
      (f64_loop-le_bytes n (out ++ (b ∷ [])) rest (bits / 256) (omega arith)
        ∙ append_assoc out (b ∷ []) (le_bytes n (bits / 256) ++ drop n rest))

module _ {D : Type 0} (bits_of : D → ℕ) (of_bytes : List ℕ → D) where
  -- Where the bytes of a double, as they lie in memory, give back the double, `read_f64` at the front of a buffer of at
  -- least eight and fewer than 2 ^ 63 bytes returns the double that `write_f64_le` put there, and moves behind it.
  read_f64-write_f64_le :
      ((value : D) → of_bytes (le_bytes 8 (bits_of value)) ≡ value)
      → (dst : List ℕ) (value : D) → 8 ≤ length dst
      → length dst < 2 ^ 63
      → read_f64 of_bytes (record { bytes = write_f64_le bits_of dst value; pos_ = 0 })
        ≡ (ok value, record { bytes = write_f64_le bits_of dst value; pos_ = 8 })
  unfolding write_f64_le
  read_f64-write_f64_le back dst value h n =
      let bytes : List ℕ = le_bytes 8 (bits_of value) in
      let put : f64_loop 8 0 dst (bits_of value) ≡ bytes ++ drop 8 dst =
        f64_loop-le_bytes 8 [] dst (bits_of value) h in
      let count : length (bytes ++ drop 8 dst) ≡ length dst =
        omega (arith, length-append bytes (drop 8 dst), length-drop 8 dst) in
      let r : Reader = record { bytes = bytes ++ drop 8 dst; pos_ = 0 } in
      let fits : ltb (length (bytes ++ drop 8 dst)) 8 ≡ false = ground (arith, count) in
      rw put (
        (reads-float_within of_bytes r (omega arith) (omega (arith, count))).1
        ∙ rw (fits, back value))
