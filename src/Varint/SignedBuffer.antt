-- ===== src/Varint/SignedBuffer.antt =====
-- The signed encoder into a caller's buffer, against the encoder into a vector, and the double that is written.
use fast_gdb.Base.{
  ℕ, zero, suc, ◌+◌, ◌/◌, ◌%◌, ◌^◌, ◌≤◌, ◌<◌, ◌≡◌, refl, sym, ap, ◌∙◌, bit_and, bit_or, List, [],
  ◌∷◌, ◌++◌, Bool, true, false, some, arith, length, set, drop, ◌==◌, if◌then◌else◌, Bool-cases,
  inl, inr,
}
use fast_gdb.Base.Bits.{bit_or_shifted, bit_and_0x3f}
use fast_gdb.Base.Int.{ℤ, pos, negsuc, abs}
use fast_gdb.Base.Order.{lt_wf}
use fast_gdb.Varint.{
  shift_falls_below, varint_bytes, varint_tail, encode_varint, varint_to_loop, varint_to_tail,
  encode_varint_to,
}
use fast_gdb.Varint.Buffer.{set-append_length, length_snoc}
use mathlib.Core.Option
use mathlib.Core.Logic.{dif_pos, dif_neg}
use mathlib.Core.WellFounded.{Acc}
use native.Mathlib.Bridge.{le_prop}
use native.Mathlib.Decide.{dec_lt}

-- One round of the two loops.
module _ (value : ℕ) (smaller : (y : ℕ) → y < value → Acc ◌<◌ y) where
  abbrev byte : ℕ
  byte = if value / 128 == 0 then bit_and value 0x7f else bit_or (bit_and value 0x7f) 0x80

  module _ (p : 0 < value) where
    abbrev rest_acc : Acc ◌<◌ (value / 128)
    rest_acc = smaller (value / 128) (shift_falls_below value p)

    bytes_more :
        (out : List ℕ)
        → varint_bytes out value (Acc.intro _ smaller)
          ≡ varint_bytes (out ++ (byte ∷ [])) (value / 128) rest_acc
    unfolding varint_bytes
    bytes_more out = rw (dif_pos _ le_prop p)

    to_more :
        (dst : List ℕ) (n : ℕ)
        → varint_to_loop dst n value (Acc.intro _ smaller)
          ≡ varint_to_loop (set dst n byte) (n + 1) (value / 128) rest_acc
    unfolding varint_to_loop
    to_more dst n = rw (dif_pos _ le_prop p)

  module _ (p : ¬ (0 < value)) where
    bytes_done : (out : List ℕ) → varint_bytes out value (Acc.intro _ smaller) ≡ out
    unfolding varint_bytes
    bytes_done out = rw (dif_neg _ p)

    to_done : (dst : List ℕ) (n : ℕ) → varint_to_loop dst n value (Acc.intro _ smaller) ≡ (n, dst)
    unfolding varint_to_loop
    to_done dst n = rw (dif_neg _ p)

-- The buffer after the loop: what the vector would hold, over what the buffer held behind it.
abbrev Written : List ℕ → List ℕ → List ℕ → ℕ × List ℕ → Type 0
Written out rest result written =
    (c : ℕ) × (length result ≡ length out + c) × (written ≡ (length result, result ++ drop c rest))

one_more :
    (out : List ℕ) (x b : ℕ) (rest result : List ℕ) (written : ℕ × List ℕ)
    → Written (out ++ (b ∷ [])) rest result written
    → Written out (x ∷ rest) result written
one_more out x b rest result written (c, n, e) = (suc c, omega (arith, n, length_snoc out b), e)

varint_to_loop-Written :
    (k : ℕ) (out rest : List ℕ) (value : ℕ) (w : Acc ◌<◌ value)
    → value < 128 ^ k
    → k ≤ length rest
    → Written out rest
        (varint_bytes out value w)
        (varint_to_loop (out ++ rest) (length out) value w)
varint_to_loop-Written zero out rest value (Acc.intro _ smaller) h n =
    let stop : ¬ (0 < value) = omega arith in
    rw (bytes_done value smaller stop, to_done value smaller stop) (0, omega arith, refl)
varint_to_loop-Written (suc k) out [] value w h n = absurd (omega arith)
varint_to_loop-Written (suc k) out (x ∷ rest) value (Acc.intro _ smaller) h n =
    let b : ℕ = byte value smaller in
    elim (dec_lt 0 value) [
      | yes p ↦
          rw
            (
              bytes_more value smaller p,
              to_more value smaller p,
              set-append_length out x b rest,
              length_snoc out b,
            )
            (one_more out x b rest _ _ (
              varint_to_loop-Written k (out ++ (b ∷ [])) rest (value / 128)
                (rest_acc value smaller p) (omega arith) (omega arith)))
      | no p ↦ rw (bytes_done value smaller p, to_done value smaller p) (0, omega arith, refl)
    ]

abbrev sign_bit : Bool → ℕ
sign_bit negative = if negative then 0x40 else 0

first_or :
    (negative : Bool) (m : ℕ)
    → bit_or (bit_and m 0x3f) (sign_bit negative)
      ≡ (if negative then bit_or (bit_and m 0x3f) 0x40 else bit_and m 0x3f)
first_or true m = refl
first_or false m = rw bit_and_0x3f (bit_or_shifted 6 (m % 64) 0 (omega arith) ∙ omega arith)

-- The buffer with the bytes at its front, and their count.
abbrev pub filled : List ℕ → List ℕ → ℕ × List ℕ
filled dst result = (length result, result ++ drop (length result) dst)

of_Written :
    (x b : ℕ) (dst result : List ℕ) (written : ℕ × List ℕ)
    → Written (b ∷ []) dst result written
    → written ≡ filled (x ∷ dst) result
of_Written x b dst result written (c, n, e) =
    let n' : length result ≡ suc c = omega (arith, n) in
    e ∙ ap (λ d. (length result, result ++ d)) (ap (λ (k : ℕ). drop k (x ∷ dst)) (sym n'))

varint_to_tail-filled :
    (x : ℕ) (dst : List ℕ) (negative : Bool) (m : ℕ)
    → m < 2 ^ 64
    → 9 ≤ length dst
    → varint_to_tail (x ∷ dst) (sign_bit negative) m ≡ filled (x ∷ dst) (varint_tail negative m)
unfolding varint_to_tail varint_tail
varint_to_tail-filled x dst negative m h n = elim (Bool-cases (m / 64 == 0)) [
  | inl short ↦ rw (short, first_or negative m)
  | inr long ↦
      let b : ℕ = bit_or (if negative then bit_or (bit_and m 0x3f) 0x40 else bit_and m 0x3f) 0x80 in
      rw (long, first_or negative m)
        (of_Written x b dst _ _
          (varint_to_loop-Written 9 (b ∷ []) dst (m / 64) (lt_wf.apply (m / 64)) (omega arith) n))
]

-- For every int64_t and every buffer of ten bytes or more, `encode_varint_to` puts the bytes of `encode_varint` at the
-- front of the buffer, leaves what is behind them as it was, and returns their count; where one of the two negates the
-- least int64_t, which is undefined, so does the other.
pub encode_varint_to-encode_varint :
    (dst : List ℕ) (value : ℤ)
    → abs value ≤ 2 ^ 63
    → 10 ≤ length dst
    → encode_varint_to dst value ≡ Option.map (filled dst) (encode_varint value)
unfolding encode_varint_to encode_varint
encode_varint_to-encode_varint [] value h n = absurd (omega arith)
encode_varint_to-encode_varint (x ∷ dst) (pos m) h n =
    ap some (varint_to_tail-filled x dst false m (omega arith) (omega arith))
encode_varint_to-encode_varint (x ∷ dst) (negsuc m) h n = elim (Bool-cases (suc m == 2 ^ 63)) [
  | inl least ↦ rw least
  | inr other ↦
      rw other (ap some (varint_to_tail-filled x dst true (suc m) (omega arith) (omega arith)))
]
