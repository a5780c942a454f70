-- ===== src/Varint.antt =====
-- common/varint.h and varint.cpp of src/edgar/explorgdb: the encoders of the two variable-length
-- integers, into a vector and into a caller's buffer. The decoders are `BinaryReader.read_varuint` and
-- `read_varint`. An int64_t is an integer; `none` is the signed overflow of negating the least one.

pub mod Buffer
pub mod SignedBuffer
pub mod Double
pub mod Encode
pub mod RoundTrip
pub mod Signed
use fast_gdb.Base.{
  ℕ, zero, suc, ◌+◌, ◌/◌, ◌%◌, ◌^◌, ◌≤◌, ◌<◌, bit_and, bit_or, Bool, true, false, List, [], ◌∷◌,
  ◌++◌, Option, none, some, arith, leb, ◌==◌, if◌then◌else◌, set, take, drop,
}
use fast_gdb.Base.Int.{ℤ, pos, negsuc}
use fast_gdb.Base.Order.{lt_wf}
use mathlib.Core.Logic.{dite}
use mathlib.Core.WellFounded.{Acc}
use native.Mathlib.Decide.{dec_lt, dec_le}

pub shift_falls : (v : ℕ) → 0 < v / 128 → v / 128 < v
shift_falls v h = omega arith

-- The do loop of `encode_varuint`.
pub varuint_bytes : List ℕ → (value : ℕ) → Acc ◌<◌ value → List ℕ
varuint_bytes out value (Acc.intro _ smaller) =
    let byte = bit_and value 0x7f in
    dite (dec_lt 0 (value / 128))
      (λ more.
        varuint_bytes (out ++ (bit_or byte 0x80 ∷ [])) (value / 128)
          (smaller _ (shift_falls value more)))
      (λ _. out ++ (byte ∷ []))

unfoldable pub encode_varuint : ℕ → List ℕ
unfolding varuint_bytes lt_wf dec_lt
encode_varuint value = varuint_bytes [] value (lt_wf.apply value)

pub shift_falls_below : (v : ℕ) → 0 < v → v / 128 < v
shift_falls_below v h = omega arith

-- The while loop of `encode_varint`.
pub varint_bytes : List ℕ → (value : ℕ) → Acc ◌<◌ value → List ℕ
varint_bytes out value (Acc.intro _ smaller) =
    dite (dec_lt 0 value)
      (λ more.
        let byte = bit_and value 0x7f in
        let byte' = if value / 128 == 0 then byte else bit_or byte 0x80 in
        varint_bytes (out ++ (byte' ∷ [])) (value / 128) (smaller _ (shift_falls_below value more)))
      (λ _. out)

-- `value` is the magnitude, once `value *= sign` is done.
unfoldable pub varint_tail : Bool → ℕ → List ℕ
unfolding varint_bytes lt_wf dec_lt
varint_tail negative value =
    let first = bit_and value 0x3f in
    let first' = if negative then bit_or first 0x40 else first in
    let value' = value / 64 in
    if value' == 0
    then first' ∷ []
    else varint_bytes (bit_or first' 0x80 ∷ []) value' (lt_wf.apply value')

unfoldable pub encode_varint : ℤ → Option (List ℕ)
encode_varint (pos n) = some (varint_tail false n)
encode_varint (negsuc n) = if suc n == 2 ^ 63 then none else some (varint_tail true (suc n))

-- `encode_varuint_to`: the bytes go to `dst`, and the count of them is returned.
pub varuint_to_loop : List ℕ → ℕ → (value : ℕ) → Acc ◌<◌ value → ℕ × List ℕ
varuint_to_loop dst n value (Acc.intro _ smaller) =
    let byte = bit_and value 0x7f in
    dite (dec_lt 0 (value / 128))
      (λ more.
        varuint_to_loop (set dst n (bit_or byte 0x80)) (n + 1) (value / 128)
          (smaller _ (shift_falls value more)))
      (λ _. (n + 1, set dst n byte))

pub encode_varuint_to : List ℕ → ℕ → ℕ × List ℕ
unfolding varuint_to_loop lt_wf dec_lt
encode_varuint_to dst value = varuint_to_loop dst 0 value (lt_wf.apply value)

-- `encode_varuint_at`, on the buffer from `offset` on.
pub encode_varuint_at : List ℕ → ℕ → ℕ → ℕ × List ℕ
encode_varuint_at dst offset value =
    let (n, written) = encode_varuint_to (drop offset dst) value in (n, take offset dst ++ written)

pub shift_falls_wide : (v : ℕ) → 0x80 ≤ v → v / 128 < v
shift_falls_wide v h = omega arith

pub encoded_len_loop : ℕ → (value : ℕ) → Acc ◌<◌ value → ℕ
encoded_len_loop n value (Acc.intro _ smaller) =
    dite (dec_le 0x80 value)
      (λ more. encoded_len_loop (n + 1) (value / 128) (smaller _ (shift_falls_wide value more)))
      (λ _. n)

pub varuint_encoded_len : ℕ → ℕ
unfolding encoded_len_loop lt_wf dec_le
varuint_encoded_len value = encoded_len_loop 1 value (lt_wf.apply value)

-- The while loop of `encode_varint_to`.
pub varint_to_loop : List ℕ → ℕ → (abs_val : ℕ) → Acc ◌<◌ abs_val → ℕ × List ℕ
varint_to_loop dst n abs_val (Acc.intro _ smaller) =
    dite (dec_lt 0 abs_val)
      (λ more.
        let byte = bit_and abs_val 0x7f in
        let byte' = if abs_val / 128 == 0 then byte else bit_or byte 0x80 in
        varint_to_loop (set dst n byte') (n + 1) (abs_val / 128)
          (smaller _ (shift_falls_below abs_val more)))
      (λ _. (n, dst))

unfoldable pub varint_to_tail : List ℕ → ℕ → ℕ → ℕ × List ℕ
unfolding varint_to_loop lt_wf dec_lt
varint_to_tail dst sign_bit abs_val =
    let first_data = bit_and abs_val 0x3f in
    let abs_val' = abs_val / 64 in
    if abs_val' == 0
    then (1, set dst 0 (bit_or first_data sign_bit))
    else varint_to_loop (set dst 0 (bit_or (bit_or first_data sign_bit) 0x80)) 1 abs_val'
        (lt_wf.apply abs_val')

unfoldable pub encode_varint_to : List ℕ → ℤ → Option (ℕ × List ℕ)
encode_varint_to dst (pos n) = some (varint_to_tail dst 0 n)
encode_varint_to dst (negsuc n) =
    if suc n == 2 ^ 63 then none else some (varint_to_tail dst 0x40 (suc n))

-- `write_u16_le` and `write_u32_le`.
pub write_u16_le : List ℕ → ℕ → List ℕ
write_u16_le dst value = set (set dst 0 (bit_and value 0xff)) 1 (bit_and (value / 2 ^ 8) 0xff)

pub write_u32_le : List ℕ → ℕ → List ℕ
write_u32_le dst value =
    set
      (set (set (set dst 0 (bit_and value 0xff)) 1 (bit_and (value / 2 ^ 8) 0xff)) 2
        (bit_and (value / 2 ^ 16) 0xff))
      3 (bit_and (value / 2 ^ 24) 0xff)

-- The loop of `write_f64_le`, with `n` rounds left.
pub f64_loop : ℕ → ℕ → List ℕ → ℕ → List ℕ
f64_loop zero i dst bits = dst
f64_loop (suc n) i dst bits = f64_loop n (i + 1) (set dst i (bit_and bits 0xff)) (bits / 2 ^ 8)

-- `memcpy` gives the bit pattern of the double, here a parameter.
pub write_f64_le : {D : Type 0} → (D → ℕ) → List ℕ → D → List ℕ
unfolding f64_loop
write_f64_le bits_of dst value = f64_loop 8 0 dst (bits_of value)
