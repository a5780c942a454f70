-- ===== src/Varint/Buffer.antt =====
-- The encoder into a caller's buffer and the length that is computed without encoding, against the
-- encoder into a vector.
use fast_gdb.Base.{
  ℕ, zero, suc, ◌+◌, ◌/◌, ◌^◌, ◌≤◌, ◌<◌, ◌≡◌, refl, ap, ap₂, ◌∙◌, bit_and, bit_or, List, [], ◌∷◌,
  ◌++◌, arith, length, length-append, length-drop, set, take, drop, drop-drop,
}
use fast_gdb.Base.Order.{lt_wf}
use fast_gdb.Varint.{
  shift_falls, varuint_bytes, encode_varuint, varuint_to_loop, encode_varuint_to, encode_varuint_at,
  encoded_len_loop, varuint_encoded_len,
}
use mathlib.Core.Logic.{dif_pos, dif_neg}
use mathlib.Core.WellFounded.{Acc}
use native.Mathlib.Bridge.{le_prop}
use native.Mathlib.Decide.{dec_lt}

pub set-append_length :
    (out : List ℕ) (x b : ℕ) (rest : List ℕ)
    → set (out ++ (x ∷ rest)) (length out) b ≡ (out ++ (b ∷ [])) ++ rest
set-append_length [] x b rest = refl
set-append_length (y ∷ out) x b rest = ap (λ t. y ∷ t) (set-append_length out x b rest)

pub length_snoc : (out : List ℕ) (b : ℕ) → length out + 1 ≡ length (out ++ (b ∷ []))
length_snoc out b = omega (arith, length-append out (b ∷ []))

-- The buffer after the loop: what the vector would hold, over what the buffer held behind it.
abbrev Filled : List ℕ → List ℕ → List ℕ → ℕ × List ℕ → Type 0
Filled out rest result written =
    (c : ℕ) × (length result ≡ length out + suc c)
    × (written ≡ (length result, result ++ drop (suc c) rest))

last_round :
    (out : List ℕ) (x b : ℕ) (rest : List ℕ)
    → Filled out
        (x ∷ rest)
        (out ++ (b ∷ []))
        (length out + 1, set (out ++ (x ∷ rest)) (length out) b)
last_round out x b rest = (
  0,
  omega (arith, length_snoc out b),
  ap₂ (λ n t. (n, t)) (length_snoc out b) (set-append_length out x b rest),
)

next_round :
    (out : List ℕ) (x b : ℕ) (rest result : List ℕ) (written : ℕ × List ℕ)
    → Filled (out ++ (b ∷ [])) rest result written
    → Filled out (x ∷ rest) result written
next_round out x b rest result written (c, n, e) = (suc c, omega (arith, n, length_snoc out b), e)

-- One round of the three loops.
module _ (value : ℕ) (smaller : (y : ℕ) → y < value → Acc ◌<◌ y) where
  abbrev low : ℕ
  low = bit_and value 0x7f

  abbrev marked : ℕ
  marked = bit_or (bit_and value 0x7f) 0x80

  module _ (p : 0 < value / 128) where
    abbrev rest_acc : Acc ◌<◌ (value / 128)
    rest_acc = smaller (value / 128) (shift_falls value p)

    bytes_more :
        (out : List ℕ)
        → varuint_bytes out value (Acc.intro _ smaller)
          ≡ varuint_bytes (out ++ (marked ∷ [])) (value / 128) rest_acc
    unfolding varuint_bytes
    bytes_more out = rw (dif_pos _ le_prop p)

    to_more :
        (dst : List ℕ) (n : ℕ)
        → varuint_to_loop dst n value (Acc.intro _ smaller)
          ≡ varuint_to_loop (set dst n marked) (n + 1) (value / 128) rest_acc
    unfolding varuint_to_loop
    to_more dst n = rw (dif_pos _ le_prop p)

    len_more :
        (n : ℕ)
        → encoded_len_loop n value (Acc.intro _ smaller)
          ≡ encoded_len_loop (n + 1) (value / 128) rest_acc
    unfolding encoded_len_loop
    len_more n =
        let q : 0x80 ≤ value = omega arith in
        rw (dif_pos _ le_prop q)
          (ap (λ t. encoded_len_loop (n + 1) (value / 128) (smaller (value / 128) t)) (le_prop _ _))

  module _ (p : ¬ (0 < value / 128)) where
    bytes_last : (out : List ℕ) → varuint_bytes out value (Acc.intro _ smaller) ≡ out ++ (low ∷ [])
    unfolding varuint_bytes
    bytes_last out = rw (dif_neg _ p)

    to_last :
        (dst : List ℕ) (n : ℕ)
        → varuint_to_loop dst n value (Acc.intro _ smaller) ≡ (n + 1, set dst n low)
    unfolding varuint_to_loop
    to_last dst n = rw (dif_neg _ p)

    len_last : (n : ℕ) → encoded_len_loop n value (Acc.intro _ smaller) ≡ n
    unfolding encoded_len_loop
    len_last n = rw (dif_neg _ (λ (q : 0x80 ≤ value). absurd (p (omega arith))))

varuint_to_loop-Filled :
    (k : ℕ) (out rest : List ℕ) (value : ℕ) (w : Acc ◌<◌ value)
    → value < 128 ^ suc k
    → k < length rest
    → Filled out rest
        (varuint_bytes out value w)
        (varuint_to_loop (out ++ rest) (length out) value w)
varuint_to_loop-Filled k out [] value w h n = absurd (omega arith)
varuint_to_loop-Filled zero out (x ∷ rest) value (Acc.intro _ smaller) h n =
    let stop : ¬ (0 < value / 128) = omega arith in
    rw (bytes_last value smaller stop, to_last value smaller stop)
      (last_round out x (low value smaller) rest)
varuint_to_loop-Filled (suc k) out (x ∷ rest) value (Acc.intro _ smaller) h n =
    let b : ℕ = marked value smaller in
    elim (dec_lt 0 (value / 128)) [
      | yes p ↦
          rw
            (
              bytes_more value smaller p,
              to_more value smaller p,
              set-append_length out x b rest,
              length_snoc out b,
            )
            (next_round out x b rest _ _ (
              varuint_to_loop-Filled k (out ++ (b ∷ [])) rest (value / 128)
                (rest_acc value smaller p) (omega arith) (omega arith)))
      | no p ↦
          rw (bytes_last value smaller p, to_last value smaller p)
            (last_round out x (low value smaller) rest)
    ]

encoded_len_loop-length :
    (k : ℕ) (out : List ℕ) (value : ℕ) (w : Acc ◌<◌ value)
    → value < 128 ^ suc k
    → encoded_len_loop (length out + 1) value w ≡ length (varuint_bytes out value w)
encoded_len_loop-length zero out value (Acc.intro _ smaller) h =
    let stop : ¬ (0 < value / 128) = omega arith in
    rw (bytes_last value smaller stop, len_last value smaller stop)
      (length_snoc out (low value smaller))
encoded_len_loop-length (suc k) out value (Acc.intro _ smaller) h =
    let b : ℕ = marked value smaller in
    elim (dec_lt 0 (value / 128)) [
      | yes p ↦
          rw (bytes_more value smaller p, len_more value smaller p, length_snoc out b)
            (encoded_len_loop-length k (out ++ (b ∷ [])) (value / 128) (rest_acc value smaller p)
              (omega arith))
      | no p ↦
          rw (bytes_last value smaller p, len_last value smaller p)
            (length_snoc out (low value smaller))
    ]

of_Filled :
    (dst result : List ℕ) (written : ℕ × List ℕ)
    → Filled [] dst result written
    → written ≡ (length result, result ++ drop (length result) dst)
of_Filled dst result written (c, n, e) =
    let n' : suc c ≡ length result = omega (arith, n) in e ∙ rw (← n') refl

-- For every uint64_t and every buffer of ten bytes or more, `encode_varuint_to` puts the bytes of
-- `encode_varuint` at the front of the buffer, leaves what is behind them as it was, and returns their
-- count, which is also `varuint_encoded_len`.
pub encode_varuint_to-encode_varuint :
    (dst : List ℕ) (value : ℕ)
    → value < 2 ^ 64
    → 10 ≤ length dst
    → (encode_varuint_to dst value ≡ (
      length (encode_varuint value),
      encode_varuint value ++ drop (length (encode_varuint value)) dst,
    ))
      × (varuint_encoded_len value ≡ length (encode_varuint value))
unfolding encode_varuint encode_varuint_to varuint_encoded_len
encode_varuint_to-encode_varuint dst value h n = (
  of_Filled dst (varuint_bytes [] value (lt_wf.apply value))
      (varuint_to_loop dst 0 value (lt_wf.apply value))
      (varuint_to_loop-Filled 9 [] dst value (lt_wf.apply value) (omega arith) (omega arith)),
  encoded_len_loop-length 9 [] value (lt_wf.apply value) (omega arith),
)

-- For every uint64_t and an offset with ten bytes or more behind it, `encode_varuint_at` replaces the bytes from the
-- offset on by those of `encode_varuint`, leaves the others, and returns their count.
encode_varuint_at-encode_varuint :
    (dst : List ℕ) (offset value : ℕ)
    → value < 2 ^ 64
    → offset + 10 ≤ length dst
    → encode_varuint_at dst offset value ≡ (
      length (encode_varuint value),
      take offset dst
          ++ (encode_varuint value ++ drop (offset + length (encode_varuint value)) dst),
    )
unfolding encode_varuint_at
encode_varuint_at-encode_varuint dst offset value h n = rw (
  (encode_varuint_to-encode_varuint (drop offset dst) value h
      (omega (arith, length-drop offset dst))).0,
  drop-drop (length (encode_varuint value)) offset dst,
)
