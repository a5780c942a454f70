-- ===== src/Rows/Checked.antt =====
-- The scan's own decoder of lengths against the cursor's.
use fast_gdb.Base.{
  ℕ, zero, suc, ◌+◌, ◌*◌, ◌%◌, ◌^◌, ◌≤◌, ◌<◌, ◌≡◌, ap, ap₂, sym, ◌∙◌, bit_or, List, [], ◌∷◌, Option,
  none, some, arith, length, drop, leb, true, false, refl,
}
use fast_gdb.Base.Bits.{bit_and_0x7f}
use fast_gdb.BinaryReader.{Outcome, ok, out_of_range, undefined, Reader, read_varuint, varuint_loop}
use fast_gdb.BinaryReader.Bounds.{IsValid}
use fast_gdb.BinaryReader.Varuint.{
  moved, Rest, read_u8_next, read_u8_end, round_more, round_last, round_wide, round_end,
  read_varuint-rounds, continues_bit, last_bit,
}
use fast_gdb.Rows.{checked_loop, read_varuint_checked}
use native.Mathlib.Decide.{dec_lt}

-- The scan has the cursor's number and the cursor's bytes behind it, and `none` where the cursor throws or its
-- shift is undefined.
pub data Agrees (bytes : List ℕ) : Option (ℕ × List ℕ) → Outcome ℕ × Reader → Type 0 where
  found :
      (v p : ℕ) (rest : List ℕ)
      → drop p bytes ≡ rest
      → p ≤ length bytes
      → Agrees bytes (some (v, rest)) (ok v, record { bytes = bytes; pos_ = p })
  cut : (r : Reader) → Agrees bytes none (out_of_range, r)
  too_wide : (r : Reader) → Agrees bytes none (undefined, r)

leb-true : (a b : ℕ) → a ≤ b → leb a b ≡ true
leb-true a b h = ground arith

leb-false : (a b : ℕ) → b < a → leb a b ≡ false
leb-false a b h = ground arith

module _ (shift ret b : ℕ) (rest : List ℕ) where
  checked_wide : 64 ≤ shift → checked_loop shift ret (b ∷ rest) ≡ none
  unfolding checked_loop
  checked_wide h = rw (leb-false shift 63 h)

  checked_last :
      shift < 64
      → b < 128
      → checked_loop shift ret (b ∷ rest) ≡ some (bit_or ret (b % 128 * 2 ^ shift % 2 ^ 64), rest)
  unfolding checked_loop
  checked_last h lo = rw (leb-true shift 63 (omega arith), last_bit b lo, bit_and_0x7f)

  checked_more :
      shift < 64
      → 128 ≤ b
      → b < 256
      → checked_loop shift ret (b ∷ rest)
        ≡ checked_loop (shift + 7) (bit_or ret (b % 128 * 2 ^ shift % 2 ^ 64)) rest
  unfolding checked_loop
  checked_more h lo hi = rw (leb-true shift 63 (omega arith), continues_bit b lo hi, bit_and_0x7f)

checked_loop-Agrees :
    (xs : List ℕ) (r : Reader) (fuel ret shift : ℕ)
    → IsValid r
    → Rest r xs
    → shift ≤ 70
    → 71 ≤ shift + 7 * fuel
    → Agrees r.bytes (checked_loop shift ret xs) (varuint_loop fuel ret shift r)
unfolding checked_loop
checked_loop-Agrees xs r zero ret shift v e h n = absurd (omega arith)
checked_loop-Agrees [] r (suc fuel) ret shift v e h n =
    rw (round_end r fuel ret shift (read_u8_end r v e)) (cut r)
checked_loop-Agrees (b ∷ xs) r (suc fuel) ret shift v e h n =
    let (read, hb, e', v') = read_u8_next r v b xs e in
    let ret' : ℕ = bit_or ret (b % 128 * 2 ^ shift % 2 ^ 64) in
    elim (dec_lt shift 64) [
      | no p ↦
          rw
            (
              checked_wide shift ret b xs (omega arith),
              round_wide r (moved r 1) fuel ret shift b read (omega arith),
            )
            (too_wide (moved r 1))
      | yes p ↦ elim (dec_lt b 128) [
        | yes q ↦
            rw (checked_last shift ret b xs p q, round_last r (moved r 1) fuel ret shift b read q p)
              (found ret' (r.pos_ + 1) xs e' v'.inside)
        | no q ↦
            rw
              (
                checked_more shift ret b xs p (omega arith) hb,
                round_more r (moved r 1) fuel ret shift b read (omega arith) hb p,
              )
              (checked_loop-Agrees xs (moved r 1) fuel ret' (shift + 7) v' e' (omega arith)
                (omega arith))
      ]
    ]

-- On every valid reader, `read_varuint_checked` on the bytes at the cursor returns the number of `read_varuint`
-- with the bytes at the cursor it leaves, and fails exactly where `read_varuint` throws or shifts by 64 or more.
pub read_varuint_checked-read_varuint :
    (r : Reader)
    → IsValid r
    → Agrees r.bytes (read_varuint_checked (drop r.pos_ r.bytes)) (read_varuint r)
unfolding read_varuint_checked
read_varuint_checked-read_varuint r v =
    rw (read_varuint-rounds r)
      (checked_loop-Agrees (drop r.pos_ r.bytes) r 11 0 0 v refl (omega arith) (omega arith))

pub Agrees-ok :
    {bytes : List ℕ} {a : Option (ℕ × List ℕ)} {o : Outcome ℕ × Reader} (v : ℕ) (r : Reader)
    → Agrees bytes a o
    → o ≡ (ok v, r)
    → a ≡ some (v, drop r.pos_ bytes)
Agrees-ok {bytes = bytes} v r (found v' p rest e _) h =
    let same : v' ≡ v = cc in
    let at : p ≡ r.pos_ = ap (λ t. t.1.pos_) h in
    ap₂ (λ t u. some (t, u)) same (sym e ∙ ap (λ t. drop t bytes) at)
Agrees-ok v r (cut r') h = cc
Agrees-ok v r (too_wide r') h = cc

pub Agrees-some :
    {bytes : List ℕ} {a : Option (ℕ × List ℕ)} {o : Outcome ℕ × Reader} (v : ℕ) (rest : List ℕ)
    → Agrees bytes a o
    → a ≡ some (v, rest)
    → (p : ℕ) × (o ≡ (ok v, record { bytes = bytes; pos_ = p }))
      × (drop p bytes ≡ rest)
      × (p ≤ length bytes)
Agrees-some {bytes = bytes} v rest (found v' p rest' e i) h =
    let same : v' ≡ v = cc in
    (p, ap (λ t. (ok t, record { bytes = bytes; pos_ = p })) same, e ∙ cc, i)
Agrees-some v rest (cut r') h = cc
Agrees-some v rest (too_wide r') h = cc
