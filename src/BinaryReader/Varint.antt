-- ===== src/BinaryReader/Varint.antt =====
-- `read_varint` on a sign byte followed by groups of seven bits.
use fast_gdb.Base.{
  ℕ, zero, suc, ◌+◌, ◌*◌, ◌%◌, ◌^◌, ◌≤◌, ◌<◌, ◌≡◌, refl, ap, ap₂, ◌∙◌, bit_and, bit_or, Bool, true,
  false, List, [], ◌∷◌, ◌++◌, arith, length, All, ltb, leb, ◌==◌, if◌then◌else◌,
}
use fast_gdb.Base.Bits.{bit_or_shifted, bit_and_0x7f, bit_and_0x3f}
use fast_gdb.Base.Int.{pos, neg}
use fast_gdb.BinaryReader.{ok, Reader, read_u8, varint_loop, apply_sign, read_varint}
use fast_gdb.BinaryReader.Bounds.{IsValid}
use fast_gdb.BinaryReader.Varuint.{
  groups_value, Continues, Rest, moved, move_on, read_u8_next, continues_bit, last_bit,
}
use native.Mathlib.Nat.{mul-le-mul_right}
use native.Mathlib.Numerals.{towards_suc}

-- The while loop of the decoder.
loop_stop :
    (r : Reader) (fuel b ret shift : ℕ)
    → b < 128
    → varint_loop (suc fuel) b ret shift r ≡ (ok ret, r)
unfolding varint_loop
loop_stop r fuel b ret shift h = rw (last_bit b h)

loop_step :
    (r r' : Reader) (fuel b next ret shift : ℕ)
    → 128 ≤ b
    → b < 256
    → read_u8 r ≡ (ok next, r')
    → shift < 64
    → next % 128 * 2 ^ shift < 2 ^ 64
    → varint_loop (suc fuel) b ret shift r
      ≡ varint_loop fuel next (bit_or ret (next % 128 * 2 ^ shift)) (shift + 7) r'
unfolding varint_loop
loop_step r r' fuel b next ret shift lo hi read h fits =
    let narrow : leb 64 shift ≡ false = ground arith in
    let small : leb (2 ^ 64) (next % 128 * 2 ^ shift) ≡ false = ground arith in
    rw (continues_bit b lo hi, read, bit_and_0x7f, narrow, small)

group_shift : (j : ℕ) → 2 ^ (6 + 7 * suc j) ≡ 2 ^ (6 + 7 * j) * 128
group_shift j =
    let e : 6 + 7 * suc j ≡ 6 + 7 * j + 7 = omega arith in rw e (simp towards_suc (omega arith))

group_below :
    (ret x j : ℕ)
    → ret < 2 ^ (6 + 7 * j)
    → x < 128
    → ret + x * 2 ^ (6 + 7 * j) < 2 ^ (6 + 7 * suc j)
group_below ret x j h hx =
    let whole : x ≤ 127 = omega arith in
    omega (arith, group_shift j, mul-le-mul_right (2 ^ (6 + 7 * j)) whole)

group_in :
    (ret x j : ℕ)
    → ret < 2 ^ (6 + 7 * j)
    → bit_or ret (x * 2 ^ (6 + 7 * j)) ≡ ret + x * 2 ^ (6 + 7 * j)
group_in ret x j h = bit_or_shifted (6 + 7 * j) ret x h

loop_total :
    (run : List ℕ) (last : ℕ) (tail : List ℕ) (r : Reader) (fuel b ret j : ℕ)
    → IsValid r
    → Rest r (run ++ (last ∷ tail))
    → All Continues run
    → last < 128
    → 128 ≤ b
    → b < 256
    → ret < 2 ^ (6 + 7 * j)
    → ret + groups_value (run ++ (last ∷ [])) * 2 ^ (6 + 7 * j) < 2 ^ 64
    → j + length run ≤ 8
    → length run + 1 < fuel
    → varint_loop fuel b ret (6 + 7 * j) r
      ≡ (ok (ret + groups_value (run ++ (last ∷ [])) * 2 ^ (6 + 7 * j)), moved r (length run + 1))
unfolding groups_value
loop_total run last tail r zero b ret j v e c h lo hi hr fits hj hf = absurd (omega arith)
loop_total [] last tail r (suc zero) b ret j v e c h lo hi hr fits hj hf = absurd (omega arith)
loop_total [] last tail r (suc (suc fuel)) b ret j v e c h lo hi hr fits hj hf =
    let P : ℕ = 2 ^ (6 + 7 * j) in
    let (read, hb, e', v') = read_u8_next r v last tail e in
    let G : ℕ = groups_value (last ∷ []) in
    let g : G ≡ last % 128 = omega arith in
    let fit : last % 128 * P < 2 ^ 64 = omega (arith, ap (λ (t : ℕ). t * P) g) in
    loop_step r (moved r 1) (suc fuel) b last ret (6 + 7 * j) lo hi read (omega arith) fit
    ∙ loop_stop (moved r 1) fuel last (bit_or ret (last % 128 * P)) (6 + 7 * j + 7) h
    ∙ ap₂ (λ t q. (ok t, q))
        (group_in ret (last % 128) j hr ∙ omega (arith, ap (λ (t : ℕ). t * P) g)) refl
loop_total (x ∷ run) last tail r (suc fuel) b ret j v e c h lo hi hr fits hj hf =
    let P : ℕ = 2 ^ (6 + 7 * j) in
    let (read, hx, e', v') = read_u8_next r v x (run ++ (last ∷ tail)) e in
    let T : ℕ = groups_value (run ++ (last ∷ [])) in
    let next : 6 + 7 * j + 7 ≡ 6 + 7 * suc j = omega arith in
    let sum : ret + (x % 128 + 128 * T) * P ≡ ret + x % 128 * P + T * 2 ^ (6 + 7 * suc j) =
      omega (arith, ap (λ (t : ℕ). T * t) (group_shift j)) in
    loop_step r (moved r 1) fuel b x ret (6 + 7 * j) lo hi read (omega arith) (omega arith)
    ∙ rw (group_in ret (x % 128) j hr, next)
        (loop_total run last tail (moved r 1) fuel x (ret + x % 128 * P) (suc j) v' e' c.1 h c.0 hx
            (group_below ret (x % 128) j hr (omega arith)) (omega (arith, sum)) (omega arith)
            (omega arith)
          ∙ ap₂ (λ t q. (ok t, q)) (omega (arith, sum))
              (move_on r 1 (length run + 1) (suc (length run) + 1) (omega arith)))

abbrev pub sign_bit : ℕ → Bool
sign_bit b = if bit_and b 0x40 == 0 then false else true

-- The first byte, and the magnitude that the loop makes from it.
read_varint_from :
    (r q : Reader) (b ret : ℕ) (rest : List ℕ)
    → IsValid r
    → Rest r (b ∷ rest)
    → varint_loop 11 b (b % 64) 6 (moved r 1) ≡ (ok ret, q)
    → read_varint r ≡ apply_sign (sign_bit b) ret q
unfolding read_varint
read_varint_from r q b ret rest v e loop = rw ((read_u8_next r v b rest e).0, bit_and_0x3f, loop)

-- A first byte without bit 7 is the whole number.
pub read_varint_short :
    (r : Reader) (b : ℕ) (rest : List ℕ)
    → IsValid r
    → Rest r (b ∷ rest)
    → b < 128
    → read_varint r ≡ apply_sign (sign_bit b) (b % 64) (moved r 1)
read_varint_short r b rest v e h =
    read_varint_from r (moved r 1) b (b % 64) rest v e (loop_stop (moved r 1) 10 b (b % 64) 6 h)

-- Groups follow a first byte with bit 7, and the magnitude fits a uint64_t.
pub read_varint_long :
    (r : Reader) (b last : ℕ) (run tail : List ℕ)
    → IsValid r
    → Rest r (b ∷ (run ++ (last ∷ tail)))
    → 128 ≤ b
    → All Continues run
    → last < 128
    → length run ≤ 8
    → b % 64 + groups_value (run ++ (last ∷ [])) * 64 < 2 ^ 64
    → read_varint r
      ≡ apply_sign
          (sign_bit b)
          (b % 64 + groups_value (run ++ (last ∷ [])) * 64)
          (moved r (length run + 2))
read_varint_long r b last run tail v e lo c h n fits =
    let (_, hb, e', v') = read_u8_next r v b (run ++ (last ∷ tail)) e in
    read_varint_from r (moved r (length run + 2)) b
      (b % 64 + groups_value (run ++ (last ∷ [])) * 64) (run ++ (last ∷ tail)) v e
      (loop_total run last tail (moved r 1) 11 b (b % 64) 0 v' e' c h lo hb (omega arith) fits
          (omega arith) (omega arith)
        ∙ ap (λ q. (ok (b % 64 + groups_value (run ++ (last ∷ [])) * 64), q))
            (move_on r 1 (length run + 1) (length run + 2) (omega arith)))

pub apply_sign_fits :
    (negative : Bool) (m : ℕ) (r : Reader)
    → m < 2 ^ 63
    → apply_sign negative m r ≡ (ok (if negative then neg (pos m) else pos m), r)
unfolding apply_sign
apply_sign_fits false m r h = let e : ltb m (2 ^ 63) ≡ true = ground arith in rw e
apply_sign_fits true m r h =
    let e : ltb m (2 ^ 63) ≡ true = ground arith in
    let d : (m == 2 ^ 63) ≡ false = ground arith in rw (e, d)
