-- ===== src/BinaryReader/Varuint.antt =====
-- `read_varuint` on every input: a number, the exception, or an undefined shift.
use fast_gdb.Base.{
  ℕ, zero, suc, ◌+◌, ◌-◌, ◌*◌, ◌%◌, ◌^◌, ◌≤◌, ◌<◌, ◌≡◌, refl, ap, ap₂, subst, ◌∙◌, bit_and, bit_or,
  List, [], ◌∷◌, ◌++◌, arith, length, drop, length-drop, All, leb, ◌==◌, true, false, lt→ltb,
  not_lt→ltb,
}
use fast_gdb.Base.Bits.{bit_or_shifted, bit_and_0x7f, bit_and_0x80}
use native.Mathlib.Decide.{dec_lt}
use native.Mathlib.Nat.{mul-le-mul_right, pow-le-pow_right}
use native.Mathlib.Numerals.{towards_suc}
use fast_gdb.BinaryReader.{
  ok, out_of_range, undefined, Reader, size, read_u8, varuint_loop, read_varuint,
}
use fast_gdb.BinaryReader.Bounds.{IsByte, IsValid, le_value, le_read, reads-le_read}

-- The reader with its cursor `n` bytes on.
abbrev pub moved : Reader → ℕ → Reader
moved r n = record r { pos_ = r.pos_ + n }

abbrev pub Rest : Reader → List ℕ → Type 0
Rest r xs = drop r.pos_ r.bytes ≡ xs

drop-suc : (n : ℕ) (xs : List ℕ) {y : ℕ} {ys : List ℕ} → drop n xs ≡ y ∷ ys → drop (suc n) xs ≡ ys
drop-suc zero [] e = cc
drop-suc zero (x ∷ xs) e = cc
drop-suc (suc n) [] e = cc
drop-suc (suc n) (x ∷ xs) e = drop-suc n xs e

All-drop {ℓ} : (P : ℕ → Type ℓ) (n : ℕ) (xs : List ℕ) → All P xs → All P (drop n xs)
All-drop P zero xs h = h
All-drop P (suc n) [] h = h
All-drop P (suc n) (x ∷ xs) h = All-drop P n xs h.1

-- One byte of the input, and its end.
module _ (r : Reader) (v : IsValid r) where
  pub read_u8_next :
      (b : ℕ) (xs : List ℕ)
      → Rest r (b ∷ xs)
      → (read_u8 r ≡ (ok b, moved r 1)) × (b < 256) × Rest (moved r 1) xs × IsValid (moved r 1)
  unfolding le_read le_value
  read_u8_next b xs e =
      let left : size r - r.pos_ ≡ suc (length xs) =
        omega (arith, length-drop r.pos_ r.bytes, ap length e) in
      let fits : r.pos_ + 1 ≤ size r = omega arith in
      let octets : All IsByte (b ∷ xs) =
        subst (All IsByte) e (All-drop IsByte r.pos_ r.bytes v.octets) in
      let next : suc r.pos_ ≡ r.pos_ + 1 = omega arith in
      (
        (reads-le_read r v).0
            ∙ rw (not_lt→ltb (size r) (r.pos_ + 1) fits, e)
                (ap (λ (t : ℕ). (ok t, moved r 1)) (omega arith)),
        octets.0,
        rw next at (drop-suc r.pos_ r.bytes e),
        record { inside = fits; allocated = v.allocated; octets = v.octets },
      )

  pub read_u8_end : Rest r [] → read_u8 r ≡ (out_of_range, r)
  unfolding le_read
  read_u8_end e =
      let left : size r - r.pos_ ≡ 0 = omega (arith, length-drop r.pos_ r.bytes, ap length e) in
      (reads-le_read r v).0 ∙ rw (lt→ltb (size r) (r.pos_ + 1) (omega (arith, v.inside)))

pub shift_group : (j : ℕ) → 2 ^ (7 * suc j) ≡ 2 ^ (7 * j) * 128
shift_group j = let e : 7 * suc j ≡ 7 * j + 7 = omega arith in rw e (simp towards_suc (omega arith))

-- What one round adds.
pub shift_in :
    (ret x j : ℕ)
    → ret < 2 ^ (7 * j)
    → x < 128
    → j ≤ 8
    → (bit_or ret (x * 2 ^ (7 * j) % 2 ^ 64) ≡ ret + x * 2 ^ (7 * j))
      × (ret + x * 2 ^ (7 * j) < 2 ^ (7 * suc j))
shift_in ret x j h hx hj =
    let P : ℕ = 2 ^ (7 * j) in
    let cap : P ≤ 2 ^ 56 = pow-le-pow_right (omega arith) {i = 7 * j} {j = 56} (omega arith) in
    let whole : x ≤ 127 = omega arith in
    let small : x * P % 2 ^ 64 ≡ x * P = omega (arith, mul-le-mul_right P whole) in
    (
      rw small (bit_or_shifted (7 * j) ret x h),
      omega (arith, mul-le-mul_right P whole, shift_group j),
    )

-- The value of a run of groups, the lowest first.
unfoldable pub groups_value : List ℕ → ℕ
groups_value [] = 0
groups_value (b ∷ bs) = b % 128 + 128 * groups_value bs

abbrev pub Continues : ℕ → Type 0
Continues b = 128 ≤ b

le→not_leb : (a b : ℕ) → b < a → leb a b ≡ false
le→not_leb a b h = ground arith

pub continues_bit : (b : ℕ) → 128 ≤ b → b < 256 → (bit_and b 0x80 == 0) ≡ false
continues_bit b lo hi = ground (arith, bit_and_0x80 b)

pub last_bit : (b : ℕ) → b < 128 → (bit_and b 0x80 == 0) ≡ true
last_bit b h = ground (arith, bit_and_0x80 b)

-- One round of the loop on a byte, by what it tests.
module _ (r r' : Reader) (fuel ret shift b : ℕ) (read : read_u8 r ≡ (ok b, r')) where
  pub round_more :
      128 ≤ b
      → b < 256
      → shift < 64
      → varuint_loop (suc fuel) ret shift r
        ≡ varuint_loop fuel (bit_or ret (b % 128 * 2 ^ shift % 2 ^ 64)) (shift + 7) r'
  unfolding varuint_loop
  round_more lo hi h = rw (read, bit_and_0x7f, le→not_leb 64 shift h, continues_bit b lo hi)

  pub round_last :
      b < 128
      → shift < 64
      → varuint_loop (suc fuel) ret shift r ≡ (ok (bit_or ret (b % 128 * 2 ^ shift % 2 ^ 64)), r')
  unfolding varuint_loop
  round_last lo h = rw (read, bit_and_0x7f, le→not_leb 64 shift h, last_bit b lo)

  pub round_wide : 64 ≤ shift → varuint_loop (suc fuel) ret shift r ≡ (undefined, r')
  unfolding varuint_loop
  round_wide h = rw read (ground arith)

pub round_end :
    (r : Reader) (fuel ret shift : ℕ)
    → read_u8 r ≡ (out_of_range, r)
    → varuint_loop (suc fuel) ret shift r ≡ (out_of_range, r)
unfolding varuint_loop
round_end r fuel ret shift e = rw e

shift_in_nine :
    (ret x : ℕ) → ret < 2 ^ 63 → bit_or ret (x * 2 ^ 63 % 2 ^ 64) ≡ (ret + x * 2 ^ 63) % 2 ^ 64
shift_in_nine ret x h =
    let wrap : x * 2 ^ 63 % 2 ^ 64 ≡ x % 2 * 2 ^ 63 = omega arith in
    rw wrap (omega (arith, bit_or_shifted 63 ret (x % 2) h))

module _ (ret x j : ℕ) (h : ret < 2 ^ (7 * j)) (hx : x < 128) where
  shift_in_last : j ≤ 9 → bit_or ret (x * 2 ^ (7 * j) % 2 ^ 64) ≡ (ret + x * 2 ^ (7 * j)) % 2 ^ 64
  shift_in_last hj = elim (dec_lt j 9) [
    | yes p ↦
        let (e, bound) = shift_in ret x j h hx (omega arith) in
        let cap : 2 ^ (7 * suc j) ≤ 2 ^ 63 =
          pow-le-pow_right (omega arith) {i = 7 * suc j} {j = 63} (omega arith) in
        omega (arith, e, bound, cap)
    | no p ↦
        let nine : j ≡ 9 = omega arith in
        let small : ret < 2 ^ 63 = subst (λ k. ret < 2 ^ (7 * k)) nine h in
        rw nine (shift_in_nine ret x small)
  ]

pub move_on : (r : Reader) (m n k : ℕ) → m + n ≡ k → moved (moved r m) n ≡ moved r k
move_on r m n k e = ap (λ p. record r { pos_ = p }) (omega arith)

only_group : (b : ℕ) → groups_value (b ∷ []) ≡ b % 128
unfolding groups_value
only_group b = omega arith

-- A run of continued bytes and a last one.
loop_value :
    (run : List ℕ) (last : ℕ) (tail : List ℕ) (r : Reader) (fuel ret j : ℕ)
    → IsValid r
    → Rest r (run ++ (last ∷ tail))
    → All Continues run
    → last < 128
    → ret < 2 ^ (7 * j)
    → j + length run ≤ 9
    → length run < fuel
    → varuint_loop fuel ret (7 * j) r ≡ (
      ok ((ret + groups_value (run ++ (last ∷ [])) * 2 ^ (7 * j)) % 2 ^ 64),
      moved r (length run + 1),
    )
unfolding groups_value
loop_value run last tail r zero ret j v e c h hr hj hf = absurd (omega arith)
loop_value [] last tail r (suc fuel) ret j v e c h hr hj hf =
    let (read, _, _, _) = read_u8_next r v last tail e in
    round_last r (moved r 1) fuel ret (7 * j) last read h (omega arith)
    ∙ ap (λ (t : ℕ). (ok t, moved r 1))
        (shift_in_last ret (last % 128) j hr (omega arith) (omega arith)
          ∙ ap (λ t. t % 2 ^ 64) (omega (arith, ap (λ (t : ℕ). t * 2 ^ (7 * j)) (only_group last))))
loop_value (b ∷ run) last tail r (suc fuel) ret j v e c h hr hj hf =
    let (read, hb, e', v') = read_u8_next r v b (run ++ (last ∷ tail)) e in
    let (eq, bound) = shift_in ret (b % 128) j hr (omega arith) (omega arith) in
    let ret' : ℕ = ret + b % 128 * 2 ^ (7 * j) in
    let next : 7 * j + 7 ≡ 7 * suc j = omega arith in
    let T : ℕ = groups_value (run ++ (last ∷ [])) in
    round_more r (moved r 1) fuel ret (7 * j) b read c.0 hb (omega arith)
    ∙ rw (eq, next)
        (loop_value run last tail (moved r 1) fuel ret' (suc j) v' e' c.1 h bound (omega arith)
            (omega arith)
          ∙ ap₂ (λ t q. (ok (t % 2 ^ 64), q)) (omega (arith, ap (λ (t : ℕ). T * t) (shift_group j)))
              (move_on r 1 (length run + 1) (suc (length run) + 1) (omega arith)))

-- Ten continued bytes with a byte behind them.
loop_wide :
    (run : List ℕ) (b : ℕ) (tail : List ℕ) (r : Reader) (fuel ret j : ℕ)
    → IsValid r
    → Rest r (run ++ (b ∷ tail))
    → All Continues run
    → j + length run ≡ 10
    → length run < fuel
    → varuint_loop fuel ret (7 * j) r ≡ (undefined, moved r (length run + 1))
loop_wide run b tail r zero ret j v e c hj hf = absurd (omega arith)
loop_wide [] b tail r (suc fuel) ret j v e c hj hf =
    let (read, _, _, _) = read_u8_next r v b tail e in
    round_wide r (moved r 1) fuel ret (7 * j) b read (omega arith)
loop_wide (b' ∷ run) b tail r (suc fuel) ret j v e c hj hf =
    let (read, hb, e', v') = read_u8_next r v b' (run ++ (b ∷ tail)) e in
    let ret' : ℕ = bit_or ret (b' % 128 * 2 ^ (7 * j) % 2 ^ 64) in
    let next : 7 * j + 7 ≡ 7 * suc j = omega arith in
    round_more r (moved r 1) fuel ret (7 * j) b' read c.0 hb (omega arith)
    ∙ rw next (
        loop_wide run b tail (moved r 1) fuel ret' (suc j) v' e' c.1 (omega arith) (omega arith)
        ∙ ap (λ q. (undefined, q))
            (move_on r 1 (length run + 1) (suc (length run) + 1) (omega arith)))

-- The input ends in the run.
loop_end :
    (run : List ℕ) (r : Reader) (fuel ret j : ℕ)
    → IsValid r
    → Rest r run
    → All Continues run
    → j + length run ≤ 10
    → length run < fuel
    → varuint_loop fuel ret (7 * j) r ≡ (out_of_range, moved r (length run))
loop_end run r zero ret j v e c hj hf = absurd (omega arith)
loop_end [] r (suc fuel) ret j v e c hj hf =
    round_end r fuel ret (7 * j) (read_u8_end r v e)
    ∙ ap (λ p. (out_of_range, record r { pos_ = p })) (omega arith)
loop_end (b ∷ run) r (suc fuel) ret j v e c hj hf =
    let (read, hb, e', v') = read_u8_next r v b run e in
    let ret' : ℕ = bit_or ret (b % 128 * 2 ^ (7 * j) % 2 ^ 64) in
    let next : 7 * j + 7 ≡ 7 * suc j = omega arith in
    round_more r (moved r 1) fuel ret (7 * j) b read c.0 hb (omega arith)
    ∙ rw next (
        loop_end run (moved r 1) fuel ret' (suc j) v' e' c.1 (omega arith) (omega arith)
        ∙ ap (λ q. (out_of_range, q)) (move_on r 1 (length run) (suc (length run)) (omega arith)))

pub read_varuint-rounds : (r : Reader) → read_varuint r ≡ varuint_loop 11 0 0 r
unfolding read_varuint
read_varuint-rounds r = refl

module _ (r : Reader) (run : List ℕ) where
  -- Where the next bytes of a valid reader are at most nine with bit 7 set and then one without it,
  -- `read_varuint` returns the value of their seven-bit groups modulo 2 ^ 64 and moves past them.
  pub read_varuint-groups_value :
      (b : ℕ) (tail : List ℕ)
      → IsValid r
      → All Continues run
      → Rest r (run ++ (b ∷ tail))
      → b < 128
      → length run ≤ 9
      → read_varuint r ≡ (ok (groups_value (run ++ (b ∷ [])) % 2 ^ 64), moved r (length run + 1))
  unfolding read_varuint
  read_varuint-groups_value b tail v c e h n =
      loop_value run b tail r 11 0 0 v e c h (omega arith) (omega arith) (omega arith)
      ∙ ap (λ (t : ℕ). (ok (t % 2 ^ 64), moved r (length run + 1))) (omega arith)

  -- Where the next bytes of a valid reader are ten with bit 7 set and then any byte, `read_varuint`
  -- shifts by 70, which is undefined.
  read_varuint_too_wide :
      (b : ℕ) (tail : List ℕ)
      → IsValid r
      → All Continues run
      → Rest r (run ++ (b ∷ tail))
      → length run ≡ 10
      → read_varuint r ≡ (undefined, moved r (length run + 1))
  unfolding read_varuint
  read_varuint_too_wide b tail v c e n =
      loop_wide run b tail r 11 0 0 v e c (omega arith) (omega arith)

  -- Where all bytes left of a valid reader have bit 7 set, and they are ten at most, `read_varuint`
  -- throws `out_of_range` with the cursor at the end of the buffer.
  read_varuint_truncated :
      IsValid r
      → All Continues run
      → Rest r run
      → length run ≤ 10
      → read_varuint r ≡ (out_of_range, moved r (length run))
  unfolding read_varuint
  read_varuint_truncated v c e n = loop_end run r 11 0 0 v e c (omega arith) (omega arith)
