-- ===== src/Varint/Signed.antt =====
-- `read_varint` reads back what `encode_varint` wrote: a sign bit and six bits in the first byte, then
-- groups of seven.
use fast_gdb.Base.{
  ℕ, zero, suc, ◌+◌, ◌*◌, ◌/◌, ◌%◌, ◌^◌, ◌≤◌, ◌<◌, ◌≡◌, refl, ap, subst, ◌∙◌, bit_and, bit_or, Bool,
  true, false, List, [], ◌∷◌, ◌++◌, some, arith, length, ◌==◌, if◌then◌else◌, drop-append_length,
  length-append,
}
use fast_gdb.Base.Bits.{bit_or_shifted, bit_and_0x7f, bit_and_0x3f, bit_and_0x40}
use fast_gdb.Base.Int.{ℤ, pos, negsuc, neg, abs}
use fast_gdb.Base.Order.{lt_wf}
use fast_gdb.BinaryReader.{ok, Reader, apply_sign, read_varint}
use fast_gdb.BinaryReader.Bounds.{IsValid}
use fast_gdb.BinaryReader.Varuint.{groups_value, moved}
use fast_gdb.BinaryReader.Varint.{sign_bit, read_varint_short, read_varint_long, apply_sign_fits}
use fast_gdb.Varint.{varint_bytes, shift_falls_below, varint_tail, encode_varint}
use fast_gdb.Varint.Encode.{Groups, group_bytes, one_group, next_group, low_byte}
use fast_gdb.Varint.RoundTrip.{framed}
use mathlib.Core.List.{append_assoc}
use mathlib.Core.Logic.{dif_pos, dif_neg}
use mathlib.Core.WellFounded.{Acc}
use native.Mathlib.Bridge.{le_prop}
use native.Mathlib.Decide.{dec_lt}

-- The while loop of the encoder.
module _ (out : List ℕ) (value : ℕ) (smaller : (y : ℕ) → y < value → Acc ◌<◌ y) where
  varint_bytes_done : value ≡ 0 → varint_bytes out value (Acc.intro _ smaller) ≡ out
  unfolding varint_bytes
  varint_bytes_done h = rw (dif_neg _ (λ (p : 0 < value). absurd (omega arith)))

  varint_bytes_last :
      0 < value
      → value < 128
      → (w : Acc ◌<◌ (value / 128)) × (varint_bytes out value (Acc.intro _ smaller)
          ≡ varint_bytes (out ++ (value ∷ [])) (value / 128) w)
  unfolding varint_bytes
  varint_bytes_last p h =
      let done : (value / 128 == 0) ≡ true = ground arith in
      let whole : value % 128 ≡ value = omega arith in
      (smaller _ (shift_falls_below value p), rw (dif_pos _ le_prop p, done, bit_and_0x7f, whole))

  varint_bytes_more :
      (p : 0 < value)
      → 128 ≤ value
      → (w : Acc ◌<◌ (value / 128)) × (varint_bytes out value (Acc.intro _ smaller)
          ≡ varint_bytes (out ++ ((value % 128 + 128) ∷ [])) (value / 128) w)
  unfolding varint_bytes
  varint_bytes_more p h =
      let more : (value / 128 == 0) ≡ false = ground arith in
      (smaller _ (shift_falls_below value p), rw (dif_pos _ le_prop p, more, low_byte))

varint_bytes_zero :
    (out : List ℕ) (value : ℕ) (w : Acc ◌<◌ value) → value ≡ 0 → varint_bytes out value w ≡ out
varint_bytes_zero out value (Acc.intro _ smaller) h = varint_bytes_done out value smaller h

varint_bytes_single :
    (k : ℕ) (out : List ℕ) (value : ℕ) (w : Acc ◌<◌ value)
    → 0 < value
    → value < 128
    → (g : Groups k value) × (varint_bytes out value w ≡ out ++ group_bytes g)
unfolding one_group
varint_bytes_single k out value (Acc.intro _ smaller) p h =
    let (w, e) = varint_bytes_last out value smaller p h in
    (one_group k value h, e ∙ varint_bytes_zero (out ++ (value ∷ [])) (value / 128) w (omega arith))

varint_bytes-Groups :
    (k : ℕ) (out : List ℕ) (value : ℕ) (w : Acc ◌<◌ value)
    → 0 < value
    → value < 128 ^ suc k
    → (g : Groups k value) × (varint_bytes out value w ≡ out ++ group_bytes g)
unfolding next_group
varint_bytes-Groups zero out value w p h = varint_bytes_single 0 out value w p (omega arith)
varint_bytes-Groups (suc k) out value (Acc.intro _ smaller) p h = elim (dec_lt value 128) [
  | yes small ↦ varint_bytes_single (suc k) out value (Acc.intro _ smaller) p small
  | no large ↦
      let (w, e) = varint_bytes_more out value smaller p (omega arith) in
      let head : List ℕ = (value % 128 + 128) ∷ [] in
      let (g, e') =
        varint_bytes-Groups k (out ++ head) (value / 128) w (omega arith) (omega arith) in
      (next_group k value g, e ∙ e' ∙ append_assoc out head (group_bytes g))
]

-- The first byte: six bits of the magnitude, the sign, and whether more follow.
first_byte : Bool → ℕ → ℕ
first_byte negative m = m % 64 + (if negative then 64 else 0)

first_bits :
    (negative : Bool) (m : ℕ)
    → (if negative then bit_or (bit_and m 0x3f) 0x40 else bit_and m 0x3f) ≡ first_byte negative m
unfolding first_byte
first_bits true m = rw bit_and_0x3f (bit_or_shifted 6 (m % 64) 1 (omega arith))
first_bits false m = rw bit_and_0x3f (omega arith)

more_bit : (b : ℕ) → b < 128 → bit_or b 0x80 ≡ b + 128
more_bit b h = bit_or_shifted 7 b 1 h

-- What `encode_varint` writes for a magnitude below 2 ^ 63.
varint_tail_short :
    (negative : Bool) (m : ℕ) → m < 64 → varint_tail negative m ≡ first_byte negative m ∷ []
unfolding varint_tail
varint_tail_short negative m h =
    let e : (m / 64 == 0) ≡ true = ground arith in rw (e, first_bits negative m)

first_byte-lt : (negative : Bool) (m : ℕ) → first_byte negative m < 128
unfolding first_byte
first_byte-lt negative m = ground arith

varint_tail_long :
    (negative : Bool) (m : ℕ)
    → 64 ≤ m
    → m < 2 ^ 63
    → (g : Groups 8 (m / 64)) × (varint_tail negative m
        ≡ (first_byte negative m + 128) ∷ group_bytes g)
unfolding varint_tail
varint_tail_long negative m lo hi =
    let e : (m / 64 == 0) ≡ false = ground arith in
    let (g, e') =
      varint_bytes-Groups 8 ((first_byte negative m + 128) ∷ []) (m / 64) (lt_wf.apply (m / 64))
        (omega arith) (omega arith) in
    (
      g,
      rw (e, first_bits negative m, more_bit (first_byte negative m) (first_byte-lt negative m)) e',
    )

sign_bit-first_byte :
    (negative : Bool) (m more : ℕ)
    → more ≤ 1
    → sign_bit (first_byte negative m + more * 128) ≡ negative
unfolding first_byte
sign_bit-first_byte true m more h = ground (arith, bit_and_0x40 (m % 64 + 64 + more * 128))
sign_bit-first_byte false m more h = ground (arith, bit_and_0x40 (m % 64 + 0 + more * 128))

-- The range of int64_t without its least value, whose magnitude has no int64_t.
abbrev pub FitsI64 : ℤ → Type 0
FitsI64 z = abs z < 2 ^ 63

abbrev with_sign : Bool → ℕ → ℤ
with_sign negative m = if negative then neg (pos m) else pos m

finish :
    (negative sign : Bool) (m ret n k : ℕ) (r : Reader)
    → m < 2 ^ 63
    → sign ≡ negative
    → ret ≡ m
    → n ≡ k
    → read_varint r ≡ apply_sign sign ret (moved r n)
    → read_varint r ≡ (ok (with_sign negative m), moved r k)
finish negative sign m ret n k r h hs hr hn e =
    e ∙ rw (hs, hr, hn) (apply_sign_fits negative m (moved r k) h)

module _ (negative : Bool) (m : ℕ) (front tail bytes : List ℕ) (h : m < 2 ^ 63) where
  read_short :
      m < 64
      → bytes ≡ first_byte negative m ∷ []
      → IsValid (framed front bytes tail)
      → read_varint (framed front bytes tail)
        ≡ (ok (with_sign negative m), moved (framed front bytes tail) (length bytes))
  unfolding first_byte
  read_short small e v =
      let b : ℕ = first_byte negative m in
      let same : b + 0 * 128 ≡ b = omega arith in
      finish negative (sign_bit b) m (b % 64) 1 (length bytes) (framed front bytes tail) h
        (rw same at (sign_bit-first_byte negative m 0 (omega arith))) (ground arith)
        (omega (arith, ap length e))
        (read_varint_short (framed front bytes tail) b tail v
          (drop-append_length front (bytes ++ tail) ∙ rw e) (first_byte-lt negative m))

  read_long :
      (p : (g : Groups 8 (m / 64)) × (bytes ≡ (first_byte negative m + 128) ∷ group_bytes g))
      → IsValid (framed front bytes tail)
      → read_varint (framed front bytes tail)
        ≡ (ok (with_sign negative m), moved (framed front bytes tail) (length bytes))
  unfolding first_byte
  read_long (g, e) v =
      let b : ℕ = first_byte negative m + 128 in
      let T : ℕ = groups_value (g.run ++ (g.last ∷ [])) in
      let whole : b % 64 + T * 64 ≡ m = ground (arith, g.value_lem) in
      finish negative (sign_bit b) m (b % 64 + T * 64) (length g.run + 2) (length bytes)
        (framed front bytes tail) h (sign_bit-first_byte negative m 1 (omega arith)) whole
        (omega (arith, ap length e, length-append g.run (g.last ∷ [])))
        (read_varint_long (framed front bytes tail) b g.last g.run tail v
          (drop-append_length front (bytes ++ tail)
            ∙ rw e (ap (λ t. b ∷ t) (append_assoc g.run (g.last ∷ []) tail)))
          (omega arith) g.continued g.ends g.short (omega (arith, whole)))

read_varint_tail :
    (negative : Bool) (m : ℕ) (front tail : List ℕ)
    → m < 2 ^ 63
    → IsValid (framed front (varint_tail negative m) tail)
    → read_varint (framed front (varint_tail negative m) tail) ≡ (
      ok (with_sign negative m),
      moved (framed front (varint_tail negative m) tail) (length (varint_tail negative m)),
    )
read_varint_tail negative m front tail h v = elim (dec_lt m 64) [
  | yes small ↦
      read_short negative m front tail (varint_tail negative m) h small
        (varint_tail_short negative m small) v
  | no large ↦
      read_long negative m front tail (varint_tail negative m) h
        (varint_tail_long negative m (omega arith) h) v
]

-- For every int64_t but the least and any bytes around its encoding, in a buffer of bytes shorter than
-- 2 ^ 63: if `encode_varint` wrote `bytes`, `read_varint` returns the number and moves past them.
pub read_varint-encode_varint :
    (z : ℤ) (front tail bytes : List ℕ)
    → FitsI64 z
    → encode_varint z ≡ some bytes
    → IsValid (framed front bytes tail)
    → read_varint (framed front bytes tail) ≡ (ok z, moved (framed front bytes tail) (length bytes))
unfolding encode_varint
read_varint-encode_varint (pos n) front tail bytes h e v =
    let e' : varint_tail false n ≡ bytes = cc in
    subst
      (λ b.
        read_varint (framed front b tail) ≡ (ok (pos n), moved (framed front b tail) (length b)))
      e' (read_varint_tail false n front tail h (rw e' v))
read_varint-encode_varint (negsuc n) front tail bytes h e v =
    let least : (suc n == 2 ^ 63) ≡ false = ground arith in
    let chosen : some (varint_tail true (suc n)) ≡ some bytes = rw least at e in
    let e' : varint_tail true (suc n) ≡ bytes = cc in
    subst
      (λ b.
        read_varint (framed front b tail) ≡ (ok (negsuc n), moved (framed front b tail) (length b)))
      e' (read_varint_tail true (suc n) front tail h (rw e' v))

-- The encoder gives bytes for every int64_t but the least.
encode_varint_total : (z : ℤ) → FitsI64 z → (bytes : List ℕ) × (encode_varint z ≡ some bytes)
unfolding encode_varint
encode_varint_total (pos n) h = (varint_tail false n, refl)
encode_varint_total (negsuc n) h =
    let e : (suc n == 2 ^ 63) ≡ false = ground arith in (varint_tail true (suc n), rw e)
