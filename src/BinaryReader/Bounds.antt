-- ===== src/BinaryReader/Bounds.antt =====
-- Reads of a fixed width against a description by the value of the next bytes, and what the reads
-- leave of the cursor.
use fast_gdb.Base.{
  ℕ, zero, suc, ◌+◌, ◌*◌, ◌%◌, ◌^◌, ◌≤◌, ◌<◌, ◌≡◌, ap, ◌∙◌, inl, inr, bit_or, List, [], ◌∷◌, some,
  arith, ltb, if◌then◌else◌, get_elem?, take, drop, get_elem?-lt, take-drop_get, All, All-get_elem?,
  Bool-cases,
}
use fast_gdb.Base.Bits.{bit_or_shifted}
use native.Mathlib.Nat.{mul-le-mul_right}
use native.Mathlib.Numerals.{towards_suc}
use fast_gdb.BinaryReader.{
  return, ◌>>◌, ok, out_of_range, Reader, size, M, ◌>>=◌, past_end, ensure, byte_at, advance,
  read_u8, read_u16, read_u32, read_u40, read_u48, read_u64, le_loop,
}

abbrev pub IsByte : ℕ → Type 0
IsByte b = b < 256

-- The cursor is inside the buffer, and the buffer is one that can be allocated.
pub record IsValid (r : Reader) : Type 0 where
  pub inside : r.pos_ ≤ size r
  pub allocated : size r < 2 ^ 63
  pub octets : All IsByte r.bytes

unfoldable pub le_value : List ℕ → ℕ
le_value [] = 0
le_value (b ∷ bs) = b + 256 * le_value bs

-- What a little-endian read of `k` bytes does: the value of the next `k` bytes with the cursor behind
-- them, or the exception with the cursor where it was.
unfoldable pub le_read : ℕ → M ℕ
unfolding le_value
le_read k r =
    if ltb (size r) (r.pos_ + k)
    then (out_of_range, r)
    else (ok (le_value (take k (drop r.pos_ r.bytes))), record r { pos_ = r.pos_ + k })

module _ (r : Reader) (n : ℕ) where
  pub ensure_past : IsValid r → n < 2 ^ 62 → size r < r.pos_ + n → ensure n r ≡ (out_of_range, r)
  unfolding ensure past_end
  ensure_past v h p = ground arith

  pub ensure_within : IsValid r → r.pos_ + n ≤ size r → ensure n r ≡ (ok tt, r)
  unfolding ensure past_end
  ensure_within v p = ground arith

  pub pos_within : IsValid r → r.pos_ + n ≤ size r → (r.pos_ + n) % 2 ^ 64 ≡ r.pos_ + n
  pos_within v p = omega arith

  pub advance_within :
      IsValid r → r.pos_ + n ≤ size r → advance n r ≡ (ok tt, record r { pos_ = r.pos_ + n })
  unfolding advance
  advance_within v p = rw (pos_within v p)

-- What `byte_at` returns inside the buffer.
abbrev pub ByteAt : Reader → ℕ → Type 0
ByteAt r i =
    (b : ℕ) × (b < 256) × (get_elem? r.bytes (r.pos_ + i) ≡ some b) × (byte_at i r ≡ (ok b, r))

ByteAt-get_elem? :
    (r : Reader) (i : ℕ)
    → IsValid r
    → (p : (b : ℕ) × (get_elem? r.bytes (r.pos_ + i) ≡ some b)) → ByteAt r i
unfolding byte_at
ByteAt-get_elem? r i v (b, e) =
    (b, All-get_elem? IsByte r.bytes (r.pos_ + i) v.octets e, e, rw (e, byte_at))

pub byte_at_lem : (r : Reader) (i : ℕ) → IsValid r → r.pos_ + i < size r → ByteAt r i
byte_at_lem r i v h = ByteAt-get_elem? r i v (get_elem?-lt r.bytes (r.pos_ + i) h)

pub le_value-get :
    (r : Reader) (i n : ℕ) {b : ℕ}
    → get_elem? r.bytes (r.pos_ + i) ≡ some b
    → le_value (take (suc n) (drop (r.pos_ + i) r.bytes))
      ≡ b + 256 * le_value (take n (drop (r.pos_ + (i + 1)) r.bytes))
unfolding le_value
le_value-get r i n e =
    let next : r.pos_ + (i + 1) ≡ suc (r.pos_ + i) = omega arith in
    rw (take-drop_get r.bytes (r.pos_ + i) n e, next)

shift_out : (i : ℕ) → 2 ^ ((i + 1) * 8) ≡ 2 ^ (i * 8) * 256
shift_out i = let e : (i + 1) * 8 ≡ i * 8 + 8 = omega arith in rw e (simp towards_suc (omega arith))

-- The loop keeps the bytes read so far below bit `i * 8`.
le_loop_step :
    (r : Reader) (n i v : ℕ)
    → v < 2 ^ (i * 8)
    → ByteAt r i
    → ((w : ℕ)
        → w < 2 ^ ((i + 1) * 8)
        → le_loop n (i + 1) w r
          ≡ (ok (w + le_value (take n (drop (r.pos_ + (i + 1)) r.bytes)) * 2 ^ ((i + 1) * 8)), r))
    → le_loop (suc n) i v r
      ≡ (ok (v + le_value (take (suc n) (drop (r.pos_ + i) r.bytes)) * 2 ^ (i * 8)), r)
unfolding le_loop le_value
le_loop_step r n i v h (b, hb, e, read) more =
    let P : ℕ = 2 ^ (i * 8) in
    let w : ℕ = v + b * P in
    let T : ℕ = le_value (take n (drop (r.pos_ + (i + 1)) r.bytes)) in
    let whole : b ≤ 255 = omega arith in
    let low : w < 2 ^ ((i + 1) * 8) = omega (arith, shift_out i, mul-le-mul_right P whole) in
    let here : le_value (take (suc n) (drop (r.pos_ + i) r.bytes)) ≡ b + 256 * T =
      le_value-get r i n e in
    rw (read, ◌>>=◌, bit_or_shifted (i * 8) v b h)
      (more w low
        ∙ ap (λ t. (ok t, r))
            (omega (arith, here, ap (λ (t : ℕ). T * t) (shift_out i), ap (λ (t : ℕ). t * P) here)))

le_loop_lem :
    (r : Reader) (n i v : ℕ)
    → IsValid r
    → v < 2 ^ (i * 8)
    → r.pos_ + (i + n) ≤ size r
    → le_loop n i v r ≡ (ok (v + le_value (take n (drop (r.pos_ + i) r.bytes)) * 2 ^ (i * 8)), r)
unfolding le_loop le_value
le_loop_lem r zero i v w h p = ground arith
le_loop_lem r (suc n) i v w h p =
    le_loop_step r n i v h (byte_at_lem r i w (omega arith))
      (λ u hu. le_loop_lem r n (i + 1) u w hu (omega arith))

le_value_start :
    (r : Reader) (k : ℕ)
    → le_value (take k (drop (r.pos_ + 0) r.bytes)) ≡ le_value (take k (drop r.pos_ r.bytes))
le_value_start r k = let e : r.pos_ + 0 ≡ r.pos_ = omega arith in rw e

le_loop_start :
    (r : Reader) (k : ℕ)
    → IsValid r
    → r.pos_ + k ≤ size r
    → le_loop k 0 0 r ≡ (ok (le_value (take k (drop r.pos_ r.bytes))), r)
le_loop_start r k v p =
    le_loop_lem r k 0 0 v (omega arith) (omega arith)
    ∙ ap (λ t. (ok t, r)) (omega (arith, le_value_start r k))

-- Both branches of a read of `k` bytes, from the two facts that each read has to give.
le_read_cases :
    (r : Reader) (k : ℕ) (m : M ℕ)
    → (size r < r.pos_ + k → m r ≡ (out_of_range, r))
    → (r.pos_ + k ≤ size r
        → m r ≡ (ok (le_value (take k (drop r.pos_ r.bytes))), record r { pos_ = r.pos_ + k }))
    → m r ≡ le_read k r
unfolding le_read
le_read_cases r k m short full = elim (Bool-cases (ltb (size r) (r.pos_ + k))) [
  | inl e ↦ rw e (short (ground arith))
  | inr e ↦ rw e (full (ground arith))
]

-- The reads that loop over their bytes.
loop_read : ℕ → M ℕ
loop_read k = do ensure k; v ← le_loop k 0 0; advance k; return v

loop_read-le_read : (k : ℕ) (r : Reader) → k < 2 ^ 62 → IsValid r → loop_read k r ≡ le_read k r
unfolding loop_read
loop_read-le_read k r h v =
    le_read_cases r k (loop_read k) (λ p. rw (ensure_past r k v h p))
      (λ p. rw (ensure_within r k v p, le_loop_start r k v p, advance_within r k v p))

pub or_four_bytes :
    (b0 b1 b2 b3 : ℕ)
    → b0 < 256
    → b1 < 256
    → b2 < 256
    → bit_or (bit_or (bit_or b0 (b1 * 2 ^ 8)) (b2 * 2 ^ 16)) (b3 * 2 ^ 24)
      ≡ b0 + b1 * 2 ^ 8 + b2 * 2 ^ 16 + b3 * 2 ^ 24
or_four_bytes b0 b1 b2 b3 h0 h1 h2 = rw (bit_or_shifted 8 b0 b1 h0) (
    rw (bit_or_shifted 16 (b0 + b1 * 2 ^ 8) b2 (omega arith))
      (bit_or_shifted 24 (b0 + b1 * 2 ^ 8 + b2 * 2 ^ 16) b3 (omega arith)))

-- The reads that name their bytes.
module _ (r : Reader) (v : IsValid r) where
  u8_full :
      r.pos_ + 1 ≤ size r
      → ByteAt r 0
      → read_u8 r ≡ (ok (le_value (take 1 (drop r.pos_ r.bytes))), record r { pos_ = r.pos_ + 1 })
  unfolding read_u8 le_value
  u8_full p (b0, h0, e0, at0) =
      rw (ensure_within r 1 v p, at0, pos_within r 1 v p)
        (ap (λ t. (ok t, record r { pos_ = r.pos_ + 1 }))
          (omega (arith, le_value-get r 0 0 e0, le_value_start r 1)))

  u16_full :
      r.pos_ + 2 ≤ size r
      → ByteAt r 0
      → ByteAt r 1
      → read_u16 r ≡ (ok (le_value (take 2 (drop r.pos_ r.bytes))), record r { pos_ = r.pos_ + 2 })
  unfolding read_u16 le_value
  u16_full p (b0, h0, e0, at0) (b1, h1, e1, at1) =
      rw (ensure_within r 2 v p, at0, at1, pos_within r 2 v p)
        (ap (λ t. (ok t, record r { pos_ = r.pos_ + 2 }))
          (omega (
            arith,
            bit_or_shifted 8 b0 b1,
            le_value-get r 0 1 e0,
            le_value-get r 1 0 e1,
            le_value_start r 2,
          )))

  u32_full :
      r.pos_ + 4 ≤ size r
      → ByteAt r 0
      → ByteAt r 1
      → ByteAt r 2
      → ByteAt r 3
      → read_u32 r ≡ (ok (le_value (take 4 (drop r.pos_ r.bytes))), record r { pos_ = r.pos_ + 4 })
  unfolding read_u32 le_value
  u32_full p (b0, h0, e0, at0) (b1, h1, e1, at1) (b2, h2, e2, at2) (b3, h3, e3, at3) =
      rw (ensure_within r 4 v p, at0, at1, at2, at3, pos_within r 4 v p)
        (ap (λ t. (ok t, record r { pos_ = r.pos_ + 4 }))
          (omega (
            arith,
            or_four_bytes b0 b1 b2 b3 h0 h1 h2,
            le_value-get r 0 3 e0,
            le_value-get r 1 2 e1,
            le_value-get r 2 1 e2,
            le_value-get r 3 0 e3,
            le_value_start r 4,
          )))

  read_u8-le_read : read_u8 r ≡ le_read 1 r
  unfolding read_u8
  read_u8-le_read =
      le_read_cases r 1 read_u8 (λ p. rw (ensure_past r 1 v (omega arith) p))
        (λ p. u8_full p (byte_at_lem r 0 v (omega arith)))

  read_u16-le_read : read_u16 r ≡ le_read 2 r
  unfolding read_u16
  read_u16-le_read =
      le_read_cases r 2 read_u16 (λ p. rw (ensure_past r 2 v (omega arith) p))
        λ p. u16_full p (byte_at_lem r 0 v (omega arith)) (byte_at_lem r 1 v (omega arith))

  read_u32-le_read : read_u32 r ≡ le_read 4 r
  unfolding read_u32
  read_u32-le_read =
      le_read_cases r 4 read_u32 (λ p. rw (ensure_past r 4 v (omega arith) p))
        λ p.
          u32_full p (byte_at_lem r 0 v (omega arith)) (byte_at_lem r 1 v (omega arith))
            (byte_at_lem r 2 v (omega arith)) (byte_at_lem r 3 v (omega arith))

-- Each unsigned read of 1, 2, 4, 5, 6 or 8 bytes returns the little-endian value of the next bytes and
-- moves the cursor past them, or, where fewer are left, throws `out_of_range` with the cursor unmoved;
-- for a cursor inside a buffer of bytes that is shorter than 2 ^ 63.
pub reads-le_read :
    (r : Reader)
    → IsValid r
    → (read_u8 r ≡ le_read 1 r)
      × (read_u16 r ≡ le_read 2 r)
      × (read_u32 r ≡ le_read 4 r)
      × (read_u40 r ≡ le_read 5 r)
      × (read_u48 r ≡ le_read 6 r)
      × (read_u64 r ≡ le_read 8 r)
unfolding read_u40 read_u48 read_u64 loop_read
reads-le_read r v = (
  read_u8-le_read r v,
  read_u16-le_read r v,
  read_u32-le_read r v,
  loop_read-le_read 5 r (omega arith) v,
  loop_read-le_read 6 r (omega arith) v,
  loop_read-le_read 8 r (omega arith) v,
)
