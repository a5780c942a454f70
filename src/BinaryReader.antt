-- ===== src/BinaryReader.antt =====
-- common/binary_reader.h and binary_reader.cpp of src/edgar/explorgdb: the little-endian cursor over a
-- byte buffer. A method takes the reader and returns its outcome with the reader as it is left, also
-- where it throws. Sizes and positions are size_t, so `pos_ + n` wraps at 2 ^ 64.
pub mod Bounds
pub mod Varuint
pub mod Varint
pub mod Moves
pub mod Text
pub mod Floats
pub mod Signed
use fast_gdb.Base.{
  ℕ, zero, suc, ◌+◌, ◌-◌, ◌*◌, ◌%◌, ◌^◌, bit_and, bit_or, Bool, true, false, List, [], ◌∷◌, Option,
  none, some, ltb, leb, ◌==◌, ◌||◌, if◌then◌else◌, length, get_elem?, take, drop,
}
use fast_gdb.Base.Int.{ℤ, pos, negsuc, neg, signed}
use fast_gdb.Utf16.{utf16le_to_utf8, converted, threw_length_error, ran_undefined}

-- Two exceptions; `undefined` is undefined behaviour of C++: a read outside the buffer, a shift by 64 or more, a
-- signed overflow. `out_of_fuel` is no C++ outcome: a loop of the model ran out of rounds.
pub data Outcome {ℓ} (A : Type ℓ) : Type ℓ where
  ok : A → Outcome A
  out_of_range : Outcome A
  length_error : Outcome A
  undefined : Outcome A
  out_of_fuel : Outcome A

pub record Reader : Type 0 where
  pub bytes : List ℕ
  pub pos_ : ℕ

abbrev pub size : Reader → ℕ
size r = length r.bytes

abbrev pub M {ℓ} : Type ℓ → Type ℓ
M A = Reader → Outcome A × Reader

abbrev pub and_then {ℓ κ} :
    {A : Type ℓ} {B : Type κ} → Outcome A × Reader → (A → M B) → Outcome B × Reader
and_then (ok a, r) f = f a r
and_then (out_of_range, r) f = (out_of_range, r)
and_then (length_error, r) f = (length_error, r)
and_then (undefined, r) f = (undefined, r)
and_then (out_of_fuel, r) f = (out_of_fuel, r)

infixl 5 ◌>>=◌ ◌>>◌
abbrev pub ◌>>=◌ {ℓ κ} : {A : Type ℓ} {B : Type κ} → M A → (A → M B) → M B
◌>>=◌ m f r = and_then (m r) f

abbrev pub ◌>>◌ {ℓ} : {B : Type ℓ} → M (Unit {0}) → M B → M B
◌>>◌ m k = m >>= λ _. k

abbrev pub return {ℓ} : {A : Type ℓ} → A → M A
return a r = (ok a, r)

abbrev pub fail {ℓ} : {A : Type ℓ} → Outcome A → M A
fail o r = (o, r)

-- `pos_ + n > size_`, in size_t.
pub past_end : Reader → ℕ → Bool
past_end r n = ltb (size r) ((r.pos_ + n) % 2 ^ 64)

pub ensure : ℕ → M (Unit {0})
unfolding past_end
ensure n r = if past_end r n then (out_of_range, r) else (ok tt, r)

-- `data_[pos_ + i]`
pub byte_at : ℕ → M ℕ
byte_at i r = elim (get_elem? r.bytes (r.pos_ + i)) [ none ↦ (undefined, r) | some b ↦ (ok b, r) ]

pub advance : ℕ → M (Unit {0})
advance n r = (ok tt, record r { pos_ = (r.pos_ + n) % 2 ^ 64 })

unfoldable pub read_u8 : M ℕ
unfolding ensure byte_at advance
read_u8 = do ensure 1; b ← byte_at 0; advance 1; return b

pub read_u16 : M ℕ
unfolding ensure byte_at advance
read_u16 = do
  ensure 2
  b0 ← byte_at 0
  b1 ← byte_at 1
  let v = bit_or b0 (b1 * 2 ^ 8)
  advance 2
  return v

unfoldable pub read_u32 : M ℕ
unfolding ensure byte_at advance
read_u32 = do
  ensure 4
  b0 ← byte_at 0
  b1 ← byte_at 1
  b2 ← byte_at 2
  b3 ← byte_at 3
  let v = bit_or (bit_or (bit_or b0 (b1 * 2 ^ 8)) (b2 * 2 ^ 16)) (b3 * 2 ^ 24)
  advance 4
  return v

-- `for (i..) v |= uint64_t(data_[pos_ + i]) << (i * 8)`, with `n` rounds left.
pub le_loop : ℕ → ℕ → ℕ → M ℕ
unfolding byte_at
le_loop zero i v = return v
le_loop (suc n) i v = byte_at i >>= λ b. le_loop n (i + 1) (bit_or v (b * 2 ^ (i * 8)))

pub read_u64 : M ℕ
unfolding ensure le_loop advance
read_u64 = do ensure 8; v ← le_loop 8 0 0; advance 8; return v

pub read_u40 : M ℕ
unfolding ensure le_loop advance
read_u40 = do ensure 5; v ← le_loop 5 0 0; advance 5; return v

pub read_u48 : M ℕ
unfolding ensure le_loop advance
read_u48 = do ensure 6; v ← le_loop 6 0 0; advance 6; return v

pub read_i16 : M ℤ
unfolding read_u16
read_i16 = do u ← read_u16; return (signed 15 u)

pub read_i32 : M ℤ
unfolding read_u32
read_i32 = do u ← read_u32; return (signed 31 u)

pub read_i64 : M ℤ
unfolding read_u64
read_i64 = do u ← read_u64; return (signed 63 u)

-- The do loop of `read_varuint`. The shift is undefined from 64 on, so eleven rounds are enough.
pub varuint_loop : ℕ → ℕ → ℕ → M ℕ
varuint_loop zero ret shift = fail out_of_fuel
varuint_loop (suc fuel) ret shift = do
  byte ← read_u8
  let ret' = bit_or ret (bit_and byte 0x7f * 2 ^ shift % 2 ^ 64)
  let rest = varuint_loop fuel ret' (shift + 7)
  if leb 64 shift then fail undefined else (if bit_and byte 0x80 == 0 then return ret' else rest)

pub read_varuint : M ℕ
unfolding varuint_loop read_u8
read_varuint = varuint_loop 11 0 0

-- The while loop of `read_varint`, over the last byte read. `int64_t << shift` is undefined where the
-- mathematical value does not fit the unsigned type.
pub varint_loop : ℕ → ℕ → ℕ → ℕ → M ℕ
varint_loop zero b ret shift = fail out_of_fuel
varint_loop (suc fuel) b ret shift =
    let more = (do
      next ← read_u8
      let group = bit_and next 0x7f * 2 ^ shift
      let rest = varint_loop fuel next (bit_or ret group) (shift + 7)
      if leb 64 shift || leb (2 ^ 64) group then fail undefined else rest) in
    if bit_and b 0x80 == 0 then return ret else more

-- `sign * ret` on int64_t: the negation of the least value is undefined.
pub apply_sign : Bool → ℕ → M ℤ
apply_sign false ret = return (signed 63 ret)
apply_sign true ret = if ret == 2 ^ 63 then fail undefined else return (neg (signed 63 ret))

pub read_varint : M ℤ
read_varint = do
  b ← read_u8
  let negative = if bit_and b 0x40 == 0 then false else true
  ret ← varint_loop 11 b (bit_and b 0x3f) 6
  apply_sign negative ret

-- The copy reads `n` bytes from `pos_` on, wherever `ensure` let it through.
pub read_bytes : ℕ → M (List ℕ)
unfolding ensure advance
read_bytes n = do
  ensure n
  (λ r.
        if ltb (size r) (r.pos_ + n)
        then (undefined, r)
        else (ok (take n (drop r.pos_ r.bytes)), r))
      >>= λ result. advance n >> return result

-- `memcpy` of `n` bytes at the cursor, as the list of them.
pub copied : ℕ → M (List ℕ)
copied n r =
    if ltb (size r) (r.pos_ + n) then (undefined, r) else (ok (take n (drop r.pos_ r.bytes)), r)

-- What the bytes of a floating-point number mean is a parameter.
module _ {F : Type 0} (of_bytes : List ℕ → F) where
  pub read_f32 : M F
  unfolding ensure copied advance
  read_f32 = do ensure 4; v ← copied 4; advance 4; return (of_bytes v)

  pub read_f64 : M F
  unfolding ensure copied advance
  read_f64 = do ensure 8; v ← copied 8; advance 8; return (of_bytes v)

-- The string at the cursor.
pub decoded : ℤ → M (List ℕ)
decoded char_count r = elim (utf16le_to_utf8 (drop r.pos_ r.bytes) char_count) [
  | converted result ↦ (ok result, r)
  | threw_length_error ↦ (length_error, r)
  | ran_undefined ↦ (undefined, r)
]

-- `char_count * 2` is of type int, and becomes a size_t.
pub read_utf16 : ℤ → M (List ℕ)
unfolding ensure decoded advance
read_utf16 (pos char_count) = if leb (2 ^ 30) char_count then fail undefined else (do
  ensure (char_count * 2)
  result ← decoded (pos char_count)
  advance (char_count * 2)
  return result)
read_utf16 (negsuc n) = if leb (2 ^ 30) n then fail undefined else (do
  ensure (2 ^ 64 - suc n * 2)
  result ← decoded (negsuc n)
  advance (2 ^ 64 - suc n * 2)
  return result)

pub tell : Reader → ℕ
tell r = r.pos_

unfoldable pub seek : ℕ → M (Unit {0})
seek offset r =
    if ltb (size r) offset then (out_of_range, r) else (ok tt, record r { pos_ = offset })

pub skip : ℕ → M (Unit {0})
unfolding ensure advance
skip n = do ensure n; advance n

pub can_read : Reader → ℕ → Bool
can_read r n = leb ((r.pos_ + n) % 2 ^ 64) (size r)
