-- ===== src/Tablx.antt =====
-- reader/format/gdb_tablx.h and gdb_tablx.cpp of src/edgar/explorgdb: the parser of a .gdbtablx file, which
-- gives the offset of each row of a table. `none` stands for a file that cannot be opened or read; the
-- bytes are kept by no other operation than the parser. Warnings on std::cerr are left out.
pub mod Offset
pub mod Rows
use fast_gdb.Base.{
  ℕ, zero, suc, ◌+◌, ◌-◌, ◌*◌, ◌/◌, ◌%◌, ◌^◌, bit_and, bit_or, Bool, true, false, not, ◌&&◌, List,
  [], ◌∷◌, ◌++◌, Option, none, some, ltb, ◌==◌, if◌then◌else◌, length, get_elem?, get_or, set,
}
use fast_gdb.BinaryReader.{
  Outcome, ok, out_of_range, length_error, undefined, out_of_fuel, Reader, size, M, ◌>>=◌, ◌>>◌,
  and_then, return, fail, byte_at, read_u8, read_u32, read_u64, skip, tell, can_read,
}

pub record TablxHeader : Type 0 where
  pub version : ℕ
  pub n1024blocks_v3 : ℕ
  pub nfeatures_v3 : ℕ
  pub unknown_v4 : ℕ
  pub size_tablx_offsets : ℕ
  pub nfeatures_v4 : ℕ
  pub sizeof_varying_section : ℕ

abbrev pub new_header : TablxHeader
new_header = record {
  version = 0;
  n1024blocks_v3 = 0;
  nfeatures_v3 = 0;
  unknown_v4 = 0;
  size_tablx_offsets = 0;
  nfeatures_v4 = 0;
  sizeof_varying_section = 0;
}

pub record GdbTablxParser : Type 0 where
  pub hdr : TablxHeader
  pub offsets : List ℕ
  pub block_bitmap : List Bool
  pub valid_offsets : List ℕ

abbrev pub cleared : GdbTablxParser
cleared = record { hdr = new_header; offsets = []; block_bitmap = []; valid_offsets = [] }

-- `data[0] | (data[1] << 8) | (data[2] << 16) | (data[3] << 24)`, converted to uint32_t; `start` is
-- the distance of the pointer from the cursor.
abbrev pub four_bytes : ℕ → M ℕ
four_bytes start = do
  b0 ← byte_at start
  b1 ← byte_at (start + 1)
  b2 ← byte_at (start + 2)
  b3 ← byte_at (start + 3)
  return (bit_or (bit_or (bit_or b0 (b1 * 2 ^ 8)) (b2 * 2 ^ 16)) (b3 * 2 ^ 24))

-- `read_offset`. The shift of `v_mid`, a uint32_t, is taken modulo 2 ^ 32.
unfoldable pub read_offset : ℕ → ℕ → M ℕ
read_offset start size_bytes =
    let five = (do
      v_low ← byte_at start
      v_high ← four_bytes (start + 1)
      return (bit_or v_low (v_high * 2 ^ 8))) in
    let six = (do
      v_low ← byte_at start
      v_mid ← four_bytes (start + 1)
      v_high ← byte_at (start + 5)
      return (bit_or (bit_or v_low (v_mid * 2 ^ 8 % 2 ^ 32)) (v_high * 2 ^ 40))) in
    if size_bytes == 4
    then four_bytes start
    else (if size_bytes == 5 then five else (if size_bytes == 6 then six else return 0))

-- The loop over the entries from `i` on, `n` of them, with the offsets and the valid rows so far.
unfoldable pub entry_loop : ℕ → ℕ → ℕ → List ℕ → List ℕ → M (List ℕ × List ℕ)
entry_loop entry_size zero i offsets valid = return (offsets, valid)
entry_loop entry_size (suc n) i offsets valid = read_offset (i * entry_size) entry_size >>= λ v.
    entry_loop entry_size n (i + 1) (offsets ++ (v ∷ []))
      (if v == 0 then valid else valid ++ (i % 2 ^ 32 ∷ []))

-- The header up to the offsets; `false` is the return on an unknown version.
unfoldable pub read_header : M (Bool × TablxHeader)
read_header = read_u32 >>= λ version.
    let v3 = (do
      n ← read_u32
      nfeatures ← read_u32
      width ← read_u32
      return (
        true,
        record new_header {
          version = version;
          n1024blocks_v3 = n;
          nfeatures_v3 = nfeatures;
          size_tablx_offsets = width;
        },
      )) in
    let v4 = (do
      unknown ← read_u32
      width ← read_u32
      skip 8
      return (
        true,
        record new_header { version = version; unknown_v4 = unknown; size_tablx_offsets = width },
      )) in
    if version == 3
    then v3
    else (if version == 4 then v4 else return (false, record new_header { version = version }))

abbrev pub bit_at : ℕ → ℕ → Bool
bit_at byte bit = byte / 2 ^ bit % 2 == 1

-- The loop over the bits of byte `i`: `n` of them, from `bit` on.
pub bit_loop : ℕ → ℕ → ℕ → ℕ → ℕ → List Bool → List Bool
bit_loop n_bits byte i bit zero bitmap = bitmap
bit_loop n_bits byte i bit (suc n) bitmap =
    let index = i * 8 + bit in
    bit_loop n_bits byte i (bit + 1) n
      (if ltb index n_bits then set bitmap index (bit_at byte bit) else bitmap)

pub bitmap_loop : ℕ → ℕ → ℕ → List Bool → M (List Bool)
bitmap_loop n_bits zero i bitmap = return bitmap
bitmap_loop n_bits (suc n) i bitmap =
    read_u8 >>= λ byte. bitmap_loop n_bits n (i + 1) (bit_loop n_bits byte i 0 8 bitmap)

abbrev pub replicate : ℕ → List Bool
replicate zero = []
replicate (suc n) = false ∷ replicate n

-- The bitmap, of one bit for each of `n_bits` blocks.
pub read_blocks : GdbTablxParser → ℕ → M (Bool × GdbTablxParser)
read_blocks p n_bits r =
    let bitmap_bytes = (n_bits + 7) / 8 in
    let rest = (do
      bitmap ← bitmap_loop n_bits bitmap_bytes 0 (replicate n_bits)
      return (true, record p { block_bitmap = bitmap })) in
    if not (can_read r bitmap_bytes) then (ok (false, p), r) else rest r

-- What follows the offsets in a file of version 3.
pub parse_bitmap : GdbTablxParser → M (Bool × GdbTablxParser)
parse_bitmap p r =
    let rest = (do
      n_bitmap_int32 ← read_u32
      n_bits ← read_u32
      n1024blocks_bis ← read_u32
      n_leading_nonzero ← read_u32
      if n_bitmap_int32 == 0 then return (true, p) else read_blocks p n_bits) in
    if not (can_read r 16) then (ok (false, p), r) else rest r

-- What follows the offsets in a file of version 4.
pub parse_trailer : GdbTablxParser → M (Bool × GdbTablxParser)
parse_trailer p r =
    let rest = (do
      nfeatures ← read_u64
      varying ← read_u32
      return (
        true,
        record p {
          hdr = record p.hdr { nfeatures_v4 = nfeatures; sizeof_varying_section = varying };
        },
      )) in
    if not (can_read r 12) then (ok (false, p), r) else rest r

-- The offsets and what follows them.
unfoldable pub parse_table : TablxHeader → M (Bool × GdbTablxParser)
parse_table hdr r =
    let p = record cleared { hdr = hdr } in
    let entry_size = hdr.size_tablx_offsets in
    let n_entries = hdr.n1024blocks_v3 * 1024 in
    let table = (do
      entries ← entry_loop entry_size n_entries 0 [] []
      skip (n_entries * entry_size)
      let q = record p { offsets = entries.0; valid_offsets = entries.1 }
      if hdr.version == 3 then parse_bitmap q else parse_trailer q) in
    if not (entry_size == 4) && not (entry_size == 5) && not (entry_size == 6)
    then (ok (false, p), r)
    else (if ltb ((2 ^ 32 - 1) / 1024) hdr.n1024blocks_v3
        then (ok (false, p), r)
        else (if ltb ((size r - tell r) / entry_size) n_entries
            then (ok (false, p), r)
            else table r))

unfoldable pub parse_bytes : M (Bool × GdbTablxParser)
parse_bytes = do
  (known, hdr) ← read_header
  if known then parse_table hdr else return (false, record cleared { hdr = hdr })

-- The handler of `parse` clears what the body has set.
abbrev pub caught : Outcome (Bool × GdbTablxParser) → Outcome (Bool × GdbTablxParser)
caught (ok result) = ok result
caught out_of_range = ok (false, cleared)
caught length_error = ok (false, cleared)
caught undefined = undefined
caught out_of_fuel = out_of_fuel

unfoldable pub parse : Option (List ℕ) → Outcome (Bool × GdbTablxParser)
parse none = ok (false, cleared)
parse (some bytes) = caught (parse_bytes (record { bytes = bytes; pos_ = 0 })).0

unfoldable pub get_offset : GdbTablxParser → ℕ → ℕ
get_offset p fid = get_or p.offsets fid 0

pub feature_count : GdbTablxParser → ℕ
feature_count p = length p.valid_offsets

pub is_block_active : GdbTablxParser → ℕ → Bool
is_block_active p block_index =
    if length p.block_bitmap == 0
    then true
    else elim (get_elem? p.block_bitmap block_index) [ none ↦ false | some active ↦ active ]
