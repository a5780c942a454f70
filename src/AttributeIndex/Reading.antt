-- ===== src/AttributeIndex/Reading.antt =====
-- What the methods over a reader give on bytes that are there.
use fast_gdb.Base.{
  ℕ, zero, suc, ◌+◌, ◌*◌, ◌^◌, bit_and, ◌≤◌, ◌<◌, ◌≡◌, refl, ap, ◌∙◌, false, not, List, [], ◌∷◌,
  some, ltb, ◌==◌, arith, length, take, drop, get_elem?, take-drop_get, get_elem?-lt, All,
}
use native.Mathlib.Nat.{mul-le-mul_right, suc-mul, zero-mul}
use fast_gdb.BinaryReader.{ok, Reader, size, read_u8, read_u32, seek}
use fast_gdb.BinaryReader.Bounds.{IsByte, IsValid, le_value, le_read, reads-le_read}
use fast_gdb.Where.{Doubles}
use fast_gdb.AttributeIndex.{
  BPlusTreeTrailer, AttributeIndexEntry, max_per_page, parse_trailer, decode_value,
}
use fast_gdb.AttributeIndex.Pages.{read_times, values_loop, parse_leaf_page, parse_nonleaf_page}

abbrev pub reader : List ℕ → ℕ → Reader
reader bytes pos_ = record { bytes = bytes; pos_ = pos_ }

-- The number of four bytes from `at` on.
abbrev pub u32_in : List ℕ → ℕ → ℕ
u32_in bytes at = le_value (take 4 (drop at bytes))

-- `rounds` numbers, one behind the other.
abbrev pub u32s_in : List ℕ → ℕ → ℕ → List ℕ
u32s_in bytes zero at = []
u32s_in bytes (suc rounds) at = u32_in bytes at ∷ u32s_in bytes rounds (at + 4)

pub length-u32s_in : (b : List ℕ) (rounds at : ℕ) → length (u32s_in b rounds at) ≡ rounds
length-u32s_in b zero at = refl
length-u32s_in b (suc rounds) at = ap suc (length-u32s_in b rounds (at + 4))

module _ (b : List ℕ) (octets : All IsByte b) (allocated : length b < 2 ^ 63) where
  valid : (n : ℕ) → n ≤ length b → IsValid (reader b n)
  valid n h = record { inside = h; allocated = allocated; octets = octets }

  in_range :
      (k n : ℕ)
      → n + k ≤ length b
      → le_read k (reader b n) ≡ (ok (le_value (take k (drop n b))), reader b (n + k))
  unfolding le_read
  in_range k n h = let inside : ltb (length b) (n + k) ≡ false = ground arith in rw inside refl

  pub read_u32_in :
      (n : ℕ) → n + 4 ≤ length b → read_u32 (reader b n) ≡ (ok (u32_in b n), reader b (n + 4))
  read_u32_in n h =
      let (_, _, e, _, _, _) = reads-le_read (reader b n) (valid n (omega arith)) in
      e ∙ in_range 4 n h

  pub read_u8_in :
      (n : ℕ)
      → n + 1 ≤ length b
      → read_u8 (reader b n) ≡ (ok (le_value (take 1 (drop n b))), reader b (n + 1))
  read_u8_in n h =
      let (e, _, _, _, _, _) = reads-le_read (reader b n) (valid n (omega arith)) in
      e ∙ in_range 1 n h

  pub read_times-read_u32 :
      (rounds n : ℕ)
      → n + rounds * 4 ≤ length b
      → read_times rounds read_u32 (reader b n)
        ≡ (ok (u32s_in b rounds n), reader b (n + rounds * 4))
  unfolding read_times
  read_times-read_u32 zero n h = ap (λ m. (ok [], reader b m)) (omega arith)
  read_times-read_u32 (suc rounds) n h =
      let further : n + 4 + rounds * 4 ≡ n + suc rounds * 4 = omega arith in
      rw (read_u32_in n (omega arith), read_times-read_u32 rounds (n + 4) (omega arith), further)
        refl

  one_value : (n : ℕ) {a : ℕ} → get_elem? b n ≡ some a → le_value (take 1 (drop n b)) ≡ a
  unfolding le_value
  one_value n {a} e = ap le_value (take-drop_get b n 0 e) ∙ omega arith

  read_times-read_u8 :
      (rounds n : ℕ)
      → n + rounds ≤ length b
      → read_times rounds read_u8 (reader b n)
        ≡ (ok (take rounds (drop n b)), reader b (n + rounds))
  unfolding read_times
  read_times-read_u8 zero n h = ap (λ m. (ok [], reader b m)) (omega arith)
  read_times-read_u8 (suc rounds) n h =
      let (a, e) = get_elem?-lt b n (omega arith) in
      let first : le_value (take 1 (drop n b)) ≡ a = one_value n e in
      let more : take (suc rounds) (drop n b) ≡ a ∷ take rounds (drop (suc n) b) =
        take-drop_get b n rounds e in
      let next : n + 1 ≡ suc n = omega arith in
      let further : n + 1 + rounds ≡ n + suc rounds = omega arith in
      rw
        (
          read_u8_in n (omega arith),
          read_times-read_u8 rounds (n + 1) (omega arith),
          further,
          first,
          next,
          more,
        )
        refl

module _ (D : Doubles) (nan : D.Double) where
  open D use {Double}

  abbrev pub entries_in : List ℕ → BPlusTreeTrailer → List ℕ → ℕ → List (AttributeIndexEntry Double)
  entries_in b t [] at = []
  entries_in b t (fid ∷ fids) at =
      decode_value D nan (take t.value_size (drop at b)) t.value_size t.is_string fid
      ∷ entries_in b t fids (at + t.value_size)

  module _ (b : List ℕ) (octets : All IsByte b) (allocated : length b < 2 ^ 63)
      (t : BPlusTreeTrailer) where
    values_loop_in :
        (fids : List ℕ) (at : ℕ)
        → at + length fids * t.value_size ≤ length b
        → values_loop D nan t fids (reader b at)
          ≡ (ok (entries_in b t fids at), reader b (at + length fids * t.value_size))
    unfolding values_loop
    values_loop_in [] at h = ap (λ m. (ok [], reader b m)) (omega (arith, zero-mul t.value_size))
    values_loop_in (fid ∷ fids) at h =
        let more = suc-mul (length fids) t.value_size in
        let further : at + t.value_size + length fids * t.value_size
            ≡ at + suc (length fids) * t.value_size =
          omega (arith, more) in
        rw
          (
            read_times-read_u8 b octets allocated t.value_size at (omega (arith, more)),
            values_loop_in fids (at + t.value_size) (omega (arith, more)),
            further,
          )
          refl

    pub parse_leaf_page_in :
        12 + max_per_page t.value_size * 4 + max_per_page t.value_size * t.value_size ≤ length b
        → (max_per_page t.value_size == 0) ≡ false
        → u32_in b 4 ≤ max_per_page t.value_size
        → (parse_leaf_page D nan t (reader b 0)).0
          ≡ ok (entries_in b t (u32s_in b (u32_in b 4) 12) (12 + max_per_page t.value_size * 4))
    unfolding parse_leaf_page seek
    parse_leaf_page_in fits some_entries few =
        let small : ltb (max_per_page t.value_size) (u32_in b 4) ≡ false = ground arith in
        let values : ltb (length b) (12 + max_per_page t.value_size * 4) ≡ false = ground arith in
        let inside : 12
              + max_per_page t.value_size * 4
              + length (u32s_in b (u32_in b 4) 12) * t.value_size
            ≤ length b =
          rw (length-u32s_in b (u32_in b 4) 12)
            (omega (arith, fits, mul-le-mul_right t.value_size few)) in
        rw
          (
            read_u32_in b octets allocated 0 (omega arith),
            read_u32_in b octets allocated 4 (omega arith),
            read_u32_in b octets allocated 8 (omega arith),
            some_entries,
            small,
            read_times-read_u32 b octets allocated (u32_in b 4) 12 (omega arith),
            values,
            values_loop_in (u32s_in b (u32_in b 4) 12) (12 + max_per_page t.value_size * 4) inside,
          )
          refl

abbrev values_in : List ℕ → ℕ → ℕ → ℕ → List (List ℕ)
values_in b size zero at = []
values_in b size (suc rounds) at = take size (drop at b) ∷ values_in b size rounds (at + size)

module _ (b : List ℕ) (octets : All IsByte b) (allocated : length b < 2 ^ 63)
    (t : BPlusTreeTrailer) where
  skip_values :
      (rounds at : ℕ)
      → at + rounds * t.value_size ≤ length b
      → read_times rounds (read_times t.value_size read_u8) (reader b at)
        ≡ (ok (values_in b t.value_size rounds at), reader b (at + rounds * t.value_size))
  unfolding read_times
  skip_values zero at h = ap (λ m. (ok [], reader b m)) (omega (arith, zero-mul t.value_size))
  skip_values (suc rounds) at h =
      let more = suc-mul rounds t.value_size in
      let further : at + t.value_size + rounds * t.value_size ≡ at + suc rounds * t.value_size =
        omega (arith, more) in
      rw
        (
          read_times-read_u8 b octets allocated t.value_size at (omega (arith, more)),
          skip_values rounds (at + t.value_size) (omega (arith, more)),
          further,
        )
        refl

  pub parse_nonleaf_page_in :
      12 + max_per_page t.value_size * 4 + max_per_page t.value_size * t.value_size ≤ length b
      → (max_per_page t.value_size == 0) ≡ false
      → u32_in b 4 ≤ max_per_page t.value_size
      → (parse_nonleaf_page t (reader b 0)).0 ≡ ok (u32s_in b (u32_in b 4) 8)
  unfolding parse_nonleaf_page seek
  parse_nonleaf_page_in fits some_entries few =
      let small : ltb (max_per_page t.value_size) (u32_in b 4) ≡ false = ground arith in
      let values : ltb (length b) (12 + max_per_page t.value_size * 4) ≡ false = ground arith in
      rw
        (
          read_u32_in b octets allocated 0 (omega arith),
          read_u32_in b octets allocated 4 (omega arith),
          some_entries,
          small,
          read_times-read_u32 b octets allocated (u32_in b 4) 8 (omega arith),
          values,
          skip_values (u32_in b 4) (12 + max_per_page t.value_size * 4)
              (omega (arith, mul-le-mul_right t.value_size few)),
        )
        refl

-- The trailer of the last bytes.
abbrev pub trailer_in : List ℕ → BPlusTreeTrailer
trailer_in b =
    let flags = le_value (take 1 (drop 1 b)) in
    record {
      value_size = le_value (take 1 (drop 0 b));
      is_string = not (bit_and flags 0x20 == 0);
      is_numeric = not (bit_and flags 0x40 == 0);
      magic1 = u32_in b 2;
      tree_depth = u32_in b 6;
      total_value_count = u32_in b 10;
    }

pub parse_trailer_in :
    (b : List ℕ)
    → All IsByte b
    → length b < 2 ^ 63
    → 14 ≤ length b
    → (parse_trailer (reader b 0)).0 ≡ ok (trailer_in b)
unfolding parse_trailer
parse_trailer_in b octets allocated h =
    rw
      (
        read_u8_in b octets allocated 0 (omega arith),
        read_u8_in b octets allocated 1 (omega arith),
        read_u32_in b octets allocated 2 (omega arith),
        read_u32_in b octets allocated 6 (omega arith),
        read_u32_in b octets allocated 10 (omega arith),
      )
      refl
