-- ===== src/Tests/Offsets.antt =====
-- Offset entries and the loop over them, for the parser of gdb_tablx.cpp.
use fast_gdb.Base.{List, ℕ, ltb, ◌==◌, not, if◌then◌else◌, ◌≡◌, refl, inr, [], ◌∷◌, arith}
use fast_gdb.BinaryReader.{ok, Reader}
use fast_gdb.BinaryReader.Bounds.{IsValid, le_value}
use fast_gdb.Tablx.{entry_loop, get_offset, cleared}
use fast_gdb.Tablx.Rows.{with_rows, contains_row, entry_loop-get_offset}
use fast_gdb.Tablx.Offset.{value_at}

-- Two entries of six bytes behind a first byte, the second of them with its fifth byte set.
abbrev entries : Reader
entries = record { bytes = 255 ∷ 1 ∷ 2 ∷ 0 ∷ 0 ∷ 0 ∷ 3 ∷ 7 ∷ 0 ∷ 0 ∷ 0 ∷ 9 ∷ 0 ∷ []; pos_ = 1 }

entries-IsValid : IsValid entries
entries-IsValid = record { inside = omega arith; allocated = omega arith; octets = omega arith }

first_fifth : value_at entries 4 1 ≡ 0
unfolding le_value
first_fifth = refl

entry_loop-get_offset_example :
    (offsets : List ℕ) × (valid : List ℕ) × (entry_loop 6 2 0 [] [] entries
      ≡ (ok (offsets, valid), entries))
    × (get_offset (with_rows cleared offsets valid) 0
        ≡ (if ltb 0 2 then value_at entries 0 6 else 0))
    × (contains_row 0 valid ≡ not ((if ltb 0 2 then value_at entries 0 6 else 0) == 0))
entry_loop-get_offset_example =
    entry_loop-get_offset entries 6 2 0 cleared entries-IsValid (inr (inr refl)) (omega arith)
      (omega arith) (λ _ _. first_fifth)
