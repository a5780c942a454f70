-- ===== src/Varint/RoundTrip.antt =====
-- `read_varuint` reads back what `encode_varuint` wrote, wherever it stands in a buffer.
use fast_gdb.Base.{
  ℕ, ◌^◌, ◌<◌, ◌≡◌, ap, ap₂, ◌∙◌, List, [], ◌∷◌, ◌++◌, arith, length, length-append,
  drop-append_length,
}
use fast_gdb.BinaryReader.{ok, Reader, read_varuint}
use fast_gdb.BinaryReader.Bounds.{IsValid}
use fast_gdb.BinaryReader.Varuint.{Rest, moved, read_varuint-groups_value}
use fast_gdb.Varint.{encode_varuint}
use fast_gdb.Varint.Encode.{Groups, group_bytes, encode_varuint-Groups}
use mathlib.Core.List.{append_assoc}
use native.Mathlib.Nat.{mod-eq_of_lt}

-- A reader whose cursor stands behind `front`, at `bytes`.
abbrev pub framed : List ℕ → List ℕ → List ℕ → Reader
framed front bytes tail = record { bytes = front ++ (bytes ++ tail); pos_ = length front }

pub framed-Rest :
    (front tail bytes run : List ℕ) (last : ℕ)
    → bytes ≡ run ++ (last ∷ [])
    → Rest (framed front bytes tail) (run ++ (last ∷ tail))
framed-Rest front tail bytes run last e =
    drop-append_length front (bytes ++ tail) ∙ rw e (append_assoc run (last ∷ []) tail)

read_group_bytes :
    (front tail bytes : List ℕ) (value : ℕ)
    → value < 2 ^ 64
    → IsValid (framed front bytes tail)
    → (p : (g : Groups 9 value) × (bytes ≡ group_bytes g))
    → read_varuint (framed front bytes tail)
      ≡ (ok value, moved (framed front bytes tail) (length bytes))
read_group_bytes front tail bytes value h v (g, e) =
    read_varuint-groups_value (framed front bytes tail) g.run g.last tail v g.continued
      (framed-Rest front tail bytes g.run g.last e) g.ends g.short
    ∙ ap₂ (λ t n. (ok t, moved (framed front bytes tail) n)) (rw g.value_lem (mod-eq_of_lt h))
        (omega (arith, ap length e, length-append g.run (g.last ∷ [])))

-- For every uint64_t and any bytes before and behind its encoding, in a buffer of bytes shorter than
-- 2 ^ 63, `read_varuint` returns the number and moves the cursor past the encoding and no further.
pub read_varuint-encode_varuint :
    (front tail : List ℕ) (value : ℕ)
    → value < 2 ^ 64
    → IsValid (framed front (encode_varuint value) tail)
    → read_varuint (framed front (encode_varuint value) tail)
      ≡ (ok value, moved (framed front (encode_varuint value) tail) (length (encode_varuint value)))
read_varuint-encode_varuint front tail value h v =
    read_group_bytes front tail (encode_varuint value) value h v (encode_varuint-Groups value h)
