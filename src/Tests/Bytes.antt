-- ===== src/Tests/Bytes.antt =====
-- The byte cursor and the variable-length integers on concrete buffers.
use fast_gdb.Base.{ℕ, ◌≡◌, refl, List, [], ◌∷◌, ◌++◌, some, arith, length, drop}
use fast_gdb.Base.Int.{pos, negsuc}
use fast_gdb.BinaryReader.{
  ok, Reader, read_u8, read_u16, read_u32, read_u40, read_u48, read_u64, read_varuint, read_varint,
  read_utf16,
}
use fast_gdb.BinaryReader.Text.{read_utf16-utf8_to_utf16}
use fast_gdb.Utf16.{utf8_to_utf16}
use fast_gdb.BinaryReader.Bounds.{IsValid, le_read, reads-le_read}
use fast_gdb.BinaryReader.Varuint.{moved}
use fast_gdb.Varint.{
  encode_varuint, encode_varint, encode_varuint_to, encode_varint_to, varint_tail,
  varuint_encoded_len,
}
use fast_gdb.Varint.SignedBuffer.{filled, encode_varint_to-encode_varint}
use mathlib.Core.Option
use fast_gdb.Varint.Buffer.{encode_varuint_to-encode_varuint}
use fast_gdb.Varint.RoundTrip.{framed, read_varuint-encode_varuint}
use fast_gdb.Varint.Signed.{read_varint-encode_varint}

abbrev short_buffer : Reader
short_buffer = record { bytes = 9 ∷ 0xac ∷ 2 ∷ 7 ∷ []; pos_ = 1 }

short_buffer-IsValid : IsValid short_buffer
short_buffer-IsValid = record {
  inside = omega arith;
  allocated = omega arith;
  octets = omega arith;
}

reads-le_read_example :
    (read_u8 short_buffer ≡ le_read 1 short_buffer)
    × (read_u16 short_buffer ≡ le_read 2 short_buffer)
    × (read_u32 short_buffer ≡ le_read 4 short_buffer)
    × (read_u40 short_buffer ≡ le_read 5 short_buffer)
    × (read_u48 short_buffer ≡ le_read 6 short_buffer)
    × (read_u64 short_buffer ≡ le_read 8 short_buffer)
reads-le_read_example = reads-le_read short_buffer short_buffer-IsValid

-- A length byte, then "a" and U+00E9 in UTF-16.
abbrev named : Reader
named = record { bytes = 2 ∷ 97 ∷ 0 ∷ 0xe9 ∷ 0 ∷ 7 ∷ []; pos_ = 1 }

read_utf16-utf8_to_utf16_example :
    (text : List ℕ) × (read_utf16 (pos 2) named ≡ (ok text, moved named 4))
    × (utf8_to_utf16 text ≡ 97 ∷ 0xe9 ∷ [])
read_utf16-utf8_to_utf16_example =
    read_utf16-utf8_to_utf16 named
      (record { inside = omega arith; allocated = omega arith; octets = omega arith })
      (97 ∷ 0xe9 ∷ []) (7 ∷ []) (omega arith) (omega arith) refl

abbrev ten_ff : List ℕ
ten_ff = 255 ∷ 255 ∷ 255 ∷ 255 ∷ 255 ∷ 255 ∷ 255 ∷ 255 ∷ 255 ∷ 255 ∷ []

abbrev wide_buffer : Reader
wide_buffer = record { bytes = ten_ff ++ (1 ∷ []); pos_ = 0 }

abbrev cut_buffer : Reader
cut_buffer = record { bytes = ten_ff; pos_ = 0 }

encode_300 : encode_varuint 300 ≡ 0xac ∷ 2 ∷ []
unfolding encode_varuint
encode_300 = refl

encode_max : length (encode_varuint 0xffff_ffff_ffff_ffff) ≡ 10
unfolding encode_varuint
encode_max = refl

-- The header says [0x02] and [0x03].
encode_one : encode_varint (pos 1) ≡ some (0x01 ∷ [])
unfolding encode_varint varint_tail
encode_one = refl

encode_minus_one : encode_varint (negsuc 0) ≡ some (0x41 ∷ [])
unfolding encode_varint varint_tail
encode_minus_one = refl

read_varuint-encode_varuint_example :
    read_varuint (framed (9 ∷ []) (encode_varuint 300) (7 ∷ []))
    ≡ (ok 300, moved (framed (9 ∷ []) (encode_varuint 300) (7 ∷ [])) (length (encode_varuint 300)))
read_varuint-encode_varuint_example =
    read_varuint-encode_varuint (9 ∷ []) (7 ∷ []) 300 (omega arith) valid
  where
    valid : IsValid (framed (9 ∷ []) (encode_varuint 300) (7 ∷ []))
    valid = rw encode_300 short_buffer-IsValid

encode_minus_300 : encode_varint (negsuc 299) ≡ some (0xec ∷ 4 ∷ [])
unfolding encode_varint varint_tail
encode_minus_300 = refl

abbrev signed_frame : Reader
signed_frame = framed (9 ∷ []) (0xec ∷ 4 ∷ []) (7 ∷ [])

read_varint-encode_varint_example :
    read_varint signed_frame ≡ (ok (negsuc 299), moved signed_frame 2)
read_varint-encode_varint_example =
    read_varint-encode_varint (negsuc 299) (9 ∷ []) (7 ∷ []) (0xec ∷ 4 ∷ []) (omega arith)
      encode_minus_300
      (record { inside = omega arith; allocated = omega arith; octets = omega arith })

encode_varuint_to-encode_varuint_example :
    (encode_varuint_to ten_ff 300 ≡ (
      length (encode_varuint 300),
      encode_varuint 300 ++ drop (length (encode_varuint 300)) ten_ff,
    ))
    × (varuint_encoded_len 300 ≡ length (encode_varuint 300))
encode_varuint_to-encode_varuint_example =
    encode_varuint_to-encode_varuint ten_ff 300 (omega arith) (omega arith)

-- The same bytes through the buffer.
encode_varint_to-encode_varint_example :
    encode_varint_to ten_ff (negsuc 299) ≡ Option.map (filled ten_ff) (encode_varint (negsuc 299))
encode_varint_to-encode_varint_example =
    encode_varint_to-encode_varint ten_ff (negsuc 299) (omega arith) (omega arith)
