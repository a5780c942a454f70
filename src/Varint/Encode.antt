-- ===== src/Varint/Encode.antt =====
-- What the unsigned encoders write: continued groups and a last one, whose value is the number.
use fast_gdb.Base.{
  ℕ, zero, suc, ◌+◌, ◌/◌, ◌%◌, ◌^◌, ◌≤◌, ◌<◌, ◌≡◌, ap, ◌∙◌, bit_and, bit_or, List, [], ◌∷◌, ◌++◌,
  arith, length, All,
}
use fast_gdb.Base.Bits.{bit_or_shifted, bit_and_0x7f}
use fast_gdb.BinaryReader.Varuint.{groups_value, Continues}
use fast_gdb.BinaryReader.Bounds.{IsByte}
use fast_gdb.Base.Order.{lt_wf}
use fast_gdb.Varint.{shift_falls, varuint_bytes, encode_varuint}
use mathlib.Core.List.{append_assoc}
use mathlib.Core.Logic.{dif_pos, dif_neg}
use mathlib.Core.WellFounded.{Acc}
use native.Mathlib.Bridge.{le_prop}
use native.Mathlib.Decide.{dec_lt}

-- A number in groups: at most `k` bytes with bit 7 set, then one without it.
pub record Groups (k value : ℕ) : Type 0 where
  pub run : List ℕ
  pub last : ℕ
  pub continued : All Continues run
  pub octets : All IsByte run
  pub ends : last < 128
  pub short : length run ≤ k
  pub value_lem : groups_value (run ++ (last ∷ [])) ≡ value

abbrev pub group_bytes : {k value : ℕ} → Groups k value → List ℕ
group_bytes g = g.run ++ (g.last ∷ [])

pub low_byte : (v : ℕ) → bit_or (bit_and v 0x7f) 0x80 ≡ v % 128 + 128
low_byte v = rw bit_and_0x7f (bit_or_shifted 7 (v % 128) 1 (omega arith))

unfoldable pub one_group : (k value : ℕ) → value < 128 → Groups k value
unfolding groups_value
one_group k value h = record {
  run = [];
  last = value;
  continued = tt;
  octets = tt;
  ends = h;
  short = omega arith;
  value_lem = omega arith;
}

unfoldable pub next_group : (k value : ℕ) → Groups k (value / 128) → Groups (suc k) value
unfolding groups_value
next_group k value g = record {
  run = (value % 128 + 128) ∷ g.run;
  last = g.last;
  continued = (omega arith, g.continued);
  octets = (omega arith, g.octets);
  ends = g.ends;
  short = omega (arith, g.short);
  value_lem = omega (arith, g.value_lem);
}

-- One round of the loop.
module _ (out : List ℕ) (value : ℕ) (smaller : (y : ℕ) → y < value → Acc ◌<◌ y) where
  varuint_bytes_last :
      value < 128 → varuint_bytes out value (Acc.intro _ smaller) ≡ out ++ (value ∷ [])
  unfolding varuint_bytes
  varuint_bytes_last h =
      rw (dif_neg _ (λ (p : 0 < value / 128). absurd (omega arith)), bit_and_0x7f)
        (ap (λ b. out ++ (b ∷ [])) (omega arith))

  varuint_bytes_more :
      (p : 0 < value / 128)
      → (w : Acc ◌<◌ (value / 128)) × (varuint_bytes out value (Acc.intro _ smaller)
          ≡ varuint_bytes (out ++ ((value % 128 + 128) ∷ [])) (value / 128) w)
  unfolding varuint_bytes
  varuint_bytes_more p = (smaller _ (shift_falls value p), rw (dif_pos _ le_prop p, low_byte))

varuint_bytes-Groups :
    (k : ℕ) (out : List ℕ) (value : ℕ) (w : Acc ◌<◌ value)
    → value < 128 ^ suc k
    → (g : Groups k value) × (varuint_bytes out value w ≡ out ++ group_bytes g)
unfolding one_group next_group
varuint_bytes-Groups zero out value (Acc.intro _ smaller) h =
    (one_group 0 value (omega arith), varuint_bytes_last out value smaller (omega arith))
varuint_bytes-Groups (suc k) out value (Acc.intro _ smaller) h = elim (dec_lt 0 (value / 128)) [
  | yes p ↦
      let (w, e) = varuint_bytes_more out value smaller p in
      let head : List ℕ = (value % 128 + 128) ∷ [] in
      let (g, e') = varuint_bytes-Groups k (out ++ head) (value / 128) w (omega arith) in
      (next_group k value g, e ∙ e' ∙ append_assoc out head (group_bytes g))
  | no p ↦
      (one_group (suc k) value (omega arith), varuint_bytes_last out value smaller (omega arith))
]

-- `encode_varuint` on a uint64_t writes at most nine bytes with bit 7 set, then one without it, and
-- their groups of seven bits, the lowest first, make up the number.
pub encode_varuint-Groups :
    (value : ℕ) → value < 2 ^ 64 → (g : Groups 9 value) × (encode_varuint value ≡ group_bytes g)
unfolding encode_varuint
encode_varuint-Groups value h = varuint_bytes-Groups 9 [] value (lt_wf.apply value) (omega arith)
