-- ===== src/BinaryReader/Moves.antt =====
-- `skip`, `read_bytes`, `seek` and `can_read`: within the buffer, and where `pos_ + n` wraps.
use fast_gdb.Base.{
  ℕ, ◌+◌, ◌-◌, ◌%◌, ◌^◌, ◌≤◌, ◌<◌, ◌≡◌, true, false, List, arith, ltb, leb, if◌then◌else◌, take,
  drop, Bool-cases, inl, inr, lt→ltb, not_lt→ltb,
}
use fast_gdb.BinaryReader.{
  Outcome, ok, out_of_range, undefined, Reader, size, ◌>>=◌, advance, read_bytes, skip, can_read,
}
use fast_gdb.BinaryReader.Bounds.{IsValid}

-- What `skip` does for a count that does not wrap.
abbrev pub skip_within : ℕ → Reader → Outcome (Unit {0}) × Reader
skip_within n r =
    if ltb (size r) (r.pos_ + n) then (out_of_range, r) else (ok tt, record r { pos_ = r.pos_ + n })

abbrev pub read_bytes_within : ℕ → Reader → Outcome (List ℕ) × Reader
read_bytes_within n r =
    if ltb (size r) (r.pos_ + n)
    then (out_of_range, r)
    else (ok (take n (drop r.pos_ r.bytes)), record r { pos_ = r.pos_ + n })

module _ (r : Reader) (n : ℕ) (v : IsValid r) (h : n < 2 ^ 63) where
  -- For a valid reader and a count below 2 ^ 63, `skip` and `read_bytes` throw with the cursor unmoved
  -- where fewer bytes are left, and otherwise move past exactly that many, which `read_bytes` returns;
  -- `can_read` says which of the two.
  pub skip-read_bytes-can_read :
      (skip n r ≡ skip_within n r)
      × (read_bytes n r ≡ read_bytes_within n r)
      × (can_read r n ≡ leb (r.pos_ + n) (size r))
  unfolding skip read_bytes can_read
  skip-read_bytes-can_read =
      let e : (r.pos_ + n) % 2 ^ 64 ≡ r.pos_ + n = omega (arith, v.inside, v.allocated) in
      elim (Bool-cases (ltb (size r) (r.pos_ + n))) [
        | inl past ↦ (rw (e, past), rw (e, past), rw e)
        | inr fits ↦ (rw (e, fits, advance, e), rw (e, fits, ◌>>=◌, fits, advance, e), rw e)
      ]

-- A count of 2 ^ 64 - k, with the cursor at k or behind it, wraps past the check: `skip` moves the
-- cursor back by k, and `read_bytes` reads outside the buffer.
skip-read_bytes_wrap :
    (r : Reader) (k : ℕ)
    → IsValid r
    → 0 < k
    → k ≤ r.pos_
    → (skip (2 ^ 64 - k) r ≡ (ok tt, record r { pos_ = r.pos_ - k }))
      × (read_bytes (2 ^ 64 - k) r ≡ (undefined, r))
unfolding skip read_bytes
skip-read_bytes_wrap r k v h p =
    let e : (r.pos_ + (2 ^ 64 - k)) % 2 ^ 64 ≡ r.pos_ - k = omega (arith, v.inside, v.allocated) in
    let fits : ltb (size r) (r.pos_ - k) ≡ false =
      not_lt→ltb (size r) (r.pos_ - k) (omega (arith, v.inside)) in
    let past : ltb (size r) (r.pos_ + (2 ^ 64 - k)) ≡ true =
      lt→ltb (size r) (r.pos_ + (2 ^ 64 - k)) (omega (arith, v.inside, v.allocated)) in
    (rw (e, fits, advance, e), rw (e, fits, ◌>>=◌, past))
