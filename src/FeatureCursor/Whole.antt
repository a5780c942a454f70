-- ===== src/FeatureCursor/Whole.antt =====
-- A cursor from `open_cursor` to its end.
use fast_gdb.Base.{
  ℕ, zero, suc, ◌-◌, ◌^◌, ◌<◌, ◌≤◌, ◌≡◌, ◌⊎◌, inl, inr, refl, sym, ap, subst, true, false, List, [],
  ◌∷◌, none, some, ◌==◌, arith, if◌then◌else◌, length, All, Bool-cases,
}
use fast_gdb.FeatureCursor.{
  CursorControl, next_generation, register_feature_cursor, release_feature_cursor, Cursor, Held,
  is_ready, done, release_lease, Table, next,
}
use fast_gdb.FeatureCursor.Open.{
  Opening, ordered_fids, open_cursor, open_sequential, open_candidates, sequential_cursor,
  candidate_cursor,
}
use fast_gdb.FeatureCursor.Remaining.{
  rows, remaining, Readable, Holding, Collected, collect, collect-none, collect-remaining,
}

-- The control of an engine none of whose cursors has the lease.
abbrev idle : ℕ → ℕ → CursorControl
idle g n = record { open_generation = g; next_cursor_generation = n; active_cursor_generation = 0 }

module _ {F : Type 0} (t : Table F) where
  -- The numbers that a cursor should give: every row of the table, or those of the query in their order.
  abbrev pub planned_fids : Opening → List ℕ → List ℕ
  planned_fids o fids =
      if o.plain_scan
      then (if t.active_feature_count == 0 then [] else rows t t.feature_count t.feature_count)
      else ordered_fids o fids

  -- A cursor as it is opened, with `fids` to give: it has the lease, or has nothing to give and is done.
  Opened : List ℕ → Held → Type 0
  Opened fids (i, c) =
      (Holding t i c × (remaining t i ≡ fids))
      ⊎ ((fids ≡ []) × (done i ≡ true) × (c.active_cursor_generation ≡ 0))

  sequential-Opened :
      (g n : ℕ)
      → t.feature_count ≤ 2 ^ 32
      → Opened
          (if t.active_feature_count == 0 then [] else rows t t.feature_count t.feature_count)
          (open_sequential t (idle g n))
  unfolding Opened open_sequential sequential_cursor register_feature_cursor release_lease
      release_feature_cursor
  sequential-Opened g n q =
      let fresh : (next_generation n == 0) ≡ false = ground arith in
      let positive : 0 < next_generation n = ground arith in
      elim (Bool-cases (t.active_feature_count == 0)) [
        | inl e ↦ rw e (inr (refl, refl, refl))
        | inr e ↦ elim (Bool-cases (t.feature_count == 0)) [
          | inl z ↦
              let none_there : t.feature_count ≡ 0 = ground arith in
              rw (none_there, e, fresh) (inr (refl, refl, ground arith))
          | inr z ↦
              let all_rows : t.feature_count - 0 ≡ t.feature_count = omega arith in
              rw (e, fresh, z)
                (inl (
                  record {
                    start = refl;
                    attachment = refl;
                    plan = refl;
                    some_lease = positive;
                    lease = refl;
                    limit = q;
                  },
                  ap (λ m. rows t m t.feature_count) all_rows,
                ))
        ]
      ]

  candidates-Opened :
      (o : Opening) (g n : ℕ) (fids : List ℕ) → Opened fids (open_candidates t o (idle g n) fids)
  unfolding Opened open_candidates candidate_cursor register_feature_cursor release_lease
      release_feature_cursor
  candidates-Opened o g n [] = inr (refl, refl, refl)
  candidates-Opened o g n (fid ∷ fids) =
      let fresh : (next_generation n == 0) ≡ false = ground arith in
      let positive : 0 < next_generation n = ground arith in
      let some_fids : (length (fid ∷ fids) == 0) ≡ false = ground arith in
      rw (some_fids, fresh)
        (inl (
          record {
            start = refl;
            attachment = refl;
            plan = refl;
            some_lease = positive;
            lease = refl;
            limit = omega arith;
          },
          refl,
        ))

  open_cursor-Opened :
      (o : Opening) (g n : ℕ) (fids : List ℕ)
      → o.parser_open ≡ true
      → o.query ≡ some fids
      → t.feature_count ≤ 2 ^ 32
      → Opened (planned_fids o fids) (open_cursor t o (idle g n))
  unfolding open_cursor
  open_cursor-Opened o g n fids p s q = elim (Bool-cases o.plain_scan) [
    | inl e ↦ rw (p, e) (sequential-Opened g n q)
    | inr e ↦ rw (p, e, s) (candidates-Opened o g n (ordered_fids o fids))
  ]

  next-done :
      (i : Cursor) (c : CursorControl) → done i ≡ true → next t false (i, c) ≡ (none, (i, c))
  unfolding next
  next-done i c d =
      let idle_state : is_ready i.state_ ≡ false = ground arith in simp (idle_state) refl

  collect-Opened :
      (feature : ℕ → F) (fids : List ℕ) (rounds : ℕ) (s : Held)
      → Opened fids s
      → All (λ n. Readable t feature n) fids
      → length fids < rounds
      → Collected t feature fids (collect t rounds s)
  unfolding Opened
  collect-Opened feature fids zero s o all n = absurd (omega arith)
  collect-Opened feature fids (suc rounds) (i, c) o all n = elim o [
    | inl (h, e) ↦
        subst (λ ns. Collected t feature ns (collect t (suc rounds) (i, c))) e
          (collect-remaining t feature (suc rounds) i c h
            (subst (λ ns. All (λ n. Readable t feature n) ns) (sym e) all)
            (subst (λ ns. length ns < suc rounds) (sym e) n))
    | inr (e, d, a) ↦
        rw (e, collect-none t rounds (i, c) (i, c) (next-done i c d))
          (record { given = refl; ended = d; released = a })
  ]

  -- On an open engine without an active cursor, where the query, or every row of the table, gives numbers whose features
  -- can be read, a cursor that is opened gives the features of `planned_fids` in their order, by as many calls
  -- of `next` as there are numbers and one more, after which the cursor is done and the engine has no active cursor.
  pub open_cursor-collect :
      (feature : ℕ → F) (o : Opening) (c : CursorControl) (fids : List ℕ) (rounds : ℕ)
      → o.parser_open ≡ true
      → c.active_cursor_generation ≡ 0
      → o.query ≡ some fids
      → t.feature_count ≤ 2 ^ 32
      → All (λ n. Readable t feature n) (planned_fids o fids)
      → length (planned_fids o fids) < rounds
      → Collected t feature (planned_fids o fids) (collect t rounds (open_cursor t o c))
  open_cursor-collect feature o c fids rounds p a s q all n =
      subst
        (λ active.
          Collected t feature (planned_fids o fids)
            (collect t rounds (open_cursor t o (record c { active_cursor_generation = active }))))
        (sym a)
        (collect-Opened feature (planned_fids o fids) rounds _
          (open_cursor-Opened o c.open_generation c.next_cursor_generation fids p s q) all n)
