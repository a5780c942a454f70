-- ===== src/FeatureCursor/Moves.antt =====
-- Where a move leaves a cursor.
use fast_gdb.Base.{
  ℕ, zero, suc, ◌-◌, ◌^◌, ◌≤◌, ◌≡◌, ◌⊎◌, inl, inr, refl, sym, ap, ◌∙◌, subst, Bool, true, false,
  List, [], ◌∷◌, ltb, ◌==◌, arith, if◌then◌else◌, length, length-drop, drop, Bool-cases,
}
use Prim.Native.Nat.{max}
use fast_gdb.FeatureCursor.{
  CursorControl, State, ready, release_feature_cursor, candidate_fids, sequential, Cursor, Held,
  is_ready, is_failed, engine_is_current, ensure_lease, done, release_lease, exhaust, Table, found,
  seek, set_ready, lower_bound, move_candidate, move_row, move_to,
}
use fast_gdb.FeatureCursor.Remaining.{rows, remaining, Holding, seek-rows, Mode-cases}

-- The numbers from the first that is `fid` or more.
abbrev pub from : ℕ → List ℕ → List ℕ
from fid [] = []
from fid (x ∷ xs) = if ltb x fid then from fid xs else x ∷ xs

found_same : {a b : ℕ} → found a ≡ found b → a ≡ b
found_same e = cc

module _ {F : Type 0} (t : Table F) where
  drop-lower_bound : (fid : ℕ) (xs : List ℕ) → drop (lower_bound t xs fid) xs ≡ from fid xs
  unfolding lower_bound
  drop-lower_bound fid [] = refl
  drop-lower_bound fid (x ∷ xs) = elim (Bool-cases (ltb x fid)) [
    | inl e ↦ rw e (drop-lower_bound fid xs)
    | inr e ↦ rw e refl
  ]

  -- What a cursor gives from `fid` on.
  abbrev pub remaining_from : ℕ → Cursor → List ℕ
  remaining_from fid i = elim i.mode_ [
    | candidate_fids ↦ from fid i.matched_fids
    | sequential ↦ rows t (i.feature_limit_ - fid) i.feature_limit_
  ]

  -- A move that finds a number leaves those from it on; one that finds none ends the cursor.
  abbrev pub Moved : List ℕ → Bool × Held → Type 0
  Moved fids (moved, (i, c)) =
      ((moved ≡ true) × Holding t i c × (remaining t i ≡ fids))
      ⊎ ((moved ≡ false) × (fids ≡ []) × (done i ≡ true) × (c.active_cursor_generation ≡ 0))

  exhaust-done :
      (i : Cursor) (c : CursorControl)
      → Holding t i c
      → (done (exhaust (i, c)).0 ≡ true) × ((exhaust (i, c)).1.active_cursor_generation ≡ 0)
  unfolding exhaust release_lease release_feature_cursor
  exhaust-done i c h = ground (arith, h.start, h.attachment, h.some_lease, h.lease)

  placed :
      (i : Cursor) (c : CursorControl) (n m : ℕ) (s : State)
      → Holding t i c
      → is_ready s ≡ true
      → Holding t (record i { fid_index_ = n; next_sequential_fid_ = m; state_ = s }) c
  placed i c n m s h r = record {
    start = r;
    attachment = h.attachment;
    plan = h.plan;
    some_lease = h.some_lease;
    lease = h.lease;
    limit = h.limit;
  }

  no_length : (xs : List ℕ) → length xs ≡ 0 → xs ≡ []
  no_length [] e = refl
  no_length (x ∷ xs) e = absurd (omega arith)

  rows_found :
      (rounds limit n : ℕ)
      → rounds ≤ limit
      → limit ≤ 2 ^ 32
      → seek t rounds limit ≡ found n
      → rows t (limit - n) limit ≡ rows t rounds limit
  unfolding seek
  rows_found zero limit n p q e = cc
  rows_found (suc rounds) limit n p q e =
      let first = limit - suc rounds in
      let small : ltb (2 ^ 32 - 1) first ≡ false = ground arith in
      elim (Bool-cases (t.has_feature first)) [
        | inl h ↦
            let same : first ≡ n = found_same (rw (small, h) at e) in
            let back : limit - n ≡ suc rounds = omega (arith, same) in ap (λ k. rows t k limit) back
        | inr h ↦ rows_found rounds limit n (omega arith) q (rw (small, h) at e) ∙ rw h refl
      ]

  candidate-Moved :
      (fid : ℕ) (i : Cursor) (c : CursorControl)
      → Holding t i c
      → i.mode_ ≡ candidate_fids
      → Moved (from fid i.matched_fids) (move_candidate t fid (i, c))
  unfolding move_candidate
  candidate-Moved fid i c h m =
      let n = lower_bound t i.matched_fids fid in
      let rest = drop-lower_bound fid i.matched_fids in
      elim (Bool-cases (n == length i.matched_fids)) [
        | inl e ↦
            let (a, b) =
              exhaust-done (record i { fid_index_ = n }) c
                (placed i c n i.next_sequential_fid_ i.state_ h h.start) in
            let none_there : from fid i.matched_fids ≡ [] =
              no_length (from fid i.matched_fids)
                (ap length (sym rest) ∙ length-drop n i.matched_fids ∙ ground arith) in
            rw e (inr (refl, none_there, a, b))
        | inr e ↦ rw e (inl (refl, placed i c n i.next_sequential_fid_ ready h refl, rw m rest))
      ]

  row-Moved :
      (fid : ℕ) (i : Cursor) (c : CursorControl)
      → Holding t i c
      → i.mode_ ≡ sequential
      → Moved (rows t (i.feature_limit_ - fid) i.feature_limit_) (move_row t fid (i, c))
  unfolding move_row
  row-Moved fid i c h m =
      elim (seek-rows t (i.feature_limit_ - fid) i.feature_limit_ (omega arith) h.limit) [
        | inl (e, r) ↦
            let next = max fid i.feature_limit_ in
            let (a, b) =
              exhaust-done (record i { next_sequential_fid_ = next }) c
                (placed i c i.fid_index_ next i.state_ h h.start) in
            let stop : move_row t fid (i, c)
                ≡ (false, exhaust (record i { next_sequential_fid_ = next }, c)) =
              simp (h.attachment, e) refl in
            rw stop (inr (refl, r, a, b))
        | inr (n, e, r) ↦
            let go : move_row t fid (i, c)
                ≡ (true, set_ready (record i { next_sequential_fid_ = n }, c)) =
              simp (h.attachment, e) refl in
            rw go (
              inl (
                refl,
                placed i c i.fid_index_ n ready h refl,
                rw m (
                    rows_found (i.feature_limit_ - fid) i.feature_limit_ n (omega arith) h.limit e),
              ))
      ]

  -- A ready cursor with the engine's lease, planned in its open generation, that is moved to `fid`: the move returns true
  -- and leaves the numbers from `fid` on to be given, with the cursor ready and the lease kept; or there are none, the
  -- move returns false, the cursor is done and the engine has no active cursor. The numbers from `fid` on are, for a
  -- query, those from the first that is `fid` or more, in their order, and for a scan the rows of `fid` and above.
  pub move_to-Moved :
      (fid : ℕ) (i : Cursor) (c : CursorControl)
      → Holding t i c
      → Moved (remaining_from fid i) (move_to t fid (i, c))
  unfolding move_to ensure_lease
  move_to-Moved fid i c h =
      let sound : is_failed i.state_ ≡ false = ground (arith, h.start) in
      let current : engine_is_current (i, c) ≡ true = ground (arith, h.plan) in
      let held : (i.generation_ == 0) ≡ false = ground (arith, h.some_lease) in
      elim (Mode-cases i.mode_) [
        | inl m ↦
            let e : move_to t fid (i, c) ≡ move_candidate t fid (i, c) =
              simp (sound, current, held, m) refl in
            rw e (
              subst (λ fids. Moved fids (move_candidate t fid (i, c))) (rw m refl)
                (candidate-Moved fid i c h m))
        | inr m ↦
            let e : move_to t fid (i, c) ≡ move_row t fid (i, c) =
              simp (sound, current, held, m) refl in
            rw e (
              subst (λ fids. Moved fids (move_row t fid (i, c))) (rw m refl)
                (row-Moved fid i c h m))
      ]
