-- ===== src/FeatureCursor/Remaining.antt =====
-- What a cursor has still to give, and that the calls of `next` give just that.
use fast_gdb.Base.{
  ℕ, zero, suc, ◌+◌, ◌-◌, ◌^◌, ◌<◌, ◌≤◌, ◌≡◌, ◌⊎◌, inl, inr, refl, sym, ap, ◌∙◌, subst, true, false,
  List, [], ◌∷◌, map, Option, none, some, ltb, ◌==◌, arith, if◌then◌else◌, length, All, Bool-cases,
  drop, get_elem?,
}
use Prim.Native.Nat.{max}
use fast_gdb.FeatureCursor.{
  CursorControl, release_feature_cursor, Mode, candidate_fids, sequential, Cursor, Held, is_ready,
  engine_is_current, release_lease, exhaust, Table, found, none_left, seek, next_fid,
  checked_feature, read_next, next, done,
}

pub Mode-cases : (m : Mode) → (m ≡ candidate_fids) ⊎ (m ≡ sequential)
Mode-cases candidate_fids = inl refl
Mode-cases sequential = inr refl

drop_get :
    (n : ℕ) (xs : List ℕ)
    → ((get_elem? xs n ≡ none) × (drop n xs ≡ []))
      ⊎ ((x : ℕ) × (get_elem? xs n ≡ some x) × (drop n xs ≡ x ∷ drop (n + 1) xs))
drop_get zero [] = inl (refl, refl)
drop_get (suc n) [] = inl (refl, refl)
drop_get zero (x ∷ xs) = inr (x, refl, refl)
drop_get (suc n) (x ∷ xs) = let e : suc n + 1 ≡ suc (n + 1) = omega arith in rw e (drop_get n xs)

module _ {F : Type 0} (t : Table F) where
  -- The numbers of `limit - rounds` and above, below `limit`, that have a row.
  abbrev pub rows : ℕ → ℕ → List ℕ
  rows zero limit = []
  rows (suc rounds) limit =
      let n = limit - suc rounds in
      let rest = rows rounds limit in if t.has_feature n then n ∷ rest else rest

  abbrev pub remaining : Cursor → List ℕ
  remaining i = elim i.mode_ [
    | candidate_fids ↦ drop i.fid_index_ i.matched_fids
    | sequential ↦ rows (i.feature_limit_ - i.next_sequential_fid_) i.feature_limit_
  ]

  pub seek-rows :
      (rounds limit : ℕ)
      → rounds ≤ limit
      → limit ≤ 2 ^ 32
      → ((seek t rounds limit ≡ none_left) × (rows rounds limit ≡ []))
        ⊎ ((n : ℕ) × (seek t rounds limit ≡ found n)
            × (rows rounds limit ≡ n ∷ rows (limit - (n + 1)) limit))
  unfolding seek
  seek-rows zero limit p q = inl (refl, refl)
  seek-rows (suc rounds) limit p q =
      let n = limit - suc rounds in
      let small : ltb (2 ^ 32 - 1) n ≡ false = ground arith in
      let back : limit - (n + 1) ≡ rounds = omega arith in
      elim (Bool-cases (t.has_feature n)) [
        | inl h ↦ inr (n, rw (small, h) refl, rw (h, back) refl)
        | inr h ↦ elim (seek-rows rounds limit (omega arith) q) [
          | inl (a, b) ↦ inl (rw (small, h) a, rw h b)
          | inr (m, a, b) ↦ inr (m, rw (small, h) a, rw h b)
        ]
      ]

  record Same (i i' : Cursor) : Type 0 where
    attachment : i'.attached ≡ i.attached
    plan : i'.planned_open_generation ≡ i.planned_open_generation
    lease : i'.generation_ ≡ i.generation_
    state : i'.state_ ≡ i.state_
    limit : i'.feature_limit_ ≡ i.feature_limit_

  -- The next number is the first that remains, and the others remain.
  abbrev Advanced : Cursor → CursorControl → Type 0
  Advanced i c =
      ((remaining i ≡ []) × ((i' : Cursor) × (next_fid t (i, c) ≡ (none, (i', c))) × Same i i'))
      ⊎ ((fid : ℕ) × (i' : Cursor) × (next_fid t (i, c) ≡ (some fid, (i', c)))
          × Same i i'
          × (remaining i ≡ fid ∷ remaining i'))

  candidate-Advanced : (i : Cursor) (c : CursorControl) → i.mode_ ≡ candidate_fids → Advanced i c
  unfolding next_fid
  candidate-Advanced i c m = elim (drop_get i.fid_index_ i.matched_fids) [
    | inl (e, d) ↦ inl (
      rw (m, d) refl,
      (
        i,
        simp (m, e) refl,
        record { attachment = refl; plan = refl; lease = refl; state = refl; limit = refl },
      ),
    )
    | inr (fid, e, d) ↦ inr (
      fid,
      record i { fid_index_ = i.fid_index_ + 1 },
      simp (m, e) refl,
      record { attachment = refl; plan = refl; lease = refl; state = refl; limit = refl },
      rw (m, d) refl,
    )
  ]

  sequential-Advanced :
      (i : Cursor) (c : CursorControl)
      → i.mode_ ≡ sequential
      → i.attached ≡ true
      → i.feature_limit_ ≤ 2 ^ 32
      → Advanced i c
  unfolding next_fid
  sequential-Advanced i c m a q =
      elim (seek-rows (i.feature_limit_ - i.next_sequential_fid_) i.feature_limit_ (omega arith)
        q) [
          | inl (e, d) ↦ inl (
            rw (m, d) refl,
            (
              record i { next_sequential_fid_ = max i.next_sequential_fid_ i.feature_limit_ },
              simp (m, a, e) refl,
              record { attachment = refl; plan = refl; lease = refl; state = refl; limit = refl },
            ),
          )
          | inr (n, e, d) ↦ inr (
            n,
            record i { next_sequential_fid_ = n + 1 },
            simp (m, a, e) refl,
            record { attachment = refl; plan = refl; lease = refl; state = refl; limit = refl },
            rw (m, d) refl,
          )
        ]

  next_fid-Advanced :
      (i : Cursor) (c : CursorControl)
      → i.attached ≡ true
      → i.feature_limit_ ≤ 2 ^ 32
      → Advanced i c
  next_fid-Advanced i c a q = elim (Mode-cases i.mode_) [
    | inl m ↦ candidate-Advanced i c m
    | inr m ↦ sequential-Advanced i c m a q
  ]

  -- A ready cursor with the lease.
  pub record Holding (i : Cursor) (c : CursorControl) : Type 0 where
    pub start : is_ready i.state_ ≡ true
    pub attachment : i.attached ≡ true
    pub plan : c.open_generation ≡ i.planned_open_generation
    pub some_lease : 0 < i.generation_
    pub lease : c.active_cursor_generation ≡ i.generation_
    pub limit : i.feature_limit_ ≤ 2 ^ 32

  Holding-Same : (i i' : Cursor) (c : CursorControl) → Holding i c → Same i i' → Holding i' c
  Holding-Same i i' c h e = record {
    start = rw e.state h.start;
    attachment = e.attachment ∙ h.attachment;
    plan = h.plan ∙ sym e.plan;
    some_lease = rw e.lease h.some_lease;
    lease = h.lease ∙ sym e.lease;
    limit = rw e.limit h.limit;
  }

  -- The feature of a number, read as it should be.
  abbrev pub Readable : (ℕ → F) → ℕ → Type 0
  Readable feature n =
      (t.read_feature_by_fid n ≡ some (feature n))
      × (t.record_fid (feature n) ≡ n)
      × (t.value_count (feature n) ≡ t.field_count)

  read_next-end :
      (i : Cursor) (c : CursorControl)
      → Holding i c
      → done (read_next t (none, (i, c))).1.0 ≡ true
        × ((read_next t (none, (i, c))).1.1.active_cursor_generation ≡ 0)
        × ((read_next t (none, (i, c))).0 ≡ none)
  unfolding read_next exhaust release_lease release_feature_cursor
  read_next-end i c h = ground (arith, h.start, h.attachment, h.some_lease, h.lease)

  read_next-some :
      (feature : ℕ → F) (fid : ℕ) (i : Cursor) (c : CursorControl)
      → Holding i c
      → Readable feature fid
      → read_next t (some fid, (i, c)) ≡ (some (feature fid), (i, c))
  unfolding read_next checked_feature
  read_next-some feature fid i c h (r, n, v) =
      let same : (t.record_fid (feature fid) == fid) ≡ true = ground arith in
      let whole : (t.value_count (feature fid) == t.field_count) ≡ true = ground arith in
      simp (h.attachment, r, same, whole) refl

  next-Holding :
      (i : Cursor) (c : CursorControl)
      → Holding i c
      → next t false (i, c) ≡ read_next t (next_fid t (i, c))
  unfolding next
  next-Holding i c h =
      let current : engine_is_current (i, c) ≡ true = ground (arith, h.plan) in
      simp (h.start, current) refl

  -- The loop of a client: `next` until it gives nothing.
  gather : Option F × Held → List F × Held → List F × Held
  gather (none, s) _ = ([], s)
  gather (some f, _) (fs, s) = (f ∷ fs, s)

  unfoldable pub collect : ℕ → Held → List F × Held
  unfolding gather
  collect zero s = ([], s)
  collect (suc rounds) s = gather (next t false s) (collect rounds (next t false s).1)

  -- The features given are those of `fids`, after which the cursor is done and the lease is back.
  pub record Collected (feature : ℕ → F) (fids : List ℕ) (r : List F × Held) : Type 0 where
    pub given : r.0 ≡ map feature fids
    pub ended : done r.1.0 ≡ true
    pub released : r.1.1.active_cursor_generation ≡ 0

  pub collect-none :
      (rounds : ℕ) (s s' : Held) → next t false s ≡ (none, s') → collect (suc rounds) s ≡ ([], s')
  unfolding collect gather
  collect-none rounds s s' e = ap (λ r. gather r (collect rounds r.1)) e

  collect-some :
      (rounds : ℕ) (s s' : Held) (f : F)
      → next t false s ≡ (some f, s')
      → collect (suc rounds) s ≡ (f ∷ (collect rounds s').0, (collect rounds s').1)
  unfolding collect gather
  collect-some rounds s s' f e = ap (λ r. gather r (collect rounds r.1)) e

  pub collect-remaining :
      (feature : ℕ → F) (rounds : ℕ) (i : Cursor) (c : CursorControl)
      → Holding i c
      → All (λ n. Readable feature n) (remaining i)
      → length (remaining i) < rounds
      → Collected feature (remaining i) (collect rounds (i, c))
  collect-remaining feature zero i c h all n = absurd (omega arith)
  collect-remaining feature (suc rounds) i c h all n =
      elim (next_fid-Advanced i c h.attachment h.limit) [
        | inl (e, (i', move, same)) ↦
            let (a, b, d) = read_next-end i' c (Holding-Same i i' c h same) in
            let ended : next t false (i, c) ≡ (none, (read_next t (none, (i', c))).1) =
              next-Holding i c h
              ∙ ap (λ s. read_next t s) move
              ∙ ap (λ f. (f, (read_next t (none, (i', c))).1)) d in
            rw (collect-none rounds (i, c) _ ended, e)
              (record { given = refl; ended = a; released = b })
        | inr (fid, i', move, same, e) ↦
            let held = Holding-Same i i' c h same in
            let (first, others) = subst (λ ns. All (λ n. Readable feature n) ns) e all in
            let m = subst (λ ns. length ns < suc rounds) e n in
            let rest = collect-remaining feature rounds i' c held others (omega arith) in
            let given : next t false (i, c) ≡ (some (feature fid), (i', c)) =
              next-Holding i c h
              ∙ ap (λ s. read_next t s) move
              ∙ read_next-some feature fid i' c held first in
            rw (collect-some rounds (i, c) _ _ given, e)
              (record {
                given = ap (λ fs. feature fid ∷ fs) rest.given;
                ended = rest.ended;
                released = rest.released;
              })
      ]
