-- ===== src/FeatureCursor/Lease.antt =====
-- The lease of a cursor, step by step.
use fast_gdb.Base.{
  ℕ, ◌<◌, ◌≡◌, ◌⊎◌, inl, inr, refl, Bool, true, false, ltb, ◌==◌, arith, Bool-cases,
}
use fast_gdb.FeatureCursor.{
  CursorControl, next_generation, register_feature_cursor, release_feature_cursor, Mode,
  candidate_fids, sequential, CursorError, Cursor, Held, is_ready, is_failed, release_lease,
  exhaust, fail, engine_is_current, ensure_lease, Table, next_fid, checked_feature, read_next, next,
  move_candidate, move_row, move_to, engine_reopened,
}

-- A cursor is ready exactly while it has the lease, which is the control's.
pub record Leased (i : Cursor) (c : CursorControl) : Type 0 where
  pub owns : 0 < i.generation_ → i.generation_ ≡ c.active_cursor_generation
  pub held : 0 < i.generation_ → i.attached ≡ true
  pub current : 0 < i.generation_ → i.planned_open_generation ≡ c.open_generation
  pub live : is_ready i.state_ ≡ ltb 0 i.generation_

-- What a method may do to the lease.
pub record Turn (i i' : Cursor) (c c' : CursorControl) : Type 0 where
  pub opened : c'.open_generation ≡ c.open_generation
  pub attachment : i'.attached ≡ i.attached
  pub plan : i'.planned_open_generation ≡ i.planned_open_generation
  pub lease :
      ((i'.generation_ ≡ i.generation_)
        × (c'.active_cursor_generation ≡ c.active_cursor_generation))
      ⊎ (((0 < i.generation_) × (i'.generation_ ≡ 0) × (c'.active_cursor_generation ≡ 0))
          ⊎ ((i.generation_ ≡ 0)
              × (c.active_cursor_generation ≡ 0)
              × (0 < i'.generation_)
              × (c'.active_cursor_generation ≡ i'.generation_)))

abbrev pub Good : Held → Held → Type 0
Good (i, c) (i', c') = Leased i' c' × Turn i i' c c'

fail-Good :
    (e : CursorError) (i : Cursor) (c : CursorControl) → Leased i c → Good (i, c) (fail e (i, c))
unfolding fail release_lease release_feature_cursor
fail-Good e i c h = ground arith

module _ {F : Type 0} (t : Table F) where
  pub next-Good :
      (cancelled : Bool) (i : Cursor) (c : CursorControl)
      → Leased i c
      → Good (i, c) (next t cancelled (i, c)).1
  unfolding next next_fid read_next checked_feature exhaust fail release_lease
      release_feature_cursor
  next-Good cancelled i c h = ground arith

  -- Before a move that has the lease: any state but failed.
  record Owned (i : Cursor) (c : CursorControl) : Type 0 where
    own : 0 < i.generation_
    owns : i.generation_ ≡ c.active_cursor_generation
    held : i.attached ≡ true
    current : i.planned_open_generation ≡ c.open_generation
    sound : is_failed i.state_ ≡ false

  move_candidate-Good :
      (fid : ℕ) (i : Cursor) (c : CursorControl)
      → Owned i c
      → Good (i, c) (move_candidate t fid (i, c)).1
  unfolding move_candidate exhaust release_lease release_feature_cursor
  move_candidate-Good fid i c h = ground arith

  move_row-Good :
      (fid : ℕ) (i : Cursor) (c : CursorControl) → Owned i c → Good (i, c) (move_row t fid (i, c)).1
  unfolding move_row exhaust fail release_lease release_feature_cursor
  move_row-Good fid i c h = ground arith

  Turn-Turn :
      (i i₁ i₂ : Cursor) (c c₁ c₂ : CursorControl)
      → 0 < i₁.generation_
      → i₁.generation_ ≡ c₁.active_cursor_generation
      → Turn i i₁ c c₁
      → Turn i₁ i₂ c₁ c₂
      → Turn i i₂ c c₂
  Turn-Turn i i₁ i₂ c c₁ c₂ p q a b = ground arith

  ensured :
      (i : Cursor) (c : CursorControl)
      → Leased i c
      → engine_is_current (i, c) ≡ true
      → is_failed i.state_ ≡ false
      → let (leased, (i', c')) = ensure_lease (i, c) in
        ((leased ≡ true) × Owned i' c' × Turn i i' c c') ⊎ ((leased ≡ false) × Good (i, c) (i', c'))
  unfolding ensure_lease register_feature_cursor fail release_lease release_feature_cursor
  ensured i c h e n = elim (Bool-cases (i.generation_ == 0)) [
    | inr g ↦ rw (e, g) (inl (refl, ground arith, ground arith))
    | inl g ↦ elim (Bool-cases i.attached) [
      | inr a ↦ rw (e, g, a) (inr (refl, ground arith))
      | inl a ↦ elim (Bool-cases (c.active_cursor_generation == 0)) [
        | inr b ↦ rw (e, g, a, b) (inr (refl, ground arith))
        | inl b ↦
            let some_generation : (next_generation c.next_cursor_generation == 0) ≡ false =
              ground arith in
            rw (e, g, a, b, some_generation) (inl (refl, ground arith, ground arith))
      ]
    ]
  ]

  mode_moved :
      (m : Mode) (fid : ℕ) (i : Cursor) (c : CursorControl) (i' : Cursor) (c' : CursorControl)
      → Owned i' c'
      → Turn i i' c c'
      → Good
          (i, c)
          (elim m as (λ m. Bool × Held) [
            | candidate_fids ↦ move_candidate t fid (i', c')
            | sequential ↦ move_row t fid (i', c')
          ]).1
  mode_moved candidate_fids fid i c i' c' o u =
      let (l, v) = move_candidate-Good fid i' c' o in (l, Turn-Turn i i' _ c c' _ o.own o.owns u v)
  mode_moved sequential fid i c i' c' o u =
      let (l, v) = move_row-Good fid i' c' o in (l, Turn-Turn i i' _ c c' _ o.own o.owns u v)

  pub move_to-Good :
      (fid : ℕ) (i : Cursor) (c : CursorControl) → Leased i c → Good (i, c) (move_to t fid (i, c)).1
  unfolding move_to
  move_to-Good fid i c h = elim (Bool-cases (is_failed i.state_)) [
    | inl n ↦ rw n (ground arith)
    | inr n ↦ elim (Bool-cases (engine_is_current (i, c))) [
      | inr e ↦ rw (n, e) (fail-Good engine_reopened i c h)
      | inl e ↦ elim (ensured i c h e n) [
        | inr (f, good) ↦ rw (n, e, f) good
        | inl (f, owned, turn) ↦ rw (n, e, f) (mode_moved i.mode_ fid i c _ _ owned turn)
      ]
    ]
  ]
