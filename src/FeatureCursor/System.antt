-- ===== src/FeatureCursor/System.antt =====
-- An engine with all its cursors, and the calls in any order.
use fast_gdb.Base.{
  ℕ, suc, ◌+◌, ◌<◌, ◌≡◌, ◌⊎◌, inl, inr, refl, sym, ◌∙◌, subst, Bool, true, List, [], ◌∷◌, ◌++◌,
  Option, none, some, ◌==◌, arith, if◌then◌else◌, All, All-append, Bool-cases,
}
use fast_gdb.FeatureCursor.{
  CursorControl, next_generation, feature_cursor_active, reopen, register_feature_cursor,
  release_feature_cursor, Cursor, Held, is_ready, engine_is_current, release_lease, destroy, Table,
  next, move_to, query_failed, table_not_open, another_cursor_active, CursorError,
}
use fast_gdb.Base.Options.{unsome, none_some}
use fast_gdb.FeatureCursor.Open.{
  Opening, open_cursor, open_sequential, open_candidates, candidate_cursor, sequential_cursor,
  ordered_fids, failed_cursor,
}
use fast_gdb.FeatureCursor.Lease.{Leased, Turn, Good, next-Good, move_to-Good}

pub record Engine : Type 0 where
  pub control : CursorControl
  pub cursors : List Cursor

-- One call; a cursor that is opened goes in front, and one that is destroyed is gone.
-- The table is the one that the engine has open at the call.
module _ (F : Type 0) where
  pub data Step : Engine → Engine → Type 0 where
    opened :
        (t : Table F) (o : Opening) (c : CursorControl) (cs : List Cursor) (i : Cursor)
        (c' : CursorControl)
        → open_cursor t o c ≡ (i, c')
        → Step (record { control = c; cursors = cs }) (record { control = c'; cursors = i ∷ cs })
    nexted :
        (t : Table F) (cancelled : Bool) (c : CursorControl) (before behind : List Cursor)
        (i i' : Cursor) (c' : CursorControl)
        → (next t cancelled (i, c)).1 ≡ (i', c')
        → Step
            (record { control = c; cursors = before ++ (i ∷ behind) })
            (record { control = c'; cursors = before ++ (i' ∷ behind) })
    moved :
        (t : Table F) (fid : ℕ) (c : CursorControl) (before behind : List Cursor) (i i' : Cursor)
        (c' : CursorControl)
        → (move_to t fid (i, c)).1 ≡ (i', c')
        → Step
            (record { control = c; cursors = before ++ (i ∷ behind) })
            (record { control = c'; cursors = before ++ (i' ∷ behind) })
    destroyed :
        (c : CursorControl) (before behind : List Cursor) (i i' : Cursor) (c' : CursorControl)
        → destroy (i, c) ≡ (i', c')
        → Step
            (record { control = c; cursors = before ++ (i ∷ behind) })
            (record { control = c'; cursors = before ++ behind })
    reopened :
        (c c' : CursorControl) (cs : List Cursor)
        → reopen c ≡ some c'
        → Step (record { control = c; cursors = cs }) (record { control = c'; cursors = cs })

  pub data Reached : Engine → Type 0 where
    new_engine : Reached (record {
      control = record {
        open_generation = 0;
        next_cursor_generation = 0;
        active_cursor_generation = 0;
      };
      cursors = [];
    })
    and_then : (s s' : Engine) → Reached s → Step s s' → Reached s'

abbrev pub live : Cursor → ℕ
live i = if i.generation_ == 0 then 0 else 1

abbrev pub live_count : List Cursor → ℕ
live_count [] = 0
live_count (i ∷ is) = live i + live_count is

abbrev pub flag : ℕ → ℕ
flag active = if active == 0 then 0 else 1

pub record Inv (c : CursorControl) (cs : List Cursor) : Type 0 where
  pub leased : All (λ i. Leased i c) cs
  pub one : live_count cs ≡ flag c.active_cursor_generation

live_count-append : (xs ys : List Cursor) → live_count (xs ++ ys) ≡ live_count xs + live_count ys
live_count-append [] ys = omega arith
live_count-append (x ∷ xs) ys = omega (arith, live_count-append xs ys)

All-split : (P : Cursor → Type 0) (xs ys : List Cursor) → All P (xs ++ ys) → All P xs × All P ys
All-split P [] ys h = (tt, h)
All-split P (x ∷ xs) ys h = let (a, b) = All-split P xs ys h.1 in ((h.0, a), b)

-- The cursors that a call leaves alone.
others_kept :
    (c c' : CursorControl) (cs : List Cursor)
    → All (λ i. Leased i c) cs
    → c'.open_generation ≡ c.open_generation
    → c'.active_cursor_generation ≡ c.active_cursor_generation
    → All (λ i. Leased i c') cs
others_kept c c' [] h o a = tt
others_kept c c' (i ∷ cs) h o a = let first = h.0 in (ground arith, others_kept c c' cs h.1 o a)

others_idle :
    (c c' : CursorControl) (cs : List Cursor)
    → All (λ i. Leased i c) cs
    → live_count cs ≡ 0
    → All (λ i. Leased i c') cs
others_idle c c' [] h n = tt
others_idle c c' (i ∷ cs) h n =
    let first = h.0 in (ground arith, others_idle c c' cs h.1 (ground arith))

-- A call that turns the lease of one cursor.
turned :
    (c c' : CursorControl) (xs ys : List Cursor) (i i' : Cursor)
    → Inv c (xs ++ (i ∷ ys))
    → Turn i i' c c'
    → All (λ j. Leased j c') xs
      × All (λ j. Leased j c') ys
      × (live i' + (live_count xs + live_count ys) ≡ flag c'.active_cursor_generation)
turned c c' xs ys i i' v u =
    let (a, b) = All-split (λ j. Leased j c) xs (i ∷ ys) v.leased in
    let first = b.0 in
    let n : live_count xs + (live i + live_count ys) ≡ flag c.active_cursor_generation =
      sym (live_count-append xs (i ∷ ys)) ∙ v.one in
    elim u.lease [
      | inl (g, e) ↦
          (others_kept c c' xs a u.opened e, others_kept c c' ys b.1 u.opened e, ground arith)
      | inr (inl (p, g, e)) ↦ (
        others_idle c c' xs a (ground arith),
        others_idle c c' ys b.1 (ground arith),
        ground arith,
      )
      | inr (inr (p, e, g, k)) ↦ (
        others_idle c c' xs a (ground arith),
        others_idle c c' ys b.1 (ground arith),
        ground arith,
      )
    ]

turned-Inv :
    (c c' : CursorControl) (xs ys : List Cursor) (i i' : Cursor)
    → Inv c (xs ++ (i ∷ ys))
    → Good (i, c) (i', c')
    → Inv c' (xs ++ (i' ∷ ys))
turned-Inv c c' xs ys i i' v g =
    let (a, b, n) = turned c c' xs ys i i' v g.1 in
    record {
      leased = All-append (λ j. Leased j c') xs (i' ∷ ys) a (g.0, b);
      one = live_count-append xs (i' ∷ ys) ∙ omega (arith, n);
    }

destroy-Turn :
    (i : Cursor) (c : CursorControl)
    → Leased i c
    → Turn i (destroy (i, c)).0 c (destroy (i, c)).1 × ((destroy (i, c)).0.generation_ ≡ 0)
unfolding release_lease release_feature_cursor
destroy-Turn i c h = ground arith

-- A cursor that is opened takes the lease where no other has it, or has none.
Fresh : CursorControl → Held → Type 0
Fresh c (i, c') =
    Leased i c'
    × (c'.open_generation ≡ c.open_generation)
    × (((i.generation_ ≡ 0) × (c'.active_cursor_generation ≡ c.active_cursor_generation))
        ⊎ ((0 < i.generation_)
            × (c.active_cursor_generation ≡ 0)
            × (c'.active_cursor_generation ≡ i.generation_)))

reopen-Inv : (c c' : CursorControl) (cs : List Cursor) → Inv c cs → reopen c ≡ some c' → Inv c' cs
unfolding reopen
reopen-Inv c c' cs v e = elim (Bool-cases (feature_cursor_active c)) [
  | inl a ↦ none_some (rw a at e)
  | inr a ↦
      let opened : some (record c { open_generation = next_generation c.open_generation })
          ≡ some c' =
        rw a at e in
      let same : record c { open_generation = next_generation c.open_generation } ≡ c' =
        unsome opened in
      let idle : live_count cs ≡ 0 = ground (arith, v.one) in
      subst (λ d. Inv d cs) same (record { leased = others_idle c _ cs v.leased idle; one = v.one })
]

module _ {F : Type 0} (t : Table F) where
  open_candidates-Fresh :
      (o : Opening) (c : CursorControl) (fids : List ℕ) → Fresh c (open_candidates t o c fids)
  unfolding Fresh open_candidates candidate_cursor register_feature_cursor release_lease
      release_feature_cursor
  open_candidates-Fresh o c fids = ground arith

  open_sequential-Fresh : (c : CursorControl) → Fresh c (open_sequential t c)
  unfolding Fresh open_sequential sequential_cursor register_feature_cursor release_lease
      release_feature_cursor
  open_sequential-Fresh c = ground arith

  refused-Fresh : (e : CursorError) (c : CursorControl) → Fresh c (failed_cursor e, c)
  unfolding Fresh
  refused-Fresh e c = ground arith

  candidates-Fresh :
      (query : Option (List ℕ)) (c : CursorControl) (o : Opening)
      → Fresh c (elim query as (λ q. Held) [
        | none ↦ (failed_cursor query_failed, c)
        | some fids ↦ open_candidates t o c (ordered_fids o fids)
      ])
  candidates-Fresh none c o = refused-Fresh query_failed c
  candidates-Fresh (some fids) c o = open_candidates-Fresh o c (ordered_fids o fids)

  open_cursor-Fresh : (o : Opening) (c : CursorControl) → Fresh c (open_cursor t o c)
  unfolding open_cursor
  open_cursor-Fresh o c = elim (Bool-cases o.parser_open) [
    | inr p ↦ rw p (refused-Fresh table_not_open c)
    | inl p ↦ elim (Bool-cases (feature_cursor_active c)) [
      | inl a ↦ rw (p, a) (refused-Fresh another_cursor_active c)
      | inr a ↦ elim (Bool-cases o.plain_scan) [
        | inl q ↦ rw (p, a, q) (open_sequential-Fresh c)
        | inr q ↦ rw (p, a, q) (candidates-Fresh o.query c o)
      ]
    ]
  ]

fresh-Inv :
    (c c' : CursorControl) (i : Cursor) (cs : List Cursor)
    → Fresh c (i, c')
    → Inv c cs
    → Inv c' (i ∷ cs)
unfolding Fresh
fresh-Inv c c' i cs (l, o, k) v = elim k [
  | inl (g, a) ↦ record {
    leased = (l, others_kept c c' cs v.leased o a);
    one = ground (arith, v.one);
  }
  | inr (g, n, a) ↦ record {
    leased = (l, others_idle c c' cs v.leased (ground (arith, v.one)));
    one = ground (arith, v.one);
  }
]

-- The moments of an engine at which its cursors are as they should be.
abbrev Sound : Engine → Type 0
Sound s = Inv s.control s.cursors

put_back :
    (xs ys : List Cursor) (i i' : Cursor) (c c' : CursorControl) (r : Held)
    → Inv c (xs ++ (i ∷ ys))
    → (Leased i c → Good (i, c) r)
    → r ≡ (i', c')
    → Inv c' (xs ++ (i' ∷ ys))
put_back xs ys i i' c c' r v good e =
    let (a, b) = All-split (λ j. Leased j c) xs (i ∷ ys) v.leased in
    turned-Inv c c' xs ys i i' v (subst (λ h. Good (i, c) h) e (good b.0))

taken_out :
    (xs ys : List Cursor) (i i' : Cursor) (c c' : CursorControl)
    → Inv c (xs ++ (i ∷ ys))
    → destroy (i, c) ≡ (i', c')
    → Inv c' (xs ++ ys)
taken_out xs ys i i' c c' v e =
    let (a, b) = All-split (λ j. Leased j c) xs (i ∷ ys) v.leased in
    let (u, g) = subst (λ h. Turn i h.0 c h.1 × (h.0.generation_ ≡ 0)) e (destroy-Turn i c b.0) in
    let (before, behind, n) = turned c c' xs ys i i' v u in
    record {
      leased = All-append (λ j. Leased j c') xs ys before behind;
      one = live_count-append xs ys ∙ ground (arith, n, g);
    }

module _ (F : Type 0) where
  step-Inv : (s s' : Engine) → Step F s s' → Sound s → Sound s'
  step-Inv _ _ (opened t o c cs i c' e) v =
      fresh-Inv c c' i cs (subst (λ h. Fresh c h) e (open_cursor-Fresh t o c)) v
  step-Inv _ _ (nexted t cancelled c xs ys i i' c' e) v =
      put_back xs ys i i' c c' _ v (next-Good t cancelled i c) e
  step-Inv _ _ (moved t fid c xs ys i i' c' e) v =
      put_back xs ys i i' c c' _ v (move_to-Good t fid i c) e
  step-Inv _ _ (destroyed c xs ys i i' c' e) v = taken_out xs ys i i' c c' v e
  step-Inv _ _ (reopened c c' cs e) v = reopen-Inv c c' cs v e

  Reached-Inv : (s : Engine) → Reached F s → Sound s
  Reached-Inv _ new_engine = record { leased = tt; one = refl }
  Reached-Inv _ (and_then s s' r e) = step-Inv s s' e (Reached-Inv s r)

abbrev pub ready_count : List Cursor → ℕ
ready_count [] = 0
ready_count (i ∷ is) = if is_ready i.state_ then suc (ready_count is) else ready_count is

-- A ready cursor has the lease, in the open generation in which it was planned.
abbrev pub Current : Cursor → CursorControl → Type 0
Current i c =
    is_ready i.state_ ≡ true
    → (i.generation_ ≡ c.active_cursor_generation) × (engine_is_current (i, c) ≡ true)

ready_count-live_count :
    (c : CursorControl) (cs : List Cursor)
    → All (λ i. Leased i c) cs
    → ready_count cs ≡ live_count cs
ready_count-live_count c [] h = refl
ready_count-live_count c (i ∷ cs) h =
    let first = h.0 in let rest = ready_count-live_count c cs h.1 in ground arith

All-Current :
    (c : CursorControl) (cs : List Cursor) → All (λ i. Leased i c) cs → All (λ i. Current i c) cs
All-Current c [] h = tt
All-Current c (i ∷ cs) h = let first = h.0 in (λ r. ground arith, All-Current c cs h.1)

module _ (F : Type 0) where
  -- Whatever cursors are opened, asked, moved and destroyed, and however often the engine is opened again: one cursor is
  -- ready where the engine has a cursor active, and none where it has not; a ready cursor has the active generation and
  -- the open generation in which it was planned; and the engine can be opened again exactly where none is ready.
  pub reached-ready :
      (s : Engine)
      → Reached F s
      → (ready_count s.cursors ≡ (if feature_cursor_active s.control then 1 else 0))
        × All (λ i. Current i s.control) s.cursors
        × (reopen s.control ≡ (
            if ready_count s.cursors == 0
            then some
                (record s.control { open_generation = next_generation s.control.open_generation })
            else none))
  unfolding reopen
  reached-ready s r =
      let v = Reached-Inv F s r in
      let n = ready_count-live_count s.control s.cursors v.leased in
      (ground (arith, n, v.one), All-Current s.control s.cursors v.leased, ground (arith, n, v.one))
