-- ===== src/FeatureCursor.antt =====
-- reader/api/feature_cursor.cpp and the CursorControl of reader/query/query_engine.h and .cpp of src/edgar/explorgdb:
-- the cursor over the features of a query, and the lease that lets one cursor at a time use the engine. A method
-- takes a cursor with the engine's control and returns both as it leaves them.
pub mod Open
pub mod Lease
pub mod System
pub mod Remaining
pub mod Whole
pub mod Moves
use fast_gdb.Base.{
  ℕ, zero, suc, ◌+◌, ◌-◌, ◌%◌, ◌^◌, Bool, true, false, not, ◌&&◌, ◌||◌, List, [], ◌∷◌, Option, none,
  some, ltb, leb, ◌==◌, if◌then◌else◌, length, get_elem?,
}
use Prim.Native.Nat.{max}

pub record CursorControl : Type 0 where
  pub open_generation : ℕ
  pub next_cursor_generation : ℕ
  pub active_cursor_generation : ℕ

-- `++n`, once more where it gives 0.
abbrev pub next_generation : ℕ → ℕ
next_generation n = if (n + 1) % 2 ^ 64 == 0 then 1 else (n + 1) % 2 ^ 64

unfoldable pub register_feature_cursor : CursorControl → ℕ × CursorControl
register_feature_cursor c =
    let generation = next_generation c.next_cursor_generation in
    if not (c.active_cursor_generation == 0) then (0, c) else (
      generation,
      record c { next_cursor_generation = generation; active_cursor_generation = generation },
    )

unfoldable pub release_feature_cursor : ℕ → CursorControl → CursorControl
release_feature_cursor generation c =
    if not (generation == 0) && c.active_cursor_generation == generation
    then record c { active_cursor_generation = 0 }
    else c

abbrev pub feature_cursor_active : CursorControl → Bool
feature_cursor_active c = not (c.active_cursor_generation == 0)

-- What `QueryEngine::open` does to the control; `none` is its refusal.
unfoldable pub reopen : CursorControl → Option CursorControl
reopen c =
    if feature_cursor_active c
    then none
    else some (record c { open_generation = next_generation c.open_generation })

pub data State : Type 0 where
  ready exhausted failed : State

pub data Mode : Type 0 where
  candidate_fids sequential : Mode

pub data CursorError : Type 0 where
  no_error query_cancelled table_unavailable read_failed fid_mismatch field_count_mismatch :
      CursorError
  fid_exceeds_range engine_reopened cannot_reacquire another_cursor_active query_failed
        table_not_open :
      CursorError

-- `attached`: the table and the callbacks are there, with the engine's generation in which the cursor was planned.
pub record Cursor : Type 0 where
  pub attached : Bool
  pub planned_open_generation : ℕ
  pub generation_ : ℕ
  pub state_ : State
  pub error_ : CursorError
  pub mode_ : Mode
  pub matched_fids : List ℕ
  pub fids_sorted_ : Bool
  pub fid_index_ : ℕ
  pub next_sequential_fid_ : ℕ
  pub feature_limit_ : ℕ

-- A cursor with the control of its engine.
abbrev pub Held : Type 0
Held = Cursor × CursorControl

abbrev pub is_ready : State → Bool
is_ready ready = true
is_ready _ = false

abbrev pub is_failed : State → Bool
is_failed failed = true
is_failed _ = false

unfoldable pub release_lease : Held → Held
unfolding release_feature_cursor
release_lease (i, c) = if i.generation_ == 0 then (i, c) else (
  record i { generation_ = 0 },
  if i.attached then release_feature_cursor i.generation_ c else c,
)

unfoldable pub exhaust : Held → Held
unfolding release_lease
exhaust (i, c) =
    if is_failed i.state_ then (i, c) else release_lease (record i { state_ = exhausted }, c)

unfoldable pub fail : CursorError → Held → Held
unfolding release_lease
fail e (i, c) =
    if is_failed i.state_
    then (i, c)
    else release_lease (record i { state_ = failed; error_ = e }, c)

-- The destructor.
abbrev pub destroy : Held → Held
destroy s = release_lease s

abbrev pub done : Cursor → Bool
done i = elim i.state_ [ exhausted ↦ true | _ ↦ false ]

abbrev pub engine_is_current : Held → Bool
engine_is_current (i, c) = not i.attached || c.open_generation == i.planned_open_generation

unfoldable pub ensure_lease : Held → Bool × Held
unfolding fail register_feature_cursor
ensure_lease (i, c) =
    let (generation, c') = register_feature_cursor c in
    if not (engine_is_current (i, c))
    then (false, fail engine_reopened (i, c))
    else if not (i.generation_ == 0)
    then (true, (i, c))
    else if not i.attached
    then (false, fail cannot_reacquire (i, c))
    else if generation == 0
    then (false, fail another_cursor_active (i, c'))
    else (true, (record i { generation_ = generation }, c'))

abbrev pub set_ready : Held → Held
set_ready (i, c) = (record i { state_ = ready }, c)

pub data Sought : Type 0 where
  found out_of_range : ℕ → Sought
  none_left : Sought

-- The table of the engine: which numbers have a row, and how a whole feature is read.
pub record Table (F : Type 0) : Type 0 where
  pub has_feature : ℕ → Bool
  pub read_feature_by_fid : ℕ → Option F
  pub record_fid : F → ℕ
  pub value_count : F → ℕ
  pub field_count : ℕ
  pub feature_count : ℕ
  pub active_feature_count : ℕ

module _ {F : Type 0} (t : Table F) where
  -- The loops over the numbers below `limit`; one that is found is `limit - rounds`.
  unfoldable pub seek : ℕ → ℕ → Sought
  seek zero limit = none_left
  seek (suc rounds) limit =
      let candidate = limit - suc rounds in
      let rest = seek rounds limit in
      if ltb (2 ^ 32 - 1) candidate
      then out_of_range candidate
      else if t.has_feature candidate
      then found candidate
      else rest

  unfoldable pub next_fid : Held → Option ℕ × Held
  unfolding seek fail
  next_fid (i, c) = elim i.mode_ [
    | candidate_fids ↦ elim (get_elem? i.matched_fids i.fid_index_) [
      | none ↦ (none, (i, c))
      | some fid ↦ (some fid, (record i { fid_index_ = i.fid_index_ + 1 }, c))
    ]
    | sequential ↦
        if not i.attached
        then (none, fail table_unavailable (i, c))
        else elim (seek (i.feature_limit_ - i.next_sequential_fid_) i.feature_limit_) [
          | found fid ↦ (some fid, (record i { next_sequential_fid_ = fid + 1 }, c))
          | out_of_range fid ↦
              (none, fail fid_exceeds_range (record i { next_sequential_fid_ = fid + 1 }, c))
          | none_left ↦ (
            none,
            (record i { next_sequential_fid_ = max i.next_sequential_fid_ i.feature_limit_ }, c),
          )
        ]
  ]

  -- What is read of a feature, checked against its number and the table's fields.
  unfoldable pub checked_feature : ℕ → Option F → Held → Option F × Held
  unfolding fail
  checked_feature fid none s = (none, fail read_failed s)
  checked_feature fid (some f) s =
      if not (t.record_fid f == fid)
      then (none, fail fid_mismatch s)
      else if not (t.value_count f == t.field_count)
      then (none, fail field_count_mismatch s)
      else (some f, s)

  -- The feature of the number that `next_fid` gave, or the end.
  unfoldable pub read_next : Option ℕ × Held → Option F × Held
  unfolding exhaust checked_feature
  read_next (none, s) = (none, if is_ready s.0.state_ then exhaust s else s)
  read_next (some fid, s) =
      if not s.0.attached
      then (none, fail table_unavailable s)
      else checked_feature fid (t.read_feature_by_fid fid) s

  -- `cancelled` is what the callback of the request answers, `false` where there is none.
  unfoldable pub next : Bool → Held → Option F × Held
  unfolding fail next_fid read_next
  next cancelled (i, c) =
      if not (is_ready i.state_)
      then (none, (i, c))
      else if not (engine_is_current (i, c))
      then (none, fail engine_reopened (i, c))
      else if cancelled
      then (none, fail query_cancelled (i, c))
      else read_next (next_fid (i, c))

  -- `std::lower_bound` on sorted numbers, and the loop that takes its place on others.
  unfoldable pub lower_bound : List ℕ → ℕ → ℕ
  lower_bound [] fid = 0
  lower_bound (x ∷ xs) fid = let rest = suc (lower_bound xs fid) in if ltb x fid then rest else 0

  unfoldable pub move_candidate : ℕ → Held → Bool × Held
  unfolding exhaust
  move_candidate fid (i, c) =
      let placed : Held = (record i { fid_index_ = lower_bound i.matched_fids fid }, c) in
      if lower_bound i.matched_fids fid == length i.matched_fids
      then (false, exhaust placed)
      else (true, set_ready placed)

  unfoldable pub move_row : ℕ → Held → Bool × Held
  unfolding exhaust fail
  move_row fid (i, c) =
      if not i.attached
      then (false, fail table_unavailable (i, c))
      else elim (seek (i.feature_limit_ - fid) i.feature_limit_) [
        | found n ↦ (true, set_ready (record i { next_sequential_fid_ = n }, c))
        | out_of_range n ↦ (false, fail fid_exceeds_range (i, c))
        | none_left ↦
            (false, exhaust (record i { next_sequential_fid_ = max fid i.feature_limit_ }, c))
      ]

  unfoldable pub move_to : ℕ → Held → Bool × Held
  move_to fid (i, c) =
      let (leased, s) = ensure_lease (i, c) in
      if is_failed i.state_
      then (false, (i, c))
      else if not (engine_is_current (i, c))
      then (false, fail engine_reopened (i, c))
      else if not leased
      then (false, s)
      else elim i.mode_ [ candidate_fids ↦ move_candidate fid s | sequential ↦ move_row fid s ]
