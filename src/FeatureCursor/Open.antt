-- ===== src/FeatureCursor/Open.antt =====
-- `QueryEngine::open_cursor` and the constructors of a cursor.
use fast_gdb.Base.{
  ℕ, Bool, true, false, not, ◌||◌, List, [], ◌∷◌, Option, none, some, ◌==◌, if◌then◌else◌, length,
}
use fast_gdb.Where.Compile.{sort_unique}
use fast_gdb.FeatureCursor.{
  CursorControl, register_feature_cursor, feature_cursor_active, ready, failed, exhausted,
  candidate_fids, sequential, CursorError, no_error, another_cursor_active, query_failed,
  table_not_open, Cursor, Held, release_lease, Table,
}

abbrev pub blank_cursor : Cursor
blank_cursor = record {
  attached = false;
  planned_open_generation = 0;
  generation_ = 0;
  state_ = ready;
  error_ = no_error;
  mode_ = candidate_fids;
  matched_fids = [];
  fids_sorted_ = true;
  fid_index_ = 0;
  next_sequential_fid_ = 0;
  feature_limit_ = 0;
}

-- The cursor of a result that is an error.
abbrev pub failed_cursor : CursorError → Cursor
failed_cursor e = record blank_cursor { state_ = failed; error_ = e }

-- The two constructors over a table: a cursor with nothing to give is exhausted at once.
unfoldable pub candidate_cursor : CursorControl → ℕ → List ℕ → Held
unfolding release_lease
candidate_cursor c generation fids =
    let i : Cursor = record blank_cursor {
      attached = true;
      planned_open_generation = c.open_generation;
      generation_ = generation;
      matched_fids = fids;
    } in
    if length fids == 0 then release_lease (record i { state_ = exhausted }, c) else (i, c)

unfoldable pub sequential_cursor : CursorControl → ℕ → ℕ → Held
unfolding release_lease
sequential_cursor c generation limit =
    let i : Cursor = record blank_cursor {
      attached = true;
      planned_open_generation = c.open_generation;
      generation_ = generation;
      mode_ = sequential;
      feature_limit_ = limit;
    } in
    if limit == 0 then release_lease (record i { state_ = exhausted }, c) else (i, c)

abbrev pub contains : List ℕ → ℕ → Bool
contains [] n = false
contains (x ∷ xs) n = x == n || contains xs n

-- `std::remove_if` with the set of the numbers seen.
unfoldable pub first_of_each : List ℕ → List ℕ → List ℕ
first_of_each seen [] = []
first_of_each seen (x ∷ xs) =
    let drop_it = first_of_each seen xs in
    let keep_it = x ∷ first_of_each (x ∷ seen) xs in if contains seen x then drop_it else keep_it

-- What `open_cursor` reads of a request: whether it is a plain sequential scan, and whether the numbers are sorted.
-- `query` is the numbers that `query` finds, or nothing where its result is an error.
pub record Opening : Type 0 where
  pub parser_open : Bool
  pub plain_scan : Bool
  pub sort_fids : Bool
  pub query : Option (List ℕ)

abbrev pub ordered_fids : Opening → List ℕ → List ℕ
ordered_fids o fids = if o.sort_fids then sort_unique fids else first_of_each [] fids

module _ {F : Type 0} (t : Table F) where
  unfoldable pub open_sequential : CursorControl → Held
  unfolding register_feature_cursor sequential_cursor
  open_sequential c =
      let (generation, c') = register_feature_cursor c in
      if t.active_feature_count == 0
      then sequential_cursor c 0 0
      else if generation == 0
      then (failed_cursor another_cursor_active, c')
      else sequential_cursor c' generation t.feature_count

  unfoldable pub open_candidates : Opening → CursorControl → List ℕ → Held
  unfolding register_feature_cursor candidate_cursor
  open_candidates o c fids =
      let (generation, c') = register_feature_cursor c in
      if length fids == 0
      then candidate_cursor c 0 []
      else if generation == 0
      then (failed_cursor another_cursor_active, c')
      else let (i, c'') = candidate_cursor c' generation fids in
        (record i { fids_sorted_ = o.sort_fids }, c'')

  unfoldable pub open_cursor : Opening → CursorControl → Held
  open_cursor o c =
      if not o.parser_open
      then (failed_cursor table_not_open, c)
      else if feature_cursor_active c
      then (failed_cursor another_cursor_active, c)
      else if o.plain_scan
      then open_sequential c
      else elim o.query [
        | none ↦ (failed_cursor query_failed, c)
        | some fids ↦ open_candidates o c (ordered_fids o fids)
      ]
