-- ===== src/Tests/Cursors.antt =====
-- A table of four numbers, three with a row, and cursors over it.
use fast_gdb.Base.{
  ℕ, ◌≡◌, refl, true, false, not, [], ◌∷◌, some, none, if◌then◌else◌, ◌==◌, All, arith,
}
use fast_gdb.FeatureCursor.{
  CursorControl, next_generation, Table, Held, next, feature_cursor_active, reopen, move_to,
}
use fast_gdb.FeatureCursor.Open.{
  Opening, open_cursor, open_sequential, open_candidates, first_of_each,
}
use fast_gdb.FeatureCursor.System.{
  Engine, opened, moved, new_engine, and_then, ready_count, Current, reached-ready,
}
use fast_gdb.FeatureCursor.Remaining.{Holding, collect, Collected}
use fast_gdb.FeatureCursor.Moves.{Moved, remaining_from, move_to-Moved}
use fast_gdb.FeatureCursor.Whole.{planned_fids, open_cursor-collect}

abbrev three_rows : Table ℕ
three_rows = record {
  has_feature = λ n. not (n == 1);
  read_feature_by_fid = λ n. some n;
  record_fid = λ n. n;
  value_count = λ n. 2;
  field_count = 2;
  feature_count = 4;
  active_feature_count = 3;
}

abbrev new_control : CursorControl
new_control = record {
  open_generation = 1;
  next_cursor_generation = 0;
  active_cursor_generation = 0;
}

abbrev whole_table : Opening
whole_table = record { parser_open = true; plain_scan = true; sort_fids = true; query = some [] }

abbrev as_found : Opening
as_found = record {
  parser_open = true;
  plain_scan = false;
  sort_fids = false;
  query = some (3 ∷ 0 ∷ 3 ∷ []);
}

abbrev feature_of : ℕ → ℕ
feature_of n = n

whole_table_run :
    (collect three_rows 5 (open_cursor three_rows whole_table new_control)).0 ≡ 0 ∷ 2 ∷ 3 ∷ []
unfolding collect next open_cursor open_sequential
whole_table_run = refl

as_found_run : (collect three_rows 5 (open_cursor three_rows as_found new_control)).0 ≡ 3 ∷ 0 ∷ []
unfolding collect first_of_each next open_cursor open_candidates
as_found_run = refl

open_cursor-collect_example :
    Collected three_rows feature_of
      (planned_fids three_rows whole_table [])
      (collect three_rows 5 (open_cursor three_rows whole_table new_control))
open_cursor-collect_example =
    open_cursor-collect three_rows feature_of whole_table new_control [] 5 refl refl refl
      (omega arith) ((refl, refl, refl), ((refl, refl, refl), ((refl, refl, refl), tt)))
      (omega arith)

abbrev first_control : CursorControl
first_control = record {
  open_generation = 0;
  next_cursor_generation = 0;
  active_cursor_generation = 0;
}

-- A cursor is opened, a second one is refused, and the first moves.
abbrev scan : Held
scan = open_cursor three_rows whole_table first_control

abbrev refused_scan : Held
refused_scan = open_cursor three_rows whole_table scan.1

abbrev moved_scan : Held
moved_scan = (move_to three_rows 1 (scan.0, refused_scan.1)).1

abbrev both : Engine
both = record { control = moved_scan.1; cursors = refused_scan.0 ∷ moved_scan.0 ∷ [] }

reached-ready_example :
    (ready_count both.cursors ≡ (if feature_cursor_active both.control then 1 else 0))
    × All (λ i. Current i both.control) both.cursors
    × (reopen both.control ≡ (
        if ready_count both.cursors == 0
        then some
            (record both.control { open_generation = next_generation both.control.open_generation })
        else none))
reached-ready_example = reached-ready ℕ both (
    and_then (record { control = refused_scan.1; cursors = refused_scan.0 ∷ scan.0 ∷ [] }) both
      (and_then (record { control = scan.1; cursors = scan.0 ∷ [] })
        (record { control = refused_scan.1; cursors = refused_scan.0 ∷ scan.0 ∷ [] })
        (and_then (record { control = first_control; cursors = [] })
          (record { control = scan.1; cursors = scan.0 ∷ [] }) new_engine
          (opened three_rows whole_table first_control [] scan.0 scan.1 refl))
        (opened three_rows whole_table scan.1 (scan.0 ∷ []) refused_scan.0 refused_scan.1 refl))
      (moved three_rows 1 refused_scan.1 (refused_scan.0 ∷ []) [] scan.0 moved_scan.0 moved_scan.1
        refl))

-- The cursor over the whole table, moved to row 1, which has no row.
scan-Holding : Holding three_rows scan.0 scan.1
unfolding open_cursor open_sequential
scan-Holding = record {
  start = refl;
  attachment = refl;
  plan = refl;
  some_lease = omega arith;
  lease = refl;
  limit = omega arith;
}

move_to-Moved_example :
    Moved three_rows (remaining_from three_rows 1 scan.0) (move_to three_rows 1 scan)
move_to-Moved_example = move_to-Moved three_rows 1 scan.0 scan.1 scan-Holding

left_after_move : remaining_from three_rows 1 scan.0 ≡ 2 ∷ 3 ∷ []
unfolding open_cursor open_sequential
left_after_move = refl
