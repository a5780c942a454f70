-- ===== src/Tests/Coordinator.antt =====
-- The registry on one path: readers, one writer, retried closes.
use fast_gdb.Base.{◌≤◌, ◌≡◌, refl, true, false, List, [], ◌∷◌, none, some, arith, get_elem?}
use fast_gdb.Base.Keys.{update, key_eq}
use fast_gdb.Coordination.{
  FilePath, Entry, new_entry, Registry, Lease, Token, ok, pending, entry_at, write, try_acquire,
  release, expired_at_safe_point, prepare_begin, prepare_end, notify_update_opened, drained,
}
use fast_gdb.Coordination.System.{
  Event, start, step, run, acquired, acquires, releases, moves, assigns, prepares, ends_wait, opens,
  release_at, move_at, assign_at, put_lease,
}
use fast_gdb.Coordination.Invariant.{held}
use fast_gdb.Coordination.Exclusion.{
  entry_after, live-lease-excludes-writer, active-writer-excludes-readers,
  expired_at_safe_point-writer_pending,
}
use fast_gdb.Coordination.Exact.{fast_reader_count-held}
use fast_gdb.Coordination.Transfer.{assign_lease}
use fast_gdb.Coordination.Update.{
  close_after, close_after-generation, finish_update, finish_update-prepare_begin,
}

abbrev roads : FilePath
roads = b'/' ∷ b'r' ∷ []

abbrev reader : Lease
reader = record {
  attached = true;
  path = roads;
  generation = 0;
  pending_events = 0;
  counted = true;
}

-- A reader, then a writer that waits for it.
abbrev waits : List Event
waits = acquires roads ∷ prepares roads ∷ []

first_lease : get_elem? (run start waits).leases 0 ≡ some reader
unfolding run step start acquired try_acquire entry_at write prepare_begin
first_lease = refl

live-lease-excludes-writer_example :
    ((entry_after waits roads).writer_active ≡ false)
    × ((entry_after waits roads).source_verified ≡ true)
    × ((entry_after waits roads).generation ≡ 0)
    × (1 ≤ (entry_after waits roads).fast_reader_count)
live-lease-excludes-writer_example =
    live-lease-excludes-writer waits (omega arith) 0 reader first_lease refl

expired_at_safe_point-writer_pending_example :
    expired_at_safe_point (run start waits).registry reader
    ≡ (entry_after waits roads).writer_pending
expired_at_safe_point-writer_pending_example =
    expired_at_safe_point-writer_pending waits (omega arith) 0 reader first_lease refl

-- The writer goes ahead once the reader has left.
abbrev writer : Token
writer = record { attached = true; path = roads; token_id = 1; phase = pending }

abbrev goes_ahead : List Event
goes_ahead = acquires roads ∷ prepares roads ∷ releases 0 ∷ ends_wait roads 1 ∷ opens writer ∷ []

writer_active_now : (entry_after goes_ahead roads).writer_active ≡ true
unfolding run step start acquired try_acquire entry_at write prepare_begin prepare_end drained
    release_at release put_lease notify_update_opened update
writer_active_now = refl

active-writer-excludes-readers_example :
    ((entry_after goes_ahead roads).fast_reader_count ≡ 0)
    × (held (run start goes_ahead).leases roads ≡ 0)
    × ((entry_after goes_ahead roads).writer_pending ≡ false)
active-writer-excludes-readers_example =
    active-writer-excludes-readers goes_ahead (omega arith) roads writer_active_now

-- A lease moved to a second object and assigned back to the first.
abbrev passes_on : List Event
passes_on = acquires roads ∷ moves 0 [] ∷ assigns 1 0 [] ∷ []

fast_reader_count-held_example :
    (entry_after passes_on roads).fast_reader_count ≡ held (run start passes_on).leases roads
fast_reader_count-held_example =
    fast_reader_count-held passes_on (omega arith) (refl, (refl, (refl, tt))) roads

counted_once : held (run start passes_on).leases roads ≡ 1
unfolding run step start acquired try_acquire entry_at write move_at assign_at release held
    assign_lease key_eq
counted_once = refl

abbrev writing : Entry
writing = record new_entry { writer_active = true; generation = 4; writer_token_id = 9 }

abbrev busy : Registry
busy = record { sources = λ p. some writing; next_token_id = 10 }

close_after-generation_example :
    let r = close_after 3 busy roads 9 in
    (r.1 ≡ ok)
    × ((entry_at r.0 roads).writer_active ≡ false)
    × ((entry_at r.0 roads).source_verified ≡ true)
    × ((entry_at r.0 roads).writer_token_id ≡ 0)
    × ((entry_at r.0 roads).generation ≡ 5)
close_after-generation_example =
    close_after-generation 3 busy roads writing refl refl refl refl (omega arith)

abbrev at_rest : Registry
at_rest = record { sources = λ p. none; next_token_id = 1 }

finish_update-prepare_begin_example :
    (g' : Registry) × (finish_update (prepare_begin at_rest roads).0 roads 1 ≡ (g', ok, ok, ok))
    × ((entry_at g' roads).writer_pending ≡ false)
    × ((entry_at g' roads).writer_active ≡ false)
    × ((entry_at g' roads).source_verified ≡ true)
    × ((entry_at g' roads).generation ≡ 1)
unfolding entry_at
finish_update-prepare_begin_example =
    finish_update-prepare_begin at_rest roads refl refl refl (omega arith) refl
