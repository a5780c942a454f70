-- ===== src/Tests/Sessions.antt =====
-- A read and a cursor on a source that no writer knows.
use fast_gdb.Base.{
  ℕ, ◌≡◌, refl, Bool, true, false, ◌&&◌, [], ◌∷◌, Option, some, none, if◌then◌else◌,
}
use fast_gdb.Base.Keys.{update, key_eq}
use fast_gdb.Coordination.{
  FilePath, Registry, Lease, try_acquire, entry_at, write, release, no_lease,
}
use fast_gdb.Session.{
  read, read_fast_path, ok, verified, returned, success, Executed, source_busy_policy, lease_valid,
  fast_gdb_backend, source_busy, no_backend, not_applicable,
}
use fast_gdb.Session.Reads.{answer, during, read-verified}
use fast_gdb.Session.Cursor.{
  AdaptiveFeatureCursor, NextCall, feature, is_fast, close, new_cursor, next, assign_cursor,
}
use fast_gdb.Session.Closing.{failed, close-close}
use fast_gdb.Session.Moving.{emptied, assign_cursor-close}

abbrev no_sources : Registry
no_sources = record { sources = λ _. none; next_token_id = 1 }

abbrev source_path : FilePath
source_path = 47 ∷ 97 ∷ []

abbrev five : Option (Executed ℕ)
five = some (returned (success 5))

abbrev nobody : Registry → Registry
nobody g = g

five_verified :
    (answer no_sources source_path five none nobody source_busy_policy).consistency ≡ verified
unfolding read read_fast_path try_acquire entry_at write update key_eq
five_verified = refl

read-verified_example :
    (lease_valid (try_acquire no_sources source_path).1 ≡ true)
    × ((answer no_sources source_path five none nobody source_busy_policy).status ≡ ok)
    × ((r : ℕ) × (five ≡ some (returned (success r)))
        × ((answer no_sources source_path five none nobody source_busy_policy).result ≡ some r))
    × ((entry_at no_sources source_path).generation
        ≡ (during no_sources source_path five none nobody).generation)
    × ((during no_sources source_path five none nobody).writer_active ≡ false)
    × ((during no_sources source_path five none nobody).source_verified ≡ true)
read-verified_example =
    read-verified no_sources source_path five none nobody source_busy_policy five_verified

abbrev one_lease : Lease
one_lease = (try_acquire no_sources source_path).1

abbrev one_reader : Registry
one_reader = (try_acquire no_sources source_path).0

abbrev count_on : ℕ → NextCall ℕ × ℕ
count_on n = (feature n, n)

-- A backend whose cleanup throws.
abbrev throwing : Option (ℕ → Bool × ℕ)
throwing = some (λ n. (true, n))

abbrev open_one : AdaptiveFeatureCursor ℕ
open_one = new_cursor count_on throwing ok fast_gdb_backend verified one_lease (some 7)

close-close_example :
    ((close count_on throwing one_reader open_one).0.done_ ≡ true)
    × (close count_on throwing no_sources (close count_on throwing one_reader open_one).0
        ≡ ((close count_on throwing one_reader open_one).0, no_sources))
    × ((close count_on throwing one_reader open_one).1 ≡ (
        if failed count_on throwing one_reader no_sources open_one
          && is_fast open_one.backend_
          && lease_valid open_one.fast_lease_
        then one_reader
        else (release one_reader open_one.fast_lease_).0))
close-close_example = close-close count_on throwing one_reader no_sources open_one

-- The reader stays counted.
reader_stays_counted : (close count_on throwing one_reader open_one).1 ≡ one_reader
unfolding close try_acquire entry_at write update key_eq
reader_stays_counted = refl

-- A cursor with no lease takes the place of one whose cleanup throws.
abbrev idle_one : AdaptiveFeatureCursor ℕ
idle_one = new_cursor count_on throwing source_busy no_backend not_applicable no_lease none

assign_cursor-close_example :
    (assign_cursor count_on throwing one_reader [] none false open_one idle_one ≡ (
      idle_one,
      emptied count_on throwing [] none false idle_one,
      (close count_on throwing one_reader open_one).1,
    ))
    × (close count_on throwing no_sources (emptied count_on throwing [] none false idle_one)
        ≡ (emptied count_on throwing [] none false idle_one, no_sources))
    × (next count_on throwing no_sources nobody (emptied count_on throwing [] none false idle_one)
        ≡ (none, (emptied count_on throwing [] none false idle_one, no_sources)))
assign_cursor-close_example =
    assign_cursor-close count_on throwing [] none false one_reader no_sources nobody open_one
      idle_one
