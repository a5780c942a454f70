-- ===== src/Session.antt =====
-- adaptive/adaptive_session.cpp of src/edgar/explorgdb: reading through a fast reader with a lease, or else through
-- GDAL, and the cursor that owns a lease. Paths are normalized. The callbacks of the two backends are parameters, as
-- is what the other threads do to the registry while one of them runs. Errors are kept as whether there is one.
pub mod Reads
pub mod Cursor
pub mod Closing
pub mod Moving
use fast_gdb.Base.{
  ℕ, ◌+◌, Bool, true, false, not, ◌&&◌, ◌||◌, Option, none, some, ◌==◌, if◌then◌else◌,
}
use fast_gdb.Coordination.{
  FilePath, Entry, new_entry, Registry, Lease, no_lease, is_empty, entry_at, try_acquire, release,
  abandon_fail_closed, expired_at_safe_point, writer_pending_observed,
}

pub data AdaptiveReadStatus : Type 0 where
  ok source_busy reader_expired fast_backend_read_failed gdal_open_failed gdal_read_failed :
      AdaptiveReadStatus

pub data AdaptiveReadBackend : Type 0 where
  no_backend fast_gdb_backend gdal_open_file_gdb : AdaptiveReadBackend

pub data AdaptiveReadConsistency : Type 0 where
  not_applicable verified unverified_concurrent_read : AdaptiveReadConsistency

pub data ConcurrentReadPolicy : Type 0 where
  source_busy_policy gdal_unverified : ConcurrentReadPolicy

pub data BackendFailureKind : Type 0 where
  no_failure open_failed read_failed : BackendFailureKind

-- `failure` with `ok`: a result has none.
pub data BackendReadResult (R : Type 0) : Type 0 where
  success : R → BackendReadResult R
  failure : BackendFailureKind → BackendReadResult R

-- What an executor does when it is called.
pub data Executed (R : Type 0) : Type 0 where
  returned : BackendReadResult R → Executed R
  threw : Executed R

abbrev pub backend_failure_status : BackendFailureKind → AdaptiveReadStatus
backend_failure_status open_failed = gdal_open_failed
backend_failure_status _ = gdal_read_failed

pub record AdaptiveReadResult (R : Type 0) : Type 0 where
  pub status : AdaptiveReadStatus
  pub backend : AdaptiveReadBackend
  pub consistency : AdaptiveReadConsistency
  pub result : Option R
  pub generation_before : ℕ
  pub generation_after : ℕ
  pub writer_pending_seen : Bool
  pub writer_active_seen : Bool
  pub fast_error : Bool
  pub gdal_error : Bool

-- `InProcessGdbCoordinator::state`
abbrev pub state : Registry → FilePath → Entry
state g p = if is_empty p then new_entry else entry_at g p

abbrev pub lease_valid : Lease → Bool
lease_valid l = l.counted

module _ {R : Type 0} where
  -- An executor that is missing or throws; `absent` is the failure of a missing one.
  abbrev pub run_executor : BackendFailureKind → Option (Executed R) → BackendReadResult R
  run_executor absent none = failure absent
  run_executor absent (some (returned r)) = r
  run_executor absent (some threw) = failure read_failed

  abbrev pub is_success : BackendReadResult R → Bool
  is_success (success r) = true
  is_success (failure kind) = false

  abbrev pub result_of : BackendReadResult R → Option R
  result_of (success r) = some r
  result_of (failure kind) = none

  unfoldable pub read_fast_path :
      Registry
      → FilePath
      → Option (Executed R)
      → (Registry → Registry)
      → Lease
      → AdaptiveReadResult R × Registry
  read_fast_path g p executor others lease =
      let backend = run_executor read_failed executor in
      let g' = others g in
      let during = state g' p in
      let source_changed =
        not (lease.generation == during.generation)
        || during.writer_active
        || not during.source_verified in
      let expired : AdaptiveReadResult R = record {
        status = reader_expired;
        backend = fast_gdb_backend;
        consistency = not_applicable;
        result = none;
        generation_before = lease.generation;
        generation_after = during.generation;
        writer_pending_seen = writer_pending_observed g' lease || during.writer_pending;
        writer_active_seen = during.writer_active;
        fast_error = true;
        gdal_error = false;
      } in
      let read : AdaptiveReadResult R = record expired {
        status = if is_success backend then ok else fast_backend_read_failed;
        consistency = if is_success backend then verified else not_applicable;
        result = result_of backend;
        fast_error = not (is_success backend);
      } in
      (if source_changed then expired else read, (release g' lease).0)

  -- `before` is the state that `output` was filled from.
  unfoldable pub read_gdal_path :
      Registry
      → FilePath
      → Option (Executed R)
      → (Registry → Registry)
      → Entry
      → AdaptiveReadResult R × Registry
  read_gdal_path g p executor others before =
      let backend = run_executor open_failed executor in
      let g' = others g in
      let after = state g' p in
      (
        record {
          status = elim backend [ success r ↦ ok | failure kind ↦ backend_failure_status kind ];
          backend = gdal_open_file_gdb;
          consistency = unverified_concurrent_read;
          result = result_of backend;
          generation_before = before.generation;
          generation_after = after.generation;
          writer_pending_seen =
              before.writer_pending
              || after.writer_pending
              || not (after.pending_events == before.pending_events);
          writer_active_seen = before.writer_active || after.writer_active;
          fast_error = false;
          gdal_error = not (is_success backend);
        },
        g',
      )

  abbrev pub busy : Entry → AdaptiveReadResult R
  busy before = record {
    status = source_busy;
    backend = no_backend;
    consistency = not_applicable;
    result = none;
    generation_before = before.generation;
    generation_after = before.generation;
    writer_pending_seen = before.writer_pending;
    writer_active_seen = before.writer_active;
    fast_error = false;
    gdal_error = false;
  }

  -- `AdaptiveReadSession::read`; nothing else is done to the registry between the refusal of the lease and the
  -- state that is taken then.
  unfoldable pub read :
      Registry
      → FilePath
      → Option (Executed R)
      → Option (Executed R)
      → (Registry → Registry)
      → ConcurrentReadPolicy
      → AdaptiveReadResult R × Registry
  read g p fast gdal others policy =
      let (g', lease) = try_acquire g p in
      let before = state g' p in
      if lease_valid lease then read_fast_path g' p fast others lease else elim policy [
        | source_busy_policy ↦ (busy before, g')
        | gdal_unverified ↦ read_gdal_path g' p gdal others before
      ]
