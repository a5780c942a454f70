-- ===== src/Session/Cursor.antt =====
-- `AdaptiveFeatureCursor` and the functions that open it. Its destructor is `close`.
use fast_gdb.Base.{Bool, true, false, not, ◌&&◌, ◌||◌, Option, none, some, if◌then◌else◌}
use fast_gdb.Coordination.{
  FilePath, Registry, Lease, no_lease, try_acquire, release, abandon_fail_closed,
  expired_at_safe_point,
}
use fast_gdb.Coordination.Transfer.{move_lease, assign_lease}
use fast_gdb.Session.{
  AdaptiveReadStatus, ok, source_busy, reader_expired, fast_backend_read_failed, gdal_open_failed,
  gdal_read_failed, AdaptiveReadBackend, no_backend, fast_gdb_backend, gdal_open_file_gdb,
  AdaptiveReadConsistency, not_applicable, verified, unverified_concurrent_read,
  ConcurrentReadPolicy, source_busy_policy, gdal_unverified, lease_valid,
}

-- What the backend's `next` does: a feature, or none with whether there is an error, by its text or thrown.
pub data NextCall (F : Type 0) : Type 0 where
  feature : F → NextCall F
  no_feature : Bool → NextCall F

-- What a factory does when it is called.
pub data Made (B : Type 0) : Type 0 where
  made : B → Made B
  no_next : Made B
  factory_threw : Made B

-- `backend_cursor_` is `none` where it has no callbacks.
pub record AdaptiveFeatureCursor (B : Type 0) : Type 0 where
  pub status_ : AdaptiveReadStatus
  pub backend_ : AdaptiveReadBackend
  pub consistency_ : AdaptiveReadConsistency
  pub fast_lease_ : Lease
  pub backend_cursor_ : Option B
  pub done_ : Bool
  pub backend_closed_ : Bool
  pub error_ : Bool

abbrev pub is_ok : AdaptiveReadStatus → Bool
is_ok ok = true
is_ok _ = false

abbrev pub is_fast : AdaptiveReadBackend → Bool
is_fast fast_gdb_backend = true
is_fast _ = false

abbrev pub is_gdal : AdaptiveReadBackend → Bool
is_gdal gdal_open_file_gdb = true
is_gdal _ = false

module _ {B F : Type 0} (next_call : B → NextCall F × B) (close_call : Option (B → Bool × B)) where
  abbrev pub new_cursor :
      AdaptiveReadStatus
      → AdaptiveReadBackend
      → AdaptiveReadConsistency
      → Lease
      → Option B
      → AdaptiveFeatureCursor B
  new_cursor status backend consistency lease cursor = record {
    status_ = status;
    backend_ = backend;
    consistency_ = consistency;
    fast_lease_ = lease;
    backend_cursor_ = cursor;
    done_ = not (is_ok status) || elim cursor [ none ↦ true | some b ↦ false ];
    backend_closed_ = false;
    error_ = false;
  }

  abbrev pub failed_cursor :
      AdaptiveReadStatus → AdaptiveReadBackend → AdaptiveReadConsistency → AdaptiveFeatureCursor B
  failed_cursor status backend consistency =
      record (new_cursor status backend consistency no_lease none) { error_ = true }

  -- `g` is the registry after the factory ran.
  unfoldable pub open_fast_cursor_path :
      Registry → Option (Made B) → Lease → AdaptiveFeatureCursor B × Registry
  open_fast_cursor_path g (some (made b)) lease =
      (new_cursor ok fast_gdb_backend verified lease (some b), g)
  open_fast_cursor_path g _ lease =
      (failed_cursor fast_backend_read_failed fast_gdb_backend not_applicable, (release g lease).0)

  unfoldable pub open_gdal_cursor_path : Option (Made B) → AdaptiveFeatureCursor B
  open_gdal_cursor_path (some (made b)) =
      new_cursor ok gdal_open_file_gdb unverified_concurrent_read no_lease (some b)
  open_gdal_cursor_path _ =
      failed_cursor gdal_open_failed gdal_open_file_gdb unverified_concurrent_read

  unfoldable pub open_cursor :
      Registry
      → FilePath
      → Option (Made B)
      → Option (Made B)
      → (Registry → Registry)
      → ConcurrentReadPolicy
      → AdaptiveFeatureCursor B × Registry
  open_cursor g p fast gdal others policy =
      let (g', lease) = try_acquire g p in
      if lease_valid lease then open_fast_cursor_path (others g') fast lease else elim policy [
        | source_busy_policy ↦ (new_cursor source_busy no_backend not_applicable no_lease none, g')
        | gdal_unverified ↦ (open_gdal_cursor_path gdal, others g')
      ]

  -- The call of the backend's `close`: whether it threw, and the backend behind it.
  abbrev pub close_backend : AdaptiveFeatureCursor B → Bool × Option B
  close_backend c =
      if c.backend_closed_ then (false, c.backend_cursor_) else elim c.backend_cursor_ [
        | none ↦ (false, none)
        | some b ↦ elim close_call [ none ↦ (false, some b) | some f ↦ ((f b).0, some (f b).1) ]
      ]

  -- The status and the consistency where a backend failed.
  abbrev pub read_failed_cursor : AdaptiveFeatureCursor B → AdaptiveFeatureCursor B
  read_failed_cursor c =
      if is_gdal c.backend_
      then record c {
        status_ = gdal_read_failed;
        consistency_ = unverified_concurrent_read;
        error_ = true;
      }
      else record c {
        status_ = fast_backend_read_failed;
        consistency_ = not_applicable;
        error_ = true;
      }

  abbrev pub drop_lease : Bool → Registry → AdaptiveFeatureCursor B → Lease × Registry
  drop_lease cleanup_failed g c =
      if cleanup_failed && is_fast c.backend_ && lease_valid c.fast_lease_
      then (abandon_fail_closed c.fast_lease_, g)
      else ((release g c.fast_lease_).1, (release g c.fast_lease_).0)

  unfoldable pub close : Registry → AdaptiveFeatureCursor B → AdaptiveFeatureCursor B × Registry
  close g c =
      let (cleanup_failed, backend) = close_backend c in
      let (lease, g') = drop_lease cleanup_failed g c in
      let c' =
        if cleanup_failed
        then (if is_ok c.status_ then read_failed_cursor c else record c { error_ = true })
        else c in
      (
        record c' {
          fast_lease_ = lease;
          backend_cursor_ = backend;
          backend_closed_ = true;
          done_ = true;
        },
        g',
      )

  -- A call of an empty `next` throws.
  abbrev pub call_next : Option B → NextCall F × Option B
  call_next none = (no_feature true, none)
  call_next (some b) = ((next_call b).0, some (next_call b).1)

  unfoldable pub next :
      Registry
      → (Registry → Registry)
      → AdaptiveFeatureCursor B
      → Option F × (AdaptiveFeatureCursor B × Registry)
  next g others c =
      let (call, backend) = call_next c.backend_cursor_ in
      let c' = record c { backend_cursor_ = backend } in
      if c.done_ || not (is_ok c.status_)
      then (none, (c, g))
      else if is_fast c.backend_ && expired_at_safe_point g c.fast_lease_
      then (
        none,
        close g
            (record c { status_ = reader_expired; consistency_ = not_applicable; error_ = true }),
      )
      else elim call [
        | feature f ↦ (some f, (c', others g))
        | no_feature error ↦ (none, close (others g) (if error then read_failed_cursor c' else c'))
      ]

  -- The new object, and the old one as it is left; `left`, `backend` and `error` are what the standard library
  -- leaves of the path, of the callbacks and of the text of the error.
  unfoldable pub move_cursor :
      FilePath
      → Option B
      → Bool
      → AdaptiveFeatureCursor B
      → AdaptiveFeatureCursor B × AdaptiveFeatureCursor B
  move_cursor left backend error other = (
    record other { fast_lease_ = (move_lease left other.fast_lease_).0 },
    record other {
      fast_lease_ = (move_lease left other.fast_lease_).1;
      backend_cursor_ = backend;
      done_ = true;
      backend_closed_ = true;
      error_ = error;
    },
  )

  -- The assignment from another object: the target, the other one, and the registry. `close` comes first, and the
  -- assignment of the lease releases the target's once more.
  unfoldable pub assign_cursor :
      Registry
      → FilePath
      → Option B
      → Bool
      → AdaptiveFeatureCursor B
      → AdaptiveFeatureCursor B
      → AdaptiveFeatureCursor B × AdaptiveFeatureCursor B × Registry
  assign_cursor g left backend error target other =
      let (target', g') = close g target in
      let (lease, lease', g'') = assign_lease g' left target'.fast_lease_ other.fast_lease_ in
      let (moved, other') = move_cursor left backend error other in
      (record moved { fast_lease_ = lease }, record other' { fast_lease_ = lease' }, g'')
