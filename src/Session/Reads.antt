-- ===== src/Session/Reads.antt =====
-- What a verified read says.
use fast_gdb.Base.{
  ℕ, ◌≡◌, inl, inr, refl, sym, ap, ◌∙◌, Bool, true, false, not, ◌||◌, Option, none, some, ◌==◌,
  arith, Bool-cases,
}
use fast_gdb.Coordination.{FilePath, Entry, Registry, Lease, is_empty, entry_at, try_acquire}
use fast_gdb.Session.{
  ok, source_busy_policy, gdal_unverified, verified, AdaptiveReadResult, ConcurrentReadPolicy,
  Executed, success, failure, returned, threw, state, lease_valid, run_executor, is_success,
  result_of, read_fast_path, read_gdal_path, read, read_failed,
}

unchanged_or :
    (g g' : ℕ) (a v : Bool)
    → (not (g == g') || a || not v) ≡ false
    → (g ≡ g') × (a ≡ false) × (v ≡ true)
unchanged_or g g' a v h = elim (Bool-cases (g == g')) [
  | inl e ↦ let (x, y) = both_left a v (rw e at h) in (ground arith, x, y)
  | inr e ↦ let h' : true ≡ false = rw e at h in cc
]
  where
    both_left : (a v : Bool) → (a || not v) ≡ false → (a ≡ false) × (v ≡ true)
    both_left false true h = (refl, refl)
    both_left false false h = cc
    both_left true v h = cc

acquired-generation :
    (g : Registry) (p : FilePath)
    → lease_valid (try_acquire g p).1 ≡ true
    → (try_acquire g p).1.generation ≡ (entry_at g p).generation
unfolding try_acquire
acquired-generation g p h = elim (Bool-cases (is_empty p)) [
  | inl e ↦ let h' : false ≡ true = rw e at h in cc
  | inr e ↦
      elim (Bool-cases (
        (entry_at g p).writer_pending
        || (entry_at g p).writer_active
        || not (entry_at g p).source_verified)) [
          | inl f ↦ let h' : false ≡ true = rw (e, f) at h in cc
          | inr f ↦ rw (e, f) refl
        ]
]

module _ {R : Type 0} (g : Registry) (p : FilePath) (others : Registry → Registry) where
  executed_success :
      (executor : Option (Executed R))
      → is_success (run_executor read_failed executor) ≡ true
      → (r : R) × (executor ≡ some (returned (success r)))
  executed_success none h = cc
  executed_success (some (returned (success r))) h = (r, refl)
  executed_success (some (returned (failure kind))) h = cc
  executed_success (some threw) h = cc

  -- What a verified answer rests on.
  abbrev pub Rests : Option (Executed R) → FilePath → AdaptiveReadResult R → Lease → Type 0
  Rests fast p a lease =
      (a.status ≡ ok)
      × ((r : R) × (fast ≡ some (returned (success r))) × (a.result ≡ some r))
      × (lease.generation ≡ (state (others g) p).generation)
      × ((state (others g) p).writer_active ≡ false)
      × ((state (others g) p).source_verified ≡ true)

  fast_verified :
      (fast : Option (Executed R)) (lease : Lease)
      → (read_fast_path g p fast others lease).0.consistency ≡ verified
      → Rests fast p (read_fast_path g p fast others lease).0 lease
  unfolding read_fast_path
  fast_verified fast lease h =
      let during : Entry = state (others g) p in
      elim (Bool-cases (
        not (lease.generation == during.generation)
        || during.writer_active
        || not during.source_verified)) [
          | inl c ↦ let h' = rw c at h in cc
          | inr c ↦ elim (Bool-cases (is_success (run_executor read_failed fast))) [
            | inr f ↦ let h' = rw (c, f) at h in cc
            | inl s ↦
                let (r, e) = executed_success fast s in
                let (same, inactive, sound) =
                  unchanged_or lease.generation during.generation during.writer_active
                    during.source_verified c in
                rw (c, s)
                  (
                    refl,
                    (r, e, ap (λ t. result_of (run_executor read_failed t)) e),
                    same,
                    inactive,
                    sound,
                  )
          ]
        ]

module _ {R : Type 0} (g : Registry) (p : FilePath) (fast gdal : Option (Executed R))
    (others : Registry → Registry) where
  not_verified :
      {A : Type 0} (policy : ConcurrentReadPolicy)
      → lease_valid (try_acquire g p).1 ≡ false
      → (read g p fast gdal others policy).0.consistency ≡ verified
      → A
  unfolding read read_gdal_path
  not_verified source_busy_policy v h = let h' = rw (read, v) at h in cc
  not_verified gdal_unverified v h = let h' = rw (read, v) at h in cc

  -- What is read, and the state of the source after the fast executor ran.
  abbrev pub answer : ConcurrentReadPolicy → AdaptiveReadResult R
  answer policy = (read g p fast gdal others policy).0

  abbrev pub during : Entry
  during = state (others (try_acquire g p).0) p

  -- Where `read` calls its answer verified, a lease was given, the status is ok, the result is the fast executor's,
  -- and after it ran the source has the generation it had before, no writer is active, and it counts as verified,
  -- whatever the other threads did in between.
  pub read-verified :
      (policy : ConcurrentReadPolicy)
      → (answer policy).consistency ≡ verified
      → (lease_valid (try_acquire g p).1 ≡ true)
        × ((answer policy).status ≡ ok)
        × ((r : R) × (fast ≡ some (returned (success r))) × ((answer policy).result ≡ some r))
        × ((entry_at g p).generation ≡ during.generation)
        × (during.writer_active ≡ false)
        × (during.source_verified ≡ true)
  unfolding read
  read-verified policy h = elim (Bool-cases (lease_valid (try_acquire g p).1)) [
    | inl v ↦
        let (status, result, same, inactive, sound) =
          fast_verified (try_acquire g p).0 p others fast (try_acquire g p).1
            (rw (answer, read, v) at h) in
        rw (answer, read, v)
          (refl, status, result, sym (acquired-generation g p v) ∙ same, inactive, sound)
    | inr v ↦ not_verified policy v h
  ]
