-- ===== src/Coordination/Granting.antt =====
-- `try_acquire_fast_reader` keeps the invariant.
use fast_gdb.Base.{
  ℕ, zero, suc, ◌+◌, ◌%◌, ◌^◌, ◌<◌, ◌≡◌, refl, ap, subst, inl, inr, true, false, not, ◌||◌, ◌∷◌,
  some, arith, Bool-cases, get_elem?,
}
use fast_gdb.Base.Keys.{key_eq, key_eq_refl, eq_of_key_eq, update}
use fast_gdb.Coordination.{
  FilePath, Entry, Registry, Lease, no_lease, entry_at, write, try_acquire, is_empty,
}
use fast_gdb.Coordination.Keeps.{
  same, touched, or_new, EntryOk, Keeps, write-Keeps, entry_at-or_new,
}
use fast_gdb.Coordination.System.{System, acquired}
use fast_gdb.Coordination.Invariant.{held, Current, Inv, EntryOk-grow, writer_step, Current-write}

pub Inv-grow : (n : ℕ) (s : System) → Inv n s → Inv (suc n) s
Inv-grow n s v = record {
  entries = λ k. EntryOk-grow n (held s.leases k) (or_new (s.registry.sources k)) (v.entries k);
  current = v.current;
}

-- A refused reader gets a lease that does not count.
pub refused_step :
    (n : ℕ) (s : System) (g : Registry)
    → Keeps n (held s.leases) s.registry g
    → Inv n s
    → Inv n (acquired s (g, no_lease))
unfolding acquired held
refused_step n s g m v =
    let w : Inv n (record s { registry = g }) = writer_step n s g m v in
    record {
      entries = λ k.
          let old : EntryOk n (held s.leases k) (or_new (g.sources k)) = w.entries k in
          ground arith;
      current = λ i l e c. later g i l e c w;
    }
  where
    later :
        (g : Registry) (i : ℕ) (l : Lease)
        → get_elem? (no_lease ∷ s.leases) i ≡ some l
        → l.counted ≡ true
        → Inv n (record s { registry = g })
        → Current g l
    later g zero l e c w = absurd (cc)
    later g (suc i) l e c w = w.current i l e c

module _ (n : ℕ) (s : System) (p : FilePath) (e : Entry)
    (eq : e ≡ or_new (s.registry.sources p)) where
  abbrev raised : Entry
  raised = record e { fast_reader_count = (e.fast_reader_count + 1) % 2 ^ 64 }

  abbrev granted : Lease
  granted = record {
    attached = true;
    path = p;
    generation = e.generation;
    pending_events = e.pending_events;
    counted = true;
  }

  granted_entries :
      suc n < 2 ^ 64
      → e.writer_active ≡ false
      → (k : FilePath) → EntryOk n (held s.leases k) (or_new (s.registry.sources k))
      → EntryOk
          (suc n)
          (held (granted ∷ s.leases) k)
          (or_new ((write s.registry p raised).sources k))
  unfolding write update held
  granted_entries h quiet k old = elim (Bool-cases (key_eq p k)) [
    | inl hit ↦
        let q : p ≡ k = eq_of_key_eq p k hit in
        let here : or_new (s.registry.sources k) ≡ e = rw (eq, q) refl in
        let old' : EntryOk n (held s.leases k) e = rw here at old in
        let plain : (e.fast_reader_count + 1) % 2 ^ 64 ≡ e.fast_reader_count + 1 =
          omega (arith, old'.bounded) in
        rw (hit, plain) (ground arith)
    | inr miss ↦ rw miss (ground arith)
  ]

  granted-Current : is_empty p ≡ false → Current (write s.registry p raised) granted
  unfolding write update
  granted-Current named = record {
    bound = refl;
    named = named;
    there = rw (key_eq_refl p);
    same_generation = rw (key_eq_refl p);
  }

  granted_step :
      suc n < 2 ^ 64
      → is_empty p ≡ false
      → e.writer_active ≡ false
      → Inv n s
      → Inv (suc n) (acquired s (write s.registry p raised, granted))
  unfolding acquired
  granted_step h named quiet v = record {
    entries = λ k. granted_entries h quiet k (v.entries k);
    current = now;
  }
    where
      now :
          (i : ℕ) (l : Lease)
          → get_elem? (granted ∷ s.leases) i ≡ some l
          → l.counted ≡ true
          → Current (write s.registry p raised) l
      now zero l q c =
          let same : granted ≡ l = cc in
          subst (Current (write s.registry p raised)) same (granted-Current named)
      now (suc i) l q c =
          Current-write s.registry p raised l (ap (λ x. x.generation) eq) (v.current i l q c)

pub acquire_step :
    (n : ℕ) (s : System) (p : FilePath)
    → suc n < 2 ^ 64
    → Inv n s
    → Inv (suc n) (acquired s (try_acquire s.registry p))
unfolding try_acquire
acquire_step n s p h v =
    let e : Entry = entry_at s.registry p in
    let eq : e ≡ or_new (s.registry.sources p) = entry_at-or_new n (held s.leases) s.registry p in
    elim (Bool-cases (is_empty p)) [
      | inl none_given ↦
          rw none_given
            (Inv-grow n _ (refused_step n s s.registry (same n (held s.leases) s.registry) v))
      | inr given ↦
          elim (Bool-cases (e.writer_pending || e.writer_active || not e.source_verified)) [
            | inl busy ↦
                rw (given, busy)
                  (Inv-grow n _ (
                    refused_step n s (write s.registry p e)
                      (write-Keeps n (held s.leases) s.registry p e
                        (touched n (held s.leases) (s.registry.sources p) (held s.leases p) e eq))
                      v))
            | inr free ↦ rw (given, free) (granted_step n s p e eq h given (ground arith) v)
          ]
    ]
