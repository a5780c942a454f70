-- ===== src/Coordination/Exclusion.antt =====
-- Readers and the writer exclude each other, in every order of calls.
use fast_gdb.Base.{
  ℕ, suc, ◌+◌, ◌^◌, ◌≤◌, ◌<◌, ◌≡◌, refl, subst, true, false, List, [], ◌∷◌, Option, none, some,
  arith, get_elem?, length,
}
use fast_gdb.Coordination.{FilePath, Entry, Registry, Lease, expired_at_safe_point}
use fast_gdb.Coordination.Keeps.{
  or_new, is_some, EntryOk, prepare_begin-Keeps, prepare_end-Keeps, notify_update_opened-Keeps,
  cancel_before_update-Keeps, abandon_current_state-Keeps, notify_update_closed-Keeps,
  complete_external_update-Keeps,
}
use fast_gdb.Coordination.System.{
  System, Event, start, step, run, acquires, releases, abandons, moves, assigns, prepares,
  ends_wait, opens, cancels, destroys, closes, closes_lost,
}
use fast_gdb.Coordination.Invariant.{
  held, Current, Inv, live_idle, writer_step, abandon_step, release_step,
}
use fast_gdb.Coordination.Granting.{Inv-grow, acquire_step}
use fast_gdb.Coordination.Handing.{move_step, assign_step}

-- Every call keeps the invariant.
pub step-Inv : (n : ℕ) (s : System) (e : Event) → suc n < 2 ^ 64 → Inv n s → Inv (suc n) (step s e)
unfolding step
step-Inv n s (acquires p) h v = acquire_step n s p h v
step-Inv n s (releases i) h v = Inv-grow n _ (release_step n s i (get_elem? s.leases i) refl v)
step-Inv n s (abandons i) h v = Inv-grow n _ (abandon_step n s i (get_elem? s.leases i) refl v)
step-Inv n s (moves i left) h v = Inv-grow n _ (move_step n s i left (get_elem? s.leases i) refl v)
step-Inv n s (assigns i j left) h v =
    Inv-grow n _
      (assign_step n s i j left (get_elem? s.leases i) (get_elem? s.leases j) refl refl v)
step-Inv n s (prepares p) h v =
    Inv-grow n _ (writer_step n s _ (prepare_begin-Keeps n (held s.leases) s.registry p) v)
step-Inv n s (ends_wait p t) h v =
    Inv-grow n _ (writer_step n s _ (prepare_end-Keeps n (held s.leases) s.registry p t) v)
step-Inv n s (opens t) h v =
    Inv-grow n _ (writer_step n s _ (notify_update_opened-Keeps n (held s.leases) s.registry t) v)
step-Inv n s (cancels t) h v =
    Inv-grow n _ (writer_step n s _ (cancel_before_update-Keeps n (held s.leases) s.registry t) v)
step-Inv n s (destroys t) h v =
    Inv-grow n _ (writer_step n s _ (abandon_current_state-Keeps n (held s.leases) s.registry t) v)
step-Inv n s (closes t d) h v =
    Inv-grow n _ (writer_step n s _ (notify_update_closed-Keeps n (held s.leases) s.registry t d) v)
step-Inv n s (closes_lost p t d) h v =
    Inv-grow n _
      (writer_step n s _ (complete_external_update-Keeps n (held s.leases) s.registry p t d) v)

run-Inv :
    (n : ℕ) (s : System) (es : List Event)
    → n + length es < 2 ^ 64
    → Inv n s
    → Inv (n + length es) (run s es)
unfolding run
run-Inv n s [] h v = let e : n + 0 ≡ n = omega arith in rw e v
run-Inv n s (x ∷ es) h v =
    let e : n + suc (length es) ≡ suc n + length es = omega arith in
    rw e (run-Inv (suc n) (step s x) es (omega arith) (step-Inv n s x (omega arith) v))

pub start-Inv : Inv 0 start
unfolding start held
start-Inv = record { entries = λ k. ground arith; current = λ i l e c. absurd (cc) }

-- The entry of a path after the calls `es`.
abbrev pub entry_after : List Event → FilePath → Entry
entry_after es p = or_new ((run start es).registry.sources p)

expired-pending :
    (g : Registry) (l : Lease) (o : Option Entry)
    → g.sources l.path ≡ o
    → Current g l
    → (or_new o).writer_active ≡ false
    → (or_new o).source_verified ≡ true
    → expired_at_safe_point g l ≡ (or_new o).writer_pending
unfolding expired_at_safe_point
expired-pending g l none e c a v = absurd (
    let f : is_some (g.sources l.path) ≡ false = rw e in
    let t : is_some (g.sources l.path) ≡ true = c.there in cc)
expired-pending g l (some x) e c a v =
    let same_gen : x.generation ≡ l.generation = rw e at c.same_generation in
    rw (c.bound, c.named, e, expired_at_safe_point) (ground arith)

module _ (es : List Event) (h : length es < 2 ^ 64) where
  reached-Inv : Inv (length es) (run start es)
  reached-Inv =
      let e : 0 + length es ≡ length es = omega arith in
      subst (λ n. Inv n (run start es)) e (run-Inv 0 start es (omega arith) start-Inv)

  -- After any fewer than 2 ^ 64 calls from the empty registry: on the path of a lease that counts, no
  -- writer is active, the source is verified, the generation is the one that the lease was given, and
  -- the lease is in the count.
  pub live-lease-excludes-writer :
      (i : ℕ) (l : Lease)
      → get_elem? (run start es).leases i ≡ some l
      → l.counted ≡ true
      → ((entry_after es l.path).writer_active ≡ false)
        × ((entry_after es l.path).source_verified ≡ true)
        × ((entry_after es l.path).generation ≡ l.generation)
        × (1 ≤ (entry_after es l.path).fast_reader_count)
  live-lease-excludes-writer i l e c =
      let (idle, ver, one) = live_idle (length es) (run start es) i l reached-Inv e c in
      (idle, ver, (reached-Inv.current i l e c).same_generation, one)

  -- After any fewer than 2 ^ 64 calls: while a writer is active on a path, no reader is counted, no
  -- lease on it counts, and no other writer is pending.
  pub active-writer-excludes-readers :
      (p : FilePath)
      → (entry_after es p).writer_active ≡ true
      → ((entry_after es p).fast_reader_count ≡ 0)
        × (held (run start es).leases p ≡ 0)
        × ((entry_after es p).writer_pending ≡ false)
  active-writer-excludes-readers p a =
      let v : EntryOk (length es) (held (run start es).leases p) (entry_after es p) =
        reached-Inv.entries p in
      (ground arith, ground arith, ground arith)

  -- After any fewer than 2 ^ 64 calls: a lease that counts is expired at a safe point exactly while a
  -- writer is pending on its path.
  pub expired_at_safe_point-writer_pending :
      (i : ℕ) (l : Lease)
      → get_elem? (run start es).leases i ≡ some l
      → l.counted ≡ true
      → expired_at_safe_point (run start es).registry l ≡ (entry_after es l.path).writer_pending
  expired_at_safe_point-writer_pending i l e c =
      let (idle, ver, _) = live_idle (length es) (run start es) i l reached-Inv e c in
      expired-pending (run start es).registry l ((run start es).registry.sources l.path) refl
        (reached-Inv.current i l e c) idle ver
