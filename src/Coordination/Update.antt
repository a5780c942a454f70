-- ===== src/Coordination/Update.antt =====
-- One external update from its request to its close, without other calls in between.
use fast_gdb.Base.{
  ℕ, zero, suc, ◌+◌, ◌%◌, ◌^◌, ◌<◌, ◌≡◌, ◌≢◌, refl, ap, subst, ◌∙◌, true, false, not, some, arith,
  ◌==◌, if◌then◌else◌, Bool-cases, inl, inr,
}
use fast_gdb.Base.Keys.{key_eq_refl, update}
use fast_gdb.Coordination.{
  FilePath, Entry, Registry, no_lease, Token, Status, ok, external_update_not_closed, pending,
  active, closed, waiting, take_token_id, entry_at, write, is_empty, wrap, try_acquire,
  prepare_begin, drained, prepare_end, open_entry, notify_update_opened, complete_entry,
  complete_external_update, close_token, notify_update_closed, Phase,
}

written : (g : Registry) (p : FilePath) (e : Entry) → (write g p e).sources p ≡ some e
unfolding write update
written g p e = rw (key_eq_refl p)

entry_at-written : (g : Registry) (p : FilePath) (e : Entry) → entry_at (write g p e) p ≡ e
unfolding entry_at
entry_at-written g p e = rw (written g p e, entry_at)

entry_at-some : (g : Registry) (p : FilePath) (e : Entry) → g.sources p ≡ some e → entry_at g p ≡ e
unfolding entry_at
entry_at-some g p e eq = rw (eq, entry_at)

-- Retried closes of one update, then one that succeeds: `failures` calls that report failure.
pub close_after : ℕ → Registry → FilePath → ℕ → Registry × Status
close_after zero g p token_id = complete_external_update g p token_id true
close_after (suc failures) g p token_id =
    close_after failures (complete_external_update g p token_id false).0 p token_id

abbrev once_more : Entry → Entry
once_more e =
    if not e.writer_generation_invalidated
    then record e { generation = wrap (e.generation + 1); writer_generation_invalidated = true }
    else e

-- A failing close keeps the writer active and the source unverified.
failing_close :
    (g : Registry) (p : FilePath) (e : Entry)
    → is_empty p ≡ false
    → g.sources p ≡ some e
    → e.writer_active ≡ true
    → e.writer_token_id ≢ 0
    → complete_external_update g p e.writer_token_id false
      ≡ (write g p (record (once_more e) { source_verified = false }), external_update_not_closed)
unfolding complete_external_update complete_entry
failing_close g p e named at a t =
    let nz : (e.writer_token_id == 0) ≡ false = ground arith in
    let mine : (e.writer_token_id == e.writer_token_id) ≡ true = ground arith in
    rw (named, nz, at, complete_entry, a, mine)

abbrev finished : Entry → Entry
finished e = record (once_more e) {
  writer_active = false;
  writer_token_id = 0;
  writer_generation_invalidated = false;
  source_verified = true;
}

successful_close :
    (g : Registry) (p : FilePath) (e : Entry)
    → is_empty p ≡ false
    → g.sources p ≡ some e
    → e.writer_active ≡ true
    → e.writer_token_id ≢ 0
    → complete_external_update g p e.writer_token_id true ≡ (write g p (finished e), ok)
unfolding complete_external_update complete_entry
successful_close g p e named at a t =
    let nz : (e.writer_token_id == 0) ≡ false = ground arith in
    let mine : (e.writer_token_id == e.writer_token_id) ≡ true = ground arith in
    rw (named, nz, at, complete_entry, a, mine)

abbrev unverified : Entry → Entry
unverified e = record (once_more e) { source_verified = false }

finished-unverified : (e : Entry) → finished (unverified e) ≡ finished e
finished-unverified e = elim (Bool-cases e.writer_generation_invalidated) [
  | inl t ↦ rw t refl
  | inr f ↦ rw f refl
]

unverified_keeps :
    (e : Entry)
    → ((unverified e).writer_active ≡ e.writer_active)
      × ((unverified e).writer_token_id ≡ e.writer_token_id)
unverified_keeps e = (ground arith, ground arith)

close_after-zero :
    (g : Registry) (p : FilePath) (t : ℕ)
    → close_after 0 g p t ≡ complete_external_update g p t true
unfolding close_after
close_after-zero g p t = refl

close_after-suc :
    (n : ℕ) (g : Registry) (p : FilePath) (t : ℕ)
    → close_after (suc n) g p t ≡ close_after n (complete_external_update g p t false).0 p t
unfolding close_after
close_after-suc n g p t = refl

close_after-finished :
    (failures : ℕ) (g : Registry) (p : FilePath) (e : Entry)
    → is_empty p ≡ false
    → g.sources p ≡ some e
    → e.writer_active ≡ true
    → e.writer_token_id ≢ 0
    → ((close_after failures g p e.writer_token_id).1 ≡ ok)
      × (entry_at (close_after failures g p e.writer_token_id).0 p ≡ finished e)
close_after-finished zero g p e named at a t =
    rw (close_after-zero g p e.writer_token_id, successful_close g p e named at a t)
      (refl, entry_at-written g p (finished e))
close_after-finished (suc failures) g p e named at a t =
    let g' : Registry = write g p (unverified e) in
    let (a', t') = unverified_keeps e in
    let rest =
      close_after-finished failures g' p (unverified e) named (written g p (unverified e)) (a' ∙ a)
        (λ z. t (cc)) in
    rw
      (
        close_after-suc failures g p e.writer_token_id,
        failing_close g p e named at a t,
        ← finished-unverified e,
      )
      (subst
        (λ t''.
          ((close_after failures g' p t'').1 ≡ ok)
          × (entry_at (close_after failures g' p t'').0 p ≡ finished (unverified e)))
        t' rest)

-- However many closes of an active update fail before one succeeds, the source ends inactive,
-- verified and without a token, and its generation has moved on by one, modulo 2 ^ 64.
pub close_after-generation :
    (failures : ℕ) (g : Registry) (p : FilePath) (e : Entry)
    → is_empty p ≡ false
    → g.sources p ≡ some e
    → e.writer_active ≡ true
    → e.writer_generation_invalidated ≡ false
    → e.writer_token_id ≢ 0
    → let r = close_after failures g p e.writer_token_id in
      (r.1 ≡ ok)
      × ((entry_at r.0 p).writer_active ≡ false)
      × ((entry_at r.0 p).source_verified ≡ true)
      × ((entry_at r.0 p).writer_token_id ≡ 0)
      × ((entry_at r.0 p).generation ≡ (e.generation + 1) % 2 ^ 64)
close_after-generation failures g p e named at a f t =
    let (s, q) = close_after-finished failures g p e named at a t in
    (s, rw q refl, rw q refl, rw q refl, rw (q, f) refl)

-- The stages of an update, on a known entry.
abbrev token_of : FilePath → ℕ → Phase → Token
token_of p t f = record { attached = true; path = p; token_id = t; phase = f }

abbrev opened_entry : Entry → Entry
opened_entry e = record e {
  writer_pending = false;
  writer_active = true;
  writer_generation_invalidated = false;
}

module _ (g : Registry) (p : FilePath) (e : Entry) (at : g.sources p ≡ some e) where
  is_drained :
      e.writer_pending ≡ true → e.fast_reader_count ≡ 0 → drained g p e.writer_token_id ≡ true
  unfolding drained
  is_drained w c =
      let mine : (e.writer_token_id == e.writer_token_id) ≡ true = ground arith in
      let empty : (e.fast_reader_count == 0) ≡ true = ground arith in
      rw (at, drained, w, mine, empty)

  end_drained :
      e.writer_pending ≡ true
      → e.fast_reader_count ≡ 0
      → prepare_end g p e.writer_token_id
        ≡ (write g p e, ok, token_of p e.writer_token_id pending, e.fast_reader_count)
  unfolding prepare_end
  end_drained w c = rw (is_drained w c, entry_at-some g p e at)

  opens_drained :
      e.writer_pending ≡ true
      → e.fast_reader_count ≡ 0
      → notify_update_opened g (token_of p e.writer_token_id pending)
        ≡ (write g p (opened_entry e), ok, token_of p e.writer_token_id active)
  unfolding notify_update_opened open_entry
  opens_drained w c =
      let mine : (e.writer_token_id == e.writer_token_id) ≡ true = ground arith in
      let empty : (e.fast_reader_count == 0) ≡ true = ground arith in
      rw (at, open_entry, w, mine, empty)

  closes_active :
      is_empty p ≡ false
      → e.writer_active ≡ true
      → e.writer_token_id ≢ 0
      → notify_update_closed g (token_of p e.writer_token_id active) true
        ≡ (write g p (finished e), ok, token_of p e.writer_token_id closed)
  unfolding notify_update_closed close_token
  closes_active named a t =
      ap (λ r. close_token r (token_of p e.writer_token_id active))
        (successful_close g p e named at a t)

-- The second half of `prepare_external_update`, then the two notifications with the token that it gave.
unfoldable pub finish_update : Registry → FilePath → ℕ → Registry × Status × Status × Status
finish_update g p t =
    let r = prepare_end g p t in
    let o = notify_update_opened r.0 r.2 in
    let c = notify_update_closed o.0 o.2 true in (c.0, r.1, o.1, c.1)

finish_update-finished :
    (g : Registry) (p : FilePath) (e : Entry)
    → is_empty p ≡ false
    → g.sources p ≡ some e
    → e.writer_pending ≡ true
    → e.fast_reader_count ≡ 0
    → e.writer_token_id ≢ 0
    → (g' : Registry) × (finish_update g p e.writer_token_id ≡ (g', ok, ok, ok))
      × (entry_at g' p ≡ finished (opened_entry e))
unfolding finish_update
finish_update-finished g p e named at w c t =
    let g1 : Registry = write g p e in
    let g2 : Registry = write g1 p (opened_entry e) in
    (
      write g2 p (finished (opened_entry e)),
      rw (
        end_drained g p e at w c,
        opens_drained g1 p e (written g p e) w c,
        closes_active g2 p (opened_entry e) (written g1 p (opened_entry e)) named refl t,
      ),
      entry_at-written g2 p (finished (opened_entry e)),
    )

module _ (g : Registry) (p : FilePath) (named : is_empty p ≡ false)
    (quiet : (entry_at g p).writer_pending ≡ false)
    (idle : (entry_at g p).writer_active ≡ false) where
  abbrev pub first_id : ℕ
  first_id = (take_token_id g.next_token_id).0

  abbrev asked : Entry
  asked = record (entry_at g p) {
    writer_pending = true;
    pending_events = wrap ((entry_at g p).pending_events + 1);
    writer_token_id = first_id;
  }

  abbrev asked_registry : Registry
  asked_registry = write (record g { next_token_id = (take_token_id g.next_token_id).1 }) p asked

  begins : prepare_begin g p ≡ (asked_registry, waiting first_id)
  unfolding prepare_begin
  begins = simp (named, quiet, idle)

  first_id-ne-zero : g.next_token_id < 2 ^ 64 → first_id ≢ 0
  first_id-ne-zero fits = ground arith

  asked_at : asked_registry.sources p ≡ some asked
  asked_at = written (record g { next_token_id = (take_token_id g.next_token_id).1 }) p asked

  -- On a source with no writer pending or active, `prepare_external_update` begins to wait, and from
  -- then on a reader is refused and the readers that are counted stay counted.
  prepare_begin-blocks-readers :
      ((prepare_begin g p).1 ≡ waiting first_id)
      × ((try_acquire (prepare_begin g p).0 p).1 ≡ no_lease)
      × ((entry_at (try_acquire (prepare_begin g p).0 p).0 p).fast_reader_count
          ≡ (entry_at g p).fast_reader_count)
  unfolding try_acquire
  prepare_begin-blocks-readers =
      let e : entry_at asked_registry p ≡ asked = entry_at-some asked_registry p asked asked_at in
      let t : try_acquire asked_registry p ≡ (write asked_registry p asked, no_lease) =
        rw (named, e) in
      rw begins (refl, rw t refl, rw (t, entry_at-written asked_registry p asked) refl)

  -- On a source with no writer and no counted reader, and with a valid token counter, the wait ends at
  -- once, the three calls of an update succeed, and the source is left with no writer, verified, and one
  -- generation on, modulo 2 ^ 64.
  pub finish_update-prepare_begin :
      g.next_token_id < 2 ^ 64
      → (entry_at g p).fast_reader_count ≡ 0
      → (g' : Registry) × (finish_update (prepare_begin g p).0 p first_id ≡ (g', ok, ok, ok))
        × ((entry_at g' p).writer_pending ≡ false)
        × ((entry_at g' p).writer_active ≡ false)
        × ((entry_at g' p).source_verified ≡ true)
        × ((entry_at g' p).generation ≡ ((entry_at g p).generation + 1) % 2 ^ 64)
  finish_update-prepare_begin fits none_left =
      let (g', runs, ends) =
        finish_update-finished asked_registry p asked named asked_at refl none_left
          (first_id-ne-zero fits) in
      (g', rw begins runs, rw ends refl, rw ends refl, rw ends refl, rw ends refl)
