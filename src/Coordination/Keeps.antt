-- ===== src/Coordination/Keeps.antt =====
-- What the calls of a writer leave of each entry.
use fast_gdb.Base.{
  ℕ, ◌≤◌, ◌≡◌, refl, ap, ◌∙◌, subst, ◌⊎◌, inl, inr, Bool, true, false, not, ◌&&◌, ◌||◌, Option,
  none, some, arith, ◌==◌, Bool-cases, Option-cases,
}
use fast_gdb.Base.Keys.{key_eq, eq_of_key_eq, update}
use fast_gdb.Coordination.{
  FilePath, Entry, new_entry, Registry, Token, entry_at, write, prepare_begin, prepare_end, drained,
  open_entry, notify_update_opened, cancel_entry, cancel_before_update, complete_entry,
  complete_external_update, close_token, notify_update_closed, abandon_current_state, is_empty,
  phase_eq, pending, active, Status, ok,
}

abbrev pub or_new : Option Entry → Entry
or_new none = new_entry
or_new (some e) = e

abbrev pub is_some : Option Entry → Bool
is_some none = false
is_some (some e) = true

-- With `held` live leases on the path, after fewer than `n` calls.
pub record EntryOk (n held : ℕ) (e : Entry) : Type 0 where
  pub counted : held ≤ e.fast_reader_count
  pub bounded : e.fast_reader_count ≤ n
  pub idle : (e.writer_active ≡ false) ⊎ (e.fast_reader_count ≡ 0)
  pub exclusive : (e.writer_pending ≡ false) ⊎ (e.writer_active ≡ false)
  pub verified : (e.source_verified ≡ true) ⊎ (e.writer_active ≡ true)

-- A change of an entry that no live lease can notice but by `writer_pending`.
pub record Move (n held : ℕ) (o o' : Option Entry) : Type 0 where
  pub kept : EntryOk n held (or_new o) → EntryOk n held (or_new o')
  pub there : is_some o ≡ true → is_some o' ≡ true
  pub counts : (or_new o').fast_reader_count ≡ (or_new o).fast_reader_count
  pub generation :
      ((or_new o').generation ≡ (or_new o).generation) ⊎ ((or_new o).writer_active ≡ true)

close_token_fst : (r : Registry × Status) (t : Token) → (close_token r t).0 ≡ r.0
unfolding close_token
close_token_fst (g, ok) t = refl
close_token_fst (g, s) t = refl

module _ (n : ℕ) (held : FilePath → ℕ) where
  abbrev pub Keeps : Registry → Registry → Type 0
  Keeps g g' = (k : FilePath) → Move n (held k) (g.sources k) (g'.sources k)

  pub same : (g : Registry) → Keeps g g
  same g k = record { kept = λ v. v; there = λ h. h; counts = refl; generation = inl refl }

  -- One entry is written.
  pub write-Keeps :
      (g : Registry) (p : FilePath) (e : Entry)
      → Move n (held p) (g.sources p) (some e)
      → Keeps g (write g p e)
  unfolding write update
  write-Keeps g p e m k = elim (Bool-cases (key_eq p k)) [
    | inl hit ↦
        let eq : p ≡ k = eq_of_key_eq p k hit in
        rw hit (subst (λ q. Move n (held q) (g.sources q) (some e)) eq m)
    | inr miss ↦ rw miss (same g k)
  ]

  open_entry-Keeps :
      (g : Registry) (t : Token) (o : Option Entry)
      → g.sources t.path ≡ o
      → Keeps g (open_entry g t o).0
  unfolding open_entry
  open_entry-Keeps g t none e = same g
  open_entry-Keeps g t (some x) e =
      elim (Bool-cases (not x.writer_pending || not (x.writer_token_id == t.token_id))) [
        | inl bad ↦ rw bad (same g)
        | inr good ↦ elim (Bool-cases (not (x.fast_reader_count == 0))) [
          | inl busy ↦ rw (good, busy) (same g)
          | inr free ↦
              rw (good, free)
                (write-Keeps g t.path _ (
                  rw e (record {
                    kept = λ v. ground arith;
                    there = λ h. refl;
                    counts = refl;
                    generation = inl refl;
                  })))
        ]
      ]

  cancel_entry-Keeps :
      (g : Registry) (t : Token) (o : Option Entry)
      → g.sources t.path ≡ o
      → Keeps g (cancel_entry g t o).0
  unfolding cancel_entry
  cancel_entry-Keeps g t none e = same g
  cancel_entry-Keeps g t (some x) e =
      elim (Bool-cases (not x.writer_pending || not (x.writer_token_id == t.token_id))) [
        | inl bad ↦ rw bad (same g)
        | inr good ↦ rw good (
            write-Keeps g t.path _ (
              rw e (record {
                kept = λ v. ground arith;
                there = λ h. refl;
                counts = refl;
                generation = inl refl;
              })))
      ]

  complete_entry-Keeps :
      (g : Registry) (p : FilePath) (token_id : ℕ) (done : Bool) (o : Option Entry)
      → g.sources p ≡ o
      → Keeps g (complete_entry g p token_id done o).0
  unfolding complete_entry
  complete_entry-Keeps g p token_id done none e = same g
  complete_entry-Keeps g p token_id done (some x) e =
      elim (Bool-cases (not x.writer_active || not (x.writer_token_id == token_id))) [
        | inl bad ↦ rw bad (same g)
        | inr good ↦ elim (Bool-cases done) [
          | inl closed_now ↦
              rw (good, closed_now)
                (write-Keeps g p _ (
                  rw e (record {
                    kept = λ v. ground arith;
                    there = λ h. refl;
                    counts = ground arith;
                    generation = inr (ground arith);
                  })))
          | inr failed ↦
              rw (good, failed)
                (write-Keeps g p _ (
                  rw e (record {
                    kept = λ v. ground arith;
                    there = λ h. refl;
                    counts = ground arith;
                    generation = inr (ground arith);
                  })))
        ]
      ]

  pub entry_at-or_new : (g : Registry) (p : FilePath) → entry_at g p ≡ or_new (g.sources p)
  unfolding entry_at
  entry_at-or_new g p = elim (Option-cases (g.sources p)) [
    | inl e ↦ rw (e, entry_at)
    | inr (x, e) ↦ rw (e, entry_at)
  ]

  -- `sources[p]` itself keeps everything, also where it inserts.
  pub touched : (o : Option Entry) (h : ℕ) (e : Entry) → e ≡ or_new o → Move n h o (some e)
  touched o h e eq = record {
    kept = λ v. rw eq v;
    there = λ _. refl;
    counts = rw eq refl;
    generation = inl (rw eq refl);
  }

  pub changed :
      (o : Option Entry) (h : ℕ) (e e' : Entry)
      → e ≡ or_new o
      → (EntryOk n h e → EntryOk n h e')
      → e'.fast_reader_count ≡ e.fast_reader_count
      → (e'.generation ≡ e.generation) ⊎ (e.writer_active ≡ true)
      → Move n h o (some e')
  changed o h e e' eq keep count gen = record {
    kept = λ v. keep (rw eq v);
    there = λ _. refl;
    counts = count ∙ ap (λ x. x.fast_reader_count) eq;
    generation = subst (λ x. (e'.generation ≡ x.generation) ⊎ (x.writer_active ≡ true)) eq gen;
  }

  pub prepare_begin-Keeps : (g : Registry) (p : FilePath) → Keeps g (prepare_begin g p).0
  unfolding prepare_begin
  prepare_begin-Keeps g p =
      let e : Entry = entry_at g p in
      let eq : e ≡ or_new (g.sources p) = entry_at-or_new g p in
      elim (Bool-cases (is_empty p)) [
        | inl none_given ↦ rw none_given (same g)
        | inr given ↦ elim (Bool-cases e.writer_pending) [
          | inl waits ↦ rw (given, waits) (write-Keeps g p e (touched (g.sources p) (held p) e eq))
          | inr quiet ↦ elim (Bool-cases e.writer_active) [
            | inl writes ↦
                rw (given, quiet, writes) (write-Keeps g p e (touched (g.sources p) (held p) e eq))
            | inr free ↦
                rw (given, quiet, free)
                  (write-Keeps g p _
                    (changed (g.sources p) (held p) e _ eq (λ v. ground arith) refl (inl refl)))
          ]
        ]
      ]

  pub prepare_end-Keeps :
      (g : Registry) (p : FilePath) (token_id : ℕ) → Keeps g (prepare_end g p token_id).0
  unfolding prepare_end
  prepare_end-Keeps g p token_id =
      let e : Entry = entry_at g p in
      let eq : e ≡ or_new (g.sources p) = entry_at-or_new g p in
      elim (Bool-cases (drained g p token_id)) [
        | inl now ↦ rw now (write-Keeps g p e (touched (g.sources p) (held p) e eq))
        | inr not_yet ↦ elim (Bool-cases (e.writer_pending && e.writer_token_id == token_id)) [
          | inl mine ↦
              rw (not_yet, mine)
                (write-Keeps g p _
                  (changed (g.sources p) (held p) e _ eq (λ v. ground arith) refl (inl refl)))
          | inr other ↦
              rw (not_yet, other) (write-Keeps g p e (touched (g.sources p) (held p) e eq))
        ]
      ]

  pub notify_update_opened-Keeps : (g : Registry) (t : Token) → Keeps g (notify_update_opened g t).0
  unfolding notify_update_opened
  notify_update_opened-Keeps g t =
      elim (Bool-cases (not (phase_eq t.phase pending) || not t.attached)) [
        | inl bad ↦ rw bad (same g)
        | inr good ↦ rw good (open_entry-Keeps g t (g.sources t.path) refl)
      ]

  pub cancel_before_update-Keeps : (g : Registry) (t : Token) → Keeps g (cancel_before_update g t).0
  unfolding cancel_before_update
  cancel_before_update-Keeps g t =
      elim (Bool-cases (not (phase_eq t.phase pending) || not t.attached)) [
        | inl bad ↦ rw bad (same g)
        | inr good ↦ rw good (cancel_entry-Keeps g t (g.sources t.path) refl)
      ]

  pub abandon_current_state-Keeps :
      (g : Registry) (t : Token) → Keeps g (abandon_current_state g t).0
  unfolding abandon_current_state
  abandon_current_state-Keeps g t = elim (Bool-cases (phase_eq t.phase pending)) [
    | inl yes_pending ↦ rw yes_pending (cancel_before_update-Keeps g t)
    | inr other ↦ rw other (same g)
  ]

  pub complete_external_update-Keeps :
      (g : Registry) (p : FilePath) (token_id : ℕ) (done : Bool)
      → Keeps g (complete_external_update g p token_id done).0
  unfolding complete_external_update
  complete_external_update-Keeps g p token_id done =
      elim (Bool-cases (is_empty p || token_id == 0)) [
        | inl bad ↦ rw bad (same g)
        | inr good ↦ rw good (complete_entry-Keeps g p token_id done (g.sources p) refl)
      ]

  pub notify_update_closed-Keeps :
      (g : Registry) (t : Token) (done : Bool) → Keeps g (notify_update_closed g t done).0
  unfolding notify_update_closed
  notify_update_closed-Keeps g t done =
      elim (Bool-cases (not (phase_eq t.phase active) || not t.attached)) [
        | inl bad ↦ rw bad (same g)
        | inr good ↦ rw good (
            rw (close_token_fst (complete_external_update g t.path t.token_id done) t)
              (complete_external_update-Keeps g t.path t.token_id done))
      ]
