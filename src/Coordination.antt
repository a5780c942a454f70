-- ===== src/Coordination.antt =====
-- adaptive/adaptive_coordination.cpp of src/edgar/explorgdb: the registry by which readers and an external
-- writer of one directory agree. Each function is what one thread does while it holds the registry's
-- mutex; `prepare_external_update` waits on the condition in the middle, so it is two functions. A lease
-- or token is a value; the method returns it as it is left, with the registry.
pub mod Transfer
pub mod System
pub mod Keeps
pub mod Invariant
pub mod Granting
pub mod Handing
pub mod Exact
pub mod Exclusion
pub mod Update
use fast_gdb.Base.{
  ℕ, zero, suc, ◌+◌, ◌-◌, ◌%◌, ◌^◌, Bool, true, false, not, ◌&&◌, ◌||◌, List, [], ◌∷◌, Option, none,
  some, ltb, ◌==◌, if◌then◌else◌,
}
use fast_gdb.Base.Keys.{update}

-- The bytes of a path.
abbrev pub FilePath : Type 0
FilePath = List ℕ

pub record Entry : Type 0 where
  pub writer_pending : Bool
  pub writer_active : Bool
  pub source_verified : Bool
  pub writer_generation_invalidated : Bool
  pub generation : ℕ
  pub pending_events : ℕ
  pub fast_reader_count : ℕ
  pub writer_token_id : ℕ

abbrev pub new_entry : Entry
new_entry = record {
  writer_pending = false;
  writer_active = false;
  source_verified = true;
  writer_generation_invalidated = false;
  generation = 0;
  pending_events = 0;
  fast_reader_count = 0;
  writer_token_id = 0;
}

pub record Registry : Type 0 where
  pub sources : FilePath → Option Entry
  pub next_token_id : ℕ

pub data Status : Type 0 where
  ok readers_active writer_already_pending writer_already_active : Status
  invalid_coordination_token external_update_not_closed : Status

pub data Phase : Type 0 where
  invalid pending active closed : Phase

-- `attached` is `registry_ != nullptr`.
pub record Lease : Type 0 where
  pub attached : Bool
  pub path : FilePath
  pub generation : ℕ
  pub pending_events : ℕ
  pub counted : Bool

abbrev pub no_lease : Lease
no_lease = record {
  attached = false;
  path = [];
  generation = 0;
  pending_events = 0;
  counted = false;
}

pub record Token : Type 0 where
  pub attached : Bool
  pub path : FilePath
  pub token_id : ℕ
  pub phase : Phase

abbrev pub no_token : Token
no_token = record { attached = false; path = []; token_id = 0; phase = invalid }

abbrev pub is_empty : FilePath → Bool
is_empty [] = true
is_empty (c ∷ cs) = false

-- `while (normalized.size() > 1 && normalized.back() == '/') normalized.pop_back();`
trim_slashes : FilePath → FilePath
trim_slashes [] = []
trim_slashes (c ∷ cs) = elim (trim_slashes cs) [
  | [] ↦ if c == b'/' then [] else c ∷ []
  | d ∷ ds ↦ c ∷ d ∷ ds
]

strip_slashes : FilePath → FilePath
strip_slashes [] = []
strip_slashes (c ∷ cs) = c ∷ trim_slashes cs

-- `resolve` stands for std::filesystem: the absolute, normal and canonical form of a path.
pub normalize_path : (FilePath → FilePath) → FilePath → FilePath
unfolding strip_slashes trim_slashes
normalize_path resolve p = if is_empty p then [] else strip_slashes (resolve p)

-- `sources[path]`, which inserts a new entry where there is none.
unfoldable pub entry_at : Registry → FilePath → Entry
entry_at g p = elim (g.sources p) [ none ↦ new_entry | some e ↦ e ]

unfoldable pub write : Registry → FilePath → Entry → Registry
write g p e = record g { sources = update g.sources p e }

abbrev pub wrap : ℕ → ℕ
wrap n = n % 2 ^ 64

-- `try_acquire_fast_reader`, on the normalized path.
unfoldable pub try_acquire : Registry → FilePath → Registry × Lease
unfolding entry_at write
try_acquire g p =
    let e = entry_at g p in
    if is_empty p
    then (g, no_lease)
    else (if e.writer_pending || e.writer_active || not e.source_verified
        then (write g p e, no_lease)
        else (
          write g p (record e { fast_reader_count = wrap (e.fast_reader_count + 1) }),
          record {
            attached = true;
            path = p;
            generation = e.generation;
            pending_events = e.pending_events;
            counted = true;
          },
        ))

unfoldable pub release_entry : Registry → FilePath → Option Entry → Registry
unfolding write
release_entry g p none = g
release_entry g p (some e) =
    if ltb 0 e.fast_reader_count
    then write g p (record e { fast_reader_count = e.fast_reader_count - 1 })
    else g

unfoldable pub release : Registry → Lease → Registry × Lease
unfolding release_entry
release g l =
    if not l.counted || not l.attached
    then (g, l)
    else (release_entry g l.path (g.sources l.path), record l { counted = false })

-- `abandon_fail_closed` drops the lease and leaves the count in the registry.
unfoldable pub abandon_fail_closed : Lease → Lease
abandon_fail_closed l = record l { attached = false; path = []; counted = false }

unfoldable pub expired_at_safe_point : Registry → Lease → Bool
expired_at_safe_point g l =
    if not l.attached || is_empty l.path then true else elim (g.sources l.path) [
      | none ↦ true
      | some e ↦
          e.writer_pending
          || e.writer_active
          || not e.source_verified
          || not (e.generation == l.generation)
    ]

pub writer_pending_observed : Registry → Lease → Bool
writer_pending_observed g l =
    if not l.attached || is_empty l.path then false else elim (g.sources l.path) [
      | none ↦ false
      | some e ↦ not (e.pending_events == l.pending_events)
    ]

-- `prepare_external_update` up to the wait: a refusal with the count of readers, or the id of the token.
pub data Prepared : Type 0 where
  refused : Status → ℕ → Prepared
  waiting : ℕ → Prepared

-- `next_token_id++`, once more where it gave 0: the id and the next one.
abbrev pub take_token_id : ℕ → ℕ × ℕ
take_token_id n = if n == 0 then (wrap (n + 1), wrap (n + 2)) else (n, wrap (n + 1))

unfoldable pub prepare_begin : Registry → FilePath → Registry × Prepared
unfolding entry_at write
prepare_begin g p =
    let e = entry_at g p in
    let token_id = (take_token_id g.next_token_id).0 in
    if is_empty p
    then (g, refused invalid_coordination_token 0)
    else (if e.writer_pending
        then (write g p e, refused writer_already_pending e.fast_reader_count)
        else (if e.writer_active
            then (write g p e, refused writer_already_active e.fast_reader_count)
            else (
              write (record g { next_token_id = (take_token_id g.next_token_id).1 }) p
                  (record e {
                    writer_pending = true;
                    pending_events = wrap (e.pending_events + 1);
                    writer_token_id = token_id;
                  }),
              waiting token_id,
            )))

-- The predicate of the wait.
unfoldable pub drained : Registry → FilePath → ℕ → Bool
drained g p token_id = elim (g.sources p) [
  | none ↦ false
  | some e ↦ e.writer_pending && e.writer_token_id == token_id && e.fast_reader_count == 0
]

-- The rest, once the predicate holds or the time is up.
unfoldable pub prepare_end : Registry → FilePath → ℕ → Registry × Status × Token × ℕ
unfolding entry_at write drained
prepare_end g p token_id =
    let e = entry_at g p in
    if drained g p token_id
    then (
      write g p e,
      ok,
      record { attached = true; path = p; token_id = token_id; phase = pending },
      e.fast_reader_count,
    )
    else (if e.writer_pending && e.writer_token_id == token_id
        then (
          write g p (record e { writer_pending = false; writer_token_id = 0 }),
          readers_active,
          no_token,
          e.fast_reader_count,
        )
        else (write g p e, readers_active, no_token, e.fast_reader_count))

abbrev pub phase_eq : Phase → Phase → Bool
phase_eq invalid invalid = true
phase_eq pending pending = true
phase_eq active active = true
phase_eq closed closed = true
phase_eq _ _ = false

unfoldable pub open_entry : Registry → Token → Option Entry → Registry × Status × Token
unfolding write
open_entry g t none = (g, invalid_coordination_token, t)
open_entry g t (some e) =
    if not e.writer_pending || not (e.writer_token_id == t.token_id)
    then (g, invalid_coordination_token, t)
    else (if not (e.fast_reader_count == 0) then (g, readers_active, t) else (
      write g t.path (record e {
        writer_pending = false;
        writer_active = true;
        writer_generation_invalidated = false;
      }),
      ok,
      record t { phase = active },
    ))

unfoldable pub notify_update_opened : Registry → Token → Registry × Status × Token
unfolding open_entry
notify_update_opened g t =
    if not (phase_eq t.phase pending) || not t.attached
    then (g, invalid_coordination_token, t)
    else open_entry g t (g.sources t.path)

unfoldable pub cancel_entry : Registry → Token → Option Entry → Registry × Status × Token
unfolding write
cancel_entry g t none = (g, invalid_coordination_token, t)
cancel_entry g t (some e) =
    if not e.writer_pending || not (e.writer_token_id == t.token_id)
    then (g, invalid_coordination_token, t)
    else (
      write g t.path (record e { writer_pending = false; writer_token_id = 0 }),
      ok,
      record t { phase = closed },
    )

pub cancel_before_update : Registry → Token → Registry × Status × Token
unfolding cancel_entry
cancel_before_update g t =
    if not (phase_eq t.phase pending) || not t.attached
    then (g, invalid_coordination_token, t)
    else cancel_entry g t (g.sources t.path)

-- `complete_external_update`: the generation moves on once for each update, at its first close.
abbrev pub invalidated : Entry → Entry
invalidated e =
    if not e.writer_generation_invalidated
    then record e { generation = wrap (e.generation + 1); writer_generation_invalidated = true }
    else e

unfoldable pub complete_entry : Registry → FilePath → ℕ → Bool → Option Entry → Registry × Status
unfolding write
complete_entry g p token_id close_succeeded none = (g, invalid_coordination_token)
complete_entry g p token_id close_succeeded (some e) =
    let e' = invalidated e in
    if not e.writer_active || not (e.writer_token_id == token_id)
    then (g, invalid_coordination_token)
    else (if close_succeeded
        then (
          write g p (record e' {
            writer_active = false;
            writer_token_id = 0;
            writer_generation_invalidated = false;
            source_verified = true;
          }),
          ok,
        )
        else (write g p (record e' { source_verified = false }), external_update_not_closed))

unfoldable pub complete_external_update : Registry → FilePath → ℕ → Bool → Registry × Status
unfolding complete_entry
complete_external_update g p token_id close_succeeded =
    if is_empty p || token_id == 0
    then (g, invalid_coordination_token)
    else complete_entry g p token_id close_succeeded (g.sources p)

unfoldable pub close_token : Registry × Status → Token → Registry × Status × Token
close_token (g, ok) t = (g, ok, record t { phase = closed })
close_token (g, s) t = (g, s, t)

unfoldable pub notify_update_closed : Registry → Token → Bool → Registry × Status × Token
notify_update_closed g t close_succeeded =
    if not (phase_eq t.phase active) || not t.attached
    then (g, invalid_coordination_token, t)
    else close_token (complete_external_update g t.path t.token_id close_succeeded) t

-- What the destructor of a token does to the registry.
pub abandon_current_state : Registry → Token → Registry × Token
abandon_current_state g t =
    (if phase_eq t.phase pending then (cancel_before_update g t).0 else g, no_token)
