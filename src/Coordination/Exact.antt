-- ===== src/Coordination/Exact.antt =====
-- How many readers an entry counts, where no backend failed to clean up.
use fast_gdb.Base.{
  ℕ, suc, ◌+◌, ◌^◌, ◌<◌, ◌≡◌, refl, sym, ◌∙◌, subst, inl, inr, Bool, true, false, not, ◌||◌, List,
  [], ◌∷◌, Option, none, some, arith, ltb, lt→ltb, ◌≤◌, ◌==◌, Bool-cases, Option-cases, All,
  get_elem?, set, length,
}
use fast_gdb.Base.Keys.{key_eq, eq_of_key_eq, update}
use fast_gdb.Coordination.{
  FilePath, Entry, Registry, Lease, no_lease, entry_at, write, try_acquire, release_entry, release,
  is_empty,
}
use fast_gdb.Coordination.Transfer.{move_lease, assign_lease}
use fast_gdb.Coordination.Keeps.{
  or_new, is_some, entry_at-or_new, prepare_begin-Keeps, prepare_end-Keeps,
  notify_update_opened-Keeps, cancel_before_update-Keeps, abandon_current_state-Keeps,
  notify_update_closed-Keeps, complete_external_update-Keeps,
}
use fast_gdb.Coordination.System.{
  System, Event, start, step, run, acquired, put_lease, release_at, move_at, assign_at, acquires,
  releases, abandons, moves, assigns, prepares, ends_wait, opens, cancels, destroys, closes,
  closes_lost,
}
use fast_gdb.Coordination.Exclusion.{entry_after, step-Inv, start-Inv}
use fast_gdb.Coordination.Handing.{held_same, assigned_held}
use fast_gdb.Coordination.Invariant.{held_one, held, held-drop, Inv, live_idle, set_get}

-- The entries of a registry count the leases.
abbrev Exact : Registry → List Lease → Type 0
Exact g ls = (k : FilePath) → (or_new (g.sources k)).fast_reader_count ≡ held ls k

write-count :
    (g : Registry) (p k : FilePath) (e : Entry) (c : ℕ)
    → (key_eq p k ≡ true → e.fast_reader_count ≡ c)
    → (key_eq p k ≡ false → (or_new (g.sources k)).fast_reader_count ≡ c)
    → (or_new ((write g p e).sources k)).fast_reader_count ≡ c
unfolding write update
write-count g p k e c here there = elim (Bool-cases (key_eq p k)) [
  | inl hit ↦ rw hit (here hit)
  | inr miss ↦ rw miss (there miss)
]

acquire-Exact :
    (n : ℕ) (s : System) (p : FilePath)
    → suc n < 2 ^ 64
    → Inv n s
    → Exact s.registry s.leases
    → Exact
        (acquired s (try_acquire s.registry p)).registry
        (acquired s (try_acquire s.registry p)).leases
unfolding try_acquire acquired held
acquire-Exact n s p h v x k =
    let e : Entry = entry_at s.registry p in
    let eq : e ≡ or_new (s.registry.sources p) = entry_at-or_new n (held s.leases) s.registry p in
    let at_k : key_eq p k ≡ true → e.fast_reader_count ≡ held s.leases k =
      λ hit. rw eq (rw (eq_of_key_eq p k hit) (x k)) in
    elim (Bool-cases (is_empty p)) [
      | inl none_given ↦ rw none_given (omega (arith, x k))
      | inr given ↦
          elim (Bool-cases (e.writer_pending || e.writer_active || not e.source_verified)) [
            | inl busy ↦
                rw (given, busy) (omega (arith, write-count s.registry p k e _ at_k (λ _. x k)))
            | inr free ↦
                let small : (or_new (s.registry.sources k)).fast_reader_count ≤ n =
                  (v.entries k).bounded in
                rw (given, free)
                  (write-count s.registry p k _ _
                    (λ hit. rw hit (omega (arith, at_k hit, x k, small)))
                    (λ miss. rw miss (omega (arith, x k))))
          ]
    ]

lowered-Exact :
    (n : ℕ) (s : System) (i : ℕ) (l : Lease) (o : Option Entry)
    → get_elem? s.leases i ≡ some l
    → s.registry.sources l.path ≡ o
    → l.counted ≡ true
    → Inv n s
    → Exact s.registry s.leases
    → Exact (release_entry s.registry l.path o) (set s.leases i (record l { counted = false }))
unfolding release_entry
lowered-Exact n s i l none e eo c v x k = absurd (
    let t : is_some (s.registry.sources l.path) ≡ true = (v.current i l e c).there in
    let f : is_some (s.registry.sources l.path) ≡ false = rw eo in cc)
lowered-Exact n s i l (some y) e eo c v x k =
    let drop : held (set s.leases i (record l { counted = false })) k + held_one k l
        ≡ held s.leases k =
      held-drop s.leases i l (record l { counted = false }) k e refl in
    let (_, _, pos) = live_idle n s i l v e c in
    let some_left : ltb 0 y.fast_reader_count ≡ true =
      lt→ltb 0 y.fast_reader_count (rw eo at pos) in
    let here : y.fast_reader_count ≡ held s.leases l.path = rw eo at (x l.path) in
    rw some_left (
      write-count s.registry l.path k _ _
        (λ hit.
          let at_k : y.fast_reader_count ≡ held s.leases k =
            subst (λ q. y.fast_reader_count ≡ held s.leases q) (eq_of_key_eq l.path k hit) here in
          let one : held_one k l ≡ 1 = ground arith in omega (arith, drop, at_k, one))
        (λ miss. let other : held_one k l ≡ 0 = ground arith in omega (arith, drop, x k, other)))

-- A lease that counted leaves its place to one that does not.
release-Exact :
    (n : ℕ) (s : System) (i : ℕ) (l : Lease)
    → get_elem? s.leases i ≡ some l
    → Inv n s
    → Exact s.registry s.leases
    → Exact (release s.registry l).0 (set s.leases i (release s.registry l).1)
unfolding release
release-Exact n s i l e v x = elim (Bool-cases (not l.counted || not l.attached)) [
  | inl idle ↦ rw (idle, set_get s.leases i l e) x
  | inr live ↦ rw live (lowered-Exact n s i l (s.registry.sources l.path) e refl (ground arith) v x)
]

move-Exact :
    (s : System) (i : ℕ) (left : FilePath) (o : Option Lease)
    → get_elem? s.leases i ≡ o
    → Exact s.registry s.leases
    → Exact (move_at s i left o).registry (move_at s i left o).leases
unfolding move_at held
move-Exact s i left none e x k = x k
move-Exact s i left (some l) e x k = omega (
  arith,
  x k,
  held_same 0 (record s { leases = no_lease ∷ s.leases }) 0 (suc i) no_lease l (move_lease left l).1
      refl refl e (ground arith) refl k,
)

assign-Exact :
    (n : ℕ) (s : System) (i j : ℕ) (left : FilePath) (o o' : Option Lease)
    → get_elem? s.leases i ≡ o
    → get_elem? s.leases j ≡ o'
    → Inv n s
    → Exact s.registry s.leases
    → Exact (assign_at s i j left o o').registry (assign_at s i j left o o').leases
unfolding assign_at assign_lease
assign-Exact n s i j left none o' e e' v x = x
assign-Exact n s i j left (some t) none e e' v x = x
assign-Exact n s i j left (some t) (some l) e e' v x = elim (Bool-cases (i == j)) [
  | inl one ↦ rw one x
  | inr two ↦
      rw two
        (λ k. release-Exact n s i t e v x k ∙ sym (assigned_held n s i j left t l e e' two v k))
]

abbrev pub is_abandon : Event → Bool
is_abandon (abandons i) = true
is_abandon _ = false

step-Exact :
    (n : ℕ) (s : System) (e : Event)
    → is_abandon e ≡ false
    → suc n < 2 ^ 64
    → Inv n s
    → Exact s.registry s.leases
    → Exact (step s e).registry (step s e).leases
unfolding step release_at put_lease
step-Exact n s (acquires p) a h v x = acquire-Exact n s p h v x
step-Exact n s (releases i) a h v x = elim (Option-cases (get_elem? s.leases i)) [
  | inl e ↦ rw e x
  | inr (l, e) ↦ rw e (release-Exact n s i l e v x)
]
step-Exact n s (abandons i) a h v x = cc
step-Exact n s (moves i left) a h v x = move-Exact s i left (get_elem? s.leases i) refl x
step-Exact n s (assigns i j left) a h v x =
    assign-Exact n s i j left (get_elem? s.leases i) (get_elem? s.leases j) refl refl v x
step-Exact n s (prepares p) a h v x =
    (λ k. (prepare_begin-Keeps n (held s.leases) s.registry p k).counts ∙ x k)
step-Exact n s (ends_wait p t) a h v x =
    (λ k. (prepare_end-Keeps n (held s.leases) s.registry p t k).counts ∙ x k)
step-Exact n s (opens t) a h v x =
    (λ k. (notify_update_opened-Keeps n (held s.leases) s.registry t k).counts ∙ x k)
step-Exact n s (cancels t) a h v x =
    (λ k. (cancel_before_update-Keeps n (held s.leases) s.registry t k).counts ∙ x k)
step-Exact n s (destroys t) a h v x =
    (λ k. (abandon_current_state-Keeps n (held s.leases) s.registry t k).counts ∙ x k)
step-Exact n s (closes t d) a h v x =
    (λ k. (notify_update_closed-Keeps n (held s.leases) s.registry t d k).counts ∙ x k)
step-Exact n s (closes_lost p t d) a h v x =
    (λ k. (complete_external_update-Keeps n (held s.leases) s.registry p t d k).counts ∙ x k)

run-Exact :
    (n : ℕ) (s : System) (es : List Event)
    → All (λ e. is_abandon e ≡ false) es
    → n + length es < 2 ^ 64
    → Inv n s
    → Exact s.registry s.leases
    → Exact (run s es).registry (run s es).leases
unfolding run
run-Exact n s [] a h v x = x
run-Exact n s (e ∷ es) a h v x =
    run-Exact (suc n) (step s e) es a.1 (omega arith) (step-Inv n s e (omega arith) v)
      (step-Exact n s e a.0 (omega arith) v x)

-- After any fewer than 2 ^ 64 calls from the empty registry, none of which abandons a lease as a failed cleanup does,
-- an entry counts exactly the leases on its path that count, wherever they were moved.
pub fast_reader_count-held :
    (es : List Event)
    → length es < 2 ^ 64
    → All (λ e. is_abandon e ≡ false) es
    → (p : FilePath) → (entry_after es p).fast_reader_count ≡ held (run start es).leases p
fast_reader_count-held es h a = run-Exact 0 start es a (omega arith) start-Inv (λ k. none_yet k)
  where
    none_yet :
        (k : FilePath) → (or_new (start.registry.sources k)).fast_reader_count ≡ held start.leases k
    none_yet k = unfold start held in refl
