-- ===== src/Coordination/Invariant.antt =====
-- The invariant of the registry and the leases, kept by every call but a grant.
use fast_gdb.Base.{
  ℕ, zero, suc, ◌+◌, ◌-◌, ◌≤◌, ◌≡◌, refl, ap, ◌∙◌, ◌⊎◌, inl, inr, true, false, not, ◌&&◌, ◌||◌,
  List, [], ◌∷◌, Option, none, some, arith, ltb, if◌then◌else◌, Bool-cases, lt→ltb, get_elem?, set,
}
use fast_gdb.Base.Keys.{key_eq, key_eq_refl, eq_of_key_eq, update}
use fast_gdb.Coordination.{
  FilePath, Entry, Registry, Lease, write, release_entry, release, abandon_fail_closed, is_empty,
}
use fast_gdb.Coordination.Keeps.{same, or_new, is_some, EntryOk, Keeps}
use fast_gdb.Coordination.System.{System, put_lease, release_at, abandon_at}

-- How many leases that count are held on a path.
abbrev pub held_one : FilePath → Lease → ℕ
held_one k l = if l.counted && key_eq l.path k then 1 else 0

unfoldable pub held : List Lease → FilePath → ℕ
held [] k = 0
held (l ∷ ls) k = held_one k l + held ls k

-- What a lease that counts can rely on.
pub record Current (g : Registry) (l : Lease) : Type 0 where
  pub bound : l.attached ≡ true
  pub named : is_empty l.path ≡ false
  pub there : is_some (g.sources l.path) ≡ true
  pub same_generation : (or_new (g.sources l.path)).generation ≡ l.generation

-- The invariant after at most `n` calls.
pub record Inv (n : ℕ) (s : System) : Type 0 where
  pub entries : (k : FilePath) → EntryOk n (held s.leases k) (or_new (s.registry.sources k))
  pub current :
      (i : ℕ) (l : Lease) → get_elem? s.leases i ≡ some l → l.counted ≡ true → Current s.registry l

pub held_of_get :
    (ls : List Lease) (i : ℕ) (l : Lease)
    → get_elem? ls i ≡ some l
    → l.counted ≡ true
    → 1 ≤ held ls l.path
unfolding held
held_of_get [] i l e c = absurd (cc)
held_of_get (x ∷ ls) zero l e c = ground (arith, key_eq_refl l.path)
held_of_get (x ∷ ls) (suc i) l e c = omega (arith, held_of_get ls i l e c)

pub held-set :
    (ls : List Lease) (i : ℕ) (l l' : Lease) (k : FilePath)
    → get_elem? ls i ≡ some l
    → held (set ls i l') k + held_one k l ≡ held ls k + held_one k l'
unfolding held
held-set [] i l l' k e = absurd (cc)
held-set (x ∷ ls) zero l l' k e = ground arith
held-set (x ∷ ls) (suc i) l l' k e = omega (arith, held-set ls i l l' k e)

-- More calls only loosen the invariant.
pub EntryOk-grow : (n h : ℕ) (e : Entry) → EntryOk n h e → EntryOk (suc n) h e
EntryOk-grow n h e v = ground arith

pub get_elem?-set_cases :
    (ls : List Lease) (i j : ℕ) (l' m : Lease)
    → get_elem? (set ls i l') j ≡ some m
    → (m ≡ l') ⊎ (get_elem? ls j ≡ some m)
get_elem?-set_cases [] i j l' m e = inr e
get_elem?-set_cases (x ∷ ls) zero zero l' m e = inl (cc)
get_elem?-set_cases (x ∷ ls) zero (suc j) l' m e = inr e
get_elem?-set_cases (x ∷ ls) (suc i) zero l' m e = inr e
get_elem?-set_cases (x ∷ ls) (suc i) (suc j) l' m e = get_elem?-set_cases ls i j l' m e

pub set_get : (ls : List Lease) (i : ℕ) (l : Lease) → get_elem? ls i ≡ some l → set ls i l ≡ ls
set_get [] i l e = refl
set_get (x ∷ ls) zero l e = let x' : l ≡ x = cc in ap (λ y. y ∷ ls) x'
set_get (x ∷ ls) (suc i) l e = ap (λ t. x ∷ t) (set_get ls i l e)

-- While a lease counts on a path, its entry is not written to.
pub live_idle :
    (n : ℕ) (s : System) (i : ℕ) (l : Lease)
    → Inv n s
    → get_elem? s.leases i ≡ some l
    → l.counted ≡ true
    → ((or_new (s.registry.sources l.path)).writer_active ≡ false)
      × ((or_new (s.registry.sources l.path)).source_verified ≡ true)
      × (1 ≤ (or_new (s.registry.sources l.path)).fast_reader_count)
live_idle n s i l v e c =
    let ok_entry : EntryOk n (held s.leases l.path) (or_new (s.registry.sources l.path)) =
      v.entries l.path in
    let at_least : 1 ≤ held s.leases l.path = held_of_get s.leases i l e c in ground arith

pub writer_step :
    (n : ℕ) (s : System) (g : Registry)
    → Keeps n (held s.leases) s.registry g
    → Inv n s
    → Inv n (record s { registry = g })
writer_step n s g m v = record {
  entries = λ k. (m k).kept (v.entries k);
  current = λ i l e c.
      let old : Current s.registry l = v.current i l e c in
      let (idle, _, _) = live_idle n s i l v e c in
      record {
        bound = old.bound;
        named = old.named;
        there = (m l.path).there old.there;
        same_generation = elim (m l.path).generation [
          | inl eq ↦ eq ∙ old.same_generation
          | inr busy ↦ absurd (cc)
        ];
      };
}

-- A lease that does not count takes the place of another.
drop_lease :
    (n : ℕ) (s : System) (g : Registry) (i : ℕ) (l l' : Lease)
    → get_elem? s.leases i ≡ some l
    → l'.counted ≡ false
    → ((k : FilePath) → EntryOk n (held (set s.leases i l') k) (or_new (g.sources k)))
    → ((m : Lease) → Current s.registry m → Current g m)
    → Inv n s
    → Inv n (put_lease s i (g, l'))
unfolding put_lease
drop_lease n s g i l l' e c entries keep v = record {
  entries = entries;
  current = λ j m e' c'. elim (get_elem?-set_cases s.leases i j l' m e') [
    | inl eq ↦ absurd (let t : m.counted ≡ false = rw eq c in cc)
    | inr old ↦ keep m (v.current j m old c')
  ];
}

pub held-drop :
    (ls : List Lease) (i : ℕ) (l l' : Lease) (k : FilePath)
    → get_elem? ls i ≡ some l
    → l'.counted ≡ false
    → held (set ls i l') k + held_one k l ≡ held ls k
held-drop ls i l l' k e c = ground (arith, held-set ls i l l' k e)

pub abandon_step :
    (n : ℕ) (s : System) (i : ℕ) (o : Option Lease)
    → get_elem? s.leases i ≡ o
    → Inv n s
    → Inv n (abandon_at s i o)
unfolding abandon_at abandon_fail_closed
abandon_step n s i none e v = v
abandon_step n s i (some l) e v =
    drop_lease n s s.registry i l _ e refl
      (λ k.
        let old : EntryOk n (held s.leases k) (or_new (s.registry.sources k)) = v.entries k in
        ground (arith, held-drop s.leases i l (abandon_fail_closed l) k e refl))
      (λ m c. c) v

pub Current-write :
    (g : Registry) (p : FilePath) (e : Entry) (m : Lease)
    → e.generation ≡ (or_new (g.sources p)).generation
    → Current g m
    → Current (write g p e) m
unfolding write update
Current-write g p e m same c = elim (Bool-cases (key_eq p m.path)) [
  | inl hit ↦
      let eq : p ≡ m.path = eq_of_key_eq p m.path hit in
      record {
        bound = c.bound;
        named = c.named;
        there = rw hit;
        same_generation =
            rw hit (same ∙ ap (λ q. (or_new (g.sources q)).generation) eq ∙ c.same_generation);
      }
  | inr miss ↦ record {
    bound = c.bound;
    named = c.named;
    there = rw miss c.there;
    same_generation = rw miss c.same_generation;
  }
]

lowered :
    (n : ℕ) (s : System) (i : ℕ) (l : Lease) (x : Entry) (k : FilePath)
    → s.registry.sources l.path ≡ some x
    → get_elem? s.leases i ≡ some l
    → l.counted ≡ true
    → EntryOk n (held s.leases k) (or_new (s.registry.sources k))
    → EntryOk n (held (set s.leases i (record l { counted = false })) k) (
        or_new (
          (write s.registry l.path
              (record x { fast_reader_count = x.fast_reader_count - 1 })).sources
            k))
unfolding write update
lowered n s i l x k eo e c old =
    let drop : held (set s.leases i (record l { counted = false })) k + held_one k l
        ≡ held s.leases k =
      held-drop s.leases i l (record l { counted = false }) k e refl in
    elim (Bool-cases (key_eq l.path k)) [
      | inl hit ↦
          let eq : l.path ≡ k = eq_of_key_eq l.path k hit in
          let here : or_new (s.registry.sources k) ≡ x = rw (← eq, eo) refl in
          let old' : EntryOk n (held s.leases k) x = rw here at old in rw hit (ground arith)
      | inr miss ↦ rw miss (ground arith)
    ]

-- The count of an entry goes down with a lease that counted.
release_counted :
    (n : ℕ) (s : System) (i : ℕ) (l : Lease) (o : Option Entry)
    → s.registry.sources l.path ≡ o
    → get_elem? s.leases i ≡ some l
    → l.counted ≡ true
    → Inv n s
    → Inv n (put_lease s i (release_entry s.registry l.path o, record l { counted = false }))
unfolding release_entry
release_counted n s i l none eo e c v = absurd (
    let t : is_some (s.registry.sources l.path) ≡ true = (v.current i l e c).there in
    let f : is_some (s.registry.sources l.path) ≡ false = rw eo in cc)
release_counted n s i l (some x) eo e c v =
    let (_, _, pos) = live_idle n s i l v e c in
    let some_left : ltb 0 x.fast_reader_count ≡ true =
      lt→ltb 0 x.fast_reader_count (rw eo at pos) in
    rw some_left (
      drop_lease n s (write s.registry l.path _) i l _ e refl
        (λ k. lowered n s i l x k eo e c (v.entries k))
        (λ m cur. Current-write s.registry l.path _ m (rw eo) cur) v)

pub release_step :
    (n : ℕ) (s : System) (i : ℕ) (o : Option Lease)
    → get_elem? s.leases i ≡ o
    → Inv n s
    → Inv n (release_at s i o)
unfolding release_at release
release_step n s i none e v = v
release_step n s i (some l) e v = elim (Bool-cases (not l.counted || not l.attached)) [
  | inl idle ↦ rw (idle, set_get s.leases i l e) v
  | inr live ↦ rw live (release_counted n s i l (s.registry.sources l.path) refl e (ground arith) v)
]
