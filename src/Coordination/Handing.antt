-- ===== src/Coordination/Handing.antt =====
-- The moves and assignments of leases, for the invariant.
use fast_gdb.Base.{
  ℕ, zero, suc, ◌+◌, ◌≡◌, refl, ap, inl, inr, true, false, List, [], ◌∷◌, Option, none, some, arith,
  ◌==◌, Bool-cases, get_elem?, set,
}
use fast_gdb.Coordination.{FilePath, Registry, Lease, no_lease, release}
use fast_gdb.Coordination.Keeps.{same}
use fast_gdb.Coordination.System.{System, acquired, put_lease, release_at, move_at, assign_at}
use fast_gdb.Coordination.Transfer.{move_lease, assign_lease}
use fast_gdb.Coordination.Invariant.{
  held_one, held, held-set, get_elem?-set_cases, Inv, release_step,
}
use fast_gdb.Coordination.Granting.{refused_step}

get_elem?-set_other :
    (ls : List Lease) (i j : ℕ) (x : Lease)
    → (i == j) ≡ false
    → get_elem? (set ls i x) j ≡ get_elem? ls j
get_elem?-set_other [] i j x h = refl
get_elem?-set_other (y ∷ ls) zero zero x h = cc
get_elem?-set_other (y ∷ ls) zero (suc j) x h = refl
get_elem?-set_other (y ∷ ls) (suc i) zero x h = refl
get_elem?-set_other (y ∷ ls) (suc i) (suc j) x h = get_elem?-set_other ls i j x (ground arith)

get_elem?-set_self :
    (ls : List Lease) (i : ℕ) (t x : Lease)
    → get_elem? ls i ≡ some t
    → get_elem? (set ls i x) i ≡ some x
get_elem?-set_self [] i t x e = cc
get_elem?-set_self (y ∷ ls) zero t x e = refl
get_elem?-set_self (y ∷ ls) (suc i) t x e = get_elem?-set_self ls i t x e

set-set : (ls : List Lease) (i : ℕ) (x y : Lease) → set (set ls i x) i y ≡ set ls i y
set-set [] i x y = refl
set-set (z ∷ ls) zero x y = refl
set-set (z ∷ ls) (suc i) x y = ap (λ t. z ∷ t) (set-set ls i x y)

-- The lease `l` of object `j` goes to object `i`, whose own does not count, and object `j` is left with none that does.
module _ (n : ℕ) (s : System) (i j : ℕ) (t l l' : Lease) (at_i : get_elem? s.leases i ≡ some t)
    (idle : t.counted ≡ false) (at_j : get_elem? s.leases j ≡ some l) (others : (i == j) ≡ false)
    (gone : l'.counted ≡ false) where
  pub held_same : (k : FilePath) → held (set (set s.leases i l) j l') k ≡ held s.leases k
  held_same k =
      let first : held (set s.leases i l) k + held_one k t ≡ held s.leases k + held_one k l =
        held-set s.leases i t l k at_i in
      let still : get_elem? (set s.leases i l) j ≡ some l =
        rw (get_elem?-set_other s.leases i j l others) at_j in
      let second : held (set (set s.leases i l) j l') k + held_one k l
          ≡ held (set s.leases i l) k + held_one k l' =
        held-set (set s.leases i l) j l l' k still in
      ground arith

  handed : Inv n s → Inv n (record s { leases = set (set s.leases i l) j l' })
  handed v = record {
    entries = λ k. rw (held_same k) (v.entries k);
    current = λ m x e c. elim (get_elem?-set_cases (set s.leases i l) j m l' x e) [
      | inl new ↦ absurd (let f : x.counted ≡ false = rw new gone in cc)
      | inr old ↦ elim (get_elem?-set_cases s.leases i m l x old) [
        | inl given ↦ v.current j x (rw given at_j) c
        | inr kept ↦ v.current m x kept c
      ]
    ];
  }

pub move_step :
    (n : ℕ) (s : System) (i : ℕ) (left : FilePath) (o : Option Lease)
    → get_elem? s.leases i ≡ o
    → Inv n s
    → Inv n (move_at s i left o)
unfolding move_at
move_step n s i left none e v = v
move_step n s i left (some l) e v =
    let v' : Inv n (acquired s (s.registry, no_lease)) =
      refused_step n s s.registry (same n (held s.leases) s.registry) v in
    handed n (record s { leases = no_lease ∷ s.leases }) 0 (suc i) no_lease l (move_lease left l).1
      refl refl e (ground arith) refl (unfold acquired in v')

release-idle :
    (g : Registry) (l : Lease)
    → (l.counted ≡ true → l.attached ≡ true)
    → (release g l).1.counted ≡ false
unfolding release
release-idle g l h = ground arith

-- The assignment between two objects, with the target released first.
module _ (n : ℕ) (s : System) (i j : ℕ) (left : FilePath) (t l : Lease)
    (at_i : get_elem? s.leases i ≡ some t) (at_j : get_elem? s.leases j ≡ some l)
    (two : (i == j) ≡ false) (v : Inv n s) where
  abbrev t' : Lease
  t' = (release s.registry t).1

  abbrev released : System
  released = record { registry = (release s.registry t).0; leases = set s.leases i t' }

  t'-idle : t'.counted ≡ false
  t'-idle = release-idle s.registry t (λ c. (v.current i t at_i c).bound)

  still_j : get_elem? (set s.leases i t') j ≡ some l
  still_j = rw (get_elem?-set_other s.leases i j t' two) at_j

  pub assigned_held :
      (k : FilePath)
      → held (set (set s.leases i l) j (move_lease left l).1) k ≡ held (set s.leases i t') k
  assigned_held k = rw (← set-set s.leases i t' l) (
      held_same n released i j t' l (move_lease left l).1 (get_elem?-set_self s.leases i t t' at_i)
        t'-idle still_j two refl k)

  assigned-Inv : Inv n (record {
    registry = (release s.registry t).0;
    leases = set (set s.leases i l) j (move_lease left l).1;
  })
  unfolding release_at put_lease
  assigned-Inv = rw (← set-set s.leases i t' l) (
      handed n released i j t' l (move_lease left l).1 (get_elem?-set_self s.leases i t t' at_i)
        t'-idle still_j two refl (release_step n s i (some t) at_i v))

pub assign_step :
    (n : ℕ) (s : System) (i j : ℕ) (left : FilePath) (o o' : Option Lease)
    → get_elem? s.leases i ≡ o
    → get_elem? s.leases j ≡ o'
    → Inv n s
    → Inv n (assign_at s i j left o o')
unfolding assign_at assign_lease
assign_step n s i j left none o' e e' v = v
assign_step n s i j left (some t) none e e' v = v
assign_step n s i j left (some t) (some l) e e' v = elim (Bool-cases (i == j)) [
  | inl one ↦ rw one v
  | inr two ↦ rw two (assigned-Inv n s i j left t l e e' two v)
]
