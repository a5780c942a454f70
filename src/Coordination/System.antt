-- ===== src/Coordination/System.antt =====
-- The registry with every lease that was handed out, and the calls that threads make in any order. A destructor of a
-- lease releases, and leaves an object that nothing uses. Tokens are arguments of the calls: a thread may use any token
-- at any time.
use fast_gdb.Base.{ℕ, Bool, List, [], ◌∷◌, Option, none, some, ◌==◌, if◌then◌else◌, get_elem?, set}
use fast_gdb.Coordination.Transfer.{move_lease, assign_lease}
use fast_gdb.Coordination.{
  FilePath, Registry, Lease, Token, try_acquire, release, abandon_fail_closed, prepare_begin,
  prepare_end, notify_update_opened, cancel_before_update, notify_update_closed,
  abandon_current_state, complete_external_update,
}

pub record System : Type 0 where
  pub registry : Registry
  pub leases : List Lease

pub data Event : Type 0 where
  acquires : FilePath → Event
  releases abandons : ℕ → Event
  moves : ℕ → FilePath → Event
  assigns : ℕ → ℕ → FilePath → Event
  prepares : FilePath → Event
  ends_wait : FilePath → ℕ → Event
  opens cancels destroys : Token → Event
  closes : Token → Bool → Event
  closes_lost : FilePath → ℕ → Bool → Event

unfoldable pub start : System
start = record { registry = record { sources = λ p. none; next_token_id = 1 }; leases = [] }

unfoldable pub acquired : System → Registry × Lease → System
acquired s (g, l) = record { registry = g; leases = l ∷ s.leases }

unfoldable pub put_lease : System → ℕ → Registry × Lease → System
put_lease s i (g, l) = record { registry = g; leases = set s.leases i l }

unfoldable pub release_at : System → ℕ → Option Lease → System
unfolding put_lease
release_at s i none = s
release_at s i (some l) = put_lease s i (release s.registry l)

unfoldable pub abandon_at : System → ℕ → Option Lease → System
unfolding put_lease
abandon_at s i none = s
abandon_at s i (some l) = put_lease s i (s.registry, abandon_fail_closed l)

-- A new object, at the front, takes over lease `i`.
unfoldable pub move_at : System → ℕ → FilePath → Option Lease → System
move_at s i left none = s
move_at s i left (some l) = record s {
  leases = (move_lease left l).0 ∷ set s.leases i (move_lease left l).1;
}

-- Lease `i` is assigned from lease `j`, which does nothing where they are one object.
unfoldable pub assign_at : System → ℕ → ℕ → FilePath → Option Lease → Option Lease → System
unfolding assign_lease
assign_at s i j left (some target) (some other) =
    let (target', other', g) = assign_lease s.registry left target other in
    if i == j then s else record { registry = g; leases = set (set s.leases i target') j other' }
assign_at s i j left _ _ = s

unfoldable pub step : System → Event → System
step s (acquires p) = acquired s (try_acquire s.registry p)
step s (releases i) = release_at s i (get_elem? s.leases i)
step s (abandons i) = abandon_at s i (get_elem? s.leases i)
step s (moves i left) = move_at s i left (get_elem? s.leases i)
step s (assigns i j left) = assign_at s i j left (get_elem? s.leases i) (get_elem? s.leases j)
step s (prepares p) = record s { registry = (prepare_begin s.registry p).0 }
step s (ends_wait p token_id) = record s { registry = (prepare_end s.registry p token_id).0 }
step s (opens t) = record s { registry = (notify_update_opened s.registry t).0 }
step s (cancels t) = record s { registry = (cancel_before_update s.registry t).0 }
step s (destroys t) = record s { registry = (abandon_current_state s.registry t).0 }
step s (closes t done) = record s { registry = (notify_update_closed s.registry t done).0 }
step s (closes_lost p token_id done) = record s {
  registry = (complete_external_update s.registry p token_id done).0;
}

unfoldable pub run : System → List Event → System
run s [] = s
run s (e ∷ es) = run (step s e) es
