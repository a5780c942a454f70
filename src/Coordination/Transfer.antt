-- ===== src/Coordination/Transfer.antt =====
-- The move constructors and assignments of `FastReaderLease` and `ExternalUpdateToken`. `left` is what the standard
-- library leaves in a string that was moved from; a shared pointer is null then.
use fast_gdb.Base.{◌≡◌, refl, Bool, false}
use fast_gdb.Coordination.{
  FilePath, Registry, Lease, Token, release, abandon_current_state, invalid, notify_update_opened,
  cancel_before_update, notify_update_closed, invalid_coordination_token,
}

-- The new object, and the old one as it is left.
abbrev pub move_lease : FilePath → Lease → Lease × Lease
move_lease left other = (
  other,
  record other {
    attached = false;
    path = left;
    generation = 0;
    pending_events = 0;
    counted = false;
  },
)

-- The assignment from another object: the target, the other one, and the registry.
unfoldable pub assign_lease : Registry → FilePath → Lease → Lease → Lease × Lease × Registry
assign_lease g left target other =
    ((move_lease left other).0, (move_lease left other).1, (release g target).0)

abbrev pub move_token : FilePath → Token → Token × Token
move_token left other =
    (other, record other { attached = false; path = left; token_id = 0; phase = invalid })

assign_token : Registry → FilePath → Token → Token → Token × Token × Registry
assign_token g left target other =
    ((move_token left other).0, (move_token left other).1, (abandon_current_state g target).0)

-- Whatever is asked of a token that was moved from is refused, and its destructor leaves the registry as it is.
moved_token-invalid :
    (g : Registry) (left : FilePath) (t : Token) (done : Bool)
    → let empty = (move_token left t).1 in
      (notify_update_opened g empty ≡ (g, invalid_coordination_token, empty))
      × (cancel_before_update g empty ≡ (g, invalid_coordination_token, empty))
      × (notify_update_closed g empty done ≡ (g, invalid_coordination_token, empty))
      × ((abandon_current_state g empty).0 ≡ g)
unfolding notify_update_opened cancel_before_update notify_update_closed abandon_current_state
moved_token-invalid g left t done = (refl, refl, refl, refl)
