-- ===== src/Session/Closing.antt =====
-- What `close` of a cursor leaves, and what it leaves to a second one.
use fast_gdb.Base.{
  ◌≡◌, refl, Bool, true, false, not, ◌&&◌, ◌||◌, Option, Bool-cases, inl, inr, if◌then◌else◌,
}
use fast_gdb.Coordination.{Registry, Lease, release, abandon_fail_closed}
use fast_gdb.Session.{lease_valid}
use fast_gdb.Session.Cursor.{
  NextCall, AdaptiveFeatureCursor, is_fast, close_backend, drop_lease, close,
}

released : (h : Registry) (l : Lease) → l.counted ≡ false → release h l ≡ (h, l)
unfolding release
released h l e = rw e refl

release-released : (g h : Registry) (l : Lease) → release h (release g l).1 ≡ (h, (release g l).1)
unfolding release
release-released g h l = elim (Bool-cases (not l.counted || not l.attached)) [
  | inl e ↦ rw (e, e) refl
  | inr e ↦ rw e refl
]

module _ {B F : Type 0} (next_call : B → NextCall F × B) (close_call : Option (B → Bool × B))
    (g h : Registry) (c : AdaptiveFeatureCursor B) where
  abbrev pub failed : Bool
  failed = (close_backend next_call close_call c).0

  pub drop-released :
      release h (drop_lease next_call close_call failed g c).0
      ≡ (h, (drop_lease next_call close_call failed g c).0)
  unfolding abandon_fail_closed
  drop-released = elim (Bool-cases (failed && is_fast c.backend_ && lease_valid c.fast_lease_)) [
    | inl e ↦ rw e (released h (abandon_fail_closed c.fast_lease_) refl)
    | inr e ↦ rw e (release-released g h c.fast_lease_)
  ]

  again :
      close next_call close_call h (close next_call close_call g c).0
      ≡ ((close next_call close_call g c).0, h)
  unfolding close
  again =
      let e : release h (drop_lease next_call close_call failed g c).0
          ≡ (h, (drop_lease next_call close_call failed g c).0) =
        drop-released in
      rw e refl

  registry : (close next_call close_call g c).1 ≡ (
      if failed && is_fast c.backend_ && lease_valid c.fast_lease_
      then g
      else (release g c.fast_lease_).0)
  unfolding close
  registry = elim (Bool-cases (failed && is_fast c.backend_ && lease_valid c.fast_lease_)) [
    | inl e ↦ rw e refl
    | inr e ↦ rw e refl
  ]

  -- `close` leaves the cursor done and the backend closed, and a second `close`, on whatever registry, does nothing.
  -- Where the backend's cleanup throws on a fast cursor whose lease counts, the registry stays as it is, with the
  -- reader counted; otherwise the lease is released.
  pub close-close :
      ((close next_call close_call g c).0.done_ ≡ true)
      × (close next_call close_call h (close next_call close_call g c).0
          ≡ ((close next_call close_call g c).0, h))
      × ((close next_call close_call g c).1 ≡ (
          if failed && is_fast c.backend_ && lease_valid c.fast_lease_
          then g
          else (release g c.fast_lease_).0))
  unfolding close
  close-close = (refl, again, registry)
