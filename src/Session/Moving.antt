-- ===== src/Session/Moving.antt =====
-- Cursors that are moved and assigned.
use fast_gdb.Base.{◌≡◌, refl, ap, Bool, Option, none}
use fast_gdb.Coordination.{FilePath, Registry, release}
use fast_gdb.Coordination.Transfer.{assign_lease}
use fast_gdb.Session.Cursor.{
  NextCall, AdaptiveFeatureCursor, close, next, move_cursor, assign_cursor,
}
use fast_gdb.Session.Closing.{drop-released}

module _ {B F : Type 0} (next_call : B → NextCall F × B) (close_call : Option (B → Bool × B))
    (left : FilePath) (backend : Option B) (error : Bool) where
  abbrev pub emptied : AdaptiveFeatureCursor B → AdaptiveFeatureCursor B
  emptied c = (move_cursor next_call close_call left backend error c).1

  emptied-close :
      (g : Registry) (c : AdaptiveFeatureCursor B)
      → close next_call close_call g (emptied c) ≡ (emptied c, g)
  unfolding close move_cursor release
  emptied-close g c = refl

  emptied-next :
      (g : Registry) (others : Registry → Registry) (c : AdaptiveFeatureCursor B)
      → next next_call close_call g others (emptied c) ≡ (none, (emptied c, g))
  unfolding next move_cursor
  emptied-next g others c = refl

  -- Behind `close`, the assignment of the lease finds nothing left to release.
  assigned :
      (g : Registry) (target other : AdaptiveFeatureCursor B)
      → assign_cursor next_call close_call g left backend error target other
        ≡ (other, emptied other, (close next_call close_call g target).1)
  unfolding assign_cursor assign_lease move_cursor close
  assigned g target other =
      ap (λ r. (other, emptied other, r.0))
        (drop-released next_call close_call g (close next_call close_call g target).1 target)

  -- The assignment of a cursor to another object closes that one as `close` does, gives it all that the cursor had, its
  -- lease and its backend with it, and leaves the cursor done: on whatever registry, closing it or asking it for a
  -- feature changes nothing and gives none.
  pub assign_cursor-close :
      (g h : Registry) (others : Registry → Registry) (target other : AdaptiveFeatureCursor B)
      → (assign_cursor next_call close_call g left backend error target other
          ≡ (other, emptied other, (close next_call close_call g target).1))
        × (close next_call close_call h (emptied other) ≡ (emptied other, h))
        × (next next_call close_call h others (emptied other) ≡ (none, (emptied other, h)))
  assign_cursor-close g h others target other =
      (assigned g target other, emptied-close h other, emptied-next h others other)
