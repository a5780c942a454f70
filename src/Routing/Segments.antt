-- ===== src/Routing/Segments.antt =====
-- `has_parent_segment` against a description of the segments of a path.
use fast_gdb.Base.{
  ℕ, true, false, List, [], ◌∷◌, ◌++◌, ◌≡◌, refl, sym, ap, ◌∙◌, ◌↔◌, arith, ◌==◌, ◌||◌, Bool-cases,
  inl, inr, ==_iff, subst,
}
use mathlib.Core.List.{append_assoc, append-nil}
use fast_gdb.Routing.{bytes_eq, parent, parent_segment_from, has_parent_segment}
use fast_gdb.Routing.Prefix.{bytes_eq→path}

-- ".." is the whole path, or stands before the first '/', or is a segment of what comes after some '/'.
pub data ParentSegment : List ℕ → Type 0 where
  only : {path : List ℕ} → path ≡ parent → ParentSegment path
  first : {path : List ℕ} (rest : List ℕ) → path ≡ parent ++ (b'/' ∷ rest) → ParentSegment path
  later :
      {path : List ℕ} (before rest : List ℕ)
      → path ≡ before ++ (b'/' ∷ rest)
      → ParentSegment rest
      → ParentSegment path

slash_found :
    (segment rest : List ℕ)
    → (bytes_eq segment parent || parent_segment_from [] rest) ≡ true
    → (parent_segment_from [] rest ≡ true → ParentSegment rest)
    → ParentSegment (segment ++ (b'/' ∷ rest))
slash_found segment rest h next = elim (Bool-cases (bytes_eq segment parent)) [
  | inl e ↦ first rest (ap (λ s. s ++ (b'/' ∷ rest)) (bytes_eq→path segment parent e))
  | inr e ↦ later segment rest refl (next (ground arith))
]

module _ (segment : List ℕ) (c : ℕ) (cs : List ℕ) where
  from-slash :
      (c == b'/') ≡ true
      → parent_segment_from segment (c ∷ cs)
        ≡ (bytes_eq segment parent || parent_segment_from [] cs)
  unfolding parent_segment_from
  from-slash e = rw e refl

  from-other :
      (c == b'/') ≡ false
      → parent_segment_from segment (c ∷ cs) ≡ parent_segment_from (segment ++ (c ∷ [])) cs
  unfolding parent_segment_from
  from-other e = rw e refl

from-end : (segment : List ℕ) → parent_segment_from segment [] ≡ bytes_eq segment parent
unfolding parent_segment_from
from-end segment = refl

found-ParentSegment :
    (segment path : List ℕ)
    → parent_segment_from segment path ≡ true
    → ParentSegment (segment ++ path)
found-ParentSegment segment [] h =
    only (append-nil segment ∙ bytes_eq→path segment parent (sym (from-end segment) ∙ h))
found-ParentSegment segment (c ∷ cs) h = elim (Bool-cases (c == b'/')) [
  | inl e ↦
      let p : c ≡ b'/' = (==_iff c b'/').0 e in
      subst (λ d. ParentSegment (segment ++ (d ∷ cs))) (sym p)
        (slash_found segment cs (sym (from-slash segment c cs e) ∙ h) (found-ParentSegment [] cs))
  | inr e ↦
      subst ParentSegment (append_assoc segment (c ∷ []) cs)
        (found-ParentSegment (segment ++ (c ∷ [])) cs (sym (from-other segment c cs e) ∙ h))
]

later_found :
    (segment before rest : List ℕ)
    → parent_segment_from [] rest ≡ true
    → parent_segment_from segment (before ++ (b'/' ∷ rest)) ≡ true
unfolding parent_segment_from
later_found segment [] rest h = ground arith
later_found segment (c ∷ cs) rest h =
    ground (arith, later_found [] cs rest h, later_found (segment ++ (c ∷ [])) cs rest h)

ParentSegment-found : {path : List ℕ} → ParentSegment path → parent_segment_from [] path ≡ true
unfolding parent_segment_from
ParentSegment-found (only e) = ap (parent_segment_from []) e
ParentSegment-found (first rest e) = ap (parent_segment_from []) e
ParentSegment-found (later before rest e s) =
    ap (parent_segment_from []) e ∙ later_found [] before rest (ParentSegment-found s)

-- `has_parent_segment` holds exactly where ".." is a segment of the path: all of it, the part before its
-- first '/', or a segment of what follows a '/'.
pub has_parent_segment-ParentSegment :
    (path : List ℕ) → (has_parent_segment path ≡ true) ↔ ParentSegment path
unfolding has_parent_segment
has_parent_segment-ParentSegment path = (found-ParentSegment [] path, ParentSegment-found)
