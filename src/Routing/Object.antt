-- ===== src/Routing/Object.antt =====
-- The condition `refused_s3_path` of the S3 branches of `parse_source`, against a description of the path by its parts.
use fast_gdb.Base.{
  ℕ, suc, ◌+◌, ◌-◌, true, false, List, [], ◌∷◌, ◌++◌, ◌≡◌, ◌≢◌, map, refl, sym, ap, ap₂, ◌∙◌, arith,
  length, take, drop, Bool-cases, inl, inr, ltb, ◌==◌, All, ==_iff, length-append,
  drop-append_length,
}
use fast_gdb.Base.Chars.{tolower}
use fast_gdb.Coordination.{is_empty}
use fast_gdb.Routing.{
  has_parent_segment, starts_with, contains, gdb_suffix, refused_s3_path, contains_string, lower_eq,
  front_is, ends_with_ascii_case_insensitive,
}
use fast_gdb.Routing.Prefix.{starts_with-append, starts_with→append, take-drop}
use fast_gdb.Routing.Segments.{ParentSegment, has_parent_segment-ParentSegment}
use fast_gdb.Routing.Bucket.{
  NotWithin, IsBucket, valid_s3_bucket-IsBucket, IsBucket-valid_s3_bucket,
}

pub contains-All : (b : ℕ) (path : List ℕ) → contains b path ≡ false → All (λ c. c ≢ b) path
contains-All b [] h = tt
contains-All b (c ∷ cs) h =
    let rest = contains-All b cs (ground arith) in ((λ e. ground (arith, e)), rest)

contains_string_start :
    (s path : List ℕ) → starts_with path s ≡ true → contains_string s path ≡ true
unfolding contains_string
contains_string_start s [] h = h
contains_string_start s (c ∷ cs) h = rw h refl

contains_string-append : (s before rest : List ℕ) → contains_string s (before ++ (s ++ rest)) ≡ true
unfolding contains_string
contains_string-append s [] rest = contains_string_start s (s ++ rest) (starts_with-append s rest)
contains_string-append s (c ∷ cs) rest = ground (arith, contains_string-append s cs rest)

contains_string-NotWithin : (s path : List ℕ) → contains_string s path ≡ false → NotWithin s path
contains_string-NotWithin s path h before rest e =
    let found : contains_string s path ≡ true =
      ap (contains_string s) e ∙ contains_string-append s before rest in
    ground (arith, found)

lower_eq-map : (xs ys : List ℕ) → lower_eq xs ys ≡ true → map tolower xs ≡ map tolower ys
lower_eq-map [] [] h = refl
lower_eq-map [] (y ∷ ys) h = ground arith
lower_eq-map (x ∷ xs) [] h = ground arith
lower_eq-map (x ∷ xs) (y ∷ ys) h =
    let e : tolower x ≡ tolower y = ground arith in
    ap₂ (λ a as'. a ∷ as') e (lower_eq-map xs ys (ground arith))

-- A path in a bucket without '?', '@', an empty segment or a segment "..", whose last four letters are .gdb in either case.
pub record IsObject (path : List ℕ) : Type 0 where
  pub bucket :
      (bucket : List ℕ) × (rest : List ℕ) × (path ≡ bucket ++ (b'/' ∷ rest)) × IsBucket bucket
  pub no_query : All (λ c. c ≢ b'?') path
  pub no_user : All (λ c. c ≢ b'@') path
  pub no_empty : NotWithin (b'/' ∷ b'/' ∷ []) path
  pub no_parent : ¬ ParentSegment path
  pub suffix :
      (stem : List ℕ) × (ending : List ℕ) × (path ≡ stem ++ ending)
      × (map tolower ending ≡ gdb_suffix)

pub refused_s3_path-IsObject : (path : List ℕ) → refused_s3_path path ≡ false → IsObject path
unfolding refused_s3_path ends_with_ascii_case_insensitive
refused_s3_path-IsObject path h =
    let k = length path - 4 in
    let parent_free : has_parent_segment path ≡ false = ground arith in
    let ending : lower_eq (drop k path) gdb_suffix ≡ true = ground arith in
    record {
      bucket = valid_s3_bucket-IsBucket path (ground arith);
      no_query = contains-All b'?' path (ground arith);
      no_user = contains-All b'@' path (ground arith);
      no_empty = contains_string-NotWithin (b'/' ∷ b'/' ∷ []) path (ground arith);
      no_parent =
          λ q. let found = (has_parent_segment-ParentSegment path).1 q in ground (arith, found);
      suffix = (
        take k path,
        drop k path,
        sym (take-drop k path),
        lower_eq-map (drop k path) gdb_suffix ending,
      );
    }

pub All-contains : (b : ℕ) (path : List ℕ) → All (λ c. c ≢ b) path → contains b path ≡ false
All-contains b [] h = refl
All-contains b (c ∷ cs) h =
    let rest = All-contains b cs h.1 in
    elim (Bool-cases (c == b)) [ inl e ↦ absurd (h.0 ((==_iff c b).0 e)) | inr e ↦ rw e rest ]

starts_with-within : (s path : List ℕ) → NotWithin s path → starts_with path s ≡ false
starts_with-within s path h = elim (Bool-cases (starts_with path s)) [
  | inl e ↦ absurd (h [] (drop (length s) path) (starts_with→append path s e))
  | inr e ↦ e
]

NotWithin-contains_string : (s path : List ℕ) → NotWithin s path → contains_string s path ≡ false
unfolding contains_string
NotWithin-contains_string s [] h = starts_with-within s [] h
NotWithin-contains_string s (c ∷ cs) h =
    let behind : NotWithin s cs = λ before rest e. h (c ∷ before) rest (ap (λ xs. c ∷ xs) e) in
    rw (starts_with-within s (c ∷ cs) h) (NotWithin-contains_string s cs behind)

map-lower_eq : (xs ys : List ℕ) → map tolower xs ≡ map tolower ys → lower_eq xs ys ≡ true
map-lower_eq [] [] h = refl
map-lower_eq [] (y ∷ ys) h = absurd (cc)
map-lower_eq (x ∷ xs) [] h = absurd (cc)
map-lower_eq (x ∷ xs) (y ∷ ys) h =
    let e : tolower x ≡ tolower y = cc in
    let rest : map tolower xs ≡ map tolower ys = cc in ground (arith, map-lower_eq xs ys rest)

IsObject-front :
    (path : List ℕ)
    → IsObject path
    → (is_empty path ≡ false) × (front_is (λ c. c == b'/') path ≡ false)
IsObject-front path o =
    let (bucket, rest, p, b) = o.bucket in
    let (c, front, e, first) = b.starts in
    let q : path ≡ c ∷ (front ++ (b'/' ∷ rest)) = p ∙ ap (λ xs. xs ++ (b'/' ∷ rest)) e in
    (ap is_empty q, ap (front_is (λ d. d == b'/')) q ∙ ground arith)

length-tolower : (xs : List ℕ) → length (map tolower xs) ≡ length xs
length-tolower [] = refl
length-tolower (x ∷ xs) = ap suc (length-tolower xs)

ending-ends_with :
    (stem ending : List ℕ)
    → map tolower ending ≡ gdb_suffix
    → ends_with_ascii_case_insensitive (stem ++ ending) gdb_suffix ≡ true
unfolding ends_with_ascii_case_insensitive
ending-ends_with stem ending e =
    let four : length ending ≡ 4 = sym (length-tolower ending) ∙ ap length e in
    let all : length (stem ++ ending) ≡ length stem + length ending = length-append stem ending in
    let whole : ltb (length (stem ++ ending)) 4 ≡ false = ground arith in
    let k : length (stem ++ ending) - 4 ≡ length stem = omega arith in
    rw (whole, k, drop-append_length stem ending) (map-lower_eq ending gdb_suffix e)

pub IsObject-refused_s3_path : (path : List ℕ) → IsObject path → refused_s3_path path ≡ false
unfolding refused_s3_path
IsObject-refused_s3_path path o =
    let (full, front) = IsObject-front path o in
    let (bucket, rest, p, b) = o.bucket in
    let (stem, ending, q, e) = o.suffix in
    let parent_free : has_parent_segment path ≡ false =
      elim (Bool-cases (has_parent_segment path)) [
        | inl found ↦ absurd (o.no_parent ((has_parent_segment-ParentSegment path).0 found))
        | inr none_found ↦ none_found
      ] in
    let named : ends_with_ascii_case_insensitive path gdb_suffix ≡ true =
      ap (λ xs. ends_with_ascii_case_insensitive xs gdb_suffix) q
      ∙ ending-ends_with stem ending e in
    rw
      (
        full,
        front,
        All-contains b'?' path o.no_query,
        All-contains b'@' path o.no_user,
        NotWithin-contains_string (b'/' ∷ b'/' ∷ []) path o.no_empty,
        parent_free,
        IsBucket-valid_s3_bucket path bucket rest p b,
        named,
      )
      refl
