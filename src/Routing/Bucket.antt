-- ===== src/Routing/Bucket.antt =====
-- `valid_s3_bucket`, the name of a bucket before the first slash of a path, against a description of such names.
use fast_gdb.Base.{
  ℕ, ◌&&◌, ◌||◌, ◌≤◌, Bool, true, false, List, [], ◌∷◌, ◌++◌, ◌≡◌, ◌≢◌, refl, ap, ap₂, ◌∙◌, ◌⊎◌,
  arith, length, Bool-cases, inl, inr, ltb, ◌==◌, subst, All, ==_iff, not_lt→ltb,
}
use fast_gdb.Base.Chars.{between, isalnum}
use fast_gdb.Routing.{valid_s3_bucket, contains, bucket_of, bucket_bytes, front_is, back_is}

-- A small letter or a digit, and a byte of a bucket.
abbrev pub IsLetterOrDigit : ℕ → Type 0
IsLetterOrDigit c = ((97 ≤ c) × (c ≤ 122)) ⊎ ((48 ≤ c) × (c ≤ 57))

abbrev IsBucketByte : ℕ → Type 0
IsBucketByte c = IsLetterOrDigit c ⊎ (c ≡ b'-') ⊎ (c ≡ b'.')

-- The string `s` stands nowhere in the path.
abbrev pub NotWithin : List ℕ → List ℕ → Type 0
NotWithin s path = (before rest : List ℕ) → path ≢ before ++ (s ++ rest)

-- A bucket, as `bucket_bytes` accepts it.
bucket_bytes-All :
    (dot : Bool) (bucket : List ℕ) → bucket_bytes dot bucket ≡ true → All IsBucketByte bucket
bucket_bytes-All dot [] h = tt
bucket_bytes-All dot (c ∷ cs) h =
    let byte : IsBucketByte c = ground arith in
    (byte, bucket_bytes-All (c == b'.') cs (ground arith))

bucket_bytes-two_dots :
    (dot : Bool) (before rest : List ℕ) → bucket_bytes dot (before ++ (b'.' ∷ b'.' ∷ rest)) ≡ false
bucket_bytes-two_dots dot [] rest = ground arith
bucket_bytes-two_dots dot (c ∷ cs) rest = ground (arith, bucket_bytes-two_dots (c == b'.') cs rest)

front_is-append :
    (test : ℕ → Bool) (xs : List ℕ)
    → front_is test xs ≡ true
    → (c : ℕ) × (rest : List ℕ) × (xs ≡ c ∷ rest) × (test c ≡ true)
front_is-append test [] h = ground arith
front_is-append test (c ∷ cs) h = (c, cs, refl, h)

back_is-append :
    (test : ℕ → Bool) (xs : List ℕ)
    → back_is test xs ≡ true
    → (c : ℕ) × (before : List ℕ) × (xs ≡ before ++ (c ∷ [])) × (test c ≡ true)
back_is-append test [] h = ground arith
back_is-append test (c ∷ []) h = (c, [], refl, h)
back_is-append test (c ∷ d ∷ ds) h =
    let (e, before, p, t) = back_is-append test (d ∷ ds) h in
    (e, c ∷ before, ap (λ xs. c ∷ xs) p, t)

bucket_of-append :
    (path : List ℕ)
    → contains b'/' path ≡ true
    → (rest : List ℕ) × (path ≡ bucket_of path ++ (b'/' ∷ rest))
bucket_of-append [] h = ground arith
bucket_of-append (c ∷ cs) h = elim (Bool-cases (c == b'/')) [
  | inl e ↦ (cs, rw (e, (==_iff c b'/').0 e) refl)
  | inr e ↦ let (rest, p) = bucket_of-append cs (ground arith) in (rest, rw e (ap (λ xs. c ∷ xs) p))
]

-- A bucket: 3 to 63 small letters, digits, '-' and '.', with a letter or a digit at either end and no two dots together.
pub record IsBucket (bucket : List ℕ) : Type 0 where
  pub long : 3 ≤ length bucket
  pub short : length bucket ≤ 63
  pub bytes : All IsBucketByte bucket
  pub starts : (c : ℕ) × (rest : List ℕ) × (bucket ≡ c ∷ rest) × IsLetterOrDigit c
  pub ends : (c : ℕ) × (before : List ℕ) × (bucket ≡ before ++ (c ∷ [])) × IsLetterOrDigit c
  pub dots : NotWithin (b'.' ∷ b'.' ∷ []) bucket

isalnum-IsLetterOrDigit : (c : ℕ) → IsBucketByte c → isalnum c ≡ true → IsLetterOrDigit c
isalnum-IsLetterOrDigit c b h = ground arith

All-last : (P : ℕ → Type 0) (xs : List ℕ) (c : ℕ) → All P (xs ++ (c ∷ [])) → P c
All-last P [] c h = h.0
All-last P (x ∷ xs) c h = All-last P xs c h.1

pub valid_s3_bucket-IsBucket :
    (path : List ℕ)
    → valid_s3_bucket path ≡ true
    → (bucket : List ℕ) × (rest : List ℕ) × (path ≡ bucket ++ (b'/' ∷ rest)) × IsBucket bucket
unfolding valid_s3_bucket
valid_s3_bucket-IsBucket path h =
    let bucket = bucket_of path in
    let (rest, p) = bucket_of-append path (ground arith) in
    let run : bucket_bytes false bucket ≡ true = ground arith in
    let octets : All IsBucketByte bucket = bucket_bytes-All false bucket run in
    let (c, front, e, alnum) = front_is-append isalnum bucket (ground arith) in
    let (d, back, e', alnum') = back_is-append isalnum bucket (ground arith) in
    (
      bucket,
      rest,
      p,
      record {
        long = ground arith;
        short = ground arith;
        bytes = octets;
        starts =
            (c, front, e, isalnum-IsLetterOrDigit c (subst (All IsBucketByte) e octets).0 alnum);
        ends = (
          d,
          back,
          e',
          isalnum-IsLetterOrDigit d
              (All-last IsBucketByte back d (subst (All IsBucketByte) e' octets)) alnum',
        );
        dots = λ before after q.
            let pair = ap (bucket_bytes false) q ∙ bucket_bytes-two_dots false before after in
            ground (arith, pair);
      },
    )

IsBucketByte-allowed :
    (c : ℕ)
    → IsBucketByte c
    → (between 97 122 c || between 48 57 c || c == b'-' || c == b'.') ≡ true
IsBucketByte-allowed c h = ground arith

-- No dot at the front, where the byte before it is one.
bucket_bytes-IsBucketByte :
    (dot : Bool) (bucket : List ℕ)
    → All IsBucketByte bucket
    → NotWithin (b'.' ∷ b'.' ∷ []) bucket
    → (dot ≡ true → (rest : List ℕ) → bucket ≢ b'.' ∷ rest)
    → bucket_bytes dot bucket ≡ true
bucket_bytes-IsBucketByte dot [] all apart front = refl
bucket_bytes-IsBucketByte dot (c ∷ cs) all apart front =
    let behind : NotWithin (b'.' ∷ b'.' ∷ []) cs =
      λ before rest e. apart (c ∷ before) rest (ap (λ xs. c ∷ xs) e) in
    let alone : (c == b'.') ≡ true → (rest : List ℕ) → cs ≢ b'.' ∷ rest =
      λ e rest q. apart [] rest (ap₂ (λ a as'. a ∷ as') ((==_iff c b'.').0 e) q) in
    let later = bucket_bytes-IsBucketByte (c == b'.') cs all.1 behind alone in
    let byte = all.0 in
    let fresh : dot ≡ true → (c == b'.') ≡ true → ⊥ =
      λ d e. front d cs (ap (λ a. a ∷ cs) ((==_iff c b'.').0 e)) in
    let single : (c == b'.' && dot) ≡ false = elim (Bool-cases (c == b'.')) [
      | inl e ↦ elim (Bool-cases dot) [ inl d ↦ absurd (fresh d e) | inr d ↦ rw (e, d) refl ]
      | inr e ↦ rw e refl
    ] in
    let allowed : (between 97 122 c || between 48 57 c || c == b'-' || c == b'.') ≡ true =
      IsBucketByte-allowed c byte in
    rw (allowed, single) later

bucket_of-bytes :
    (bucket rest : List ℕ)
    → All IsBucketByte bucket
    → (bucket_of (bucket ++ (b'/' ∷ rest)) ≡ bucket)
      × (contains b'/' (bucket ++ (b'/' ∷ rest)) ≡ true)
bucket_of-bytes [] rest h = (refl, refl)
bucket_of-bytes (c ∷ cs) rest h =
    let (e, found) = bucket_of-bytes cs rest h.1 in
    let byte = h.0 in
    let other : (c == b'/') ≡ false = ground arith in
    (rw other (ap (λ xs. c ∷ xs) e), ground (arith, found))

back_is-last :
    (test : ℕ → Bool) (before : List ℕ) (c : ℕ)
    → test c ≡ true
    → back_is test (before ++ (c ∷ [])) ≡ true
back_is-last test [] c h = h
back_is-last test (b ∷ []) c h = h
back_is-last test (b ∷ d ∷ ds) c h = back_is-last test (d ∷ ds) c h

IsLetterOrDigit-isalnum : (c : ℕ) → IsLetterOrDigit c → isalnum c ≡ true
IsLetterOrDigit-isalnum c h = ground arith

pub IsBucket-valid_s3_bucket :
    (path bucket rest : List ℕ)
    → path ≡ bucket ++ (b'/' ∷ rest)
    → IsBucket bucket
    → valid_s3_bucket path ≡ true
unfolding valid_s3_bucket
IsBucket-valid_s3_bucket path bucket rest p b =
    let (same, found) = bucket_of-bytes bucket rest b.bytes in
    let run : bucket_bytes false bucket ≡ true =
      bucket_bytes-IsBucketByte false bucket b.bytes b.dots (λ d. absurd (ground (arith, d))) in
    let (c, front, e, first) = b.starts in
    let (d, back, e', last) = b.ends in
    let at_front : front_is isalnum bucket ≡ true =
      ap (front_is isalnum) e ∙ IsLetterOrDigit-isalnum c first in
    let at_back : back_is isalnum bucket ≡ true =
      ap (back_is isalnum) e' ∙ back_is-last isalnum back d (IsLetterOrDigit-isalnum d last) in
    let long : ltb (length bucket) 3 ≡ false = not_lt→ltb (length bucket) 3 b.long in
    let short : ltb 63 (length bucket) ≡ false = not_lt→ltb 63 (length bucket) b.short in
    rw (p, same, found, long, short, at_front, at_back) run
