-- ===== src/Routing/Accepted.antt =====
-- The S3 branches of `parse_source`, against the description of an object in Object.
use fast_gdb.Base.{
  ℕ, ◌≤◌, false, List, ◌++◌, ◌≡◌, ◌≢◌, refl, sym, ap, ◌∙◌, ◌⊎◌, ◌↔◌, length, inl, inr, ltb, subst,
  All, not_lt→ltb,
}
use fast_gdb.Routing.{
  ok, Source, s3, contains, s3_scheme, vsis3_prefix, refused_s3_path, parse_source, max_uri_bytes,
  parse_scheme,
}
use fast_gdb.Routing.Normal.{accepted-S3Form, source_guards, vsis3_stable}
use fast_gdb.Routing.Prefix.{starts_with-append}
use fast_gdb.Routing.Object.{
  IsObject, contains-All, All-contains, refused_s3_path-IsObject, IsObject-refused_s3_path,
}

-- The source for a path, and the answer on either form of its URI.
abbrev pub object_source : List ℕ → Source
object_source path = record { kind = s3; normalized_uri = vsis3_prefix ++ path }

accepts_s3 :
    (lexically_normal : List ℕ → List ℕ) (path : List ℕ)
    → length (s3_scheme ++ path) ≤ max_uri_bytes
    → All (λ c. c ≢ 0) (s3_scheme ++ path)
    → refused_s3_path path ≡ false
    → parse_source lexically_normal (s3_scheme ++ path) ≡ (ok, object_source path)
unfolding parse_source parse_scheme
accepts_s3 n path l nonzero r =
    let short : ltb max_uri_bytes (length (s3_scheme ++ path)) ≡ false =
      not_lt→ltb max_uri_bytes (length (s3_scheme ++ path)) l in
    let z : contains 0 (s3_scheme ++ path) ≡ false = All-contains 0 (s3_scheme ++ path) nonzero in
    rw (short, z, starts_with-append s3_scheme path, r) refl

accepts_vsis3 :
    (lexically_normal : List ℕ → List ℕ) (path : List ℕ)
    → length (vsis3_prefix ++ path) ≤ max_uri_bytes
    → All (λ c. c ≢ 0) (vsis3_prefix ++ path)
    → refused_s3_path path ≡ false
    → parse_source lexically_normal (vsis3_prefix ++ path) ≡ (ok, object_source path)
accepts_vsis3 n path l nonzero r =
    vsis3_stable n path r (All-contains 0 (vsis3_prefix ++ path) nonzero) l

accepts_form :
    (lexically_normal : List ℕ → List ℕ) (uri path : List ℕ)
    → length uri ≤ max_uri_bytes
    → All (λ c. c ≢ 0) uri
    → (uri ≡ s3_scheme ++ path) ⊎ (uri ≡ vsis3_prefix ++ path)
    → refused_s3_path path ≡ false
    → parse_source lexically_normal uri ≡ (ok, object_source path)
accepts_form n uri path l z (inl e) r =
    let l' : length (s3_scheme ++ path) ≤ max_uri_bytes =
      subst (λ u. length u ≤ max_uri_bytes) e l in
    ap (parse_source n) e ∙ accepts_s3 n path l' (subst (All (λ c. c ≢ 0)) e z) r
accepts_form n uri path l z (inr e) r =
    let l' : length (vsis3_prefix ++ path) ≤ max_uri_bytes =
      subst (λ u. length u ≤ max_uri_bytes) e l in
    ap (parse_source n) e ∙ accepts_vsis3 n path l' (subst (All (λ c. c ≢ 0)) e z) r

-- `parse_source` gives an S3 source exactly where the URI has at most 8192 bytes, none of them 0, and is s3:// or
-- /vsis3/ and the path of an object, and the source is /vsis3/ and that path: a bucket of 3 to 63 small letters,
-- digits, '-' and '.' with a letter or a digit at either end and no "..", then a '/', no '?', '@' or "//" in the path
-- and no segment "..", and .gdb at its end, in small or capital letters.
pub parse_source-IsObject :
    (lexically_normal : List ℕ → List ℕ) (uri : List ℕ) (s : Source)
    → ((s.kind ≡ s3) × (parse_source lexically_normal uri ≡ (ok, s))) ↔ (
        (length uri ≤ max_uri_bytes)
        × All (λ c. c ≢ 0) uri
        × (path : List ℕ) × ((uri ≡ s3_scheme ++ path) ⊎ (uri ≡ vsis3_prefix ++ path))
        × (object_source path ≡ s)
        × IsObject path)
parse_source-IsObject n uri s = (
  λ (k, h).
      let (path, form, r, p) = accepted-S3Form n uri s k h in
      let (zero_free, short, _) = source_guards n uri h in
      (short, contains-All 0 uri zero_free, path, form, p, refused_s3_path-IsObject path r),
  λ (l, z, path, form, p, o).
      let r = IsObject-refused_s3_path path o in
      (
        ap (λ (x : Source). x.kind) (sym p),
        accepts_form n uri path l z form r ∙ ap (λ t. (ok, t)) p,
      ),
)
