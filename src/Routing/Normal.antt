-- ===== src/Routing/Normal.antt =====
-- What `parse_source` promises of an S3 source, and that its normal form is stable.
use fast_gdb.Base.{
  ℕ, not, ◌||◌, ◌≤◌, Bool, true, false, List, ◌++◌, ◌≡◌, refl, sym, ap, ◌∙◌, ◌⊎◌, arith, length,
  drop, Bool-cases, inl, inr, if◌then◌else◌, not_lt→ltb, ltb, subst,
}
use fast_gdb.Routing.{
  ErrorCode, ok, invalid_uri, Source, s3, local_file_gdb, new_source, starts_with, contains,
  vsi_prefix, scheme_mark, gdb_suffix, s3_scheme, vsis3_prefix, refused_s3_path, parse_scheme,
  parse_source, max_uri_bytes, contains_string, ends_with_ascii_case_insensitive,
}
use fast_gdb.Routing.Prefix.{starts_with→append, starts_with-append}

-- A guard of `parse_source`.
abbrev guarded : Bool → Source → ErrorCode × Source
guarded b s = if b then (invalid_uri, new_source) else (ok, s)

guarded_ok : (b : Bool) (t s : Source) → guarded b t ≡ (ok, s) → (b ≡ false) × (t ≡ s)
guarded_ok true t s h = ground arith
guarded_ok false t s h = (refl, ap (λ p. p.1) h)

local_ok :
    (a b : Bool) (t s : Source)
    → (if a then (invalid_uri, new_source) else guarded b t) ≡ (ok, s)
    → t ≡ s
local_ok true b t s h = ground arith
local_ok false b t s h = (guarded_ok b t s h).1

module _ (lexically_normal : List ℕ → List ℕ) (uri : List ℕ) where
  pub source_guards :
      {s : Source}
      → parse_source lexically_normal uri ≡ (ok, s)
      → (contains 0 uri ≡ false)
        × (length uri ≤ max_uri_bytes)
        × (parse_scheme lexically_normal uri ≡ (ok, s))
  unfolding parse_source
  source_guards h = ground arith

  -- What is known of an S3 source that `parse_scheme` accepts.
  abbrev S3Path : Source → Type 0
  S3Path s =
      (starts_with uri s3_scheme ≡ true)
        × (refused_s3_path (drop 5 uri) ≡ false)
        × (record { kind = s3; normalized_uri = vsis3_prefix ++ drop 5 uri } ≡ s)
      ⊎ (starts_with uri s3_scheme ≡ false)
        × (starts_with uri vsis3_prefix ≡ true)
        × (refused_s3_path (drop 7 uri) ≡ false)
        × (record { kind = s3; normalized_uri = uri } ≡ s)

  module _ {s : Source} (k : s.kind ≡ s3) where
    scheme_s3 :
        starts_with uri s3_scheme ≡ true → parse_scheme lexically_normal uri ≡ (ok, s) → S3Path s
    unfolding parse_scheme
    scheme_s3 e h =
        let t : Source = record { kind = s3; normalized_uri = vsis3_prefix ++ drop 5 uri } in
        let u : parse_scheme lexically_normal uri ≡ guarded (refused_s3_path (drop 5 uri)) t =
          rw e refl in
        let (r, p) = guarded_ok (refused_s3_path (drop 5 uri)) t s (sym u ∙ h) in inl (e, r, p)

    scheme_vsis3 :
        starts_with uri s3_scheme ≡ false
        → starts_with uri vsis3_prefix ≡ true
        → parse_scheme lexically_normal uri ≡ (ok, s)
        → S3Path s
    unfolding parse_scheme
    scheme_vsis3 e e' h =
        let t : Source = record { kind = s3; normalized_uri = uri } in
        let u : parse_scheme lexically_normal uri ≡ guarded (refused_s3_path (drop 7 uri)) t =
          rw (e, e') refl in
        let (r, p) = guarded_ok (refused_s3_path (drop 7 uri)) t s (sym u ∙ h) in inr (e, e', r, p)

    scheme_local :
        starts_with uri s3_scheme ≡ false
        → starts_with uri vsis3_prefix ≡ false
        → parse_scheme lexically_normal uri ≡ (ok, s)
        → S3Path s
    unfolding parse_scheme
    scheme_local e e' h =
        let t : Source = record { kind = local_file_gdb; normalized_uri = lexically_normal uri } in
        let vsi : Bool = starts_with uri vsi_prefix || contains_string scheme_mark uri in
        let named : Bool = not (ends_with_ascii_case_insensitive uri gdb_suffix) in
        let u : parse_scheme lexically_normal uri
            ≡ (if vsi then (invalid_uri, new_source) else guarded named t) =
          rw (e, e') refl in
        let p : t ≡ s = local_ok vsi named t s (sym u ∙ h) in
        let q : local_file_gdb ≡ s.kind = ap (λ (x : Source). x.kind) p in ground arith

    pub accepted_s3 : parse_source lexically_normal uri ≡ (ok, s) → S3Path s
    accepted_s3 h =
        let (_, _, g) = source_guards h in
        elim (Bool-cases (starts_with uri s3_scheme)) [
          | inl e ↦ scheme_s3 e g
          | inr e ↦ elim (Bool-cases (starts_with uri vsis3_prefix)) [
            | inl e' ↦ scheme_vsis3 e e' g
            | inr e' ↦ scheme_local e e' g
          ]
        ]

-- The uri, as one of the two prefixes and the path behind it.
abbrev pub S3Form : List ℕ → Source → Type 0
S3Form uri s =
    (path : List ℕ) × ((uri ≡ s3_scheme ++ path) ⊎ (uri ≡ vsis3_prefix ++ path))
    × (refused_s3_path path ≡ false)
    × (record { kind = s3; normalized_uri = vsis3_prefix ++ path } ≡ s)

pub accepted-S3Form :
    (lexically_normal : List ℕ → List ℕ) (uri : List ℕ) (s : Source)
    → s.kind ≡ s3
    → parse_source lexically_normal uri ≡ (ok, s)
    → S3Form uri s
accepted-S3Form n uri s k h = elim (accepted_s3 n uri k h) [
  | inl (e, r, p) ↦ (drop 5 uri, inl (starts_with→append uri s3_scheme e), r, p)
  | inr (_, e, r, p) ↦
      let q : uri ≡ vsis3_prefix ++ drop 7 uri = starts_with→append uri vsis3_prefix e in
      (drop 7 uri, inr q, r, ap (λ u. record { kind = s3; normalized_uri = u }) (sym q) ∙ p)
]

-- NUL is no byte of a prefix.
path_without_nul :
    (uri path : List ℕ)
    → (uri ≡ s3_scheme ++ path) ⊎ (uri ≡ vsis3_prefix ++ path)
    → contains 0 uri ≡ false
    → contains 0 path ≡ false
path_without_nul uri path (inl e) h = ap (contains 0) (sym e) ∙ h
path_without_nul uri path (inr e) h = ap (contains 0) (sym e) ∙ h

vsis3-s3_scheme : (path : List ℕ) → starts_with (vsis3_prefix ++ path) s3_scheme ≡ false
unfolding starts_with
vsis3-s3_scheme path = ground arith

vsis3_scheme :
    (n : List ℕ → List ℕ) (path : List ℕ)
    → refused_s3_path path ≡ false
    → parse_scheme n (vsis3_prefix ++ path)
      ≡ (ok, record { kind = s3; normalized_uri = vsis3_prefix ++ path })
unfolding parse_scheme starts_with
vsis3_scheme n path r = rw (vsis3-s3_scheme path, starts_with-append vsis3_prefix path, r) refl

pub vsis3_stable :
    (n : List ℕ → List ℕ) (path : List ℕ)
    → refused_s3_path path ≡ false
    → contains 0 path ≡ false
    → length (vsis3_prefix ++ path) ≤ max_uri_bytes
    → parse_source n (vsis3_prefix ++ path)
      ≡ (ok, record { kind = s3; normalized_uri = vsis3_prefix ++ path })
unfolding parse_source
vsis3_stable n path r z l =
    let short : ltb max_uri_bytes (length (vsis3_prefix ++ path)) ≡ false =
      not_lt→ltb max_uri_bytes (length (vsis3_prefix ++ path)) l in
    rw (short, z, vsis3_scheme n path r) refl

-- Where `parse_source` accepts a URI as an S3 source whose normal form has at most 8192 bytes, it accepts
-- the normal form too and gives the same source.
pub parse_source-normalized_uri :
    (lexically_normal : List ℕ → List ℕ) (uri : List ℕ) (s : Source)
    → s.kind ≡ s3
    → parse_source lexically_normal uri ≡ (ok, s)
    → length s.normalized_uri ≤ max_uri_bytes
    → parse_source lexically_normal s.normalized_uri ≡ (ok, s)
parse_source-normalized_uri n uri s k h l =
    let (path, form, r, p) = accepted-S3Form n uri s k h in
    let z : contains 0 path ≡ false = path_without_nul uri path form (source_guards n uri h).0 in
    let e : vsis3_prefix ++ path ≡ s.normalized_uri = ap (λ (x : Source). x.normalized_uri) p in
    let l' : length (vsis3_prefix ++ path) ≤ max_uri_bytes =
      subst (λ u. length u ≤ max_uri_bytes) (sym e) l in
    ap (parse_source n) (sym e) ∙ vsis3_stable n path r z l' ∙ ap (λ t. (ok, t)) p

-- An S3 URI of 8191 or 8192 bytes is the exception: `parse_source` accepts the URI and refuses the normal form
-- that it gives for it, which is two bytes longer.
pub parse_source_too_long :
    (lexically_normal : List ℕ → List ℕ) (path : List ℕ)
    → 8186 ≤ length path
    → length path ≤ 8187
    → contains 0 path ≡ false
    → refused_s3_path path ≡ false
    → (parse_source lexically_normal (s3_scheme ++ path)
        ≡ (ok, record { kind = s3; normalized_uri = vsis3_prefix ++ path }))
      × (parse_source lexically_normal (vsis3_prefix ++ path) ≡ (invalid_uri, new_source))
unfolding parse_source parse_scheme
parse_source_too_long n path low high z r =
    let short : ltb max_uri_bytes (length (s3_scheme ++ path)) ≡ false = ground arith in
    let long : ltb max_uri_bytes (length (vsis3_prefix ++ path)) ≡ true = ground arith in
    (rw (short, z, starts_with-append s3_scheme path, r) refl, rw long refl)
