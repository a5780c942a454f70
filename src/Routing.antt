-- ===== src/Routing.antt =====
-- unified/routing.h and routing.cpp of src/edgar/explorgdb: which backend serves a source, and what a
-- source URI may be. A string is the list of its bytes, read in the "C" locale; an error is its code,
-- the text of its message is left out.
pub mod Choice
pub mod Prefix
pub mod Normal
pub mod Bucket
pub mod Object
pub mod Accepted
pub mod Segments
use fast_gdb.Base.{
  ℕ, zero, suc, ◌+◌, ◌-◌, Bool, true, false, not, ◌&&◌, ◌||◌, List, [], ◌∷◌, ◌++◌, ltb, leb, ◌==◌,
  if◌then◌else◌, length, take, drop,
}
use fast_gdb.Base.Chars.{between, tolower, isalnum}
use fast_gdb.Coordination.{is_empty}

pub data BackendPreference : Type 0 where
  auto fast_only gdal_only : BackendPreference

pub data Backend : Type 0 where
  no_backend fast_gdb_backend gdal_open_file_gdb : Backend

pub data SourceKind : Type 0 where
  local_file_gdb s3 : SourceKind

pub data ErrorCode : Type 0 where
  ok invalid_uri invalid_request backend_unavailable unsupported_source unsupported : ErrorCode
  source_not_found layer_not_found feature_not_found ambiguous_layer schema_mismatch : ErrorCode
  source_busy open_failed read_failed source_changed reader_expired cancelled : ErrorCode
  deadline_exceeded result_limit_exceeded runtime_version_mismatch : ErrorCode
  extension_unavailable : ErrorCode

pub data RouteReason : Type 0 where
  local_fast_preferred explicit_fast explicit_gdal remote_requires_gdal : RouteReason
  fast_capability_gap : RouteReason

pub data FailureKind : Type 0 where
  no_failure capability_gap unsupported_fid unsupported_query unsupported_geometry : FailureKind
  invalid_request source_not_found permission_denied authentication : FailureKind
  network_configuration corrupt_data schema_mismatch source_changed reader_expired : FailureKind
  cancelled deadline_exceeded result_limit_exceeded open_failure read_failure : FailureKind

pub record Source : Type 0 where
  pub kind : SourceKind
  pub normalized_uri : List ℕ

abbrev pub new_source : Source
new_source = record { kind = local_file_gdb; normalized_uri = [] }

pub record RouteRequest : Type 0 where
  pub source : Source
  pub preference : BackendPreference
  pub fast_capable : Bool
  pub fast_gap : FailureKind
  pub gdal_available : Bool

pub record BackendReport : Type 0 where
  pub requested : BackendPreference
  pub selected : Backend
  pub reason : RouteReason
  pub source_kind : SourceKind
  pub fallback_reason : FailureKind

pub record RouteResult : Type 0 where
  pub report : BackendReport
  pub error : ErrorCode

abbrev pub is_s3 : SourceKind → Bool
is_s3 s3 = true
is_s3 local_file_gdb = false

abbrev pub is_fast_only : BackendPreference → Bool
is_fast_only fast_only = true
is_fast_only _ = false

abbrev pub is_gdal_only : BackendPreference → Bool
is_gdal_only gdal_only = true
is_gdal_only _ = false

unfoldable pub is_fallback_allowed : FailureKind → Bool
is_fallback_allowed capability_gap = true
is_fallback_allowed unsupported_fid = true
is_fallback_allowed unsupported_query = true
is_fallback_allowed unsupported_geometry = true
is_fallback_allowed _ = false

abbrev pub route_error : RouteRequest → ErrorCode → RouteResult
route_error request code = record {
  report = record {
    requested = request.preference;
    selected = no_backend;
    reason = local_fast_preferred;
    source_kind = request.source.kind;
    fallback_reason = no_failure;
  };
  error = code;
}

abbrev pub select : RouteRequest → Backend → RouteReason → FailureKind → RouteResult
select request backend reason fallback_reason = record {
  report = record {
    requested = request.preference;
    selected = backend;
    reason = reason;
    source_kind = request.source.kind;
    fallback_reason = fallback_reason;
  };
  error = ok;
}

-- `route` on an S3 source.
abbrev pub route_s3 : RouteRequest → RouteResult
route_s3 request =
    if is_fast_only request.preference
    then route_error request unsupported_source
    else (if not request.gdal_available
        then route_error request backend_unavailable
        else select request gdal_open_file_gdb
            (if is_gdal_only request.preference then explicit_gdal else remote_requires_gdal)
            no_failure)

-- `route` where the fast backend cannot serve the request.
abbrev pub route_gap : RouteRequest → RouteResult
unfolding is_fallback_allowed
route_gap request =
    if is_fast_only request.preference || not (is_fallback_allowed request.fast_gap)
    then route_error request unsupported
    else (if not request.gdal_available
        then route_error request backend_unavailable
        else select request gdal_open_file_gdb fast_capability_gap request.fast_gap)

unfoldable pub route : RouteRequest → RouteResult
unfolding is_fallback_allowed
route request =
    if is_s3 request.source.kind
    then route_s3 request
    else (if is_gdal_only request.preference
        then (if not request.gdal_available
            then route_error request backend_unavailable
            else select request gdal_open_file_gdb explicit_gdal no_failure)
        else (if request.fast_capable
            then select request fast_gdb_backend
                (if is_fast_only request.preference then explicit_fast else local_fast_preferred)
                no_failure
            else route_gap request))

abbrev pub max_uri_bytes : ℕ
max_uri_bytes = 8192

-- `value.compare(0, prefix.size(), prefix) == 0`, for a value that is no shorter.
abbrev pub bytes_eq : List ℕ → List ℕ → Bool
bytes_eq [] [] = true
bytes_eq (x ∷ xs) (y ∷ ys) = x == y && bytes_eq xs ys
bytes_eq _ _ = false

unfoldable pub starts_with : List ℕ → List ℕ → Bool
starts_with value prefix =
    leb (length prefix) (length value) && bytes_eq (take (length prefix) value) prefix

abbrev pub lower_eq : List ℕ → List ℕ → Bool
lower_eq [] [] = true
lower_eq (x ∷ xs) (y ∷ ys) = tolower x == tolower y && lower_eq xs ys
lower_eq _ _ = false

unfoldable pub ends_with_ascii_case_insensitive : List ℕ → List ℕ → Bool
ends_with_ascii_case_insensitive value suffix =
    if ltb (length value) (length suffix)
    then false
    else lower_eq (drop (length value - length suffix) value) suffix

-- `find` of one byte, and of a string.
abbrev pub contains : ℕ → List ℕ → Bool
contains b [] = false
contains b (c ∷ cs) = c == b || contains b cs

unfoldable pub contains_string : List ℕ → List ℕ → Bool
unfolding starts_with
contains_string s [] = starts_with [] s
contains_string s (c ∷ cs) = starts_with (c ∷ cs) s || contains_string s cs

-- "..", and the loop of `has_parent_segment` with the bytes of the segment it is in.
abbrev pub parent : List ℕ
parent = b'.' ∷ b'.' ∷ []

unfoldable pub parent_segment_from : List ℕ → List ℕ → Bool
parent_segment_from segment [] = bytes_eq segment parent
parent_segment_from segment (c ∷ cs) =
    let next = parent_segment_from [] cs in
    let same = parent_segment_from (segment ++ (c ∷ [])) cs in
    if c == b'/' then bytes_eq segment parent || next else same

unfoldable pub has_parent_segment : List ℕ → Bool
unfolding parent_segment_from
has_parent_segment path = parent_segment_from [] path

-- `path.substr(0, path.find('/'))`: all of it where there is no slash.
abbrev pub bucket_of : List ℕ → List ℕ
bucket_of [] = []
bucket_of (c ∷ cs) = let rest = bucket_of cs in if c == b'/' then [] else c ∷ rest

-- The loop of `valid_s3_bucket`.
abbrev pub bucket_bytes : Bool → List ℕ → Bool
bucket_bytes previous_dot [] = true
bucket_bytes previous_dot (c ∷ cs) =
    let dot = c == b'.' in
    let rest = bucket_bytes dot cs in
    if not (between 97 122 c || between 48 57 c || c == b'-' || dot) || dot && previous_dot
    then false
    else rest

abbrev pub front_is : (ℕ → Bool) → List ℕ → Bool
front_is test [] = false
front_is test (c ∷ cs) = test c

abbrev pub back_is : (ℕ → Bool) → List ℕ → Bool
back_is test [] = false
back_is test (c ∷ []) = test c
back_is test (c ∷ d ∷ ds) = back_is test (d ∷ ds)

unfoldable pub valid_s3_bucket : List ℕ → Bool
valid_s3_bucket path =
    let bucket = bucket_of path in
    if not (contains b'/' path)
      || ltb (length bucket) 3
      || ltb 63 (length bucket)
      || not (front_is isalnum bucket)
      || not (back_is isalnum bucket)
    then false
    else bucket_bytes false bucket

abbrev pub gdb_suffix : List ℕ
gdb_suffix = b'.' ∷ b'g' ∷ b'd' ∷ b'b' ∷ []

abbrev pub scheme_mark : List ℕ
scheme_mark = b':' ∷ b'/' ∷ b'/' ∷ []

abbrev pub s3_scheme : List ℕ
s3_scheme = b's' ∷ b'3' ∷ scheme_mark

abbrev pub vsi_prefix : List ℕ
vsi_prefix = b'/' ∷ b'v' ∷ b's' ∷ b'i' ∷ []

abbrev pub vsis3_prefix : List ℕ
vsis3_prefix = vsi_prefix ++ (b's' ∷ b'3' ∷ b'/' ∷ [])

-- The condition that both S3 branches of `parse_source` refuse a path for.
unfoldable pub refused_s3_path : List ℕ → Bool
unfolding contains_string has_parent_segment valid_s3_bucket ends_with_ascii_case_insensitive
refused_s3_path path =
    is_empty path
    || front_is (λ c. c == b'/') path
    || contains b'?' path
    || contains b'@' path
    || contains_string (b'/' ∷ b'/' ∷ []) path
    || has_parent_segment path
    || not (valid_s3_bucket path)
    || not (ends_with_ascii_case_insensitive path gdb_suffix)

-- `parse_source` past the checks of the size and of NUL. `lexically_normal` stands for the method of
-- std::filesystem::path.
unfoldable pub parse_scheme : (List ℕ → List ℕ) → List ℕ → ErrorCode × Source
unfolding starts_with refused_s3_path contains_string ends_with_ascii_case_insensitive
parse_scheme lexically_normal uri =
    if starts_with uri s3_scheme
    then (if refused_s3_path (drop 5 uri)
        then (invalid_uri, new_source)
        else (ok, record { kind = s3; normalized_uri = vsis3_prefix ++ drop 5 uri }))
    else (if starts_with uri vsis3_prefix
        then (if refused_s3_path (drop 7 uri)
            then (invalid_uri, new_source)
            else (ok, record { kind = s3; normalized_uri = uri }))
        else (if starts_with uri vsi_prefix || contains_string scheme_mark uri
            then (invalid_uri, new_source)
            else (if not (ends_with_ascii_case_insensitive uri gdb_suffix)
                then (invalid_uri, new_source)
                else (
                  ok,
                  record { kind = local_file_gdb; normalized_uri = lexically_normal uri },
                ))))

unfoldable pub parse_source : (List ℕ → List ℕ) → List ℕ → ErrorCode × Source
unfolding parse_scheme
parse_source lexically_normal uri =
    if is_empty uri
    then (invalid_uri, new_source)
    else (if ltb max_uri_bytes (length uri)
        then (invalid_uri, new_source)
        else (if contains 0 uri
            then (invalid_uri, new_source)
            else parse_scheme lexically_normal uri))
