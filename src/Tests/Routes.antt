-- ===== src/Tests/Routes.antt =====
-- Requests and URIs for the routing of unified/routing.cpp.
use fast_gdb.Base.{
  ℕ, true, false, List, [], ◌∷◌, ◌++◌, ◌≡◌, ◌≢◌, ◌↔◌, ◌⊎◌, ◌≤◌, length, All, refl, arith,
}
use fast_gdb.Routing.{
  auto, fast_only, fast_gdb_backend, gdal_open_file_gdb, no_backend, s3, local_file_gdb, Source,
  RouteRequest, unsupported_query, unsupported_source, unsupported, backend_unavailable, route, ok,
  starts_with, parse_scheme, contains_string, parent_segment_from, valid_s3_bucket,
  ends_with_ascii_case_insensitive, is_fallback_allowed, gdal_only, new_source, parse_source,
  s3_scheme, vsis3_prefix, refused_s3_path, has_parent_segment, max_uri_bytes,
}
use fast_gdb.Routing.Choice.{FastServes, GdalServes, route-selected, route-error}
use fast_gdb.Routing.Segments.{ParentSegment, has_parent_segment-ParentSegment}
use fast_gdb.Routing.Accepted.{object_source, parse_source-IsObject}
use fast_gdb.Routing.Normal.{parse_source-normalized_uri}
use fast_gdb.Routing.Object.{IsObject}

-- A local request that the fast backend cannot serve, with GDAL at hand.
abbrev fallback : RouteRequest
fallback = record {
  source = new_source;
  preference = auto;
  fast_capable = false;
  fast_gap = unsupported_query;
  gdal_available = true;
}

fallback_runs : (route fallback).report.selected ≡ gdal_open_file_gdb
unfolding route is_fallback_allowed
fallback_runs = refl

route-selected_example :
    (((route fallback).report.selected ≡ fast_gdb_backend) ↔ FastServes fallback)
    × (((route fallback).report.selected ≡ gdal_open_file_gdb) ↔ GdalServes fallback)
    × (((route fallback).report.selected ≡ no_backend) ↔ ((route fallback).error ≢ ok))
route-selected_example = route-selected fallback

-- S3 with the fast backend asked for.
abbrev fast_on_s3 : RouteRequest
fast_on_s3 = record fallback {
  source = record { kind = s3; normalized_uri = vsis3_prefix };
  preference = fast_only;
}

route-error_example :
    (((route fast_on_s3).error ≡ unsupported_source)
      ↔ ((fast_on_s3.source.kind ≡ s3) × (fast_on_s3.preference ≡ fast_only)))
    × (((route fast_on_s3).error ≡ unsupported) ↔ (
        (fast_on_s3.source.kind ≡ local_file_gdb)
        × (fast_on_s3.preference ≢ gdal_only)
        × (fast_on_s3.fast_capable ≡ false)
        × ((fast_on_s3.preference ≡ fast_only)
            ⊎ (is_fallback_allowed fast_on_s3.fast_gap ≡ false))))
    × ((route fast_on_s3).error ≢ ok
        → ((route fast_on_s3).error ≡ unsupported_source)
          ⊎ ((route fast_on_s3).error ≡ unsupported)
          ⊎ ((route fast_on_s3).error ≡ backend_unavailable) × (fast_on_s3.gdal_available ≡ false))
route-error_example = route-error fast_on_s3

-- a/../b
abbrev climbing : List ℕ
climbing = b'a' ∷ b'/' ∷ b'.' ∷ b'.' ∷ b'/' ∷ b'b' ∷ []

has_parent_segment-ParentSegment_example :
    (has_parent_segment climbing ≡ true) ↔ ParentSegment climbing
has_parent_segment-ParentSegment_example = has_parent_segment-ParentSegment climbing

-- abc/d.gdb
abbrev tail : List ℕ
tail = b'/' ∷ b'd' ∷ b'.' ∷ b'g' ∷ b'd' ∷ b'b' ∷ []

abbrev path : List ℕ
path = b'a' ∷ b'b' ∷ b'c' ∷ tail

abbrev same : List ℕ → List ℕ
same uri = uri

abbrev source : Source
source = record { kind = s3; normalized_uri = vsis3_prefix ++ path }

accepted : parse_source same (s3_scheme ++ path) ≡ (ok, source)
unfolding parse_source parse_scheme starts_with refused_s3_path contains_string has_parent_segment
    parent_segment_from valid_s3_bucket ends_with_ascii_case_insensitive
accepted = refl

parse_source-IsObject_example :
    ((source.kind ≡ s3) × (parse_source same (s3_scheme ++ path) ≡ (ok, source))) ↔ (
      (length (s3_scheme ++ path) ≤ max_uri_bytes)
      × All (λ c. c ≢ 0) (s3_scheme ++ path)
      × (p : List ℕ) × ((s3_scheme ++ path ≡ s3_scheme ++ p)
          ⊎ (s3_scheme ++ path ≡ vsis3_prefix ++ p))
      × (object_source p ≡ source)
      × IsObject p)
parse_source-IsObject_example = parse_source-IsObject same (s3_scheme ++ path) source

parse_source-normalized_uri_example : parse_source same (vsis3_prefix ++ path) ≡ (ok, source)
parse_source-normalized_uri_example =
    parse_source-normalized_uri same (s3_scheme ++ path) source refl accepted (omega arith)
