-- ===== src/Routing/Choice.antt =====
-- Which backend `route` selects, against a description of it by the request.
use fast_gdb.Base.{true, false, ◌≡◌, ◌≢◌, ◌↔◌, ◌⊎◌, arith}
use fast_gdb.Routing.{
  auto, fast_only, gdal_only, no_backend, fast_gdb_backend, gdal_open_file_gdb, local_file_gdb, s3,
  RouteRequest, is_fallback_allowed, route, ok, fast_capability_gap, no_failure, unsupported_source,
  unsupported, backend_unavailable,
}

-- The fast backend may serve the request, and the GDAL backend may.
abbrev pub FastServes : RouteRequest → Type 0
FastServes q =
    (q.source.kind ≡ local_file_gdb) × (q.preference ≢ gdal_only) × (q.fast_capable ≡ true)

abbrev pub GdalServes : RouteRequest → Type 0
GdalServes q =
    (q.gdal_available ≡ true)
    × (q.preference ≢ fast_only)
    × ((q.source.kind ≡ s3)
        ⊎ (q.preference ≡ gdal_only)
        ⊎ (q.fast_capable ≡ false) × (is_fallback_allowed q.fast_gap ≡ true))

fast_choice : (q : RouteRequest) → ((route q).report.selected ≡ fast_gdb_backend) ↔ FastServes q
unfolding route
fast_choice q = ground arith

gdal_choice : (q : RouteRequest) → ((route q).report.selected ≡ gdal_open_file_gdb) ↔ GdalServes q
unfolding route
gdal_choice q = ground arith

no_choice : (q : RouteRequest) → ((route q).report.selected ≡ no_backend) ↔ ((route q).error ≢ ok)
unfolding route
no_choice q = ground arith

-- `route` selects the fast backend exactly for a capable request on a local source that does not ask for
-- GDAL. It selects GDAL exactly where GDAL is available and not ruled out by the preference, and the source
-- is on S3, or GDAL is asked for, or the fast backend is not capable for a reason that allows a fallback.
-- It selects nothing exactly where it returns an error.
pub route-selected :
    (q : RouteRequest)
    → (((route q).report.selected ≡ fast_gdb_backend) ↔ FastServes q)
      × (((route q).report.selected ≡ gdal_open_file_gdb) ↔ GdalServes q)
      × (((route q).report.selected ≡ no_backend) ↔ ((route q).error ≢ ok))
route-selected q = (fast_choice q, gdal_choice q, no_choice q)

abbrev pub FellBack : RouteRequest → Type 0
FellBack q =
    (q.source.kind ≡ local_file_gdb)
    × (q.preference ≡ auto)
    × (q.fast_capable ≡ false)
    × (is_fallback_allowed q.fast_gap ≡ true)
    × (q.gdal_available ≡ true)

-- `route` reports a fallback exactly for a local source, without a preference, that the fast backend
-- cannot serve for a reason that allows it while GDAL is available; the report then names that reason
-- and GDAL, and any other report names no failure.
route-fallback_reason :
    (q : RouteRequest)
    → (((route q).report.reason ≡ fast_capability_gap) ↔ FellBack q)
      × (FellBack q
          → ((route q).report.fallback_reason ≡ q.fast_gap)
            × ((route q).report.selected ≡ gdal_open_file_gdb))
      × (((route q).report.fallback_reason ≢ no_failure) ↔ FellBack q)
unfolding route is_fallback_allowed
route-fallback_reason q = (grind arith, ground arith, ground arith)

-- The error of `route` says why: `unsupported_source` exactly for S3 with the fast backend asked for;
-- `unsupported` exactly for a local source that the fast backend cannot serve, where it is asked for or
-- the reason allows no fallback; no code but these, `backend_unavailable` and `ok` comes back, and
-- `backend_unavailable` only where GDAL is not available.
pub route-error :
    (q : RouteRequest)
    → (((route q).error ≡ unsupported_source) ↔ ((q.source.kind ≡ s3) × (q.preference ≡ fast_only)))
      × (((route q).error ≡ unsupported) ↔ (
          (q.source.kind ≡ local_file_gdb)
          × (q.preference ≢ gdal_only)
          × (q.fast_capable ≡ false)
          × ((q.preference ≡ fast_only) ⊎ (is_fallback_allowed q.fast_gap ≡ false))))
      × ((route q).error ≢ ok
          → ((route q).error ≡ unsupported_source)
            ⊎ ((route q).error ≡ unsupported)
            ⊎ ((route q).error ≡ backend_unavailable) × (q.gdal_available ≡ false))
unfolding route is_fallback_allowed
route-error q = (ground arith, ground arith, grind arith)
