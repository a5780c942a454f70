-- ===== src/Lib.antt =====
-- fast-gdb is a C++17 library that reads ESRI FileGDB directories, by itself or through GDAL. This
-- library models parts of it as functions over lists of bytes and explicit states.
--
-- The parts and how they interact (paths below src/edgar/explorgdb):
--   * BinaryReader models common/binary_reader.h and .cpp, the cursor that every parser reads through.
--     The state is `Reader`, the bytes and `pos_`; a method `read_x` is a function of the same name from
--     a reader to its `Outcome` and the reader as it is left. An outcome is a value, the exception
--     std::out_of_range or std::length_error, or undefined behaviour. Children: Bounds (reads of a fixed width), Moves (skip,
--     read_bytes, can_read), Varuint and Varint (the two variable-length integers), Text (names in UTF-16), Floats,
--     Signed.
--   * Varint models common/varint.h and .cpp, the encoders of what the cursor decodes. Children: Encode,
--     RoundTrip, Signed, Buffer and SignedBuffer for the encoders into a caller's buffer, and Double.
--   * Tablx models reader/format/gdb_tablx.h and .cpp, the parser of the file that gives the offset of
--     each row. It runs on BinaryReader's operations. `GdbTablxParser` is its state; `parse` clears it
--     where an operation throws. Children: Offset (one entry), Rows (all of
--     them).
--   * Coordination models adaptive/adaptive_coordination.cpp and the classes of adaptive/adaptive_reader.h
--     that it implements: the registry, leases of fast readers and the token of an external writer. Each
--     function is what a thread does under the registry's mutex; `prepare_external_update`, which waits in
--     the middle, is `prepare_begin` and `prepare_end`. System puts them together as a step relation over
--     the registry and all leases given out; Transfer has the moves of leases and tokens between objects; Keeps,
--     Invariant, Granting and Handing carry the invariant; Exclusion, Exact and Update say what it gives.
--   * Session models adaptive/adaptive_session.cpp over Coordination's registry: `read`, and in Cursor the opening,
--     `next` and `close` of a cursor. The backends' callbacks are parameters, as is what other threads do to the
--     registry while one runs. Reads, Closing and Moving say what an answer, a close and a move mean.
--   * Routing models unified/routing.h and .cpp: which backend serves a request, and which URIs are
--     accepted. Children: Choice, Normal, Prefix and Segments; Bucket, Object and Accepted for what an S3 URI has to be.
--   * Fields models the field types, descriptors and references of common/explorgdb_types.h.
--   * Where models reader/query/query_where_internal.h and .cpp: a clause is text, then tokens (Lexer), an
--     expression (Parser), an expression with the numbers of its fields (Bind), and a compiled clause (Compile),
--     which is asked of rows in the file and of decoded rows (Row, Eval). Eval/Record has how reader/format/gdb_table_record.cpp
--     decodes a field of a record; Counted, Decoded and Both compare that with the scan of Rows. Fids has the intersection of row
--     lists. `Doubles` stands for double, its comparisons, its readings of bytes and integers, and strtod.
--     Parser/Grammar is the grammar of clauses apart from the parser.
--   * Rows models reader/format/field_layout.h and the layouts of reader/format/gdb_table_field_scan.cpp: how the
--     bytes of a row are found to be fields. A pointer into a row is the list of the bytes from there on. Checked
--     and Skip compare it with BinaryReader, RoundTrip with what a row stores, Best and Chosen with its contract.
--   * TablxCache models reader/format/gdb_tablx_cache.h and .cpp: the cache of offset tables, by the identity of the
--     file. The map is a function with its size. Entries has the contract: a list of entries, the last used first.
--   * Utf16 models common/utf16.h and .cpp: names in files to UTF-8 and back. The count of characters is an int: a
--     conversion is a text, std::length_error, or undefined where the size to reserve overflows.
--   * FeatureCursor models reader/api/feature_cursor.cpp and the CursorControl of reader/query/query_engine.h and .cpp:
--     the cursor over the features that a query gives, and the lease that lets one cursor at a time use its engine. A
--     method takes a cursor with the engine's control and returns both. Open has the constructors and open_cursor; Lease
--     and System what any sequence of calls keeps; Remaining, Whole and Moves what a cursor gives.
--   * AttributeIndex models reader/index/gdb_attribute_index.h and .cpp and gdb_attribute_index_query.cpp: the search of
--     an .atx file, a B+ tree. Direct is the query that reads the leaf chain in the file; Pages and Parse are `parse`
--     with the queries over the entries it keeps. A result is an `Answer`: refused, an exception, a read outside the
--     file, or a value. Safe and Ends are about the first alone; Reading, Leaf, Agree, Down and Same compare the two.
--     Keys, Superset and Candidates are about texts in an index, with string_index_key_supported of reader/query/query_engine_combined.cpp.
--   * Base holds what they share: tests, lists, characters, options, masks and shifts, integers, maps. Tests holds concrete runs.
--
-- Bounds and fuel: numbers are natural numbers, with the wrap of size_t, uint64_t and uint32_t written
-- as a remainder. A reader is valid where the cursor is inside a buffer shorter than 2 ^ 63. The loops
-- of `read_varuint` and `read_varint` have eleven rounds: the shift grows by seven, and from 64 on it is
-- undefined, so the eleventh round returns or ends in undefined behaviour, and the fuel never runs out.
-- The encoders recurse on the order of ℕ; the other loops on a list or on a count. The lexer has one
-- round more than there are bytes, and the parser three rounds for each token and three more, as a token is
-- read at least every third call. The scan of an index has
-- a round for each page and one more, as it refuses a page twice. A run of the
-- coordinator has fewer than 2 ^ 64 steps, so that no counter wraps.
--
-- Not modelled: floating-point numbers (their bytes and bit patterns are parameters) and geometry, GDAL and the
-- file system (std::filesystem is a parameter of `normalize_path` and `parse_source`), the clock of the wait,
-- the text of error messages; and the readers of tables (but for the value of one field of a record), spatial
-- indexes and catalogs, the query engine apart from its WHERE clauses and its cursors, and the adaptive
-- backends.
pub mod Base
pub mod BinaryReader
pub mod Varint
pub mod Coordination
pub mod Tablx
pub mod Fields
pub mod Where
pub mod Rows
pub mod Routing
pub mod Tests
pub mod TablxCache
pub mod Utf16
pub mod Session
pub mod FeatureCursor
pub mod AttributeIndex
