-- ===== src/Lib.antt =====
-- A model of icebergr, which connects R to Apache Iceberg tables through iceberg-rust: of its Rust
-- library, src/rust/src, which opens catalogs and tables, turns filters into predicates that
-- iceberg-rust pushes down into scans, hands record batches to R one at a time, and appends data; and
-- of the R code that translates an R filter expression into the tree that the library reads.
--
-- The parts and their files:
--   Iceberg    the types of iceberg-rust's `spec` that the program reads, and its catalogs' interface
--   Predicate  src/rust/src/predicate.rs. Node is the JSON expression; Build makes of each node the pair
--              of predicates for the rows where R says TRUE and FALSE (`Truth`), as `build`,
--              `reference`, `compare` (here `compare_node`), `missing`, `membership` and `prefix` do;
--              Literal is `datum`, Decimal `rescale_decimal`, Float the orders on bit patterns, Message
--              the error texts. Meaning says what R means by a tree on a row, Exact that a literal which a
--              32-bit float holds is not changed; Typing which predicates bind to a schema
--   Filter     R/filter.R and `column_index` of R/utils.R: Lookup is the R expressions and the columns
--              that they name, Filter itself `translate_filter`, one function per branch; Meaning says
--              what R means by an expression on a row, Inversion and Branches how each is accepted,
--              Columns which columns it names, Json is `json_string`,
--              Sending `json_scalar` and `filter_to_json`, Document the JSON documents and the one that
--              serde reads as a tree
--   Errors     src/rust/src/errors.rs. Userinfo is `scrub_userinfo`, Params `scrub_params`; what they
--              find and withhold is in Redaction
--   Runtime    src/rust/src/runtime.rs. `block_on` over the list of what its poll slices find; Aborts is
--              the texts of its panics, Session the calls, interrupts and forks of a session in any
--              order, as a step relation
--   Panic      src/rust/src/panic.rs, the panic hook
--   Reader     src/rust/src/arrow_bridge.rs, `parse_addr` and `BlockingBatchReader`; Exchange is the
--              structs that R allocates, as slots of a memory
--   Table      src/rust/src/table.rs. Label is `type_label`, Snapshots the resolution
--              of snapshots and the history, Handle the opening, reloading, creating and registering of
--              tables, Listing the columns of schemas, partitions, snapshots and properties, Existence
--              `rs_table_exists`
--   Scan       src/rust/src/scan.rs, `configure` and `fallback_schema`; Stream is `rs_scan_to_stream`,
--              Plan `rs_scan_plan`; Agreement and Decimal are about what is configured
--   Write      src/rust/src/write.rs. Location is the checks on metadata locations, Align
--              `align_batch`, Slices the write loop, Append `rs_table_append` with the list of what it
--              asks of the warehouse
--   Catalog    src/rust/src/catalog.rs, the choice of a storage backend and the connection; Namespaces
--              is the operations on namespaces
--   Build      src/rust/src/lib.rs, what a build reports, and src/rust/build.rs, its reading of Cargo.lock
--   Prelude    texts as code points, lists, integers, results: what the files share
--
-- An R filter becomes a tree of nodes in Filter, whose values JSON values stand for in
-- Predicate.Node's trees. A scan (Scan) resolves its snapshot and schema with Table, its filter with
-- Predicate, and gives its stream to Reader; an append checks the table with Write.Location, aligns
-- the batches with Write.Align and writes them by Write.Slices; every upstream error passes through
-- `ctx` of Errors.
--
-- Conventions. Text is a list of code points; every byte that the program looks for is ASCII. Native
-- numbers carry their widths (`parse_signed 64`, `fits_signed`). A message is a constructor with what
-- it quotes. Floats are bit patterns. A panic is a value (`Abort`, `Caught`). Where a handler waits
-- with `block_on`, it has what the crate answers: a wait that ends early unwinds, which is Runtime's
-- part, and what R then hears of a read is Reader.Aborted's. A loop of the source recurs on its list,
-- or on fuel: `slice_loop` on as many rounds as there are rows, since each slice holds one; the
-- scrubbing loops on one round more than the text is long, since each consumes a character.
--
-- The crates that the program calls are parameters: `Engine` (serde_json, chrono, iceberg-rust's
-- literals and predicates), `Rows` (how a predicate of iceberg-rust matches a row, as named laws, and
-- R's own order of values), `Warehouse` and `Arrow` (tables, writer, transaction, casts), with
-- `WriterLaws` where the rows of a table count, `Scanner` (the planner of a scan, arrow's FFI),
-- `CatalogApi` (a catalog, whose calls take and leave the state of the world), `Language` and `Vectors`
-- (R: vectors, their classes and formats, evaluation, `deparse1` and `tolower`), and `DatumTypes` and
-- `Binding` (the type of each literal, and what iceberg-rust's predicates bind to).
-- Predicate.Meaning.Tests, Write.Tests and Table.Tests give concrete ones. What comes out of a hash map
-- is a list in some order.
--
-- Not modelled: reference counts, `Drop` and what the unsafe blocks take for granted of R's structs;
-- of the R package all but the translation of filters; serde's parsing of the text that
-- `filter_to_json` makes, which `build_predicate` takes as a parameter.
pub mod Prelude
pub mod Iceberg
pub mod Errors
pub mod Filter
pub mod Table
pub mod Predicate
pub mod Write
pub mod Runtime
pub mod Panic
pub mod Reader
pub mod Catalog
pub mod Scan
pub mod Build
