-- ===== src/Lib.antt =====
-- A model of the Go client for Apache Ignite 3: how it encodes rows and SQL arguments as binary
-- tuples, how it reads them back, and how tables, requests and result sets use them.
--
-- Parts, and the files that model them:
--   * Base: Boolean tests, lists under native numbers, two's complement, and Result, which a Go call
--     with an error becomes: ok, err, or panic. binary/errors/ignite.go is Error in Base/Result.
--   * Wire: the byte orders of encoding/binary.
--   * Integers, Decimals, Temporal: the elements of a tuple. put_int is putBinaryTupleInt and
--     twos_complement_bytes is twosComplementBytes of binary/v1/binary-tuple.go; encode_int_le,
--     encode_decimal_unscaled, decode_big_endian, encode_date and the like are the functions of the
--     same names in binary/v1/tuple.go. Temporal/Calendar holds what they use of package time.
--   * Values: the dynamic values of the API, Uuid.Flip, Timestamp.Scan and the setters
--     (binary/v1/types.go).
--     Decimals/Text is Decimal.String and BigRat of that file (Digits, Values: what the text says), and
--     Decimals/Shortest compares twosComplementBytes with every other payload of a number.
--   * BinaryTuple: BuildBinaryTuple, its conversions (Convert), its layout (Layout), NULL (Nulls) and
--     the size of what it builds (Sizes).
--   * Tuples: NewTupleFromByteArrayWithMetadata; Tuples/Scan: GetValue. Elements, Entries, Loop
--     and RoundTrip show that reading undoes building; Scan/Written, Scan/Special and Scan/Rows follow
--     values through, and Scan/Types and Scan/Ranges state the Go type of what comes
--     out.
--   * Arguments: AddValue, the set functions and Bytes of binary/v1/tuple.go, for SQL arguments.
--   * ColumnTypes and ResultSets: the table of types and the metadata lookups of
--     binary/v1/client-result-set.go; ResultSets/Metadata: its readers of metadata (RoundTrip,
--     Numbering); ResultSets/Rows: rows.Next, Close and Columns of sql/v1/rows.go
--     (Cursor, Nulls, Types: the type assertions; Keeps: what rows may do to their connection;
--     Ends: a loop over Next).
--   * Tables: schemas (binary/v1/client-schemas.go) and UpsertAll and DeleteAll
--     (binary/v1/client-tuple-operations.go), up to the operation that is sent (Keys, Writes; Received: how a
--     receiver reads its payload); Tables/Sends: the same
--     over a client; Tables/Schemas: GetTableSchema, GetTableByName, GetTables and GetTable, as operations of
--     the client (RoundTrip, Names).
--   * Requests: frames and the header of a response (binary/v1/request-operation.go, response.go and
--     response-operation.go).
--   * Msgpack: the wrappers of binary/v1/types.go that do more than call msgpack. Decoder is the
--     decoder of that package; Msgpack/Laws states what the client relies on of it.
--   * Client: Do, Close and the ids of requests (binary/v1/client.go). Answers and Calls: a server's
--     answers, and the refinement of a run of operations; Heartbeat and Handshake: the files of these
--     names, with SendHeartbeat and Connect (Reads, Greetings); Connected: which operations leave a
--     client connected; Interleaving: goroutines that share a client.
--   * Queries: binary/v1/client-sql-and-scan-queries.go and binary/v1/client-partition-awareness.go;
--     Queries/Results reads what a query answers.
--   * Driver: the connection of sql/v1/conn.go, with newRows of sql/v1/rows.go; Driver/DataSources:
--     parseURL of sql/driver.go; Driver/Opening: Open, the connector of sql/connector.go and
--     sql/driver-go1.10.go, and both Connect functions with the dial; Driver/Statements: Prepare, Begin,
--     Ping, sql/v1/stmt.go and sql/v1/result.go. Served: ExecContext against a server; Ordinals: the
--     order of arguments; Lifecycle and Uses: a connection under any sequence of uses.
--   * Tests: runs of the code, and the theorems at concrete inputs.
--
-- How they interact: Tables turn rows into columns and values for BinaryTuple and put the tuples in a
-- request; a response gives ResultSets its messages, whose tuples Tuples takes apart for the cells.
-- Every operation of Tables/Schemas and Queries is a `call` of Client, which puts a payload into a frame
-- of Requests and reads the frame that comes back; Driver fills the Connection that the rows of
-- ResultSets/Rows take, by Queries.
--
-- State and numbers: a method that changes its receiver returns it (Rows, ResponseOperation), and an
-- operation of a client returns the client (Run). Goroutines are a step relation: a request is made in
-- one step, and Do, which holds the mutex, is another. A Go
-- int of the reader is its bit pattern below 2 ^ 64; a signed integer is a ℤ, with `wrap` and
-- `signed` where Go converts. Floats are bit patterns. Bytes are numbers, below 256 where a theorem
-- needs it. Lengths of slices are not bounded by 2 ^ 63: a theorem that needs a bound says so.
--
-- Loops are structural, but for those of math/big: magnitude_loop, bit_len_loop and digits_loop run on
-- fuel n for the number n, which each step divides by 256, by 2 or by 10, so that it is enough; the
-- theorems on decimals hold without a bound.
--
-- Parameters, for code that is not part of the repository: GoLib (floating-point conversion, fmt,
-- time.Parse, SetString of big.Rat), strings.EqualFold and ToUpper, sort.Slice, Dialer (net and tls), Packer, QueryPacker, TextPacker and
-- Decoder (msgpack), Socket (a net.Conn, read through a new buffered reader for each response), UrlLib
-- (net/url, strconv, semver), Strings, and the order in which `range` visits a map.
--
-- Not modelled: finalizers, which log and close what was forgotten, what is only printed, wrappers that
-- only call msgpack, and request.go, whose buffer is the byte sequence that is sent.
pub mod Arguments
pub mod Base
pub mod BinaryTuple
pub mod Client
pub mod ColumnTypes
pub mod Decimals
pub mod Driver
pub mod Integers
pub mod Msgpack
pub mod Queries
pub mod Requests
pub mod ResultSets
pub mod Tables
pub mod Temporal
pub mod Tests
pub mod Tuples
pub mod Values
pub mod Wire
