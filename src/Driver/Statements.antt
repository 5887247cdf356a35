-- ===== src/Driver/Statements.antt =====
-- What database/sql does with a connection besides queries: Prepare, Begin and Ping of sql/v1/conn.go, the
-- statements of sql/v1/stmt.go, and the results of sql/v1/result.go. A statement has the connection that
-- made it, which is passed to its methods.
use ignite3_go_client.Base.{List, [], ◌∷◌, Bool, String, if◌then◌else◌}
use ignite3_go_client.Base.Int.{ℤ, negsuc}
use ignite3_go_client.Base.Result.{Result, ok, err, panic, Error, errorf, wrapf, or_wrap}
use ignite3_go_client.ResultSets.Rows.{Cell, Rows, Outcome, row, eof, failed, panicked, next}
use ignite3_go_client.Client.{Socket, Protocol}
use ignite3_go_client.Queries.{QueryPacker}
use ignite3_go_client.Driver.{
  Conn, NamedValue, ExecResult, with_client, exec_context, query_context, driver_connection,
}

pub record Stmt : Type 0 where
  pub query : String

unfoldable pub prepare_stmt : {W : Type 0} → String → Conn W → Result Stmt × Conn W
prepare_stmt query c = with_client (λ client. (ok (record { query = query }), client)) c

unfoldable pub begin_tx : {A W : Type 0} → Conn W → Result A × Conn W
begin_tx c = (err (errorf "Transactions are currently not supported by Ignite3 driver"), c)

unfoldable pub stmt_close : Stmt → Result (Unit {0})
stmt_close st = ok tt

-- Exec and Query without a context
unfoldable pub stmt_exec : {A : Type 0} → Stmt → Result A
stmt_exec st =
    err (errorf "Deprecated: Drivers should implement StmtExecContext instead (or additionally)")

unfoldable pub stmt_query : {A : Type 0} → Stmt → Result A
stmt_query st =
    err (errorf "Deprecated: Drivers should implement StmtQueryContext instead (or additionally)")

-- NumInput: the number of placeholders is not known.
abbrev pub num_input : Stmt → ℤ
num_input st = negsuc 0

abbrev pub last_insert_id : ℤ → Result ℤ
last_insert_id ra = err (errorf "LastInsertId is not supported by Apache Ignite binary client v1.x")

abbrev pub rows_affected : ℤ → Result ℤ
rows_affected ra = ok ra

-- Next gives io.EOF for `eof`.
abbrev pub io_eof : Error
io_eof = errorf "EOF"

module _ {M W : Type 0} (p : Protocol M) (s : Socket W) (k : QueryPacker)
    (sort : List NamedValue → List NamedValue) where
  unfoldable pub stmt_exec_context :
      Stmt → ℤ → List NamedValue → Conn W → Result ExecResult × Conn W
  stmt_exec_context st now args c = exec_context p s k sort now st.query args c

  unfoldable pub stmt_query_context : Stmt → ℤ → List NamedValue → Conn W → Result (Rows M) × Conn W
  stmt_query_context st now args c = query_context p s k sort now st.query args c

  -- `"1" != fmt.Sprintf("%v", dest[0])`: the error that is wrapped is nil, and Wrapf calls its method.
  unfoldable pub check_answer : (Cell → Bool) → Outcome → Result (Unit {0})
  check_answer is_one (row (cell ∷ cells)) = if is_one cell then ok tt else panic
  check_answer is_one (row []) = panic
  check_answer is_one eof = err (wrapf io_eof "failed to read ping query response")
  check_answer is_one (failed e) = err (wrapf e "failed to read ping query response")
  check_answer is_one panicked = panic

  -- The rows of the query are not closed.
  unfoldable pub first_row : (Cell → Bool) → Result (Rows M) × Conn W → Result (Unit {0}) × Conn W
  first_row is_one (ok r, c) =
      let (outcome, _, c') = next (driver_connection p s k sort) 1 r c in
      (check_answer is_one outcome, c')
  first_row is_one (err e, c) = (or_wrap "failed to execute ping query" (err e), c)
  first_row is_one (panic, c) = (panic, c)

  unfoldable pub ping : (Cell → Bool) → ℤ → Conn W → Result (Unit {0}) × Conn W
  ping is_one now c = first_row is_one (query_context p s k sort now "SELECT 1" [] c)
