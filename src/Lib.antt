-- ===== src/Lib.antt =====
-- sqlr: a model of the query preparation of the Go package sqlr, and its correctness.
--
-- sqlr maps Go structs to database rows. A caller writes SQL with `{}` for the columns of a row
-- type; the package scans it, writes the columns and placeholders of the dialect, notes where each
-- input comes from, and keeps the prepared statement. Slices among the arguments are expanded
-- before the query is sent. A separate package, dataloader, answers many keys with few queries.
--
-- The files, and the code that they model:
--   Scanner     private/scanner/scanner.go. `scan` is `Scan`, and `scan_all` the loop of its callers.
--   Quote       private/scanner/quote.go.
--   Wherein     private/wherein/wherein.go. `expand` is `Expand`.
--   Dialect     private/dialect/dialect.go.
--   Naming      private/naming/naming.go.
--   NameMap     ident_map.go and field_map.go.
--   Sql/Clause  sqlclause.go, the state machine of the clauses (`next_clause` is `nextClause`).
--   Sql/Columns column_list.go. `parse` is `Parse`, and `render` is `String`.
--   Sql/Statement  stmt.go, `scanSQL` and `addInputColumns`.
--   Sql/Prepare stmt.go, `newStmt`, and schema.go, `Prepare`.
--   Sql/Execute stmt.go, `getArgs` and `exec`.
--   Sql/Outputs stmt.go, `getOutputs`.
--   Sql/Destination  stmt.go, the checks of `selectRows` on the type of what it fills.
--   Sql/Select  stmt.go, `selectRows` behind these checks, and `selectOne`.
--   Sql/Check   checksql.go.
--   Sql/Table   table.go, `newTable` and `newTableWithConfig`.
--   Session/Steps  session.go: what a session changes, and the calls its methods are made of.
--   Session/Update session.go, `UpdateRow` and `updateRowVersioned`.
--   Session/Insert session.go, `InsertRow` and its helpers, `execForRow` and `Query`.
--   Session/Handlers session.go, `HandleRows` and `callRowHandlers`.
--   Session/MakeQuery  make_query.go: which types of functions are accepted, and as what.
--   Tags        private/column/info.go, `ParseTag`, and path.go, `ColumnName`.
--   Tags/Paths  the methods `Clone` and `Append` of private/column/path.go and index.go, on slices.
--   Cells       null_cell.go: `new_null_cell` is `newNullCell`, and `scan_cell` the methods `Scan`.
--   Cache       stmt_cache.go.
--   DataLoader  dataloader/dataloader.go. `call` is the loader function, `force` a call of a thunk.
--   DataLoader/Make  the checks of `Make`, and what `makeLoadOneFunc` (make_query.go) passes it.
--   Prelude, Go shared helpers, and what the program uses of Go's standard library.
--   Tests       the theorems at concrete inputs.
--
-- A text is the list of its runes. The reader of a scanner is the text that is left; `ReadRune` at
-- its end gives the NUL rune, as the source's `read` does, so that some statements exclude NUL
-- runes. The tables of the `unicode` package are a parameter, the record `Unicode`. A Go error is a
-- constructor of an error type. Go maps are association lists or functions. A number stands for a
-- `reflect.Type`, and for a key of a data loader. Values that reflection reads enter as data: an
-- argument is a scalar or a slice, and a row type is the list of its column infos. The goroutines
-- that share a statement cache are sequences of its operations, since each holds the lock
-- throughout.
--
-- Loops that scan run on fuel. `scan_all` takes one more than the length of the text, since each
-- scan that returns true reads a rune. `parse` of a column list takes two turns for each rune and
-- three more, and would say `out_of_fuel` if it took longer: a keyword takes one turn at most
-- behind the scan that found it, and another scan follows. The two readers of a tag take one more
-- than its length. `itoa` of n takes n + 1 rounds.
--
-- A method of a session is a step on the row, the cache of statements and the database, and gives a
-- value or an error; a panic inside it is an error too. The database is a parameter, the record
-- `Querier`, and so is what the code asks of Go values (`GoValues`) and of `reflect` (`Reflect`),
-- with the documented behaviour of `SetInt` as the hypothesis `Lawful`. The pointers on the way to
-- a field are not nil. The schema's dialect is there, and kv.Wrap of a nil error, as it is called
-- where several rows were updated, gives an error. A call of a thunk gives the loader as it leaves
-- it and, unless it panics, what it returns; the handlers of rows give their calls, and whether the
-- last one panics. The query and key functions, and the callbacks themselves, are taken to return.
--
-- Not modelled: what `Select` of a session does before its handlers are called, the cells for JSON,
-- the bodies of the functions made by reflection, the walk over struct fields
-- (private/column/list.go), the options of a schema, and the search for a dialect among the
-- drivers. These consist of reflection and of calls of database/sql for the most part.
pub mod Prelude
pub mod Go
pub mod Scanner
pub mod Quote
pub mod Wherein
pub mod Dialect
pub mod Naming
pub mod NameMap
pub mod Sql
pub mod Session
pub mod Tags
pub mod Cells
pub mod Cache
pub mod DataLoader
mod Tests
