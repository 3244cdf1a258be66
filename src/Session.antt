-- ===== src/Session.antt =====
-- session.go: inserting and updating rows, and the handlers of rows; make_query.go.
pub mod Steps
pub mod Update
pub mod MakeQuery
pub mod Handlers
pub mod Insert
