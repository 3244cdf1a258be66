-- ===== src/Sql/Prepare/Cached.antt =====
-- The second `Prepare` of a query.
use sqlr.Go.Unicode.{Unicode}
