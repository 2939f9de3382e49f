-- ===== src/Record/SlottedPage/Rows.antt =====
-- What a page promises: a list of rows, in which a deleted row leaves a gap.
use relational_db_engine.Common.{ℕ, List, Option, none, some, ◌==◌, if◌then◌else◌}
use relational_db_engine.Common.Tabulate.{tabulate}
use relational_db_engine.Core.Memory.{Bytes}
use relational_db_engine.Core.Memory.Splice.{slice}
use relational_db_engine.Record.SlottedPage.Invariant.{count, row_offset, row_size}

-- The row of slot i; one of size 0 is deleted.
unfoldable pub row_at : Bytes → ℕ → Option Bytes
row_at p i = if row_size p i == 0 then none else some (slice p (row_offset p i) (row_size p i))

unfoldable pub rows : Bytes → List (Option Bytes)
rows p = tabulate (count p) 0 (row_at p)
